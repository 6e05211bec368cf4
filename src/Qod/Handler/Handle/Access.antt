-- ===== src/Qod/Handler/Handle/Access.antt =====
-- What reaches the session manager through the handlers of af_core/src/qod/qod_handler.cpp.
use phine_af.Prelude.{ℕ, String, ◌≡◌, refl, ◌⊎◌, inl, inr, false, ◌==◌, none, some, is_empty}
use phine_af.Outcome.{Outcome, returns, throws, undefined, lift, ◌>>=◌, Outcome-cases}
use phine_af.Json.{JsonLib, JsonReader, JsonItems, Message, Answer}
use phine_af.Ue.Common.{Common}
use phine_af.Qod.Types.{QosProfileMapping, QodSession}
use phine_af.Qod.Store.{get_session_by_id}
use phine_af.Qod.Sessions.{get_session, extend_session_duration}
use phine_af.Qod.Lifecycle.{CreateSessionRequest, create_session, delete_session}
use phine_af.Qod.Handler.{HandlerLib, QodRequestContext, SinkCredential}
use phine_af.Qod.Handler.Read.{
  Checked, done, refused, failed, faulty, read_create_request, read_extension,
}
use phine_af.Qod.Handler.Read.Valid.{IsAcceptable, Grants, request-IsAcceptable}
use phine_af.Qod.Handler.Handle.{
  Manager, recovered, extend_in, on_checked, create_in, create_requested, extend_requested,
  extended_response, delete_requested, deleted_response, extract_session_id, found_response,
  handle_create_session, handle_get_session, handle_delete_session, handle_extend_session,
}

module _ (J : JsonLib) (R : JsonReader J) (I : JsonItems J) (L : HandlerLib J) {C : Common} where
  -- The manager is as it was, or as the creation of a session leaves it for an acceptable request.
  unfoldable pub CreatesAcceptable :
      (QosProfileMapping → J.Json)
      → Answer
      → (ℕ → String)
      → ℕ
      → Message
      → Manager C
      → Manager C
      → Type 0
  unfolding IsAcceptable
  CreatesAcceptable serialize answer dis now message m after =
      (after ≡ m)
      ⊎ ((c : QodRequestContext) × (L.extract_context message ≡ returns c)
          × (r : CreateSessionRequest SinkCredential) × IsAcceptable J R I L c r
          × (after ≡ (create_session J serialize answer r dis now m).1))

  created-after :
      (serialize : QosProfileMapping → J.Json) (answer : Answer) (dis : ℕ → String) (now : ℕ)
      (c : QodRequestContext) (r : CreateSessionRequest SinkCredential) (m : Manager C)
      → (create_requested J R I L serialize answer dis now c r m).1
        ≡ (create_session J serialize answer r dis now m).1
  unfolding create_requested
  created-after serialize answer dis now c r m =
      elim (Outcome-cases (create_session J serialize answer r dis now m).0) [
        | inl (s, e) ↦ rw e refl
        | inr (inl (x, e)) ↦ rw e refl
        | inr (inr e) ↦ rw e refl
      ]

  module _ (serialize : QosProfileMapping → J.Json) (answer : Answer) (dis : ℕ → String) (now : ℕ)
      (message : Message) where
    checked-creates :
        (c : QodRequestContext)
        → L.extract_context message ≡ returns c
        → (x : Checked (CreateSessionRequest SinkCredential)) (m : Manager C)
        → Grants (IsAcceptable J R I L c) x
        → CreatesAcceptable serialize answer dis now message m
            (on_checked J R I L c.correlation_id x
              (create_requested J R I L serialize answer dis now c)
              m).1
    unfolding CreatesAcceptable Grants
    checked-creates c known (done r) m h =
        inr (c, known, r, h, created-after serialize answer dis now c r m)
    checked-creates c known (refused status code text) m h = inl refl
    checked-creates c known (failed e) m h = inl refl
    checked-creates c known faulty m h = inl refl

    body-creates :
        (c : QodRequestContext)
        → L.extract_context message ≡ returns c
        → (o : Outcome J.Json) (m : Manager C)
        → CreatesAcceptable serialize answer dis now message m
            (create_in J R I L serialize answer dis now c o m).1
    unfolding create_in CreatesAcceptable
    body-creates c known (returns j) m =
        checked-creates c known (read_create_request J R I L c now j) m
          (request-IsAcceptable J R I L c now j)
    body-creates c known (throws e) m = inl refl
    body-creates c known undefined m = inl refl

    context-creates :
        (o : Outcome QodRequestContext) (body : Outcome J.Json) (m : Manager C)
        → L.extract_context message ≡ o
        → CreatesAcceptable serialize answer dis now message m
            ((lift o >>= λ c. create_in J R I L serialize answer dis now c body) m).1
    unfolding CreatesAcceptable
    context-creates (returns c) body m known = body-creates c known body m
    context-creates (throws e) body m known = inl refl
    context-creates undefined body m known = inl refl

  -- A message that asks for a session changes the session manager at most by the creation of a
  -- session for an acceptable request: it has the consumer of the context, a device exactly if the
  -- authentication is 2-legged, which is then well-formed, a server with an address, ordered ranges
  -- of ports and no port above 65535, a duration of at least a second, and no sink but an HTTPS URL.
  pub handle_create-acceptable :
      (serialize : QosProfileMapping → J.Json) (answer : Answer) (dis : ℕ → String) (now : ℕ)
      (message : Message) (m : Manager C)
      → CreatesAcceptable serialize answer dis now message m
          (handle_create_session J R I L serialize answer dis now message m).1
  unfolding handle_create_session
  handle_create-acceptable serialize answer dis now message m =
      context-creates serialize answer dis now message (L.extract_context message)
        (J.parse message.payload) m refl

  module _ (c : QodRequestContext) (i : String) (s : QodSession SinkCredential) (m : Manager C)
      (stored : get_session_by_id i m.qod_state_manager ≡ some s)
      (foreign : (s.api_consumer_id == c.api_consumer_id) ≡ false) where
    get-none : get_session i c.api_consumer_id m ≡ none
    unfolding get_session
    get-none = rw (get_session, stored, foreign) refl

    delete-false :
        (answer : Answer) (now : ℕ)
        → delete_session J answer i c.api_consumer_id now m ≡ (returns false, m)
    unfolding delete_session
    delete-false answer now = rw (delete_session, stored, foreign) refl

    extend-none :
        (extra : ℕ)
        → extend_session_duration
            (record { session_id = i; requested_additional_duration = extra })
            c.api_consumer_id
            m
          ≡ (returns none, m)
    unfolding extend_session_duration
    extend-none extra = rw (extend_session_duration, stored, foreign) refl

    checked-same :
        (x : Checked ℕ)
        → (on_checked J R I L c.correlation_id x (extend_requested J R I L c i) m).1 ≡ m
    unfolding extend_requested extended_response
    checked-same (done extra) = rw (extend-none extra) refl
    checked-same (refused status code text) = refl
    checked-same (failed e) = refl
    checked-same faulty = refl

    body-same : (o : Outcome J.Json) → (extend_in J R I L c i o m).1 ≡ m
    unfolding extend_in
    body-same (returns j) = checked-same (read_extension J R I L j)
    body-same (throws e) = refl
    body-same undefined = refl

  -- When the helpers read a context and an identifier, which is not empty, of a message, its consumer
  -- does not reach the stored session of another consumer under it: the answer to a request for it
  -- is that it is not found, and to one to delete it that the deletion fails, with the manager as
  -- it was, and a request to extend it leaves the manager as it was, whatever its body is.
  pub foreign-unreached :
      (answer : Answer) (now : ℕ) (message : Message) (c : QodRequestContext) (i : String)
      (s : QodSession SinkCredential) (m : Manager C)
      → L.extract_context message ≡ returns c
      → extract_session_id J R I L message ≡ returns i
      → is_empty i ≡ false
      → get_session_by_id i m.qod_state_manager ≡ some s
      → (s.api_consumer_id == c.api_consumer_id) ≡ false
      → (handle_get_session J R I L message m ≡ (
        recovered J R I L c.correlation_id
            (L.create_error_response 404 L.not_found "Session not found" c.correlation_id),
        m,
      ))
        × (handle_delete_session J R I L answer now message m ≡ (
          recovered J R I L c.correlation_id
              (L.create_error_response 400 L.not_found "Session deletion failed" c.correlation_id),
          m,
        ))
        × ((handle_extend_session J R I L message m).1 ≡ m)
  unfolding handle_get_session handle_delete_session delete_requested handle_extend_session
      found_response deleted_response
  foreign-unreached answer now message c i s m known named filled stored foreign = (
    rw (known, named, filled, get-none c i s m stored foreign) refl,
    rw (known, named, filled, delete-false c i s m stored foreign answer now) refl,
    rw (known, named, filled) (body-same c i s m stored foreign (J.parse message.payload)),
  )
