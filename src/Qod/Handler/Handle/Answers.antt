-- ===== src/Qod/Handler/Handle/Answers.antt =====
-- What every handler of af_core/src/qod/qod_handler.cpp answers.
use phine_af.Prelude.{ℕ, arith, String, ◌≡◌, refl, ◌⊎◌, inl, inr, is_empty, Bool-cases}
use phine_af.Outcome.{Outcome, Method, returns, throws, undefined, lift, ◌>>=◌, Outcome-cases}
use phine_af.Json.{JsonLib, JsonReader, JsonItems, Message, Answer}
use phine_af.Ue.Common.{Common}
use phine_af.Qod.Types.{QosProfileMapping}
use phine_af.Qod.Sessions.{get_session}
use phine_af.Qod.Handler.{HandlerLib, QodRequestContext}
use phine_af.Qod.Handler.Read.{
  Checked, done, refused, failed, faulty, read_create_request, read_extension,
}
use phine_af.Qod.Handler.Handle.{
  Manager, extract_session_id, found_response, recovered, guarded, on_checked, on_body,
  on_session_id, error, read_retrieval, retrieve_requested, create_in, create_requested,
  extend_requested, extend_in, delete_requested, handle_create_session, handle_get_session,
  handle_delete_session, handle_extend_session, retrieve_in, handle_retrieve_sessions,
}

module _ (J : JsonLib) (R : JsonReader J) (I : JsonItems J) (L : HandlerLib J) where
  -- An exception of the helpers that are called outside of the `try` blocks for the message, or of
  -- the one that makes an error response.
  unfoldable pub IsOfHelper : Message → String → Type 0
  IsOfHelper message e =
      (L.extract_context message ≡ throws e)
      ⊎ (((k : String) × (L.extract_path_param message k ≡ throws e))
          ⊎ ((status : ℕ) × (code : String) × (text : String) × (correlation : String)
              × (L.create_error_response status code text correlation ≡ throws e)))

  -- A response, undefined behaviour, or an exception of those helpers.
  unfoldable pub IsAnswered : Message → Outcome Message → Type 0
  unfolding IsOfHelper
  IsAnswered message r =
      (r ≡ undefined)
      ⊎ (((a : Message) × (r ≡ returns a)) ⊎ ((e : String) × (r ≡ throws e) × IsOfHelper message e))

  error-IsAnswered :
      (message : Message) (correlation : String) (status : ℕ) (code text : String)
      → IsAnswered message (error J R I L correlation status code text)
  unfolding IsAnswered
  error-IsAnswered message correlation status code text =
      elim (Outcome-cases (L.create_error_response status code text correlation)) [
        | inl (a, e) ↦ inr (inl (a, e))
        | inr (inl (x, e)) ↦ inr (inr (x, e, inr (inr (status, code, text, correlation, e))))
        | inr (inr e) ↦ inl e
      ]

  recovered-IsAnswered :
      (message : Message) (correlation : String) (x : Outcome Message)
      → IsAnswered message (recovered J R I L correlation x)
  unfolding IsAnswered
  recovered-IsAnswered message correlation (returns a) = inr (inl (a, refl))
  recovered-IsAnswered message correlation (throws e) =
      error-IsAnswered message correlation 500 "INTERNAL_ERROR" "Internal server error"
  recovered-IsAnswered message correlation undefined = inl refl

  on_checked-IsAnswered :
      {S A : Type 0} (message : Message) (correlation : String) (c : Checked A)
      (f : A → Method S Message) (m : S)
      → IsAnswered message (on_checked J R I L correlation c f m).0
  unfolding IsAnswered
  on_checked-IsAnswered message correlation (done a) f m =
      recovered-IsAnswered message correlation (f a m).0
  on_checked-IsAnswered message correlation (refused status code text) f m =
      recovered-IsAnswered message correlation (error J R I L correlation status code text)
  on_checked-IsAnswered message correlation (failed e) f m =
      error-IsAnswered message correlation 500 "INTERNAL_ERROR" "Internal server error"
  on_checked-IsAnswered message correlation faulty f m = inl refl

  on_body-IsAnswered :
      {S : Type 0} (message : Message) (correlation : String) (o : Outcome J.Json)
      (f : J.Json → Method S Message) (m : S)
      → ((j : J.Json) → IsAnswered message (f j m).0)
      → IsAnswered message (on_body J R I L correlation o f m).0
  unfolding IsAnswered
  on_body-IsAnswered message correlation (returns j) f m h = h j
  on_body-IsAnswered message correlation (throws e) f m h =
      error-IsAnswered message correlation 400 L.invalid_argument "Invalid JSON in request body"
  on_body-IsAnswered message correlation undefined f m h = inl refl

  on_session_id-IsAnswered :
      {S : Type 0} (message : Message) (c : QodRequestContext) (i : String) (f : Method S Message)
      (m : S)
      → IsAnswered message (f m).0
      → IsAnswered message (on_session_id J R I L c i f m).0
  on_session_id-IsAnswered message c i f m h = elim (Bool-cases (is_empty i)) [
    | inl e ↦
        rw e (
          error-IsAnswered message c.correlation_id 400 L.invalid_argument "Session ID is required")
    | inr e ↦ rw e h
  ]

  guarded-IsAnswered :
      {S : Type 0} (message : Message) (c : QodRequestContext) (i : String) (f : Method S Message)
      (m : S)
      → IsAnswered message
          (on_session_id J R I L c i (λ s. guarded J R I L c.correlation_id (f s)) m).0
  guarded-IsAnswered message c i f m =
      on_session_id-IsAnswered message c i (λ s. guarded J R I L c.correlation_id (f s)) m
        (recovered-IsAnswered message c.correlation_id (f m).0)

  -- A call before the `try` blocks.
  lift-IsAnswered :
      {S A : Type 0} (message : Message) (o : Outcome A) (f : A → Method S Message) (m : S)
      → ((a : A) → IsAnswered message (f a m).0)
      → ((e : String) → o ≡ throws e → IsOfHelper message e)
      → IsAnswered message ((lift o >>= f) m).0
  unfolding IsAnswered
  lift-IsAnswered message (returns a) f m h k = h a
  lift-IsAnswered message (throws e) f m h k = inr (inr (e, refl, k e refl))
  lift-IsAnswered message undefined f m h k = inl refl

  with_context-IsAnswered :
      {S : Type 0} (message : Message) (f : QodRequestContext → Method S Message) (m : S)
      → ((c : QodRequestContext) → IsAnswered message (f c m).0)
      → IsAnswered message ((lift (L.extract_context message) >>= f) m).0
  unfolding IsOfHelper
  with_context-IsAnswered message f m h =
      lift-IsAnswered message (L.extract_context message) f m h (λ e. inl)

  id-IsOfHelper :
      (message : Message) (e : String)
      → extract_session_id J R I L message ≡ throws e
      → IsOfHelper message e
  unfolding extract_session_id IsOfHelper
  id-IsOfHelper message e h = elim (Outcome-cases (L.extract_path_param message "sessionId")) [
    | inl (i, f) ↦ elim (Bool-cases (is_empty i)) [
      | inl g ↦ inr (inl ("session_id", ground (arith, f, g, h)))
      | inr g ↦ ground (arith, f, g, h)
    ]
    | inr (inl (x, f)) ↦ inr (inl ("sessionId", ground (arith, f, h)))
    | inr (inr f) ↦ ground (arith, f, h)
  ]

  with_id-IsAnswered :
      {S : Type 0} (message : Message) (f : String → Method S Message) (m : S)
      → ((i : String) → IsAnswered message (f i m).0)
      → IsAnswered message ((lift (extract_session_id J R I L message) >>= f) m).0
  with_id-IsAnswered message f m h =
      lift-IsAnswered message (extract_session_id J R I L message) f m h (id-IsOfHelper message)

module _ (J : JsonLib) (R : JsonReader J) (I : JsonItems J) (L : HandlerLib J) {C : Common} where
  retrieve-IsAnswered :
      (message : Message) (c : QodRequestContext) (payload : String) (m : Manager C)
      → IsAnswered J R I L message (retrieve_in J R I L c payload m).0
  unfolding retrieve_in
  retrieve-IsAnswered message c payload m = elim (Bool-cases (is_empty payload)) [
    | inl e ↦ elim (Bool-cases c.is_three_legged) [
      | inl f ↦ rw (e, f) (recovered-IsAnswered J R I L message c.correlation_id _)
      | inr f ↦ rw (e, f) (recovered-IsAnswered J R I L message c.correlation_id _)
    ]
    | inr e ↦ rw e (
        on_body-IsAnswered J R I L message c.correlation_id (J.parse payload) _ m (λ j.
          on_checked-IsAnswered J R I L message c.correlation_id
            (read_retrieval J R I L c.is_three_legged j) (retrieve_requested J R I L c) m))
  ]

  extend-IsAnswered :
      (message : Message) (c : QodRequestContext) (i : String) (body : Outcome J.Json)
      (m : Manager C)
      → IsAnswered J R I L message (extend_in J R I L c i body m).0
  unfolding extend_in
  extend-IsAnswered message c i body m =
      on_body-IsAnswered J R I L message c.correlation_id body _ m (λ j.
        on_checked-IsAnswered J R I L message c.correlation_id (read_extension J R I L j)
          (extend_requested J R I L c i) m)

  create-IsAnswered :
      (serialize : QosProfileMapping → J.Json) (answer : Answer) (dis : ℕ → String) (now : ℕ)
      (message : Message) (c : QodRequestContext) (body : Outcome J.Json) (m : Manager C)
      → IsAnswered J R I L message (create_in J R I L serialize answer dis now c body m).0
  unfolding create_in
  create-IsAnswered serialize answer dis now message c body m =
      on_body-IsAnswered J R I L message c.correlation_id body _ m (λ j.
        on_checked-IsAnswered J R I L message c.correlation_id (read_create_request J R I L c now j)
          (create_requested J R I L serialize answer dis now c) m)

  -- Each handler of the API answers every message, with any payload, unless it ends in undefined
  -- behaviour or in an exception of a helper that no handler catches: of those that read the
  -- context and the path of the message, or of the one that makes an error response. No exception
  -- of the JSON library, of the session manager or of a response that succeeds escapes.
  pub handlers-answer :
      (serialize : QosProfileMapping → J.Json) (answer : Answer) (dis : ℕ → String) (now : ℕ)
      (message : Message) (m : Manager C)
      → IsAnswered J R I L message
          (handle_create_session J R I L serialize answer dis now message m).0
        × IsAnswered J R I L message (handle_get_session J R I L message m).0
        × IsAnswered J R I L message (handle_delete_session J R I L answer now message m).0
        × IsAnswered J R I L message (handle_extend_session J R I L message m).0
        × IsAnswered J R I L message (handle_retrieve_sessions J R I L message m).0
  unfolding handle_create_session handle_get_session handle_delete_session handle_extend_session
      handle_retrieve_sessions
  handlers-answer serialize answer dis now message m = (
    with_context-IsAnswered J R I L message _ m
        (λ c. create-IsAnswered serialize answer dis now message c (J.parse message.payload) m),
    with_context-IsAnswered J R I L message _ m (λ c. with_id-IsAnswered J R I L message _ m (λ i.
        guarded-IsAnswered J R I L message c i
          (λ s. (found_response J R I L c (get_session i c.api_consumer_id s), s)) m)),
    with_context-IsAnswered J R I L message _ m (λ c.
        with_id-IsAnswered J R I L message _ m (λ i.
          guarded-IsAnswered J R I L message c i (delete_requested J R I L answer now c i) m)),
    with_context-IsAnswered J R I L message _ m (λ c. with_id-IsAnswered J R I L message _ m (λ i.
        on_session_id-IsAnswered J R I L message c i
          (extend_in J R I L c i (J.parse message.payload)) m
          (extend-IsAnswered message c i (J.parse message.payload) m))),
    with_context-IsAnswered J R I L message _ m
        (λ c. retrieve-IsAnswered message c message.payload m),
  )
