-- ===== src/Qod/Handler/Handle.antt =====
-- The handlers of the QoD API in af_core/src/qod/qod_handler.cpp, on the session manager.
pub mod Answers
pub mod Access
use Prim.Native.String.{◌++◌}
use phine_af.Prelude.{
  ℕ, String, Bool, true, false, not, ◌&&◌, Option, none, some, List, map, is_some, is_empty,
  if◌then◌else◌,
}
use phine_af.Map.{put, empty}
use phine_af.Outcome.{Outcome, Method, returns, throws, undefined, and_use, continue, lift, ◌>>=◌}
use phine_af.Json.{JsonLib, JsonReader, JsonItems, Message, Answer}
use phine_af.Ue.Common.{Common}
use phine_af.Qod.Types.{QodDevice, QosProfileMapping, QodSession, available}
use phine_af.Qod.Store.{same_status}
use phine_af.Qod.Requests.{ExtendSessionDurationRequest, RetrieveSessionsRequest}
use phine_af.Qod.Sessions.{
  QodSessionManager, get_session, extend_session_duration, retrieve_sessions_by_device,
}
use phine_af.Qod.Lifecycle.{CreateSessionRequest, create_session, delete_session}
use phine_af.Qod.Handler.{HandlerLib, QodRequestContext, SinkCredential}
use phine_af.Qod.Handler.Read.{
  Checked, done, refused, failed, faulty, read_create_request, read_extension, read_device,
}
use phine_af.Qod.Handler.Show.{session_to_json}

abbrev pub Manager : Common → Type 0
Manager C = QodSessionManager C SinkCredential

module _ (J : JsonLib) (R : JsonReader J) (I : JsonItems J) (L : HandlerLib J) where
  open J use {Json}

  abbrev pub error : String → ℕ → String → String → Outcome Message
  error correlation status code text = L.create_error_response status code text correlation

  abbrev pub internal_error : String → Outcome Message
  internal_error correlation = error correlation 500 "INTERNAL_ERROR" "Internal server error"

  -- `catch (const std::exception&)` around a handler, whose own response may throw.
  abbrev pub recovered : String → Outcome Message → Outcome Message
  recovered correlation (returns a) = returns a
  recovered correlation (throws e) = internal_error correlation
  recovered correlation undefined = undefined

  abbrev pub guarded : {S : Type 0} → String → Outcome Message × S → Outcome Message × S
  guarded correlation r = (recovered correlation r.0, r.1)

  -- What follows the reading of a request, all in the `try` block.
  abbrev pub on_checked :
      {S A : Type 0} → String → Checked A → (A → Method S Message) → Method S Message
  on_checked correlation (done a) f m = guarded correlation (f a m)
  on_checked correlation (refused status code text) f m =
      (recovered correlation (error correlation status code text), m)
  on_checked correlation (failed e) f m = (internal_error correlation, m)
  on_checked correlation faulty f m = (undefined, m)

  -- The body of a request: a text that is not JSON is refused, by the first `catch`.
  abbrev pub on_body :
      {S : Type 0} → String → Outcome Json → (Json → Method S Message) → Method S Message
  on_body correlation (returns j) f m = f j m
  on_body correlation (throws e) f m =
      (error correlation 400 L.invalid_argument "Invalid JSON in request body", m)
  on_body correlation undefined f m = (undefined, m)

  unfoldable pub extract_session_id : Message → Outcome String
  extract_session_id message =
      and_use (L.extract_path_param message "sessionId")
        (λ i. if is_empty i then L.extract_path_param message "session_id" else returns i)

  abbrev pub shows_device : QodSession SinkCredential → Bool
  shows_device s = is_some s.device && is_some s.device_response

  abbrev pub session_response : String → ℕ → Bool → QodSession SinkCredential → Outcome Message
  session_response correlation status include_device s =
      L.create_success_response (session_to_json J L s include_device) status correlation

  unfoldable pub created_response :
      QodRequestContext
      → CreateSessionRequest SinkCredential
      → Option (QodSession SinkCredential)
      → Outcome Message
  unfolding session_to_json
  created_response c r none =
      error c.correlation_id 400 L.invalid_argument
        "Failed to create session - possible conflict with existing session"
  created_response c r (some s) =
      session_response c.correlation_id 201 (is_some r.device && not c.is_three_legged) s

  -- An identifier that is missing is refused.
  abbrev pub on_session_id :
      {S : Type 0} → QodRequestContext → String → Method S Message → Method S Message
  on_session_id c i f m =
      if is_empty i
      then (error c.correlation_id 400 L.invalid_argument "Session ID is required", m)
      else f m

  unfoldable pub found_response :
      QodRequestContext → Option (QodSession SinkCredential) → Outcome Message
  unfolding session_to_json
  found_response c none = error c.correlation_id 404 L.not_found "Session not found"
  found_response c (some s) = session_response c.correlation_id 200 (shows_device s) s

  unfoldable pub no_content : QodRequestContext → Message
  no_content c = record {
    message_type = "qod_delete_session_response";
    correlation_id = c.correlation_id;
    payload = "";
    metadata = put "x-correlator" c.correlation_id (put "http_status" "204" empty);
  }

  unfoldable pub deleted_response : QodRequestContext → Bool → Outcome Message
  unfolding no_content
  deleted_response c true = returns (no_content c)
  deleted_response c false = error c.correlation_id 400 L.not_found "Session deletion failed"

  -- Why the session was not extended.
  unfoldable pub unextended_response :
      QodRequestContext → Option (QodSession SinkCredential) → Outcome Message
  unextended_response c none = error c.correlation_id 404 L.not_found "Session not found"
  unextended_response c (some s) =
      if same_status s.qos_status available
      then error c.correlation_id 400 "QUALITY_ON_DEMAND.DURATION_OUT_OF_RANGE"
          "Extension would exceed maximum duration for QoS profile"
      else error c.correlation_id 409 "QUALITY_ON_DEMAND.SESSION_EXTENSION_NOT_ALLOWED" (
          "Extending the session duration is not allowed in the current state ("
          ++ (L.status_text s.qos_status ++ "). The session must be in the AVAILABLE state."))

  -- A body without a device names none, whatever the authentication is.
  unfoldable pub read_retrieval : Bool → Json → Checked (Option QodDevice)
  unfolding read_device
  read_retrieval three_legged j =
      if R.contains "device" j then read_device J R I L three_legged j else done none

module _ (J : JsonLib) (R : JsonReader J) (I : JsonItems J) (L : HandlerLib J) {C : Common} where
  open J use {Json, parse, array}

  unfoldable pub create_requested :
      (QosProfileMapping → Json)
      → Answer
      → (ℕ → String)
      → ℕ
      → QodRequestContext
      → CreateSessionRequest SinkCredential
      → Method (Manager C) Message
  unfolding created_response
  create_requested serialize answer dis now c r =
      create_session J serialize answer r dis now >>= λ s. lift (created_response J R I L c r s)

  unfoldable pub create_in :
      (QosProfileMapping → Json)
      → Answer
      → (ℕ → String)
      → ℕ
      → QodRequestContext
      → Outcome Json
      → Method (Manager C) Message
  unfolding read_create_request create_requested
  create_in serialize answer dis now c body = on_body J R I L c.correlation_id body (λ j.
      on_checked J R I L c.correlation_id (read_create_request J R I L c now j)
        (create_requested serialize answer dis now c))

  unfoldable pub handle_create_session :
      (QosProfileMapping → Json) → Answer → (ℕ → String) → ℕ → Message → Method (Manager C) Message
  unfolding create_in
  handle_create_session serialize answer dis now message = lift (L.extract_context message) >>= λ c.
      create_in serialize answer dis now c (parse message.payload)

  unfoldable pub handle_get_session : Message → Method (Manager C) Message
  unfolding extract_session_id found_response
  handle_get_session message = lift (L.extract_context message) >>= λ c.
      lift (extract_session_id J R I L message) >>= λ i. on_session_id J R I L c i (λ m.
        guarded J R I L c.correlation_id
          (found_response J R I L c (get_session i c.api_consumer_id m), m))

  unfoldable pub delete_requested :
      Answer → ℕ → QodRequestContext → String → Method (Manager C) Message
  unfolding deleted_response
  delete_requested answer now c i =
      delete_session J answer i c.api_consumer_id now >>= λ b. lift (deleted_response J R I L c b)

  unfoldable pub handle_delete_session : Answer → ℕ → Message → Method (Manager C) Message
  unfolding extract_session_id delete_requested
  handle_delete_session answer now message = lift (L.extract_context message) >>= λ c.
      lift (extract_session_id J R I L message) >>= λ i.
      on_session_id J R I L c i
        (λ m. guarded J R I L c.correlation_id (delete_requested answer now c i m))

  unfoldable pub extended_response :
      QodRequestContext → String → Option (QodSession SinkCredential) → Method (Manager C) Message
  unfolding unextended_response session_to_json
  extended_response c i none m =
      (unextended_response J R I L c (get_session i c.api_consumer_id m), m)
  extended_response c i (some s) m =
      (session_response J R I L c.correlation_id 200 (shows_device J R I L s) s, m)

  unfoldable pub extend_requested : QodRequestContext → String → ℕ → Method (Manager C) Message
  unfolding extended_response
  extend_requested c i extra =
      extend_session_duration (record { session_id = i; requested_additional_duration = extra })
        c.api_consumer_id
      >>= extended_response c i

  unfoldable pub extend_in : QodRequestContext → String → Outcome Json → Method (Manager C) Message
  unfolding read_extension extend_requested
  extend_in c i body =
      on_body J R I L c.correlation_id body
        (λ j. on_checked J R I L c.correlation_id (read_extension J R I L j) (extend_requested c i))

  unfoldable pub handle_extend_session : Message → Method (Manager C) Message
  unfolding extract_session_id extend_in
  handle_extend_session message = lift (L.extract_context message) >>= λ c.
      lift (extract_session_id J R I L message) >>= λ i.
      on_session_id J R I L c i (extend_in c i (parse message.payload))

  unfoldable pub retrieve_requested :
      QodRequestContext → Option QodDevice → Method (Manager C) Message
  unfolding session_to_json
  retrieve_requested c d m = (
    L.create_success_response
        (array (
          map (λ s. session_to_json J L s (shows_device J R I L s))
            (retrieve_sessions_by_device
              (record { device = d; api_consumer_id = c.api_consumer_id }) m)))
        200 c.correlation_id,
    m,
  )

  unfoldable pub retrieve_in : QodRequestContext → String → Method (Manager C) Message
  unfolding read_retrieval retrieve_requested
  retrieve_in c payload m =
      if not (is_empty payload)
      then on_body J R I L c.correlation_id (parse payload)
          (λ j.
            on_checked J R I L c.correlation_id (read_retrieval J R I L c.is_three_legged j)
              (retrieve_requested c))
          m
      else if c.is_three_legged
      then guarded J R I L c.correlation_id (retrieve_requested c none m)
      else guarded J R I L c.correlation_id (
        error J R I L c.correlation_id 422 L.missing_identifier
            "Device identifier is required for 2-legged authentication",
        m,
      )

  unfoldable pub handle_retrieve_sessions : Message → Method (Manager C) Message
  unfolding retrieve_in
  handle_retrieve_sessions message =
      lift (L.extract_context message) >>= λ c. retrieve_in c message.payload
