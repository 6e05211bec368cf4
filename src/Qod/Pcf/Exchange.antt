-- ===== src/Qod/Pcf/Exchange.antt =====
-- The messages to the PCF and the answers to them, in af_core/src/qod/qod_session_manager.cpp.
use phine_af.Prelude.{
  ℕ, String, Bool, true, false, not, ◌||◌, Option, none, some, ◌==◌, is_empty, if◌then◌else◌,
}
use phine_af.Outcome.{Outcome, Method, returns, throws, pure, lift, ◌>>=◌, ◌>>◌}
use phine_af.Map.{empty}
use phine_af.Json.{JsonLib, Message, Answer, dumped}
use phine_af.Ue.Common.{Common}
use phine_af.Qod.Types.{QodSession, QosProfileMapping}
use phine_af.Qod.Store.{remove_pcf_to_qod_session_mapping}
use phine_af.Qod.Sessions.{QodSessionManager, with_store}
use phine_af.Qod.Pcf.{handle_pcf_session_response}
use phine_af.Qod.Pcf.Request.{build_pcf_request}
use phine_af.Qod.Pcf.Termination.{handle_pcf_session_terminated}

-- `catch (const std::exception&)` around a block that tells whether it succeeded.
abbrev pub failed {ℓ} : {S : Type ℓ} → Outcome Bool × S → Outcome Bool × S
failed (throws e, m) = (returns false, m)
failed r = r

module _ {C : Common} {Credential : Type 0} where
  -- The service is there, and its destination is known.
  abbrev pub is_connected : QodSessionManager C Credential → Bool
  is_connected m = not (not m.pcf_service || is_empty m.pcf_destination)

  -- The mapping of the identifier that the answer names goes, the session stays.
  unfoldable pub forget_mapping : String → Method (QodSessionManager C Credential) Bool
  forget_mapping pcf m =
      (returns true, with_store (remove_pcf_to_qod_session_mapping pcf m.qod_state_manager).1 m)

module _ (J : JsonLib) where
  open J use {Json, null, text, set}

  unfoldable pub create_message :
      {Credential : Type 0} → (QosProfileMapping → Json) → QodSession Credential → Message
  unfolding build_pcf_request
  create_message serialize s = record {
    message_type = "pcf_create_qod_session";
    correlation_id = s.session_id;
    payload = dumped J (build_pcf_request J serialize s);
    metadata = empty;
  }

  unfoldable pub delete_message : String → String → Message
  delete_message i pcf = record {
    message_type = "pcf_delete_qod_session";
    correlation_id = i;
    payload = dumped J (set "session_id" (text i) (set "pcf_session_id" (text pcf) null));
    metadata = empty;
  }

module _ (J : JsonLib) {C : Common} {Credential : Type 0} where
  open J use {Json, parse, text_or, number_or}

  unfoldable pub confirmed_answer : String → Json → ℕ → Method (QodSessionManager C Credential) Bool
  confirmed_answer i j now = do
    pcf ← lift (text_or "pcf_session_id" "" j)
    handle_pcf_session_response i pcf true "" now
    pure true

  unfoldable pub terminated_answer : Json → ℕ → Method (QodSessionManager C Credential) Bool
  terminated_answer j now = do
    pcf ← lift (text_or "pcf_session_id" "" j)
    reason ← lift (text_or "reason" "Requested by user" j)
    handle_pcf_session_terminated pcf now
    pure true

  unfoldable pub refused_answer : String → Json → ℕ → Method (QodSessionManager C Credential) Bool
  refused_answer i j now = do
    message ← lift (text_or "message" "Unknown error" j)
    status ← lift (number_or "status" 500 j)
    handle_pcf_session_response i "" false message now
    pure false

  unfoldable pub process_answer :
      String → Option Message → ℕ → Method (QodSessionManager C Credential) Bool
  unfolding confirmed_answer terminated_answer refused_answer
  process_answer i none now = pure false
  process_answer i (some r) now =
      if r.message_type == "pcf_qod_session_created"
      then (lift (parse r.payload) >>= λ j. confirmed_answer i j now)
      else if r.message_type == "pcf_delete_app_session"
      then (lift (parse r.payload) >>= λ j. terminated_answer j now)
      else if r.message_type == "pcf_error"
      then (lift (parse r.payload) >>= λ j. refused_answer i j now)
      else pure false

  -- The flag says whether the session was applied; the session gets its transaction identifier.
  unfoldable pub apply_session_to_pcf :
      (QosProfileMapping → Json)
      → Answer
      → QodSession Credential
      → ℕ
      → Method (QodSessionManager C Credential) Bool
  unfolding process_answer create_message
  apply_session_to_pcf serialize answer s now m =
      if is_connected m
      then failed (
          (lift (answer m.pcf_destination (create_message J serialize s)) >>= λ r.
          process_answer s.session_id r now)
            m)
      else (returns false, m)

  unfoldable pub removed_answer : Json → Method (QodSessionManager C Credential) Bool
  unfolding forget_mapping
  removed_answer j = do
    pcf ← lift (text_or "pcf_session_id" "" j)
    reason ← lift (text_or "reason" "Requested by user" j)
    forget_mapping pcf

  unfoldable pub process_removal : Option Message → Method (QodSessionManager C Credential) Bool
  unfolding removed_answer
  process_removal none = pure false
  process_removal (some r) =
      if r.message_type == "pcf_delete_app_session"
      then (lift (parse r.payload) >>= removed_answer)
      else pure false

  unfoldable pub ask_removal :
      Outcome (Option Message) → Method (QodSessionManager C Credential) Bool
  unfolding process_removal
  ask_removal r = lift r >>= process_removal

  unfoldable pub remove_session_from_pcf :
      Answer → QodSession Credential → Method (QodSessionManager C Credential) Bool
  unfolding delete_message ask_removal
  remove_session_from_pcf answer s m = elim s.pcf_session_id [
    | none ↦ (returns true, m)
    | some pcf ↦
        if is_connected m
        then failed (ask_removal (answer m.pcf_destination (delete_message J s.session_id pcf)) m)
        else (returns false, m)
  ]
