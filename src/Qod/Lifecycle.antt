-- ===== src/Qod/Lifecycle.antt =====
-- The creation and the deletion of QoD sessions in af_core/src/qod/qod_session_manager.cpp.
pub mod Ue
pub mod Frame
pub mod Deletion
pub mod Creation
pub mod Termination
use Prim.Native.String.{◌++◌}
use text.Mathlib.Text.{find?}
use phine_af.Prelude.{
  ℕ, String, Bool, true, false, not, ◌&&◌, ◌||◌, Option, none, some, List, [], ◌∷◌, ◌==◌, ltb, eqb,
  zero, suc, ◌+◌, is_some, if◌then◌else◌,
}
use phine_af.Outcome.{
  Outcome, Method, returns, throws, undefined, pure, throw, lift, continue, ◌>>=◌, ◌>>◌,
}
use phine_af.Json.{JsonLib, Message, Answer}
use phine_af.Ue.Common.{Common}
use phine_af.Qod.Types.{
  QodDevice, ApplicationServer, PortsSpec, QodSession, QosProfileMapping, requested, available,
  unavailable, network_terminated, delete_requested,
}
use phine_af.Qod.Store.{
  QodStateManager, get_session_by_id, add_session, update_session, update_session_status,
  get_qos_profile_mapping, same_status,
}
use phine_af.Qod.Requests.{get_max_duration_for_profile, validate_qos_profile}
use phine_af.Qod.Sessions.{QodSessionManager, with_store, check_session_conflict}
use phine_af.Qod.Pcf.{notify_if}
use phine_af.Qod.Pcf.Termination.{ended, unlink_session}
use phine_af.Qod.Pcf.Exchange.{apply_session_to_pcf, remove_session_from_pcf}
use phine_af.Qod.Lifecycle.Ue.{resolve_device, create_or_update_ue_state}

-- The characters of an identifier; `dis i` is the hexadecimal digit drawn for place `i`.
unfoldable pub session_id_char : (ℕ → String) → ℕ → String
session_id_char dis i =
    if eqb i 8 || eqb i 13 || eqb i 18 || eqb i 23 then "-" else if eqb i 14 then "4" else dis i

session_id_from : (ℕ → String) → ℕ → ℕ → String
unfolding session_id_char
session_id_from dis zero i = ""
session_id_from dis (suc n) i = session_id_char dis i ++ session_id_from dis n (i + 1)

unfoldable pub generate_session_id : (ℕ → String) → String
unfolding session_id_from
generate_session_id dis = session_id_from dis 36 0

pub record CreateSessionRequest (Credential : Type 0) : Type 0 where
  pub api_consumer_id : String
  pub device : Option QodDevice
  pub application_server : ApplicationServer
  pub device_ports : Option PortsSpec
  pub application_server_ports : Option PortsSpec
  pub qos_profile : String
  pub duration : ℕ
  pub sink : Option String
  pub sink_credential : Option Credential

-- The one identifier that a 2-legged consumer gets back.
unfoldable pub one_identifier : QodDevice → Option QodDevice
one_identifier d = elim d.phone_number [
  | some v ↦ some (record {
    phone_number = some v;
    network_access_identifier = none;
    ipv4_address = none;
    ipv6_address = none;
  })
  | none ↦ elim d.ipv4_address [
    | some a ↦ some (record {
      phone_number = none;
      network_access_identifier = none;
      ipv4_address = some a;
      ipv6_address = none;
    })
    | none ↦ elim d.ipv6_address [
      | some v ↦ some (record {
        phone_number = none;
        network_access_identifier = none;
        ipv4_address = none;
        ipv6_address = some v;
      })
      | none ↦ none
    ]
  ]
]

unfoldable pub response_device : String → Option QodDevice → Option QodDevice
unfolding one_identifier
response_device consumer none = none
response_device consumer (some d) =
    if is_some (find? consumer "2-legged") then one_identifier d else none

-- A session in the state REQUESTED.
unfoldable pub new_session :
    {Credential : Type 0}
    → CreateSessionRequest Credential
    → QosProfileMapping
    → String
    → ℕ
    → Option String × Option String
    → QodSession Credential
unfolding response_device
new_session r mapping i now (supi, pdu) = record {
  session_id = i;
  api_consumer_id = r.api_consumer_id;
  device = r.device;
  application_server = r.application_server;
  device_ports = r.device_ports;
  application_server_ports = r.application_server_ports;
  qos_profile = r.qos_profile;
  qos_profile_mapping = some mapping;
  duration = r.duration;
  sink = r.sink;
  sink_credential = r.sink_credential;
  created_at = now;
  started_at = none;
  expires_at = none;
  qos_status = requested;
  status_info = none;
  ue_supi = supi;
  pdu_session_id = pdu;
  device_response = response_device r.api_consumer_id r.device;
  pcf_session_id = none;
  pcf_transaction_id = none;
  error_message = none;
}

module _ {C : Common} {Credential : Type 0} where
  -- The checks before a device is resolved.
  unfoldable pub is_acceptable :
      CreateSessionRequest Credential → QodSessionManager C Credential → Bool
  is_acceptable r m =
      validate_qos_profile r.qos_profile
      && not (
          ltb (get_max_duration_for_profile r.qos_profile m.config) r.duration
          || ltb r.duration m.config.min_session_duration)

  unfoldable pub resolve_if :
      Option QodDevice → Method (QodSessionManager C Credential) (Option String × Option String)
  unfolding resolve_device
  resolve_if none = pure (none, none)
  resolve_if (some d) = resolve_device d

  abbrev has_conflict : CreateSessionRequest Credential → QodSessionManager C Credential → Bool
  has_conflict r m = elim r.device [
    | none ↦ false
    | some d ↦ is_some (check_session_conflict d r.application_server m)
  ]

  -- `state_session_opt.value()` of a session that is gone throws.
  unfoldable pub report_failure :
      String → Method (QodSessionManager C Credential) (Option (QodSession Credential))
  unfolding notify_if
  report_failure i m =
      let failing =
        with_store
          (update_session_status i unavailable (some network_terminated) m.qod_state_manager).1 m in
      elim (get_session_by_id i failing.qod_state_manager) [
        | none ↦ (throws "bad optional access", failing)
        | some s ↦ (returns (some s), notify_if s (some network_terminated) failing)
      ]

  -- The copy that is returned carries the transaction identifier if the PCF was asked, and has no
  -- part in what the answer did to the session that is stored.
  unfoldable pub started_or_failed :
      QodSession Credential
      → Bool
      → Method (QodSessionManager C Credential) (Option (QodSession Credential))
  unfolding report_failure
  started_or_failed s applied m =
      if applied
      then (returns (some (record s { pcf_transaction_id = some s.session_id })), m)
      else report_failure s.session_id m

  -- The last steps: the sink is told of a session that was available, and the end is stored.
  unfoldable pub store_deleted :
      QodSession Credential → Bool → Method (QodSessionManager C Credential) Bool
  unfolding notify_if
  store_deleted s was_available m =
      let told = if was_available then notify_if s (some delete_requested) m else m in
      (returns true, with_store (update_session s told.qod_state_manager).1 told)

  -- The steps after a refusal of the PCF, or without a key, are not reached.
  unfoldable pub unlink_deleted :
      QodSession Credential → ℕ → Bool → Method (QodSessionManager C Credential) Bool
  unfolding unlink_session
  unlink_deleted s now deleted m = if deleted then unlink_session s now m else (returns false, m)

  unfoldable pub store_unlinked :
      QodSession Credential → Bool → Bool → Method (QodSessionManager C Credential) Bool
  unfolding store_deleted
  store_unlinked s was_available unlinked m =
      if unlinked then store_deleted s was_available m else (returns false, m)

module _ (J : JsonLib) {C : Common} {Credential : Type 0} where
  open J use {Json}

  unfoldable pub start_session :
      (QosProfileMapping → Json)
      → Answer
      → QodSession Credential
      → ℕ
      → Method (QodSessionManager C Credential) (Option (QodSession Credential))
  unfolding create_or_update_ue_state started_or_failed
  start_session serialize answer s now m =
      (do
        create_or_update_ue_state s now
        applied ← apply_session_to_pcf J serialize answer s now
        started_or_failed s applied)
        (with_store (add_session s m.qod_state_manager) m)

  unfoldable pub create_resolved :
      (QosProfileMapping → Json)
      → Answer
      → CreateSessionRequest Credential
      → QosProfileMapping
      → (ℕ → String)
      → ℕ
      → Option String × Option String
      → Method (QodSessionManager C Credential) (Option (QodSession Credential))
  unfolding new_session start_session
  create_resolved serialize answer r mapping dis now resolved m =
      let started =
        start_session serialize answer
          (new_session r mapping (generate_session_id dis) now resolved) now m in
      if has_conflict r m then (returns none, m) else started

  unfoldable pub create_session :
      (QosProfileMapping → Json)
      → Answer
      → CreateSessionRequest Credential
      → (ℕ → String)
      → ℕ
      → Method (QodSessionManager C Credential) (Option (QodSession Credential))
  unfolding is_acceptable resolve_if create_resolved
  create_session serialize answer r dis now m =
      if is_acceptable r m
      then elim (get_qos_profile_mapping r.qos_profile m.qod_state_manager) [
        | none ↦ (returns none, m)
        | some mapping ↦
            (resolve_if r.device >>= create_resolved serialize answer r mapping dis now) m
      ]
      else (returns none, m)

  -- A session that is not available is not known to the PCF.
  unfoldable pub remove_if_available :
      Answer → QodSession Credential → Method (QodSessionManager C Credential) Bool
  unfolding remove_session_from_pcf
  remove_if_available answer s =
      if same_status s.qos_status available then remove_session_from_pcf J answer s else pure true

  unfoldable pub delete_found :
      Answer → QodSession Credential → ℕ → Method (QodSessionManager C Credential) Bool
  unfolding remove_if_available unlink_deleted store_unlinked
  delete_found answer s now = do
    deleted ← remove_if_available answer s
    unlinked ← unlink_deleted (ended delete_requested now s) now deleted
    store_unlinked (ended delete_requested now s) (same_status s.qos_status available) unlinked

  unfoldable pub delete_session :
      Answer → String → String → ℕ → Method (QodSessionManager C Credential) Bool
  unfolding delete_found
  delete_session answer i consumer now m = elim (get_session_by_id i m.qod_state_manager) [
    | none ↦ (returns false, m)
    | some s ↦
        if s.api_consumer_id == consumer then delete_found answer s now m else (returns false, m)
  ]
