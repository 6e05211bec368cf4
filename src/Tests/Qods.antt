-- ===== src/Tests/Qods.antt =====
-- A session store and a session manager at concrete inputs.
pub mod Stores
pub mod Managers
pub mod Answers
use phine_af.Prelude.{
  ℕ, ◌+◌, ◌≤◌, min, String, ◌≡◌, refl, true, false, Option, none, some, List, [], ◌∷◌, ◌==◌,
  contains, if◌then◌else◌,
}
use phine_af.Map.{empty, find, value_at, put, replace}
use phine_af.Map.Unique.{holds}
use phine_af.Outcome.{returns, undefined}
use phine_af.Ue.Manager.{PduSessionTerminatedEvent}
use phine_af.Qod.Types.{
  QodSession, QodDevice, ApplicationServer, QosStatus, requested, available, unavailable,
}
use phine_af.Qod.Store.{
  QodStateManager, init, add_session, get_session_by_id, get_session_by_pdu_session, first_on_pdu,
  get_sessions_by_status, get_expired_sessions, same_status, has_expired, on_pdu,
}
use phine_af.Qod.Store.Invariant.{Inv}
use phine_af.Qod.Store.Run.{Call, run, step, AreAllowed, adds, removes, sets_status, maps_pcf}
use phine_af.Qod.Store.Run.{store_run-Inv}
use phine_af.Qod.Store.Lookups.{
  ids, get_session_by_pdu_session_sound, get_session_by_pdu_session_complete,
}
use phine_af.Qod.Sessions.{
  QodSessionManager, get_session, extend_session_duration, retrieve_sessions_by_device,
  check_session_conflict, cleanup_expired_sessions, handle_pdu_session_terminated_event, with_store,
}
use phine_af.Qod.Requests.{
  extend_by, is_retrieved, get_max_duration_for_profile, with_max_durations,
}
use phine_af.Qod.Sessions.Access.{
  retrieve-exact, other_consumer-excluded, check_session_conflict-none,
}
use phine_af.Qod.Sessions.Extension.{extend-started}
use phine_af.Qod.Sessions.Cleanup.{cleanup-exact, pdu_terminated-removes, notified}
use phine_af.Ue.Core.{update_ue_state}
use phine_af.Ue.Manager.{init as ue_init}
use phine_af.Qod.Store.{get_session_by_pcf_session_id}
use phine_af.Qod.Pcf.{
  confirmed, refused, handle_pcf_session_response, update_ue_state_from_pcf_response,
}
use phine_af.Qod.Pcf.Responses.{response-confirmed}
use phine_af.Tests.{plain, by_gpsi}

abbrev pub phone : QodDevice
phone = record {
  phone_number = some "+4912345678";
  network_access_identifier = none;
  ipv4_address = none;
  ipv6_address = none;
}

abbrev pub server : ApplicationServer
server = record { ipv4_address = some "198.51.100.1"; ipv6_address = none }

-- A session that has not started.
abbrev pub waiting_of : (Credential : Type 0) → QodSession Credential
waiting_of Credential = record {
  session_id = "qod-1";
  api_consumer_id = "shop";
  device = some phone;
  application_server = server;
  device_ports = none;
  application_server_ports = none;
  qos_profile = "QOS_E";
  qos_profile_mapping = none;
  duration = 3000;
  sink = some "https://shop.example/events";
  sink_credential = none;
  created_at = 100;
  started_at = none;
  expires_at = none;
  qos_status = requested;
  status_info = none;
  ue_supi = some "imsi-001010000000001";
  pdu_session_id = some "pdu-1";
  device_response = none;
  pcf_session_id = none;
  pcf_transaction_id = none;
  error_message = none;
}

abbrev pub waiting : QodSession Unit
waiting = waiting_of Unit

-- One that runs.
abbrev pub running_of : (Credential : Type 0) → QodSession Credential
running_of Credential = record (waiting_of Credential) {
  session_id = "qod-2";
  started_at = some 200;
  expires_at = some 3200;
  qos_status = available;
}

abbrev pub running : QodSession Unit
running = running_of Unit

abbrev pub store : QodStateManager Unit
store = add_session running (add_session waiting init)

abbrev pub manager_of :
    {Credential : Type 0} → QodStateManager Credential → QodSessionManager plain Credential
manager_of store = record {
  config = with_max_durations (record {
    max_session_duration = 86400;
    min_session_duration = 60;
    session_cleanup_interval = 60;
    unavailable_session_ttl = 360;
    enable_notifications = true;
    api_base_url = "https://api.example.com/qod/v1";
    qos_profile_max_durations = empty;
  });
  pcf_service = true;
  pcf_destination = "pcf";
  cleanup_running = true;
  ue_state_manager = none;
  qod_state_manager = store;
  notification_handler = some [];
}

abbrev pub manager : QodSessionManager plain Unit
manager = manager_of store

abbrev pub ended : PduSessionTerminatedEvent
ended = record { supi = "imsi-001010000000001"; pdu_session_id = "pdu-1" }

pub store-Inv : Inv store
unfolding run step AreAllowed init add_session find value_at put replace empty
store-Inv = store_run-Inv (adds waiting ∷ adds running ∷ []) (refl, (refl, tt))

pub store-running : get_session_by_id "qod-2" store ≡ some running
unfolding init add_session find value_at put replace empty
store-running = refl
