-- ===== src/Qod/Sessions.antt =====
-- The class `QodSessionManager` of af_core/src/qod/qod_session_manager.cpp: the operations that work on the session store. Requested durations are not negative: the REST
-- handler (af_core/src/qod/qod_handler.cpp) refuses an additional duration below one second.
pub mod Listed
pub mod Access
pub mod Extension
pub mod Cleanup
use phine_af.Prelude.{
  ℕ, ◌+◌, min, String, Bool, true, false, not, ◌&&◌, ◌||◌, Option, none, some, List, [], ◌∷◌, ◌++◌,
  ◌==◌, keep, ltb, contains, find_if, each, is_some, if◌then◌else◌,
}
use phine_af.Map.{Map, find}
use phine_af.Outcome.{Method, returns, undefined, pure}
use phine_af.Ue.Common.{Common}
use phine_af.Ue.State.{is_nil}
use phine_af.Ue.Manager.{UeStateManager, PduSessionTerminatedEvent}
use phine_af.Qod.Types.{
  QodDevice, DeviceIpv4, ApplicationServer, QodSession, QosStatus, StatusInfo, requested, available,
  unavailable, network_terminated,
}
use phine_af.Qod.Profiles.{default_max_durations, supported_profiles}
use phine_af.Qod.Store.{
  QodStateManager, get_session_by_id, get_all_sessions, get_expired_sessions,
  get_session_by_pdu_session, remove_session, update_session, clear_all_sessions, same_status,
}
use phine_af.Qod.Requests.{
  QodSessionConfig, ExtendSessionDurationRequest, RetrieveSessionsRequest,
  get_max_duration_for_profile, same_server, is_unavailable, is_retrieved,
}

-- A delivery to the notification handler: the event's data, the sink and its credential.
pub record Notification (Credential : Type 0) : Type 0 where
  pub session_id : String
  pub qos_status : QosStatus
  pub status_info : Option StatusInfo
  pub base_url : String
  pub sink : String
  pub sink_credential : Option Credential

-- `pcf_service` says whether the pointer is set; `ue_state_manager` and `notification_handler` are absent for null pointers; the handler stands for
-- what was delivered to it so far.
pub record QodSessionManager (C : Common) (Credential : Type 0) : Type 0 where
  pub config : QodSessionConfig
  pub pcf_service : Bool
  pub pcf_destination : String
  pub cleanup_running : Bool
  pub ue_state_manager : Option (UeStateManager C)
  pub qod_state_manager : QodStateManager Credential
  pub notification_handler : Option (List (Notification Credential))

abbrev pub info_or : Option StatusInfo → Option StatusInfo → Option StatusInfo
info_or none j = j
info_or (some i) j = some i

module _ {Credential : Type 0} where
  unfoldable pub remove_each :
      List (QodSession Credential) → QodStateManager Credential → QodStateManager Credential
  remove_each = each (λ s store. (remove_session s.session_id store).1)

module _ {C : Common} {Credential : Type 0} where
  abbrev pub with_store :
      QodStateManager Credential → QodSessionManager C Credential → QodSessionManager C Credential
  with_store store m = record m { qod_state_manager = store }

  unfoldable pub get_session :
      String → String → QodSessionManager C Credential → Option (QodSession Credential)
  get_session i consumer m = elim (get_session_by_id i m.qod_state_manager) [
    | none ↦ none
    | some s ↦ if s.api_consumer_id == consumer then some s else none
  ]

  -- `*session.started_at` of a session that has not started is undefined.
  unfoldable pub extend_to :
      Option ℕ
      → ℕ
      → QodSession Credential
      → Method (QodSessionManager C Credential) (Option (QodSession Credential))
  extend_to none total s m = (undefined, m)
  extend_to (some start) total s m =
      let s' = record s { duration = total; expires_at = some (start + total) } in
      (returns (some s'), with_store (update_session s' m.qod_state_manager).1 m)

  -- The new total is capped.
  unfoldable pub extend_found :
      ℕ
      → QodSession Credential
      → Method (QodSessionManager C Credential) (Option (QodSession Credential))
  unfolding extend_to
  extend_found extra s m =
      extend_to s.started_at
        (min (s.duration + extra) (get_max_duration_for_profile s.qos_profile m.config)) s m

  unfoldable pub extend_session_duration :
      ExtendSessionDurationRequest
      → String
      → Method (QodSessionManager C Credential) (Option (QodSession Credential))
  unfolding extend_found
  extend_session_duration r consumer m = elim (get_session_by_id r.session_id m.qod_state_manager) [
    | none ↦ (returns none, m)
    | some s ↦
        let extended = extend_found r.requested_additional_duration s m in
        if not (s.api_consumer_id == consumer)
        then (returns none, m)
        else if is_unavailable s
        then (returns none, m)
        else extended
  ]

  unfoldable pub retrieve_sessions_by_device :
      RetrieveSessionsRequest → QodSessionManager C Credential → List (QodSession Credential)
  unfolding is_retrieved
  retrieve_sessions_by_device r m = keep (is_retrieved r) (get_all_sessions m.qod_state_manager)

  -- The consumer of the request is the empty text.
  unfoldable pub check_session_conflict :
      QodDevice → ApplicationServer → QodSessionManager C Credential → Option String
  unfolding retrieve_sessions_by_device same_server
  check_session_conflict d server m =
      let found =
        find_if (λ s. not (is_unavailable s) && same_server server s.application_server)
          (retrieve_sessions_by_device (record { device = some d; api_consumer_id = "" }) m) in
      elim found [ none ↦ none | some s ↦ some s.session_id ]

  unfoldable pub send_status_change_notification :
      QodSession Credential
      → Option StatusInfo
      → QodSessionManager C Credential
      → QodSessionManager C Credential
  send_status_change_notification s info m = elim s.sink [
    | none ↦ m
    | some target ↦ elim m.notification_handler [
      | none ↦ m
      | some sent ↦ record m {
        notification_handler = some (
            sent
            ++ record {
              session_id = s.session_id;
              qos_status = s.qos_status;
              status_info = info_or info s.status_info;
              base_url = m.config.api_base_url;
              sink = target;
              sink_credential = s.sink_credential;
            }
              ∷ []);
      }
    ]
  ]

  unfoldable pub handle_pdu_session_terminated_event :
      PduSessionTerminatedEvent → QodSessionManager C Credential → QodSessionManager C Credential
  unfolding send_status_change_notification
  handle_pdu_session_terminated_event e m =
      elim (get_session_by_pdu_session e.supi e.pdu_session_id m.qod_state_manager) [
        | none ↦ m
        | some s ↦
            let removed = with_store (remove_session s.session_id m.qod_state_manager).1 m in
            if is_some s.sink && m.config.enable_notifications && same_status s.qos_status available
            then send_status_change_notification s (some network_terminated) removed
            else removed
      ]

  unfoldable pub cleanup_expired_sessions :
      ℕ → QodSessionManager C Credential → QodSessionManager C Credential
  unfolding remove_each
  cleanup_expired_sessions now m =
      let expired = get_expired_sessions now m.config.unavailable_session_ttl m.qod_state_manager in
      with_store (remove_each expired m.qod_state_manager) m

  -- A pass of the loop of the cleanup thread, after it has slept.
  unfoldable pub session_cleanup_pass :
      ℕ → QodSessionManager C Credential → QodSessionManager C Credential
  unfolding cleanup_expired_sessions
  session_cleanup_pass now m = if m.cleanup_running then cleanup_expired_sessions now m else m

  abbrev pub set_running : Bool → QodSessionManager C Credential → QodSessionManager C Credential
  set_running b m = record m { cleanup_running = b }

  unfoldable pub initialize :
      Bool → String → QodSessionManager C Credential → QodSessionManager C Credential
  initialize service destination m = record m {
    pcf_service = service;
    pcf_destination = destination;
  }

  unfoldable pub set_notification_handler :
      Option (List (Notification Credential))
      → QodSessionManager C Credential
      → QodSessionManager C Credential
  set_notification_handler handler m = record m { notification_handler = handler }

  -- The cleanup thread is started.
  unfoldable pub start : QodSessionManager C Credential → QodSessionManager C Credential
  start m = set_running true m

  -- The cleanup thread ends before the sessions go.
  unfoldable pub stop : QodSessionManager C Credential → QodSessionManager C Credential
  stop m =
      let stopped = set_running false m in
      with_store (clear_all_sessions stopped.qod_state_manager) stopped
