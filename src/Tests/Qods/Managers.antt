-- ===== src/Tests/Qods/Managers.antt =====
-- Runs of the session manager.
use phine_af.Prelude.{
  ℕ, ◌+◌, ◌≤◌, min, String, ◌≡◌, ◌↔◌, refl, true, false, Option, none, some, ◌==◌, contains,
  if◌then◌else◌,
}
use phine_af.Map.{empty, find, value_at, put, replace}
use phine_af.Outcome.{returns}
use phine_af.Qod.Types.{QodSession, QodDevice}
use phine_af.Qod.Store.{
  init, add_session, get_session_by_id, get_session_by_pdu_session, first_on_pdu,
}
use phine_af.Qod.Store.Invariant.{Inv}
use phine_af.Qod.Store.Lookups.{ids}
use phine_af.Qod.Sessions.{
  get_session, extend_session_duration, retrieve_sessions_by_device, check_session_conflict,
  cleanup_expired_sessions, handle_pdu_session_terminated_event,
}
use phine_af.Qod.Requests.{extend_by, get_max_duration_for_profile}
use phine_af.Qod.Sessions.Listed.{IsListed}
use phine_af.Qod.Sessions.Access.{
  retrieve-exact, other_consumer-excluded, check_session_conflict-none,
}
use phine_af.Qod.Sessions.Extension.{extend-started}
use phine_af.Qod.Sessions.Cleanup.{cleanup-exact, IsSwept, pdu_terminated-removes, notified}
use phine_af.Tests.Qods.{phone, server, running, store, manager, ended, store-Inv, store-running}

retrieve-exact_example :
    (contains "qod-2" (
        ids (
          retrieve_sessions_by_device
            (record { device = some phone; api_consumer_id = "shop" })
            manager))
      ≡ true)
    ↔ ((s : QodSession Unit) × (get_session_by_id "qod-2" store ≡ some s)
        × IsListed (record { device = some phone; api_consumer_id = "shop" }) s)
retrieve-exact_example =
    retrieve-exact (record { device = some phone; api_consumer_id = "shop" }) manager store-Inv
      "qod-2"

other_consumer-excluded_example :
    (get_session "qod-2" "rival" manager ≡ none)
    × ((extra : ℕ)
        → extend_session_duration (extend_by "qod-2" extra) "rival" manager
          ≡ (returns none, manager))
    × ((d : Option QodDevice)
        → contains "qod-2" (
            ids (
              retrieve_sessions_by_device
                (record { device = d; api_consumer_id = "rival" })
                manager))
          ≡ false)
other_consumer-excluded_example =
    other_consumer-excluded "qod-2" "rival" running manager store-Inv store-running (λ e. cc e)

check_session_conflict-none_example : check_session_conflict phone server manager ≡ none
unfolding init add_session put replace empty
check_session_conflict-none_example = check_session_conflict-none phone server manager refl

extend-started_example :
    (s : QodSession Unit) × ((extend_session_duration (extend_by "qod-2" 900) "shop" manager).0
      ≡ returns (some s))
    × (s.duration ≡ min 3900 (get_max_duration_for_profile "QOS_E" manager.config))
    × (s.duration ≤ get_max_duration_for_profile s.qos_profile manager.config)
    × (s.expires_at ≡ some (200 + s.duration))
    × (get_session "qod-2" "shop" (extend_session_duration (extend_by "qod-2" 900) "shop" manager).1
        ≡ some s)
    × ((j : String)
        → get_session_by_id j
            (extend_session_duration (extend_by "qod-2" 900) "shop" manager).1.qod_state_manager
          ≡ (if "qod-2" == j then some s else get_session_by_id j store))
extend-started_example = extend-started 900 running 200 manager store-running refl refl

cleanup-exact_example :
    ((i : String)
      → IsSwept 3560 manager.config.unavailable_session_ttl
          (get_session_by_id i store)
          (get_session_by_id i (cleanup_expired_sessions 3560 manager).qod_state_manager))
    × Inv (cleanup_expired_sessions 3560 manager).qod_state_manager
cleanup-exact_example = cleanup-exact 3560 manager store-Inv

pdu_terminated-removes_example :
    ((i : String)
      → get_session_by_id i (handle_pdu_session_terminated_event ended manager).qod_state_manager
        ≡ (if "qod-2" == i then none else get_session_by_id i store))
    × Inv (handle_pdu_session_terminated_event ended manager).qod_state_manager
    × ((handle_pdu_session_terminated_event ended manager).notification_handler
        ≡ notified running manager)
unfolding ended get_session_by_pdu_session first_on_pdu init add_session find value_at put replace
    empty
pdu_terminated-removes_example = pdu_terminated-removes ended manager running store-Inv refl
