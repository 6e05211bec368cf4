-- ===== src/Tests/Lifecycles.antt =====
-- Runs of the creation and the deletion of sessions.
use phine_af.Prelude.{
  String, ◌≡◌, refl, true, false, none, some, [], ◌==◌, ◌&&◌, is_some, arith, if◌then◌else◌,
}
use phine_af.Map.{Map, empty, find, put, value_at, replace}
use phine_af.Outcome.{returns}
use phine_af.Json.{JsonLib, Answer}
use phine_af.Ue.Manager.{init as ue_init}
use phine_af.Qod.Store.{
  init, add_session, get_session_by_id, get_session_by_pcf_session_id, update_pcf_session_map,
}
use phine_af.Qod.Store.Invariant.{Inv}
use phine_af.Qod.Sessions.{QodSessionManager, get_session, cleanup_expired_sessions}
use phine_af.Qod.Pcf.Responses.{available_from}
use phine_af.Qod.Pcf.{confirmed, update_ue_state_from_pcf_response}
use phine_af.Qod.Lifecycle.Ue.{create_or_update_ue_state}
use phine_af.Qod.Lifecycle.{start_session, delete_session}
use phine_af.Qod.Lifecycle.Creation.{added, prepared, start-confirmed}
use phine_af.Qod.Lifecycle.Deletion.{succeeded, deleted, delete-exact, deleted-cleaned}
use phine_af.Tests.{plain}
use phine_af.Tests.Qods.{waiting, store, manager, store-Inv}

-- A flat object of texts, whose payload is the identifier of a PCF session.
abbrev flat : JsonLib
flat = record {
  Json = Map String;
  parse = λ s. returns (put "pcf_session_id" s empty);
  dump = λ j. elim (find "session_id" j) [ none ↦ returns "" | some s ↦ returns s ];
  null = empty;
  text = λ s. put "" s empty;
  number = λ n. empty;
  array = λ l. empty;
  field = λ k j. j;
  set = λ k v j. elim (find "" v) [ none ↦ j | some s ↦ put k s j ];
  text_or = λ k d j. elim (find k j) [ none ↦ returns d | some s ↦ returns s ];
  number_or = λ k d j. returns d;
}

abbrev created : Answer
created destination message = returns (
    some (record {
      message_type = "pcf_qod_session_created";
      correlation_id = message.correlation_id;
      payload = "pcf-1";
      metadata = empty;
    }))

-- A manager with an empty store.
abbrev idle : QodSessionManager plain Unit
idle = record manager { qod_state_manager = init; ue_state_manager = some (ue_init (some [])) }

idle-written : (create_or_update_ue_state waiting 300 (added waiting idle)).0 ≡ returns tt
unfolding phine_af.Qod.Lifecycle.Ue.create_or_update_ue_state
    phine_af.Qod.Lifecycle.Ue.write_ue_state phine_af.Qod.Lifecycle.Ue.write_session
    phine_af.Qod.Lifecycle.Ue.with_device phine_af.Qod.Lifecycle.Ue.initial_state
    phine_af.Qod.Lifecycle.Ue.add_device_pdu phine_af.Ue.Core.create_or_update_provisional_ue_state
    phine_af.Ue.State.add_known_identifier phine_af.Ue.Data.resolved_state
    update_ue_state_from_pcf_response phine_af.Ue.Key.make_key phine_af.Ue.Key.validate
    phine_af.Ue.Key.Format.validate_gpsi_format phine_af.Ue.Key.Format.validate_supi_format
    phine_af.Ue.Key.get_primary_key phine_af.Ue.Core.promote_ue_state_to_resolved
    phine_af.Ue.Manager.locked phine_af.Ue.Core.update_ue_state ue_init find
    phine_af.Ue.Manager.add_ue_indices put empty phine_af.Ue.State.resolve_supi
    phine_af.Ue.Key.can_promote_to_supi phine_af.Ue.PduSession.add_qod_session_to_pdu_session
    phine_af.Map.drop phine_af.Map.erase replace value_at phine_af.Qod.Pcf.device_key
    phine_af.Qod.Pcf.link_session phine_af.Qod.Pcf.promote_device phine_af.Qod.Pcf.session_key
    phine_af.Ue.Core.promote_entry phine_af.Ue.Core.promote_to
    phine_af.Ue.Core.update_ue_state_internal phine_af.Ue.Manager.add_pdu_session_indices
    phine_af.Ue.Manager.remove_ue_indices phine_af.Ue.PduSession.change_first
    phine_af.Ue.PduSession.change_pdu phine_af.Ue.State.resolved_key phine_af.Ue.State.with_key
idle-written = refl

idle-answered :
    (update_ue_state_from_pcf_response
      (confirmed "pcf-1" 300 waiting)
      300
      (prepared waiting 300 idle).ue_state_manager).0
    ≡ returns tt
unfolding phine_af.Qod.Lifecycle.Ue.create_or_update_ue_state
    phine_af.Qod.Lifecycle.Ue.write_ue_state phine_af.Qod.Lifecycle.Ue.write_session
    phine_af.Qod.Lifecycle.Ue.with_device phine_af.Qod.Lifecycle.Ue.initial_state
    phine_af.Qod.Lifecycle.Ue.add_device_pdu phine_af.Ue.Core.create_or_update_provisional_ue_state
    phine_af.Ue.State.add_known_identifier phine_af.Ue.Data.resolved_state
    update_ue_state_from_pcf_response phine_af.Ue.Key.make_key phine_af.Ue.Key.validate
    phine_af.Ue.Key.Format.validate_gpsi_format phine_af.Ue.Key.Format.validate_supi_format
    phine_af.Ue.Key.get_primary_key phine_af.Ue.Core.promote_ue_state_to_resolved
    phine_af.Ue.Manager.locked phine_af.Ue.Core.update_ue_state ue_init find
    phine_af.Ue.Manager.add_ue_indices put empty phine_af.Ue.State.resolve_supi
    phine_af.Ue.Key.can_promote_to_supi phine_af.Ue.PduSession.add_qod_session_to_pdu_session
    phine_af.Map.drop phine_af.Map.erase replace value_at phine_af.Qod.Pcf.device_key
    phine_af.Qod.Pcf.link_session phine_af.Qod.Pcf.promote_device phine_af.Qod.Pcf.session_key
    phine_af.Ue.Core.promote_entry phine_af.Ue.Core.promote_to
    phine_af.Ue.Core.update_ue_state_internal phine_af.Ue.Manager.add_pdu_session_indices
    phine_af.Ue.Manager.remove_ue_indices phine_af.Ue.PduSession.change_first
    phine_af.Ue.PduSession.change_pdu phine_af.Ue.State.resolved_key phine_af.Ue.State.with_key
    phine_af.Ue.Search.get_ue_state_by_supi phine_af.Ue.Core.merge_ue_states
idle-answered = refl

start-confirmed_example :
    ((start_session flat (λ x. empty) created waiting 300 idle).0
      ≡ returns (some (record waiting { pcf_transaction_id = some "qod-1" })))
    × ((i : String)
        → get_session_by_id i
            (start_session flat (λ x. empty) created waiting 300 idle).1.qod_state_manager
          ≡ (if "qod-1" == i
              then some (available_from "pcf-1" 300 waiting)
              else get_session_by_id i idle.qod_state_manager))
    × (get_session_by_pcf_session_id "pcf-1"
          (start_session flat (λ x. empty) created waiting 300 idle).1.qod_state_manager
        ≡ some (available_from "pcf-1" 300 waiting))
unfolding find value_at put replace empty phine_af.Qod.Pcf.Exchange.create_message
start-confirmed_example =
    start-confirmed flat (λ x. empty) created waiting 300 idle
      (record {
        message_type = "pcf_qod_session_created";
        correlation_id = "qod-1";
        payload = "pcf-1";
        metadata = empty;
      })
      "pcf-1" (put "pcf_session_id" "pcf-1" empty) refl refl refl refl refl idle-written
      idle-answered

-- One without a PCF.
abbrev alone : QodSessionManager plain Unit
alone = record idle { pcf_service = false; ue_state_manager = none }

-- The answer to a deletion.
abbrev removed : Answer
removed destination message = returns (
    some (record {
      message_type = "pcf_delete_app_session";
      correlation_id = message.correlation_id;
      payload = "pcf-1";
      metadata = empty;
    }))

delete-exact_example :
    ((j : String)
      → get_session_by_id j
          (delete_session flat removed "qod-2" "shop" 300 manager).1.qod_state_manager
        ≡ (if succeeded (delete_session flat removed "qod-2" "shop" 300 manager).0 && ("qod-2" == j)
            then deleted 300 (get_session "qod-2" "shop" manager)
            else get_session_by_id j store))
    × (succeeded (delete_session flat removed "qod-2" "shop" 300 manager).0 ≡ (
        succeeded (delete_session flat removed "qod-2" "shop" 300 manager).0
        && is_some (get_session "qod-2" "shop" manager)))
    × Inv (delete_session flat removed "qod-2" "shop" 300 manager).1.qod_state_manager
delete-exact_example = delete-exact flat removed "qod-2" "shop" 300 manager store-Inv

removed-succeeds : succeeded (delete_session flat removed "qod-2" "shop" 300 manager).0 ≡ true
unfolding delete_session init add_session find value_at put replace empty
removed-succeeds = refl

removed-config :
    (delete_session flat removed "qod-2" "shop" 300 manager).1.config.unavailable_session_ttl ≡ 360
unfolding delete_session init add_session find value_at put replace empty
    phine_af.Qod.Requests.with_max_durations
removed-config = refl

deleted-cleaned_example :
    get_session_by_id "qod-2"
      (cleanup_expired_sessions 660
        (delete_session flat removed "qod-2" "shop" 300 manager).1).qod_state_manager
    ≡ none
deleted-cleaned_example =
    deleted-cleaned flat removed "qod-2" "shop" 300 660 manager store-Inv removed-succeeds
      (ground (arith, removed-config))

-- The running session is mapped to a PCF session.
abbrev mapped : QodSessionManager plain Unit
mapped = record manager { qod_state_manager = update_pcf_session_map "pcf-1" "qod-2" store }
