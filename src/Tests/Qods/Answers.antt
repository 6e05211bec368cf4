-- ===== src/Tests/Qods/Answers.antt =====
-- Answers of the PCF to the session manager.
use phine_af.Prelude.{String, ◌≡◌, refl, true, some, [], ◌==◌, if◌then◌else◌}
use phine_af.Map.{empty, find, value_at, put, replace}
use phine_af.Outcome.{returns}
use phine_af.Ue.Manager.{PduSessionTerminatedEvent}
use phine_af.Qod.Store.{init, add_session, get_session_by_id}
use phine_af.Qod.Sessions.{QodSessionManager}
use phine_af.Ue.Core.{update_ue_state}
use phine_af.Ue.Manager.{init as ue_init}
use phine_af.Qod.Store.{get_session_by_pcf_session_id}
use phine_af.Qod.Pcf.{
  confirmed, refused, handle_pcf_session_response, update_ue_state_from_pcf_response,
}
use phine_af.Qod.Pcf.Responses.{available_from, response-confirmed}
use phine_af.Tests.{plain, by_gpsi}
use phine_af.Tests.Qods.{waiting, store, manager}

-- The UE is known by its phone number, and the answer promotes it to its SUPI.
abbrev with_ue : QodSessionManager plain Unit
with_ue = record manager {
  ue_state_manager = some ((update_ue_state by_gpsi (ue_init (some []))).1);
}

waiting-stored : get_session_by_id "qod-1" store ≡ some waiting
unfolding init add_session find value_at put replace empty
waiting-stored = refl

ue-written :
    (update_ue_state_from_pcf_response
      (confirmed "pcf-1" 300 waiting)
      300
      with_ue.ue_state_manager).0
    ≡ returns tt
unfolding update_ue_state_from_pcf_response phine_af.Ue.Key.make_key phine_af.Ue.Key.validate
    phine_af.Ue.Key.Format.validate_gpsi_format phine_af.Ue.Key.Format.validate_supi_format
    phine_af.Ue.Key.get_primary_key phine_af.Ue.Core.promote_ue_state_to_resolved
    phine_af.Ue.Manager.locked update_ue_state ue_init find phine_af.Ue.Manager.add_ue_indices put
    empty phine_af.Ue.State.resolve_supi phine_af.Ue.Key.can_promote_to_supi
    phine_af.Ue.PduSession.add_qod_session_to_pdu_session phine_af.Map.drop phine_af.Map.erase
    replace value_at phine_af.Qod.Pcf.device_key phine_af.Qod.Pcf.link_session
    phine_af.Qod.Pcf.promote_device phine_af.Qod.Pcf.session_key phine_af.Ue.Core.promote_entry
    phine_af.Ue.Core.promote_to phine_af.Ue.Core.update_ue_state_internal
    phine_af.Ue.Manager.add_pdu_session_indices phine_af.Ue.Manager.remove_ue_indices
    phine_af.Ue.PduSession.change_first phine_af.Ue.PduSession.change_pdu
    phine_af.Ue.State.resolved_key phine_af.Ue.State.with_key
ue-written = refl

response-confirmed_example :
    ((handle_pcf_session_response "qod-1" "pcf-1" true "" 300 with_ue).0 ≡ returns tt)
    × ((j : String)
        → get_session_by_id j
            (handle_pcf_session_response "qod-1" "pcf-1" true "" 300 with_ue).1.qod_state_manager
          ≡ (if "qod-1" == j
              then some (available_from "pcf-1" 300 waiting)
              else get_session_by_id j store))
    × (get_session_by_pcf_session_id "pcf-1"
          (handle_pcf_session_response "qod-1" "pcf-1" true "" 300 with_ue).1.qod_state_manager
        ≡ some (available_from "pcf-1" 300 waiting))
response-confirmed_example =
    response-confirmed waiting "pcf-1" "" 300 with_ue waiting-stored ue-written
