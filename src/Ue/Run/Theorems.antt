-- ===== src/Ue/Run/Theorems.antt =====
-- The invariant of the UE states holds after every history of calls.
use phine_af.Prelude.{ℕ, refl, All, Option, List, [], ◌∷◌}
use phine_af.Map.{find-empty}
use phine_af.Ue.Common.{Common}
use phine_af.Ue.Manager.{UeStateManager, PduSessionTerminatedEvent, init}
use phine_af.Ue.Invariant.{Inv}
use phine_af.Ue.Invariant.Core.{update_ue_state-Inv, create_or_update-Inv, remove_ue_state-Inv}
use phine_af.Ue.Invariant.Promote.{promote-Inv, merge-Inv}
use phine_af.Ue.Invariant.Updates.{
  update_state-Inv, update_ue_gpsi-Inv, remove_identifier-Inv, cleanup-Inv,
}
use phine_af.Ue.Invariant.Sessions.{
  add_or_update_pdu-Inv, remove_pdu-Inv, change_pdu-Inv, add_to_some_pdu-Inv, remove_qod-Inv,
}
use phine_af.Ue.Update.{
  update_ue_location_info, update_ue_access_mobility_data, update_ue_policy_data_info,
  update_prose_pduid_information, update_time_sync_service_availability,
  update_service_area_coverage_allowed, update_high_throughput_desired,
}
use phine_af.Ue.PduSession.{add_qod_session_to_pdu_session, remove_qod_session_from_pdu_session}
use phine_af.Ue.Run.{
  Call, step, run, IsAllowed, updates, creates, promotes, merges, removes, sets_gpsi, sets_location,
  sets_access, sets_policy, sets_prose, sets_time_sync, sets_coverage, sets_throughput, forgets,
  adds_pdu, removes_pdu, adds_qod_to_pdu, removes_qod_from_pdu, adds_qod, removes_qod, cleans,
}

module _ {C : Common} where
  init-Inv : (d : Option (List PduSessionTerminatedEvent)) → Inv (init {C = C} d)
  unfolding init
  init-Inv d = record { owned = λ k s e. cc (find-empty k, e); index = λ v. simp find-empty }

  step-Inv : (c : ℕ × Call C) (m : UeStateManager C) → IsAllowed c → Inv m → Inv (step c m)
  unfolding step
  step-Inv (now, updates s) m h c = update_ue_state-Inv s m c h
  step-Inv (now, creates key d) m h c = create_or_update-Inv key d now m c h
  step-Inv (now, promotes key v) m h c = promote-Inv key v now m c h
  step-Inv (now, merges p s) m h c = merge-Inv p s now m c h
  step-Inv (now, removes key) m h c = remove_ue_state-Inv key m c
  step-Inv (now, sets_gpsi key v) m h c = update_ue_gpsi-Inv key v now m c
  step-Inv (now, sets_location key l) m h c =
      unfold update_ue_location_info in update_state-Inv key _ m (λ s. refl) (λ s. refl) c
  step-Inv (now, sets_access key d) m h c =
      unfold update_ue_access_mobility_data in update_state-Inv key _ m (λ s. refl) (λ s. refl) c
  step-Inv (now, sets_policy key i) m h c =
      unfold update_ue_policy_data_info in update_state-Inv key _ m (λ s. refl) (λ s. refl) c
  step-Inv (now, sets_prose key i) m h c =
      unfold update_prose_pduid_information in update_state-Inv key _ m (λ s. refl) (λ s. refl) c
  step-Inv (now, sets_time_sync key b) m h c =
      unfold update_time_sync_service_availability in
      update_state-Inv key _ m (λ s. refl) (λ s. refl) c
  step-Inv (now, sets_coverage key l) m h c =
      unfold update_service_area_coverage_allowed in
      update_state-Inv key _ m (λ s. refl) (λ s. refl) c
  step-Inv (now, sets_throughput key b) m h c =
      unfold update_high_throughput_desired in update_state-Inv key _ m (λ s. refl) (λ s. refl) c
  step-Inv (now, forgets key t v) m h c = remove_identifier-Inv key t v now m c
  step-Inv (now, adds_pdu key p) m h c = add_or_update_pdu-Inv key p now m c
  step-Inv (now, removes_pdu key i) m h c = remove_pdu-Inv key i now m c
  step-Inv (now, adds_qod_to_pdu key i q) m h c =
      unfold add_qod_session_to_pdu_session in change_pdu-Inv key i _ now m c
  step-Inv (now, removes_qod_from_pdu key i q) m h c =
      unfold remove_qod_session_from_pdu_session in change_pdu-Inv key i _ now m c
  step-Inv (now, adds_qod key q) m h c = add_to_some_pdu-Inv key q now m c h
  step-Inv (now, removes_qod key q) m h c = remove_qod-Inv key q now m c
  step-Inv (now, cleans ticks max_age) m h c = cleanup-Inv ticks max_age now m c

  run-Inv :
      (cs : List (ℕ × Call C)) (m : UeStateManager C) → All IsAllowed cs → Inv m → Inv (run cs m)
  unfolding run
  run-Inv [] m h c = c
  run-Inv (x ∷ cs) m h c = run-Inv cs (step x m) h.1 (step-Inv x m h.0 c)

  -- After any history of calls on a new manager, in which a state that is stored stands under its own
  -- key and its SUPI's, no promotion starts from the key of a SUPI and no state is merged with
  -- itself, each stored state stands under its own key
  -- and, if it has a SUPI, under the key of that SUPI, and the index by SUPI maps a SUPI to that key
  -- exactly when a state with this SUPI is stored there. Every way that a call can end is included.
  pub run-init-Inv :
      (d : Option (List PduSessionTerminatedEvent)) (cs : List (ℕ × Call C))
      → All IsAllowed cs
      → Inv (run cs (init d))
  run-init-Inv d cs h = run-Inv cs (init d) h (init-Inv d)
