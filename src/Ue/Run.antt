-- ===== src/Ue/Run.antt =====
-- Histories of calls of the methods that change a `UeStateManager`.
pub mod Theorems
use phine_af.Prelude.{ℕ, String, ◌≡◌, ◌≢◌, Option, List, [], ◌∷◌}
use phine_af.Ue.Common.{Common}
use phine_af.Ue.Key.{UeKey, get_primary_key}
use phine_af.Ue.Data.{
  PduSessionData, UeAccessMobilityData, AfUeSubscriptionState, provisional_state,
}
use phine_af.Ue.Manager.{UeStateManager}
use phine_af.Ue.Core.{
  update_ue_state, create_or_update_provisional_ue_state, initial_or, promote_ue_state_to_resolved,
  merge_ue_states, remove_ue_state,
}
use phine_af.Ue.Update.{
  update_ue_gpsi, update_ue_location_info, update_ue_access_mobility_data,
  update_ue_policy_data_info, update_prose_pduid_information, update_time_sync_service_availability,
  update_service_area_coverage_allowed, update_high_throughput_desired,
  remove_non_primary_ue_identifier, cleanup_expired_provisional_states,
}
use phine_af.Ue.PduSession.{
  add_or_update_pdu_session, remove_pdu_session, add_qod_session_to_pdu_session,
  remove_qod_session_from_pdu_session, add_to_some_pdu, remove_qod_session_from_ue,
}
use phine_af.Ue.Invariant.{IsOwned, primary}
use phine_af.Prelude.{Bool}

module _ (C : Common) where
  open C use {UeLocationInfo, PduidInformation, ServiceAreaCoverageInfo}

  pub data Call : Type 0 where
    updates : AfUeSubscriptionState C → Call
    creates : UeKey → Option (AfUeSubscriptionState C) → Call
    promotes : UeKey → String → Call
    merges : UeKey → UeKey → Call
    removes : UeKey → Call
    sets_gpsi : UeKey → String → Call
    sets_location : UeKey → UeLocationInfo → Call
    sets_access : UeKey → UeAccessMobilityData C → Call
    sets_policy : UeKey → String → Call
    sets_prose : UeKey → PduidInformation → Call
    sets_time_sync : UeKey → Bool → Call
    sets_coverage : UeKey → List ServiceAreaCoverageInfo → Call
    sets_throughput : UeKey → Bool → Call
    forgets : UeKey → String → String → Call
    adds_pdu : UeKey → PduSessionData C → Call
    removes_pdu : UeKey → String → Call
    adds_qod_to_pdu : UeKey → String → String → Call
    removes_qod_from_pdu : UeKey → String → String → Call
    adds_qod : UeKey → String → Call
    removes_qod : UeKey → String → Call
    cleans : ℕ → ℕ → Call

module _ {C : Common} where
  -- A call at a time.
  unfoldable pub step : ℕ × Call C → UeStateManager C → UeStateManager C
  step (now, updates s) m = (update_ue_state s m).1
  step (now, creates key d) m = (create_or_update_provisional_ue_state key d now m).1
  step (now, promotes key v) m = (promote_ue_state_to_resolved key v now m).1
  step (now, merges p s) m = (merge_ue_states p s now m).1
  step (now, removes key) m = (remove_ue_state key m).1
  step (now, sets_gpsi key v) m = (update_ue_gpsi key v now m).1
  step (now, sets_location key l) m = (update_ue_location_info key l now m).1
  step (now, sets_access key d) m = (update_ue_access_mobility_data key d now m).1
  step (now, sets_policy key i) m = (update_ue_policy_data_info key i now m).1
  step (now, sets_prose key i) m = (update_prose_pduid_information key i now m).1
  step (now, sets_time_sync key b) m = (update_time_sync_service_availability key b now m).1
  step (now, sets_coverage key l) m = (update_service_area_coverage_allowed key l now m).1
  step (now, sets_throughput key b) m = (update_high_throughput_desired key b now m).1
  step (now, forgets key t v) m = (remove_non_primary_ue_identifier key t v now m).1
  step (now, adds_pdu key p) m = (add_or_update_pdu_session key p now m).1
  step (now, removes_pdu key i) m = (remove_pdu_session key i now m).1
  step (now, adds_qod_to_pdu key i q) m = (add_qod_session_to_pdu_session key i q now m).1
  step (now, removes_qod_from_pdu key i q) m = (remove_qod_session_from_pdu_session key i q now m).1
  step (now, adds_qod key q) m = (add_to_some_pdu key q now m).1
  step (now, removes_qod key q) m = (remove_qod_session_from_ue key q now m).1
  step (now, cleans ticks max_age) m = (cleanup_expired_provisional_states ticks max_age now m).1

  unfoldable pub run : List (ℕ × Call C) → UeStateManager C → UeStateManager C
  run [] m = m
  run (c ∷ cs) m = run cs (step c m)

  -- What the callers see to: a state that is stored owns its key, a promotion does not start from
  -- the key of a SUPI, and a state is not merged with itself.
  abbrev pub IsAllowed : ℕ × Call C → Type 0
  IsAllowed (now, updates s) = IsOwned (get_primary_key s.ue_key) s
  IsAllowed (now, creates key d) =
      IsOwned (get_primary_key key) (initial_or d (provisional_state key now))
  IsAllowed (now, promotes key v) = (w : String) → get_primary_key key ≢ primary w
  IsAllowed (now, merges p s) = get_primary_key p ≢ get_primary_key s
  IsAllowed (now, adds_qod key q) =
      IsOwned {C = C} (get_primary_key key) (provisional_state key now)
  IsAllowed (now, _) = Unit
