-- ===== src/Ue/Update.antt =====
-- The granular updates of af_core/src/ue_state_manager.cpp and the cleanup of provisional states.
pub mod Expiry
use phine_af.Prelude.{
  ℕ, ◌-◌, ◌/◌, String, Bool, true, false, ◌&&◌, none, some, List, [], ◌∷◌, ltb, each, if◌then◌else◌,
}
use phine_af.Map.{put}
use phine_af.Outcome.{Method, returns, lift, ◌>>=◌}
use phine_af.Ue.Common.{Common}
use phine_af.Ue.Key.{UeKey, supi_based, make_key, get_primary_key}
use phine_af.Ue.Data.{
  UeAccessMobilityData, AfUeSubscriptionState, ResolutionState, provisional, partial, resolved,
}
use phine_af.Ue.State.{
  set_gpsi, set_location_info, set_access_mobility_data, set_ue_policy_data_info,
  set_prose_pduid_information, set_time_sync_service_available_and_capable,
  set_service_area_coverage_allowed, set_high_throughput_desired_for_ue_traffic,
  remove_known_identifier,
}
use phine_af.Ue.Manager.{
  UeStateManager, locked, find_state, put_state, erase_state, erase_if, add_ue_indices,
  remove_ue_indices,
}

abbrev pub is_provisional : ResolutionState → Bool
is_provisional provisional = true
is_provisional partial = false
is_provisional resolved = false

module _ {C : Common} where
  open C use {UeLocationInfo, PduidInformation, ServiceAreaCoverageInfo}

  unfoldable pub update_ue_gpsi : UeKey → String → ℕ → Method (UeStateManager C) Bool
  update_ue_gpsi key v now = locked λ m.
      let k = get_primary_key key in
      elim (find_state k m) [
        | none ↦ (returns false, m)
        | some s ↦ (
          returns true,
          record (put_state k (set_gpsi v now s) m) {
            key_by_gpsi = put v k (erase_if s.gpsi m.key_by_gpsi);
          },
        )
      ]

  -- The updates that set one member of a state and touch no index.
  unfoldable pub update_state :
      UeKey → (AfUeSubscriptionState C → AfUeSubscriptionState C) → Method (UeStateManager C) Bool
  update_state key f = locked λ m.
      let k = get_primary_key key in
      elim (find_state k m) [
        | none ↦ (returns false, m)
        | some s ↦ (returns true, put_state k (f s) m)
      ]

  -- The parameter `timestamp` is not used.
  unfoldable pub update_ue_location_info :
      UeKey → UeLocationInfo → ℕ → Method (UeStateManager C) Bool
  unfolding update_state
  update_ue_location_info key info now = update_state key (set_location_info info now)

  unfoldable pub update_ue_access_mobility_data :
      UeKey → UeAccessMobilityData C → ℕ → Method (UeStateManager C) Bool
  unfolding update_state
  update_ue_access_mobility_data key d now = update_state key (set_access_mobility_data d now)

  unfoldable pub update_ue_policy_data_info : UeKey → String → ℕ → Method (UeStateManager C) Bool
  unfolding update_state
  update_ue_policy_data_info key info now = update_state key (set_ue_policy_data_info info now)

  unfoldable pub update_prose_pduid_information :
      UeKey → PduidInformation → ℕ → Method (UeStateManager C) Bool
  unfolding update_state
  update_prose_pduid_information key info now =
      update_state key (set_prose_pduid_information info now)

  unfoldable pub update_time_sync_service_availability :
      UeKey → Bool → ℕ → Method (UeStateManager C) Bool
  unfolding update_state
  update_time_sync_service_availability key b now =
      update_state key (set_time_sync_service_available_and_capable b now)

  unfoldable pub update_service_area_coverage_allowed :
      UeKey → List ServiceAreaCoverageInfo → ℕ → Method (UeStateManager C) Bool
  unfolding update_state
  update_service_area_coverage_allowed key l now =
      update_state key (set_service_area_coverage_allowed l now)

  unfoldable pub update_high_throughput_desired : UeKey → Bool → ℕ → Method (UeStateManager C) Bool
  unfolding update_state
  update_high_throughput_desired key b now =
      update_state key (set_high_throughput_desired_for_ue_traffic b now)

  unfoldable pub remove_non_primary_ue_identifier :
      UeKey → String → String → ℕ → Method (UeStateManager C) Bool
  remove_non_primary_ue_identifier key type value now = locked λ m.
      let k = get_primary_key key in
      elim (find_state k m) [
        | none ↦ (returns false, m)
        | some s ↦
            let r = remove_known_identifier type value now s in
            if r.0
            then (returns true, add_ue_indices r.1 (remove_ue_indices r.1 (put_state k r.1 m)))
            else (returns false, m)
      ]

  -- `duration_cast<seconds>(now - created_at)`, for a clock with `ticks` ticks in a second.
  unfoldable pub is_expired : ℕ → ℕ → ℕ → AfUeSubscriptionState C → Bool
  is_expired ticks max_age now s =
      is_provisional s.resolution_state && ltb max_age ((now - s.created_at) / ticks)

  unfoldable pub expired_keys : ℕ → ℕ → ℕ → List (String × AfUeSubscriptionState C) → List String
  unfolding is_expired
  expired_keys ticks max_age now [] = []
  expired_keys ticks max_age now ((k, s) ∷ l) =
      let rest = expired_keys ticks max_age now l in
      if is_expired ticks max_age now s then k ∷ rest else rest

  unfoldable pub drop_state : String → UeStateManager C → UeStateManager C
  drop_state k m = elim (find_state k m) [
    | some s ↦ erase_state k (remove_ue_indices s m)
    | none ↦ m
  ]

  unfoldable pub cleanup_expired_provisional_states :
      ℕ → ℕ → ℕ → Method (UeStateManager C) (Unit {0})
  unfolding expired_keys drop_state
  cleanup_expired_provisional_states ticks max_age now = locked λ m.
      (returns tt, each drop_state (expired_keys ticks max_age now m.ue_states_by_key.entries) m)

-- The overloads that take a SUPI call the method with the key that it makes, which may throw.
unfoldable pub by_supi :
    {C : Common} {A : Type 0}
    → String
    → (UeKey → Method (UeStateManager C) A)
    → Method (UeStateManager C) A
by_supi v method = lift (make_key v supi_based) >>= method
