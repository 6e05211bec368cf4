-- ===== src/Ue/Core.antt =====
-- The core methods of af_core/src/ue_state_manager.cpp.
pub mod Effects
use phine_af.Prelude.{
  ℕ, String, Bool, true, false, Option, none, some, List, [], ◌∷◌, ◌++◌, ◌==◌, any, each,
  if◌then◌else◌,
}
use phine_af.Outcome.{Method, returns, undefined, pure, lift, continue, ◌>>=◌}
use phine_af.Ue.Common.{Common}
use phine_af.Ue.Key.{UeKey, supi_based, make_key, get_primary_key}
use phine_af.Ue.Data.{PduSessionData, AfUeSubscriptionState, provisional_state}
use phine_af.Ue.State.{
  set_gpsi, set_location_info, set_access_mobility_data, set_ue_policy_data_info,
  add_or_update_pdu_session, resolve_supi, add_known_identifier, record_activity, same_pdu,
}
use phine_af.Ue.Manager.{
  UeStateManager, locked, find_state, put_state, erase_state, add_ue_indices, remove_ue_indices,
}

module _ {C : Common} where
  -- `update_ue_state_internal`: the state takes its key's place, with its indices.
  unfoldable pub update_ue_state_internal :
      AfUeSubscriptionState C → UeStateManager C → UeStateManager C
  update_ue_state_internal s m =
      let k = get_primary_key s.ue_key in
      add_ue_indices s
        (put_state k s (elim (find_state k m) [ some old ↦ remove_ue_indices old m | none ↦ m ]))

  unfoldable pub update_ue_state : AfUeSubscriptionState C → Method (UeStateManager C) (Unit {0})
  unfolding update_ue_state_internal
  update_ue_state s = locked λ m. (returns tt, update_ue_state_internal s m)

  -- The fields of `initial_data` that overwrite those of a state that is already there.
  abbrev pub set_if {ℓ} :
      {A : Type ℓ}
      → Option A
      → (A → AfUeSubscriptionState C → AfUeSubscriptionState C)
      → AfUeSubscriptionState C
      → AfUeSubscriptionState C
  set_if none f s = s
  set_if (some a) f s = f a s

  unfoldable pub merge_initial :
      AfUeSubscriptionState C → ℕ → AfUeSubscriptionState C → AfUeSubscriptionState C
  merge_initial d now s =
      each (λ p. add_or_update_pdu_session p now) d.pdu_sessions
        (set_if d.ue_policy_data_info (λ i. set_ue_policy_data_info i now)
          (set_if d.access_mobility_data (λ a. set_access_mobility_data a now)
            (set_if d.location_info (λ l. set_location_info l now)
              (set_if d.gpsi (λ g. set_gpsi g now) s))))

  unfoldable pub merge_optional :
      Option (AfUeSubscriptionState C) → ℕ → AfUeSubscriptionState C → AfUeSubscriptionState C
  unfolding merge_initial
  merge_optional none now s = s
  merge_optional (some d) now s = merge_initial d now s

  unfoldable pub initial_or :
      Option (AfUeSubscriptionState C) → AfUeSubscriptionState C → AfUeSubscriptionState C
  initial_or none s = s
  initial_or (some d) s = d

  -- The result is a reference to the state that is stored under the key.
  unfoldable pub create_or_update_provisional_ue_state :
      UeKey → Option (AfUeSubscriptionState C) → ℕ → Method (UeStateManager C) (Unit {0})
  unfolding merge_optional initial_or
  create_or_update_provisional_ue_state key initial now = locked λ m.
      let k = get_primary_key key in
      elim (find_state k m) [
        | some s ↦ (returns tt, put_state k (merge_optional initial now s) m)
        | none ↦
            let s = initial_or initial (provisional_state key now) in
            (returns tt, add_ue_indices s (put_state k s m))
      ]

  unfoldable pub add_all :
      String → List String → ℕ → AfUeSubscriptionState C → AfUeSubscriptionState C
  add_all type values now = each (λ v s. (add_known_identifier type v now s).1) values

  -- A session of the secondary whose identifier the primary does not have is appended; the flag
  -- is `pdu_sessions_modified`.
  unfoldable pub add_missing :
      PduSessionData C → List (PduSessionData C) × Bool → List (PduSessionData C) × Bool
  add_missing p (l, modified) =
      if any (same_pdu p.pdu_session_id) l then (l, modified) else (l ++ p ∷ [], true)

  unfoldable pub record_if : Bool → ℕ → AfUeSubscriptionState C → AfUeSubscriptionState C
  record_if modified now s = if modified then record_activity now s else s

  unfoldable pub merge_states :
      AfUeSubscriptionState C → ℕ → AfUeSubscriptionState C → AfUeSubscriptionState C
  unfolding add_all add_missing record_if
  merge_states secondary now primary =
      let s = add_all "gpsi" secondary.known_gpsi_values now (
        add_all "ipv6" secondary.known_ipv6_addresses now
          (add_all "ipv4" secondary.known_ipv4_addresses now primary)) in
      let merged = each add_missing secondary.pdu_sessions (s.pdu_sessions, false) in
      record_if merged.1 now (record s { pdu_sessions = merged.0 })

  -- A state merged with itself is erased while it is in use.
  unfoldable pub merge_found :
      String
      → String
      → AfUeSubscriptionState C
      → AfUeSubscriptionState C
      → ℕ
      → Method (UeStateManager C) Bool
  unfolding merge_states
  merge_found k l primary secondary now m =
      let cleared = remove_ue_indices secondary (remove_ue_indices primary m) in
      let merged = merge_states secondary now primary in
      if k == l
      then (undefined, m)
      else (returns true, add_ue_indices merged (erase_state l (put_state k merged cleared)))

  unfoldable pub merge_ue_states : UeKey → UeKey → ℕ → Method (UeStateManager C) Bool
  unfolding merge_found
  merge_ue_states primary secondary now = locked λ m.
      let k = get_primary_key primary in
      let l = get_primary_key secondary in
      elim (find_state k m) [
        | none ↦ (returns false, m)
        | some p ↦ elim (find_state l m) [
          | none ↦ (returns false, m)
          | some s ↦ merge_found k l p s now m
        ]
      ]

  -- `resolve_supi` on the state that is stored under a key.
  unfoldable pub resolve_in_place :
      String → String → AfUeSubscriptionState C → ℕ → Method (UeStateManager C) Bool
  resolve_in_place k supi s now m =
      let r = resolve_supi supi now s in continue r.0 (λ _. pure true) (put_state k r.1 m)

  -- The state moves from its key to that of the SUPI. Its `resolve_supi` does not throw, since the
  -- key of the SUPI has been made before.
  unfoldable pub promote_entry :
      String → String → String → AfUeSubscriptionState C → ℕ → Method (UeStateManager C) Bool
  promote_entry k l supi s now m =
      let r = resolve_supi supi now s in
      let moved = add_ue_indices r.1 (put_state l r.1 (erase_state k (remove_ue_indices s m))) in
      continue r.0 (λ _. pure true) moved

  unfoldable pub promote_to :
      UeKey → String → AfUeSubscriptionState C → ℕ → UeKey → Method (UeStateManager C) Bool
  unfolding resolve_in_place promote_entry
  promote_to current supi s now supi_key m =
      let k = get_primary_key current in
      let l = get_primary_key supi_key in
      if k == l then resolve_in_place k supi s now m else elim (find_state l m) [
        | some other ↦ merge_ue_states supi_key current now m
        | none ↦ promote_entry k l supi s now m
      ]

  unfoldable pub promote_ue_state_to_resolved : UeKey → String → ℕ → Method (UeStateManager C) Bool
  unfolding promote_to
  promote_ue_state_to_resolved current supi now = locked λ m.
      elim (find_state (get_primary_key current) m) [
        | none ↦ (returns false, m)
        | some s ↦ (lift (make_key supi supi_based) >>= promote_to current supi s now) m
      ]

  unfoldable pub remove_ue_state : UeKey → Method (UeStateManager C) Bool
  remove_ue_state key = locked λ m.
      let k = get_primary_key key in
      elim (find_state k m) [
        | some s ↦ (returns true, erase_state k (remove_ue_indices s m))
        | none ↦ (returns false, m)
      ]

  unfoldable pub remove_ue_state_by_supi : String → Method (UeStateManager C) Bool
  remove_ue_state_by_supi supi = do key ← lift (make_key supi supi_based); remove_ue_state key
