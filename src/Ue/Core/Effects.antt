-- ===== src/Ue/Core/Effects.antt =====
-- What the core methods do to the states that the searches find.
use phine_af.Prelude.{
  ℕ, String, ◌≡◌, ◌≢◌, refl, sym, ◌∙◌, ap, Bool, true, false, Option, none, some, arith, ◌==◌,
  eq_iff, is_some, eq-false, Option-cases, inl, inr, if◌then◌else◌,
}
use phine_af.Map.{find-put, find-erase}
use phine_af.Outcome.{Outcome, Method, returns, undefined}
use phine_af.Ue.Common.{Common}
use phine_af.Ue.Key.{UeKey, can_promote_to_supi, supi_based, make_key, single, get_primary_key}
use phine_af.Ue.Data.{AfUeSubscriptionState}
use phine_af.Ue.State.Laws.{resolve_supi-new, resolved_as}
use phine_af.Ue.Manager.{
  UeStateManager, locked, find_state, put_state, erase_state, add_ue_indices, remove_ue_indices,
}
use phine_af.Ue.Manager.Frame.{add-Same, remove-Same}
use phine_af.Ue.Invariant.{primary}
use phine_af.Ue.Invariant.Promote.{merge_held}
use phine_af.Ue.Core.{
  update_ue_state, update_ue_state_internal, remove_ue_state, promote_ue_state_to_resolved,
  promote_to, promote_entry,
}
use phine_af.Ue.Search.{get_ue_state_by_key}

-- A method on a manager that the thread has not locked.
pub locked-free :
    {C : Common} {A : Type 0} (body : Method (UeStateManager C) A) (m : UeStateManager C)
    → m.rw_mtx ≡ false
    → locked body m ≡ (
      (body (record m { rw_mtx = true })).0,
      record ((body (record m { rw_mtx = true })).1) { rw_mtx = false },
    )
unfolding locked
locked-free body m h = rw h refl

module _ {C : Common} where
  -- The state that a search by key returns.
  pub search-free :
      (key : UeKey) (m : UeStateManager C)
      → m.rw_mtx ≡ false
      → (get_ue_state_by_key key m).0 ≡ returns (find_state (get_primary_key key) m)
  unfolding get_ue_state_by_key
  search-free key m h = ap (λ r. r.0) (locked-free _ m h)

  either_returns :
      (b : Bool) (o p : Option (AfUeSubscriptionState C))
      → Path
          (Outcome (Option (AfUeSubscriptionState C)))
          (returns (if b then o else p))
          (if b then returns o else returns p)
  either_returns true o p = refl
  either_returns false o p = refl

  remove_body : UeKey → Method (UeStateManager C) Bool
  remove_body key m = elim (find_state (get_primary_key key) m) [
    | some s ↦ (returns true, erase_state (get_primary_key key) (remove_ue_indices s m))
    | none ↦ (returns false, m)
  ]

  find-remove :
      (key : UeKey) (j : String) (m : UeStateManager C)
      → find_state j (remove_body key m).1
        ≡ (if get_primary_key key == j then none else find_state j m)
  unfolding remove_body
  find-remove key j m = elim (Option-cases (find_state (get_primary_key key) m)) [
    | inl e ↦ rw (remove_body, e) (ground (arith, e, eq_iff (get_primary_key key) j))
    | inr (s, e) ↦
        rw (remove_body, e, (remove-Same s m).states)
          (find-erase (get_primary_key key) j m.ue_states_by_key)
  ]

  find-update :
      (s : AfUeSubscriptionState C) (j : String) (m : UeStateManager C)
      → find_state j (update_ue_state_internal s m)
        ≡ (if get_primary_key s.ue_key == j then some s else find_state j m)
  unfolding update_ue_state_internal
  find-update s j m = elim (Option-cases (find_state (get_primary_key s.ue_key) m)) [
    | inl e ↦
        rw
          (
            update_ue_state_internal,
            e,
            (add-Same s (put_state (get_primary_key s.ue_key) s m)).states,
          )
          (find-put (get_primary_key s.ue_key) j s m.ue_states_by_key)
    | inr (old, e) ↦
        let n = put_state (get_primary_key s.ue_key) s (remove_ue_indices old m) in
        rw (update_ue_state_internal, e, (add-Same s n).states, (remove-Same old m).states)
          (find-put (get_primary_key s.ue_key) j s m.ue_states_by_key)
  ]

  -- On a manager that the thread has not locked, the search by key after an update returns the new
  -- state for its own key, and for any other key what it returned before.
  pub update-search :
      (s : AfUeSubscriptionState C) (key : UeKey) (m : UeStateManager C)
      → m.rw_mtx ≡ false
      → (get_ue_state_by_key key (update_ue_state s m).1).0 ≡ (
          if get_primary_key s.ue_key == get_primary_key key
          then returns (some s)
          else (get_ue_state_by_key key m).0)
  unfolding update_ue_state
  update-search s key m h =
      ap (λ r. (get_ue_state_by_key key r.1).0) (locked-free _ m h)
      ∙ search-free key
          (record (update_ue_state_internal s (record m { rw_mtx = true })) { rw_mtx = false }) refl
      ∙ rw (find-update s (get_primary_key key) (record m { rw_mtx = true }), search-free key m h)
          (either_returns (get_primary_key s.ue_key == get_primary_key key) (some s) _)

  -- On a manager that the thread has not locked, a removal tells whether the key had a state, and
  -- after it the search by this key returns none, that by any other key what it returned before.
  pub remove-search :
      (key other : UeKey) (m : UeStateManager C)
      → m.rw_mtx ≡ false
      → ((remove_ue_state key m).0 ≡ returns (is_some (find_state (get_primary_key key) m)))
        × ((get_ue_state_by_key other (remove_ue_state key m).1).0 ≡ (
            if get_primary_key key == get_primary_key other
            then returns none
            else (get_ue_state_by_key other m).0))
  unfolding remove_ue_state remove_body
  remove-search key other m h = (
    ap (λ r. r.0) (locked-free (remove_body key) m h)
        ∙ elim (Option-cases (find_state (get_primary_key key) m)) [
          | inl e ↦ rw (remove_body, e) refl
          | inr (s, e) ↦ rw (remove_body, e) refl
        ],
    ap (λ r. (get_ue_state_by_key other r.1).0) (locked-free (remove_body key) m h)
        ∙ search-free other
            (record ((remove_body key (record m { rw_mtx = true })).1) { rw_mtx = false }) refl
        ∙ rw
            (
              find-remove key (get_primary_key other) (record m { rw_mtx = true }),
              search-free other m h,
            )
            (either_returns (get_primary_key key == get_primary_key other) none _),
  )

  -- On a manager that the thread has not locked, the promotion of a state to a well-formed SUPI that
  -- another stored state already stands under is undefined: with the mutex held, the merge locks it
  -- again. The manager is then as it was.
  pub promote-conflict :
      (current : UeKey) (v : String) (now : ℕ) (s t : AfUeSubscriptionState C)
      (m : UeStateManager C)
      → m.rw_mtx ≡ false
      → find_state (get_primary_key current) m ≡ some s
      → make_key v supi_based ≡ returns (single supi_based v)
      → find_state (primary v) m ≡ some t
      → get_primary_key current ≢ primary v
      → promote_ue_state_to_resolved current v now m ≡ (undefined, m)
  unfolding promote_ue_state_to_resolved promote_to
  promote-conflict current v now s t m h e made f apart =
      locked-free _ m h
      ∙ rw
          (
            e,
            made,
            eq-false (get_primary_key current) (primary v) apart,
            f,
            merge_held (single supi_based v) current now (record m { rw_mtx = true }) refl,
          )
          (ap (λ b. (undefined, record m { rw_mtx = b })) (sym h))

  -- What a promotion that moves the state leaves.
  unfoldable pub moved :
      String → String → ℕ → AfUeSubscriptionState C → UeStateManager C → UeStateManager C
  moved k v now s m =
      let t = resolved_as v (single supi_based v) now s in
      record (add_ue_indices t (
        put_state (primary v) t
          (erase_state k (remove_ue_indices s (record m { rw_mtx = true }))))) { rw_mtx = false }

  pub promote-moves :
      (current : UeKey) (v : String) (now : ℕ) (s : AfUeSubscriptionState C) (m : UeStateManager C)
      → m.rw_mtx ≡ false
      → find_state (get_primary_key current) m ≡ some s
      → s.supi ≡ none
      → can_promote_to_supi s.ue_key ≡ false
      → make_key v supi_based ≡ returns (single supi_based v)
      → find_state (primary v) m ≡ none
      → get_primary_key current ≢ primary v
      → promote_ue_state_to_resolved current v now m
        ≡ (returns true, moved (get_primary_key current) v now s m)
  unfolding promote_ue_state_to_resolved promote_to promote_entry moved
  promote-moves current v now s m h e unnamed settled made free apart =
      locked-free _ m h
      ∙ rw
          (
            e,
            made,
            eq-false (get_primary_key current) (primary v) apart,
            free,
            resolve_supi-new v _ now s unnamed settled made,
          )
          refl
