-- ===== src/Ue/Search/Promotion.antt =====
-- What the searches find after a promotion.
use phine_af.Prelude.{
  ℕ, String, ◌≡◌, ◌≢◌, refl, sym, ◌∙◌, ap, subst, true, false, none, some, ◌==◌, eq_refl, eq-false,
  Option-cases, inl, inr, if◌then◌else◌,
}
use phine_af.Map.{find-put, find-erase}
use phine_af.Outcome.{returns}
use phine_af.Ue.Common.{Common}
use phine_af.Ue.Key.{UeKey, supi_based, make_key, single, get_primary_key}
use phine_af.Ue.Data.{AfUeSubscriptionState}
use phine_af.Ue.State.Laws.{resolved_as}
use phine_af.Ue.Manager.{UeStateManager, find_state, put_state, erase_state, remove_ue_indices}
use phine_af.Ue.Manager.Frame.{add-Same, remove-Same}
use phine_af.Ue.Invariant.{Inv, primary}
use phine_af.Ue.Invariant.Promote.{promote-Inv}
use phine_af.Ue.Core.{promote_ue_state_to_resolved}
use phine_af.Ue.Core.Effects.{moved, promote-moves, search-free}
use phine_af.Ue.Search.{get_ue_state_by_key, get_ue_state_by_supi}
use phine_af.Ue.Search.Results.{get_ue_state_by_supi-eq-find}

module _ {C : Common} where
  find-moved :
      (k v : String) (now : ℕ) (s : AfUeSubscriptionState C) (j : String) (m : UeStateManager C)
      → find_state j (moved k v now s m) ≡ (
          if primary v == j
          then some (resolved_as v (single supi_based v) now s)
          else if k == j
          then none
          else find_state j m)
  unfolding moved
  find-moved k v now s j m =
      let t = resolved_as v (single supi_based v) now s in
      let locked = record m { rw_mtx = true } in
      let n = erase_state k (remove_ue_indices s locked) in
      rw
        (
          moved,
          (add-Same t (put_state (primary v) t n)).states,
          find-put,
          (remove-Same s locked).states,
          find-erase,
        )
        refl

  -- Under the invariant, on a manager that the thread has not locked, a stored state without a SUPI
  -- whose key is no SUPI's is promoted to a well-formed SUPI that has no state yet: the call returns
  -- true, the search by the SUPI then returns the state with this SUPI, resolved, and the search by
  -- the old key returns none.
  pub promote-search :
      (current : UeKey) (v : String) (now : ℕ) (s : AfUeSubscriptionState C) (m : UeStateManager C)
      → m.rw_mtx ≡ false
      → Inv m
      → find_state (get_primary_key current) m ≡ some s
      → make_key v supi_based ≡ returns (single supi_based v)
      → find_state (primary v) m ≡ none
      → ((w : String) → get_primary_key current ≢ primary w)
      → ((promote_ue_state_to_resolved current v now m).0 ≡ returns true)
        × ((get_ue_state_by_supi v (promote_ue_state_to_resolved current v now m).1).0
            ≡ returns (some (resolved_as v (single supi_based v) now s)))
        × ((get_ue_state_by_key current (promote_ue_state_to_resolved current v now m).1).0
            ≡ returns none)
  promote-search current v now s m h c e made free not_supi =
      let k = get_primary_key current in
      let own = c.owned k s e in
      let unnamed : s.supi ≡ none = elim (Option-cases s.supi) [
        | inl g ↦ g
        | inr (w, g) ↦ absurd (not_supi w (own.named w g))
      ] in
      let done = promote-moves current v now s m h e unnamed own.settled made free (not_supi v) in
      let kept : Inv (moved k v now s m) =
        subst (λ r. Inv r.1) done (promote-Inv current v now m c not_supi) in
      (
        ap (λ r. r.0) done,
        ap (λ r. (get_ue_state_by_supi v r.1).0) done
            ∙ get_ue_state_by_supi-eq-find v (moved k v now s m) (unfold moved in refl) kept
            ∙ rw (find-moved k v now s (primary v) m, eq_refl (primary v)) (rw (eq_refl v) refl),
        ap (λ r. (get_ue_state_by_key current r.1).0) done
            ∙ search-free current (moved k v now s m) (unfold moved in refl)
            ∙ rw
                (
                  find-moved k v now s k m,
                  eq-false (primary v) k (λ g. not_supi v (sym g)),
                  eq_refl k,
                )
                refl,
      )
