-- ===== src/Ue/Invariant/Promote.antt =====
-- Merging two states and promoting one to its SUPI keep the invariant of the UE states.
use phine_af.Prelude.{
  ℕ, String, ◌≡◌, refl, sym, ◌∙◌, ◌≢◌, true, none, some, List, [], ◌∷◌, arith, Option-cases, inl,
  inr, eq_iff, eq-false,
}
use phine_af.Map.{find-put, find-erase}
use phine_af.Outcome.{returns, undefined, Outcome-cases}
use phine_af.Ue.Common.{Common}
use phine_af.Ue.Key.Laws.{get_primary_key-demote}
use phine_af.Ue.Key.{
  UeKey, composite, supi_based, single, make_key, get_primary_key, can_promote_to_supi,
}
use phine_af.Ue.Data.{AfUeSubscriptionState}
use phine_af.Ue.State.{add_known_identifier}
use phine_af.Ue.State.Laws.{make_key-single, resolve_supi-new, resolved_as, add_known-keep}
use phine_af.Ue.Manager.{
  UeStateManager, locked, find_state, put_state, erase_state, remove_ue_indices,
}
use phine_af.Ue.Manager.Frame.{add-Same, remove-Same, find-put_if, find-erase_if}
use phine_af.Ue.Invariant.{IsOwned, IsOwned-keep, Inv, primary, locked-Inv, assign-IsConsistent}
use phine_af.Ue.Invariant.Core.{erase_state-Inv, add_put-Inv}
use phine_af.Ue.Core.{
  merge_states, merge_found, merge_ue_states, promote_entry, promote_to,
  promote_ue_state_to_resolved, add_all,
}

supi-ne-composite : supi_based ≢ composite
supi-ne-composite e = cc

module _ {C : Common} where
  resolved_as-IsOwned :
      (v : String) (now : ℕ) (s : AfUeSubscriptionState C)
      → IsOwned (primary v) (resolved_as v (single supi_based v) now s)
  unfolding can_promote_to_supi
  resolved_as-IsOwned v now s = record {
    keyed = refl;
    named = λ w e. ground (arith, e);
    settled = refl;
    stable = get_primary_key-demote supi_based v supi-ne-composite;
  }

  promote_entry-Inv :
      (k v : String) (s : AfUeSubscriptionState C) (now : ℕ) (m : UeStateManager C)
      → Inv m
      → find_state k m ≡ some s
      → s.supi ≡ none
      → make_key v supi_based ≡ returns (single supi_based v)
      → find_state (primary v) m ≡ none
      → k ≢ primary v
      → Inv (promote_entry k (primary v) v s now m).1
  unfolding promote_entry
  promote_entry-Inv k v s now m c e none_yet made free apart =
      let n = erase_state k (remove_ue_indices s m) in
      rw (resolve_supi-new v _ now s none_yet (c.owned k s e).settled made) (
        add_put-Inv (primary v) (resolved_as v (single supi_based v) now s) n n
          (erase_state-Inv k s m c e) (resolved_as-IsOwned v now s) refl
          (λ w. rw ((remove-Same s m).states, find-erase, eq-false k (primary v) apart, free) refl))

  -- With the mutex held the merge is not even begun.
  pub merge_held :
      (p s : UeKey) (now : ℕ) (m : UeStateManager C)
      → m.rw_mtx ≡ true
      → merge_ue_states p s now m ≡ (undefined, m)
  unfolding merge_ue_states locked
  merge_held p s now m h = rw h

  promote_to-Inv :
      (current : UeKey) (v : String) (s : AfUeSubscriptionState C) (now : ℕ) (m : UeStateManager C)
      → Inv m
      → m.rw_mtx ≡ true
      → find_state (get_primary_key current) m ≡ some s
      → ((w : String) → get_primary_key current ≢ primary w)
      → make_key v supi_based ≡ returns (single supi_based v)
      → Inv (promote_to current v s now (single supi_based v) m).1
  unfolding promote_to
  promote_to-Inv current v s now m c held e not_supi made =
      rw (eq-false (get_primary_key current) (primary v) (not_supi v))
        (elim (Option-cases (find_state (primary v) m)) [
          | inl f ↦ rw f (
              promote_entry-Inv (get_primary_key current) v s now m c e
                (elim (Option-cases s.supi) [
                  | inl g ↦ g
                  | inr (w, g) ↦ absurd (not_supi w ((c.owned _ s e).named w g))
                ])
                made f (not_supi v))
          | inr (t, f) ↦ rw (f, merge_held (single supi_based v) current now m held) c
        ])

  -- Promotion from a key that is no SUPI's keeps the invariant, on every path: no such state, an
  -- ill-formed SUPI, a state of the SUPI that is there already, and the move itself.
  pub promote-Inv :
      (current : UeKey) (v : String) (now : ℕ) (m : UeStateManager C)
      → Inv m
      → ((w : String) → get_primary_key current ≢ primary w)
      → Inv (promote_ue_state_to_resolved current v now m).1
  unfolding promote_ue_state_to_resolved
  promote-Inv current v now m c not_supi =
      locked-Inv _ m c (elim (Option-cases (find_state (get_primary_key current) m)) [
        | inl e ↦ rw e c
        | inr (s, e) ↦ elim (Outcome-cases (make_key v supi_based)) [
          | inl (key, made) ↦
              let made' = rw (make_key-single v key made) at made in
              rw (e, made')
                (promote_to-Inv current v s now (record m { rw_mtx = true }) c refl e not_supi
                  made')
          | inr (inl (x, made)) ↦ rw (e, made) c
          | inr (inr made) ↦ rw (e, made) c
        ]
      ])

-- The merge of two states changes neither the key nor the SUPI of the primary.
module _ {C : Common} where
  abbrev Keeps : AfUeSubscriptionState C → AfUeSubscriptionState C → Type 0
  Keeps t s = (t.ue_key ≡ s.ue_key) × (t.supi ≡ s.supi)

  add_all-Keeps :
      (type : String) (vs : List String) (now : ℕ) (s : AfUeSubscriptionState C)
      → Keeps (add_all type vs now s) s
  unfolding add_all
  add_all-Keeps type [] now s = (refl, refl)
  add_all-Keeps type (v ∷ vs) now s =
      let one = add_known-keep type v now s in
      let ih = add_all-Keeps type vs now (add_known_identifier type v now s).1 in
      (ih.0 ∙ one.0, ih.1 ∙ one.1)

  pub merge_states-Keeps :
      (secondary : AfUeSubscriptionState C) (now : ℕ) (primary : AfUeSubscriptionState C)
      → Keeps (merge_states secondary now primary) primary
  unfolding merge_states
  merge_states-Keeps secondary now p =
      let a = add_all-Keeps "ipv4" secondary.known_ipv4_addresses now p in
      let p4 = add_all "ipv4" secondary.known_ipv4_addresses now p in
      let b = add_all-Keeps "ipv6" secondary.known_ipv6_addresses now p4 in
      let p6 = add_all "ipv6" secondary.known_ipv6_addresses now p4 in
      let c = add_all-Keeps "gpsi" secondary.known_gpsi_values now p6 in
      (ground arith ∙ c.0 ∙ b.0 ∙ a.0, ground arith ∙ c.1 ∙ b.1 ∙ a.1)

  merge_found-Inv :
      (k l : String) (p s : AfUeSubscriptionState C) (now : ℕ) (m : UeStateManager C)
      → Inv m
      → find_state k m ≡ some p
      → find_state l m ≡ some s
      → k ≢ l
      → Inv (merge_found k l p s now m).1
  unfolding merge_found
  merge_found-Inv k l p s now m c e f apart =
      let t = merge_states s now p in
      let kept = merge_states-Keeps s now p in
      let own = IsOwned-keep t (c.owned k p e) kept.0 kept.1 in
      let without_l = erase_state-Inv l s m c f in
      let cleared = remove_ue_indices s (remove_ue_indices p m) in
      let added = add-Same t (erase_state l (put_state k t cleared)) in
      rw (eq-false k l apart) (
        assign-IsConsistent k (some t) (erase_state l (remove_ue_indices s m)).ue_states_by_key _
          (erase_state l (remove_ue_indices s m)).key_by_supi _ without_l
          (λ u g. ground (arith, own, g))
          (λ j.
            rw
              (
                added.states,
                (remove-Same s (remove_ue_indices p m)).states,
                (remove-Same p m).states,
                (remove-Same s m).states,
                find-erase,
                find-erase,
                find-put,
              )
              (ground (arith, eq_iff k j, eq_iff l j)))
          (λ v.
            rw
              (
                added.supis,
                own.keyed,
                find-put_if,
                (remove-Same s (remove_ue_indices p m)).supis,
                find-erase_if,
                (remove-Same p m).supis,
                find-erase_if,
                (remove-Same s m).supis,
                find-erase_if,
                (remove-Same s m).states,
                find-erase,
                eq-false l k (λ g. apart (sym g)),
                e,
              )
              (ground (arith, kept.1))))

  -- Two different states merge into one that keeps the invariant.
  pub merge-Inv :
      (primary_key secondary_key : UeKey) (now : ℕ) (m : UeStateManager C)
      → Inv m
      → get_primary_key primary_key ≢ get_primary_key secondary_key
      → Inv (merge_ue_states primary_key secondary_key now m).1
  unfolding merge_ue_states
  merge-Inv p s now m c apart =
      locked-Inv _ m c (elim (Option-cases (find_state (get_primary_key p) m)) [
        | inl e ↦ rw e c
        | inr (a, e) ↦ elim (Option-cases (find_state (get_primary_key s) m)) [
          | inl f ↦ rw (e, f) c
          | inr (b, f) ↦
              rw (e, f) (merge_found-Inv _ _ a b now (record m { rw_mtx = true }) c e f apart)
        ]
      ])
