-- ===== src/Ue/Invariant/Updates.antt =====
-- The granular updates and the cleanup keep the invariant of the UE states.
use phine_af.Prelude.{
  ℕ, String, ◌≡◌, refl, true, some, List, [], ◌∷◌, arith, each, Option-cases, Bool-cases, inl, inr,
}
use phine_af.Map.{find-put}
use phine_af.Ue.Common.{Common}
use phine_af.Ue.Key.{UeKey, get_primary_key}
use phine_af.Ue.Data.{AfUeSubscriptionState}
use phine_af.Ue.State.{remove_known_identifier, set_gpsi}
use phine_af.Ue.State.Laws.{remove_known-keep, Demotes, demote-settled, demote_twice}
use phine_af.Ue.Manager.{UeStateManager, find_state, put_state, remove_ue_indices, add_ue_indices}
use phine_af.Ue.Manager.Frame.{add-Same, remove-Same, find-put_if, find-erase_if}
use phine_af.Ue.Invariant.{IsOwned, IsOwned-keep, Inv, locked-Inv, assign-IsConsistent}
use phine_af.Ue.Invariant.Core.{erase_state-Inv, put_state-Inv}
use phine_af.Ue.Update.{
  update_state, update_ue_gpsi, remove_non_primary_ue_identifier, drop_state, expired_keys,
  cleanup_expired_provisional_states,
}

module _ {C : Common} where
  -- Members other than the key and the SUPI change.
  pub keep-Inv :
      (k : String) (s t : AfUeSubscriptionState C) (m : UeStateManager C)
      → Inv m
      → find_state k m ≡ some s
      → t.ue_key ≡ s.ue_key
      → t.supi ≡ s.supi
      → Inv (put_state k t m)
  keep-Inv k s t m c e key supi =
      put_state-Inv k s t m c e (IsOwned-keep t (c.owned k s e) key supi) supi

  pub update_state-Inv :
      (key : UeKey) (f : AfUeSubscriptionState C → AfUeSubscriptionState C) (m : UeStateManager C)
      → ((s : AfUeSubscriptionState C) → (f s).ue_key ≡ s.ue_key)
      → ((s : AfUeSubscriptionState C) → (f s).supi ≡ s.supi)
      → Inv m
      → Inv (update_state key f m).1
  unfolding update_state
  update_state-Inv key f m hk hs c =
      locked-Inv _ m c (elim (Option-cases (find_state (get_primary_key key) m)) [
        | inl e ↦ rw e c
        | inr (s, e) ↦ rw e (keep-Inv _ s (f s) (record m { rw_mtx = true }) c e (hk s) (hs s))
      ])

  pub update_ue_gpsi-Inv :
      (key : UeKey) (v : String) (now : ℕ) (m : UeStateManager C)
      → Inv m
      → Inv (update_ue_gpsi key v now m).1
  unfolding update_ue_gpsi
  update_ue_gpsi-Inv key v now m c =
      locked-Inv _ m c (elim (Option-cases (find_state (get_primary_key key) m)) [
        | inl e ↦ rw e c
        | inr (s, e) ↦
            rw e (keep-Inv _ s (set_gpsi v now s) (record m { rw_mtx = true }) c e refl refl)
      ])

  Demotes-IsOwned :
      (k : String) (s t : AfUeSubscriptionState C)
      → IsOwned k s
      → Demotes s.ue_key t.ue_key
      → t.supi ≡ s.supi
      → IsOwned k t
  Demotes-IsOwned k s t own (inl same) supi = IsOwned-keep t own same supi
  Demotes-IsOwned k s t own (inr (other, same)) supi = record {
    keyed = rw same own.stable;
    named = λ v e. own.named v (cc (e, supi));
    settled = rw same (demote-settled s.ue_key own.settled other);
    stable = rw (same, demote_twice) own.stable;
  }

  -- A state is replaced first, and then its indices are taken out and put in again.
  reindexed-Inv :
      (k : String) (s t : AfUeSubscriptionState C) (m : UeStateManager C)
      → Inv m
      → find_state k m ≡ some s
      → IsOwned k t
      → t.supi ≡ s.supi
      → Inv (add_ue_indices t (remove_ue_indices t (put_state k t m)))
  reindexed-Inv k s t m c e own supi =
      let n = put_state k t m in
      let removed = remove-Same t n in
      let added = add-Same t (remove_ue_indices t n) in
      assign-IsConsistent k (some t) m.ue_states_by_key _ m.key_by_supi _ c
        (λ u f. ground (arith, own, f))
        (λ j. rw (added.states, removed.states) (find-put k j t m.ue_states_by_key))
        (λ v.
          rw
            (
              added.supis,
              own.keyed,
              find-put_if v t.supi k,
              removed.supis,
              find-erase_if v t.supi m.key_by_supi,
              e,
            )
            (ground (arith, supi)))

  pub remove_identifier-Inv :
      (key : UeKey) (type v : String) (now : ℕ) (m : UeStateManager C)
      → Inv m
      → Inv (remove_non_primary_ue_identifier key type v now m).1
  unfolding remove_non_primary_ue_identifier
  remove_identifier-Inv key type v now m c =
      locked-Inv _ m c (elim (Option-cases (find_state (get_primary_key key) m)) [
        | inl e ↦ rw e c
        | inr (s, e) ↦ elim (Bool-cases (remove_known_identifier type v now s).0) [
          | inl h ↦
              let t = (remove_known_identifier type v now s).1 in
              let kept = remove_known-keep type v now s in
              rw (e, h)
                (reindexed-Inv _ s t (record m { rw_mtx = true }) c e
                  (Demotes-IsOwned _ s t (c.owned _ s e) kept.0 kept.1) kept.1)
          | inr h ↦ rw (e, h) c
        ]
      ])

  drop_state-Inv : (k : String) (m : UeStateManager C) → Inv m → Inv (drop_state k m)
  unfolding drop_state
  drop_state-Inv k m c = elim (Option-cases (find_state k m)) [
    | inl e ↦ rw (e, drop_state) c
    | inr (s, e) ↦ rw (e, drop_state) (erase_state-Inv k s m c e)
  ]

  each_drop-Inv : (ks : List String) (m : UeStateManager C) → Inv m → Inv (each drop_state ks m)
  each_drop-Inv [] m c = c
  each_drop-Inv (k ∷ ks) m c = each_drop-Inv ks (drop_state k m) (drop_state-Inv k m c)

  pub cleanup-Inv :
      (ticks max_age now : ℕ) (m : UeStateManager C)
      → Inv m
      → Inv (cleanup_expired_provisional_states ticks max_age now m).1
  unfolding cleanup_expired_provisional_states
  cleanup-Inv ticks max_age now m c = locked-Inv _ m c (
      each_drop-Inv (expired_keys ticks max_age now m.ue_states_by_key.entries)
        (record m { rw_mtx = true }) c)
