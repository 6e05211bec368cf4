-- ===== src/Ue/Invariant/Core.antt =====
-- The core methods keep the invariant of the UE states.
use phine_af.Prelude.{
  List, [], ◌∷◌, each, ℕ, String, ◌≡◌, refl, ◌≢◌, ◌∙◌, true, Option, none, some, arith,
  Option-cases, inl, inr, if◌then◌else◌,
}
use phine_af.Map.{find, find-put, find-erase}
use phine_af.Ue.Common.{Common}
use phine_af.Ue.Key.Laws.{get_primary_key-demote, single-settled}
use phine_af.Ue.Key.{UeKey, KeyType, composite, single, can_promote_to_supi, get_primary_key}
use phine_af.Ue.Data.{provisional_state, PduSessionData, AfUeSubscriptionState}
use phine_af.Ue.Manager.{
  UeStateManager, find_state, put_state, erase_state, add_ue_indices, remove_ue_indices,
}
use phine_af.Ue.Manager.Frame.{add-Same, remove-Same, find-put_if, find-erase_if, owns}
use phine_af.Ue.Invariant.{
  locked-Inv, IsOwned, IsOwned-keep, Inv, supi_of, owns-named, assign-IsConsistent,
}
use phine_af.Ue.Core.{
  update_ue_state_internal, update_ue_state, remove_ue_state, merge_initial, merge_optional,
  initial_or, create_or_update_provisional_ue_state,
}
use phine_af.Ue.State.{add_or_update_pdu_session}

module _ {C : Common} where
  -- A state takes an entry whose old indices are gone.
  pub add_put-Inv :
      (k : String) (s : AfUeSubscriptionState C) (m n : UeStateManager C)
      → Inv m
      → IsOwned k s
      → n.ue_states_by_key ≡ m.ue_states_by_key
      → ((v : String)
          → find v n.key_by_supi
            ≡ (if owns v (supi_of (find_state k m)) then none else find v m.key_by_supi))
      → Inv (add_ue_indices s (put_state k s n))
  add_put-Inv k s m n c own same gone =
      let added = add-Same s (put_state k s n) in
      assign-IsConsistent k (some s) m.ue_states_by_key _ m.key_by_supi _ c
        (λ t e. ground (arith, own, e))
        (λ j. rw (added.states, same) (find-put k j s m.ue_states_by_key))
        (λ v.
          rw (added.supis, own.keyed)
            (rw (find-put_if v s.supi k n.key_by_supi) (ground (arith, gone v))))

  update_internal-Inv :
      (s : AfUeSubscriptionState C) (m : UeStateManager C)
      → Inv m
      → IsOwned (get_primary_key s.ue_key) s
      → Inv (update_ue_state_internal s m)
  unfolding update_ue_state_internal
  update_internal-Inv s m c own = elim (Option-cases (find_state (get_primary_key s.ue_key) m)) [
    | inl e ↦ rw e (add_put-Inv _ s m m c own refl (λ v. rw e))
    | inr (old, e) ↦ rw e (
        add_put-Inv _ s m (remove_ue_indices old m) c own (remove-Same old m).states
          (λ v. rw (e, (remove-Same old m).supis) (find-erase_if v old.supi m.key_by_supi)))
  ]

  -- A state leaves with its indices.
  pub erase_state-Inv :
      (k : String) (s : AfUeSubscriptionState C) (m : UeStateManager C)
      → Inv m
      → find_state k m ≡ some s
      → Inv (erase_state k (remove_ue_indices s m))
  erase_state-Inv k s m c e =
      let removed = remove-Same s m in
      assign-IsConsistent k none m.ue_states_by_key _ m.key_by_supi _ c (λ t f. cc)
        (λ j. rw removed.states (find-erase k j m.ue_states_by_key))
        (λ v. rw (removed.supis, e) (find-erase_if v s.supi m.key_by_supi))

  -- A state changes in place and keeps its SUPI.
  pub put_state-Inv :
      (k : String) (s t : AfUeSubscriptionState C) (m : UeStateManager C)
      → Inv m
      → find_state k m ≡ some s
      → IsOwned k t
      → t.supi ≡ s.supi
      → Inv (put_state k t m)
  put_state-Inv k s t m c e own supi =
      assign-IsConsistent k (some t) m.ue_states_by_key _ m.key_by_supi _ c
        (λ u f. ground (arith, own, f)) (λ j. find-put k j t m.ue_states_by_key)
        (λ v. ground (arith, e, supi, c.index v, owns-named k v (find_state k m) (c.owned k)))

-- The sessions of the initial data are merged, and the key and the SUPI stay.
module _ {C : Common} where
  each_pdu-keep :
      (ps : List (PduSessionData C)) (now : ℕ) (s : AfUeSubscriptionState C)
      → ((each (λ p. add_or_update_pdu_session p now) ps s).ue_key ≡ s.ue_key)
        × ((each (λ p. add_or_update_pdu_session p now) ps s).supi ≡ s.supi)
  each_pdu-keep [] now s = (refl, refl)
  each_pdu-keep (p ∷ ps) now s = each_pdu-keep ps now (add_or_update_pdu_session p now s)

  merge_initial-keep :
      (d s : AfUeSubscriptionState C) (now : ℕ)
      → ((merge_initial d now s).ue_key ≡ s.ue_key) × ((merge_initial d now s).supi ≡ s.supi)
  unfolding merge_initial
  merge_initial-keep d s now =
      let kept = each_pdu-keep d.pdu_sessions now _ in
      (kept.0 ∙ ground arith, kept.1 ∙ ground arith)

  merged-Inv :
      (k : String) (o : Option (AfUeSubscriptionState C)) (now : ℕ) (s : AfUeSubscriptionState C)
      (m : UeStateManager C)
      → Inv m
      → find_state k m ≡ some s
      → Inv (put_state k (merge_optional o now s) m)
  unfolding merge_optional
  merged-Inv k none now s m c e = put_state-Inv k s s m c e (c.owned k s e) refl
  merged-Inv k (some d) now s m c e =
      let (key, supi) = merge_initial-keep d s now in
      put_state-Inv k s (merge_initial d now s) m c e
        (IsOwned-keep (merge_initial d now s) (c.owned k s e) key supi) supi

  -- A state that a key of one identifier makes has no SUPI of its own.
  pub provisional-IsOwned :
      (t : KeyType) (v : String) (now : ℕ)
      → t ≢ composite
      → IsOwned (get_primary_key (single t v)) (provisional_state {C = C} (single t v) now)
  unfolding can_promote_to_supi
  provisional-IsOwned t v now h = record {
    keyed = refl;
    named = λ w e. cc;
    settled = single-settled t v h;
    stable = get_primary_key-demote t v h;
  }

-- Each core method keeps the invariant, however it ends.
module _ {C : Common} where
  pub update_ue_state-Inv :
      (s : AfUeSubscriptionState C) (m : UeStateManager C)
      → Inv m
      → IsOwned (get_primary_key s.ue_key) s
      → Inv (update_ue_state s m).1
  unfolding update_ue_state
  update_ue_state-Inv s m c own =
      locked-Inv _ m c (update_internal-Inv s (record m { rw_mtx = true }) c own)

  pub remove_ue_state-Inv :
      (key : UeKey) (m : UeStateManager C) → Inv m → Inv (remove_ue_state key m).1
  unfolding remove_ue_state
  remove_ue_state-Inv key m c =
      locked-Inv _ m c (elim (Option-cases (find_state (get_primary_key key) m)) [
        | inl f ↦ rw f c
        | inr (s, f) ↦ rw f (erase_state-Inv _ s (record m { rw_mtx = true }) c f)
      ])

  pub create_or_update-Inv :
      (key : UeKey) (initial : Option (AfUeSubscriptionState C)) (now : ℕ) (m : UeStateManager C)
      → Inv m
      → IsOwned (get_primary_key key) (initial_or initial (provisional_state key now))
      → Inv (create_or_update_provisional_ue_state key initial now m).1
  unfolding create_or_update_provisional_ue_state
  create_or_update-Inv key initial now m c own =
      locked-Inv _ m c (elim (Option-cases (find_state (get_primary_key key) m)) [
        | inl f ↦
            let held = record m { rw_mtx = true } in
            rw f (add_put-Inv _ _ held held c own refl (λ v. rw f))
        | inr (s, f) ↦ rw f (merged-Inv _ initial now s (record m { rw_mtx = true }) c f)
      ])
