-- ===== src/Ue/Update/Expiry.antt =====
-- The provisional states that the cleanup removes.
use phine_af.Prelude.{
  ℕ, String, ◌≡◌, refl, ◌∙◌, ap, true, false, none, List, [], ◌∷◌, arith, ◌==◌, eq_iff, contains,
  each, Option-cases, inl, inr, if◌then◌else◌,
}
use phine_af.Map.{find, value_at, find-erase}
use phine_af.Map.Unique.{HasOnce, IsUnique, holds}
use phine_af.Ue.Common.{Common}
use phine_af.Ue.Data.{AfUeSubscriptionState}
use phine_af.Ue.Manager.{UeStateManager, find_state}
use phine_af.Ue.Manager.Frame.{remove-Same}
use phine_af.Ue.Core.Effects.{locked-free}
use phine_af.Ue.Update.{is_expired, expired_keys, drop_state, cleanup_expired_provisional_states}

module _ {C : Common} where
  contains-expired_keys :
      (ticks max_age now : ℕ) (l : List (String × AfUeSubscriptionState C))
      → HasOnce l
      → (k : String)
      → contains k (expired_keys ticks max_age now l)
        ≡ holds (is_expired ticks max_age now) (value_at k l)
  unfolding expired_keys HasOnce value_at
  contains-expired_keys ticks max_age now [] h k = refl
  contains-expired_keys ticks max_age now ((j, s) ∷ l) h k =
      ground (arith, contains-expired_keys ticks max_age now l h.1 k, h.0, eq_iff j k)

  find-drop_state :
      (k j : String) (m : UeStateManager C)
      → find_state j (drop_state k m) ≡ (if k == j then none else find_state j m)
  unfolding drop_state
  find-drop_state k j m = elim (Option-cases (find_state k m)) [
    | inl e ↦ rw (drop_state, e) (ground (arith, e, eq_iff k j))
    | inr (s, e) ↦ rw (drop_state, e, (remove-Same s m).states) (find-erase k j m.ue_states_by_key)
  ]

  find-drop_all :
      (ks : List String) (j : String) (m : UeStateManager C)
      → find_state j (each drop_state ks m) ≡ (if contains j ks then none else find_state j m)
  find-drop_all [] j m = refl
  find-drop_all (k ∷ ks) j m =
      ground (arith, find-drop_all ks j (drop_state k m), find-drop_state k j m)

  -- On a manager that the thread has not locked, whose map holds each key once, the cleanup removes
  -- the state of a key exactly when it is provisional and its age in whole seconds is above the
  -- maximum, and leaves every other state as it was.
  cleanup-removes :
      (ticks max_age now : ℕ) (m : UeStateManager C)
      → m.rw_mtx ≡ false
      → IsUnique m.ue_states_by_key
      → (k : String)
      → find_state k (cleanup_expired_provisional_states ticks max_age now m).1
        ≡ (if holds (is_expired ticks max_age now) (find_state k m) then none else find_state k m)
  unfolding cleanup_expired_provisional_states find
  cleanup-removes ticks max_age now m h u k =
      ap (λ r. find_state k r.1) (locked-free _ m h)
      ∙ find-drop_all (expired_keys ticks max_age now m.ue_states_by_key.entries) k
          (record m { rw_mtx = true })
      ∙ rw (contains-expired_keys ticks max_age now m.ue_states_by_key.entries u.once k) refl
