-- ===== src/Policies/Manager/Changes.antt =====
-- What an update and a deletion do to the stored policies, in af_core/src/policy_manager.cpp.
use phine_af.Prelude.{
  String, ◌≡◌, refl, ◌∙◌, ap, inl, inr, Bool, true, false, ◌==◌, none, some, Bool-cases,
  Option-cases, if◌then◌else◌,
}
use phine_af.Map.{find, find-erase}
use phine_af.Outcome.{Outcome, returns, throws, undefined}
use phine_af.Json.{JsonLib, JsonReader, JsonItems}
use phine_af.Policies.{QoSPolicy, PolicyManager, validate_policy, assign_fields}
use phine_af.Policies.Fields.{KeepsId, fields-KeepsId}
use phine_af.Policies.Apply.{apply_policy, remove_policy}
use phine_af.Policies.Answers.{
  activated, Applied, IsConfirmed, apply-Applied, Removed, IsReleased, remove-Removed,
}
use phine_af.Policies.Manager.{
  store_updated, update_read, update_found, update_policy, erase_removed, delete_found,
  delete_policy,
}
use phine_af.Policies.Manager.Effects.{Sets, IsUnchanged, store-Sets, store_back-IsUnchanged}

module _ (J : JsonLib) (R : JsonReader J) (I : JsonItems J) where
  -- What an update has done: it returns true for a policy that is valid, confirmed and active, and
  -- false when nothing has changed.
  unfoldable pub Updates : String → PolicyManager → Outcome Bool × PolicyManager → Type 0
  unfolding IsConfirmed Sets IsUnchanged
  Updates i m (returns true, after) =
      (p : QoSPolicy) × (q : QoSPolicy) × (t : String) × (p ≡ activated t q)
      × IsConfirmed J R m.orchestrator q
      × (p.id ≡ i)
      × (validate_policy p ≡ true)
      × Sets i p m after
  Updates i m (returns false, after) = IsUnchanged m after
  Updates i m (throws e, after) = ⊥
  Updates i m (undefined, after) = Unit

  stored-Updates :
      (i : String) (old q : QoSPolicy) (m : PolicyManager) (x : Outcome Bool × QoSPolicy)
      → find i m.policies ≡ some old
      → q.id ≡ i
      → validate_policy q ≡ true
      → Applied J R m.orchestrator q x
      → Updates i m (store_updated J R I i old x m)
  unfolding store_updated Updates Applied validate_policy
  stored-Updates i old q m (returns true, p) e named valid (confirmed, (t, f)) = (
    p,
    q,
    t,
    f,
    confirmed,
    ap (λ y. y.id) f ∙ named,
    ap validate_policy f ∙ valid,
    store-Sets i p m,
  )
  stored-Updates i old q m (returns false, p) e named valid h = store_back-IsUnchanged i old m e
  stored-Updates i old q m (throws x, p) e named valid h = elim h [ ]
  stored-Updates i old q m (undefined, p) e named valid h = tt

  read-Updates :
      (i : String) (old : QoSPolicy) (m : PolicyManager) (x : Outcome (Unit {0}) × QoSPolicy)
      → find i m.policies ≡ some old
      → x.1.id ≡ i
      → x.0 ≡ returns tt
      → Updates i m (update_read J R I i old x m)
  unfolding update_read Updates validate_policy
  read-Updates i old m (returns u, p) e named done = elim (Bool-cases (validate_policy p)) [
    | inl f ↦ rw f (
        stored-Updates i old p m (apply_policy J R m.orchestrator p) e named f
          (apply-Applied J R m.orchestrator p))
    | inr f ↦ rw f (store_back-IsUnchanged i old m e)
  ]
  read-Updates i old m (throws x, p) e named done = cc
  read-Updates i old m (undefined, p) e named done = cc

  -- An update of a stored policy, whose data have the right types, that returns true has stored
  -- under the same identifier a policy that is valid, active and confirmed by the PCF handler, and
  -- no other policy changed; if it returns false, every identifier has the policy that it had.
  -- Nothing is thrown.
  pub update_policy-exact :
      (i : String) (j : J.Json) (old : QoSPolicy) (m : PolicyManager)
      → find i m.policies ≡ some old
      → old.id ≡ i
      → (assign_fields J R I j old).0 ≡ returns tt
      → Updates i m (update_policy J R I i j m)
  unfolding update_policy update_found KeepsId
  update_policy-exact i j old m e named done =
      rw e (
        read-Updates i old m (assign_fields J R I j old) e (fields-KeepsId J R I j old ∙ named)
          done)

  -- What a deletion has done: it returns true for a policy that was not applied, or whose removal
  -- the PCF handler confirmed, and otherwise has changed nothing.
  unfoldable pub Deletes : String → PolicyManager → Outcome Bool × PolicyManager → Type 0
  unfolding IsReleased IsUnchanged
  Deletes i m (returns true, after) =
      ((p : QoSPolicy) × (find i m.policies ≡ some p) × IsReleased J R m.orchestrator p)
      × ((k : String) → find k after.policies ≡ (if i == k then none else find k m.policies))
  Deletes i m (returns false, after) = IsUnchanged m after
  Deletes i m (throws e, after) = ⊥
  Deletes i m (undefined, after) = IsUnchanged m after

  erased-Deletes :
      (i : String) (p : QoSPolicy) (m : PolicyManager) (o : Outcome Bool)
      → find i m.policies ≡ some p
      → Removed J R m.orchestrator p o
      → Deletes i m (erase_removed J R I i o m)
  unfolding erase_removed Deletes Removed IsUnchanged
  erased-Deletes i p m (returns true) e h = ((p, e, h), λ k. find-erase i k m.policies)
  erased-Deletes i p m (returns false) e h = λ k. refl
  erased-Deletes i p m (throws x) e h = elim h [ ]
  erased-Deletes i p m undefined e h = λ k. refl

  -- A deletion returns true only for a stored policy that was not applied to the network, or whose
  -- removal the PCF handler confirmed, and then exactly its identifier has none any more. However
  -- else it ends, every identifier has the policy that it had; it does not throw.
  pub delete_policy-exact : (i : String) (m : PolicyManager) → Deletes i m (delete_policy J R I i m)
  unfolding delete_policy delete_found Deletes IsUnchanged
  delete_policy-exact i m = elim (Option-cases (find i m.policies)) [
    | inl e ↦ rw e (λ k. refl)
    | inr (p, e) ↦ rw e (
        erased-Deletes i p m (remove_policy J R m.orchestrator p) e
          (remove-Removed J R m.orchestrator p))
  ]
