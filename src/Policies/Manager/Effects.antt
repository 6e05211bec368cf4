-- ===== src/Policies/Manager/Effects.antt =====
-- What a creation, an update and a deletion do to the stored policies, in
-- af_core/src/policy_manager.cpp.
use phine_af.Prelude.{
  String, ◌≡◌, refl, sym, ◌∙◌, ap, subst, ◌⊎◌, inl, inr, Bool, true, false, ◌==◌, eq_iff, some,
  Bool-cases, arith, if◌then◌else◌,
}
use phine_af.Map.{find, find-put}
use phine_af.Outcome.{Outcome, returns, throws, undefined}
use phine_af.Json.{JsonLib, JsonReader, JsonItems}
use phine_af.Policies.{QoSPolicy, PolicyManager, new_policy, validate_policy, assign_fields}
use phine_af.Policies.Fields.{KeepsId, fields-KeepsId}
use phine_af.Policies.Apply.{apply_policy}
use phine_af.Policies.Answers.{activated, Applied, IsConfirmed, apply-Applied}
use phine_af.Policies.Manager.{
  store, inactive, unapplied, store_applied, create_read, create_policy,
}

-- Only one identifier has another policy than before.
unfoldable pub Sets : String → QoSPolicy → PolicyManager → PolicyManager → Type 0
Sets i p m after =
    (k : String) → find k after.policies ≡ (if i == k then some p else find k m.policies)

-- Every identifier has the policy that it had.
unfoldable pub IsUnchanged : PolicyManager → PolicyManager → Type 0
IsUnchanged m after = (k : String) → find k after.policies ≡ find k m.policies

pub store-Sets : (i : String) (p : QoSPolicy) (m : PolicyManager) → Sets i p m (store i p m)
unfolding Sets
store-Sets i p m k = find-put i k p m.policies

pub store_back-IsUnchanged :
    (i : String) (p : QoSPolicy) (m : PolicyManager)
    → find i m.policies ≡ some p
    → IsUnchanged m (store i p m)
unfolding IsUnchanged
store_back-IsUnchanged i p m e k = ground (arith, find-put i k p m.policies, eq_iff i k, e)

module _ (J : JsonLib) (R : JsonReader J) (I : JsonItems J) where
  -- What a creation has done, by how it ended: it returns a valid policy that the PCF handler
  -- confirmed, or it throws and has stored nothing, or the valid policy with its error.
  unfoldable pub Creates : String → PolicyManager → Outcome QoSPolicy × PolicyManager → Type 0
  unfolding IsConfirmed Sets IsUnchanged
  Creates i m (returns p, after) =
      (p.id ≡ i)
      × (validate_policy p ≡ true)
      × (p.state ≡ "active")
      × ((q : QoSPolicy) × (t : String) × (p ≡ activated t q) × IsConfirmed J R m.orchestrator q)
      × Sets i p m after
  Creates i m (throws e, after) =
      IsUnchanged m after
      ⊎ ((p : QoSPolicy) × (p.id ≡ i)
          × (validate_policy p ≡ true)
          × (p.state ≡ "error")
          × (p.error_reason ≡ "Failed to apply policy to network")
          × Sets i p m after)
  Creates i m (undefined, after) = IsUnchanged m after

  store_named-Sets :
      (i : String) (p : QoSPolicy) (m : PolicyManager) → p.id ≡ i → Sets i p m (store p.id p m)
  store_named-Sets i p m e = subst (λ x. Sets i p m (store x p m)) (sym e) (store-Sets i p m)

  store_applied-Creates :
      (i : String) (q : QoSPolicy) (m : PolicyManager) (x : Outcome Bool × QoSPolicy)
      → q.id ≡ i
      → validate_policy q ≡ true
      → Applied J R m.orchestrator q x
      → Creates i m (store_applied J R I x m)
  unfolding store_applied Creates Applied validate_policy IsUnchanged
  store_applied-Creates i q m (returns true, p) named valid (confirmed, (t, e)) =
      let same : p.id ≡ i = ap (λ y. y.id) e ∙ named in
      (
        same,
        ap validate_policy e ∙ valid,
        ap (λ y. y.state) e,
        (q, t, e, confirmed),
        store_named-Sets i p m same,
      )
  store_applied-Creates i q m (returns false, p) named valid (s, r, e) =
      let same : p.id ≡ i = ap (λ y. y.id) e ∙ named in
      inr (
        unapplied p,
        same,
        ap (λ y. validate_policy (unapplied y)) e ∙ valid,
        refl,
        refl,
        subst (λ y. Sets i (unapplied p) m (store y (unapplied p) m)) (sym same)
            (store-Sets i (unapplied p) m),
      )
  store_applied-Creates i q m (throws x, p) named valid h = inl (λ k. refl)
  store_applied-Creates i q m (undefined, p) named valid h = λ k. refl

  read-Creates :
      (i : String) (m : PolicyManager) (x : Outcome (Unit {0}) × QoSPolicy)
      → x.1.id ≡ i
      → Creates i m (create_read J R I x m)
  unfolding create_read Creates IsUnchanged validate_policy
  read-Creates i m (returns u, p) named = elim (Bool-cases (validate_policy p)) [
    | inl e ↦ rw e (
        store_applied-Creates i (inactive p) m (apply_policy J R m.orchestrator (inactive p)) named
          e (apply-Applied J R m.orchestrator (inactive p)))
    | inr e ↦ rw e (inl (λ k. refl))
  ]
  read-Creates i m (throws x, p) named = inl (λ k. refl)
  read-Creates i m (undefined, p) named = λ k. refl

  -- A creation that returns gives the valid policy under the identifier that was generated, active
  -- and confirmed by the PCF handler, and it is what this identifier then has. One that throws has
  -- changed nothing, or has stored the valid policy there with the state and the reason of an
  -- error. Every other identifier has the policy that it had.
  pub create_policy-exact :
      (generated : String) (j : J.Json) (m : PolicyManager)
      → Creates generated m (create_policy J R I generated j m)
  unfolding create_policy KeepsId
  create_policy-exact generated j m =
      read-Creates generated m (assign_fields J R I j (new_policy generated))
        (fields-KeepsId J R I j (new_policy generated))
