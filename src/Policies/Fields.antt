-- ===== src/Policies/Fields.antt =====
-- The reading of the fields of a policy keeps its identifier, in af_core/src/policy_manager.cpp.
use phine_af.Prelude.{String, ◌≡◌, refl, ◌∙◌, inl, inr, Bool-cases}
use phine_af.Int.{ℤ}
use phine_af.Outcome.{Outcome, Method, returns, throws, undefined, Outcome-cases, ◌>>◌}
use phine_af.Json.{JsonLib, JsonReader, JsonItems}
use phine_af.Policies.{
  QoSPolicy, assigned, assign_text, assign_integer, assign_params, assign_fields,
}

-- A part of the reading that leaves the identifier.
unfoldable pub KeepsId : Method QoSPolicy (Unit {0}) → Type 0
KeepsId f = (p : QoSPolicy) → (f p).1.id ≡ p.id

then-KeepsId : (f g : Method QoSPolicy (Unit {0})) → KeepsId f → KeepsId g → KeepsId (f >> g)
unfolding KeepsId
then-KeepsId f g h i p = elim (Outcome-cases (f p).0) [
  | inl (u, e) ↦ rw e (i (f p).1 ∙ h p)
  | inr (inl (x, e)) ↦ rw e (h p)
  | inr (inr e) ↦ rw e (h p)
]

assigned-id :
    {A : Type 0} (f : A → QoSPolicy → QoSPolicy) (o : Outcome A) (p : QoSPolicy)
    → ((a : A) (q : QoSPolicy) → (f a q).id ≡ q.id)
    → (assigned f o p).1.id ≡ p.id
assigned-id f (returns a) p h = h a p
assigned-id f (throws e) p h = refl
assigned-id f undefined p h = refl

module _ (J : JsonLib) (R : JsonReader J) where
  text-KeepsId :
      (k : String) (f : String → QoSPolicy → QoSPolicy) (j : J.Json)
      → ((s : String) (p : QoSPolicy) → (f s p).id ≡ p.id)
      → KeepsId (assign_text J R k f j)
  unfolding KeepsId assign_text
  text-KeepsId k f j h p = elim (Bool-cases (R.contains k j)) [
    | inl e ↦ rw e (assigned-id f (R.as_text (J.field k j)) p h)
    | inr e ↦ rw e refl
  ]

  integer-KeepsId :
      (k : String) (f : ℤ → QoSPolicy → QoSPolicy) (j : J.Json)
      → ((n : ℤ) (p : QoSPolicy) → (f n p).id ≡ p.id)
      → KeepsId (assign_integer J R k f j)
  unfolding KeepsId assign_integer
  integer-KeepsId k f j h p = elim (Bool-cases (R.contains k j)) [
    | inl e ↦ rw e (assigned-id f (R.as_integer (J.field k j)) p h)
    | inr e ↦ rw e refl
  ]

  params-KeepsId : (I : JsonItems J) (j : J.Json) → KeepsId (assign_params J R I j)
  unfolding KeepsId assign_params
  params-KeepsId I j p = refl

  pub fields-KeepsId : (I : JsonItems J) (j : J.Json) → KeepsId (assign_fields J R I j)
  unfolding assign_fields
  fields-KeepsId I j = then-KeepsId _ _ (text-KeepsId _ _ j (λ s p. refl)) (
      then-KeepsId _ _ (text-KeepsId _ _ j (λ s p. refl)) (
        then-KeepsId _ _ (text-KeepsId _ _ j (λ s p. refl)) (
          then-KeepsId _ _ (text-KeepsId _ _ j (λ s p. refl)) (
            then-KeepsId _ _ (integer-KeepsId _ _ j (λ n p. refl)) (
              then-KeepsId _ _ (integer-KeepsId _ _ j (λ n p. refl))
                (then-KeepsId _ _ (integer-KeepsId _ _ j (λ n p. refl)) (params-KeepsId I j)))))))
