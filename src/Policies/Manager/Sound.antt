-- ===== src/Policies/Manager/Sound.antt =====
-- What holds of every stored policy, and how the effects of the operations in
-- af_core/src/policy_manager.cpp keep it.
use phine_af.Prelude.{
  String, ◌≡◌, sym, ◌∙◌, ap, subst, ◌⊎◌, inl, inr, Bool, true, false, ◌==◌, eq_iff, some,
  Bool-cases, arith,
}
use phine_af.Map.{find}
use phine_af.Outcome.{Outcome, Method, returns, throws, undefined, continue}
use phine_af.Json.{JsonLib, JsonReader, JsonItems, Message}
use phine_af.Json.Read.{read_text}
use phine_af.Policies.{QoSPolicy, PolicyManager, validate_policy, assign_fields}
use phine_af.Policies.Manager.Effects.{Sets, IsUnchanged, Creates}
use phine_af.Policies.Manager.Changes.{Updates, Deletes}

-- A policy under its own identifier, valid, and active or marked with an error.
abbrev pub IsKept : String → QoSPolicy → Type 0
IsKept k p = (p.id ≡ k) × (validate_policy p ≡ true) × ((p.state ≡ "active") ⊎ (p.state ≡ "error"))

unfoldable pub IsSound : PolicyManager → Type 0
IsSound m = (k : String) (p : QoSPolicy) → find k m.policies ≡ some p → IsKept k p

-- A call that has left the policies sound, unless it is undefined.
unfoldable pub IsSafe : {A : Type 0} → Outcome A × PolicyManager → Type 0
IsSafe (returns a, m) = IsSound m
IsSafe (throws e, m) = IsSound m
IsSafe (undefined, m) = Unit

pub Sets-IsSound :
    (i : String) (p : QoSPolicy) (m after : PolicyManager)
    → IsKept i p
    → Sets i p m after
    → IsSound m
    → IsSound after
unfolding IsSound Sets
Sets-IsSound i p m after kept s h k q e = elim (Bool-cases (i == k)) [
  | inl f ↦
      let same : p ≡ q = ground (arith, s k, f, e) in
      subst (IsKept k) same (subst (λ x. IsKept x p) ((eq_iff i k).0 f) kept)
  | inr f ↦ h k q (ground (arith, s k, f, e))
]

pub unchanged-IsSound : (m after : PolicyManager) → IsUnchanged m after → IsSound m → IsSound after
unfolding IsSound IsUnchanged
unchanged-IsSound m after u h k q e = h k q (sym (u k) ∙ e)

pub bind-IsSafe :
    {A B : Type 0} (x : Outcome A × PolicyManager) (f : A → Method PolicyManager B)
    → IsSafe x
    → ((a : A) (m : PolicyManager) → IsSound m → IsSafe (f a m))
    → IsSafe (continue x.0 f x.1)
unfolding IsSafe
bind-IsSafe (returns a, m) f h k = k a m h
bind-IsSafe (throws e, m) f h k = h
bind-IsSafe (undefined, m) f h k = tt

module _ (J : JsonLib) (R : JsonReader J) (I : JsonItems J) where
  pub Creates-IsSafe :
      (i : String) (m : PolicyManager) (x : Outcome QoSPolicy × PolicyManager)
      → Creates J R I i m x
      → IsSound m
      → IsSafe x
  unfolding Creates IsSafe
  Creates-IsSafe i m (returns p, after) (named, valid, active, c, s) h =
      Sets-IsSound i p m after (named, valid, inl active) s h
  Creates-IsSafe i m (throws e, after) (inl u) h = unchanged-IsSound m after u h
  Creates-IsSafe i m (throws e, after) (inr (p, named, valid, error, r, s)) h =
      Sets-IsSound i p m after (named, valid, inr error) s h
  Creates-IsSafe i m (undefined, after) u h = tt

  pub Updates-IsSafe :
      (i : String) (m : PolicyManager) (x : Outcome Bool × PolicyManager)
      → Updates J R I i m x
      → IsSound m
      → IsSafe x
  unfolding Updates IsSafe
  Updates-IsSafe i m (returns true, after) (p, q, t, e, c, named, valid, s) h =
      Sets-IsSound i p m after (named, valid, inl (ap (λ y. y.state) e)) s h
  Updates-IsSafe i m (returns false, after) u h = unchanged-IsSound m after u h
  Updates-IsSafe i m (throws e, after) u h = elim u [ ]
  Updates-IsSafe i m (undefined, after) u h = tt

  pub Deletes-IsSafe :
      (i : String) (m : PolicyManager) (x : Outcome Bool × PolicyManager)
      → Deletes J R I i m x
      → IsSound m
      → IsSafe x
  unfolding Deletes IsSafe IsSound
  Deletes-IsSafe i m (returns true, after) (c, s) h = λ k p e. h k p (ground (arith, s k, e))
  Deletes-IsSafe i m (returns false, after) u h = unchanged-IsSound m after u h
  Deletes-IsSafe i m (throws e, after) u h = elim u [ ]
  Deletes-IsSafe i m (undefined, after) u h = tt

  -- A request whose data, if it is an update, have the right types.
  unfoldable pub IsTyped : Message → Type 0
  IsTyped message =
      (j : J.Json)
      → J.parse message.payload ≡ returns j
      → read_text J R "operation" "create" j ≡ returns "update"
      → (p : QoSPolicy) → (assign_fields J R I j p).0 ≡ returns tt
