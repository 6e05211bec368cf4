-- ===== src/Map.antt =====
-- `std::unordered_map<std::string, V>`: an association list behind its laws. Its order stands for
-- the order in which the map is iterated, which the standard leaves open.
pub mod Unique
use phine_af.Prelude.{
  not, keep, String, ◌≡◌, refl, Option, none, some, List, [], ◌∷◌, arith, ◌==◌, eq_iff, eq_refl,
  if◌then◌else◌,
}

pub record Map {ℓ} (V : Type ℓ) : Type ℓ where
  pub entries : List (String × V)

module _ {ℓ} {V : Type ℓ} where
  unfoldable pub value_at : String → List (String × V) → Option V
  value_at k [] = none
  value_at k (e ∷ l) = if e.0 == k then some e.1 else value_at k l

  unfoldable pub replace : String → V → List (String × V) → List (String × V)
  replace k v [] = (k, v) ∷ []
  replace k v ((j, w) ∷ l) =
      let rest = replace k v l in if j == k then (j, v) ∷ l else (j, w) ∷ rest

  unfoldable pub drop : String → List (String × V) → List (String × V)
  drop k = keep (λ e. not (e.0 == k))

  unfoldable pub empty : Map V
  empty = record { entries = [] }

  -- `find(k)`: `none` stands for `end()`.
  unfoldable pub find : String → Map V → Option V
  unfolding value_at
  find k m = value_at k m.entries

  -- `m[k] = v`.
  unfoldable pub put : String → V → Map V → Map V
  unfolding replace
  put k v m = record { entries = replace k v m.entries }

  -- `erase(k)`.
  unfoldable pub erase : String → Map V → Map V
  unfolding drop
  erase k m = record { entries = drop k m.entries }

  value_at-replace :
      (k j : String) (v : V) (l : List (String × V))
      → value_at j (replace k v l) ≡ (if k == j then some v else value_at j l)
  unfolding value_at replace
  value_at-replace k j v [] = refl
  value_at-replace k j v ((i, w) ∷ l) =
      ground (arith, eq_iff k j, eq_iff i k, eq_iff i j, value_at-replace k j v l)

  value_at-drop :
      (k j : String) (entries : List (String × V))
      → value_at j (drop k entries) ≡ (if k == j then none else value_at j entries)
  unfolding drop value_at
  value_at-drop k j [] = ground arith
  value_at-drop k j (e ∷ rest) =
      ground (arith, eq_iff k j, eq_iff e.0 j, eq_iff e.0 k, value_at-drop k j rest)

  pub find-put :
      (k j : String) (v : V) (m : Map V)
      → find j (put k v m) ≡ (if k == j then some v else find j m)
  unfolding find put
  find-put k j v m = value_at-replace k j v m.entries

  pub find-erase :
      (k j : String) (m : Map V) → find j (erase k m) ≡ (if k == j then none else find j m)
  unfolding find erase
  find-erase k j m = value_at-drop k j m.entries

pub find-put_self {ℓ} : {V : Type ℓ} (k : String) (v : V) (m : Map V) → find k (put k v m) ≡ some v
find-put_self k v m = rw (find-put k k v m, eq_refl k)

pub find-empty {ℓ} : {V : Type ℓ} (k : String) → find k (empty {V = V}) ≡ none
unfolding find empty
find-empty k = refl

pub ruleset map_laws = (find-empty, find-put, find-erase)
