-- ===== src/Map/Unique.antt =====
-- Maps hold each key once, so what is found by iteration is what is found by key.
use phine_af.Prelude.{
  String, ◌≡◌, ◌↔◌, subst, refl, Bool, true, false, Option, none, some, List, [], ◌∷◌, arith, ◌==◌,
  eq_iff, eq_refl, map, keep, contains, each, if◌then◌else◌, Bool-cases, inl, inr, ◌∙◌, ap, sym,
}
use phine_af.Map.{
  Map, find, put, erase, empty, value_at, replace, drop, value_at-replace, value_at-drop,
  find-erase,
}

module _ {ℓ} {V : Type ℓ} where
  unfoldable pub HasOnce : List (String × V) → Type ℓ
  HasOnce [] = Unit
  HasOnce ((k, v) ∷ l) = (value_at k l ≡ none) × HasOnce l

  pub record IsUnique (m : Map V) : Type ℓ where
    pub once : HasOnce m.entries

  replace-HasOnce :
      (k : String) (v : V) (l : List (String × V)) → HasOnce l → HasOnce (replace k v l)
  unfolding HasOnce replace value_at
  replace-HasOnce k v [] h = (refl, tt)
  replace-HasOnce k v ((j, w) ∷ l) h =
      ground (arith, eq_iff j k, eq_iff k j, value_at-replace k j v l, replace-HasOnce k v l h.1, h)

  drop-HasOnce : (k : String) (l : List (String × V)) → HasOnce l → HasOnce (drop k l)
  unfolding HasOnce drop
  drop-HasOnce k [] h = tt
  drop-HasOnce k ((j, w) ∷ l) h = ground (arith, value_at-drop k j l, drop-HasOnce k l h.1, h)

  pub empty-IsUnique : IsUnique (empty {V = V})
  unfolding empty HasOnce
  empty-IsUnique = record { once = tt }

  pub put-IsUnique : (k : String) (v : V) (m : Map V) → IsUnique m → IsUnique (put k v m)
  unfolding put
  put-IsUnique k v m h = record { once = replace-HasOnce k v m.entries h.once }

  pub erase-IsUnique : (k : String) (m : Map V) → IsUnique m → IsUnique (erase k m)
  unfolding erase
  erase-IsUnique k m h = record { once = drop-HasOnce k m.entries h.once }

  -- Whether a test holds of what a key has.
  abbrev pub holds : (V → Bool) → Option V → Bool
  holds p none = false
  holds p (some v) = p v

  kept-value_at :
      (name : V → String) (p : V → Bool) (l : List (String × V))
      → HasOnce l
      → ((k : String) (v : V) → value_at k l ≡ some v → name v ≡ k)
      → (j : String) → contains j (map name (keep p (map (λ e. e.1) l))) ≡ holds p (value_at j l)
  unfolding HasOnce value_at
  kept-value_at name p [] h named j = refl
  kept-value_at name p ((k, v) ∷ l) h named j =
      let at_key : name v ≡ k = named k v (rw (eq_refl k) refl) in
      let at_rest : (i : String) (w : V) → value_at i l ≡ some w → name w ≡ i = λ i w e.
        named i w
          (elim (Bool-cases (k == i)) [ inl f ↦ cc (h.0, e, (eq_iff k i).0 f) | inr f ↦ rw f e ]) in
      let ih = kept-value_at name p l h.1 at_rest j in
      elim (Bool-cases (k == j)) [
        | inl f ↦
            let same : k ≡ j = (eq_iff k j).0 f in
            elim (Bool-cases (p v)) [
              | inl g ↦ rw (f, g, at_key, f) refl
              | inr g ↦ rw (f, g) (ih ∙ ap (holds p) (ap (λ i. value_at i l) (sym same) ∙ h.0))
            ]
        | inr f ↦ elim (Bool-cases (p v)) [ inl g ↦ rw (f, g, at_key, f) ih | inr g ↦ rw (f, g) ih ]
      ]

module _ {ℓ} {V : Type ℓ} where
  -- The names of the values that a loop over the map selects are the keys whose value passes.
  pub contains-selected :
      (name : V → String) (p : V → Bool) (m : Map V)
      → IsUnique m
      → ((k : String) (v : V) → find k m ≡ some v → name v ≡ k)
      → (j : String)
      → contains j (map name (keep p (map (λ e. e.1) m.entries))) ≡ holds p (find j m)
  unfolding find
  contains-selected name p m h named j = kept-value_at name p m.entries h.once named j

  -- A loop that erases keys.
  pub find-erase_all :
      (ks : List String) (j : String) (m : Map V)
      → find j (each erase ks m) ≡ (if contains j ks then none else find j m)
  find-erase_all [] j m = refl
  find-erase_all (k ∷ ks) j m = ground (arith, find-erase_all ks j (erase k m), find-erase k j m)

pub holds_iff :
    {A : Type 0} (p : A → Bool) (o : Option A)
    → (holds p o ≡ true) ↔ ((a : A) × (o ≡ some a) × (p a ≡ true))
holds_iff p none = (λ h. cc, λ (a, e, f). cc)
holds_iff p (some x) = (
  λ h. (x, refl, h),
  λ (a, e, f). let same : x ≡ a = cc e in subst (λ y. p y ≡ true) (sym same) f,
)
