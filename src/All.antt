-- ===== src/All.antt =====
-- A property that all elements of a list, or all values of a map, have.
use phine_af.Prelude.{
  String, Bool, ◌≡◌, some, List, [], ◌∷◌, ◌++◌, ◌==◌, arith, keep, All, subst, Bool-cases, inl, inr,
}
use phine_af.Map.{replace, value_at}

module _ {ℓ κ} {A : Type ℓ} (P : A → Type κ) where
  pub All-append : (l : List A) (x : A) → All P l → P x → All P (l ++ x ∷ [])
  All-append [] x h p = (p, tt)
  All-append (y ∷ l) x h p = (h.0, All-append l x h.1 p)

  pub All-split : (l m : List A) (x : A) → All P (l ++ x ∷ m) → P x × All P (l ++ m)
  All-split [] m x h = h
  All-split (y ∷ l) m x h = let (p, r) = All-split l m x h.1 in (p, (h.0, r))

  pub All-keep : (p : A → Bool) (l : List A) → All P l → All P (keep p l)
  All-keep p [] h = tt
  All-keep p (x ∷ l) h = elim (Bool-cases (p x)) [
    | inl e ↦ rw e (h.0, All-keep p l h.1)
    | inr e ↦ rw e (All-keep p l h.1)
  ]

  pub All-replace :
      (k : String) (v : A) (l : List (String × A))
      → P v
      → All (λ e. P e.1) l
      → All (λ e. P e.1) (replace k v l)
  unfolding replace
  All-replace k v [] p h = (p, tt)
  All-replace k v ((j, w) ∷ l) p h = elim (Bool-cases (j == k)) [
    | inl e ↦ rw e (p, h.1)
    | inr e ↦ rw e (h.0, All-replace k v l p h.1)
  ]

  pub All-value_at :
      (k : String) (v : A) (l : List (String × A))
      → All (λ e. P e.1) l
      → value_at k l ≡ some v
      → P v
  unfolding value_at
  All-value_at k v [] h e = cc
  All-value_at k v ((j, w) ∷ l) h e = elim (Bool-cases (j == k)) [
    | inl f ↦ let same : w ≡ v = ground (arith, e, f) in subst P same h.0
    | inr f ↦ All-value_at k v l h.1 (ground (arith, e, f))
  ]
