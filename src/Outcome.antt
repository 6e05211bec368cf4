-- ===== src/Outcome.antt =====
-- What a call of a C++ member function ends in, and the methods of an object as functions on its
-- state. A method that throws keeps what it wrote before the throw.
use phine_af.Prelude.{String, ◌≡◌, refl, ◌⊎◌, inl, inr}

-- `undefined` is the undefined behaviour of the standard: a second lock by the thread that owns a
-- mutex, `*` of an empty optional, a call through a null pointer.
pub data Outcome {ℓ} (A : Type ℓ) : Type ℓ where
  returns : A → Outcome A
  throws : String → Outcome A
  undefined : Outcome A

abbrev pub Method {ℓ} : Type ℓ → Type ℓ → Type ℓ
Method S A = S → Outcome A × S

module _ {ℓ} {S A : Type ℓ} where
  abbrev pub pure : A → Method S A
  pure a s = (returns a, s)

  abbrev pub throw : String → Method S A
  throw e s = (throws e, s)

  abbrev pub fault : Method S A
  fault s = (undefined, s)

  abbrev pub lift : Outcome A → Method S A
  lift r s = (r, s)

module _ {ℓ} {S A B : Type ℓ} where
  abbrev pub continue : Outcome A → (A → Method S B) → Method S B
  continue (returns a) f s = f a s
  continue (throws e) f s = (throws e, s)
  continue undefined f s = (undefined, s)

  infixl 5 ◌>>=◌ ◌>>◌
  abbrev pub ◌>>=◌ : Method S A → (A → Method S B) → Method S B
  ◌>>=◌ m f s = continue (m s).0 f (m s).1

  abbrev pub ◌>>◌ : Method S A → Method S B → Method S B
  m >> n = m >>= λ _. n

-- A check that may throw, before a value is computed.
abbrev pub and_then {ℓ κ} : {A : Type ℓ} {B : Type κ} → Outcome A → Outcome B → Outcome B
and_then (returns a) r = r
and_then (throws e) r = throws e
and_then undefined r = undefined

-- The rest of a computation that may throw.
abbrev pub and_use {ℓ κ} : {A : Type ℓ} {B : Type κ} → Outcome A → (A → Outcome B) → Outcome B
and_use (returns a) f = f a
and_use (throws e) f = throws e
and_use undefined f = undefined

pub Outcome-cases {ℓ} :
    {A : Type ℓ} (r : Outcome A)
    → ((a : A) × (r ≡ returns a)) ⊎ (((e : String) × (r ≡ throws e)) ⊎ (r ≡ undefined))
Outcome-cases (returns a) = inl (a, refl)
Outcome-cases (throws e) = inr (inl (e, refl))
Outcome-cases undefined = inr (inr refl)

-- Whatever is returned has the property.
unfoldable pub Ensures {ℓ κ} : {A : Type ℓ} → (A → Type κ) → Outcome A → Type κ
Ensures P (returns a) = P a
Ensures P (throws e) = Unit
Ensures P undefined = Unit

pub and_use-Ensures {ℓ κ μ} :
    {A : Type ℓ} {B : Type κ} (P : B → Type μ) (r : Outcome A) (f : A → Outcome B)
    → ((a : A) → r ≡ returns a → Ensures P (f a))
    → Ensures P (and_use r f)
unfolding Ensures
and_use-Ensures P (returns a) f h = h a refl
and_use-Ensures P (throws e) f h = tt
and_use-Ensures P undefined f h = tt

pub chain-Ensures {ℓ κ μ ν} :
    {A : Type ℓ} {B : Type κ} (Q : A → Type ν) (P : B → Type μ) (r : Outcome A) (f : A → Outcome B)
    → Ensures Q r
    → ((a : A) → Q a → Ensures P (f a))
    → Ensures P (and_use r f)
unfolding Ensures
chain-Ensures Q P (returns a) f q h = h a q
chain-Ensures Q P (throws e) f q h = tt
chain-Ensures Q P undefined f q h = tt
