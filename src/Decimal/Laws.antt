-- ===== src/Decimal/Laws.antt =====
-- A number that is printed and read again.
use Prim.Native.String.{◌++◌, len, find, begins}
use Prim.Native.Char.{Char, code, len_utf8}
use phine_af.Prelude.{
  ℕ, zero, suc, ◌+◌, ◌-◌, ◌*◌, ◌/◌, ◌%◌, ◌≤◌, ◌<◌, String, ◌≡◌, ◌≢◌, refl, sym, ◌∙◌, ap, subst,
  true, some, List, [], ◌∷◌, arith, ltb, All, List-cases, Bool-cases, inl, inr,
}
use phine_af.Prelude.{◌++◌ as joined}
use Prim.Native.String.append
use Prim.Native.String.find
use Prim.Native.String.len
use phine_af.All.{All-append}
use phine_af.Int.{pos}
use phine_af.Regex.{codes}
use phine_af.Decimal.{
  digit, decimal, to_string, is_digit, digits_value, unsigned_int, signed_int, stoi_codes, stoi,
}

digit-codes : (d : ℕ) → d < 10 → codes (digit d) ≡ (48 + d) ∷ []
digit-codes zero h = refl
digit-codes (suc zero) h = refl
digit-codes (suc (suc zero)) h = refl
digit-codes (suc (suc (suc zero))) h = refl
digit-codes (suc (suc (suc (suc zero)))) h = refl
digit-codes (suc (suc (suc (suc (suc zero))))) h = refl
digit-codes (suc (suc (suc (suc (suc (suc zero)))))) h = refl
digit-codes (suc (suc (suc (suc (suc (suc (suc zero))))))) h = refl
digit-codes (suc (suc (suc (suc (suc (suc (suc (suc zero)))))))) h = refl
digit-codes (suc (suc (suc (suc (suc (suc (suc (suc (suc zero))))))))) h = refl
digit-codes (suc (suc (suc (suc (suc (suc (suc (suc (suc (suc d)))))))))) h = absurd (omega arith)

codes-append : (s t : String) → codes (s ++ t) ≡ joined (codes s) (codes t)
codes-append String.[] t = ap codes (append.nil t)
codes-append (String.◌∷◌ c s) t =
    ap codes (append.cons c s t) ∙ ap (λ l. code c ∷ l) (codes-append s t)

digits_value-append :
    (s t : List ℕ) (n : ℕ)
    → All (λ c. is_digit c ≡ true) s
    → digits_value n (joined s t) ≡ digits_value (digits_value n s) t
unfolding digits_value
digits_value-append [] t n h = refl
digits_value-append (c ∷ s) t n h = rw h.0 (digits_value-append s t (n * 10 + (c - b'0')) h.1)

abbrev pub IsNumeral : String → Type 0
IsNumeral s = All (λ c. is_digit c ≡ true) (codes s)

last_value : (n d : ℕ) → d < 10 → digits_value n ((48 + d) ∷ []) ≡ n * 10 + d
unfolding digits_value
last_value n d h = ground (arith, h)

decimal-digits :
    (fuel n : ℕ)
    → n < fuel
    → IsNumeral (decimal fuel n) × (digits_value 0 (codes (decimal fuel n)) ≡ n)
unfolding decimal digits_value
decimal-digits zero n h = absurd (omega arith)
decimal-digits (suc fuel) n h = elim (Bool-cases (ltb n 10)) [
  | inl e ↦
      let small : n < 10 = ground (arith, e) in
      let shown = digit-codes n small in
      rw e (
        subst (All (λ c. is_digit c ≡ true)) (sym shown) (ground (arith, small), tt),
        ap (digits_value 0) shown ∙ last_value 0 n small ∙ omega arith,
      )
  | inr e ↦
      let large : 10 ≤ n = ground (arith, e) in
      let front = decimal-digits fuel (n / 10) (omega arith) in
      let last : n % 10 < 10 = omega arith in
      let shown : codes (decimal fuel (n / 10) ++ digit (n % 10))
          ≡ joined (codes (decimal fuel (n / 10))) ((48 + n % 10) ∷ []) =
        codes-append (decimal fuel (n / 10)) (digit (n % 10))
        ∙ ap (joined (codes (decimal fuel (n / 10)))) (digit-codes (n % 10) last) in
      rw e (
        subst (All (λ c. is_digit c ≡ true)) (sym shown) (
            All-append (λ c. is_digit c ≡ true) (codes (decimal fuel (n / 10))) (48 + n % 10)
              front.0 (ground (arith, last))),
        ap (digits_value 0) shown
            ∙ digits_value-append (codes (decimal fuel (n / 10))) ((48 + n % 10) ∷ []) 0 front.0
            ∙ ap (λ v. digits_value v ((48 + n % 10) ∷ [])) front.1
            ∙ last_value (n / 10) (n % 10) last
            ∙ omega arith,
      )
]

miss : (c : Char) (s : String) (a n : ℕ) → code c ≢ 32 → begins (String.◌∷◌ c s) " Kbps" a n ≡ n
miss c s a n h = ground (arith, h)

pub find-unit : (s : String) → IsNumeral s → find (s ++ " Kbps") " Kbps" ≡ len s
find-unit String.[] h = ap (λ w. find w " Kbps") (append.nil " Kbps") ∙ sym len.nil
find-unit (String.◌∷◌ c s) h =
    ap (λ w. find w " Kbps") (append.cons c s " Kbps")
    ∙ find.cons c (s ++ " Kbps") " Kbps"
    ∙ miss c (s ++ " Kbps") 0 (len_utf8 c + find (s ++ " Kbps") " Kbps")
        (λ e. ground (arith, e, h.0))
    ∙ ap (λ k. len_utf8 c + k) (find-unit s h.1)
    ∙ sym (len.cons c s)

zero-shown : codes (to_string 0) ≡ 48 ∷ []
unfolding decimal
zero-shown = refl

stoi-digits :
    (c : ℕ) (s : List ℕ)
    → is_digit c ≡ true
    → digits_value 0 (c ∷ s) ≤ 2147483647
    → stoi_codes (c ∷ s) ≡ some (pos (digits_value 0 (c ∷ s)))
unfolding stoi_codes signed_int unsigned_int
stoi-digits c s d h = ground (arith, d, h)

-- A number within the range of `int` that is printed is read again.
pub stoi-to_string : (n : ℕ) → n ≤ 2147483647 → stoi (to_string n) ≡ some (pos n)
unfolding stoi digits_value
stoi-to_string n h =
    let (all, value) = decimal-digits (suc n) n (omega arith) in
    elim (List-cases (codes (to_string n))) [
      | inl e ↦
          let z : n ≡ 0 = sym value ∙ ap (digits_value 0) e in
          let empty : 48 ∷ [] ≡ [] = sym zero-shown ∙ ap (λ k. codes (to_string k)) (sym z) ∙ e in
          cc empty
      | inr (c, s, e) ↦
          let read : digits_value 0 (c ∷ s) ≡ n = ap (digits_value 0) (sym e) ∙ value in
          let (d, others) = subst (All (λ k. is_digit k ≡ true)) e all in
          ap stoi_codes e
          ∙ stoi-digits c s d (subst (λ k. k ≤ 2147483647) (sym read) h)
          ∙ ap (λ k. some (pos k)) read
    ]

pub to_string-IsNumeral : (n : ℕ) → IsNumeral (to_string n)
to_string-IsNumeral n = (decimal-digits (suc n) n (omega arith)).0
