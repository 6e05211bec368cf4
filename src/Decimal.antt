-- ===== src/Decimal.antt =====
-- `std::to_string` and `std::stoi`, on ASCII texts.
pub mod Laws
use Prim.Native.String.{◌++◌}
use phine_af.Prelude.{
  ℕ, zero, suc, ◌+◌, ◌-◌, ◌*◌, ◌/◌, ◌%◌, String, Bool, true, false, ◌&&◌, ◌||◌, Option, none, some,
  List, [], ◌∷◌, eqb, ltb, leb, if◌then◌else◌,
}
use phine_af.Int.{ℤ, pos, negsuc}
use phine_af.Regex.{codes}

abbrev pub digit : ℕ → String
digit zero = "0"
digit (suc zero) = "1"
digit (suc (suc zero)) = "2"
digit (suc (suc (suc zero))) = "3"
digit (suc (suc (suc (suc zero)))) = "4"
digit (suc (suc (suc (suc (suc zero))))) = "5"
digit (suc (suc (suc (suc (suc (suc zero)))))) = "6"
digit (suc (suc (suc (suc (suc (suc (suc zero))))))) = "7"
digit (suc (suc (suc (suc (suc (suc (suc (suc zero)))))))) = "8"
digit (suc (suc (suc (suc (suc (suc (suc (suc (suc n))))))))) = "9"

-- At most `fuel` digits; a number has no more digits than its successor.
unfoldable pub decimal : ℕ → ℕ → String
decimal zero n = ""
decimal (suc fuel) n =
    let front = decimal fuel (n / 10) in if ltb n 10 then digit n else front ++ digit (n % 10)

abbrev pub to_string : ℕ → String
to_string n = decimal (suc n) n

abbrev pub to_string_int : ℤ → String
to_string_int (pos n) = to_string n
to_string_int (negsuc n) = "-" ++ to_string (suc n)

abbrev pub is_digit : ℕ → Bool
is_digit c = leb b'0' c && leb c b'9'

-- The number that the leading digits write, after one that is read already.
unfoldable pub digits_value : ℕ → List ℕ → ℕ
digits_value n [] = n
digits_value n (c ∷ s) =
    let more = digits_value (n * 10 + (c - b'0')) s in if is_digit c then more else n

-- Without a digit, and above the largest `int`, an exception is thrown.
unfoldable pub unsigned_int : ℕ → List ℕ → Option ℕ
unfolding digits_value
unsigned_int limit [] = none
unsigned_int limit (c ∷ s) =
    if is_digit c
    then (if leb (digits_value 0 (c ∷ s)) limit then some (digits_value 0 (c ∷ s)) else none)
    else none

abbrev negated : ℕ → ℤ
negated zero = pos 0
negated (suc n) = negsuc n

abbrev with_sign : (ℕ → ℤ) → Option ℕ → Option ℤ
with_sign sign none = none
with_sign sign (some n) = some (sign n)

unfoldable pub signed_int : List ℕ → Option ℤ
unfolding unsigned_int
signed_int [] = none
signed_int (c ∷ s) =
    if eqb c b'-'
    then with_sign negated (unsigned_int 2147483648 s)
    else if eqb c b'+'
    then with_sign pos (unsigned_int 2147483647 s)
    else with_sign pos (unsigned_int 2147483647 (c ∷ s))

-- Leading white space is skipped.
unfoldable pub stoi_codes : List ℕ → Option ℤ
unfolding signed_int
stoi_codes [] = none
stoi_codes (c ∷ s) =
    let rest = stoi_codes s in
    if eqb c b' ' || leb 9 c && leb c 13 then rest else signed_int (c ∷ s)

-- `none` for the exceptions.
unfoldable pub stoi : String → Option ℤ
unfolding stoi_codes
stoi s = stoi_codes (codes s)
