-- ===== src/Regex.antt =====
-- The regular expressions that the program hands to `std::regex_match`: classes, sequences,
-- alternatives and bounded repetition, in the ECMAScript reading of the standard library.
use Prim.Native.Char.{code}
use phine_af.Prelude.{
  ℕ, zero, suc, ◌-◌, String, Bool, true, false, ◌&&◌, List, [], ◌∷◌, leb, if◌then◌else◌,
}

-- The bytes of an ASCII text.
abbrev pub codes : String → List ℕ
codes String.[] = []
codes (String.◌∷◌ c s) = code c ∷ codes s

pub data Regex : Type 0 where
  nothing : Regex
  within : ℕ → ℕ → Regex
  seq alt : Regex → Regex → Regex

-- `r?`, `r{n}`, `r{0,n}` and `r{n,m}`.
abbrev pub opt : Regex → Regex
opt r = alt r nothing

abbrev pub times : ℕ → Regex → Regex
times zero r = nothing
times (suc n) r = seq r (times n r)

abbrev pub up_to : ℕ → Regex → Regex
up_to zero r = nothing
up_to (suc n) r = opt (seq r (up_to n r))

abbrev pub between : ℕ → ℕ → Regex → Regex
between n m r = seq (times n r) (up_to (m - n) r)

abbrev pub char : ℕ → Regex
char c = within c c

-- Backtracking: `k` matches what is left.
pub accepts : Regex → (List ℕ → Bool) → List ℕ → Bool
accepts nothing k s = k s
accepts (within lo hi) k [] = false
accepts (within lo hi) k (c ∷ s) = let rest = k s in if leb lo c && leb c hi then rest else false
accepts (seq r t) k s = accepts r (accepts t k) s
accepts (alt r t) k s = let other = accepts t k s in if accepts r k s then true else other

abbrev pub at_end : List ℕ → Bool
at_end [] = true
at_end (c ∷ s) = false

-- `std::regex_match`: the whole text matches.
unfoldable pub regex_match : String → Regex → Bool
unfolding accepts
regex_match s r = accepts r at_end (codes s)
