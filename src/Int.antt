-- ===== src/Int.antt =====
-- The integers over the native numbers: a C++ `int`, whose range is written out where it matters.
use phine_af.Prelude.{ℕ, suc, ◌+◌, ◌-◌, Bool, true, false, ltb, if◌then◌else◌}

pub data ℤ : Type 0 where
  pos : ℕ → ℤ
  negsuc : ℕ → ℤ

abbrev pub is_negative : ℤ → Bool
is_negative (pos n) = false
is_negative (negsuc n) = true

-- `a < b`.
abbrev pub less : ℤ → ℤ → Bool
less (pos a) (pos b) = ltb a b
less (pos a) (negsuc b) = false
less (negsuc a) (pos b) = true
less (negsuc a) (negsuc b) = ltb b a

-- A time point and a duration, which may be negative.
abbrev pub later : ℕ → ℤ → ℤ
later now (pos n) = pos (now + n)
later now (negsuc n) = if ltb n now then pos (now - suc n) else negsuc (n - now)
