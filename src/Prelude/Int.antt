-- ===== src/Prelude/Int.antt =====
-- Go's int64 as an integer: `negsuc n` is -(n + 1). Also `time.Duration`, in nanoseconds.
use Prim.Native.Nat.{ℕ, zero, suc, ◌+◌, ◌-◌, ◌*◌, ◌^◌}
use mathlib.Core.Bool.{Bool, true, false}
use forager.Prelude.Tests.{ltb, leb, ◌==◌, nat_eq, if◌then◌else◌}

pub data ℤ : Type 0 where
  pos : ℕ → ℤ
  negsuc : ℕ → ℤ

-- The value -2^63, which int64 cannot negate, has `negsuc (half - 1)`.
abbrev pub half : ℕ
half = 2 ^ 63

abbrev pub max_int64 : ℤ
max_int64 = pos (half - 1)

abbrev pub min_int64 : ℤ
min_int64 = negsuc (half - 1)

-- a < b
abbrev pub lt_ℤ : ℤ → ℤ → Bool
lt_ℤ (pos a) (pos b) = ltb a b
lt_ℤ (pos _) (negsuc _) = false
lt_ℤ (negsuc _) (pos _) = true
lt_ℤ (negsuc a) (negsuc b) = ltb b a

abbrev pub eq_ℤ : ℤ → ℤ → Bool
eq_ℤ (pos a) (pos b) = a == b
eq_ℤ (negsuc a) (negsuc b) = a == b
eq_ℤ (pos _) (negsuc _) = false
eq_ℤ (negsuc _) (pos _) = false

-- A number below 2^64 as the int64 with its bits.
abbrev pub wrap_int64 : ℕ → ℤ
wrap_int64 n = if ltb n half then pos n else negsuc (half * 2 - n - 1)

-- a + 1 in int64
abbrev pub inc_int64 : ℤ → ℤ
inc_int64 (pos n) = wrap_int64 (n + 1)
inc_int64 (negsuc zero) = pos 0
inc_int64 (negsuc (suc n)) = negsuc n

-- a * 2 in int64
abbrev pub double_int64 : ℤ → ℤ
double_int64 (pos n) = wrap_int64 (n * 2)
double_int64 (negsuc n) =
    if leb (n * 2 + 2) half then negsuc (n * 2 + 1) else pos (half * 2 - (n * 2 + 2))

-- -a in int64: the least value is its own negation.
abbrev pub neg_int64 : ℤ → ℤ
neg_int64 (pos n) = if leb n 0 then pos 0 else negsuc (n - 1)
neg_int64 (negsuc n) = if leb (half - 1) n then negsuc n else pos (n + 1)

-- `a.Sub(b)` of Go's time package, at instants in nanoseconds: saturates at the int64 range.
abbrev pub time_sub : ℕ → ℕ → ℤ
time_sub a b =
    if leb b a
    then (if ltb (a - b) half then pos (a - b) else max_int64)
    else if leb (b - a) half
    then negsuc (b - a - 1)
    else min_int64
