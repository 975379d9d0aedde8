-- ===== src/Base/Int.antt =====
-- Go's int and time.Duration: signed 64-bit numbers, over the native numbers.
-- `negsuc n` is -(n + 1).
use Prim.Native.Nat.{ℕ, zero, suc, ◌+◌, ◌-◌, ◌≤◌, ◌<◌}
use mathlib.Core.Path.{◌≡◌, refl}
use mathlib.Core.Logic.{◌↔◌}
use mathlib.Core.Bool.{Bool, true, false}
use native.Mathlib.Omega.{arith}
use ultiproxy.Base.Tests.{ltb, leb, ◌==◌, if◌then◌else◌}

pub data ℤ : Type 0 where
  pos : ℕ → ℤ
  negsuc : ℕ → ℤ

abbrev pub pos_part : ℤ → ℕ
pos_part (pos n) = n
pos_part (negsuc n) = 0

abbrev pub neg_part : ℤ → ℕ
neg_part (pos n) = 0
neg_part (negsuc n) = suc n

-- a - b, as an integer.
abbrev pub sub_ℕ : ℕ → ℕ → ℤ
sub_ℕ a b = if leb b a then pos (a - b) else negsuc (b - a - 1)

infix 50 ◌≤ℤ◌
abbrev pub ◌≤ℤ◌ : ℤ → ℤ → Type 0
a ≤ℤ b = pos_part a + neg_part b ≤ pos_part b + neg_part a

abbrev pub leb_ℤ : ℤ → ℤ → Bool
leb_ℤ a b = leb (pos_part a + neg_part b) (pos_part b + neg_part a)

abbrev pub ltb_ℤ : ℤ → ℤ → Bool
ltb_ℤ a b = ltb (pos_part a + neg_part b) (pos_part b + neg_part a)

abbrev pub eq_ℤ : ℤ → ℤ → Bool
eq_ℤ (pos m) (pos n) = m == n
eq_ℤ (pos m) (negsuc n) = false
eq_ℤ (negsuc m) (pos n) = false
eq_ℤ (negsuc m) (negsuc n) = m == n

pub eq_ℤ_iff : (a b : ℤ) → (eq_ℤ a b ≡ true) ↔ (a ≡ b)
eq_ℤ_iff (pos m) (pos n) = ground arith
eq_ℤ_iff (pos m) (negsuc n) = ground arith
eq_ℤ_iff (negsuc m) (pos n) = ground arith
eq_ℤ_iff (negsuc m) (negsuc n) = ground arith

pub eq_ℤ_refl : (a : ℤ) → eq_ℤ a a ≡ true
eq_ℤ_refl a = (eq_ℤ_iff a a).1 refl

-- `d <= 0`.
abbrev pub is_nonpos : ℤ → Bool
is_nonpos d = leb_ℤ d (pos 0)

abbrev pub max_int : ℕ
max_int = 9223372036854775807

-- `n++` on an int, with the wrap at the largest value.
unfoldable pub int_incr : ℤ → ℤ
int_incr (pos n) = if n == max_int then negsuc max_int else pos (n + 1)
int_incr (negsuc zero) = pos 0
int_incr (negsuc (suc n)) = negsuc n

-- Below the largest value the increment does not wrap.
pub int_incr-pos : (n : ℕ) → n < max_int → int_incr (pos n) ≡ pos (n + 1)
unfolding int_incr
int_incr-pos n h = ground arith

-- time.Time, in nanoseconds after the zero time.
abbrev pub Time : Type 0
Time = ℕ

abbrev pub Duration : Type 0
Duration = ℤ

abbrev pub zero_time : Time
zero_time = 0

-- time.Time.Sub: the difference, held to the range of an int64.
unfoldable pub time_sub : Time → Time → Duration
time_sub t u =
    if leb u t
    then pos (if leb (t - u) max_int then t - u else max_int)
    else negsuc (if leb (u - t - 1) max_int then u - t - 1 else max_int)

abbrev pub second : ℕ
second = 1000000000

pub ltb→lt : (a b : ℕ) → ltb a b ≡ true → a < b
ltb→lt a b h = ground arith

pub leb_ℤ→≤ℤ : (a b : ℤ) → leb_ℤ a b ≡ true → a ≤ℤ b
leb_ℤ→≤ℤ a b h = ground arith

-- A span that fits an int64 has passed exactly when the clock has reached its end.
pub time_sub-reached : (t u d : ℕ) → d ≤ max_int → u + d ≤ t → leb_ℤ (pos d) (time_sub t u) ≡ true
unfolding time_sub
time_sub-reached t u d h k = ground arith

pub time_sub-early : (t u d : ℕ) → d ≤ max_int → t < u + d → leb_ℤ (pos d) (time_sub t u) ≡ false
unfolding time_sub
time_sub-early t u d h k = ground arith
