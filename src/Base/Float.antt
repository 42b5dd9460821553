-- ===== src/Base/Float.antt =====
-- Go's arithmetic where the program divides: the difference of two 64-bit `int`s, and `float64` of one.
use vps_sync_gsbs.Base.{
  ℕ, zero, suc, ◌+◌, ◌*◌, ◌/◌, ◌%◌, ◌^◌, ◌<◌, ◌≡◌, refl, true, ◌&&◌, ◌||◌, arith, ltb, ◌==◌,
  if◌then◌else◌,
}
use vps_sync_gsbs.Base.Int.{ℤ, pos, negsuc, pos_part, neg_part, sub_ℕ, ◌-ℤ◌, ◌≤ℤ◌, ◌<ℤ◌}

-- What is left of the difference of two `int`s in 64 bits: it is off by 2^64 behind the bounds.
unfoldable pub wrapped_int : ℤ → ℤ
wrapped_int (pos n) = if ltb n (2 ^ 63) then pos n else sub_ℕ n (2 ^ 64)
wrapped_int (negsuc n) = if ltb n (2 ^ 63) then negsuc n else sub_ℕ (2 ^ 64) (suc n)

-- The multiple of 2^e that is next to `n`; of two, the one with an even quotient.
nearest : ℕ → ℕ → ℕ
nearest e n =
    let unit : ℕ = 2 ^ e in
    let q : ℕ = n / unit in
    let r : ℕ = n % unit in
    if ltb unit (2 * r) || (2 * r == unit && q % 2 == 1) then (q + 1) * unit else q * unit

-- The fewest binary digits are dropped that leave 53; an `int` has 64 at most.
rounded : ℕ → ℕ → ℕ → ℕ
unfolding nearest
rounded zero e n = nearest e n
rounded (suc f) e n =
    let rest = rounded f (suc e) n in if ltb n (2 ^ (53 + e)) then nearest e n else rest

significant : ℕ → ℕ
unfolding rounded
significant n = if ltb n (2 ^ 53) then n else rounded 10 1 n

-- `float64` of an `int`, which is an integer again.
unfoldable pub float_of : ℤ → ℤ
unfolding significant
float_of (pos n) = pos (significant n)
float_of (negsuc n) = sub_ℕ 0 (significant (suc n))

-- An `int` with up to 53 binary digits, and no sign.
abbrev pub IsCount : ℤ → Type 0
IsCount n = (pos 0 ≤ℤ n) × (n <ℤ pos (2 ^ 53))

pub float_of-count : (n : ℤ) → IsCount n → float_of n ≡ n
unfolding float_of significant
float_of-count (pos n) h = ground (arith, h)
float_of-count (negsuc n) h = absurd (omega (arith, h.0))

-- A number with up to 53 binary digits passes both conversions.
exact : (n : ℤ) → pos_part n < 2 ^ 53 → neg_part n < 2 ^ 53 → float_of (wrapped_int n) ≡ n
unfolding float_of significant wrapped_int
exact (pos n) h k =
    let fits : ltb n (2 ^ 63) ≡ true = ground (arith, h) in
    let short : ltb n (2 ^ 53) ≡ true = ground (arith, h) in rw (fits, short) refl
exact (negsuc n) h k =
    let fits : ltb n (2 ^ 63) ≡ true = ground (arith, k) in
    let short : ltb (suc n) (2 ^ 53) ≡ true = ground (arith, k) in rw (fits, short) (ground arith)

difference_small :
    (a b : ℤ) → IsCount a → IsCount b → (pos_part (a -ℤ b) < 2 ^ 53) × (neg_part (a -ℤ b) < 2 ^ 53)
unfolding ◌-ℤ◌
difference_small (pos a) (pos b) h k = (ground (arith, h.1), ground (arith, k.1))
difference_small (pos a) (negsuc b) h k = absurd (omega (arith, k.0))
difference_small (negsuc a) b h k = absurd (omega (arith, h.0))

-- The difference of two counts is exact.
pub float_of-difference :
    (a b : ℤ) → IsCount a → IsCount b → float_of (wrapped_int (a -ℤ b)) ≡ a -ℤ b
float_of-difference a b h k =
    let (above, below) = difference_small a b h k in exact (a -ℤ b) above below

float_tests :
    (float_of (pos 9007199254740993) ≡ pos 9007199254740992)
    × (float_of (pos 9007199254740995) ≡ pos 9007199254740996)
    × (float_of (pos 9223372036854775807) ≡ pos 9223372036854775808)
    × (wrapped_int (pos 9223372036854775807 -ℤ negsuc 0) ≡ negsuc 9223372036854775807)
unfolding float_of wrapped_int significant rounded nearest ◌-ℤ◌
float_tests = (refl, refl, refl, refl)
