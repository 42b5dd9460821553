-- ===== src/Text/Number.antt =====
-- `%d` of package `fmt` and `strconv.Atoi`.
pub mod Short
use vps_sync_gsbs.Base.{
  ℕ, zero, suc, ◌+◌, ◌-◌, ◌*◌, ◌/◌, ◌%◌, ◌^◌, ◌<◌, ◌≤◌, ◌&&◌, Option, none, some, List, [], ◌∷◌,
  ◌++◌, ◌≡◌, refl, arith, ◌==◌, ltb, leb, if◌then◌else◌, Bool-cases, inl, inr,
}
use vps_sync_gsbs.Base.Int.{ℤ, pos, negsuc, pos_part, neg_part, ◌≤ℤ◌}
use vps_sync_gsbs.Text.{Text, text, is_empty}

-- Decimal digits, the last one first. Each round divides by ten, so `n` rounds and one more suffice.
digits : ℕ → ℕ → Text → Text
digits zero n out = out
digits (suc f) n out =
    let out' : Text = (b'0' + n % 10) ∷ out in
    let rest = digits f (n / 10) out' in if ltb n 10 then out' else rest

unfoldable pub decimal : ℕ → Text
unfolding digits
decimal n = digits (suc n) n []

-- `%d` of an `int`.
unfoldable pub decimal_int : ℤ → Text
unfolding decimal
decimal_int (pos n) = decimal n
decimal_int (negsuc n) = b'-' ∷ decimal (suc n)

parse_digits : Text → ℕ → Option ℕ
parse_digits [] n = some n
parse_digits (c ∷ s) n =
    let rest = parse_digits s (n * 10 + (c - b'0')) in
    if leb b'0' c && leb c b'9' then rest else none

-- The number that a text of one or more digits spells.
parse_nat : Text → Option ℕ
unfolding parse_digits
parse_nat s = if is_empty s then none else parse_digits s 0

-- The range of Go's 64-bit `int`.
abbrev pub min_int : ℤ
min_int = negsuc (2 ^ 63 - 1)

abbrev pub max_int : ℤ
max_int = pos (2 ^ 63 - 1)

negate : ℕ → ℤ
negate zero = pos zero
negate (suc n) = negsuc n

in_range_pos : Option ℕ → Option ℤ
in_range_pos none = none
in_range_pos (some n) = if ltb n (2 ^ 63) then some (pos n) else none

in_range_neg : Option ℕ → Option ℤ
unfolding negate
in_range_neg none = none
in_range_neg (some n) = if leb n (2 ^ 63) then some (negate n) else none

-- `strconv.Atoi`: an optional sign, digits, and a value that fits. `none` is its error.
unfoldable pub atoi : Text → Option ℤ
unfolding parse_nat in_range_pos in_range_neg
atoi [] = none
atoi (c ∷ s) =
    if c == b'-'
    then in_range_neg (parse_nat s)
    else if c == b'+'
    then in_range_pos (parse_nat s)
    else in_range_pos (parse_nat (c ∷ s))

parse_digits-digits :
    (f n : ℕ) (out : Text) → n < f → parse_digits (digits f n out) 0 ≡ parse_digits out n
unfolding parse_digits digits
parse_digits-digits zero n out h = absurd (omega arith)
parse_digits-digits (suc f) n out h =
    ground (arith, parse_digits-digits f (n / 10) ((b'0' + n % 10) ∷ out))

-- The digits of a number begin with a digit.
digits_head :
    (f n c : ℕ) (out : Text)
    → b'0' ≤ c
    → c ≤ b'9'
    → (d : ℕ) × (rest : Text) × (digits f n (c ∷ out) ≡ d ∷ rest) × (b'0' ≤ d) × (d ≤ b'9')
unfolding digits
digits_head zero n c out h k = (c, out, refl, h, k)
digits_head (suc f) n c out h k =
    let (d, rest, e, l, u) =
      digits_head f (n / 10) (b'0' + n % 10) (c ∷ out) (omega arith) (omega arith) in
    elim (Bool-cases (ltb n 10)) [
      | inl small ↦ (b'0' + n % 10, c ∷ out, rw small, omega arith, omega arith)
      | inr large ↦ (d, rest, rw large e, l, u)
    ]

-- The text of a number is not empty and begins with a digit.
decimal_head : (n : ℕ) → (d : ℕ) × (rest : Text) × (decimal n ≡ d ∷ rest) × (b'0' ≤ d) × (d ≤ b'9')
unfolding decimal digits
decimal_head n =
    let (d, rest, e, l, u) =
      digits_head n (n / 10) (b'0' + n % 10) [] (omega arith) (omega arith) in
    elim (Bool-cases (ltb n 10)) [
      | inl small ↦ (b'0' + n % 10, [], rw small, omega arith, omega arith)
      | inr large ↦ (d, rest, rw large e, l, u)
    ]

parse_digits-decimal : (n : ℕ) → parse_digits (decimal n) 0 ≡ some n
unfolding decimal parse_digits
parse_digits-decimal n = parse_digits-digits (suc n) n [] (omega arith)

parse_nat-decimal : (n : ℕ) → parse_nat (decimal n) ≡ some n
unfolding parse_nat
parse_nat-decimal n =
    let (d, rest, e, l, u) = decimal_head n in ground (arith, e, parse_digits-decimal n)

-- `Atoi` reads back every `int` that `%d` prints.
pub atoi-decimal_int : (n : ℤ) → min_int ≤ℤ n → n ≤ℤ max_int → atoi (decimal_int n) ≡ some n
unfolding atoi decimal_int in_range_pos in_range_neg negate
atoi-decimal_int (pos n) lo hi =
    let (d, rest, e, l, u) = decimal_head n in ground (arith, e, parse_nat-decimal n)
atoi-decimal_int (negsuc n) lo hi = ground (arith, parse_nat-decimal (suc n))

atoi_tests :
    (atoi (text "24") ≡ some (pos 24))
    × (atoi (text "-1") ≡ some (negsuc 0))
    × (atoi (text "+7") ≡ some (pos 7))
    × (atoi (text "") ≡ none)
    × (atoi (text "1_0") ≡ none)
    × (atoi (text "9223372036854775808") ≡ none)
unfolding atoi text parse_nat parse_digits in_range_pos in_range_neg
atoi_tests = (refl, refl, refl, refl, refl, refl)
