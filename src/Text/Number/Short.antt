-- ===== src/Text/Number/Short.antt =====
-- Decimals of one and of two digits.
use vps_sync_gsbs.Base.{
  ℕ, suc, false, refl, ◌∙◌, ◌-◌, ◌+◌, ◌*◌, ◌/◌, ◌%◌, ◌≤◌, ◌≡◌, [], ◌∷◌, arith, ltb,
}
use vps_sync_gsbs.Text.{Text}
use vps_sync_gsbs.Text.Number.{digits, decimal}

pub decimal_one : (n : ℕ) → n ≤ 9 → decimal n ≡ (b'0' + n) ∷ []
unfolding decimal digits
decimal_one n h = ground arith

digits_one :
    (f f' n m : ℕ) (out : Text) → f ≡ suc f' → m ≡ n → m ≤ 9 → digits f m out ≡ (b'0' + n) ∷ out
unfolding digits
digits_one f f' n m out e q h = rw e (rw q (ground (arith, q)))

pub decimal_two :
    (a b : ℕ) → 1 ≤ a → a ≤ 9 → b ≤ 9 → decimal (10 * a + b) ≡ (b'0' + a) ∷ (b'0' + b) ∷ []
unfolding decimal digits
decimal_two a b l h k =
    let q : (10 * a + b) / 10 ≡ a = omega arith in
    let r : (10 * a + b) % 10 ≡ b = omega arith in
    let two : ltb (10 * a + b) 10 ≡ false = ground arith in
    rw two (
      digits_one (10 * a + b) (10 * a + b - 1) a ((10 * a + b) / 10)
        ((b'0' + (10 * a + b) % 10) ∷ []) (omega arith) q (omega arith)
      ∙ rw r refl)
