-- ===== src/Text/Stamp.antt =====
-- `time.Time.UTC().Format`: the two layouts that the program uses. A moment is given by its fields
-- in UTC, as `time.Now().UTC()` has them.
use vps_sync_gsbs.Base.{
  ℕ, ◌+◌, ◌/◌, ◌%◌, ◌<◌, Bool, ◌≡◌, refl, [], ◌∷◌, ◌++◌, arith, ◌==◌, ltb, leb, lt→ltb,
  append_assoc, if◌then◌else◌,
}
use vps_sync_gsbs.Text.{Text, text_le}
use vps_sync_gsbs.Text.Number.{decimal}

pub record Moment : Type 0 where
  pub year : ℕ
  pub month : ℕ
  pub day : ℕ
  pub hour : ℕ
  pub minute : ℕ
  pub second : ℕ

-- Fields as a calendar has them, up to the year 9999.
pub record IsMoment (m : Moment) : Type 0 where
  pub year_fits : m.year < 10000
  pub month_fits : m.month < 100
  pub day_fits : m.day < 100
  pub hour_fits : m.hour < 100
  pub minute_fits : m.minute < 100
  pub second_fits : m.second < 100

digit : ℕ → ℕ
digit n = b'0' + n % 10

-- Two digits at least, padded by zero.
unfoldable pub pad_two : ℕ → Text
unfolding digit
pad_two n = if ltb n 100 then digit (n / 10) ∷ digit n ∷ [] else decimal n

-- Four digits at least.
unfoldable pub pad_four : ℕ → Text
pad_four n = if ltb n 10000 then pad_two (n / 100) ++ pad_two (n % 100) else decimal n

-- The layout "20060102-150405".
unfoldable pub stamp : Moment → Text
stamp m =
    pad_four m.year
    ++ (pad_two m.month
        ++ (pad_two m.day ++ (b'-' ∷ (pad_two m.hour ++ (pad_two m.minute ++ pad_two m.second)))))

-- The layout `time.RFC3339`, in UTC.
unfoldable pub rfc3339 : Moment → Text
rfc3339 m =
    pad_four m.year
    ++ (b'-'
        ∷ (pad_two m.month
            ++ (b'-'
                ∷ (pad_two m.day
                    ++ (b'T'
                        ∷ (pad_two m.hour
                            ++ (b':'
                                ∷ (pad_two m.minute
                                    ++ (b':' ∷ (pad_two m.second ++ b'Z' ∷ []))))))))))

-- The order of time, field by field.
abbrev pub not_after : Moment → Moment → Bool
not_after a b =
    if a.year == b.year
    then if a.month == b.month
      then if a.day == b.day
        then if a.hour == b.hour
          then if a.minute == b.minute then leb a.second b.second else ltb a.minute b.minute
          else ltb a.hour b.hour
        else ltb a.day b.day
      else ltb a.month b.month
    else ltb a.year b.year

text_le-pad_two :
    (m n : ℕ) (s t : Text)
    → m < 100
    → n < 100
    → text_le (pad_two m ++ s) (pad_two n ++ t) ≡ (if m == n then text_le s t else ltb m n)
unfolding text_le pad_two
text_le-pad_two m n s t h k = ground arith

text_le-pad_four :
    (m n : ℕ) (s t : Text)
    → m < 10000
    → n < 10000
    → text_le (pad_four m ++ s) (pad_four n ++ t) ≡ (if m == n then text_le s t else ltb m n)
unfolding pad_four
text_le-pad_four m n s t h k =
    rw
      (
        lt→ltb m 10000 h,
        lt→ltb n 10000 k,
        append_assoc (pad_two (m / 100)) (pad_two (m % 100)) s,
        append_assoc (pad_two (n / 100)) (pad_two (n % 100)) t,
      )
      (ground (
        arith,
        text_le-pad_two (m / 100) (n / 100) (pad_two (m % 100) ++ s) (pad_two (n % 100) ++ t),
        text_le-pad_two (m % 100) (n % 100) s t,
      ))

text_le-pad_last : (m n : ℕ) → m < 100 → n < 100 → text_le (pad_two m) (pad_two n) ≡ leb m n
unfolding text_le pad_two
text_le-pad_last m n h k = ground arith

text_le-cons : (c : ℕ) (s t : Text) → text_le (c ∷ s) (c ∷ t) ≡ text_le s t
unfolding text_le
text_le-cons c s t = ground arith

-- For moments up to the year 9999 the order of the stamps as strings is the order of time.
pub text_le-stamp :
    (a b : Moment) → IsMoment a → IsMoment b → text_le (stamp a) (stamp b) ≡ not_after a b
unfolding stamp
text_le-stamp a b va vb = rw (text_le-pad_four a.year b.year _ _ va.year_fits vb.year_fits) (
    rw (text_le-pad_two a.month b.month _ _ va.month_fits vb.month_fits) (
      rw (text_le-pad_two a.day b.day _ _ va.day_fits vb.day_fits) (
        rw (text_le-cons) (
          rw (text_le-pad_two a.hour b.hour _ _ va.hour_fits vb.hour_fits) (
            rw (text_le-pad_two a.minute b.minute _ _ va.minute_fits vb.minute_fits)
              (rw (text_le-pad_last a.second b.second va.second_fits vb.second_fits) refl))))))
