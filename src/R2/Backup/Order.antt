-- ===== src/R2/Backup/Order.antt =====
-- The keys of the backups as strings.
use vps_sync_gsbs.Base.{ℕ, ◌+◌, ◌/◌, ◌%◌, ◌<◌, [], ◌∷◌, ◌++◌, ◌≡◌, refl, ◌∙◌, arith, length, lt→ltb}
use vps_sync_gsbs.Text.{Text, text, text_le}
use vps_sync_gsbs.Text.Sort.{text_le_refl}
use vps_sync_gsbs.Text.Stamp.{Moment, IsMoment, stamp, pad_two, pad_four, not_after, text_le-stamp}
use vps_sync_gsbs.R2.Backup.{backup_key}

text_le-prefix : (p s t : Text) → text_le (p ++ s) (p ++ t) ≡ text_le s t
unfolding text_le
text_le-prefix [] s t = refl
text_le-prefix (c ∷ p) s t = ground (arith, text_le-prefix p s t)

-- A common ending does not decide between strings of one length.
text_le-suffix : (s t e : Text) → length s ≡ length t → text_le (s ++ e) (t ++ e) ≡ text_le s t
unfolding text_le
text_le-suffix [] [] e h = rw (text_le_refl e) refl
text_le-suffix [] (y ∷ t) e h = absurd (omega arith)
text_le-suffix (x ∷ s) [] e h = absurd (omega arith)
text_le-suffix (x ∷ s) (y ∷ t) e h = ground (arith, text_le-suffix s t e (omega arith))

length-append : (s t : Text) → length (s ++ t) ≡ length s + length t
length-append [] t = omega arith
length-append (c ∷ s) t = ground (arith, length-append s t)

length-pad_two : (n : ℕ) → n < 100 → length (pad_two n) ≡ 2
unfolding pad_two
length-pad_two n h = rw (lt→ltb n 100 h) refl

length-pad_four : (n : ℕ) → n < 10000 → length (pad_four n) ≡ 4
unfolding pad_four
length-pad_four n h = rw (lt→ltb n 10000 h) (
    length-append (pad_two (n / 100)) (pad_two (n % 100))
    ∙ rw (length-pad_two (n / 100) (omega arith), length-pad_two (n % 100) (omega arith)) refl)

length-stamp : (m : Moment) → IsMoment m → length (stamp m) ≡ 15
unfolding stamp
length-stamp m v =
    rw
      (
        length-append,
        length-pad_four m.year v.year_fits,
        length-append,
        length-pad_two m.month v.month_fits,
        length-append,
        length-pad_two m.day v.day_fits,
        length-append,
        length-pad_two m.hour v.hour_fits,
        length-append,
        length-pad_two m.minute v.minute_fits,
        length-pad_two m.second v.second_fits,
      )
      refl

-- For moments up to the year 9999 the key of a backup is not behind that of another in the order of
-- strings exactly if it was not taken later: the order of the keys is the order of time.
pub text_le-backup_key :
    (a b : Moment) → IsMoment a → IsMoment b → text_le (backup_key a) (backup_key b) ≡ not_after a b
unfolding backup_key
text_le-backup_key a b va vb =
    text_le-prefix (text "db-backup/gsbs-") (stamp a ++ text ".db.gz") (stamp b ++ text ".db.gz")
    ∙ text_le-suffix (stamp a) (stamp b) (text ".db.gz")
        (length-stamp a va ∙ rw (length-stamp b vb) refl)
    ∙ text_le-stamp a b va vb
