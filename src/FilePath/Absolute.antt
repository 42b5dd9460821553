-- ===== src/FilePath/Absolute.antt =====
-- That `Join` and `Dir` keep absolute paths absolute.
use vps_sync_gsbs.Base.{
  ℕ, Bool, true, false, ◌≡◌, refl, List, [], ◌∷◌, ◌++◌, arith, ◌==◌, if◌then◌else◌,
}
use vps_sync_gsbs.Text.{Text}
use vps_sync_gsbs.Text.Strings.{trim_right}
use vps_sync_gsbs.FilePath.{is_abs, clean, join, dir, spell_path, up_to_slash}

spell_path-is_abs : (b : Bool) (es : List Text) → b ≡ true → is_abs (spell_path b es) ≡ true
unfolding is_abs spell_path
spell_path-is_abs true es h = refl
spell_path-is_abs false es h = absurd (ground arith)

is_abs-clean : (s : Text) → is_abs s ≡ true → is_abs (clean s) ≡ true
unfolding clean
is_abs-clean s h = spell_path-is_abs (is_abs s) _ h

pub is_abs-join : (d e : Text) → is_abs d ≡ true → is_abs (join d e) ≡ true
unfolding join is_abs
is_abs-join [] e h = absurd (ground arith)
is_abs-join (c ∷ d) e h = is_abs-clean ((c ∷ d) ++ (b'/' ∷ e)) h

trim_right-head :
    (p : ℕ → Bool) (c : ℕ) (s : Text) → p c ≡ false → trim_right p (c ∷ s) ≡ c ∷ trim_right p s
unfolding trim_right
trim_right-head p c s h = ground (arith, h)

is_abs-up_to_slash : (s : Text) → is_abs s ≡ true → is_abs (up_to_slash s) ≡ true
unfolding is_abs up_to_slash
is_abs-up_to_slash [] h = absurd (ground arith)
is_abs-up_to_slash (c ∷ s) h =
    rw (trim_right-head (λ d. if d == b'/' then false else true) c s (ground (arith, h))) h

pub is_abs-dir : (s : Text) → is_abs s ≡ true → is_abs (dir s) ≡ true
unfolding dir
is_abs-dir s h = is_abs-clean (up_to_slash s) (is_abs-up_to_slash s h)
