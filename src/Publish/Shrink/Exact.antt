-- ===== src/Publish/Shrink/Exact.antt =====
-- What the guard refuses.
use vps_sync_gsbs.Base.{
  true, false, ◌∙◌, ◌↔◌, All, ◌≡◌, refl, ◌⊎◌, inl, inr, none, some, Option, List, [], ◌∷◌, arith,
  Bool-cases,
}
use vps_sync_gsbs.Base.Int.{ℤ, pos, ◌-ℤ◌, times, ltb_ℤ, leb_ℤ, ◌<ℤ◌, -ℤ_parts, times_parts}
use vps_sync_gsbs.Base.Float.{IsCount, float_of-count, float_of-difference}
use vps_sync_gsbs.Text.{Text, text, text_eq}
use vps_sync_gsbs.Exec.{Error, ok, err, pure, fail, attempt, bind_of_ok}
use vps_sync_gsbs.Outside.{Outside, Meta}
use vps_sync_gsbs.World.{World, Io, getenv, read_file}
use vps_sync_gsbs.World.Calm.{opened, attempt-read_file}
use vps_sync_gsbs.Publish.Shrink.{
  Check, checks, over_quarter, run_checks, shrink_error, compare_counts, guard_against_shrink,
}

-- A count that was positive has lost more than a quarter: 4 · new < 3 · old.
abbrev pub Collapsed : ℤ → ℤ → Type 0
Collapsed old new = (pos 0 <ℤ old) × (times 4 new <ℤ times 3 old)

-- Counts are exact as `float64`, and so is their difference.
over_quarter-count :
    (old new : ℤ)
    → IsCount old
    → IsCount new
    → over_quarter old new ≡ ltb_ℤ (times 4 new) (times 3 old)
unfolding over_quarter
over_quarter-count old new h k =
    rw (float_of-count old h, float_of-difference old new h k)
      (ground
        (arith, -ℤ_parts old new, times_parts 4 (old -ℤ new), times_parts 4 new, times_parts 3 old))

-- The counts on both sides are without a sign and below 2^53.
abbrev pub Counted : List Check → Type 0
Counted = All (λ c. IsCount c.old × IsCount c.new)

-- No count has collapsed.
abbrev pub Sound : List Check → Type 0
Sound = All (λ c. ¬ Collapsed c.old c.new)

module _ {o : Outside} (c : Check) (cs : List Check) (w : World o) (old : IsCount c.old)
    (new : IsCount c.new) where
  run_checks-refused : Collapsed c.old c.new → run_checks (c ∷ cs) w ≡ (err (shrink_error o c), w)
  unfolding run_checks fail
  run_checks-refused (positive, fell) =
      let counted : leb_ℤ c.old (pos 0) ≡ false = ground (arith, positive) in
      let refused : over_quarter c.old c.new ≡ true =
        over_quarter-count c.old c.new old new ∙ ground (arith, fell) in
      rw (counted, refused) refl

  run_checks-passed : ¬ Collapsed c.old c.new → run_checks (c ∷ cs) w ≡ run_checks cs w
  unfolding run_checks
  run_checks-passed sound = elim (Bool-cases (leb_ℤ c.old (pos 0))) [
    | inl skipped ↦ rw skipped refl
    | inr counted ↦
        let passed : over_quarter c.old c.new ≡ false =
          over_quarter-count c.old c.new old new ∙ ground (arith, sound, counted) in
        rw (counted, passed) refl
  ]

Collapsed-cases : (old new : ℤ) → Collapsed old new ⊎ ¬ Collapsed old new
Collapsed-cases old new = ground arith

module _ {o : Outside} where
  pub run_checks_lem :
      (cs : List Check) (w : World o)
      → Counted cs
      → (((run_checks cs w).0 ≡ ok tt) ↔ Sound cs) × ((run_checks cs w).1 ≡ w)
  unfolding run_checks pure
  run_checks_lem [] w counted = ((λ _. tt, λ _. refl), refl)
  run_checks_lem (c ∷ cs) w ((old, new), counted) = elim (Collapsed-cases c.old c.new) [
    | inl bad ↦
        let e = run_checks-refused c cs w old new bad in
        rw e ((λ h. absurd (ground (arith, h)), λ h. absurd (h.0 bad)), refl)
    | inr good ↦
        let (iff, same) = run_checks_lem cs w counted in
        rw (run_checks-passed c cs w old new good) ((λ h. (good, iff.0 h), λ h. iff.1 h.1), same)
  ]

module _ {o : Outside} (path : Text) (next : Meta) where
  -- What the guard does behind the reading of the previous metadata.
  abbrev pub compare_read : Text ⊎ Error → Io o (Unit {0})
  compare_read (inr e) = pure tt
  compare_read (inl t) = compare_counts next (o.unmarshal_meta t)

  pub guard_against_shrink-read :
      (w : World o)
      → w.faults ≡ []
      → text_eq (w.env (text "FORCE_PUBLISH")) (text "1") ≡ false
      → guard_against_shrink path next w
        ≡ compare_read (opened (text "open ") path (w.files path)) w
  unfolding guard_against_shrink getenv
  guard_against_shrink-read w calm unforced =
      bind_of_ok (getenv (text "FORCE_PUBLISH")) _ w refl
      ∙ rw unforced (bind_of_ok (attempt (read_file path)) _ w (attempt-read_file path w calm))

  pub guard_against_shrink-checks :
      (prev : Meta) (w : World o) (raw : Text)
      → w.faults ≡ []
      → text_eq (w.env (text "FORCE_PUBLISH")) (text "1") ≡ false
      → w.files path ≡ some raw
      → o.unmarshal_meta raw ≡ some prev
      → guard_against_shrink path next w ≡ run_checks (checks prev next) w
  unfolding compare_counts
  guard_against_shrink-checks prev w raw calm unforced there read =
      guard_against_shrink-read w calm unforced ∙ rw (there, read) refl

module _ {o : Outside} (path : Text) (next : Meta) (w : World o) where
  compare_counts-Sound :
      (v : Option Meta)
      → ((prev : Meta) → v ≡ some prev → Counted (checks prev next) × Sound (checks prev next))
      → compare_counts next v w ≡ (ok tt, w)
  unfolding compare_counts pure
  compare_counts-Sound none h = refl
  compare_counts-Sound (some prev) h =
      let (counted, sound) = h prev refl in
      let (iff, same) = run_checks_lem (checks prev next) w counted in
      ground (arith, iff.1 sound, same)

  compare_read-Sound :
      (v : Option Text)
      → ((raw : Text) (prev : Meta)
          → v ≡ some raw
          → o.unmarshal_meta raw ≡ some prev
          → Counted (checks prev next) × Sound (checks prev next))
      → compare_read path next (opened (text "open ") path v) w ≡ (ok tt, w)
  unfolding pure
  compare_read-Sound none h = refl
  compare_read-Sound (some raw) h =
      compare_counts-Sound (o.unmarshal_meta raw) (λ prev e. h raw prev refl e)

  -- The guard lets a bundle pass whose counts have not collapsed, and the first one.
  pub guard_against_shrink-passes :
      w.faults ≡ []
      → text_eq (w.env (text "FORCE_PUBLISH")) (text "1") ≡ false
      → ((raw : Text) (prev : Meta)
          → w.files path ≡ some raw
          → o.unmarshal_meta raw ≡ some prev
          → Counted (checks prev next) × Sound (checks prev next))
      → guard_against_shrink path next w ≡ (ok tt, w)
  guard_against_shrink-passes calm unforced sound =
      guard_against_shrink-read path next w calm unforced ∙ compare_read-Sound (w.files path) sound

-- In a run without faults and without FORCE_PUBLISH=1, behind a publish whose metadata can be read,
-- the guard lets the new bundle pass exactly if none of the three counts was positive and is now
-- less than three quarters of what it was. It changes nothing. The counts on both sides are not
-- negative and below 2^53.
pub guard_against_shrink-Sound :
    (o : Outside) (path : Text) (next prev : Meta) (w : World o) (raw : Text)
    → w.faults ≡ []
    → text_eq (w.env (text "FORCE_PUBLISH")) (text "1") ≡ false
    → w.files path ≡ some raw
    → o.unmarshal_meta raw ≡ some prev
    → Counted (checks prev next)
    → (((guard_against_shrink path next w).0 ≡ ok tt) ↔ Sound (checks prev next))
      × ((guard_against_shrink path next w).1 ≡ w)
guard_against_shrink-Sound o path next prev w raw calm unforced there read counted =
    rw (guard_against_shrink-checks path next prev w raw calm unforced there read)
      (run_checks_lem (checks prev next) w counted)
