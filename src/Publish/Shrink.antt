-- ===== src/Publish/Shrink.antt =====
-- `guardAgainstShrink`.
pub mod Exact
use vps_sync_gsbs.Base.{
  ℕ, Bool, ◌⊎◌, inl, inr, Option, none, some, List, [], ◌∷◌, ◌++◌, if◌then◌else◌,
}
use vps_sync_gsbs.Base.Int.{ℤ, pos, ◌-ℤ◌, times, ltb_ℤ, leb_ℤ}
use vps_sync_gsbs.Base.Float.{wrapped_int, float_of}
use vps_sync_gsbs.Text.{Text, text, text_eq}
use vps_sync_gsbs.Text.Number.{decimal_int}
use vps_sync_gsbs.Exec.{Error, errorf, Exec, pure, fail, attempt, ◌>>=◌, ◌>>◌}
use vps_sync_gsbs.Outside.{Outside, Meta}
use vps_sync_gsbs.World.{World, Io, read_file, getenv}

-- `check`
pub record Check : Type 0 where
  pub name : Text
  pub old : ℤ
  pub new : ℤ

abbrev pub checks : Meta → Meta → List Check
checks prev next =
    record { name = text "games"; old = prev.games; new = next.games }
    ∷ record {
      name = text "game_save_locations";
      old = prev.game_save_locations;
      new = next.game_save_locations;
    }
    ∷ record { name = text "catalog"; old = prev.catalog; new = next.catalog }
    ∷ []

shrink_error : Outside → Check → Error
shrink_error o c = errorf (
    text "shrink guard: "
    ++ (c.name
        ++ (text " collapsed "
            ++ (decimal_int c.old
                ++ (text " -> "
                    ++ (decimal_int c.new
                        ++ (text " (-"
                            ++ (o.percent (wrapped_int (c.old -ℤ c.new)) c.old
                                ++ text
                                    "%) vs previous publish — refusing to publish a possibly truncated bundle (FORCE_PUBLISH=1 to override deliberately)"))))))))

-- `drop > shrinkGuardMaxDrop` for the `float64` quotient of the two: it is above 0.25 exactly if four
-- times the one `float64` is above the other. If it is, and both have 53 significant digits, the
-- difference is at least a unit of the last place of the divisor, so that the quotient exceeds 0.25 by
-- more than 2^-55, the half of the step to the next `float64`, and is not rounded back to it.
unfoldable pub over_quarter : ℤ → ℤ → Bool
over_quarter old new = ltb_ℤ (float_of old) (times 4 (float_of (wrapped_int (old -ℤ new))))

module _ {o : Outside} where
  -- The loop over the checks.
  unfoldable pub run_checks : List Check → Io o (Unit {0})
  unfolding shrink_error over_quarter
  run_checks [] = pure tt
  run_checks (c ∷ cs) =
      let rest = run_checks cs in
      if leb_ℤ c.old (pos 0)
      then rest
      else if over_quarter c.old c.new
      then fail (shrink_error o c)
      else rest

  -- What is done with the previous metadata, if it can be read.
  unfoldable pub compare_counts : Meta → Option Meta → Io o (Unit {0})
  unfolding run_checks
  compare_counts next none = pure tt
  compare_counts next (some prev) = run_checks (checks prev next)

  -- `guardAgainstShrink`
  unfoldable pub guard_against_shrink : Text → Meta → Io o (Unit {0})
  unfolding compare_counts
  guard_against_shrink meta_path next = do
    force ← getenv (text "FORCE_PUBLISH")
    if text_eq force (text "1") then pure tt else do
      raw ← attempt (read_file meta_path)
      elim raw [ inr e ↦ pure tt | inl t ↦ compare_counts next (o.unmarshal_meta t) ]
