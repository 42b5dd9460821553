-- ===== src/Schedule/Reports.antt =====
-- The report behind a run: `report`.
use vps_sync_gsbs.Base.{ℕ, suc, ◌≡◌, refl, inl, inr, Option, none, some, List, Bool-cases}
use vps_sync_gsbs.Base.Int.{ℤ}
use vps_sync_gsbs.Text.{Text}
use vps_sync_gsbs.Exec.{Error, Result, ok, pure, ◌>>=◌}
use vps_sync_gsbs.Outside.{Outside}
use vps_sync_gsbs.World.{World, Io}
use vps_sync_gsbs.Config.{Config}
use vps_sync_gsbs.Notify.{run_result}
use vps_sync_gsbs.Notify.Reported.{run_result-Tells}
use vps_sync_gsbs.Run.{Answer}
use vps_sync_gsbs.Schedule.{ctx_done, time_since, interrupted, report}

-- What a report leaves alone: all but the clock and what was sent.
pub record Unmoved {o : Outside} (w w' : World o) : Type 0 where
  pub files : w'.files ≡ w.files
  pub env : w'.env ≡ w.env
  pub faults : w'.faults ≡ w.faults
  pub remote : w'.remote ≡ w.remote
  pub history : w'.history ≡ w.history

module _ {o : Outside} (cfg : Config) where
  -- A report returns, whatever the run's answer, and moves nothing else.
  abbrev pub Told : Io o (Unit {0}) → World o → Type 0
  Told m w = ((m w).0 ≡ ok tt) × Unmoved w (m w).1

  unmoved : (w : World o) → Unmoved w w
  unmoved w = record { files = refl; env = refl; faults = refl; remote = refl; history = refl }

  -- The clock is asked first.
  asked :
      (w : World o) (n : ℕ) (x : Result (Unit {0}) × World o)
      → (x.0 ≡ ok tt) × Unmoved (record w { ticks = n }) x.1
      → (x.0 ≡ ok tt) × Unmoved w x.1
  asked w n x (returns, u) = (
    returns,
    record {
      files = u.files;
      env = u.env;
      faults = u.faults;
      remote = u.remote;
      history = u.history;
    },
  )

  run_result-Told :
      (reason : Text) (took : ℕ) (version : ℤ) (ws : List Text) (e : Option Error) (w : World o)
      → Told (run_result cfg.webhook_url reason took version ws e) w
  run_result-Told reason took version ws e w =
      elim (run_result-Tells o cfg.webhook_url reason took version ws e w) [
        | inl (unset, same) ↦ rw same (refl, unmoved w)
        | inr (sent, (message, tells, goes_out)) ↦ rw goes_out (
          refl,
          record { files = refl; env = refl; faults = refl; remote = refl; history = refl },
        )
      ]

  pub report-Told : (reason : Text) (ran : Answer) (w : World o) → Told (report cfg reason ran) w
  unfolding report interrupted ctx_done time_since pure ◌>>=◌
  report-Told reason (out, none) w = asked w _ _ (run_result-Told _ _ _ _ none _)
  report-Told reason (out, some e) w = elim (Bool-cases (o.stopped w.ticks)) [
    | inl cut ↦ rw cut (asked w _ _ (refl, unmoved (record w { ticks = suc w.ticks })))
    | inr goes_on ↦ rw goes_on (asked w _ _ (run_result-Told _ _ _ _ (some e) _))
  ]
