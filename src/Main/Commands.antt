-- ===== src/Main/Commands.antt =====
-- What the commands do to the object store, and what an exit status of 0 stands for.
use vps_sync_gsbs.Base.{
  ℕ, suc, Bool, true, false, ◌≡◌, refl, ap, ◌∙◌, inl, inr, Option, none, some, List, arith,
  if◌then◌else◌,
}
use vps_sync_gsbs.Base.Int.{ℤ}
use vps_sync_gsbs.Text.{Text, is_empty}
use vps_sync_gsbs.Exec.{Error, ok, pure, bind_of_ok}
use vps_sync_gsbs.Outside.{Outside}
use vps_sync_gsbs.World.{World, Io}
use vps_sync_gsbs.World.Apart.{
  Since, Since-self, Apart, apart, Apart-if, Apart-fail, Apart-bind, Apart-deferred,
}
use vps_sync_gsbs.Exec.Triple.{Triple-left}
use vps_sync_gsbs.Config.{Config}
use vps_sync_gsbs.Fetch.Apart.{prod_db-Apart}
use vps_sync_gsbs.Pcgw.Apart.{sync_with_timeout-Apart}
use vps_sync_gsbs.Snapshot.{cleanup}
use vps_sync_gsbs.Snapshot.Apart.{backup-Apart, cleanup-Apart}
use vps_sync_gsbs.Publish.Export.Apart.{export-Apart}
use vps_sync_gsbs.Validate.Dir.Apart.{validate-Apart}
use vps_sync_gsbs.Repair.Apart.{repair_db-Apart}
use vps_sync_gsbs.Notify.{run_result}
use vps_sync_gsbs.Notify.Reported.{run_result-Tells}
use vps_sync_gsbs.Schedule.{time_since}
use vps_sync_gsbs.Run.{Answer, Outcome, no_outcome, weekly, bootstrap}
use vps_sync_gsbs.Main.{
  Command, run, weekly_run, bootstrap_run, fetch_prod, pcgw_sync, export_only, validate_only,
  repair, reported, ending, export_command, dispatch, base_missing,
}

-- The commands that work on the host alone.
abbrev pub is_local : Command → Bool
is_local fetch_prod = true
is_local pcgw_sync = true
is_local export_only = true
is_local validate_only = true
is_local repair = true
is_local _ = false

module _ {o : Outside} where
  ending-Apart : {A : Type 0} (m : Io o A) → Apart m → Apart (ending m)
  unfolding ending
  ending-Apart m k = search apart

  export_command-Apart : (cfg : Config) → Apart {o = o} (export_command cfg)
  unfolding export_command
  export_command-Apart cfg =
      Apart-if (is_empty cfg.public_base) _ _ (λ _. Apart-fail base_missing)
        (λ _. Apart-bind _ _ (backup-Apart cfg.gsbs_db) (λ snap.
          Apart-deferred (cleanup snap) _ (cleanup-Apart snap)
            (Apart-bind _ _ (export-Apart snap _ _ _) (λ _. validate-Apart cfg.out_dir))))

  dispatch-Apart :
      (cfg : Config) (word : Text) (args : List Text) (ticks : ℕ) (c : Command)
      → is_local c ≡ true
      → Apart {o = o} (dispatch cfg word args ticks c)
  unfolding dispatch
  dispatch-Apart cfg word args ticks fetch_prod h = ending-Apart _ (prod_db-Apart _ _)
  dispatch-Apart cfg word args ticks pcgw_sync h = ending-Apart _ (sync_with_timeout-Apart _ _)
  dispatch-Apart cfg word args ticks export_only h = ending-Apart _ (export_command-Apart cfg)
  dispatch-Apart cfg word args ticks validate_only h = ending-Apart _ (validate-Apart _)
  dispatch-Apart cfg word args ticks repair h = ending-Apart _ (repair_db-Apart _)
  dispatch-Apart cfg word args ticks _ h = absurd (ground (arith, h))

-- The commands that fetch, synchronise, export, validate and repair leave the object store alone,
-- however they end: none of them publishes, and none leaves a fault pending where none was.
pub dispatch-local :
    (o : Outside) (cfg : Config) (word : Text) (args : List Text) (ticks : ℕ) (c : Command)
    (w : World o)
    → is_local c ≡ true
    → Since w (dispatch cfg word args ticks c w).1
dispatch-local o cfg word args ticks c w h =
    Triple-left (dispatch cfg word args ticks c) w
      ((dispatch-Apart cfg word args ticks c h).keeps w) (Since-self w)

-- A report that goes out leaves the files and the object store alone.
pub report_lem :
    (o : Outside) (url cmd : Text) (took : ℕ) (version : ℤ) (ws : List Text) (e : Option Error)
    (w : World o)
    → (w' : World o) × (run_result url cmd took version ws e w ≡ (ok tt, w'))
      × (w'.files ≡ w.files)
      × (w'.remote ≡ w.remote)
report_lem o url cmd took version ws e w = elim (run_result-Tells o url cmd took version ws e w) [
  | inl (unset, same) ↦ (w, same, refl, refl)
  | inr (sent, (message, tells, done)) ↦ (_, done, refl, refl)
]

module _ {o : Outside} (cfg : Config) (word : Text) where
  based :
      (b : Bool) (m : Io o Answer) (w : World o)
      → b ≡ false
      → (if b then pure (no_outcome, some base_missing) else m) w ≡ m w
  based true m w h = absurd (ground (arith, h))
  based false m w h = refl

  -- What is returned is the run's error.
  reported-mirrors :
      (m : Io o Answer) (w w1 : World o) (out : Outcome) (x : Option Error)
      → is_empty cfg.public_base ≡ false
      → m w ≡ (ok (out, x), w1)
      → (w' : World o) × (reported cfg word m w ≡ (ok x, w'))
        × (w'.files ≡ w1.files)
        × (w'.remote ≡ w1.remote)
  unfolding reported time_since pure
  reported-mirrors m w w1 out x set ran =
      let asked : World o = record w1 { ticks = suc w1.ticks } in
      let (w', sent, files, remote) =
        report_lem o cfg.webhook_url word (o.elapsed w1.ticks) out.result.manifest_version
          out.warnings x asked in
      (
        w',
        bind_of_ok _ _ w (based (is_empty cfg.public_base) m w set ∙ ran)
            ∙ (bind_of_ok time_since _ w1 refl ∙ bind_of_ok _ _ asked sent),
        files,
        remote,
      )

-- The run that a command is for, if it publishes.
abbrev pub publishing : {o : Outside} → Config → Command → Option (Io o Answer)
publishing cfg run = some (weekly cfg)
publishing cfg weekly_run = some (weekly cfg)
publishing cfg bootstrap_run = some (bootstrap cfg)
publishing cfg _ = none

run_of : {o : Outside} {m n : Io o Answer} → some m ≡ some n → m ≡ n
run_of {m} h = ap (λ v. elim v [ none ↦ m | some k ↦ k ]) h

-- A command that publishes ends as its run does: where the base is set, and the run has returned an
-- outcome, with an error or without one, the command returns that error, or none, and leaves the
-- files and the object store of the run; whatever becomes of the report hides no failure and
-- makes none.
pub dispatch-mirrors :
    (o : Outside) (cfg : Config) (word : Text) (args : List Text) (ticks : ℕ) (c : Command)
    (m : Io o Answer) (w w1 : World o) (out : Outcome) (x : Option Error)
    → publishing cfg c ≡ some m
    → is_empty cfg.public_base ≡ false
    → m w ≡ (ok (out, x), w1)
    → (w' : World o) × (dispatch cfg word args ticks c w ≡ (ok x, w'))
      × (w'.files ≡ w1.files)
      × (w'.remote ≡ w1.remote)
unfolding dispatch
dispatch-mirrors o cfg word args ticks run m w w1 out x h set ran =
    reported-mirrors cfg word (weekly cfg) w w1 out x set (ap (λ m. m w) (run_of h) ∙ ran)
dispatch-mirrors o cfg word args ticks weekly_run m w w1 out x h set ran =
    reported-mirrors cfg word (weekly cfg) w w1 out x set (ap (λ m. m w) (run_of h) ∙ ran)
dispatch-mirrors o cfg word args ticks bootstrap_run m w w1 out x h set ran =
    reported-mirrors cfg word (bootstrap cfg) w w1 out x set (ap (λ m. m w) (run_of h) ∙ ran)
dispatch-mirrors o cfg word args ticks _ m w w1 out x h set ran = absurd (ground (arith, h))
