-- ===== src/Main.antt =====
-- cmd/vps-sync: the commands of the program and its exit status, `runMain`. What it prints is not
-- modelled but for the hint at `repair-db`.
pub mod Commands
pub mod Succeeded
use vps_sync_gsbs.Base.{
  ℕ, Bool, true, false, ◌||◌, ◌⊎◌, inl, inr, Option, none, some, List, [], ◌∷◌, ◌++◌, if◌then◌else◌,
}
use vps_sync_gsbs.Base.Int.{pos}
use vps_sync_gsbs.Text.{Text, text, text_eq, is_empty}
use vps_sync_gsbs.Exec.{
  Error, errorf, wrapped, Result, ok, Exec, pure, fail, lift, attempt, deferred, ◌>>=◌, ◌>>◌,
}
use vps_sync_gsbs.Outside.{Outside}
use vps_sync_gsbs.World.{World, Io, is_error}
use vps_sync_gsbs.Config.{Config}
use vps_sync_gsbs.Config.Load.{load}
use vps_sync_gsbs.Logx
use vps_sync_gsbs.Fetch.{prod_db, failed}
use vps_sync_gsbs.Pcgw.{sync_with_timeout}
use vps_sync_gsbs.Snapshot.{backup, cleanup}
use vps_sync_gsbs.Publish.Export.{export}
use vps_sync_gsbs.Validate.Dir.{validate}
use vps_sync_gsbs.R2.{new}
use vps_sync_gsbs.R2.Backup.{restore_db_backup}
use vps_sync_gsbs.Repair.{repair_db}
use vps_sync_gsbs.Repair.Plan.{is_schema_error}
use vps_sync_gsbs.Notify.{run_result}
use vps_sync_gsbs.Run.{Answer, no_outcome, weekly, bootstrap}
use vps_sync_gsbs.Schedule.{time_since, serve}

-- The commands. `version` and `--version` are answered before the others are looked at.
pub data Command : Type 0 where
  run weekly_run bootstrap_run serve_run fetch_prod restore pcgw_sync export_only validate_only
        repair :
      Command

-- The `case` that a word takes, if any does.
unfoldable pub command_of : Text → Option Command
command_of word =
    if text_eq word (text "run")
    then some run
    else if text_eq word (text "weekly")
    then some weekly_run
    else if text_eq word (text "bootstrap")
    then some bootstrap_run
    else if text_eq word (text "serve")
    then some serve_run
    else if text_eq word (text "fetch-prod")
    then some fetch_prod
    else if text_eq word (text "restore-db")
    then some restore
    else if text_eq word (text "pcgw-sync")
    then some pcgw_sync
    else if text_eq word (text "export")
    then some export_only
    else if text_eq word (text "validate")
    then some validate_only
    else if text_eq word (text "repair-db")
    then some repair
    else none

-- What is left of a process: its exit status, and whether it printed the hint.
pub record Exit : Type 0 where
  pub status : ℕ
  pub hint : Bool

-- The arguments behind the program's name, with the first one's place taken by `command_of`.
abbrev pub key_argument : List Text → Text
key_argument [] = []
key_argument (k ∷ ks) = k

abbrev base_missing : Error
base_missing = errorf (text "PUBLIC_BASE required")

-- An error that an action ends by.
abbrev error_of : {A : Type 0} → A ⊎ Error → Option Error
error_of (inl a) = none
error_of (inr e) = some e

-- A command that did its work, and one that did not.
abbrev pub exit_of : Option Error → Exit
exit_of none = record { status = 0; hint = false }
exit_of (some e) = record { status = 1; hint = is_schema_error e }

-- No command was run.
abbrev pub refused : Exit
refused = record { status = 1; hint = false }

module _ {o : Outside} where
  -- A run that reports to the webhook, and its error.
  unfoldable pub reported : Config → Text → Io o Answer → Io o (Option Error)
  reported cfg word m = do
    ran ← if is_empty cfg.public_base then pure (no_outcome, some base_missing) else m
    took ← time_since
    run_result cfg.webhook_url word took ran.0.result.manifest_version ran.0.warnings ran.1
    pure ran.1

  unfoldable pub ending : {A : Type 0} → Io o A → Io o (Option Error)
  ending m = do done ← attempt m; pure (error_of done)

  located : Config → ℕ → Option Error → Io o (Unit {0})
  located cfg ticks (some e) =
      fail (wrapped (text "invalid SCHEDULE_TZ " ++ o.quote cfg.schedule_tz) e)
  located cfg ticks none =
      serve cfg
        (record {
          spec = cfg.schedule;
          run_on_start = cfg.run_on_start;
          auto_bootstrap = cfg.auto_bootstrap;
        })
        ticks

  unfoldable pub export_command : Config → Io o (Unit {0})
  export_command cfg = if is_empty cfg.public_base then fail base_missing else do
    snap ← backup cfg.gsbs_db
    deferred (λ w. (cleanup snap w).1)
        (do export snap cfg.out_dir cfg.public_base cfg.gsbs_version; validate cfg.out_dir)

  unfoldable pub restore_command : Config → Text → Io o (Text × ℕ)
  restore_command cfg key = do client ← lift (new o cfg); restore_db_backup client key cfg.gsbs_db

  -- The `switch`, for a word, the arguments behind it and the timers that `serve` sees fire.
  unfoldable pub dispatch : Config → Text → List Text → ℕ → Command → Io o (Option Error)
  unfolding located export_command restore_command reported ending
  dispatch cfg word args ticks run = reported cfg word (weekly cfg)
  dispatch cfg word args ticks weekly_run = reported cfg word (weekly cfg)
  dispatch cfg word args ticks bootstrap_run = reported cfg word (bootstrap cfg)
  dispatch cfg word args ticks serve_run =
      ending (located cfg ticks (o.load_location cfg.schedule_tz))
  dispatch cfg word args ticks fetch_prod = ending (prod_db cfg.prod_db_src cfg.gsbs_db)
  dispatch cfg word args ticks restore = ending (restore_command cfg (key_argument args))
  dispatch cfg word args ticks pcgw_sync = ending (sync_with_timeout cfg.gsbs_db cfg.pcgw_sync_full)
  dispatch cfg word args ticks export_only = ending (export_command cfg)
  dispatch cfg word args ticks validate_only = ending (validate cfg.out_dir)
  dispatch cfg word args ticks repair = ending (repair_db cfg.gsbs_db)

  command_exit : Config → Text → List Text → ℕ → Option Command → Io o Exit
  unfolding dispatch
  command_exit cfg word args ticks none = pure refused
  command_exit cfg word args ticks (some c) = do
    e ← dispatch cfg word args ticks c
    pure (exit_of e)

  -- The command line behind the program's name.
  run_command : Config → ℕ → List Text → Io o Exit
  unfolding command_exit command_of
  run_command cfg ticks [] = pure refused
  run_command cfg ticks (word ∷ args) =
      if text_eq word (text "version") || text_eq word (text "--version")
      then pure (exit_of none)
      else command_exit cfg word args ticks (command_of word)

  -- `runMain`, in a working directory, for the arguments and the timers that `serve` sees fire.
  unfoldable pub run_main : Text → List Text → ℕ → Io o Exit
  unfolding run_command
  run_main wd args ticks = do
    cfg ← load wd
    opened ← attempt (Logx.setup cfg.log_file)
    if is_error opened then pure refused else run_command cfg ticks args
