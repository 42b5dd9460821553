-- ===== src/Run.antt =====
-- internal/run: the weekly run, `Weekly`, with its steps in their order, and the first run on a new
-- host, `Bootstrap` and `SeedDB`.
pub mod Apart
pub mod Succeeds
pub mod Published
pub mod Delivered
pub mod Errorless
pub mod Gated
pub mod Seeded
pub mod Bootstrapped
pub mod Warned
use vps_sync_gsbs.Base.{
  ℕ, Bool, not, ◌==◌, ◌⊎◌, inl, inr, Option, none, some, List, [], ◌∷◌, ◌++◌, if◌then◌else◌,
}
use vps_sync_gsbs.Base.Int.{pos}
use vps_sync_gsbs.Text.{Text, text, is_empty}
use vps_sync_gsbs.FilePath.{join}
use vps_sync_gsbs.Exec.{
  Kind, no_db_backup, Error, errorf, pure, fail, lift, attempt, wrap, deferred, ◌>>=◌, ◌>>◌,
}
use vps_sync_gsbs.Outside.{Outside}
use vps_sync_gsbs.World.{World, Io, stat}
use vps_sync_gsbs.Config.{Config, r2_configured}
use vps_sync_gsbs.Fetch.{prod_db}
use vps_sync_gsbs.Pcgw
use vps_sync_gsbs.Snapshot.{backup, cleanup}
use vps_sync_gsbs.Publish.Export.{Exported, export}
use vps_sync_gsbs.Validate.Dir.{validate}
use vps_sync_gsbs.R2.{Client, new}
use vps_sync_gsbs.R2.Live.{Uploaded, upload_live}
use vps_sync_gsbs.R2.Backup.{upload_db_backup, prune_db_backups, restore_db_backup}
use vps_sync_gsbs.R2.Prune.{prune_archives}

-- `Outcome`, with the embedded `publish.Result` as a field.
pub record Outcome : Type 0 where
  pub result : Exported
  pub warnings : List Text

-- What `Weekly` returns: an outcome beside an error, if there is one.
abbrev pub Answer : Type 0
Answer = Outcome × Option Error

-- The zero value of `publish.Result`.
abbrev pub no_result : Exported
no_result = record { manifest_version = pos 0; index_path = []; out_dir = [] }

-- `var res Outcome`
abbrev pub no_outcome : Outcome
no_outcome = record { result = no_result; warnings = [] }

abbrev warned : Text → List Text → (Unit {0}) ⊎ Error → List Text
warned context ws (inl a) = ws
warned context ws (inr e) = ws ++ (context ++ e.message) ∷ []

-- The error of a restoration, in other words where there is no snapshot to restore.
abbrev restore_error : Text → Error → Kind → Error
restore_error db e no_db_backup = errorf (
    text "no DB at "
    ++ (db ++ text ", PROD_DB_SRC not set, and the bucket holds no db-backup/ snapshot"))
restore_error db e _ = e

module _ {o : Outside} where
  -- `step`, whose log lines are left out.
  unfoldable pub step : {A : Type 0} → Text → Io o A → Io o A
  step name fn = wrap name fn

  settle : {A : Type 0} → Outcome → (A → Io o Answer) → A ⊎ Error → Io o Answer
  settle res k (inl a) = k a
  settle res k (inr e) = pure (res, some e)

  -- `if err := m; err != nil { return res, err }`, and what follows it.
  unfoldable pub or_return : {A : Type 0} → Outcome → Io o A → (A → Io o Answer) → Io o Answer
  unfolding settle
  or_return res m k = do done ← attempt m; settle res k done

  -- `if err := m; err != nil { res.Warnings = append(res.Warnings, context + err) }`
  unfoldable pub or_warn : Text → List Text → Io o (Unit {0}) → Io o (List Text)
  or_warn context ws m = do done ← attempt m; pure (warned context ws done)

  -- `artifactSizes`, whose sizes only the log shows.
  artifact_sizes : Text → Io o (Unit {0})
  artifact_sizes dir = do
    attempt (stat (join dir (text "index.json")))
    attempt (stat (join dir (text "manifest.json.gz")))
    attempt (stat (join dir (text "manifest.meta.json")))
    pure tt

  unfoldable pub fetch_step : Config → Io o (Unit {0})
  unfolding step
  fetch_step cfg =
      step (text "fetch_prod_db")
        (do prod_db cfg.prod_db_src cfg.gsbs_db; attempt (stat cfg.gsbs_db); pure tt)

  sized : Text → ℕ ⊎ Error → Io o (Unit {0})
  sized db (inr e) =
      fail (errorf (text "database not found at " ++ (db ++ text " — run bootstrap first")))
  sized db (inl n) = if n == 0 then fail (errorf (text "database file is empty")) else pure tt

  unfoldable pub check_step : Config → Io o (Unit {0})
  unfolding step sized
  check_step cfg =
      step (text "check_database") (do found ← attempt (stat cfg.gsbs_db); sized cfg.gsbs_db found)

  unfoldable pub pcgw_step : Config → Io o (Unit {0})
  unfolding step
  pcgw_step cfg = step (text "pcgw_sync") (do Pcgw.sync cfg.gsbs_db cfg.pcgw_sync_full; pure tt)

  unfoldable pub snapshot_step : Config → Io o Text
  unfolding step
  snapshot_step cfg =
      step (text "snapshot_db") (do path ← backup cfg.gsbs_db; attempt (stat path); pure path)

  unfoldable pub export_step : Config → Text → Io o Exported
  unfolding step artifact_sizes
  export_step cfg snap = step (text "export_bundle") (do
    res ← export snap cfg.out_dir cfg.public_base cfg.gsbs_version
    artifact_sizes cfg.out_dir
    pure res)

  unfoldable pub validate_step : Config → Io o (Unit {0})
  unfolding step
  validate_step cfg = step (text "validate_artifacts") (validate cfg.out_dir)

  -- An error that stands beside a value.
  abbrev pub returned : Option Error → Io o (Unit {0})
  returned none = pure tt
  returned (some e) = fail e

  unfoldable pub upload_step : Config → Exported → Io o (Unit {0})
  unfolding step
  upload_step cfg res = step (text "upload_r2") (do
    client ← lift (new o cfg)
    uploaded ← upload_live client cfg.out_dir res.manifest_version
    returned uploaded.1)

  unfoldable pub backup_step : Config → Text → Io o (Unit {0})
  unfolding step
  backup_step cfg snap = step (text "db_backup") (do
    client ← lift (new o cfg)
    upload_db_backup client snap
    attempt (prune_db_backups client cfg.db_backup_keep)
    pure tt)

  unfoldable pub cleanup_step : Config → Io o (Unit {0})
  unfolding step
  cleanup_step cfg =
      step (text "r2_cleanup") (do
        client ← lift (new o cfg)
        pruned ← prune_archives client cfg.r2_keep
        returned pruned.1)

  -- `Weekly` behind a validated export: the upload, the backup and the clean-up of the archive.
  pub upload_and_prune : Config → Text → Outcome → Io o Answer
  unfolding upload_step backup_step cleanup_step or_return or_warn
  upload_and_prune cfg snap out = or_return out (upload_step cfg out.result) (λ _. do
    ws ←
        if cfg.db_backup
        then or_warn (text "db backup failed: ") out.warnings (backup_step cfg snap)
        else pure out.warnings
    let out' : Outcome = record out { warnings = ws } in
        if cfg.r2_cleanup
        then or_return out' (cleanup_step cfg) (λ _. pure (out', none))
        else pure (out', none))

  -- `Weekly` behind the snapshot.
  pub publish : Config → Text → List Text → Io o Answer
  unfolding export_step validate_step upload_and_prune or_return
  publish cfg snap ws =
      or_return (record { result = no_result; warnings = ws }) (export_step cfg snap)
        (λ res.
          let out : Outcome = record { result = res; warnings = ws } in
          or_return out (validate_step cfg) (λ _. upload_and_prune cfg snap out))

  -- `Weekly` behind the check of the database. The clean-up of the snapshot is deferred.
  pub sync_and_publish : Config → Io o Answer
  unfolding pcgw_step snapshot_step publish or_return or_warn
  sync_and_publish cfg = do
    ws ←
        if cfg.run_pcgw_sync
        then or_warn (text "pcgw sync failed (published existing data): ") [] (pcgw_step cfg)
        else pure []
    or_return (record { result = no_result; warnings = ws }) (snapshot_step cfg)
        (λ snap. deferred (λ w. (cleanup snap w).1) (publish cfg snap ws))

  -- `Weekly`
  unfoldable pub weekly : Config → Io o Answer
  unfolding fetch_step check_step sync_and_publish or_return
  weekly cfg =
      or_return no_outcome (if cfg.fetch_prod_db then fetch_step cfg else pure tt)
        (λ _. or_return no_outcome (check_step cfg) (λ _. sync_and_publish cfg))

  unfound : Text → Text × ℕ ⊎ Error → Io o (Unit {0})
  unfound db (inl a) = pure tt
  unfound db (inr e) = fail (restore_error db e e.kind)

  unfoldable pub restore_step : Config → Io o (Unit {0})
  unfolding step unfound
  restore_step cfg = step (text "restore_db_backup") (do
    client ← lift (new o cfg)
    found ← attempt (restore_db_backup client [] cfg.gsbs_db)
    unfound cfg.gsbs_db found)

  -- `SeedDB`
  unfoldable pub seed_db : Config → Io o (Unit {0})
  unfolding step restore_step
  seed_db cfg =
      if not (is_empty cfg.prod_db_src)
      then step (text "fetch_prod_db") (prod_db cfg.prod_db_src cfg.gsbs_db)
      else if not (r2_configured cfg)
      then fail (
          errorf (
            text "no DB at "
            ++ (cfg.gsbs_db
                ++ text ", PROD_DB_SRC not set, and R2 not configured — nothing to restore from")))
      else restore_step cfg

  seeded : Config → ℕ ⊎ Error → Io o (Unit {0})
  unfolding seed_db
  seeded cfg (inl n) = pure tt
  seeded cfg (inr e) = seed_db cfg

  -- `if _, err := os.Stat(cfg.GSBSDB); err != nil { … SeedDB(ctx, cfg) … }`
  unfoldable pub seed_if_missing : Config → Io o (Unit {0})
  unfolding seeded
  seed_if_missing cfg = do found ← attempt (stat cfg.gsbs_db); seeded cfg found

  -- `Bootstrap`
  unfoldable pub bootstrap : Config → Io o Answer
  unfolding seed_if_missing weekly or_return
  bootstrap cfg = or_return no_outcome (seed_if_missing cfg) (λ _. weekly cfg)
