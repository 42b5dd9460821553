-- ===== src/Snapshot.antt =====
-- internal/snapshot: a consistent copy of the database, `Backup` and `requireSQLite3`.
pub mod Copied
pub mod Apart
use vps_sync_gsbs.Base.{ℕ, Bool, not, ◌||◌, ◌⊎◌, Option, none, some, [], ◌∷◌, ◌++◌, if◌then◌else◌}
use vps_sync_gsbs.Text.{Text, text}
use vps_sync_gsbs.Text.Strings.{trim_space, contains}
use vps_sync_gsbs.FilePath.{dir}
use vps_sync_gsbs.Exec.{Error, errorf, Result, ok, Exec, pure, fail, attempt, ◌>>=◌, ◌>>◌}
use vps_sync_gsbs.Outside.{Outside}
use vps_sync_gsbs.World.{World, Io, leave, remove, mkdir_all, create_temp}
use vps_sync_gsbs.Fetch.{failed, message_of, run_check, give_up}

module _ {o : Outside} where
  -- `sqlite3 src ".backup 'path'"`
  unfoldable pub run_backup : Text → Text → Io o (Text × Option Error)
  unfolding leave
  run_backup src path w =
      let (out, left, e) = o.sqlite_backup (w.files src) w.ticks in
      ((ok (out, e)), leave path left w)

  checked_copy : Text → Text × Option Error → Io o Text
  unfolding give_up
  checked_copy path (out, e) =
      if failed e || not (contains out (text "ok"))
      then (do
        give_up path (errorf (text "snapshot integrity check failed: " ++ trim_space out))
        pure path)
      else pure path

  copied : Text → Text × Option Error → Io o Text
  unfolding checked_copy give_up
  copied path (out, e) =
      if failed e
      then (do
        give_up path
            (errorf (text "sqlite backup: " ++ (message_of e ++ (text ": " ++ trim_space out))))
        pure path)
      else do checked ← run_check path; checked_copy path checked

  copy : Text → Io o Text
  unfolding copied
  copy src = do
    mkdir_all (dir src)
    path ← create_temp (dir src) (text "gsbs-snap-") (text ".db")
    said ← run_backup src path
    copied path said

  -- `Backup`, without the clean-up that it returns.
  unfoldable pub backup : Text → Io o Text
  unfolding copy
  backup src =
      if failed (o.look_path (text "sqlite3"))
      then fail (errorf (text "sqlite3 CLI required for online snapshots"))
      else copy src

  -- The clean-up, for the path that `Backup` returns.
  unfoldable pub cleanup : Text → Io o (Unit {0})
  cleanup path = do
    attempt (remove path)
    attempt (remove (path ++ text "-wal"))
    attempt (remove (path ++ text "-shm"))
    pure tt
