-- ===== src/Fetch.antt =====
-- internal/fetch: the database fetched from production, `ProdDB` and `copyFile`.
pub mod Guarded
pub mod Apart
use vps_sync_gsbs.Base.{
  ℕ, Bool, not, ◌||◌, ◌⊎◌, inl, inr, Option, none, some, [], ◌∷◌, ◌++◌, if◌then◌else◌,
}
use vps_sync_gsbs.Text.{Text, text, is_empty}
use vps_sync_gsbs.Text.Strings.{trim_space, contains}
use vps_sync_gsbs.Text.Stamp.{Moment, stamp}
use vps_sync_gsbs.FilePath.{dir}
use vps_sync_gsbs.Exec.{Error, errorf, wrapped, Result, ok, Exec, pure, fail, attempt, ◌>>=◌, ◌>>◌}
use vps_sync_gsbs.Outside.{Outside}
use vps_sync_gsbs.World.{
  World, Io, leave, read_file, write_file, stat, remove, rename, mkdir_all, create_temp, now,
  is_error,
}

abbrev pub failed : Option Error → Bool
failed none = Bool.false
failed (some e) = Bool.true

abbrev pub message_of : Option Error → Text
message_of none = []
message_of (some e) = e.message

module _ {o : Outside} where
  -- A program that writes to a file, and one that reads it.
  unfoldable pub run_rsync : Text → Text → Io o (Text × Option Error)
  unfolding leave
  run_rsync src tmp w = let (out, left, e) = o.rsync src w.ticks in (ok (out, e), leave tmp left w)

  unfoldable pub run_check : Text → Io o (Text × Option Error)
  run_check tmp w = (ok (o.quick_check (w.files tmp)), w)

  -- `copyFile`: the destination is there, and empty, before the copy.
  unfoldable pub copy_file : Text → Text → Io o (Unit {0})
  copy_file src dst = do t ← read_file src; write_file dst []; write_file dst t

  unfoldable pub give_up : Text → Error → Io o (Unit {0})
  give_up tmp e = do attempt (remove tmp); fail e

  -- The old database is kept under another name, and its side files go.
  unfoldable pub keep_old : Text → Io o (Unit {0})
  unfolding copy_file
  keep_old dest = do
    found ← attempt (stat dest)
    if is_error found then pure tt else do
      t ← now
      copy_file dest (dest ++ (text ".bak." ++ stamp t))
      attempt (remove (dest ++ text "-wal"))
      attempt (remove (dest ++ text "-shm"))
      pure tt

  check_and_install : Text → Text → Text × Option Error → Io o (Unit {0})
  unfolding keep_old give_up
  check_and_install tmp dest (out, e) =
      if failed e || not (contains out (text "ok"))
      then give_up tmp (errorf (text "downloaded DB failed integrity check"))
      else do keep_old dest; rename tmp dest

  -- What is done with what `rsync` says.
  fetched : Text → Text → Text × Option Error → Io o (Unit {0})
  unfolding check_and_install give_up
  fetched tmp dest (out, e) =
      if failed e
      then give_up tmp (errorf (text "rsync: " ++ (message_of e ++ (text ": " ++ trim_space out))))
      else do checked ← run_check tmp; check_and_install tmp dest checked

  download : Text → Text → Io o (Unit {0})
  unfolding fetched
  download src dest = do
    mkdir_all (dir dest)
    tmp ← create_temp (dir dest) (text "gsbs-prod-") (text ".db")
    said ← run_rsync src tmp
    fetched tmp dest said

  -- `ProdDB`
  unfoldable pub prod_db : Text → Text → Io o (Unit {0})
  unfolding download
  prod_db src dest =
      if is_empty (trim_space src)
      then fail (errorf (text "PROD_DB_SRC not set"))
      else if failed (o.look_path (text "rsync"))
      then fail (errorf (text "rsync required"))
      else if failed (o.look_path (text "sqlite3"))
      then fail (errorf (text "sqlite3 required"))
      else download src dest
