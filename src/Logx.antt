-- ===== src/Logx.antt =====
-- internal/logx: what setting up the log does to the files and where it fails, `Setup` and `teeStderr`.
-- The lines that are written to the log are not modelled.
use vps_sync_gsbs.Base.{Option, none, some, [], if◌then◌else◌}
use vps_sync_gsbs.Text.{Text, is_empty}
use vps_sync_gsbs.FilePath.{dir}
use vps_sync_gsbs.Exec.{ok, pure, ◌>>◌}
use vps_sync_gsbs.Outside.{Outside}
use vps_sync_gsbs.World.{Io, Files, update, syscall, mkdir_all}

abbrev touched : Files → Text → Option Text → Files
touched f path none = update f path (some [])
touched f path (some t) = f

module _ {o : Outside} where
  -- `os.OpenFile` for appending, which creates a file that is not there.
  unfoldable pub open_append : Text → Io o (Unit {0})
  open_append path =
      syscall (λ w. (ok tt, record w { files = touched w.files path (w.files path) }))

  -- `teeStderr`: a pipe is made. What its reader copies is not modelled.
  unfoldable pub tee_stderr : Io o (Unit {0})
  tee_stderr = syscall (pure tt)

  -- `Setup`, for the path of the log.
  unfoldable pub setup : Text → Io o (Unit {0})
  unfolding open_append tee_stderr
  setup file =
      if is_empty file then pure tt else do mkdir_all (dir file); open_append file; tee_stderr
