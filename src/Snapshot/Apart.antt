-- ===== src/Snapshot/Apart.antt =====
-- A snapshot leaves the object store alone.
use vps_sync_gsbs.Base.{Option}
use vps_sync_gsbs.Text.{Text}
use vps_sync_gsbs.Exec.{Error}
use vps_sync_gsbs.Outside.{Outside}
use vps_sync_gsbs.World.Apart.{Apart, apart, Apart-result, leave-Since}
use vps_sync_gsbs.Fetch.Apart.{run_check-Apart, give_up-Apart}
use vps_sync_gsbs.Snapshot.{run_backup, checked_copy, copied, copy, backup, cleanup}

module _ {o : Outside} where
  run_backup-Apart : (src path : Text) → Apart {o = o} (run_backup src path)
  unfolding run_backup
  run_backup-Apart src path =
      Apart-result _ (λ v w k. leave-Since v path (o.sqlite_backup (w.files src) w.ticks).1 w k)

  checked_copy-Apart :
      (path : Text) (said : Text × Option Error) → Apart {o = o} (checked_copy path said)
  unfolding checked_copy
  checked_copy-Apart path (out, e) = search (apart, give_up-Apart)

  copied-Apart : (path : Text) (said : Text × Option Error) → Apart {o = o} (copied path said)
  unfolding copied
  copied-Apart path (out, e) = search (apart, give_up-Apart, run_check-Apart, checked_copy-Apart)

  pub backup-Apart : (src : Text) → Apart {o = o} (backup src)
  unfolding backup copy
  backup-Apart src = search (apart, run_backup-Apart, copied-Apart) depth 8

  pub cleanup-Apart : (path : Text) → Apart {o = o} (cleanup path)
  unfolding cleanup
  cleanup-Apart path = search apart depth 8
