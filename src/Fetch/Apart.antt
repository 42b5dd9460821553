-- ===== src/Fetch/Apart.antt =====
-- A fetch leaves the object store alone.
use vps_sync_gsbs.Base.{Option}
use vps_sync_gsbs.Text.{Text}
use vps_sync_gsbs.Exec.{Error}
use vps_sync_gsbs.Outside.{Outside}
use vps_sync_gsbs.World.Apart.{Apart, apart, Apart-result, leave-Since}
use vps_sync_gsbs.Fetch.{
  run_rsync, run_check, copy_file, give_up, keep_old, check_and_install, fetched, download, prod_db,
}

module _ {o : Outside} where
  run_rsync-Apart : (src tmp : Text) → Apart {o = o} (run_rsync src tmp)
  unfolding run_rsync
  run_rsync-Apart src tmp = Apart-result _ (λ v w k. leave-Since v tmp (o.rsync src w.ticks).1 w k)

  pub run_check-Apart : (tmp : Text) → Apart {o = o} (run_check tmp)
  unfolding run_check
  run_check-Apart tmp = Apart-result _ (λ v w k. k)

  copy_file-Apart : (src dst : Text) → Apart {o = o} (copy_file src dst)
  unfolding copy_file
  copy_file-Apart src dst = search apart

  pub give_up-Apart : (tmp : Text) (e : Error) → Apart {o = o} (give_up tmp e)
  unfolding give_up
  give_up-Apart tmp e = search apart

  keep_old-Apart : (dest : Text) → Apart {o = o} (keep_old dest)
  unfolding keep_old
  keep_old-Apart dest = search (apart, copy_file-Apart) depth 12

  check_and_install-Apart :
      (tmp dest : Text) (said : Text × Option Error)
      → Apart {o = o} (check_and_install tmp dest said)
  unfolding check_and_install
  check_and_install-Apart tmp dest (out, e) = search (apart, give_up-Apart, keep_old-Apart)

  fetched-Apart :
      (tmp dest : Text) (said : Text × Option Error) → Apart {o = o} (fetched tmp dest said)
  unfolding fetched
  fetched-Apart tmp dest (out, e) =
      search (apart, give_up-Apart, run_check-Apart, check_and_install-Apart)

  pub prod_db-Apart : (src dest : Text) → Apart {o = o} (prod_db src dest)
  unfolding prod_db download
  prod_db-Apart src dest = search (apart, run_rsync-Apart, fetched-Apart) depth 12
