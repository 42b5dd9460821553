-- ===== src/Pcgw/Apart.antt =====
-- The synchronisation leaves the object store alone.
use vps_sync_gsbs.Base.{ℕ, Bool, Option, none, some, refl}
use vps_sync_gsbs.Text.{Text}
use vps_sync_gsbs.Exec.{Result}
use vps_sync_gsbs.Outside.{Outside}
use vps_sync_gsbs.World.{World}
use vps_sync_gsbs.World.Apart.{Since, Since-moved, Apart, apart, Apart-result}
use vps_sync_gsbs.Publish.Export.Apart.{open_database-Apart}
use vps_sync_gsbs.Pcgw.{stored, job_on, on_database, sync, sync_with_timeout}

module _ {o : Outside} where
  job_on-Since :
      {A : Type 0} (path : Text) (f : Text → ℕ → Text × Result A) (x : Option Text) (v w : World o)
      → Since v w
      → Since v (job_on path f x w).1
  unfolding job_on stored
  job_on-Since path f none v w k = k
  job_on-Since path f (some t) v w k = Since-moved v w _ refl refl refl k

  on_database-Apart :
      {A : Type 0} (path : Text) (f : Text → ℕ → Text × Result A)
      → Apart {o = o} (on_database path f)
  unfolding on_database
  on_database-Apart path f = Apart-result _ (λ v w k. job_on-Since path f (w.files path) v w k)

  pub sync-Apart : (path : Text) (full : Bool) → Apart {o = o} (sync path full)
  unfolding sync
  sync-Apart path full = search (apart, open_database-Apart, on_database-Apart)

  pub sync_with_timeout-Apart :
      (path : Text) (full : Bool) → Apart {o = o} (sync_with_timeout path full)
  unfolding sync_with_timeout
  sync_with_timeout-Apart path full = sync-Apart path full
