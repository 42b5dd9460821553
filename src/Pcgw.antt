-- ===== src/Pcgw.antt =====
-- internal/pcgw: the synchronisation of the database with PCGW, `Sync` and `SyncWithTimeout`.
pub mod Apart
use vps_sync_gsbs.Base.{ℕ, Bool, Option, none, some, if◌then◌else◌}
use vps_sync_gsbs.Base.Int.{ℤ}
use vps_sync_gsbs.Text.{Text, text}
use vps_sync_gsbs.Exec.{errorf, Result, ok, err, wrap, ◌>>=◌, ◌>>◌}
use vps_sync_gsbs.Outside.{Outside}
use vps_sync_gsbs.World.{World, Io, update}
use vps_sync_gsbs.Publish.Export.{open_database}

-- The name that a run is noted under.
abbrev pub mode_of : Bool → Text
mode_of full = if full then text "full" else text "incremental"

module _ {o : Outside} where
  pub stored : {A : Type 0} → Text → Text × Result A → Io o A
  stored path (t, r) w = (r, record w { files = update w.files path (some t) })

  pub job_on : {A : Type 0} → Text → (Text → ℕ → Text × Result A) → Option Text → Io o A
  unfolding stored
  job_on path f none w = (err (errorf (text "unable to open database file")), w)
  job_on path f (some t) w = stored path (f t w.ticks) w

  -- A job of GSBS on an open database.
  unfoldable pub on_database : {A : Type 0} → Text → (Text → ℕ → Text × Result A) → Io o A
  unfolding job_on
  on_database path f w = job_on path f (w.files path) w

  -- `Sync`
  unfoldable pub sync : Text → Bool → Io o ℤ
  sync path full = do
    open_database path
    run ← on_database path (o.start_sync_run (mode_of full))
    wrap (text "pcgw sync") (on_database path (o.pcgw_sync full run))

  -- `SyncWithTimeout`: the deadline shows in what the job answers.
  unfoldable pub sync_with_timeout : Text → Bool → Io o ℤ
  unfolding sync
  sync_with_timeout path full = sync path full
