-- ===== src/Run/Apart.antt =====
-- The steps of a weekly run in front of the upload leave the object store alone.
use vps_sync_gsbs.Base.{ℕ, ◌⊎◌, inl, inr, List}
use vps_sync_gsbs.Text.{Text}
use vps_sync_gsbs.Exec.{Error}
use vps_sync_gsbs.Outside.{Outside}
use vps_sync_gsbs.World.{Io}
use vps_sync_gsbs.World.Apart.{Apart, apart}
use vps_sync_gsbs.Config.{Config}
use vps_sync_gsbs.Fetch.Apart.{prod_db-Apart}
use vps_sync_gsbs.Pcgw.Apart.{sync-Apart}
use vps_sync_gsbs.Snapshot.Apart.{backup-Apart}
use vps_sync_gsbs.Publish.Export.Apart.{export-Apart}
use vps_sync_gsbs.Validate.Dir.Apart.{validate-Apart}
use vps_sync_gsbs.Run.{
  step, or_warn, artifact_sizes, fetch_step, sized, check_step, pcgw_step, snapshot_step,
  export_step, validate_step,
}

module _ {o : Outside} where
  sized-Apart : (db : Text) (x : ℕ ⊎ Error) → Apart {o = o} (sized db x)
  unfolding sized
  sized-Apart db (inl n) = search apart
  sized-Apart db (inr e) = search apart

  pub fetch_step-Apart : (cfg : Config) → Apart {o = o} (fetch_step cfg)
  unfolding fetch_step step
  fetch_step-Apart cfg = search (apart, prod_db-Apart)

  pub check_step-Apart : (cfg : Config) → Apart {o = o} (check_step cfg)
  unfolding check_step step
  check_step-Apart cfg = search (apart, sized-Apart)

  pub pcgw_step-Apart : (cfg : Config) → Apart {o = o} (pcgw_step cfg)
  unfolding pcgw_step step
  pcgw_step-Apart cfg = search (apart, sync-Apart)

  pub snapshot_step-Apart : (cfg : Config) → Apart {o = o} (snapshot_step cfg)
  unfolding snapshot_step step
  snapshot_step-Apart cfg = search (apart, backup-Apart) depth 8

  artifact_sizes-Apart : (dir : Text) → Apart {o = o} (artifact_sizes dir)
  unfolding artifact_sizes
  artifact_sizes-Apart dir = search apart depth 8

  pub export_step-Apart : (cfg : Config) (snap : Text) → Apart {o = o} (export_step cfg snap)
  unfolding export_step step
  export_step-Apart cfg snap = search (apart, export-Apart, artifact_sizes-Apart)

  pub validate_step-Apart : (cfg : Config) → Apart {o = o} (validate_step cfg)
  unfolding validate_step step
  validate_step-Apart cfg = search (apart, validate-Apart)

  pub or_warn-Apart :
      (context : Text) (ws : List Text) (m : Io o (Unit {0}))
      → Apart m
      → Apart (or_warn context ws m)
  unfolding or_warn
  or_warn-Apart context ws m k = search apart
