-- ===== src/Publish/Export/Apart.antt =====
-- An export leaves the object store alone.
use vps_sync_gsbs.Base.{Option, none, some, refl, List, [], ◌∷◌}
use vps_sync_gsbs.Text.{Text}
use vps_sync_gsbs.Exec.{Error, pure}
use vps_sync_gsbs.Outside.{Outside, Meta, Release}
use vps_sync_gsbs.World.{World}
use vps_sync_gsbs.World.Apart.{
  Since, Since-moved, Apart, apart, Apart-result, Apart-pure, Apart-cases,
}
use vps_sync_gsbs.Publish.Shrink.{Check, checks, run_checks, compare_counts, guard_against_shrink}
use vps_sync_gsbs.Publish.Release.{update_manifest_releases}
use vps_sync_gsbs.Publish.Previous.{previous_index}
use vps_sync_gsbs.Publish.Export.{
  opened_store, open_database, export_database, write_index, write_artifacts, export_to, export,
}

module _ {o : Outside} where
  opened-Since :
      (x : Text × Option Error) (p : Text) (v w : World o)
      → Since v w
      → Since v (opened_store x p w).1
  unfolding opened_store
  opened-Since (t, none) p v w k = Since-moved v w _ refl refl refl k
  opened-Since (t, some e) p v w k = Since-moved v w _ refl refl refl k

  pub open_database-Apart : (path : Text) → Apart {o = o} (open_database path)
  unfolding open_database
  open_database-Apart path =
      Apart-result _ (λ v w k. opened-Since (o.open_store (w.files path)) path v w k)

  export_database-Apart : (path version : Text) → Apart {o = o} (export_database path version)
  unfolding export_database
  export_database-Apart path version = Apart-result _ (λ v w k. k)

  run_checks-Apart : (cs : List Check) → Apart {o = o} (run_checks cs)
  unfolding run_checks
  run_checks-Apart [] = search apart
  run_checks-Apart (c ∷ cs) = search (apart, run_checks-Apart cs)

  compare_counts-Apart : (m : Meta) (v : Option Meta) → Apart {o = o} (compare_counts m v)
  unfolding compare_counts
  compare_counts-Apart m none = search apart
  compare_counts-Apart m (some prev) = run_checks-Apart (checks prev m)

  guard-Apart : (path : Text) (m : Meta) → Apart {o = o} (guard_against_shrink path m)
  unfolding guard_against_shrink
  guard-Apart path m =
      search
        (
          apart,
          Apart-cases (λ t. compare_counts m (o.unmarshal_meta t)) (λ e. pure tt)
              (λ t. compare_counts-Apart m (o.unmarshal_meta t)) (λ e. Apart-pure tt),
        )
        depth 8

  releases-Apart : (path : Text) (e : Release) → Apart {o = o} (update_manifest_releases path e)
  unfolding update_manifest_releases
  releases-Apart path e = search apart

  previous-Apart : (path base : Text) → Apart {o = o} (previous_index path base)
  unfolding previous_index
  previous-Apart path base = search apart

  write_index-Apart : (dir base raw : Text) (m : Meta) → Apart {o = o} (write_index dir base raw m)
  unfolding write_index
  write_index-Apart dir base raw m = search (apart, previous-Apart) depth 10

  write_artifacts-Apart :
      (dir base : Text) (x : Text × Meta) → Apart {o = o} (write_artifacts dir base x)
  unfolding write_artifacts
  write_artifacts-Apart dir base (raw, m) =
      search (apart, guard-Apart, releases-Apart, write_index-Apart) depth 12

  pub export-Apart : (db dir base version : Text) → Apart {o = o} (export db dir base version)
  unfolding export export_to
  export-Apart db dir base version =
      search (apart, open_database-Apart, export_database-Apart, write_artifacts-Apart) depth 10
