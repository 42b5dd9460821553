-- ===== src/Publish/Export.antt =====
-- `Export`: the bundle, its metadata, the list of releases and index.json, in this order.
pub mod Apart
pub mod Opened
pub mod Refused
pub mod Written
pub mod Published
pub mod Present
use vps_sync_gsbs.Base.{ℕ, ◌⊎◌, inl, inr, Option, none, some, [], ◌∷◌, ◌++◌, length, if◌then◌else◌}
use vps_sync_gsbs.Base.Int.{ℤ}
use vps_sync_gsbs.Text.{Text, text, is_empty}
use vps_sync_gsbs.Text.Strings.{trim_space}
use vps_sync_gsbs.Text.Stamp.{Moment, rfc3339}
use vps_sync_gsbs.FilePath.{join}
use vps_sync_gsbs.Exec.{
  Error, errorf, Result, ok, err, Exec, pure, fail, lift, attempt, wrap, ◌>>=◌, ◌>>◌,
}
use vps_sync_gsbs.Outside.{Outside, Meta, Index, Release}
use vps_sync_gsbs.World.{World, Io, update, write_file, remove, mkdir_all, now}
use vps_sync_gsbs.Publish.Shrink.{guard_against_shrink}
use vps_sync_gsbs.Publish.Release.{update_manifest_releases}
use vps_sync_gsbs.Publish.Previous.{previous_index}

-- `Result`
pub record Exported : Type 0 where
  pub manifest_version : ℤ
  pub index_path : Text
  pub out_dir : Text

abbrev pub meta_path : Text → Text
meta_path dir = join dir (text "manifest.meta.json")

abbrev pub bundle_path : Text → Text
bundle_path dir = join dir (text "manifest.json.gz")

abbrev pub releases_path : Text → Text
releases_path dir = join dir (text "manifest.releases.json")

abbrev pub delta_path : Text → Text
delta_path dir = join dir (text "manifest.delta.json.gz")

abbrev pub index_path : Text → Text
index_path dir = join dir (text "index.json")

-- The entry of a bundle in the list of releases.
abbrev pub release_of : Meta → Release
release_of m = record {
  type = text "full";
  exported_at = m.exported_at;
  full_exported_at = m.full_exported_at;
  sha256 = m.full_sha256;
}

module _ {o : Outside} where
  opened_store : Text × Option Error → Text → World o → Result (Unit {0}) × World o
  opened_store (t, none) p w = (ok tt, record w { files = update w.files p (some t) })
  opened_store (t, some e) p w = (err e, record w { files = update w.files p (some t) })

  -- `store.NewSQLite`, which may change the file of the database.
  unfoldable pub open_database : Text → Io o (Unit {0})
  unfolding opened_store
  open_database path w = opened_store (o.open_store (w.files path)) path w

  -- The export of what the database holds; the call does not change it.
  unfoldable pub export_database : Text → Text → Io o (Text × Meta)
  export_database path version w = (
    elim (w.files path) [
      | none ↦ err (errorf (text "unable to open database file"))
      | some t ↦ o.export_bundle t version
    ],
    w,
  )

  -- Behind the bundle and its metadata: the index, which follows the previous one.
  unfoldable pub write_index : Text → Text → Text → Meta → Io o Exported
  write_index dir public_base raw meta = do
    prev ← previous_index (index_path dir) public_base
    t ← now
    next ←
        wrap (text "advance index")
          (lift (o.advance_index prev meta.full_sha256 (length raw) public_base (rfc3339 t)))
    write_file (index_path dir) (o.marshal_index next)
    pure (record {
      manifest_version = next.manifest_version;
      index_path = index_path dir;
      out_dir = dir;
    })

  -- What is written of an export.
  unfoldable pub write_artifacts : Text → Text → Text × Meta → Io o Exported
  unfolding write_index
  write_artifacts dir public_base (raw, meta) = do
    guard_against_shrink (meta_path dir) meta
    write_file (bundle_path dir) raw
    write_file (meta_path dir) (o.marshal_meta meta)
    attempt (update_manifest_releases (releases_path dir) (release_of meta))
    attempt (remove (delta_path dir))
    write_index dir public_base raw meta

  pub export_to : Text → Text → Text → Text → Io o Exported
  unfolding write_artifacts
  export_to db dir public_base version =
      if is_empty public_base
      then fail (errorf (text "PUBLIC_BASE required for index.json"))
      else do
        open_database db
        exported ← export_database db version
        write_artifacts dir public_base exported

  -- `Export`
  unfoldable pub export : Text → Text → Text → Text → Io o Exported
  unfolding export_to
  export db dir public_base version = do
    mkdir_all dir
    export_to db dir (trim_space public_base) version
