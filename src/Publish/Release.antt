-- ===== src/Publish/Release.antt =====
-- `updateManifestReleases`: the list of what was published.
pub mod Upsert
pub mod Distinct
use vps_sync_gsbs.Base.{ℕ, Bool, ◌&&◌, ◌⊎◌, inl, inr, List, [], ◌∷◌, if◌then◌else◌}
use vps_sync_gsbs.Base.Int.{ℤ, pos, negsuc}
use vps_sync_gsbs.Text.{Text, text_eq}
use vps_sync_gsbs.Text.Strings.{trim_space}
use vps_sync_gsbs.Exec.{Error, Exec, pure, attempt, ◌>>=◌}
use vps_sync_gsbs.Outside.{Outside, Release, Releases}
use vps_sync_gsbs.World.{World, Io, read_file, write_file}

-- Two entries for one publish.
unfoldable pub same_release : Release → Release → Bool
same_release a b = text_eq a.exported_at b.exported_at && text_eq a.type b.type

-- The loop over the entries, and the append behind it.
unfoldable pub upsert : Release → List Release → List Release
unfolding same_release
upsert entry [] = entry ∷ []
upsert entry (r ∷ rs) =
    let rest = upsert entry rs in if same_release r entry then entry ∷ rs else r ∷ rest

abbrev pub trimmed : Release → Release
trimmed e = record {
  type = trim_space e.type;
  exported_at = trim_space e.exported_at;
  full_exported_at = trim_space e.full_exported_at;
  sha256 = trim_space e.sha256;
}

-- A version of zero stands for none.
abbrev schema_of : ℤ → ℤ
schema_of (pos ℕ.zero) = pos 1
schema_of (pos (ℕ.suc n)) = pos (ℕ.suc n)
schema_of (negsuc n) = negsuc n

unfoldable pub add_release : Release → Releases → Releases
unfolding upsert
add_release entry doc = record {
  schema_version = schema_of doc.schema_version;
  releases = upsert (trimmed entry) doc.releases;
}

-- The document that the file holds; a missing or unreadable file gives an empty one.
abbrev pub document : Outside → Text ⊎ Error → Releases
document o (inl raw) = o.unmarshal_releases raw
document o (inr e) = record { schema_version = pos 0; releases = [] }

-- `updateManifestReleases`. `MarshalIndent` returns no error for this type.
unfoldable pub update_manifest_releases : {o : Outside} → Text → Release → Io o (Unit {0})
unfolding add_release
update_manifest_releases {o} path entry = do
  raw ← attempt (read_file path)
  write_file path (o.marshal_releases (add_release entry (document o raw)))
