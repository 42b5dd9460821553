-- ===== src/R2/Live.antt =====
-- `UploadLive`: the bundle and its metadata, then index.json, then the archive copies.
pub mod Cutover
pub mod Stored
use vps_sync_gsbs.Base.{
  ℕ, Bool, true, false, ◌⊎◌, inl, inr, Option, none, some, List, [], ◌∷◌, ◌++◌, if◌then◌else◌,
}
use vps_sync_gsbs.Base.Int.{ℤ}
use vps_sync_gsbs.Text.{Text, text}
use vps_sync_gsbs.Text.Number.{decimal_int}
use vps_sync_gsbs.Text.Stamp.{Moment, stamp}
use vps_sync_gsbs.FilePath.{join}
use vps_sync_gsbs.Exec.{
  Kind, plain, not_exist, no_db_backup, Error, wrapped, Exec, pure, attempt, ◌>>=◌, ◌>>◌,
}
use vps_sync_gsbs.Outside.{Outside}
use vps_sync_gsbs.World.{World, Io, stat, now, request, is_not_exist, is_error}
use vps_sync_gsbs.R2.{Client, key, put_file}

pub record Artifact : Type 0 where
  pub file : Text
  pub ct : Text
  pub cache : Text

abbrev pub bundle_name : Text
bundle_name = text "manifest.json.gz"

abbrev pub meta_name : Text
meta_name = text "manifest.meta.json"

abbrev pub index_name : Text
index_name = text "index.json"

abbrev pub delta_name : Text
delta_name = text "manifest.delta.json.gz"

abbrev bundle : Artifact
bundle = record {
  file = bundle_name;
  ct = text "application/gzip";
  cache = text "public, max-age=600";
}

abbrev metadata : Artifact
metadata = record {
  file = meta_name;
  ct = text "application/json";
  cache = text "public, max-age=600";
}

abbrev index : Artifact
index = record {
  file = index_name;
  ct = text "application/json";
  cache = text "public, max-age=120";
}

-- What the function returns: the keys uploaded so far, and the error that ended it, if one did.
abbrev pub Uploaded : Type 0
Uploaded = List Text × Option Error

unfoldable pub snap_name : ℤ → Moment → Text
snap_name version t = text "archive/v" ++ (decimal_int version ++ (b'-' ∷ stamp t))

module _ {o : Outside} where
  -- `if err := c.putFile(…); err != nil { return uploaded, fmt.Errorf(…) }`, and what follows it.
  upload :
      Client
      → Text
      → Artifact
      → Text
      → Text
      → List Text
      → (List Text → Io o Uploaded)
      → Io o Uploaded
  upload c path a k context uploaded next = do
    done ← attempt (put_file c path k a.ct a.cache)
    elim done [
      | inl _ ↦ next (uploaded ++ k ∷ [])
      | inr e ↦ pure (uploaded, some (wrapped (context ++ k) e))
    ]

  -- The loop over `first`.
  upload_first :
      Client → Text → List Artifact → List Text → (List Text → Io o Uploaded) → Io o Uploaded
  upload_first c dir [] uploaded next = next uploaded
  upload_first c dir (a ∷ more) uploaded next =
      let rest = λ (done : List Text). upload_first c dir more done next in
      do
        found ← attempt (stat (join dir a.file))
        if is_not_exist found
            then rest uploaded
            else upload c (join dir a.file) a (key c a.file) (text "upload ") uploaded rest

  -- The loop over the archive copies.
  archive : Client → Text → Text → List Text → List Text → Io o Uploaded
  archive c dir snap [] uploaded = pure (uploaded, none)
  archive c dir snap (name ∷ names) uploaded =
      let rest = λ (done : List Text). archive c dir snap names done in
      do
        found ← attempt (stat (join dir name))
        if is_error found
            then rest uploaded
            else upload c (join dir name)
                (record {
                  file = name;
                  ct = text "application/octet-stream";
                  cache = text "private, max-age=31536000";
                })
                (snap ++ (b'/' ∷ name)) (text "archive upload ") uploaded rest

  -- What follows the first loop. The answer to the delete is logged and no more.
  upload_index : Client → Text → ℤ → List Text → Io o Uploaded
  upload_index c dir version uploaded = do
    answer ← request (o.delete_object c.bucket (key c delta_name))
    upload c (join dir index.file) index (key c index.file) (text "upload ") uploaded
        λ done. do t ← now; archive c dir (snap_name version t) (index_name ∷ bundle_name ∷ []) done

  unfoldable pub upload_live : Client → Text → ℤ → Io o Uploaded
  unfolding upload upload_first upload_index archive snap_name
  upload_live c dir version =
      upload_first c dir (bundle ∷ metadata ∷ []) [] (upload_index c dir version)
