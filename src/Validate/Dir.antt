-- ===== src/Validate/Dir.antt =====
-- `Dir`, `validateIndex`, `validateMeta` and `fileSHA256`.
pub mod Apart
pub mod Passed
use vps_sync_gsbs.Base.{
  Bool, not, ◌&&◌, ◌⊎◌, inl, inr, Option, none, some, List, [], ◌∷◌, ◌++◌, ◌==◌, length,
  if◌then◌else◌,
}
use vps_sync_gsbs.Base.Int.{ℤ, leb_ℤ}
use vps_sync_gsbs.Text.{Text, text, text_eq, is_empty}
use vps_sync_gsbs.Text.Strings.{contains, join}
use vps_sync_gsbs.Text.Number.{decimal_int}
use vps_sync_gsbs.FilePath
use vps_sync_gsbs.Json.{Json, string, Fields, lookup}
use vps_sync_gsbs.Exec.{Error, errorf, pure, fail, lift, attempt, ◌>>=◌}
use vps_sync_gsbs.Outside.{Outside, Index}
use vps_sync_gsbs.World.{Io, read_file, stat, is_not_exist, is_error}
use vps_sync_gsbs.Validate.Bundle.{validate_bundle}

abbrev pub bundle_file : Text
bundle_file = text "manifest.json.gz"

abbrev hash_or_none : Outside → Text ⊎ Error → Text
hash_or_none o (inl raw) = o.sha256_hex raw
hash_or_none o (inr e) = []

-- `v.(string)`, with the empty text for another value.
abbrev pub as_string : Json → Text
as_string (string t) = t
as_string _ = []

abbrev pub equal_ints : ℤ → ℤ → Bool
equal_ints a b = leb_ℤ a b && leb_ℤ b a

-- A checksum that is given and the file's, where there is one.
abbrev pub mismatch : Text → Text → Bool
mismatch given got = not (is_empty got) && not (text_eq got given)

-- `errs = append(errs, e)` for a message.
abbrev pub noted : List Text → Text → List Text
noted errs e = if is_empty e then errs else errs ++ e ∷ []

module _ {o : Outside} where
  -- `fileSHA256`
  unfoldable pub file_sha256 : Text → Io o Text
  file_sha256 path = do raw ← attempt (read_file path); pure (hash_or_none o raw)

  url_error : Index → Io o Text
  url_error idx =
      if contains idx.full_url bundle_file
      then pure []
      else pure
          (text "index.json: full.url does not point at manifest.json.gz: " ++ o.quote idx.full_url)

  index_error : Text → Index → Io o Text
  unfolding url_error
  index_error dir idx =
      if not (equal_ints idx.full_version idx.manifest_version)
      then pure (
          text "index.json: full.version "
          ++ (decimal_int idx.full_version
              ++ (text " != manifest_version " ++ decimal_int idx.manifest_version)))
      else if is_empty idx.full_sha256
      then url_error idx
      else do
        got ← file_sha256 (FilePath.join dir bundle_file)
        if mismatch idx.full_sha256 got
            then pure (text "index.json: full.sha256 mismatch (got " ++ (got ++ text ")"))
            else url_error idx

  -- `validateIndex`
  unfoldable pub validate_index : Text → Text → Io o Text
  unfolding index_error
  validate_index raw dir = do
    parsed ← attempt (lift (o.parse_index raw))
    elim parsed [ inr e ↦ pure (text "index.json: " ++ e.message) | inl idx ↦ index_error dir idx ]

  object_meta_error : Text → Fields → Io o Text
  object_meta_error full_path meta =
      let sh = as_string (lookup meta (text "full_sha256")) in
      if text_eq (as_string (lookup meta (text "gsbs_version"))) (text "pending")
      then pure []
      else if is_empty sh
      then pure []
      else do
        got ← file_sha256 full_path
        if mismatch sh got
            then pure (text "manifest.meta.json: full_sha256 mismatch (got " ++ (got ++ text ")"))
            else pure []

  raw_meta_error : Text → Option Fields → Io o Text
  unfolding object_meta_error
  raw_meta_error full_path none = pure (text "manifest.meta.json: invalid JSON")
  raw_meta_error full_path (some meta) = object_meta_error full_path meta

  -- `validateMeta`
  unfoldable pub validate_meta : Text → Text → Io o Text
  unfolding raw_meta_error
  validate_meta meta_path full_path = do
    raw ← attempt (read_file meta_path)
    elim raw [ inr e ↦ pure [] | inl t ↦ raw_meta_error full_path (o.unmarshal_object t) ]

  index_errors : Text → Text ⊎ Error → Io o (List Text)
  index_errors dir (inr e) = pure []
  index_errors dir (inl raw) = do e ← validate_index raw dir; pure (noted [] e)

  bundle_errors : Text → List Text → Io o (List Text)
  bundle_errors dir errs = do
    found ← attempt (stat (FilePath.join dir bundle_file))
    if is_error found
        then pure errs
        else do e ← validate_bundle (FilePath.join dir bundle_file) bundle_file; pure (noted errs e)

  -- The list of messages as an error.
  verdict : List Text → Io o (Unit {0})
  verdict [] = pure tt
  verdict (e ∷ es) =
      fail (errorf (text "validation failed:\n  - " ++ join (e ∷ es) (text "\n  - ")))

  -- Without an index and without a message there may be nothing at all.
  pre_launch : Text → Io o (Unit {0})
  unfolding verdict
  pre_launch dir = do
    found ← attempt (stat (FilePath.join dir bundle_file))
    if is_not_exist found
        then pure tt
        else verdict (text "manifest.json.gz present but index.json missing" ∷ [])

  -- `Dir`
  unfoldable pub validate : Text → Io o (Unit {0})
  unfolding index_errors bundle_errors verdict pre_launch
  validate dir = do
    raw ← attempt (read_file (FilePath.join dir (text "index.json")))
    of_index ← index_errors dir raw
    of_bundle ← bundle_errors dir of_index
    e ←
        validate_meta (FilePath.join dir (text "manifest.meta.json"))
          (FilePath.join dir bundle_file)
    let errs = noted of_bundle e
    if is_error raw && (length errs == 0) then pre_launch dir else verdict errs
