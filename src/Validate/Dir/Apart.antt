-- ===== src/Validate/Dir/Apart.antt =====
-- A validation leaves the object store alone.
use vps_sync_gsbs.Base.{◌⊎◌, inl, inr, Option, none, some, List, [], ◌∷◌, ◌++◌}
use vps_sync_gsbs.Text.{Text, text}
use vps_sync_gsbs.Json.{Fields}
use vps_sync_gsbs.Exec.{Error, pure}
use vps_sync_gsbs.Outside.{Outside, Index}
use vps_sync_gsbs.World.Apart.{Apart, apart, Apart-pure, Apart-cases}
use vps_sync_gsbs.Validate.Bundle.{validate_bundle}
use vps_sync_gsbs.Validate.Dir.{
  file_sha256, url_error, index_error, validate_index, object_meta_error, raw_meta_error,
  validate_meta, index_errors, bundle_errors, verdict, pre_launch, validate,
}

module _ {o : Outside} where
  file_sha256-Apart : (path : Text) → Apart {o = o} (file_sha256 path)
  unfolding file_sha256
  file_sha256-Apart path = search apart

  url_error-Apart : (idx : Index) → Apart {o = o} (url_error idx)
  unfolding url_error
  url_error-Apart idx = search apart

  index_error-Apart : (dir : Text) (idx : Index) → Apart {o = o} (index_error dir idx)
  unfolding index_error
  index_error-Apart dir idx = search (apart, file_sha256-Apart, url_error-Apart) depth 8

  validate_index-Apart : (raw dir : Text) → Apart {o = o} (validate_index raw dir)
  unfolding validate_index
  validate_index-Apart raw dir = search (
    apart,
    Apart-cases (index_error dir) (λ e. pure (text "index.json: " ++ e.message))
        (index_error-Apart dir) (λ e. Apart-pure (text "index.json: " ++ e.message)),
  )

  object_meta-Apart : (path : Text) (m : Fields) → Apart {o = o} (object_meta_error path m)
  unfolding object_meta_error
  object_meta-Apart path m = search (apart, file_sha256-Apart) depth 8

  raw_meta-Apart : (path : Text) (m : Option Fields) → Apart {o = o} (raw_meta_error path m)
  unfolding raw_meta_error
  raw_meta-Apart path none = search apart
  raw_meta-Apart path (some m) = object_meta-Apart path m

  validate_meta-Apart : (meta full : Text) → Apart {o = o} (validate_meta meta full)
  unfolding validate_meta
  validate_meta-Apart meta full = search (
    apart,
    Apart-cases (λ t. raw_meta_error full (o.unmarshal_object t)) (λ e. pure [])
        (λ t. raw_meta-Apart full (o.unmarshal_object t)) (λ e. Apart-pure []),
  )

  index_errors-Apart : (dir : Text) (x : Text ⊎ Error) → Apart {o = o} (index_errors dir x)
  unfolding index_errors
  index_errors-Apart dir (inl raw) = search (apart, validate_index-Apart)
  index_errors-Apart dir (inr e) = search apart

  validate_bundle-Apart : (path label : Text) → Apart {o = o} (validate_bundle path label)
  unfolding validate_bundle
  validate_bundle-Apart path label = search apart

  bundle_errors-Apart : (dir : Text) (es : List Text) → Apart {o = o} (bundle_errors dir es)
  unfolding bundle_errors
  bundle_errors-Apart dir es = search (apart, validate_bundle-Apart) depth 8

  verdict-Apart : (es : List Text) → Apart {o = o} (verdict es)
  unfolding verdict
  verdict-Apart [] = search apart
  verdict-Apart (e ∷ es) = search apart

  pre_launch-Apart : (dir : Text) → Apart {o = o} (pre_launch dir)
  unfolding pre_launch
  pre_launch-Apart dir = search apart

  pub validate-Apart : (dir : Text) → Apart {o = o} (validate dir)
  unfolding validate
  validate-Apart dir =
      search
        (
          apart, index_errors-Apart, bundle_errors-Apart, validate_meta-Apart, pre_launch-Apart,
          verdict-Apart,
        )
        depth 10
