-- ===== src/Tests/Validating.antt =====
-- Bundles in memory, each with one row.
use vps_sync_gsbs.Base.{◌≡◌, ◌↔◌, refl, none, some, [], if◌then◌else◌}
use vps_sync_gsbs.Text.{text, text_eq}
use vps_sync_gsbs.Text.Strings.{has, to_lower}
use vps_sync_gsbs.Json.{Fields, field, no_fields, string, lookup, sprint}
use vps_sync_gsbs.Exec.{ok}
use vps_sync_gsbs.Base.Int.{pos}
use vps_sync_gsbs.FilePath.{join}
use vps_sync_gsbs.Text.Strings.{split, contains, trim_space, replace_all}
use vps_sync_gsbs.Exec.{◌>>=◌}
use vps_sync_gsbs.World.{World, read_file, stat}
use vps_sync_gsbs.Validate.Dir.{bundle_file, validate, validate_index, validate_meta, file_sha256}
use vps_sync_gsbs.Validate.Dir.Passed.{Passed, validate-Passed}
use vps_sync_gsbs.Validate.Bundle.{row_error, validate_bundle, elements}
use vps_sync_gsbs.Validate.Bundle.Valid.{Bundled, validate_bundle-Bundled, row_error-missing}
use vps_sync_gsbs.Tests.Memory.{demo, write_index, read_index, check_mark, unmark, decoded}
use vps_sync_gsbs.Tests.Upload.{start}

abbrev bundled : World demo
bundled = record start {
  files = λ q. if text_eq q (text "/out/manifest.json.gz") then some (text "zlinux") else none;
}

validate_bundle-Bundled_example :
    ((validate_bundle (text "/out/manifest.json.gz") (text "bundle") bundled).0 ≡ ok [])
    ↔ Bundled demo (text "zlinux")
unfolding text text_eq
validate_bundle-Bundled_example =
    validate_bundle-Bundled demo (text "/out/manifest.json.gz") (text "bundle") bundled
      (text "zlinux") refl refl

abbrev nameless : Fields
nameless = field (text "platform") (string (text "Linux")) no_fields

row_error-missing_example : row_error demo (text "bundle") 7 nameless ≡ []
unfolding lookup text text_eq sprint has to_lower
row_error-missing_example = row_error-missing demo (text "bundle") 7 nameless refl refl refl

-- A directory with a bundle and an index, whose checksum is the bundle itself in memory.
abbrev complete : World demo
complete = record start {
  files = λ q.
      if text_eq q (join (text "/out") bundle_file)
      then some (text "zlinux")
      else if text_eq q (join (text "/out") (text "index.json"))
      then some (
          write_index (record {
            manifest_version = pos 3;
            full_version = pos 3;
            full_url = text "https://cdn.example.org/manifest.json.gz";
            full_sha256 = text "zlinux";
          }))
      else none;
}

validate-Passed_example :
    ((validate (text "/out") complete).1 ≡ complete)
    × ((validate (text "/out") complete).0 ≡ ok tt → Passed (text "/out") complete)
validate-Passed_example = validate-Passed demo (text "/out") complete refl

-- It passes.
validate_test : (validate (text "/out") complete).0 ≡ ok tt
unfolding validate ◌>>=◌ read_file stat join split text text_eq write_index read_index check_mark
    unmark decoded validate_bundle validate_index validate_meta file_sha256 contains lookup
    trim_space sprint has to_lower elements replace_all
validate_test = refl
