-- ===== src/Tests/Upload.antt =====
-- `UploadLive` over the store in memory.
use vps_sync_gsbs.Base.{[], ◌≡◌, refl, none, some, ◌⊎◌, All, if◌then◌else◌}
use vps_sync_gsbs.Base.Int.{pos}
use vps_sync_gsbs.Text.{text, text_eq}
use vps_sync_gsbs.Text.Strings.{split}
use vps_sync_gsbs.FilePath.{join}
use vps_sync_gsbs.World.{Files, World}
use vps_sync_gsbs.R2.{Client, key}
use vps_sync_gsbs.R2.Live.{bundle_name, index_name, upload_live}
use vps_sync_gsbs.R2.Live.Cutover.{upload_live-cutover}
use vps_sync_gsbs.R2.Live.Stored.{Local, Ends, upload_live-Both}
use vps_sync_gsbs.Exec.Triple.{Post}
use vps_sync_gsbs.World.Laws.{Of}
use vps_sync_gsbs.Tests.Memory.{demo, demo-IsStore}

abbrev pub client : Client
client = record { bucket = text "gsbs"; prefix = text "manifest" }

abbrev pub out_files : Files
out_files p =
    if text_eq p (join (text "/out") bundle_name)
    then some (text "bundle")
    else if text_eq p (join (text "/out") index_name)
    then some (text "index")
    else none

abbrev pub start : World demo
start = record {
  files = out_files;
  env = λ k. [];
  faults = [];
  ticks = 0;
  remote = [];
  history = [];
  posts = [];
}

upload_live-cutover_example :
    let w' = (upload_live client (text "/out") (pos 3) start).1 in
    All
      (λ r.
        (demo-IsStore.object r (text "gsbs") (key client index_name)
          ≡ demo-IsStore.object [] (text "gsbs") (key client index_name))
        ⊎ (demo-IsStore.object r (text "gsbs") (key client bundle_name) ≡ some (text "bundle")))
      w'.history
    × (w'.files ≡ out_files)
unfolding join split text_eq text
upload_live-cutover_example =
    upload_live-cutover demo demo-IsStore client (text "/out") (pos 3) start (text "bundle") refl
      refl

upload_live-Both_example :
    Post
      (Ends demo demo-IsStore client (text "/out") out_files (text "bundle") (text "index"))
      (λ _.
        Of demo
          (Local demo demo-IsStore client (text "/out") out_files (text "bundle") (text "index")))
      (upload_live client (text "/out") (pos 3) start).0
      (upload_live client (text "/out") (pos 3) start).1
unfolding join split text_eq text
upload_live-Both_example =
    upload_live-Both demo demo-IsStore client (text "/out") (pos 3) start (text "bundle")
      (text "index") refl refl
