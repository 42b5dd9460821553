-- ===== src/Tests/Fetching.antt =====
-- A fetch and a snapshot over the machine in memory.
use vps_sync_gsbs.Base.{refl, none, some, if◌then◌else◌}
use vps_sync_gsbs.Text.{text, text_eq}
use vps_sync_gsbs.Text.Strings.{split}
use vps_sync_gsbs.FilePath.{dir}
use vps_sync_gsbs.Exec.Triple.{Post}
use vps_sync_gsbs.World.{World}
use vps_sync_gsbs.Fetch.{prod_db}
use vps_sync_gsbs.Fetch.Guarded.{Installed, Left, prod_db-Installed}
use vps_sync_gsbs.Snapshot.{backup}
use vps_sync_gsbs.Snapshot.Copied.{Copied, Untouched, backup-Copied}
use vps_sync_gsbs.Tests.Memory.{demo}
use vps_sync_gsbs.Tests.Upload.{start}

abbrev publisher : World demo
publisher = record start {
  files = λ q. if text_eq q (text "/data/pub.db") then some (text "old") else none;
}

prod_db-Installed_example :
    Post
      (λ _ w'. Installed demo (text "/data/pub.db") w'.files w'.remote w'.history)
      (λ kind w'. Left demo (text "/data/pub.db") publisher.files w'.files w'.remote w'.history)
      (prod_db (text "host:/srv/gsbs.db") (text "/data/pub.db") publisher).0
      (prod_db (text "host:/srv/gsbs.db") (text "/data/pub.db") publisher).1
unfolding dir split text text_eq
prod_db-Installed_example =
    prod_db-Installed demo (text "host:/srv/gsbs.db") (text "/data/pub.db") publisher (λ x y. refl)

backup-Copied_example :
    Post
      (λ path w'. Copied demo publisher.files path w'.files w'.remote w'.history)
      (λ kind w'. Untouched demo publisher.files w'.files w'.remote w'.history)
      (backup (text "/data/pub.db") publisher).0
      (backup (text "/data/pub.db") publisher).1
backup-Copied_example = backup-Copied demo (text "/data/pub.db") publisher
