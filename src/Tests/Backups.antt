-- ===== src/Tests/Backups.antt =====
-- The backups over the store in memory.
use vps_sync_gsbs.Base.{
  ℕ, ◌-◌, ◌&&◌, List, [], ◌∷◌, ◌++◌, ◌≡◌, ◌≢◌, refl, none, some, true, false, length, leb,
  if◌then◌else◌,
}
use vps_sync_gsbs.Base.Int.{pos, ◌-ℤ◌}
use vps_sync_gsbs.Text.{Text, text, text_eq, text_le}
use vps_sync_gsbs.Text.Strings.{has, has_prefix, split, trim_right}
use vps_sync_gsbs.Text.Number.{decimal}
use vps_sync_gsbs.Text.Sort.{sort}
use vps_sync_gsbs.Text.Sort.Newest.{newer}
use vps_sync_gsbs.FilePath.{base, dir, join}
use vps_sync_gsbs.Exec.{ok, ◌>>=◌}
use vps_sync_gsbs.Exec.Triple.{Post}
use vps_sync_gsbs.Text.Stamp.{stamp, pad_four, pad_two}
use vps_sync_gsbs.World.{
  stat, now, read_file, World, update, write_file, rename, remove, mkdir_all, create_temp, sync,
  close, request,
}
use vps_sync_gsbs.R2.Backup.{
  prune_db_backups, latest_db_backup_key, restore_db_backup, upload_db_backup, backup_key,
}
use vps_sync_gsbs.R2.Backup.Uploading.{Aside, Stored, upload_db_backup-stored}
use vps_sync_gsbs.R2.Backup.Pruning.{prune_db_backups-newest}
use vps_sync_gsbs.R2.Backup.Restoring.{restore_db_backup-atomic}
use vps_sync_gsbs.R2.Backup.RoundTrip.{backup-round_trip}
use vps_sync_gsbs.Tests.Memory.{
  Objects, mark, demo, demo-IsStore, find, keys_under, unmark, check_mark,
}
use vps_sync_gsbs.Tests.Upload.{client, start}

abbrev backup : Text → Text × Text × Text
backup day = (text "gsbs", text "db-backup/gsbs-" ++ (day ++ text ".db.gz"), b'z' ∷ day)

abbrev stored : Objects
stored = backup (text "20260704") ∷ backup (text "20260718") ∷ backup (text "20260711") ∷ []

abbrev backed_up : World demo
backed_up = record start { remote = stored }

abbrev snapped : World demo
snapped = record start {
  files = λ q. if text_eq q (text "/out/snap") then some (text "rows") else none;
}

abbrev backups : List Text
backups =
    (text "db-backup/gsbs-" ++ (text "20260704" ++ text ".db.gz"))
    ∷ (text "db-backup/gsbs-" ++ (text "20260718" ++ text ".db.gz"))
    ∷ (text "db-backup/gsbs-" ++ (text "20260711" ++ text ".db.gz"))
    ∷ []

latest_test : (latest_db_backup_key client backed_up).0 ≡ ok (text "db-backup/gsbs-20260718.db.gz")
unfolding latest_db_backup_key sort text text_le ◌>>=◌ has_prefix text_eq keys_under
latest_test = refl

-- One of three backups is deleted: the oldest.
prune_db_backups-newest_example :
    (◌≡◌ {A = ℕ} 1 (length backups - 2))
    × ((b k : Text)
        → demo-IsStore.object (prune_db_backups client (pos 2) backed_up).1.remote b k ≡ (
            if text_eq b (text "gsbs") && (has k backups && leb 2 (newer k backups))
            then none
            else demo-IsStore.object stored b k))
unfolding prune_db_backups sort text text_le ◌>>=◌ has_prefix text_eq keys_under has request ◌-ℤ◌
prune_db_backups-newest_example =
    prune_db_backups-newest demo demo-IsStore client 2 backed_up backups 1 ([], refl, refl)
      (refl, (refl, (refl, tt))) refl

restore_db_backup-atomic_example :
    Post
      (λ res w'.
        (t : Text) × (res.1 ≡ length t)
        × ((body : Text) × (demo-IsStore.object stored (text "gsbs") res.0 ≡ some body)
            × (demo.gunzip body ≡ (t, none)))
        × (w'.files (text "/data/gsbs.db") ≡ some t)
        × ((q : Text)
            → text_eq q (text "/data/gsbs.db") ≡ false
            → backed_up.files q ≢ none
            → w'.files q ≡ backed_up.files q))
      (λ kind w'.
        (q : Text)
        → (backed_up.files q ≡ none → text_eq q (text "/data/gsbs.db") ≡ true)
        → w'.files q ≡ backed_up.files q)
      (restore_db_backup client [] (text "/data/gsbs.db") backed_up).0
      (restore_db_backup client [] (text "/data/gsbs.db") backed_up).1
unfolding dir base split text text_eq
restore_db_backup-atomic_example =
    restore_db_backup-atomic demo demo-IsStore client [] (text "/data/gsbs.db") backed_up
      (λ x. refl)

-- The run returns, with the newest backup.
restore_test :
    (restore_db_backup client [] (text "/data/gsbs.db") backed_up).0
    ≡ ok (text "db-backup/gsbs-20260718.db.gz", 8)
unfolding restore_db_backup sort text text_le ◌>>=◌ has_prefix text_eq keys_under has request dir
    base join split trim_right create_temp write_file rename remove mkdir_all sync close update
    unmark check_mark find decimal
restore_test = refl

upload_db_backup-stored_example :
    Post
      (λ res w'.
        Stored demo demo-IsStore client
          (text "/out/snap")
          snapped.files
          res
          w'.files
          w'.remote
          w'.history)
      (λ kind w'. Aside demo (text "/out/snap") snapped.files w'.files w'.remote w'.history)
      (upload_db_backup client (text "/out/snap") snapped).0
      (upload_db_backup client (text "/out/snap") snapped).1
upload_db_backup-stored_example =
    upload_db_backup-stored demo demo-IsStore client (text "/out/snap") snapped

-- The run returns.
upload_test :
    (upload_db_backup client (text "/out/snap") snapped).0
    ≡ ok (text "db-backup/gsbs-20260704-030000.db.gz", 5)
unfolding upload_db_backup ◌>>=◌ text text_eq request write_file read_file remove close update mark
    stat now stamp pad_four pad_two backup_key
upload_test = refl

-- The backup comes back on a host that has nothing.
abbrev sent : World demo
sent = (upload_db_backup client (text "/out/snap") snapped).1

abbrev other_host : World demo
other_host = record start { remote = sent.remote }

abbrev key_of_day : Text
key_of_day = text "db-backup/gsbs-20260704-030000.db.gz"

backup-round_trip_example :
    (restore_db_backup client key_of_day (text "/data/gsbs.db") other_host).1.files
      (text "/data/gsbs.db")
    ≡ some (text "rows")
unfolding upload_db_backup restore_db_backup ◌>>=◌ text text_eq request write_file read_file remove
    close update mark stat now stamp pad_four pad_two backup_key has dir base join split trim_right
    create_temp rename mkdir_all sync unmark check_mark find decimal
backup-round_trip_example =
    backup-round_trip demo demo-IsStore client (text "/out/snap") (text "/data/gsbs.db") snapped
      sent other_host (restore_db_backup client key_of_day (text "/data/gsbs.db") other_host).1
      (text "rows") (key_of_day, 5) (key_of_day, 4) (λ t. refl) refl refl refl (λ x. refl) refl
