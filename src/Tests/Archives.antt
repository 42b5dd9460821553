-- ===== src/Tests/Archives.antt =====
-- The archive snapshots over the store in memory, and the keys of the backups.
use vps_sync_gsbs.Base.{
  ◌≡◌, refl, [], ◌∷◌, ◌++◌, inl, none, arith, List, length, ◌-◌, ◌&&◌, if◌then◌else◌,
}
use vps_sync_gsbs.Base.Int.{pos, ◌-ℤ◌}
use vps_sync_gsbs.Text.{Text, text, text_eq, text_le}
use vps_sync_gsbs.Text.Strings.{has, has_prefix, trim_suffix}
use vps_sync_gsbs.Text.Number.{decimal, decimal_int}
use vps_sync_gsbs.Text.Stamp.{Moment, IsMoment, not_after, pad_two, pad_four, stamp}
use vps_sync_gsbs.Exec.{pure, fail, lift, gets, attempt, ◌>>=◌}
use vps_sync_gsbs.World.{World, request}
use vps_sync_gsbs.R2.Live.{snap_name}
use vps_sync_gsbs.R2.Prune.{
  collect_prefixes, delete_prefix, prune_loop, prune_sorted, prune_archives,
}
use vps_sync_gsbs.R2.Prune.Deleted.{delete_prefix-exact}
use vps_sync_gsbs.R2.Prune.Pruned.{Gone, oldest, prune_archives-oldest}
use vps_sync_gsbs.Text.Sort.{insert, sort}
use vps_sync_gsbs.R2.Prune.WrongOrder.{prune_archives-wrong_order}
use vps_sync_gsbs.R2.Backup.{backup_key}
use vps_sync_gsbs.R2.Backup.Order.{text_le-backup_key}
use vps_sync_gsbs.Tests.Memory.{demo, demo-IsStore, keys_under, drop_keys}
use vps_sync_gsbs.Tests.Upload.{client, start}

abbrev july : Moment
july = record { year = 2026; month = 7; day = 4; hour = 3; minute = 0; second = 0 }

abbrev september : Moment
september = record { year = 2026; month = 9; day = 5; hour = 3; minute = 0; second = 0 }

july-IsMoment : IsMoment july
july-IsMoment = record {
  year_fits = omega arith;
  month_fits = omega arith;
  day_fits = omega arith;
  hour_fits = omega arith;
  minute_fits = omega arith;
  second_fits = omega arith;
}

september-IsMoment : IsMoment september
september-IsMoment = record {
  year_fits = omega arith;
  month_fits = omega arith;
  day_fits = omega arith;
  hour_fits = omega arith;
  minute_fits = omega arith;
  second_fits = omega arith;
}

text_le-backup_key_example :
    text_le (backup_key july) (backup_key september) ≡ not_after july september
text_le-backup_key_example = text_le-backup_key july september july-IsMoment september-IsMoment

abbrev archived : World demo
archived = record start {
  remote =
      (text "gsbs", snap_name (pos 10) september ++ b'/' ∷ [], [])
      ∷ (text "gsbs", snap_name (pos 9) july ++ b'/' ∷ [], [])
      ∷ [];
}

abbrev oldest_prefix : Text
oldest_prefix = snap_name (pos 9) july ++ b'/' ∷ []

abbrev without_oldest : World demo
without_oldest = (delete_prefix client oldest_prefix archived).1

delete_prefix-exact_example :
    demo-IsStore.object without_oldest.remote (text "gsbs") oldest_prefix ≡ (
      if text_eq (text "gsbs") client.bucket && has_prefix oldest_prefix oldest_prefix
      then none
      else demo-IsStore.object archived.remote (text "gsbs") oldest_prefix)
unfolding delete_prefix gets request lift pure fail ◌>>=◌ trim_suffix keys_under drop_keys
    has_prefix has text_eq text snap_name decimal_int decimal stamp pad_two pad_four
delete_prefix-exact_example =
    delete_prefix-exact demo demo-IsStore client oldest_prefix archived without_oldest refl
      (text "gsbs") oldest_prefix

abbrev snapshots : List Text
snapshots = snap_name (pos 10) september ∷ snap_name (pos 9) july ∷ []

abbrev pruned : World demo
pruned = (prune_archives client (pos 1) archived).1

prune_archives-oldest_example :
    (1 ≡ length snapshots - 1)
    × Gone demo-IsStore client (oldest demo-IsStore client snapshots 1) archived pruned
unfolding prune_archives collect_prefixes delete_prefix prune_loop prune_sorted attempt gets request
    lift pure fail ◌>>=◌ trim_suffix keys_under drop_keys has_prefix has text_eq text_le text
    snap_name decimal_int decimal stamp pad_two pad_four insert sort ◌-ℤ◌
prune_archives-oldest_example =
    prune_archives-oldest demo demo-IsStore client 1 1 snapshots archived pruned refl refl

-- The snapshot of version 10, which was published two months after that of version 9, is gone.
prune_archives-wrong_order_example :
    demo-IsStore.object pruned.remote client.bucket (snap_name (pos 10) september ++ b'/' ∷ [])
    ≡ none
unfolding prune_archives collect_prefixes delete_prefix prune_loop prune_sorted attempt gets request
    lift pure fail ◌>>=◌ trim_suffix keys_under drop_keys has_prefix has text_eq text_le text
    snap_name decimal_int decimal stamp pad_two pad_four insert sort ◌-ℤ◌
prune_archives-wrong_order_example =
    prune_archives-wrong_order demo demo-IsStore client 1 0 9 1 1 july september snapshots archived
      pruned (snap_name (pos 10) september ++ b'/' ∷ []) (omega arith) (omega arith) (omega arith)
      (omega arith) refl (refl, (refl, tt)) refl refl (inl (omega arith)) refl refl
