-- ===== src/Tests/Delivering.antt =====
-- A whole weekly run on a host in memory, to its end.
use vps_sync_gsbs.Base.{◌≡◌, refl, ap, none, []}
use vps_sync_gsbs.Outside.Laws.{IsStore, IsPaged}
use vps_sync_gsbs.Run.{Outcome}
use vps_sync_gsbs.Run.Published.{Clear}
use vps_sync_gsbs.Exec.{Result, Error}
use vps_sync_gsbs.Base.{Option}
use vps_sync_gsbs.Main.{run, dispatch}
use vps_sync_gsbs.Main.Commands.{dispatch-mirrors}
use vps_sync_gsbs.Main.Succeeded.{dispatch-Delivered}
use vps_sync_gsbs.Run.Bootstrapped.{Prepared, bootstrap-Delivered}
use vps_sync_gsbs.Run.Delivered.{Delivered, weekly-Delivered}
use vps_sync_gsbs.Tests.Runs.{working, host, site}
use vps_sync_gsbs.Text.{text, text_eq, text_le}
use vps_sync_gsbs.Text.Strings.{
  is_space, trim_left, trim_right, trim_space, trim, has_prefix, has_suffix, trim_suffix, contains,
  cut, split, join, replace_all, lower, to_lower, has,
}
use vps_sync_gsbs.Text.Sort.{insert, sort}
use vps_sync_gsbs.Text.Stamp.{pad_two, pad_four, stamp, rfc3339}
use vps_sync_gsbs.Text.Number.{decimal, decimal_int}
use vps_sync_gsbs.FilePath
use vps_sync_gsbs.Exec.{ok, pure, fail, lift, gets, attempt, wrap, deferred, modify, ◌>>=◌}
use vps_sync_gsbs.World.{
  World, update, read_file, stat, leave, write_file, remove, rename, mkdir_all, sync, close, now,
  create_temp, getenv, request,
}
use vps_sync_gsbs.Json.{lookup, sprint}
use vps_sync_gsbs.Fetch.{run_check, give_up, run_rsync, keep_old, prod_db}
use vps_sync_gsbs.Snapshot.{run_backup, backup, cleanup}
use vps_sync_gsbs.Pcgw
use vps_sync_gsbs.Publish.Release.{same_release, upsert, add_release, update_manifest_releases}
use vps_sync_gsbs.Base.Float.{wrapped_int, float_of}
use vps_sync_gsbs.Publish.Shrink.{over_quarter, run_checks, compare_counts, guard_against_shrink}
use vps_sync_gsbs.Publish.Previous.{read_limited, live_url, live_index, index_after, previous_index}
use vps_sync_gsbs.Publish.Export
use vps_sync_gsbs.Validate.Bundle.{
  elements, row_error, rows_error, object_error, bundle_error, validate_bundle,
}
use vps_sync_gsbs.Validate.Dir.{file_sha256, validate_index, validate_meta, validate}
use vps_sync_gsbs.R2.{Client, new, key, put_file}
use vps_sync_gsbs.R2.Live.{snap_name, upload_live}
use vps_sync_gsbs.R2.Backup.{
  collect, first_keys, backup_key, prune_db_backups, gzip_file, upload_db_backup,
}
use vps_sync_gsbs.R2.Prune.{
  collect_prefixes, delete_prefix, prune_loop, prune_sorted, prune_archives,
}
use vps_sync_gsbs.Run.{
  step, or_return, or_warn, check_step, pcgw_step, snapshot_step, export_step, validate_step,
  upload_step, backup_step, cleanup_step, weekly, seed_db, seed_if_missing, bootstrap,
}
use vps_sync_gsbs.Config.{Config, r2_configured}
use vps_sync_gsbs.Base.Int.{pos, ◌-ℤ◌}
use vps_sync_gsbs.Tests.Memory.{
  find, drop_keys, keys_under, mark, check_mark, unmark, read_index, advance, write_meta, read_meta,
  write_releases, read_releases, decoded, write_index, demo-IsStore, demo-IsPaged,
}

working-IsStore : IsStore working
working-IsStore = record {
  object = demo-IsStore.object;
  put_done = demo-IsStore.put_done;
  put_failed = demo-IsStore.put_failed;
  put_other = demo-IsStore.put_other;
  delete_other = demo-IsStore.delete_other;
  deletes_done = demo-IsStore.deletes_done;
  deletes_other = demo-IsStore.deletes_other;
  get_same = demo-IsStore.get_same;
  get_found = demo-IsStore.get_found;
  listed = demo-IsStore.listed;
}

working-IsPaged : IsPaged working
working-IsPaged = record { objects = demo-IsPaged.objects; prefixes = demo-IsPaged.prefixes }

abbrev client : Client
client = record { bucket = text "gsbs"; prefix = text "manifest" }

client-Clear : Clear client
unfolding text has_prefix key
client-Clear = record {
  bundle_backup = refl;
  bundle_archive = refl;
  index_backup = refl;
  index_archive = refl;
}

client_made : new working site ≡ ok client
unfolding new text r2_configured trim
client_made = refl

abbrev outcome : Outcome
outcome = record {
  result = record {
    manifest_version = pos 1;
    index_path = text "/out/index.json";
    out_dir = text "/out";
  };
  warnings = [];
}

-- The run reports no error and no warning.
weekly_test : (weekly site host).0 ≡ ok (outcome, none)
unfolding text text_eq text_le is_space trim_left trim_right trim_space trim has_prefix has_suffix
    trim_suffix contains cut split join replace_all lower to_lower has insert sort pad_two pad_four
    stamp rfc3339 decimal decimal_int FilePath.is_abs FilePath.clean FilePath.join FilePath.dir
    FilePath.base pure fail lift gets attempt wrap deferred modify ◌>>=◌ update read_file stat leave
    write_file remove rename mkdir_all sync close now create_temp getenv request lookup run_check
    give_up run_backup backup cleanup Pcgw.on_database Pcgw.sync same_release upsert add_release
    update_manifest_releases over_quarter wrapped_int float_of run_checks compare_counts
    guard_against_shrink read_limited live_url live_index index_after previous_index
    Export.open_database Export.export_database Export.write_index Export.write_artifacts
    Export.export elements row_error rows_error object_error bundle_error validate_bundle
    file_sha256 validate_index validate_meta validate new key put_file snap_name upload_live collect
    first_keys backup_key prune_db_backups gzip_file upload_db_backup collect_prefixes delete_prefix
    prune_loop prune_sorted prune_archives step or_return or_warn check_step pcgw_step snapshot_step
    export_step validate_step upload_step backup_step cleanup_step weekly r2_configured ◌-ℤ◌ find
    drop_keys keys_under mark check_mark unmark read_index advance write_meta read_meta
    write_releases read_releases decoded write_index sprint
weekly_test = refl

abbrev after : World working
after = (weekly site host).1

weekly-Delivered_example : Delivered working-IsStore site client host after
weekly-Delivered_example =
    weekly-Delivered working working-IsStore site client host after outcome working-IsPaged
      client_made client-Clear refl (ap (λ r. (r, after)) weekly_test)

abbrev command_end : World working
command_end = (dispatch site (text "run") [] 0 run host).1

-- The command ends without an error.
command_test : dispatch site (text "run") [] 0 run host ≡ (ok none, command_end)
unfolding text
command_test =
    let (w', e, files, remote) =
      dispatch-mirrors working site (text "run") [] 0 run (weekly site) host after outcome none refl
        refl (ap (λ r. (r, after)) weekly_test) in
    ap (λ (x : Result (Option Error) × World working). (x.0, command_end)) e

dispatch-Delivered_example : Delivered working-IsStore site client host command_end
dispatch-Delivered_example =
    dispatch-Delivered working working-IsStore site client (text "run") [] 0 run host command_end
      refl working-IsPaged client_made client-Clear refl command_test

-- A host without a database, and a place to fetch it from.
abbrev fetched_site : Config
fetched_site = record site { prod_db_src = text "host:/srv/gsbs.db" }

abbrev bare : World working
bare = record host { files = λ q. none }

client_again : new working fetched_site ≡ ok client
unfolding new text r2_configured trim
client_again = refl

abbrev bootstrapped : World working
bootstrapped = (bootstrap fetched_site bare).1

bootstrap_test : (bootstrap fetched_site bare).0 ≡ ok (outcome, none)
unfolding text text_eq text_le is_space trim_left trim_right trim_space trim has_prefix has_suffix
    trim_suffix contains cut split join replace_all lower to_lower has insert sort pad_two pad_four
    stamp rfc3339 decimal decimal_int FilePath.is_abs FilePath.clean FilePath.join FilePath.dir
    FilePath.base pure fail lift gets attempt wrap deferred modify ◌>>=◌ update read_file stat leave
    write_file remove rename mkdir_all sync close now create_temp getenv request lookup run_check
    give_up run_backup backup cleanup Pcgw.on_database Pcgw.sync same_release upsert add_release
    update_manifest_releases over_quarter wrapped_int float_of run_checks compare_counts
    guard_against_shrink read_limited live_url live_index index_after previous_index
    Export.open_database Export.export_database Export.write_index Export.write_artifacts
    Export.export elements row_error rows_error object_error bundle_error validate_bundle
    file_sha256 validate_index validate_meta validate new key put_file snap_name upload_live collect
    first_keys backup_key prune_db_backups gzip_file upload_db_backup collect_prefixes delete_prefix
    prune_loop prune_sorted prune_archives step or_return or_warn check_step pcgw_step snapshot_step
    export_step validate_step upload_step backup_step cleanup_step weekly r2_configured ◌-ℤ◌ find
    drop_keys keys_under mark check_mark unmark read_index advance write_meta read_meta
    write_releases read_releases decoded write_index sprint bootstrap seed_if_missing seed_db
    prod_db run_rsync keep_old
bootstrap_test = refl

bootstrap-Delivered_example :
    (w0 : World working) × (seed_if_missing fetched_site bare ≡ (ok tt, w0))
    × Prepared working-IsStore fetched_site bare w0
    × Delivered working-IsStore fetched_site client w0 bootstrapped
unfolding text text_eq FilePath.dir FilePath.base split
bootstrap-Delivered_example =
    bootstrap-Delivered working working-IsStore fetched_site client bare bootstrapped outcome
      working-IsPaged client_again client-Clear
      (record { fetching = λ x y. refl; restoring = λ x. refl }) refl
      (ap (λ r. (r, bootstrapped)) bootstrap_test)
