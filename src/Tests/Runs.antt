-- ===== src/Tests/Runs.antt =====
-- Weekly runs and first runs over the machine in memory.
use vps_sync_gsbs.Base.{true, false, ◌≡◌, refl, ◌⊎◌, none, some, [], ◌∷◌, if◌then◌else◌}
use vps_sync_gsbs.Base.Int.{pos}
use vps_sync_gsbs.Text.{Text, text, text_eq}
use vps_sync_gsbs.Text.Strings.{split}
use vps_sync_gsbs.FilePath.{dir, base}
use vps_sync_gsbs.Exec.{Error, errorf, wrapped, ok, err, ◌>>=◌}
use vps_sync_gsbs.Exec.Triple.{Post}
use vps_sync_gsbs.Outside.{Outside}
use vps_sync_gsbs.World.{World, update}
use vps_sync_gsbs.World.Apart.{Since}
use vps_sync_gsbs.Config.{Config}
use vps_sync_gsbs.Json.{no_fields}
use vps_sync_gsbs.Publish.Export.{open_database}
use vps_sync_gsbs.Pcgw
use vps_sync_gsbs.Snapshot.{cleanup}
use vps_sync_gsbs.Run.{weekly, pcgw_step, seed_db}
use vps_sync_gsbs.Run.Gated.{AfterValidation, Sound, weekly-gated, weekly-Sound}
use vps_sync_gsbs.Run.Seeded.{Seeded, Unseeded, seed_db-Seeded}
use vps_sync_gsbs.Run.Warned.{IsReady, Warns, unsynced, sync_warning, weekly-warns}
use vps_sync_gsbs.Tests.Memory.{demo, demo-IsStore}
use vps_sync_gsbs.Tests.Upload.{start}
use vps_sync_gsbs.Tests.Publishing.{database}

abbrev pub mirror : Text
mirror = text "/data/pub.db"

abbrev pub site : Config
site = record {
  gsbs_db = mirror;
  out_dir = text "/out";
  public_base = text "https://cdn.example.org/";
  prod_db_src = [];
  fetch_prod_db = false;
  run_pcgw_sync = true;
  pcgw_sync_full = false;
  schedule = text "0 3 * * 6";
  schedule_tz = text "UTC";
  run_on_start = true;
  auto_bootstrap = true;
  r2_access_key = text "key";
  r2_secret_key = text "secret";
  r2_endpoint = text "https://r2.example.org";
  r2_bucket = text "gsbs";
  r2_prefix = text "manifest";
  r2_cleanup = true;
  r2_keep = pos 6;
  db_backup = true;
  db_backup_keep = pos 4;
  gsbs_version = text "1";
  webhook_url = text "https://hooks.example.org/1";
  pcgw_bot_login = false;
  log_file = [];
  log_level = text "info";
  log_mirror_stderr = false;
}

-- An outside whose synchronisation fails when it has begun.
abbrev pub offline : Outside
offline = record demo { pcgw_sync = λ full run t n. (t, err (errorf (text "no such old_host"))) }

abbrev pub old_host : World offline
old_host = record {
  files = λ q. if text_eq q mirror then some database else none;
  env = λ k. [];
  faults = [];
  ticks = 0;
  remote = [];
  history = [];
  posts = [];
}

-- An outside whose exports pass: a bundle with one row, whose checksum is the one of its metadata.
abbrev pub working : Outside
working = record demo {
  export_bundle = λ t version. ok (
    text "zlinux",
    record {
      games = pos 10;
      game_save_locations = pos 20;
      catalog = pos 30;
      exported_at = [];
      full_exported_at = [];
      full_sha256 = text "abc";
    },
  );
  unmarshal_object = λ t. some no_fields;
  sha256_hex = λ t. text "abc";
}

-- A host with a database and an empty object store.
abbrev pub host : World working
host = record {
  files = λ q. if text_eq q mirror then some database else none;
  env = λ k. [];
  faults = [];
  ticks = 0;
  remote = [];
  history = [];
  posts = [];
}

weekly-gated_example :
    Since host (weekly site host).1 ⊎ AfterValidation site host (weekly site host).1
weekly-gated_example = weekly-gated working site host

weekly-Sound_example :
    Since host (weekly site host).1
    ⊎ ((snap : Text) × (left : World working) × Sound site host snap left
        × ((weekly site host).1 ≡ (cleanup snap left).1))
weekly-Sound_example = weekly-Sound working site host refl

abbrev refusal : Error
refusal = wrapped (text "pcgw_sync") (wrapped (text "pcgw sync") (errorf (text "no such old_host")))

host-IsReady : IsReady mirror old_host
unfolding text text_eq
host-IsReady = record { calm = refl; first = 10; others = 20 ∷ 30 ∷ text "rows"; there = refl }

after-IsReady : IsReady mirror (pcgw_step site old_host).1
unfolding text text_eq pcgw_step open_database Pcgw.sync Pcgw.on_database ◌>>=◌ update
after-IsReady = record { calm = refl; first = 10; others = 20 ∷ 30 ∷ text "rows"; there = refl }

weekly-warns_example :
    Warns
      (sync_warning refusal ∷ [])
      (weekly site old_host)
      (weekly (unsynced site) (pcgw_step site old_host).1)
unfolding pcgw_step open_database Pcgw.sync Pcgw.on_database ◌>>=◌ text text_eq update
weekly-warns_example =
    weekly-warns offline site old_host (pcgw_step site old_host).1 refusal refl refl host-IsReady
      after-IsReady refl

seed_db-Seeded_example :
    Post
      (λ _. Seeded demo demo-IsStore site start)
      (λ _. Unseeded demo demo-IsStore site start)
      (seed_db site start).0
      (seed_db site start).1
unfolding text text_eq dir base split
seed_db-Seeded_example =
    seed_db-Seeded demo demo-IsStore site start
      (record { fetching = λ x y. refl; restoring = λ x. refl })
