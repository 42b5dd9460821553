-- ===== src/Tests/Serving.antt =====
-- The scheduler, its reports and the commands over the machine in memory.
use vps_sync_gsbs.Base.{true, false, ◌≡◌, ◌≢◌, ◌↔◌, refl, ◌⊎◌, none, some, [], ◌∷◌, ◌++◌}
use vps_sync_gsbs.Base.Int.{pos}
use vps_sync_gsbs.Text.{Text, text, text_eq, is_empty}
use vps_sync_gsbs.Text.Strings.{split, trim_space}
use vps_sync_gsbs.FilePath.{join}
use vps_sync_gsbs.Text.Number.{decimal}
use vps_sync_gsbs.Exec.{Error, errorf, wrapped, ◌>>=◌, ok, err, fail}
use vps_sync_gsbs.World.{World, stat}
use vps_sync_gsbs.Config.{Config}
use vps_sync_gsbs.Notify.{run_result, duration, round_seconds}
use vps_sync_gsbs.Notify.Reported.{Tells, reachable, run_result-Tells}
use vps_sync_gsbs.Run.{no_outcome, weekly}
use vps_sync_gsbs.Schedule.{Options, serve, seeded_first}
use vps_sync_gsbs.Schedule.Served.{IsAccepted, Runs, serve-Runs, serve-error}
use vps_sync_gsbs.Main.{run, validate_only, command_of, dispatch}
use vps_sync_gsbs.Main.Commands.{dispatch-local, dispatch-mirrors}
use vps_sync_gsbs.World.Apart.{Since}
use vps_sync_gsbs.Tests.Memory.{written, demo}
use vps_sync_gsbs.Tests.Upload.{start}
use vps_sync_gsbs.Tests.Runs.{site, mirror}

abbrev options : Options
options = record { spec = text "0 3 * * 6"; run_on_start = true; auto_bootstrap = false }

site-IsAccepted : IsAccepted demo site options
unfolding text
site-IsAccepted = record { based = refl; readable = refl }

abbrev served : World demo
served = (serve site options 2 start).1

serve-Runs_example : (serve site options 2 start ≡ (ok tt, served)) ↔ (
    (w0 : World demo) × (seeded_first site options start ≡ (ok tt, w0))
    × Runs site (text "startup" ∷ text "scheduled" ∷ text "scheduled" ∷ []) w0 served)
serve-Runs_example = serve-Runs demo site options 2 start served site-IsAccepted

abbrev baseless : Config
baseless = record site { public_base = [] }

serve-error_example :
    (is_empty baseless.public_base ≡ true)
    ⊎ (demo.parse_schedule options.spec ≢ none)
    ⊎ ((seeded_first baseless options start).0 ≡ err (errorf (text "PUBLIC_BASE required")))
unfolding serve fail
serve-error_example =
    serve-error demo baseless options 2 start (errorf (text "PUBLIC_BASE required")) refl

durations_test :
    (duration (round_seconds 1499999999) ≡ text "1s")
    × (duration (round_seconds 1500000000) ≡ text "2s")
    × (duration 3599 ≡ text "59m59s")
    × (duration 3600 ≡ text "1h0m0s")
unfolding duration round_seconds text decimal
durations_test = (refl, refl, refl, refl)

abbrev cut_off : Error
cut_off = errorf (text "connection reset")

run_result-Tells_example :
    ((reachable demo site.webhook_url start.ticks ≡ false)
      × (run_result site.webhook_url
            (text "run")
            90000000000
            (pos 0)
            (text "db backup failed" ∷ [])
            (some cut_off)
            start
          ≡ (ok tt, start)))
    ⊎ ((reachable demo site.webhook_url start.ticks ≡ true)
        × ((message : Text) × Tells message (text "db backup failed" ∷ []) (some cut_off)
            × (run_result site.webhook_url
                  (text "run")
                  90000000000
                  (pos 0)
                  (text "db backup failed" ∷ [])
                  (some cut_off)
                  start
                ≡ (ok tt, record start { posts = (trim_space site.webhook_url, message) ∷ [] }))))
unfolding written
run_result-Tells_example =
    run_result-Tells demo site.webhook_url (text "run") 90000000000 (pos 0)
      (text "db backup failed" ∷ []) (some cut_off) start

dispatch-local_example : Since start (dispatch site (text "validate") [] 0 validate_only start).1
dispatch-local_example = dispatch-local demo site (text "validate") [] 0 validate_only start refl

commands_test :
    (command_of (text "validate") ≡ some validate_only) × (command_of (text "publish") ≡ none)
unfolding command_of text text_eq
commands_test = (refl, refl)

-- The database is not there yet.
abbrev not_found : Error
not_found =
    wrapped (text "check_database")
      (errorf (text "database not found at " ++ (mirror ++ text " — run bootstrap first")))

dispatch-mirrors_example :
    (w' : World demo) × (dispatch site (text "run") [] 0 run start ≡ (ok (some not_found), w'))
    × (w'.files ≡ (weekly site start).1.files)
    × (w'.remote ≡ (weekly site start).1.remote)
unfolding weekly stat ◌>>=◌ text text_eq join split
dispatch-mirrors_example =
    dispatch-mirrors demo site (text "run") [] 0 run (weekly site) start (weekly site start).1
      no_outcome (some not_found) refl refl refl
