-- ===== src/Notify.antt =====
-- internal/notify: the message that reports a run, `RunResult`, and its delivery, `Send`.
pub mod Reported
use vps_sync_gsbs.Base.{
  ℕ, ◌+◌, ◌*◌, ◌/◌, ◌%◌, Bool, ◌==◌, Option, none, some, List, [], ◌∷◌, ◌++◌, ltb, if◌then◌else◌,
}
use vps_sync_gsbs.Base.Int.{ℤ, pos, ltb_ℤ}
use vps_sync_gsbs.Text.{Text, text, is_empty}
use vps_sync_gsbs.Text.Strings.{trim_space}
use vps_sync_gsbs.Text.Number.{decimal, decimal_int}
use vps_sync_gsbs.Exec.{Error, Exec, pure, ◌>>=◌, ◌>>◌}
use vps_sync_gsbs.Outside.{Outside}
use vps_sync_gsbs.World.{World, Io}
use vps_sync_gsbs.Fetch.{failed}

-- `d.Round(time.Second)` in seconds, for a time that has passed, in nanoseconds: a half is rounded up.
unfoldable pub round_seconds : ℕ → ℕ
round_seconds d = (d + 500000000) / 1000000000

-- `Duration.String` for whole seconds.
unfoldable pub duration : ℕ → Text
duration s =
    if ltb s 60
    then decimal s ++ text "s"
    else if ltb s 3600
    then decimal (s / 60) ++ (text "m" ++ (decimal (s % 60) ++ text "s"))
    else decimal (s / 3600)
      ++ (text "h" ++ (decimal (s / 60 % 60) ++ (text "m" ++ (decimal (s % 60) ++ text "s"))))

-- The report of a run, without the warnings.
unfoldable pub headline : Text → ℕ → ℤ → Option Error → Text
headline cmd elapsed version (some e) =
    text "❌ vps-sync "
    ++ (cmd
        ++ (text " failed after "
            ++ (duration (round_seconds elapsed) ++ (text ": " ++ e.message))))
headline cmd elapsed version none =
    let done : Text =
      text "✅ vps-sync " ++ (cmd ++ (text " completed in " ++ duration (round_seconds elapsed))) in
    if ltb_ℤ (pos 0) version
    then done ++ (text " — published manifest v" ++ decimal_int version)
    else done

-- A new line, the warning sign with its variation selector, U+FE0F, and a space.
unfoldable pub warning_mark : Text
warning_mark = text "\n⚠" ++ 65039 ∷ text " "

-- The loop that appends the warnings to the message.
unfoldable pub with_warnings : Text → List Text → Text
unfolding warning_mark
with_warnings msg [] = msg
with_warnings msg (w ∷ ws) = with_warnings (msg ++ (warning_mark ++ w)) ws

module _ {o : Outside} where
  -- A POST, which is noted if it is sent. Its error and its answer are only logged.
  unfoldable pub post : Text → Text → Io o (Unit {0})
  post url payload w =
      (pure tt) (if o.sends url w.ticks then record w { posts = (url, payload) ∷ w.posts } else w)

  deliver : Text → Text → Io o (Unit {0})
  unfolding post
  deliver url message =
      if is_empty url
      then pure tt
      else if failed (o.new_request url)
      then pure tt
      else post url (o.marshal_strings ((text "content", message) ∷ (text "text", message) ∷ []))

  -- `Send`
  unfoldable pub send : Text → Text → Io o (Unit {0})
  unfolding deliver
  send url message = deliver (trim_space url) message

  -- `RunResult`
  unfoldable pub run_result : Text → Text → ℕ → ℤ → List Text → Option Error → Io o (Unit {0})
  unfolding send headline with_warnings
  run_result url cmd elapsed version warnings e =
      if is_empty (trim_space url)
      then pure tt
      else send url (with_warnings (headline cmd elapsed version e) warnings)
