-- ===== src/Schedule.antt =====
-- internal/schedule: the process that publishes on a schedule, `Serve`.
pub mod Reports
pub mod Served
use vps_sync_gsbs.Base.{
  ℕ, suc, Bool, ◌&&◌, ◌⊎◌, inl, inr, Option, none, some, List, [], ◌∷◌, ◌++◌, if◌then◌else◌,
}
use vps_sync_gsbs.Text.{Text, text, is_empty}
use vps_sync_gsbs.Exec.{Error, errorf, wrapped, ok, pure, fail, attempt, wrap, ◌>>=◌, ◌>>◌}
use vps_sync_gsbs.Outside.{Outside}
use vps_sync_gsbs.World.{World, Io, stat}
use vps_sync_gsbs.Config.{Config}
use vps_sync_gsbs.Fetch.{failed}
use vps_sync_gsbs.Notify.{run_result}
use vps_sync_gsbs.Run.{Outcome, Answer, weekly, seed_if_missing}

-- `Options`, without the zone, which the waiting times alone depend on.
pub record Options : Type 0 where
  pub spec : Text
  pub run_on_start : Bool
  pub auto_bootstrap : Bool

module _ {o : Outside} where
  -- `ctx.Err() != nil`, and `time.Since` of the start of a run.
  unfoldable pub ctx_done : Io o Bool
  ctx_done w = (ok (o.stopped w.ticks), record w { ticks = suc w.ticks })

  unfoldable pub time_since : Io o ℕ
  time_since w = (ok (o.elapsed w.ticks), record w { ticks = suc w.ticks })

  -- A run that failed asks whether the shutdown has interrupted it.
  interrupted : Option Error → Io o Bool
  unfolding ctx_done
  interrupted none = pure Bool.false
  interrupted (some e) = ctx_done

  pub report : Config → Text → Answer → Io o (Unit {0})
  unfolding interrupted time_since
  report cfg reason (res, e) = do
    cut ← interrupted e
    if cut then pure tt else do
      took ← time_since
      run_result cfg.webhook_url (text "serve:" ++ reason) took res.result.manifest_version
          res.warnings e

  -- `execute`, whose errors go to the webhook and the log only.
  unfoldable pub execute : Config → Text → Io o (Unit {0})
  unfolding report
  execute cfg reason = do ran ← weekly cfg; report cfg reason ran

  -- The loop, for the timers that fire before `select` takes `ctx.Done()`.
  unfoldable pub loop : Config → ℕ → Io o (Unit {0})
  loop cfg ℕ.zero = pure tt
  loop cfg (suc ticks) = do execute cfg (text "scheduled"); loop cfg ticks

  started : Config → Options → ℕ → Io o (Unit {0})
  unfolding loop execute
  started cfg opts ticks = do
    if opts.run_on_start then execute cfg (text "startup") else pure tt
    loop cfg ticks

  pub seeded_first : Config → Options → Io o (Unit {0})
  seeded_first cfg opts =
      if opts.auto_bootstrap then wrap (text "auto-bootstrap") (seed_if_missing cfg) else pure tt

  accepted : Config → Options → ℕ → Option Error → Io o (Unit {0})
  unfolding started seeded_first
  accepted cfg opts ticks (some e) =
      fail (wrapped (text "invalid SCHEDULE " ++ o.quote opts.spec) e)
  accepted cfg opts ticks none = do seeded_first cfg opts; started cfg opts ticks

  -- `Serve`, for the number of timers that fire before the process is told to stop.
  unfoldable pub serve : Config → Options → ℕ → Io o (Unit {0})
  unfolding accepted
  serve cfg opts ticks =
      if is_empty cfg.public_base
      then fail (errorf (text "PUBLIC_BASE required"))
      else accepted cfg opts ticks (o.parse_schedule opts.spec)
