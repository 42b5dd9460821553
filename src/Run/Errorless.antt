-- ===== src/Run/Errorless.antt =====
-- A weekly run returns its error beside the outcome, so its own action returns none.
use vps_sync_gsbs.Base.{◌⊎◌, inl, inr, List}
use vps_sync_gsbs.Text.{Text}
use vps_sync_gsbs.Exec.{Error}
use vps_sync_gsbs.Exec.Errorless.{Errorless, errorless}
use vps_sync_gsbs.Outside.{Outside}
use vps_sync_gsbs.World.{World, Io}
use vps_sync_gsbs.Config.{Config}
use vps_sync_gsbs.Run.{
  Outcome, Answer, settle, or_return, or_warn, upload_and_prune, publish, sync_and_publish, weekly,
  bootstrap,
}

module _ {o : Outside} where
  settle-Errorless :
      {A : Type 0} (res : Outcome) (k : A → Io o Answer) (x : A ⊎ Error)
      → ((a : A) → Errorless (k a))
      → Errorless (settle res k x)
  unfolding settle
  settle-Errorless res k (inl a) h = h a
  settle-Errorless res k (inr e) h = search errorless

  or_return-Errorless :
      {A : Type 0} (res : Outcome) (m : Io o A) (k : A → Io o Answer)
      → ((a : A) → Errorless (k a))
      → Errorless (or_return res m k)
  unfolding or_return
  or_return-Errorless res m k h = search (errorless, settle-Errorless)

  or_warn-Errorless :
      (context : Text) (ws : List Text) (m : Io o (Unit {0})) → Errorless (or_warn context ws m)
  unfolding or_warn
  or_warn-Errorless context ws m = search errorless

  upload_and_prune-Errorless :
      (cfg : Config) (snap : Text) (out : Outcome)
      → Errorless {S = World o} (upload_and_prune cfg snap out)
  unfolding upload_and_prune
  upload_and_prune-Errorless cfg snap out =
      search (errorless, or_return-Errorless, or_warn-Errorless) depth 8

  publish-Errorless :
      (cfg : Config) (snap : Text) (ws : List Text) → Errorless {S = World o} (publish cfg snap ws)
  unfolding publish
  publish-Errorless cfg snap ws = search (or_return-Errorless, upload_and_prune-Errorless)

  sync_and_publish-Errorless : (cfg : Config) → Errorless {S = World o} (sync_and_publish cfg)
  unfolding sync_and_publish
  sync_and_publish-Errorless cfg =
      search (errorless, or_return-Errorless, or_warn-Errorless, publish-Errorless) depth 8

  pub weekly-Errorless : (cfg : Config) → Errorless {S = World o} (weekly cfg)
  unfolding weekly
  weekly-Errorless cfg = search (or_return-Errorless, sync_and_publish-Errorless)

  pub bootstrap-Errorless : (cfg : Config) → Errorless {S = World o} (bootstrap cfg)
  unfolding bootstrap
  bootstrap-Errorless cfg = search (or_return-Errorless, weekly-Errorless)
