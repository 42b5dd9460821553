-- ===== src/Main/Succeeded.antt =====
-- What a command that ends without an error stands for.
use vps_sync_gsbs.Base.{
  ℕ, Bool, true, false, ◌≡◌, sym, ap, subst, ◌∙◌, Option, none, some, List, [], arith,
  if◌then◌else◌,
}
use vps_sync_gsbs.Text.{Text, is_empty}
use vps_sync_gsbs.Exec.{Error, Result, ok, pure, bind-ok}
use vps_sync_gsbs.Outside.{Outside}
use vps_sync_gsbs.Outside.Laws.{IsStore, IsPaged}
use vps_sync_gsbs.World.{World, Io}
use vps_sync_gsbs.Config.{Config}
use vps_sync_gsbs.R2.{Client, new}
use vps_sync_gsbs.R2.Live.{bundle_name, index_name}
use vps_sync_gsbs.R2.Live.Stored.{object_of}
use vps_sync_gsbs.R2.Backup.RoundTrip.{value_of}
use vps_sync_gsbs.Schedule.{time_since}
use vps_sync_gsbs.Run.{Answer, Outcome, no_outcome, weekly}
use vps_sync_gsbs.Run.Published.{Clear}
use vps_sync_gsbs.Run.Delivered.{Delivered, weekly-Delivered}
use vps_sync_gsbs.Main.{Command, run, weekly_run, reported, dispatch, base_missing}
use vps_sync_gsbs.Main.Commands.{report_lem}

module _ {o : Outside} (cfg : Config) (word : Text) where
  -- Without a base there is an error.
  based :
      (b : Bool) (m : Io o Answer) (w w1 : World o) (ran : Answer)
      → (if b then pure (no_outcome, some base_missing) else m) w ≡ (ok ran, w1)
      → ran.1 ≡ none
      → m w ≡ (ok ran, w1)
  unfolding pure
  based true m w w1 ran e no_error =
      absurd (ground (arith, ap (λ (a : Answer). a.1) (value_of e), no_error))
  based false m w w1 ran e no_error = e

  -- A report that no error stands in tells of a run without one, and leaves its object store.
  reported_lem :
      (m : Io o Answer) (w w' : World o)
      → reported cfg word m w ≡ (ok none, w')
      → (out : Outcome) × (w1 : World o) × (m w ≡ (ok (out, none), w1)) × (w'.remote ≡ w1.remote)
  unfolding reported time_since pure
  reported_lem m w w' e =
      let ((out, x), w1, ran, rest1) = bind-ok _ _ w w' none e in
      let (took, w2, timed, rest2) = bind-ok _ _ w1 w' none rest1 in
      let (u, w3, told, ended) = bind-ok _ _ w2 w' none rest2 in
      let (w4, sent, files, remote) =
        report_lem o cfg.webhook_url word took out.result.manifest_version out.warnings x w2 in
      let no_error : x ≡ none = value_of ended in
      (
        out,
        w1,
        subst (λ x. m w ≡ (ok (out, x), w1)) no_error
            (based (is_empty cfg.public_base) m w w1 (out, x) ran no_error),
        ap (λ (y : Result (Option Error) × World o). y.1.remote) (sym ended)
            ∙ ap (λ (y : Result (Unit {0}) × World o). y.1.remote) (sym told ∙ sent)
            ∙ remote
            ∙ ap (λ (y : Result ℕ × World o). y.1.remote) (sym timed),
      )

delivered :
    {o : Outside} (S : IsStore o) (cfg : Config) (c : Client) (word : Text) (w w' : World o)
    → IsPaged o
    → new o cfg ≡ ok c
    → Clear c
    → w.faults ≡ []
    → reported cfg word (weekly cfg) w ≡ (ok none, w')
    → Delivered S cfg c w w'
delivered {o} S cfg c word w w' paged made clear calm e =
    let (out, w1, ran, remote) = reported_lem cfg word (weekly cfg) w w' e in
    let d = weekly-Delivered o S cfg c w w1 out paged made clear calm ran in
    record {
      uploading = d.uploading;
      body = d.body;
      idx = d.idx;
      since = d.since;
      bundle = d.bundle;
      index = d.index;
      passed = d.passed;
      published = (
        ap (object_of S c bundle_name) remote ∙ d.published.0,
        ap (object_of S c index_name) remote ∙ d.published.1,
      );
    }

-- The words for a weekly run.
abbrev pub is_weekly : Command → Bool
is_weekly run = true
is_weekly weekly_run = true
is_weekly _ = false

-- A command for a weekly run that ends without an error, on a host without faults, stands for a
-- publish: what the run has validated is in the object store, in the sense of the weekly run that
-- reports no error, and the report to the webhook has not changed that.
pub dispatch-Delivered :
    (o : Outside) (S : IsStore o) (cfg : Config) (c : Client) (word : Text) (args : List Text)
    (ticks : ℕ) (command : Command) (w w' : World o)
    → is_weekly command ≡ true
    → IsPaged o
    → new o cfg ≡ ok c
    → Clear c
    → w.faults ≡ []
    → dispatch cfg word args ticks command w ≡ (ok none, w')
    → Delivered S cfg c w w'
unfolding dispatch
dispatch-Delivered o S cfg c word args ticks run w w' h paged made clear calm e =
    delivered S cfg c word w w' paged made clear calm e
dispatch-Delivered o S cfg c word args ticks weekly_run w w' h paged made clear calm e =
    delivered S cfg c word w w' paged made clear calm e
dispatch-Delivered o S cfg c word args ticks _ w w' h paged made clear calm e =
    absurd (ground (arith, h))
