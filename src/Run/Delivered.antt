-- ===== src/Run/Delivered.antt =====
-- What a weekly run that reports no error has delivered.
use vps_sync_gsbs.Base.{◌≡◌, refl, sym, ap, subst, ◌∙◌, none, some, List, []}
use vps_sync_gsbs.Text.{Text}
use vps_sync_gsbs.FilePath.{join}
use vps_sync_gsbs.Exec.{Result, ok, err, panic, attempt}
use vps_sync_gsbs.Exec.Triple.{
  Triple, Triple-bind, Triple-pure, Triple-wrap, Triple-weaken, Triple-both, Triple-deferred,
  Triple-value, Keeps, Keeps-state, Post,
}
use vps_sync_gsbs.Outside.{Outside}
use vps_sync_gsbs.Outside.Laws.{IsStore, IsPaged}
use vps_sync_gsbs.World.{World, stat}
use vps_sync_gsbs.World.Laws.{stat_lem}
use vps_sync_gsbs.World.Apart.{Since, Since-self, Apart, Apart-if, Apart-pure}
use vps_sync_gsbs.Config.{Config}
use vps_sync_gsbs.Fetch.Guarded.{tried}
use vps_sync_gsbs.Snapshot.{cleanup}
use vps_sync_gsbs.Snapshot.Apart.{cleanup-Apart}
use vps_sync_gsbs.Publish.Export.Present.{Present, export_lem}
use vps_sync_gsbs.Validate.Dir.{validate}
use vps_sync_gsbs.Validate.Dir.Passed.{Passed, validate-Passed}
use vps_sync_gsbs.R2.{Client, new}
use vps_sync_gsbs.R2.Live.{bundle_name, index_name}
use vps_sync_gsbs.R2.Live.Stored.{object_of}
use vps_sync_gsbs.Run.Apart.{
  fetch_step-Apart, check_step-Apart, pcgw_step-Apart, snapshot_step-Apart, export_step-Apart,
  or_warn-Apart,
}
use vps_sync_gsbs.Run.{
  Outcome, Answer, step, artifact_sizes, export_step, validate_step, upload_and_prune, publish,
  sync_and_publish, weekly,
}
use vps_sync_gsbs.Run.Succeeds.{Succeeds, Whatever, before, or_return_lem}
use vps_sync_gsbs.Run.Published.{Clear, Published, upload_and_prune_lem}

-- What was validated is what is published.
pub record Delivered {o : Outside} (S : IsStore o) (cfg : Config) (c : Client) (start w : World o)
    : Type 0 where
  pub uploading : World o
  pub body : Text
  pub idx : Text
  pub since : Since start uploading
  pub bundle : uploading.files (join cfg.out_dir bundle_name) ≡ some body
  pub index : uploading.files (join cfg.out_dir index_name) ≡ some idx
  pub passed : Passed cfg.out_dir uploading
  pub published : Published S c body idx w

module _ {o : Outside} (S : IsStore o) (paged : IsPaged o) (cfg : Config) (c : Client)
    (made : new o cfg ≡ ok c) (clear : Clear c) where
  module _ (start : World o) (calm : start.faults ≡ []) where
    -- An export that has returned.
    abbrev AtExport : World o → Type 0
    AtExport w = Since start w × Present o cfg.out_dir w.files

    sizes_lem : Keeps (λ w. Present o cfg.out_dir w.files) (artifact_sizes {o = o} cfg.out_dir)
    unfolding artifact_sizes
    sizes_lem = Triple-bind {R = λ _ w. Present o cfg.out_dir w.files} _ _ (stat_present _) (λ _.
        Triple-bind {R = λ _ w. Present o cfg.out_dir w.files} _ _ (stat_present _) (λ _.
          Triple-bind {R = λ _ w. Present o cfg.out_dir w.files} _ _ (stat_present _)
            (λ _. Triple-pure tt (λ w h. h))))
      where
        stat_present :
            (p : Text) → Keeps (λ w. Present o cfg.out_dir w.files) (attempt (stat {o = o} p))
        stat_present p =
            tried o (λ f r h. Present o cfg.out_dir f) (stat p)
              (Triple-weaken _ (λ w h. h) (λ n w h. h.0) (λ k w h. h.0)
                (stat_lem o (λ f r h. Present o cfg.out_dir f) p))

    present_lem :
        (snap : Text)
        → Triple
            (Whatever {o = o})
            (export_step cfg snap)
            (λ _ w. Present o cfg.out_dir w.files)
            (λ _. Whatever)
    unfolding export_step step
    present_lem snap = Triple-wrap _ _ (
        Triple-bind _ _ (export_lem o cfg.out_dir snap cfg.public_base cfg.gsbs_version) (λ res.
          Triple-bind {R = λ _ w. Present o cfg.out_dir w.files} _ _ (before _ sizes_lem)
            (λ _. Triple-pure res (λ w h. h))))

    export_step_lem :
        (snap : Text) → Triple (Since start) (export_step cfg snap) (λ _. AtExport) (λ _. Whatever)
    export_step_lem snap =
        Triple-weaken _ (λ w h. (h, tt)) (λ _ w h. h) (λ _ w h. tt)
          (Triple-both _ ((export_step-Apart cfg snap).keeps start) (present_lem snap))

    validate_step_lem :
        Triple AtExport
          (validate_step cfg)
          (λ _ w. AtExport w × Passed cfg.out_dir w)
          (λ _. Whatever)
    unfolding validate_step step
    validate_step_lem = Triple-wrap _ _ (record {
      at = λ w h.
          let (same, good) = validate-Passed o cfg.out_dir w (h.0.calm calm) in
          go w h (validate cfg.out_dir w).0 (validate cfg.out_dir w).1 same good;
    })
      where
        go :
            (w : World o)
            → AtExport w
            → (r : Result (Unit {0})) (w' : World o) → w' ≡ w
            → (r ≡ ok tt → Passed cfg.out_dir w)
            → Post (λ _ w. AtExport w × Passed cfg.out_dir w) (λ _. Whatever) r w'
        go w h (ok u) w' same good =
            subst (λ w. AtExport w × Passed cfg.out_dir w) (sym same) (h, good refl)
        go w h (err e) w' same good = tt
        go w h (panic t) w' same good = tt

    -- What the upload starts from is what it publishes.
    delivered_lem :
        (snap : Text) (out : Outcome)
        → Triple
            (λ w. AtExport w × Passed cfg.out_dir w)
            (upload_and_prune cfg snap out)
            (Succeeds (Delivered S cfg c start))
            (λ _. Whatever)
    delivered_lem snap out = record {
      at = λ u ((since, (body, idx, bundle, index)), passed).
          (Triple-weaken _ (λ w h. h)
              (λ answer w. settled u body idx since bundle index passed answer w) (λ _ w h. tt)
              (upload_and_prune_lem S paged cfg c made clear u.files body idx bundle index snap
                out)).at
            u refl;
    }
      where
        settled :
            (u : World o) (body idx : Text)
            → Since start u
            → u.files (join cfg.out_dir bundle_name) ≡ some body
            → u.files (join cfg.out_dir index_name) ≡ some idx
            → Passed cfg.out_dir u
            → (answer : Answer) (w : World o) → Succeeds (Published S c body idx) answer w
            → Succeeds (Delivered S cfg c start) answer w
        settled u body idx since bundle index passed (out, none) w h = record {
          uploading = u;
          body = body;
          idx = idx;
          since = since;
          bundle = bundle;
          index = index;
          passed = passed;
          published = h;
        }
        settled u body idx since bundle index passed (out, some e) w h = tt

    publish_lem :
        (snap : Text) (ws : List Text)
        → Triple
            (Since start)
            (publish cfg snap ws)
            (Succeeds (Delivered S cfg c start))
            (λ _. Whatever)
    unfolding publish
    publish_lem snap ws =
        or_return_lem _ _ _ (export_step_lem snap)
          (λ res. or_return_lem _ _ _ validate_step_lem (λ _. delivered_lem snap _))

    -- The snapshot is removed, however the run ends.
    cleaned :
        (snap : Text) (answer : Answer) (w : World o)
        → Succeeds (Delivered S cfg c start) answer w
        → Succeeds (Delivered S cfg c start) answer (cleanup snap w).1
    cleaned snap (out, some e) w h = tt
    cleaned snap (out, none) w h =
        let since =
          Keeps-state (Since w) (cleanup snap) ((cleanup-Apart snap).keeps w) w (Since-self w) in
        record {
          uploading = h.uploading;
          body = h.body;
          idx = h.idx;
          since = h.since;
          bundle = h.bundle;
          index = h.index;
          passed = h.passed;
          published = (
            ap (object_of S c bundle_name) since.remote ∙ h.published.0,
            ap (object_of S c index_name) since.remote ∙ h.published.1,
          );
        }

    sync_and_publish_lem :
        Triple
          (Since start)
          (sync_and_publish cfg)
          (Succeeds (Delivered S cfg c start))
          (λ _. Whatever)
    unfolding sync_and_publish
    sync_and_publish_lem =
        Triple-bind _ _
          (before _ (
            Apart.keeps
              (Apart-if cfg.run_pcgw_sync _ _ (λ _. or_warn-Apart _ _ _ (pcgw_step-Apart cfg))
                (λ _. Apart-pure []))
              start))
          (λ ws.
            or_return_lem _ _ _ (before _ ((snapshot_step-Apart cfg).keeps start))
              (λ snap. Triple-deferred _ _ (cleaned snap) (λ _ w h. tt) (publish_lem snap ws)))

    weekly_lem :
        Triple (Since start) (weekly cfg) (Succeeds (Delivered S cfg c start)) (λ _. Whatever)
    unfolding weekly
    weekly_lem =
        or_return_lem _ _ _
          (before _ (
            Apart.keeps
              (Apart-if cfg.fetch_prod_db _ _ (λ _. fetch_step-Apart cfg) (λ _. Apart-pure tt))
              start))
          (λ _.
            or_return_lem _ _ _ (before _ ((check_step-Apart cfg).keeps start))
              (λ _. sync_and_publish_lem))

-- A weekly run without faults that reports no error has published what it has validated: there is a
-- state before the upload, with the object store as the run has found it, in which the output
-- directory holds a bundle and an index that have passed the validation, and at the end of the run,
-- behind the backup and the prunings, the object store holds that bundle and that index, whole, under
-- their keys. The keys of the published artifacts lie outside db-backup/ and archive/, and the
-- listings of the object store name what begins with the prefix that was asked for.
pub weekly-Delivered :
    (o : Outside) (S : IsStore o) (cfg : Config) (c : Client) (w w' : World o) (out : Outcome)
    → IsPaged o
    → new o cfg ≡ ok c
    → Clear c
    → w.faults ≡ []
    → weekly cfg w ≡ (ok (out, none), w')
    → Delivered S cfg c w w'
weekly-Delivered o S cfg c w w' out paged made clear calm ran =
    Triple-value (weekly cfg) w (weekly_lem S paged cfg c made clear w calm) (Since-self w) ran
