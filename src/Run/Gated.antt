-- ===== src/Run/Gated.antt =====
-- What reaches the object store in a weekly run, and when.
use vps_sync_gsbs.Base.{◌≡◌, refl, sym, ap, subst, ◌∙◌, ◌⊎◌, inl, inr, List, []}
use vps_sync_gsbs.Text.{Text}
use vps_sync_gsbs.Exec.{Error, Result, ok, deferred}
use vps_sync_gsbs.Exec.Triple.{
  Triple, Triple-bind, Triple-pure, Triple-attempt, Triple-weaken, Triple-deferred, Triple-trace,
  Triple-self, Triple-left, Keeps-state, Either, wrap_ok, Outcomes,
}
use vps_sync_gsbs.Outside.{Outside}
use vps_sync_gsbs.World.{World, Io}
use vps_sync_gsbs.World.Apart.{Since, Since-self, Apart, Apart-if, Apart-pure}
use vps_sync_gsbs.Config.{Config}
use vps_sync_gsbs.Snapshot.{cleanup}
use vps_sync_gsbs.Snapshot.Apart.{cleanup-Apart}
use vps_sync_gsbs.Publish.Export.{Exported}
use vps_sync_gsbs.Validate.Dir.{validate}
use vps_sync_gsbs.Validate.Dir.Passed.{Passed, validate-Passed}
use vps_sync_gsbs.Run.Apart.{
  fetch_step-Apart, check_step-Apart, pcgw_step-Apart, snapshot_step-Apart, export_step-Apart,
  validate_step-Apart, or_warn-Apart,
}
use vps_sync_gsbs.Run.{
  Outcome, Answer, no_result, step, settle, or_return, snapshot_step, export_step, validate_step,
  upload_and_prune, publish, sync_and_publish, weekly,
}

module _ {o : Outside} where
  -- An action that may end the function early.
  pub or_return_lem :
      {A : Type 0} {P : World o → Type 0} {R : A → World o → Type 0} {E Q : World o → Type 0}
      (res : Outcome) (m : Io o A) (k : A → Io o Answer)
      → Triple P m R (λ _. E)
      → ((w : World o) → E w → Q w)
      → ((a : A) → Triple (R a) (k a) (λ _. Q) (λ _. Q))
      → Triple P (or_return res m k) (λ _. Q) (λ _. Q)
  unfolding or_return settle
  or_return_lem {A} {R} {E} {Q} res m k km early rest =
      Triple-bind _ _
        (Triple-weaken _ (λ w h. h) (λ x w h. h) (λ e w h. early w h) (Triple-attempt m km)) go
    where
      go : (x : A ⊎ Error) → Triple (Either R (λ _. E) x) (settle res k x) (λ _. Q) (λ _. Q)
      go (inl a) = rest a
      go (inr e) = Triple-pure _ (λ w h. early w h)

  module _ (cfg : Config) (start : World o) where
    -- The object store as it was before the run.
    abbrev Before : World o → Type 0
    Before = Since start

    -- The run has exported, and what it exported has passed the validation; behind that come the
    -- upload, the backup and the pruning, which leave `w`.
    pub record Validated (snap : Text) (w : World o) : Type 0 where
      pub res : Exported
      pub ws : List Text
      pub exporting : World o
      pub validating : World o
      pub uploading : World o
      pub exported : export_step cfg snap exporting ≡ (ok res, validating)
      pub validated : validate cfg.out_dir validating ≡ (ok tt, uploading)
      pub store : Before uploading
      pub before : Before validating
      pub left :
          w ≡ (upload_and_prune cfg snap (record { result = res; warnings = ws }) uploading).1

    abbrev pub AfterValidation : World o → Type 0
    AfterValidation w =
        (snap : Text) × (w' : World o) × Validated snap w' × (w ≡ (cleanup snap w').1)

    abbrev Gated : World o → Type 0
    Gated w = Before w ⊎ AfterValidation w

    module _ (snap : Text) (ws : List Text) where
      abbrev Behind : World o → Type 0
      Behind w = Before w ⊎ Validated snap w

      -- The world in which the export ended.
      abbrev AtExport : Exported → World o → Type 0
      AtExport res w = Before w × Outcomes Before (export_step cfg snap) res w

      after_validation :
          (res : Exported)
          → Triple
              (λ w. Before w × Outcomes (AtExport res) (validate_step cfg) tt w)
              (upload_and_prune cfg snap (record { result = res; warnings = ws }))
              (λ _. Behind)
              (λ _. Behind)
      unfolding validate_step step
      after_validation res =
          Triple-self _ (λ w (before, (v, (seen, (u, begun, exported)), checked)). inr (record {
            res = res;
            ws = ws;
            exporting = u;
            validating = v;
            uploading = w;
            exported = exported;
            validated = wrap_ok _ _ _ _ _ checked;
            store = before;
            before = seen;
            left = refl;
          }))

      publish_lem : Triple Before (publish cfg snap ws) (λ _. Behind) (λ _. Behind)
      unfolding publish
      publish_lem =
          or_return_lem _ _ _ (Triple-trace _ ((export_step-Apart cfg snap).keeps start))
            (λ w before. inl before)
            (λ res.
              or_return_lem _ _ _
                (Triple-trace _ (
                  Triple-weaken _ (λ w k. k.0) (λ _ w k. k) (λ _ w k. k)
                    ((validate_step-Apart cfg).keeps start)))
                (λ w before. inl before) (λ _. after_validation res))

    snapshot_lem :
        (ws : List Text)
        → Triple Before
            (or_return
              (record { result = no_result; warnings = ws })
              (snapshot_step cfg)
              (λ snap. deferred (λ w. (cleanup snap w).1) (publish cfg snap ws)))
            (λ _. Gated)
            (λ _. Gated)
    snapshot_lem ws =
        or_return_lem _ _ _ ((snapshot_step-Apart cfg).keeps start) (λ w before. inl before)
          (λ snap. Triple-deferred _ _ (λ _. moved snap) (λ _. moved snap) (publish_lem snap ws))
      where
        moved : (snap : Text) (w : World o) → Behind snap [] w → Gated (cleanup snap w).1
        moved snap w (inl before) =
            inl (Keeps-state Before (cleanup snap) ((cleanup-Apart snap).keeps start) w before)
        moved snap w (inr done) = inr (snap, w, done, refl)

    sync_and_publish_lem : Triple Before (sync_and_publish cfg) (λ _. Gated) (λ _. Gated)
    unfolding sync_and_publish
    sync_and_publish_lem =
        Triple-bind _ _
          (Triple-weaken _ (λ w k. k) (λ _ w k. k) (λ _ w k. inl k)
            (Apart.keeps
              (Apart-if cfg.run_pcgw_sync _ _ (λ _. or_warn-Apart _ _ _ (pcgw_step-Apart cfg))
                (λ _. Apart-pure []))
              start))
          snapshot_lem

    weekly_lem : Triple Before (weekly cfg) (λ _. Gated) (λ _. Gated)
    unfolding weekly
    weekly_lem =
        or_return_lem _ _ _
          (Apart.keeps
            (Apart-if cfg.fetch_prod_db _ _ (λ _. fetch_step-Apart cfg) (λ _. Apart-pure tt)) start)
          (λ w before. inl before)
          (λ _.
            or_return_lem _ _ _ ((check_step-Apart cfg).keeps start) (λ w before. inl before)
              (λ _. sync_and_publish_lem))

-- A weekly run, however it ends, has left the object store alone, or else it has exported, what it
-- exported has passed the validation, with the object store as it was until then, and the state that
-- the run leaves comes from the upload of what passed, and what follows it, by the removal of the
-- snapshot.
pub weekly-gated :
    (o : Outside) (cfg : Config) (w : World o)
    → let w' = (weekly cfg w).1 in Since w w' ⊎ AfterValidation cfg w w'
weekly-gated o cfg w = Triple-left (weekly cfg) w (weekly_lem cfg w) (Since-self w)

-- What a run without faults has uploaded.
pub record Sound {o : Outside} (cfg : Config) (start : World o) (snap : Text) (w : World o)
    : Type 0 where
  pub uploading : World o
  pub out : Outcome
  pub since : Since start uploading
  pub calm : uploading.faults ≡ []
  pub passed : Passed cfg.out_dir uploading
  pub left : w ≡ (upload_and_prune cfg snap out uploading).1

module _ {o : Outside} (cfg : Config) (start : World o) (calm : start.faults ≡ []) where
  sound : (snap : Text) (w : World o) → Validated cfg start snap w → Sound cfg start snap w
  sound snap w v =
      let (unchanged, good) = validate-Passed o cfg.out_dir v.validating (v.before.calm calm) in
      let same : v.validating ≡ v.uploading =
        sym unchanged ∙ ap (λ (x : Result (Unit {0}) × World o). x.1) v.validated in
      record {
        uploading = v.uploading;
        out = record { result = v.res; warnings = v.ws };
        since = v.store;
        calm = v.store.calm calm;
        passed =
            subst (Passed cfg.out_dir) same
              (good (ap (λ (x : Result (Unit {0}) × World o). x.0) v.validated));
        left = v.left;
      }

-- A weekly run without faults, however it ends, has left the object store alone, or else it has
-- uploaded from a directory that holds neither an index nor a bundle, or a parsed index that fits
-- its bundle, which is valid if it is there: until the upload the object store was as it had been,
-- and the state that the run leaves comes from the upload and what follows it, by the removal of the
-- snapshot.
pub weekly-Sound :
    (o : Outside) (cfg : Config) (w : World o)
    → w.faults ≡ []
    → let w' = (weekly cfg w).1 in
      Since w w'
      ⊎ ((snap : Text) × (left : World o) × Sound cfg w snap left × (w' ≡ (cleanup snap left).1))
weekly-Sound o cfg w calm = elim (weekly-gated o cfg w) [
  | inl since ↦ inl since
  | inr (snap, left, v, removed) ↦ inr (snap, left, sound cfg w calm snap left v, removed)
]
