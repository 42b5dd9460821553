-- ===== src/Run/Warned.antt =====
-- A synchronisation that fails, in a weekly run.
use vps_sync_gsbs.Base.{
  ℕ, suc, Bool, true, false, ◌≡◌, refl, ap, sym, ◌∙◌, inl, none, some, List, [], ◌∷◌, ◌++◌,
  append_assoc, arith, length, if◌then◌else◌,
}
use vps_sync_gsbs.Text.{Text, text}
use vps_sync_gsbs.Exec.{
  Error, Result, ok, err, panic, pure, attempt, deferred, caught, continue, ◌>>=◌, bind_of_ok,
  wrap_of_ok,
}
use vps_sync_gsbs.Outside.{Outside}
use vps_sync_gsbs.World.{World, Io}
use vps_sync_gsbs.World.Calm.{measured, attempt-stat}
use vps_sync_gsbs.Config.{Config, r2_configured}
use vps_sync_gsbs.Snapshot.{cleanup}
use vps_sync_gsbs.R2.{new}
use vps_sync_gsbs.Run.{
  Outcome, Answer, no_result, no_outcome, step, settle, or_return, warned, or_warn, fetch_step,
  sized, check_step, pcgw_step, snapshot_step, export_step, validate_step, upload_step, backup_step,
  cleanup_step, upload_and_prune, publish, sync_and_publish, weekly,
}

-- The outcome with more warnings in front.
abbrev pub warn : List Text → Outcome → Outcome
warn ws out = record out { warnings = ws ++ out.warnings }

abbrev warn_result : List Text → Result Answer → Result Answer
warn_result ws (ok (out, e)) = ok (warn ws out, e)
warn_result ws (err e) = err e
warn_result ws (panic t) = panic t

module _ {o : Outside} where
  -- A run whose outcome has more warnings in front.
  abbrev pub Warns : List Text → Result Answer × World o → Result Answer × World o → Type 0
  Warns ws x y = x ≡ (warn_result ws y.0, y.1)

  module _ (ws : List Text) where
    or_return-Warns :
        {A : Type 0} (out : Outcome) (m : Io o A) (k k' : A → Io o Answer) (w : World o)
        → ((a : A) (w : World o) → Warns ws (k a w) (k' a w))
        → Warns ws (or_return (warn ws out) m k w) (or_return out m k' w)
    unfolding or_return settle attempt pure ◌>>=◌
    or_return-Warns {A} out m k k' w same = go (m w).0 (m w).1
      where
        go :
            (r : Result A) (w : World o)
            → Warns ws
                (continue (caught r) (settle (warn ws out) k) w)
                (continue (caught r) (settle out k') w)
        go (ok a) w = same a w
        go (err e) w = refl
        go (panic t) w = refl

    deferred-Warns :
        (c : World o → World o) (m m' : Io o Answer) (w : World o)
        → Warns ws (m w) (m' w)
        → Warns ws (deferred c m w) (deferred c m' w)
    unfolding deferred
    deferred-Warns c m m' w same = ap (λ (x : Result Answer × World o). (x.0, c x.1)) same

    -- A tried action and what follows it, for more warnings in front.
    or_warn-Warns :
        (context : Text) (us : List Text) (m : Io o (Unit {0})) (f f' : List Text → Io o Answer)
        (w : World o)
        → ((us : List Text) (w : World o) → Warns ws (f (ws ++ us) w) (f' us w))
        → Warns ws ((or_warn context (ws ++ us) m >>= f) w) ((or_warn context us m >>= f') w)
    unfolding or_warn attempt pure ◌>>=◌
    or_warn-Warns context us m f f' w same = go (m w).0 (m w).1
      where
        go :
            (r : Result (Unit {0})) (w : World o)
            → Warns ws
                ((continue (caught r) (λ done. pure (warned context (ws ++ us) done)) >>= f) w)
                ((continue (caught r) (λ done. pure (warned context us done)) >>= f') w)
        go (ok a) w = same us w
        go (err e) w = rw append_assoc (same (us ++ (context ++ e.message) ∷ []) w)
        go (panic t) w = refl

  module _ (ws : List Text) (cfg : Config) (snap : Text) where
    abbrev Cleaned : Bool → Outcome → Io o Answer
    Cleaned b out =
        if b then or_return out (cleanup_step cfg) (λ _. pure (out, none)) else pure (out, none)

    cleaned_up :
        (b : Bool) (out : Outcome) (w : World o)
        → Warns ws (Cleaned b (warn ws out) w) (Cleaned b out w)
    unfolding pure
    cleaned_up true out w =
        or_return-Warns ws out (cleanup_step cfg) (λ _. pure (warn ws out, none))
          (λ _. pure (out, none)) w (λ a w. refl)
    cleaned_up false out w = refl

    abbrev BackedUp : Bool → List Text → Io o (List Text)
    BackedUp b us =
        if b then or_warn (text "db backup failed: ") us (backup_step cfg snap) else pure us

    backed_up :
        (b : Bool) (us : List Text) (f f' : List Text → Io o Answer) (w : World o)
        → ((us : List Text) (w : World o) → Warns ws (f (ws ++ us) w) (f' us w))
        → Warns ws ((BackedUp b (ws ++ us) >>= f) w) ((BackedUp b us >>= f') w)
    unfolding ◌>>=◌ pure
    backed_up true us f f' w same =
        or_warn-Warns ws (text "db backup failed: ") us (backup_step cfg snap) f f' w same
    backed_up false us f f' w same = same us w

    abbrev Rest : Outcome → Io o Answer
    Rest out = BackedUp cfg.db_backup out.warnings >>= λ us.
        Cleaned cfg.r2_cleanup (record out { warnings = us })

    upload_and_prune-Warns :
        (out : Outcome) (w : World o)
        → Warns ws (upload_and_prune cfg snap (warn ws out) w) (upload_and_prune cfg snap out w)
    unfolding upload_and_prune
    upload_and_prune-Warns out w =
        or_return-Warns ws out (upload_step cfg out.result) (λ _. Rest (warn ws out))
          (λ _. Rest out) w
          (λ a w.
            backed_up cfg.db_backup out.warnings _ _ w
              (λ us w. cleaned_up cfg.r2_cleanup (record out { warnings = us }) w))

    publish-Warns :
        (us : List Text) (w : World o)
        → Warns ws (publish cfg snap (ws ++ us) w) (publish cfg snap us w)
    unfolding publish
    publish-Warns us w =
        or_return-Warns ws (record { result = no_result; warnings = us }) (export_step cfg snap)
          (λ res. Checked (warn ws (record { result = res; warnings = us })))
          (λ res. Checked (record { result = res; warnings = us })) w
          (λ res w.
            or_return-Warns ws (record { result = res; warnings = us }) (validate_step cfg)
              (λ _. upload_and_prune cfg snap (warn ws (record { result = res; warnings = us })))
              (λ _. upload_and_prune cfg snap (record { result = res; warnings = us })) w
              (λ a w. upload_and_prune-Warns (record { result = res; warnings = us }) w))
      where
        Checked : Outcome → Io o Answer
        Checked out = or_return out (validate_step cfg) (λ _. upload_and_prune cfg snap out)

-- The settings without the synchronisation.
abbrev pub unsynced : Config → Config
unsynced cfg = record cfg { run_pcgw_sync = false }

publish-unsynced :
    (o : Outside) (cfg : Config) (snap : Text) (us : List Text) (w : World o)
    → publish (unsynced cfg) snap us w ≡ publish cfg snap us w
unfolding publish upload_and_prune export_step validate_step upload_step backup_step cleanup_step
    new r2_configured
publish-unsynced o cfg snap us w = refl

-- The database is there, and is not empty; no call to the operating system fails.
pub record IsReady {o : Outside} (db : Text) (w : World o) : Type 0 where
  pub calm : w.faults ≡ []
  pub first : ℕ
  pub others : Text
  pub there : w.files db ≡ some (first ∷ others)

abbrev pub sync_warning : Error → Text
sync_warning e = text "pcgw sync failed (published existing data): " ++ e.message

-- An action that is tried, and fails.
warned_of :
    {o : Outside} (context : Text) (b : Bool) (m : Io o (Unit {0})) (w w1 : World o) (e : Error)
    → b ≡ true
    → m w ≡ (err e, w1)
    → (if b then or_warn context [] m else pure []) w ≡ (ok ((context ++ e.message) ∷ []), w1)
unfolding or_warn attempt pure ◌>>=◌
warned_of {o} context true m w w1 e on failed =
    ap
      (λ (x : Result (Unit {0}) × World o).
        continue {S = World o} (caught x.0) (λ done w. (ok (warned context [] done), w)) x.1)
      failed
warned_of context false m w w1 e on failed = absurd (ground (arith, on))

sized_lem : {o : Outside} (db : Text) (n : ℕ) (w : World o) → sized db (inl (suc n)) w ≡ (ok tt, w)
unfolding sized pure
sized_lem db n w = ground arith

nothing_done : {o : Outside} {w : World o} → pure {S = World o} (tt {0}) w ≡ (ok tt, w)
unfolding pure
nothing_done = refl

-- An early return that is not taken.
pub passed :
    {o : Outside} {A : Type 0} (out : Outcome) (m : Io o A) (k : A → Io o Answer) (w : World o)
    {w' : World o} {a : A}
    → m w ≡ (ok a, w')
    → or_return out m k w ≡ k a w'
unfolding or_return settle attempt ◌>>=◌
passed {o} {A} out m k w e =
    ap (λ (x : Result A × World o). continue (caught x.0) (settle out k) x.1) e

module _ {o : Outside} (cfg : Config) where
  abbrev Snapshotted : List Text → Io o Answer
  Snapshotted ws =
      or_return (record { result = no_result; warnings = ws }) (snapshot_step cfg)
        (λ snap. deferred (λ w. (cleanup snap w).1) (publish cfg snap ws))

  Snapshotted-Warns :
      (ws us : List Text) (w : World o) → Warns ws (Snapshotted (ws ++ us) w) (Snapshotted us w)
  Snapshotted-Warns ws us w =
      or_return-Warns ws (record { result = no_result; warnings = us }) (snapshot_step cfg)
        (λ snap. deferred (λ w. (cleanup snap w).1) (publish cfg snap (ws ++ us)))
        (λ snap. deferred (λ w. (cleanup snap w).1) (publish cfg snap us)) w
        (λ snap w.
          deferred-Warns ws (λ w. (cleanup snap w).1) (publish cfg snap (ws ++ us))
            (publish cfg snap us) w (publish-Warns ws cfg snap us w))

  unsynced_run : (w : World o) → sync_and_publish (unsynced cfg) w ≡ Snapshotted [] w
  unfolding sync_and_publish publish upload_and_prune export_step validate_step upload_step
      backup_step cleanup_step snapshot_step new r2_configured ◌>>=◌ pure
  unsynced_run w = refl

  failed_run :
      (w w1 : World o) (e : Error)
      → cfg.run_pcgw_sync ≡ true
      → pcgw_step cfg w ≡ (err e, w1)
      → sync_and_publish cfg w ≡ Snapshotted (sync_warning e ∷ []) w1
  unfolding sync_and_publish
  failed_run w w1 e on failed = bind_of_ok _ Snapshotted w (
      warned_of (text "pcgw sync failed (published existing data): ") cfg.run_pcgw_sync
        (pcgw_step cfg) w w1 e on failed)

  check_lem : (w : World o) → IsReady cfg.gsbs_db w → check_step cfg w ≡ (ok tt, w)
  unfolding check_step step
  check_lem w ready = wrap_of_ok _ _ w (
      bind_of_ok _ _ w (attempt-stat cfg.gsbs_db w ready.calm)
      ∙ ap (λ v. sized cfg.gsbs_db (measured cfg.gsbs_db v) w) ready.there
      ∙ sized_lem cfg.gsbs_db (length ready.others) w)

  weekly_lem :
      (w : World o)
      → cfg.fetch_prod_db ≡ false
      → IsReady cfg.gsbs_db w
      → weekly cfg w ≡ sync_and_publish cfg w
  unfolding weekly
  weekly_lem w off ready =
      passed no_outcome _ _ w (unfetched cfg.fetch_prod_db off)
      ∙ passed no_outcome _ _ w (check_lem w ready)
    where
      unfetched : (b : Bool) → b ≡ false → (if b then fetch_step cfg else pure tt) w ≡ (ok tt, w)
      unfetched true e = absurd (ground (arith, e))
      unfetched false e = nothing_done

-- A synchronisation that fails costs the run a warning and nothing else: behind it, the run does and
-- returns what the run without a synchronisation does and returns in the state that the failure
-- left, with the warning in front. Nothing is fetched, and before and after the failure the
-- database is there and not empty, and no call to the operating system is about to fail.
pub weekly-warns :
    (o : Outside) (cfg : Config) (w w1 : World o) (e : Error)
    → cfg.fetch_prod_db ≡ false
    → cfg.run_pcgw_sync ≡ true
    → IsReady cfg.gsbs_db w
    → IsReady cfg.gsbs_db w1
    → pcgw_step cfg w ≡ (err e, w1)
    → Warns (sync_warning e ∷ []) (weekly cfg w) (weekly (unsynced cfg) w1)
weekly-warns o cfg w w1 e off on ready ready1 failed =
    weekly_lem cfg w off ready
    ∙ failed_run cfg w w1 e on failed
    ∙ Snapshotted-Warns cfg (sync_warning e ∷ []) [] w1
    ∙ ap (λ (x : Result Answer × World o). (warn_result (sync_warning e ∷ []) x.0, x.1))
        (sym (unsynced_run cfg w1) ∙ sym (weekly_lem (unsynced cfg) w1 off ready1))
