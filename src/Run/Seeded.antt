-- ===== src/Run/Seeded.antt =====
-- What seeding the database leaves behind.
use vps_sync_gsbs.Base.{
  ℕ, true, false, not, ◌≡◌, refl, ap, ◌⊎◌, inl, inr, Option, none, some, [], ◌∷◌, ◌++◌, arith,
}
use vps_sync_gsbs.Text.{Text, text, text_eq, text_eq_refl, is_empty}
use vps_sync_gsbs.FilePath.{dir, base}
use vps_sync_gsbs.Exec.{Error, Result, ok, err, panic, lift}
use vps_sync_gsbs.Exec.Triple.{
  Triple, Triple-bind, Triple-pure, Triple-fail, Triple-lift, Triple-attempt, Triple-wrap,
  Triple-weaken, Triple-if, Triple-fact, Triple-at, Either, Post,
}
use vps_sync_gsbs.Outside.{Outside}
use vps_sync_gsbs.Outside.Laws.{IsStore}
use vps_sync_gsbs.World.{World}
use vps_sync_gsbs.Config.{Config, r2_configured}
use vps_sync_gsbs.Fetch.Guarded.{Installed, prod_db-Installed}
use vps_sync_gsbs.R2.{Client, new}
use vps_sync_gsbs.R2.Keys.{new-bucket}
use vps_sync_gsbs.R2.Backup.{restore_db_backup}
use vps_sync_gsbs.R2.Backup.Restoring.{restore_db_backup-atomic}
use vps_sync_gsbs.Run.{step, unfound, restore_step, seed_db}

-- No temporary file of a fetch or of a restoration is named like the database.
pub record Apart (db : Text) : Type 0 where
  pub fetching :
      (x y : Text)
      → text_eq (db ++ y) ((dir db ++ (b'/' ∷ text "gsbs-prod-")) ++ (x ++ text ".db")) ≡ false
  pub restoring :
      (x : Text)
      → text_eq ((dir db ++ (b'/' ∷ (base db ++ text ".restore-"))) ++ (x ++ [])) db ≡ false

-- Contents that decompressing an object of the bucket gives, to a clean end.
pub record FromBackup (o : Outside) (S : IsStore o) (cfg : Config) (r : o.Remote) (v : Option Text)
    : Type 0 where
  pub key : Text
  pub body : Text
  pub contents : Text
  pub object : S.object r cfg.r2_bucket key ≡ some body
  pub decompressed : o.gunzip body ≡ (contents, none)
  pub installed : v ≡ some contents

module _ (o : Outside) (S : IsStore o) (cfg : Config) (w : World o) where
  abbrev pub Seeded : World o → Type 0
  Seeded w' =
      ((is_empty cfg.prod_db_src ≡ false) × Installed o cfg.gsbs_db w'.files w'.remote w'.history)
      ⊎ ((is_empty cfg.prod_db_src ≡ true) × FromBackup o S cfg w.remote (w'.files cfg.gsbs_db))

  abbrev pub Unseeded : World o → Type 0
  Unseeded w' = w'.files cfg.gsbs_db ≡ w.files cfg.gsbs_db

  abbrev Start : World o → Type 0
  Start w' = w' ≡ w

  -- The client is for the bucket of the settings.
  new_lem :
      Triple Start
        (lift (new o cfg))
        (λ c w'. (w' ≡ w) × (c.bucket ≡ cfg.r2_bucket))
        (λ _. Unseeded)
  new_lem = Triple-lift (new o cfg) (λ s e. go (new o cfg) refl s e)
    where
      go :
          (x : Result Client)
          → new o cfg ≡ x
          → (s : World o) → s ≡ w
          → Post (λ c w'. (w' ≡ w) × (c.bucket ≡ cfg.r2_bucket)) (λ _. Unseeded) x s
      go (ok c) e s h = (h, new-bucket o cfg c e)
      go (err x) e s h = ap (λ s. s.files cfg.gsbs_db) h
      go (panic t) e s h = ap (λ s. s.files cfg.gsbs_db) h

  module _ (apart : Apart cfg.gsbs_db) (unset : is_empty cfg.prod_db_src ≡ true) where
    abbrev Restored : World o → Type 0
    Restored w' = FromBackup o S cfg w.remote (w'.files cfg.gsbs_db)

    restore_lem :
        (c : Client)
        → c.bucket ≡ cfg.r2_bucket
        → Triple Start (restore_db_backup c [] cfg.gsbs_db) (λ _. Restored) (λ _. Unseeded)
    restore_lem c same =
        Triple-weaken _ (λ s h. h)
          (λ res s (t, n, (body, found, clean), there, others). record {
            key = res.0;
            body = body;
            contents = t;
            object = rw (← same) found;
            decompressed = clean;
            installed = there;
          })
          (λ k s kept. kept cfg.gsbs_db (λ _. text_eq_refl cfg.gsbs_db))
          (Triple-at _ w (restore_db_backup-atomic o S c [] cfg.gsbs_db w apart.restoring))

    unfound_lem :
        (x : Text × ℕ ⊎ Error)
        → Triple
            (Either (λ _. Restored) (λ _. Unseeded) x)
            (unfound cfg.gsbs_db x)
            (λ _. Restored)
            (λ _. Unseeded)
    unfolding unfound
    unfound_lem (inl a) = Triple-pure tt (λ s h. h)
    unfound_lem (inr e) = Triple-fail _ (λ s h. h)

    restore_step_lem : Triple Start (restore_step cfg) (λ _. Seeded) (λ _. Unseeded)
    unfolding restore_step step
    restore_step_lem = Triple-wrap _ _ (
        Triple-bind _ _ new_lem (λ c. Triple-fact _ (λ same.
          Triple-bind _ _ (Triple-attempt _ (restore_lem c same)) (λ x.
            Triple-weaken _ (λ s h. h) (λ a s h. inr (unset, h)) (λ k s h. h) (unfound_lem x)))))

  seed_db_lem : Apart cfg.gsbs_db → Triple Start (seed_db cfg) (λ _. Seeded) (λ _. Unseeded)
  unfolding seed_db step
  seed_db_lem apart =
      Triple-if (not (is_empty cfg.prod_db_src)) _ _
        (λ given. Triple-wrap _ _ (
          Triple-weaken _ (λ s h. h) (λ a s h. inl (ground (arith, given), h)) (λ k s h. h.0)
            (Triple-at _ w (prod_db-Installed o cfg.prod_db_src cfg.gsbs_db w apart.fetching))))
        (λ missing.
          Triple-if (not (r2_configured cfg)) _ _
            (λ _. Triple-fail _ (λ s h. ap (λ s. s.files cfg.gsbs_db) h))
            (λ _. restore_step_lem apart (ground (arith, missing))))

-- Seeding that returns has installed contents that passed the check of `sqlite3`, if a source is
-- set, and otherwise what decompressing an object of the bucket gives, to a clean end. However else
-- it ends, the database's path holds what it held before. No temporary file is named like the
-- database.
pub seed_db-Seeded :
    (o : Outside) (S : IsStore o) (cfg : Config) (w : World o)
    → Apart cfg.gsbs_db
    → Post (λ _. Seeded o S cfg w) (λ _. Unseeded o S cfg w) (seed_db cfg w).0 (seed_db cfg w).1
seed_db-Seeded o S cfg w apart = (seed_db_lem o S cfg w apart).at w refl
