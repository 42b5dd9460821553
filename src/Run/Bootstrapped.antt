-- ===== src/Run/Bootstrapped.antt =====
-- What a first run leaves, `Bootstrap`.
use vps_sync_gsbs.Base.{
  not, ◌≡◌, ◌≢◌, refl, sym, ap, subst, ◌∙◌, ◌⊎◌, inl, inr, Option, none, some, [], arith, ℕ,
}
use vps_sync_gsbs.Text.{Text, is_empty}
use vps_sync_gsbs.Exec.{Error, Result, ok, pure, attempt, bind_of_ok, bind-ok}
use vps_sync_gsbs.Exec.Triple.{
  Triple-bind, Triple-fail, Triple-pure, Triple-wrap, Triple-weaken, Triple-if, Triple-attempt,
  Keeps, Keeps-state, Keeps-lift, Either, Post, attempt_ok,
}
use vps_sync_gsbs.Outside.{Outside}
use vps_sync_gsbs.Outside.Laws.{IsStore, IsPaged}
use vps_sync_gsbs.World.{World, Io}
use vps_sync_gsbs.World.Calm.{measured, attempt-stat}
use vps_sync_gsbs.World.Apart.{apart}
use vps_sync_gsbs.Config.{Config, r2_configured}
use vps_sync_gsbs.Fetch.Apart.{prod_db-Apart}
use vps_sync_gsbs.R2.{Client, new}
use vps_sync_gsbs.R2.Backup.Calm.{Calm, Apart-Calm, restore-Calm}
use vps_sync_gsbs.R2.Backup.RoundTrip.{value_of}
use vps_sync_gsbs.Run.Published.{Clear}
use vps_sync_gsbs.Run.Delivered.{Delivered, weekly-Delivered}
use vps_sync_gsbs.Run
use vps_sync_gsbs.Run.Seeded.{Seeded, seed_db-Seeded}
use vps_sync_gsbs.Run.{
  Outcome, Answer, no_outcome, step, settle, or_return, unfound, restore_step, seed_db, seeded,
  seed_if_missing, weekly, bootstrap,
}

module _ {o : Outside} where
  Either-Calm :
      {A : Type 0} (x : A ⊎ Error) (w : World o) → Either (λ _. Calm) (λ _. Calm) x w → Calm w
  Either-Calm (inl a) w h = h
  Either-Calm (inr e) w h = h

  tried-Calm : {A : Type 0} (m : Io o A) → Keeps Calm m → Keeps Calm (attempt m)
  tried-Calm m k = Triple-weaken _ (λ w h. h) Either-Calm (λ e w h. h) (Triple-attempt m k)

  unfound-Calm : (db : Text) (x : Text × ℕ ⊎ Error) → Keeps Calm (unfound {o = o} db x)
  unfolding unfound
  unfound-Calm db (inl a) = Triple-pure tt (λ w h. h)
  unfound-Calm db (inr e) = Triple-fail _ (λ w h. h)

  seed-Calm : (cfg : Config) → Keeps Calm (seed_db {o = o} cfg)
  unfolding seed_db restore_step step
  seed-Calm cfg =
      Triple-if (not (is_empty cfg.prod_db_src)) _ _
        (λ _. Apart-Calm _ (search (apart, prod_db-Apart)))
        (λ _.
          Triple-if (not (r2_configured cfg)) _ _ (λ _. Triple-fail _ (λ w h. h))
            (λ _. Triple-wrap _ _ (
              Triple-bind _ _ (Keeps-lift (new o cfg)) (λ c.
                Triple-bind _ _ (tried-Calm _ (restore-Calm c cfg.gsbs_db))
                  (λ found. unfound-Calm cfg.gsbs_db found)))))

-- What the database is before the first run: it was there, and nothing has changed, or it was not, and
-- it has been seeded.
abbrev pub Prepared : {o : Outside} (S : IsStore o) (cfg : Config) (w w0 : World o) → Type 0
Prepared {o} S cfg w w0 =
    ((w.files cfg.gsbs_db ≢ none) × (w0 ≡ w)) ⊎ ((w.files cfg.gsbs_db ≡ none) × Seeded o S cfg w w0)

module _ {o : Outside} (S : IsStore o) (cfg : Config) where
  measured_lem :
      (v : Option Text) (w w0 : World o)
      → w.faults ≡ []
      → Run.Seeded.Apart cfg.gsbs_db
      → seeded cfg (measured cfg.gsbs_db v) w ≡ (ok tt, w0)
      → (((v ≢ none) × (w0 ≡ w)) ⊎ ((v ≡ none) × Seeded o S cfg w w0)) × (w0.faults ≡ [])
  unfolding seeded pure
  measured_lem (some t) w w0 calm distinct e =
      let same : w0 ≡ w = sym (ap (λ (x : Result (Unit {0}) × World o). x.1) e) in
      (inl ((λ h. ground (arith, h)), same), ap (λ w. w.faults) same ∙ calm)
  measured_lem none w w0 calm distinct e = (
    inr (refl, value_lem (seed_db-Seeded o S cfg w distinct)),
    ap (λ (x : Result (Unit {0}) × World o). x.1.faults) (sym e)
        ∙ Keeps-state Calm (seed_db cfg) (seed-Calm cfg) w calm,
  )
    where
      value_lem :
          Post
            (λ _. Seeded o S cfg w)
            (λ _ w'. w'.files cfg.gsbs_db ≡ w.files cfg.gsbs_db)
            (seed_db cfg w).0
            (seed_db cfg w).1
          → Seeded o S cfg w w0
      value_lem =
          subst
            (λ (x : Result (Unit {0}) × World o).
              Post (λ _. Seeded o S cfg w) (λ _ w'. w'.files cfg.gsbs_db ≡ w.files cfg.gsbs_db) x.0
                x.1
              → Seeded o S cfg w w0)
            (sym e) (λ h. h)

  prepared_lem :
      (w w0 : World o)
      → w.faults ≡ []
      → Run.Seeded.Apart cfg.gsbs_db
      → seed_if_missing cfg w ≡ (ok tt, w0)
      → Prepared S cfg w w0 × (w0.faults ≡ [])
  unfolding seed_if_missing
  prepared_lem w w0 calm distinct e =
      measured_lem (w.files cfg.gsbs_db) w w0 calm distinct
        (sym (bind_of_ok _ (seeded cfg) w (attempt-stat cfg.gsbs_db w calm)) ∙ e)

  -- A first run without an error has gone through the seeding, and then through a weekly run.
  ran_lem :
      (w w' : World o) (out : Outcome)
      → bootstrap cfg w ≡ (ok (out, none), w')
      → (w0 : World o) × (seed_if_missing cfg w ≡ (ok tt, w0))
        × (weekly cfg w0 ≡ (ok (out, none), w'))
  unfolding bootstrap or_return settle pure
  ran_lem w w' out e =
      let (done, w0, first, rest) = bind-ok _ _ w w' (out, none) e in go done w0 first rest
    where
      go :
          (done : Unit {0} ⊎ Error) (w0 : World o)
          → attempt (seed_if_missing cfg) w ≡ (ok done, w0)
          → settle no_outcome (λ _. weekly cfg) done w0 ≡ (ok (out, none), w')
          → (w0 : World o) × (seed_if_missing cfg w ≡ (ok tt, w0))
            × (weekly cfg w0 ≡ (ok (out, none), w'))
      go (inl u) w0 first rest = (w0, attempt_ok _ w w0 u first, rest)
      go (inr x) w0 first rest = absurd (ground (arith, ap (λ (a : Answer). a.1) (value_of rest)))

-- A first run without faults that reports no error has found the database in its place and changed
-- nothing before the weekly run, or has found none and seeded it, by contents that passed the check of
-- `sqlite3` or by those of a backup; and from there it has published what it has validated, as a weekly
-- run does. No temporary file is named like the database, the keys of the published artifacts lie
-- outside db-backup/ and archive/, and the listings of the object store name what begins with the
-- prefix that was asked for.
pub bootstrap-Delivered :
    (o : Outside) (S : IsStore o) (cfg : Config) (c : Client) (w w' : World o) (out : Outcome)
    → IsPaged o
    → new o cfg ≡ ok c
    → Clear c
    → Run.Seeded.Apart cfg.gsbs_db
    → w.faults ≡ []
    → bootstrap cfg w ≡ (ok (out, none), w')
    → (w0 : World o) × (seed_if_missing cfg w ≡ (ok tt, w0))
      × Prepared S cfg w w0
      × Delivered S cfg c w0 w'
bootstrap-Delivered o S cfg c w w' out paged made clear distinct calm e =
    let (w0, first, ran) = ran_lem S cfg w w' out e in
    let (prepared, still) = prepared_lem S cfg w w0 calm distinct first in
    (w0, first, prepared, weekly-Delivered o S cfg c w0 w' out paged made clear still ran)
