-- ===== src/R2/Backup/Calm.antt =====
-- A restoration uses up no more than the faults that are pending.
use vps_sync_gsbs.Base.{◌≡◌, Option, none, some, [], ◌++◌, length, ◌==◌}
use vps_sync_gsbs.Text.{Text, text}
use vps_sync_gsbs.FilePath.{dir, base}
use vps_sync_gsbs.Exec.{Error, deferred, ◌>>=◌, ◌>>◌}
use vps_sync_gsbs.Exec.Triple.{
  Triple-bind, Triple-fail, Triple-gets, Triple-wrap, Triple-weaken, Triple-if, Keeps, Keeps-lift,
}
use vps_sync_gsbs.Outside.{Outside}
use vps_sync_gsbs.World.{World, Io, mkdir_all, create_temp, request}
use vps_sync_gsbs.World.Apart.{Since-self, Apart, apart, Apart-bind, Apart-deferred, Apart-remove}
use vps_sync_gsbs.R2.{Client}
use vps_sync_gsbs.R2.Backup.{
  backup_keys, latest_db_backup_key, ends_well, install, discard, restore_db_backup,
}

module _ {o : Outside} where
  -- No call to the operating system is about to fail.
  abbrev pub Calm : World o → Type 0
  Calm w = w.faults ≡ []

  pub Apart-Calm : {A : Type 0} (m : Io o A) → Apart m → Keeps Calm m
  Apart-Calm m k = record {
    at = λ w h.
        (Triple-weaken _ (λ s e. e) (λ _ s since. since.calm h) (λ _ s since. since.calm h)
            (k.keeps w)).at
          w (Since-self w);
  }

  keys-Calm : (c : Client) → Keeps Calm (backup_keys {o = o} c)
  unfolding backup_keys
  keys-Calm c = Triple-bind _ _ (Triple-gets _ (λ w h. h)) (λ pages. Keeps-lift _)

  latest-Calm : (c : Client) → Keeps Calm (latest_db_backup_key {o = o} c)
  unfolding latest_db_backup_key
  latest-Calm c =
      Triple-bind _ _ (keys-Calm c) (λ keys.
        Triple-if (length keys == 0) _ _ (λ _. Triple-fail _ (λ w h. h)) (λ _. Keeps-lift _))

  ends_well-Apart : (e : Option Error) → Apart {o = o} (ends_well e)
  unfolding ends_well
  ends_well-Apart none = search apart
  ends_well-Apart (some e) = search apart

  install-Apart : (k body tmp dest : Text) → Apart {o = o} (install k body tmp dest)
  unfolding install
  install-Apart k body tmp dest = search (apart, ends_well-Apart) depth 12

  -- The end of a restoration, behind the download.
  placed-Apart :
      (k body dest : Text)
      → Apart {o = o} (do
        mkdir_all (dir dest)
        tmp ← create_temp (dir dest) (base dest ++ text ".restore-") []
        deferred (discard tmp) (install k body tmp dest))
  placed-Apart k body dest = Apart-bind _ _ (search apart) (λ _.
      Apart-bind _ _ (search apart)
        (λ tmp. Apart-deferred _ _ (Apart-remove tmp) (install-Apart k body tmp dest)))

  request-Calm : {A : Type 0} (call : o.Remote → A × o.Remote) → Keeps Calm (request {o = o} call)
  unfolding request
  request-Calm call = record { at = λ w h. h }

  pub restore-Calm : (c : Client) (dest : Text) → Keeps Calm (restore_db_backup {o = o} c [] dest)
  unfolding restore_db_backup
  restore-Calm c dest = Triple-bind _ _ (latest-Calm c) (λ k.
      Triple-bind _ _
        (Triple-wrap _ _ (Triple-bind _ _ (request-Calm _) (λ answer. Keeps-lift answer)))
        (λ body. Apart-Calm _ (placed-Apart k body dest)))
