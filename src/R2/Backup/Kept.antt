-- ===== src/R2/Backup/Kept.antt =====
-- A backup and the pruning of the backups leave what lies outside db-backup/.
use vps_sync_gsbs.Base.{
  ℕ, zero, suc, false, List, [], ◌∷◌, ◌++◌, ◌≡◌, sym, ap, ◌∙◌, All, arith, length,
}
use vps_sync_gsbs.Base.Int.{ℤ, pos, pos_part, ◌-ℤ◌, leb_ℤ}
use vps_sync_gsbs.Text.{Text, text, text_eq, text_eq-false}
use vps_sync_gsbs.Text.Strings.{has, has_prefix}
use vps_sync_gsbs.Text.Stamp.{Moment}
use vps_sync_gsbs.Text.Sort.{sort, has-sort}
use vps_sync_gsbs.Exec.{Error, Result, ok, err, panic, pure, wrap, ◌>>=◌, ◌>>◌}
use vps_sync_gsbs.Exec.Triple.{
  Triple, Triple-bind, Triple-pure, Triple-weaken, Triple-wrap, Triple-if, Triple-gets, Triple-fact,
  Triple-known, Triple-deferred, Keeps, Keeps-state,
}
use vps_sync_gsbs.Outside.{Outside, Page}
use vps_sync_gsbs.Outside.Laws.{IsStore, IsPaged, Under, page_keys}
use vps_sync_gsbs.World.{World, remove, request}
use vps_sync_gsbs.World.Laws.{Of}
use vps_sync_gsbs.World.Apart.{
  Apart, apart, Apart-cases, Apart-read_file, Apart-stat, Apart-now, Apart-remove, Apart-bind,
  Apart-attempt, Apart-write_file, Apart-close, Apart-wrap,
}
use vps_sync_gsbs.R2.{Client, acknowledged}
use vps_sync_gsbs.R2.Kept.{
  Holds, Kept-Apart, Kept-acknowledged, Kept-put, Kept-deletes, AllUnder, AllUnder-nil,
  AllUnder-has, has-append,
}
use vps_sync_gsbs.R2.Backup.Pruning.{append_page-page_keys}
use vps_sync_gsbs.R2.Backup.{
  backup_prefix, append_page, collect, first_keys, backup_key, backup_keys, delete_oldest,
  prune_db_backups, discard, give_up_on, gzip_file, upload_db_backup,
}

collect-Under :
    (context p : Text) (pages : List (Result Page)) (keys ks : List Text)
    → All (Under p) pages
    → AllUnder p keys
    → collect context pages keys ≡ ok ks
    → AllUnder p ks
unfolding collect
collect-Under context p [] keys ks paged all e = λ k there. all k (ground (arith, e, there))
collect-Under context p (ok page ∷ pages) keys ks (under, paged) all e =
    collect-Under context p pages (append_page keys page) ks paged
      (λ k there. ground (
        arith,
        append_page-page_keys keys page,
        has-append k keys (page_keys page),
        all k,
        under k,
        there,
      ))
      e
collect-Under context p (err x ∷ pages) keys ks paged all e = absurd (ground (arith, e))
collect-Under context p (panic t ∷ pages) keys ks paged all e = absurd (ground (arith, e))

first_keys-Under :
    (p : Text) (n : ℕ) (keys objs ks : List Text)
    → AllUnder p keys
    → AllUnder p objs
    → first_keys n keys objs ≡ ok ks
    → AllUnder p ks
unfolding first_keys has
first_keys-Under p zero keys objs ks all done e = λ k there. done k (ground (arith, e, there))
first_keys-Under p (suc n) [] objs ks all done e = absurd (ground (arith, e))
first_keys-Under p (suc n) (x ∷ keys) objs ks all done e =
    first_keys-Under p n keys (objs ++ x ∷ []) ks (λ k there. all k (ground (arith, there)))
      (λ k there. ground (arith, has-append k objs (x ∷ []), done k, all k, there)) e

module _ {o : Outside} where
  give_up_on-Apart : (dst : Text) (e : Error) → Apart {o = o} (give_up_on dst e)
  unfolding give_up_on
  give_up_on-Apart dst e = search apart

  gzip_file-Apart : (src dst : Text) → Apart {o = o} (gzip_file src dst)
  unfolding gzip_file
  gzip_file-Apart src dst = Apart-bind _ _ (Apart-read_file src) (λ t.
      Apart-bind _ _ (Apart-write_file dst []) (λ _.
        Apart-bind _ _ (Apart-attempt _ (Apart-write_file dst (o.gzip t))) (
          Apart-cases _ _
            (λ _.
              Apart-bind _ _ (Apart-attempt _ (Apart-close dst))
                (Apart-cases _ _ (λ _. Apart-close dst) (give_up_on-Apart dst)))
            (give_up_on-Apart dst))))

-- A backup's key lies under db-backup/.
backup_key-under :
    (at : Moment) (k : Text)
    → has_prefix k backup_prefix ≡ false
    → text_eq k (backup_key at) ≡ false
unfolding backup_key text has_prefix
backup_key-under at k ne =
    text_eq-false k _ (λ e. ground (arith, sym (ap (λ k. has_prefix k (text "db-backup/")) e) ∙ ne))

module _ {o : Outside} (S : IsStore o) (c : Client) (b k v : Text)
    (ne : has_prefix k backup_prefix ≡ false) where
  send_lem :
      (body : Text) (size : ℕ) (at : Moment)
      → Keeps {A = Text × ℕ} (Of o (Holds S b k v)) (do
        wrap (text "upload " ++ backup_key at) (do
          answer ← request (
              o.put_object (record {
                bucket = c.bucket;
                key = backup_key at;
                body = body;
                content_type = text "application/gzip";
                cache_control = text "private, max-age=0";
              }))
          acknowledged answer)
        pure (backup_key at, size))
  send_lem body size at =
      Triple-bind {R = λ _. Of o (Holds S b k v)} _ _
        (Triple-wrap _ _ (
          Triple-bind {R = λ _. Of o (Holds S b k v)} _ _
            (Kept-put S b k v _ (backup_key-under at k ne)) (Kept-acknowledged S b k v)))
        (λ _. Triple-pure _ (λ w h. h))

  pub upload_db_backup-Kept : (snap : Text) → Keeps (Of o (Holds S b k v)) (upload_db_backup c snap)
  unfolding upload_db_backup
  upload_db_backup-Kept snap =
      Triple-bind {R = λ _. Of o (Holds S b k v)} _ _
        (Kept-Apart S b k v _ (Apart-wrap _ _ (gzip_file-Apart _ _)))
        (λ _.
          Triple-deferred _ _ (λ _. discarded) (λ _. discarded)
            (Triple-bind {R = λ _. Of o (Holds S b k v)} _ _
              (Kept-Apart S b k v _ (Apart-read_file _))
              (λ body.
                Triple-bind {R = λ _. Of o (Holds S b k v)} _ _
                  (Kept-Apart S b k v _ (Apart-stat _))
                  (λ size.
                    Triple-bind {R = λ _. Of o (Holds S b k v)} _ _ (Kept-Apart S b k v _ Apart-now)
                      (send_lem body size)))))
    where
      discarded :
          (w : World o)
          → Of o (Holds S b k v) w
          → Of o (Holds S b k v) (discard (snap ++ text ".gz") w)
      discarded =
          Keeps-state (Of o (Holds S b k v)) (remove (snap ++ text ".gz"))
            (Kept-Apart S b k v _ (Apart-remove _))

  module _ (paged : IsPaged o) where
    backup_keys_lem :
        Triple
          (Of o (Holds S b k v))
          (backup_keys c)
          (λ ks w. Of o (Holds S b k v) w × AllUnder backup_prefix ks)
          (λ _. Of o (Holds S b k v))
    unfolding backup_keys
    backup_keys_lem =
        Triple-bind {R = λ pages w. Of o (Holds S b k v) w × All (Under backup_prefix) pages} _ _
          (Triple-gets _ (λ w h. (h, paged.objects c.bucket backup_prefix w.remote)))
          (λ pages. Triple-fact _ (λ under.
            Triple-weaken _ (λ w h. h)
              (λ ks w h. (
                h.0,
                collect-Under (text "list db backups") backup_prefix pages [] ks under
                    (AllUnder-nil backup_prefix) h.1,
              ))
              (λ _ w h. h) (Triple-known (collect (text "list db backups") pages []))))

    delete_oldest_lem :
        (ks : List Text) (keep : ℤ)
        → AllUnder backup_prefix ks
        → Keeps (Of o (Holds S b k v)) (delete_oldest c ks keep)
    unfolding delete_oldest
    delete_oldest_lem ks keep all =
        Triple-if (leb_ℤ (pos (length ks)) keep) _ _ (λ _. Triple-pure _ (λ w h. h))
          (λ _.
            Triple-bind _ _
              (Triple-known {P = Of o (Holds S b k v)}
                (first_keys (pos_part (pos (length ks) -ℤ keep)) ks []))
              (λ objs. Triple-fact _ (λ first.
                Triple-bind {R = λ _. Of o (Holds S b k v)} _ _
                  (Kept-deletes S b k v c.bucket objs (
                    AllUnder-has backup_prefix objs k
                      (first_keys-Under backup_prefix _ ks [] objs all (AllUnder-nil backup_prefix)
                        first)
                      ne))
                  (λ answer.
                    Triple-bind {R = λ _. Of o (Holds S b k v)} _ _
                      (Kept-acknowledged S b k v answer) (λ _. Triple-pure _ (λ w h. h))))))

    pub prune_db_backups-Kept : (keep : ℤ) → Keeps (Of o (Holds S b k v)) (prune_db_backups c keep)
    unfolding prune_db_backups
    prune_db_backups-Kept keep = Triple-bind _ _ backup_keys_lem (λ listed. Triple-fact _ (λ all.
        delete_oldest_lem (sort listed) keep (λ k there. all k (sym (has-sort k listed) ∙ there))))
