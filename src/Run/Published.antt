-- ===== src/Run/Published.antt =====
-- What a weekly run publishes stays published behind the backup and the prunings.
use vps_sync_gsbs.Base.{false, ◌≡◌, sym, subst, ◌∙◌, none, some, List, arith, if◌then◌else◌}
use vps_sync_gsbs.Base.Int.{ℤ}
use vps_sync_gsbs.Text.{Text, text}
use vps_sync_gsbs.Text.Strings.{has_prefix}
use vps_sync_gsbs.FilePath.{join}
use vps_sync_gsbs.Exec.{ok, pure, ◌>>=◌}
use vps_sync_gsbs.Exec.Triple.{
  Triple, Triple-bind, Triple-pure, Triple-fail, Triple-wrap, Triple-weaken, Triple-if, Triple-fact,
  Triple-known, Triple-both, Keeps, Keeps-lift,
}
use vps_sync_gsbs.Outside.{Outside}
use vps_sync_gsbs.Outside.Laws.{IsStore, IsPaged}
use vps_sync_gsbs.World.{Files, World, Io}
use vps_sync_gsbs.World.Laws.{Of}
use vps_sync_gsbs.Config.{Config}
use vps_sync_gsbs.Fetch.Guarded.{tried}
use vps_sync_gsbs.Publish.Export.{Exported}
use vps_sync_gsbs.R2.{Client, new, key}
use vps_sync_gsbs.R2.Kept.{Holds}
use vps_sync_gsbs.R2.Live.{Uploaded, upload_live, bundle_name, index_name}
use vps_sync_gsbs.R2.Live.Stored.{object_of, Ends, upload_live_lem}
use vps_sync_gsbs.R2.Backup.{backup_prefix}
use vps_sync_gsbs.R2.Backup.Kept.{upload_db_backup-Kept, prune_db_backups-Kept}
use vps_sync_gsbs.R2.Prune.{archive_prefix}
use vps_sync_gsbs.R2.Prune.Kept.{prune_archives-Kept}
use vps_sync_gsbs.Run.{
  Outcome, step, returned, or_warn, upload_step, backup_step, cleanup_step, upload_and_prune,
}
use vps_sync_gsbs.Run.Succeeds.{
  Succeeds, Whatever, before, or_return_lem, or_warn_lem, returned_lem,
}

-- The published artifacts lie outside db-backup/ and archive/.
pub record Clear (c : Client) : Type 0 where
  pub bundle_backup : has_prefix (key c bundle_name) backup_prefix ≡ false
  pub bundle_archive : has_prefix (key c bundle_name) archive_prefix ≡ false
  pub index_backup : has_prefix (key c index_name) backup_prefix ≡ false
  pub index_archive : has_prefix (key c index_name) archive_prefix ≡ false

-- The bundle and the index in the object store.
abbrev pub Published : {o : Outside} → IsStore o → Client → Text → Text → World o → Type 0
Published S c body idx w =
    (object_of S c bundle_name w.remote ≡ some body)
    × (object_of S c index_name w.remote ≡ some idx)

module _ {o : Outside} (S : IsStore o) (paged : IsPaged o) (cfg : Config) (b k v : Text) where
  backup_step-Kept :
      (snap : Text)
      → has_prefix k backup_prefix ≡ false
      → Keeps (Of o (Holds S b k v)) (backup_step cfg snap)
  unfolding backup_step step
  backup_step-Kept snap ne = Triple-wrap _ _ (
      Triple-bind {R = λ _. Of o (Holds S b k v)} _ _ (Keeps-lift _) (λ c.
        Triple-bind {R = λ _. Of o (Holds S b k v)} _ _ (upload_db_backup-Kept S c b k v ne snap)
          (λ _.
            Triple-bind {R = λ _. Of o (Holds S b k v)} _ _
              (tried o (Holds S b k v) _
                (prune_db_backups-Kept S c b k v ne paged cfg.db_backup_keep))
              (λ _. Triple-pure _ (λ w h. h)))))

  cleanup_step-Kept :
      has_prefix k archive_prefix ≡ false → Keeps (Of o (Holds S b k v)) (cleanup_step cfg)
  unfolding cleanup_step step
  cleanup_step-Kept ne = Triple-wrap _ _ (
      Triple-bind {R = λ _. Of o (Holds S b k v)} _ _ (Keeps-lift _) (λ c.
        Triple-bind {R = λ _. Of o (Holds S b k v)} _ _
          (prune_archives-Kept S c b k v ne paged cfg.r2_keep) (λ pruned. returned_lem pruned.1)))

module _ {o : Outside} (S : IsStore o) (paged : IsPaged o) (cfg : Config) (c : Client)
    (made : new o cfg ≡ ok c) (clear : Clear c) where
  module _ (fs : Files) (body idx : Text) (bundle : fs (join cfg.out_dir bundle_name) ≡ some body)
      (index : fs (join cfg.out_dir index_name) ≡ some idx) where
    -- Both artifacts are kept if each of them is.
    pair_Kept :
        {A : Type 0} (m : Io o A)
        → Keeps (Of o (Holds S c.bucket (key c bundle_name) body)) m
        → Keeps (Of o (Holds S c.bucket (key c index_name) idx)) m
        → Keeps (Published S c body idx) m
    pair_Kept m k k' = Triple-both m k k'

    ended_lem :
        (x : Uploaded)
        → Triple
            (Ends o S c cfg.out_dir fs body idx x)
            (returned x.1)
            (λ _. Published S c body idx)
            (λ _. Whatever)
    ended_lem (keys, none) = Triple-pure tt (λ w h. (h.1, h.2))
    ended_lem (keys, some e) = Triple-fail e (λ w h. tt)

    -- Behind the client: the upload, and its error.
    client_lem :
        (version : ℤ)
        → Triple
            (λ w. w.files ≡ fs)
            (do uploaded ← upload_live c cfg.out_dir version; returned uploaded.1)
            (λ _. Published S c body idx)
            (λ _. Whatever)
    client_lem version =
        Triple-bind _ _
          (Triple-weaken _ (λ w h. h) (λ _ w h. h) (λ _ w h. tt)
            (upload_live_lem o S c cfg.out_dir fs body idx bundle index version))
          ended_lem

    upload_step_lem :
        (res : Exported)
        → Triple
            (λ w. w.files ≡ fs)
            (upload_step cfg res)
            (λ _. Published S c body idx)
            (λ _. Whatever)
    unfolding upload_step step
    upload_step_lem res = Triple-wrap _ _ (
        Triple-bind _ _
          (Triple-weaken _ (λ w h. h) (λ _ w h. h) (λ _ w h. tt) (Triple-known (new o cfg)))
          (λ cl. Triple-fact _ (λ same.
            subst
              (λ cl.
                Triple (λ w. w.files ≡ fs)
                  (do
                    uploaded ← upload_live cl cfg.out_dir res.manifest_version
                    returned uploaded.1)
                  (λ _. Published S c body idx) (λ _. Whatever))
              (ground (arith, sym made ∙ same)) (client_lem res.manifest_version))))

    backup_lem :
        (snap : Text) (ws : List Text)
        → Keeps (Published S c body idx) (
            if cfg.db_backup
            then or_warn (text "db backup failed: ") ws (backup_step cfg snap)
            else pure ws)
    backup_lem snap ws =
        Triple-if cfg.db_backup _ _
          (λ _.
            pair_Kept _
              (or_warn_lem _ _ _ _ (
                backup_step-Kept S paged cfg c.bucket (key c bundle_name) body snap
                  clear.bundle_backup))
              (or_warn_lem _ _ _ _ (
                backup_step-Kept S paged cfg c.bucket (key c index_name) idx snap
                  clear.index_backup)))
          (λ _. Triple-pure _ (λ w h. h))

    pub upload_and_prune_lem :
        (snap : Text) (out : Outcome)
        → Triple
            (λ w. w.files ≡ fs)
            (upload_and_prune cfg snap out)
            (Succeeds (Published S c body idx))
            (λ _. Whatever)
    unfolding upload_and_prune
    upload_and_prune_lem snap out = or_return_lem out _ _ (upload_step_lem out.result) (λ _.
        Triple-bind _ _ (before _ (backup_lem snap out.warnings)) (λ ws.
          Triple-if cfg.r2_cleanup _ _
            (λ _.
              or_return_lem {R = λ _. Published S c body idx} _ _ _
                (before _ (
                  pair_Kept _
                    (cleanup_step-Kept S paged cfg c.bucket (key c bundle_name) body
                      clear.bundle_archive)
                    (cleanup_step-Kept S paged cfg c.bucket (key c index_name) idx
                      clear.index_archive)))
                (λ _. Triple-pure _ (λ w h. h)))
            (λ _. Triple-pure _ (λ w h. h))))
