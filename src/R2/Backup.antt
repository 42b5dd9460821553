-- ===== src/R2/Backup.antt =====
-- The backups of the database under db-backup/: `UploadDBBackup`, `gzipFile`, `PruneDBBackups`,
-- `LatestDBBackupKey` and `RestoreDBBackup`.
pub mod Pruning
pub mod Restoring
pub mod RoundTrip
pub mod Order
pub mod Kept
pub mod Calm
pub mod Uploading
use vps_sync_gsbs.Base.{
  ℕ, zero, suc, ◌-◌, Bool, true, false, ◌⊎◌, inl, inr, Option, none, some, List, [], ◌∷◌, ◌++◌,
  length, get_elem?, ◌==◌, if◌then◌else◌,
}
use vps_sync_gsbs.Base.Int.{ℤ, pos, pos_part, ◌-ℤ◌, leb_ℤ}
use vps_sync_gsbs.Text.{Text, text, is_empty}
use vps_sync_gsbs.Text.Number.{decimal}
use vps_sync_gsbs.Text.Sort.{sort}
use vps_sync_gsbs.Text.Stamp.{Moment, stamp}
use vps_sync_gsbs.FilePath.{base, dir}
use vps_sync_gsbs.Exec.{
  Kind, no_db_backup, Error, errorf, wrapped, Result, ok, err, panic, Exec, pure, fail, lift, gets,
  attempt, wrap, deferred, ◌>>=◌, ◌>>◌,
}
use vps_sync_gsbs.Outside.{Outside, Page}
use vps_sync_gsbs.World.{
  World, Io, read_file, write_file, stat, remove, rename, mkdir_all, create_temp, sync, close, now,
  request,
}
use vps_sync_gsbs.R2.{Client, acknowledged}

abbrev pub backup_prefix : Text
backup_prefix = text "db-backup/"

-- The loop over the contents of a page: a nil key is passed over.
pub append_page : List Text → Page → List Text
append_page keys [] = keys
append_page keys (none ∷ page) = append_page keys page
append_page keys (some k ∷ page) = append_page (keys ++ k ∷ []) page

-- The loop over the pages of a listing.
unfoldable pub collect : Text → List (Result Page) → List Text → Result (List Text)
unfolding append_page
collect context [] keys = ok keys
collect context (ok page ∷ pages) keys = collect context pages (append_page keys page)
collect context (err e ∷ pages) keys = err (wrapped context e)
collect context (panic t ∷ pages) keys = panic t

-- `for i := 0; i < n; i++ { … keys[i] … }`: an index behind the end panics.
unfoldable pub first_keys : ℕ → List Text → List Text → Result (List Text)
first_keys zero keys objs = ok objs
first_keys (suc n) [] objs = panic (text "runtime error: index out of range")
first_keys (suc n) (k ∷ keys) objs = first_keys n keys (objs ++ k ∷ [])

abbrev pub ErrNoDBBackup : Error
ErrNoDBBackup = record { message = text "no DB backup found under db-backup/"; kind = no_db_backup }

-- `keys[i]`
at_index : List Text → ℕ → Result Text
at_index keys i = elim (get_elem? keys i) [
  | none ↦ panic (text "runtime error: index out of range")
  | some k ↦ ok k
]

-- The key of a backup taken at a moment.
unfoldable pub backup_key : Moment → Text
backup_key t = text "db-backup/gsbs-" ++ (stamp t ++ text ".db.gz")

module _ {o : Outside} where
  -- The keys under db-backup/.
  backup_keys : Client → Io o (List Text)
  unfolding collect
  backup_keys c = do
    pages ← gets (λ w. o.list_objects c.bucket backup_prefix w.remote)
    lift (collect (text "list db backups") pages [])

  -- What `PruneDBBackups` does behind the sort.
  delete_oldest : Client → List Text → ℤ → Io o ℕ
  delete_oldest c keys keep = if leb_ℤ (pos (length keys)) keep then pure 0 else do
    let prune = pos_part (pos (length keys) -ℤ keep)
    objs ← lift (first_keys prune keys [])
    answer ← request (o.delete_objects c.bucket objs)
    acknowledged answer
    pure prune

  -- `PruneDBBackups`
  unfoldable pub prune_db_backups : Client → ℤ → Io o ℕ
  unfolding backup_keys delete_oldest first_keys
  prune_db_backups c keep = do listed ← backup_keys c; delete_oldest c (sort listed) keep

  -- `LatestDBBackupKey`
  unfoldable pub latest_db_backup_key : Client → Io o Text
  unfolding backup_keys at_index
  latest_db_backup_key c = do
    keys ← backup_keys c
    if length keys == 0 then fail ErrNoDBBackup else lift (at_index (sort keys) (length keys - 1))

  -- `os.Remove` with its error dropped.
  abbrev pub discard : Text → World o → World o
  discard p w = (remove p w).1

  give_up_on : Text → Error → Io o (Unit {0})
  give_up_on dst e = do attempt (remove dst); fail e

  -- `gzipFile`: the copy and the flush of the compressor may fail, and then the file is removed.
  unfoldable pub gzip_file : Text → Text → Io o (Unit {0})
  unfolding give_up_on
  gzip_file src dst = do
    t ← read_file src
    write_file dst []
    copied ← attempt (write_file dst (o.gzip t))
    elim copied [
      | inr e ↦ give_up_on dst e
      | inl _ ↦ do
        flushed ← attempt (close dst)
        elim flushed [ inr e ↦ give_up_on dst e | inl _ ↦ close dst ]
    ]

  -- `UploadDBBackup`
  unfoldable pub upload_db_backup : Client → Text → Io o (Text × ℕ)
  unfolding gzip_file
  upload_db_backup c snap = do
    let gz = snap ++ text ".gz"
    wrap (text "compress snapshot") (gzip_file snap gz)
    deferred (discard gz) (do
      body ← read_file gz
      size ← stat gz
      t ← now
      let k = backup_key t
      wrap (text "upload " ++ k) (do
        answer ← request (
            o.put_object (record {
              bucket = c.bucket;
              key = k;
              body = body;
              content_type = text "application/gzip";
              cache_control = text "private, max-age=0";
            }))
        acknowledged answer)
      pure (k, size))

  -- The reader's error, once all that it gave is written.
  ends_well : Option Error → Io o (Unit {0})
  ends_well none = pure tt
  ends_well (some e) = fail e

  -- What stands behind the creation of the temporary file.
  install : Text → Text → Text → Text → Io o (Text × ℕ)
  unfolding ends_well
  install k body tmp dest = do
    wrap (text "open " ++ (k ++ text " as gzip")) (ends_well (o.gunzip_header body))
    let (t, cut_short) = o.gunzip body
    wrap (text "decompress " ++ k) (do write_file tmp t; ends_well cut_short)
    sync tmp
    close tmp
    wrap (text "install restored db") (rename tmp dest)
    pure (k, length t)

  -- `RestoreDBBackup`
  unfoldable pub restore_db_backup : Client → Text → Text → Io o (Text × ℕ)
  unfolding latest_db_backup_key install
  restore_db_backup c key dest = do
    k ← if is_empty key then latest_db_backup_key c else pure key
    body ← wrap (text "download " ++ k) (do answer ← request (o.get_object c.bucket k); lift answer)
    mkdir_all (dir dest)
    tmp ← create_temp (dir dest) (base dest ++ text ".restore-") []
    deferred (discard tmp) (install k body tmp dest)
