-- ===== src/R2/Backup/RoundTrip.antt =====
-- A backup and its restoration, on this host or another.
use vps_sync_gsbs.Base.{
  ℕ, Bool, true, false, ◌≡◌, refl, sym, ap, subst, ◌∙◌, Option, none, some, [], ◌∷◌, ◌++◌, arith,
  if◌then◌else◌,
}
use vps_sync_gsbs.Text.{Text, text, text_eq, is_empty}
use vps_sync_gsbs.Text.Stamp.{Moment}
use vps_sync_gsbs.FilePath.{dir, base}
use vps_sync_gsbs.Exec.{
  Error, Result, ok, err, panic, Exec, pure, wrap, deferred, lift, ◌>>=◌, ◌>>◌, bind-ok,
}
use vps_sync_gsbs.Exec.Triple.{Triple-value}
use vps_sync_gsbs.Outside.{Outside}
use vps_sync_gsbs.Outside.Laws.{IsStore}
use vps_sync_gsbs.World.{World, Io, create_temp, mkdir_all, request}
use vps_sync_gsbs.R2.{Client}
use vps_sync_gsbs.R2.Backup.{
  backup_key, latest_db_backup_key, install, discard, upload_db_backup, restore_db_backup,
}
use vps_sync_gsbs.R2.Backup.Uploading.{upload_lem}
use vps_sync_gsbs.R2.Backup.Restoring.{restore_lem}

-- What a block returns is what its end returns.
record Returns {S A : Type 0} (m : Exec S A) (P : A → Type 0) : Type 0 where
  at : (s s' : S) (a : A) → m s ≡ (ok a, s') → P a

pub value_of :
    {S A : Type 0} {a b : A} {s s' : S} → ◌≡◌ {A = Result A × S} (ok a, s) (ok b, s') → a ≡ b
value_of {S} {A} {a} e =
    ap (λ (x : Result A × S). elim x.0 [ ok y ↦ y | err _ ↦ a | panic _ ↦ a ]) e

module _ {S A : Type 0} {P : A → Type 0} where
  Returns-pure : (a : A) → P a → Returns {S = S} (pure a) P
  unfolding pure
  Returns-pure a h = record { at = λ s s' b e. subst P (value_of e) h }

  Returns-bind :
      {B : Type 0} (m : Exec S B) (f : B → Exec S A)
      → ((b : B) → Returns (f b) P)
      → Returns (m >>= f) P
  Returns-bind m f k = record {
    at = λ s s' a e. let (b, s1, first, rest) = bind-ok m f s s' a e in (k b).at s1 s' a rest;
  }

  Returns-deferred : (c : S → S) (m : Exec S A) → Returns m P → Returns (deferred c m) P
  unfolding deferred
  Returns-deferred c m k = record {
    at = λ s s' a e. k.at s (m s).1 a (ap (λ (x : Result A × S). (x.0, (m s).1)) e);
  }

module _ {o : Outside} (c : Client) (dest : Text) where
  install-Returns :
      (k body tmp : Text) → Returns {S = World o} (install k body tmp dest) (λ res. res.0 ≡ k)
  unfolding install
  install-Returns k body tmp =
      search (Returns-bind, Returns-pure {P = λ (res : Text × ℕ). res.0 ≡ k}) depth 8

  -- A restoration behind the choice of the key.
  abbrev Chosen : Text → Io o (Text × ℕ)
  Chosen k = do
    body ← wrap (text "download " ++ k) (do answer ← request (o.get_object c.bucket k); lift answer)
    mkdir_all (dir dest)
    tmp ← create_temp (dir dest) (base dest ++ text ".restore-") []
    deferred (discard tmp) (install k body tmp dest)

  Chosen-Returns : (k : Text) → Returns (Chosen k) (λ res. res.0 ≡ k)
  Chosen-Returns k = Returns-bind _ _ (λ body.
      Returns-bind _ _
        (λ _. Returns-bind _ _ (λ tmp. Returns-deferred _ _ (install-Returns k body tmp))))

  key_given :
      (b : Bool) (key k : Text) (w w1 : World o)
      → b ≡ false
      → (if b then latest_db_backup_key c else pure key) w ≡ (ok k, w1)
      → key ≡ k
  unfolding pure
  key_given true key k w w1 h e = absurd (ground (arith, h))
  key_given false key k w w1 h e = value_of e

  -- A restoration of a key that is given returns that key.
  restore-key :
      (key : Text) (w w' : World o) (res : Text × ℕ)
      → is_empty key ≡ false
      → restore_db_backup c key dest w ≡ (ok res, w')
      → res.0 ≡ key
  unfolding restore_db_backup
  restore-key key w w' res given e =
      let (k, w1, first, rest) = bind-ok _ Chosen w w' res e in
      (Chosen-Returns k).at w1 w' res rest ∙ sym (key_given (is_empty key) key k w w1 given first)

backup_key-given : (at : Moment) → is_empty (backup_key at) ≡ false
unfolding backup_key text
backup_key-given at = refl

-- What decompressing what was compressed gives is what was there, to a clean end.
abbrev pub IsCodec : Outside → Type 0
IsCodec o = (t : Text) → o.gunzip (o.gzip t) ≡ (t, none)

-- A backup comes back: where a backup of a snapshot has returned a key, restoring that key returns,
-- if it does, with the snapshot's contents in place of the destination, on this host or any other
-- whose object store is in the state that the backup has left. The codec gives back what it was
-- given, and the destination is not named like a temporary file of the restoration.
pub backup-round_trip :
    (o : Outside) (S : IsStore o) (c : Client) (snap dest : Text) (w w1 host w2 : World o)
    (t : Text) (stored restored : Text × ℕ)
    → IsCodec o
    → w.files snap ≡ some t
    → upload_db_backup c snap w ≡ (ok stored, w1)
    → host.remote ≡ w1.remote
    → ((x : Text)
        → text_eq ((dir dest ++ (b'/' ∷ (base dest ++ text ".restore-"))) ++ (x ++ [])) dest
          ≡ false)
    → restore_db_backup c stored.0 dest host ≡ (ok restored, w2)
    → w2.files dest ≡ some t
backup-round_trip o S c snap dest w w1 host w2 t stored restored codec there up same apart down =
    let (aside, (t1, at, held, named, size, object)) =
      Triple-value (upload_db_backup c snap) w (upload_lem o S c snap w.files) (λ q ne. refl) up in
    let (t2, (n, (body, found, clean)), (final, others)) =
      Triple-value (restore_db_backup c stored.0 dest) host
        (restore_lem o S c dest host.files host.remote apart stored.0) (λ q g. refl, λ b k. refl)
        down in
    let key =
      restore-key c dest stored.0 host w2 restored
        (subst (λ k. is_empty k ≡ false) (sym named) (backup_key-given at)) down in
    final
    ∙ ap (λ (x : Text × Option Error). some x.0)
        (sym clean ∙ ap (λ v. o.gunzip (contents_or v)) (body_of found object same key) ∙ codec t1)
    ∙ sym held
    ∙ there
  where
    contents_or : Option Text → Text
    contents_or none = []
    contents_or (some b) = b

    body_of :
        {body packed : Text}
        → S.object host.remote c.bucket restored.0 ≡ some body
        → S.object w1.remote c.bucket stored.0 ≡ some packed
        → host.remote ≡ w1.remote
        → restored.0 ≡ stored.0
        → ◌≡◌ {A = Option Text} (some body) (some packed)
    body_of found object same key =
        sym found
        ∙ ap (λ r. S.object r c.bucket restored.0) same
        ∙ ap (λ k. S.object w1.remote c.bucket k) key
        ∙ object
