-- ===== src/R2/Live/Stored.antt =====
-- What an upload of the artifacts has stored when it returns without an error.
use vps_sync_gsbs.Base.{
  ℕ, true, false, ◌⊎◌, inl, inr, List, [], ◌∷◌, ◌++◌, ◌≡◌, refl, ap, ◌∙◌, Option, none, some, arith,
  Bool-cases,
}
use vps_sync_gsbs.Base.Int.{ℤ}
use vps_sync_gsbs.Text.{Text, text, text_eq}
use vps_sync_gsbs.FilePath.{join}
use vps_sync_gsbs.Exec.{Error, wrapped, pure, attempt}
use vps_sync_gsbs.Exec.Triple.{
  Triple, Triple-bind, Triple-pure, Triple-attempt, Triple-weaken, Triple-if, Triple-fact, Either,
  Post,
}
use vps_sync_gsbs.Outside.{Outside}
use vps_sync_gsbs.Outside.Laws.{IsStore}
use vps_sync_gsbs.World.{Files, World, Io, stat, request, is_not_exist, is_error}
use vps_sync_gsbs.World.Laws.{Of, stat_try, now_lem, request_lem}
use vps_sync_gsbs.World.Writes.{Fact}
use vps_sync_gsbs.R2.{Client, key, put_file}
use vps_sync_gsbs.R2.Keys.{key-ne, archive_index-ne, archive_bundle-ne}
use vps_sync_gsbs.R2.Puts.{same_of_key, put_kept, put_file_lem}
use vps_sync_gsbs.R2.Live.{
  Artifact, bundle, metadata, Uploaded, bundle_name, meta_name, index_name, delta_name, upload,
  upload_first, archive, upload_index, upload_live,
}

-- The object under the key of an artifact, in the client's bucket.
abbrev pub object_of : {o : Outside} → IsStore o → Client → Text → o.Remote → Option Text
object_of S c name r = S.object r c.bucket (key c name)

module _ (o : Outside) (S : IsStore o) (c : Client) (dir : Text) (fs : Files)
    (body idx : Text) where
  abbrev pub Local : Fact o
  Local f r h = f ≡ fs

  abbrev pub Bundled : Fact o
  Bundled f r h = (f ≡ fs) × (object_of S c bundle_name r ≡ some body)

  abbrev pub Both : Fact o
  Both f r h =
      (f ≡ fs) × (object_of S c bundle_name r ≡ some body) × (object_of S c index_name r ≡ some idx)

  -- Both are stored, unless there is an error.
  abbrev pub Ends : Uploaded → World o → Type 0
  Ends (keys, none) w = Of o Both w
  Ends (keys, some e) w = Of o Local w

  abbrev Ending : Fact o → Io o Uploaded → Type 0
  Ending P m = Triple (Of o P) m Ends (λ _. Of o Local)

  -- An upload in front of the rest of the function.
  upload_lem :
      (P R : Fact o) (path : Text) (a : Artifact) (k context : Text) (uploaded : List Text)
      (next : List Text → Io o Uploaded)
      → Triple (Of o P) (put_file c path k a.ct a.cache) (λ _. Of o R) (λ _. Of o Local)
      → ((done : List Text) → Ending R (next done))
      → Ending P (upload c path a k context uploaded next)
  unfolding upload
  upload_lem P R path a k context uploaded next put rest = Triple-bind _ _ (Triple-attempt _ put) go
    where
      go :
          (done : Unit {0} ⊎ Error)
          → Triple
              (Either (λ _. Of o R) (λ _. Of o Local) done)
              (elim done [
                | inl _ ↦ next (uploaded ++ k ∷ [])
                | inr e ↦ pure (uploaded, some (wrapped (context ++ k) e))
              ])
              Ends
              (λ _. Of o Local)
      go (inl u) = rest _
      go (inr e) = Triple-pure _ (λ w h. h)

  module _ (present : fs (join dir bundle_name) ≡ some body)
      (indexed : fs (join dir index_name) ≡ some idx) where
    text_of : (path t v : Text) (f : Files) → f ≡ fs → f path ≡ some t → fs path ≡ some v → t ≡ v
    text_of path t v f e found there = cc (ap (λ (g : Files). g path) e, found, there)

    put_bundle :
        (ct cache : Text)
        → Triple
            (Of o Local)
            (put_file c (join dir bundle_name) (key c bundle_name) ct cache)
            (λ _. Of o Bundled)
            (λ _. Of o Local)
    put_bundle ct cache =
        put_file_lem o Local Bundled Local c _ _ ct cache
          (λ f r h t e found. (
            λ done. (e, S.put_done _ r done ∙ ap some (text_of _ t body f e found present)),
            λ x failed. e,
          ))
          (λ f r h e. e)

    put_meta :
        (ct cache : Text)
        → Triple
            (Of o Bundled)
            (put_file c (join dir meta_name) (key c meta_name) ct cache)
            (λ _. Of o Bundled)
            (λ _. Of o Local)
    unfolding text text_eq
    put_meta ct cache =
        put_file_lem o Bundled Bundled Local c _ _ ct cache
          (λ f r h t (e, there) found. (
            λ done. (e, put_kept S _ r _ body there (inl (key-ne c bundle_name meta_name refl))),
            λ x failed. e,
          ))
          (λ f r h e. e.0)

    put_index :
        (ct cache : Text)
        → Triple
            (Of o Bundled)
            (put_file c (join dir index_name) (key c index_name) ct cache)
            (λ _. Of o Both)
            (λ _. Of o Local)
    unfolding text text_eq
    put_index ct cache =
        put_file_lem o Bundled Both Local c _ _ ct cache
          (λ f r h t (e, there) found. (
            λ done. (
              e,
              put_kept S _ r _ body there (inl (key-ne c bundle_name index_name refl)),
              S.put_done _ r done ∙ ap some (text_of _ t idx f e found indexed),
            ),
            λ x failed. e,
          ))
          (λ f r h e. e.0)

    put_archived_index :
        (snap ct cache : Text)
        → Triple
            (Of o Both)
            (put_file c (join dir index_name) (snap ++ (b'/' ∷ index_name)) ct cache)
            (λ _. Of o Both)
            (λ _. Of o Local)
    put_archived_index snap ct cache =
        put_file_lem o Both Both Local c _ _ ct cache
          (λ f r h t (e, there, also) found. (
            λ done. (
              e,
              put_kept S _ r _ body there (inl (archive_index-ne c snap)),
              put_kept S _ r _ idx also (inr (text_of _ t idx f e found indexed)),
            ),
            λ x failed. e,
          ))
          (λ f r h e. e.0)

    put_archived_bundle :
        (snap ct cache : Text)
        → Triple
            (Of o Both)
            (put_file c (join dir bundle_name) (snap ++ (b'/' ∷ bundle_name)) ct cache)
            (λ _. Of o Both)
            (λ _. Of o Local)
    put_archived_bundle snap ct cache =
        put_file_lem o Both Both Local c _ _ ct cache
          (λ f r h t (e, there, also) found. (
            λ done. (
              e,
              put_kept S _ r _ body there (inr (text_of _ t body f e found present)),
              put_kept S _ r _ idx also (inl (archive_bundle-ne c snap)),
            ),
            λ x failed. e,
          ))
          (λ f r h e. e.0)

    stat_lem :
        (P : Fact o) (name : Text)
        → ((w : World o) → Of o P w → Of o Local w)
        → Triple (Of o P) (attempt (stat (join dir name))) (λ _. Of o P) (λ _. Of o Local)
    stat_lem P name local =
        Triple-weaken _ (λ w h. h) (λ found w h. h.0) (λ k w h. local w h) (stat_try o P _)

    archive_nil : (snap : Text) (done : List Text) → Ending Both (archive c dir snap [] done)
    unfolding archive
    archive_nil snap done = Triple-pure _ (λ w h. h)

    archive_last :
        (snap : Text) (done : List Text) → Ending Both (archive c dir snap (bundle_name ∷ []) done)
    unfolding archive
    archive_last snap done = Triple-bind _ _ (stat_lem Both bundle_name (λ w h. h.0)) (λ found.
        Triple-if (is_error found) _ _ (λ _. archive_nil snap done)
          (λ _. upload_lem Both Both _ _ _ _ _ _ (put_archived_bundle snap _ _) (archive_nil snap)))

    archive_lem :
        (snap : Text) (done : List Text)
        → Ending Both (archive c dir snap (index_name ∷ bundle_name ∷ []) done)
    unfolding archive
    archive_lem snap done = Triple-bind _ _ (stat_lem Both index_name (λ w h. h.0)) (λ found.
        Triple-if (is_error found) _ _ (λ _. archive_last snap done)
          (λ _. upload_lem Both Both _ _ _ _ _ _ (put_archived_index snap _ _) (archive_last snap)))

    delete_lem :
        Triple
          (Of o Bundled)
          (request (o.delete_object c.bucket (key c delta_name)))
          (λ _. Of o Bundled)
          (λ _. Of o Local)
    unfolding text text_eq
    delete_lem =
        Triple-weaken _ (λ w h. h) (λ a w h. h) (λ k w h. absurd h)
          (request_lem o Bundled _ (λ w (e, there). (
            e,
            S.delete_other c.bucket (key c delta_name) w.remote c.bucket (key c bundle_name) (
                  same_of_key c.bucket (key c bundle_name) (key c delta_name)
                    (key-ne c bundle_name delta_name refl))
                ∙ there,
          )))

    upload_index_lem :
        (version : ℤ) (done : List Text) → Ending Bundled (upload_index c dir version done)
    unfolding upload_index
    upload_index_lem version done = Triple-bind _ _ delete_lem (λ answer.
        upload_lem Bundled Both _ _ _ _ _ _ (put_index _ _) (λ more.
          Triple-bind _ _ (Triple-weaken _ (λ w h. h) (λ t w h. h) (λ k w h. h.0) (now_lem o Both))
            (λ t. archive_lem _ more)))

    upload_meta_lem :
        (version : ℤ) (done : List Text)
        → Ending Bundled (upload_first c dir (metadata ∷ []) done (upload_index c dir version))
    unfolding upload_first
    upload_meta_lem version done =
        Triple-bind _ _ (stat_lem Bundled meta_name (λ w h. h.0)) (λ found.
          Triple-if (is_not_exist found) _ _ (λ _. upload_index_lem version done)
            (λ _. upload_lem Bundled Bundled _ _ _ _ _ _ (put_meta _ _) (upload_index_lem version)))

    stat_bundle :
        Triple
          (Of o Local)
          (attempt (stat (join dir bundle_name)))
          (λ found w. Of o Local w × (is_not_exist found ≡ false))
          (λ _. Of o Local)
    stat_bundle =
        Triple-weaken _ (λ w h. h) (λ found w h. (h.0, here found w h.0 h.1)) (λ k w h. h)
          (stat_try o Local (join dir bundle_name))
      where
        here :
            (found : ℕ ⊎ Error) (w : World o)
            → Of o Local w
            → (is_not_exist found ≡ true → w.files (join dir bundle_name) ≡ none)
            → is_not_exist found ≡ false
        here found w e h = elim (Bool-cases (is_not_exist found)) [
          | inl t ↦ cc (ap (λ (g : Files). g (join dir bundle_name)) e, present, h t)
          | inr t ↦ t
        ]

    pub upload_live_lem : (version : ℤ) → Ending Local (upload_live c dir version)
    unfolding upload_live upload_first
    upload_live_lem version = Triple-bind _ _ stat_bundle (λ found. Triple-fact _ (λ there.
        Triple-if (is_not_exist found) _ _ (λ missing. absurd (ground (arith, there, missing)))
          (λ _.
            upload_lem Local Bundled (join dir bundle_name) bundle (key c bundle_name)
              (text "upload ") []
              (λ done. upload_first c dir (metadata ∷ []) done (upload_index c dir version))
              (put_bundle _ _) (upload_meta_lem version))))

-- An upload of a directory that holds a bundle and an index, when it returns without an error, has
-- stored them whole, each under its key in the client's bucket, whatever the prefix and whatever
-- was there. However it ends, the local files are as they were.
pub upload_live-Both :
    (o : Outside) (S : IsStore o) (c : Client) (dir : Text) (version : ℤ) (w : World o)
    (body idx : Text)
    → w.files (join dir bundle_name) ≡ some body
    → w.files (join dir index_name) ≡ some idx
    → Post
        (Ends o S c dir w.files body idx)
        (λ _. Of o (Local o S c dir w.files body idx))
        (upload_live c dir version w).0
        (upload_live c dir version w).1
upload_live-Both o S c dir version w body idx present indexed =
    (upload_live_lem o S c dir w.files body idx present indexed version).at w refl
