-- ===== src/R2/Live/Cutover.antt =====
-- No state of the object store shows a new index.json in front of a bundle that is not there yet.
use vps_sync_gsbs.Base.{
  ℕ, true, false, ◌⊎◌, inl, inr, List, [], ◌∷◌, ◌++◌, ◌≡◌, refl, ap, ◌∙◌, Option, none, some, All,
  Bool-cases, if◌then◌else◌,
}
use vps_sync_gsbs.Base.Int.{ℤ}
use vps_sync_gsbs.Text.{Text, text, text_eq}
use vps_sync_gsbs.FilePath.{join}
use vps_sync_gsbs.Exec.{Kind, Error, Result, ok, err, panic, wrapped, pure, attempt}
use vps_sync_gsbs.Exec.Triple.{
  Triple, Triple-bind, Triple-pure, Triple-attempt, Triple-weaken, Triple-if, Keeps, Either, Post,
}
use vps_sync_gsbs.Outside.{Outside, Put}
use vps_sync_gsbs.Outside.Laws.{IsStore, same}
use vps_sync_gsbs.World.{Files, World, Io, stat, request, is_not_exist, is_error}
use vps_sync_gsbs.World.Laws.{Of, stat_try, now_lem, request_lem}
use vps_sync_gsbs.R2.{Client, key, put_file}
use vps_sync_gsbs.R2.Keys.{key-ne, archive_index-ne}
use vps_sync_gsbs.R2.Puts.{same_of_key, put_kept, put_file_lem}
use vps_sync_gsbs.R2.Live.{
  Artifact, bundle, metadata, Uploaded, bundle_name, meta_name, index_name, delta_name, upload,
  upload_first, archive, upload_index, upload_live,
}

module _ (o : Outside) (S : IsStore o) (c : Client) (dir : Text) (fs : Files) (body : Text)
    (present : fs (join dir bundle_name) ≡ some body) (old : Option Text) where
  abbrev bundle_key : Text
  bundle_key = key c bundle_name

  abbrev index_key : Text
  index_key = key c index_name

  -- A reader finds the old index, or the new bundle.
  abbrev Cutover : o.Remote → Type 0
  Cutover r = (S.object r c.bucket index_key ≡ old) ⊎ (S.object r c.bucket bundle_key ≡ some body)

  -- The state before the bundle is uploaded, the state behind it, and either.
  abbrev Before : Files → o.Remote → List o.Remote → Type 0
  Before f r h = (f ≡ fs) × (S.object r c.bucket index_key ≡ old) × All Cutover h

  abbrev After : Files → o.Remote → List o.Remote → Type 0
  After f r h = (f ≡ fs) × (S.object r c.bucket bundle_key ≡ some body) × All Cutover h

  abbrev Safe : Files → o.Remote → List o.Remote → Type 0
  Safe f r h = (f ≡ fs) × Cutover r × All Cutover h

  Before-Safe : (w : World o) → Of o Before w → Of o Safe w
  Before-Safe w (a, b, d) = (a, inl b, d)

  After-Safe : (w : World o) → Of o After w → Of o Safe w
  After-Safe w (a, b, d) = (a, inr b, d)

  body_of : (f : Files) (t : Text) → f ≡ fs → f (join dir bundle_name) ≡ some t → t ≡ body
  body_of f t e found = cc (ap (λ (g : Files). g (join dir bundle_name)) e, present)

  index-ne-bundle : same c.bucket index_key c.bucket bundle_key ≡ false
  unfolding text text_eq
  index-ne-bundle = same_of_key c.bucket index_key bundle_key (key-ne c index_name bundle_name refl)

  -- The bundle: uploaded, or the index is the old one.
  put_bundle :
      (ct cache : Text)
      → Triple
          (Of o Before)
          (put_file c (join dir bundle_name) bundle_key ct cache)
          (λ _. Of o After)
          (λ _. Of o Before)
  put_bundle ct cache =
      put_file_lem o Before After Before c _ _ ct cache
        (λ f r h t (e, kept, past) found.
          let p : Put = record {
            bucket = c.bucket;
            key = bundle_key;
            body = t;
            content_type = ct;
            cache_control = cache;
          } in
          let still = S.put_other p r c.bucket index_key index-ne-bundle ∙ kept in
          (
            λ done.
                let there = S.put_done p r done ∙ ap some (body_of f t e found) in
                (e, there, (inr there, past)),
            λ x failed. (e, still, (inl still, past)),
          ))
        (λ f r h k. k)

  -- A put behind the bundle: of another object, or of the bundle's own text.
  put_behind :
      (path k ct cache : Text)
      → ((f : Files) (t : Text)
          → f ≡ fs
          → f path ≡ some t
          → (text_eq bundle_key k ≡ false) ⊎ (t ≡ body))
      → Keeps (Of o After) (put_file c path k ct cache)
  put_behind path k ct cache how =
      put_file_lem o After After After c path k ct cache
        (λ f r h t (e, there, past) found.
          let p : Put = record {
            bucket = c.bucket;
            key = k;
            body = t;
            content_type = ct;
            cache_control = cache;
          } in
          let still = put_kept S p r bundle_key body there (how f t e found) in
          (λ done. (e, still, (inr still, past)), λ x failed. (e, still, (inr still, past))))
        (λ f r h k. k)

  put_other_behind :
      (path k ct cache : Text)
      → text_eq bundle_key k ≡ false
      → Keeps (Of o After) (put_file c path k ct cache)
  put_other_behind path k ct cache ne = put_behind path k ct cache (λ f t e found. inl ne)

  abbrev Ends : Io o Uploaded → (Files → o.Remote → List o.Remote → Type 0) → Type 0
  Ends m P = Triple (Of o P) m (λ _. Of o Safe) (λ _. Of o Safe)

  stat-After :
      (name : Text)
      → Triple (Of o After) (attempt (stat (join dir name))) (λ _. Of o After) (λ _. Of o Safe)
  stat-After name =
      Triple-weaken _ (λ w h. h) (λ found w h. h.0) (λ k w h. After-Safe w h) (stat_try o After _)

  -- An upload in front of the rest of the function.
  upload_lem :
      (P R : Files → o.Remote → List o.Remote → Type 0) (path : Text) (a : Artifact)
      (k context : Text) (uploaded : List Text) (next : List Text → Io o Uploaded)
      → Triple (Of o P) (put_file c path k a.ct a.cache) (λ _. Of o R) (λ _. Of o P)
      → ((w : World o) → Of o P w → Of o Safe w)
      → ((done : List Text) → Triple (Of o R) (next done) (λ _. Of o Safe) (λ _. Of o Safe))
      → Triple (Of o P) (upload c path a k context uploaded next) (λ _. Of o Safe) (λ _. Of o Safe)
  unfolding upload
  upload_lem P R path a k context uploaded next put safe rest =
      Triple-bind _ _
        (Triple-weaken _ (λ w h. h) (λ x w h. h) (λ kind w h. safe w h) (Triple-attempt _ put)) go
    where
      go :
          (done : Unit {0} ⊎ Error)
          → Triple
              (Either (λ _. Of o R) (λ _. Of o P) done)
              (elim done [
                | inl _ ↦ next (uploaded ++ k ∷ [])
                | inr e ↦ pure (uploaded, some (wrapped (context ++ k) e))
              ])
              (λ _. Of o Safe)
              (λ _. Of o Safe)
      go (inl u) = rest _
      go (inr e) = Triple-pure _ safe

  archive_nil : (snap : Text) (uploaded : List Text) → Ends (archive c dir snap [] uploaded) After
  unfolding archive
  archive_nil snap uploaded = Triple-pure _ After-Safe

  archive_bundle :
      (snap : Text) (uploaded : List Text)
      → Ends (archive c dir snap (bundle_name ∷ []) uploaded) After
  unfolding archive
  archive_bundle snap uploaded = Triple-bind _ _ (stat-After bundle_name) λ found.
      Triple-if (is_error found) _ _ (λ _. archive_nil snap uploaded)
        λ _.
          upload_lem After After _ _ _ _ _ _
            (put_behind _ _ _ _ (λ f t e found. inr (body_of f t e found))) After-Safe
            λ done. archive_nil snap done

  archive_lem :
      (snap : Text) (uploaded : List Text)
      → Ends (archive c dir snap (index_name ∷ bundle_name ∷ []) uploaded) After
  unfolding archive
  archive_lem snap uploaded = Triple-bind _ _ (stat-After index_name) λ found.
      Triple-if (is_error found) _ _ (λ _. archive_bundle snap uploaded)
        λ _.
          upload_lem After After _ _ _ _ _ _ (put_other_behind _ _ _ _ (archive_index-ne c snap))
            After-Safe λ done. archive_bundle snap done

  delete_delta :
      Triple
        (Of o After)
        (request (o.delete_object c.bucket (key c delta_name)))
        (λ _. Of o After)
        (λ _. Of o Safe)
  unfolding text text_eq
  delete_delta =
      Triple-weaken _ (λ w h. h) (λ a w h. h) (λ k w h. absurd h)
        (request_lem o After _ λ w (e, there, past).
          let still =
            S.delete_other c.bucket (key c delta_name) w.remote c.bucket bundle_key (
              same_of_key c.bucket bundle_key (key c delta_name)
                (key-ne c bundle_name delta_name refl))
            ∙ there in
          (e, still, (inr still, past)))

  upload_index_lem :
      (version : ℤ) (uploaded : List Text) → Ends (upload_index c dir version uploaded) After
  unfolding upload_index text text_eq
  upload_index_lem version uploaded = Triple-bind _ _ delete_delta λ answer.
      upload_lem After After _ _ _ _ _ _
        (put_other_behind _ _ _ _ (key-ne c bundle_name index_name refl)) After-Safe
        λ done.
          Triple-bind _ _ (Triple-weaken _ (λ w h. h) (λ t w h. h) After-Safe' (now_lem o After))
            λ t. archive_lem _ done
    where
      After-Safe' : (k : Kind) (w : World o) → Of o After w → Of o Safe w
      After-Safe' k w h = After-Safe w h

  upload_meta :
      (version : ℤ) (uploaded : List Text)
      → Ends (upload_first c dir (metadata ∷ []) uploaded (upload_index c dir version)) After
  unfolding upload_first text text_eq
  upload_meta version uploaded = Triple-bind _ _ (stat-After meta_name) λ found.
      Triple-if (is_not_exist found) _ _ (λ _. upload_index_lem version uploaded)
        λ _.
          upload_lem After After _ _ _ _ _ _
            (put_other_behind _ _ _ _ (key-ne c bundle_name meta_name refl)) After-Safe
            (upload_index_lem version)

  stat_bundle :
      Triple
        (Of o Before)
        (attempt (stat (join dir bundle_name)))
        (λ found w. Of o Before w × (is_not_exist found ≡ false))
        (λ _. Of o Safe)
  stat_bundle =
      Triple-weaken _ (λ w h. h) (λ found w h. (h.0, here found w h.0 h.1))
        (λ k w h. Before-Safe w h) (stat_try o Before (join dir bundle_name))
    where
      here :
          (found : ℕ ⊎ Error) (w : World o)
          → Of o Before w
          → (is_not_exist found ≡ true → w.files (join dir bundle_name) ≡ none)
          → is_not_exist found ≡ false
      here found w (e, kept, past) h = elim (Bool-cases (is_not_exist found)) [
        | inl t ↦ cc (ap (λ (g : Files). g (join dir bundle_name)) e, present, h t)
        | inr t ↦ t
      ]

  upload_live_lem : (version : ℤ) → Ends (upload_live c dir version) Before
  unfolding upload_live upload_first
  upload_live_lem version = Triple-bind _ _ stat_bundle λ found. if_found found
    where
      if_found :
          (found : ℕ ⊎ Error)
          → Triple
              (λ w. Of o Before w × (is_not_exist found ≡ false))
              (if is_not_exist found
                then upload_first c dir (metadata ∷ []) [] (upload_index c dir version)
                else upload c
                    (join dir bundle_name)
                    bundle
                    (key c bundle_name)
                    (text "upload ")
                    []
                    (λ done. upload_first c dir (metadata ∷ []) done (upload_index c dir version)))
              (λ _. Of o Safe)
              (λ _. Of o Safe)
      if_found found = record {
        at = λ w (h, t). rw t (
            (upload_lem Before After (join dir bundle_name) bundle (key c bundle_name)
                (text "upload ") []
                (λ done. upload_first c dir (metadata ∷ []) done (upload_index c dir version))
                (put_bundle (text "application/gzip") (text "public, max-age=600")) Before-Safe
                (upload_meta version)).at
              w h);
      }

-- While `UploadLive` runs, from a directory that holds the bundle and whatever fails on the way, at
-- every state of the object store a reader finds the index.json that was there before, or the
-- bundle of that directory. The local files are as they were.
pub upload_live-cutover :
    (o : Outside) (S : IsStore o) (c : Client) (dir : Text) (version : ℤ) (w : World o)
    (body : Text)
    → w.files (join dir bundle_name) ≡ some body
    → w.history ≡ []
    → let w' = (upload_live c dir version w).1 in
      All
        (λ r.
          (S.object r c.bucket (key c index_name) ≡ S.object w.remote c.bucket (key c index_name))
          ⊎ (S.object r c.bucket (key c bundle_name) ≡ some body))
        w'.history
      × (w'.files ≡ w.files)
upload_live-cutover o S c dir version w body present fresh =
    let old = S.object w.remote c.bucket (key c index_name) in
    safe ((upload_live c dir version w).0)
      ((upload_live_lem o S c dir w.files body present old version).at w (refl, refl, rw fresh tt))
  where
    safe :
        (r : Result Uploaded)
        → Post
            (λ _.
              Of o (
                Safe o S c dir w.files body present
                  (S.object w.remote c.bucket (key c index_name))))
            (λ _.
              Of o (
                Safe o S c dir w.files body present
                  (S.object w.remote c.bucket (key c index_name))))
            r
            (upload_live c dir version w).1
        → All
            (λ r.
              (S.object r c.bucket (key c index_name)
                ≡ S.object w.remote c.bucket (key c index_name))
              ⊎ (S.object r c.bucket (key c bundle_name) ≡ some body))
            (upload_live c dir version w).1.history
          × ((upload_live c dir version w).1.files ≡ w.files)
    safe (ok u) h = (h.2, h.0)
    safe (err e) h = (h.2, h.0)
    safe (panic t) h = (h.2, h.0)
