-- ===== src/Publish/Export/Present.antt =====
-- An export that returns has left a bundle and an index, whatever failed on the way.
use vps_sync_gsbs.Base.{false, ◌≡◌, refl, ◌∙◌, Option, some}
use vps_sync_gsbs.Text.{Text, text, text_eq, is_empty}
use vps_sync_gsbs.Text.Strings.{trim_space}
use vps_sync_gsbs.FilePath.Names.{text_eq-join}
use vps_sync_gsbs.Exec.{Result, attempt}
use vps_sync_gsbs.Exec.Triple.{
  Triple, Triple-bind, Triple-pure, Triple-fail, Triple-weaken, Triple-wrap, Triple-if, Triple-any,
  Keeps, Keeps-lift,
}
use vps_sync_gsbs.Outside.{Outside, Meta, Release}
use vps_sync_gsbs.World.{World, Files, update, read_file, write_file}
use vps_sync_gsbs.World.Laws.{Of, update_self, update_ne, read_file_lem, now_lem}
use vps_sync_gsbs.World.Writes.{Fact, write_file_lem, remove_lem}
use vps_sync_gsbs.Fetch.Guarded.{tried}
use vps_sync_gsbs.Publish.Release.{update_manifest_releases}
use vps_sync_gsbs.Publish.Previous.{previous_index}
use vps_sync_gsbs.Publish.Export.{
  export, export_to, write_artifacts, write_index, meta_path, bundle_path, releases_path,
  delta_path, index_path,
}

bundle_apart :
    (dir : Text)
    → (text_eq (bundle_path dir) (meta_path dir) ≡ false)
      × (text_eq (bundle_path dir) (releases_path dir) ≡ false)
      × (text_eq (bundle_path dir) (delta_path dir) ≡ false)
      × (text_eq (bundle_path dir) (index_path dir) ≡ false)
unfolding text text_eq
bundle_apart dir =
    let apart = λ (n : Text). text_eq-join dir (text "manifest.json.gz") n in
    (
      apart (text "manifest.meta.json") refl refl refl,
      apart (text "manifest.releases.json") refl refl refl,
      apart (text "manifest.delta.json.gz") refl refl refl,
      apart (text "index.json") refl refl refl,
    )

module _ (o : Outside) (dir : Text) where
  abbrev HasBundle : Fact o
  HasBundle f r h = (body : Text) × (f (bundle_path dir) ≡ some body)

  -- The bundle and the index are there.
  abbrev pub Present : Files → Type 0
  Present f =
      (body : Text) × (idx : Text) × (f (bundle_path dir) ≡ some body)
      × (f (index_path dir) ≡ some idx)

  abbrev pub Anything : World o → Type 0
  Anything w = Unit {0}

  has_bundle-update :
      (p : Text) (v : Option Text) (f : Files)
      → text_eq (bundle_path dir) p ≡ false
      → ((body : Text) × (f (bundle_path dir) ≡ some body))
      → (body : Text) × (update f p v (bundle_path dir) ≡ some body)
  has_bundle-update p v f ne (body, there) = (body, update_ne f p v (bundle_path dir) ne ∙ there)

  write_beside :
      (p t : Text) → text_eq (bundle_path dir) p ≡ false → Keeps (Of o HasBundle) (write_file p t)
  write_beside p t ne =
      write_file_lem o HasBundle HasBundle HasBundle p t (λ f r h k. has_bundle-update p _ f ne k)
        (λ f r h u k. has_bundle-update p _ f ne k) (λ f r h k. k)

  releases_lem :
      (p : Text) (e : Release)
      → text_eq (bundle_path dir) p ≡ false
      → Keeps (Of o HasBundle) (update_manifest_releases p e)
  unfolding update_manifest_releases
  releases_lem p e ne = Triple-bind _ _ (read_lem p) (λ raw. write_beside p _ ne)
    where
      read_lem : (p : Text) → Keeps (Of o HasBundle) (attempt (read_file p))
      read_lem p =
          tried o HasBundle (read_file p)
            (Triple-weaken _ (λ w h. h) (λ t w h. h.0) (λ k w h. h.0) (read_file_lem o HasBundle p))

  write_index_lem :
      (base raw : Text) (m : Meta)
      → Triple
          (Of o HasBundle)
          (write_index dir base raw m)
          (λ _ w. Present w.files)
          (λ _. Anything)
  unfolding write_index previous_index
  write_index_lem base raw m =
      Triple-bind {R = λ _. Of o HasBundle} _ _
        (Triple-weaken _ (λ w h. h) (λ i w h. h) (λ k w h. tt)
          (Triple-bind {R = λ _. Of o HasBundle} _ _
            (tried o HasBundle (read_file (index_path dir)) (
              Triple-weaken _ (λ w h. h) (λ t w h. h.0) (λ k w h. h.0)
                (read_file_lem o HasBundle (index_path dir))))
            (λ raw. Keeps-lift _)))
        (λ prev.
          Triple-bind {R = λ _. Of o HasBundle} _ _
            (Triple-weaken _ (λ w h. h) (λ t w h. h) (λ k w h. tt) (now_lem o HasBundle))
            (λ t.
              Triple-bind {R = λ _. Of o HasBundle} _ _
                (Triple-weaken _ (λ w h. h) (λ i w h. h) (λ k w h. tt)
                  (Triple-wrap _ _ (Keeps-lift _)))
                (λ next.
                  Triple-bind {R = λ _ w. Present w.files} _ _
                    (write_file_lem o HasBundle (λ f r h. Present f) (λ f r h. Unit {0})
                      (index_path dir) _
                      (λ f r h (body, there). (
                        body,
                        o.marshal_index next,
                        update_ne f (index_path dir) _ (bundle_path dir) (bundle_apart dir).3
                            ∙ there,
                        update_self f (index_path dir) _,
                      ))
                      (λ f r h u k. tt) (λ f r h k. tt))
                    (λ _. Triple-pure _ (λ w h. h)))))

  write_artifacts_lem :
      (base : Text) (x : Text × Meta)
      → Triple Anything (write_artifacts dir base x) (λ _ w. Present w.files) (λ _. Anything)
  unfolding write_artifacts
  write_artifacts_lem base (raw, m) = Triple-bind _ _ (Triple-any _) (λ _.
      Triple-bind {R = λ _. Of o HasBundle} _ _
        (Triple-weaken _ (λ w h. h) (λ _ w h. h) (λ _ w h. h)
          (write_file_lem o (λ f r h. Unit {0}) HasBundle (λ f r h. Unit {0}) (bundle_path dir) raw
            (λ f r h k. (raw, update_self f (bundle_path dir) _)) (λ f r h u k. tt)
            (λ f r h k. tt)))
        (λ _.
          Triple-bind {R = λ _. Of o HasBundle} _ _
            (forget (write_beside (meta_path dir) _ (bundle_apart dir).0))
            (λ _.
              Triple-bind {R = λ _. Of o HasBundle} _ _
                (forget (tried o HasBundle _ (releases_lem _ _ (bundle_apart dir).1)))
                (λ _.
                  Triple-bind {R = λ _. Of o HasBundle} _ _
                    (forget (
                      tried o HasBundle _ (
                        remove_lem o HasBundle HasBundle HasBundle (delta_path dir)
                          (λ f r h k. has_bundle-update (delta_path dir) _ f (bundle_apart dir).2 k)
                          (λ f r h k. k))))
                    (λ _. write_index_lem base raw m)))))
    where
      forget :
          {A : Type 0} {m : World o → Result A × World o}
          → Keeps (Of o HasBundle) m
          → Triple (Of o HasBundle) m (λ _. Of o HasBundle) (λ _. Anything)
      forget k = Triple-weaken _ (λ w h. h) (λ _ w h. h) (λ _ w h. tt) k

  -- However the calls fail, an export that returns has left both.
  pub export_lem :
      (db base version : Text)
      → Triple Anything (export db dir base version) (λ _ w. Present w.files) (λ _. Anything)
  unfolding export export_to
  export_lem db base version = Triple-bind _ _ (Triple-any _) (λ _.
      Triple-if (is_empty (trim_space base)) _ _ (λ _. Triple-fail _ (λ w h. h))
        (λ _.
          Triple-bind _ _ (Triple-any _)
            (λ _. Triple-bind _ _ (Triple-any _) (write_artifacts_lem (trim_space base)))))
