-- ===== src/R2/Backup/Restoring.antt =====
-- `RestoreDBBackup`: a restore installs a whole database or leaves the files as they were.
use vps_sync_gsbs.Base.{
  ℕ, true, false, Option, none, some, List, [], ◌∷◌, ◌++◌, ◌≡◌, ◌≢◌, refl, sym, ap, subst, ◌∙◌,
  arith, length, inl, inr, Option-cases, ◌==◌, if◌then◌else◌,
}
use vps_sync_gsbs.Text.{text_eq-false, text_eq_sym, Text, text, text_eq, is_empty}
use vps_sync_gsbs.FilePath.{base, dir}
use vps_sync_gsbs.Exec.{Error, Result, ok, err, panic, pure, lift, wrap, ◌>>◌}
use vps_sync_gsbs.Exec.Triple.{
  Triple, Triple-bind, Triple-fact, Triple-pure, Triple-fail, Triple-gets, Triple-if, Triple-lift,
  Triple-wrap, Triple-deferred, Triple-weaken, Keeps, Keeps-lift, Keeps-state, Post,
}
use vps_sync_gsbs.Outside.{Outside}
use vps_sync_gsbs.Outside.Laws.{IsStore}
use vps_sync_gsbs.World.{
  Files, update, World, write_file, sync, close, rename, remove, create_temp, request,
}
use vps_sync_gsbs.World.Laws.{Of, update_self, update_ne, request_lem}
use vps_sync_gsbs.World.Writes.{
  Fact, write_file_lem, rename_lem, remove_lem, mkdir_all_lem, sync_lem, close_lem, create_temp_lem,
}
use vps_sync_gsbs.R2.{Client}
use vps_sync_gsbs.R2.Backup.{
  ends_well, install, discard, backup_keys, latest_db_backup_key, restore_db_backup,
}

module _ (o : Outside) (S : IsStore o) (c : Client) (dest : Text) (fs : Files) (r₀ : o.Remote) where
  -- The files that were there, and the destination.
  abbrev Guarded : Text → Type 0
  Guarded q = fs q ≡ none → text_eq q dest ≡ true

  abbrev Intact : Fact o
  Intact f r h =
      ((q : Text) → Guarded q → f q ≡ fs q) × ((b k : Text) → S.object r b k ≡ S.object r₀ b k)

  -- The new database is installed, and no other file that was there has changed.
  abbrev Restored : Text → Fact o
  Restored t f r h =
      (f dest ≡ some t) × ((q : Text) → text_eq q dest ≡ false → fs q ≢ none → f q ≡ fs q)

  abbrev IsNew : Text → Type 0
  IsNew tmp = (fs tmp ≡ none) × (text_eq tmp dest ≡ false)

  -- The result: the key, and the length of what its object holds.
  abbrev Downloaded : Text × ℕ → Text → Type 0
  Downloaded (k, n) t =
      (n ≡ length t)
      × ((body : Text) × (S.object r₀ c.bucket k ≡ some body) × (o.gunzip body ≡ (t, none)))

  Guarded-ne : (tmp q : Text) → IsNew tmp → Guarded q → text_eq q tmp ≡ false
  Guarded-ne tmp q (absent, apart) g =
      text_eq-false q tmp
        (λ e. ground (arith, apart, subst (λ t. fs t ≡ none → text_eq t dest ≡ true) e g absent))

  update-Intact :
      (tmp : Text) (v : Option Text)
      → IsNew tmp
      → (f : Files) (r : o.Remote) (h : List o.Remote) → Intact f r h
      → Intact (update f tmp v) r h
  update-Intact tmp v new f r h (files, objects) =
      (λ q g. update_ne f tmp v q (Guarded-ne tmp q new g) ∙ files q g, objects)

  ends_well_lem :
      (P : Fact o) (e : Option Error)
      → Triple
          (Of o P)
          (ends_well e)
          (λ _ w. P w.files w.remote w.history × (e ≡ none))
          (λ _. Of o P)
  unfolding ends_well
  ends_well_lem P none = Triple-pure tt (λ w h. (h, refl))
  ends_well_lem P (some e) = Triple-fail e (λ w h. h)

  module _ (tmp : Text) (new : IsNew tmp) where
    abbrev Written : Text → Fact o
    Written t f r h = Intact f r h × (f tmp ≡ some t)

    write_lem :
        (t : Text)
        → Triple (Of o Intact) (write_file tmp t) (λ _. Of o (Written t)) (λ _. Of o Intact)
    write_lem t =
        write_file_lem o Intact (Written t) Intact tmp t
          (λ f r h i. (update-Intact tmp (some t) new f r h i, update_self f tmp (some t)))
          (λ f r h u i. update-Intact tmp (some u) new f r h i) (λ f r h i. i)

    rename_step :
        (t : Text)
        → Triple (Of o (Written t)) (rename tmp dest) (λ _. Of o (Restored t)) (λ _. Of o Intact)
    rename_step t =
        rename_lem o (Written t) (Restored t) Intact tmp dest
          (λ f r h u ((files, objects), there) e. (
            update_self _ dest (some u) ∙ sym e ∙ there,
            λ q ne was.
                let g = λ (e : fs q ≡ none). let x : text_eq q dest ≡ true = absurd (was e) in x in
                update_ne _ dest (some u) q ne
                ∙ update_ne f tmp none q (Guarded-ne tmp q new g)
                ∙ files q g,
          ))
          (λ f r h i. i.0)

    settle_lem :
        (k t : Text)
        → (body : Text) × (S.object r₀ c.bucket k ≡ some body) × (o.gunzip body ≡ (t, none))
        → Triple
            (Of o (Written t))
            (do
              sync tmp
              close tmp
              wrap (text "install restored db") (rename tmp dest)
              pure (k, length t))
            (λ res w. (t : Text) × Downloaded res t × Restored t w.files w.remote w.history)
            (λ _. Of o Intact)
    settle_lem k t source =
        Triple-bind _ _
          (Triple-weaken _ (λ w h. h) (λ u w h. h) (λ x w h. h.0) (sync_lem o (Written t) tmp))
          λ _.
            Triple-bind _ _
              (Triple-weaken _ (λ w h. h) (λ u w h. h) (λ x w h. h.0) (close_lem o (Written t) tmp))
              λ _.
                Triple-bind _ _ (Triple-wrap _ _ (rename_step t))
                  λ _. Triple-pure _ (λ w h. (t, (refl, source), h))

    install_lem :
        (k body : Text)
        → S.object r₀ c.bucket k ≡ some body
        → Triple
            (Of o Intact)
            (install k body tmp dest)
            (λ res w. (t : Text) × Downloaded res t × Restored t w.files w.remote w.history)
            (λ _. Of o Intact)
    unfolding install
    install_lem k body found =
        let t = (o.gunzip body).0 in
        let cut_short = (o.gunzip body).1 in
        Triple-bind _ _
          (Triple-wrap _ _ (
            Triple-weaken _ (λ w h. h) (λ u w h. h.0) (λ x w h. h)
              (ends_well_lem Intact (o.gunzip_header body))))
          λ _.
            Triple-bind _ _
              (Triple-wrap _ _ (
                Triple-bind _ _ (write_lem t) λ _.
                  Triple-weaken _ (λ w h. h) (λ u w h. h) (λ x w h. h.0)
                    (ends_well_lem (Written t) cut_short)))
              λ _. Triple-fact _ λ whole. settle_lem k t (body, found, ap (λ e. (t, e)) whole)

  -- The clean-up removes the temporary file, or leaves it; nothing else changes.
  discard-Intact :
      (tmp : Text) → IsNew tmp → (w : World o) → Of o Intact w → Of o Intact (discard tmp w)
  discard-Intact tmp new =
      Keeps-state (Of o Intact) (remove tmp)
        (remove_lem o Intact Intact Intact tmp (update-Intact tmp none new) (λ f r h i. i))

  discard-Restored :
      (tmp t : Text)
      → IsNew tmp
      → (w : World o) → Of o (Restored t) w
      → Of o (Restored t) (discard tmp w)
  discard-Restored tmp t (absent, apart) = Keeps-state (Of o (Restored t)) (remove tmp) (
      remove_lem o (Restored t) (Restored t) (Restored t) tmp
        (λ f r h (there, others). (
          update_ne f tmp none dest (text_eq_sym tmp dest apart) ∙ there,
          λ q ne was.
              update_ne f tmp none q
                (text_eq-false q tmp (λ e. was (subst (λ t. fs t ≡ none) (sym e) absent)))
              ∙ others q ne was,
        ))
        (λ f r h i. i))

  backup_keys-Intact : Keeps (Of o Intact) (backup_keys c)
  unfolding backup_keys
  backup_keys-Intact = Triple-bind _ _ (Triple-gets _ (λ w h. h)) (λ pages. Keeps-lift _)

  latest-Intact : Keeps (Of o Intact) (latest_db_backup_key c)
  unfolding latest_db_backup_key
  latest-Intact =
      Triple-bind (backup_keys c) _ backup_keys-Intact
        λ keys. Triple-if (length keys == 0) _ _ (λ _. Triple-fail _ (λ w h. h)) λ _. Keeps-lift _

  get_lem :
      (k : Text)
      → Triple
          (Of o Intact)
          (request (o.get_object c.bucket k))
          (λ a w. Of o Intact w × ((t : Text) → a ≡ ok t → S.object r₀ c.bucket k ≡ some t))
          (λ _ _. ⊥)
  get_lem k = request_lem o Intact (o.get_object c.bucket k) λ w (files, objects). (
    (files, λ b j. S.get_same c.bucket k w.remote b j ∙ objects b j),
    λ t e. sym (objects c.bucket k) ∙ S.get_found c.bucket k t w.remote e,
  )

  answer_lem :
      (k : Text) (a : Result Text)
      → Triple
          (λ w. Of o Intact w × ((t : Text) → a ≡ ok t → S.object r₀ c.bucket k ≡ some t))
          (lift a)
          (λ t w. Of o Intact w × (S.object r₀ c.bucket k ≡ some t))
          (λ _. Of o Intact)
  answer_lem k (ok t) = Triple-lift (ok t) (λ w h. (h.0, h.1 t refl))
  answer_lem k (err e) = Triple-lift (err e) (λ w h. h.0)
  answer_lem k (panic t) = Triple-lift (panic t) (λ w h. h.0)

  module _
      (apart : (x : Text)
        → text_eq ((dir dest ++ (b'/' ∷ (base dest ++ text ".restore-"))) ++ (x ++ [])) dest
          ≡ false) where
    temp_lem :
        Triple
          (Of o Intact)
          (create_temp (dir dest) (base dest ++ text ".restore-") [])
          (λ tmp w. Of o Intact w × IsNew tmp)
          (λ _. Of o Intact)
    temp_lem =
        create_temp_lem o Intact (λ tmp f r h. Intact f r h × IsNew tmp) _ _ _
          λ f r h x i free.
            let name = (dir dest ++ (b'/' ∷ (base dest ++ text ".restore-"))) ++ (x ++ []) in
            let new : IsNew name = (absent_before f name i.0 free, apart x) in
            (update-Intact name (some []) new f r h i, new)
      where
        absent_before :
            (f : Files) (name : Text)
            → ((q : Text) → Guarded q → f q ≡ fs q)
            → f name ≡ none
            → fs name ≡ none
        absent_before f name files free = elim (Option-cases (fs name)) [
          | inl e ↦ e
          | inr (t, e) ↦ ground (arith, files name (λ n. ground (arith, n, e)), e)
        ]

    pub restore_lem :
        (key : Text)
        → Triple
            (Of o Intact)
            (restore_db_backup c key dest)
            (λ res w. (t : Text) × Downloaded res t × Restored t w.files w.remote w.history)
            (λ _. Of o Intact)
    unfolding restore_db_backup
    restore_lem key =
        Triple-bind (if is_empty key then latest_db_backup_key c else pure key) _
          (Triple-if (is_empty key) _ _ (λ _. latest-Intact) (λ _. Triple-pure key (λ w h. h)))
          λ k.
            Triple-bind _ _
              (Triple-wrap _ _ (
                Triple-bind _ _
                  (Triple-weaken _ (λ w h. h) (λ a w h. h) (λ x w h. absurd h) (get_lem k))
                  (answer_lem k)))
              λ body. Triple-fact _ λ found.
                Triple-bind _ _ (mkdir_all_lem o Intact (dir dest)) λ _.
                  Triple-bind _ _ temp_lem λ tmp. Triple-fact _ λ new.
                    Triple-deferred (discard tmp) (install k body tmp dest)
                      (λ res w (t, d, restored). (t, d, discard-Restored tmp t new w restored))
                      (λ x w i. discard-Intact tmp new w i) (install_lem tmp new k body found)

-- A restore that returns has put in place of the destination all that decompressing the object of
-- the returned key gives, to a clean end, and returns its length; each other file that was there is
-- as it was. One that ends by an error or a panic, wherever it happens, has changed neither the
-- destination nor any file that was there. The destination is not itself named like a temporary
-- file of the restore.
pub restore_db_backup-atomic :
    (o : Outside) (S : IsStore o) (c : Client) (key dest : Text) (w : World o)
    → ((x : Text)
        → text_eq ((dir dest ++ (b'/' ∷ (base dest ++ text ".restore-"))) ++ (x ++ [])) dest
          ≡ false)
    → Post
        (λ res w'.
          (t : Text) × (res.1 ≡ length t)
          × ((body : Text) × (S.object w.remote c.bucket res.0 ≡ some body)
              × (o.gunzip body ≡ (t, none)))
          × (w'.files dest ≡ some t)
          × ((q : Text) → text_eq q dest ≡ false → w.files q ≢ none → w'.files q ≡ w.files q))
        (λ kind w'.
          (q : Text) → (w.files q ≡ none → text_eq q dest ≡ true) → w'.files q ≡ w.files q)
        (restore_db_backup c key dest w).0
        (restore_db_backup c key dest w).1
restore_db_backup-atomic o S c key dest w apart =
    (Triple-weaken _ (λ w' h. h)
        (λ res w' (t, (n, source), (there, others)). (t, n, source, there, others))
        (λ kind w' h. h.0) (restore_lem o S c dest w.files w.remote apart key)).at
      w (λ q g. refl, λ b k. refl)
