-- ===== src/Fetch/Guarded.antt =====
-- What a fetch does to the database that it replaces.
use vps_sync_gsbs.Base.{
  ℕ, false, not, ◌||◌, ◌≡◌, refl, ap, ◌∙◌, sym, subst, ◌⊎◌, inl, inr, Option, none, some, List, [],
  ◌∷◌, ◌++◌, append-nil,
}
use vps_sync_gsbs.Text.{Text, text, is_empty, text_eq, text_eq-false, text_eq_sym, longer}
use vps_sync_gsbs.Text.Strings.{contains, trim_space}
use vps_sync_gsbs.FilePath.{dir}
use vps_sync_gsbs.Exec.{Error, attempt}
use vps_sync_gsbs.Exec.Triple.{
  Triple, Triple-bind, Triple-pure, Triple-fail, Triple-attempt, Triple-weaken, Triple-if,
  Triple-fact, Keeps, Either, Post,
}
use vps_sync_gsbs.Outside.{Outside}
use vps_sync_gsbs.World.{
  Files, update, leave, World, Io, write_file, stat, remove, rename, is_error,
}
use vps_sync_gsbs.World.Laws.{Of, update_self, update_ne, read_file_lem, stat_lem, now_lem}
use vps_sync_gsbs.World.Writes.{
  Fact, write_file_lem, remove_lem, rename_lem, mkdir_all_lem, create_temp_lem,
}
use vps_sync_gsbs.Fetch.{
  failed, run_rsync, run_check, copy_file, give_up, keep_old, check_and_install, fetched, download,
  prod_db,
}

module _ (o : Outside) (P : Fact o) where
  -- The outcome of an action that is tried and keeps a fact is passed over.
  pub tried :
      {A : Type 0} (m : Io o A)
      → Keeps (Of o P) m
      → Triple (Of o P) (attempt m) (λ _. Of o P) (λ _. Of o P)
  tried {A} m k = Triple-weaken _ (λ w h. h) settle (λ k w h. h) (Triple-attempt m k)
    where
      settle : (x : A ⊎ Error) (w : World o) → Either (λ _. Of o P) (λ _. Of o P) x w → Of o P w
      settle (inl a) w h = h
      settle (inr e) w h = h

-- What `sqlite3` says of some contents lets them pass.
abbrev pub IsSound : Outside → Option Text → Type 0
IsSound o v = (failed (o.quick_check v).1 || not (contains (o.quick_check v).0 (text "ok"))) ≡ false

abbrev pub Installed : (o : Outside) → Text → Fact o
Installed o dest f r h = (t : Text) × (f dest ≡ some t) × IsSound o (some t)

module _ (o : Outside) (dest : Text) (fs : Files) where
  abbrev First : Fact o
  First f r h = f ≡ fs

  -- The database and all files whose names begin with its path, as they were.
  abbrev Around : Fact o
  Around f r h = (y : Text) → f (dest ++ y) ≡ fs (dest ++ y)

  -- A file that was not there holds contents that passed the check.
  abbrev Passed : Fact o
  Passed f r h = (tmp : Text) × (fs tmp ≡ none) × IsSound o (f tmp)

  abbrev pub Left : Fact o
  Left f r h = (f dest ≡ fs dest) × (Around f r h ⊎ Passed f r h)

  itself : (f : Files) → ((y : Text) → f (dest ++ y) ≡ fs (dest ++ y)) → f dest ≡ fs dest
  itself f h = subst (λ d. f d ≡ fs d) (append-nil dest) (h [])

  around_left : (f : Files) (r : o.Remote) (h : List o.Remote) → Around f r h → Left f r h
  around_left f r h old = (itself f old, inl old)

  first_left : (f : Files) (r : o.Remote) (h : List o.Remote) → First f r h → Left f r h
  first_left f r h same = around_left f r h (λ y. ap (λ g. g (dest ++ y)) same)

  module _ (tmp : Text) (apart : (y : Text) → text_eq (dest ++ y) tmp ≡ false)
      (gone : fs tmp ≡ none) where
    -- The old database is there, and the temporary file holds `v`.
    abbrev Kept : Option Text → Fact o
    Kept v f r h = (f dest ≡ fs dest) × (f tmp ≡ v)

    Kept-update :
        (v u : Option Text) (c : ℕ) (y : Text)
        → (f : Files) (r : o.Remote) (h : List o.Remote) → Kept v f r h
        → Kept v (update f (dest ++ c ∷ y) u) r h
    Kept-update v u c y f r h (old, new) = (
      update_ne f (dest ++ c ∷ y) u dest (text_eq-false dest _ (longer dest c y)) ∙ old,
      update_ne f (dest ++ c ∷ y) u tmp (text_eq_sym (dest ++ c ∷ y) tmp (apart (c ∷ y))) ∙ new,
    )

    write_beside :
        (v : Option Text) (c : ℕ) (y t : Text)
        → Keeps (Of o (Kept v)) (write_file (dest ++ c ∷ y) t)
    write_beside v c y t =
        write_file_lem o (Kept v) (Kept v) (Kept v) (dest ++ c ∷ y) t (Kept-update v (some t) c y)
          (λ f r h u k. Kept-update v (some u) c y f r h k) (λ f r h k. k)

    remove_beside :
        (v : Option Text) (c : ℕ) (y : Text) → Keeps (Of o (Kept v)) (remove (dest ++ c ∷ y))
    remove_beside v c y =
        remove_lem o (Kept v) (Kept v) (Kept v) (dest ++ c ∷ y) (Kept-update v none c y)
          (λ f r h k. k)

    copy_beside :
        (v : Option Text) (c : ℕ) (y : Text)
        → Keeps (Of o (Kept v)) (copy_file dest (dest ++ c ∷ y))
    unfolding copy_file
    copy_beside v c y =
        Triple-bind _ _
          (Triple-weaken _ (λ w h. h) (λ t w h. h.0) (λ k w h. h.0) (read_file_lem o (Kept v) dest))
          (λ t. Triple-bind _ _ (write_beside v c y []) (λ _. write_beside v c y t))

    keep_old_lem : (v : Option Text) → Keeps (Of o (Kept v)) (keep_old dest)
    unfolding keep_old text
    keep_old_lem v =
        Triple-bind _ _
          (tried o (Kept v) (stat dest)
            (Triple-weaken _ (λ w h. h) (λ n w h. h.0) (λ k w h. h.0) (stat_lem o (Kept v) dest)))
          (λ found.
            Triple-if (is_error found) _ _ (λ _. Triple-pure tt (λ w h. h))
              (λ _. Triple-bind _ _ (now_lem o (Kept v)) (λ t.
                Triple-bind _ _ (copy_beside v b'.' _) (λ _.
                  Triple-bind _ _ (tried o (Kept v) _ (remove_beside v b'-' _)) (λ _.
                    Triple-bind _ _ (tried o (Kept v) _ (remove_beside v b'-' _))
                      (λ _. Triple-pure tt (λ w h. h)))))))

    -- The download has passed, and what comes behind the check failed.
    passed_left :
        (v : Option Text)
        → IsSound o v
        → (f : Files) (r : o.Remote) (h : List o.Remote) → Kept v f r h
        → Left f r h
    passed_left v good f r h (old, new) = (old, inr (tmp, gone, subst (IsSound o) (sym new) good))

    give_up_lem :
        (e : Error)
        → Triple (Of o Around) (give_up tmp e) (λ _. Of o (Installed o dest)) (λ _. Of o Left)
    unfolding give_up
    give_up_lem e =
        Triple-bind _ _
          (Triple-weaken _ (λ w h. h) (λ a w h. h)
            (λ k w h. around_left w.files w.remote w.history h)
            (tried o Around (remove tmp) (
              remove_lem o Around Around Around tmp
                (λ f r h old y. update_ne f tmp none (dest ++ y) (apart y) ∙ old y)
                (λ f r h old. old))))
          (λ _. Triple-fail e (λ w h. around_left w.files w.remote w.history h))

    install_lem :
        (v : Option Text)
        → IsSound o v
        → Triple (Of o (Kept v)) (rename tmp dest) (λ _. Of o (Installed o dest)) (λ _. Of o Left)
    install_lem v good =
        rename_lem o (Kept v) (Installed o dest) Left tmp dest
          (λ f r h u (old, new) there. (
            u,
            update_self (update f tmp none) dest (some u),
            subst (IsSound o) (sym new ∙ there) good,
          ))
          (passed_left v good)

    -- Before the check, with the contents of the temporary file.
    abbrev Fetched : Option Text → Fact o
    Fetched v f r h = Around f r h × (f tmp ≡ v)

    check_and_install_lem :
        (v : Option Text)
        → Triple
            (Of o (Fetched v))
            (check_and_install tmp dest (o.quick_check v))
            (λ _. Of o (Installed o dest))
            (λ _. Of o Left)
    unfolding check_and_install
    check_and_install_lem v =
        Triple-if (failed (o.quick_check v).1 || not (contains (o.quick_check v).0 (text "ok"))) _ _
          (λ _. Triple-weaken _ (λ w h. h.0) (λ a w h. h) (λ k w h. h) (give_up_lem _))
          (λ good.
            Triple-bind _ _
              (Triple-weaken _ (λ w h. (itself w.files h.0, h.1)) (λ a w h. h)
                (λ k w h. passed_left v good w.files w.remote w.history h) (keep_old_lem v))
              (λ _. install_lem v good))

    run_check_lem :
        Triple
          (Of o Around)
          (run_check tmp)
          (λ res w.
            (v : Option Text) × (res ≡ o.quick_check v) × Fetched v w.files w.remote w.history)
          (λ _. Of o Left)
    unfolding run_check
    run_check_lem = record { at = λ w h. (w.files tmp, refl, (h, refl)) }

    fetched_lem :
        (said : Text × Option Error)
        → Triple
            (Of o Around)
            (fetched tmp dest said)
            (λ _. Of o (Installed o dest))
            (λ _. Of o Left)
    unfolding fetched
    fetched_lem (out, e) =
        Triple-if (failed e) _ _ (λ _. give_up_lem _)
          (λ _. Triple-bind _ _ run_check_lem (λ res. record {
            at = λ w x.
                let (v, same, kept) = x in
                (subst
                    (λ r.
                      Triple (Of o (Fetched v)) (check_and_install tmp dest r)
                        (λ _. Of o (Installed o dest)) (λ _. Of o Left))
                    (sym same) (check_and_install_lem v)).at
                  w kept;
          }))

    leave-Around : (v : Option Text) (w : World o) → Of o Around w → Of o Around (leave tmp v w)
    unfolding leave
    leave-Around none w h = h
    leave-Around (some u) w h = λ y. update_ne w.files tmp (some u) (dest ++ y) (apart y) ∙ h y

    run_rsync_lem :
        (src : Text) → Triple (Of o Around) (run_rsync src tmp) (λ _. Of o Around) (λ _. Of o Left)
    unfolding run_rsync
    run_rsync_lem src = record { at = λ w h. leave-Around (o.rsync src w.ticks).1 w h }

  module _
      (fresh : (x y : Text)
        → text_eq (dest ++ y) ((dir dest ++ (b'/' ∷ text "gsbs-prod-")) ++ (x ++ text ".db"))
          ≡ false) where
    -- What the new file is like.
    abbrev Created : Text → Fact o
    Created tmp f r h =
        Around f r h × ((y : Text) → text_eq (dest ++ y) tmp ≡ false) × (fs tmp ≡ none)

    download_lem :
        (src : Text)
        → Triple (Of o First) (download src dest) (λ _. Of o (Installed o dest)) (λ _. Of o Left)
    unfolding download
    download_lem src =
        Triple-bind _ _
          (Triple-weaken _ (λ w h. h) (λ a w h. h)
            (λ k w h. first_left w.files w.remote w.history h) (mkdir_all_lem o First (dir dest)))
          (λ _.
            Triple-bind _ _
              (Triple-weaken _ (λ w h. h) (λ a w h. (h.0, (h.1, h.2)))
                (λ k w h. first_left w.files w.remote w.history h)
                (create_temp_lem o First Created (dir dest) (text "gsbs-prod-") (text ".db")
                  (λ f r h x same gone. (
                    λ y.
                        update_ne f _ (some []) (dest ++ y) (fresh x y)
                        ∙ ap (λ g. g (dest ++ y)) same,
                    fresh x,
                    ap (λ g. g ((dir dest ++ (b'/' ∷ text "gsbs-prod-")) ++ (x ++ text ".db")))
                          (sym same)
                        ∙ gone,
                  ))))
              (λ tmp. Triple-fact _ (λ (apart, gone).
                Triple-bind _ _ (run_rsync_lem tmp apart gone src) (fetched_lem tmp apart gone))))

    prod_db_lem :
        (src : Text)
        → Triple (Of o First) (prod_db src dest) (λ _. Of o (Installed o dest)) (λ _. Of o Left)
    unfolding prod_db
    prod_db_lem src =
        Triple-if (is_empty (trim_space src)) _ _ (λ _. Triple-fail _ unchanged)
          (λ _.
            Triple-if (failed (o.look_path (text "rsync"))) _ _ (λ _. Triple-fail _ unchanged)
              (λ _.
                Triple-if (failed (o.look_path (text "sqlite3"))) _ _ (λ _. Triple-fail _ unchanged)
                  (λ _. download_lem src)))
      where
        unchanged : (w : World o) → Of o First w → Of o Left w
        unchanged w h = first_left w.files w.remote w.history h

-- A fetch that returns has installed contents that passed the check of `sqlite3`. One that ends by an
-- error, wherever it happens, has left the database's file as it was; and either each file whose name
-- begins with the path of the database, as those of its log do, is as it was too, or the download
-- had passed the check and a file that was not there holds it. No temporary file's name begins with
-- the path of the database.
pub prod_db-Installed :
    (o : Outside) (src dest : Text) (w : World o)
    → ((x y : Text)
        → text_eq (dest ++ y) ((dir dest ++ (b'/' ∷ text "gsbs-prod-")) ++ (x ++ text ".db"))
          ≡ false)
    → Post
        (λ _ w'. Installed o dest w'.files w'.remote w'.history)
        (λ kind w'. Left o dest w.files w'.files w'.remote w'.history)
        (prod_db src dest w).0
        (prod_db src dest w).1
prod_db-Installed o src dest w fresh = (prod_db_lem o dest w.files fresh src).at w refl
