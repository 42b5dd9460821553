-- ===== src/Repair/Repairs/Pristine.antt =====
-- The pristine database of a repair, in a directory of its own: `buildPristine`.
use vps_sync_gsbs.Base.{
  ℕ, false, ◌≡◌, refl, sym, ap, subst, ◌∙◌, ◌⊎◌, inl, inr, Option, none, some, List, ◌++◌,
}
use vps_sync_gsbs.Base.Int.{ℤ}
use vps_sync_gsbs.Text.{Text, text, text_eq, is_empty}
use vps_sync_gsbs.Text.Strings.{has_prefix}
use vps_sync_gsbs.FilePath.{join, dir}
use vps_sync_gsbs.Exec.{Error, ok, lift, wrap, ◌>>=◌, ◌>>◌}
use vps_sync_gsbs.Exec.Triple.{
  Triple, Triple-bind, Triple-pure, Triple-fail, Triple-attempt, Triple-wrap, Triple-weaken,
  Triple-if, Triple-fact, Keeps, Triple-known, Either, Post,
}
use vps_sync_gsbs.Outside.{Outside}
use vps_sync_gsbs.World.{World, Files, update, getenv, random_name}
use vps_sync_gsbs.World.Laws.{Of, update_self, update_ne, syscall_lem}
use vps_sync_gsbs.World.Writes.{Fact}
use vps_sync_gsbs.Fetch.Guarded.{tried}
use vps_sync_gsbs.Publish.Export.{open_database}
use vps_sync_gsbs.Publish.Export.Opened.{open_database_lem}
use vps_sync_gsbs.Repair.{
  temp_dir, mkdir_temp, without, remove_all, contents_of, contents, or_remove, build_pristine,
}

-- The directories that a repair may make for its pristine database.
abbrev pub temporary : Text → Text → Text
temporary base x = join base (text "gsbs-pristine-" ++ x)

abbrev pub pristine_path : Text → Text
pristine_path d = join d (text "pristine.db")

-- The database does not stand in such a directory, which is new and so has no file.
pub record Apart (o : Outside) (db : Text) (fs : Files) : Type 0 where
  pub elsewhere : (b : Text) (n : ℕ) → text_eq db (pristine_path (temporary b (o.random n))) ≡ false
  pub spared :
      (b : Text) (n : ℕ)
      → has_prefix db (dir (pristine_path (temporary b (o.random n))) ++ text "/") ≡ false
  pub spared_early :
      (b : Text) (n : ℕ) → has_prefix db (temporary b (o.random n) ++ text "/") ≡ false
  pub fresh : (b : Text) (n : ℕ) → fs (pristine_path (temporary b (o.random n))) ≡ none

-- The contents of a new, fully migrated database.
abbrev pub blank : Outside → Text
blank o = (o.open_store none).0

abbrev pub First : (o : Outside) → Files → Fact o
First o fs f r h = f ≡ fs

abbrev pub Same : (o : Outside) → Text → Files → Fact o
Same o db fs f r h = f db ≡ fs db

abbrev pub IsTemporary : Outside → Text → Type 0
IsTemporary o d = (b : Text) × (n : ℕ) × (d ≡ temporary b (o.random n))

-- The pristine database is there beside the files of the beginning.
abbrev pub Built : (o : Outside) → Files → Text → Fact o
Built o fs d f r h = f ≡ update fs (pristine_path d) (some (blank o))

module _ (o : Outside) (db : Text) (fs : Files) (apart : Apart o db fs) where
  pub Built-Same :
      (d : Text)
      → IsTemporary o d
      → (f : Files) → f ≡ update fs (pristine_path d) (some (blank o))
      → f db ≡ fs db
  Built-Same d (b, x, e) f built =
      ap (λ f. f db) built
      ∙ update_ne fs (pristine_path d) (some (blank o)) db
          (subst (λ d. text_eq db (pristine_path d) ≡ false) (sym e) (apart.elsewhere b x))

  temp_dir_lem : Keeps (Of o (First o fs)) temp_dir
  unfolding temp_dir getenv
  temp_dir_lem =
      Triple-bind {R = λ _. Of o (First o fs)} _ _ (record { at = λ w h. h })
        (λ t.
          Triple-if (is_empty t) _ _ (λ _. Triple-pure _ (λ w h. h))
            (λ _. Triple-pure _ (λ w h. h)))

  random_name_lem :
      Triple
        (Of o (First o fs))
        random_name
        (λ x w. Of o (First o fs) w × ((n : ℕ) × (x ≡ o.random n)))
        (λ _. Of o (First o fs))
  unfolding random_name
  random_name_lem = record { at = λ w h. (h, (w.ticks, refl)) }

  mkdir_temp_lem :
      Triple
        (Of o (First o fs))
        mkdir_temp
        (λ d w. Of o (First o fs) w × IsTemporary o d)
        (λ _. Of o (First o fs))
  unfolding mkdir_temp
  mkdir_temp_lem = Triple-bind _ _ temp_dir_lem (λ b. Triple-bind _ _ random_name_lem (λ x.
      Triple-fact _ (λ (n, drawn).
        syscall_lem o (First o fs) _
          (Triple-pure _ (λ w h. (h, (b, n, ap (λ x. temporary b x) drawn)))) (λ w h. h))))

  pub remove_all_lem :
      (Q : Option Text → Type 0) (path : Text)
      → has_prefix db (path ++ text "/") ≡ false
      → Keeps (Of o (λ f r h. Q (f db))) (remove_all path)
  unfolding remove_all without
  remove_all_lem Q path spared =
      Triple-bind _ _
        (tried o (λ f r h. Q (f db)) _
          (syscall_lem o (λ f r h. Q (f db)) _ (record { at = λ w h. rw spared h }) (λ w h. h)))
        (λ _. Triple-pure tt (λ w h. h))

  -- What a connection reads is what the file holds.
  pub contents_lem :
      (P : Fact o) (path : Text)
      → Triple (Of o P) (contents path) (λ t w. Of o P w × (w.files path ≡ some t)) (λ _. Of o P)
  unfolding contents
  contents_lem P path = record { at = λ w h. go w h (w.files path) refl }
    where
      go :
          (w : World o)
          → Of o P w
          → (v : Option Text) → w.files path ≡ v
          → Post (λ t w. Of o P w × (w.files path ≡ some t)) (λ _. Of o P) (contents_of v) w
      go w h none e = h
      go w h (some t) e = (h, e)

  module _ (d : Text) (tmp : IsTemporary o d) where
    -- What is read of the pristine database.
    pub blank_of :
        (f : Files) (t : Text)
        → f ≡ update fs (pristine_path d) (some (blank o))
        → f (pristine_path d) ≡ some t
        → t ≡ (blank o)
    blank_of f t built there =
        ap (λ v. elim v [ none ↦ t | some t ↦ t ])
          (sym there
            ∙ ap (λ f. f (pristine_path d)) built
            ∙ update_self fs (pristine_path d) (some (blank o)))

    made_lem :
        Triple
          (Of o (First o fs))
          (do
            wrap (text "build pristine schema") (open_database (pristine_path d))
            t ← contents (pristine_path d)
            lift (o.user_version t))
          (λ v w. Of o (Built o fs d) w × (o.user_version (blank o) ≡ ok v))
          (λ _. Of o (Same o db fs))
    made_lem =
        Triple-bind _ _
          (Triple-wrap _ _ (
            Triple-weaken _ (λ w h. h) (λ _ w h. h) (λ _ w h. Built-Same d tmp w.files h)
              (open_database_lem o (First o fs) (Built o fs d) (pristine_path d) opened)))
          (λ _.
            Triple-bind _ _
              (Triple-weaken _ (λ w h. h) (λ t w h. (h.0, blank_of w.files t h.0 h.1))
                (λ _ w h. Built-Same d tmp w.files h)
                (contents_lem (Built o fs d) (pristine_path d)))
              (λ t. Triple-fact _ (λ same.
                Triple-weaken _ (λ w h. h)
                  (λ v w h. (h.0, subst (λ t. o.user_version t ≡ ok v) same h.1))
                  (λ _ w h. Built-Same d tmp w.files h) (Triple-known (o.user_version t)))))
      where
        fresh_of : (d : Text) → IsTemporary o d → fs (pristine_path d) ≡ none
        fresh_of d (b, x, e) = subst (λ d. fs (pristine_path d) ≡ none) (sym e) (apart.fresh b x)

        opened :
            (f : Files) (r : o.Remote) (h : List o.Remote)
            → f ≡ fs
            → update f (pristine_path d) (some (o.open_store (f (pristine_path d))).0)
              ≡ update fs (pristine_path d) (some (blank o))
        opened f r h e =
            ap (λ f. update f (pristine_path d) (some (o.open_store (f (pristine_path d))).0)) e
            ∙ ap (λ v. update fs (pristine_path d) (some (o.open_store v).0)) (fresh_of d tmp)

    abbrev Versioned : ℤ → World o → Type 0
    Versioned v w = Of o (Built o fs d) w × (o.user_version (blank o) ≡ ok v)

    or_remove_lem :
        (x : ℤ ⊎ Error)
        → Triple
            (Either Versioned (λ _. Of o (Same o db fs)) x)
            (or_remove d x)
            Versioned
            (λ _. Of o (Same o db fs))
    unfolding or_remove
    or_remove_lem (inl a) = Triple-pure a (λ w h. h)
    or_remove_lem (inr e) =
        Triple-bind {R = λ _. Of o (Same o db fs)} _ _
          (remove_all_lem (λ v. v ≡ fs db) d (spared_of d tmp)) (λ _. Triple-fail e (λ w h. h))
      where
        spared_of : (d : Text) → IsTemporary o d → has_prefix db (d ++ text "/") ≡ false
        spared_of d (b, x, e) =
            subst (λ d. has_prefix db (d ++ text "/") ≡ false) (sym e) (apart.spared_early b x)

  pub build_lem :
      Triple
        (Of o (First o fs))
        build_pristine
        (λ built w.
          (d : Text) × IsTemporary o d
          × (built.0 ≡ pristine_path d)
          × Of o (Built o fs d) w
          × (o.user_version (blank o) ≡ ok built.1))
        (λ _. Of o (Same o db fs))
  unfolding build_pristine
  build_lem =
      Triple-bind _ _
        (Triple-weaken _ (λ w h. h) (λ _ w h. h) (λ _ w h. ap (λ f. f db) h) mkdir_temp_lem)
        (λ d. Triple-fact _ (λ tmp. Triple-bind _ _ (Triple-attempt _ (made_lem d tmp)) (λ made.
          Triple-bind _ _ (or_remove_lem d tmp made)
            (λ v. Triple-pure _ (λ w h. (d, tmp, refl, h.0, h.1))))))
