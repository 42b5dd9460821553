-- ===== src/Repair/Repairs.antt =====
-- What a repair leaves in the database's file, on every way out.
pub mod Pristine
pub mod Compare
use vps_sync_gsbs.Base.{
  ℕ, true, false, ◌==◌, ◌≡◌, refl, sym, ap, subst, ◌∙◌, ◌⊎◌, inl, inr, Option, none, some, List, [],
  ◌∷◌, ◌++◌, arith, length,
}
use vps_sync_gsbs.Base.Int.{ℤ}
use vps_sync_gsbs.Text.{Text, text, text_eq, is_empty}
use vps_sync_gsbs.Text.Strings.{has_prefix}
use vps_sync_gsbs.FilePath.{join, dir}
use vps_sync_gsbs.Exec.{Error, Result, ok, lift, wrap, deferred, ◌>>=◌, ◌>>◌}
use vps_sync_gsbs.Exec.Triple.{
  Triple, Triple-bind, Triple-pure, Triple-fail, Triple-attempt, Triple-wrap, Triple-weaken,
  Triple-if, Triple-fact, Triple-deferred, Triple-left, Keeps, Triple-known, Either, Post,
}
use vps_sync_gsbs.Outside.{Outside, Entry}
use vps_sync_gsbs.World.{World, Files, update, stat, getenv, random_name}
use vps_sync_gsbs.World.Laws.{Of, update_self, update_ne, syscall_lem, stat_lem}
use vps_sync_gsbs.World.Writes.{Fact}
use vps_sync_gsbs.Fetch.Guarded.{tried}
use vps_sync_gsbs.Publish.Export.{open_database}
use vps_sync_gsbs.Publish.Export.Opened.{open_database_lem}
use vps_sync_gsbs.Repair.Plan.{Object, missing, created, transaction}
use vps_sync_gsbs.Repair.Plan.Complete.{IsEngine, Repaired, transaction-Repaired}
use vps_sync_gsbs.Repair.{
  temp_dir, mkdir_temp, without, remove_all, contents_of, contents, or_remove, build_pristine,
  begin, commit, complete, compare_with, found_at, repair_db,
}
use vps_sync_gsbs.Repair.Repairs.Pristine.{
  temporary, pristine_path, Apart, blank, First, Same, IsTemporary, Built, Built-Same, contents_lem,
  remove_all_lem, blank_of, build_lem,
}
use vps_sync_gsbs.Repair.Repairs.Compare.{Whole, Compared, compared_lem}

module _ (o : Outside) (db : Text) (fs : Files) (apart : Apart o db fs) (whole : Whole o) where
  found_at_lem :
      (x : ℕ ⊎ Error)
      → Triple
          (Of o (First o fs))
          (found_at db x)
          (λ cs w. (v : ℤ) × (o.user_version (blank o) ≡ ok v) × Compared o db fs v cs w.files)
          (λ _. Of o (Same o db fs))
  unfolding found_at
  found_at_lem (inr e) = Triple-fail _ (λ w h. ap (λ f. f db) h)
  found_at_lem (inl n) = Triple-bind _ _ (build_lem o db fs apart) (λ built. record {
    at = λ w h.
        let (d, tmp, e, there, version) = h in
        (subst
            (λ path.
              Triple (Of o (Built o fs d))
                (deferred (λ w. (remove_all (dir path) w).1) (compare_with db path built.1))
                (λ cs w.
                  (v : ℤ) × (o.user_version (blank o) ≡ ok v) × Compared o db fs v cs w.files)
                (λ _. Of o (Same o db fs)))
            (sym e)
            (Triple-weaken _ (λ w h. h) (λ cs w c. (built.1, version, c)) (λ _ w h. h)
              (compared_lem o db fs apart whole d tmp built.1))).at
          w there;
  })

  repair_lem :
      Triple
        (Of o (First o fs))
        (repair_db db)
        (λ cs w. (v : ℤ) × (o.user_version (blank o) ≡ ok v) × Compared o db fs v cs w.files)
        (λ _. Of o (Same o db fs))
  unfolding repair_db
  repair_lem =
      Triple-bind _ _
        (Triple-weaken _ (λ w h. h) (λ _ w h. h) (λ _ w h. ap (λ f. f db) h)
          (tried o (First o fs) (stat db) (
            Triple-weaken _ (λ w h. h) (λ _ w h. h.0) (λ _ w h. h.0) (stat_lem o (First o fs) db))))
        found_at_lem

-- The names of what was missing, and the contents that are left.
abbrev pub Settled : (o : Outside) → Text → List Entry → Files → List Text → Files → Type 0
Settled o db pristine before cs after =
    (t : Text) × (u : Text) × (ms : List Entry) × (before db ≡ some t)
    × (after db ≡ some u)
    × (o.sqlite_master t ≡ ok ms)
    × (cs ≡ created (missing pristine ms))
    × (((missing pristine ms ≡ []) × (u ≡ t))
        ⊎ ((v : ℤ) × (v' : ℤ) × (o.user_version (o.open_store none).0 ≡ ok v)
            × (o.user_version t ≡ ok v')
            × Repaired o pristine ms v v' u))

module _ (o : Outside) (db : Text) (before : Files) (pristine : List Entry)
    (read : o.sqlite_master (o.open_store none).0 ≡ ok pristine)
    (engine : IsEngine o pristine) where
  settled :
      (v : ℤ) (cs : List Text) (after : Files)
      → o.user_version (o.open_store none).0 ≡ ok v
      → Compared o db before v cs after
      → Settled o db pristine before cs after
  settled v cs after version c = (
    c.before,
    c.after,
    c.existing,
    c.was,
    c.holds,
    c.found,
    subst (λ ps. cs ≡ created (missing ps c.existing)) same c.names,
    ending (
        subst
          (λ ps.
            ((missing ps c.existing ≡ []) × (c.after ≡ c.before))
            ⊎ (transaction o (missing ps c.existing) v c.version c.before ≡ ok c.after))
          same c.outcome),
  )
    where
      same : c.pristine ≡ pristine
      same = ground (arith, sym c.wanted ∙ read)

      ending :
          ((missing pristine c.existing ≡ []) × (c.after ≡ c.before))
            ⊎ (transaction o (missing pristine c.existing) v c.version c.before ≡ ok c.after)
          → ((missing pristine c.existing ≡ []) × (c.after ≡ c.before))
            ⊎ ((v : ℤ) × (v' : ℤ) × (o.user_version (o.open_store none).0 ≡ ok v)
                × (o.user_version c.before ≡ ok v')
                × Repaired o pristine c.existing v v' c.after)
      ending (inl h) = inl h
      ending (inr h) = inr (
        v,
        c.version,
        version,
        c.versioned,
        transaction-Repaired o pristine c.existing v c.version c.before engine c.found c.versioned
            c.after h,
      )

-- A repair that ends by an error or a panic, wherever it happens, has left the database's file as it
-- was. One that returns gives the names of the objects that were missing, and leaves contents in
-- which, of the pristine schema, nothing is missing, every object that was there is there, and the
-- version is the newer of the two, or, if nothing was missing, the contents as they were. The
-- statements of the pristine schema create their objects, the database does not stand in a
-- directory for the pristine one, which is new, and no error cuts an iteration over the rows of a
-- query short, for which the code does not look.
pub repair_db-Repaired :
    (o : Outside) (db : Text) (w : World o) (pristine : List Entry)
    → Apart o db w.files
    → o.sqlite_master (o.open_store none).0 ≡ ok pristine
    → IsEngine o pristine
    → Whole o
    → Post
        (λ cs w'. Settled o db pristine w.files cs w'.files)
        (λ _ w'. w'.files db ≡ w.files db)
        (repair_db db w).0
        (repair_db db w).1
repair_db-Repaired o db w pristine apart read engine whole =
    (Triple-weaken _ (λ w' h. h)
        (λ cs w' (v, version, c). settled o db w.files pristine read engine v cs w'.files version c)
        (λ _ w' h. h) (repair_lem o db w.files apart whole)).at
      w refl
