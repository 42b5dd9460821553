-- ===== src/Repair/Repairs/Compare.antt =====
-- The comparison of the two schemas, and the transaction that creates what is missing.
use vps_sync_gsbs.Base.{
  ℕ, true, false, ◌==◌, ◌≡◌, refl, sym, subst, ◌∙◌, ◌⊎◌, inl, inr, Option, none, some, List, [],
  ◌∷◌, ◌++◌, arith, length,
}
use vps_sync_gsbs.Base.Int.{ℤ}
use vps_sync_gsbs.Text.{Text, text}
use vps_sync_gsbs.Text.Strings.{has_prefix}
use vps_sync_gsbs.FilePath.{dir}
use vps_sync_gsbs.Exec.{Result, ok, lift, deferred, ◌>>=◌}
use vps_sync_gsbs.Exec.Triple.{
  Triple, Triple-bind, Triple-pure, Triple-wrap, Triple-weaken, Triple-if, Triple-fact,
  Triple-deferred, Triple-left, Triple-known,
}
use vps_sync_gsbs.Outside.{Outside, Entry}
use vps_sync_gsbs.World.{World, Files}
use vps_sync_gsbs.World.Writes.{Fact}
use vps_sync_gsbs.World.Laws.{Of, update_self, syscall_lem}
use vps_sync_gsbs.Repair.Plan.{
  Object, names, selected, order_rows, lacking, missing, created, transaction,
}
use vps_sync_gsbs.Repair.{remove_all, contents, begin, commit, iterate, complete, compare_with}
use vps_sync_gsbs.Repair.Repairs.Pristine.{
  pristine_path, Apart, blank, Same, IsTemporary, Built, Built-Same, contents_lem, remove_all_lem,
  blank_of,
}

-- What a repair has done with the database's contents.
pub record Compared (o : Outside) (db : Text) (fs : Files) (v : ℤ) (cs : List Text) (f : Files)
    : Type 0 where
  pub before : Text
  pub after : Text
  pub pristine : List Entry
  pub existing : List Entry
  pub version : ℤ
  pub was : fs db ≡ some before
  pub holds : f db ≡ some after
  pub wanted : o.sqlite_master (o.open_store none).0 ≡ ok pristine
  pub found : o.sqlite_master before ≡ ok existing
  pub versioned : o.user_version before ≡ ok version
  pub names : cs ≡ created (missing pristine existing)
  pub outcome :
      ((missing pristine existing ≡ []) × (after ≡ before))
      ⊎ (transaction o (missing pristine existing) v version before ≡ ok after)

nothing : (xs : List Object) → (length xs == 0) ≡ true → xs ≡ []
nothing [] e = refl
nothing (x ∷ xs) e = absurd (ground (arith, e))

-- No error ends an iteration over rows.
abbrev pub Whole : Outside → Type 0
Whole o = (n : ℕ) → o.rows_end n ≡ none

iterate_lem :
    {A : Type 0} (o : Outside) (P Q : Fact o) (rows : List A)
    → Whole o
    → Triple (Of o P) (iterate rows) (λ seen w. Of o P w × (seen ≡ rows)) (λ _. Of o Q)
unfolding iterate
iterate_lem o P Q rows whole = record { at = λ w h. rw (whole w.ticks) (h, refl) }

module _ (o : Outside) (db : Text) (fs : Files) (apart : Apart o db fs) (whole : Whole o) where
  module _ (d : Text) (tmp : IsTemporary o d) where
    module _ (v : ℤ) where
      -- Behind the reads: what was read, with the files as they were.
      module _ (t : Text) (existing wanted : List Entry) (version : ℤ) (was : fs db ≡ some t)
          (reads : (o.sqlite_master (blank o) ≡ ok wanted)
            × (o.sqlite_master t ≡ ok existing)
            × (o.user_version t ≡ ok version)) where
        done :
            (u : Text) (f : Files)
            → f db ≡ some u
            → ((missing wanted existing ≡ []) × (u ≡ t))
              ⊎ (transaction o (missing wanted existing) v version t ≡ ok u)
            → Compared o db fs v (created (missing wanted existing)) f
        done u f holds outcome = record {
          before = t;
          after = u;
          pristine = wanted;
          existing = existing;
          version = version;
          was = was;
          holds = holds;
          wanted = reads.0;
          found = reads.1;
          versioned = reads.2;
          names = refl;
          outcome = outcome;
        }

        begin_lem :
            Triple (Of o (Built o fs d)) begin (λ _. Of o (Built o fs d)) (λ _. Of o (Same o db fs))
        unfolding begin
        begin_lem =
            syscall_lem o (Built o fs d) _ (Triple-pure tt (λ w h. h))
              (λ w h. Built-Same o db fs apart d tmp w.files h)

        complete_lem :
            Triple
              (Of o (Built o fs d))
              (complete db t v version (missing wanted existing))
              (λ cs w. Compared o db fs v cs w.files)
              (λ _. Of o (Same o db fs))
        unfolding complete commit
        complete_lem =
            Triple-if (length (missing wanted existing) == 0) _ _
              (λ none_missing. Triple-pure [] (λ w h.
                subst (λ xs. Compared o db fs v (created xs) w.files) (nothing _ none_missing)
                  (done t w.files (Built-Same o db fs apart d tmp w.files h ∙ was)
                    (inl (nothing _ none_missing, refl)))))
              (λ _. Triple-bind {R = λ _. Of o (Built o fs d)} _ _ begin_lem (λ _.
                Triple-bind _ _
                  (Triple-weaken _ (λ w h. h) (λ _ w h. h)
                    (λ _ w h. Built-Same o db fs apart d tmp w.files h)
                    (Triple-known (transaction o (missing wanted existing) v version t)))
                  (λ u. Triple-fact _ (λ committed.
                    Triple-bind {R = λ _ w. w.files db ≡ some u} _ _
                      (syscall_lem o (Built o fs d) _
                        (record { at = λ w h. update_self w.files db (some u) })
                        (λ w h. Built-Same o db fs apart d tmp w.files h))
                      (λ _. Triple-pure _ (λ w h. done u w.files h (inr committed)))))))

      -- A result that is known behind it, in a world with the pristine database.
      known :
          {A : Type 0} (r : Result A)
          → Triple
              (Of o (Built o fs d))
              (lift r)
              (λ a w. Of o (Built o fs d) w × (r ≡ ok a))
              (λ _. Of o (Same o db fs))
      known r =
          Triple-weaken _ (λ w h. h) (λ _ w h. h)
            (λ _ w h. Built-Same o db fs apart d tmp w.files h) (Triple-known r)

      -- All rows are read.
      all_rows :
          {A : Type 0} (rows : List A)
          → Triple
              (Of o (Built o fs d))
              (iterate rows)
              (λ seen w. Of o (Built o fs d) w × (seen ≡ rows))
              (λ _. Of o (Same o db fs))
      all_rows rows = iterate_lem o (Built o fs d) (Same o db fs) rows whole

      compare_with_lem :
          Triple
            (Of o (Built o fs d))
            (compare_with db (pristine_path d) v)
            (λ cs w. Compared o db fs v cs w.files)
            (λ _. Of o (Same o db fs))
      unfolding compare_with missing
      compare_with_lem =
          Triple-bind _ _
            (Triple-weaken _ (λ w h. h)
              (λ t w h. (h.0, sym (Built-Same o db fs apart d tmp w.files h.0) ∙ h.1))
              (λ _ w h. Built-Same o db fs apart d tmp w.files h)
              (contents_lem o db fs apart (Built o fs d) db))
            (λ t. Triple-fact _ (λ was.
              Triple-bind _ _ (Triple-wrap _ _ (known (o.user_version t))) (λ version.
                Triple-fact _ (λ versioned. Triple-bind _ _ (known (o.sqlite_master t)) (λ answer.
                  Triple-fact _ (λ found. Triple-bind _ _ (all_rows (names answer)) (λ existing.
                    Triple-fact _
                      (λ seen. second t answer existing version was found versioned seen))))))))
        where
          second :
              (t : Text) (answer : List Entry) (existing : List Text) (version : ℤ)
              → fs db ≡ some t
              → o.sqlite_master t ≡ ok answer
              → o.user_version t ≡ ok version
              → existing ≡ names answer
              → Triple
                  (Of o (Built o fs d))
                  (do
                    p ← contents (pristine_path d)
                    master ← lift (o.sqlite_master p)
                    wanted ← iterate (order_rows (selected master))
                    complete db t v version (lacking existing wanted))
                  (λ cs w. Compared o db fs v cs w.files)
                  (λ _. Of o (Same o db fs))
          second t answer existing version was found versioned seen =
              Triple-bind _ _
                (Triple-weaken _ (λ w h. h)
                  (λ p w h. (h.0, blank_of o db fs apart d tmp w.files p h.0 h.1))
                  (λ _ w h. Built-Same o db fs apart d tmp w.files h)
                  (contents_lem o db fs apart (Built o fs d) (pristine_path d)))
                (λ p. Triple-fact _ (λ same. Triple-bind _ _ (known (o.sqlite_master p)) (λ master.
                  Triple-fact _ (λ read.
                    Triple-bind _ _ (all_rows (order_rows (selected master))) (λ wanted.
                      Triple-fact _ (λ listed. completed answer master existing wanted seen listed (
                        complete_lem t answer master version was (
                          subst (λ p. o.sqlite_master p ≡ ok master) same read,
                          found,
                          versioned,
                        ))))))))
            where
              completed :
                  (answer master : List Entry) (existing : List Text) (wanted : List Entry)
                  → existing ≡ names answer
                  → wanted ≡ order_rows (selected master)
                  → Triple
                      (Of o (Built o fs d))
                      (complete db t v version (missing master answer))
                      (λ cs w. Compared o db fs v cs w.files)
                      (λ _. Of o (Same o db fs))
                  → Triple
                      (Of o (Built o fs d))
                      (complete db t v version (lacking existing wanted))
                      (λ cs w. Compared o db fs v cs w.files)
                      (λ _. Of o (Same o db fs))
              completed answer master existing wanted seen listed whole_lem =
                  rw (seen, listed) whole_lem

  module _ (d : Text) (tmp : IsTemporary o d) where
    spared : has_prefix db (dir (pristine_path d) ++ text "/") ≡ false
    spared = go d tmp
      where
        go :
            (d : Text) → IsTemporary o d → has_prefix db (dir (pristine_path d) ++ text "/") ≡ false
        go d (b, x, e) =
            subst (λ d. has_prefix db (dir (pristine_path d) ++ text "/") ≡ false) (sym e)
              (apart.spared b x)

    -- The database is not among what the clean-up removes.
    left_alone :
        (Q : Option Text → Type 0) (w : World o)
        → Q (w.files db)
        → Q ((remove_all (dir (pristine_path d)) w).1.files db)
    left_alone Q w h =
        Triple-left (remove_all (dir (pristine_path d))) w
          (remove_all_lem o db fs apart Q (dir (pristine_path d)) spared) h

    pub compared_lem :
        (v : ℤ)
        → Triple
            (Of o (Built o fs d))
            (deferred
              (λ w. (remove_all (dir (pristine_path d)) w).1)
              (compare_with db (pristine_path d) v))
            (λ cs w. Compared o db fs v cs w.files)
            (λ _. Of o (Same o db fs))
    compared_lem v =
        Triple-deferred _ _ moved (λ _ w h. left_alone (λ x. x ≡ fs db) w h)
          (compare_with_lem d tmp v)
      where
        moved :
            (cs : List Text) (w : World o)
            → Compared o db fs v cs w.files
            → Compared o db fs v cs (remove_all (dir (pristine_path d)) w).1.files
        moved cs w c = record {
          before = c.before;
          after = c.after;
          pristine = c.pristine;
          existing = c.existing;
          version = c.version;
          was = c.was;
          wanted = c.wanted;
          found = c.found;
          versioned = c.versioned;
          names = c.names;
          outcome = c.outcome;
          holds = left_alone (λ x. x ≡ some c.after) w c.holds;
        }
