-- ===== src/Snapshot/Copied.antt =====
-- What a snapshot does to the files that are there.
use vps_sync_gsbs.Base.{
  not, ◌||◌, ◌≡◌, ◌≢◌, refl, ◌∙◌, sym, subst, inl, inr, Option, none, some, List, [], arith,
  Option-cases,
}
use vps_sync_gsbs.Text.{Text, text, text_eq-false}
use vps_sync_gsbs.Text.Strings.{contains}
use vps_sync_gsbs.FilePath.{dir}
use vps_sync_gsbs.Exec.{Error, pure, ◌>>◌}
use vps_sync_gsbs.Exec.Triple.{
  Triple, Triple-bind, Triple-pure, Triple-fail, Triple-weaken, Triple-if, Triple-fact, Keeps, Post,
}
use vps_sync_gsbs.Outside.{Outside}
use vps_sync_gsbs.World.{Files, update, leave, World, remove}
use vps_sync_gsbs.World.Laws.{Of, update_ne}
use vps_sync_gsbs.World.Writes.{Fact, remove_lem, mkdir_all_lem, create_temp_lem}
use vps_sync_gsbs.Fetch.{failed, run_check, give_up}
use vps_sync_gsbs.Fetch.Guarded.{IsSound, tried}
use vps_sync_gsbs.Snapshot.{run_backup, checked_copy, copied, copy, backup}

-- Every file that was there is as it was.
abbrev pub Untouched : (o : Outside) → Files → Fact o
Untouched o fs f r h = (q : Text) → fs q ≢ none → f q ≡ fs q

-- A file that was not there now holds contents that passed the check.
abbrev pub Copied : (o : Outside) → Files → Text → Fact o
Copied o fs path f r h = Untouched o fs f r h × ((fs path ≡ none) × IsSound o (f path))

module _ (o : Outside) (fs : Files) where
  module _ (path : Text) (new : fs path ≡ none) where
    Untouched-update :
        (v : Option Text) (f : Files) (r : o.Remote) (h : List o.Remote)
        → Untouched o fs f r h
        → Untouched o fs (update f path v) r h
    Untouched-update v f r h old q was =
        update_ne f path v q
          (text_eq-false q path (λ e. was (subst (λ t. fs t ≡ none) (sym e) new)))
        ∙ old q was

    leave-Untouched :
        (v : Option Text) (w : World o)
        → Of o (Untouched o fs) w
        → Of o (Untouched o fs) (leave path v w)
    unfolding leave
    leave-Untouched none w h = h
    leave-Untouched (some u) w h = Untouched-update (some u) w.files w.remote w.history h

    run_backup_lem : (src : Text) → Keeps (Of o (Untouched o fs)) (run_backup src path)
    unfolding run_backup
    run_backup_lem src = record {
      at = λ w h. leave-Untouched (o.sqlite_backup (w.files src) w.ticks).1 w h;
    }

    give_up_lem :
        (e : Error)
        → Triple
            (Of o (Untouched o fs))
            (do give_up path e; pure path)
            (λ p. Of o (Copied o fs p))
            (λ _. Of o (Untouched o fs))
    unfolding give_up
    give_up_lem e =
        Triple-bind {R = λ _ _. ⊥} _ _
          (Triple-bind _ _
            (tried o (Untouched o fs) (remove path) (
              remove_lem o _ _ _ path (λ f r h old. Untouched-update none f r h old)
                (λ f r h old. old)))
            (λ _. Triple-fail e (λ w h. h)))
          (λ _. Triple-pure path (λ w h. absurd h))

    abbrev Holding : Option Text → Fact o
    Holding v f r h = Untouched o fs f r h × (f path ≡ v)

    checked_lem :
        (v : Option Text)
        → Triple
            (Of o (Holding v))
            (checked_copy path (o.quick_check v))
            (λ p. Of o (Copied o fs p))
            (λ _. Of o (Untouched o fs))
    unfolding checked_copy
    checked_lem v =
        Triple-if (failed (o.quick_check v).1 || not (contains (o.quick_check v).0 (text "ok"))) _ _
          (λ _. Triple-weaken _ (λ w h. h.0) (λ a w h. h) (λ k w h. h) (give_up_lem _))
          (λ good. Triple-pure path (λ w h. (h.0, (new, subst (IsSound o) (sym h.1) good))))

    run_check_lem :
        Triple
          (Of o (Untouched o fs))
          (run_check path)
          (λ res w.
            (v : Option Text) × (res ≡ o.quick_check v) × Holding v w.files w.remote w.history)
          (λ _. Of o (Untouched o fs))
    unfolding run_check
    run_check_lem = record { at = λ w h. (w.files path, refl, (h, refl)) }

    copied_lem :
        (said : Text × Option Error)
        → Triple
            (Of o (Untouched o fs))
            (copied path said)
            (λ p. Of o (Copied o fs p))
            (λ _. Of o (Untouched o fs))
    unfolding copied
    copied_lem (out, e) =
        Triple-if (failed e) _ _ (λ _. give_up_lem _)
          (λ _. Triple-bind _ _ run_check_lem (λ res. record {
            at = λ w x.
                let (v, same, held) = x in
                (subst
                    (λ r.
                      Triple (Of o (Holding v)) (checked_copy path r) (λ p. Of o (Copied o fs p))
                        (λ _. Of o (Untouched o fs)))
                    (sym same) (checked_lem v)).at
                  w held;
          }))

  -- A name that no file has is a name that no file had.
  unused :
      (f : Files) (name : Text)
      → ((q : Text) → fs q ≢ none → f q ≡ fs q)
      → f name ≡ none
      → fs name ≡ none
  unused f name old gone = elim (Option-cases (fs name)) [
    | inl absent ↦ absent
    | inr (t, there) ↦
        absurd (ground (arith, gone, there, old name (λ e. ground (arith, e, there))))
  ]

  backup_lem :
      (src : Text)
      → Triple
          (Of o (Untouched o fs))
          (backup src)
          (λ p. Of o (Copied o fs p))
          (λ _. Of o (Untouched o fs))
  unfolding backup copy
  backup_lem src =
      Triple-if (failed (o.look_path (text "sqlite3"))) _ _ (λ _. Triple-fail _ (λ w h. h))
        (λ _. Triple-bind _ _ (mkdir_all_lem o (Untouched o fs) (dir src)) (λ _.
          Triple-bind _ _
            (create_temp_lem o (Untouched o fs)
              (λ path f r h. Untouched o fs f r h × (fs path ≡ none)) (dir src) (text "gsbs-snap-")
              (text ".db")
              (λ f r h x old gone.
                let new = unused f _ old gone in (Untouched-update _ new (some []) f r h old, new)))
            (λ path.
              Triple-fact _
                (λ new. Triple-bind _ _ (run_backup_lem path new src) (copied_lem path new)))))

-- A snapshot that returns gives the path of a file that was not there, whose contents passed the
-- check of `sqlite3`. However it ends, every file that was there is as it was, the database's own
-- included.
pub backup-Copied :
    (o : Outside) (src : Text) (w : World o)
    → Post
        (λ path w'. Copied o w.files path w'.files w'.remote w'.history)
        (λ kind w'. Untouched o w.files w'.files w'.remote w'.history)
        (backup src w).0
        (backup src w).1
backup-Copied o src w = (backup_lem o w.files src).at w (λ q was. refl)
