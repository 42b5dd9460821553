-- ===== src/World/Writes.antt =====
-- What the calls of package `os` that change files do, for any statement about the files.
use vps_sync_gsbs.Base.{ℕ, zero, suc, List, [], ◌∷◌, ◌++◌, ◌≡◌, refl, Option, none, some}
use vps_sync_gsbs.Text.{Text}
use vps_sync_gsbs.Exec.{Result, ok}
use vps_sync_gsbs.Exec.Triple.{Triple, Triple-pure, Post, Keeps}
use vps_sync_gsbs.Outside.{Outside}
use vps_sync_gsbs.World.{
  Files, update, Fault, World, leave, write_call, write_file, set_file, remove_found, remove,
  rename_found, rename, mkdir_all, sync, close, try_names, create_temp,
}
use vps_sync_gsbs.World.Laws.{Of, syscall_lem}

abbrev pub Fact : Outside → Type 1
Fact o = Files → o.Remote → List o.Remote → Type 0

module _ (o : Outside) (P Q E : Fact o) where
  module _ (p t : Text) where
    left_lem :
        ((f : Files) (r : o.Remote) (h : List o.Remote) (u : Text)
          → P f r h
          → E (update f p (some u)) r h)
        → ((f : Files) (r : o.Remote) (h : List o.Remote) → P f r h → E f r h)
        → (u : Option Text) (w : World o) → Of o P w
        → Of o E (leave p u w)
    unfolding leave
    left_lem cut kept none w h = kept _ _ _ h
    left_lem cut kept (some u) w h = cut _ _ _ u h

    -- A write that returns has written all; one that fails may have left anything in its file.
    pub write_file_lem :
        ((f : Files) (r : o.Remote) (h : List o.Remote) → P f r h → Q (update f p (some t)) r h)
        → ((f : Files) (r : o.Remote) (h : List o.Remote) (u : Text)
            → P f r h
            → E (update f p (some u)) r h)
        → ((f : Files) (r : o.Remote) (h : List o.Remote) → P f r h → E f r h)
        → Triple (Of o P) (write_file p t) (λ _. Of o Q) (λ _. Of o E)
    unfolding write_file write_call set_file
    write_file_lem done cut kept = record { at = λ w h. go w.faults w h }
      where
        go :
            (fs : List (Option Fault)) (w : World o)
            → Of o P w
            → Post (λ _. Of o Q) (λ _. Of o E) (write_call fs p t w).0 (write_call fs p t w).1
        go [] w h = done _ _ _ h
        go (none ∷ fs) w h = done _ _ _ h
        go (some f ∷ fs) w h = left_lem cut kept f.left (record w { faults = fs }) h

  module _ (p : Text) where
    pub remove_lem :
        ((f : Files) (r : o.Remote) (h : List o.Remote) → P f r h → Q (update f p none) r h)
        → ((f : Files) (r : o.Remote) (h : List o.Remote) → P f r h → E f r h)
        → Triple (Of o P) (remove p) (λ _. Of o Q) (λ _. Of o E)
    unfolding remove remove_found set_file
    remove_lem done kept =
        syscall_lem o P _ (record { at = λ w h. go (w.files p) w h }) (λ w h. kept _ _ _ h)
      where
        go :
            (v : Option Text) (w : World o)
            → Of o P w
            → Post (λ _. Of o Q) (λ _. Of o E) (remove_found p v w).0 (remove_found p v w).1
        go none w h = kept _ _ _ h
        go (some t) w h = done _ _ _ h

    -- A rename moves the whole file, or changes nothing.
    pub rename_lem :
        (q : Text)
        → ((f : Files) (r : o.Remote) (h : List o.Remote) (t : Text)
            → P f r h
            → f p ≡ some t
            → Q (update (update f p none) q (some t)) r h)
        → ((f : Files) (r : o.Remote) (h : List o.Remote) → P f r h → E f r h)
        → Triple (Of o P) (rename p q) (λ _. Of o Q) (λ _. Of o E)
    unfolding rename rename_found
    rename_lem q done kept =
        syscall_lem o P _ (record { at = λ w h. go (w.files p) w h refl }) (λ w h. kept _ _ _ h)
      where
        go :
            (v : Option Text) (w : World o)
            → Of o P w
            → w.files p ≡ v
            → Post (λ _. Of o Q) (λ _. Of o E) (rename_found p q v w).0 (rename_found p q v w).1
        go none w h e = kept _ _ _ h
        go (some t) w h e = done _ _ _ t h e

module _ (o : Outside) (P : Fact o) where
  pub mkdir_all_lem : (p : Text) → Keeps (Of o P) (mkdir_all p)
  unfolding mkdir_all
  mkdir_all_lem p = syscall_lem o P _ (Triple-pure tt (λ w h. h)) (λ w h. h)

  pub sync_lem : (p : Text) → Keeps (Of o P) (sync p)
  unfolding sync
  sync_lem p = syscall_lem o P _ (Triple-pure tt (λ w h. h)) (λ w h. h)

  pub close_lem : (p : Text) → Keeps (Of o P) (close p)
  unfolding close
  close_lem p = syscall_lem o P _ (Triple-pure tt (λ w h. h)) (λ w h. h)

module _ (o : Outside) (P : Fact o) (Q : Text → Fact o) where
  -- A temporary file is new, and its name has the given ends.
  abbrev Creates : Text → Text → Type 0
  Creates front back =
      (f : Files) (r : o.Remote) (h : List o.Remote) (x : Text)
      → P f r h
      → f (front ++ (x ++ back)) ≡ none
      → Q (front ++ (x ++ back)) (update f (front ++ (x ++ back)) (some [])) r h

  try_names_lem :
      (n : ℕ) (front back : Text)
      → Creates front back
      → Triple (Of o P) (try_names n front back) (λ name. Of o (Q name)) (λ _. Of o P)
  unfolding try_names
  try_names_lem zero front back new = record { at = λ w h. h }
  try_names_lem (suc n) front back new = record {
    at = λ w h.
        go w h (try_names_lem n front back new) (w.files (front ++ (o.random w.ticks ++ back)))
          refl;
  }
    where
      go :
          (w : World o)
          → Of o P w
          → Triple (Of o P) (try_names n front back) (λ name. Of o (Q name)) (λ _. Of o P)
          → (v : Option Text) → w.files (front ++ (o.random w.ticks ++ back)) ≡ v
          → let w' : World o = record w { ticks = suc w.ticks } in
            let name : Text = front ++ (o.random w.ticks ++ back) in
            let res : Result Text × World o = elim v [
              | none ↦ (ok name, record w' { files = update w.files name (some []) })
              | some t ↦ try_names n front back w'
            ] in
            Post (λ name. Of o (Q name)) (λ _. Of o P) res.0 res.1
      go w h rest none e = new _ _ _ (o.random w.ticks) h e
      go w h rest (some t) e = rest.at (record w { ticks = suc w.ticks }) h

  pub create_temp_lem :
      (dir front back : Text)
      → Creates (dir ++ (b'/' ∷ front)) back
      → Triple (Of o P) (create_temp dir front back) (λ name. Of o (Q name)) (λ _. Of o P)
  unfolding create_temp
  create_temp_lem dir front back new =
      syscall_lem o P _ (try_names_lem 10000 (dir ++ (b'/' ∷ front)) back new) (λ w h. h)
