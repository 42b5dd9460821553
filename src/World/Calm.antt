-- ===== src/World/Calm.antt =====
-- The calls of package `os` in a world without faults.
use vps_sync_gsbs.Base.{
  false, List, [], ◌∷◌, ◌≡◌, refl, ap, ◌∙◌, arith, ◌⊎◌, inl, inr, Option, none, some, ℕ, length,
}
use vps_sync_gsbs.Text.{Text, text, text_eq}
use vps_sync_gsbs.Exec.{Error, Result, ok, pure, attempt, caught, continue, ◌>>=◌}
use vps_sync_gsbs.Outside.{Outside}
use vps_sync_gsbs.World.Laws.{update_self, update_ne}
use vps_sync_gsbs.World.{
  World, Io, Fault, Files, update, missing, call, syscall, mkdir_all, write_file, write_call,
  set_file, remove, remove_found, found, read_file, stat,
}

abbrev pub opened : Text → Text → Option Text → Text ⊎ Error
opened word p none = inr (missing word p)
opened word p (some t) = inl t

abbrev pub measured : Text → Option Text → ℕ ⊎ Error
measured p none = inr (missing (text "stat ") p)
measured p (some t) = inl (length t)

call_calm :
    {o : Outside} {A : Type 0} (fs : List (Option Fault)) (m : Io o A) (w : World o)
    → fs ≡ []
    → call fs m w ≡ m w
unfolding call
call_calm [] m w e = refl
call_calm (f ∷ fs) m w e = absurd (ground arith)

module _ {o : Outside} (p : Text) (w : World o) (calm : w.faults ≡ []) where
  pub attempt-read_file : attempt (read_file p) w ≡ (ok (opened (text "open ") p (w.files p)), w)
  unfolding attempt read_file syscall found
  attempt-read_file =
      ap (λ (r : Result Text × World o). (caught r.0, r.1)) (call_calm w.faults _ w calm)
      ∙ go (w.files p)
    where
      go :
          (v : Option Text)
          → attempt (λ w. found (text "open ") p v w) w ≡ (ok (opened (text "open ") p v), w)
      go none = refl
      go (some t) = refl

  pub attempt-stat : attempt (stat p) w ≡ (ok (measured p (w.files p)), w)
  unfolding attempt stat syscall found ◌>>=◌
  attempt-stat =
      ap
        (λ (r : Result Text × World o).
          let s = continue r.0 (λ t. pure (length t)) r.1 in (caught s.0, s.1))
        (call_calm w.faults _ w calm)
      ∙ go (w.files p)
    where
      go :
          (v : Option Text)
          → attempt ((λ w. found (text "stat ") p v w) >>= λ t. pure (length t)) w
            ≡ (ok (measured p v), w)
      go none = refl
      go (some t) = refl

module _ {o : Outside} (p : Text) (w : World o) (calm : w.faults ≡ []) where
  pub mkdir_all_calm : mkdir_all p w ≡ (ok tt, w)
  unfolding mkdir_all syscall pure
  mkdir_all_calm = call_calm w.faults _ w calm

  pub write_file_calm :
      (t : Text) → write_file p t w ≡ (ok tt, record w { files = update w.files p (some t) })
  unfolding write_file write_call set_file
  write_file_calm t = go w.faults calm
    where
      go :
          (fs : List (Option Fault))
          → fs ≡ []
          → write_call fs p t w ≡ (ok tt, record w { files = update w.files p (some t) })
      go [] e = refl
      go (f ∷ fs) e = absurd (ground (arith, e))

  -- A removal leaves no file, whether there was one or not.
  pub attempt-remove_calm :
      (r : (Unit {0}) ⊎ Error) × (f : Files) × (attempt (remove p) w
        ≡ (ok r, record w { files = f }))
      × (f p ≡ none)
      × ((q : Text) → text_eq q p ≡ false → f q ≡ w.files q)
  unfolding attempt remove syscall remove_found set_file
  attempt-remove_calm =
      let (r, f, e, gone, others) = go (w.files p) refl in
      (
        r,
        f,
        ap (λ (x : Result (Unit {0}) × World o). (caught x.0, x.1)) (call_calm w.faults _ w calm)
            ∙ e,
        gone,
        others,
      )
    where
      go :
          (v : Option Text)
          → w.files p ≡ v
          → (r : (Unit {0}) ⊎ Error) × (f : Files) × (attempt (λ w. remove_found p v w) w
              ≡ (ok r, record w { files = f }))
            × (f p ≡ none)
            × ((q : Text) → text_eq q p ≡ false → f q ≡ w.files q)
      go none e = (inr (missing (text "remove ") p), w.files, refl, e, λ q h. refl)
      go (some t) e = (
        inl tt,
        update w.files p none,
        refl,
        update_self w.files p none,
        λ q h. update_ne w.files p none q h,
      )
