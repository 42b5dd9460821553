-- ===== src/World/Laws.antt =====
-- What the calls of package `os` do to the files, and that they leave the object store alone.
use vps_sync_gsbs.Base.{
  ℕ, true, false, List, [], ◌∷◌, ◌≡◌, refl, ◌⊎◌, inl, inr, Option, none, some, arith, length,
}
use vps_sync_gsbs.Text.{Text, text_eq, text_eq_refl, text}
use vps_sync_gsbs.Exec.{Kind, plain, not_exist, Error, attempt}
use vps_sync_gsbs.Exec.Triple.{
  Triple, Triple-bind, Triple-pure, Triple-attempt, Triple-weaken, Either, Post,
}
use vps_sync_gsbs.Outside.{Outside}
use vps_sync_gsbs.World.{
  Files, update, World, Io, Fault, call, syscall, found, read_file, stat, now, request,
  is_not_exist,
}

pub update_self : (f : Files) (p : Text) (v : Option Text) → update f p v p ≡ v
unfolding update
update_self f p v = ground (arith, text_eq_refl p)

pub update_ne :
    (f : Files) (p : Text) (v : Option Text) (q : Text) → text_eq q p ≡ false → update f p v q ≡ f q
unfolding update
update_ne f p v q h = ground arith

kind_of_not_exist : (e : Error) → is_not_exist {A = ℕ} (inr e) ≡ true → e.kind ≡ not_exist
kind_of_not_exist e h = ground arith

-- Statements about the files and the object store, which the pending faults do not touch.
abbrev pub Of : (o : Outside) → (Files → o.Remote → List o.Remote → Type 0) → World o → Type 0
Of o P w = P w.files w.remote w.history

module _ (o : Outside) (P : Files → o.Remote → List o.Remote → Type 0) where
  -- Nothing is known when a call fails but that it changed nothing.
  call_lem :
      {A : Type 0} {Q : A → World o → Type 0} {E : Kind → World o → Type 0}
      (fs : List (Option Fault)) (m : Io o A)
      → Triple (Of o P) m Q E
      → ((w : World o) → P w.files w.remote w.history → E plain w)
      → Triple (Of o P) (call fs m) Q E
  unfolding call
  call_lem [] m k e = record { at = λ w h. k.at w h }
  call_lem (none ∷ fs) m k e = record { at = λ w h. k.at (record w { faults = fs }) h }
  call_lem (some f ∷ fs) m k e = record { at = λ w h. e (record w { faults = fs }) h }

  pub syscall_lem :
      {A : Type 0} {Q : A → World o → Type 0} {E : Kind → World o → Type 0} (m : Io o A)
      → Triple (Of o P) m Q E
      → ((w : World o) → P w.files w.remote w.history → E plain w)
      → Triple (Of o P) (syscall m) Q E
  unfolding syscall
  syscall_lem m k e = record { at = λ w h. (call_lem w.faults m k e).at w h }

  found_lem :
      (word p : Text)
      → Triple
          (Of o P)
          (λ w. found {o = o} word p (w.files p) w)
          (λ t w. P w.files w.remote w.history × (w.files p ≡ some t))
          (λ k w. P w.files w.remote w.history × (k ≡ not_exist → w.files p ≡ none))
  unfolding found
  found_lem word p = record { at = λ w h. go w h (w.files p) refl }
    where
      go :
          (w : World o)
          → P w.files w.remote w.history
          → (v : Option Text) → w.files p ≡ v
          → Post
              (λ t w. P w.files w.remote w.history × (w.files p ≡ some t))
              (λ k w. P w.files w.remote w.history × (k ≡ not_exist → w.files p ≡ none))
              (found word p v w).0
              (found word p v w).1
      go w h none e = (h, λ _. e)
      go w h (some t) e = (h, e)

  pub read_file_lem :
      (p : Text)
      → Triple
          (Of o P)
          (read_file p)
          (λ t w. P w.files w.remote w.history × (w.files p ≡ some t))
          (λ k w. P w.files w.remote w.history × (k ≡ not_exist → w.files p ≡ none))
  unfolding read_file
  read_file_lem p = syscall_lem _ (found_lem (text "open ") p) (λ w h. (h, λ e. cc))

  pub stat_lem :
      (p : Text)
      → Triple
          (Of o P)
          (stat p)
          (λ n w. P w.files w.remote w.history × (t : Text) × (w.files p ≡ some t) × (n ≡ length t))
          (λ k w. P w.files w.remote w.history × (k ≡ not_exist → w.files p ≡ none))
  unfolding stat
  stat_lem p =
      Triple-bind _ _ (syscall_lem _ (found_lem (text "stat ") p) (λ w h. (h, λ e. cc)))
        (λ t. Triple-pure (length t) (λ w h. (h.0, t, h.1, refl)))

  pub stat_try :
      (p : Text)
      → Triple
          (Of o P)
          (attempt (stat p))
          (λ found w. P w.files w.remote w.history × (is_not_exist found ≡ true → w.files p ≡ none))
          (λ _. Of o P)
  stat_try p = Triple-weaken _ (λ w h. h) settle (λ k w h. h.0) (Triple-attempt _ (stat_lem p))
    where
      settle :
          (found : ℕ ⊎ Error) (w : World o)
          → Either
              (λ n w.
                P w.files w.remote w.history × (t : Text) × (w.files p ≡ some t) × (n ≡ length t))
              (λ k w. P w.files w.remote w.history × (k ≡ not_exist → w.files p ≡ none))
              found
              w
          → P w.files w.remote w.history × (is_not_exist found ≡ true → w.files p ≡ none)
      settle (inl n) w h = (h.0, λ e. cc)
      settle (inr e) w h = (h.0, λ t. h.1 (kind_of_not_exist e t))

  -- What is asked of the clock or of the random source changes nothing else.
  pub now_lem : Triple (Of o P) now (λ t w. P w.files w.remote w.history) (λ _. Of o P)
  unfolding now
  now_lem = record { at = λ w h. h }

  -- A request moves the object store on, and its new state is noted.
  pub request_lem :
      {A : Type 0} {Q : A → World o → Type 0} (ask : o.Remote → A × o.Remote)
      → ((w : World o)
          → P w.files w.remote w.history
          → Q
              (ask w.remote).0
              (record w { remote = (ask w.remote).1; history = (ask w.remote).1 ∷ w.history }))
      → Triple (Of o P) (request ask) Q (λ _ _. ⊥)
  unfolding request
  request_lem ask h = record { at = h }
