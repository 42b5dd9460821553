-- ===== src/World/Apart.antt =====
-- Actions that concern files, programs and the clock: what holds of the object store stays, and
-- where no fault is pending, none is.
use vps_sync_gsbs.Base.{
  ℕ, zero, suc, List, [], ◌∷◌, ◌≡◌, refl, sym, ◌∙◌, Bool, true, false, ◌⊎◌, inl, inr, Option, none,
  some, ◌++◌, arith, if◌then◌else◌,
}
use vps_sync_gsbs.Text.{Text}
use vps_sync_gsbs.Exec.{
  Error, Result, ok, err, panic, pure, fail, lift, attempt, wrap, deferred, ◌>>=◌,
}
use vps_sync_gsbs.Exec.Triple.{
  Triple-bind, Triple-pure, Triple-fail, Triple-attempt, Triple-wrap, Triple-weaken,
  Triple-deferred, Keeps, Keeps-lift, Keeps-state, Either, Post,
}
use vps_sync_gsbs.Outside.{Outside}
use vps_sync_gsbs.World.{
  World, Io, Fault, call, syscall, found, read_file, stat, leave, write_call, write_file,
  remove_found, remove, rename_found, rename, mkdir_all, sync, close, now, try_names, create_temp,
  getenv, set_file, update,
}

-- The object store is in the state that it had in the world `v`, after the same states, and no fault
-- is pending if none was in `v`.
pub record Since {o : Outside} (v w : World o) : Type 0 where
  pub remote : w.remote ≡ v.remote
  pub history : w.history ≡ v.history
  pub calm : v.faults ≡ [] → w.faults ≡ []

abbrev pub Since-self : {o : Outside} (w : World o) → Since w w
Since-self w = record { remote = refl; history = refl; calm = λ e. e }

-- Files and the clock move on.
pub Since-moved :
    {o : Outside} (v w w' : World o)
    → w'.remote ≡ w.remote
    → w'.history ≡ w.history
    → w'.faults ≡ w.faults
    → Since v w
    → Since v w'
Since-moved v w w' r h f k = record {
  remote = r ∙ k.remote;
  history = h ∙ k.history;
  calm = λ e. f ∙ k.calm e;
}

-- A pending fault is used up.
Since-dropped :
    {o : Outside} (v w : World o) (x : Option Fault) (fs : List (Option Fault))
    → w.faults ≡ x ∷ fs
    → Since v w
    → Since v (record w { faults = fs })
Since-dropped v w x fs e k = record {
  remote = k.remote;
  history = k.history;
  calm = λ c. absurd (ground (arith, sym e ∙ k.calm c));
}

-- An action that leaves the object store alone, however it ends.
pub record Apart {o : Outside} {A : Type 0} (m : Io o A) : Type 0 where
  pub keeps : (v : World o) → Keeps (Since v) m

module _ {o : Outside} {A : Type 0} where
  Since-Post :
      (v : World o) (x : Result A) (w : World o)
      → Since v w
      → Post (λ _. Since v) (λ _. Since v) x w
  Since-Post v (ok a) w k = k
  Since-Post v (err e) w k = k
  Since-Post v (panic t) w k = k

  -- It is enough to look at the world that is left.
  pub Apart-result : (m : Io o A) → ((v w : World o) → Since v w → Since v (m w).1) → Apart m
  Apart-result m k = record {
    keeps = λ v. record { at = λ w x. Since-Post v (m w).0 (m w).1 (k v w x) };
  }

  pub Apart-pure : (a : A) → Apart {o = o} (pure a)
  Apart-pure a = record { keeps = λ v. Triple-pure a (λ w k. k) }

  pub Apart-fail : (e : Error) → Apart {o = o} {A = A} (fail e)
  Apart-fail e = record { keeps = λ v. Triple-fail e (λ w k. k) }

  pub Apart-lift : (x : Result A) → Apart {o = o} (lift x)
  Apart-lift x = record { keeps = λ v. Keeps-lift x }

  pub Apart-wrap : (t : Text) (m : Io o A) → Apart m → Apart (wrap t m)
  Apart-wrap t m k = record { keeps = λ v. Triple-wrap t m (k.keeps v) }

  pub Apart-attempt : (m : Io o A) → Apart m → Apart (attempt m)
  Apart-attempt m k = record {
    keeps = λ v. Triple-weaken _ (λ w x. x) (settle v) (λ e w x. x) (Triple-attempt m (k.keeps v));
  }
    where
      settle :
          (v : World o) (x : A ⊎ Error) (w : World o)
          → Either (λ _. Since v) (λ _. Since v) x w
          → Since v w
      settle v (inl a) w k = k
      settle v (inr e) w k = k

  pub Apart-if :
      (b : Bool) (m n : Io o A)
      → (b ≡ true → Apart m)
      → (b ≡ false → Apart n)
      → Apart (if b then m else n)
  Apart-if true m n km kn = km refl
  Apart-if false m n km kn = kn refl

-- A clean-up that is deferred.
pub Apart-deferred :
    {o : Outside} {A B : Type 0} (c : Io o B) (m : Io o A)
    → Apart c
    → Apart m
    → Apart (deferred (λ w. (c w).1) m)
Apart-deferred {o} c m kc km = record {
  keeps = λ v.
      Triple-deferred (λ w. (c w).1) m (λ a w k. Keeps-state (Since v) c (kc.keeps v) w k)
        (λ e w k. Keeps-state (Since v) c (kc.keeps v) w k) (km.keeps v);
}

-- Both cases of what was tried.
pub Apart-cases :
    {o : Outside} {A B : Type 0} (f : A → Io o B) (g : Error → Io o B)
    → ((a : A) → Apart (f a))
    → ((e : Error) → Apart (g e))
    → (x : A ⊎ Error) → Apart (elim x [ inl a ↦ f a | inr e ↦ g e ])
Apart-cases f g kf kg (inl a) = kf a
Apart-cases f g kf kg (inr e) = kg e

pub Apart-bind :
    {o : Outside} {A B : Type 0} (m : Io o A) (f : A → Io o B)
    → Apart m
    → ((a : A) → Apart (f a))
    → Apart (m >>= f)
Apart-bind m f km kf = record { keeps = λ v. Triple-bind m f (km.keeps v) (λ a. (kf a).keeps v) }

module _ {o : Outside} where
  module _ {A : Type 0} (m : Io o A) (k : Apart m) where
    call-Since :
        (fs : List (Option Fault)) (v w : World o)
        → w.faults ≡ fs
        → Since v w
        → Since v (call fs m w).1
    unfolding call
    call-Since [] v w e h = Keeps-state (Since v) m (k.keeps v) w h
    call-Since (none ∷ fs) v w e h =
        Keeps-state (Since v) m (k.keeps v) (record w { faults = fs })
          (Since-dropped v w none fs e h)
    call-Since (some f ∷ fs) v w e h = Since-dropped v w (some f) fs e h

    pub Apart-syscall : Apart (syscall m)
    unfolding syscall
    Apart-syscall = Apart-result _ (λ v w h. call-Since w.faults v w refl h)

  found-Apart : (word p : Text) → Apart {o = o} (λ w. found word p (w.files p) w)
  unfolding found
  found-Apart word p = Apart-result _ (λ v w h. go (w.files p) v w h)
    where
      go : (x : Option Text) (v w : World o) → Since v w → Since v (found word p x w).1
      go none v w h = h
      go (some t) v w h = h

  pub Apart-read_file : (p : Text) → Apart {o = o} (read_file p)
  unfolding read_file
  Apart-read_file p = Apart-syscall _ (found-Apart _ p)

  pub Apart-stat : (p : Text) → Apart {o = o} (stat p)
  unfolding stat
  Apart-stat p = Apart-bind _ _ (Apart-syscall _ (found-Apart _ p)) (λ t. Apart-pure _)

  -- What a program or a write that fails leaves in a file.
  pub leave-Since :
      (v : World o) (p : Text) (x : Option Text) (w : World o) → Since v w → Since v (leave p x w)
  unfolding leave
  leave-Since v p none w k = k
  leave-Since v p (some t) w k = Since-moved v w _ refl refl refl k

  pub Apart-write_file : (p t : Text) → Apart {o = o} (write_file p t)
  unfolding write_file write_call set_file
  Apart-write_file p t = Apart-result _ (λ v w h. go w.faults v w refl h)
    where
      go :
          (fs : List (Option Fault)) (v w : World o)
          → w.faults ≡ fs
          → Since v w
          → Since v (write_call fs p t w).1
      go [] v w e h = Since-moved v w _ refl refl refl h
      go (none ∷ fs) v w e h =
          Since-moved v (record w { faults = fs }) _ refl refl refl (Since-dropped v w _ fs e h)
      go (some f ∷ fs) v w e h = leave-Since v p f.left _ (Since-dropped v w _ fs e h)

  pub Apart-remove : (p : Text) → Apart {o = o} (remove p)
  unfolding remove remove_found set_file
  Apart-remove p = Apart-syscall _ (Apart-result _ (λ v w h. go (w.files p) v w h))
    where
      go : (x : Option Text) (v w : World o) → Since v w → Since v (remove_found p x w).1
      go none v w h = h
      go (some t) v w h = Since-moved v w _ refl refl refl h

  pub Apart-rename : (p q : Text) → Apart {o = o} (rename p q)
  unfolding rename rename_found
  Apart-rename p q = Apart-syscall _ (Apart-result _ (λ v w h. go (w.files p) v w h))
    where
      go : (x : Option Text) (v w : World o) → Since v w → Since v (rename_found p q x w).1
      go none v w h = h
      go (some t) v w h = Since-moved v w _ refl refl refl h

  pub Apart-mkdir_all : (p : Text) → Apart {o = o} (mkdir_all p)
  unfolding mkdir_all
  Apart-mkdir_all p = Apart-syscall _ (Apart-pure tt)

  pub Apart-sync : (p : Text) → Apart {o = o} (sync p)
  unfolding sync
  Apart-sync p = Apart-syscall _ (Apart-pure tt)

  pub Apart-close : (p : Text) → Apart {o = o} (close p)
  unfolding close
  Apart-close p = Apart-syscall _ (Apart-pure tt)

  pub Apart-now : Apart {o = o} now
  unfolding now
  Apart-now = Apart-result _ (λ v w h. Since-moved v w _ refl refl refl h)

  try_names-Since :
      (n : ℕ) (front back : Text) (v w : World o) → Since v w → Since v (try_names n front back w).1
  unfolding try_names set_file
  try_names-Since zero front back v w h = h
  try_names-Since (suc n) front back v w h =
      let name : Text = front ++ (o.random w.ticks ++ back) in
      go (w.files name) (
        try_names-Since n front back v (record w { ticks = suc w.ticks })
          (Since-moved v w _ refl refl refl h))
    where
      go :
          (x : Option Text)
          → Since v (try_names n front back (record w { ticks = suc w.ticks })).1
          → let w' : World o = record w { ticks = suc w.ticks } in
            let name : Text = front ++ (o.random w.ticks ++ back) in
            let res : Result Text × World o = elim x [
              | none ↦ (ok name, record w' { files = update w.files name (some []) })
              | some t ↦ try_names n front back w'
            ] in
            Since v res.1
      go none rest = Since-moved v w _ refl refl refl h
      go (some t) rest = rest

  pub Apart-create_temp : (dir front back : Text) → Apart {o = o} (create_temp dir front back)
  unfolding create_temp
  Apart-create_temp dir front back = Apart-syscall _ (Apart-result _ (try_names-Since 10000 _ back))

  pub Apart-getenv : (k : Text) → Apart {o = o} (getenv k)
  unfolding getenv
  Apart-getenv k = Apart-result _ (λ v w h. h)

pub ruleset apart = (
  Apart-pure, Apart-fail, Apart-lift, Apart-wrap, Apart-attempt, Apart-if, Apart-bind, Apart-stat,
  Apart-read_file, Apart-write_file, Apart-remove, Apart-rename, Apart-mkdir_all, Apart-sync,
  Apart-close, Apart-create_temp, Apart-now, Apart-getenv,
)
