-- ===== src/World.antt =====
-- The state of a run, and the calls of package `os` that the program makes.
pub mod Laws
pub mod Apart
pub mod Calm
pub mod Reads
pub mod Writes
use vps_sync_gsbs.Base.{
  ◌⊎◌, inl, inr, true, false, ℕ, zero, suc, Bool, false, not, ◌||◌, Option, none, some, List, [],
  ◌∷◌, ◌++◌, length, ◌==◌, if◌then◌else◌,
}
use vps_sync_gsbs.Text.{Text, text, text_eq, is_empty}
use vps_sync_gsbs.Text.Stamp.{Moment}
use vps_sync_gsbs.Exec.{not_exist, Error, errorf, ok, err, Exec, pure, ◌>>=◌}
use vps_sync_gsbs.Outside.{Outside}

any_of : (ℕ → Bool) → Text → Bool
any_of p [] = false
any_of p (c ∷ s) = p c || any_of p s

-- What `os.Setenv` takes: it refuses an empty name, and one with `=` or NUL in it, and a value with
-- NUL in it.
unfoldable pub settable : Text → Text → Bool
unfolding any_of
settable k v = not (is_empty k || any_of (λ c. c == b'=' || c == 0) k || any_of (λ c. c == 0) v)

-- Files by path.
abbrev pub Files : Type 0
Files = Text → Option Text

unfoldable pub update : Files → Text → Option Text → Files
update f p v q = if text_eq q p then v else f q

-- A failure of a call to the operating system. A write that fails may leave other contents behind.
pub record Fault : Type 0 where
  pub message : Text
  pub left : Option Text

pub record World (o : Outside) : Type 0 where
  -- Paths that name no file have `none`. Directories are not modelled: a missing one shows as a fault.
  pub files : Files
  -- `os.Getenv`, which is empty for a variable that is not set.
  pub env : Text → Text
  -- For each next call to the operating system, whether it fails; none of the later ones fails.
  pub faults : List (Option Fault)
  -- How often the clock or the random source was asked.
  pub ticks : ℕ
  pub remote : o.Remote
  -- The states that the object store went through, the last one first. No code reads them.
  pub history : List o.Remote
  -- The webhook's requests, URL and payload, the last one first. No code reads them.
  pub posts : List (Text × Text)

-- `*PathError` for a file that is not there.
abbrev missing : Text → Text → Error
missing call p = record {
  message = call ++ (p ++ text ": no such file or directory");
  kind = not_exist;
}

abbrev pub Io : Outside → Type 0 → Type 0
Io o A = Exec (World o) A

-- `os.IsNotExist`
abbrev pub is_not_exist : {A : Type 0} → A ⊎ Error → Bool
is_not_exist (inl a) = false
is_not_exist (inr e) = elim e.kind [ not_exist ↦ true | _ ↦ false ]

-- `err != nil`
abbrev pub is_error : {A : Type 0} → A ⊎ Error → Bool
is_error (inl a) = false
is_error (inr e) = true

module _ {o : Outside} where
  -- A call that changes nothing when it fails.
  call : {A : Type 0} → List (Option Fault) → Io o A → Io o A
  call [] m w = m w
  call (none ∷ fs) m w = m (record w { faults = fs })
  call (some f ∷ fs) m w = (err (errorf f.message), record w { faults = fs })

  pub syscall : {A : Type 0} → Io o A → Io o A
  unfolding call
  syscall m w = call w.faults m w

  found : Text → Text → Option Text → Io o Text
  found call p none w = (err (missing call p), w)
  found call p (some t) w = (ok t, w)

  set_file : Text → Option Text → Io o (Unit {0})
  unfolding update
  set_file p v w = (ok tt, record w { files = update w.files p v })

  -- `os.ReadFile`, and `os.Open` with the reading of the whole file.
  unfoldable pub read_file : Text → Io o Text
  unfolding syscall found
  read_file p = syscall (λ w. found (text "open ") p (w.files p) w)

  -- `os.Stat`, with the size of the file.
  unfoldable pub stat : Text → Io o ℕ
  unfolding syscall found
  stat p = do t ← syscall (λ w. found (text "stat ") p (w.files p) w); pure (length t)

  -- A fault may cut a write short.
  unfoldable pub leave : Text → Option Text → World o → World o
  unfolding update
  leave p none w = w
  leave p (some u) w = record w { files = update w.files p (some u) }

  write_call : List (Option Fault) → Text → Text → Io o (Unit {0})
  unfolding set_file leave
  write_call [] p t w = set_file p (some t) w
  write_call (none ∷ fs) p t w = set_file p (some t) (record w { faults = fs })
  write_call (some f ∷ fs) p t w =
      (err (errorf f.message), leave p f.left (record w { faults = fs }))

  -- `os.WriteFile`, and `os.Create` with the writing of the whole contents.
  unfoldable pub write_file : Text → Text → Io o (Unit {0})
  unfolding write_call
  write_file p t w = write_call w.faults p t w

  remove_found : Text → Option Text → Io o (Unit {0})
  unfolding set_file
  remove_found p none w = (err (missing (text "remove ") p), w)
  remove_found p (some t) w = set_file p none w

  -- `os.Remove`
  unfoldable pub remove : Text → Io o (Unit {0})
  unfolding syscall remove_found
  remove p = syscall (λ w. remove_found p (w.files p) w)

  rename_found : Text → Text → Option Text → Io o (Unit {0})
  unfolding update
  rename_found p q none w = (err (missing (text "rename ") p), w)
  rename_found p q (some t) w =
      (ok tt, record w { files = update (update w.files p none) q (some t) })

  -- `os.Rename`, which puts the whole file in the place of the old one.
  unfoldable pub rename : Text → Text → Io o (Unit {0})
  unfolding syscall rename_found
  rename p q = syscall (λ w. rename_found p q (w.files p) w)

  -- Calls whose effect is not in the model, but which may fail: `os.MkdirAll`, `Sync`, `Close`.
  unfoldable pub mkdir_all : Text → Io o (Unit {0})
  unfolding syscall
  mkdir_all p = syscall (pure tt)

  unfoldable pub sync : Text → Io o (Unit {0})
  unfolding syscall
  sync p = syscall (pure tt)

  unfoldable pub close : Text → Io o (Unit {0})
  unfolding syscall
  close p = syscall (pure tt)

  -- The clock and the random source.
  unfoldable pub now : Io o Moment
  now w = (ok (o.clock w.ticks), record w { ticks = suc w.ticks })

  unfoldable pub random_name : Io o Text
  random_name w = (ok (o.random w.ticks), record w { ticks = suc w.ticks })

  -- `os.CreateTemp(dir, front + "*" + back)`: a name in `dir` that no file has, tried ten thousand
  -- times, for an empty new file.
  try_names : ℕ → Text → Text → Io o Text
  unfolding set_file
  try_names zero front back w = (err (errorf (text "createtemp: file exists")), w)
  try_names (suc n) front back w =
      let name : Text = front ++ (o.random w.ticks ++ back) in
      let w' : World o = record w { ticks = suc w.ticks } in
      elim (w.files name) [
        | none ↦ (ok name, record w' { files = update w.files name (some []) })
        | some t ↦ try_names n front back w'
      ]

  unfoldable pub create_temp : Text → Text → Text → Io o Text
  unfolding syscall try_names
  create_temp dir front back = syscall (try_names 10000 (dir ++ (b'/' ∷ front)) back)

  -- `os.Getenv` and `os.Setenv`
  unfoldable pub getenv : Text → Io o Text
  getenv k w = (ok (w.env k), w)

  -- The code drops the error of `Setenv`.
  unfoldable pub setenv : Text → Text → Io o (Unit {0})
  unfolding settable
  setenv k v w =
      if settable k v
      then (ok tt, record w { env = λ j. if text_eq j k then v else w.env j })
      else (ok tt, w)

  -- A request that may change the object store. Its new state is noted in the history.
  unfoldable pub request : {A : Type 0} → (o.Remote → A × o.Remote) → Io o A
  request call w =
      let (a, r) = call w.remote in (ok a, record w { remote = r; history = r ∷ w.history })
