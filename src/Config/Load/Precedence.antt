-- ===== src/Config/Load/Precedence.antt =====
-- Where the value of a variable comes from: the process, then the file of ENV_FILE, then .env.
use vps_sync_gsbs.Base.{◌≡◌, refl, ◌∙◌, Option, none, some, inl, inr, List, [], ◌∷◌, if◌then◌else◌}
use vps_sync_gsbs.Text.{Text, text, is_empty}
use vps_sync_gsbs.Exec.{ok, pure, attempt, gets, ◌>>=◌, bind_of_ok}
use vps_sync_gsbs.Outside.{Outside}
use vps_sync_gsbs.World.{World, Io, getenv, Files, read_file, stat, is_error}
use vps_sync_gsbs.World.Calm.{opened, measured, attempt-read_file, attempt-stat}
use vps_sync_gsbs.Config.DotEnv.{lines, load_dot_env, load_lines}
use vps_sync_gsbs.Config.DotEnv.First.{
  first_value, or_else, with_env, loaded, loaded-first, load_lines_lem,
}
use vps_sync_gsbs.Config.Load.{Env, settings, load}

-- The lines of a file, none if it is not there.
abbrev pub lines_of : Files → Text → List Text
lines_of f p = elim (f p) [ none ↦ [] | some t ↦ lines t ]

-- The lines of the file that ENV_FILE names.
abbrev pub secret_lines : Files → Text → List Text
secret_lines f p = if is_empty p then [] else lines_of f p

module _ {o : Outside} where
  load_lines-opened :
      (path : Text) (w : World o) (v : Option Text)
      → (let m : Io o (Unit {0}) = elim (opened (text "open ") path v) [
        | inl t ↦ load_lines (lines t)
        | inr e ↦ pure tt
      ] in
          m w)
        ≡ (ok tt, with_env w (loaded (elim v [ none ↦ [] | some t ↦ lines t ]) w.env))
  unfolding pure
  load_lines-opened path w none = refl
  load_lines-opened path w (some t) = load_lines_lem (lines t) w

  load_dot_env_lem :
      (path : Text) (w : World o)
      → w.faults ≡ []
      → load_dot_env path w ≡ (ok tt, with_env w (loaded (lines_of w.files path) w.env))
  unfolding load_dot_env
  load_dot_env_lem path w calm =
      bind_of_ok (attempt (read_file path))
        (λ opened. elim opened [ inl t ↦ load_lines (lines t) | inr e ↦ pure tt ]) w
        (attempt-read_file path w calm)
      ∙ load_lines-opened path w (w.files path)

  load_secrets_lem :
      (p : Text) (w : World o)
      → w.faults ≡ []
      → (if is_empty p then pure tt else load_dot_env p) w
        ≡ (ok tt, with_env w (loaded (secret_lines w.files p) w.env))
  unfolding pure
  load_secrets_lem [] w calm = refl
  load_secrets_lem (c ∷ p) w calm = load_dot_env_lem (c ∷ p) w calm

  load_settings_lem :
      (p : Text) (w : World o)
      → w.faults ≡ []
      → (if is_error (measured p (w.files p)) then pure tt else load_dot_env p) w
        ≡ (ok tt, with_env w (loaded (lines_of w.files p) w.env))
  unfolding pure
  load_settings_lem p w calm = go (w.files p) refl
    where
      go :
          (v : Option Text)
          → w.files p ≡ v
          → (if is_error (measured p v) then pure tt else load_dot_env p) w
            ≡ (ok tt, with_env w (loaded (lines_of w.files p) w.env))
      go none e = rw (e, lines_of) refl
      go (some t) e = load_dot_env_lem p w calm

  -- The last step, in the environment that the two files have left.
  load_last :
      (wd : Text) (w : World o)
      → w.faults ≡ []
      → (attempt (stat (text ".env")) >>= λ there.
            ((if is_error there then pure tt else load_dot_env (text ".env")) >>= λ _.
            gets (λ w. settings wd w.env)))
          w
        ≡ (
          ok (settings wd (loaded (lines_of w.files (text ".env")) w.env)),
          with_env w (loaded (lines_of w.files (text ".env")) w.env),
        )
  unfolding gets
  load_last wd w calm =
      bind_of_ok (attempt (stat (text ".env"))) _ w (attempt-stat (text ".env") w calm)
      ∙ bind_of_ok
          (if is_error (measured (text ".env") (w.files (text ".env")))
            then pure tt
            else load_dot_env (text ".env"))
          _ w (load_settings_lem (text ".env") w calm)

-- In a run without faults `Load` returns the settings of the environment in which each variable has
-- the first value that is not empty of these: the one the process got, the first one that the file
-- named by ENV_FILE gives it, the first one that .env gives it. It leaves that environment and
-- changes nothing else.
pub load-precedence :
    (o : Outside) (wd : Text) (w : World o)
    → w.faults ≡ []
    → (e : Env) × (load wd w ≡ (ok (settings wd e), with_env w e))
      × ((k : Text)
          → e k
            ≡ or_else
                (or_else (w.env k) (first_value k (secret_lines w.files (w.env (text "ENV_FILE")))))
                (first_value k (lines_of w.files (text ".env"))))
unfolding load getenv
load-precedence o wd w calm =
    let p = w.env (text "ENV_FILE") in
    let e1 = loaded (secret_lines w.files p) w.env in
    let e2 = loaded (lines_of w.files (text ".env")) e1 in
    (
      e2,
      bind_of_ok (getenv (text "ENV_FILE")) _ w refl
          ∙ bind_of_ok (if is_empty p then pure tt else load_dot_env p) _ w
              (load_secrets_lem p w calm)
          ∙ load_last wd (with_env w e1) calm,
      λ k.
          loaded-first (lines_of w.files (text ".env")) e1 k
          ∙ rw (loaded-first (secret_lines w.files p) w.env k) refl,
    )
