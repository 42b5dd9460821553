-- ===== src/Config/Load/Paths.antt =====
-- The paths that `Load` returns.
use vps_sync_gsbs.Base.{true, ◌≡◌, inl, inr, [], ◌∷◌, Bool-cases}
use vps_sync_gsbs.Text.{Text, text}
use vps_sync_gsbs.FilePath.{is_abs, join, dir}
use vps_sync_gsbs.FilePath.Absolute.{is_abs-join, is_abs-dir}
use vps_sync_gsbs.Config.Load.{Env, env, absolute, log_path, settings}

is_abs-absolute : (wd p : Text) → is_abs wd ≡ true → is_abs (absolute wd p) ≡ true
unfolding absolute
is_abs-absolute wd p h = elim (Bool-cases (is_abs p)) [
  | inl given ↦ rw given given
  | inr relative ↦ rw relative (is_abs-join wd p h)
]

is_abs-log_path :
    (wd out log : Text) → is_abs wd ≡ true → is_abs out ≡ true → is_abs (log_path wd out log) ≡ true
unfolding log_path
is_abs-log_path wd out [] h k =
    is_abs-join (join (dir out) (text "logs")) _ (is_abs-join (dir out) _ (is_abs-dir out k))
is_abs-log_path wd out (c ∷ log) h k = is_abs-absolute wd (c ∷ log) h

-- Whatever the environment holds, in an absolute working directory the paths of the database, of the
-- output directory and of the log are absolute.
pub settings-is_abs :
    (wd : Text) (e : Env)
    → is_abs wd ≡ true
    → (is_abs (settings wd e).gsbs_db ≡ true)
      × (is_abs (settings wd e).out_dir ≡ true)
      × (is_abs (settings wd e).log_file ≡ true)
unfolding settings
settings-is_abs wd e h = (
  is_abs-absolute wd (env e (text "GSBS_DB") (text "data/gsbs.db")) h,
  is_abs-absolute wd (env e (text "OUT_DIR") (text "out")) h,
  is_abs-log_path wd _ (env e (text "LOG_FILE") []) h (is_abs-absolute wd _ h),
)
