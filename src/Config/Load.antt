-- ===== src/Config/Load.antt =====
-- `Load`, with `env`, `envBool` and `envInt`.
pub mod Precedence
pub mod Paths
use vps_sync_gsbs.Base.{
  ℕ, Bool, true, false, not, ◌&&◌, ◌||◌, ◌⊎◌, inl, inr, Option, none, some, List, [], ◌∷◌,
  if◌then◌else◌,
}
use vps_sync_gsbs.Base.Int.{ℤ, pos}
use vps_sync_gsbs.Text.{Text, text, text_eq, is_empty}
use vps_sync_gsbs.Text.Strings.{trim_space, to_lower}
use vps_sync_gsbs.Text.Number.{atoi}
use vps_sync_gsbs.FilePath.{is_abs, join, dir}
use vps_sync_gsbs.Exec.{Error, Exec, pure, gets, attempt, ◌>>=◌, ◌>>◌}
use vps_sync_gsbs.Outside.{Outside}
use vps_sync_gsbs.World.{World, Io, getenv, stat, is_error}
use vps_sync_gsbs.Config.{Config}
use vps_sync_gsbs.Config.DotEnv.{load_dot_env}

-- The environment of the process.
abbrev pub Env : Type 0
Env = Text → Text

-- `env`
unfoldable pub env : Env → Text → Text → Text
env e k def = let v = trim_space (e k) in if is_empty v then def else v

-- The words for a Boolean.
unfoldable pub parse_bool : Text → Bool → Bool
parse_bool v def =
    let is = λ (word : Text). text_eq v word in
    if is (text "1") || is (text "true") || is (text "yes") || is (text "on")
    then true
    else if is (text "0") || is (text "false") || is (text "no") || is (text "off")
    then false
    else def

-- `envBool`
unfoldable pub env_bool : Env → Text → Bool → Bool
unfolding parse_bool
env_bool e k def =
    let v = trim_space (e k) in if is_empty v then def else parse_bool (to_lower v) def

-- `envInt`
unfoldable pub env_int : Env → Text → ℤ → ℤ
env_int e k def =
    let v = trim_space (e k) in
    if is_empty v then def else elim (atoi v) [ none ↦ def | some n ↦ n ]

-- `if !filepath.IsAbs(p) { p = filepath.Join(wd, p) }`
unfoldable pub absolute : Text → Text → Text
absolute wd p = if is_abs p then p else join wd p

-- The path of the log: beside the output directory where none is set.
unfoldable pub log_path : Text → Text → Text → Text
unfolding absolute
log_path wd out log =
    if is_empty log
    then join (join (dir out) (text "logs")) (text "vps-sync.log")
    else absolute wd log

-- The settings that the environment gives, in the working directory `wd`.
unfoldable pub settings : Text → Env → Config
unfolding env env_bool env_int absolute log_path
settings wd e = record {
  gsbs_db = absolute wd (env e (text "GSBS_DB") (text "data/gsbs.db"));
  out_dir = absolute wd (env e (text "OUT_DIR") (text "out"));
  public_base = trim_space (e (text "PUBLIC_BASE"));
  prod_db_src = trim_space (e (text "PROD_DB_SRC"));
  fetch_prod_db = env_bool e (text "FETCH_PROD_DB") false;
  run_pcgw_sync = env_bool e (text "RUN_PCGW_SYNC") true;
  pcgw_sync_full = env_bool e (text "PCGW_SYNC_FULL") false;
  schedule = env e (text "SCHEDULE") (text "0 3 * * 0");
  schedule_tz = env e (text "SCHEDULE_TZ") (text "UTC");
  run_on_start = env_bool e (text "RUN_ON_START") false;
  auto_bootstrap = env_bool e (text "AUTO_BOOTSTRAP") true;
  r2_access_key = e (text "AWS_ACCESS_KEY_ID");
  r2_secret_key = e (text "AWS_SECRET_ACCESS_KEY");
  r2_endpoint = trim_space (e (text "R2_ENDPOINT"));
  r2_bucket = trim_space (e (text "R2_BUCKET"));
  r2_prefix = env e (text "R2_PREFIX") (text "manifest");
  r2_cleanup = env_bool e (text "R2_CLEANUP") true;
  r2_keep = env_int e (text "R2_KEEP") (pos 24);
  db_backup = env_bool e (text "DB_BACKUP") true;
  db_backup_keep = env_int e (text "DB_BACKUP_KEEP") (pos 6);
  gsbs_version = env e (text "GSBS_VERSION") (text "vps-sync");
  webhook_url = trim_space (e (text "WEBHOOK_URL"));
  pcgw_bot_login =
      not (is_empty (trim_space (e (text "GSBS_PCGW_BOT_USER"))))
      && not (is_empty (e (text "GSBS_PCGW_BOT_PASSWORD")));
  log_file =
      log_path wd (absolute wd (env e (text "OUT_DIR") (text "out"))) (env e (text "LOG_FILE") []);
  log_level = env e (text "LOG_LEVEL") (text "info");
  log_mirror_stderr = env_bool e (text "LOG_MIRROR_STDERR") false;
}

module _ {o : Outside} where
  -- `Load`, in a working directory that does not change. It returns no error.
  unfoldable pub load : Text → Io o Config
  unfolding settings
  load wd = do
    p ← getenv (text "ENV_FILE")
    if is_empty p then pure tt else load_dot_env p
    there ← attempt (stat (text ".env"))
    if is_error there then pure tt else load_dot_env (text ".env")
    gets (λ w. settings wd w.env)
