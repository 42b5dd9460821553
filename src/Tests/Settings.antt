-- ===== src/Tests/Settings.antt =====
-- Settings from an environment and two files in memory.
use vps_sync_gsbs.Base.{true, false, ◌≡◌, refl, none, some, [], ◌++◌, if◌then◌else◌}
use vps_sync_gsbs.Base.Int.{pos, negsuc}
use vps_sync_gsbs.Text.{Text, text, text_eq}
use vps_sync_gsbs.Text.Strings.{
  split, trim_space, trim_left, trim_right, is_space, has_prefix, cut, to_lower,
}
use vps_sync_gsbs.Text.Number.{atoi}
use vps_sync_gsbs.FilePath.{is_abs}
use vps_sync_gsbs.Exec.{ok}
use vps_sync_gsbs.World.{World, settable}
use vps_sync_gsbs.Config.{Config}
use vps_sync_gsbs.Config.DotEnv.{lines, setting}
use vps_sync_gsbs.Config.DotEnv.First.{first_value, or_else, with_env}
use vps_sync_gsbs.Config.Load.{Env, settings, load, env_int, env_bool}
use vps_sync_gsbs.Config.Load.Paths.{settings-is_abs}
use vps_sync_gsbs.Config.Load.Precedence.{lines_of, secret_lines, load-precedence}
use vps_sync_gsbs.Config.Summary.{summary}
use vps_sync_gsbs.Config.Summary.Secrets.{summary-secrets}
use vps_sync_gsbs.Tests.Memory.{demo}
use vps_sync_gsbs.Tests.Upload.{start}

abbrev process : Env
process k =
    if text_eq k (text "ENV_FILE")
    then text "/etc/secrets"
    else if text_eq k (text "OUT_DIR")
    then text "build"
    else []

abbrev secrets : Text
secrets = text "# keys\nR2_BUCKET = gsbs\n OUT_DIR=other\nR2_KEEP="

abbrev dot_env : Text
dot_env = text "R2_BUCKET=none\nR2_KEEP=12\nnonsense\n"

abbrev machine : World demo
machine = record start {
  env = process;
  files = λ q.
      if text_eq q (text "/etc/secrets")
      then some secrets
      else if text_eq q (text ".env")
      then some dot_env
      else none;
}

load-precedence_example :
    (e : Env) × (load (text "/srv") machine ≡ (ok (settings (text "/srv") e), with_env machine e))
    × ((k : Text)
        → e k
          ≡ or_else
              (or_else
                (machine.env k)
                (first_value k (secret_lines machine.files (machine.env (text "ENV_FILE")))))
              (first_value k (lines_of machine.files (text ".env"))))
load-precedence_example = load-precedence demo (text "/srv") machine refl

-- The bucket is that of the first file, the number of archives that of the second.
values_test :
    (first_value (text "R2_BUCKET") (lines secrets) ≡ text "gsbs")
    × (first_value (text "R2_KEEP") (lines secrets) ≡ [])
    × (first_value (text "R2_KEEP") (lines dot_env) ≡ text "12")
unfolding settable lines split text text_eq setting has_prefix cut trim_space trim_left trim_right
    is_space
values_test = (refl, refl, refl)

numbers_test :
    (env_int (λ k. text " -3 ") [] (pos 6) ≡ negsuc 2)
    × (env_int (λ k. text "3x") [] (pos 6) ≡ pos 6)
    × (env_bool (λ k. text "Yes") [] false ≡ true)
    × (env_bool (λ k. text "maybe") [] true ≡ true)
unfolding env_int env_bool atoi trim_space trim_left trim_right is_space text text_eq to_lower
numbers_test = (refl, refl, refl, refl)

settings-is_abs_example :
    (is_abs (settings (text "/srv") process).gsbs_db ≡ true)
    × (is_abs (settings (text "/srv") process).out_dir ≡ true)
    × (is_abs (settings (text "/srv") process).log_file ≡ true)
unfolding is_abs text
settings-is_abs_example = settings-is_abs (text "/srv") process refl

abbrev configured : Config
unfolding settings
configured = record (settings (text "/srv") process) {
  r2_secret_key = text "s3cret";
  r2_access_key = text "key";
  webhook_url = text "https://hooks.example.org/1";
  prod_db_src = text "gsbs@db" ++ (text ":" ++ text "/srv/gsbs.db");
}

summary-secrets_example :
    summary (record configured {
      r2_secret_key = text "another";
      r2_access_key = text "more";
      webhook_url = text "https://hooks.example.org/2";
      prod_db_src = text "gsbs@db" ++ (text ":" ++ text "/home/gsbs.db");
    })
    ≡ summary configured
unfolding text configured
summary-secrets_example =
    summary-secrets configured (text "another") (text "more") (text "https://hooks.example.org/2")
      b'g' (text "sbs@db") (text "/srv/gsbs.db") (text "/home/gsbs.db") refl refl refl
      (refl, (refl, (refl, (refl, (refl, (refl, tt)))))) refl
