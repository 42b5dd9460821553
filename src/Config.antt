-- ===== src/Config.antt =====
-- internal/config: the settings of a run, read from the environment and from the files that ENV_FILE
-- and .env name (`Load`), and their summary for the log (`Summary`).
pub mod DotEnv
pub mod Load
pub mod Summary
use vps_sync_gsbs.Base.{Bool, not, ◌&&◌}
use vps_sync_gsbs.Base.Int.{ℤ}
use vps_sync_gsbs.Text.{Text, is_empty}

-- `Config`, field by field.
pub record Config : Type 0 where
  pub gsbs_db : Text
  pub out_dir : Text
  pub public_base : Text
  pub prod_db_src : Text
  pub fetch_prod_db : Bool
  pub run_pcgw_sync : Bool
  pub pcgw_sync_full : Bool
  pub schedule : Text
  pub schedule_tz : Text
  pub run_on_start : Bool
  pub auto_bootstrap : Bool
  pub r2_access_key : Text
  pub r2_secret_key : Text
  pub r2_endpoint : Text
  pub r2_bucket : Text
  pub r2_prefix : Text
  pub r2_cleanup : Bool
  pub r2_keep : ℤ
  pub db_backup : Bool
  pub db_backup_keep : ℤ
  pub gsbs_version : Text
  pub webhook_url : Text
  pub pcgw_bot_login : Bool
  pub log_file : Text
  pub log_level : Text
  pub log_mirror_stderr : Bool

-- `R2Configured`
unfoldable pub r2_configured : Config → Bool
r2_configured c =
    not (is_empty c.r2_access_key)
    && not (is_empty c.r2_secret_key)
    && not (is_empty c.r2_endpoint)
    && not (is_empty c.r2_bucket)
