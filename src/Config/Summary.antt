-- ===== src/Config/Summary.antt =====
-- `Summary` and `redactSrc`: what of the settings may be logged.
pub mod Secrets
use vps_sync_gsbs.Base.{
  ℕ, zero, suc, Bool, true, false, not, ◌&&◌, Option, none, some, List, [], ◌∷◌, ◌++◌, ltb, ◌==◌,
  take, if◌then◌else◌,
}
use vps_sync_gsbs.Base.Int.{ℤ}
use vps_sync_gsbs.Text.{Text, text, is_empty}
use vps_sync_gsbs.Config.{Config, r2_configured}

-- A value of the map.
pub data Value : Type 0 where
  str : Text → Value
  bool : Bool → Value
  int : ℤ → Value

-- The part before the first colon that is not the first character, if there is one.
host : Text → Option Text
host [] = none
host (c ∷ s) =
    let rest = host s in
    if c == b':' then some [] else elim rest [ none ↦ none | some h ↦ some (c ∷ h) ]

hidden : ℕ → Option Text → Text
hidden c none = text "***"
hidden c (some h) = (c ∷ h) ++ (b':' ∷ text "***")

-- `redactSrc`
unfoldable pub redact_src : Text → Text
unfolding host hidden
redact_src [] = []
redact_src (c ∷ s) = hidden c (host s)

-- `Summary`
unfoldable pub summary : Config → List (Text × Value)
unfolding redact_src
summary c =
    (text "gsbs_db", str c.gsbs_db)
    ∷ (text "out_dir", str c.out_dir)
    ∷ (text "fetch_prod_db", bool c.fetch_prod_db)
    ∷ (text "prod_db_src", str (redact_src c.prod_db_src))
    ∷ (text "run_pcgw_sync", bool c.run_pcgw_sync)
    ∷ (text "pcgw_sync_full", bool c.pcgw_sync_full)
    ∷ (text "public_base", str c.public_base)
    ∷ (text "webhook_set", bool (not (is_empty c.webhook_url)))
    ∷ (text "gsbs_version", str c.gsbs_version)
    ∷ (text "r2_bucket", str c.r2_bucket)
    ∷ (text "r2_prefix", str c.r2_prefix)
    ∷ (text "r2_endpoint", str c.r2_endpoint)
    ∷ (text "r2_configured", bool (r2_configured c))
    ∷ (text "r2_cleanup", bool c.r2_cleanup)
    ∷ (text "r2_keep", int c.r2_keep)
    ∷ (text "db_backup", bool c.db_backup)
    ∷ (text "db_backup_keep", int c.db_backup_keep)
    ∷ (text "log_file", str c.log_file)
    ∷ (text "log_level", str c.log_level)
    ∷ (text "aws_key_present", bool (not (is_empty c.r2_access_key)))
    ∷ (text "pcgw_bot_login", bool c.pcgw_bot_login)
    ∷ []
