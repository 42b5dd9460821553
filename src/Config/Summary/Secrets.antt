-- ===== src/Config/Summary/Secrets.antt =====
-- What the log learns of the settings.
use vps_sync_gsbs.Base.{ℕ, false, ◌≡◌, refl, some, [], ◌∷◌, ◌++◌, arith, ◌==◌, All}
use vps_sync_gsbs.Text.{Text, is_empty}
use vps_sync_gsbs.Config.{Config, r2_configured}
use vps_sync_gsbs.Config.Summary.{host, redact_src, summary}

host-append :
    (h rest : Text) → All (λ c. (c == b':') ≡ false) h → host (h ++ (b':' ∷ rest)) ≡ some h
unfolding host
host-append [] rest a = ground arith
host-append (c ∷ h) rest (n, a) = ground (arith, n, host-append h rest a)

-- Two sources with the same part before the first colon, behind the first character, look alike.
redact_src-host :
    (c : ℕ) (h p q : Text)
    → All (λ c. (c == b':') ≡ false) h
    → redact_src ((c ∷ h) ++ (b':' ∷ p)) ≡ redact_src ((c ∷ h) ++ (b':' ∷ q))
unfolding redact_src
redact_src-host c h p q a = rw (host-append h p a, host-append h q a) refl

-- The summary does not tell apart two settings that differ in the R2 secret key, in the R2 access
-- key and the webhook's URL, as long as both are set or both are not, and in the path behind the
-- colon of the production source, whose host holds no colon behind its first character.
pub summary-secrets :
    (c : Config) (secret access webhook : Text) (d : ℕ) (h p q : Text)
    → is_empty secret ≡ is_empty c.r2_secret_key
    → is_empty access ≡ is_empty c.r2_access_key
    → is_empty webhook ≡ is_empty c.webhook_url
    → All (λ x. (x == b':') ≡ false) h
    → c.prod_db_src ≡ (d ∷ h) ++ (b':' ∷ p)
    → summary (record c {
      r2_secret_key = secret;
      r2_access_key = access;
      webhook_url = webhook;
      prod_db_src = (d ∷ h) ++ (b':' ∷ q);
    })
      ≡ summary c
unfolding summary r2_configured
summary-secrets c secret access webhook d h p q es ea ew host_part src =
    rw (es, ea, ew, src, redact_src-host d h p q host_part) refl
