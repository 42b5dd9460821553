-- ===== src/R2.antt =====
-- internal/r2: the client of the object store. The children model the publishing of artifacts
-- (`Live`), the backups of the database and their recovery (`Backup`) and the pruning of the archive
-- (`Prune`), and hold lemmas on keys and puts (`Keys`, `Puts`, `Kept`).
pub mod Live
pub mod Keys
pub mod Backup
pub mod Prune
pub mod Puts
pub mod Kept
use vps_sync_gsbs.Base.{ℕ, Bool, true, false, Option, none, some, [], ◌∷◌, ◌++◌, if◌then◌else◌}
use vps_sync_gsbs.Text.{Text, text, is_empty}
use vps_sync_gsbs.Text.Strings.{trim}
use vps_sync_gsbs.Exec.{Error, errorf, wrapped, Result, ok, err, Exec, pure, fail, ◌>>=◌}
use vps_sync_gsbs.Outside.{Outside, Put}
use vps_sync_gsbs.World.{World, Io, read_file, request}
use vps_sync_gsbs.Config.{Config, r2_configured}

-- `Client`, without the handle of the library.
pub record Client : Type 0 where
  pub bucket : Text
  pub prefix : Text

client_of : Config → Option Error → Result Client
client_of c (some e) = err (wrapped (text "R2 client config") e)
client_of c none = ok (record { bucket = c.r2_bucket; prefix = trim c.r2_prefix b'/' })

-- `New`
unfoldable pub new : Outside → Config → Result Client
unfolding client_of
new o c =
    if r2_configured c
    then client_of c (o.load_aws c.r2_access_key c.r2_secret_key)
    else err (
        errorf (
          text
            "R2 not configured (AWS_ACCESS_KEY_ID, AWS_SECRET_ACCESS_KEY, R2_ENDPOINT, R2_BUCKET)"))

-- `(*Client).key`
unfoldable pub key : Client → Text → Text
key c name = if is_empty c.prefix then name else c.prefix ++ (b'/' ∷ name)

module _ {o : Outside} where
  -- An answer of the object store as a result.
  abbrev pub acknowledged : Option Error → Io o (Unit {0})
  acknowledged none = pure tt
  acknowledged (some e) = fail e

  -- `putFile`
  unfoldable pub put_file : Client → Text → Text → Text → Text → Io o (Unit {0})
  put_file c path k content_type cache_control = do
    body ← read_file path
    answer ← request (
        o.put_object (record {
          bucket = c.bucket;
          key = k;
          body = body;
          content_type = content_type;
          cache_control = cache_control;
        }))
    acknowledged answer
