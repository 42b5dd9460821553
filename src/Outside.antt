-- ===== src/Outside.antt =====
-- What the program calls and does not implement: the object store, the GSBS library with its
-- database, the command-line programs, the codecs, the clock and random names.
pub mod Laws
use vps_sync_gsbs.Base.{ℕ, Bool, List, Option, ◌⊎◌}
use vps_sync_gsbs.Base.Int.{ℤ}
use vps_sync_gsbs.Text.{Text}
use vps_sync_gsbs.Text.Stamp.{Moment}
use vps_sync_gsbs.Exec.{Error, Result}
use vps_sync_gsbs.Json.{Fields}

-- `s3.PutObjectInput`, with the body read to its end.
pub record Put : Type 0 where
  pub bucket : Text
  pub key : Text
  pub body : Text
  pub content_type : Text
  pub cache_control : Text

-- A page of a listing: keys, each of which may be a nil pointer.
abbrev pub Page : Type 0
Page = List (Option Text)

-- `store.PCGWBundleIndex`, as far as the program reads it.
pub record Index : Type 0 where
  pub manifest_version : ℤ
  pub full_version : ℤ
  pub full_url : Text
  pub full_sha256 : Text

-- `store.PCGWBundleMeta`, as far as the program reads it.
pub record Meta : Type 0 where
  pub games : ℤ
  pub game_save_locations : ℤ
  pub catalog : ℤ
  pub exported_at : Text
  pub full_exported_at : Text
  pub full_sha256 : Text

-- `manifestReleaseEntry` and `manifestReleases` of internal/publish.
pub record Release : Type 0 where
  pub type : Text
  pub exported_at : Text
  pub full_exported_at : Text
  pub sha256 : Text

pub record Releases : Type 0 where
  pub schema_version : ℤ
  pub releases : List Release

-- An HTTP answer: the status code, and all that reading the body gives, with the error that ends it,
-- if one does.
pub record Response : Type 0 where
  pub status : ℕ
  pub body : Text × Option Error

-- A row of `sqlite_master`.
pub data ObjectType : Type 0 where
  table index trigger view : ObjectType

pub record Entry : Type 0 where
  pub type : ObjectType
  pub name : Text
  pub sql : Option Text

pub record Outside : Type 1 where
  -- The object store. Its state says how it answers, failures included.
  pub Remote : Type 0
  pub put_object : Put → Remote → Option Error × Remote
  pub get_object : Text → Text → Remote → Result Text × Remote
  pub delete_object : Text → Text → Remote → Option Error × Remote
  pub delete_objects : Text → List Text → Remote → Option Error × Remote
  -- What the calls of a paginator's `NextPage` return, in order: bucket, prefix; object keys.
  pub list_objects : Text → Text → Remote → List (Result Page)
  -- The same with a delimiter: bucket, prefix, delimiter; common prefixes.
  pub list_prefixes : Text → Text → Text → Remote → List (Result Page)
  -- `awsconfig.LoadDefaultConfig` for an access key and its secret.
  pub load_aws : Text → Text → Option Error
  -- Package `compress/gzip`: the writer; the reader's header check; all that the reader gives, with
  -- the error that ends it, if one does.
  pub gzip : Text → Text
  pub gunzip_header : Text → Option Error
  pub gunzip : Text → Text × Option Error
  -- The GSBS library: the index's parser and successor, and the export of a database's contents.
  pub parse_index : Text → Result Index
  pub advance_index : Index → Text → ℕ → Text → Text → Result Index
  -- Opening a database brings its schema up to date: from the contents of its file, if it is there,
  -- the contents that are left, and the error, if it cannot be opened.
  pub open_store : Option Text → Text × Option Error
  -- Contents and version of the library: the compressed bundle and its metadata.
  pub export_bundle : Text → Text → Result (Text × Meta)
  -- Package `encoding/json` at the types of GSBS and of the release list. What `Unmarshal` leaves in
  -- a release list counts even if it returns an error.
  pub marshal_index : Index → Text
  pub marshal_meta : Meta → Text
  pub unmarshal_meta : Text → Option Meta
  pub marshal_releases : Releases → Text
  pub unmarshal_releases : Text → Releases
  -- `json.NewDecoder(r).Decode` into a `map[string]any`, from all that a reader gives and the error
  -- that ends it, and `json.Unmarshal` into one.
  pub decode_object : Text × Option Error → Result Fields
  pub unmarshal_object : Text → Option Fields
  -- `%q` of package `fmt`, and the hexadecimal SHA-256.
  pub quote : Text → Text
  pub sha256_hex : Text → Text
  -- `%.0f` of a hundred times the quotient of two numbers as `float64`.
  pub percent : ℤ → ℤ → Text
  -- The public network, for a GET of a URL.
  pub http_get : Text → Result Response
  -- `exec.LookPath` for a program. `rsync` of a source at a time: its output, the contents that it
  -- leaves in the destination, if it touches that, and its error. `sqlite3` for `.backup` of a file,
  -- with the same, and for `PRAGMA quick_check` of a file: its output and its error.
  pub look_path : Text → Option Error
  pub rsync : Text → ℕ → Text × Option Text × Option Error
  pub sqlite_backup : Option Text → ℕ → Text × Option Text × Option Error
  pub quick_check : Option Text → Text × Option Error
  -- What a database's contents say of their schema, `PRAGMA user_version` and the rows of
  -- `sqlite_master`; a statement and a stamp of the version inside a transaction, from contents to
  -- contents.
  pub user_version : Text → Result ℤ
  pub sqlite_master : Text → Result (List Entry)
  pub exec_sql : Text → Text → Result Text
  pub stamp_version : ℤ → Text → Result Text
  -- After how many rows an error ends the iteration over the answer of a query, if one does, for the
  -- n-th time.
  pub rows_end : ℕ → Option ℕ
  -- The PCGW job of GSBS: `StartPCGWSyncRun` for a mode and `PCGWSync`, from the contents of the
  -- database and a time to the contents that are left and the result.
  pub RunId : Type 0
  pub start_sync_run : Text → Text → ℕ → Text × Result RunId
  pub pcgw_sync : Bool → RunId → Text → ℕ → Text × Result ℤ
  -- A webhook: the payload that `json.Marshal` makes of a map, `http.NewRequest` for a URL, and
  -- whether `Do` sends a request to a URL at a time.
  pub marshal_strings : List (Text × Text) → Text
  pub new_request : Text → Option Error
  pub sends : Text → ℕ → Bool
  -- `cron.ParseStandard` and `time.LoadLocation`.
  pub parse_schedule : Text → Option Error
  pub load_location : Text → Option Error
  -- Whether the process was told to stop, and the time since the start of a run in nanoseconds, for
  -- the n-th time that they are asked.
  pub stopped : ℕ → Bool
  pub elapsed : ℕ → ℕ
  -- The n-th answer of the clock and of the source of random names.
  pub clock : ℕ → Moment
  pub random : ℕ → Text
