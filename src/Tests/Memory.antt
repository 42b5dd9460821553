-- ===== src/Tests/Memory.antt =====
-- An object store in memory: a list of bucket, key and body, the newest in front.
use vps_sync_gsbs.Base.{
  ℕ, true, false, ◌&&◌, List, [], ◌∷◌, ◌++◌, ◌≡◌, ◌≢◌, ◌↔◌, refl, inr, Option, none, some, arith,
  length, take, drop, append-nil, ◌+◌, ◌*◌, ◌/◌, ◌==◌, if◌then◌else◌,
}
use vps_sync_gsbs.Base.Int.{ℤ, pos, pos_part}
use vps_sync_gsbs.Text.{Text, text, text_eq, text_eq_iff, text_eq_refl}
use vps_sync_gsbs.Text.Strings.{has, has_prefix}
use vps_sync_gsbs.Text.Number.{decimal}
use vps_sync_gsbs.Exec.{Error, errorf, Result, ok, err}
use vps_sync_gsbs.Json.{Fields, field, no_fields, value, no_values, string, number, array, object}
use vps_sync_gsbs.Outside.{Outside, Page, Index, Meta, Releases}
use vps_sync_gsbs.Outside.Laws.{IsStore, IsPaged, Lists, page_keys, same}

abbrev pub Objects : Type 0
Objects = List (Text × Text × Text)

unfoldable pub find : Objects → Text → Text → Option Text
find [] b k = none
find ((b', k', t) ∷ r) b k = if same b k b' k' then some t else find r b k

-- The objects of the bucket outside the keys, and of the other buckets.
unfoldable pub drop_keys : Text → List Text → Objects → Objects
drop_keys b ks [] = []
drop_keys b ks ((b', k', t) ∷ r) =
    let rest = drop_keys b ks r in if text_eq b b' && has k' ks then rest else (b', k', t) ∷ rest

unfoldable pub keys_under : Text → Text → Objects → Page
keys_under b p [] = []
keys_under b p ((b', k', t) ∷ r) =
    let rest = keys_under b p r in if text_eq b b' && has_prefix k' p then some k' ∷ rest else rest

find-drop_keys :
    (b : Text) (ks : List Text) (r : Objects) (b' k : Text)
    → find (drop_keys b ks r) b' k ≡ (if text_eq b' b && has k ks then none else find r b' k)
unfolding find drop_keys
find-drop_keys b ks [] b' k = ground arith
find-drop_keys b ks ((b'', k', t) ∷ r) b' k = ground (
  arith,
  find-drop_keys b ks r b' k,
  text_eq_iff b' b'',
  text_eq_iff k k',
  text_eq_iff b' b,
  text_eq_iff b b'',
)

has-keys_under :
    (b p : Text) (r : Objects) (k : Text)
    → (has k (page_keys (keys_under b p r)) ≡ true)
      ↔ ((has_prefix k p ≡ true) × (find r b k ≢ none))
unfolding find keys_under has
has-keys_under b p [] k = (λ e. cc, λ e. absurd (e.1 refl))
has-keys_under b p ((b', k', t) ∷ r) k =
    ground (arith, has-keys_under b p r k, text_eq_iff b b', text_eq_iff k k')

listed_in_memory :
    (b p : Text) (r : Objects) (ks : List Text)
    → Lists (ok (keys_under b p r) ∷ []) ks
    → (k : Text) → (has k ks ≡ true) ↔ ((has_prefix k p ≡ true) × (find r b k ≢ none))
listed_in_memory b p r ks (rest, e, nil) k = rw (e, nil, append-nil) (has-keys_under b p r k)

-- Codecs that can be read off: a mark in front of the text, and numbers for the fields.
unfoldable pub mark : Text → Text
mark t = b'z' ∷ t

unfoldable pub check_mark : Text → Option Error
check_mark [] = some (errorf (text "EOF"))
check_mark (c ∷ t) = if c == b'z' then none else some (errorf (text "gzip: invalid header"))

unfoldable pub unmark : Text → Text × Option Error
unmark [] = ([], some (errorf (text "unexpected EOF")))
unmark (c ∷ t) = (t, none)

unfoldable pub write_index : Index → Text
write_index i =
    pos_part i.manifest_version
    ∷ pos_part i.full_version
    ∷ length i.full_url
    ∷ (i.full_url ++ i.full_sha256)

unfoldable pub read_index : Text → Result Index
read_index (v ∷ f ∷ n ∷ t) = ok (record {
  manifest_version = pos v;
  full_version = pos f;
  full_url = take n t;
  full_sha256 = drop n t;
})
read_index _ = err (errorf (text "unexpected end of JSON input"))

unfoldable pub advance : Index → Text → ℕ → Text → Text → Result Index
advance i sha size base now =
    let next : ℤ = pos (pos_part i.manifest_version + 1) in
    ok (record {
      manifest_version = next;
      full_version = next;
      full_url = base ++ text "manifest.json.gz?h=" ++ sha;
      full_sha256 = sha;
    })

unfoldable pub write_meta : Meta → Text
write_meta m =
    pos_part m.games ∷ pos_part m.game_save_locations ∷ pos_part m.catalog ∷ m.full_sha256

unfoldable pub read_meta : Text → Option Meta
read_meta (g ∷ l ∷ c ∷ sha) = some (record {
  games = pos g;
  game_save_locations = pos l;
  catalog = pos c;
  exported_at = [];
  full_exported_at = [];
  full_sha256 = sha;
})
read_meta _ = none

-- The database is its text: the counts are its first three numbers.
unfoldable pub export_rows : Text → Text → Result (Text × Meta)
export_rows (g ∷ l ∷ c ∷ t) version = ok (
  b'z' ∷ t,
  record {
    games = pos g;
    game_save_locations = pos l;
    catalog = pos c;
    exported_at = text "2026-07-04T00:00:00Z";
    full_exported_at = text "2026-07-04T00:00:00Z";
    full_sha256 = text "abc";
  },
)
export_rows _ version = err (errorf (text "no such table: games"))

abbrev pub opened : Option Text → Text × Option Error
opened none = ([], none)
opened (some t) = (t, none)

-- Only the number of releases is written, and none is read back.
unfoldable pub write_releases : Releases → Text
write_releases d = pos_part d.schema_version ∷ length d.releases ∷ []

unfoldable pub read_releases : Text → Releases
read_releases t = record { schema_version = pos 0; releases = [] }

-- The only objects in memory are bundles with one row, of the platform that the text spells.
abbrev pub row_of : Text → Fields
row_of t = field (text "platform") (string t) no_fields

abbrev pub bundle_of : Text → Fields
bundle_of t =
    field (text "schema_version") (number (pos 2) (text "2"))
      (field (text "game_save_locations") (array (value (object (row_of t)) no_values)) no_fields)

unfoldable pub decoded : Text × Option Error → Result Fields
decoded (t, some e) = err e
decoded (t, none) = ok (bundle_of t)

-- The value of the first key.
unfoldable pub written : List (Text × Text) → Text
written [] = []
written ((k, v) ∷ m) = v

abbrev pub demo : Outside
demo = record {
  Remote = Objects;
  put_object = λ p r. (none, (p.bucket, p.key, p.body) ∷ r);
  get_object =
      λ b k r. (elim (find r b k) [ none ↦ err (errorf (text "NoSuchKey")) | some t ↦ ok t ], r);
  delete_object = λ b k r. (none, drop_keys b (k ∷ []) r);
  delete_objects = λ b ks r. (none, drop_keys b ks r);
  list_objects = λ b p r. ok (keys_under b p r) ∷ [];
  list_prefixes = λ b p d r. ok (keys_under b p r) ∷ [];
  load_aws = λ a s. none;
  gzip = mark;
  gunzip_header = check_mark;
  gunzip = unmark;
  parse_index = read_index;
  advance_index = advance;
  open_store = opened;
  export_bundle = export_rows;
  marshal_index = write_index;
  marshal_meta = write_meta;
  unmarshal_meta = read_meta;
  marshal_releases = write_releases;
  unmarshal_releases = read_releases;
  decode_object = decoded;
  unmarshal_object = λ t. none;
  quote = λ t. b'"' ∷ (t ++ b'"' ∷ []);
  sha256_hex = λ t. t;
  percent = λ a b. decimal (pos_part a * 100 / pos_part b);
  http_get = λ url. err (errorf (text "no such host"));
  look_path = λ t. none;
  rsync = λ src n. (text "sent", some src, none);
  sqlite_backup = λ v n. (text "", v, none);
  quick_check = λ v. (text "ok", none);
  user_version = λ t. ok (pos 0);
  sqlite_master = λ t. ok [];
  exec_sql = λ ddl t. ok t;
  stamp_version = λ v t. ok t;
  rows_end = λ n. none;
  RunId = ℕ;
  start_sync_run = λ mode t n. (t, ok n);
  pcgw_sync = λ full run t n. (t ++ b'!' ∷ [], ok (pos 1));
  marshal_strings = written;
  new_request = λ url. none;
  sends = λ url n. true;
  parse_schedule = λ spec. none;
  load_location = λ zone. none;
  stopped = λ n. false;
  elapsed = λ n. 1500000000;
  clock = λ n. record { year = 2026; month = 7; day = 4; hour = 3; minute = 0; second = n };
  random = λ n. decimal n;
}

found-get : (b k t : Text) (r : Objects) → (demo.get_object b k r).0 ≡ ok t → find r b k ≡ some t
found-get b k t r h = ground arith

pub demo-IsStore : IsStore demo
unfolding find has
demo-IsStore = record {
  object = find;
  put_done = λ p r h. ground (arith, text_eq_refl p.bucket, text_eq_refl p.key);
  put_failed = λ p r. inr (ground (arith, text_eq_refl p.bucket, text_eq_refl p.key));
  put_other = λ p r b k h. ground arith;
  delete_other = λ b' k' r b k h. ground (arith, find-drop_keys b' (k' ∷ []) r b k);
  deletes_done = λ b ks r k h m. ground (arith, find-drop_keys b ks r b k, text_eq_refl b);
  deletes_other = λ b' ks r b k h. ground (arith, find-drop_keys b' ks r b k);
  get_same = λ b k r b' k'. refl;
  get_found = found-get;
  listed = listed_in_memory;
}

pub demo-IsPaged : IsPaged demo
demo-IsPaged = record {
  objects = λ b p r. (λ k there. ((has-keys_under b p r k).0 there).0, tt);
  prefixes = λ b p d r. (λ k there. ((has-keys_under b p r k).0 there).0, tt);
}
