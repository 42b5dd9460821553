-- ===== src/Validate/Bundle.antt =====
-- `validateBundle`.
pub mod Valid
use vps_sync_gsbs.Base.{
  ℕ, suc, Bool, not, ◌&&◌, ◌||◌, ◌⊎◌, inl, inr, Option, none, some, List, [], ◌∷◌, ◌++◌,
  if◌then◌else◌,
}
use vps_sync_gsbs.Base.Int.{ℤ, pos, negsuc}
use vps_sync_gsbs.Text.{Text, text, is_empty}
use vps_sync_gsbs.Text.Strings.{trim_space, to_lower, replace_all, split, has}
use vps_sync_gsbs.Text.Number.{decimal}
use vps_sync_gsbs.Json.{
  Json, null, string, number, array, object, Fields, no_fields, Values, no_values, value, lookup,
  sprint,
}
use vps_sync_gsbs.Exec.{Error, Result, ok, err, panic, Exec, pure, lift, attempt, ◌>>=◌}
use vps_sync_gsbs.Outside.{Outside}
use vps_sync_gsbs.World.{World, Io, read_file}

abbrev pub known_platforms : List Text
known_platforms = text "windows" ∷ text "linux" ∷ text "mac" ∷ text "macos" ∷ text "dos" ∷ [] ∷ []

-- `v.(float64)`, `v.([]any)` and `v.(map[string]any)`, with the zero value of a failed assertion.
abbrev pub as_number : Json → ℤ
as_number (number n t) = n
as_number _ = pos 0

abbrev pub as_array : Json → Values
as_array (array vs) = vs
as_array _ = no_values

abbrev pub as_object : Json → Fields
as_object (object fs) = fs
as_object _ = no_fields

abbrev pub known_version : ℤ → Bool
known_version (pos (suc ℕ.zero)) = Bool.true
known_version (pos (suc (suc ℕ.zero))) = Bool.true
known_version _ = Bool.false

-- The elements of a path that may be written for Windows.
unfoldable pub elements : Text → List Text
elements tmpl = split (replace_all tmpl b'\\' b'/') b'/'

module _ (o : Outside) (label : Text) where
  row_message : ℕ → Text → Text
  row_message i what =
      label ++ (text ": game_save_locations[" ++ (decimal i ++ (text "] " ++ what)))

  -- One round of the loop over the rows.
  unfoldable pub row_error : ℕ → Fields → Text
  unfolding row_message
  row_error i row =
      let plat = to_lower (sprint (lookup row (text "platform"))) in
      let tmpl = sprint (lookup row (text "path_template")) in
      if is_empty (trim_space (sprint (lookup row (text "game_id"))))
      then row_message i (text "missing game_id")
      else if not (has plat known_platforms)
      then row_message i (text "unknown platform " ++ o.quote plat)
      else if is_empty (trim_space tmpl)
      then row_message i (text "empty path_template")
      else if has (text "..") (elements tmpl)
      then row_message i (text "path traversal in " ++ o.quote tmpl)
      else []

  -- The loop: the first message ends it.
  unfoldable pub rows_error : ℕ → Values → Text
  unfolding row_error
  rows_error i no_values = []
  rows_error i (value r rs) =
      let rest = rows_error (suc i) rs in
      let e = row_error i (as_object r) in if is_empty e then rest else e

  unfoldable pub object_error : Fields → Text
  unfolding rows_error
  object_error fs =
      if known_version (as_number (lookup fs (text "schema_version")))
      then rows_error 0 (as_array (lookup fs (text "game_save_locations")))
      else label ++ (text ": invalid schema_version " ++ sprint (lookup fs (text "schema_version")))

  decoded_error : Result Fields → Result Text
  unfolding object_error
  decoded_error (ok fs) = ok (object_error fs)
  decoded_error (err e) = ok (label ++ (text ": not valid JSON: " ++ e.message))
  decoded_error (panic t) = panic t

  opened_error : Option Error → Text → Result Text
  unfolding decoded_error
  opened_error (some e) raw = ok (label ++ text ": not valid gzip")
  opened_error none raw = decoded_error (o.decode_object (o.gunzip raw))

  -- The checks of a bundle's bytes.
  unfoldable pub bundle_error : Text → Result Text
  unfolding opened_error
  bundle_error raw = opened_error (o.gunzip_header raw) raw

  read_error : Text ⊎ Error → Result Text
  unfolding bundle_error
  read_error (inr e) = ok (label ++ (text ": read error: " ++ e.message))
  read_error (inl raw) = bundle_error raw

-- `validateBundle`
unfoldable pub validate_bundle : {o : Outside} → Text → Text → Io o Text
unfolding read_error
validate_bundle {o} path label = do raw ← attempt (read_file path); lift (read_error o label raw)
