-- ===== src/Validate/Bundle/Valid.antt =====
-- Which bundles pass.
use vps_sync_gsbs.Base.{
  ℕ, suc, Bool, true, false, not, ◌≡◌, refl, ap, subst, sym, ◌↔◌, ◌⊎◌, inl, inr, Option, none, some,
  List, [], ◌∷◌, ◌++◌, arith, All, Bool-cases, if◌then◌else◌,
}
use vps_sync_gsbs.Base.Int.{ℤ, pos, negsuc}
use vps_sync_gsbs.Text.{Text, text, text_eq, text_eq_sym, is_empty}
use vps_sync_gsbs.Text.Strings.{
  trim_space, trim_left, trim_right, is_space, to_lower, split, replace_all, has,
}
use vps_sync_gsbs.Json.{null, Fields, Values, no_values, value, lookup, sprint}
use vps_sync_gsbs.Exec.{Error, Result, ok, err, panic, lift, attempt, bind_of_ok}
use vps_sync_gsbs.Outside.{Outside}
use vps_sync_gsbs.World.{World, read_file}
use vps_sync_gsbs.World.Calm.{attempt-read_file}
use vps_sync_gsbs.Validate.Bundle.{
  known_platforms, as_number, as_array, as_object, known_version, elements, row_message, row_error,
  rows_error, object_error, decoded_error, opened_error, bundle_error, read_error, validate_bundle,
}

-- The values of a row as texts.
abbrev pub shown : Fields → Text → Text
shown row k = sprint (lookup row k)

-- What the checks ask of a row, of the texts that `fmt.Sprint` prints for its values: that of the game
-- and that of the path are not blank, that of the platform is known, and no element of that of the
-- path is `..`. A value that is missing or null prints as `<nil>`, so that a row without a game or
-- without a path meets this.
pub record IsSafe (row : Fields) : Type 0 where
  pub game : is_empty (trim_space (shown row (text "game_id"))) ≡ false
  pub platform : has (to_lower (shown row (text "platform"))) known_platforms ≡ true
  pub path : is_empty (trim_space (shown row (text "path_template"))) ≡ false
  pub inside :
      All (λ e. text_eq e (text "..") ≡ false) (elements (shown row (text "path_template")))

abbrev pub AllSafe : Values → Type 0
AllSafe no_values = Unit
AllSafe (value r rs) = IsSafe (as_object r) × AllSafe rs

-- The number of the version is cut to an integer.
pub record IsValid (fs : Fields) : Type 0 where
  pub version :
      (as_number (lookup fs (text "schema_version")) ≡ pos 1)
      ⊎ (as_number (lookup fs (text "schema_version")) ≡ pos 2)
  pub rows : AllSafe (as_array (lookup fs (text "game_save_locations")))

has-All : (k : Text) (xs : List Text) → (has k xs ≡ false) ↔ All (λ x. text_eq x k ≡ false) xs
unfolding has
has-All k [] = (λ _. tt, λ _. refl)
has-All k (x ∷ xs) =
    let (there, back) = has-All k xs in
    (
      λ h. (text_eq_sym k x (ground (arith, h)), there (ground (arith, h))),
      λ h. ground (arith, text_eq_sym x k h.0, back h.1),
    )

is_empty-behind : (s : Text) (c : ℕ) (t : Text) → is_empty (s ++ c ∷ t) ≡ false
is_empty-behind [] c t = refl
is_empty-behind (d ∷ s) c t = refl

version-known : (n : ℤ) → (known_version n ≡ true) ↔ ((n ≡ pos 1) ⊎ (n ≡ pos 2))
version-known (pos ℕ.zero) = ground arith
version-known (pos (suc ℕ.zero)) = ground arith
version-known (pos (suc (suc ℕ.zero))) = ground arith
version-known (pos (suc (suc (suc n)))) = ground arith
version-known (negsuc n) = ground arith

first_of_four :
    (a b c d : Bool) (s t u v : Text)
    → is_empty s ≡ false
    → is_empty t ≡ false
    → is_empty u ≡ false
    → is_empty v ≡ false
    → (is_empty (if a then s else if not b then t else if c then u else if d then v else []) ≡ true)
      ↔ ((a ≡ false) × (b ≡ true) × (c ≡ false) × (d ≡ false))
first_of_four a b c d s t u v es et eu ev = ground (arith, es, et, eu, ev)

pub ok-empty : (t : Text) → is_empty t ≡ true → ◌≡◌ {A = Result Text} (ok t) (ok [])
ok-empty [] h = refl
ok-empty (c ∷ t) h = absurd (ground (arith, h))

message_of_ok : (t : Text) → ◌≡◌ {A = Result Text} (ok t) (ok []) → is_empty t ≡ true
message_of_ok t h = ground (arith, h)

abbrev fields_or : Fields → Result Fields → Fields
fields_or d (ok fs) = fs
fields_or d _ = d

-- What passes: compressed JSON of an object that meets the checks.
abbrev pub Bundled : Outside → Text → Type 0
Bundled o raw =
    (o.gunzip_header raw ≡ none)
    × ((fs : Fields) × (o.decode_object (o.gunzip raw) ≡ ok fs) × IsValid fs)

module _ (o : Outside) (label : Text) where
  row_message-not_empty : (i : ℕ) (t : Text) → is_empty (row_message o label i t) ≡ false
  unfolding row_message text
  row_message-not_empty i t = is_empty-behind label _ _

  row_error-IsSafe :
      (i : ℕ) (row : Fields) → (is_empty (row_error o label i row) ≡ true) ↔ IsSafe row
  unfolding row_error
  row_error-IsSafe i row =
      let tmpl = shown row (text "path_template") in
      let (passes, all) =
        first_of_four (is_empty (trim_space (shown row (text "game_id"))))
          (has (to_lower (shown row (text "platform"))) known_platforms)
          (is_empty (trim_space tmpl)) (has (text "..") (elements tmpl)) _ _ _ _
          (row_message-not_empty i _) (row_message-not_empty i _) (row_message-not_empty i _)
          (row_message-not_empty i _) in
      let (apart, back) = has-All (text "..") (elements tmpl) in
      (
        λ h.
            let (g, p, e, d) = passes h in
            record { game = g; platform = p; path = e; inside = apart d },
        λ safe. all (safe.game, safe.platform, safe.path, back safe.inside),
      )

  rows_error-AllSafe :
      (i : ℕ) (rs : Values) → (is_empty (rows_error o label i rs) ≡ true) ↔ AllSafe rs
  unfolding rows_error
  rows_error-AllSafe i no_values = (λ _. tt, λ _. refl)
  rows_error-AllSafe i (value r rs) =
      let (safe, back) = row_error-IsSafe i (as_object r) in
      let (all, back_all) = rows_error-AllSafe (suc i) rs in
      elim (Bool-cases (is_empty (row_error o label i (as_object r)))) [
        | inl passed ↦ rw passed ((λ h. (safe passed, all h)), λ h. back_all h.1)
        | inr failed ↦ rw failed (
          (λ h. absurd (ground (arith, h, failed))),
          λ h. absurd (ground (arith, failed, back h.0)),
        )
      ]

  version_message-not_empty :
      (fs : Fields)
      → is_empty (
          label ++ (text ": invalid schema_version " ++ sprint (lookup fs (text "schema_version"))))
        ≡ false
  unfolding text
  version_message-not_empty fs = is_empty-behind label _ _

  object_error-IsValid : (fs : Fields) → (is_empty (object_error o label fs) ≡ true) ↔ IsValid fs
  unfolding object_error
  object_error-IsValid fs =
      let (known, back) = version-known (as_number (lookup fs (text "schema_version"))) in
      let (all, back_all) =
        rows_error-AllSafe 0 (as_array (lookup fs (text "game_save_locations"))) in
      elim (Bool-cases (known_version (as_number (lookup fs (text "schema_version"))))) [
        | inl good ↦
            rw good (λ h. record { version = known good; rows = all h }, λ v. back_all v.rows)
        | inr bad ↦ rw bad (
          λ h. absurd (ground (arith, h, version_message-not_empty fs)),
          λ v. absurd (ground (arith, bad, back v.version)),
        )
      ]

  decode_message-not_empty :
      (e : Text) → is_empty (label ++ (text ": not valid JSON: " ++ e)) ≡ false
  unfolding text
  decode_message-not_empty e = is_empty-behind label _ _

  gzip_message-not_empty : is_empty (label ++ text ": not valid gzip") ≡ false
  unfolding text
  gzip_message-not_empty = is_empty-behind label _ _

  decoded_error-IsValid :
      (r : Result Fields)
      → (decoded_error o label r ≡ ok []) ↔ ((fs : Fields) × (r ≡ ok fs) × IsValid fs)
  unfolding decoded_error
  decoded_error-IsValid (ok fs) = (
    λ h. (fs, refl, (object_error-IsValid fs).0 (message_of_ok _ h)),
    λ x.
        let (gs, e, v) = x in
        ok-empty _ ((object_error-IsValid fs).1 (subst IsValid (ap (fields_or fs) (sym e)) v)),
  )
  decoded_error-IsValid (err e) = (
    λ h. absurd (ground (arith, message_of_ok _ h, decode_message-not_empty e.message)),
    λ x. absurd (ground (arith, x.1)),
  )
  decoded_error-IsValid (panic t) =
      (λ h. absurd (ground (arith, h)), λ x. absurd (ground (arith, x.1)))

  opened_error-Bundled :
      (r : Option Error) (raw : Text)
      → (opened_error o label r raw ≡ ok [])
        ↔ ((r ≡ none) × ((fs : Fields) × (o.decode_object (o.gunzip raw) ≡ ok fs) × IsValid fs))
  unfolding opened_error
  opened_error-Bundled none raw =
      let (valid, back) = decoded_error-IsValid (o.decode_object (o.gunzip raw)) in
      (λ h. (refl, valid h), λ x. back x.1)
  opened_error-Bundled (some e) raw = (
    λ h. absurd (ground (arith, message_of_ok _ h, gzip_message-not_empty)),
    λ x. absurd (ground (arith, x.0)),
  )

-- In a run without faults, for a file that is there, `validateBundle` returns no message exactly if
-- the file is gzip and holds a JSON object whose schema version, cut to an integer, is 1 or 2, and for
-- each of its rows the texts that `fmt.Sprint` prints for the game, the platform and the path are: not
-- blank; a known platform; not blank and without an element `..`, whichever slash it is written with.
-- A missing or null value prints as `<nil>`, which is not blank: such a game or path passes.
pub validate_bundle-Bundled :
    (o : Outside) (path label : Text) (w : World o) (raw : Text)
    → w.faults ≡ []
    → w.files path ≡ some raw
    → ((validate_bundle path label w).0 ≡ ok []) ↔ Bundled o raw
unfolding validate_bundle lift read_error bundle_error
validate_bundle-Bundled o path label w raw calm there =
    rw
      (bind_of_ok (attempt (read_file path)) (λ r. lift (read_error o label r)) w
        (attempt-read_file path w calm))
      (rw there (opened_error-Bundled o label (o.gunzip_header raw) raw))

-- The checks change nothing.
pub validate_bundle-same :
    (o : Outside) (path label : Text) (w : World o)
    → w.faults ≡ []
    → (validate_bundle path label w).1 ≡ w
unfolding validate_bundle lift
validate_bundle-same o path label w calm =
    ap (λ (r : Result Text × World o). r.1)
      (bind_of_ok (attempt (read_file path)) (λ r. lift (read_error o label r)) w
        (attempt-read_file path w calm))

-- The print of nil is not blank, and no way up.
nil_print :
    (is_empty (trim_space (sprint null)) ≡ false)
    × (has (text "..") (elements (sprint null)) ≡ false)
unfolding sprint text trim_space trim_left trim_right is_space elements split replace_all has
    text_eq
nil_print = (refl, refl)

-- A row with a known platform passes though it has no game and no path at all: the print of a
-- missing value is `<nil>`, which is neither empty nor blank.
pub row_error-missing :
    (o : Outside) (label : Text) (i : ℕ) (row : Fields)
    → lookup row (text "game_id") ≡ null
    → lookup row (text "path_template") ≡ null
    → has (to_lower (sprint (lookup row (text "platform")))) known_platforms ≡ true
    → row_error o label i row ≡ []
unfolding row_error
row_error-missing o label i row no_game no_path known =
    rw (no_game, no_path, known, nil_print.0, nil_print.1) refl
