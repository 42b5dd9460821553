-- ===== src/Tests/Publishing.antt =====
-- Exports into a directory in memory.
use vps_sync_gsbs.Base.{
  ℕ, ◌<◌, ◌^◌, true, false, ◌≡◌, ◌≢◌, ◌↔◌, refl, ap, subst, ◌∙◌, Option, none, some, List, [], ◌∷◌,
  ◌++◌, arith, if◌then◌else◌,
}
use vps_sync_gsbs.Base.Int.{ℤ, pos, times}
use vps_sync_gsbs.Text.{Text, text, text_eq, text_eq-false}
use vps_sync_gsbs.Text.Strings.{split, trim_space, trim_left, trim_right, is_space}
use vps_sync_gsbs.FilePath.{join, is_abs}
use vps_sync_gsbs.FilePath.Absolute.{is_abs-join}
use vps_sync_gsbs.FilePath.Names.{is_name}
use vps_sync_gsbs.Exec.{ok}
use vps_sync_gsbs.Outside.{Meta, Index, Release, Releases}
use vps_sync_gsbs.World.{World, update}
use vps_sync_gsbs.Publish.Shrink.{checks, guard_against_shrink}
use vps_sync_gsbs.Publish.Shrink.Exact.{Counted, Sound, guard_against_shrink-Sound}
use vps_sync_gsbs.Publish.Release.{same_release, upsert, add_release}
use vps_sync_gsbs.Publish.Release.Distinct.{Distinct, add_release-Distinct}
use vps_sync_gsbs.Publish.Release.Upsert.{Placed, upsert-Placed}
use vps_sync_gsbs.Text.Stamp.{rfc3339}
use vps_sync_gsbs.Publish.Previous.{no_index, index_after, live_index}
use vps_sync_gsbs.Publish.Export.{Exported, export, meta_path}
use vps_sync_gsbs.Publish.Export.Refused.{export-refused}
use vps_sync_gsbs.Publish.Export.Written.{published}
use vps_sync_gsbs.Publish.Export.Published.{Wrote, export-published}
use vps_sync_gsbs.Tests.Memory.{demo, export_rows, write_meta, read_meta, advance}
use vps_sync_gsbs.Tests.Upload.{start}

abbrev counts : ℤ → Meta
counts n = record {
  games = n;
  game_save_locations = pos 20;
  catalog = pos 30;
  exported_at = [];
  full_exported_at = [];
  full_sha256 = text "old";
}

abbrev pub database : Text
database = 10 ∷ 20 ∷ 30 ∷ text "rows"

abbrev out : Text
out = text "/out"

abbrev db : Text
db = text "gsbs.db"

-- The directory holds the metadata of a publish with `n` games.
abbrev before : ℤ → World demo
before n = record start {
  files = λ q.
      if text_eq q db
      then some database
      else if text_eq q (meta_path out)
      then some (write_meta (counts n))
      else none;
}

abbrev exported : Meta
exported = record {
  games = pos 10;
  game_save_locations = pos 20;
  catalog = pos 30;
  exported_at = text "2026-07-04T00:00:00Z";
  full_exported_at = text "2026-07-04T00:00:00Z";
  full_sha256 = text "abc";
}

counted : (n : ℕ) → n < 2 ^ 53 → Counted (checks (counts (pos n)) exported)
counted n h = (
  ((omega arith, omega (arith, h)), (omega arith, omega arith)),
  (
    ((omega arith, omega arith), (omega arith, omega arith)),
    (((omega arith, omega arith), (omega arith, omega arith)), tt),
  ),
)

-- Ninety of a hundred games are gone.
shrunk : ¬ Sound (checks (counts (pos 100)) exported)
unfolding times
shrunk sound = sound.0 (omega arith, omega arith)

guard_against_shrink-Sound_example :
    (((guard_against_shrink (meta_path out) exported (before (pos 100))).0 ≡ ok tt)
      ↔ Sound (checks (counts (pos 100)) exported))
    × ((guard_against_shrink (meta_path out) exported (before (pos 100))).1 ≡ before (pos 100))
unfolding text text_eq join split write_meta read_meta
guard_against_shrink-Sound_example =
    guard_against_shrink-Sound demo (meta_path out) exported (counts (pos 100)) (before (pos 100))
      (write_meta (counts (pos 100))) refl refl refl refl (counted 100 (omega arith))

abbrev base_url : Text
base_url = text "https://cdn.example.org/"

export-refused_example :
    ((x : Exported) → (export db out base_url (text "1") (before (pos 100))).0 ≢ ok x)
    × ((export db out base_url (text "1") (before (pos 100))).1
        ≡ record (before (pos 100)) { files = update (before (pos 100)).files db (some database) })
unfolding text text_eq join split write_meta read_meta export_rows trim_space
export-refused_example =
    export-refused demo db out base_url (text "1") (before (pos 100)) database (b'z' ∷ text "rows")
      (write_meta (counts (pos 100))) exported (counts (pos 100)) refl refl refl refl refl refl refl
      refl (counted 100 (omega arith)) shrunk

sound : Sound (checks (counts (pos 12)) exported)
unfolding times
sound = (λ c. omega (arith, c.1), (λ c. omega (arith, c.1), (λ c. omega (arith, c.1), tt)))

abbrev or_counts : Option Meta → Meta
or_counts none = counts (pos 12)
or_counts (some m) = m

-- What is read of the metadata is what was written.
Sound-read :
    (shown : Text) (old : Meta)
    → (before (pos 12)).files (meta_path out) ≡ some shown
    → read_meta shown ≡ some old
    → Counted (checks old exported) × Sound (checks old exported)
unfolding text text_eq join split write_meta read_meta
Sound-read shown old there read =
    subst (λ m. Counted (checks m exported) × Sound (checks m exported))
      (ap or_counts (ap (λ v. elim v [ none ↦ none | some t ↦ read_meta t ]) there ∙ read))
      (counted 12 (omega arith), sound)

abbrev first : Index
first = record {
  manifest_version = pos 1;
  full_version = pos 1;
  full_url = base_url ++ (text "manifest.json.gz?h=" ++ text "abc");
  full_sha256 = text "abc";
}

-- The database's path is relative, and those of the directory are not.
elsewhere : (n : Text) → is_name n ≡ true → text_eq (join out n) db ≡ false
unfolding text is_abs
elsewhere n h =
    text_eq-false (join out n) db (λ e. ground (arith, ap is_abs e, is_abs-join out n refl))

export-published_example :
    (w' : World demo) × (export db out base_url (text "1") (before (pos 12))
      ≡ (ok (published out first), w'))
    × Wrote demo out
        (b'z' ∷ text "rows")
        exported
        first
        (update (before (pos 12)).files db (some database))
        w'.files
unfolding text text_eq join split write_meta read_meta export_rows trim_space is_space trim_left
    trim_right advance index_after live_index rfc3339
export-published_example =
    export-published demo db out base_url (text "1") (before (pos 12)) database (b'z' ∷ text "rows")
      exported no_index first refl refl refl refl elsewhere refl Sound-read refl refl

abbrev entry : Release
entry = record {
  type = text "full";
  exported_at = text "2026-07-04T00:00:00Z";
  full_exported_at = [];
  sha256 = text "new";
}

abbrev list : List Release
list =
    record entry { exported_at = text "2026-06-27T00:00:00Z" }
    ∷ record entry { sha256 = text "old" }
    ∷ []

upsert-Placed_example : Placed entry list (upsert entry list)
upsert-Placed_example = upsert-Placed entry list

abbrev known : Releases
known = record { schema_version = pos 1; releases = list }

add_release-Distinct_example : Distinct (add_release entry known).releases
unfolding text text_eq same_release
add_release-Distinct_example = add_release-Distinct entry known ((refl, tt), (tt, tt))
