-- ===== src/Tests/Repairing.antt =====
-- A database in memory: its version, and then the letters that name its tables.
use vps_sync_gsbs.Base.{
  ℕ, Bool, true, false, ◌||◌, ◌≡◌, refl, sym, ap, subst, ◌∙◌, ◌≤◌, ◌==◌, All, length, none, some,
  List, [], ◌∷◌, ◌++◌, Option, arith, if◌then◌else◌,
}
use vps_sync_gsbs.Base.Int.{ℤ, pos, negsuc}
use vps_sync_gsbs.Text.{Text, text, text_eq, text_eq_refl, text_eq-false, text_eq_sym, text_le}
use vps_sync_gsbs.Text.Strings.{has, has_prefix}
use vps_sync_gsbs.FilePath.Names.{IsName, is_name-IsName, front, join-name}
use vps_sync_gsbs.Exec.{Error, errorf, Result, ok, err, panic}
use vps_sync_gsbs.Exec.Triple.{Post}
use vps_sync_gsbs.Outside.{Outside, table, Entry}
use vps_sync_gsbs.World.{World}
use vps_sync_gsbs.Repair.{repair_db}
use vps_sync_gsbs.Repair.Plan.{names, missing, order_rows, is_internal}
use vps_sync_gsbs.Repair.Plan.Complete.{IsEngine, Creates, Kept}
use vps_sync_gsbs.Repair.Repairs.{Settled, repair_db-Repaired}
use vps_sync_gsbs.Repair.Repairs.Pristine.{Apart, pristine_path, temporary}
use vps_sync_gsbs.Tests.Memory.{demo}

unfoldable pub rows_of : Text → List Entry
rows_of [] = []
rows_of (c ∷ t) = record { type = table; name = c ∷ []; sql = some (c ∷ []) } ∷ rows_of t

unfoldable pub read_rows : Text → Result (List Entry)
unfolding rows_of
read_rows [] = err (errorf (text "file is not a database"))
read_rows (v ∷ t) = ok (rows_of t)

unfoldable pub read_version : Text → Result ℤ
read_version [] = err (errorf (text "file is not a database"))
read_version (v ∷ t) = ok (pos v)

-- A statement is the letter of the table that it creates.
unfoldable pub run_statement : Text → Text → Result Text
run_statement (c ∷ []) (v ∷ t) = ok (v ∷ c ∷ t)
run_statement ddl t = err (errorf (text "syntax error"))

unfoldable pub restamp : ℤ → Text → Result Text
restamp (pos n) (v ∷ t) = ok (n ∷ t)
restamp n t = err (errorf (text "syntax error"))

abbrev migrated : Option Text → Text × Option Error
migrated none = (7 ∷ b'u' ∷ b'g' ∷ [], none)
migrated (some t) = (t, none)

abbrev sql : Outside
sql = record demo {
  open_store = migrated;
  user_version = read_version;
  sqlite_master = read_rows;
  exec_sql = run_statement;
  stamp_version = restamp;
}

-- The games are there, and the users are gone.
abbrev sanitized : World sql
sanitized = record {
  files = λ q. if text_eq q (text "pub.db") then some (5 ∷ b'g' ∷ []) else none;
  env = λ k. [];
  faults = [];
  ticks = 0;
  remote = [];
  history = [];
  posts = [];
}

abbrev pristine : List Entry
pristine =
    record { type = table; name = b'u' ∷ []; sql = some (b'u' ∷ []) }
    ∷ record { type = table; name = b'g' ∷ []; sql = some (b'g' ∷ []) }
    ∷ []

value : {A : Type 0} {a b : A} → ◌≡◌ {A = Result A} (ok a) (ok b) → a ≡ b
value {a} e = ap (λ x. elim x [ ok y ↦ y | err _ ↦ a | panic _ ↦ a ]) e

or_true : (b : Bool) → (b || true) ≡ true
or_true true = refl
or_true false = refl

letter-Creates : (c : ℕ) → Creates sql (record { name = c ∷ []; ddl = c ∷ [] })
unfolding run_statement read_rows read_version rows_of has
letter-Creates c [] u ms made read = absurd (ground (arith, read))
letter-Creates c (v ∷ t) u ms made read =
    subst (λ u. Made u ms) (value made)
      (subst (λ ms. Made (v ∷ c ∷ t) ms) (value read)
        (
          record { type = table; name = c ∷ []; sql = some (c ∷ []) } ∷ rows_of t,
          refl,
          λ k h. rw h (or_true (text_eq k (c ∷ []))),
          rw (text_eq_refl (c ∷ [])) refl,
          refl,
        ))
  where
    Made : Text → List Entry → Type 0
    Made u ms =
        (ms' : List Entry) × (read_rows u ≡ ok ms')
        × Kept ms ms'
        × (has (c ∷ []) (names ms') ≡ true)
        × (read_version u ≡ read_version (v ∷ t))

stamp_lem :
    (v : ℤ) (t u : Text)
    → restamp v t ≡ ok u
    → (read_rows u ≡ read_rows t) × (read_version u ≡ ok v)
unfolding restamp read_rows read_version
stamp_lem (pos n) (v ∷ t) u e =
    subst (λ u. (read_rows u ≡ ok (rows_of t)) × (read_version u ≡ ok (pos n))) (value e)
      (refl, refl)
stamp_lem (pos n) [] u e = absurd (ground (arith, e))
stamp_lem (negsuc n) t u e = absurd (ground (arith, e))

engine : IsEngine sql pristine
unfolding missing order_rows is_internal text_eq text has text_le
engine = record { creates = (letter-Creates b'g', (letter-Creates b'u', tt)); stamps = stamp_lem }

-- A name without a slash is in no directory.
no_directory :
    (s p : Text) → All (λ c. (c == b'/') ≡ false) s → has_prefix s (p ++ b'/' ∷ []) ≡ false
unfolding has_prefix
no_directory [] [] h = refl
no_directory [] (c ∷ p) h = refl
no_directory (d ∷ s) [] (h, hs) = ground (arith, h)
no_directory (d ∷ s) (c ∷ p) (h, hs) = ground (arith, no_directory s p hs)

length-behind : (p q : Text) → length q ≤ length (p ++ q)
length-behind [] q = omega arith
length-behind (c ∷ p) q = omega (arith, length-behind p q)

pristine-IsName : IsName (text "pristine.db")
unfolding text text_eq
pristine-IsName = is_name-IsName (text "pristine.db") refl

pub-IsName : IsName (text "pub.db")
unfolding text text_eq
pub-IsName = is_name-IsName (text "pub.db") refl

-- The pristine database has a longer name.
pristine-ne : (d : Text) → text_eq (pristine_path d) (text "pub.db") ≡ false
unfolding text
pristine-ne d = text_eq-false (pristine_path d) (text "pub.db") (λ e. omega (
  arith,
  length-behind (front d) (text "pristine.db"),
  ap length (sym (join-name d (text "pristine.db") pristine-IsName) ∙ e),
))

beside : Apart sql (text "pub.db") sanitized.files
unfolding text
beside = record {
  elsewhere = λ b n. text_eq_sym _ (text "pub.db") (pristine-ne _);
  spared = λ b n. no_directory (text "pub.db") _ pub-IsName.no_slash;
  spared_early = λ b n. no_directory (text "pub.db") _ pub-IsName.no_slash;
  fresh = λ b n. rw (pristine-ne (temporary b (sql.random n))) refl;
}

repair_db-Repaired_example :
    Post
      (λ cs w'. Settled sql (text "pub.db") pristine sanitized.files cs w'.files)
      (λ _ w'. w'.files (text "pub.db") ≡ sanitized.files (text "pub.db"))
      (repair_db (text "pub.db") sanitized).0
      (repair_db (text "pub.db") sanitized).1
unfolding rows_of read_rows
repair_db-Repaired_example =
    repair_db-Repaired sql (text "pub.db") sanitized pristine beside refl engine (λ n. refl)
