-- ===== src/Repair/Plan.antt =====
-- Which objects a database lacks, and the order in which they are created: the query for the wanted
-- objects and the loops over its rows.
pub mod Complete
use vps_sync_gsbs.Base.{
  ℕ, ◌+◌, Bool, true, false, not, ◌&&◌, ◌||◌, ◌==◌, Option, none, some, List, [], ◌∷◌, ◌++◌, map,
  length, take, ltb, leb, if◌then◌else◌,
}
use vps_sync_gsbs.Base.Int.{ℤ, ltb_ℤ}
use vps_sync_gsbs.Text.{Text, text, text_eq, text_le}
use vps_sync_gsbs.Text.Strings.{has, contains}
use vps_sync_gsbs.Exec.{Error, errorf, wrapped, Result, ok, err, panic}
use vps_sync_gsbs.Outside.{Outside, ObjectType, table, index, trigger, view, Entry}

-- `object`
pub record Object : Type 0 where
  pub name : Text
  pub ddl : Text

-- `CASE type WHEN 'table' THEN 0 WHEN 'index' THEN 1 ELSE 2 END`
abbrev pub rank : ObjectType → ℕ
rank table = 0
rank index = 1
rank trigger = 2
rank view = 2

-- `ORDER BY rank, name`
unfoldable pub comes_first : Entry → Entry → Bool
comes_first a b =
    if rank a.type == rank b.type then text_le a.name b.name else ltb (rank a.type) (rank b.type)

unfoldable pub insert_row : Entry → List Entry → List Entry
unfolding comes_first
insert_row e [] = e ∷ []
insert_row e (x ∷ xs) =
    let rest = insert_row e xs in if comes_first e x then e ∷ x ∷ xs else x ∷ rest

unfoldable pub order_rows : List Entry → List Entry
unfolding insert_row
order_rows [] = []
order_rows (e ∷ es) = insert_row e (order_rows es)

ascii_lower : ℕ → ℕ
ascii_lower c = if leb 65 c && leb c 90 then c + 32 else c

-- `name LIKE 'sqlite_%'`: the case of ASCII letters does not count, `_` stands for one character and
-- `%` for any text.
unfoldable pub is_internal : Text → Bool
unfolding ascii_lower
is_internal name = text_eq (map ascii_lower (take 6 name)) (text "sqlite") && ltb 6 (length name)

-- The rows of the query: those with a statement and a name of the schema's own.
unfoldable pub selected : List Entry → List Entry
unfolding is_internal
selected [] = []
selected (e ∷ es) =
    let rest = selected es in
    elim e.sql [ none ↦ rest | some ddl ↦ if is_internal e.name then rest else e ∷ rest ]

ddl_of : Option Text → Text
ddl_of none = []
ddl_of (some ddl) = ddl

-- `if !existing[o.name] { missing = append(missing, o) }`
unfoldable pub lacking : List Text → List Entry → List Object
unfolding ddl_of
lacking existing [] = []
lacking existing (e ∷ es) =
    let rest = lacking existing es in
    if has e.name existing then rest else record { name = e.name; ddl = ddl_of e.sql } ∷ rest

abbrev pub names : List Entry → List Text
names [] = []
names (e ∷ es) = e.name ∷ names es

-- What the target lacks of the pristine schema, where both loops read all rows.
unfoldable pub missing : List Entry → List Entry → List Object
unfolding lacking selected order_rows
missing pristine target = lacking (names target) (order_rows (selected pristine))

abbrev pub created : List Object → List Text
created [] = []
created (x ∷ xs) = x.name ∷ created xs

module _ (o : Outside) where
  create_then : Text → Result Text → (Text → Result Text) → Result Text
  create_then name (ok t) k = k t
  create_then name (err e) k = err (wrapped (text "create " ++ name) e)
  create_then name (panic x) k = panic x

  -- The loop that creates the objects.
  unfoldable pub create_all : List Object → Text → Result Text
  unfolding create_then
  create_all [] t = ok t
  create_all (x ∷ xs) t = create_then x.name (o.exec_sql x.ddl t) (λ u. create_all xs u)

  stamped : Result Text → Result Text
  stamped (ok t) = ok t
  stamped (err e) = err (wrapped (text "stamp schema version") e)
  stamped (panic x) = panic x

  -- The version is stamped if the pristine one is newer.
  unfoldable pub stamp_if_newer : ℤ → ℤ → Text → Result Text
  unfolding stamped
  stamp_if_newer pristine target t =
      if ltb_ℤ target pristine then stamped (o.stamp_version pristine t) else ok t

  -- The transaction: its statements, from the contents at its beginning to those that are committed.
  unfoldable pub transaction : List Object → ℤ → ℤ → Text → Result Text
  unfolding create_all stamp_if_newer
  transaction objects pristine target t = elim (create_all objects t) [
    | ok u ↦ stamp_if_newer pristine target u
    | err e ↦ err e
    | panic x ↦ panic x
  ]

-- `IsSchemaError`, for an error that is there.
unfoldable pub is_schema_error : Error → Bool
is_schema_error e =
    contains e.message (text "migration step") && contains e.message (text "no such table")
