-- ===== src/Json.antt =====
-- The values that package `encoding/json` decodes into `any`, and their print by `fmt.Sprint`.
use vps_sync_gsbs.Base.{Bool, true, false, List, [], ◌∷◌, ◌++◌, if◌then◌else◌}
use vps_sync_gsbs.Base.Int.{ℤ}
use vps_sync_gsbs.Text.{Text, text, text_eq, text_le}

-- A number is a `float64`, given by `int(v)` and by its print. An object has one value for a key.
mutual
  pub data Json : Type 0 where
    null : Json
    bool : Bool → Json
    number : ℤ → Text → Json
    string : Text → Json
    array : Values → Json
    object : Fields → Json

  pub data Values : Type 0 where
    no_values : Values
    value : Json → Values → Values

  pub data Fields : Type 0 where
    no_fields : Fields
    field : Text → Json → Fields → Fields

-- `m[k]` of a `map[string]any`: nil for a key that is not there.
unfoldable pub lookup : Fields → Text → Json
lookup no_fields k = null
lookup (field j v fs) k = let rest = lookup fs k in if text_eq j k then v else rest

-- A map is printed in the order of its keys.
insert_entry : Text × Text → List (Text × Text) → List (Text × Text)
insert_entry e [] = e ∷ []
insert_entry (k, v) ((j, u) ∷ es) =
    let rest = insert_entry (k, v) es in if text_le k j then (k, v) ∷ (j, u) ∷ es else (j, u) ∷ rest

print_entries : List (Text × Text) → Text
print_entries [] = []
print_entries ((k, v) ∷ []) = k ++ (b':' ∷ v)
print_entries ((k, v) ∷ (j, u) ∷ es) = k ++ (b':' ∷ (v ++ (b' ' ∷ print_entries ((j, u) ∷ es))))

-- Elements with spaces between them.
print_items : List Text → Text
print_items [] = []
print_items (v ∷ []) = v
print_items (v ∷ u ∷ vs) = v ++ (b' ' ∷ print_items (u ∷ vs))

abbrev print_bool : Bool → Text
print_bool true = text "true"
print_bool false = text "false"

-- `fmt.Sprint` of one value: nil is printed as `<nil>`.
unfoldable mutual
  unfolding insert_entry print_entries print_items

  pub sprint : Json → Text
  sprint null = text "<nil>"
  sprint (bool b) = print_bool b
  sprint (number n t) = t
  sprint (string t) = t
  sprint (array vs) = b'[' ∷ (print_items (items vs) ++ b']' ∷ [])
  sprint (object fs) = text "map[" ++ (print_entries (entries fs) ++ b']' ∷ [])

  pub items : Values → List Text
  items no_values = []
  items (value v vs) = sprint v ∷ items vs

  pub entries : Fields → List (Text × Text)
  entries no_fields = []
  entries (field k v fs) = insert_entry (k, sprint v) (entries fs)
