-- ===== src/Config/DotEnv.antt =====
-- `loadDotEnv`: the lines `KEY=value` of a file become variables that are not set yet.
pub mod First
use vps_sync_gsbs.Base.{
  ℕ, ◌+◌, Bool, true, false, ◌||◌, ◌⊎◌, inl, inr, Option, none, some, List, [], ◌∷◌, ltb, ◌==◌,
  if◌then◌else◌,
}
use vps_sync_gsbs.Text.{Text, text, is_empty}
use vps_sync_gsbs.Text.Strings.{trim_space, has_prefix, cut, split}
use vps_sync_gsbs.Exec.{Error, Exec, pure, attempt, ◌>>=◌, ◌>>◌}
use vps_sync_gsbs.Outside.{Outside}
use vps_sync_gsbs.World.{World, Io, read_file, getenv, setenv}

-- The bytes of a character in UTF-8.
width : ℕ → ℕ
width c = if ltb c 0x80 then 1 else if ltb c 0x800 then 2 else if ltb c 0x10000 then 3 else 4

bytes : Text → ℕ
unfolding width
bytes [] = 0
bytes (c ∷ s) = width c + bytes s

-- What `bufio.Scanner` gives: the lines up to the first one that does not fit into its buffer of
-- 65,536 bytes with its end. An empty last line is no line, and so is none behind the last newline.
scan : List Text → List Text
unfolding bytes
scan [] = []
scan ([] ∷ []) = []
scan ((c ∷ s) ∷ []) = if ltb (bytes (c ∷ s)) 65536 then (c ∷ s) ∷ [] else []
scan (l ∷ m ∷ ls) = let rest = scan (m ∷ ls) in if ltb (bytes l) 65536 then l ∷ rest else []

unfoldable pub lines : Text → List Text
unfolding scan
lines t = scan (split t b'\n')

-- The key and the value that a line sets, if it sets one.
unfoldable pub setting : Text → Option (Text × Text)
setting l =
    let line = trim_space l in
    if is_empty line || has_prefix line (text "#")
    then none
    else elim (cut line b'=') [ none ↦ none | some (k, v) ↦ some (trim_space k, trim_space v) ]

module _ {o : Outside} where
  -- A variable that is set, and not empty, stays.
  apply_setting : Option (Text × Text) → Io o (Unit {0})
  apply_setting none = pure tt
  apply_setting (some (k, v)) = do old ← getenv k; if is_empty old then setenv k v else pure tt

  unfoldable pub load_lines : List Text → Io o (Unit {0})
  unfolding apply_setting setting
  load_lines [] = pure tt
  load_lines (l ∷ ls) = do apply_setting (setting l); load_lines ls

  -- `loadDotEnv`: a file that cannot be opened is passed over.
  unfoldable pub load_dot_env : Text → Io o (Unit {0})
  unfolding load_lines lines
  load_dot_env path = do
    opened ← attempt (read_file path)
    elim opened [ inl t ↦ load_lines (lines t) | inr e ↦ pure tt ]
