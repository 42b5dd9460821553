-- ===== src/FilePath.antt =====
-- Package `path/filepath` on Unix: `Clean`, `Join`, `Dir`, `Base` and `IsAbs`.
pub mod Absolute
pub mod Names
use mathlib.Core.List.{reverse, foldl}
use vps_sync_gsbs.Base.{
  ℕ, Bool, true, false, ◌||◌, List, [], ◌∷◌, ◌++◌, ◌≡◌, refl, ◌==◌, if◌then◌else◌,
}
use vps_sync_gsbs.Text.{Text, text, text_eq, is_empty}
use vps_sync_gsbs.Text.Strings.{split, trim_right}

-- `filepath.IsAbs`
unfoldable pub is_abs : Text → Bool
is_abs [] = false
is_abs (c ∷ s) = c == b'/'

abbrev slash : Text
slash = b'/' ∷ []

abbrev dot : Text
dot = b'.' ∷ []

abbrev dot_dot : Text
dot_dot = b'.' ∷ b'.' ∷ []

-- What `..` does to the elements written so far, the last one first.
back_up : Bool → List Text → List Text
back_up true [] = []
back_up false [] = dot_dot ∷ []
back_up rooted (e ∷ es) = if text_eq e dot_dot then dot_dot ∷ e ∷ es else es

-- One path element.
element : Bool → List Text → Text → List Text
unfolding back_up
element rooted es e =
    if is_empty e || text_eq e dot
    then es
    else if text_eq e dot_dot
    then back_up rooted es
    else e ∷ es

elements : Bool → List Text → List Text → List Text
elements rooted es [] = es
elements rooted es (p ∷ ps) = elements rooted (element rooted es p) ps

-- The elements, the last one first, with slashes between them.
spell : List Text → Text
spell [] = []
spell (e ∷ []) = e
spell (e ∷ f ∷ es) = spell (f ∷ es) ++ (b'/' ∷ e)

spell_path : Bool → List Text → Text
unfolding spell
spell_path true es = b'/' ∷ spell es
spell_path false [] = dot
spell_path false (e ∷ es) = spell (e ∷ es)

-- `filepath.Clean`
unfoldable pub clean : Text → Text
unfolding is_abs elements element spell_path
clean s = spell_path (is_abs s) (elements (is_abs s) [] (split s b'/'))

-- `filepath.Join` of two elements: empty ones in front are dropped.
unfoldable pub join : Text → Text → Text
unfolding clean
join [] [] = []
join [] (c ∷ e) = clean (c ∷ e)
join (c ∷ d) e = clean ((c ∷ d) ++ (b'/' ∷ e))

-- What stands up to the last slash, that included.
up_to_slash : Text → Text
unfolding trim_right
up_to_slash = trim_right (λ c. if c == b'/' then false else true)

-- `filepath.Dir`
unfoldable pub dir : Text → Text
unfolding clean up_to_slash
dir s = clean (up_to_slash s)

-- What stands behind the last slash.
behind_slash : Text → Text → Text
behind_slash cur [] = cur
behind_slash cur (c ∷ s) = behind_slash (if c == b'/' then [] else cur ++ c ∷ []) s

-- `filepath.Base`
unfoldable pub base : Text → Text
unfolding trim_right behind_slash
base [] = dot
base (c ∷ s) =
    let trimmed = trim_right (λ d. d == b'/') (c ∷ s) in
    if is_empty trimmed then slash else behind_slash [] trimmed

clean_tests :
    (clean (text "a//b/./c/..") ≡ text "a/b")
    × (clean (text "/../x/") ≡ text "/x")
    × (clean (text "../../x") ≡ text "../../x")
    × (clean (text "") ≡ text ".")
    × (clean (text "a/..") ≡ text ".")
    × (clean (text "/") ≡ text "/")
unfolding clean text text_eq split
clean_tests = (refl, refl, refl, refl, refl, refl)

join_tests :
    (join (text "/srv/out") (text "index.json") ≡ text "/srv/out/index.json")
    × (join (text "") (text "x") ≡ text "x")
    × (dir (text "/srv/out") ≡ text "/srv")
    × (dir (text "gsbs.db") ≡ text ".")
    × (base (text "/srv/gsbs.db") ≡ text "gsbs.db")
    × (base (text "/") ≡ text "/")
unfolding join dir base text text_eq split
join_tests = (refl, refl, refl, refl, refl, refl)
