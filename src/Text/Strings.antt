-- ===== src/Text/Strings.antt =====
-- The functions of Go's package `strings` that the program calls.
use vps_sync_gsbs.Base.{
  ℕ, Bool, true, false, ◌&&◌, ◌||◌, List, [], ◌∷◌, ◌++◌, map, ◌≡◌, refl, ◌+◌, Option, none, some,
  arith, ◌==◌, leb, if◌then◌else◌,
}
use vps_sync_gsbs.Text.{Text, text_eq, is_empty}
use mathlib.Core.List.{reverse}

-- `unicode.IsSpace`.
unfoldable pub is_space : ℕ → Bool
is_space c =
    (leb 9 c && leb c 13)
    || (c == 32)
    || (c == 0x85)
    || (c == 0xA0)
    || (c == 0x1680)
    || (leb 0x2000 c && leb c 0x200A)
    || (c == 0x2028)
    || (c == 0x2029)
    || (c == 0x202F)
    || (c == 0x205F)
    || (c == 0x3000)

module _ (p : ℕ → Bool) where
  unfoldable pub trim_left : Text → Text
  trim_left [] = []
  trim_left (c ∷ s) = let rest = trim_left s in if p c then rest else c ∷ s

  unfoldable pub trim_right : Text → Text
  trim_right [] = []
  trim_right (c ∷ s) = let rest = trim_right s in if is_empty rest && p c then [] else c ∷ rest

-- `strings.TrimSpace`
unfoldable pub trim_space : Text → Text
unfolding is_space trim_left trim_right
trim_space s = trim_right is_space (trim_left is_space s)

-- `strings.Trim(s, "/")` for a cutset of one character.
unfoldable pub trim : Text → ℕ → Text
unfolding trim_left trim_right
trim s c = trim_right (λ d. d == c) (trim_left (λ d. d == c) s)

-- `strings.HasPrefix`
unfoldable pub has_prefix : Text → Text → Bool
has_prefix s [] = true
has_prefix [] (c ∷ p) = false
has_prefix (d ∷ s) (c ∷ p) = (d == c) && has_prefix s p

-- `strings.HasSuffix`
unfoldable pub has_suffix : Text → Text → Bool
unfolding has_prefix
has_suffix s p = has_prefix (reverse s) (reverse p)

-- `strings.TrimSuffix(s, "/")` for a suffix of one character.
unfoldable pub trim_suffix : Text → ℕ → Text
trim_suffix [] c = []
trim_suffix (d ∷ []) c = if d == c then [] else d ∷ []
trim_suffix (d ∷ e ∷ s) c = d ∷ trim_suffix (e ∷ s) c

-- `strings.Contains`
unfoldable pub contains : Text → Text → Bool
unfolding has_prefix
contains [] p = is_empty p
contains (c ∷ s) p = has_prefix (c ∷ s) p || contains s p

-- `strings.Cut(s, sep)` at one character: what stands before and behind its first occurrence.
unfoldable pub cut : Text → ℕ → Option (Text × Text)
cut [] sep = none
cut (c ∷ s) sep =
    let rest = cut s sep in
    if c == sep then some ([], s) else elim rest [ none ↦ none | some (k, v) ↦ some (c ∷ k, v) ]

-- Puts a character in front of the first part.
abbrev pub grow : ℕ → List Text → List Text
grow c [] = (c ∷ []) ∷ []
grow c (p ∷ ps) = (c ∷ p) ∷ ps

-- `strings.Split(s, sep)` at one character: never the empty list.
unfoldable pub split : Text → ℕ → List Text
split [] sep = [] ∷ []
split (c ∷ s) sep = let rest = split s sep in if c == sep then [] ∷ rest else grow c rest

-- `strings.Join`
unfoldable pub join : List Text → Text → Text
join [] sep = []
join (p ∷ []) sep = p
join (p ∷ q ∷ ps) sep = p ++ (sep ++ join (q ∷ ps) sep)

-- `strings.ReplaceAll` of one character by another.
unfoldable pub replace_all : Text → ℕ → ℕ → Text
replace_all s old new = map (λ c. if c == old then new else c) s

-- `unicode.ToLower` on ASCII, and on the two other characters whose lower case is ASCII. The
-- program compares the result with ASCII words only.
unfoldable pub lower : ℕ → ℕ
lower c =
    if leb b'A' c && leb c b'Z'
    then c + 32
    else if c == 0x130
    then b'i'
    else if c == 0x212A
    then b'k'
    else c

-- `strings.ToLower`
unfoldable pub to_lower : Text → Text
unfolding lower
to_lower = map lower

-- A search in a list, as by a loop that compares.
unfoldable pub has : Text → List Text → Bool
has k [] = false
has k (x ∷ xs) = text_eq k x || has k xs

-- What `HasPrefix` tests.
pub has_prefix-append : (p s : Text) → has_prefix (p ++ s) p ≡ true
unfolding has_prefix
has_prefix-append [] [] = refl
has_prefix-append [] (c ∷ s) = refl
has_prefix-append (c ∷ p) s = ground (arith, has_prefix-append p s)

pub has_prefix_of_append : (s p : Text) → has_prefix s p ≡ true → (rest : Text) × (s ≡ p ++ rest)
unfolding has_prefix
has_prefix_of_append s [] h = (s, refl)
has_prefix_of_append [] (c ∷ p) h = ([], ground arith)
has_prefix_of_append (d ∷ s) (c ∷ p) h =
    let (rest, e) = has_prefix_of_append s p (ground arith) in (rest, ground (arith, e))
