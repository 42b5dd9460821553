-- ===== src/Text.antt =====
-- Go's strings, as the lists of their code points, with the tests and the order that the program
-- uses. The child modules hold the functions of `strings`, `strconv`, `sort` and `time` in use.
pub mod Strings
pub mod Sort
pub mod Number
pub mod Stamp
use Prim.Native.Char.{code}
use vps_sync_gsbs.Base.{
  ℕ, String, Bool, true, false, ◌&&◌, List, [], ◌∷◌, ◌++◌, ◌≡◌, ◌↔◌, refl, sym, arith, Bool-cases,
  inl, inr, ◌==◌, ltb, if◌then◌else◌,
}

abbrev pub Text : Type 0
Text = List ℕ

-- A literal. It stays folded in proofs and is opened by tests and where two literals are told apart.
unfoldable pub text : String → Text
text String.[] = []
text (String.◌∷◌ c s) = code c ∷ text s

unfoldable pub text_eq : Text → Text → Bool
text_eq [] [] = true
text_eq [] (y ∷ ys) = false
text_eq (x ∷ xs) [] = false
text_eq (x ∷ xs) (y ∷ ys) = (x == y) && text_eq xs ys

pub text_eq_iff : (s t : Text) → (text_eq s t ≡ true) ↔ (s ≡ t)
unfolding text_eq
text_eq_iff [] [] = ground arith
text_eq_iff [] (y ∷ ys) = ground arith
text_eq_iff (x ∷ xs) [] = ground arith
text_eq_iff (x ∷ xs) (y ∷ ys) = ground (arith, text_eq_iff xs ys)

pub text_eq_refl : (s : Text) → text_eq s s ≡ true
text_eq_refl s = (text_eq_iff s s).1 refl

pub text_eq-false : (s t : Text) → (s ≡ t → ⊥) → text_eq s t ≡ false
text_eq-false s t h = elim (Bool-cases (text_eq s t)) [
  | inl e ↦ absurd (h ((text_eq_iff s t).0 e))
  | inr e ↦ e
]

pub text_eq_sym : (s t : Text) → text_eq s t ≡ false → text_eq t s ≡ false
text_eq_sym s t h = text_eq-false t s (λ e. ground (arith, h, (text_eq_iff s t).1 (sym e)))

-- No text is itself with more behind it.
pub longer : (s : Text) (c : ℕ) (t : Text) → s ≡ s ++ c ∷ t → ⊥
longer [] c t e = cc
longer (d ∷ s) c t e = longer s c t (ground (arith, e))

abbrev pub is_empty : Text → Bool
is_empty [] = true
is_empty (c ∷ s) = false

-- Go compares strings by bytes, which for UTF-8 is the order of the code points.
unfoldable pub text_le : Text → Text → Bool
text_le [] t = true
text_le (x ∷ xs) [] = false
text_le (x ∷ xs) (y ∷ ys) = if x == y then text_le xs ys else ltb x y
