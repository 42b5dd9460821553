-- ===== src/Text/Sort.antt =====
-- `sort.Strings`. Equal strings cannot be told apart, so every sort by this order gives the same
-- list, and insertion gives it with the shortest proofs.
pub mod Newest
use vps_sync_gsbs.Base.{
  ℕ, zero, suc, Bool, true, false, ◌||◌, List, [], ◌∷◌, ◌++◌, ◌≡◌, refl, ap, arith, length, take,
  drop, All, All-drop, if◌then◌else◌,
}
use vps_sync_gsbs.Text.{Text, text_eq, text_le}
use vps_sync_gsbs.Text.Strings.{has}

unfoldable pub insert : Text → List Text → List Text
insert k [] = k ∷ []
insert k (x ∷ xs) = if text_le k x then k ∷ x ∷ xs else x ∷ insert k xs

unfoldable pub sort : List Text → List Text
unfolding insert
sort [] = []
sort (x ∷ xs) = insert x (sort xs)

pub text_le_refl : (s : Text) → text_le s s ≡ true
unfolding text_le
text_le_refl [] = refl
text_le_refl (x ∷ xs) = ground (arith, text_le_refl xs)

pub text_le_total : (s t : Text) → text_le s t ≡ false → text_le t s ≡ true
unfolding text_le
text_le_total [] t h = ground arith
text_le_total (x ∷ xs) [] h = refl
text_le_total (x ∷ xs) (y ∷ ys) h = ground (arith, text_le_total xs ys)

pub text_le_trans : (s t u : Text) → text_le s t ≡ true → text_le t u ≡ true → text_le s u ≡ true
unfolding text_le
text_le_trans [] t u h k = refl
text_le_trans (x ∷ xs) [] u h k = ground arith
text_le_trans (x ∷ xs) (y ∷ ys) [] h k = ground arith
text_le_trans (x ∷ xs) (y ∷ ys) (z ∷ zs) h k = ground (arith, text_le_trans xs ys zs)

abbrev pub Below : Text → List Text → Type 0
Below k = All (λ x. text_le k x ≡ true)

abbrev pub IsSorted : List Text → Type 0
IsSorted [] = Unit
IsSorted (x ∷ xs) = Below x xs × IsSorted xs

Below-trans : (k x : Text) (xs : List Text) → text_le k x ≡ true → Below x xs → Below k xs
Below-trans k x [] h b = tt
Below-trans k x (y ∷ ys) h (hy, b) = (text_le_trans k x y h hy, Below-trans k x ys h b)

Below-insert :
    (k y : Text) (xs : List Text) → text_le k y ≡ true → Below k xs → Below k (insert y xs)
unfolding insert
Below-insert k y [] h b = (h, tt)
Below-insert k y (x ∷ xs) h (hx, b) = ground (arith, Below-insert k y xs)

insert-IsSorted : (k : Text) (xs : List Text) → IsSorted xs → IsSorted (insert k xs)
unfolding insert
insert-IsSorted k [] s = (tt, tt)
insert-IsSorted k (x ∷ xs) (b, s) =
    ground
      (arith, insert-IsSorted k xs s, Below-trans k x xs, Below-insert x k xs, text_le_total k x)

pub sort-IsSorted : (xs : List Text) → IsSorted (sort xs)
unfolding sort
sort-IsSorted [] = tt
sort-IsSorted (x ∷ xs) = insert-IsSorted x (sort xs) (sort-IsSorted xs)

has-insert : (k x : Text) (xs : List Text) → has k (insert x xs) ≡ (text_eq k x || has k xs)
unfolding insert has
has-insert k x [] = refl
has-insert k x (y ∷ ys) = ground (arith, has-insert k x ys)

-- A sort keeps every element and adds none.
pub has-sort : (k : Text) (xs : List Text) → has k (sort xs) ≡ has k xs
unfolding sort has
has-sort k [] = refl
has-sort k (x ∷ xs) = ground (arith, has-insert k x (sort xs), has-sort k xs)

length-insert : (k : Text) (xs : List Text) → length (insert k xs) ≡ suc (length xs)
unfolding insert
length-insert k [] = refl
length-insert k (x ∷ xs) = ground (arith, length-insert k xs)

pub length-sort : (xs : List Text) → length (sort xs) ≡ length xs
unfolding sort
length-sort [] = refl
length-sort (x ∷ xs) = ground (arith, length-insert x (sort xs), length-sort xs)

-- In a sorted list what stands in front is below what stands behind.
pub IsSorted-split :
    (n : ℕ) (xs : List Text) → IsSorted xs → All (λ k. Below k (drop n xs)) (take n xs)
IsSorted-split zero xs s = tt
IsSorted-split (suc n) [] s = tt
IsSorted-split (suc n) (x ∷ xs) (b, s) = (All-drop _ n xs b, IsSorted-split n xs s)
