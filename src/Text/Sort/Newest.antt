-- ===== src/Text/Sort/Newest.antt =====
-- The last elements of a sorted list, told by how many elements are greater.
use vps_sync_gsbs.Base.{
  ℕ, zero, suc, ◌-◌, ◌≤◌, ◌<◌, true, false, ◌&&◌, List, [], ◌∷◌, ◌≡◌, refl, arith, length, take,
  drop, ltb, leb, inl, inr, Bool-cases, not, sym, subst, if◌then◌else◌,
}
use vps_sync_gsbs.Text.{Text, text_eq, text_eq_iff, text_le}
use vps_sync_gsbs.Text.Strings.{has}
use vps_sync_gsbs.Text.Sort.{
  insert, sort, Below, IsSorted, sort-IsSorted, has-sort, has-insert, length-sort, text_le_refl,
}

-- How many elements of the list are greater than `k`.
abbrev pub newer : Text → List Text → ℕ
newer k [] = 0
newer k (x ∷ xs) = let rest = newer k xs in if text_le x k then rest else suc rest

-- No element stands twice.
abbrev pub Distinct : List Text → Type 0
Distinct [] = Unit
Distinct (x ∷ xs) = (has x xs ≡ false) × Distinct xs

pub text_le_antisymm : (s t : Text) → text_le s t ≡ true → text_le t s ≡ true → s ≡ t
unfolding text_le
text_le_antisymm [] [] h k = refl
text_le_antisymm [] (y ∷ ys) h k = ground arith
text_le_antisymm (x ∷ xs) [] h k = ground arith
text_le_antisymm (x ∷ xs) (y ∷ ys) h k = ground (arith, text_le_antisymm xs ys)

newer-insert :
    (k x : Text) (xs : List Text)
    → newer k (insert x xs) ≡ (if text_le x k then newer k xs else suc (newer k xs))
unfolding insert
newer-insert k x [] = refl
newer-insert k x (y ∷ ys) = ground (arith, newer-insert k x ys)

pub newer-sort : (k : Text) (xs : List Text) → newer k (sort xs) ≡ newer k xs
unfolding sort
newer-sort k [] = refl
newer-sort k (x ∷ xs) = ground (arith, newer-insert k x (sort xs), newer-sort k xs)

insert-Distinct :
    (x : Text) (xs : List Text) → has x xs ≡ false → Distinct xs → Distinct (insert x xs)
unfolding insert has
insert-Distinct x [] h d = (h, tt)
insert-Distinct x (y ∷ ys) h d =
    ground (arith, insert-Distinct x ys, has-insert y x ys, text_eq_iff x y, text_eq_iff y x)

sort-Distinct : (xs : List Text) → Distinct xs → Distinct (sort xs)
unfolding sort
sort-Distinct [] d = tt
sort-Distinct (x ∷ xs) d =
    insert-Distinct x (sort xs) (ground (arith, has-sort x xs)) (sort-Distinct xs d.1)

-- Below everything else in the list, the head has all of it above.
newer_of_Below :
    (x : Text) (xs : List Text) → Below x xs → has x xs ≡ false → newer x xs ≡ length xs
unfolding has
newer_of_Below x [] b h = refl
newer_of_Below x (y ∷ ys) b h =
    ground (arith, newer_of_Below x ys, text_le_antisymm x y b.0, text_eq_iff x y)

newer-le-length : (k : Text) (xs : List Text) → newer k xs ≤ length xs
newer-le-length k [] = omega arith
newer-le-length k (x ∷ xs) = ground (arith, newer-le-length k xs)

newer-lt-length : (k : Text) (xs : List Text) → has k xs ≡ true → newer k xs < length xs
unfolding has
newer-lt-length k [] h = ground arith
newer-lt-length k (x ∷ xs) h =
    ground (arith, newer-lt-length k xs, newer-le-length k xs, text_eq_iff k x, text_le_refl k)

has-drop-false : (k : Text) (n : ℕ) (xs : List Text) → has k xs ≡ false → has k (drop n xs) ≡ false
unfolding has
has-drop-false k zero xs h = h
has-drop-false k (suc n) [] h = h
has-drop-false k (suc n) (x ∷ xs) h = has-drop-false k n xs (ground arith)

le_of_has : (k x : Text) (xs : List Text) → Below x xs → has k xs ≡ true → text_le x k ≡ true
unfolding has
le_of_has k x [] b h = ground arith
le_of_has k x (y ∷ ys) b h = ground (arith, le_of_has k x ys b.1, text_eq_iff k y, b.0)

-- In a sorted list with no element twice the last `n` are those with fewer than `n` above them.
pub has-drop_newest :
    (n : ℕ) (k : Text) (xs : List Text)
    → IsSorted xs
    → Distinct xs
    → has k xs ≡ true
    → has k (drop (length xs - n) xs) ≡ ltb (newer k xs) n
unfolding has
has-drop_newest n k [] s d h = ground arith
has-drop_newest n k (x ∷ xs) s d h = elim (Bool-cases (leb n (length xs))) [
  | inl few ↦
      rw (let e : suc (length xs) - n ≡ suc (length xs - n) = ground arith in e)
        (elim (Bool-cases (text_eq k x)) [
          | inl e ↦
              let same = sym ((text_eq_iff k x).0 e) in
              let all_above =
                subst (λ j. newer j xs ≡ length xs) same (newer_of_Below x xs s.0 d.0) in
              let cut_off =
                subst (λ j. has j (drop (length xs - n) xs) ≡ false) same
                  (has-drop-false x (length xs - n) xs d.0) in
              let le = subst (λ j. text_le x j ≡ true) same (text_le_refl x) in
              ground (arith, all_above, cut_off, le)
          | inr ne ↦ ground (arith, has-drop_newest n k xs s.1 d.1, le_of_has k x xs s.0)
        ])
  | inr many ↦
      rw (let e : suc (length xs) - n ≡ 0 = ground arith in e)
        (ground (arith, newer-lt-length k (x ∷ xs) h, h))
]

-- The last `n` of a sorted list are its `n` greatest elements.
pub has-newest :
    (n : ℕ) (k : Text) (xs : List Text)
    → Distinct xs
    → has k xs ≡ true
    → has k (drop (length xs - n) (sort xs)) ≡ ltb (newer k xs) n
has-newest n k xs d h = rw (← length-sort xs) (
    rw (← newer-sort k xs) (
      has-drop_newest n k (sort xs) (sort-IsSorted xs) (sort-Distinct xs d) (rw (has-sort k xs) h)))

-- What is cut off in front and what is kept share no element.
pub has-take-drop :
    (n : ℕ) (k : Text) (xs : List Text)
    → Distinct xs
    → has k xs ≡ true
    → has k (take n xs) ≡ not (has k (drop n xs))
unfolding has
has-take-drop zero k xs d h = rw h refl
has-take-drop (suc n) k [] d h = ground arith
has-take-drop (suc n) k (x ∷ xs) d h = ground (
  arith,
  has-take-drop n k xs d.1,
  has-drop-false x n xs d.0,
  text_eq_iff k x,
  has-drop-false k n xs,
)

-- The first of a sort that keeps the last `n` are the elements with at least `n` above them.
pub has-oldest :
    (n : ℕ) (k : Text) (xs : List Text)
    → Distinct xs
    → has k xs ≡ true
    → has k (take (length xs - n) (sort xs)) ≡ leb n (newer k xs)
has-oldest n k xs d h = ground (
  arith,
  has-take-drop (length xs - n) k (sort xs) (sort-Distinct xs d) (rw (has-sort k xs) h),
  has-newest n k xs d h,
)

has-take-false : (k : Text) (n : ℕ) (xs : List Text) → has k xs ≡ false → has k (take n xs) ≡ false
unfolding has
has-take-false k zero xs h = refl
has-take-false k (suc n) [] h = refl
has-take-false k (suc n) (x ∷ xs) h = ground (arith, has-take-false k n xs)

-- The same for any text: it is among those cut off if it is listed and at least `n` are greater.
pub has-cut_off :
    (n : ℕ) (k : Text) (xs : List Text)
    → Distinct xs
    → has k (take (length xs - n) (sort xs)) ≡ (has k xs && leb n (newer k xs))
has-cut_off n k xs d = elim (Bool-cases (has k xs)) [
  | inl h ↦ rw h (has-oldest n k xs d h)
  | inr h ↦ rw h (has-take-false k (length xs - n) (sort xs) (rw (has-sort k xs) h))
]
