-- ===== src/FilePath/Names.antt =====
-- Files of one directory: a path joined from a directory and a plain name ends in that name, behind
-- a text that depends on the directory alone.
use vps_sync_gsbs.Base.{
  ℕ, Bool, true, false, not, ◌&&◌, List, [], ◌∷◌, ◌++◌, ◌≡◌, ◌≢◌, refl, sym, ap, ◌∙◌, arith, ◌==◌,
  All, append_assoc, append-cancel,
}
use vps_sync_gsbs.Text.{Text, text_eq, text_eq_iff, text_eq-false, is_empty}
use vps_sync_gsbs.Text.Strings.{split, grow}
use vps_sync_gsbs.FilePath.{is_abs, element, elements, spell, spell_path, clean, join, dot, dot_dot}

-- A name of one path element: no slash, and neither empty, `.` nor `..`.
pub record IsName (n : Text) : Type 0 where
  pub no_slash : All (λ c. (c == b'/') ≡ false) n
  pub not_empty : is_empty n ≡ false
  pub not_dot : text_eq n dot ≡ false
  pub not_dot_dot : text_eq n dot_dot ≡ false

-- The same as a test.
abbrev no_slash_in : Text → Bool
no_slash_in [] = true
no_slash_in (c ∷ s) = not (c == b'/') && no_slash_in s

abbrev pub is_name : Text → Bool
is_name n = no_slash_in n && (not (is_empty n) && (not (text_eq n dot) && not (text_eq n dot_dot)))

no_slash_in-All : (n : Text) → no_slash_in n ≡ true → All (λ c. (c == b'/') ≡ false) n
no_slash_in-All [] h = tt
no_slash_in-All (c ∷ s) h = (ground (arith, h), no_slash_in-All s (ground (arith, h)))

pub is_name-IsName : (n : Text) → is_name n ≡ true → IsName n
is_name-IsName n h = record {
  no_slash = no_slash_in-All n (ground (arith, h));
  not_empty = ground (arith, h);
  not_dot = ground (arith, h);
  not_dot_dot = ground (arith, h);
}

split_of_name : (n : Text) → All (λ c. (c == b'/') ≡ false) n → split n b'/' ≡ n ∷ []
unfolding split
split_of_name [] h = refl
split_of_name (c ∷ n) (hc, h) = rw hc (rw (split_of_name n h) refl)

grow-append : (c : ℕ) (ps qs : List Text) → ps ≢ [] → grow c (ps ++ qs) ≡ grow c ps ++ qs
grow-append c [] qs h = absurd (h refl)
grow-append c (p ∷ ps) qs h = refl

split-ne-nil : (s : Text) (sep : ℕ) → split s sep ≢ []
unfolding split
split-ne-nil [] sep e = cc
split-ne-nil (c ∷ s) sep e = ground (arith, split-ne-nil s sep)

split-append :
    (s n : Text)
    → All (λ c. (c == b'/') ≡ false) n
    → split (s ++ (b'/' ∷ n)) b'/' ≡ split s b'/' ++ (n ∷ [])
unfolding split
split-append [] n h = rw (split_of_name n h) refl
split-append (c ∷ s) n h =
    rw (split-append s n h)
      (ground (arith, grow-append c (split s b'/') (n ∷ []) (split-ne-nil s b'/')))

elements-append :
    (rooted : Bool) (es ps qs : List Text)
    → elements rooted es (ps ++ qs) ≡ elements rooted (elements rooted es ps) qs
unfolding elements
elements-append rooted es [] qs = refl
elements-append rooted es (p ∷ ps) qs = elements-append rooted (element rooted es p) ps qs

element_of_name :
    (rooted : Bool) (es : List Text) (n : Text) → IsName n → element rooted es n ≡ n ∷ es
unfolding element
element_of_name rooted es n h = rw (h.not_empty, h.not_dot) (rw h.not_dot_dot refl)

-- The elements of a directory's path, the last one first.
stack : Text → List Text
stack d = elements (is_abs d) [] (split d b'/')

spell_front : Bool → List Text → Text
spell_front true [] = b'/' ∷ []
spell_front false [] = []
spell_front true (e ∷ es) = b'/' ∷ (spell (e ∷ es) ++ (b'/' ∷ []))
spell_front false (e ∷ es) = spell (e ∷ es) ++ (b'/' ∷ [])

spell_path-cons :
    (rooted : Bool) (es : List Text) (n : Text)
    → spell_path rooted (n ∷ es) ≡ spell_front rooted es ++ n
unfolding spell_path spell_front
spell_path-cons true [] n = refl
spell_path-cons false [] n = refl
spell_path-cons true (e ∷ es) n = ap (λ t. b'/' ∷ t) (sym (append_assoc (spell (e ∷ es)) _ n))
spell_path-cons false (e ∷ es) n = sym (append_assoc (spell (e ∷ es)) _ n)

-- The text in front of the names that are joined to a directory.
pub front : Text → Text
front [] = []
front (c ∷ d) = spell_front (is_abs (c ∷ d)) (stack (c ∷ d))

clean_of_name : (n : Text) → IsName n → clean n ≡ n
unfolding clean is_abs
clean_of_name [] h = ground (arith, h.not_empty)
clean_of_name (c ∷ n) h =
    rw (split_of_name (c ∷ n) h.no_slash, h.no_slash.0)
      (unfold elements in rw (element_of_name false [] (c ∷ n) h) refl)

elements_of_name :
    (rooted : Bool) (es : List Text) (n : Text) → IsName n → elements rooted es (n ∷ []) ≡ n ∷ es
unfolding elements
elements_of_name rooted es n h = element_of_name rooted es n h

pub join-name : (d n : Text) → IsName n → join d n ≡ front d ++ n
unfolding join front stack
join-name [] [] h = refl
join-name [] (c ∷ n) h = clean_of_name (c ∷ n) h
join-name (c ∷ d) n h = rw (split-append (c ∷ d) n h.no_slash) (
    rw (elements-append (c == b'/') [] (split (c ∷ d) b'/') (n ∷ [])) (
      rw (elements_of_name (c == b'/') (stack (c ∷ d)) n h)
        (spell_path-cons (c == b'/') (stack (c ∷ d)) n)))

-- Two names in one directory give two paths.
pub join-ne : (d m n : Text) → IsName m → IsName n → m ≢ n → join d m ≢ join d n
join-ne d m n hm hn h e =
    h (append-cancel (front d) (sym (join-name d m hm) ∙ e ∙ join-name d n hn))

pub text_eq-join :
    (d m n : Text)
    → is_name m ≡ true
    → is_name n ≡ true
    → text_eq m n ≡ false
    → text_eq (join d m) (join d n) ≡ false
text_eq-join d m n hm hn h = text_eq-false (join d m) (join d n) (
    join-ne d m n (is_name-IsName m hm) (is_name-IsName n hn)
      (λ e. ground (arith, text_eq_iff m n, h, e)))
