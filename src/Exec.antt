-- ===== src/Exec.antt =====
-- Go functions that change state and may return an error or panic. What was written before an error
-- stays written, so the state comes back beside the error too.
pub mod Errorless
pub mod Triple
use vps_sync_gsbs.Base.{
  ℕ, ◌≡◌, refl, arith, ap, ◌⊎◌, inl, inr, Bool, true, false, ◌++◌, if◌then◌else◌,
}
use vps_sync_gsbs.Text.{Text, text}

-- What `errors.Is` and `os.IsNotExist` can tell of an error. A wrap by `%w` keeps it.
pub data Kind : Type 0 where
  plain not_exist no_db_backup : Kind

-- Go's `error`: its message, and its kind.
pub record Error : Type 0 where
  pub message : Text
  pub kind : Kind

-- `fmt.Errorf` and `errors.New` with no `%w`.
abbrev pub errorf : Text → Error
errorf t = record { message = t; kind = plain }

-- `fmt.Errorf("…: %w", err)`
abbrev pub wrapped : Text → Error → Error
wrapped t e = record e { message = t ++ (text ": " ++ e.message) }

-- A run ends by a value, by an error that is returned, or by a panic.
pub data Result {ℓ} (A : Type ℓ) : Type ℓ where
  ok : A → Result A
  err : Error → Result A
  panic : Text → Result A

abbrev pub Exec : Type 0 → Type 0 → Type 0
Exec S A = S → Result A × S

abbrev pub caught {ℓ} : {A : Type ℓ} → Result A → Result (A ⊎ Error)
caught (ok a) = ok (inl a)
caught (err e) = ok (inr e)
caught (panic t) = panic t

abbrev with_context {ℓ} : {A : Type ℓ} → Text → Result A → Result A
with_context t (ok a) = ok a
with_context t (err e) = err (wrapped t e)
with_context t (panic u) = panic u

module _ {S A : Type 0} where
  unfoldable pub pure : A → Exec S A
  pure a s = (ok a, s)

  unfoldable pub fail : Error → Exec S A
  fail e s = (err e, s)

  unfoldable pub lift : Result A → Exec S A
  lift r s = (r, s)

  unfoldable pub gets : (S → A) → Exec S A
  gets f s = (ok (f s), s)

  -- `v, err := m` where the code goes on with the error as a value.
  unfoldable pub attempt : Exec S A → Exec S (A ⊎ Error)
  attempt m s = let (r, s') = m s in (caught r, s')

  -- `if err != nil { return fmt.Errorf("t: %w", err) }`
  unfoldable pub wrap : Text → Exec S A → Exec S A
  wrap t m s = let (r, s') = m s in (with_context t r, s')

  -- `defer`: the clean-up runs on every way out, a panic included.
  unfoldable pub deferred : (S → S) → Exec S A → Exec S A
  deferred c m s = let (r, s') = m s in (r, c s')

unfoldable pub modify : {S : Type 0} → (S → S) → Exec S (Unit {0})
modify f s = (ok tt, f s)

module _ {S A B : Type 0} where
  abbrev pub continue : Result A → (A → Exec S B) → Exec S B
  continue (ok a) f s = f a s
  continue (err e) f s = (err e, s)
  continue (panic t) f s = (panic t, s)

  infixl 10 ◌>>=◌ ◌>>◌
  -- To open this is to open the other actions too.
  unfoldable pub ◌>>=◌ : Exec S A → (A → Exec S B) → Exec S B
  unfolding pure fail lift gets attempt wrap deferred modify
  ◌>>=◌ m f s = let (r, s') = m s in continue r f s'

  abbrev pub ◌>>◌ : Exec S A → Exec S B → Exec S B
  m >> n = m >>= λ _. n

-- The steps of a block whose first action is known to return.
module _ {S A B : Type 0} where
  pub bind_of_ok :
      (m : Exec S A) (f : A → Exec S B) (s : S) {s' : S} {a : A}
      → m s ≡ (ok a, s')
      → (m >>= f) s ≡ f a s'
  unfolding ◌>>=◌
  bind_of_ok m f s e = ap (λ (p : Result A × S). continue p.0 f p.1) e

  -- A block that returns has gone through its first action.
  pub bind-ok :
      (m : Exec S A) (f : A → Exec S B) (s s' : S) (b : B)
      → (m >>= f) s ≡ (ok b, s')
      → (a : A) × (s1 : S) × (m s ≡ (ok a, s1)) × (f a s1 ≡ (ok b, s'))
  unfolding ◌>>=◌
  bind-ok m f s s' b e = go (m s).0 (m s).1 refl e
    where
      go :
          (r : Result A) (s1 : S)
          → m s ≡ (r, s1)
          → continue r f s1 ≡ (ok b, s')
          → (a : A) × (s1 : S) × (m s ≡ (ok a, s1)) × (f a s1 ≡ (ok b, s'))
      go (ok a) s1 first rest = (a, s1, first, rest)
      go (err x) s1 first rest = absurd (ground (arith, rest))
      go (panic t) s1 first rest = absurd (ground (arith, rest))

pub wrap_of_ok :
    {S A : Type 0} (t : Text) (m : Exec S A) (s : S) {s' : S} {a : A}
    → m s ≡ (ok a, s')
    → wrap t m s ≡ (ok a, s')
unfolding wrap
wrap_of_ok {S} {A} t m s e = ap (λ (p : Result A × S). (with_context t p.0, p.1)) e
