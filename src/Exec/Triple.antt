-- ===== src/Exec/Triple.antt =====
-- Rules for what an action does from the states of a precondition: what holds of its value and the
-- state when it returns, and what holds of the state when it ends by an error or a panic.
use vps_sync_gsbs.Base.{
  Bool, true, false, ◌≡◌, refl, sym, ap, subst, ◌⊎◌, inl, inr, arith, if◌then◌else◌,
}
use vps_sync_gsbs.Text.{Text}
use vps_sync_gsbs.Exec.{
  Kind, plain, Error, Result, ok, err, panic, Exec, pure, fail, lift, gets, attempt, wrap, deferred,
  continue, caught, with_context, ◌>>=◌,
}

module _ {S A : Type 0} where
  abbrev pub Post : (A → S → Type 0) → (Kind → S → Type 0) → Result A → S → Type 0
  Post Q E (ok a) s = Q a s
  Post Q E (err e) s = E e.kind s
  Post Q E (panic t) s = E plain s

  pub record Triple (P : S → Type 0) (m : Exec S A) (Q : A → S → Type 0) (E : Kind → S → Type 0)
      : Type 0 where
    pub at : (s : S) → P s → Post Q E (m s).0 (m s).1

  -- `m` keeps `P`, however it ends.
  abbrev pub Keeps : (S → Type 0) → Exec S A → Type 0
  Keeps P m = Triple P m (λ _. P) (λ _. P)

  -- Both outcomes of an action that was tried.
  abbrev pub Either : (A → S → Type 0) → (Kind → S → Type 0) → A ⊎ Error → S → Type 0
  Either Q E (inl a) s = Q a s
  Either Q E (inr e) s = E e.kind s

module _ {S A : Type 0} (Q : A → S → Type 0) (E : Kind → S → Type 0) where
  caught-Post : (r : Result A) (s : S) → Post Q E r s → Post (Either Q E) E (caught r) s
  caught-Post (ok a) s h = h
  caught-Post (err e) s h = h
  caught-Post (panic t) s h = h

  with_context-Post :
      (t : Text) (r : Result A) (s : S) → Post Q E r s → Post Q E (with_context t r) s
  with_context-Post t (ok a) s h = h
  with_context-Post t (err e) s h = h
  with_context-Post t (panic u) s h = h

  module _ (Q' : A → S → Type 0) (E' : Kind → S → Type 0) where
    moved-Post :
        (c : S → S) (r : Result A) (s : S)
        → ((a : A) (s : S) → Q a s → Q' a (c s))
        → ((k : Kind) (s : S) → E k s → E' k (c s))
        → Post Q E r s
        → Post Q' E' r (c s)
    moved-Post c (ok a) s hq he h = hq a s h
    moved-Post c (err e) s hq he h = he e.kind s h
    moved-Post c (panic t) s hq he h = he plain s h

  module _ {B : Type 0} (Q' : B → S → Type 0) where
    continue-Post :
        (r : Result A) (f : A → Exec S B)
        → ((a : A) → Triple (Q a) (f a) Q' E)
        → (s : S) → Post Q E r s
        → Post Q' E (continue r f s).0 (continue r f s).1
    continue-Post (ok a) f k s h = (k a).at s h
    continue-Post (err e) f k s h = h
    continue-Post (panic t) f k s h = h

module _ {S A : Type 0} {P : S → Type 0} {Q : A → S → Type 0} {E : Kind → S → Type 0} where
  pub Triple-pure : (a : A) → ((s : S) → P s → Q a s) → Triple P (pure a) Q E
  unfolding pure
  Triple-pure a h = record { at = h }

  pub Triple-fail : (e : Error) → ((s : S) → P s → E e.kind s) → Triple P (fail {A = A} e) Q E
  unfolding fail
  Triple-fail e h = record { at = h }

  pub Triple-lift : (r : Result A) → ((s : S) → P s → Post Q E r s) → Triple P (lift r) Q E
  unfolding lift
  Triple-lift r h = record { at = h }

  pub Triple-gets : (f : S → A) → ((s : S) → P s → Q (f s) s) → Triple P (gets f) Q E
  unfolding gets
  Triple-gets f h = record { at = h }

  -- A part of the precondition that does not speak of the state is a hypothesis.
  pub Triple-fact : {X : Type 0} (m : Exec S A) → (X → Triple P m Q E) → Triple (λ s. P s × X) m Q E
  Triple-fact m k = record { at = λ s h. (k h.1).at s h.0 }

  pub Triple-attempt : (m : Exec S A) → Triple P m Q E → Triple P (attempt m) (Either Q E) E
  unfolding attempt
  Triple-attempt m k = record { at = λ s h. caught-Post Q E (m s).0 (m s).1 (k.at s h) }

  pub Triple-wrap : (t : Text) (m : Exec S A) → Triple P m Q E → Triple P (wrap t m) Q E
  unfolding wrap
  Triple-wrap t m k = record { at = λ s h. with_context-Post Q E t (m s).0 (m s).1 (k.at s h) }

  pub Triple-if :
      (b : Bool) (m n : Exec S A)
      → (b ≡ true → Triple P m Q E)
      → (b ≡ false → Triple P n Q E)
      → Triple P (if b then m else n) Q E
  Triple-if true m n km kn = km refl
  Triple-if false m n km kn = kn refl

-- A result that stands alone changes no state.
pub Keeps-lift : {S A : Type 0} {P : S → Type 0} (r : Result A) → Keeps P (lift r)
unfolding lift
Keeps-lift (ok a) = record { at = λ s h. h }
Keeps-lift (err e) = record { at = λ s h. h }
Keeps-lift (panic t) = record { at = λ s h. h }

module _ {S A : Type 0} {P P' : S → Type 0} {Q Q' : A → S → Type 0} {E E' : Kind → S → Type 0} where
  pub Triple-weaken :
      (m : Exec S A)
      → ((s : S) → P' s → P s)
      → ((a : A) (s : S) → Q a s → Q' a s)
      → ((k : Kind) (s : S) → E k s → E' k s)
      → Triple P m Q E
      → Triple P' m Q' E'
  Triple-weaken m hp hq he k = record {
    at = λ s h. moved-Post Q E Q' E' (λ t. t) (m s).0 (m s).1 hq he (k.at s (hp s h));
  }

module _ {S A : Type 0} {P : S → Type 0} {Q Q' : A → S → Type 0} {E E' : Kind → S → Type 0} where
  pub Triple-deferred :
      (c : S → S) (m : Exec S A)
      → ((a : A) (s : S) → Q a s → Q' a (c s))
      → ((k : Kind) (s : S) → E k s → E' k (c s))
      → Triple P m Q E
      → Triple P (deferred c m) Q' E'
  unfolding deferred
  Triple-deferred c m hq he k = record {
    at = λ s h. moved-Post Q E Q' E' c (m s).0 (m s).1 hq he (k.at s h);
  }

module _ {S A B : Type 0} {P : S → Type 0} {R : A → S → Type 0} {Q : B → S → Type 0}
    {E : Kind → S → Type 0} where
  pub Triple-bind :
      (m : Exec S A) (f : A → Exec S B)
      → Triple P m R E
      → ((a : A) → Triple (R a) (f a) Q E)
      → Triple P (m >>= f) Q E
  unfolding ◌>>=◌
  Triple-bind m f km kf = record {
    at = λ s h. continue-Post R E Q (m s).0 f kf (m s).1 (km.at s h);
  }

module _ {S A : Type 0} (P : S → Type 0) where
  state-Post : (r : Result A) (s : S) → Post (λ _. P) (λ _. P) r s → P s
  state-Post (ok a) s h = h
  state-Post (err e) s h = h
  state-Post (panic t) s h = h

  -- What an action keeps holds of the state that it leaves.
  pub Keeps-state : (m : Exec S A) → Keeps P m → (s : S) → P s → P (m s).1
  Keeps-state m k s h = state-Post (m s).0 (m s).1 (k.at s h)

module _ {S A : Type 0} where
  abbrev pub Outcomes : (S → Type 0) → Exec S A → A → S → Type 0
  Outcomes P m a s' = (s : S) × P s × (m s ≡ (ok a, s'))

  trace-Post :
      (P : S → Type 0) (Q : A → S → Type 0) (E : Kind → S → Type 0) (m : Exec S A) (s : S)
      → P s
      → (r : Result A) (s' : S) → m s ≡ (r, s')
      → Post Q E r s'
      → Post (λ a s'. Q a s' × Outcomes P m a s') E r s'
  trace-Post P Q E m s p (ok a) s' e h = (h, (s, p, e))
  trace-Post P Q E m s p (err x) s' e h = h
  trace-Post P Q E m s p (panic t) s' e h = h

  -- What an action returned, and the state that it started from, may be kept.
  pub Triple-trace :
      {P : S → Type 0} {Q : A → S → Type 0} {E : Kind → S → Type 0} (m : Exec S A)
      → Triple P m Q E
      → Triple P m (λ a s. Q a s × Outcomes P m a s) E
  Triple-trace {P} {Q} {E} m k = record {
    at = λ s p. trace-Post P Q E m s p (m s).0 (m s).1 refl (k.at s p);
  }

  -- The state that is left is the one that the action leaves.
  pub Triple-self :
      {P : S → Type 0} {Q : S → Type 0} (m : Exec S A)
      → ((s : S) → P s → Q (m s).1)
      → Triple P m (λ _. Q) (λ _. Q)
  Triple-self {Q} m h = record { at = λ s p. go (m s).0 (m s).1 (h s p) }
    where
      go : (r : Result A) (s : S) → Q s → Post (λ _. Q) (λ _. Q) r s
      go (ok a) s q = q
      go (err e) s q = q
      go (panic t) s q = q

  -- A wrap adds to errors only.
  pub wrap_ok :
      (t : Text) (m : Exec S A) (s s' : S) (a : A) → wrap t m s ≡ (ok a, s') → m s ≡ (ok a, s')
  unfolding wrap
  wrap_ok t m s s' a e = go (m s).0 (m s).1 e
    where
      go :
          (r : Result A) (u : S)
          → ◌≡◌ {A = Result A × S} (with_context t r, u) (ok a, s')
          → ◌≡◌ {A = Result A × S} (r, u) (ok a, s')
      go (ok b) u e = e
      go (err x) u e = absurd (ground (arith, e))
      go (panic x) u e = absurd (ground (arith, e))

  -- What is tried and returns has returned.
  pub attempt_ok :
      (m : Exec S A) (s s' : S) (a : A) → attempt m s ≡ (ok (inl a), s') → m s ≡ (ok a, s')
  unfolding attempt
  attempt_ok m s s' a e = go (m s).0 (m s).1 e
    where
      go :
          (r : Result A) (u : S)
          → ◌≡◌ {A = Result (A ⊎ Error) × S} (caught r, u) (ok (inl a), s')
          → ◌≡◌ {A = Result A × S} (r, u) (ok a, s')
      go (ok b) u e =
          ap
            (λ (x : Result (A ⊎ Error) × S).
              let got : Result A = elim x.0 [ ok (inl y) ↦ ok y | _ ↦ ok a ] in (got, x.1))
            e
      go (err x) u e = absurd (ground (arith, e))
      go (panic x) u e = absurd (ground (arith, e))

  -- A statement on one run is a rule.
  pub Triple-at :
      {Q : A → S → Type 0} {E : Kind → S → Type 0} (m : Exec S A) (w : S)
      → Post Q E (m w).0 (m w).1
      → Triple (λ s. s ≡ w) m Q E
  Triple-at {Q} {E} m w h = record { at = λ s e. subst (λ s. Post Q E (m s).0 (m s).1) (sym e) h }

  -- What holds of the state that an action leaves, however it ends.
  pub Triple-left :
      {P Q : S → Type 0} (m : Exec S A) (s : S) → Triple P m (λ _. Q) (λ _. Q) → P s → Q (m s).1
  Triple-left {Q} m s k p = state-Post Q (m s).0 (m s).1 (k.at s p)

-- Nothing is asked of an action.
pub Triple-any :
    {S A : Type 0} (m : Exec S A) → Triple (λ _. Unit {0}) m (λ _ _. Unit {0}) (λ _ _. Unit {0})
Triple-any {S} {A} m = record { at = λ s h. go (m s).0 (m s).1 }
  where
    go : (r : Result A) (s : S) → Post (λ _ _. Unit {0}) (λ _ _. Unit {0}) r s
    go (ok a) s = tt
    go (err e) s = tt
    go (panic t) s = tt

-- Two rules for the same action.
pub Triple-both :
    {S A : Type 0} {P P' : S → Type 0} {Q Q' : A → S → Type 0} {E E' : Kind → S → Type 0}
    (m : Exec S A)
    → Triple P m Q E
    → Triple P' m Q' E'
    → Triple (λ s. P s × P' s) m (λ a s. Q a s × Q' a s) (λ k s. E k s × E' k s)
Triple-both {S} {A} {Q} {Q'} {E} {E'} m k k' = record {
  at = λ s h. go (m s).0 (m s).1 (k.at s h.0) (k'.at s h.1);
}
  where
    go :
        (r : Result A) (s : S)
        → Post Q E r s
        → Post Q' E' r s
        → Post (λ a s. Q a s × Q' a s) (λ k s. E k s × E' k s) r s
    go (ok a) s p q = (p, q)
    go (err e) s p q = (p, q)
    go (panic t) s p q = (p, q)

-- A result that stands alone is known behind it.
pub Triple-known :
    {S A : Type 0} {P : S → Type 0} (r : Result A)
    → Triple P (lift r) (λ a s. P s × (r ≡ ok a)) (λ _. P)
unfolding lift
Triple-known (ok a) = record { at = λ s h. (h, refl) }
Triple-known (err e) = record { at = λ s h. h }
Triple-known (panic t) = record { at = λ s h. h }

-- What holds of a run that is known to return.
pub Triple-value :
    {S A : Type 0} {P : S → Type 0} {Q : A → S → Type 0} {E : Kind → S → Type 0} (m : Exec S A)
    (s : S) {a : A} {s' : S}
    → Triple P m Q E
    → P s
    → m s ≡ (ok a, s')
    → Q a s'
Triple-value {S} {A} {Q} {E} m s k p e = subst (λ (x : Result A × S). Post Q E x.0 x.1) e (k.at s p)
