-- ===== src/World/Reads.antt =====
-- Actions that only read: they leave the world as it is, and what holds of the values they return.
use vps_sync_gsbs.Base.{Bool, true, false, ◌≡◌, refl, sym, subst, ap, arith, if◌then◌else◌}
use vps_sync_gsbs.Exec.{
  Error, Result, ok, err, panic, pure, fail, lift, continue, ◌>>=◌, bind_of_ok,
}
use vps_sync_gsbs.Outside.{Outside}
use vps_sync_gsbs.World.{World, Io}

module _ {o : Outside} (w : World o) where
  abbrev pub YieldsAt : {A : Type 0} → (A → Type 0) → Result A × World o → Type 0
  YieldsAt P r = (r.1 ≡ w) × ((a : _) → r.0 ≡ ok a → P a)

  pub record Yields {A : Type 0} (m : Io o A) (P : A → Type 0) : Type 0 where
    pub at : YieldsAt P (m w)

  continue-YieldsAt :
      {A B : Type 0} {P : A → Type 0} {Q : B → Type 0} (f : A → Io o B) (r : Result A) (s : World o)
      → ((a : A) → P a → Yields (f a) Q)
      → YieldsAt P (r, s)
      → YieldsAt Q (continue r f s)
  continue-YieldsAt {B} {Q} f (ok a) s k (e, h) =
      subst (λ s. YieldsAt {A = B} Q (f a s)) (sym e) (k a (h a refl)).at
  continue-YieldsAt f (err x) s k (e, h) = (e, λ b q. absurd (ground (arith, q)))
  continue-YieldsAt f (panic t) s k (e, h) = (e, λ b q. absurd (ground (arith, q)))

  pub Yields-bind :
      {A B : Type 0} {P : A → Type 0} {Q : B → Type 0} (m : Io o A) (f : A → Io o B)
      → Yields m P
      → ((a : A) → P a → Yields (f a) Q)
      → Yields (m >>= f) Q
  unfolding ◌>>=◌
  Yields-bind m f km kf = record { at = continue-YieldsAt f (m w).0 (m w).1 kf km.at }

  pub Yields-eq :
      {A : Type 0} {P : A → Type 0} (m : Io o A) (a : A) → m w ≡ (ok a, w) → P a → Yields m P
  Yields-eq {A} {P} m a e h = record {
    at =
        subst (λ r. YieldsAt P r) (sym e)
          (refl, λ b q. subst P (ap (λ r. elim r [ ok x ↦ x | err _ ↦ a | panic _ ↦ a ]) q) h);
  }

  pub Yields-pure : {A : Type 0} {P : A → Type 0} (a : A) → P a → Yields (pure a) P
  unfolding pure
  Yields-pure a h = Yields-eq (pure a) a refl h

  pub Yields-fail : {A : Type 0} {P : A → Type 0} (e : Error) → Yields (fail {A = A} e) P
  unfolding fail
  Yields-fail e = record { at = (refl, λ b q. absurd (ground (arith, q))) }

  pub Yields-lift : {A : Type 0} (r : Result A) → Yields (lift r) (λ a. r ≡ ok a)
  unfolding lift
  Yields-lift r = record { at = (refl, λ a q. q) }

  pub Yields-if :
      {A : Type 0} {P : A → Type 0} (b : Bool) (m n : Io o A)
      → (b ≡ true → Yields m P)
      → (b ≡ false → Yields n P)
      → Yields (if b then m else n) P
  Yields-if true m n km kn = km refl
  Yields-if false m n km kn = kn refl

  pub Yields-weaken :
      {A : Type 0} {P Q : A → Type 0} (m : Io o A) → ((a : A) → P a → Q a) → Yields m P → Yields m Q
  Yields-weaken m h k = record { at = (k.at.0, λ a q. h a (k.at.1 a q)) }

  -- A first action whose result is known.
  pub Yields-step :
      {A B : Type 0} {Q : B → Type 0} (m : Io o A) (f : A → Io o B) (a : A)
      → m w ≡ (ok a, w)
      → Yields (f a) Q
      → Yields (m >>= f) Q
  Yields-step {B} {Q} m f a e k = record {
    at = subst (λ r. YieldsAt {A = B} Q r) (sym (bind_of_ok m f w e)) k.at;
  }
