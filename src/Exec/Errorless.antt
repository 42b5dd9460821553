-- ===== src/Exec/Errorless.antt =====
-- Actions that never return an error: they return a value or panic.
use vps_sync_gsbs.Base.{Bool, true, false, ◌≡◌, ◌≢◌, refl, arith, if◌then◌else◌}
use vps_sync_gsbs.Exec.{
  Error, Result, ok, err, panic, Exec, pure, attempt, deferred, continue, caught, ◌>>=◌,
}

pub record Errorless {S A : Type 0} (m : Exec S A) : Type 0 where
  pub at : (s : S) (e : Error) → (m s).0 ≢ err e

module _ {S A : Type 0} where
  pub Errorless-pure : (a : A) → Errorless {S = S} (pure a)
  unfolding pure
  Errorless-pure a = record { at = λ s e h. ground (arith, h) }

  pub Errorless-attempt : (m : Exec S A) → Errorless (attempt m)
  unfolding attempt
  Errorless-attempt m = record { at = λ s e. go (m s).0 e }
    where
      go : (r : Result A) (e : Error) → caught r ≢ err e
      go (ok a) e h = ground (arith, h)
      go (err x) e h = ground (arith, h)
      go (panic t) e h = ground (arith, h)

  pub Errorless-deferred : (c : S → S) (m : Exec S A) → Errorless m → Errorless (deferred c m)
  unfolding deferred
  Errorless-deferred c m k = record { at = k.at }

  pub Errorless-if :
      (b : Bool) (m n : Exec S A) → Errorless m → Errorless n → Errorless (if b then m else n)
  Errorless-if true m n km kn = km
  Errorless-if false m n km kn = kn

pub Errorless-bind :
    {S A B : Type 0} (m : Exec S A) (f : A → Exec S B)
    → Errorless m
    → ((a : A) → Errorless (f a))
    → Errorless (m >>= f)
unfolding ◌>>=◌
Errorless-bind {S} {A} {B} m f km kf = record { at = λ s e. go (m s).0 (m s).1 (km.at s) e }
  where
    go :
        (r : Result A) (s : S)
        → ((e : Error) → r ≢ err e)
        → (e : Error) → (continue r f s).0 ≢ err e
    go (ok a) s h e = (kf a).at s e
    go (err x) s h e = absurd (h x refl)
    go (panic t) s h e = λ q. ground (arith, q)

-- An error of a block whose rest returns none is its first action's.
pub bind-err :
    {S A B : Type 0} (m : Exec S A) (f : A → Exec S B)
    → ((a : A) → Errorless (f a))
    → (s : S) (e : Error) → ((m >>= f) s).0 ≡ err e
    → (m s).0 ≡ err e
unfolding ◌>>=◌
bind-err {S} {A} {B} m f kf s e h = go (m s).0 (m s).1 h
  where
    go : (r : Result A) (s : S) → (continue r f s).0 ≡ err e → r ≡ err e
    go (ok a) s h = absurd ((kf a).at s e h)
    go (err x) s h = ground (arith, h)
    go (panic t) s h = absurd (ground (arith, h))

pub ruleset errorless =
    (Errorless-pure, Errorless-attempt, Errorless-deferred, Errorless-if, Errorless-bind)
