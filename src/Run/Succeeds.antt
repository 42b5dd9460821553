-- ===== src/Run/Succeeds.antt =====
-- Rules for a run that reports no error: an early return has nothing to show.
use vps_sync_gsbs.Base.{◌⊎◌, inl, inr, Option, none, some, List}
use vps_sync_gsbs.Text.{Text}
use vps_sync_gsbs.Exec.{Error}
use vps_sync_gsbs.Exec.Triple.{
  Triple, Triple-bind, Triple-pure, Triple-fail, Triple-attempt, Triple-weaken, Keeps, Either,
}
use vps_sync_gsbs.Outside.{Outside}
use vps_sync_gsbs.World.{Files, World, Io}
use vps_sync_gsbs.World.Laws.{Of}
use vps_sync_gsbs.Fetch.Guarded.{tried}
use vps_sync_gsbs.Run.{Outcome, Answer, settle, returned, or_return, or_warn}

module _ {o : Outside} where
  -- A statement on the answers without an error.
  abbrev pub Succeeds : (World o → Type 0) → Answer → World o → Type 0
  Succeeds D (out, none) w = D w
  Succeeds D (out, some e) w = Unit {0}

  abbrev pub Whatever : World o → Type 0
  Whatever w = Unit {0}

  pub or_return_lem :
      {A : Type 0} {P D : World o → Type 0} {R : A → World o → Type 0} (res : Outcome) (m : Io o A)
      (k : A → Io o Answer)
      → Triple P m R (λ _. Whatever)
      → ((a : A) → Triple (R a) (k a) (Succeeds D) (λ _. Whatever))
      → Triple P (or_return res m k) (Succeeds D) (λ _. Whatever)
  unfolding or_return settle
  or_return_lem {A} {D} {R} res m k km rest = Triple-bind _ _ (Triple-attempt m km) go
    where
      go :
          (x : A ⊎ Error)
          → Triple (Either R (λ _. Whatever) x) (settle res k x) (Succeeds D) (λ _. Whatever)
      go (inl a) = rest a
      go (inr e) = Triple-pure _ (λ w h. tt)

  -- An action whose errors are not looked at.
  abbrev pub Before : {A : Type 0} → (World o → Type 0) → Io o A → Type 0
  Before P m = Triple P m (λ _. P) (λ _. Whatever)

  pub before : {A : Type 0} {P : World o → Type 0} (m : Io o A) → Keeps P m → Before P m
  before m k = Triple-weaken _ (λ w h. h) (λ _ w h. h) (λ _ w h. tt) k

  pub or_warn_lem :
      (P : Files → o.Remote → List o.Remote → Type 0) (context : Text) (ws : List Text)
      (m : Io o (Unit {0}))
      → Keeps (Of o P) m
      → Keeps (Of o P) (or_warn context ws m)
  unfolding or_warn
  or_warn_lem P context ws m k =
      Triple-bind {R = λ _. Of o P} _ _ (tried o P m k) (λ done. Triple-pure _ (λ w h. h))

  pub returned_lem : {P : World o → Type 0} (x : Option Error) → Keeps P (returned x)
  returned_lem none = Triple-pure _ (λ w h. h)
  returned_lem (some e) = Triple-fail _ (λ w h. h)
