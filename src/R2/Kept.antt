-- ===== src/R2/Kept.antt =====
-- An object that an action leaves as it is.
use vps_sync_gsbs.Base.{
  true, false, ◌||◌, inl, inr, Bool-cases, List, [], ◌∷◌, ◌++◌, refl, ◌≡◌, ap, ◌∙◌, Option, none,
  some, arith,
}
use vps_sync_gsbs.Text.{Text, text_eq}
use vps_sync_gsbs.Text.Strings.{has, has_prefix}
use vps_sync_gsbs.Exec.Triple.{
  Triple-pure, Triple-fail, Triple-weaken, Triple-self, Keeps, Keeps-state,
}
use vps_sync_gsbs.Exec.{Error}
use vps_sync_gsbs.Outside.{Outside, Put}
use vps_sync_gsbs.Outside.Laws.{IsStore}
use vps_sync_gsbs.World.{Io, request}
use vps_sync_gsbs.World.Laws.{Of, request_lem}
use vps_sync_gsbs.World.Writes.{Fact}
use vps_sync_gsbs.World.Apart.{Since, Since-self, Apart}
use vps_sync_gsbs.R2.{acknowledged}

module _ {o : Outside} (S : IsStore o) (b k v : Text) where
  -- The object is there, with that body.
  abbrev pub Holds : Fact o
  Holds f r h = S.object r b k ≡ some v

  pub Kept-Apart : {A : Type 0} (m : Io o A) → Apart m → Keeps (Of o Holds) m
  Kept-Apart m apart = Triple-self m (λ w h.
      let since = Keeps-state (Since w) m (apart.keeps w) w (Since-self w) in
      ap (λ r. S.object r b k) since.remote ∙ h)

  pub Kept-acknowledged : (answer : Option Error) → Keeps (Of o Holds) (acknowledged answer)
  Kept-acknowledged none = Triple-pure _ (λ w h. h)
  Kept-acknowledged (some e) = Triple-fail _ (λ w h. h)

  -- A request that leaves the object.
  kept_request :
      {A : Type 0} (ask : o.Remote → A × o.Remote)
      → ((r : o.Remote) → S.object (ask r).1 b k ≡ S.object r b k)
      → Keeps (Of o Holds) (request ask)
  kept_request ask leaves =
      Triple-weaken _ (λ w h. h) (λ a w h. h) (λ kind w h. absurd h)
        (request_lem o Holds ask (λ w h. leaves w.remote ∙ h))

  pub Kept-put : (p : Put) → text_eq k p.key ≡ false → Keeps (Of o Holds) (request (o.put_object p))
  Kept-put p ne = kept_request (o.put_object p) (λ r. S.put_other p r b k (ground (arith, ne)))

  pub Kept-deletes :
      (b' : Text) (ks : List Text)
      → has k ks ≡ false
      → Keeps (Of o Holds) (request (o.delete_objects b' ks))
  Kept-deletes b' ks ne =
      kept_request (o.delete_objects b' ks) (λ r. S.deletes_other b' ks r b k (ground (arith, ne)))

-- All the keys begin with the prefix.
abbrev pub AllUnder : Text → List Text → Type 0
AllUnder p ks = (k : Text) → has k ks ≡ true → has_prefix k p ≡ true

pub AllUnder-nil : (p : Text) → AllUnder p []
unfolding has
AllUnder-nil p k there = absurd (ground (arith, there))

pub AllUnder-has :
    (p : Text) (ks : List Text) (k : Text)
    → AllUnder p ks
    → has_prefix k p ≡ false
    → has k ks ≡ false
AllUnder-has p ks k all ne = elim (Bool-cases (has k ks)) [
  | inl e ↦ absurd (ground (arith, all k e, ne))
  | inr e ↦ e
]

pub has-append : (k : Text) (xs ys : List Text) → has k (xs ++ ys) ≡ (has k xs || has k ys)
unfolding has
has-append k [] ys = refl
has-append k (x ∷ xs) ys = ground (arith, has-append k xs ys)
