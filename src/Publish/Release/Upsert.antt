-- ===== src/Publish/Release/Upsert.antt =====
-- One entry for one publish.
use vps_sync_gsbs.Base.{
  true, false, ◌≡◌, refl, sym, subst, ap, ◌⊎◌, inl, inr, List, [], ◌∷◌, ◌++◌, All, Bool-cases,
}
use vps_sync_gsbs.Outside.{Release}
use vps_sync_gsbs.Publish.Release.{same_release, upsert}

-- No entry of the list is for the publish of `e`.
abbrev pub Others : Release → List Release → Type 0
Others e rs = All (λ r. same_release r e ≡ false) rs

-- `rs'` is `rs` with `e` behind it, where no entry is for the publish of `e`, and otherwise `rs` with
-- `e` in the place of the first entry that is.
abbrev pub Placed : Release → List Release → List Release → Type 0
Placed e rs rs' =
    (Others e rs × (rs' ≡ rs ++ e ∷ []))
    ⊎ ((before : List Release) × (r : Release) × (after : List Release) × (rs ≡ before ++ r ∷ after)
        × Others e before
        × (same_release r e ≡ true)
        × (rs' ≡ before ++ e ∷ after))

Placed-behind :
    (e r : Release) (rs rs' : List Release)
    → same_release r e ≡ false
    → Placed e rs rs'
    → Placed e (r ∷ rs) (r ∷ rs')
Placed-behind e r rs rs' other (inl (none_is, ends)) = inl ((other, none_is), ap (λ l. r ∷ l) ends)
Placed-behind e r rs rs' other (inr (before, q, after, was, none_before, same, is)) =
    inr (r ∷ before, q, after, ap (λ l. r ∷ l) was, (other, none_before), same, ap (λ l. r ∷ l) is)

-- The update of the list puts the new entry in the place of the first one with its time of export
-- and its type, and at the end if there is none; every other entry stays in its place.
pub upsert-Placed : (e : Release) (rs : List Release) → Placed e rs (upsert e rs)
unfolding upsert
upsert-Placed e [] = inl (tt, refl)
upsert-Placed e (r ∷ rs) = elim (Bool-cases (same_release r e)) [
  | inl found ↦
      let put : upsert e (r ∷ rs) ≡ e ∷ rs = rw found refl in inr ([], r, rs, refl, tt, found, put)
  | inr other ↦
      let passed : upsert e (r ∷ rs) ≡ r ∷ upsert e rs = rw other refl in
      subst (Placed e (r ∷ rs)) (sym passed)
        (Placed-behind e r rs (upsert e rs) other (upsert-Placed e rs))
]
