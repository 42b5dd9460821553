-- ===== src/Publish/Release/Distinct.antt =====
-- The list of releases names no publish twice.
use vps_sync_gsbs.Base.{true, false, ◌≡◌, ◌∙◌, inl, inr, List, [], ◌∷◌, All, arith, Bool-cases}
use vps_sync_gsbs.Text.{text_eq_iff}
use vps_sync_gsbs.Outside.{Release, Releases}
use vps_sync_gsbs.Publish.Release.{same_release, upsert, trimmed, add_release}

-- No two entries have the same time of export and the same type.
abbrev pub Distinct : List Release → Type 0
Distinct [] = Unit {0}
Distinct (r ∷ rs) = All (λ q. same_release q r ≡ false) rs × Distinct rs

same_release-sym : (a b : Release) → same_release a b ≡ same_release b a
unfolding same_release
same_release-sym a b = ground (
  arith,
  text_eq_iff a.exported_at b.exported_at,
  text_eq_iff b.exported_at a.exported_at,
  text_eq_iff a.type b.type,
  text_eq_iff b.type a.type,
)

-- Entries for the same publish are the same to every other one.
same_release_replaced :
    (q r e : Release)
    → same_release r e ≡ true
    → same_release q r ≡ false
    → same_release q e ≡ false
unfolding same_release
same_release_replaced q r e h k = ground (
  arith,
  h,
  k,
  text_eq_iff r.exported_at e.exported_at,
  text_eq_iff r.type e.type,
  text_eq_iff q.exported_at e.exported_at,
  text_eq_iff q.type e.type,
  text_eq_iff q.exported_at r.exported_at,
  text_eq_iff q.type r.type,
)

All-replaced :
    (r e : Release) (rs : List Release)
    → same_release r e ≡ true
    → All (λ q. same_release q r ≡ false) rs
    → All (λ q. same_release q e ≡ false) rs
All-replaced r e [] h all = tt
All-replaced r e (q ∷ rs) h (one, all) =
    (same_release_replaced q r e h one, All-replaced r e rs h all)

All-upsert :
    (r e : Release) (rs : List Release)
    → same_release e r ≡ false
    → All (λ q. same_release q r ≡ false) rs
    → All (λ q. same_release q r ≡ false) (upsert e rs)
unfolding upsert
All-upsert r e [] h all = (h, tt)
All-upsert r e (q ∷ rs) h (one, all) = elim (Bool-cases (same_release q e)) [
  | inl found ↦ rw found (h, all)
  | inr other ↦ rw other (one, All-upsert r e rs h all)
]

upsert-Distinct : (e : Release) (rs : List Release) → Distinct rs → Distinct (upsert e rs)
unfolding upsert
upsert-Distinct e [] d = (tt, tt)
upsert-Distinct e (r ∷ rs) (one, d) = elim (Bool-cases (same_release r e)) [
  | inl found ↦ rw found (All-replaced r e rs found one, d)
  | inr other ↦
      rw other (All-upsert r e rs (same_release-sym e r ∙ other) one, upsert-Distinct e rs d)
]

-- The update keeps the list free of duplicates: where no two entries have the same time of export and
-- the same type, none have behind it, whatever the new entry is.
pub add_release-Distinct :
    (e : Release) (doc : Releases) → Distinct doc.releases → Distinct (add_release e doc).releases
unfolding add_release
add_release-Distinct e doc d = upsert-Distinct (trimmed e) doc.releases d
