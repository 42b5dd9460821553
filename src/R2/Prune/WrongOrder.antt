-- ===== src/R2/Prune/WrongOrder.antt =====
-- The order in which `PruneArchives` takes the snapshots.
use vps_sync_gsbs.Base.{
  ℕ, ◌+◌, ◌*◌, ◌-◌, ◌≤◌, ◌<◌, true, false, ◌⊎◌, inl, inr, List, [], ◌∷◌, ◌++◌, ◌≡◌, refl, subst,
  ◌∙◌, arith, none, length, take, Bool-cases,
}
use vps_sync_gsbs.Base.Int.{pos}
use vps_sync_gsbs.Text.{Text, text, text_eq, text_eq_iff, text_eq_refl, text_le}
use vps_sync_gsbs.Text.Strings.{has, has_prefix}
use vps_sync_gsbs.Text.Sort.{sort, text_le_total, text_le_trans}
use vps_sync_gsbs.Text.Sort.Newest.{newer, Distinct, has-oldest}
use vps_sync_gsbs.Text.Number.{decimal_int}
use vps_sync_gsbs.Text.Number.Short.{decimal_one, decimal_two}
use vps_sync_gsbs.Text.Stamp.{Moment, stamp}
use vps_sync_gsbs.Exec.{ok}
use vps_sync_gsbs.Outside.{Outside}
use vps_sync_gsbs.Outside.Laws.{IsStore}
use vps_sync_gsbs.World.{World}
use vps_sync_gsbs.R2.{Client}
use vps_sync_gsbs.R2.Live.{snap_name}
use vps_sync_gsbs.R2.Prune.{archive_prefix, collect_prefixes, prune_archives}
use vps_sync_gsbs.R2.Prune.Pruned.{in_any, oldest, prune_archives-oldest}

-- The strings are decided at the first place where they differ.
text_le-gt : (x y : ℕ) (p s t : Text) → y < x → text_le (p ++ x ∷ s) (p ++ y ∷ t) ≡ false
unfolding text_le
text_le-gt x y [] s t h = ground arith
text_le-gt x y (c ∷ p) s t h = ground (arith, text_le-gt x y p s t h)

-- A version of one digit is behind one of two digits that begins with a smaller digit.
snap_name-behind :
    (a b n : ℕ) (t u : Moment)
    → 1 ≤ a
    → a < n
    → n ≤ 9
    → b ≤ 9
    → text_le (snap_name (pos n) t) (snap_name (pos (10 * a + b)) u) ≡ false
unfolding snap_name decimal_int
snap_name-behind a b n t u l h k m =
    rw (decimal_one n k, decimal_two a b l (omega arith) m)
      (text_le-gt (b'0' + n) (b'0' + a) (text "archive/v") (b'-' ∷ stamp t)
        ((b'0' + b) ∷ b'-' ∷ stamp u) (omega arith))

-- What is greater than `x` is greater than all that is below `x`.
newer-below : (x y : Text) (keys : List Text) → text_le y x ≡ true → newer x keys ≤ newer y keys
newer-below x y [] h = omega arith
newer-below x y (z ∷ keys) h = ground (arith, newer-below x y keys h, text_le_trans z y x)

-- An element of the list that is not below `y` counts.
newer-positive :
    (x y : Text) (keys : List Text) → has x keys ≡ true → text_le x y ≡ false → 1 ≤ newer y keys
unfolding has
newer-positive x y [] there h = absurd (ground (arith, there))
newer-positive x y (z ∷ keys) there h = elim (Bool-cases (text_eq x z)) [
  | inl same ↦
      let above : text_le z y ≡ false =
        subst (λ z. text_le z y ≡ false) ((text_eq_iff x z).0 same) h in
      ground (arith, above)
  | inr other ↦ ground (arith, newer-positive x y keys (ground (arith, there, other)) h)
]

-- A key of a snapshot of the list lies in one of the list.
has-in_any :
    (k p : Text) (ps : List Text)
    → has p ps ≡ true
    → has_prefix k (p ++ b'/' ∷ []) ≡ true
    → in_any k ps ≡ true
unfolding has
has-in_any k p [] there h = absurd (ground (arith, there))
has-in_any k p (q ∷ ps) there h = elim (Bool-cases (text_eq p q)) [
  | inl same ↦
      let below : has_prefix k (q ++ b'/' ∷ []) ≡ true =
        subst (λ q. has_prefix k (q ++ b'/' ∷ []) ≡ true) ((text_eq_iff p q).0 same) h in
      ground (arith, below)
  | inr other ↦ ground (arith, has-in_any k p ps (ground (arith, there, other)) h)
]

-- What stands before a deleted name, in the order of the names, is deleted as well, and with a
-- greater name in the list only one more can be spared.
has-oldest-below :
    (kept : ℕ) (x y : Text) (keys : List Text)
    → Distinct keys
    → has x keys ≡ true
    → has y keys ≡ true
    → text_le x y ≡ false
    → (kept ≤ 1) ⊎ (has x (take (length keys - kept) (sort keys)) ≡ true)
    → has y (take (length keys - kept) (sort keys)) ≡ true
has-oldest-below kept x y keys distinct hx hy behind (inl few) =
    ground (arith, has-oldest kept y keys distinct hy, newer-positive x y keys hx behind)
has-oldest-below kept x y keys distinct hx hy behind (inr gone) = ground (
  arith,
  has-oldest kept y keys distinct hy,
  has-oldest kept x keys distinct hx,
  gone,
  newer-below x y keys (text_le_total x y behind),
)

-- The archive's listing, which has no name twice, holds among others a snapshot of a version below ten
-- and one of a version of two digits whose first digit is smaller, the one published later. A pruning
-- that keeps at most one snapshot, or that deletes the one of the lower version, and returns without
-- an error has deleted all objects of the one of the greater version: `PruneArchives` takes the order
-- of the strings for that of time.
pub prune_archives-wrong_order :
    (o : Outside) (S : IsStore o) (c : Client) (a b n kept m : ℕ) (t u : Moment) (keys : List Text)
    (w w' : World o) (k : Text)
    → 1 ≤ a
    → a < n
    → n ≤ 9
    → b ≤ 9
    → collect_prefixes (o.list_prefixes c.bucket archive_prefix (text "/") w.remote) [] ≡ ok keys
    → Distinct keys
    → has (snap_name (pos n) t) keys ≡ true
    → has (snap_name (pos (10 * a + b)) u) keys ≡ true
    → (kept ≤ 1) ⊎ (has (snap_name (pos n) t) (oldest S c keys kept) ≡ true)
    → prune_archives c (pos kept) w ≡ (ok (m, none), w')
    → has_prefix k (snap_name (pos (10 * a + b)) u ++ b'/' ∷ []) ≡ true
    → S.object w'.remote c.bucket k ≡ none
prune_archives-wrong_order o S c a b n kept m t u keys w w' k la an ln lb listed distinct old new
      few pruned under =
    let y = snap_name (pos (10 * a + b)) u in
    let first =
      has-oldest-below kept (snap_name (pos n) t) y keys distinct old new
        (snap_name-behind a b n t u la an ln lb) few in
    (prune_archives-oldest o S c kept m keys w w' listed pruned).1 c.bucket k
    ∙ rw (text_eq_refl c.bucket, has-in_any k y (oldest S c keys kept) first under) refl
