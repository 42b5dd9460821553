-- ===== src/R2/Prune/Pruned.antt =====
-- What the pruning of the archive leaves in the object store.
use vps_sync_gsbs.Base.{
  ℕ, zero, suc, ◌+◌, ◌-◌, Bool, true, false, ◌&&◌, ◌||◌, ◌⊎◌, inl, inr, none, some, List, [], ◌∷◌,
  ◌++◌, ◌≡◌, refl, sym, ap, subst, ◌∙◌, arith, length, take, if◌then◌else◌,
}
use vps_sync_gsbs.Base.Int.{pos, pos_part, ◌-ℤ◌, leb_ℤ}
use vps_sync_gsbs.Text.{Text, text, text_eq}
use vps_sync_gsbs.Text.Strings.{has_prefix}
use vps_sync_gsbs.Text.Sort.{sort, length-sort}
use vps_sync_gsbs.Exec.{
  Error, Result, ok, err, panic, wrapped, pure, lift, gets, attempt, ◌>>=◌, bind-ok,
}
use vps_sync_gsbs.Exec.Triple.{attempt_ok}
use vps_sync_gsbs.Outside.{Outside}
use vps_sync_gsbs.Outside.Laws.{IsStore}
use vps_sync_gsbs.World.{World, Io}
use vps_sync_gsbs.R2.{Client}
use vps_sync_gsbs.R2.Prune.Deleted.{nothing, twice, delete_prefix-exact}
use vps_sync_gsbs.R2.Prune.{
  Pruned, archive_prefix, collect_prefixes, delete_prefix, prune_loop, prune_sorted, prune_archives,
}

-- The key lies in one of the snapshots.
abbrev pub in_any : Text → List Text → Bool
in_any k [] = false
in_any k (p ∷ ps) = has_prefix k (p ++ b'/' ∷ []) || in_any k ps

module _ {o : Outside} (S : IsStore o) (c : Client) where
  -- The snapshots are gone, and all else is as it was.
  abbrev pub Gone : List Text → World o → World o → Type 0
  Gone ps w w' =
      (b k : Text)
      → S.object w'.remote b k
        ≡ (if text_eq b c.bucket && in_any k ps then none else S.object w.remote b k)

  abbrev answer_of : Result Pruned × World o → Pruned
  answer_of x = elim x.0 [ ok a ↦ a | err _ ↦ (0, none) | panic _ ↦ (0, none) ]

  loop_lem :
      (n i m : ℕ) (keys : List Text) (w w' : World o)
      → prune_loop c n i keys w ≡ (ok (m, none), w')
      → (m ≡ i + n) × Gone (take n keys) w w'
  unfolding prune_loop pure lift
  loop_lem zero i m keys w w' e = (
    ground (arith, ap (λ x. (answer_of x).0) e),
    λ b k.
        ap (λ (x : Result Pruned × World o). S.object x.1.remote b k) (sym e)
        ∙ nothing (text_eq b c.bucket) _,
  )
  loop_lem (suc n) i m [] w w' e =
      absurd (ground (arith, ap (λ (x : Result Pruned × World o). x.0) e))
  loop_lem (suc n) i m (p ∷ keys) w w' e =
      let (done, w1, first, rest) = bind-ok _ _ w w' (m, none) e in
      step done w1 first rest (λ e. loop_lem n (suc i) m keys w1 w' e)
    where
      step :
          (done : Unit {0} ⊎ Error) (w1 : World o)
          → attempt (delete_prefix c (p ++ b'/' ∷ [])) w ≡ (ok done, w1)
          → let next : Io o Pruned = elim done [
            | inl _ ↦ prune_loop c n (suc i) keys
            | inr e ↦ pure (i, some (wrapped (text "prune " ++ p) e))
          ] in
            next w1 ≡ (ok (m, none), w')
            → (prune_loop c n (suc i) keys w1 ≡ (ok (m, none), w')
                → (m ≡ suc i + n) × Gone (take n keys) w1 w')
            → (m ≡ i + suc n) × Gone (p ∷ take n keys) w w'
      step (inl u) w1 first rest ih =
          let (count, after) = ih rest in
          let before =
            delete_prefix-exact o S c (p ++ b'/' ∷ []) w w1 (attempt_ok _ w w1 u first) in
          (
            count ∙ omega arith,
            λ b k.
                after b k
                ∙ ap (λ v. if text_eq b c.bucket && in_any k (take n keys) then none else v)
                    (before b k)
                ∙ twice (text_eq b c.bucket) (has_prefix k (p ++ b'/' ∷ []))
                    (in_any k (take n keys)) _,
          )
      step (inr x) w1 first rest ih = absurd (ground (arith, ap (λ x. (answer_of x).1) rest))

  -- What is pruned of the sorted keys.
  abbrev pub oldest : List Text → ℕ → List Text
  oldest keys n = take (length keys - n) (sort keys)

  sorted_lem :
      (keys : List Text) (n m : ℕ) (w w' : World o)
      → prune_sorted c (sort keys) (pos n) w ≡ (ok (m, none), w')
      → (m ≡ length keys - n) × Gone (oldest keys n) w w'
  unfolding prune_sorted prune_loop pure ◌-ℤ◌
  sorted_lem keys n m w w' e = go (leb_ℤ (pos (length (sort keys))) (pos n)) refl e
    where
      -- The number that is pruned, however it is written.
      moved :
          (j : ℕ)
          → j ≡ length keys - n
          → (m ≡ j) × Gone (take j (sort keys)) w w'
          → (m ≡ length keys - n) × Gone (oldest keys n) w w'
      moved j same = subst (λ j. (m ≡ j) × Gone (take j (sort keys)) w w') same

      go :
          (few : Bool)
          → leb_ℤ (pos (length (sort keys))) (pos n) ≡ few
          → (if few
                then pure (0, none)
                else prune_loop c (pos_part (pos (length (sort keys)) -ℤ pos n)) 0 (sort keys))
              w
            ≡ (ok (m, none), w')
          → (m ≡ length keys - n) × Gone (oldest keys n) w w'
      go true few e =
          moved 0 (ground (arith, few, length-sort keys)) (loop_lem 0 0 m (sort keys) w w' e)
      go false many e =
          let (count, gone) =
            loop_lem (pos_part (pos (length (sort keys)) -ℤ pos n)) 0 m (sort keys) w w' e in
          moved (pos_part (pos (length (sort keys)) -ℤ pos n)) (ground (arith, length-sort keys))
            (count ∙ omega arith, gone)

-- A pruning of the archive that keeps `n` snapshots and returns without an error has deleted, of the
-- bucket's objects, those of the snapshots that come first in the order of their names, all but `n`,
-- and nothing else, and it returns their number. The keys are those of the listing.
pub prune_archives-oldest :
    (o : Outside) (S : IsStore o) (c : Client) (n m : ℕ) (keys : List Text) (w w' : World o)
    → collect_prefixes (o.list_prefixes c.bucket archive_prefix (text "/") w.remote) [] ≡ ok keys
    → prune_archives c (pos n) w ≡ (ok (m, none), w')
    → (m ≡ length keys - n) × Gone S c (oldest S c keys n) w w'
unfolding prune_archives gets lift ◌>>=◌
prune_archives-oldest o S c n m keys w w' listed e = sorted_lem S c keys n m w w' (
    ap (λ (r : Result (List Text)). (lift r >>= λ keys. prune_sorted c (sort keys) (pos n)) w)
      (sym listed)
    ∙ e)
