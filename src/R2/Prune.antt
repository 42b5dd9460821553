-- ===== src/R2/Prune.antt =====
-- The pruning of the archive snapshots: `PruneArchives` and `deletePrefix`.
pub mod WrongOrder
pub mod Kept
pub mod Deleted
pub mod Pruned
use vps_sync_gsbs.Base.{
  ℕ, zero, suc, Bool, Option, none, some, List, [], ◌∷◌, ◌++◌, ◌⊎◌, inl, inr, length, get_elem?,
  if◌then◌else◌,
}
use vps_sync_gsbs.Base.Int.{ℤ, pos, pos_part, ◌-ℤ◌, leb_ℤ}
use vps_sync_gsbs.Text.{Text, text}
use vps_sync_gsbs.Text.Strings.{trim_suffix}
use vps_sync_gsbs.Text.Sort.{sort}
use vps_sync_gsbs.Exec.{
  Error, errorf, wrapped, Result, ok, err, panic, Exec, pure, fail, lift, gets, attempt, ◌>>=◌,
  ◌>>◌,
}
use vps_sync_gsbs.Outside.{Outside, Page}
use vps_sync_gsbs.World.{World, Io, request}
use vps_sync_gsbs.R2.{Client, acknowledged}

abbrev pub archive_prefix : Text
archive_prefix = text "archive/"

-- What the function returns: how many snapshots are gone, and the error that ended it, if one did.
abbrev pub Pruned : Type 0
Pruned = ℕ × Option Error

-- The loop over the common prefixes of a page.
pub append_prefixes : List Text → Page → List Text
append_prefixes keys [] = keys
append_prefixes keys (none ∷ page) = append_prefixes keys page
append_prefixes keys (some p ∷ page) = append_prefixes (keys ++ trim_suffix p b'/' ∷ []) page

-- The loop over the pages of the listing.
unfoldable pub collect_prefixes : List (Result Page) → List Text → Result (List Text)
unfolding append_prefixes
collect_prefixes [] keys = ok keys
collect_prefixes (ok page ∷ pages) keys = collect_prefixes pages (append_prefixes keys page)
collect_prefixes (err e ∷ pages) keys = err (wrapped (text "list archives") e)
collect_prefixes (panic t ∷ pages) keys = panic t

-- The keys of a page as identifiers. The library refuses a request with an identifier that has no key.
pub identifiers : Page → Option (List Text)
identifiers [] = some []
identifiers (none ∷ page) = none
identifiers (some k ∷ page) = elim (identifiers page) [ none ↦ none | some objs ↦ some (k ∷ objs) ]

module _ {o : Outside} where
  delete_page : Client → Option (List Text) → Io o (Unit {0})
  delete_page c none = fail (errorf (text "missing required field, ObjectIdentifier.Key"))
  delete_page c (some []) = pure tt
  delete_page c (some (k ∷ objs)) = do
    answer ← request (o.delete_objects c.bucket (k ∷ objs))
    acknowledged answer

  -- The loop of `deletePrefix`. The pages of a listing do not depend on the deletions of earlier keys.
  delete_pages : Client → List (Result Page) → Io o (Unit {0})
  unfolding delete_page identifiers
  delete_pages c [] = pure tt
  delete_pages c (ok page ∷ pages) = do delete_page c (identifiers page); delete_pages c pages
  delete_pages c (err e ∷ pages) = fail e
  delete_pages c (panic t ∷ pages) = lift (panic t)

  -- `deletePrefix`
  unfoldable pub delete_prefix : Client → Text → Io o (Unit {0})
  unfolding delete_pages
  delete_prefix c prefix = do
    pages ← gets (λ w. o.list_objects c.bucket prefix w.remote)
    delete_pages c pages

  -- `for i := 0; i < prune; i++ { … keys[i] … }`, with the number of rounds left and those done.
  unfoldable pub prune_loop : Client → ℕ → ℕ → List Text → Io o Pruned
  prune_loop c zero i keys = pure (i, none)
  prune_loop c (suc n) i [] = lift (panic (text "runtime error: index out of range"))
  prune_loop c (suc n) i (k ∷ keys) = do
    done ← attempt (delete_prefix c (k ++ b'/' ∷ []))
    elim done [
      | inl _ ↦ prune_loop c n (suc i) keys
      | inr e ↦ pure (i, some (wrapped (text "prune " ++ k) e))
    ]

  -- What `PruneArchives` does behind the sort.
  unfoldable pub prune_sorted : Client → List Text → ℤ → Io o Pruned
  unfolding prune_loop
  prune_sorted c keys keep =
      if leb_ℤ (pos (length keys)) keep
      then pure (0, none)
      else prune_loop c (pos_part (pos (length keys) -ℤ keep)) 0 keys

  -- `PruneArchives`
  unfoldable pub prune_archives : Client → ℤ → Io o Pruned
  unfolding prune_sorted
  prune_archives c keep = do
    pages ← gets (λ w. o.list_prefixes c.bucket archive_prefix (text "/") w.remote)
    keys ← lift (collect_prefixes pages [])
    prune_sorted c (sort keys) keep
