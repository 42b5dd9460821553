-- ===== src/R2/Prune/Kept.antt =====
-- The pruning of the archive leaves what lies outside archive/.
use vps_sync_gsbs.Base.{
  ℕ, zero, suc, true, false, ◌||◌, ◌⊎◌, inl, inr, Option, none, some, List, [], ◌∷◌, ◌++◌, ◌≡◌,
  refl, sym, ap, ◌∙◌, All, arith, length, Bool-cases,
}
use vps_sync_gsbs.Base.Int.{ℤ, pos, pos_part, ◌-ℤ◌, leb_ℤ}
use vps_sync_gsbs.Text.{Text, text, text_eq, text_eq_iff, text_eq_refl}
use vps_sync_gsbs.Text.Strings.{has, has_prefix, trim_suffix}
use vps_sync_gsbs.Text.Sort.{sort, has-sort}
use vps_sync_gsbs.Exec.{Error, Result, ok, err, panic, wrapped, pure}
use vps_sync_gsbs.Exec.Triple.{
  Triple-bind, Triple-pure, Triple-fail, Triple-if, Triple-gets, Triple-fact, Triple-known, Keeps,
  Keeps-lift,
}
use vps_sync_gsbs.Outside.{Outside, Page}
use vps_sync_gsbs.Outside.Laws.{IsStore, IsPaged, Under, page_keys}
use vps_sync_gsbs.World.Laws.{Of}
use vps_sync_gsbs.Fetch.Guarded.{tried}
use vps_sync_gsbs.R2.{Client}
use vps_sync_gsbs.R2.Kept.{Holds, Kept-acknowledged, Kept-deletes, AllUnder-has, has-append}
use vps_sync_gsbs.R2.Prune.{
  archive_prefix, append_prefixes, collect_prefixes, identifiers, delete_page, delete_pages,
  delete_prefix, prune_loop, prune_sorted, prune_archives,
}

-- The slash that is cut off is put back, or one is added.
has_prefix-trim_suffix :
    (s p : Text) → has_prefix s p ≡ true → has_prefix (trim_suffix s b'/' ++ b'/' ∷ []) p ≡ true
unfolding has_prefix trim_suffix
has_prefix-trim_suffix s [] h = refl
has_prefix-trim_suffix [] (c ∷ p) h = absurd (ground (arith, h))
has_prefix-trim_suffix (d ∷ []) (c ∷ []) h = ground (arith, h)
has_prefix-trim_suffix (d ∷ []) (c ∷ c' ∷ p) h = absurd (ground (arith, h))
has_prefix-trim_suffix (d ∷ e ∷ s) (c ∷ p) h = ground (arith, has_prefix-trim_suffix (e ∷ s) p, h)

has_prefix_trans :
    (s p q : Text) → has_prefix s p ≡ true → has_prefix p q ≡ true → has_prefix s q ≡ true
unfolding has_prefix
has_prefix_trans s p [] h k = refl
has_prefix_trans s [] (c ∷ q) h k = absurd (ground (arith, k))
has_prefix_trans [] (d ∷ p) (c ∷ q) h k = absurd (ground (arith, h))
has_prefix_trans (e ∷ s) (d ∷ p) (c ∷ q) h k = ground (arith, has_prefix_trans s p q, h, k)

pub has-identifiers :
    (k : Text) (page : Page) (objs : List Text)
    → identifiers page ≡ some objs
    → has k objs ≡ has k (page_keys page)
unfolding identifiers has
has-identifiers k [] objs e = ground (arith, e)
has-identifiers k (none ∷ page) objs e = absurd (ground (arith, e))
has-identifiers k (some x ∷ page) objs e =
    go (identifiers page) refl (λ rest same. has-identifiers k page rest same) e
  where
    go :
        (v : Option (List Text))
        → identifiers page ≡ v
        → ((rest : List Text) → identifiers page ≡ some rest → has k rest ≡ has k (page_keys page))
        → (elim v [ none ↦ none | some objs ↦ some (x ∷ objs) ]) ≡ some objs
        → has k objs ≡ (text_eq k x || has k (page_keys page))
    go none same ih e = absurd (ground (arith, e))
    go (some rest) same ih e = ground (arith, ih rest same, e)

-- With the slash behind them the keys lie under archive/.
abbrev Archived : List Text → Type 0
Archived keys = (x : Text) → has x keys ≡ true → has_prefix (x ++ b'/' ∷ []) archive_prefix ≡ true

Archived-nil : Archived []
unfolding has
Archived-nil x there = absurd (ground (arith, there))

append_prefixes-Archived :
    (keys : List Text) (page : Page)
    → Archived keys
    → ((x : Text) → has x (page_keys page) ≡ true → has_prefix x archive_prefix ≡ true)
    → Archived (append_prefixes keys page)
unfolding append_prefixes has
append_prefixes-Archived keys [] all under = all
append_prefixes-Archived keys (none ∷ page) all under = append_prefixes-Archived keys page all under
append_prefixes-Archived keys (some p ∷ page) all under =
    append_prefixes-Archived (keys ++ trim_suffix p b'/' ∷ []) page added
      (λ x there. under x (ground (arith, there)))
  where
    cut_off : has_prefix (trim_suffix p b'/' ++ b'/' ∷ []) archive_prefix ≡ true
    cut_off = has_prefix-trim_suffix p archive_prefix (under p (ground (arith, text_eq_refl p)))

    added : Archived (keys ++ trim_suffix p b'/' ∷ [])
    added x there = elim (Bool-cases (text_eq x (trim_suffix p b'/'))) [
      | inl e ↦
          ap (λ y. has_prefix (y ++ b'/' ∷ []) archive_prefix)
            ((text_eq_iff x (trim_suffix p b'/')).0 e)
          ∙ cut_off
      | inr ne ↦ all x (ground (arith, has-append x keys (trim_suffix p b'/' ∷ []), ne, there))
    ]

collect_prefixes-Archived :
    (pages : List (Result Page)) (keys ks : List Text)
    → All (Under archive_prefix) pages
    → Archived keys
    → collect_prefixes pages keys ≡ ok ks
    → Archived ks
unfolding collect_prefixes
collect_prefixes-Archived [] keys ks paged all e = λ x there. all x (ground (arith, e, there))
collect_prefixes-Archived (ok page ∷ pages) keys ks (under, paged) all e =
    collect_prefixes-Archived pages (append_prefixes keys page) ks paged
      (append_prefixes-Archived keys page all under) e
collect_prefixes-Archived (err x ∷ pages) keys ks paged all e = absurd (ground (arith, e))
collect_prefixes-Archived (panic t ∷ pages) keys ks paged all e = absurd (ground (arith, e))

module _ {o : Outside} (S : IsStore o) (c : Client) (b k v : Text)
    (ne : has_prefix k archive_prefix ≡ false) where
  delete_objects_lem :
      (objs : Option (List Text))
      → ((ks : List Text) → objs ≡ some ks → has k ks ≡ false)
      → Keeps (Of o (Holds S b k v)) (delete_page c objs)
  unfolding delete_page
  delete_objects_lem none apart = Triple-fail _ (λ w h. h)
  delete_objects_lem (some []) apart = Triple-pure _ (λ w h. h)
  delete_objects_lem (some (x ∷ objs)) apart =
      Triple-bind {R = λ _. Of o (Holds S b k v)} _ _
        (Kept-deletes S b k v c.bucket (x ∷ objs) (apart (x ∷ objs) refl))
        (Kept-acknowledged S b k v)

  delete_pages_lem :
      (p : Text) (pages : List (Result Page))
      → has_prefix k p ≡ false
      → All (Under p) pages
      → Keeps (Of o (Holds S b k v)) (delete_pages c pages)
  unfolding delete_pages
  delete_pages_lem p [] apart paged = Triple-pure _ (λ w h. h)
  delete_pages_lem p (ok page ∷ pages) apart (under, paged) =
      Triple-bind {R = λ _. Of o (Holds S b k v)} _ _
        (delete_objects_lem (identifiers page)
          (λ ks e. has-identifiers k page ks e ∙ AllUnder-has p (page_keys page) k under apart))
        (λ _. delete_pages_lem p pages apart paged)
  delete_pages_lem p (err e ∷ pages) apart paged = Triple-fail _ (λ w h. h)
  delete_pages_lem p (panic t ∷ pages) apart paged = Keeps-lift _

  module _ (paged : IsPaged o) where
    delete_prefix_lem :
        (p : Text)
        → has_prefix p archive_prefix ≡ true
        → Keeps (Of o (Holds S b k v)) (delete_prefix c p)
    unfolding delete_prefix
    delete_prefix_lem p under =
        Triple-bind {R = λ pages w. Of o (Holds S b k v) w × All (Under p) pages} _ _
          (Triple-gets _ (λ w h. (h, paged.objects c.bucket p w.remote)))
          (λ pages. Triple-fact _ (delete_pages_lem p pages outside))
      where
        outside : has_prefix k p ≡ false
        outside = elim (Bool-cases (has_prefix k p)) [
          | inl e ↦ absurd (ground (arith, has_prefix_trans k p archive_prefix e under, ne))
          | inr e ↦ e
        ]

    prune_loop_lem :
        (n i : ℕ) (keys : List Text)
        → Archived keys
        → Keeps (Of o (Holds S b k v)) (prune_loop c n i keys)
    unfolding prune_loop has
    prune_loop_lem zero i keys all = Triple-pure _ (λ w h. h)
    prune_loop_lem (suc n) i [] all = Keeps-lift _
    prune_loop_lem (suc n) i (x ∷ keys) all =
        Triple-bind {R = λ _. Of o (Holds S b k v)} _ _
          (tried o (Holds S b k v) _
            (delete_prefix_lem (x ++ b'/' ∷ []) (all x (ground (arith, text_eq_refl x)))))
          (after (prune_loop_lem n (suc i) keys (λ y there. all y (ground (arith, there)))))
      where
        after :
            Keeps (Of o (Holds S b k v)) (prune_loop c n (suc i) keys)
            → (done : Unit {0} ⊎ Error)
            → Keeps {A = ℕ × Option Error} (Of o (Holds S b k v)) (elim done [
              | inl _ ↦ prune_loop c n (suc i) keys
              | inr e ↦ pure (i, some (wrapped (text "prune " ++ x) e))
            ])
        after rest (inl _) = rest
        after rest (inr e) = Triple-pure _ (λ w h. h)

    pub prune_archives-Kept : (keep : ℤ) → Keeps (Of o (Holds S b k v)) (prune_archives c keep)
    unfolding prune_archives prune_sorted
    prune_archives-Kept keep =
        Triple-bind {R = λ pages w. Of o (Holds S b k v) w × All (Under archive_prefix) pages} _ _
          (Triple-gets _ (λ w h. (h, paged.prefixes c.bucket archive_prefix (text "/") w.remote)))
          (λ pages. Triple-fact _ (λ under.
            Triple-bind _ _ (Triple-known {P = Of o (Holds S b k v)} (collect_prefixes pages []))
              (λ keys. Triple-fact _ (λ collected.
                Triple-if (leb_ℤ (pos (length (sort keys))) keep) _ _
                  (λ _. Triple-pure _ (λ w h. h))
                  (λ _.
                    prune_loop_lem (pos_part (pos (length (sort keys)) -ℤ keep)) 0 (sort keys)
                      (λ x there.
                        collect_prefixes-Archived pages [] keys under Archived-nil collected x
                          (sym (has-sort x keys) ∙ there)))))))
