-- ===== src/R2/Prune/Deleted.antt =====
-- What the deletion of an archive snapshot leaves in the object store: `deletePrefix`.
use vps_sync_gsbs.Base.{
  Bool, true, false, ◌&&◌, ◌||◌, inl, inr, Option, none, some, List, [], ◌∷◌, ◌++◌, ◌≡◌, ◌≢◌, refl,
  sym, ap, subst, ◌∙◌, arith, Bool-cases, if◌then◌else◌,
}
use vps_sync_gsbs.Text.{Text, text_eq, text_eq_iff}
use vps_sync_gsbs.Text.Strings.{has, has_prefix}
use vps_sync_gsbs.Exec.{Error, Result, ok, err, panic, pure, fail, lift, gets, ◌>>=◌, bind-ok}
use vps_sync_gsbs.Outside.{Outside, Page}
use vps_sync_gsbs.Outside.Laws.{IsStore, Lists, page_keys}
use vps_sync_gsbs.World.{World, request}
use vps_sync_gsbs.R2.{Client, acknowledged}
use vps_sync_gsbs.R2.Backup.RoundTrip.{value_of}
use vps_sync_gsbs.R2.Kept.{has-append}
use vps_sync_gsbs.R2.Prune.Kept.{has-identifiers}
use vps_sync_gsbs.R2.Prune.{identifiers, delete_page, delete_pages, delete_prefix}

-- The keys of the pages.
abbrev listed_keys : List (Result Page) → List Text
listed_keys [] = []
listed_keys (ok page ∷ pages) = page_keys page ++ listed_keys pages
listed_keys (_ ∷ pages) = []

-- Two batches of keys, one behind the other.
pub twice :
    {A : Type 0} (x y z : Bool) (v : Option A)
    → (if x && z then none else if x && y then none else v) ≡ (if x && (y || z) then none else v)
twice true true true v = refl
twice true true false v = refl
twice true false true v = refl
twice true false false v = refl
twice false y z v = refl

pub nothing : {A : Type 0} (x : Bool) (v : Option A) → v ≡ (if x && false then none else v)
nothing true v = refl
nothing false v = refl

-- The keys under the prefix that are not listed hold no object.
same_ending :
    {A : Type 0} (x y z : Bool) (v : Option A)
    → (y ≡ true → z ≡ true)
    → (x ≡ true → z ≡ true → y ≡ false → v ≡ none)
    → (if x && y then none else v) ≡ (if x && z then none else v)
same_ending true true true v h k = refl
same_ending true true false v h k = absurd (ground (arith, h refl))
same_ending true false true v h k = k refl refl refl
same_ending true false false v h k = refl
same_ending false y z v h k = refl

absent : {A : Type 0} (v : Option A) → ¬ (v ≢ none) → v ≡ none
absent none h = refl
absent (some a) h = absurd (h (λ e. ground (arith, e)))

module _ {o : Outside} (S : IsStore o) (c : Client) where
  -- Of the bucket's objects those of the keys are gone, and all else is as it was.
  abbrev pub Without : List Text → o.Remote → o.Remote → Type 0
  Without ks r r' =
      (b k : Text)
      → S.object r' b k ≡ (if text_eq b c.bucket && has k ks then none else S.object r b k)

  deleted :
      (ks : List Text) (r : o.Remote)
      → (o.delete_objects c.bucket ks r).0 ≡ none
      → Without ks r (o.delete_objects c.bucket ks r).1
  deleted ks r done b k = elim (Bool-cases (text_eq b c.bucket && has k ks)) [
    | inl both ↦
        let here : b ≡ c.bucket = (text_eq_iff b c.bucket).0 (ground (arith, both)) in
        rw both (
          subst (λ b. S.object (o.delete_objects c.bucket ks r).1 b k ≡ none) (sym here)
            (S.deletes_done c.bucket ks r k done (ground (arith, both))))
    | inr other ↦ rw other (S.deletes_other c.bucket ks r b k other)
  ]

  abbrev pub world_of : Result (Unit {0}) × World o → World o
  world_of x = x.1

  -- Nothing is deleted for no keys.
  unchanged : (w w' : World o) → w ≡ w' → Without [] w.remote w'.remote
  unfolding has
  unchanged w w' e b k =
      ap (λ (w : World o). S.object w.remote b k) (sym e) ∙ nothing (text_eq b c.bucket) _

  ack_ok :
      (answer : Option Error) (w w' : World o)
      → acknowledged {o = o} answer w ≡ (ok tt, w')
      → (answer ≡ none) × (w ≡ w')
  unfolding pure fail
  ack_ok none w w' e = (refl, ap world_of e)
  ack_ok (some x) w w' e = absurd (ground (arith, ap (λ (x : Result (Unit {0}) × World o). x.0) e))

  -- A batch that is acknowledged.
  batch_lem :
      (ks : List Text) (w w' : World o)
      → (do answer ← request (o.delete_objects c.bucket ks); acknowledged answer) w ≡ (ok tt, w')
      → Without ks w.remote w'.remote
  unfolding request
  batch_lem ks w w' e =
      let (answer, w1, asked, acked) = bind-ok _ _ w w' tt e in
      let (none_said, same) = ack_ok answer w1 w' acked in
      let asked_none : (o.delete_objects c.bucket ks w.remote).0 ≡ none =
        value_of asked ∙ none_said in
      let left : (o.delete_objects c.bucket ks w.remote).1 ≡ w'.remote =
        ap (λ (x : Result (Option Error) × World o). x.1.remote) asked
        ∙ ap (λ (w : World o). w.remote) same in
      subst (Without ks w.remote) left (deleted ks w.remote asked_none)

  page_lem :
      (page : Page) (w w' : World o)
      → delete_page c (identifiers page) w ≡ (ok tt, w')
      → Without (page_keys page) w.remote w'.remote
  unfolding delete_page has pure fail
  page_lem page w w' e = go (identifiers page) refl e
    where
      named :
          (ks : List Text)
          → identifiers page ≡ some ks
          → Without ks w.remote w'.remote
          → Without (page_keys page) w.remote w'.remote
      named ks same gone b k =
          gone b k
          ∙ ap (λ x. if text_eq b c.bucket && x then none else S.object w.remote b k)
              (has-identifiers k page ks same)

      go :
          (v : Option (List Text))
          → identifiers page ≡ v
          → delete_page c v w ≡ (ok tt, w')
          → Without (page_keys page) w.remote w'.remote
      go none same e = absurd (ground (arith, ap (λ (x : Result (Unit {0}) × World o). x.0) e))
      go (some []) same e = named [] same (unchanged w w' (ap world_of e))
      go (some (x ∷ objs)) same e = named (x ∷ objs) same (batch_lem (x ∷ objs) w w' e)

  pages_lem :
      (pages : List (Result Page)) (w w' : World o)
      → delete_pages c pages w ≡ (ok tt, w')
      → Lists pages (listed_keys pages) × Without (listed_keys pages) w.remote w'.remote
  unfolding delete_pages has pure fail lift
  pages_lem [] w w' e = (refl, unchanged w w' (ap world_of e))
  pages_lem (ok page ∷ pages) w w' e =
      let (u, w1, first, rest) = bind-ok _ _ w w' tt e in
      let (lists, after) = pages_lem pages w1 w' rest in
      let before = page_lem page w w1 first in
      (
        (listed_keys pages, refl, lists),
        λ b k.
            after b k
            ∙ ap (λ v. if text_eq b c.bucket && has k (listed_keys pages) then none else v)
                (before b k)
            ∙ twice (text_eq b c.bucket) (has k (page_keys page)) (has k (listed_keys pages)) _
            ∙ ap (λ x. if text_eq b c.bucket && x then none else S.object w.remote b k)
                (sym (has-append k (page_keys page) (listed_keys pages))),
      )
  pages_lem (err x ∷ pages) w w' e =
      absurd (ground (arith, ap (λ (x : Result (Unit {0}) × World o). x.0) e))
  pages_lem (panic t ∷ pages) w w' e =
      absurd (ground (arith, ap (λ (x : Result (Unit {0}) × World o). x.0) e))

-- A deletion that returns has deleted the snapshot and nothing else: of the bucket's objects those
-- whose keys begin with the prefix are gone, however many pages the listing had, and every other
-- object is as it was.
pub delete_prefix-exact :
    (o : Outside) (S : IsStore o) (c : Client) (prefix : Text) (w w' : World o)
    → delete_prefix c prefix w ≡ (ok tt, w')
    → (b k : Text)
    → S.object w'.remote b k
      ≡ (if text_eq b c.bucket && has_prefix k prefix then none else S.object w.remote b k)
unfolding delete_prefix gets ◌>>=◌
delete_prefix-exact o S c prefix w w' e b k =
    let pages = o.list_objects c.bucket prefix w.remote in
    let (lists, gone) = pages_lem S c pages w w' e in
    let named = S.listed c.bucket prefix w.remote (listed_keys pages) lists k in
    gone b k
    ∙ same_ending (text_eq b c.bucket) (has k (listed_keys pages)) (has_prefix k prefix) _
        (λ there. (named.0 there).0)
        (λ here under unnamed.
          ap (λ b. S.object w.remote b k) ((text_eq_iff b c.bucket).0 here)
          ∙ absent (S.object w.remote c.bucket k)
              (λ there. ground (arith, named.1 (under, there), unnamed)))
