-- ===== src/Outside/Laws.antt =====
-- What the program relies on in the code that it calls: documented behaviour of the object store,
-- of the GSBS index and of the codecs, as hypotheses of the theorems that need them.
use vps_sync_gsbs.Base.{
  Bool, true, false, ◌&&◌, List, [], ◌∷◌, ◌++◌, ◌≡◌, ◌≢◌, ◌↔◌, ◌⊎◌, Option, none, some, All,
}
use vps_sync_gsbs.Text.{Text, text_eq}
use vps_sync_gsbs.Text.Strings.{has, has_prefix}
use vps_sync_gsbs.Exec.{Result, ok, err, panic}
use vps_sync_gsbs.Outside.{Outside, Put, Page}

-- The keys of a listing, if every page came without an error and every key is there.
abbrev pub page_keys : Page → List Text
page_keys [] = []
page_keys (none ∷ ks) = page_keys ks
page_keys (some k ∷ ks) = k ∷ page_keys ks

abbrev pub Lists : List (Result Page) → List Text → Type 0
Lists [] ks = ks ≡ []
Lists (ok page ∷ pages) ks = (rest : List Text) × (ks ≡ page_keys page ++ rest) × Lists pages rest
Lists (err e ∷ pages) ks = ⊥
Lists (panic t ∷ pages) ks = ⊥

abbrev pub same : Text → Text → Text → Text → Bool
same b k b' k' = text_eq b b' && text_eq k k'

-- An object store. `object` is what a reader gets for a bucket and a key.
pub record IsStore (o : Outside) : Type 0 where
  pub object : o.Remote → Text → Text → Option Text
  -- A put that is acknowledged has stored the whole body.
  pub put_done :
      (p : Put) (r : o.Remote)
      → (o.put_object p r).0 ≡ none
      → object (o.put_object p r).1 p.bucket p.key ≡ some p.body
  -- One that is not has stored the whole body or nothing.
  pub put_failed :
      (p : Put) (r : o.Remote)
      → (object (o.put_object p r).1 p.bucket p.key ≡ object r p.bucket p.key)
        ⊎ (object (o.put_object p r).1 p.bucket p.key ≡ some p.body)
  -- Other objects stay, whatever the answer.
  pub put_other :
      (p : Put) (r : o.Remote) (b k : Text)
      → same b k p.bucket p.key ≡ false
      → object (o.put_object p r).1 b k ≡ object r b k
  pub delete_other :
      (b' k' : Text) (r : o.Remote) (b k : Text)
      → same b k b' k' ≡ false
      → object (o.delete_object b' k' r).1 b k ≡ object r b k
  -- A batch that is acknowledged has deleted its keys, and no batch deletes another key. The answer
  -- of S3 may list keys that it refused; the code does not read that list, and here it is empty.
  pub deletes_done :
      (b : Text) (ks : List Text) (r : o.Remote) (k : Text)
      → (o.delete_objects b ks r).0 ≡ none
      → has k ks ≡ true
      → object (o.delete_objects b ks r).1 b k ≡ none
  pub deletes_other :
      (b' : Text) (ks : List Text) (r : o.Remote) (b k : Text)
      → (text_eq b b' && has k ks) ≡ false
      → object (o.delete_objects b' ks r).1 b k ≡ object r b k
  -- A read changes nothing and gives the object.
  pub get_same :
      (b k : Text) (r : o.Remote) (b' k' : Text)
      → object (o.get_object b k r).1 b' k' ≡ object r b' k'
  pub get_found :
      (b k t : Text) (r : o.Remote) → (o.get_object b k r).0 ≡ ok t → object r b k ≡ some t
  -- A listing that comes without an error names the keys under the prefix that hold an object.
  pub listed :
      (b p : Text) (r : o.Remote) (ks : List Text)
      → Lists (o.list_objects b p r) ks
      → (k : Text) → (has k ks ≡ true) ↔ ((has_prefix k p ≡ true) × (object r b k ≢ none))

-- A page names what begins with the prefix that was asked for.
abbrev pub Under : Text → Result Page → Type 0
Under p (ok page) = (k : Text) → has k (page_keys page) ≡ true → has_prefix k p ≡ true
Under p (err e) = Unit {0}
Under p (panic t) = Unit {0}

-- The pages of a listing, whether the listing ends or not.
pub record IsPaged (o : Outside) : Type 0 where
  pub objects : (b p : Text) (r : o.Remote) → All (Under p) (o.list_objects b p r)
  pub prefixes : (b p d : Text) (r : o.Remote) → All (Under p) (o.list_prefixes b p d r)
