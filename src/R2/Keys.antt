-- ===== src/R2/Keys.antt =====
-- Different artifacts have different keys, whatever the prefix.
use vps_sync_gsbs.Base.{
  ℕ, false, [], ◌∷◌, ◌++◌, ◌≡◌, refl, sym, ap, arith, inl, inr, Bool-cases, append-cancel, subst,
  if◌then◌else◌,
}
use vps_sync_gsbs.Text.{text_eq-false, Text, text, text_eq, text_eq_iff, is_empty}
use vps_sync_gsbs.Exec.{ok}
use vps_sync_gsbs.Outside.{Outside}
use vps_sync_gsbs.Config.{Config}
use vps_sync_gsbs.R2.{Client, client_of, new, key}

key-injective : (c : Client) (m n : Text) → key c m ≡ key c n → m ≡ n
unfolding key
key-injective c m n h = elim (Bool-cases (is_empty c.prefix)) [
  | inl e ↦
      subst
        (λ b.
          ((if b then m else c.prefix ++ (b'/' ∷ m)) ≡ (if b then n else c.prefix ++ (b'/' ∷ n)))
          → m ≡ n)
        (sym e) (λ k. k) h
  | inr e ↦
      subst
        (λ b.
          ((if b then m else c.prefix ++ (b'/' ∷ m)) ≡ (if b then n else c.prefix ++ (b'/' ∷ n)))
          → m ≡ n)
        (sym e) (λ k. ground (arith, append-cancel c.prefix k)) h
]

pub key-ne : (c : Client) (m n : Text) → text_eq m n ≡ false → text_eq (key c m) (key c n) ≡ false
key-ne c m n h =
    text_eq-false (key c m) (key c n) (λ e. ground (arith, text_eq_iff m n, key-injective c m n e))

-- The last character of a text.
last : ℕ → Text → ℕ
last d [] = d
last d (c ∷ s) = last c s

last-append : (d : ℕ) (p : Text) (c : ℕ) (s : Text) → last d (p ++ (c ∷ s)) ≡ last c s
unfolding last
last-append d [] c s = refl
last-append d (e ∷ p) c s = last-append e p c s

last-key : (d : ℕ) (c : Client) (x : ℕ) (n : Text) → last d (key c (x ∷ n)) ≡ last x n
unfolding key last
last-key d c x n = elim (Bool-cases (is_empty c.prefix)) [
  | inl e ↦ rw e refl
  | inr e ↦ rw e (last-append d c.prefix b'/' (x ∷ n))
]

-- No archive copy of the index lies under the key of the bundle.
pub archive_index-ne :
    (c : Client) (snap : Text)
    → text_eq (key c (text "manifest.json.gz")) (snap ++ (b'/' ∷ text "index.json")) ≡ false
unfolding text last
archive_index-ne c snap = text_eq-false _ _ (λ e. ground (
  arith,
  ap (last 0) e,
  last-key 0 c b'm' (text "anifest.json.gz"),
  last-append 0 snap b'/' (text "index.json"),
))

-- No archive copy of the bundle lies under the key of the index.
pub archive_bundle-ne :
    (c : Client) (snap : Text)
    → text_eq (key c (text "index.json")) (snap ++ (b'/' ∷ text "manifest.json.gz")) ≡ false
unfolding text last
archive_bundle-ne c snap = text_eq-false _ _ (λ e. ground (
  arith,
  ap (last 0) e,
  last-key 0 c b'i' (text "ndex.json"),
  last-append 0 snap b'/' (text "manifest.json.gz"),
))

-- A client is one for the bucket of the settings.
pub new-bucket :
    (o : Outside) (cfg : Config) (c : Client) → new o cfg ≡ ok c → c.bucket ≡ cfg.r2_bucket
unfolding new client_of
new-bucket o cfg c e = ground arith
