-- ===== src/Repair/Plan/Complete.antt =====
-- What the transaction leaves in the target: nothing is missing any more, and nothing is gone.
use vps_sync_gsbs.Base.{
  Bool, true, false, ◌≡◌, refl, subst, ap, ◌∙◌, inl, inr, List, [], ◌∷◌, All, arith, Bool-cases,
  if◌then◌else◌,
}
use vps_sync_gsbs.Base.Int.{ℤ, ltb_ℤ}
use vps_sync_gsbs.Text.{Text}
use vps_sync_gsbs.Text.Strings.{has}
use vps_sync_gsbs.Exec.{Result, ok, err, panic}
use vps_sync_gsbs.Outside.{Outside, Entry}
use vps_sync_gsbs.Repair.Plan.{
  Object, order_rows, selected, lacking, ddl_of, names, missing, create_then, create_all, stamped,
  stamp_if_newer, transaction,
}

-- A row that was there is there.
abbrev pub Kept : List Entry → List Entry → Type 0
Kept ms ms' = (k : Text) → has k (names ms) ≡ true → has k (names ms') ≡ true

module _ (o : Outside) where
  -- A statement that succeeds has created its object, beside those that were there, and leaves the
  -- version alone.
  abbrev pub Creates : Object → Type 0
  Creates x =
      (t u : Text) (ms : List Entry)
      → o.exec_sql x.ddl t ≡ ok u
      → o.sqlite_master t ≡ ok ms
      → (ms' : List Entry) × (o.sqlite_master u ≡ ok ms')
        × Kept ms ms'
        × (has x.name (names ms') ≡ true)
        × (o.user_version u ≡ o.user_version t)

  -- What the code relies on in SQLite: the statements of the pristine schema create their objects,
  -- and a stamp sets the version and nothing else.
  pub record IsEngine (pristine : List Entry) : Type 0 where
    pub creates : All Creates (missing pristine [])
    pub stamps :
        (v : ℤ) (t u : Text)
        → o.stamp_version v t ≡ ok u
        → (o.sqlite_master u ≡ o.sqlite_master t) × (o.user_version u ≡ ok v)

  pub record Filled (xs : List Object) (ms : List Entry) (t u : Text) : Type 0 where
    pub rows : List Entry
    pub read : o.sqlite_master u ≡ ok rows
    pub kept : Kept ms rows
    pub there : All (λ x. has x.name (names rows) ≡ true) xs
    pub version : o.user_version u ≡ o.user_version t

  create_all-Filled :
      (xs : List Object) (ms : List Entry) (t u : Text)
      → All Creates xs
      → o.sqlite_master t ≡ ok ms
      → create_all o xs t ≡ ok u
      → Filled xs ms t u
  unfolding create_all create_then
  create_all-Filled [] ms t u c m e = record {
    rows = ms;
    read = ap (λ v. o.sqlite_master v) (same e) ∙ m;
    kept = λ k h. h;
    there = tt;
    version = ap (λ v. o.user_version v) (same e);
  }
    where
      same : ◌≡◌ {A = Result Text} (ok t) (ok u) → u ≡ t
      same h = ground (arith, h)
  create_all-Filled (x ∷ xs) ms t u (c, cs) m e =
      go (o.exec_sql x.ddl t) refl e (λ v rows. create_all-Filled xs rows v u cs)
    where
      go :
          (r : Result Text)
          → o.exec_sql x.ddl t ≡ r
          → create_then o x.name r (λ v. create_all o xs v) ≡ ok u
          → ((v : Text) (rows : List Entry)
              → o.sqlite_master v ≡ ok rows
              → create_all o xs v ≡ ok u
              → Filled xs rows v u)
          → Filled (x ∷ xs) ms t u
      go (ok v) made rest others =
          let (rows, read, kept, there, version) = c t v ms made m in
          let f = others v rows read rest in
          record {
            rows = f.rows;
            read = f.read;
            kept = λ k h. f.kept k (kept k h);
            there = (f.kept x.name there, f.there);
            version = f.version ∙ version;
          }
      go (err y) made rest others = absurd (ground (arith, rest))
      go (panic y) made rest others = absurd (ground (arith, rest))

module _ {A : Type 0} (P : A → Type 0) (y : A) (xs : List A) where
  All-then : (b : Bool) → b ≡ true → All P (if b then xs else y ∷ xs) → All P xs
  All-then true e h = h
  All-then false e h = absurd (ground (arith, e))

  All-else : (b : Bool) → b ≡ false → All P (if b then xs else y ∷ xs) → P y × All P xs
  All-else true e h = absurd (ground (arith, e))
  All-else false e h = h

-- Objects that are there are not missing.
lacking-none :
    (n n' : List Text) (es : List Entry)
    → ((k : Text) → has k n ≡ true → has k n' ≡ true)
    → All (λ x. has x.name n' ≡ true) (lacking n es)
    → lacking n' es ≡ []
unfolding lacking
lacking-none n n' [] keep h = refl
lacking-none n n' (e ∷ es) keep h = elim (Bool-cases (has e.name n)) [
  | inl old ↦ rw (keep e.name old) (lacking-none n n' es keep (All-then _ _ _ (has e.name n) old h))
  | inr new ↦
      let (there, others) = All-else _ _ _ (has e.name n) new h in
      rw there (lacking-none n n' es keep others)
]

-- What is missing where something is, is missing where nothing is.
lacking-All :
    (P : Object → Type 0) (n : List Text) (es : List Entry)
    → All P (lacking [] es)
    → All P (lacking n es)
unfolding lacking has
lacking-All P n [] h = tt
lacking-All P n (e ∷ es) (h, hs) = go (has e.name n) (lacking-All P n es hs)
  where
    go :
        (b : Bool)
        → All P (lacking n es)
        → All P (
            if b then lacking n es else record { name = e.name; ddl = ddl_of e.sql } ∷ lacking n es)
    go true k = k
    go false k = (h, k)

-- The newer of two versions.
abbrev pub newer_version : ℤ → ℤ → ℤ
newer_version pristine target = if ltb_ℤ target pristine then pristine else target

-- What is left where the transaction is committed: every row that was there is there, nothing of the
-- pristine schema is missing, and the version is the newer one.
pub record Repaired (o : Outside) (pristine ms : List Entry) (v v' : ℤ) (u : Text) : Type 0 where
  pub rows : List Entry
  pub read : o.sqlite_master u ≡ ok rows
  pub kept : Kept ms rows
  pub nothing_missing : missing pristine rows ≡ []
  pub version : o.user_version u ≡ ok (newer_version v v')

module _ (o : Outside) (pristine ms : List Entry) (v v' : ℤ) (t : Text)
    (engine : IsEngine o pristine) (read : o.sqlite_master t ≡ ok ms)
    (version : o.user_version t ≡ ok v') where
  stamp_lem :
      (u u' : Text)
      → o.user_version u ≡ ok v'
      → stamp_if_newer o v v' u ≡ ok u'
      → (o.sqlite_master u' ≡ o.sqlite_master u) × (o.user_version u' ≡ ok (newer_version v v'))
  unfolding stamp_if_newer stamped
  stamp_lem u u' old e = go (ltb_ℤ v' v) e
    where
      set :
          (r : Result Text)
          → o.stamp_version v u ≡ r
          → stamped o r ≡ ok u'
          → (o.sqlite_master u' ≡ o.sqlite_master u) × (o.user_version u' ≡ ok v)
      set (ok x) made h = engine.stamps v u u' (made ∙ h)
      set (err y) made h = absurd (ground (arith, h))
      set (panic y) made h = absurd (ground (arith, h))

      go :
          (b : Bool)
          → (if b then stamped o (o.stamp_version v u) else ok u) ≡ ok u'
          → (o.sqlite_master u' ≡ o.sqlite_master u)
            × (o.user_version u' ≡ ok (if b then v else v'))
      go true h = set (o.stamp_version v u) refl h
      go false h =
          subst (λ x. (o.sqlite_master x ≡ o.sqlite_master u) × (o.user_version x ≡ ok v'))
            (unwrap h) (refl, old)
        where
          unwrap : ◌≡◌ {A = Result Text} (ok u) (ok u') → u ≡ u'
          unwrap k = ground (arith, k)

  pub transaction-Repaired :
      (u' : Text)
      → transaction o (missing pristine ms) v v' t ≡ ok u'
      → Repaired o pristine ms v v' u'
  unfolding transaction missing
  transaction-Repaired u' e = go (create_all o (missing pristine ms) t) refl e
    where
      go :
          (r : Result Text)
          → create_all o (missing pristine ms) t ≡ r
          → (elim r [ ok u ↦ stamp_if_newer o v v' u | err e ↦ err e | panic x ↦ panic x ]) ≡ ok u'
          → Repaired o pristine ms v v' u'
      go (ok u) made h =
          let f =
            create_all-Filled o (missing pristine ms) ms t u
              (lacking-All (Creates o) (names ms) (order_rows (selected pristine)) engine.creates)
              read made in
          let (same, stamp) = stamp_lem u u' (f.version ∙ version) h in
          record {
            rows = f.rows;
            read = same ∙ f.read;
            kept = f.kept;
            nothing_missing = lacking-none (names ms) (names f.rows) _ f.kept f.there;
            version = stamp;
          }
      go (err y) made h = absurd (ground (arith, h))
      go (panic y) made h = absurd (ground (arith, h))
