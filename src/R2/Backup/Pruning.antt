-- ===== src/R2/Backup/Pruning.antt =====
-- What the pruning of the backups leaves in the object store.
use vps_sync_gsbs.Base.{
  ℕ, zero, suc, ◌-◌, ◌≤◌, ◌<◌, true, false, ◌&&◌, inl, inr, Option, none, some, List, [], ◌∷◌, ◌++◌,
  ◌≡◌, refl, sym, ap, ◌∙◌, append_assoc, append-nil, arith, length, take, leb, Bool-cases,
  Option-cases, &&-eq-true, subst, if◌then◌else◌,
}
use vps_sync_gsbs.Base.Int.{ℤ, pos, pos_part, ◌-ℤ◌, leb_ℤ}
use vps_sync_gsbs.Text.{Text, text, text_eq, text_eq_iff}
use vps_sync_gsbs.Text.Strings.{has}
use vps_sync_gsbs.Text.Sort.{sort, length-sort}
use vps_sync_gsbs.Text.Sort.Newest.{newer, Distinct, has-cut_off}
use vps_sync_gsbs.Exec.{Error, Result, ok, err, panic, pure, lift, bind_of_ok, ◌>>=◌}
use vps_sync_gsbs.Outside.{Outside, Page}
use vps_sync_gsbs.Outside.Laws.{IsStore, Lists, page_keys}
use vps_sync_gsbs.World.{World, request}
use vps_sync_gsbs.R2.{Client, acknowledged}
use vps_sync_gsbs.R2.Backup.{
  backup_prefix, append_page, collect, first_keys, backup_keys, delete_oldest, prune_db_backups,
}

pub append_page-page_keys :
    (keys : List Text) (page : Page) → append_page keys page ≡ keys ++ page_keys page
unfolding append_page
append_page-page_keys keys [] = sym (append-nil keys)
append_page-page_keys keys (none ∷ page) = append_page-page_keys keys page
append_page-page_keys keys (some k ∷ page) =
    append_page-page_keys (keys ++ k ∷ []) page ∙ append_assoc keys (k ∷ []) (page_keys page)

-- A listing that comes without an error is collected whole.
pub collect-Lists :
    (context : Text) (pages : List (Result Page)) (keys ks : List Text)
    → Lists pages ks
    → collect context pages keys ≡ ok (keys ++ ks)
unfolding collect
collect-Lists context [] keys ks h = rw (h, append-nil) refl
collect-Lists context (ok page ∷ pages) keys ks (rest, e, h) =
    rw (append_page-page_keys keys page, e)
      (collect-Lists context pages (keys ++ page_keys page) rest h
        ∙ ap ok (append_assoc keys _ rest))
collect-Lists context (err e ∷ pages) keys ks h = absurd h
collect-Lists context (panic t ∷ pages) keys ks h = absurd h

first_keys-take :
    (n : ℕ) (keys objs : List Text)
    → n ≤ length keys
    → first_keys n keys objs ≡ ok (objs ++ take n keys)
unfolding first_keys
first_keys-take zero keys objs h = rw append-nil refl
first_keys-take (suc n) [] objs h = absurd (omega arith)
first_keys-take (suc n) (k ∷ keys) objs h =
    first_keys-take n keys (objs ++ k ∷ []) (omega arith)
    ∙ ap ok (append_assoc objs (k ∷ []) (take n keys))

leb_ℤ-pos : (a n : ℕ) → leb_ℤ (pos a) (pos n) ≡ leb a n
leb_ℤ-pos a n = ground arith

sub_pos : (a n : ℕ) → pos_part (pos a -ℤ pos n) ≡ a - n
unfolding ◌-ℤ◌
sub_pos a n = ground arith

answered :
    {o : Outside} (answer : Option Error) (n : ℕ) (w : World o)
    → (acknowledged {o = o} answer >>= λ _. pure n) w
      ≡ (elim answer [ none ↦ ok n | some e ↦ err e ], w)
unfolding ◌>>=◌
answered none n w = refl
answered (some e) n w = refl

module _ {o : Outside} (c : Client) (w : World o) where
  backup_keys-Lists :
      (ks : List Text)
      → Lists (o.list_objects c.bucket backup_prefix w.remote) ks
      → backup_keys c w ≡ (ok ks, w)
  unfolding backup_keys ◌>>=◌
  backup_keys-Lists ks h =
      rw
        (collect-Lists (text "list db backups") (o.list_objects c.bucket backup_prefix w.remote) []
          ks h)
        refl

  -- Behind a listing that comes without an error the pruning is that of the sorted keys.
  prune_db_backups-Lists :
      (keep : ℤ) (ks : List Text)
      → Lists (o.list_objects c.bucket backup_prefix w.remote) ks
      → prune_db_backups c keep w ≡ delete_oldest c (sort ks) keep w
  unfolding prune_db_backups
  prune_db_backups-Lists keep ks h =
      bind_of_ok (backup_keys c) (λ listed. delete_oldest c (sort listed) keep) w
        (backup_keys-Lists ks h)

  -- With at most `n` keys nothing is done.
  delete_oldest_few :
      (n : ℕ) (keys : List Text) → length keys ≤ n → delete_oldest c keys (pos n) w ≡ (ok 0, w)
  unfolding delete_oldest pure
  delete_oldest_few n keys h =
      let few : leb_ℤ (pos (length keys)) (pos n) ≡ true = ground arith in rw few refl

  -- With more keys one request deletes all but the last `n`, and its answer decides.
  delete_oldest_many :
      (n d : ℕ) (keys : List Text)
      → n < length keys
      → length keys - n ≡ d
      → let asked = o.delete_objects c.bucket (take d keys) w.remote in
        let w' : World o = record w { remote = asked.1; history = asked.1 ∷ w.history } in
        delete_oldest c keys (pos n) w ≡ (elim asked.0 [ none ↦ ok d | some e ↦ err e ], w')
  unfolding delete_oldest lift request
  delete_oldest_many n d keys h e =
      let many : leb_ℤ (pos (length keys)) (pos n) ≡ false = ground arith in
      let all_there =
        ap (λ (r : Result (List Text)). (r, w)) (first_keys-take d keys [] (omega arith)) in
      rw (many, sub_pos (length keys) n ∙ e)
        (bind_of_ok (lift (first_keys d keys [])) _ w all_there
          ∙ bind_of_ok (request (o.delete_objects c.bucket (take d keys))) _ w refl
          ∙ answered (o.delete_objects c.bucket (take d keys) w.remote).0 d _)

module _ {o : Outside} (S : IsStore o) (c : Client) (n : ℕ) (w : World o) (ks : List Text) where
  -- What the objects are once the oldest keys are deleted.
  abbrev Pruned : World o → Type 0
  Pruned w' =
      (b k : Text)
      → S.object w'.remote b k ≡ (
          if text_eq b c.bucket && (has k ks && leb n (newer k ks))
          then none
          else S.object w.remote b k)

  deleted_lem :
      Distinct ks
      → let oldest = take (length ks - n) (sort ks) in
        (o.delete_objects c.bucket oldest w.remote).0 ≡ none
        → (b k : Text)
        → S.object (o.delete_objects c.bucket oldest w.remote).1 b k ≡ (
            if text_eq b c.bucket && (has k ks && leb n (newer k ks))
            then none
            else S.object w.remote b k)
  deleted_lem distinct done b k =
      let oldest = take (length ks - n) (sort ks) in
      rw (← has-cut_off n k ks distinct) (elim (Bool-cases (text_eq b c.bucket && has k oldest)) [
        | inl gone ↦
            let (same, there) = &&-eq-true (text_eq b c.bucket) (has k oldest) gone in
            rw gone (
              subst (λ j. S.object (o.delete_objects c.bucket oldest w.remote).1 j k ≡ none)
                (sym ((text_eq_iff b c.bucket).0 same))
                (S.deletes_done c.bucket oldest w.remote k done there))
        | inr kept ↦ rw kept (S.deletes_other c.bucket oldest w.remote b k kept)
      ])

  nothing_deleted : Distinct ks → length ks ≤ n → Pruned w
  nothing_deleted distinct few b k =
      let e : length ks - n ≡ 0 = omega arith in
      let none_old : (has k ks && leb n (newer k ks)) ≡ false =
        sym (has-cut_off n k ks distinct)
        ∙ ap (λ (d : ℕ). has k (take d (sort ks))) e
        ∙ unfold has in refl in
      ground (arith, none_old)

  -- From the outcome of the deletion to the claim.
  pruned_few :
      Distinct ks
      → length ks ≤ n
      → (p : Result ℕ × World o) (m : ℕ) → ◌≡◌ {A = Result ℕ × World o} p (ok 0, w)
      → p.0 ≡ ok m
      → (m ≡ length ks - n) × Pruned p.1
  pruned_few distinct few p m e returned = (
    ground (arith, ap (λ (q : Result ℕ × World o). q.0) e),
    subst Pruned (sym (ap (λ (q : Result ℕ × World o). q.1) e)) (nothing_deleted distinct few),
  )

  pruned_many :
      Distinct ks
      → (p : Result ℕ × World o) (m : ℕ)
      → let asked = o.delete_objects c.bucket (take (length ks - n) (sort ks)) w.remote in
        ◌≡◌ {A = Result ℕ × World o} p (
          elim asked.0 [ none ↦ ok (length ks - n) | some e ↦ err e ],
          record w { remote = asked.1; history = asked.1 ∷ w.history },
        )
        → p.0 ≡ ok m
        → (m ≡ length ks - n) × Pruned p.1
  pruned_many distinct p m e returned =
      let asked = o.delete_objects c.bucket (take (length ks - n) (sort ks)) w.remote in
      let answer = sym (ap (λ (q : Result ℕ × World o). q.0) e) ∙ returned in
      elim (Option-cases asked.0) [
        | inl done ↦ (
          ground (arith, answer, done),
          subst Pruned (sym (ap (λ (q : Result ℕ × World o). q.1) e)) (deleted_lem distinct done),
        )
        | inr (x, failed) ↦ absurd (ground (arith, answer, failed))
      ]

-- A pruning that keeps `n` and returns leaves the `n` newest backups and deletes the older ones: an
-- object is gone exactly if its key is one of the listed backups of the client's bucket and at least
-- `n` listed keys are greater. All else stays. The count returned is the number of those deleted. The
-- listing comes without an error and names no key twice.
pub prune_db_backups-newest :
    (o : Outside) (S : IsStore o) (c : Client) (n : ℕ) (w : World o) (ks : List Text) (m : ℕ)
    → Lists (o.list_objects c.bucket backup_prefix w.remote) ks
    → Distinct ks
    → (prune_db_backups c (pos n) w).0 ≡ ok m
    → (m ≡ length ks - n)
      × ((b k : Text)
          → S.object (prune_db_backups c (pos n) w).1.remote b k ≡ (
              if text_eq b c.bucket && (has k ks && leb n (newer k ks))
              then none
              else S.object w.remote b k))
prune_db_backups-newest o S c n w ks m listed distinct returned =
    elim (Bool-cases (leb (length ks) n)) [
      | inl few ↦
          let le : length ks ≤ n = ground arith in
          pruned_few S c n w ks distinct le _ m
            (prune_db_backups-Lists c w (pos n) ks listed
              ∙ delete_oldest_few c w n (sort ks) (rw length-sort le))
            returned
      | inr many ↦
          let lt : n < length ks = ground arith in
          pruned_many S c n w ks distinct _ m
            (prune_db_backups-Lists c w (pos n) ks listed
              ∙ delete_oldest_many c w n (length ks - n) (sort ks) (rw length-sort lt)
                  (rw (length-sort ks) refl))
            returned
    ]
