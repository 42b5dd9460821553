-- ===== src/R2/Backup/Uploading.antt =====
-- A backup that is uploaded.
use vps_sync_gsbs.Base.{
  ℕ, false, ◌≡◌, refl, ◌∙◌, sym, ap, ◌⊎◌, inl, inr, Option, none, some, List, [], ◌++◌, length,
}
use vps_sync_gsbs.Text.{longer, Text, text, text_eq, text_eq-false}
use vps_sync_gsbs.Text.Stamp.{Moment}
use vps_sync_gsbs.Exec.{Error, pure, attempt, wrap, ◌>>=◌, ◌>>◌}
use vps_sync_gsbs.Exec.Triple.{
  Triple, Triple-bind, Triple-pure, Triple-fail, Triple-attempt, Triple-wrap, Triple-weaken,
  Triple-deferred, Triple-fact, Keeps-state, Either, Post,
}
use vps_sync_gsbs.Outside.{Outside, Put}
use vps_sync_gsbs.Outside.Laws.{IsStore}
use vps_sync_gsbs.World.{
  Files, update, World, read_file, write_file, remove, close, stat, now, request,
}
use vps_sync_gsbs.World.Laws.{
  Of, update_self, update_ne, read_file_lem, stat_lem, now_lem, request_lem,
}
use vps_sync_gsbs.World.Writes.{Fact, write_file_lem, remove_lem, close_lem}
use vps_sync_gsbs.R2.{Client, acknowledged}
use vps_sync_gsbs.R2.Puts.{acknowledged_lem}
use vps_sync_gsbs.R2.Backup.{backup_key, discard, give_up_on, gzip_file, upload_db_backup}

gz-ne : (snap : Text) → text_eq snap (snap ++ text ".gz") ≡ false
unfolding text
gz-ne snap = text_eq-false snap _ (longer snap _ _)

abbrev text_or : Text → Option Text → Text
text_or d none = d
text_or d (some t) = t

module _ (o : Outside) (snap : Text) (fs : Files) where
  -- All files but the compressed one are as they were.
  abbrev pub Aside : Fact o
  Aside f r h = (q : Text) → text_eq q (snap ++ text ".gz") ≡ false → f q ≡ fs q

  abbrev Compressed : Fact o
  Compressed f r h =
      Aside f r h × ((t : Text) × (fs snap ≡ some t) × (f (snap ++ text ".gz") ≡ some (o.gzip t)))

  Aside-update :
      (f : Files) (r : o.Remote) (h : List o.Remote) (v : Option Text)
      → Aside f r h
      → Aside (update f (snap ++ text ".gz") v) r h
  Aside-update f r h v a q ne = update_ne f (snap ++ text ".gz") v q ne ∙ a q ne

  give_up_lem :
      (e : Error)
      → Triple
          (Of o Aside)
          (give_up_on (snap ++ text ".gz") e)
          (λ _. Of o Compressed)
          (λ _. Of o Aside)
  unfolding give_up_on
  give_up_lem e =
      Triple-bind _ _
        (Triple-weaken _ (λ w h. h) settle (λ k w h. h)
          (Triple-attempt _ (
            remove_lem o Aside Aside Aside (snap ++ text ".gz")
              (λ f r h a. Aside-update f r h none a) (λ f r h a. a))))
        (λ _. Triple-fail e (λ w h. h))
    where
      settle :
          (x : (Unit {0}) ⊎ Error) (w : World o)
          → Either (λ _. Of o Aside) (λ _. Of o Aside) x w
          → Of o Aside w
      settle (inl a) w h = h
      settle (inr e) w h = h

  write_lem :
      (t : Text)
      → fs snap ≡ some t
      → Triple
          (Of o Aside)
          (write_file (snap ++ text ".gz") (o.gzip t))
          (λ _. Of o Compressed)
          (λ _. Of o Aside)
  write_lem t there =
      write_file_lem o Aside Compressed Aside (snap ++ text ".gz") (o.gzip t)
        (λ f r h a. (Aside-update f r h _ a, (t, there, update_self f (snap ++ text ".gz") _)))
        (λ f r h u a. Aside-update f r h _ a) (λ f r h a. a)

  -- Behind the copy: a flush or a close that fails leaves the other files as they were.
  finish_lem :
      (copied : (Unit {0}) ⊎ Error)
      → Triple
          (λ w. Either (λ _. Of o Compressed) (λ _. Of o Aside) copied w)
          (elim copied [
            | inr e ↦ give_up_on (snap ++ text ".gz") e
            | inl _ ↦ do
              flushed ← attempt (close (snap ++ text ".gz"))
              elim flushed [
                | inr e ↦ give_up_on (snap ++ text ".gz") e
                | inl _ ↦ close (snap ++ text ".gz")
              ]
          ])
          (λ _. Of o Compressed)
          (λ _. Of o Aside)
  finish_lem (inr e) = give_up_lem e
  finish_lem (inl u) =
      Triple-bind _ _
        (Triple-weaken _ (λ w h. h) settle (λ k w h. h.0)
          (Triple-attempt _ (close_lem o Compressed (snap ++ text ".gz"))))
        flushed_lem
    where
      settle :
          (x : (Unit {0}) ⊎ Error) (w : World o)
          → Either (λ _. Of o Compressed) (λ _. Of o Compressed) x w
          → Of o Compressed w
      settle (inl a) w h = h
      settle (inr e) w h = h

      flushed_lem :
          (flushed : (Unit {0}) ⊎ Error)
          → Triple
              (Of o Compressed)
              (elim flushed [
                | inr e ↦ give_up_on (snap ++ text ".gz") e
                | inl _ ↦ close (snap ++ text ".gz")
              ])
              (λ _. Of o Compressed)
              (λ _. Of o Aside)
      flushed_lem (inr e) = Triple-weaken _ (λ w h. h.0) (λ a w h. h) (λ k w h. h) (give_up_lem e)
      flushed_lem (inl u) =
          Triple-weaken _ (λ w h. h) (λ a w h. h) (λ k w h. h.0)
            (close_lem o Compressed (snap ++ text ".gz"))

  gzip_file_lem :
      Triple
        (Of o Aside)
        (gzip_file snap (snap ++ text ".gz"))
        (λ _. Of o Compressed)
        (λ _. Of o Aside)
  unfolding gzip_file
  gzip_file_lem =
      Triple-bind _ _
        (Triple-weaken _ (λ w h. h) (λ t w h. (h.0, sym (h.0 snap (gz-ne snap)) ∙ h.1))
          (λ k w h. h.0) (read_file_lem o Aside snap))
        (λ t. Triple-fact _ (λ there.
          Triple-bind _ _
            (write_file_lem o Aside Aside Aside (snap ++ text ".gz") []
              (λ f r h a. Aside-update f r h _ a) (λ f r h u a. Aside-update f r h _ a)
              (λ f r h a. a))
            (λ _. Triple-bind _ _ (Triple-attempt _ (write_lem t there)) finish_lem)))

module _ (o : Outside) (S : IsStore o) (c : Client) (snap : Text) (fs : Files) where
  -- The backup of the file lies in the store.
  abbrev pub Stored : Text × ℕ → Fact o
  Stored res f r h =
      Aside o snap fs f r h
      × ((t : Text) × (at : Moment) × (fs snap ≡ some t)
          × (res.0 ≡ backup_key at)
          × (res.1 ≡ length (o.gzip t))
          × (S.object r c.bucket res.0 ≡ some (o.gzip t)))

  read_back_lem :
      Triple
        (Of o (Compressed o snap fs))
        (read_file (snap ++ text ".gz"))
        (λ body. Of o (λ f r h.
          Aside o snap fs f r h
          × (f (snap ++ text ".gz") ≡ some body)
          × ((t : Text) × (fs snap ≡ some t) × (body ≡ o.gzip t))))
        (λ _. Of o (Aside o snap fs))
  read_back_lem =
      Triple-weaken _ (λ w h. h)
        (λ body w h.
          let (aside, (t, there, packed)) = h.0 in
          (aside, h.1, (t, there, ap (text_or []) (sym h.1 ∙ packed))))
        (λ k w h. h.0.0) (read_file_lem o (Compressed o snap fs) (snap ++ text ".gz"))

  size_lem :
      (body : Text)
      → Triple
          (Of o (λ f r h.
            Aside o snap fs f r h
            × (f (snap ++ text ".gz") ≡ some body)
            × ((t : Text) × (fs snap ≡ some t) × (body ≡ o.gzip t))))
          (stat (snap ++ text ".gz"))
          (λ size w.
            Of o (Aside o snap fs) w
            × ((size ≡ length body) × ((t : Text) × (fs snap ≡ some t) × (body ≡ o.gzip t))))
          (λ _. Of o (Aside o snap fs))
  size_lem body =
      Triple-weaken _ (λ w h. h)
        (λ size w h.
          let (pre, found, there, measured) = h in
          let (aside, packed, source) = pre in
          (aside, (measured ∙ ap length (ap (text_or []) (sym there ∙ packed)), source)))
        (λ k w h. h.0.0) (stat_lem o _ (snap ++ text ".gz"))

  put_lem :
      (k body : Text)
      → Triple
          (Of o (Aside o snap fs))
          (do
            answer ← request (
                o.put_object (record {
                  bucket = c.bucket;
                  key = k;
                  body = body;
                  content_type = text "application/gzip";
                  cache_control = text "private, max-age=0";
                }))
            acknowledged answer)
          (λ _. Of o (λ f r h. Aside o snap fs f r h × (S.object r c.bucket k ≡ some body)))
          (λ _. Of o (Aside o snap fs))
  put_lem k body =
      let p : Put = record {
        bucket = c.bucket;
        key = k;
        body = body;
        content_type = text "application/gzip";
        cache_control = text "private, max-age=0";
      } in
      Triple-bind _ _
        (Triple-weaken _ (λ w h. h) (λ a w h. h) (λ kind w h. absurd h)
          (request_lem o (Aside o snap fs) (o.put_object p)
            (λ w h. (λ done. (h, S.put_done p w.remote done), λ e failed. h))))
        (λ answer.
          acknowledged_lem o (Aside o snap fs)
            (λ f r h. Aside o snap fs f r h × (S.object r c.bucket k ≡ some body)) (Aside o snap fs)
            answer)

  send_lem :
      (body : Text) (size : ℕ)
      → (size ≡ length body)
      → ((t : Text) × (fs snap ≡ some t) × (body ≡ o.gzip t))
      → Triple
          (Of o (Aside o snap fs))
          (do
            t ← now
            let k = backup_key t
            wrap (text "upload " ++ k) (do
              answer ← request (
                  o.put_object (record {
                    bucket = c.bucket;
                    key = k;
                    body = body;
                    content_type = text "application/gzip";
                    cache_control = text "private, max-age=0";
                  }))
              acknowledged answer)
            pure (k, size))
          (λ res. Of o (Stored res))
          (λ _. Of o (Aside o snap fs))
  send_lem body size sized (t, there, packed) = Triple-bind _ _ (now_lem o (Aside o snap fs)) (λ at.
      Triple-bind _ _
        (Triple-wrap (text "upload " ++ backup_key at) _ (put_lem (backup_key at) body))
        (λ _.
          Triple-pure (backup_key at, size)
            (λ w h. (h.0, (t, at, there, refl, sized ∙ ap length packed, h.1 ∙ ap some packed)))))

  discard-Aside :
      (w : World o)
      → Of o (Aside o snap fs) w
      → Of o (Aside o snap fs) (discard (snap ++ text ".gz") w)
  discard-Aside = Keeps-state (Of o (Aside o snap fs)) (remove (snap ++ text ".gz")) (
      remove_lem o _ _ _ (snap ++ text ".gz") (λ f r h a. Aside-update o snap fs f r h none a)
        (λ f r h a. a))

  discard-Stored :
      (res : Text × ℕ) (w : World o)
      → Of o (Stored res) w
      → Of o (Stored res) (discard (snap ++ text ".gz") w)
  discard-Stored res = Keeps-state (Of o (Stored res)) (remove (snap ++ text ".gz")) (
      remove_lem o (Stored res) (Stored res) (Stored res) (snap ++ text ".gz")
        (λ f r h a. (Aside-update o snap fs f r h none a.0, a.1)) (λ f r h a. a))

  pub upload_lem :
      Triple
        (Of o (Aside o snap fs))
        (upload_db_backup c snap)
        (λ res. Of o (Stored res))
        (λ _. Of o (Aside o snap fs))
  unfolding upload_db_backup
  upload_lem =
      Triple-bind _ _ (Triple-wrap (text "compress snapshot") _ (gzip_file_lem o snap fs)) (λ _.
        Triple-deferred (discard (snap ++ text ".gz")) _ discard-Stored (λ k. discard-Aside)
          (Triple-bind _ _ read_back_lem (λ body.
            Triple-bind _ _ (size_lem body)
              (λ size. Triple-fact _ (λ facts. send_lem body size facts.0 facts.1)))))

-- An upload of a backup that returns has stored the compressed contents of the given file, whole,
-- under the key of a moment, in the client's bucket, and returns that key and the compressed size.
-- However it ends, every file but the temporary one beside the given file is as it was.
pub upload_db_backup-stored :
    (o : Outside) (S : IsStore o) (c : Client) (snap : Text) (w : World o)
    → Post
        (λ res w'. Stored o S c snap w.files res w'.files w'.remote w'.history)
        (λ kind w'. Aside o snap w.files w'.files w'.remote w'.history)
        (upload_db_backup c snap w).0
        (upload_db_backup c snap w).1
upload_db_backup-stored o S c snap w = (upload_lem o S c snap w.files).at w (λ q ne. refl)
