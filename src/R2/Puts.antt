-- ===== src/R2/Puts.antt =====
-- What a put does, for any statement about the files and the object store.
use vps_sync_gsbs.Base.{
  false, ◌⊎◌, inl, inr, List, ◌∷◌, ◌≡◌, refl, sym, ap, subst, ◌∙◌, Option, none, some, arith,
  Bool-cases,
}
use vps_sync_gsbs.Text.{Text, text_eq, text_eq_iff, text_eq_refl}
use vps_sync_gsbs.Exec.{Error}
use vps_sync_gsbs.Exec.Triple.{Triple, Triple-bind, Triple-pure, Triple-fail, Triple-weaken}
use vps_sync_gsbs.Outside.{Outside, Put}
use vps_sync_gsbs.Outside.Laws.{IsStore, same}
use vps_sync_gsbs.World.{Files}
use vps_sync_gsbs.World.Laws.{Of, read_file_lem, request_lem}
use vps_sync_gsbs.R2.{Client, acknowledged, put_file}

pub same_of_key : (b k k' : Text) → text_eq k k' ≡ false → same b k b k' ≡ false
same_of_key b k k' h = ground (arith, text_eq_refl b)

-- A put, whatever its answer, leaves what stands under another key, and what it writes itself.
pub put_kept :
    {o : Outside} (S : IsStore o) (p : Put) (r : o.Remote) (j v : Text)
    → S.object r p.bucket j ≡ some v
    → (text_eq j p.key ≡ false) ⊎ (p.body ≡ v)
    → S.object (o.put_object p r).1 p.bucket j ≡ some v
put_kept {o} S p r j v there (inl ne) =
    S.put_other p r p.bucket j (same_of_key p.bucket j p.key ne) ∙ there
put_kept {o} S p r j v there (inr wrote) = elim (Bool-cases (text_eq j p.key)) [
  | inl e ↦
      let same_key = (text_eq_iff j p.key).0 e in
      subst (λ k. S.object (o.put_object p r).1 p.bucket k ≡ some v) (sym same_key)
        (elim (S.put_failed p r) [
          | inl kept ↦ kept ∙ subst (λ k. S.object r p.bucket k ≡ some v) same_key there
          | inr new ↦ new ∙ ap some wrote
        ])
  | inr ne ↦ S.put_other p r p.bucket j (same_of_key p.bucket j p.key ne) ∙ there
]

module _ (o : Outside) (P Q E : Files → o.Remote → List o.Remote → Type 0) where
  pub acknowledged_lem :
      (answer : Option Error)
      → Triple
          (λ w.
            (answer ≡ none → Q w.files w.remote w.history)
            × ((e : Error) → answer ≡ some e → E w.files w.remote w.history))
          (acknowledged {o = o} answer)
          (λ _. Of o Q)
          (λ _. Of o E)
  acknowledged_lem none = Triple-pure tt (λ w h. h.0 refl)
  acknowledged_lem (some e) = Triple-fail e (λ w h. h.1 e refl)

  pub put_file_lem :
      (c : Client) (path k ct cache : Text)
      → ((f : Files) (r : o.Remote) (h : List o.Remote) (t : Text)
          → P f r h
          → f path ≡ some t
          → let p : Put = record {
            bucket = c.bucket;
            key = k;
            body = t;
            content_type = ct;
            cache_control = cache;
          } in
            ((o.put_object p r).0 ≡ none → Q f (o.put_object p r).1 ((o.put_object p r).1 ∷ h))
            × ((e : Error)
                → (o.put_object p r).0 ≡ some e
                → E f (o.put_object p r).1 ((o.put_object p r).1 ∷ h)))
      → ((f : Files) (r : o.Remote) (h : List o.Remote) → P f r h → E f r h)
      → Triple (Of o P) (put_file c path k ct cache) (λ _. Of o Q) (λ _. Of o E)
  unfolding put_file
  put_file_lem c path k ct cache put unread =
      Triple-bind _ _
        (Triple-weaken _ (λ w h. h) (λ t w h. h) (λ kind w h. unread _ _ _ h.0)
          (read_file_lem o P path))
        λ t.
          Triple-bind _ _
            (Triple-weaken _ (λ w h. h) (λ a w h. h) (λ kind w h. absurd h)
              (request_lem o (λ f r h. P f r h × (f path ≡ some t)) _
                (λ w h. put w.files w.remote w.history t h.0 h.1)))
            acknowledged_lem
