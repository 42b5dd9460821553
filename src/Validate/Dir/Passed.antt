-- ===== src/Validate/Dir/Passed.antt =====
-- What a directory holds that passes, in a run without faults.
use vps_sync_gsbs.Base.{
  true, false, not, ◌&&◌, ◌≡◌, refl, ◌∙◌, sym, ap, subst, ◌⊎◌, inl, inr, Option, none, some, List,
  [], ◌∷◌, ◌++◌, ◌==◌, length, arith, if◌then◌else◌,
}
use vps_sync_gsbs.Text.{Text, text, text_eq, is_empty}
use vps_sync_gsbs.Text.Strings.{contains}
use vps_sync_gsbs.FilePath
use vps_sync_gsbs.Json.{Fields, lookup}
use vps_sync_gsbs.Exec.{Error, Result, ok, err, panic, pure, lift, attempt, bind_of_ok}
use vps_sync_gsbs.Outside.{Outside, Index}
use vps_sync_gsbs.World.{World, read_file, is_not_exist, is_error}
use vps_sync_gsbs.World.Calm.{opened, measured, attempt-read_file, attempt-stat}
use vps_sync_gsbs.World.Reads.{
  Yields, Yields-bind, Yields-eq, Yields-pure, Yields-fail, Yields-if, Yields-weaken, Yields-step,
}
use vps_sync_gsbs.Validate.Bundle.{validate_bundle}
use vps_sync_gsbs.Validate.Bundle.Valid.{
  ok-empty, Bundled, validate_bundle-Bundled, validate_bundle-same,
}
use vps_sync_gsbs.Validate.Dir.{
  bundle_file, hash_or_none, as_string, equal_ints, mismatch, noted, file_sha256, url_error,
  index_error, validate_index, object_meta_error, raw_meta_error, validate_meta, index_errors,
  bundle_errors, verdict, pre_launch, validate,
}

-- An index that fits the bundle that lies beside it, if one does.
pub record Fits (o : Outside) (idx : Index) (beside : Option Text) : Type 0 where
  pub versions : equal_ints idx.full_version idx.manifest_version ≡ true
  pub checksum :
      (is_empty idx.full_sha256 ≡ true)
      ⊎ (mismatch idx.full_sha256
            (hash_or_none o (opened (text "open ") (text "manifest.json.gz") beside))
          ≡ false)
  pub url : contains idx.full_url bundle_file ≡ true

hash_of_file :
    (o : Outside) (p q : Text) (v : Option Text)
    → hash_or_none o (opened (text "open ") p v) ≡ hash_or_none o (opened (text "open ") q v)
hash_of_file o p q none = refl
hash_of_file o p q (some t) = refl

-- A message is not empty.
not_nil : {X : Type 0} → false ≡ true → X
not_nil e = absurd (ground (arith, e))

abbrev text_or : Text → Option Text → Text
text_or d none = d
text_or d (some t) = t

nothing_noted :
    (errs : List Text) (e : Text) → noted errs e ≡ [] → (errs ≡ []) × (is_empty e ≡ true)
nothing_noted errs [] h = (h, refl)
nothing_noted [] (c ∷ e) h = absurd (ground (arith, h))
nothing_noted (d ∷ errs) (c ∷ e) h = absurd (ground (arith, h))

measured-some :
    (p : Text) (v : Option Text) (b : Text) → v ≡ some b → is_error (measured p v) ≡ false
measured-some p none b h = absurd (ground (arith, h))
measured-some p (some t) b h = refl

measured-none : (p : Text) (v : Option Text) → is_not_exist (measured p v) ≡ true → v ≡ none
measured-none p none h = refl
measured-none p (some t) h = absurd (ground (arith, h))

module _ {o : Outside} (dir : Text) (w : World o) where
  abbrev pub beside : Option Text
  beside = w.files (FilePath.join dir bundle_file)

  abbrev Indexed : Text → Type 0
  Indexed t = (idx : Index) × (o.parse_index t ≡ ok idx) × Fits o idx beside

  abbrev OneIndexed : Option Text → Type 0
  OneIndexed v = (t : Text) → v ≡ some t → Indexed t

  -- What passes: nothing at all, or an index that can be read and a bundle that it fits.
  abbrev pub Passed : Type 0
  Passed =
      ((w.files (FilePath.join dir (text "index.json")) ≡ none) × (beside ≡ none))
      ⊎ ((t : Text) × (idx : Index) × (w.files (FilePath.join dir (text "index.json")) ≡ some t)
          × (o.parse_index t ≡ ok idx)
          × Fits o idx beside
          × ((b : Text) → beside ≡ some b → Bundled o b))

module _ {o : Outside} (dir : Text) (w : World o) (calm : w.faults ≡ []) where
  sha256-Yields :
      (p : Text)
      → Yields w (file_sha256 p) (λ got. got ≡ hash_or_none o (opened (text "open ") p (w.files p)))
  unfolding file_sha256 pure
  sha256-Yields p =
      Yields-eq w _ _
        (bind_of_ok (attempt (read_file p)) (λ raw. pure (hash_or_none o raw)) w
          (attempt-read_file p w calm))
        refl

  url-Yields :
      (idx : Index)
      → Yields w (url_error idx) (λ e. is_empty e ≡ true → contains idx.full_url bundle_file ≡ true)
  unfolding url_error text
  url-Yields idx =
      Yields-if w _ _ _ (λ h. Yields-pure w [] (λ _. h))
        (λ h. Yields-pure w _ (λ e. absurd (ground (arith, e))))

  index-Yields :
      (idx : Index)
      → Yields w (index_error dir idx) (λ e. is_empty e ≡ true → Fits o idx (beside dir w))
  unfolding index_error text
  index-Yields idx =
      Yields-if w (not (equal_ints idx.full_version idx.manifest_version)) _ _
        (λ h. Yields-pure w _ (λ e. not_nil e))
        (λ same.
          Yields-if w (is_empty idx.full_sha256) _ _
            (λ unset.
              Yields-weaken w _
                (λ e url h. record {
                  versions = ground (arith, same);
                  checksum = inl unset;
                  url = url h;
                })
                (url-Yields idx))
            (λ set. Yields-bind w _ _ (sha256-Yields (FilePath.join dir bundle_file)) (λ got found.
              Yields-if w (mismatch idx.full_sha256 got) _ _ (λ h. Yields-pure w _ (λ e. not_nil e))
                (λ agree.
                  Yields-weaken w _
                    (λ e url h. record {
                      versions = ground (arith, same);
                      checksum = inr (
                          rw
                            (sym
                              (found ∙ hash_of_file o _ (text "manifest.json.gz") (beside dir w)))
                            agree);
                      url = url h;
                    })
                    (url-Yields idx)))))

  parsed-Yields :
      (r : Result Index)
      → Yields w (attempt (lift r)) (λ p. (idx : Index) → p ≡ inl idx → r ≡ ok idx)
  unfolding attempt lift
  parsed-Yields (ok i) = Yields-eq w _ (inl i) refl (λ idx h. ground (arith, h))
  parsed-Yields (err e) = Yields-eq w _ (inr e) refl (λ idx h. absurd (ground (arith, h)))
  parsed-Yields (panic t) = record { at = (refl, λ a q. absurd (ground (arith, q))) }

  validate_index-Yields :
      (t : Text) → Yields w (validate_index t dir) (λ e. is_empty e ≡ true → Indexed dir w t)
  unfolding validate_index text
  validate_index-Yields t =
      Yields-bind w _ _ (parsed-Yields (o.parse_index t)) (λ p known. checked p known)
    where
      checked :
          (p : Index ⊎ Error)
          → ((idx : Index) → p ≡ inl idx → o.parse_index t ≡ ok idx)
          → Yields w
              (elim p [
                | inr e ↦ pure (text "index.json: " ++ e.message)
                | inl idx ↦ index_error dir idx
              ])
              (λ e. is_empty e ≡ true → Indexed dir w t)
      checked (inr e) known = Yields-pure w _ (λ e. absurd (ground (arith, e)))
      checked (inl idx) known =
          Yields-weaken w _ (λ e fits h. (idx, known idx refl, fits h)) (index-Yields idx)

  index_errors-Yields :
      (v : Option Text)
      → Yields w
          (index_errors dir (opened (text "open ") (FilePath.join dir (text "index.json")) v))
          (λ errs. errs ≡ [] → OneIndexed dir w v)
  unfolding index_errors
  index_errors-Yields none = Yields-pure w [] (λ _ t h. absurd (ground (arith, h)))
  index_errors-Yields (some t) = Yields-bind w _ _ (validate_index-Yields t) (λ e found.
      Yields-pure w _
        (λ nil t' h. subst (Indexed dir w) (ap (text_or t) h) (found (nothing_noted [] e nil).1)))

  bundle-Yields :
      Yields w
        (validate_bundle (FilePath.join dir bundle_file) bundle_file)
        (λ e. is_empty e ≡ true → (b : Text) → (beside dir w) ≡ some b → Bundled o b)
  bundle-Yields = record {
    at = (
      validate_bundle-same o _ _ w calm,
      λ e q h b there.
          (validate_bundle-Bundled o _ bundle_file w b calm there).0 (q ∙ ok-empty e h),
    );
  }

  bundle_errors-Yields :
      (errs : List Text)
      → Yields w
          (bundle_errors dir errs)
          (λ all. all ≡ [] → (errs ≡ []) × ((b : Text) → (beside dir w) ≡ some b → Bundled o b))
  unfolding bundle_errors
  bundle_errors-Yields errs =
      Yields-bind w {P = λ found. found ≡ measured (FilePath.join dir bundle_file) (beside dir w)} _
        _ (Yields-eq w _ _ (attempt-stat (FilePath.join dir bundle_file) w calm) refl)
        (λ found same.
          Yields-if w (is_error found) _ _
            (λ absent. Yields-pure w errs (λ nil. (
              nil,
              λ b h. not_nil (
                  sym (measured-some (FilePath.join dir bundle_file) (beside dir w) b h)
                  ∙ sym (ap is_error same)
                  ∙ absent),
            )))
            (λ there. Yields-bind w _ _ bundle-Yields (λ e good.
              Yields-pure w _
                (λ nil. ((nothing_noted errs e nil).0, good (nothing_noted errs e nil).1)))))

  object_meta-Yields :
      (p : Text) (meta : Fields) → Yields w (object_meta_error p meta) (λ _. Unit {0})
  unfolding object_meta_error
  object_meta-Yields p meta =
      let sh = as_string (lookup meta (text "full_sha256")) in
      Yields-if w (text_eq (as_string (lookup meta (text "gsbs_version"))) (text "pending")) _ _
        (λ _. Yields-pure w [] tt)
        (λ _.
          Yields-if w (is_empty sh) _ _ (λ _. Yields-pure w [] tt)
            (λ _. Yields-bind w _ _ (sha256-Yields p) (λ got _.
              Yields-if w (mismatch sh got) _ _ (λ _. Yields-pure w _ tt)
                (λ _. Yields-pure w [] tt))))

  raw_meta-Yields : (p : Text) (v : Option Fields) → Yields w (raw_meta_error p v) (λ _. Unit {0})
  unfolding raw_meta_error
  raw_meta-Yields p none = Yields-pure w _ tt
  raw_meta-Yields p (some meta) = object_meta-Yields p meta

  meta-Yields : (m p : Text) → Yields w (validate_meta m p) (λ _. Unit {0})
  unfolding validate_meta
  meta-Yields m p =
      Yields-bind w {P = λ _. Unit {0}} _ _ (Yields-eq w _ _ (attempt-read_file m w calm) tt)
        (λ found _. checked found)
    where
      checked :
          (found : Text ⊎ Error)
          → Yields w
              (elim found [ inr e ↦ pure [] | inl t ↦ raw_meta_error p (o.unmarshal_object t) ])
              (λ _. Unit {0})
      checked (inr e) = Yields-pure w [] tt
      checked (inl t) = raw_meta-Yields p (o.unmarshal_object t)

  verdict-Yields : (errs : List Text) → Yields w (verdict errs) (λ _. errs ≡ [])
  unfolding verdict
  verdict-Yields [] = Yields-pure w tt refl
  verdict-Yields (e ∷ es) = Yields-fail w _

  pre_launch-Yields : Yields w (pre_launch dir) (λ _. (beside dir w) ≡ none)
  unfolding pre_launch
  pre_launch-Yields =
      Yields-bind w {P = λ found. found ≡ measured (FilePath.join dir bundle_file) (beside dir w)} _
        _ (Yields-eq w _ _ (attempt-stat (FilePath.join dir bundle_file) w calm) refl)
        (λ found same.
          Yields-if w (is_not_exist found) _ _
            (λ gone. Yields-pure w tt (
              measured-none (FilePath.join dir bundle_file) (beside dir w)
                (sym (ap is_not_exist same) ∙ gone)))
            (λ there.
              Yields-weaken w _ (λ _ h. absurd (ground (arith, h)))
                (verdict-Yields (text "manifest.json.gz present but index.json missing" ∷ []))))

  passed :
      (v : Option Text)
      → w.files (FilePath.join dir (text "index.json")) ≡ v
      → (errs : List Text)
      → (errs ≡ [] → OneIndexed dir w v × ((b : Text) → (beside dir w) ≡ some b → Bundled o b))
      → Yields w
          (if is_error (opened (text "open ") (FilePath.join dir (text "index.json")) v)
              && (length errs == 0)
            then pre_launch dir
            else verdict errs)
          (λ _. Passed dir w)
  passed none there [] good = Yields-weaken w _ (λ _ gone. inl (there, gone)) pre_launch-Yields
  passed none there (e ∷ es) good =
      Yields-if w (length (e ∷ es) == 0) _ _ (λ h. absurd (ground (arith, h)))
        (λ _. Yields-weaken w _ (λ _ h. absurd (ground (arith, h))) (verdict-Yields (e ∷ es)))
  passed (some t) there errs good =
      Yields-weaken w _
        (λ _ nil.
          let (idx, parsed, fits) = (good nil).0 t refl in
          inr (t, idx, there, parsed, fits, (good nil).1))
        (verdict-Yields errs)

  validate-Yields : Yields w (validate dir) (λ _. Passed dir w)
  unfolding validate
  validate-Yields =
      let p = FilePath.join dir (text "index.json") in
      Yields-step w _ _ _ (attempt-read_file p w calm) (
        Yields-bind w _ _ (index_errors-Yields (w.files p)) (λ of_index indexed.
          Yields-bind w _ _ (bundle_errors-Yields of_index) (λ of_bundle bundled.
            Yields-bind w _ _ (meta-Yields _ _) (λ e _.
              passed (w.files p) refl (noted of_bundle e) (λ nil.
                let (before, good) = bundled (nothing_noted of_bundle e nil).0 in
                (indexed before, good))))))

-- In a run without faults, a directory that passes `Dir` holds neither an index nor a bundle, or it
-- holds an index that can be parsed, whose two versions agree, whose URL names manifest.json.gz and
-- whose checksum, where it has one and there is a bundle, is that of the bundle, which is valid in
-- the sense of `validateBundle`. The checks change nothing.
pub validate-Passed :
    (o : Outside) (dir : Text) (w : World o)
    → w.faults ≡ []
    → ((validate dir w).1 ≡ w) × ((validate dir w).0 ≡ ok tt → Passed dir w)
validate-Passed o dir w calm = let y = (validate-Yields dir w calm).at in (y.0, y.1 tt)
