-- ===== src/Publish/Export/Refused.antt =====
-- An export that the guard refuses.
use vps_sync_gsbs.Base.{false, ◌≡◌, refl, ◌∙◌, none, some, [], arith, ◌≢◌}
use vps_sync_gsbs.Text.{Text, text, text_eq, is_empty}
use vps_sync_gsbs.Text.Strings.{trim_space}
use vps_sync_gsbs.Exec.{Result, ok, err, panic, Exec, ◌>>=◌, continue}
use vps_sync_gsbs.Outside.{Outside, Meta}
use vps_sync_gsbs.World.{World, update}
use vps_sync_gsbs.World.Laws.{update_ne}
use vps_sync_gsbs.Publish.Shrink.{checks, guard_against_shrink}
use vps_sync_gsbs.Publish.Shrink.Exact.{Counted, Sound, guard_against_shrink-Sound}
use vps_sync_gsbs.Publish.Export.Opened.{with_database, export-database}
use vps_sync_gsbs.Publish.Export.{Exported, export, write_artifacts, meta_path}

module _ {S A B : Type 0} (f : A → Exec S B) where
  ended :
      (r : Result A) (s : S)
      → ((a : A) → r ≢ ok a)
      → ((b : B) → (continue r f s).0 ≢ ok b) × ((continue r f s).1 ≡ s)
  ended (ok a) s h = absurd (h a refl)
  ended (err e) s h = (λ b k. absurd (ground (arith, k)), refl)
  ended (panic t) s h = (λ b k. absurd (ground (arith, k)), refl)

  -- A block whose first action does not return ends where that action ends.
  bind_ended :
      (m : Exec S A) (s : S)
      → ((a : A) → (m s).0 ≢ ok a)
      → ((b : B) → ((m >>= f) s).0 ≢ ok b) × (((m >>= f) s).1 ≡ (m s).1)
  unfolding ◌>>=◌
  bind_ended m s h = ended (m s).0 (m s).1 h

-- In a run without faults, without FORCE_PUBLISH=1 and behind a publish whose metadata can be read,
-- an export of which one of the three counts was positive and is now less than three quarters of
-- what it was returns no result. Opening the database may have changed its own file; no other file,
-- no object of the store and no variable has changed. The metadata is not the database's file, and
-- the counts on both sides are not negative and below 2^53.
pub export-refused :
    (o : Outside) (db dir base version : Text) (w : World o)
    → (t raw shown : Text) (m prev : Meta) → w.faults ≡ []
    → is_empty (trim_space base) ≡ false
    → o.open_store (w.files db) ≡ (t, none)
    → o.export_bundle t version ≡ ok (raw, m)
    → text_eq (w.env (text "FORCE_PUBLISH")) (text "1") ≡ false
    → text_eq (meta_path dir) db ≡ false
    → w.files (meta_path dir) ≡ some shown
    → o.unmarshal_meta shown ≡ some prev
    → Counted (checks prev m)
    → ¬ Sound (checks prev m)
    → ((x : Exported) → (export db dir base version w).0 ≢ ok x)
      × ((export db dir base version w).1 ≡ record w { files = update w.files db (some t) })
unfolding write_artifacts
export-refused o db dir base version w t raw shown m prev calm named opens exports unforced apart
      there read counted shrunk =
    let w' = with_database db dir base version w t raw m in
    let (iff, same) =
      guard_against_shrink-Sound o (meta_path dir) m prev w' shown calm unforced
        (update_ne w.files db (some t) (meta_path dir) apart ∙ there) read counted in
    rw (export-database db dir base version w t raw m opens exports calm named)
      (stopped w' (λ h. shrunk (iff.0 h)) same)
  where
    stopped :
        (w' : World o)
        → (guard_against_shrink (meta_path dir) m w').0 ≢ ok tt
        → (guard_against_shrink (meta_path dir) m w').1 ≡ w'
        → ((x : Exported) → (write_artifacts dir (trim_space base) (raw, m) w').0 ≢ ok x)
          × ((write_artifacts dir (trim_space base) (raw, m) w').1 ≡ w')
    stopped w' refused same =
        let (none_returned, ends) =
          bind_ended _ (guard_against_shrink (meta_path dir) m) w' (λ _. refused) in
        (none_returned, ends ∙ same)
