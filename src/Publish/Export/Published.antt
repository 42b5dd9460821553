-- ===== src/Publish/Export/Published.antt =====
-- An export that nothing stops.
use vps_sync_gsbs.Base.{suc, true, false, ◌≡◌, refl, ap, ◌∙◌, sym, none, some, [], length}
use vps_sync_gsbs.Text.{Text, text, text_eq, is_empty}
use vps_sync_gsbs.Text.Strings.{trim_space}
use vps_sync_gsbs.Text.Stamp.{rfc3339}
use vps_sync_gsbs.Exec.{ok, attempt, bind_of_ok}
use vps_sync_gsbs.Outside.{Outside, Meta, Index}
use vps_sync_gsbs.World.{World, Files, update, write_file, remove}
use vps_sync_gsbs.World.Laws.{update_self, update_ne}
use vps_sync_gsbs.World.Calm.{opened, write_file_calm, attempt-remove_calm}
use vps_sync_gsbs.Publish.Shrink.{checks, guard_against_shrink}
use vps_sync_gsbs.Publish.Shrink.Exact.{Counted, Sound, guard_against_shrink-passes}
use vps_sync_gsbs.Publish.Release.{document, add_release, update_manifest_releases}
use vps_sync_gsbs.Publish.Previous.{index_after}
use vps_sync_gsbs.Publish.Export.Opened.{with_database, export-database}
use vps_sync_gsbs.Publish.Export.Written.{published, write_index_calm, releases_text, releases_calm}
use vps_sync_gsbs.FilePath.{join}
use vps_sync_gsbs.FilePath.Names.{is_name, text_eq-join}
use vps_sync_gsbs.Publish.Export.{
  export, write_artifacts, meta_path, bundle_path, releases_path, delta_path, index_path,
  release_of,
}

-- The files of an export are apart.
names_apart :
    (dir : Text)
    → (text_eq (bundle_path dir) (meta_path dir) ≡ false)
      × (text_eq (bundle_path dir) (releases_path dir) ≡ false)
      × (text_eq (bundle_path dir) (delta_path dir) ≡ false)
      × (text_eq (bundle_path dir) (index_path dir) ≡ false)
      × (text_eq (meta_path dir) (bundle_path dir) ≡ false)
      × (text_eq (meta_path dir) (releases_path dir) ≡ false)
      × (text_eq (meta_path dir) (delta_path dir) ≡ false)
      × (text_eq (meta_path dir) (index_path dir) ≡ false)
      × (text_eq (releases_path dir) (bundle_path dir) ≡ false)
      × (text_eq (releases_path dir) (meta_path dir) ≡ false)
      × (text_eq (releases_path dir) (delta_path dir) ≡ false)
      × (text_eq (releases_path dir) (index_path dir) ≡ false)
      × (text_eq (index_path dir) (bundle_path dir) ≡ false)
      × (text_eq (index_path dir) (meta_path dir) ≡ false)
      × (text_eq (index_path dir) (releases_path dir) ≡ false)
      × (text_eq (index_path dir) (delta_path dir) ≡ false)
      × (text_eq (delta_path dir) (index_path dir) ≡ false)
unfolding text text_eq
names_apart dir =
    let apart = λ (m n : Text). text_eq-join dir m n in
    let b : Text = text "manifest.json.gz" in
    let m : Text = text "manifest.meta.json" in
    let r : Text = text "manifest.releases.json" in
    let d : Text = text "manifest.delta.json.gz" in
    let i : Text = text "index.json" in
    (
      apart b m refl refl refl,
      apart b r refl refl refl,
      apart b d refl refl refl,
      apart b i refl refl refl,
      apart m b refl refl refl,
      apart m r refl refl refl,
      apart m d refl refl refl,
      apart m i refl refl refl,
      apart r b refl refl refl,
      apart r m refl refl refl,
      apart r d refl refl refl,
      apart r i refl refl refl,
      apart i b refl refl refl,
      apart i m refl refl refl,
      apart i r refl refl refl,
      apart i d refl refl refl,
      apart d i refl refl refl,
    )

-- What an export leaves in the files.
pub record Wrote (o : Outside) (dir raw : Text) (m : Meta) (next : Index) (before after : Files)
    : Type 0 where
  pub bundle : after (bundle_path dir) ≡ some raw
  pub metadata : after (meta_path dir) ≡ some (o.marshal_meta m)
  pub index : after (index_path dir) ≡ some (o.marshal_index next)
  pub delta : after (delta_path dir) ≡ none
  pub releases :
      after (releases_path dir)
      ≡ some (
          o.marshal_releases (
            add_release (release_of m) (
              document o (opened (text "open ") (releases_path dir) (before (releases_path dir))))))
  pub others :
      (q : Text)
      → text_eq q (bundle_path dir) ≡ false
      → text_eq q (meta_path dir) ≡ false
      → text_eq q (releases_path dir) ≡ false
      → text_eq q (delta_path dir) ≡ false
      → text_eq q (index_path dir) ≡ false
      → after q ≡ before q

module _ {o : Outside} (dir base raw : Text) (m : Meta) (prev next : Index) (w : World o)
    (calm : w.faults ≡ []) where
  with_bundle : World o
  with_bundle = record w { files = update w.files (bundle_path dir) (some raw) }

  with_meta : World o
  unfolding with_bundle
  with_meta = record w {
    files = update with_bundle.files (meta_path dir) (some (o.marshal_meta m));
  }

  with_releases : World o
  unfolding with_meta
  with_releases = record w {
    files = update with_meta.files (releases_path dir) (some (releases_text dir m with_meta calm));
  }

  write_artifacts_calm :
      guard_against_shrink (meta_path dir) m w ≡ (ok tt, w)
      → index_after o base (opened (text "open ") (index_path dir) (w.files (index_path dir)))
        ≡ ok prev
      → o.advance_index prev m.full_sha256 (length raw) base (rfc3339 (o.clock w.ticks)) ≡ ok next
      → (w' : World o) × (write_artifacts dir base (raw, m) w ≡ (ok (published dir next), w'))
        × Wrote o dir raw m next w.files w'.files
  unfolding write_artifacts with_bundle with_meta with_releases
  write_artifacts_calm passes before advances =
      let (bm, br, bd, bi, mb, mr, md, mi, rb, rm, rd, ri, ib, im, ir, id, di) = names_apart dir in
      let f1 = with_bundle.files in
      let f2 = with_meta.files in
      let f3 = with_releases.files in
      let (r, f4, removed, gone, kept) = attempt-remove_calm (delta_path dir) with_releases calm in
      let w4 : World o = record w { files = f4 } in
      let f5 = update f4 (index_path dir) (some (o.marshal_index next)) in
      let same_index : f4 (index_path dir) ≡ w.files (index_path dir) =
        kept (index_path dir) id
        ∙ update_ne f2 (releases_path dir) _ _ ir
        ∙ update_ne f1 (meta_path dir) _ _ im
        ∙ update_ne w.files (bundle_path dir) _ _ ib in
      (
        record w { files = f5; ticks = suc w.ticks },
        bind_of_ok (guard_against_shrink (meta_path dir) m) _ w passes
            ∙ bind_of_ok (write_file (bundle_path dir) raw) _ w
                (write_file_calm (bundle_path dir) w calm raw)
            ∙ bind_of_ok (write_file (meta_path dir) (o.marshal_meta m)) _ with_bundle
                (write_file_calm (meta_path dir) with_bundle calm (o.marshal_meta m))
            ∙ bind_of_ok (attempt (update_manifest_releases (releases_path dir) (release_of m))) _
                with_meta (releases_calm dir m with_meta calm)
            ∙ bind_of_ok (attempt (remove (delta_path dir))) _ with_releases removed
            ∙ write_index_calm dir base raw m prev next w4 calm (rw same_index before) advances,
        record {
          bundle =
              update_ne f4 (index_path dir) _ _ bi
              ∙ kept _ bd
              ∙ update_ne f2 (releases_path dir) _ _ br
              ∙ update_ne f1 (meta_path dir) _ _ bm
              ∙ update_self w.files (bundle_path dir) _;
          metadata =
              update_ne f4 (index_path dir) _ _ mi
              ∙ kept _ md
              ∙ update_ne f2 (releases_path dir) _ _ mr
              ∙ update_self f1 (meta_path dir) _;
          index = update_self f4 (index_path dir) _;
          delta = update_ne f4 (index_path dir) _ _ di ∙ gone;
          releases =
              update_ne f4 (index_path dir) _ _ ri
              ∙ kept _ rd
              ∙ update_self f2 (releases_path dir) _
              ∙ ap
                  (λ v. some (
                    o.marshal_releases (
                      add_release (release_of m)
                        (document o (opened (text "open ") (releases_path dir) v)))))
                  (update_ne f1 (meta_path dir) _ _ rm
                    ∙ update_ne w.files (bundle_path dir) _ _ rb);
          others = λ q qb qm qr qd qi.
              update_ne f4 (index_path dir) _ q qi
              ∙ kept q qd
              ∙ update_ne f2 (releases_path dir) _ q qr
              ∙ update_ne f1 (meta_path dir) _ q qm
              ∙ update_ne w.files (bundle_path dir) _ q qb;
        },
      )

-- In a run without faults and without FORCE_PUBLISH=1, with a base for the URLs, a database that
-- opens and exports and lies outside the output directory, no count that has collapsed against the
-- metadata there, where the counts on both sides are not negative and below 2^53, and a library that gives a next index to the previous one, the export returns the
-- next index's version. The bundle, its metadata and that index are in their files, the entry of the
-- bundle is in the list of releases, the delta is gone, and no other file but the database's own has
-- changed. The previous index is the local one, or the published one if that cannot be read.
pub export-published :
    (o : Outside) (db dir base version : Text) (w : World o)
    → (t raw : Text) (m : Meta) (prev next : Index) → w.faults ≡ []
    → is_empty (trim_space base) ≡ false
    → o.open_store (w.files db) ≡ (t, none)
    → o.export_bundle t version ≡ ok (raw, m)
    → ((n : Text) → is_name n ≡ true → text_eq (join dir n) db ≡ false)
    → text_eq (w.env (text "FORCE_PUBLISH")) (text "1") ≡ false
    → ((shown : Text) (old : Meta)
        → w.files (meta_path dir) ≡ some shown
        → o.unmarshal_meta shown ≡ some old
        → Counted (checks old m) × Sound (checks old m))
    → index_after o
        (trim_space base)
        (opened (text "open ") (index_path dir) (w.files (index_path dir)))
      ≡ ok prev
    → o.advance_index prev m.full_sha256 (length raw) (trim_space base) (rfc3339 (o.clock w.ticks))
      ≡ ok next
    → (w' : World o) × (export db dir base version w ≡ (ok (published dir next), w'))
      × Wrote o dir raw m next (update w.files db (some t)) w'.files
unfolding text text_eq
export-published o db dir base version w t raw m prev next calm named opens exports apart unforced
      sound before advances =
    let w1 = with_database db dir base version w t raw m in
    let at_meta =
      update_ne w.files db (some t) (meta_path dir) (apart (text "manifest.meta.json") refl) in
    let at_index =
      update_ne w.files db (some t) (index_path dir) (apart (text "index.json") refl) in
    let (w', e, wrote) =
      write_artifacts_calm dir (trim_space base) raw m prev next w1 calm
        (guard_against_shrink-passes (meta_path dir) m w1 calm unforced
          (λ shown old there read. sound shown old (sym at_meta ∙ there) read))
        (rw at_index before) advances in
    (w', export-database db dir base version w t raw m opens exports calm named ∙ e, wrote)
