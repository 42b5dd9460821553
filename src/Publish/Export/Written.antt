-- ===== src/Publish/Export/Written.antt =====
-- The steps of an export behind the guard, in a run without faults.
use vps_sync_gsbs.Base.{suc, ◌≡◌, refl, ap, ◌∙◌, inl, some, [], length}
use vps_sync_gsbs.Text.{Text, text}
use vps_sync_gsbs.Text.Stamp.{rfc3339}
use vps_sync_gsbs.Exec.{Result, ok, pure, lift, wrap, attempt, caught, bind_of_ok}
use vps_sync_gsbs.Outside.{Outside, Meta, Index}
use vps_sync_gsbs.World.{World, update, read_file, write_file, now}
use vps_sync_gsbs.World.Calm.{opened, attempt-read_file, write_file_calm}
use vps_sync_gsbs.Publish.Release.{document, add_release, update_manifest_releases}
use vps_sync_gsbs.Publish.Previous.{index_after, previous_index}
use vps_sync_gsbs.Publish.Export.{Exported, write_index, releases_path, index_path, release_of}

abbrev pub published : Text → Index → Exported
published dir next = record {
  manifest_version = next.manifest_version;
  index_path = index_path dir;
  out_dir = dir;
}

advance_calm :
    {o : Outside} (next : Index) (r : Result Index) (w : World o)
    → r ≡ ok next
    → wrap (text "advance index") (lift r) w ≡ (ok next, w)
unfolding wrap lift
advance_calm next r w e = rw e refl

module _ {o : Outside} (dir base raw : Text) (m : Meta) (prev next : Index) (w : World o)
    (calm : w.faults ≡ []) where
  previous_index_calm :
      index_after o base (opened (text "open ") (index_path dir) (w.files (index_path dir)))
        ≡ ok prev
      → previous_index (index_path dir) base w ≡ (ok prev, w)
  unfolding previous_index lift
  previous_index_calm before =
      bind_of_ok (attempt (read_file (index_path dir))) (λ raw. lift (index_after o base raw)) w
        (attempt-read_file (index_path dir) w calm)
      ∙ rw before refl

  -- The index follows the previous one.
  pub write_index_calm :
      index_after o base (opened (text "open ") (index_path dir) (w.files (index_path dir)))
        ≡ ok prev
      → o.advance_index prev m.full_sha256 (length raw) base (rfc3339 (o.clock w.ticks)) ≡ ok next
      → write_index dir base raw m w ≡ (
        ok (published dir next),
        record w {
          files = update w.files (index_path dir) (some (o.marshal_index next));
          ticks = suc w.ticks;
        },
      )
  unfolding write_index now pure
  write_index_calm before advances =
      let w' : World o = record w { ticks = suc w.ticks } in
      bind_of_ok (previous_index (index_path dir) base) _ w (previous_index_calm before)
      ∙ bind_of_ok now _ w refl
      ∙ bind_of_ok
          (wrap (text "advance index") (
            lift
              (o.advance_index prev m.full_sha256 (length raw) base (rfc3339 (o.clock w.ticks)))))
          _ w' (advance_calm next _ w' advances)
      ∙ bind_of_ok (write_file (index_path dir) (o.marshal_index next)) _ w'
          (write_file_calm (index_path dir) w' calm (o.marshal_index next))

module _ {o : Outside} (dir : Text) (m : Meta) (w : World o) (calm : w.faults ≡ []) where
  -- The file of the list of releases behind its update.
  abbrev pub releases_text : Text
  releases_text = o.marshal_releases (
      add_release (release_of m)
        (document o (opened (text "open ") (releases_path dir) (w.files (releases_path dir)))))

  pub releases_calm :
      attempt (update_manifest_releases (releases_path dir) (release_of m)) w
      ≡ (ok (inl tt), record w { files = update w.files (releases_path dir) (some releases_text) })
  unfolding update_manifest_releases attempt
  releases_calm =
      ap (λ (x : Result (Unit {0}) × World o). (caught x.0, x.1))
        (bind_of_ok (attempt (read_file (releases_path dir))) _ w
            (attempt-read_file (releases_path dir) w calm)
          ∙ write_file_calm (releases_path dir) w calm releases_text)
