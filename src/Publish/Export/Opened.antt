-- ===== src/Publish/Export/Opened.antt =====
-- The steps of an export up to the guard, in a run without faults.
use vps_sync_gsbs.Base.{false, ◌≡◌, refl, ◌∙◌, Option, none, some, List, []}
use vps_sync_gsbs.Text.{Text, is_empty}
use vps_sync_gsbs.Text.Strings.{trim_space}
use vps_sync_gsbs.Exec.{Error, ok, bind_of_ok}
use vps_sync_gsbs.Exec.Triple.{Triple, Post}
use vps_sync_gsbs.Outside.{Outside, Meta}
use vps_sync_gsbs.World.{World, Files, update, mkdir_all}
use vps_sync_gsbs.World.Laws.{Of, update_self}
use vps_sync_gsbs.World.Writes.{Fact}
use vps_sync_gsbs.World.Calm.{mkdir_all_calm}
use vps_sync_gsbs.Publish.Export.{
  export, export_to, write_artifacts, open_database, opened_store, export_database,
}

module _ {o : Outside} (db dir base version : Text) (w : World o) (t raw : Text) (m : Meta) where
  -- The world with the opened database.
  abbrev pub with_database : World o
  with_database = record w { files = update w.files db (some t) }

  module _ (opens : o.open_store (w.files db) ≡ (t, none))
      (exports : o.export_bundle t version ≡ ok (raw, m)) where
    open_database_ok : open_database db w ≡ (ok tt, with_database)
    unfolding open_database opened_store
    open_database_ok = rw opens refl

    export_database_ok : export_database db version with_database ≡ (ok (raw, m), with_database)
    unfolding export_database
    export_database_ok = rw (update_self w.files db (some t), exports) refl

    -- The steps in front of the guard.
    pub export-database :
        w.faults ≡ []
        → is_empty (trim_space base) ≡ false
        → export db dir base version w
          ≡ write_artifacts dir (trim_space base) (raw, m) with_database
    unfolding export export_to
    export-database calm named =
        bind_of_ok (mkdir_all dir) _ w (mkdir_all_calm dir w calm)
        ∙ rw named (
            bind_of_ok (open_database db) _ w open_database_ok
            ∙ bind_of_ok (export_database db version) _ with_database export_database_ok)

-- Opening a database leaves what opening makes of the contents of its file, in every case.
pub open_database_lem :
    (o : Outside) (P Q : Fact o) (path : Text)
    → ((f : Files) (r : o.Remote) (h : List o.Remote)
        → P f r h
        → Q (update f path (some (o.open_store (f path)).0)) r h)
    → Triple (Of o P) (open_database path) (λ _. Of o Q) (λ _. Of o Q)
unfolding open_database opened_store
open_database_lem o P Q path step = record {
  at = λ w h. go (o.open_store (w.files path)) w (step w.files w.remote w.history h);
}
  where
    go :
        (x : Text × Option Error) (w : World o)
        → Q (update w.files path (some x.0)) w.remote w.history
        → Post (λ _. Of o Q) (λ _. Of o Q) (opened_store x path w).0 (opened_store x path w).1
    go (t, none) w h = h
    go (t, some e) w h = h
