-- ===== src/Repair.antt =====
-- internal/repair: the objects of the GSBS schema that a sanitized database lacks, created in it: `DB`,
-- `buildPristine` and `IsSchemaError`.
pub mod Apart
pub mod Plan
pub mod Repairs
use vps_sync_gsbs.Base.{
  ℕ, suc, Bool, not, ◌==◌, ◌⊎◌, inl, inr, Option, none, some, List, [], ◌∷◌, ◌++◌, length, take,
  if◌then◌else◌,
}
use vps_sync_gsbs.Base.Int.{ℤ}
use vps_sync_gsbs.Text.{Text, text, is_empty}
use vps_sync_gsbs.Text.Strings.{has_prefix}
use vps_sync_gsbs.FilePath.{join, dir}
use vps_sync_gsbs.Exec.{
  Error, errorf, Result, ok, err, pure, fail, lift, attempt, wrap, deferred, ◌>>=◌, ◌>>◌,
}
use vps_sync_gsbs.Outside.{Outside, Entry}
use vps_sync_gsbs.World.{World, Io, Files, update, syscall, stat, getenv, random_name, is_error}
use vps_sync_gsbs.Publish.Export.{open_database}
use vps_sync_gsbs.Repair.Plan.{Object, selected, order_rows, lacking, created, names, transaction}

abbrev contents_of : Option Text → Result Text
contents_of none = err (errorf (text "unable to open database file"))
contents_of (some t) = ok t

rows_of_answer : {A : Type 0} → Option ℕ → List A → List A
rows_of_answer none rows = rows
rows_of_answer (some n) rows = take n rows

module _ {o : Outside} where
  -- `os.TempDir`
  temp_dir : Io o Text
  temp_dir = do t ← getenv (text "TMPDIR"); if is_empty t then pure (text "/tmp") else pure t

  -- `os.MkdirTemp("", "gsbs-pristine-*")`: the name of a new directory.
  unfoldable pub mkdir_temp : Io o Text
  unfolding temp_dir
  mkdir_temp = do
    base ← temp_dir
    name ← random_name
    syscall (pure (join base (text "gsbs-pristine-" ++ name)))

  without : Text → World o → World o
  without path w = record w {
    files = λ q. if has_prefix q (path ++ text "/") then none else w.files q;
  }

  -- `os.RemoveAll`, whose error the code drops.
  unfoldable pub remove_all : Text → Io o (Unit {0})
  unfolding without
  remove_all path = do attempt (syscall (λ w. (ok tt, without path w))); pure tt

  -- What a connection reads of a database.
  unfoldable pub contents : Text → Io o Text
  contents path w = (contents_of (w.files path), w)

  -- What the caller has to remove if it ends by an error.
  or_remove : {A : Type 0} → Text → A ⊎ Error → Io o A
  or_remove dir (inl a) = pure a
  or_remove dir (inr e) = do remove_all dir; fail e

  -- `buildPristine`
  unfoldable pub build_pristine : Io o (Text × ℤ)
  unfolding mkdir_temp contents or_remove
  build_pristine = do
    dir ← mkdir_temp
    let path : Text = join dir (text "pristine.db")
    made ← attempt (do
      wrap (text "build pristine schema") (open_database path)
      t ← contents path
      lift (o.user_version t))
    version ← or_remove dir made
    pure (path, version)

  -- `target.Begin()`
  unfoldable pub begin : Io o (Unit {0})
  begin = syscall (pure tt)

  -- `tx.Commit()`, all or nothing.
  unfoldable pub commit : Text → Text → Io o (Unit {0})
  commit path t = syscall (λ w. (ok tt, record w { files = update w.files path (some t) }))

  -- `for rows.Next()`: the rows that are read. The code does not ask for `rows.Err()`, the error that
  -- may have ended the loop.
  unfoldable pub iterate : {A : Type 0} → List A → Io o (List A)
  unfolding rows_of_answer
  iterate rows w = (ok (rows_of_answer (o.rows_end w.ticks) rows), record w { ticks = suc w.ticks })

  complete : Text → Text → ℤ → ℤ → List Object → Io o (List Text)
  unfolding begin commit
  complete db t pristine target objects = if length objects == 0 then pure [] else do
    begin
    u ← lift (transaction o objects pristine target t)
    commit db u
    pure (created objects)

  -- `DB` behind the building of the pristine database.
  pub compare_with : Text → Text → ℤ → Io o (List Text)
  unfolding contents complete iterate
  compare_with db pristine_path pristine = do
    t ← contents db
    target ← wrap (text "read target schema version") (lift (o.user_version t))
    answer ← lift (o.sqlite_master t)
    existing ← iterate (names answer)
    p ← contents pristine_path
    master ← lift (o.sqlite_master p)
    wanted ← iterate (order_rows (selected master))
    complete db t pristine target (lacking existing wanted)

  found_at : Text → ℕ ⊎ Error → Io o (List Text)
  unfolding build_pristine compare_with remove_all
  found_at db (inr e) = fail (errorf (text "database not found at " ++ db))
  found_at db (inl n) = do
    built ← build_pristine
    deferred (λ w. (remove_all (dir built.0) w).1) (compare_with db built.0 built.1)

  -- `DB`: the names of the objects that it has created.
  unfoldable pub repair_db : Text → Io o (List Text)
  unfolding found_at
  repair_db db = do found ← attempt (stat db); found_at db found
