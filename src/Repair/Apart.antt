-- ===== src/Repair/Apart.antt =====
-- A repair leaves the object store alone.
use vps_sync_gsbs.Base.{ℕ, ◌⊎◌, inl, inr, List, refl}
use vps_sync_gsbs.Base.Int.{ℤ}
use vps_sync_gsbs.Text.{Text}
use vps_sync_gsbs.FilePath.{dir}
use vps_sync_gsbs.Exec.{Error, ok}
use vps_sync_gsbs.Outside.{Outside}
use vps_sync_gsbs.World.{random_name, syscall}
use vps_sync_gsbs.World.Apart.{
  Since-moved, Apart, apart, Apart-bind, Apart-deferred, Apart-result, Apart-syscall,
}
use vps_sync_gsbs.Publish.Export.Apart.{open_database-Apart}
use vps_sync_gsbs.Repair.Plan.{Object}
use vps_sync_gsbs.Repair.{
  temp_dir, mkdir_temp, without, remove_all, contents, or_remove, build_pristine, begin, commit,
  iterate, complete, compare_with, found_at, repair_db,
}

module _ {o : Outside} where
  random_name-Apart : Apart {o = o} random_name
  unfolding random_name
  random_name-Apart = Apart-result _ (λ v w k. Since-moved v w _ refl refl refl k)

  mkdir_temp-Apart : Apart {o = o} mkdir_temp
  unfolding mkdir_temp temp_dir
  mkdir_temp-Apart = search (apart, random_name-Apart, Apart-syscall) depth 8

  without-Apart : (path : Text) → Apart {o = o} (syscall (λ w. (ok tt, without path w)))
  unfolding without
  without-Apart path =
      Apart-syscall _ (Apart-result _ (λ v w k. Since-moved v w _ refl refl refl k))

  remove_all-Apart : (path : Text) → Apart {o = o} (remove_all path)
  unfolding remove_all
  remove_all-Apart path = search (apart, without-Apart)

  contents-Apart : (path : Text) → Apart {o = o} (contents path)
  unfolding contents
  contents-Apart path = Apart-result _ (λ v w k. k)

  or_remove-Apart : {A : Type 0} (d : Text) (x : A ⊎ Error) → Apart {o = o} (or_remove d x)
  unfolding or_remove
  or_remove-Apart d (inl a) = search apart
  or_remove-Apart d (inr e) = search (apart, remove_all-Apart)

  build_pristine-Apart : Apart {o = o} build_pristine
  unfolding build_pristine
  build_pristine-Apart =
      search (apart, mkdir_temp-Apart, open_database-Apart, contents-Apart, or_remove-Apart) depth
        10

  begin-Apart : Apart {o = o} begin
  unfolding begin
  begin-Apart = search (apart, Apart-syscall)

  commit-Apart : (path t : Text) → Apart {o = o} (commit path t)
  unfolding commit
  commit-Apart path t =
      Apart-syscall _ (Apart-result _ (λ v w k. Since-moved v w _ refl refl refl k))

  iterate-Apart : {A : Type 0} (rows : List A) → Apart {o = o} (iterate rows)
  unfolding iterate
  iterate-Apart rows = Apart-result _ (λ v w k. Since-moved v w _ refl refl refl k)

  complete-Apart :
      (db t : Text) (v v' : ℤ) (objects : List Object) → Apart {o = o} (complete db t v v' objects)
  unfolding complete
  complete-Apart db t v v' objects = search (apart, begin-Apart, commit-Apart) depth 8

  compare_with-Apart : (db p : Text) (v : ℤ) → Apart {o = o} (compare_with db p v)
  unfolding compare_with
  compare_with-Apart db p v = search (apart, contents-Apart, iterate-Apart, complete-Apart) depth 12

  found_at-Apart : (db : Text) (x : ℕ ⊎ Error) → Apart {o = o} (found_at db x)
  unfolding found_at
  found_at-Apart db (inl n) = Apart-bind _ _ build_pristine-Apart (λ built.
      Apart-deferred (remove_all (dir built.0)) _ (remove_all-Apart _)
        (compare_with-Apart db built.0 built.1))
  found_at-Apart db (inr e) = search apart

  pub repair_db-Apart : (db : Text) → Apart {o = o} (repair_db db)
  unfolding repair_db
  repair_db-Apart db = search (apart, found_at-Apart)
