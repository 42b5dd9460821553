-- ===== src/Lib.antt =====
-- The publisher of the PCGW manifest, `vps-sync`: it keeps a database of game save locations, exports
-- a bundle and an index from it, checks them, and publishes them in an object store, where it also
-- keeps archives of what was published and backups of the database.
--
-- The machine that the program runs on is a state (World): the files by path, the environment, the
-- object store, the calls to the clock and the random source, and for each coming call to the
-- operating system whether it fails. A Go function that changes state is an action on it, which ends
-- by a value, an error or a panic (Exec); what was written before an error stays written. A write
-- that fails may leave any contents in its file. What the program calls and does not implement is
-- the record Outside, a parameter of every definition that uses it: the object store, the GSBS
-- library with its database, the codecs, the network. Outside/Laws states what the theorems rely on:
-- an acknowledged put has stored its object, no call touches another object, a listing without an
-- error is complete, and every page of a listing names what begins with the prefix that was asked
-- for. Tests/Memory fills the record by a store in memory that keeps these laws, and
-- Tests/Delivering runs a whole weekly run on it.
--
-- Which file models which part (paths from the root of the repository):
--   Config                  internal/config/config.go, the record Config and R2Configured
--   Config/DotEnv           internal/config/config.go, loadDotEnv
--   Config/Load             internal/config/config.go, Load, env, envBool, envInt
--   Config/Summary          internal/config/summary.go, Summary, redactSrc
--   Publish/Shrink          internal/publish/publish.go, guardAgainstShrink
--   Publish/Release         internal/publish/releases.go, updateManifestReleases
--   Publish/Previous        internal/publish/publish.go, previousIndex
--   Publish/Export          internal/publish/publish.go, Export
--   Validate/Bundle         internal/validate/validate.go, validateBundle
--   Validate/Dir            internal/validate/validate.go, Dir, validateIndex, validateMeta, fileSHA256
--   Fetch                   internal/fetch/prod.go, ProdDB, copyFile
--   Snapshot                internal/snapshot/snapshot.go, Backup
--   R2                      internal/r2/r2.go, Client, New, key, putFile
--   R2/Live                 internal/r2/r2.go, UploadLive
--   R2/Backup               internal/r2/r2.go, UploadDBBackup, gzipFile, PruneDBBackups;
--                           internal/r2/restore.go, LatestDBBackupKey, RestoreDBBackup
--   R2/Prune                internal/r2/r2.go, PruneArchives, deletePrefix
--   Run                     internal/run/run.go, Weekly, Bootstrap, SeedDB, step, artifactSizes
--   Pcgw                    internal/pcgw/sync.go, Sync, SyncWithTimeout
--   Notify                  internal/notify/notify.go, RunResult, Send
--   Schedule                internal/schedule/schedule.go, Serve
--   Repair                  internal/repair/repair.go, DB, buildPristine, IsSchemaError
--   Logx                    internal/logx/logx.go, Setup, teeStderr
--   Main                    cmd/vps-sync/main.go, runMain
-- Text, FilePath and Json hold what the sources use of Go's strings, strconv, sort, time,
-- path/filepath, fmt and encoding/json; Base holds numbers, lists and tests.
--
-- Bounds. Go's int is a signed integer without a bound, but for the two places that meet the bounds of
-- 64 bits: strconv.Atoi tests the range, and the shrink guard subtracts two counts and divides them as
-- float64. Base/Float has that difference with its wrap-around, and the rounding of an int to 53
-- binary digits; the theorems on the guard are for counts from 0 to below 2^53, which are exact. The
-- program has no loop but those over a list, which are structural; os.CreateTemp
-- gives up after ten thousand names, as Go's does. The pages of a listing are those of the state in
-- which it began.
--
-- Serve is modelled for the number of timers that fire before it is told to stop; which moments the
-- schedule names is not modelled, and whether the process was told to stop is asked of Outside where
-- the code asks its context. A command's run that a shutdown interrupts shows as an error of the
-- call that was interrupted.
--
-- World/Apart holds the actions that leave the object store alone, and no fault pending where none
-- was, Exec/Errorless those that return no error, each with a ruleset that proves it of a whole
-- block; Run/Gated, Main/Commands and Schedule/Served stand on them. R2/Kept, R2/Backup/Kept and
-- R2/Prune/Kept hold what the backups and the prunings leave in the object store, Run/Succeeds the
-- rules for a run that reports no error; Run/Delivered composes them with the export, the
-- validation and the upload, and Run/Bootstrapped with the seeding.
--
-- Not modelled: the lines of the log and other output, the levels of the log, timeouts, open file
-- handles, directories and permissions, the scripts and the container.

pub mod Base
pub mod Text
pub mod FilePath
pub mod Exec
pub mod Outside
pub mod World
pub mod Config
pub mod R2
pub mod Publish
pub mod Json
pub mod Validate
pub mod Fetch
pub mod Snapshot
pub mod Pcgw
pub mod Run
pub mod Notify
pub mod Schedule
pub mod Repair
pub mod Logx
pub mod Main
mod Tests
