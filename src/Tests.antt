-- ===== src/Tests.antt =====
-- An object store in memory, with the codecs and the rest of the outside at their simplest, and the
-- theorems at concrete inputs over it.
mod Memory
mod Upload
mod Archives
mod Backups
mod Publishing
mod Settings
mod Validating
mod Fetching
mod Runs
mod Delivering
mod Serving
mod Repairing
