-- ===== src/Validate.antt =====
-- internal/validate: the checks of the artifacts in a directory. An error message is a text, and the
-- empty text means that there is none. The children model the checks of the bundle (`Bundle`) and of
-- the whole directory (`Dir`).
pub mod Bundle
pub mod Dir
