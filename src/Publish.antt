-- ===== src/Publish.antt =====
-- internal/publish: the export of the manifest into the output directory. The children model the
-- guard against a shrunken bundle (`Shrink`), the list of releases (`Release`), the index that the
-- new one follows (`Previous`) and the whole export (`Export`).
pub mod Shrink
pub mod Release
pub mod Previous
pub mod Export
