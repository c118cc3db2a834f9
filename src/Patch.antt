-- ===== src/Patch.antt =====
-- source/shared/RCResourcePatch.c: edits of single properties in the text of a vCard or a calendar.
pub mod Folding
pub mod Edits
pub mod Scanning
pub mod Splicing
pub mod Folded
pub mod Ordered
pub mod Scanned
pub mod Patched
