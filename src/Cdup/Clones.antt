-- ===== src/Cdup/Clones.antt =====
-- cdup/src/detect.py: the detection of clones.
pub mod Normalize
pub mod Scan
pub mod Filters
pub mod Semantic
mod Examples
