-- ===== src/Upload/Archive.antt =====
-- The uploads of files (`DQMFileAccess.put` of src/python/DQM/GUI.py) as an archive that only grows: the
-- specification, and that every sequence of uploads meets it.
pub mod Spec
pub mod Refines
