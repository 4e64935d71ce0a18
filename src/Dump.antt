-- ===== src/Dump.antt =====
-- slice_db/dump.py and slice_db/dump_temp_table.py
pub mod Schema
pub mod Discovery
pub mod Tasks
pub mod Output
pub mod Sections
pub mod Sequences
pub mod Entry
