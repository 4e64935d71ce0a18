-- ===== src/Collection.antt =====
-- slice_db/collection
pub mod Numpy
pub mod IntSet
