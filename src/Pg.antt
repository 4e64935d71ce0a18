-- ===== src/Pg.antt =====
-- slice_db/pg: the statement splitter, the COPY text format and the tid codec.
pub mod Token
pub mod Copy
pub mod Tid
