-- ===== src/Lib.antt =====
-- slice-db copies a consistent part of a PostgreSQL database. A dump starts from the rows that its
-- roots ask for, follows foreign keys in both directions, and writes the rows it finds to a slice; a
-- restore copies a slice to another database. On the way, columns can be transformed, so that no
-- personal data leaves the first database. This library models the parts that decide what is
-- written, in which order, and as which text.
--
-- Parts and files:
-- - Prelude: lists, Python's str, dict and exceptions, and the lemmas on them.
-- - Formats: slice_db/formats, the data classes of the schema, the manifest and the transforms.
-- - Dump/Schema: class Schema of slice_db/dump.py, tables and references. Table objects stand in a
--   store under their ids, and a reference names its two tables. Children: Linked (the references of
--   the tables), Missing (a table that is not configured), Filed (the sequences of the tables).
-- - Collection/IntSet: slice_db/collection/set.py, the set of row ids of a table; numpy's sort and
--   binary search are a parameter (Collection/Numpy).
-- - Dump/Discovery: class _DiscoveryResult of slice_db/dump.py, the known rows of all tables, and the
--   manifest that grows with them.
-- - Dump/Tasks: slice_db/dump_temp_table.py, the tasks that discover rows. A task is the list of its
--   steps between two awaits, and a schedule, a list of places in the pool of tasks, stands for the
--   choices of the event loop. The queries are a parameter, Database: all of them read one snapshot,
--   so an answer does not depend on the moment. Children of the file: Rules (from steps to runs),
--   Chunks and Members (what a list of found rows is cut into), Partition (what is known is written
--   once), Numbers (the segments and the manifest), Sound (only reachable rows), Kept, Complete and
--   Closed (all the followed references).
-- - Dump/Output: the last step of a task of slice_db/dump_temp_table.py and _SliceOutput of
--   slice_db/dump.py, the segments and statements as they are written to a slice: Found (what a sum
--   over the writes shows), Entries (which write an entry has), Complete (the manifest's segments).
-- - Dump/Sections: class _SchemaTask of slice_db/dump.py; Dump/Sequences: _dump_sequences.
-- - Dump/Entry: dump, _dump_rows and _set_row_counts of slice_db/dump.py, which compose the parts: from
--   the configuration to the manifest and the slice. The database, pg_dump and JSON are a parameter,
--   Environment; the order of tasks and of writes is a parameter, Choices. Children: Fresh, Frame,
--   SectionTasks, Rows (each stage), Restored (the whole), Unknown (a root without a table).
-- - Pg/Token: slice_db/pg/token.py, the splitter of SQL statements; Pg/Copy: slice_db/pg/copy.py, the
--   text format of COPY; Pg/Tid: slice_db/pg/__init__.py, the codec of row ids.
-- - Transform: slice_db/transform.py and slice_db/transforms/common.py; Text: the transformers of
--   slice_db/transforms/text.py, person.py and address.py (Text/Address, with groups of
--   slice_db/collection/dict.py). A transformer's counter and a random generator are passed on.
-- - Slice: slice_db/slice.py, the entries of a slice: Paths (their names), Frame and Sequences (what
--   is read back).
-- - Restore: slice_db/restore.py, what is sent to the database, and the tasks that copy the tables.
--   Reads has what a restore reads from the slice for it.
-- - Lock, Queue, Graph: slice_db/concurrent/lock.py, slice_db/concurrent/queue.py and
--   slice_db/graph/__init__.py.
-- - SchemaFilter: children of slice_db/cli/schema_filter.py: Visit and Returns have its search.
-- The dump takes its schema from Formats and its row sets from Collection; its tasks write through
-- Transform, which reads and writes fields by Pg/Copy, to the entries of Slice. A restore reads these.
--
-- Fuel: parse_field runs one round for each character and one more, each round passes a
-- character; the loop of the splitter runs on a number of rounds that is given, and the theorem
-- on it gives a number that is enough, where the loop ends at all; the transformer of words runs
-- one round for each character and one more; transform is bounded by the depth of transformers
-- that call others, which has no bound when a transformer is composed of itself; check_cycle runs
-- on rounds that are given; so does the search of SchemaFilter, where more rounds than tables are
-- enough; the statements of a section are split with a number of rounds that is enough, where the
-- loop ends. Schedules and lists of events are any finite lists.
--
-- Not modelled: connections, SQL texts and their execution, files, JSON, the command line, the
-- options and messages of logs; the option `unique` of the transformer of letters and digits, which
-- encrypts by a library; the transformers of dates and JSON; reading the data files of names, streets,
-- cities, postal codes and states; dump_memory.py, which nothing imports; the output of
-- slice_db/dump.py as SQL. A task that fails is in Queue only. Row ids are natural numbers: the 48
-- bits of a tid fit in the 64 bits of the arrays that hold them.
pub mod Prelude
pub mod Pg
pub mod Collection
pub mod Formats
pub mod Dump
pub mod Restore
pub mod Transform
pub mod Text
pub mod Lock
pub mod Graph
pub mod Queue
pub mod SchemaFilter
pub mod Slice
