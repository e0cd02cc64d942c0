-- ===== src/Lib.antt =====
-- Nebari, an append-only B-tree database: a verification library of its core.
--
-- The program stores keys in B-trees whose nodes are chunks of a file. A tree is changed by a
-- modification, a list of ascending keys with one operation, that `BTreeEntry::modify` carries down
-- from the root: a leaf edits its entries, and every interior on the way rebalances its children.
--
-- Files and what they model:
--   Common, Common/Lists, Common/Ord, Common/Tests: shared names, lists over the native numbers, and
--     the order of keys. The keys are `ArcBytes` of the crate `arc-bytes`; here any type with a
--     comparison that obeys the laws Rust documents for `Ord`.
--   Error: nebari/src/error.rs, and the postconditions `Ensures` of fallible code.
--   Tree/Node: nebari/src/tree/interior.rs, key_entry.rs and the types of btree_entry.rs. The type
--     of the entries below a node is a parameter, and `Below h` ties the knot for trees that nest at
--     most `h` deep.
--   Tree/Modification: nebari/src/tree/modify.rs (`Modification`, `PersistenceMode`, `reverse`).
--   Tree/Splice, Tree/Balance, Tree/Absorb: nebari/src/tree/btree_entry.rs from `clean_up_leaf` to
--     `split_root`: stealing from neighbours, splitting, absorbing and the rows of
--     `process_interior_change_result`.
--   Tree/Modify, Tree/Modify/Leaf, Tree/Modify/Node: `modify_leaf`, `modify_interior` and `modify`.
--   Tree/Root: the loop of `modify_id_root` of nebari/src/tree/unversioned.rs and versioned.rs, and
--     `dynamic_order` of nebari/src/tree/mod.rs.
--   Tree/Contents: the entries that a tree stands for, and the soundness of a tree.
--   Tree/Spec: what a modification means for an ordered list of entries, without nodes.
--   Stats: nebari/src/tree/by_id.rs and by_sequence.rs, the indexes, the statistics and the reducers.
--   Encoding: the `serialize_to` and `deserialize_from` of nebari/src/tree/by_id.rs, by_sequence.rs
--     and key_entry.rs, and `LogEntry` of nebari/src/transaction/log.rs. The crates `byteorder` and
--     `arc-bytes` are the interface `ByteOrder`.
--   Encoding/Nodes: the same of nebari/src/tree/interior.rs and btree_entry.rs; `write_chunk` of the
--     paged writer is a parameter. A child takes at least a byte, so as much fuel as there are bytes
--     is enough to read the children.
--   Io/Memory: nebari/src/io/memory.rs, one handle of the in-memory file.
--   Transaction/State: nebari/src/transaction/state.rs, with the cache of the crate `lru` as the
--     interface `Cache`.
--   Transaction/Log: nebari/src/transaction/log.rs: the pages, `LogWriter`, `scan_for_transaction` and
--     `initialize_state`. Below it: Pages and Segments, what is written is read; Files, a log as the
--     segments of its entries; Scan, Recovery and Reopen.
--   Transaction/Search: `guess_page`, `fetch_entry` and `EntryScanner` of the same file.
--   Transaction/Ids: `IdSequence` of nebari/src/transaction/manager.rs, as a set of ids.
--   Transaction/Manager: `ManagerThread` of the same file over an interface of the log, `LogOps`, which
--     Transaction/Manager/Log fills; and `transaction_position`.
--   Transaction/Lock: `TreeLock` of the same file as a step relation.
--   Tests: the theorems at concrete trees, and runs of the model.
--
-- Conventions. A vector that is walked with an index is a pair of lists, the elements before the
-- index nearest first and those from it on. `usize` values are numbers without a bound: they count
-- elements of vectors. The sums of statistics, the location that `guess_page` estimates and the
-- cube of `dynamic_order` wrap at 2 ^ 64, as in a release build; other ids, counts and positions
-- are taken to fit. A panic of the program is the error `panic`, and fallible code returns a
-- `Result`. What the callbacks of a modification change, the writer included, is a state that is
-- passed along. Reading a chunk and decoding it is a parameter, the `Store`, and so are the reducer
-- and the callbacks. The cube root of `dynamic_order` is a parameter.
--
-- Fuel. The loop of `modify_interior` takes a key in each round, and its fuel is the number of keys
-- and one more; `process_interior_change_result` calls itself after a child has been removed, and
-- its fuel is the number of children; a round of the root's loop takes a key.
--
-- In the transaction log, the pages of a payload take its length as fuel, a scan the length of the file
-- and its start, and the search for an id the next id: each round narrows the ids between its bounds.
--
-- A manager thread gets commands from transactions, each of which holds the locks of its trees; it
-- gathers their entries, and pushes a batch to the log when no id below is missing, so that the log is
-- written in the order of the ids; then the locks go back to who committed.
--
-- Not modelled: the operating system's files, the chunk cache, and the spawning of threads; the
-- encodings of roots; reads and scans of trees; the sequence tree of versioned roots; the debug
-- assertions on the order of children. The vault and the floating-point estimates of `guess_page`
-- are parameters. The file of a log fails only where it is read past its end. `binary_search_by` of
-- the standard library is a search from the left, which is the same where the keys are sorted; of
-- keys that are not, the library leaves the answer open.
pub mod Common
pub mod Error
pub mod Tree
pub mod Stats
pub mod Encoding
pub mod Io
pub mod Transaction
pub mod Tests
