-- ===== src/Tree/Modify.antt =====
-- nebari/src/tree/btree_entry.rs: `BTreeEntry::modify` and what it calls.
pub mod Leaf
pub mod Node
pub mod OneKey
