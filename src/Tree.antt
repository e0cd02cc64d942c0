-- ===== src/Tree.antt =====
-- nebari/src/tree: the B-tree.
pub mod Node
pub mod Splice
pub mod Balance
pub mod Absorb
pub mod Modification
pub mod Modify
pub mod Root
pub mod Contents
pub mod Spec
