-- ===== src/Encoding/Nodes.antt =====
-- nebari/src/tree/btree_entry.rs, interior.rs: how the nodes of a B-tree are written and read back.
--
-- Writing a node stores its changed children first, each as a chunk of its own, and leaves their
-- locations in the node. `write_chunk` of the paged writer is a parameter, and `W` is what it
-- changes. The caches are left out, and so is `assert_children_order!`, which a release build skips.

pub mod All
pub mod Stored
use nebari.Common.{
  ℕ, zero, suc, ◌+◌, Bool, true, false, Option, none, some, List, [], ◌∷◌, ◌++◌, length, take, drop,
  ltb, if◌then◌else◌,
}
use nebari.Error.{Result, ok, err, panic, data_integrity, key_too_large, ◌>>=◌}
use nebari.Tree.Node.{
  KeyEntry, Pointer, on_disk, loaded, Interior, BTreeNode, uninitialized, leaf, interior,
  BTreeEntry, Below, Entry,
}
use nebari.Encoding.{
  u8, u16, u64, ByteOrder, Serialization, put, serialize_entry, deserialize_entry,
}

module _ {B W A : Type 0} where
  -- `for child in children { bytes_written += child.serialize_to(writer, paged_writer)? }`
  abbrev pub serialize_all :
      (A → List B → W → Result (ℕ × A × List B × W))
      → List A
      → List B
      → W
      → Result (ℕ × List A × List B × W)
  serialize_all serialize_to [] writer w = ok (0, [], writer, w)
  serialize_all serialize_to (child ∷ children) writer w = do
    (n, child, writer, w) ← serialize_to child writer w
    (m, children, writer, w) ← serialize_all serialize_to children writer w
    ok (n + m, child ∷ children, writer, w)

module _ {B A : Type 0} where
  -- `while !reader.is_empty()`; a child takes at least a byte, so the length of the reader is enough
  -- fuel.
  abbrev pub deserialize_all : (List B → Result (A × List B)) → ℕ → List B → Result (List A)
  deserialize_all deserialize_from zero [] = ok []
  deserialize_all deserialize_from zero (b ∷ reader) = err panic
  deserialize_all deserialize_from (suc fuel) [] = ok []
  deserialize_all deserialize_from (suc fuel) (b ∷ reader) = do
    (child, reader) ← deserialize_from (b ∷ reader)
    children ← deserialize_all deserialize_from fuel reader
    ok (child ∷ children)

module _ {B W X : Type 0} (bytes : ByteOrder B) (index : Serialization B W X) where
  abbrev pub serialize_leaf_entry :
      KeyEntry (List B) X → List B → W → Result (ℕ × KeyEntry (List B) X × List B × W)
  serialize_leaf_entry e writer w = do
    (n, writer, w) ← serialize_entry bytes index e writer w
    ok (n, e, writer, w)

module _ {B W X R : Type 0} (bytes : ByteOrder B) (index : Serialization B W X)
    (statistics : Serialization B W R) (write_chunk : List B → W → Result (ℕ × W)) where
  module _ {E : Type 0} (is_dirty : E → Bool)
      (serialize_child : E → List B → W → Result (ℕ × E × List B × W)) where
    -- The child is written behind the buffer, stored as a chunk, and cut off again.
    abbrev pub store : E → List B → W → Result (ℕ × List B × W)
    store e writer w = do
      (n, e, written, w) ← serialize_child e writer w
      (position, w) ← write_chunk (drop (length writer) written) w
      ok (position, take (length writer) written, w)

    abbrev pub location_on_disk : Pointer E → List B → W → Result (ℕ × List B × W)
    location_on_disk (on_disk position) writer w = ok (position, writer, w)
    location_on_disk (loaded none e) writer w = store e writer w
    location_on_disk (loaded (some position) e) writer w =
        if is_dirty e then store e writer w else ok (position, writer, w)

    -- The key, the location and the statistics.
    abbrev pub serialize_located :
        Interior (List B) R E → ℕ → List B → W → Result (ℕ × Interior (List B) R E × List B × W)
    serialize_located i location writer w =
        if ltb (length i.key) 65536
        then (statistics.serialize_to i.stats
              (put bytes u64 location (put bytes u16 (length i.key) writer ++ i.key)) w
            >>= λ (n, writer, w).
                ok (10 + length i.key + n, record i { position = on_disk location }, writer, w))
        else err key_too_large

    unfoldable pub serialize_interior :
        Interior (List B) R E → List B → W → Result (ℕ × Interior (List B) R E × List B × W)
    serialize_interior i writer w = do
      (location, writer, w) ← location_on_disk i.position writer w
      serialize_located i location writer w

    -- `BTreeEntry::serialize_to`
    unfoldable pub serialize_node :
        BTreeEntry (List B) X R E → List B → W → Result (ℕ × BTreeEntry (List B) X R E × List B × W)
    serialize_node entry writer w = elim entry.node [
      | uninitialized ↦ err panic
      | leaf leafs ↦ do
        (n, leafs, writer, w) ←
            serialize_all (serialize_leaf_entry bytes index) leafs (put bytes u8 1 writer) w
        ok (1 + n, record { dirty = false; node = leaf leafs }, writer, w)
      | interior interiors ↦ do
        (n, interiors, writer, w) ←
            serialize_all serialize_interior interiors (put bytes u8 0 writer) w
        ok (1 + n, record { dirty = false; node = interior interiors }, writer, w)
    ]

  -- Nodes that nest at most `h` deep.
  unfoldable pub serialize_entries :
      (h : ℕ) → Entry (List B) X R h → List B → W → Result (ℕ × Entry (List B) X R h × List B × W)
  serialize_entries zero entry = serialize_node (λ e. absurd e) (λ e. absurd e) entry
  serialize_entries (suc h) entry = serialize_node (λ e. e.dirty) (serialize_entries h) entry

module _ {B W X R : Type 0} (bytes : ByteOrder B) (index : Serialization B W X)
    (statistics : Serialization B W R) where
  module _ {E : Type 0} where
    unfoldable pub deserialize_interior : List B → Result (Interior (List B) R E × List B)
    deserialize_interior reader = do
      (key_len, reader) ← bytes.read u16 reader
      (key, reader) ←
          if ltb (length reader) key_len
          then err data_integrity
          else bytes.read_bytes key_len reader
      (position, reader) ← bytes.read u64 reader
      (stats, reader) ← statistics.deserialize_from reader
      ok (record { key = key; position = on_disk position; stats = stats }, reader)

    -- The children by the header of the node.
    abbrev pub deserialize_children : ℕ → List B → Result (BTreeNode (List B) X R E)
    deserialize_children zero reader = do
      nodes ← deserialize_all deserialize_interior (length reader) reader
      ok (interior nodes)
    deserialize_children (suc zero) reader = do
      nodes ← deserialize_all (deserialize_entry bytes index) (length reader) reader
      ok (leaf nodes)
    deserialize_children (suc (suc n)) reader = err data_integrity

    -- `BTreeEntry::deserialize_from`
    unfoldable pub deserialize_node : List B → Result (BTreeEntry (List B) X R E)
    deserialize_node reader = do
      (node_header, reader) ← bytes.read u8 reader
      node ← deserialize_children node_header reader
      ok (record { dirty = false; node = node })
