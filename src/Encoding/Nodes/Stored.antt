-- ===== src/Encoding/Nodes/Stored.antt =====
-- A node of a B-tree is read back as it was written, with its children's locations in place of the
-- children.
use nebari.Common.{ℕ, zero, suc, ◌<◌, ◌≡◌, none, some, List, ◌++◌, length, map}
use nebari.Error.{Result, ok, Ensures}
use nebari.Tree.Node.{
  Pointer, on_disk, loaded, Interior, BTreeNode, uninitialized, leaf, interior, BTreeEntry, Entry,
}
use nebari.Encoding.{ByteOrder, Serialization}
use nebari.Encoding.RoundTrip.{Written}
use nebari.Encoding.Nodes.{deserialize_node}
use nebari.Encoding.Nodes.All.{Each}

module _ {K R E : Type 0} where
  -- What a node holds, but for its children.
  abbrev pub without_child : Interior K R E → Interior K R Unit
  without_child i = record { key = i.key; position = on_disk 0; stats = i.stats }

module _ {K X R E : Type 0} where
  abbrev pub without_children : BTreeNode K X R E → BTreeNode K X R Unit
  without_children uninitialized = uninitialized
  without_children (leaf leafs) = leaf leafs
  without_children (interior interiors) = interior (map without_child interiors)

-- Every location that a node will hold fits 64 bits.
module _ {E : Type 0} (P : E → Type 0) where
  abbrev pub FitsPointer : Pointer E → Type 0
  FitsPointer (on_disk position) = position < 18446744073709551616
  FitsPointer (loaded none e) = P e
  FitsPointer (loaded (some position) e) = (position < 18446744073709551616) × P e

  abbrev pub FitsNode : {K X R : Type 0} → BTreeNode K X R E → Type 0
  FitsNode uninitialized = Unit
  FitsNode (leaf leafs) = Unit
  FitsNode (interior interiors) = Each (λ i. FitsPointer i.position) interiors

abbrev pub Fits : {B X R : Type 0} (h : ℕ) → Entry (List B) X R h → Type 0
Fits zero entry = FitsNode (λ e. Unit) entry.node
Fits (suc h) entry = FitsNode (Fits h) entry.node

module _ {B W X R E : Type 0} (b : ByteOrder B) (index : Serialization B W X)
    (statistics : Serialization B W R) where
  -- The entry that the answer holds has been appended in some bytes, which are read back as it.
  pub record NodeStored (entry : BTreeEntry (List B) X R E) (writer : List B)
      (r : ℕ × BTreeEntry (List B) X R E × List B × W) : Type 0 where
    pub bytes : List B
    pub appended : r.2 ≡ writer ++ bytes
    pub counted : r.0 ≡ length bytes
    pub kept : without_children r.1.node ≡ without_children entry.node
    pub readable : deserialize_node b index statistics bytes ≡ ok r.1

module _ {B W X R : Type 0} (b : ByteOrder B) (index : Serialization B W X)
    (statistics : Serialization B W R) (write_chunk : List B → W → Result (ℕ × W))
    (index-Written : (x : X) (before : List B) (w : W)
      → Ensures (Written index.deserialize_from x before) (index.serialize_to x before w))
    (statistics-Written : (x : R) (before : List B) (w : W)
      → Ensures (Written statistics.deserialize_from x before) (statistics.serialize_to x before w))
    (location_fits : (chunk : List B) (w : W)
      → Ensures (λ r. r.0 < 18446744073709551616) (write_chunk chunk w)) where
  -- A writer of children appends to the buffer.
  abbrev Appends : {E : Type 0} → (E → List B → W → Result (ℕ × E × List B × W)) → E → Type 0
  Appends serialize_child e =
      (before : List B) (w : W)
      → Ensures (λ r. (bytes : List B) × (r.2 ≡ before ++ bytes)) (serialize_child e before w)
