-- ===== src/Tests/Nodes.antt =====
-- A node with a child on disk and a changed child, written and read back.
use nebari.Common.{ℕ, ◌≡◌, refl, true, false, none, List, [], ◌∷◌}
use nebari.Error.{Result, ok}
use nebari.Tree.Node.{on_disk, loaded, leaf, interior, Entry}
use nebari.Encoding.{serialize_entry}
use nebari.Encoding.Nodes.{
  serialize_entries, serialize_node, serialize_interior, deserialize_node, deserialize_interior,
}
use nebari.Tests.Bytes.{big_endian, one_byte}

-- A chunk is always placed at 4096.
abbrev place : List ℕ → Unit {0} → Result (ℕ × Unit {0})
place chunk w = ok (4096, w)

abbrev below : Entry (List ℕ) ℕ ℕ 0
below = record { dirty = true; node = leaf (record { key = 7 ∷ []; index = 9 } ∷ []) }

abbrev above : Entry (List ℕ) ℕ ℕ 1
above = record {
  dirty = true;
  node = interior (
      record { key = 5 ∷ []; position = on_disk 70000; stats = 3 }
      ∷ record { key = 7 ∷ []; position = loaded none below; stats = 4 }
      ∷ []);
}

abbrev above_bytes : List ℕ
above_bytes =
    0 ∷ 0 ∷ 1 ∷ 5 ∷ 0 ∷ 0 ∷ 0 ∷ 0 ∷ 0 ∷ 1 ∷ 17 ∷ 112 ∷ 3 ∷ 0 ∷ 1 ∷ 7 ∷ 0 ∷ 0 ∷ 0 ∷ 0 ∷ 0 ∷ 0 ∷ 16
    ∷ 0 ∷ 4 ∷ []

abbrev above_saved : Entry (List ℕ) ℕ ℕ 1
above_saved = record {
  dirty = false;
  node = interior (
      record { key = 5 ∷ []; position = on_disk 70000; stats = 3 }
      ∷ record { key = 7 ∷ []; position = on_disk 4096; stats = 4 }
      ∷ []);
}

write_above :
    serialize_entries big_endian one_byte one_byte place 1 above [] tt
    ≡ ok (25, above_saved, above_bytes, tt)
unfolding serialize_entries serialize_node serialize_interior serialize_entry
write_above = refl

read_above : deserialize_node big_endian one_byte one_byte above_bytes ≡ ok above_saved
unfolding deserialize_node deserialize_interior
read_above = refl
