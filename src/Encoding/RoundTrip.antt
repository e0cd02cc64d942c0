-- ===== src/Encoding/RoundTrip.antt =====
-- What is written is read back, and nothing of what follows it is touched.
use nebari.Common.{ℕ, ◌+◌, ◌<◌, ◌≡◌, List, ◌++◌, length, length-append, append_assoc, arith}
use nebari.Error.{Result, ok, Ensures, Ensures-ok, Ensures-bind}
use nebari.Stats.{VersionedByIdIndex, UnversionedByIdIndex, ByIdStats}
use nebari.Encoding.{
  Width, u32, u64, width, ByteOrder, Serialization, serialize_versioned, deserialize_versioned,
  serialize_unversioned, deserialize_unversioned, serialize_stats, deserialize_stats,
}

module _ {B W A : Type 0} (deserialize_from : List B → Result (A × List B)) where
  -- Bytes have been appended to the buffer, as many as are reported, and reading them, whatever
  -- follows, gives the value.
  pub record Written (a : A) (writer : List B) (r : ℕ × List B × W) : Type 0 where
    pub bytes : List B
    pub appended : r.1 ≡ writer ++ bytes
    pub counted : r.0 ≡ length bytes
    pub readable : (rest : List B) → deserialize_from (bytes ++ rest) ≡ ok (a, rest)

module _ {B : Type 0} (b : ByteOrder B) where
  pub length_parts :
      (n : Width) (x : ℕ) (rest : List B) → length (b.write n x ++ rest) ≡ width n + length rest
  length_parts n x rest = omega (arith, length-append (b.write n x) rest, b.length-write n x)

module _ {B W X : Type 0} (b : ByteOrder B) (embedded : Serialization B W X) where
  -- Writing an index of a versioned tree, where it returns, appends as many bytes as it reports, and
  -- reading them back, whatever follows, gives the index, if its numbers fit their widths and its
  -- embedded index is read back.
  pub versioned-Written :
      (i : VersionedByIdIndex X) (writer : List B) (w : W)
      → i.sequence_id < 18446744073709551616
      → i.value_length < 4294967296
      → i.position < 18446744073709551616
      → ((before : List B)
          → Ensures
              (Written embedded.deserialize_from i.embedded before)
              (embedded.serialize_to i.embedded before w))
      → Ensures
          (Written (deserialize_versioned b embedded) i writer)
          (serialize_versioned b embedded i writer w)
  unfolding serialize_versioned deserialize_versioned
  versioned-Written i writer w hs hl hp he = Ensures-bind _ _ (he _) λ r hr. Ensures-ok _ (record {
    bytes =
        b.write u64 i.sequence_id
        ++ (b.write u32 i.value_length ++ (b.write u64 i.position ++ hr.bytes));
    appended = simp (hr.appended, append_assoc);
    counted = omega (
      arith,
      hr.counted,
      length_parts b u64 i.sequence_id _,
      length_parts b u32 i.value_length _,
      length_parts b u64 i.position hr.bytes,
    );
    readable = λ rest. simp (
      append_assoc,
      λ (t : List B). b.read-write u64 i.sequence_id t hs,
      λ (t : List B). b.read-write u32 i.value_length t hl,
      λ (t : List B). b.read-write u64 i.position t hp,
      hr.readable,
    );
  })

  -- Writing an index of an unversioned tree, where it returns, appends as many bytes as it reports,
  -- and reading them back, whatever follows, gives the index, if its numbers fit their widths and
  -- its embedded index is read back.
  pub unversioned-Written :
      (i : UnversionedByIdIndex X) (writer : List B) (w : W)
      → i.value_length < 4294967296
      → i.position < 18446744073709551616
      → ((before : List B)
          → Ensures
              (Written embedded.deserialize_from i.embedded before)
              (embedded.serialize_to i.embedded before w))
      → Ensures
          (Written (deserialize_unversioned b embedded) i writer)
          (serialize_unversioned b embedded i writer w)
  unfolding serialize_unversioned deserialize_unversioned
  unversioned-Written i writer w hl hp he = Ensures-bind _ _ (he _) λ r hr. Ensures-ok _ (record {
    bytes = b.write u32 i.value_length ++ (b.write u64 i.position ++ hr.bytes);
    appended = simp (hr.appended, append_assoc);
    counted = omega (
      arith,
      hr.counted,
      length_parts b u32 i.value_length _,
      length_parts b u64 i.position hr.bytes,
    );
    readable = λ rest. simp (
      append_assoc,
      λ (t : List B). b.read-write u32 i.value_length t hl,
      λ (t : List B). b.read-write u64 i.position t hp,
      hr.readable,
    );
  })

  -- Writing statistics, where it returns, appends as many bytes as it reports, and reading them back,
  -- whatever follows, gives the statistics, if the numbers fit 64 bits and the embedded statistics
  -- are read back.
  pub stats-Written :
      (i : ByIdStats X) (writer : List B) (w : W)
      → i.alive_keys < 18446744073709551616
      → i.deleted_keys < 18446744073709551616
      → i.total_indexed_bytes < 18446744073709551616
      → ((before : List B)
          → Ensures
              (Written embedded.deserialize_from i.embedded before)
              (embedded.serialize_to i.embedded before w))
      → Ensures
          (Written (deserialize_stats b embedded) i writer)
          (serialize_stats b embedded i writer w)
  unfolding serialize_stats deserialize_stats
  stats-Written i writer w ha hd ht he = Ensures-bind _ _ (he _) λ r hr. Ensures-ok _ (record {
    bytes =
        b.write u64 i.alive_keys
        ++ (b.write u64 i.deleted_keys ++ (b.write u64 i.total_indexed_bytes ++ hr.bytes));
    appended = simp (hr.appended, append_assoc);
    counted = omega (
      arith,
      hr.counted,
      length_parts b u64 i.alive_keys _,
      length_parts b u64 i.deleted_keys _,
      length_parts b u64 i.total_indexed_bytes hr.bytes,
    );
    readable = λ rest. simp (
      append_assoc,
      λ (t : List B). b.read-write u64 i.alive_keys t ha,
      λ (t : List B). b.read-write u64 i.deleted_keys t hd,
      λ (t : List B). b.read-write u64 i.total_indexed_bytes t ht,
      hr.readable,
    );
  })
