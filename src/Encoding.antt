-- ===== src/Encoding.antt =====
-- nebari/src/tree/serialization.rs, by_id.rs, by_sequence.rs, key_entry.rs, transaction/log.rs: how
-- values are written as bytes and read back.
--
-- The numbers are written by the crate `byteorder`, and `read_bytes` belongs to `arc-bytes`: both
-- are an interface here, with the laws that the crates document.
pub mod RoundTrip
pub mod Entries
pub mod Nodes
use nebari.Common.{
  ℕ, ◌+◌, ◌<◌, ◌≡◌, Bool, true, false, Option, none, some, List, [], ◌∷◌, ◌++◌, length, ltb, leb,
  if◌then◌else◌,
}
use nebari.Error.{Result, ok, err, data_integrity, io, key_too_large, value_too_large, ◌>>=◌}
use nebari.Tree.Node.{KeyEntry}
use nebari.Tree.Modification.{TransactionId}
use nebari.Stats.{
  SequenceId, VersionedByIdIndex, UnversionedByIdIndex, ByIdStats, BySequenceIndex, BySequenceStats,
}

-- The unsigned integers that are written, big-endian.
pub data Width : Type 0 where
  u8 u16 u32 u64 : Width

abbrev pub limit : Width → ℕ
limit u8 = 256
limit u16 = 65536
limit u32 = 4294967296
limit u64 = 18446744073709551616

abbrev pub width : Width → ℕ
width u8 = 1
width u16 = 2
width u32 = 4
width u64 = 8

pub record ByteOrder (B : Type 0) : Type 0 where
  pub write : Width → ℕ → List B
  pub read : Width → List B → Result (ℕ × List B)
  pub read_bytes : ℕ → List B → Result (List B × List B)
  pub length-write : (w : Width) (n : ℕ) → length (write w n) ≡ width w
  pub read-write :
      (w : Width) (n : ℕ) (rest : List B) → n < limit w → read w (write w n ++ rest) ≡ ok (n, rest)
  pub read_bytes-append :
      (bytes rest : List B) → read_bytes (length bytes) (bytes ++ rest) ≡ ok (bytes, rest)

-- `BinarySerialization`, and `Serializable` of the embedded types; `W` is what the paged writer may
-- change. The answer of a writer is the number of bytes, the buffer and that.
pub record Serialization (B W A : Type 0) : Type 0 where
  pub serialize_to : A → List B → W → Result (ℕ × List B × W)
  pub deserialize_from : List B → Result (A × List B)

module _ {B : Type 0} (bytes : ByteOrder B) where
  -- `writer.write_*::<BigEndian>(n)`
  abbrev pub put : Width → ℕ → List B → List B
  put w n writer = writer ++ bytes.write w n

  module _ {W X : Type 0} (embedded : Serialization B W X) where
    abbrev pub add_written : ℕ → Result (ℕ × List B × W) → Result (ℕ × List B × W)
    add_written n r = do (m, writer, w) ← r; ok (n + m, writer, w)

    unfoldable pub serialize_versioned : VersionedByIdIndex X → List B → W → Result (ℕ × List B × W)
    serialize_versioned i writer w = add_written 20 (
        embedded.serialize_to i.embedded
          (put u64 i.position (put u32 i.value_length (put u64 i.sequence_id writer))) w)

    unfoldable pub deserialize_versioned : List B → Result (VersionedByIdIndex X × List B)
    deserialize_versioned reader = do
      (sequence_id, reader) ← bytes.read u64 reader
      (value_length, reader) ← bytes.read u32 reader
      (position, reader) ← bytes.read u64 reader
      (x, reader) ← embedded.deserialize_from reader
      ok (
        record {
          sequence_id = sequence_id;
          value_length = value_length;
          position = position;
          embedded = x;
        },
        reader,
      )

    unfoldable pub serialize_unversioned :
        UnversionedByIdIndex X → List B → W → Result (ℕ × List B × W)
    serialize_unversioned i writer w =
        add_written 12
          (embedded.serialize_to i.embedded (put u64 i.position (put u32 i.value_length writer)) w)

    unfoldable pub deserialize_unversioned : List B → Result (UnversionedByIdIndex X × List B)
    deserialize_unversioned reader = do
      (value_length, reader) ← bytes.read u32 reader
      (position, reader) ← bytes.read u64 reader
      (x, reader) ← embedded.deserialize_from reader
      ok (record { value_length = value_length; position = position; embedded = x }, reader)

    unfoldable pub serialize_stats : ByIdStats X → List B → W → Result (ℕ × List B × W)
    serialize_stats s writer w = add_written 24 (
        embedded.serialize_to s.embedded
          (put u64 s.total_indexed_bytes (put u64 s.deleted_keys (put u64 s.alive_keys writer))) w)

    unfoldable pub deserialize_stats : List B → Result (ByIdStats X × List B)
    deserialize_stats reader = do
      (alive_keys, reader) ← bytes.read u64 reader
      (deleted_keys, reader) ← bytes.read u64 reader
      (total_indexed_bytes, reader) ← bytes.read u64 reader
      (x, reader) ← embedded.deserialize_from reader
      ok (
        record {
          alive_keys = alive_keys;
          deleted_keys = deleted_keys;
          total_indexed_bytes = total_indexed_bytes;
          embedded = x;
        },
        reader,
      )

    -- `KeyEntry`, whose index is written by `embedded`
    unfoldable pub serialize_entry : KeyEntry (List B) X → List B → W → Result (ℕ × List B × W)
    serialize_entry e writer w =
        if ltb (length e.key) 65536
        then add_written (2 + length e.key)
            (embedded.serialize_to e.index (put u16 (length e.key) writer ++ e.key) w)
        else err key_too_large

    unfoldable pub deserialize_entry : List B → Result (KeyEntry (List B) X × List B)
    deserialize_entry reader = do
      (key_len, reader) ← bytes.read u16 reader
      (key, reader) ←
          if ltb (length reader) key_len
          then err data_integrity
          else bytes.read_bytes key_len reader
      (index, reader) ← embedded.deserialize_from reader
      ok (record { key = key; index = index }, reader)

    abbrev pub sequence_or_zero : Option SequenceId → ℕ
    sequence_or_zero none = 0
    sequence_or_zero (some id) = id

    unfoldable pub serialize_sequence :
        BySequenceIndex (List B) X → List B → W → Result (ℕ × List B × W)
    serialize_sequence i writer w =
        let front =
          put u64 (sequence_or_zero i.last_sequence)
            (put u64 i.position (put u32 i.value_length writer)) in
        let keyed = put u16 (length i.key) front ++ i.key in
        if ltb (length i.key) 65536
        then elim i.embedded [
          | none ↦ ok (22 + length i.key, keyed, w)
          | some x ↦ add_written (22 + length i.key) (embedded.serialize_to x keyed w)
        ]
        else err key_too_large

    -- An embedded index is read only if bytes are left.
    abbrev pub read_embedded : List B → Result (Option X × List B)
    read_embedded [] = ok (none, [])
    read_embedded (b ∷ reader) = do
      (x, reader') ← embedded.deserialize_from (b ∷ reader)
      ok (some x, reader')

    unfoldable pub deserialize_sequence : List B → Result (BySequenceIndex (List B) X × List B)
    deserialize_sequence reader = do
      (value_length, reader) ← bytes.read u32 reader
      (position, reader) ← bytes.read u64 reader
      (last_sequence, reader) ← bytes.read u64 reader
      (key_length, reader) ← bytes.read u16 reader
      (key, reader) ←
          if ltb (length reader) key_length
          then err data_integrity
          else bytes.read_bytes key_length reader
      (x, reader) ← read_embedded reader
      ok (
        record {
          key = key;
          last_sequence = if ltb 0 last_sequence then some last_sequence else none;
          value_length = value_length;
          position = position;
          embedded = x;
        },
        reader,
      )

-- nebari/src/transaction/log.rs: `LogEntry`
pub record LogEntry (B : Type 0) : Type 0 where
  pub id : TransactionId
  pub «data» : Option (List B)

module _ {B : Type 0} (bytes : ByteOrder B) where
  -- At most 2 ^ 24 - 8 bytes.
  unfoldable pub set_data : LogEntry B → List B → Result (LogEntry B)
  set_data e contents =
      if leb (length contents) 16777208
      then ok (record e { «data» = some contents })
      else err value_too_large

  unfoldable pub serialize_log : LogEntry B → List B
  serialize_log e = bytes.write u64 e.id ++ (elim e.«data» [ none ↦ [] | some contents ↦ contents ])

  unfoldable pub deserialize_log : List B → Result (LogEntry B)
  deserialize_log buffer = do
    (id, rest) ← bytes.read u64 buffer
    ok (record { id = id; «data» = elim rest [ [] ↦ none | b ∷ bs ↦ some (b ∷ bs) ] })
