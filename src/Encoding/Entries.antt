-- ===== src/Encoding/Entries.antt =====
-- Entries of leaves, of the sequence tree and of the transaction log are read back as they were
-- written.
use nebari.Common.{
  ℕ, zero, suc, ◌<◌, ◌≡◌, ◌≢◌, refl, ap, false, Option, none, some, List, [], ◌∷◌, ◌++◌, length,
  length-append, append_assoc, ltb, if◌then◌else◌, arith,
}
use nebari.Error.{
  ok, key_too_large, ◌>>=◌, Ensures, Ensures-ok, Ensures-err, Ensures-bind, Ensures-if,
}
use nebari.Tree.Node.{KeyEntry}
use nebari.Encoding.{
  u16, u32, u64, ByteOrder, Serialization, serialize_entry, deserialize_entry, serialize_log,
  deserialize_log, sequence_or_zero, serialize_sequence, deserialize_sequence, read_embedded,
}
use nebari.Encoding.RoundTrip.{Written, length_parts}

module _ {B W X : Type 0} (b : ByteOrder B) (embedded : Serialization B W X) where
  pub no_short_key : (key rest : List B) → ltb (length (key ++ rest)) (length key) ≡ false
  no_short_key key rest = ground (arith, length-append key rest)

  -- Writing an entry of a leaf, where it returns, appends as many bytes as it reports, and reading
  -- them back, whatever follows, gives the entry, if its index is read back.
  pub entry-Written :
      (e : KeyEntry (List B) X) (writer : List B) (w : W)
      → ((before : List B)
          → Ensures
              (Written embedded.deserialize_from e.index before)
              (embedded.serialize_to e.index before w))
      → Ensures
          (Written (deserialize_entry b embedded) e writer)
          (serialize_entry b embedded e writer w)
  unfolding serialize_entry deserialize_entry
  entry-Written e writer w he =
      Ensures-if (ltb (length e.key) 65536) _ _
        (λ h.
          let hk : length e.key < 65536 = ground (arith, h) in
          Ensures-bind _ _ (he _) λ r hr. Ensures-ok _ (record {
            bytes = b.write u16 (length e.key) ++ (e.key ++ hr.bytes);
            appended = simp (hr.appended, append_assoc);
            counted = omega (
              arith,
              hr.counted,
              length_parts b u16 (length e.key) (e.key ++ hr.bytes),
              length-append e.key hr.bytes,
            );
            readable = λ rest. simp (
              append_assoc,
              λ (t : List B). b.read-write u16 (length e.key) t hk,
              no_short_key,
              b.read_bytes-append,
              hr.readable,
            );
          }))
        (λ h. Ensures-err key_too_large)

  read_some :
      (bytes rest : List B) (x : X)
      → 0 < length bytes
      → embedded.deserialize_from (bytes ++ rest) ≡ ok (x, rest)
      → read_embedded b embedded (bytes ++ rest) ≡ ok (some x, rest)
  read_some [] rest x h e = absurd (omega (arith, h))
  read_some (c ∷ bytes) rest x h e = ap (λ r. r >>= λ p. ok (some p.0, p.1)) e

  last_sequence_back :
      (id : Option ℕ)
      → id ≢ some 0
      → (if ltb 0 (sequence_or_zero b embedded id)
          then some (sequence_or_zero b embedded id)
          else none)
        ≡ id
  last_sequence_back none h = refl
  last_sequence_back (some zero) h = absurd (h refl)
  last_sequence_back (some (suc id)) h = ground arith

  -- Writing an entry of the sequence tree, where it returns, appends as many bytes as it reports, and
  -- reading them back, whatever follows, gives the entry, if its numbers fit, its last sequence is
  -- not zero, and its embedded index is read back and takes at least a byte.
  pub sequence-Written :
      (key : List B) (last_sequence : Option ℕ) (value_length position : ℕ) (x : X)
      (writer : List B) (w : W)
      → last_sequence ≢ some 0
      → sequence_or_zero b embedded last_sequence < 18446744073709551616
      → value_length < 4294967296
      → position < 18446744073709551616
      → ((before : List B)
          → Ensures
              (λ r. Written embedded.deserialize_from x before r × (0 < r.0))
              (embedded.serialize_to x before w))
      → Ensures
          (Written
            (deserialize_sequence b embedded)
            (record {
              key = key;
              last_sequence = last_sequence;
              value_length = value_length;
              position = position;
              embedded = some x;
            })
            writer)
          (serialize_sequence b embedded
            (record {
              key = key;
              last_sequence = last_sequence;
              value_length = value_length;
              position = position;
              embedded = some x;
            })
            writer
            w)
  unfolding serialize_sequence deserialize_sequence
  sequence-Written key last_sequence value_length position x writer w hz hs hl hp he =
      Ensures-if (ltb (length key) 65536) _ _
        (λ h.
          let hk : length key < 65536 = ground (arith, h) in
          Ensures-bind _ _ (he _) λ r hr.
            let some_bytes : 0 < length hr.0.bytes = omega (arith, hr.1, hr.0.counted) in
            Ensures-ok _ (record {
              bytes =
                  b.write u32 value_length
                  ++ (b.write u64 position
                      ++ (b.write u64 (sequence_or_zero b embedded last_sequence)
                          ++ (b.write u16 (length key) ++ (key ++ hr.0.bytes))));
              appended = simp (hr.0.appended, append_assoc);
              counted = omega (
                arith,
                hr.0.counted,
                length_parts b u32 value_length _,
                length_parts b u64 position _,
                length_parts b u64 (sequence_or_zero b embedded last_sequence) _,
                length_parts b u16 (length key) (key ++ hr.0.bytes),
                length-append key hr.0.bytes,
              );
              readable = λ rest. simp (
                append_assoc,
                λ (t : List B). b.read-write u32 value_length t hl,
                λ (t : List B). b.read-write u64 position t hp,
                λ (t : List B). b.read-write u64 (sequence_or_zero b embedded last_sequence) t hs,
                λ (t : List B). b.read-write u16 (length key) t hk,
                no_short_key,
                b.read_bytes-append,
                λ (t : List B). read_some hr.0.bytes t x some_bytes (hr.0.readable t),
                last_sequence_back last_sequence hz,
              );
            }))
        (λ h. Ensures-err key_too_large)

module _ {B : Type 0} (b : ByteOrder B) where
  -- A log entry whose id fits 64 bits and whose data, if it has any, is not empty is read back as it
  -- was written.
  pub deserialize-serialize_log :
      (id : ℕ) (contents : Option (List B))
      → id < 18446744073709551616
      → contents ≢ some []
      → deserialize_log b (serialize_log b (record { id = id; «data» = contents }))
        ≡ ok (record { id = id; «data» = contents })
  unfolding serialize_log deserialize_log
  deserialize-serialize_log id none h n = simp (λ (t : List B). b.read-write u64 id t h)
  deserialize-serialize_log id (some []) h n = absurd (n refl)
  deserialize-serialize_log id (some (x ∷ xs)) h n = simp (λ (t : List B). b.read-write u64 id t h)
