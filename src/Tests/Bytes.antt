-- ===== src/Tests/Bytes.antt =====
-- Big-endian numbers as lists of bytes, and the encodings' theorems over them.
use nebari.Common.{
  ℕ, ◌+◌, ◌*◌, ◌/◌, ◌%◌, ◌<◌, ◌≡◌, refl, List, [], ◌∷◌, ◌++◌, none, some, length, length-append,
  take, drop, take-append, drop-append, ltb, false, if◌then◌else◌, arith,
}
use nebari.Error.{Result, ok, err, io, Ensures, Ensures-ok, ◌>>=◌}
use nebari.Tree.Node.{Reducer}
use nebari.Stats.{
  UnversionedByIdIndex, BySequenceIndex, unversioned, reduce, rereduce, rereduce_sequences,
  reduce_sequences,
}
use nebari.Stats.Reduced.{rereduce-reduce, rereduce_sequences-reduce}
use nebari.Encoding.{
  Width, u8, u16, u32, u64, limit, width, ByteOrder, Serialization, serialize_versioned,
  deserialize_versioned, serialize_unversioned, deserialize_unversioned, serialize_stats,
  deserialize_stats, serialize_entry, deserialize_entry, serialize_sequence, deserialize_sequence,
  serialize_log, deserialize_log,
}
use nebari.Encoding.RoundTrip.{Written, versioned-Written, unversioned-Written, stats-Written}
use nebari.Encoding.Entries.{entry-Written, sequence-Written, deserialize-serialize_log}

abbrev digit : ℕ → ℕ → ℕ
digit place n = n / place % 256

abbrev write16 : ℕ → List ℕ → List ℕ
write16 n rest = (n / 256) % 256 ∷ n % 256 ∷ rest

abbrev write32 : ℕ → List ℕ → List ℕ
write32 n rest = write16 (n / 65536) (write16 (n % 65536) rest)

abbrev write_be : Width → ℕ → List ℕ
write_be u8 n = n % 256 ∷ []
write_be u16 n = write16 n []
write_be u32 n = write32 n []
write_be u64 n = write32 (n / 4294967296) (write32 (n % 4294967296) [])

abbrev read16 : List ℕ → Result (ℕ × List ℕ)
read16 (a ∷ b ∷ rest) = ok (a * 256 + b, rest)
read16 _ = err io

abbrev read32 : List ℕ → Result (ℕ × List ℕ)
read32 xs = do (a, xs) ← read16 xs; (b, xs) ← read16 xs; ok (a * 65536 + b, xs)

abbrev read_be : Width → List ℕ → Result (ℕ × List ℕ)
read_be u8 [] = err io
read_be u8 (a ∷ rest) = ok (a, rest)
read_be u16 xs = read16 xs
read_be u32 xs = read32 xs
read_be u64 xs = do (a, xs) ← read32 xs; (b, xs) ← read32 xs; ok (a * 4294967296 + b, xs)

pub write_be-length : (w : Width) (n : ℕ) → length (write_be w n) ≡ width w
write_be-length u8 n = refl
write_be-length u16 n = refl
write_be-length u32 n = refl
write_be-length u64 n = refl

join16 : (n : ℕ) → n < 65536 → n / 256 % 256 * 256 + n % 256 ≡ n
join16 n h = omega (arith, h)

read16-write16 : (n : ℕ) (rest : List ℕ) → n < 65536 → read16 (write16 n rest) ≡ ok (n, rest)
read16-write16 n rest h = rw (join16 n h)

join32 : (n : ℕ) → n / 65536 * 65536 + n % 65536 ≡ n
join32 n = omega arith

read32-write32 : (n : ℕ) (rest : List ℕ) → n < 4294967296 → read32 (write32 n rest) ≡ ok (n, rest)
read32-write32 n rest h =
    simp (join16 (n / 65536) (omega (arith, h)), join16 (n % 65536) (omega arith), join32 n)

pub read_be-write_be :
    (w : Width) (n : ℕ) (rest : List ℕ)
    → n < limit w
    → read_be w (write_be w n ++ rest) ≡ ok (n, rest)
read_be-write_be u8 n rest h = rw (small8 n h)
  where
    small8 : (n : ℕ) → n < 256 → n % 256 ≡ n
    small8 n h = omega (arith, h)
read_be-write_be u16 n rest h = read16-write16 n rest h
read_be-write_be u32 n rest h = read32-write32 n rest h
read_be-write_be u64 n rest h = simp (
  join16 (n / 4294967296 / 65536) (omega (arith, h)),
  join16 (n / 4294967296 % 65536) (omega arith),
  join16 (n % 4294967296 / 65536) (omega arith),
  join16 (n % 4294967296 % 65536) (omega arith),
  join32 (n / 4294967296),
  join32 (n % 4294967296),
  join64,
)
  where
    join64 : n / 4294967296 * 4294967296 + n % 4294967296 ≡ n
    join64 = omega arith

abbrev take_bytes : ℕ → List ℕ → Result (List ℕ × List ℕ)
take_bytes n xs = if ltb (length xs) n then err io else ok (take n xs, drop n xs)

pub take_bytes-append : (xs rest : List ℕ) → take_bytes (length xs) (xs ++ rest) ≡ ok (xs, rest)
take_bytes-append xs rest = rw (enough, take-append xs rest, drop-append xs rest)
  where
    enough : ltb (length (xs ++ rest)) (length xs) ≡ false
    enough = ground (arith, length-append xs rest)

abbrev pub big_endian : ByteOrder ℕ
big_endian = record {
  write = write_be;
  read = read_be;
  read_bytes = take_bytes;
  length-write = write_be-length;
  read-write = read_be-write_be;
  read_bytes-append = take_bytes-append;
}

-- An embedded index of one byte.
abbrev pub one_byte : Serialization ℕ Unit ℕ
one_byte = record {
  serialize_to = λ x writer w. ok (1, writer ++ x ∷ [], w);
  deserialize_from = λ reader. elim reader [ [] ↦ err io | x ∷ rest ↦ ok (x, rest) ];
}

pub one_byte-Written :
    (x : ℕ) (before : List ℕ)
    → Ensures (Written one_byte.deserialize_from x before) (one_byte.serialize_to x before tt)
one_byte-Written x before =
    Ensures-ok _
      (record { bytes = x ∷ []; appended = refl; counted = refl; readable = λ rest. refl })

versioned-Written_example :
    Ensures
      (Written
        (deserialize_versioned big_endian one_byte)
        (record { sequence_id = 7; value_length = 300; position = 70000; embedded = 5 })
        (1 ∷ []))
      (serialize_versioned big_endian one_byte
        (record { sequence_id = 7; value_length = 300; position = 70000; embedded = 5 })
        (1 ∷ [])
        tt)
versioned-Written_example =
    versioned-Written big_endian one_byte
      (record { sequence_id = 7; value_length = 300; position = 70000; embedded = 5 }) (1 ∷ []) tt
      (omega arith) (omega arith) (omega arith) (one_byte-Written 5)

unversioned-Written_example :
    Ensures
      (Written
        (deserialize_unversioned big_endian one_byte)
        (record { value_length = 300; position = 70000; embedded = 5 })
        [])
      (serialize_unversioned big_endian one_byte
        (record { value_length = 300; position = 70000; embedded = 5 })
        []
        tt)
unversioned-Written_example =
    unversioned-Written big_endian one_byte
      (record { value_length = 300; position = 70000; embedded = 5 }) [] tt (omega arith)
      (omega arith) (one_byte-Written 5)

stats-Written_example :
    Ensures
      (Written
        (deserialize_stats big_endian one_byte)
        (record { alive_keys = 2; deleted_keys = 1; total_indexed_bytes = 600; embedded = 5 })
        [])
      (serialize_stats big_endian one_byte
        (record { alive_keys = 2; deleted_keys = 1; total_indexed_bytes = 600; embedded = 5 })
        []
        tt)
stats-Written_example =
    stats-Written big_endian one_byte
      (record { alive_keys = 2; deleted_keys = 1; total_indexed_bytes = 600; embedded = 5 }) [] tt
      (omega arith) (omega arith) (omega arith) (one_byte-Written 5)

entry-Written_example :
    Ensures
      (Written
        (deserialize_entry big_endian one_byte)
        (record { key = 104 ∷ 105 ∷ []; index = 5 })
        (1 ∷ []))
      (serialize_entry big_endian one_byte (record { key = 104 ∷ 105 ∷ []; index = 5 }) (1 ∷ []) tt)
entry-Written_example =
    entry-Written big_endian one_byte (record { key = 104 ∷ 105 ∷ []; index = 5 }) (1 ∷ []) tt
      (one_byte-Written 5)

sequence-Written_example :
    Ensures
      (Written
        (deserialize_sequence big_endian one_byte)
        (record {
          key = 104 ∷ 105 ∷ [];
          last_sequence = some 6;
          value_length = 300;
          position = 70000;
          embedded = some 5;
        })
        [])
      (serialize_sequence big_endian one_byte
        (record {
          key = 104 ∷ 105 ∷ [];
          last_sequence = some 6;
          value_length = 300;
          position = 70000;
          embedded = some 5;
        })
        []
        tt)
sequence-Written_example =
    sequence-Written big_endian one_byte (104 ∷ 105 ∷ []) (some 6) 300 70000 5 [] tt (λ e. cc)
      (omega arith) (omega arith) (omega arith)
      (λ before. Ensures-ok _ (
        record { bytes = 5 ∷ []; appended = refl; counted = refl; readable = λ rest. refl },
        omega arith,
      ))

deserialize-serialize_log_example :
    deserialize_log big_endian
      (serialize_log big_endian (record { id = 9; «data» = some (1 ∷ 2 ∷ []) }))
    ≡ ok (record { id = 9; «data» = some (1 ∷ 2 ∷ []) })
deserialize-serialize_log_example =
    deserialize-serialize_log big_endian 9 (some (1 ∷ 2 ∷ [])) (omega arith) (λ e. cc)

-- Statistics of one number each.
abbrev summing : Reducer ℕ ℕ
summing = record { reduce = λ xs. 0; rereduce = λ xs. 0 }

abbrev stored : ℕ → UnversionedByIdIndex ℕ
stored n = record { value_length = n; position = 8; embedded = n }

rereduce-reduce_example :
    rereduce summing (
      reduce unversioned summing (stored 3 ∷ stored 4 ∷ [])
      ∷ reduce unversioned summing (stored 5 ∷ [])
      ∷ [])
    ≡ reduce unversioned summing (stored 3 ∷ stored 4 ∷ stored 5 ∷ [])
rereduce-reduce_example =
    rereduce-reduce unversioned summing ((stored 3 ∷ stored 4 ∷ []) ∷ (stored 5 ∷ []) ∷ [])
      (λ parts. refl) ((omega arith, (omega arith, tt)), ((omega arith, tt), tt))

abbrev change : ℕ → BySequenceIndex (List ℕ) ℕ
change n = record {
  key = n ∷ [];
  last_sequence = none;
  value_length = n;
  position = 8;
  embedded = some n;
}

rereduce_sequences-reduce_example :
    rereduce_sequences
      (reduce_sequences (change 3 ∷ change 4 ∷ []) ∷ reduce_sequences (change 5 ∷ []) ∷ [])
    ≡ record { total_sequences = 3 }
rereduce_sequences-reduce_example =
    rereduce_sequences-reduce ((change 3 ∷ change 4 ∷ []) ∷ (change 5 ∷ []) ∷ [])
