-- ===== src/Stats.antt =====
-- nebari/src/tree/by_id.rs, by_sequence.rs: the statistics that the interiors keep, and how they are
-- reduced. Sums are `u64` sums, which wrap at 2 ^ 64 in a release build.
pub mod Reduced
use nebari.Common.{
  ℕ, ◌+◌, ◌%◌, ◌^◌, Bool, true, false, Option, none, some, List, [], ◌∷◌, length, map, ltb,
  if◌then◌else◌,
}
use nebari.Tree.Node.{Reducer}

-- `SequenceId(u64)`
abbrev pub SequenceId : Type 0
SequenceId = ℕ

pub record VersionedByIdIndex (X : Type 0) : Type 0 where
  pub sequence_id : SequenceId
  pub value_length : ℕ
  pub position : ℕ
  pub embedded : X

pub record UnversionedByIdIndex (X : Type 0) : Type 0 where
  pub value_length : ℕ
  pub position : ℕ
  pub embedded : X

pub record ByIdStats (Y : Type 0) : Type 0 where
  pub alive_keys : ℕ
  pub deleted_keys : ℕ
  pub total_indexed_bytes : ℕ
  pub embedded : Y

pub record BySequenceIndex (K X : Type 0) : Type 0 where
  pub key : K
  pub last_sequence : Option SequenceId
  pub value_length : ℕ
  pub position : ℕ
  pub embedded : Option X

pub record BySequenceStats : Type 0 where
  pub total_sequences : ℕ

-- `u64` addition
unfoldable pub add_u64 : ℕ → ℕ → ℕ
add_u64 a b = (a + b) % 18446744073709551616

unfoldable pub total_keys : {Y : Type 0} → ByIdStats Y → ℕ
unfolding add_u64
total_keys s = add_u64 s.alive_keys s.deleted_keys

-- `Iterator::sum`
unfoldable pub sum_from : ℕ → List ℕ → ℕ
sum_from total [] = total
sum_from total (x ∷ xs) = sum_from (add_u64 total x) xs

-- `IdIndex`: what both kinds of index offer.
pub record IdIndex (J X : Type 0) : Type 0 where
  pub value_size : J → ℕ
  pub position : J → ℕ
  pub embedded : J → X

abbrev pub versioned : {X : Type 0} → IdIndex (VersionedByIdIndex X) X
versioned = record {
  value_size = λ i. i.value_length;
  position = λ i. i.position;
  embedded = λ i. i.embedded;
}

abbrev pub unversioned : {X : Type 0} → IdIndex (UnversionedByIdIndex X) X
unversioned = record {
  value_size = λ i. i.value_length;
  position = λ i. i.position;
  embedded = λ i. i.embedded;
}

-- `(alive_keys, deleted_keys, total_indexed_bytes)`
abbrev pub Counts : Type 0
Counts = ℕ × ℕ × ℕ

module _ {J X : Type 0} (index : IdIndex J X) where
  -- The closure of `map`: a key without a position is deleted.
  unfoldable pub counts : J → Counts
  counts i = if ltb 0 (index.position i) then (1, 0, index.value_size i) else (0, 1, 0)

unfoldable pub add_counts : Counts → Counts → Counts
unfolding add_u64
add_counts a b = (add_u64 a.0 b.0, add_u64 a.1 b.1, add_u64 a.2 b.2)

-- `Iterator::reduce` goes on from the first element.
unfoldable pub count_from : Counts → List Counts → Counts
count_from total [] = total
count_from total (c ∷ cs) = count_from (add_counts total c) cs

unfoldable pub count_all : List Counts → Counts
unfolding count_from
count_all [] = (0, 0, 0)
count_all (c ∷ cs) = count_from c cs

module _ {J X Y : Type 0} (index : IdIndex J X) (embedded : Reducer X Y) where
  -- `ByIdIndexer::reduce`
  unfoldable pub reduce : List J → ByIdStats Y
  unfolding count_all counts
  reduce values =
      let (alive, deleted, bytes) = count_all (map (counts index) values) in
      record {
        alive_keys = alive;
        deleted_keys = deleted;
        total_indexed_bytes = bytes;
        embedded = embedded.reduce (map index.embedded values);
      }

module _ {X Y : Type 0} (embedded : Reducer X Y) where
  -- `ByIdIndexer::rereduce`
  unfoldable pub rereduce : List (ByIdStats Y) → ByIdStats Y
  unfolding sum_from
  rereduce values = record {
    alive_keys = sum_from 0 (map (λ (v : ByIdStats Y). v.alive_keys) values);
    deleted_keys = sum_from 0 (map (λ (v : ByIdStats Y). v.deleted_keys) values);
    total_indexed_bytes = sum_from 0 (map (λ (v : ByIdStats Y). v.total_indexed_bytes) values);
    embedded = embedded.rereduce (map (λ (v : ByIdStats Y). v.embedded) values);
  }

module _ {K X : Type 0} where
  -- `BySequenceReducer`
  unfoldable pub reduce_sequences : List (BySequenceIndex K X) → BySequenceStats
  reduce_sequences indexes = record { total_sequences = length indexes }

unfoldable pub rereduce_sequences : List BySequenceStats → BySequenceStats
unfolding sum_from
rereduce_sequences values = record {
  total_sequences = sum_from 0 (map (λ (v : BySequenceStats). v.total_sequences) values);
}
