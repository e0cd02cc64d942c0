-- ===== src/Stats/Reduced.antt =====
-- Reducing statistics level by level gives what reducing all entries at once gives.
use nebari.Common.{
  ℕ, ◌+◌, ◌%◌, ◌<◌, ◌≤◌, ◌≡◌, refl, ap, ap₂, sym, ◌∙◌, List, [], ◌∷◌, ◌++◌, length, map, concat_map,
  All, All-append, length-append, arith,
}
use nebari.Tree.Node.{Reducer}
use nebari.Stats.{
  IdIndex, ByIdStats, BySequenceIndex, BySequenceStats, Counts, add_u64, sum_from, counts,
  add_counts, count_from, count_all, reduce, rereduce, reduce_sequences, rereduce_sequences,
}

abbrev pub total : List ℕ → ℕ
total [] = 0
total (x ∷ xs) = x + total xs

-- A sum that wraps at each step is the sum that wraps once.
sum_from-total :
    (t : ℕ) (xs : List ℕ)
    → t < 18446744073709551616
    → sum_from t xs ≡ (t + total xs) % 18446744073709551616
unfolding sum_from add_u64
sum_from-total t [] h = omega (arith, h)
sum_from-total t (x ∷ xs) h =
    omega (arith, sum_from-total ((t + x) % 18446744073709551616) xs (omega arith))

module _ {J : Type 0} (f : J → ℕ) where
  -- The sum of one number of each entry.
  abbrev sum_of : List J → ℕ
  sum_of xs = sum_from 0 (map f xs)

  total-append : (xs ys : List J) → total (map f (xs ++ ys)) ≡ total (map f xs) + total (map f ys)
  total-append [] ys = omega arith
  total-append (x ∷ xs) ys = omega (arith, total-append xs ys)

  total-wrapped :
      (chunks : List (List J))
      → total (map sum_of chunks) % 18446744073709551616
        ≡ total (map f (concat_map (λ chunk. chunk) chunks)) % 18446744073709551616
  total-wrapped [] = refl
  total-wrapped (chunk ∷ chunks) = omega (
    arith,
    sum_from-total 0 (map f chunk) (omega arith),
    total-append chunk (concat_map (λ c. c) chunks),
    total-wrapped chunks,
  )

  -- Sums of parts, summed, are the sum of the whole.
  sum_of-concat :
      (chunks : List (List J))
      → sum_from 0 (map sum_of chunks) ≡ sum_of (concat_map (λ chunk. chunk) chunks)
  sum_of-concat chunks = omega (
    arith,
    sum_from-total 0 (map sum_of chunks) (omega arith),
    sum_from-total 0 (map f (concat_map (λ c. c) chunks)) (omega arith),
    total-wrapped chunks,
  )

module _ {J X : Type 0} (index : IdIndex J X) where
  abbrev pub FitsU32 : J → Type 0
  FitsU32 i = index.value_size i < 4294967296

  abbrev alive : J → ℕ
  alive i = (counts index i).0

  abbrev deleted : J → ℕ
  deleted i = (counts index i).1

  abbrev bytes : J → ℕ
  bytes i = (counts index i).2

  count_from-sums :
      (t : Counts) (xs : List J)
      → count_from t (map (counts index) xs)
        ≡ (sum_from t.0 (map alive xs), sum_from t.1 (map deleted xs), sum_from t.2 (map bytes xs))
  unfolding count_from sum_from add_counts
  count_from-sums t [] = refl
  count_from-sums t (x ∷ xs) = count_from-sums (add_counts t (counts index x)) xs

  small : (i : J) → FitsU32 i → (alive i ≤ 1) × (deleted i ≤ 1) × (bytes i < 4294967296)
  unfolding counts
  small i h = ground (arith, h)

  from_zero : (n : ℕ) → n < 18446744073709551616 → n ≡ add_u64 0 n
  unfolding add_u64
  from_zero n h = omega (arith, h)

  count_all-sums :
      (xs : List J)
      → All FitsU32 xs
      → count_all (map (counts index) xs) ≡ (sum_of alive xs, sum_of deleted xs, sum_of bytes xs)
  unfolding count_all sum_from
  count_all-sums [] h = refl
  count_all-sums (x ∷ xs) h =
      let s = small x h.0 in
      count_from-sums (counts index x) xs
      ∙ ap
          (λ n. (
            sum_from n (map alive xs),
            sum_from (deleted x) (map deleted xs),
            sum_from (bytes x) (map bytes xs),
          ))
          (from_zero (alive x) (omega (arith, s.0)))
      ∙ ap
          (λ n.
            (sum_of alive (x ∷ xs), sum_from n (map deleted xs), sum_from (bytes x) (map bytes xs)))
          (from_zero (deleted x) (omega (arith, s.1)))
      ∙ ap (λ n. (sum_of alive (x ∷ xs), sum_of deleted (x ∷ xs), sum_from n (map bytes xs)))
          (from_zero (bytes x) (omega (arith, s.2)))

module _ {J X Y : Type 0} (index : IdIndex J X) (embedded : Reducer X Y) where
  abbrev reduced_to : List J → Y → ByIdStats Y
  reduced_to xs y = record {
    alive_keys = sum_of (alive index) xs;
    deleted_keys = sum_of (deleted index) xs;
    total_indexed_bytes = sum_of (bytes index) xs;
    embedded = y;
  }

  reduce-sums :
      (xs : List J)
      → All (FitsU32 index) xs
      → reduce index embedded xs ≡ reduced_to xs (embedded.reduce (map index.embedded xs))
  unfolding reduce
  reduce-sums xs h =
      ap
        (λ (c : Counts). record {
          alive_keys = c.0;
          deleted_keys = c.1;
          total_indexed_bytes = c.2;
          embedded = embedded.reduce (map index.embedded xs);
        })
        (count_all-sums index xs h)

  -- A number of the statistics of each chunk.
  parts-sums :
      (f : ByIdStats Y → ℕ) (g : J → ℕ) (chunks : List (List J))
      → ((xs : List J) (y : Y) → f (reduced_to xs y) ≡ sum_of g xs)
      → All (λ chunk. All (FitsU32 index) chunk) chunks
      → map f (map (reduce index embedded) chunks) ≡ map (sum_of g) chunks
  parts-sums f g [] e h = refl
  parts-sums f g (chunk ∷ chunks) e h =
      ap₂ ◌∷◌ (ap f (reduce-sums chunk h.0) ∙ e chunk _) (parts-sums f g chunks e h.1)

  embedded-reduced :
      (chunks : List (List J))
      → map (λ (v : ByIdStats Y). v.embedded) (map (reduce index embedded) chunks)
        ≡ map embedded.reduce (map (map index.embedded) chunks)
  unfolding reduce
  embedded-reduced [] = refl
  embedded-reduced (chunk ∷ chunks) =
      ap (λ t. embedded.reduce (map index.embedded chunk) ∷ t) (embedded-reduced chunks)

  map-concat :
      (chunks : List (List J))
      → concat_map (λ (c : List X). c) (map (map index.embedded) chunks)
        ≡ map index.embedded (concat_map (λ (c : List J). c) chunks)
  map-concat [] = refl
  map-concat (chunk ∷ chunks) =
      ap (λ t. map index.embedded chunk ++ t) (map-concat chunks) ∙ go chunk
    where
      go :
          (xs : List J)
          → map index.embedded xs ++ map index.embedded (concat_map (λ (c : List J). c) chunks)
            ≡ map index.embedded (xs ++ concat_map (λ (c : List J). c) chunks)
      go [] = refl
      go (x ∷ xs) = ap (λ t. index.embedded x ∷ t) (go xs)

  All-concat :
      (P : J → Type 0) (chunks : List (List J))
      → All (λ chunk. All P chunk) chunks
      → All P (concat_map (λ (c : List J). c) chunks)
  All-concat P [] h = tt
  All-concat P (chunk ∷ chunks) h = All-append P chunk _ h.0 (All-concat P chunks h.1)

  -- If the embedded statistics of chunks reduce to those of all their indexes, and the sizes are
  -- 32-bit numbers, then reducing chunk by chunk and reducing the results gives the statistics that
  -- reducing all indexes at once gives, also where the sums wrap.
  pub rereduce-reduce :
      (chunks : List (List J))
      → ((parts : List (List X))
          → embedded.rereduce (map embedded.reduce parts)
            ≡ embedded.reduce (concat_map (λ (part : List X). part) parts))
      → All (λ chunk. All (FitsU32 index) chunk) chunks
      → rereduce embedded (map (reduce index embedded) chunks)
        ≡ reduce index embedded (concat_map (λ (chunk : List J). chunk) chunks)
  unfolding rereduce
  rereduce-reduce chunks he h =
      let all = concat_map (λ (c : List J). c) chunks in
      let stats = map (reduce index embedded) chunks in
      let same : (f : ByIdStats Y → ℕ) (g : J → ℕ)
          → ((xs : List J) (y : Y) → f (reduced_to xs y) ≡ sum_of g xs)
          → sum_from 0 (map f stats) ≡ sum_of g all =
        λ f g e. ap (sum_from 0) (parts-sums f g chunks e h) ∙ sum_of-concat g chunks in
      let inner : embedded.rereduce (map (λ (v : ByIdStats Y). v.embedded) stats)
          ≡ embedded.reduce (map index.embedded all) =
        ap embedded.rereduce (embedded-reduced chunks)
        ∙ he (map (map index.embedded) chunks)
        ∙ ap embedded.reduce (map-concat chunks) in
      ap₂
        (λ a d. record {
          alive_keys = a;
          deleted_keys = d;
          total_indexed_bytes = sum_from 0 (map (λ (v : ByIdStats Y). v.total_indexed_bytes) stats);
          embedded = embedded.rereduce (map (λ (v : ByIdStats Y). v.embedded) stats);
        })
        (same (λ v. v.alive_keys) (alive index) (λ xs y. refl))
        (same (λ v. v.deleted_keys) (deleted index) (λ xs y. refl))
      ∙ ap₂
          (λ b y. record {
            alive_keys = sum_of (alive index) all;
            deleted_keys = sum_of (deleted index) all;
            total_indexed_bytes = b;
            embedded = y;
          })
          (same (λ v. v.total_indexed_bytes) (bytes index) (λ xs y. refl)) inner
      ∙ sym (reduce-sums all (All-concat (FitsU32 index) chunks h))

module _ {K X : Type 0} where
  abbrev lengths : List (List (BySequenceIndex K X)) → List ℕ
  lengths chunks = map (λ (v : BySequenceStats). v.total_sequences) (map reduce_sequences chunks)

  total-lengths :
      (chunks : List (List (BySequenceIndex K X)))
      → total (lengths chunks) ≡ length (concat_map (λ (c : List (BySequenceIndex K X)). c) chunks)
  unfolding reduce_sequences
  total-lengths [] = refl
  total-lengths (chunk ∷ chunks) = omega (
    arith,
    total-lengths chunks,
    length-append chunk (concat_map (λ (c : List (BySequenceIndex K X)). c) chunks),
  )

  -- Counting the entries of chunks and adding up counts what all of them are together, up to the
  -- wrapping of the 64-bit sum.
  pub rereduce_sequences-reduce :
      (chunks : List (List (BySequenceIndex K X)))
      → rereduce_sequences (map reduce_sequences chunks) ≡ record {
        total_sequences =
            length (concat_map (λ (c : List (BySequenceIndex K X)). c) chunks)
            % 18446744073709551616;
      }
  unfolding rereduce_sequences reduce_sequences
  rereduce_sequences-reduce chunks =
      ap (λ n. record { total_sequences = n })
        (omega (arith, total-lengths chunks, sum_from-total 0 (lengths chunks) (omega arith)))
