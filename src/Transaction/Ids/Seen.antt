-- ===== src/Transaction/Ids/Seen.antt =====
-- An `IdSequence` as the set of the ids that were noted.
use nebari.Common.{
  ℕ, zero, suc, ◌+◌, ◌-◌, ◌*◌, ◌/◌, ◌%◌, ◌≤◌, ◌<◌, ◌≡◌, ◌↔◌, ◌⊎◌, inl, inr, refl, sym, ap, subst,
  ◌∙◌, min, max, Bool, true, false, ◌&&◌, ◌||◌, List, [], ◌∷◌, ◌++◌, replicate, ltb, lt→ltb, le→ltb,
  ◌==◌, if◌then◌else◌, length-append, length-replicate, All, All-append, concat_map,
  concat_map-append, Bool-cases, arith, the,
}
use nebari.Common
use nebari.Error.{Result, ok}
use nebari.Tree.Modification.{TransactionId}
use nebari.Transaction.Ids.{word_bits, IdSequence, set_bit, has_all, truncate_words}
use native.Mathlib.Decide.{dec_lt}

abbrev pub get_bit : ℕ → List Bool → Bool
get_bit n [] = false
get_bit zero (b ∷ bs) = b
get_bit (suc n) (b ∷ bs) = get_bit n bs

abbrev pub bits : List (List Bool) → List Bool
bits = concat_map (λ w. w)

abbrev pub IsWord : List Bool → Type 0
IsWord w = Common.length w ≡ word_bits

pub get_bit-front :
    (xs ys : List Bool) (i : ℕ) → i < Common.length xs → get_bit i (xs ++ ys) ≡ get_bit i xs
get_bit-front [] ys i h = absurd (omega arith)
get_bit-front (x ∷ xs) ys zero h = refl
get_bit-front (x ∷ xs) ys (suc i) h = get_bit-front xs ys i (omega arith)

pub get_bit-back :
    (xs ys : List Bool) (i : ℕ) → get_bit (Common.length xs + i) (xs ++ ys) ≡ get_bit i ys
get_bit-back [] ys i = ap (λ k. get_bit k ys) (omega arith)
get_bit-back (x ∷ xs) ys i =
    ap (λ k. get_bit k (x ∷ (xs ++ ys)))
      (the (suc (Common.length xs) + i ≡ suc (Common.length xs + i)) (omega arith))
    ∙ get_bit-back xs ys i

pub get_bit-end : (xs : List Bool) (i : ℕ) → Common.length xs ≤ i → get_bit i xs ≡ false
get_bit-end [] i h = refl
get_bit-end (x ∷ xs) zero h = absurd (omega arith)
get_bit-end (x ∷ xs) (suc i) h = get_bit-end xs i (omega arith)

pub get_bit-set_bit :
    (bit i : ℕ) (w : List Bool)
    → bit < Common.length w
    → get_bit i (set_bit bit w) ≡ ((i == bit) || get_bit i w)
get_bit-set_bit bit i [] h = absurd (omega arith)
get_bit-set_bit zero zero (b ∷ w) h = refl
get_bit-set_bit zero (suc i) (b ∷ w) h = ground arith
get_bit-set_bit (suc bit) zero (b ∷ w) h = ground arith
get_bit-set_bit (suc bit) (suc i) (b ∷ w) h = get_bit-set_bit bit i w (omega arith) ∙ ground arith

pub length-set_bit : (bit : ℕ) (w : List Bool) → Common.length (set_bit bit w) ≡ Common.length w
length-set_bit bit [] = refl
length-set_bit zero (b ∷ w) = refl
length-set_bit (suc bit) (b ∷ w) = ap suc (length-set_bit bit w)

has_all-get_bit : (n i : ℕ) (w : List Bool) → has_all n w ≡ true → i < n → get_bit i w ≡ true
has_all-get_bit zero i w h k = absurd (omega arith)
has_all-get_bit (suc n) i [] h k = cc
has_all-get_bit (suc n) zero (true ∷ w) h k = refl
has_all-get_bit (suc n) (suc i) (true ∷ w) h k = has_all-get_bit n i w h (omega arith)
has_all-get_bit (suc n) i (false ∷ w) h k = cc

-- Where the mask is not full, a bit below it is missing.
missing_bit :
    (n : ℕ) (w : List Bool) → has_all n w ≡ false → (i : ℕ) × ((i < n) × (get_bit i w ≡ false))
missing_bit zero w h = cc
missing_bit (suc n) [] h = (zero, (omega arith, refl))
missing_bit (suc n) (false ∷ w) h = (zero, (omega arith, refl))
missing_bit (suc n) (true ∷ w) h = let (i, (lt, e)) = missing_bit n w h in (suc i, (omega arith, e))

-- The ids that were noted, or lie below the start.
abbrev pub seen : IdSequence → TransactionId → Bool
seen q id = ltb id q.start || get_bit (id - q.start) (bits q.statuses)

-- The words reach as far as the length, which is the distance to the highest id that was noted.
pub record Covers (q : IdSequence) : Type 0 where
  pub words : All IsWord q.statuses
  pub room : q.length ≤ word_bits * Common.length q.statuses
  pub none_above : (i : ℕ) → q.length ≤ i → get_bit i (bits q.statuses) ≡ false
  pub last_noted : 0 < q.length → get_bit (q.length - 1) (bits q.statuses) ≡ true

-- And an id is missing, if the length is not zero.
pub record IsValid (q : IdSequence) : Type 0 where
  pub covers : Covers q
  pub missing : 0 < q.length → (i : ℕ) × ((i < q.length) × (get_bit i (bits q.statuses) ≡ false))

-- The answer is a valid sequence with the same ids.
pub record Same (q : IdSequence) (r : Result IdSequence) : Type 0 where
  pub result : IdSequence
  pub returns : r ≡ ok result
  pub is_valid : IsValid result
  pub same : (id : TransactionId) → seen result id ≡ seen q id
  pub onward : q.start ≤ result.start

abbrev words_at : ℕ → ℕ → List (List Bool) → IdSequence
words_at start len words = record { start = start; length = len; statuses = words }

-- Without a full first word.
drop_word : ℕ → ℕ → List Bool → List (List Bool) → IdSequence
drop_word start len w words = words_at (start + min len word_bits) (len - min len word_bits) words

module _ (start len : ℕ) (w : List Bool) (words : List (List Bool)) where
  abbrev q : IdSequence
  q = words_at start len (w ∷ words)

  abbrev rest : IdSequence
  rest = words_at (start + min len word_bits) (len - min len word_bits) words

  behind : IsWord w → (i : ℕ) → get_bit (word_bits + i) (bits (w ∷ words)) ≡ get_bit i (bits words)
  behind e i =
      subst (λ k. get_bit (k + i) (bits (w ∷ words)) ≡ get_bit i (bits words)) e
        (get_bit-back w (bits words) i)

  rest-Covers : Covers q → 0 < len → Covers rest
  rest-Covers h some_bits = record {
    words = h.words.1;
    room = omega (arith, h.room);
    none_above = λ i k. sym (behind h.words.0 i) ∙ h.none_above (word_bits + i) (omega arith);
    last_noted = λ more.
        sym (behind h.words.0 (len - min len word_bits - 1))
        ∙ (ap (λ i. get_bit i (bits (w ∷ words)))
              (the (word_bits + (len - min len word_bits - 1) ≡ len - 1) (omega arith))
            ∙ h.last_noted some_bits);
  }

  seen-rest :
      Covers q
      → has_all (min len word_bits) w ≡ true
      → (id : TransactionId) → seen rest id ≡ seen q id
  seen-rest h full id = elim (dec_lt id start) [
    | yes below ↦ ground arith
    | no above ↦ elim (dec_lt id (start + min len word_bits)) [
      | yes masked ↦ ground (
        arith,
        get_bit-front w (bits words) (id - start) (omega (arith, h.words.0)),
        has_all-get_bit (min len word_bits) (id - start) w full (omega arith),
      )
      | no beyond ↦ elim (dec_lt len word_bits) [
        | no long ↦ ground (
          arith,
          behind h.words.0 (id - (start + min len word_bits)),
          ap (λ i. get_bit i (bits (w ∷ words)))
              (the (word_bits + (id - (start + min len word_bits)) ≡ id - start) (omega arith)),
        )
        | yes short ↦ ground (
          arith,
          behind h.words.0 (id - (start + min len word_bits)),
          h.none_above (word_bits + (id - (start + min len word_bits))) (omega arith),
          h.none_above (id - start) (omega arith),
        )
      ]
    ]
  ]

pub truncate_words-Same :
    (start len : ℕ) (words : List (List Bool))
    → Covers (words_at start len words)
    → Same (words_at start len words) (truncate_words start len words)
unfolding truncate_words
truncate_words-Same start len [] h = record {
  result = words_at start 0 [];
  returns = rw (truncate_words, the ((len == 0) ≡ true) (ground (arith, h.room))) refl;
  is_valid = record {
    covers = record {
      words = tt;
      room = omega arith;
      none_above = λ i _. refl;
      last_noted = λ more. absurd (omega arith);
    };
    missing = λ more. absurd (omega arith);
  };
  same = λ id. refl;
  onward = omega arith;
}
truncate_words-Same start len (w ∷ words) h = elim (dec_lt 0 len) [
  | no none_left ↦ record {
    result = words_at start len (w ∷ words);
    returns = rw (truncate_words, le→ltb 0 len (omega arith)) refl;
    is_valid = record { covers = h; missing = λ more. absurd (omega arith) };
    same = λ id. refl;
    onward = omega arith;
  }
  | yes some_left ↦ elim (Bool-cases (has_all (min len word_bits) w)) [
    | inl full ↦
        let r =
          truncate_words-Same (start + min len word_bits) (len - min len word_bits) words
            (rest-Covers start len w words h some_left) in
        record {
          result = r.result;
          returns = rw (truncate_words, lt→ltb 0 len some_left, full) r.returns;
          is_valid = r.is_valid;
          same = λ id. r.same id ∙ seen-rest start len w words h full id;
          onward = omega (arith, r.onward);
        }
    | inr partial ↦ record {
      result = words_at start len (w ∷ words);
      returns = rw (truncate_words, lt→ltb 0 len some_left, partial) refl;
      is_valid = record {
        covers = h;
        missing = λ _.
            let (i, (lt, e)) = missing_bit (min len word_bits) w partial in
            (i, (omega arith, get_bit-front w (bits words) i (omega (arith, h.words.0)) ∙ e));
      };
      same = λ id. refl;
      onward = omega arith;
    }
  ]
]
