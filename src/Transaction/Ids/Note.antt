-- ===== src/Transaction/Ids/Note.antt =====
-- Noting an id adds it to the set of an `IdSequence`, and the sequence is complete when no id is
-- missing below the highest.
use nebari.Common.{
  ℕ, zero, suc, ◌+◌, ◌-◌, ◌*◌, ◌/◌, ◌%◌, ◌≤◌, ◌<◌, ◌≡◌, ◌↔◌, refl, sym, ap, subst, ◌∙◌, min, max,
  Bool, true, false, ◌&&◌, ◌||◌, List, [], ◌∷◌, ◌++◌, replicate, ltb, ◌==◌, lt→ltb, le→ltb,
  if◌then◌else◌, length-append, length-replicate, All, All-append, concat_map, concat_map-append,
  Bool-cases, arith, the,
}
use nebari.Common
use nebari.Error.{Result, ok, err, panic}
use nebari.Tree.Modification.{TransactionId}
use nebari.Transaction.Ids.{word_bits, IdSequence, new, complete, resize, set_bit, set_in, note}
use nebari.Transaction.Ids.Seen.{
  get_bit, bits, IsWord, get_bit-front, get_bit-back, get_bit-set_bit, length-set_bit, seen, Covers,
  IsValid, truncate_words-Same,
}
use native.Mathlib.Decide.{dec_lt}

zeros : List Bool
zeros = replicate word_bits false

get_bit-replicate : (n i : ℕ) → get_bit i (replicate n false) ≡ false
get_bit-replicate zero i = refl
get_bit-replicate (suc n) zero = refl
get_bit-replicate (suc n) (suc i) = get_bit-replicate n i

get_bit-append :
    (xs ys : List Bool) (i : ℕ)
    → ((j : ℕ) → get_bit j ys ≡ false)
    → get_bit i (xs ++ ys) ≡ get_bit i xs
get_bit-append [] ys i h = h i
get_bit-append (x ∷ xs) ys zero h = refl
get_bit-append (x ∷ xs) ys (suc i) h = get_bit-append xs ys i h

no_bits : (n i : ℕ) → get_bit i (bits (replicate n (replicate word_bits false))) ≡ false
no_bits zero i = refl
no_bits (suc n) i =
    get_bit-append (replicate word_bits false) (bits (replicate n (replicate word_bits false))) i
      (no_bits n)
    ∙ get_bit-replicate word_bits i

resize-bits :
    (n i : ℕ) (words : List (List Bool))
    → get_bit i (bits (resize n words)) ≡ get_bit i (bits words)
resize-bits n i words =
    ap (get_bit i) (
      concat_map-append (λ w. w) words
        (replicate (n - Common.length words) (replicate word_bits false)))
    ∙ get_bit-append (bits words) _ i (no_bits (n - Common.length words))

all_words : (n : ℕ) → All IsWord (replicate n (replicate word_bits false))
all_words zero = tt
all_words (suc n) = (refl, all_words n)

length-resize :
    (n : ℕ) (words : List (List Bool))
    → Common.length (resize n words) ≡ max n (Common.length words)
length-resize n words = omega (
  arith,
  length-append words (replicate (n - Common.length words) (replicate word_bits false)),
  length-replicate (n - Common.length words) (replicate word_bits false),
)

get_bit-word :
    (w ys : List Bool) (i : ℕ)
    → IsWord w
    → ¬ i < word_bits
    → get_bit i (w ++ ys) ≡ get_bit (i - word_bits) ys
get_bit-word w ys i h k =
    ap (λ j. get_bit j (w ++ ys)) (the (i ≡ Common.length w + (i - word_bits)) (omega (arith, h)))
    ∙ get_bit-back w ys (i - word_bits)

set_in-bits :
    (index bit i : ℕ) (words : List (List Bool))
    → All IsWord words
    → index < Common.length words
    → bit < word_bits
    → get_bit i (bits (set_in index bit words))
      ≡ ((i == word_bits * index + bit) || get_bit i (bits words))
set_in-bits index bit i [] h k small = absurd (omega arith)
set_in-bits zero bit i (w ∷ words) h k small = elim (dec_lt i word_bits) [
  | yes first ↦ ground (
    arith,
    get_bit-front (set_bit bit w) (bits words) i (omega (arith, length-set_bit bit w, h.0)),
    get_bit-front w (bits words) i (omega (arith, h.0)),
    get_bit-set_bit bit i w (omega (arith, h.0)),
  )
  | no later ↦ ground (
    arith,
    get_bit-word (set_bit bit w) (bits words) i (length-set_bit bit w ∙ h.0) later,
    get_bit-word w (bits words) i h.0 later,
  )
]
set_in-bits (suc index) bit i (w ∷ words) h k small = elim (dec_lt i word_bits) [
  | yes first ↦ ground (
    arith,
    get_bit-front w (bits (set_in index bit words)) i (omega (arith, h.0)),
    get_bit-front w (bits words) i (omega (arith, h.0)),
  )
  | no later ↦ ground (
    arith,
    get_bit-word w (bits (set_in index bit words)) i h.0 later,
    get_bit-word w (bits words) i h.0 later,
    set_in-bits index bit (i - word_bits) words h.1 (omega arith) small,
  )
]

set_in-words :
    (index bit : ℕ) (words : List (List Bool))
    → All IsWord words
    → All IsWord (set_in index bit words)
set_in-words index bit [] h = tt
set_in-words zero bit (w ∷ words) h = (length-set_bit bit w ∙ h.0, h.1)
set_in-words (suc index) bit (w ∷ words) h = (h.0, set_in-words index bit words h.1)

length-set_in :
    (index bit : ℕ) (words : List (List Bool))
    → Common.length (set_in index bit words) ≡ Common.length words
length-set_in index bit [] = refl
length-set_in zero bit (w ∷ words) = refl
length-set_in (suc index) bit (w ∷ words) = ap suc (length-set_in index bit words)

-- A valid sequence with one more id.
pub record Noted (id : TransactionId) (q : IdSequence) (r : Result IdSequence) : Type 0 where
  pub result : IdSequence
  pub returns : r ≡ ok result
  pub is_valid : IsValid result
  pub onward : q.start ≤ result.start
  pub adds : (other : TransactionId) → seen result other ≡ ((other == id) || seen q other)

-- The sequence before its full words are removed.
module _ (id : TransactionId) (q : IdSequence) where
  abbrev marked : List (List Bool)
  marked =
      set_in ((id - q.start) / word_bits) ((id - q.start) % word_bits)
        (resize ((id - q.start) / word_bits + 1) q.statuses)

  abbrev noted : IdSequence
  noted = record { start = q.start; length = max (id + 1 - q.start) q.length; statuses = marked }

  marked-bits :
      All IsWord q.statuses
      → (i : ℕ) → get_bit i (bits marked) ≡ ((i == (id - q.start)) || get_bit i (bits q.statuses))
  marked-bits h i =
      let n = (id - q.start) / word_bits in
      let words = resize (n + 1) q.statuses in
      set_in-bits n ((id - q.start) % word_bits) i words
        (All-append IsWord q.statuses _ h (all_words (n + 1 - Common.length q.statuses)))
        (omega (arith, length-resize (n + 1) q.statuses)) (omega arith)
      ∙ (ap (λ b. (i == (word_bits * n + (id - q.start) % word_bits)) || b)
            (resize-bits (n + 1) i q.statuses)
          ∙ ap (λ k. (i == k) || get_bit i (bits q.statuses))
              (the (word_bits * n + (id - q.start) % word_bits ≡ id - q.start) (omega arith)))

  noted-Covers : Covers q → q.start ≤ id → Covers noted
  noted-Covers h k = record {
    words = set_in-words _ _ _ (All-append IsWord q.statuses _ h.words (all_words _));
    room = omega (
      arith,
      h.room,
      length-set_in ((id - q.start) / word_bits) ((id - q.start) % word_bits)
          (resize ((id - q.start) / word_bits + 1) q.statuses),
      length-resize ((id - q.start) / word_bits + 1) q.statuses,
    );
    none_above = λ i more. ground (arith, marked-bits h.words i, h.none_above i (omega arith));
    last_noted = λ _. elim (dec_lt (id + 1 - q.start) q.length) [
      | yes kept ↦ ground (
        arith,
        marked-bits h.words (max (id + 1 - q.start) q.length - 1),
        ap (λ j. get_bit j (bits q.statuses))
            (the (max (id + 1 - q.start) q.length - 1 ≡ q.length - 1) (omega arith)),
        h.last_noted (omega arith),
      )
      | no grown ↦ ground (arith, marked-bits h.words (max (id + 1 - q.start) q.length - 1))
    ];
  }

  -- Noting an id that is not below the start gives a valid sequence of the same ids and this one, whose
  -- start is not lower.
  pub note-Noted : IsValid q → q.start ≤ id → Noted id q (note id q)
  unfolding note
  note-Noted h k =
      let r =
        truncate_words-Same q.start (max (id + 1 - q.start) q.length) marked
          (noted-Covers h.covers k) in
      record {
        result = r.result;
        returns = rw (le→ltb id q.start k) r.returns;
        is_valid = r.is_valid;
        onward = r.onward;
        adds = λ other. r.same other ∙ ground (arith, marked-bits h.covers.words (other - q.start));
      }

  -- An id below the start is a panic.
  pub note-below : id < q.start → note id q ≡ err panic
  unfolding note
  note-below h = rw (lt→ltb id q.start h) refl

seen-bit : (q : IdSequence) (i : ℕ) → seen q (q.start + i) ≡ get_bit i (bits q.statuses)
seen-bit q i =
    ground
      (arith, ap (λ j. get_bit j (bits q.statuses)) (the (q.start + i - q.start ≡ i) (omega arith)))

not_both :
    (q : IdSequence) (i : ℕ)
    → get_bit i (bits q.statuses) ≡ false
    → get_bit (q.length - 1) (bits q.statuses) ≡ true
    → i < q.length
    → ¬ (
        q.start + i < q.start + (q.length - 1)
        → seen q (q.start + (q.length - 1)) ≡ true
        → seen q (q.start + i) ≡ true)
not_both q i gap last lt f = elim (dec_lt i (q.length - 1)) [
  | yes below ↦ ground (arith, seen-bit q i, seen-bit q (q.length - 1), f (omega arith))
  | no same ↦
      ground (arith, ap (λ j. get_bit j (bits q.statuses)) (the (i ≡ q.length - 1) (omega arith)))
]

-- A sequence is complete exactly if no id is missing below one that was noted.
pub complete_lem :
    (q : IdSequence)
    → IsValid q
    → (complete q ≡ true)
      ↔ ((id other : TransactionId) → id < other → seen q other ≡ true → seen q id ≡ true)
complete_lem q h = (
  λ e id other lt s. ground (arith, h.covers.none_above (other - q.start)),
  λ f. elim (dec_lt 0 q.length) [
    | no empty ↦ ground arith
    | yes some_left ↦
        let (i, (lt, gap)) = h.missing some_left in
        absurd (
          not_both q i gap (h.covers.last_noted some_left) lt
            (f (q.start + i) (q.start + (q.length - 1))))
  ],
)

pub new-IsValid : (start : TransactionId) → IsValid (new start)
new-IsValid start = record {
  covers = record {
    words = tt;
    room = omega arith;
    none_above = λ i _. refl;
    last_noted = λ more. absurd (omega arith);
  };
  missing = λ more. absurd (omega arith);
}
