-- ===== src/Transaction/Ids.antt =====
-- nebari/src/transaction/manager.rs: `IdSequence`, the ids that were handed in since the last one
-- below which none is missing.
--
-- A word of 64 bits is the list of its bits, the lowest first. Ids stay below 2 ^ 64 - 1.
pub mod Seen
pub mod Note
use nebari.Common.{
  ℕ, zero, suc, ◌+◌, ◌-◌, ◌*◌, ◌/◌, ◌%◌, min, max, Bool, true, false, ◌&&◌, List, [], ◌∷◌, ◌++◌,
  length, replicate, ltb, ◌==◌, if◌then◌else◌,
}
use nebari.Error.{Result, ok, err, panic, ◌>>=◌}
use nebari.Tree.Modification.{TransactionId}

abbrev pub word_bits : ℕ
word_bits = 64

pub record IdSequence : Type 0 where
  pub start : ℕ
  pub length : ℕ
  pub statuses : List (List Bool)

abbrev pub new : TransactionId → IdSequence
new start = record { start = start; length = 0; statuses = [] }

abbrev pub complete : IdSequence → Bool
complete q = q.length == 0

abbrev pub resize : ℕ → List (List Bool) → List (List Bool)
resize n words = words ++ replicate (n - length words) (replicate word_bits false)

-- `word |= 1 << bit`
abbrev pub set_bit : ℕ → List Bool → List Bool
set_bit bit [] = []
set_bit zero (b ∷ bs) = true ∷ bs
set_bit (suc bit) (b ∷ bs) = b ∷ set_bit bit bs

abbrev pub set_in : ℕ → ℕ → List (List Bool) → List (List Bool)
set_in index bit [] = []
set_in zero bit (w ∷ words) = set_bit bit w ∷ words
set_in (suc index) bit (w ∷ words) = w ∷ set_in index bit words

-- `word & mask == mask`, for the mask of the lowest bits
abbrev pub has_all : ℕ → List Bool → Bool
has_all zero bits = true
has_all (suc n) [] = false
has_all (suc n) (b ∷ bits) = b && has_all n bits

-- A first word that is full is removed.
unfoldable pub truncate_words : ℕ → ℕ → List (List Bool) → Result IdSequence
truncate_words start len [] =
    if len == 0 then ok (record { start = start; length = 0; statuses = [] }) else err panic
truncate_words start len (w ∷ words) =
    let mask_bits = min len word_bits in
    let rest = truncate_words (start + mask_bits) (len - mask_bits) words in
    if ltb 0 len && has_all mask_bits w
    then rest
    else ok (record { start = start; length = len; statuses = w ∷ words })

abbrev pub truncate : IdSequence → Result IdSequence
truncate q = truncate_words q.start q.length q.statuses

-- An id that is below the start is a panic.
unfoldable pub note : TransactionId → IdSequence → Result IdSequence
note id q =
    let offset = id - q.start in
    if ltb id q.start
    then err panic
    else truncate (record {
      start = q.start;
      length = max (id + 1 - q.start) q.length;
      statuses =
          set_in (offset / word_bits) (offset % word_bits)
            (resize (offset / word_bits + 1) q.statuses);
    })
