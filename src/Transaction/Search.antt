-- ===== src/Transaction/Search.antt =====
-- nebari/src/transaction/log.rs: the search for an id, `fetch_entry`, and the scan of a range,
-- `EntryScanner`.
--
-- The estimates of `guess_page` are computed in `f64`: a parameter here, with whatever it answers.
pub mod Fetch
pub mod All
use nebari.Common.{
  ℕ, zero, suc, ◌+◌, ◌-◌, ◌*◌, ◌/◌, ◌%◌, ◌≡◌, max, min, Bool, true, false, Option, none, some, ltb,
  leb, ◌==◌, ◌&&◌, not, if◌then◌else◌,
}
use nebari.Error.{Result, ok, err, panic, ◌>>=◌}
use nebari.Tree.Modification.{TransactionId}
use nebari.Encoding.{u64, limit, ByteOrder, LogEntry}
use nebari.Io.Memory.{MemoryFile, file_length}
use nebari.Transaction.State.{Cache, State, note_transaction_id_status, next_transaction_id, len}
use nebari.Transaction.Log.{
  page_size, next_page_start, Vault, ScanResult, found, not_found, scan_for_transaction,
}

-- `floor` of `delta * (ids / pages)`, and `ceil` of `delta * (id / pages)`.
pub record Estimate : Type 0 where
  pub forward_pages : (delta ids pages : ℕ) → ℕ
  pub backward_pages : (delta id pages : ℕ) → ℕ

pub record Bounds : Type 0 where
  pub lower_location : Option ℕ
  pub lower_id : Option TransactionId
  pub upper_location : ℕ
  pub upper_id : TransactionId

-- The end of the search, or its next round.
pub data Round (C : Type 0) : Type 0 where
  done : ScanResult → State C → Round C
  again : Bounds → State C → Round C

-- What an entry that was found says of the bounds; none if it is not between them.
pub data Narrowed : Type 0 where
  here outside : Narrowed
  between : Bounds → Narrowed

abbrev pub is_above : TransactionId → Option TransactionId → Bool
is_above id none = true
is_above id (some lower) = ltb lower id

unfoldable pub narrow : TransactionId → TransactionId → ℕ → Bounds → Narrowed
narrow id entry_id position b =
    if ltb entry_id id
    then (if is_above entry_id b.lower_id
        then between (record b { lower_location = some position; lower_id = some entry_id })
        else outside)
    else if entry_id == id
    then here
    else if ltb entry_id b.upper_id
    then between (record b { upper_location = position; upper_id = entry_id })
    else outside

module _ (estimate : Estimate) where
  -- The product and the sum wrap, as in a release build; a debug build panics there.
  abbrev pub from_lower : TransactionId → ℕ → TransactionId → ℕ → TransactionId → ℕ
  from_lower looking_for lower_location lower_id upper_location upper_id =
      let total_pages = upper_location / page_size in
      let current_page = lower_location / page_size in
      let delta_estimated_pages =
        estimate.forward_pages (looking_for - lower_id) (upper_id - lower_id)
          (total_pages - current_page) in
      (lower_location + max delta_estimated_pages 1 * page_size % limit u64) % limit u64

  -- The page before the upper one, where the guess is at it or beyond, unless that is the lower one.
  unfoldable pub guess_page :
      TransactionId → Option ℕ → Option TransactionId → ℕ → TransactionId → Option ℕ
  guess_page looking_for (some lower_location) (some lower_id) upper_location upper_id =
      let guess = from_lower looking_for lower_location lower_id upper_location upper_id in
      let capped_guess = upper_location - page_size in
      if leb upper_location guess
      then if ltb lower_location capped_guess then some capped_guess else none
      else some guess
  guess_page looking_for _ _ upper_location upper_id =
      let pages =
        estimate.backward_pages (upper_id - looking_for) upper_id (upper_location / page_size) in
      let delta_bytes = min (pages * page_size) (limit u64 - 1) in
      if ltb looking_for upper_id then some (upper_location - delta_bytes) else none

  module _ (bytes : ByteOrder ℕ) (vault : Option Vault) {C : Type 0} (cache : Cache C) where
    -- The transaction at a location that was guessed.
    abbrev pub judge : TransactionId → Bounds → State C → ScanResult → Round C
    judge id b state (not_found nearest) = done (not_found nearest) state
    judge id b state (found entry position length) =
        let noted = note_transaction_id_status cache entry.id (some position) state in
        elim (narrow id entry.id position b) [
          | here ↦ done (found entry position length) noted
          | outside ↦ done (not_found position) noted
          | between b' ↦ again b' noted
        ]

    abbrev pub read_guess : TransactionId → Bounds → MemoryFile ℕ → State C → ℕ → Result (Round C)
    read_guess id b log state guess = do
      result ← scan_for_transaction bytes vault log guess (leb b.upper_location guess)
      ok (judge id b state result)

    abbrev pub try_guess :
        TransactionId → Bounds → MemoryFile ℕ → State C → Option ℕ → Result (Round C)
    try_guess id b log state none = ok (done (not_found b.upper_location) state)
    try_guess id b log state (some guess) =
        if guess == b.upper_location
        then ok (done (not_found b.upper_location) state)
        else read_guess id b log state guess

    unfoldable pub fetch_round : TransactionId → Bounds → MemoryFile ℕ → State C → Result (Round C)
    fetch_round id b log state =
        try_guess id b log state
          (guess_page id b.lower_location b.lower_id b.upper_location b.upper_id)

    abbrev pub next_round :
        (Bounds → State C → Result (ScanResult × State C)) → Round C → Result (ScanResult × State C)
    next_round search (done result state) = ok (result, state)
    next_round search (again b state) = search b state

    -- The loop: the bounds on the id close in, so the next id is fuel enough.
    unfoldable pub fetch_loop :
        ℕ → TransactionId → Bounds → MemoryFile ℕ → State C → Result (ScanResult × State C)
    fetch_loop zero id b log state = err panic
    fetch_loop (suc n) id b log state =
        fetch_round id b log state >>= next_round (λ b' state'. fetch_loop n id b' log state')

    abbrev pub whole_log : State C → Bounds
    whole_log state = record {
      lower_location = none;
      lower_id = none;
      upper_location = len state;
      upper_id = next_transaction_id state;
    }

    unfoldable pub fetch_entry :
        TransactionId → MemoryFile ℕ → State C → Result (ScanResult × State C)
    fetch_entry id log state =
        if ltb 0 id
        then if leb (next_transaction_id state) id
          then ok (not_found (len state), state)
          else fetch_loop (suc (suc (next_transaction_id state))) id (whole_log state) log state
        else ok (not_found 0, state)

-- `RangeBounds`
pub data Bound : Type 0 where
  included excluded : TransactionId → Bound
  unbounded : Bound

pub record Range : Type 0 where
  pub start_bound : Bound
  pub end_bound : Bound

abbrev pub starts_before : Bound → TransactionId → Bool
starts_before (included a) id = leb a id
starts_before (excluded a) id = ltb a id
starts_before unbounded id = true

abbrev pub ends_after : Bound → TransactionId → Bool
ends_after (included a) id = leb id a
ends_after (excluded a) id = ltb id a
ends_after unbounded id = true

abbrev pub contains : Range → TransactionId → Bool
contains ids id = starts_before ids.start_bound id && ends_after ids.end_bound id

-- The callback has a state of its own, and says whether to go on.
module _ {S : Type 0} (callback : LogEntry ℕ → S → Bool × S) where
  abbrev pub offer : Range → LogEntry ℕ → S → Bool × S
  offer ids entry s = if contains ids entry.id then callback entry s else (true, s)

  module _ (bytes : ByteOrder ℕ) (vault : Option Vault) where
    -- The loop over the pages; the length of the file is fuel enough.
    unfoldable pub scan_entries : ℕ → Range → ℕ → MemoryFile ℕ → S → Result S
    scan_entries zero ids next_scan_start log s = err panic
    scan_entries (suc n) ids next_scan_start log s =
        scan_for_transaction bytes vault log next_scan_start true >>= λ result. elim result [
          | not_found nearest ↦ ok s
          | found entry position length ↦
              let answer = offer ids entry s in
              elim (answer.0) [
                | false ↦ ok (answer.1)
                | true ↦ scan_entries n ids (next_page_start (position + length)) log (answer.1)
              ]
        ]

    -- The first entry is offered where it was found by its id.
    abbrev scan_from : Range → ScanResult → MemoryFile ℕ → S → Result S
    scan_from ids (not_found nearest) log s =
        scan_entries (suc (file_length log)) ids (next_page_start nearest) log s
    scan_from ids (found entry position length) log s =
        let answer = offer ids entry s in
        elim (answer.0) [
          | false ↦ ok (answer.1)
          | true ↦
              scan_entries (suc (file_length log)) ids (next_page_start (position + length)) log
                (answer.1)
        ]

    module _ (estimate : Estimate) {C : Type 0} (cache : Cache C) where
      abbrev start_of : Bound → MemoryFile ℕ → State C → Result (ScanResult × State C)
      start_of unbounded log state = ok (not_found 0, state)
      start_of (included id) log state = fetch_entry estimate bytes vault cache id log state
      start_of (excluded id) log state = fetch_entry estimate bytes vault cache id log state

      unfoldable pub scan : Range → MemoryFile ℕ → State C → S → Result (S × State C)
      scan ids log state s = do
        (start, state) ← start_of ids.start_bound log state
        s ← scan_from ids start log s
        ok (s, state)
