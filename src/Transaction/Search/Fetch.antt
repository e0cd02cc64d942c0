-- ===== src/Transaction/Search/Fetch.antt =====
-- The search for an id: where it guesses, what it answers, and that it ends.
use nebari.Common.{
  ℕ, zero, suc, ◌+◌, ◌-◌, ◌*◌, ◌/◌, ◌%◌, max, ◌<◌, ◌≡◌, refl, Bool, Option, none, some, ltb, leb,
  ◌==◌, if◌then◌else◌, arith,
}
use nebari.Error.{
  Result, ok, Ensures, Ensures-ok, Ensures-err, Ensures-bind, Ensures-self, Ensures-if,
}
use nebari.Tree.Modification.{TransactionId}
use nebari.Encoding.{u64, limit, ByteOrder}
use nebari.Io.Memory.{MemoryFile}
use nebari.Transaction.State.{Cache, State, note_transaction_id_status, next_transaction_id, len}
use nebari.Transaction.Log.{page_size, Vault, ScanResult, found, not_found, scan_for_transaction}
use nebari.Transaction.Search.{
  Estimate, guess_page, Bounds, here, outside, between, narrow, Round, done, again, judge,
  fetch_round, fetch_loop, fetch_entry, read_guess, try_guess, next_round, whole_log,
}

-- A guess is the border of a page between the locations; there is none between neighbours.
abbrev pub IsGuess : ℕ → ℕ → Option ℕ → Type 0
IsGuess lower upper none = upper ≡ lower + page_size
IsGuess lower upper (some guess) = (lower < guess) × ((guess < upper) × (guess % page_size ≡ 0))

module _ (estimate : Estimate) where
  -- Between two locations that are borders of pages, a guess is the border of a page strictly between
  -- them, for an id between theirs, whatever is estimated as long as the estimated location fits 64 bits, and there is no guess
  -- only if the pages are neighbours.
  pub guess_page-IsGuess :
      (id lower_id upper_id : TransactionId) (lower upper : ℕ)
      → lower % page_size ≡ 0
      → upper % page_size ≡ 0
      → lower < upper
      → lower_id < id
      → id < upper_id
      → lower
          + max
              (estimate.forward_pages
                (id - lower_id)
                (upper_id - lower_id)
                (upper / page_size - lower / page_size))
              1
            * page_size
        < limit u64
      → IsGuess lower upper (guess_page estimate id (some lower) (some lower_id) upper upper_id)
  unfolding guess_page
  guess_page-IsGuess id lower_id upper_id lower upper hl hu h above below fits = ground arith

  -- What the bounds say of the id that is looked for.
  abbrev IsBounding : TransactionId → Bounds → Type 0
  IsBounding id b = (id < b.upper_id) × (elim b.lower_id [ none ↦ Unit | some l ↦ l < id ])

  abbrev measure : Bounds → ℕ
  measure b = elim b.lower_id [ none ↦ suc b.upper_id | some l ↦ b.upper_id - l ]

  narrow-measure :
      (id entry_id : TransactionId) (position : ℕ) (b b' : Bounds)
      → IsBounding id b
      → narrow id entry_id position b ≡ between b'
      → IsBounding id b' × (measure b' < measure b)
  unfolding narrow
  narrow-measure id entry_id position b b' h e = ground arith

  -- A result of a search for an id: what is found has the id, and is what a scan of a page gives.
  module _ (bytes : ByteOrder ℕ) (vault : Option Vault) where
    abbrev pub IsAnswer : TransactionId → MemoryFile ℕ → ScanResult → Type 0
    IsAnswer id log (not_found nearest) = Unit
    IsAnswer id log (found entry position length) =
        (entry.id ≡ id)
        × ((block : ℕ) × ((scan_forward : Bool) × (scan_for_transaction bytes vault log block
                  scan_forward
                ≡ ok (found entry position length))))

    narrow-here :
        (id entry_id : TransactionId) (position : ℕ) (b : Bounds)
        → narrow id entry_id position b ≡ here
        → entry_id ≡ id
    unfolding narrow
    narrow-here id entry_id position b e = ground arith

    module _ {C : Type 0} (cache : Cache C) (id : TransactionId) (log : MemoryFile ℕ) where
      -- A round ends with an answer, or the bounds have come closer.
      abbrev IsRound : Bounds → Round C → Type 0
      IsRound b (done result state) = IsAnswer id log result
      IsRound b (again b' state) = IsBounding id b → IsBounding id b' × (measure b' < measure b)

      judge-IsRound :
          (b : Bounds) (state : State C) (block : ℕ) (scan_forward : Bool) (result : ScanResult)
          → scan_for_transaction bytes vault log block scan_forward ≡ ok result
          → IsRound b (judge estimate bytes vault cache id b state result)
      judge-IsRound b state block scan_forward (not_found nearest) e = tt
      judge-IsRound b state block scan_forward (found entry position length) e =
          elim (narrow id entry.id position b)
              as (λ x.
                narrow id entry.id position b ≡ x
                → IsRound b (elim x [
                  | here ↦
                      done (found entry position length)
                        (note_transaction_id_status cache entry.id (some position) state)
                  | outside ↦
                      done (not_found position)
                        (note_transaction_id_status cache entry.id (some position) state)
                  | between b' ↦
                      again b' (note_transaction_id_status cache entry.id (some position) state)
                ])) [
                  | here ↦ λ n. (narrow-here id entry.id position b n, (block, (scan_forward, e)))
                  | outside ↦ λ n. tt
                  | between b' ↦ λ n h. narrow-measure id entry.id position b b' h n
                ]
            refl

      try_guess-IsRound :
          (b : Bounds) (state : State C) (guess : Option ℕ)
          → Ensures (IsRound b) (try_guess estimate bytes vault cache id b log state guess)
      try_guess-IsRound b state none = Ensures-ok _ tt
      try_guess-IsRound b state (some guess) =
          Ensures-if (guess == b.upper_location) (ok (done (not_found b.upper_location) state))
            (read_guess estimate bytes vault cache id b log state guess) (λ _. Ensures-ok _ tt)
            (λ _.
              Ensures-bind (scan_for_transaction bytes vault log guess (leb b.upper_location guess))
                (λ result. ok (judge estimate bytes vault cache id b state result))
                (Ensures-self _ (λ result e. e))
                λ result e.
                  Ensures-ok _ (judge-IsRound b state guess (leb b.upper_location guess) result e))

      fetch_round-IsRound :
          (b : Bounds) (state : State C)
          → Ensures (IsRound b) (fetch_round estimate bytes vault cache id b log state)
      unfolding fetch_round
      fetch_round-IsRound b state = try_guess-IsRound b state _

      next_round_lem :
          (r : Round C) (b : Bounds)
          → IsRound b r
          → (search : Bounds → State C → Result (ScanResult × State C))
          → ((b' : Bounds) (state' : State C)
              → Ensures (λ r. IsAnswer id log r.0) (search b' state'))
          → Ensures (λ r. IsAnswer id log r.0) (next_round estimate bytes vault cache search r)
      next_round_lem (done result state) b h search k = Ensures-ok _ h
      next_round_lem (again b' state') b h search k = k b' state'

      fetch_loop-IsAnswer :
          (n : ℕ) (b : Bounds) (state : State C)
          → Ensures
              (λ r. IsAnswer id log r.0)
              (fetch_loop estimate bytes vault cache n id b log state)
      unfolding fetch_loop
      fetch_loop-IsAnswer zero b state = Ensures-err _
      fetch_loop-IsAnswer (suc n) b state =
          Ensures-bind (fetch_round estimate bytes vault cache id b log state) _
            (fetch_round-IsRound b state)
            λ r h.
              next_round_lem r b h
                (λ b' state'. fetch_loop estimate bytes vault cache n id b' log state')
                (λ b' state'. fetch_loop-IsAnswer n b' state')

      abbrev searched : State C → Result (ScanResult × State C)
      searched state =
          fetch_loop estimate bytes vault cache (suc (suc (next_transaction_id state))) id
            (whole_log estimate bytes vault cache state) log state

      -- A search that finds an entry has found it by a scan of the file, and the entry has the id.
      pub fetch_entry-IsAnswer :
          (state : State C)
          → Ensures (λ r. IsAnswer id log r.0) (fetch_entry estimate bytes vault cache id log state)
      unfolding fetch_entry
      fetch_entry-IsAnswer state =
          Ensures-if (ltb 0 id)
            (if leb (next_transaction_id state) id
              then ok (not_found (len state), state)
              else searched state)
            (ok (not_found 0, state))
            (λ _.
              Ensures-if (leb (next_transaction_id state) id) (ok (not_found (len state), state))
                (searched state) (λ _. Ensures-ok (not_found (len state), state) tt)
                (λ _.
                  fetch_loop-IsAnswer (suc (suc (next_transaction_id state)))
                    (whole_log estimate bytes vault cache state) state))
            (λ _. Ensures-ok (not_found 0, state) tt)
