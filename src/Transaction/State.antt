-- ===== src/Transaction/State.antt =====
-- nebari/src/transaction/state.rs: the state of a transaction log, which its writer, its readers
-- and the transactions share.
--
-- The cache of known transactions belongs to the crate `lru`: an interface with what a lookup
-- relies on. Positions and ids are below 2 ^ 64: their sums are not wrapped.
use nebari.Common.{ℕ, ◌+◌, ◌≡◌, ◌≢◌, Option, none, some, List, [], ◌∷◌, ◌==◌, if◌then◌else◌}
use nebari.Error.{Result, ok, err, panic}
use nebari.Tree.Modification.{TransactionId}

pub record LogPosition : Type 0 where
  pub file_offset : ℕ
  pub last_written_transaction : TransactionId

abbrev pub uninitialized_id : TransactionId
uninitialized_id = 0

-- A lookup may change which entry is evicted next. What is found was put last under its key.
pub record Cache (C : Type 0) : Type 0 where
  pub empty : C
  pub put : TransactionId → Option ℕ → C → C
  pub get : TransactionId → C → Option (Option ℕ) × C
  pub get-empty : (id : TransactionId) → (get id empty).0 ≡ none
  pub get-put : (id : TransactionId) (p : Option ℕ) (c : C) → (get id (put id p c)).0 ≡ some p
  pub get-put_other :
      (id other : TransactionId) (p q : Option ℕ) (c : C)
      → id ≢ other
      → (get id (put other p c)).0 ≡ some q
      → (get id c).0 ≡ some q

pub record State (C : Type 0) : Type 0 where
  pub current_transaction_id : TransactionId
  pub log_position : LogPosition
  pub known_completed_transactions : C

module _ {C : Type 0} (cache : Cache C) where
  abbrev pub from_path : State C
  from_path = record {
    current_transaction_id = uninitialized_id;
    log_position = record { file_offset = 0; last_written_transaction = uninitialized_id };
    known_completed_transactions = cache.empty;
  }

  abbrev pub note_transaction_id_status : TransactionId → Option ℕ → State C → State C
  note_transaction_id_status id position state = record state {
    known_completed_transactions = cache.put id position state.known_completed_transactions;
  }

  abbrev pub note_transaction_ids_completed : List (TransactionId × Option ℕ) → State C → State C
  note_transaction_ids_completed [] state = state
  note_transaction_ids_completed ((id, position) ∷ rest) state =
      note_transaction_ids_completed rest (note_transaction_id_status id position state)

  abbrev pub transaction_id_position : TransactionId → State C → Option (Option ℕ) × State C
  transaction_id_position id state =
      let found = cache.get id state.known_completed_transactions in
      (found.0, record state { known_completed_transactions = found.1 })

module _ {C : Type 0} where
  -- A state is initialized once.
  unfoldable pub initialize : TransactionId → ℕ → State C → Result (State C)
  initialize last_written position state =
      if state.current_transaction_id == uninitialized_id
      then ok (record state {
        current_transaction_id = last_written + 1;
        log_position = record { file_offset = position; last_written_transaction = last_written };
      })
      else err panic

  -- `current_transaction_id`
  abbrev pub last_transaction_id : State C → Option TransactionId
  last_transaction_id state =
      let last_written = state.log_position.last_written_transaction in
      if last_written == uninitialized_id then none else some last_written

  abbrev pub next_transaction_id : State C → TransactionId
  next_transaction_id state = state.current_transaction_id

  abbrev pub len : State C → ℕ
  len state = state.log_position.file_offset

  -- The id that `new_transaction` takes; the locks of the trees are in Transaction/Lock.antt.
  abbrev pub take_transaction_id : State C → TransactionId × State C
  take_transaction_id state =
      let id = state.current_transaction_id in
      (id, record state { current_transaction_id = id + 1 })
