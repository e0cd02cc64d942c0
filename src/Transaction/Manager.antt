-- ===== src/Transaction/Manager.antt =====
-- nebari/src/transaction/manager.rs: `ManagerThread`, which gathers transactions in batches and
-- writes a batch when no id is missing below it.
--
-- The log is an interface, `LogOps`, which Transaction/Manager/Log.antt fills with the transaction
-- log. A completion channel is a number; `completed` lists what was sent on them. A command that is
-- received is an argument: an empty channel is `empty`, on which `recv` waits.
pub mod Batch
pub mod Entries
pub mod Invariant
pub mod Steps
pub mod Handled
pub mod Batching
pub mod Safe
pub mod Log
use nebari.Common.{
  ℕ, ◌<◌, ◌≡◌, Bool, true, false, not, ◌&&◌, Option, none, some, List, [], ◌∷◌, ◌++◌, get_last?,
  ltb, if◌then◌else◌, All,
}
use nebari.Error.{Result, ok, err, panic, ◌>>=◌}
use nebari.Tree.Modification.{TransactionId}
use nebari.Encoding.{LogEntry}
use nebari.Transaction.Ids.{IdSequence, new, complete, note}
use nebari.Transaction.Log.Files.{IsAscending, last_id}

-- What the thread relies on: entries with ascending ids above the last one are written, behind what
-- the log holds.
pub record LogOps (W : Type 0) : Type 1 where
  pub push : List (LogEntry ℕ) → W → Result W
  pub last_written : W → TransactionId
  pub IsGood : W → Type 0
  pub Holds : List (LogEntry ℕ) → W → Type 0
  pub IsLoggable : LogEntry ℕ → Type 0
  pub push-ascending :
      (ts : List (LogEntry ℕ)) (w : W)
      → IsGood w
      → All IsLoggable ts
      → IsAscending (last_written w) ts
      → (w' : W) × ((push ts w ≡ ok w')
          × (IsGood w' × (last_written w' ≡ last_id (last_written w) ts)))
  pub push-Holds :
      (held ts : List (LogEntry ℕ)) (w w' : W)
      → Holds held w
      → All IsLoggable ts
      → IsAscending (last_written w) ts
      → push ts w ≡ ok w'
      → Holds (held ++ ts) w'

pub data ThreadState : Type 0 where
  fresh batching ensuring_sequence : ThreadState

-- A commit has the locks of its trees, which go back through the channel.
pub data ThreadCommand (L : Type 0) : Type 0 where
  commit : LogEntry ℕ → (completion_sender : ℕ) → (locked_trees : L) → ThreadCommand L
  drop : TransactionId → ThreadCommand L

pub data Received (L : Type 0) : Type 0 where
  received : ThreadCommand L → Received L
  empty disconnected : Received L

pub record ManagerThread (W L : Type 0) : Type 0 where
  pub state : ThreadState
  pub log : W
  pub pending_transaction_ids : IdSequence
  pub last_processed_id : TransactionId
  pub transaction_batch : List (LogEntry ℕ)
  pub completion_senders : List (ℕ × L)
  pub completed : List (ℕ × L)

-- `sort_unstable_by` on the ids
abbrev pub insert_by_id : LogEntry ℕ → List (LogEntry ℕ) → List (LogEntry ℕ)
insert_by_id t [] = t ∷ []
insert_by_id t (u ∷ us) =
    let rest = insert_by_id t us in if ltb t.id u.id then t ∷ u ∷ us else u ∷ rest

abbrev pub sort_by_id : List (LogEntry ℕ) → List (LogEntry ℕ)
sort_by_id [] = []
sort_by_id (t ∷ ts) = insert_by_id t (sort_by_id ts)

abbrev pub is_empty {ℓ} : {A : Type ℓ} → List A → Bool
is_empty [] = true
is_empty (x ∷ xs) = false

-- `Option::unwrap` and `Result::unwrap`
abbrev pub unwrap {ℓ} : {A : Type ℓ} → Option A → Result A
unwrap none = err panic
unwrap (some a) = ok a

abbrev pub unwrap_result {ℓ} : {A : Type ℓ} → Result A → Result A
unwrap_result (ok a) = ok a
unwrap_result (err e) = err panic

module _ {W L : Type 0} (ops : LogOps W) where
  abbrev pub run : TransactionId → W → ManagerThread W L
  run transaction_id log = record {
    state = fresh;
    log = log;
    pending_transaction_ids = new transaction_id;
    last_processed_id = transaction_id;
    transaction_batch = [];
    completion_senders = [];
    completed = [];
  }

  unfoldable pub commit_transaction_batch : ManagerThread W L → Result (ManagerThread W L)
  commit_transaction_batch m = do
    last ← unwrap (get_last? (sort_by_id m.transaction_batch))
    log ← unwrap_result (ops.push (sort_by_id m.transaction_batch) m.log)
    ok (record m {
      transaction_batch = [];
      last_processed_id = last.id;
      state = fresh;
      log = log;
      completion_senders = [];
      completed = m.completed ++ m.completion_senders;
    })

  abbrev pub note_id : TransactionId → ManagerThread W L → Result (ManagerThread W L)
  note_id id m = do
    ids ← note id m.pending_transaction_ids
    ok (record m { pending_transaction_ids = ids })

  abbrev pub enqueue : LogEntry ℕ → ℕ → L → ManagerThread W L → ManagerThread W L
  enqueue t sender locks m = record m {
    transaction_batch = m.transaction_batch ++ (t ∷ []);
    completion_senders = m.completion_senders ++ ((sender, locks) ∷ []);
  }

  abbrev pub commit_if : Bool → ManagerThread W L → Result (ManagerThread W L)
  commit_if b m = if b then commit_transaction_batch m else ok m

  unfoldable pub mark_transaction_handled :
      TransactionId → ManagerThread W L → Result (ManagerThread W L)
  mark_transaction_handled id m = do
    m ← note_id id m
    commit_if (complete m.pending_transaction_ids && not (is_empty m.transaction_batch)) m

  unfoldable pub note_potentially_sequential_id :
      TransactionId → ManagerThread W L → Result (ManagerThread W L)
  note_potentially_sequential_id id m = note_id id m >>= λ m.
      if complete m.pending_transaction_ids
      then ok (record m { last_processed_id = id; state = batching })
      else (commit_if (not (is_empty m.transaction_batch)) m >>= λ m.
          ok (record m { state = ensuring_sequence }))

  abbrev pub start_batch : TransactionId → ManagerThread W L → ManagerThread W L
  start_batch id m =
      if complete m.pending_transaction_ids
      then record m { last_processed_id = id; state = batching }
      else record m { state = ensuring_sequence }

  -- The answer says whether the thread goes on.
  unfoldable pub process_fresh : Received L → ManagerThread W L → Result (Bool × ManagerThread W L)
  process_fresh empty m = ok (true, m)
  process_fresh disconnected m = ok (false, m)
  process_fresh (received (commit t sender locks)) m = do
    m ← note_id t.id m
    ok (true, enqueue t sender locks (start_batch t.id m))
  process_fresh (received (drop id)) m = do m ← mark_transaction_handled id m; ok (true, m)

  unfoldable pub process_batching :
      Received L → ManagerThread W L → Result (Bool × ManagerThread W L)
  process_batching empty m = do m ← commit_transaction_batch m; ok (true, m)
  process_batching disconnected m = ok (false, m)
  process_batching (received (commit t sender locks)) m = do
    m ← note_potentially_sequential_id t.id m
    ok (true, enqueue t sender locks m)
  process_batching (received (drop id)) m = do m ← note_potentially_sequential_id id m; ok (true, m)

  unfoldable pub process_ensuring_sequence :
      Received L → ManagerThread W L → Result (Bool × ManagerThread W L)
  process_ensuring_sequence empty m = ok (true, m)
  process_ensuring_sequence disconnected m = ok (false, m)
  process_ensuring_sequence (received (commit t sender locks)) m = do
    m ← mark_transaction_handled t.id (enqueue t sender locks m)
    ok (true, m)
  process_ensuring_sequence (received (drop id)) m = do
    m ← mark_transaction_handled id m
    ok (true, m)

  abbrev pub process_in :
      ThreadState → Received L → ManagerThread W L → Result (Bool × ManagerThread W L)
  process_in fresh r m = process_fresh r m
  process_in batching r m = process_batching r m
  process_in ensuring_sequence r m = process_ensuring_sequence r m

  unfoldable pub process_next_command :
      Received L → ManagerThread W L → Result (Bool × ManagerThread W L)
  process_next_command r m = process_in m.state r m

  -- The loop of the thread, over what it receives.
  unfoldable pub save_transactions :
      List (Received L) → ManagerThread W L → Result (ManagerThread W L)
  save_transactions [] m = ok m
  save_transactions (r ∷ rs) m = process_next_command r m >>= λ (going, m). elim going [
    | true ↦ save_transactions rs m
    | false ↦ ok m
  ]
