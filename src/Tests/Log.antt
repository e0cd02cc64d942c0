-- ===== src/Tests/Log.antt =====
-- The transaction log and its thread on small inputs.
use nebari.Common.{
  ℕ, ◌+◌, ◌-◌, ◌*◌, ◌/◌, ◌<◌, ◌≡◌, ◌≢◌, ◌↔◌, refl, Bool, true, Option, none, some, List, [], ◌∷◌,
  ◌++◌, ◌==◌, if◌then◌else◌, arith,
}
use nebari.Error.{ok, Ensures, ◌>>=◌}
use nebari.Io.Memory.{MemoryFile}
use nebari.Tree.Modification.{TransactionId}
use nebari.Encoding.{u64, LogEntry, serialize_log}
use nebari.Transaction.State.{Cache, State}
use nebari.Transaction.Log.{push, initialize_state}
use nebari.Transaction.Log.Segments.{IsLoggable}
use nebari.Transaction.Log.Reopen.{
  IsLogOf, Pushed, Stopped, push-Pushed, push-out_of_order, Opened, initialize_state-Opened,
}
use nebari.Transaction.Search.{Estimate, guess_page, fetch_entry, unbounded, included, offer, scan}
use nebari.Transaction.Search.Fetch.{IsGuess, guess_page-IsGuess, IsAnswer, fetch_entry-IsAnswer}
use nebari.Transaction.Search.All.{feed, scan-feed}
use nebari.Transaction.Ids.{new, complete, note}
use nebari.Transaction.Ids.Seen.{seen}
use nebari.Transaction.Ids.Note.{Noted, note-Noted, new-IsValid, complete_lem}
use nebari.Transaction.Manager.{
  ManagerThread, Received, received, commit, drop, empty, run, process_next_command,
  save_transactions,
}
use nebari.Transaction.Manager.Entries.{Keeps}
use nebari.Transaction.Manager.Steps.{Inv, Stepped}
use nebari.Transaction.Manager.Safe.{
  run-Inv, process_next_command-Stepped, save_transactions-answers,
}
use nebari.Transaction.Manager.Log.{transaction_log}
use nebari.Tests.Bytes.{big_endian}

-- A cache that forgets nothing.
abbrev pub Known : Type 0
Known = TransactionId → Option (Option ℕ)

pub get-put_other :
    (id other : TransactionId) (p q : Option ℕ) (c : Known)
    → id ≢ other
    → (if id == other then some p else c id) ≡ some q
    → c id ≡ some q
get-put_other id other p q c d e = ground arith

abbrev pub cache : Cache Known
cache = record {
  empty = λ id. none;
  put = λ id p c other. if other == id then some p else c other;
  get = λ id c. (c id, c);
  get-empty = λ id. refl;
  get-put = λ id p c. ground arith;
  get-put_other = get-put_other;
}

-- What the floating-point numbers stand for.
abbrev pub exact : Estimate
exact = record {
  forward_pages = λ delta ids pages. delta * ids / pages;
  backward_pages = λ delta id pages. (delta * id + pages - 1) / pages;
}

abbrev pub entry : ℕ → LogEntry ℕ
entry id = record { id = id; «data» = some (7 ∷ []) }

abbrev entry_payload : ℕ → List ℕ
entry_payload id = big_endian.write u64 id ++ (7 ∷ [])

entry-IsLoggable : (id : ℕ) → id < 1000 → IsLoggable big_endian none (entry id)
unfolding serialize_log
entry-IsLoggable id h = record {
  payload = entry_payload id;
  sealed = refl;
  small = omega (arith);
  id_fits = omega arith;
  some_data = λ e. cc;
}

abbrev state_one : State Known
state_one = record {
  current_transaction_id = 1;
  log_position = record { file_offset = 0; last_written_transaction = 0 };
  known_completed_transactions = λ id. none;
}

abbrev state_fresh : State Known
state_fresh = record {
  current_transaction_id = 0;
  log_position = record { file_offset = 0; last_written_transaction = 0 };
  known_completed_transactions = λ id. none;
}

abbrev no_file : MemoryFile ℕ
no_file = record { buffer = []; position = 0 }

empty_log : IsLogOf big_endian none {C = Known} [] state_one no_file
empty_log = record {
  segments = [];
  are_segments = tt;
  of_entries = refl;
  contents = refl;
  at_end = refl;
  last = refl;
}

push-Pushed_example :
    Pushed big_endian none cache []
      (entry 1 ∷ entry 2 ∷ [])
      state_one
      no_file
      (push big_endian none cache (entry 1 ∷ entry 2 ∷ []) state_one no_file)
push-Pushed_example =
    push-Pushed big_endian none cache [] (entry 1 ∷ entry 2 ∷ []) state_one no_file empty_log
      (entry-IsLoggable 1 (omega arith), (entry-IsLoggable 2 (omega arith), tt))
      (omega arith, (omega arith, tt))

push-out_of_order_example :
    Stopped big_endian none cache []
      (entry 2 ∷ [])
      state_one
      (push big_endian none cache (entry 2 ∷ entry 1 ∷ entry 3 ∷ []) state_one no_file)
push-out_of_order_example =
    push-out_of_order big_endian none cache [] (entry 2 ∷ []) (entry 1) (entry 3 ∷ []) state_one
      no_file empty_log (entry-IsLoggable 2 (omega arith), tt) (omega arith, tt) (omega arith)

-- A log with one entry.
one_pushed :
    Pushed big_endian none cache []
      (entry 2 ∷ [])
      state_one
      no_file
      (push big_endian none cache (entry 2 ∷ []) state_one no_file)
one_pushed =
    push-Pushed big_endian none cache [] (entry 2 ∷ []) state_one no_file empty_log
      (entry-IsLoggable 2 (omega arith), tt) (omega arith, tt)

initialize_state-Opened_example : Opened big_endian none (entry 2 ∷ []) (
    initialize_state big_endian none state_fresh
      (record { buffer = one_pushed.log'.buffer ++ (1 ∷ 0 ∷ []); position = 0 }))
initialize_state-Opened_example =
    initialize_state-Opened big_endian none (entry 2 ∷ []) one_pushed.state' state_fresh
      one_pushed.log' (1 ∷ 0 ∷ []) 0 one_pushed.is_log (λ e. cc) (omega arith) refl

-- The ids that a scan sees.
abbrev collect : LogEntry ℕ → List ℕ → Bool × List ℕ
collect t ids = (true, ids ++ (t.id ∷ []))

scan-feed_example :
    scan collect big_endian none exact cache
      (record { start_bound = unbounded; end_bound = included 2 })
      one_pushed.log'
      one_pushed.state'
      []
    ≡ ok (
      feed
          (offer collect (record { start_bound = unbounded; end_bound = included 2 }))
          (entry 2 ∷ [])
          [],
      one_pushed.state',
    )
scan-feed_example =
    scan-feed big_endian none collect exact cache (entry 2 ∷ []) one_pushed.state' one_pushed.log'
      (included 2) [] one_pushed.is_log

guess_page-IsGuess_example : IsGuess 0 3072 (guess_page exact 3 (some 0) (some 2) 3072 4)
guess_page-IsGuess_example =
    guess_page-IsGuess exact 3 2 4 0 3072 refl refl (omega arith) (omega arith) (omega arith)
      (omega arith)

fetch_entry-IsAnswer_example :
    Ensures
      (λ r. IsAnswer exact big_endian none 2 one_pushed.log' r.0)
      (fetch_entry exact big_endian none cache 2 one_pushed.log' one_pushed.state')
fetch_entry-IsAnswer_example =
    fetch_entry-IsAnswer exact big_endian none cache 2 one_pushed.log' one_pushed.state'

abbrev state_four : State Known
state_four = record {
  current_transaction_id = 4;
  log_position = record { file_offset = 0; last_written_transaction = 3 };
  known_completed_transactions = λ id. none;
}

note-Noted_example : Noted 3 (new 1) (note 3 (new 1))
note-Noted_example = note-Noted 3 (new 1) (new-IsValid 1) (omega arith)

complete_lem_example :
    (complete (new 1) ≡ true)
    ↔ ((id other : TransactionId) → id < other → seen (new 1) other ≡ true → seen (new 1) id ≡ true)
complete_lem_example = complete_lem (new 1) (new-IsValid 1)

abbrev thread : ManagerThread (State Known × MemoryFile ℕ) ℕ
thread = run (transaction_log big_endian none cache) 1 (state_one, no_file)

thread-Inv : Inv (transaction_log big_endian none cache) thread
thread-Inv =
    run-Inv (transaction_log big_endian none cache) (state_one, no_file) 1 ([], empty_log)
      (omega arith)

process_next_command-Stepped_example :
    Stepped (transaction_log big_endian none cache) (received (commit (entry 2) 5 6)) thread (
      process_next_command
        (transaction_log big_endian none cache)
        (received (commit (entry 2) 5 6))
        thread)
process_next_command-Stepped_example =
    process_next_command-Stepped (transaction_log big_endian none cache)
      (received (commit (entry 2) 5 6)) thread thread-Inv (refl, entry-IsLoggable 2 (omega arith))

-- The first id is handed in last.
abbrev commands : List (Received ℕ)
commands = received (commit (entry 2) 5 6) ∷ received (drop 1) ∷ []

save_transactions-answers_example :
    (m' : ManagerThread (State Known × MemoryFile ℕ) ℕ) × (((save_transactions
            (transaction_log big_endian none cache)
            commands
            thread
          >>= process_next_command (transaction_log big_endian none cache) empty)
        ≡ ok (true, m'))
      × ((m'.completed ≡ [] ++ ((5, 6) ∷ []))
          × Keeps (transaction_log big_endian none cache) thread.log (entry 2 ∷ []) m'.log []))
save_transactions-answers_example =
    save_transactions-answers (transaction_log big_endian none cache) commands thread thread-Inv
      ((refl, entry-IsLoggable 2 (omega arith)), (refl, tt)) (λ id other lt s. ground arith)
