-- ===== src/Tests/Lost.antt =====
-- A transaction of two pages, whose id is the first in the log since 1 was rolled back, and the next
-- one: the next one is not found by its id, though it is in the file. And a guess whose location wraps.
use nebari.Common.{ℕ, ◌*◌, ◌/◌, ◌≡◌, refl, none, some, [], ◌∷◌, replicate, false}
use nebari.Error.{Result, ok, ◌>>=◌}
use nebari.Encoding.{LogEntry, serialize_log, deserialize_log}
use nebari.Io.Memory.{file_length, seek, read, write}
use nebari.Transaction.State.{State}
use nebari.Transaction.Log.{
  ScanResult, found, not_found, page_header, write_pages, write_transaction, write_transactions,
  or_error, push, read_payload, read_entry, scan_loop, scan_for_transaction,
}
use nebari.Transaction.Search.{Estimate, guess_page, narrow, fetch_round, fetch_loop, fetch_entry}
use nebari.Tests.Bytes.{big_endian}
use nebari.Tests.Log.{Known, cache, exact, entry}

abbrev two_pages : LogEntry ℕ
two_pages = record { id = 2; «data» = some (replicate 1100 7) }

abbrev before_writing : State Known
before_writing = record {
  current_transaction_id = 4;
  log_position = record { file_offset = 0; last_written_transaction = 0 };
  known_completed_transactions = λ id. none;
}

abbrev answer : Result (ScanResult × State Known) → Result ScanResult
answer r = do (result, state) ← r; ok result

abbrev searched : ℕ → Result ScanResult
searched id = do
  (state, log) ← or_error (
      push big_endian none cache (two_pages ∷ entry 3 ∷ []) before_writing
        (record { buffer = []; position = 0 }))
  answer (fetch_entry exact big_endian none cache id log state)

abbrev scanned : ℕ → Result ScanResult
scanned block = do
  (state, log) ← or_error (
      push big_endian none cache (two_pages ∷ entry 3 ∷ []) before_writing
        (record { buffer = []; position = 0 }))
  scan_for_transaction big_endian none log block false

is_there : scanned 2048 ≡ ok (found (entry 3) 2048 9)
unfolding push write_transactions write_transaction write_pages page_header serialize_log
    deserialize_log file_length seek read write read_payload read_entry scan_loop
    scan_for_transaction
is_there = refl

is_lost : searched 3 ≡ ok (not_found 0)
unfolding push write_transactions write_transaction write_pages page_header serialize_log
    deserialize_log file_length seek read write read_payload read_entry scan_loop
    scan_for_transaction guess_page narrow fetch_round fetch_loop fetch_entry
is_lost = refl

-- `delta * (ids / pages)`
abbrev multiplying : Estimate
multiplying = record {
  forward_pages = λ delta ids pages. delta * (ids / pages);
  backward_pages = λ delta id pages. delta * (id / pages);
}

-- The estimated location wraps, and the guess is the lower location itself.
wraps : guess_page multiplying 134217729 (some 0) (some 1) 2048 268435457 ≡ some 0
unfolding guess_page
wraps = refl
