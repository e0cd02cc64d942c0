-- ===== src/Transaction/Log.antt =====
-- nebari/src/transaction/log.rs: the pages of the transaction log. A payload is cut into pages of
-- 1024 bytes, the first with a header of four bytes, the others with one.
--
-- Bytes are the numbers below 256. The vault belongs to the caller: an interface. The buffer of a
-- reader is filled before it is read, so what it held is left out; that of the writer is kept, since
-- it pads the last page. `|` of the three bytes of a length is `+`.
pub mod Pages
pub mod Written
pub mod Segments
pub mod Append
pub mod Files
pub mod Scan
pub mod Recovery
pub mod Reopen
use nebari.Common.{
  ℕ, zero, suc, ◌+◌, ◌-◌, ◌*◌, ◌/◌, ◌%◌, ◌<◌, ◌≡◌, min, Bool, true, false, Option, none, some, List,
  [], ◌∷◌, ◌++◌, length, take, drop, replicate, ltb, leb, ◌==◌, if◌then◌else◌,
}
use nebari.Error.{
  Result, ok, err, message, panic, data_integrity, transaction_pushed_out_of_order, ◌>>=◌,
}
use nebari.Tree.Modification.{TransactionId}
use nebari.Encoding.{ByteOrder, LogEntry, serialize_log, deserialize_log}
use nebari.Io.Memory.{MemoryFile, start, forward, file_length, seek, read, write}
use nebari.Transaction.State.{LogPosition, Cache, State, note_transaction_ids_completed, initialize}

abbrev pub page_size : ℕ
page_size = 1024

abbrev pub next_page_start : ℕ → ℕ
next_page_start position = (position + page_size - 1) / page_size * page_size

-- `AnyVault`: what was encrypted is decrypted, and there is something to decrypt.
pub record Vault : Type 0 where
  pub encrypt : List ℕ → Result (List ℕ)
  pub decrypt : List ℕ → Result (List ℕ)
  pub decrypt-encrypt : (p c : List ℕ) → encrypt p ≡ ok c → decrypt c ≡ ok p
  pub length-encrypt : (p c : List ℕ) → encrypt p ≡ ok c → 0 < length c

abbrev pub seal : Option Vault → List ℕ → Result (List ℕ)
seal none payload = ok payload
seal (some vault) payload = vault.encrypt payload

abbrev pub unseal : Option Vault → List ℕ → Result (List ℕ)
unseal none payload = ok payload
unseal (some vault) payload = vault.decrypt payload

-- The first page has the length of the payload as the next three bytes.
unfoldable pub page_header : List ℕ → ℕ → Result (List ℕ)
page_header payload (suc offset) = ok (0 ∷ [])
page_header payload zero =
    let n = length payload in
    if leb 16777216 n then err message else ok (1 ∷ n / 65536 % 256 ∷ n / 256 % 256 ∷ n % 256 ∷ [])

pub record Writer : Type 0 where
  pub scratch : List ℕ
  pub log : MemoryFile ℕ
  pub log_position : LogPosition
  pub completed_transactions : List (TransactionId × Option ℕ)

-- What was in the buffer stays behind the part that is written over.
abbrev pub put_front : List ℕ → List ℕ → List ℕ
put_front front buffer = front ++ drop (length front) buffer

abbrev pub write_page : List ℕ → Writer → Writer
write_page page w = record w {
  scratch = page;
  log = write page w.log;
  log_position = record w.log_position { file_offset = w.log_position.file_offset + page_size };
}

-- What a page takes, behind its header.
abbrev pub bytes_to_write : List ℕ → List ℕ → ℕ → ℕ
bytes_to_write header payload offset = min (length payload - offset) (page_size - length header)

abbrev pub page_of : List ℕ → List ℕ → ℕ → List ℕ → List ℕ
page_of header payload offset scratch =
    put_front (header ++ take (bytes_to_write header payload offset) (drop offset payload)) scratch

-- The loop over the offset; the length of the payload is fuel enough.
unfoldable pub write_pages : ℕ → List ℕ → ℕ → Writer → Result Writer
write_pages zero payload offset w = ok w
write_pages (suc n) payload offset w = elim (ltb offset (length payload)) [
  | false ↦ ok w
  | true ↦ page_header payload offset >>= λ header.
      write_pages n payload (offset + bytes_to_write header payload offset)
        (write_page (page_of header payload offset w.scratch) w)
]

abbrev pub with_position : LogEntry ℕ → Writer → Writer
with_position transaction w = record w {
  log_position = record w.log_position { last_written_transaction = transaction.id };
  completed_transactions =
      w.completed_transactions ++ ((transaction.id, some w.log_position.file_offset) ∷ []);
}

abbrev pub take_position : LogEntry ℕ → Writer → Result Writer
take_position transaction w =
    if ltb w.log_position.last_written_transaction transaction.id
    then ok (with_position transaction w)
    else err transaction_pushed_out_of_order

-- What a failed entry leaves behind: its id, if that was accepted. No page was written then.
abbrev pub left_by : LogEntry ℕ → Writer → Writer
left_by transaction w = elim (take_position transaction w) [ ok w' ↦ w' | err kind ↦ w ]

-- The writer as the loop leaves it, which changes it in place, and how the loop ended.
pub record Attempt : Type 0 where
  pub writer : Writer
  pub answer : Result {0} Unit

-- The state and the file as `execute` leaves them, and its answer.
pub record Pushing (C : Type 0) : Type 0 where
  pub state : State C
  pub log : MemoryFile ℕ
  pub answer : Result {0} Unit

-- The same for a caller that gives up on an error.
abbrev pub or_error : {C : Type 0} → Pushing C → Result (State C × MemoryFile ℕ)
or_error p = p.answer >>= λ _. ok (p.state, p.log)

pub data ScanResult : Type 0 where
  found : LogEntry ℕ → (position length : ℕ) → ScanResult
  not_found : (nearest_position : ℕ) → ScanResult

pub data PageHeader : Type 0 where
  continuation corrupt : PageHeader
  first : (length : ℕ) → PageHeader

abbrev pub parse_header : List ℕ → PageHeader
parse_header (zero ∷ rest) = continuation
parse_header (suc zero ∷ a ∷ b ∷ c ∷ []) = first (a * 65536 + b * 256 + c)
parse_header _ = corrupt

-- The bytes of a payload, page after page; the length is fuel enough.
unfoldable pub read_payload :
    ℕ → ℕ → ℕ → Bool → List ℕ → MemoryFile ℕ → Result (List ℕ × MemoryFile ℕ)
read_payload zero length offset initial_page payload log = ok (payload, log)
read_payload (suc n) length offset initial_page payload log = elim (ltb offset length) [
  | false ↦ ok (payload, log)
  | true ↦
      let page_header_length = if initial_page then 4 else 1 in
      let page_length = min (page_size - page_header_length) (length - offset) in
      (if initial_page then ok log else seek (forward 1) log) >>= λ log.
      read page_length log >>= λ (bytes, log).
      read_payload n length (offset + page_length) false (payload ++ bytes) log
]

-- `set_len` through the path of the file, which is one of the operating system's, and the file is
-- opened again. An in-memory file has no such path.
abbrev pub truncate_file : ℕ → MemoryFile ℕ → MemoryFile ℕ
truncate_file log_length log = record { buffer = take log_length log.buffer; position = 0 }

-- The page to try next; there is none before or after a first page that is not a header.
abbrev pub adjacent_page : ℕ → Bool → Result (Option ℕ)
adjacent_page block_start scan_forward =
    if block_start == 0
    then ok none
    else if scan_forward
    then ok (some (block_start + page_size))
    else if ltb block_start page_size
    then err panic
    else ok (some (block_start - page_size))

module _ (bytes : ByteOrder ℕ) (vault : Option Vault) where
  unfoldable pub write_transaction : LogEntry ℕ → Writer → Result Writer
  write_transaction transaction w = do
    w ← take_position transaction w
    payload ← seal vault (serialize_log bytes transaction)
    write_pages (length payload) payload 0 w

  unfoldable pub write_transactions : List (LogEntry ℕ) → Writer → Attempt
  write_transactions [] w = record { writer = w; answer = ok tt }
  write_transactions (t ∷ ts) w = elim (write_transaction t w) [
    | ok w' ↦ write_transactions ts w'
    | err kind ↦ record { writer = left_by t w; answer = err kind }
  ]

  -- The page at `block_start` begins an entry of that length.
  unfoldable pub read_entry : ℕ → ℕ → MemoryFile ℕ → Result ScanResult
  read_entry block_start length log = do
    (payload, log) ← read_payload length length 0 true [] log
    decrypted ← unseal vault payload
    entry ← elim (deserialize_log bytes decrypted) [ ok e ↦ ok e | err e ↦ err data_integrity ]
    ok (found entry block_start length)

  -- A page that does not begin an entry leads to its neighbour; another byte than 0 and 1 is a panic.
  unfoldable pub scan_loop : ℕ → ℕ → Bool → MemoryFile ℕ → Result ScanResult
  scan_loop zero block_start scan_forward log = err panic
  scan_loop (suc n) block_start scan_forward log = elim (leb (file_length log) block_start) [
    | true ↦ ok (not_found block_start)
    | false ↦ seek (start block_start) log >>= λ log. read 4 log >>= λ (header, log).
        elim (parse_header header) [
          | corrupt ↦ err panic
          | first payload_length ↦ read_entry block_start payload_length log
          | continuation ↦ adjacent_page block_start scan_forward >>= λ next. elim next [
            | none ↦ ok (not_found 0)
            | some block ↦ scan_loop n block scan_forward log
          ]
        ]
  ]

  unfoldable pub scan_for_transaction : MemoryFile ℕ → ℕ → Bool → Result ScanResult
  scan_for_transaction log block_start scan_forward =
      scan_loop (suc (file_length log + block_start)) block_start scan_forward log

  -- `StateInitializer`: the last entry of a file of whole pages. The start of the last page of a
  -- file without one underflows.
  unfoldable pub initialize_from : {C : Type 0} → State C → ℕ → MemoryFile ℕ → Result (State C)
  initialize_from state log_length log =
      if ltb log_length page_size
      then err panic
      else scan_for_transaction log (log_length - page_size) false >>= λ result. elim result [
        | found entry position payload_length ↦ initialize entry.id log_length state
        | not_found nearest_position ↦ err data_integrity
      ]

  -- What is behind the last whole page is cut off.
  unfoldable pub initialize_state :
      {C : Type 0} → State C → MemoryFile ℕ → Result (State C × MemoryFile ℕ)
  initialize_state state log =
      let log_length = file_length log - file_length log % page_size in
      let whole = truncate_file log_length log in
      if file_length log == 0
      then (initialize 0 0 state >>= λ state. ok (state, log))
      else initialize_from state log_length whole >>= λ state. ok (state, whole)

  module _ {C : Type 0} (cache : Cache C) where
    abbrev pub writer_of : State C → MemoryFile ℕ → Writer
    writer_of state log = record {
      scratch = replicate page_size 0;
      log = log;
      log_position = state.log_position;
      completed_transactions = [];
    }

    -- The ids are noted only if all entries were written.
    abbrev pub finish : State C → Attempt → Pushing C
    finish state attempt =
        let moved = record state { log_position = attempt.writer.log_position } in
        elim attempt.answer [
          | ok _ ↦ record {
            state =
                note_transaction_ids_completed cache attempt.writer.completed_transactions moved;
            log = attempt.writer.log;
            answer = ok tt;
          }
          | err kind ↦ record { state = moved; log = attempt.writer.log; answer = err kind }
        ]

    -- `LogWriter`
    unfoldable pub push : List (LogEntry ℕ) → State C → MemoryFile ℕ → Pushing C
    push transactions state log =
        finish state (write_transactions transactions (writer_of state log))
