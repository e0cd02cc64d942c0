-- ===== src/Transaction/Log/Files.antt =====
-- The file of a log as the segments of its entries, one after another.
use nebari.Common.{
  ℕ, ◌+◌, ◌≤◌, ◌<◌, ◌≡◌, refl, sym, ap, subst, ◌∙◌, Option, some, List, [], ◌∷◌, ◌++◌, map, length,
  length-append, append_assoc, append-nil, All, concat_map, le→ltb, arith,
}
use nebari.Error.{Result, ok, err, transaction_pushed_out_of_order}
use nebari.Tree.Modification.{TransactionId}
use nebari.Encoding.{ByteOrder, LogEntry}
use nebari.Transaction.Log.{
  page_size, Vault, Writer, Attempt, left_by, write_transaction, write_transactions,
}
use nebari.Transaction.Log.Segments.{Segment, bytes_of, IsSegment, IsLoggable}
use nebari.Transaction.Log.Append.{write_transaction-Appended}

-- Each id is above the one before.
abbrev pub IsAscending : TransactionId → List (LogEntry ℕ) → Type 0
IsAscending last [] = Unit
IsAscending last (t ∷ ts) = (last < t.id) × IsAscending t.id ts

abbrev pub last_id : TransactionId → List (LogEntry ℕ) → TransactionId
last_id last [] = last
last_id last (t ∷ ts) = last_id t.id ts

abbrev pub bytes_of_all : List Segment → List ℕ
bytes_of_all = concat_map bytes_of

-- Where each segment begins, with the id of its entry.
abbrev pub positions : ℕ → List Segment → List (TransactionId × Option ℕ)
positions offset [] = []
positions offset (s ∷ ss) = (s.entry.id, some offset) ∷ positions (offset + length (bytes_of s)) ss

module _ (bytes : ByteOrder ℕ) (vault : Option Vault) where
  -- The entries have been written, and the loop goes on to end with an answer.
  pub record AllAppended (ts : List (LogEntry ℕ)) (answer : Result {0} Unit) (w : Writer)
      (r : Attempt) : Type 0 where
    pub result : Writer
    pub returns : r ≡ record { writer = result; answer = answer }
    pub segments : List Segment
    pub are_segments : All (IsSegment bytes vault) segments
    pub of_entries : map (λ (s : Segment). s.entry) segments ≡ ts
    pub appended : result.log.buffer ≡ w.log.buffer ++ bytes_of_all segments
    pub moved :
        result.log_position.file_offset
        ≡ w.log_position.file_offset + length (bytes_of_all segments)
    pub last :
        result.log_position.last_written_transaction
        ≡ last_id w.log_position.last_written_transaction ts
    pub completed :
        result.completed_transactions
        ≡ w.completed_transactions ++ positions w.log_position.file_offset segments

  one_more :
      (xs ys : List (TransactionId × Option ℕ)) (x : TransactionId × Option ℕ)
      → (xs ++ (x ∷ [])) ++ ys ≡ xs ++ (x ∷ ys)
  one_more xs ys x = simp append_assoc

  -- The entries before those at which the loop stops.
  write_transactions-then :
      (ts rest : List (LogEntry ℕ)) (answer : Result {0} Unit) (w : Writer)
      → All (IsLoggable bytes vault) ts
      → IsAscending w.log_position.last_written_transaction ts
      → length w.scratch ≡ page_size
      → ((w' : Writer)
          → w'.log_position.last_written_transaction
            ≡ last_id w.log_position.last_written_transaction ts
          → write_transactions bytes vault rest w' ≡ record { writer = w'; answer = answer })
      → AllAppended ts answer w (write_transactions bytes vault (ts ++ rest) w)
  unfolding write_transactions
  write_transactions-then [] rest answer w h asc s stop = record {
    result = w;
    returns = stop w refl;
    segments = [];
    are_segments = tt;
    of_entries = refl;
    appended = sym (append-nil w.log.buffer);
    moved = omega arith;
    last = refl;
    completed = sym (append-nil w.completed_transactions);
  }
  write_transactions-then (t ∷ ts) rest answer w h asc s stop =
      let one = write_transaction-Appended bytes vault t h.0 w asc.0 s in
      let more =
        write_transactions-then ts rest answer one.result h.1
          (subst (λ i. IsAscending i ts) (sym one.last) asc.1) one.scratch_whole
          (λ w' e. stop w' (e ∙ ap (λ i. last_id i ts) one.last)) in
      record {
        result = more.result;
        returns = rw (one.returns, write_transactions) more.returns;
        segments = one.segment ∷ more.segments;
        are_segments = (one.is_segment, more.are_segments);
        of_entries = rw (one.of_entry, more.of_entries) refl;
        appended = simp (more.appended, one.appended, append_assoc);
        moved = omega (
          arith,
          more.moved,
          one.moved,
          length-append (bytes_of one.segment) (bytes_of_all more.segments),
        );
        last = more.last ∙ ap (λ i. last_id i ts) one.last;
        completed =
            rw (more.completed, one.completed, one.moved, one.of_entry)
              (one_more w.completed_transactions _ _);
      }

  pub write_transactions-AllAppended :
      (ts : List (LogEntry ℕ)) (w : Writer)
      → All (IsLoggable bytes vault) ts
      → IsAscending w.log_position.last_written_transaction ts
      → length w.scratch ≡ page_size
      → AllAppended ts (ok tt) w (write_transactions bytes vault ts w)
  unfolding write_transactions
  write_transactions-AllAppended ts w h asc s =
      subst (λ us. AllAppended ts (ok tt) w (write_transactions bytes vault us w)) (append-nil ts)
        (write_transactions-then ts [] (ok tt) w h asc s (λ w' e. refl))

  left_late :
      (late : LogEntry ℕ) (w : Writer)
      → late.id ≤ w.log_position.last_written_transaction
      → left_by late w ≡ w
  left_late late w h = rw (le→ltb w.log_position.last_written_transaction late.id h, left_by) refl

  late_id :
      (late : LogEntry ℕ) (rest : List (LogEntry ℕ)) (w : Writer)
      → late.id ≤ w.log_position.last_written_transaction
      → write_transactions bytes vault (late ∷ rest) w
        ≡ record { writer = w; answer = err transaction_pushed_out_of_order }
  unfolding write_transactions write_transaction
  late_id late rest w h =
      rw (le→ltb w.log_position.last_written_transaction late.id h, write_transactions)
        (ap (λ v. record { writer = v; answer = err transaction_pushed_out_of_order })
          (left_late late w h))

  pub write_transactions-out_of_order :
      (ts : List (LogEntry ℕ)) (late : LogEntry ℕ) (rest : List (LogEntry ℕ)) (w : Writer)
      → All (IsLoggable bytes vault) ts
      → IsAscending w.log_position.last_written_transaction ts
      → length w.scratch ≡ page_size
      → late.id ≤ last_id w.log_position.last_written_transaction ts
      → AllAppended ts
          (err transaction_pushed_out_of_order)
          w
          (write_transactions bytes vault (ts ++ (late ∷ rest)) w)
  write_transactions-out_of_order ts late rest w h asc s k =
      write_transactions-then ts (late ∷ rest) (err transaction_pushed_out_of_order) w h asc s
        (λ w' e. late_id late rest w' (omega (arith, e)))
