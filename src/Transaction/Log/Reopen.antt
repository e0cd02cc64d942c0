-- ===== src/Transaction/Log/Reopen.antt =====
-- A log that was written, and is opened again.
use nebari.Common.{
  ℕ, ◌+◌, ◌≤◌, ◌<◌, ◌≡◌, ◌≢◌, refl, sym, ap, ap₂, subst, ◌∙◌, Option, List, [], ◌∷◌, ◌++◌, map,
  length, length-append, length-replicate, append-nil, All, All-append, All-suffix, All-prefix,
  concat_map-append, arith, the,
}
use nebari.Error.{Result, ok, transaction_pushed_out_of_order, err}
use nebari.Io.Memory.{MemoryFile}
use nebari.Tree.Modification.{TransactionId}
use nebari.Encoding.{ByteOrder, LogEntry}
use nebari.Transaction.State.{
  LogPosition, Cache, State, uninitialized_id, note_transaction_ids_completed,
}
use nebari.Transaction.Log.{
  page_size, Vault, Attempt, Pushing, initialize_state, writer_of, finish, push,
}
use nebari.Transaction.Log.Segments.{Segment, bytes_of, IsSegment, IsLoggable}
use nebari.Transaction.Log.Files.{
  bytes_of_all, last_id, IsAscending, positions, AllAppended, write_transactions-AllAppended,
  write_transactions-out_of_order,
}
use nebari.Transaction.Log.Recovery.{recovered, initialize_state-recovered}

abbrev entries : List Segment → List (LogEntry ℕ)
entries = map (λ (s : Segment). s.entry)

record LastOf (ss : List Segment) (id : TransactionId) : Type 0 where
  earlier : List Segment
  last : Segment
  shape : ss ≡ earlier ++ (last ∷ [])
  is_last : last.entry.id ≡ id

last_segment :
    (from : TransactionId) (ss : List Segment) → ss ≢ [] → LastOf ss (last_id from (entries ss))
last_segment from [] h = absurd (h refl)
last_segment from (s ∷ []) h = record { earlier = []; last = s; shape = refl; is_last = refl }
last_segment from (s ∷ t ∷ ss) h =
    let rest = last_segment s.entry.id (t ∷ ss) (λ e. cc) in
    record {
      earlier = s ∷ rest.earlier;
      last = rest.last;
      shape = ap (λ xs. s ∷ xs) rest.shape;
      is_last = rest.is_last;
    }

module _ (bytes : ByteOrder ℕ) (vault : Option Vault) where
  -- The file and the position of a log agree: the file holds the entries, one segment for each.
  pub record IsLogOf {C : Type 0} (ts : List (LogEntry ℕ)) (state : State C) (log : MemoryFile ℕ)
      : Type 0 where
    pub segments : List Segment
    pub are_segments : All (IsSegment bytes vault) segments
    pub of_entries : map (λ (s : Segment). s.entry) segments ≡ ts
    pub contents : log.buffer ≡ bytes_of_all segments
    pub at_end : state.log_position.file_offset ≡ length log.buffer
    pub last : state.log_position.last_written_transaction ≡ last_id 0 ts

  module _ {C : Type 0} (cache : Cache C) where
    -- What `push` answers: the entries are behind those of the log, one segment for each, and each is
    -- noted at the position of its segment.
    pub record Pushed (ts new : List (LogEntry ℕ)) (state : State C) (log : MemoryFile ℕ)
        (r : Pushing C) : Type 0 where
      pub state' : State C
      pub log' : MemoryFile ℕ
      pub returns : r ≡ record { state = state'; log = log'; answer = ok tt }
      pub is_log : IsLogOf (ts ++ new) state' log'
      pub written : List Segment
      pub are_segments : All (IsSegment bytes vault) written
      pub of_new : map (λ (s : Segment). s.entry) written ≡ new
      pub behind : log'.buffer ≡ log.buffer ++ bytes_of_all written
      pub known :
          state'.known_completed_transactions
          ≡ (note_transaction_ids_completed cache
              (positions (length log.buffer) written)
              state).known_completed_transactions
      pub same_id : state'.current_transaction_id ≡ state.current_transaction_id

    -- What a push leaves that stops at an id out of order: the entries before it are in the log, and
    -- none of them is noted.
    pub record Stopped (ts accepted : List (LogEntry ℕ)) (state : State C) (r : Pushing C)
        : Type 0 where
      pub state' : State C
      pub log' : MemoryFile ℕ
      pub returns :
          r ≡ record { state = state'; log = log'; answer = err transaction_pushed_out_of_order }
      pub is_log : IsLogOf (ts ++ accepted) state' log'
      pub known : state'.known_completed_transactions ≡ state.known_completed_transactions
      pub same_id : state'.current_transaction_id ≡ state.current_transaction_id

    note-log_position :
        (ids : List (TransactionId × Option ℕ)) (state : State C)
        → (note_transaction_ids_completed cache ids state).log_position ≡ state.log_position
    note-log_position [] state = refl
    note-log_position ((id, p) ∷ ids) state = note-log_position ids _

    note-current :
        (ids : List (TransactionId × Option ℕ)) (state : State C)
        → (note_transaction_ids_completed cache ids state).current_transaction_id
          ≡ state.current_transaction_id
    note-current [] state = refl
    note-current ((id, p) ∷ ids) state = note-current ids _

    note-known :
        (ids : List (TransactionId × Option ℕ)) (state : State C) (position : LogPosition)
        → (note_transaction_ids_completed cache ids
            (record state { log_position = position })).known_completed_transactions
          ≡ (note_transaction_ids_completed cache ids state).known_completed_transactions
    note-known [] state position = refl
    note-known ((id, p) ∷ ids) state position = note-known ids _ position

    pub last_id-append :
        (from : TransactionId) (ts new : List (LogEntry ℕ))
        → last_id from (ts ++ new) ≡ last_id (last_id from ts) new
    last_id-append from [] new = refl
    last_id-append from (t ∷ ts) new = last_id-append t.id ts new

    map-append : (xs ys : List Segment) → entries (xs ++ ys) ≡ entries xs ++ entries ys
    map-append [] ys = refl
    map-append (x ∷ xs) ys = ap (λ zs. x.entry ∷ zs) (map-append xs ys)

    -- The log that the loop leaves.
    grown-IsLogOf :
        (ts new : List (LogEntry ℕ)) (state state' : State C) (log : MemoryFile ℕ)
        (answer : Result {0} Unit) (r : Attempt)
        → IsLogOf ts state log
        → (all : AllAppended bytes vault new answer (writer_of bytes vault cache state log) r)
        → state'.log_position ≡ all.result.log_position
        → IsLogOf (ts ++ new) state' all.result.log
    grown-IsLogOf ts new state state' log answer r is_log all e = record {
      segments = is_log.segments ++ all.segments;
      are_segments =
          All-append (IsSegment bytes vault) is_log.segments all.segments is_log.are_segments
            all.are_segments;
      of_entries =
          map-append is_log.segments all.segments
          ∙ ap₂ (λ xs ys. xs ++ ys) is_log.of_entries all.of_entries;
      contents =
          all.appended
          ∙ (ap (λ xs. xs ++ bytes_of_all all.segments) is_log.contents
              ∙ sym (concat_map-append bytes_of is_log.segments all.segments));
      at_end =
          ap (λ (p : LogPosition). p.file_offset) e
          ∙ the (all.result.log_position.file_offset ≡ length all.result.log.buffer) (
              omega (
                arith,
                all.moved,
                is_log.at_end,
                length-append log.buffer (bytes_of_all all.segments),
                ap length all.appended,
              ));
      last =
          ap (λ (p : LogPosition). p.last_written_transaction) e
          ∙ (all.last ∙ (ap (λ i. last_id i new) is_log.last ∙ sym (last_id-append 0 ts new)));
    }

    -- Pushing entries that the log takes, with ids ascending from the last one, succeeds: the file holds
    -- their segments behind what it held, the position is its end, and each is noted at the position
    -- where its segment begins.
    pub push-Pushed :
        (ts new : List (LogEntry ℕ)) (state : State C) (log : MemoryFile ℕ)
        → IsLogOf ts state log
        → All (IsLoggable bytes vault) new
        → IsAscending state.log_position.last_written_transaction new
        → Pushed ts new state log (push bytes vault cache new state log)
    unfolding push
    push-Pushed ts new state log is_log h asc =
        let all =
          write_transactions-AllAppended bytes vault new (writer_of bytes vault cache state log) h
            asc (length-replicate {A = ℕ} page_size 0) in
        let moved = record state { log_position = all.result.log_position } in
        record {
          state' = note_transaction_ids_completed cache all.result.completed_transactions moved;
          log' = all.result.log;
          returns = ap (finish bytes vault cache state) all.returns;
          is_log =
              grown-IsLogOf ts new state
                (note_transaction_ids_completed cache all.result.completed_transactions moved) log
                (ok tt) _ is_log all (note-log_position all.result.completed_transactions moved);
          written = all.segments;
          are_segments = all.are_segments;
          of_new = all.of_entries;
          behind = all.appended;
          known =
              note-known all.result.completed_transactions state all.result.log_position
              ∙ ap
                  (λ ids.
                    (note_transaction_ids_completed cache ids state).known_completed_transactions)
                  (all.completed ∙ ap (λ n. positions n all.segments) is_log.at_end);
          same_id = note-current all.result.completed_transactions moved;
        }

    -- Pushing entries that the log takes, the first of them with ids ascending from the last one, and
    -- then one whose id is not above those, fails, because it is out of order: the entries before it
    -- are in the log all the same, and nothing of it and of those after it; no id is noted.
    pub push-out_of_order :
        (ts accepted : List (LogEntry ℕ)) (late : LogEntry ℕ) (rest : List (LogEntry ℕ))
        (state : State C) (log : MemoryFile ℕ)
        → IsLogOf ts state log
        → All (IsLoggable bytes vault) accepted
        → IsAscending state.log_position.last_written_transaction accepted
        → late.id ≤ last_id state.log_position.last_written_transaction accepted
        → Stopped ts accepted state (push bytes vault cache (accepted ++ (late ∷ rest)) state log)
    unfolding push
    push-out_of_order ts accepted late rest state log is_log h asc k =
        let all =
          write_transactions-out_of_order bytes vault accepted late rest
            (writer_of bytes vault cache state log) h asc (length-replicate {A = ℕ} page_size 0)
            k in
        let moved = record state { log_position = all.result.log_position } in
        record {
          state' = moved;
          log' = all.result.log;
          returns = ap (finish bytes vault cache state) all.returns;
          is_log =
              grown-IsLogOf ts accepted state moved log (err transaction_pushed_out_of_order) _
                is_log all refl;
          known = refl;
          same_id = refl;
        }

  module _ {C : Type 0} where
    -- The log was opened, and the next id is the one after its last.
    pub record Opened (ts : List (LogEntry ℕ)) (r : Result (State C × MemoryFile ℕ)) : Type 0 where
      pub state' : State C
      pub log' : MemoryFile ℕ
      pub returns : r ≡ ok (state', log')
      pub is_log : IsLogOf ts state' log'
      pub next : state'.current_transaction_id ≡ last_id 0 ts + 1

    -- Opening the file of a log that is not empty, behind which a crash has left less than a page, with a
    -- state that is not initialized: the file is that of the log, and the next id is the one after the
    -- last that was written.
    pub initialize_state-Opened :
        (ts : List (LogEntry ℕ)) (state fresh : State C) (log : MemoryFile ℕ) (torn : List ℕ)
        (position : ℕ)
        → IsLogOf ts state log
        → ts ≢ []
        → length torn < page_size
        → fresh.current_transaction_id ≡ uninitialized_id
        → Opened ts (
            initialize_state bytes vault fresh
              (record { buffer = log.buffer ++ torn; position = position }))
    initialize_state-Opened ts state fresh log torn position is_log some_entry short e =
        let end =
          last_segment 0 is_log.segments
            (λ none. some_entry (sym is_log.of_entries ∙ ap entries none)) in
        let all = bytes_of_all end.earlier ++ bytes_of end.last in
        let kept = subst (All (IsSegment bytes vault)) end.shape is_log.are_segments in
        let is_last : end.last.entry.id ≡ last_id 0 ts =
          end.is_last ∙ ap (last_id 0) is_log.of_entries in
        let same : log.buffer ≡ all =
          is_log.contents
          ∙ (ap bytes_of_all end.shape
              ∙ (concat_map-append bytes_of end.earlier (end.last ∷ [])
                  ∙ ap (λ xs. bytes_of_all end.earlier ++ xs) (append-nil (bytes_of end.last)))) in
        record {
          state' = recovered bytes vault fresh end.last (length all);
          log' = record { buffer = all; position = 0 };
          returns =
              ap
                (λ b.
                  initialize_state bytes vault fresh
                    (record { buffer = b ++ torn; position = position }))
                same
              ∙ initialize_state-recovered bytes vault fresh end.earlier end.last torn position
                  (All-prefix (IsSegment bytes vault) end.earlier _ kept)
                  (All-suffix (IsSegment bytes vault) end.earlier _ kept).0 short e;
          is_log = record {
            segments = is_log.segments;
            are_segments = is_log.are_segments;
            of_entries = is_log.of_entries;
            contents = sym same ∙ is_log.contents;
            at_end = refl;
            last = is_last;
          };
          next = ap (λ i. i + 1) is_last;
        }
