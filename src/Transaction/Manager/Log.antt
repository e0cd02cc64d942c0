-- ===== src/Transaction/Manager/Log.antt =====
-- nebari/src/transaction/manager.rs: the thread over the transaction log, and what
-- `TransactionManager` asks the log.
use nebari.Common.{
  ℕ, sym, subst, ap, ◌∙◌, Bool, true, false, Option, none, some, List, ltb, if◌then◌else◌, ◌++◌,
}
use nebari.Error.{Result, ok, ok-injective, ◌>>=◌}
use nebari.Tree.Modification.{TransactionId}
use nebari.Encoding.{ByteOrder, LogEntry}
use nebari.Io.Memory.{MemoryFile}
use nebari.Transaction.State.{Cache, State, transaction_id_position, note_transaction_id_status}
use nebari.Transaction.Log.{Vault, ScanResult, found, not_found, or_error, push}
use nebari.Transaction.Log.Segments.{IsLoggable}
use nebari.Transaction.Log.Files.{last_id}
use nebari.Transaction.Log.Reopen.{IsLogOf, push-Pushed, last_id-append}
use nebari.Transaction.Search.{Estimate, fetch_entry}
use nebari.Transaction.Manager.{LogOps}

module _ (bytes : ByteOrder ℕ) (vault : Option Vault) {C : Type 0} (cache : Cache C) where
  -- The transaction log is a log that the thread can rely on.
  abbrev pub transaction_log : LogOps (State C × MemoryFile ℕ)
  transaction_log = record {
    push = λ ts w. or_error (push bytes vault cache ts (w.0) (w.1));
    last_written = λ w. w.0.log_position.last_written_transaction;
    IsGood = λ w. (ts : List (LogEntry ℕ)) × IsLogOf bytes vault ts (w.0) (w.1);
    Holds = λ ts w. IsLogOf bytes vault ts (w.0) (w.1);
    IsLoggable = IsLoggable bytes vault;
    push-ascending = λ ts w good h asc.
        let p = push-Pushed bytes vault cache good.0 ts (w.0) (w.1) good.1 h asc in
        (
          (p.state', p.log'),
          (
            ap or_error p.returns,
            (
              (good.0 ++ ts, p.is_log),
              p.is_log.last
                  ∙ (last_id-append bytes vault cache 0 good.0 ts
                      ∙ ap (λ i. last_id i ts) (sym good.1.last)),
            ),
          ),
        );
    push-Holds = λ held ts w w' holds h asc e.
        let p = push-Pushed bytes vault cache held ts (w.0) (w.1) holds h asc in
        subst (λ v. IsLogOf bytes vault (held ++ ts) (v.0) (v.1))
          (ok-injective (sym (ap or_error p.returns) ∙ e)) p.is_log;
  }

  module _ (estimate : Estimate) where
    abbrev position_of : ScanResult → Option ℕ
    position_of (found entry position length) = some position
    position_of (not_found nearest) = none

    abbrev remember : TransactionId → ScanResult × State C → Result (Option ℕ × State C)
    remember id (result, state) =
        ok (position_of result, note_transaction_id_status cache id (position_of result) state)

    abbrev look_up :
        TransactionId → MemoryFile ℕ → Option (Option ℕ) × State C → Result (Option ℕ × State C)
    look_up id log (some position, state) = ok (position, state)
    look_up id log (none, state) =
        fetch_entry estimate bytes vault cache id log state >>= remember id

    unfoldable pub transaction_position :
        TransactionId → MemoryFile ℕ → State C → Result (Option ℕ × State C)
    transaction_position id log state =
        if ltb 0 id
        then look_up id log (transaction_id_position cache id state)
        else ok (none, state)

    abbrev is_some : Option ℕ → Bool
    is_some none = false
    is_some (some position) = true

    unfoldable pub transaction_was_successful :
        TransactionId → MemoryFile ℕ → State C → Result (Bool × State C)
    transaction_was_successful id log state = do
      (position, state) ← transaction_position id log state
      ok (is_some position, state)
