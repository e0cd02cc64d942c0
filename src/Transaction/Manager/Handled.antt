-- ===== src/Transaction/Manager/Handled.antt =====
-- The commands after which a batch is written if no id is missing any more.
use nebari.Common.{
  ℕ, ◌≡◌, inl, inr, refl, sym, ap, subst, ◌∙◌, Bool, true, false, not, ◌&&◌, [], ◌++◌, append-nil,
}
use nebari.Error.{Result, ok, ◌>>=◌}
use nebari.Tree.Modification.{TransactionId}
use nebari.Encoding.{LogEntry}
use nebari.Transaction.Ids.{complete, note}
use nebari.Transaction.Ids.Seen.{seen}
use nebari.Transaction.Ids.Note.{Noted, note-Noted}
use nebari.Transaction.Manager.{
  LogOps, ensuring_sequence, commit, drop, received, ManagerThread, is_empty, enqueue, commit_if,
  mark_transaction_handled, process_ensuring_sequence,
}
use nebari.Transaction.Manager.Entries.{no_more}
use nebari.Transaction.Manager.Invariant.{
  IsBatch, not_seen, with_ids, noted-IsBatch, IsIdle, Settled, commit_if-Settled,
}
use nebari.Transaction.Manager.Steps.{one_more, append-some, IsReady, Inv, Stepped, noted, joined}

module _ {W L : Type 0} (ops : LogOps W) where
  pub fresh-Inv : (m : ManagerThread W L) → IsBatch ops m → IsIdle ops m → Inv ops m
  fresh-Inv m h idle = record {
    is_batch = h;
    paired = λ _. idle.1.1;
    ready = rw (idle.0) (idle.1.0);
  }

  -- What may have been written leaves the machine idle, or as it was.
  pub after_batch-Inv :
      (m : ManagerThread W L) {r : Result (ManagerThread W L)}
      → (s : Settled ops m r) → (m.transaction_batch ≡ [] → m.completion_senders ≡ [])
      → ((complete m.pending_transaction_ids ≡ true → m.transaction_batch ≡ [])
          → IsReady ops m.state m)
      → Inv ops s.result
  after_batch-Inv m s paired ready = elim s.outcome [
    | inr idle ↦ fresh-Inv s.result s.is_batch idle
    | inl (same, none_left) ↦ record {
      is_batch = s.is_batch;
      paired =
          subst (λ (x : ManagerThread W L). x.transaction_batch ≡ [] → x.completion_senders ≡ [])
            (sym same) paired;
      ready = subst (λ (x : ManagerThread W L). IsReady ops x.state x) (sym same) (ready none_left);
    }
  ]

  -- An id that is handed in without an entry.
  module _ (id : TransactionId) (m : ManagerThread W L) (h : Inv ops m)
      (unseen : seen m.pending_transaction_ids id ≡ false) where
    pub ids_of : Noted id m.pending_transaction_ids (note id m.pending_transaction_ids)
    ids_of =
        note-Noted id m.pending_transaction_ids h.is_batch.valid
          (not_seen m.pending_transaction_ids id unseen)

    dropped : Settled ops (with_ids ops ids_of.result m) (
        commit_if ops
          (complete ids_of.result && not (is_empty m.transaction_batch))
          (with_ids ops ids_of.result m))
    dropped =
        commit_if-Settled ops (with_ids ops ids_of.result m)
          (noted-IsBatch ops id m h.is_batch ids_of)

    pub handled-drop :
        (answer : Result (Bool × ManagerThread W L))
        → ((mark_transaction_handled ops id m >>= λ m. ok (true, m)) ≡ answer)
        → ((complete ids_of.result ≡ true → m.transaction_batch ≡ [])
            → IsReady ops m.state (with_ids ops ids_of.result m))
        → Stepped ops (received (drop id)) m answer
    unfolding mark_transaction_handled
    handled-drop answer e ready = record {
      result = dropped.result;
      returns = sym e ∙ rw (ids_of.returns, ◌>>=◌, dropped.returns, ◌>>=◌) refl;
      inv = after_batch-Inv (with_ids ops ids_of.result m) dropped h.paired ready;
      ids = λ j. ap (λ q. seen q j) dropped.same_ids ∙ ids_of.adds j;
      account = dropped.account ∙ sym (append-nil (m.completed ++ m.completion_senders));
      entries = no_more ops dropped.entries;
    }

  -- A commit, while an id is missing.
  module _ (t : LogEntry ℕ) (sender : ℕ) (locks : L) (m : ManagerThread W L) (h : Inv ops m)
      (unseen : seen m.pending_transaction_ids t.id ≡ false) (log : ops.IsLoggable t) where
    abbrev waiting : ManagerThread W L
    waiting =
        enqueue ops t sender locks
          (with_ids ops ((noted ops t sender locks m h.is_batch unseen log).result) m)

    pub ensuring-commit :
        m.state ≡ ensuring_sequence
        → Stepped ops
            (received (commit t sender locks))
            m
            (process_ensuring_sequence ops (received (commit t sender locks)) m)
    unfolding process_ensuring_sequence mark_transaction_handled
    ensuring-commit e =
        let n = noted ops t sender locks m h.is_batch unseen log in
        let s = commit_if-Settled ops waiting (joined ops t sender locks m h.is_batch unseen log) in
        record {
          result = s.result;
          returns = rw (n.returns, ◌>>=◌, s.returns, ◌>>=◌) refl;
          inv =
              after_batch-Inv waiting s
                (λ none_left. absurd (append-some m.transaction_batch t none_left))
                (λ ready. rw e ready);
          ids = λ j. ap (λ q. seen q j) s.same_ids ∙ n.adds j;
          account = s.account ∙ one_more m.completed m.completion_senders (sender, locks);
          entries = s.entries;
        }
