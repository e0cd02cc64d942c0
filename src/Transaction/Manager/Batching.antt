-- ===== src/Transaction/Manager/Batching.antt =====
-- The commands while the batch can be written at once.
use nebari.Common.{
  ℕ, ◌<◌, ◌≤◌, ◌≡◌, ◌≢◌, inl, inr, refl, sym, ap, subst, ◌∙◌, true, false, List, [], ◌∷◌, ◌++◌, All,
  append-nil, Bool-cases, arith, All-imp,
}
use nebari.Error.{ok, ◌>>=◌}
use nebari.Tree.Modification.{TransactionId}
use nebari.Encoding.{LogEntry}
use nebari.Transaction.Ids.{IdSequence, complete, note}
use nebari.Transaction.Ids.Seen.{seen}
use nebari.Transaction.Ids.Note.{Noted}
use nebari.Transaction.Manager.{
  LogOps, batching, ensuring_sequence, commit, drop, received, empty, ManagerThread, is_empty,
  commit_transaction_batch, enqueue, note_potentially_sequential_id, process_batching,
}
use nebari.Transaction.Manager.Entries.{keep, no_more, join}
use nebari.Transaction.Manager.Invariant.{
  IsBatch, Written, commit_transaction_batch-Written, seen-below, not_seen, new_id, with_ids,
  noted-IsBatch, enqueue-IsBatch, written-account, written-Keeps,
}
use nebari.Transaction.Manager.Steps.{
  one_more, append-some, IsReady, Inv, Stepped, restate, noted, joined,
}
use nebari.Transaction.Manager.Handled.{fresh-Inv, ids_of}

not_empty : (ts : List (LogEntry ℕ)) → ts ≢ [] → is_empty ts ≡ false
not_empty [] h = absurd (h refl)
not_empty (t ∷ ts) h = refl

module _ {W L : Type 0} (ops : LogOps W) where
  -- In a batch that is complete, all ids are below the next one.
  pub batch_below :
      (bound : TransactionId) (m : ManagerThread W L)
      → IsBatch ops m
      → complete m.pending_transaction_ids ≡ true
      → m.pending_transaction_ids.start ≤ bound
      → All (λ (t : LogEntry ℕ). t.id < bound) m.transaction_batch
  batch_below bound m h e k =
      All-imp m.transaction_batch
        (λ t s. below t.id (seen-below m.pending_transaction_ids t.id h.valid e s)) h.noted
    where
      below : (id : TransactionId) → id < m.pending_transaction_ids.start → id < bound
      below id h = omega arith

  -- While the batch can be written, an id is handed in: the batch goes on, or is written.
  module _ (id : TransactionId) (m : ManagerThread W L) (h : IsBatch ops m)
      (some_batch : m.transaction_batch ≢ []) (all_in : complete m.pending_transaction_ids ≡ true)
      (n : Noted id m.pending_transaction_ids (note id m.pending_transaction_ids)) where
    rest_written :
        Written ops
          (with_ids ops n.result m)
          (commit_transaction_batch ops (with_ids ops n.result m))
    rest_written =
        commit_transaction_batch-Written ops (with_ids ops n.result m) (noted-IsBatch ops id m h n)
          some_batch (batch_below n.result.start m h all_in n.onward)

    note-complete :
        complete n.result ≡ true
        → note_potentially_sequential_id ops id m
          ≡ ok (record (with_ids ops n.result m) { last_processed_id = id; state = batching })
    unfolding note_potentially_sequential_id
    note-complete e = rw (n.returns, ◌>>=◌, e) refl

    note-missing :
        complete n.result ≡ false
        → note_potentially_sequential_id ops id m
          ≡ ok (record rest_written.result { state = ensuring_sequence })
    unfolding note_potentially_sequential_id
    note-missing e =
        rw
          (
            n.returns,
            ◌>>=◌,
            e,
            not_empty m.transaction_batch some_batch,
            rest_written.returns,
            ◌>>=◌,
          )
          refl

  pub batching-drop :
      (id : TransactionId) (m : ManagerThread W L)
      → Inv ops m
      → IsReady ops batching m
      → seen m.pending_transaction_ids id ≡ false
      → Stepped ops (received (drop id)) m (process_batching ops (received (drop id)) m)
  unfolding process_batching
  batching-drop id m h ready unseen =
      let n = ids_of ops id m h unseen in
      let w = rest_written id m h.is_batch ready.0 ready.1 n in
      elim (Bool-cases (complete n.result)) [
        | inl all_in ↦ record {
          result = record (with_ids ops n.result m) { last_processed_id = id; state = batching };
          returns = rw (note-complete id m h.is_batch ready.0 ready.1 n all_in, ◌>>=◌) refl;
          inv = record {
            is_batch =
                restate ops batching id (with_ids ops n.result m)
                  (noted-IsBatch ops id m h.is_batch n);
            paired = h.paired;
            ready = (ready.0, all_in);
          };
          ids = n.adds;
          account = sym (append-nil (m.completed ++ m.completion_senders));
          entries = no_more ops (keep ops m.log m.transaction_batch);
        }
        | inr missing ↦ record {
          result = record w.result { state = ensuring_sequence };
          returns = rw (note-missing id m h.is_batch ready.0 ready.1 n missing, ◌>>=◌) refl;
          inv = record {
            is_batch = restate ops ensuring_sequence w.result.last_processed_id w.result w.is_batch;
            paired = λ _. w.no_senders;
            ready = λ _. w.no_batch;
          };
          ids = λ j. ap (λ q. seen q j) w.same_ids ∙ n.adds j;
          account =
              written-account ops (with_ids ops n.result m) w
              ∙ sym (append-nil (m.completed ++ m.completion_senders));
          entries = no_more ops (written-Keeps ops (with_ids ops n.result m) w);
        }
      ]

  pub batching-commit :
      (t : LogEntry ℕ) (sender : ℕ) (locks : L) (m : ManagerThread W L)
      → Inv ops m
      → IsReady ops batching m
      → seen m.pending_transaction_ids t.id ≡ false
      → ops.IsLoggable t
      → Stepped ops
          (received (commit t sender locks))
          m
          (process_batching ops (received (commit t sender locks)) m)
  unfolding process_batching
  batching-commit t sender locks m h ready unseen log =
      let n = noted ops t sender locks m h.is_batch unseen log in
      let w = rest_written t.id m h.is_batch ready.0 ready.1 n in
      elim (Bool-cases (complete n.result)) [
        | inl all_in ↦ record {
          result =
              enqueue ops t sender locks
                (record (with_ids ops n.result m) { last_processed_id = t.id; state = batching });
          returns = rw (note-complete t.id m h.is_batch ready.0 ready.1 n all_in, ◌>>=◌) refl;
          inv = record {
            is_batch =
                restate ops batching t.id _ (joined ops t sender locks m h.is_batch unseen log);
            paired = λ none_left. absurd (append-some m.transaction_batch t none_left);
            ready = (append-some m.transaction_batch t, all_in);
          };
          ids = n.adds;
          account = one_more m.completed m.completion_senders (sender, locks);
          entries = keep ops m.log (m.transaction_batch ++ (t ∷ []));
        }
        | inr missing ↦ record {
          result = enqueue ops t sender locks (record w.result { state = ensuring_sequence });
          returns = rw (note-missing t.id m h.is_batch ready.0 ready.1 n missing, ◌>>=◌) refl;
          inv = record {
            is_batch = restate ops ensuring_sequence w.result.last_processed_id _ (
                enqueue-IsBatch ops t sender locks w.result w.is_batch log
                  (w.bounded t.id
                    (omega (
                      arith,
                      h.is_batch.written_below,
                      not_seen m.pending_transaction_ids t.id unseen,
                    ))
                    (batch_below t.id m h.is_batch ready.1
                      (not_seen m.pending_transaction_ids t.id unseen)))
                  (ap (λ q. seen q t.id) w.same_ids ∙ new_id t m.pending_transaction_ids n)
                  (subst (All (λ (u : LogEntry ℕ). t.id ≢ u.id)) (sym w.no_batch) tt));
            paired = λ none_left. absurd (append-some w.result.transaction_batch t none_left);
            ready = λ e.
                absurd (incomplete w.result.pending_transaction_ids n.result w.same_ids missing e);
          };
          ids = λ j. ap (λ q. seen q j) w.same_ids ∙ n.adds j;
          account =
              one_more w.result.completed w.result.completion_senders (sender, locks)
              ∙ ap (λ xs. xs ++ ((sender, locks) ∷ []))
                  (written-account ops (with_ids ops n.result m) w);
          entries = join ops (t ∷ []) (written-Keeps ops (with_ids ops n.result m) w);
        }
      ]
    where
      incomplete : (p q : IdSequence) → p ≡ q → complete q ≡ false → complete p ≡ true → ⊥
      incomplete p q same gap full = cc

  pub batching-empty :
      (m : ManagerThread W L)
      → Inv ops m
      → IsReady ops batching m
      → Stepped ops empty m (process_batching ops empty m)
  unfolding process_batching
  batching-empty m h ready =
      let w =
        commit_transaction_batch-Written ops m h.is_batch ready.0
          (batch_below m.pending_transaction_ids.start m h.is_batch ready.1 (omega arith)) in
      record {
        result = w.result;
        returns = rw (w.returns, ◌>>=◌) refl;
        inv = fresh-Inv ops w.result w.is_batch (w.is_fresh, (w.no_batch, w.no_senders));
        ids = λ j. ap (λ q. seen q j) w.same_ids;
        account = written-account ops m w ∙ sym (append-nil (m.completed ++ m.completion_senders));
        entries = no_more ops (written-Keeps ops m w);
      }
