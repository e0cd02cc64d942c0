-- ===== src/Transaction/Manager/Safe.antt =====
-- The thread does not panic, and answers every sender once no id is missing.
use nebari.Common.{
  ℕ, ◌<◌, ◌≡◌, refl, sym, ap, subst, ◌∙◌, Bool, true, false, ◌||◌, List, [], ◌∷◌, ◌++◌, append-nil,
  append_assoc, arith,
}
use mathlib.Core.Path.{fun_ext}
use nebari.Error.{Result, ok, ◌>>=◌}
use nebari.Tree.Modification.{TransactionId}
use nebari.Transaction.Ids.{complete}
use nebari.Transaction.Ids.Seen.{seen}
use nebari.Transaction.Ids.Note.{complete_lem, new-IsValid}
use nebari.Transaction.Manager.{
  LogOps, ThreadState, fresh, batching, ensuring_sequence, commit, drop, Received, received, empty,
  disconnected, ManagerThread, run, process_fresh, process_batching, process_ensuring_sequence,
  process_in, process_next_command, save_transactions, save_transactions,
}
use nebari.Encoding.{LogEntry}
use nebari.Transaction.Manager.Entries.{Keeps, keep, no_more, join, keep-trans}
use nebari.Transaction.Manager.Invariant.{commit_transaction_batch-Written}
use nebari.Transaction.Manager.Steps.{
  hands_in, sends, commits, goes_on, IsReady, Inv, IsAdmissible, Stepped, stay, fresh-commit,
}
use nebari.Transaction.Manager.Handled.{handled-drop, ensuring-commit}
use nebari.Transaction.Manager.Batching.{
  batching-drop, batching-commit, batching-empty, batch_below,
}

module _ {W L : Type 0} (ops : LogOps W) where
  in_state :
      (state : ThreadState) (r : Received L) (m : ManagerThread W L)
      → m.state ≡ state
      → IsReady ops state m
      → Inv ops m
      → IsAdmissible ops r m
      → Stepped ops r m (process_in ops state r m)
  unfolding process_fresh process_batching process_ensuring_sequence
  in_state fresh empty m e ready h k = stay ops empty m h (λ _. refl) refl refl
  in_state fresh disconnected m e ready h k = stay ops disconnected m h (λ _. refl) refl refl
  in_state fresh (received (commit t sender locks)) m e ready h k =
      fresh-commit ops t sender locks m h.is_batch k.0 k.1
  in_state fresh (received (drop id)) m e ready h k =
      handled-drop ops id m h k _ refl (λ _. rw e ready)
  in_state batching empty m e ready h k = batching-empty ops m h ready
  in_state batching disconnected m e ready h k = stay ops disconnected m h (λ _. refl) refl refl
  in_state batching (received (commit t sender locks)) m e ready h k =
      batching-commit ops t sender locks m h ready k.0 k.1
  in_state batching (received (drop id)) m e ready h k = batching-drop ops id m h ready k
  in_state ensuring_sequence empty m e ready h k = stay ops empty m h (λ _. refl) refl refl
  in_state ensuring_sequence disconnected m e ready h k =
      stay ops disconnected m h (λ _. refl) refl refl
  in_state ensuring_sequence (received (commit t sender locks)) m e ready h k =
      ensuring-commit ops t sender locks m h k.0 k.1 e
  in_state ensuring_sequence (received (drop id)) m e ready h k =
      handled-drop ops id m h k _ refl (λ none_left. rw e none_left)

  -- A thread in order, that receives an id which it has not seen, with an entry that can be written
  -- to the log if it is a commit, does not panic: it goes on until the channel is closed, stays in
  -- order, has noted the id, has answered or keeps every sender, and has written behind what the log
  -- held or keeps every entry.
  pub process_next_command-Stepped :
      (r : Received L) (m : ManagerThread W L)
      → Inv ops m
      → IsAdmissible ops r m
      → Stepped ops r m (process_next_command ops r m)
  unfolding process_next_command
  process_next_command-Stepped r m h k = in_state m.state r m refl h.ready h k

  pub run-Inv :
      (log : W) (next : TransactionId)
      → ops.IsGood log
      → ops.last_written log < next
      → let m : ManagerThread W L = run ops next log in Inv ops m
  run-Inv log next good below = record {
    is_batch = record {
      good = good;
      valid = new-IsValid next;
      written_below = below;
      after_written = tt;
      loggable = tt;
      noted = tt;
      distinct = tt;
    };
    paired = λ _. refl;
    ready = refl;
  }

  kept :
      (m : ManagerThread W L)
      → m.completion_senders ≡ []
      → m.completed ≡ m.completed ++ m.completion_senders
  kept m e = sym (ap (λ xs. m.completed ++ xs) e ∙ append-nil m.completed)

  waits_for_none :
      (m : ManagerThread W L)
      → m.transaction_batch ≡ []
      → Keeps ops m.log m.transaction_batch m.log []
  waits_for_none m e = subst (λ ts. Keeps ops m.log ts m.log []) (sym e) (keep ops m.log [])

  -- With no id missing, nothing is kept back when the channel is empty.
  no_sender_left :
      (state : ThreadState) (m : ManagerThread W L)
      → IsReady ops state m
      → Inv ops m
      → complete m.pending_transaction_ids ≡ true
      → (m' : ManagerThread W L) × ((process_in ops state empty m ≡ ok (true, m'))
          × ((m'.completed ≡ m.completed ++ m.completion_senders)
              × Keeps ops m.log m.transaction_batch m'.log []))
  unfolding process_fresh process_batching process_ensuring_sequence
  no_sender_left fresh m ready h e = (m, (refl, (kept m (h.paired ready), waits_for_none m ready)))
  no_sender_left ensuring_sequence m ready h e =
      (m, (refl, (kept m (h.paired (ready e)), waits_for_none m (ready e))))
  no_sender_left batching m ready h e =
      let w =
        commit_transaction_batch-Written ops m h.is_batch ready.0
          (batch_below ops m.pending_transaction_ids.start m h.is_batch ready.1 (omega arith)) in
      (w.result, (rw (w.returns, ◌>>=◌) refl, (w.answered, w.entries)))

  -- Each id is handed in once, and was not before; the entries can be written; the channel is open.
  abbrev pub IsNew : Received L → (TransactionId → Bool) → Type 0
  IsNew (received (commit t sender locks)) before = (before t.id ≡ false) × ops.IsLoggable t
  IsNew (received (drop id)) before = before id ≡ false
  IsNew empty before = Unit
  IsNew disconnected before = ⊥

  abbrev pub AreNew : List (Received L) → (TransactionId → Bool) → Type 0
  AreNew [] before = Unit
  AreNew (r ∷ rs) before = IsNew r before × AreNew rs (λ id. hands_in r id || before id)

  abbrev pub seen_after : List (Received L) → (TransactionId → Bool) → TransactionId → Bool
  seen_after [] before id = before id
  seen_after (r ∷ rs) before id = seen_after rs (λ id. hands_in r id || before id) id

  abbrev pub all_sent : List (Received L) → List (ℕ × L)
  all_sent [] = []
  all_sent (r ∷ rs) = sends r ++ all_sent rs

  abbrev pub all_commits : List (Received L) → List (LogEntry ℕ)
  all_commits [] = []
  all_commits (r ∷ rs) = commits r ++ all_commits rs

  pub record AllStepped (rs : List (Received L)) (m : ManagerThread W L)
      (answer : Result (ManagerThread W L)) : Type 0 where
    pub result : ManagerThread W L
    pub returns : answer ≡ ok result
    pub inv : Inv ops result
    pub ids :
        (id : TransactionId)
        → seen result.pending_transaction_ids id ≡ seen_after rs (seen m.pending_transaction_ids) id
    pub account :
        result.completed ++ result.completion_senders
        ≡ (m.completed ++ m.completion_senders) ++ all_sent rs
    pub entries :
        Keeps ops m.log (m.transaction_batch ++ all_commits rs) result.log result.transaction_batch

  admissible :
      (r : Received L) (m : ManagerThread W L) (before : TransactionId → Bool)
      → ((id : TransactionId) → seen m.pending_transaction_ids id ≡ before id)
      → IsNew r before
      → IsAdmissible ops r m
  admissible (received (commit t sender locks)) m before same k = (same t.id ∙ k.0, k.1)
  admissible (received (drop id)) m before same k = same id ∙ k
  admissible empty m before same k = tt
  admissible disconnected m before same k = absurd k

  still_open : (r : Received L) (before : TransactionId → Bool) → IsNew r before → goes_on r ≡ true
  still_open (received c) before k = refl
  still_open empty before k = refl
  still_open disconnected before k = absurd k

  save_transactions-AllStepped :
      (rs : List (Received L)) (m : ManagerThread W L)
      → Inv ops m
      → AreNew rs (seen m.pending_transaction_ids)
      → AllStepped rs m (save_transactions ops rs m)
  unfolding save_transactions
  save_transactions-AllStepped [] m h k = record {
    result = m;
    returns = refl;
    inv = h;
    ids = λ id. refl;
    account = sym (append-nil (m.completed ++ m.completion_senders));
    entries = no_more ops (keep ops m.log m.transaction_batch);
  }
  save_transactions-AllStepped (r ∷ rs) m h k =
      let one =
        process_next_command-Stepped r m h
          (admissible r m (seen m.pending_transaction_ids) (λ id. refl) k.0) in
      let same = fun_ext one.ids in
      let rest =
        save_transactions-AllStepped rs one.result one.inv (subst (AreNew rs) (sym same) k.1) in
      record {
        result = rest.result;
        returns =
            rw (one.returns, ◌>>=◌, still_open r (seen m.pending_transaction_ids) k.0) rest.returns;
        inv = rest.inv;
        ids = λ id. rest.ids id ∙ ap (λ before. seen_after rs before id) same;
        account =
            rest.account
            ∙ (ap (λ xs. xs ++ all_sent rs) one.account
                ∙ append_assoc (m.completed ++ m.completion_senders) (sends r) (all_sent rs));
        entries =
            subst (λ ts. Keeps ops m.log ts rest.result.log rest.result.transaction_batch)
              (append_assoc m.transaction_batch (commits r) (all_commits rs))
              (keep-trans ops (join ops (all_commits rs) one.entries) rest.entries);
      }

  -- The thread is in order, each id is handed in once, every entry can be written to the log, and at
  -- the end no id is missing below one that was handed in. Then, as soon as the channel is empty, every
  -- sender is answered, in the order of the commands, and behind what the log held it holds every
  -- entry that waited or was handed in, as often as these.
  pub save_transactions-answers :
      (rs : List (Received L)) (m : ManagerThread W L)
      → Inv ops m
      → AreNew rs (seen m.pending_transaction_ids)
      → ((id other : TransactionId)
          → id < other
          → seen_after rs (seen m.pending_transaction_ids) other ≡ true
          → seen_after rs (seen m.pending_transaction_ids) id ≡ true)
      → (m' : ManagerThread W L) × (((save_transactions ops rs m >>= process_next_command ops empty)
            ≡ ok (true, m'))
          × ((m'.completed ≡ (m.completed ++ m.completion_senders) ++ all_sent rs)
              × Keeps ops m.log (m.transaction_batch ++ all_commits rs) m'.log []))
  unfolding process_next_command
  save_transactions-answers rs m h k no_gap =
      let all = save_transactions-AllStepped rs m h k in
      let full =
        (complete_lem all.result.pending_transaction_ids all.inv.is_batch.valid).1
          (λ id other lt s. all.ids id ∙ no_gap id other lt (sym (all.ids other) ∙ s)) in
      let (m', (e, (answered, written))) =
        no_sender_left all.result.state all.result all.inv.ready all.inv full in
      (
        m',
        (rw (all.returns, ◌>>=◌) e, (answered ∙ all.account, keep-trans ops all.entries written)),
      )
