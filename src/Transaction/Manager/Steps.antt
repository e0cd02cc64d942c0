-- ===== src/Transaction/Manager/Steps.antt =====
-- Every step of the thread keeps the invariant, answers or keeps every sender, and does not panic.
use nebari.Common.{
  ℕ, ◌≡◌, ◌≢◌, refl, sym, ap, subst, ◌∙◌, Bool, true, false, ◌||◌, ◌==◌, List, [], ◌∷◌, ◌++◌,
  if◌then◌else◌, append-nil, append_assoc, arith,
}
use nebari.Error.{Result, ok, ◌>>=◌}
use nebari.Tree.Modification.{TransactionId}
use nebari.Encoding.{LogEntry}
use nebari.Transaction.Ids.{complete, note}
use nebari.Transaction.Ids.Seen.{seen}
use nebari.Transaction.Ids.Note.{Noted, note-Noted}
use nebari.Transaction.Manager.{
  LogOps, ThreadState, fresh, batching, ensuring_sequence, commit, drop, Received, received, empty,
  disconnected, ManagerThread, enqueue, start_batch, process_fresh,
}
use nebari.Transaction.Manager.Entries.{Keeps, keep, no_more}
use nebari.Transaction.Manager.Invariant.{
  IsBatch, not_seen, new_id, with_ids, noted-IsBatch, enqueue-IsBatch, absent,
}

-- Whose id a command hands in, what it sends, and whether the thread goes on.
abbrev pub hands_in : {L : Type 0} → Received L → TransactionId → Bool
hands_in (received (commit t sender locks)) id = id == t.id
hands_in (received (drop dropped)) id = id == dropped
hands_in _ id = false

abbrev pub sends : {L : Type 0} → Received L → List (ℕ × L)
sends (received (commit t sender locks)) = (sender, locks) ∷ []
sends _ = []

-- The entries that a command hands in.
abbrev pub commits : {L : Type 0} → Received L → List (LogEntry ℕ)
commits (received (commit t sender locks)) = t ∷ []
commits _ = []

abbrev pub goes_on : {L : Type 0} → Received L → Bool
goes_on disconnected = false
goes_on _ = true

pub one_more :
    {L : Type 0} (xs ys : List (ℕ × L)) (x : ℕ × L)
    → xs ++ (ys ++ (x ∷ [])) ≡ (xs ++ ys) ++ (x ∷ [])
one_more xs ys x = sym (append_assoc xs ys (x ∷ []))

pub append-some : (ts : List (LogEntry ℕ)) (t : LogEntry ℕ) → ts ++ (t ∷ []) ≢ []
append-some [] t e = cc
append-some (u ∷ us) t e = cc

module _ {W L : Type 0} (ops : LogOps W) where
  -- Between commands the batch is empty, or waits for an id, or can be written at once.
  abbrev pub IsReady : ThreadState → ManagerThread W L → Type 0
  IsReady fresh m = m.transaction_batch ≡ []
  IsReady batching m = (m.transaction_batch ≢ []) × (complete m.pending_transaction_ids ≡ true)
  IsReady ensuring_sequence m = complete m.pending_transaction_ids ≡ true → m.transaction_batch ≡ []

  pub record Inv (m : ManagerThread W L) : Type 0 where
    pub is_batch : IsBatch ops m
    pub paired : m.transaction_batch ≡ [] → m.completion_senders ≡ []
    pub ready : IsReady m.state m

  -- Ids are handed in once, and entries can be written.
  abbrev pub IsAdmissible : Received L → ManagerThread W L → Type 0
  IsAdmissible (received (commit t sender locks)) m =
      (seen m.pending_transaction_ids t.id ≡ false) × ops.IsLoggable t
  IsAdmissible (received (drop id)) m = seen m.pending_transaction_ids id ≡ false
  IsAdmissible empty m = Unit
  IsAdmissible disconnected m = Unit

  pub record Stepped (r : Received L) (m : ManagerThread W L)
      (answer : Result (Bool × ManagerThread W L)) : Type 0 where
    pub result : ManagerThread W L
    pub returns : answer ≡ ok (goes_on r, result)
    pub inv : Inv result
    pub ids :
        (id : TransactionId)
        → seen result.pending_transaction_ids id
          ≡ (hands_in r id || seen m.pending_transaction_ids id)
    pub account :
        result.completed ++ result.completion_senders
        ≡ (m.completed ++ m.completion_senders) ++ sends r
    pub entries :
        Keeps ops m.log (m.transaction_batch ++ commits r) result.log result.transaction_batch

  pub stay :
      (r : Received L) (m : ManagerThread W L)
      → Inv m
      → ((id : TransactionId) → hands_in r id ≡ false)
      → sends r ≡ []
      → commits r ≡ []
      → Stepped r m (ok (goes_on r, m))
  stay r m h none_in none_sent no_commit = record {
    result = m;
    returns = refl;
    inv = h;
    ids = λ id. sym (ap (λ b. b || seen m.pending_transaction_ids id) (none_in id));
    account =
        sym (append-nil (m.completed ++ m.completion_senders))
        ∙ ap (λ xs. (m.completed ++ m.completion_senders) ++ xs) (sym none_sent);
    entries =
        subst (λ ts. Keeps ops m.log (m.transaction_batch ++ ts) m.log m.transaction_batch)
          (sym no_commit) (no_more ops (keep ops m.log m.transaction_batch));
  }

  -- The state and the last id are not what a batch is about.
  pub restate :
      (state : ThreadState) (last : TransactionId) (m : ManagerThread W L)
      → IsBatch ops m
      → IsBatch ops (record m { state = state; last_processed_id = last })
  restate state last m h = record {
    good = h.good;
    valid = h.valid;
    written_below = h.written_below;
    after_written = h.after_written;
    loggable = h.loggable;
    noted = h.noted;
    distinct = h.distinct;
  }

  -- An entry joins a batch after its id was noted.
  module _ (t : LogEntry ℕ) (sender : ℕ) (locks : L) (m : ManagerThread W L) (h : IsBatch ops m)
      (unseen : seen m.pending_transaction_ids t.id ≡ false) (log : ops.IsLoggable t) where
    pub noted : Noted t.id m.pending_transaction_ids (note t.id m.pending_transaction_ids)
    noted =
        note-Noted t.id m.pending_transaction_ids h.valid
          (not_seen m.pending_transaction_ids t.id unseen)

    pub joined : IsBatch ops (enqueue ops t sender locks (with_ids ops noted.result m))
    joined =
        enqueue-IsBatch ops t sender locks (with_ids ops noted.result m)
          (noted-IsBatch ops t.id m h noted) log
          (omega (arith, h.written_below, not_seen m.pending_transaction_ids t.id unseen))
          (new_id t m.pending_transaction_ids noted) (absent ops t.id m h unseen)

    -- A batch that starts or goes on with the entry.
    abbrev pub started : ManagerThread W L
    started = enqueue ops t sender locks (start_batch ops t.id (with_ids ops noted.result m))

    pub started-Inv : Inv started
    started-Inv =
        elim (complete noted.result)
            as (λ b.
              complete noted.result ≡ b
              → Inv (
                  enqueue ops t sender locks (
                    if b
                    then record (with_ids ops noted.result m) {
                      last_processed_id = t.id;
                      state = batching;
                    }
                    else record (with_ids ops noted.result m) { state = ensuring_sequence }))) [
                      | true ↦ λ e. record {
                        is_batch = restate batching t.id _ joined;
                        paired = λ none_left. absurd (append-some m.transaction_batch t none_left);
                        ready = (append-some m.transaction_batch t, e);
                      }
                      | false ↦ λ e. record {
                        is_batch = restate ensuring_sequence m.last_processed_id _ joined;
                        paired = λ none_left. absurd (append-some m.transaction_batch t none_left);
                        ready = λ f. cc;
                      }
                    ]
          refl

    pub start_batch-same :
        (started.completed ≡ m.completed)
        × ((started.completion_senders ≡ m.completion_senders ++ ((sender, locks) ∷ []))
            × ((started.pending_transaction_ids ≡ noted.result)
                × Keeps ops m.log
                    (m.transaction_batch ++ (t ∷ []))
                    started.log
                    started.transaction_batch))
    start_batch-same =
        elim (complete noted.result)
          as (λ b.
            let s = enqueue ops t sender locks (
              if b
              then record (with_ids ops noted.result m) {
                last_processed_id = t.id;
                state = batching;
              }
              else record (with_ids ops noted.result m) { state = ensuring_sequence }) in
            (s.completed ≡ m.completed)
            × ((s.completion_senders ≡ m.completion_senders ++ ((sender, locks) ∷ []))
                × ((s.pending_transaction_ids ≡ noted.result)
                    × Keeps ops m.log (m.transaction_batch ++ (t ∷ [])) s.log
                        s.transaction_batch))) [
                          | true ↦ (
                            refl,
                            (refl, (refl, keep ops m.log (m.transaction_batch ++ (t ∷ [])))),
                          )
                          | false ↦ (
                            refl,
                            (refl, (refl, keep ops m.log (m.transaction_batch ++ (t ∷ [])))),
                          )
                        ]

    pub fresh-commit :
        Stepped
          (received (commit t sender locks))
          m
          (process_fresh ops (received (commit t sender locks)) m)
    unfolding process_fresh
    fresh-commit = record {
      result = started;
      returns = rw (noted.returns, ◌>>=◌) refl;
      inv = started-Inv;
      ids = λ id. ap (λ q. seen q id) start_batch-same.1.1.0 ∙ noted.adds id;
      account =
          rw (start_batch-same.0, start_batch-same.1.0)
            (one_more m.completed m.completion_senders (sender, locks));
      entries = start_batch-same.1.1.1;
    }
