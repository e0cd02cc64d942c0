-- ===== src/Transaction/Manager/Invariant.antt =====
-- The invariant of the thread: a batch is written only in order, so that it never panics, if each id
-- is handed in once.
use nebari.Common.{
  ℕ, ◌-◌, ◌<◌, ◌≤◌, ◌≡◌, ◌≢◌, ◌⊎◌, inl, inr, refl, sym, ap, subst, ◌∙◌, Bool, true, false, not,
  ◌&&◌, ◌||◌, ◌==◌, List, [], ◌∷◌, ◌++◌, All, All-append, All-imp, append-nil, Bool-cases, arith,
}
use nebari.Error.{Result, ok, ◌>>=◌}
use nebari.Tree.Modification.{TransactionId}
use nebari.Encoding.{LogEntry}
use nebari.Transaction.Ids.{IdSequence, complete, note}
use nebari.Transaction.Ids.Seen.{seen, IsValid}
use nebari.Transaction.Ids.Note.{Noted}
use nebari.Transaction.Manager.{
  LogOps, fresh, ManagerThread, sort_by_id, is_empty, commit_transaction_batch, enqueue, commit_if,
}
use nebari.Transaction.Manager.Entries.{Keeps, keep, count_if-append, sort-HaveSame}
use nebari.Transaction.Manager.Batch.{
  HasDistinct, sort-All, sort-IsAscending, last_id-below, sort-last,
}

pub seen-below :
    (q : IdSequence) (id : TransactionId)
    → IsValid q
    → complete q ≡ true
    → seen q id ≡ true
    → id < q.start
seen-below q id h e s = ground (arith, h.covers.none_above (id - q.start))

pub not_seen : (q : IdSequence) (id : TransactionId) → seen q id ≡ false → q.start ≤ id
not_seen q id e = ground arith

pub new_id :
    (t : LogEntry ℕ) (q : IdSequence) → (n : Noted t.id q (note t.id q)) → seen n.result t.id ≡ true
new_id t q n = ground (arith, n.adds t.id)

append-HasDistinct :
    (ts : List (LogEntry ℕ)) (t : LogEntry ℕ)
    → HasDistinct ts
    → All (λ (u : LogEntry ℕ). t.id ≢ u.id) ts
    → HasDistinct (ts ++ (t ∷ []))
append-HasDistinct [] t d h = (tt, tt)
append-HasDistinct (u ∷ us) t d h =
    (All-append (λ x. x.id ≢ u.id) us (t ∷ []) d.0 (h.0, tt), append-HasDistinct us t d.1 h.1)

empty_or :
    (ts : List (LogEntry ℕ))
    → ((ts ≡ []) × (is_empty ts ≡ true)) ⊎ ((ts ≢ []) × (is_empty ts ≡ false))
empty_or [] = inl (refl, refl)
empty_or (t ∷ ts) = inr (λ e. cc, refl)

module _ {W L : Type 0} (ops : LogOps W) where
  -- The entries of a batch are new to the log, can be written, and are noted, each once.
  pub record IsBatch (m : ManagerThread W L) : Type 0 where
    pub good : ops.IsGood m.log
    pub valid : IsValid m.pending_transaction_ids
    pub written_below : ops.last_written m.log < m.pending_transaction_ids.start
    pub after_written : All (λ (t : LogEntry ℕ). ops.last_written m.log < t.id) m.transaction_batch
    pub loggable : All ops.IsLoggable m.transaction_batch
    pub noted :
        All (λ (t : LogEntry ℕ). seen m.pending_transaction_ids t.id ≡ true) m.transaction_batch
    pub distinct : HasDistinct m.transaction_batch

  -- Writing a batch, when no id is missing.
  pub record Written (m : ManagerThread W L) (r : Result (ManagerThread W L)) : Type 0 where
    pub result : ManagerThread W L
    pub returns : r ≡ ok result
    pub is_batch : IsBatch result
    pub no_batch : result.transaction_batch ≡ []
    pub is_fresh : result.state ≡ fresh
    pub no_senders : result.completion_senders ≡ []
    pub answered : result.completed ≡ m.completed ++ m.completion_senders
    pub same_ids : result.pending_transaction_ids ≡ m.pending_transaction_ids
    pub bounded :
        (bound : TransactionId)
        → ops.last_written m.log < bound
        → All (λ (t : LogEntry ℕ). t.id < bound) m.transaction_batch
        → ops.last_written result.log < bound
    pub entries : Keeps ops m.log m.transaction_batch result.log []

  pub commit_transaction_batch-Written :
      (m : ManagerThread W L)
      → IsBatch m
      → m.transaction_batch ≢ []
      → All (λ (t : LogEntry ℕ). t.id < m.pending_transaction_ids.start) m.transaction_batch
      → Written m (commit_transaction_batch ops m)
  unfolding commit_transaction_batch
  commit_transaction_batch-Written m h some_batch below =
      let sorted = sort_by_id m.transaction_batch in
      let (last, e) = sort-last m.transaction_batch some_batch in
      let loggable = sort-All ops.IsLoggable m.transaction_batch h.loggable in
      let ascending =
        sort-IsAscending (ops.last_written m.log) m.transaction_batch h.after_written h.distinct in
      let (log, (written, (good, is_last))) =
        ops.push-ascending sorted m.log h.good loggable ascending in
      record {
        result = record m {
          transaction_batch = [];
          last_processed_id = last.id;
          state = fresh;
          log = log;
          completion_senders = [];
          completed = m.completed ++ m.completion_senders;
        };
        returns = rw (e, written, ◌>>=◌) refl;
        is_batch = record {
          good = good;
          valid = h.valid;
          written_below =
              subst (λ i. i < m.pending_transaction_ids.start) (sym is_last)
                (last_id-below m.pending_transaction_ids.start (ops.last_written m.log) sorted
                  h.written_below
                  (sort-All (λ t. t.id < m.pending_transaction_ids.start) m.transaction_batch
                    below));
          after_written = tt;
          loggable = tt;
          noted = tt;
          distinct = tt;
        };
        no_batch = refl;
        is_fresh = refl;
        no_senders = refl;
        answered = refl;
        same_ids = refl;
        bounded = λ bound low high.
            subst (λ i. i < bound) (sym is_last)
              (last_id-below bound (ops.last_written m.log) sorted low
                (sort-All (λ t. t.id < bound) m.transaction_batch high));
        entries = record {
          written = sorted;
          holds =
              λ held holds. ops.push-Holds held sorted m.log log holds loggable ascending written;
          same = λ test.
              omega (arith, count_if-append test sorted [], sort-HaveSame m.transaction_batch test);
        };
      }

  abbrev pub with_ids : IdSequence → ManagerThread W L → ManagerThread W L
  with_ids ids m = record m { pending_transaction_ids = ids }

  -- Noting an id keeps the batch.
  pub noted-IsBatch :
      (id : TransactionId) (m : ManagerThread W L)
      → IsBatch m
      → (n : Noted id m.pending_transaction_ids (note id m.pending_transaction_ids))
      → IsBatch (with_ids n.result m)
  noted-IsBatch id m h n = record {
    good = h.good;
    valid = n.is_valid;
    written_below = omega (arith, h.written_below, n.onward);
    after_written = h.after_written;
    loggable = h.loggable;
    noted = All-imp m.transaction_batch (λ t s. n.adds t.id ∙ still (t.id == id) s) h.noted;
    distinct = h.distinct;
  }
    where
      still : (b : Bool) {c : Bool} → c ≡ true → (b || c) ≡ true
      still true e = refl
      still false e = e

  -- A new entry, whose id was noted, joins the batch.
  pub enqueue-IsBatch :
      (t : LogEntry ℕ) (sender : ℕ) (locks : L) (m : ManagerThread W L)
      → IsBatch m
      → ops.IsLoggable t
      → ops.last_written m.log < t.id
      → seen m.pending_transaction_ids t.id ≡ true
      → All (λ (u : LogEntry ℕ). t.id ≢ u.id) m.transaction_batch
      → IsBatch (enqueue ops t sender locks m)
  enqueue-IsBatch t sender locks m h log later s d = record {
    good = h.good;
    valid = h.valid;
    written_below = h.written_below;
    after_written =
        All-append (λ t. ops.last_written m.log < t.id) m.transaction_batch (t ∷ []) h.after_written
          (later, tt);
    loggable = All-append ops.IsLoggable m.transaction_batch (t ∷ []) h.loggable (log, tt);
    noted =
        All-append (λ t. seen m.pending_transaction_ids t.id ≡ true) m.transaction_batch (t ∷ [])
          h.noted (s, tt);
    distinct = append-HasDistinct m.transaction_batch t h.distinct d;
  }

  -- Before it is noted, an id is not in the batch.
  pub absent :
      (id : TransactionId) (m : ManagerThread W L)
      → IsBatch m
      → seen m.pending_transaction_ids id ≡ false
      → All (λ (u : LogEntry ℕ). id ≢ u.id) m.transaction_batch
  absent id m h e = All-imp m.transaction_batch (λ u s q. differ u.id q s) h.noted
    where
      differ :
          (other : TransactionId) → id ≡ other → seen m.pending_transaction_ids other ≡ true → ⊥
      differ other q s = cc

  abbrev pub IsIdle : ManagerThread W L → Type 0
  IsIdle m = (m.state ≡ fresh) × ((m.transaction_batch ≡ []) × (m.completion_senders ≡ []))

  -- After the batch is written, if no id is missing.
  pub record Settled (m : ManagerThread W L) (r : Result (ManagerThread W L)) : Type 0 where
    pub result : ManagerThread W L
    pub returns : r ≡ ok result
    pub is_batch : IsBatch result
    pub same_ids : result.pending_transaction_ids ≡ m.pending_transaction_ids
    pub account :
        result.completed ++ result.completion_senders ≡ m.completed ++ m.completion_senders
    pub outcome :
        ((result ≡ m) × (complete m.pending_transaction_ids ≡ true → m.transaction_batch ≡ []))
        ⊎ IsIdle result
    pub entries : Keeps ops m.log m.transaction_batch result.log result.transaction_batch

  pub written-Keeps :
      (m : ManagerThread W L) {r : Result (ManagerThread W L)} (w : Written m r)
      → Keeps ops m.log m.transaction_batch w.result.log w.result.transaction_batch
  written-Keeps m w =
      subst (Keeps ops m.log m.transaction_batch w.result.log) (sym w.no_batch) w.entries

  pub written-account :
      (m : ManagerThread W L) {r : Result (ManagerThread W L)} (w : Written m r)
      → w.result.completed ++ w.result.completion_senders ≡ m.completed ++ m.completion_senders
  written-account m w =
      ap (λ senders. w.result.completed ++ senders) w.no_senders
      ∙ (append-nil w.result.completed ∙ w.answered)

  pub commit_if-Settled :
      (m : ManagerThread W L)
      → IsBatch m
      → Settled m (
          commit_if ops
            (complete m.pending_transaction_ids && not (is_empty m.transaction_batch))
            m)
  commit_if-Settled m h = elim (Bool-cases (complete m.pending_transaction_ids)) [
    | inr missing ↦ record {
      result = m;
      returns = rw missing refl;
      is_batch = h;
      same_ids = refl;
      account = refl;
      outcome = inl (refl, λ e. cc);
      entries = keep ops m.log m.transaction_batch;
    }
    | inl all_in ↦ elim (empty_or m.transaction_batch) [
      | inl (none_left, e) ↦ record {
        result = m;
        returns = rw (all_in, e) refl;
        is_batch = h;
        same_ids = refl;
        account = refl;
        outcome = inl (refl, λ _. none_left);
        entries = keep ops m.log m.transaction_batch;
      }
      | inr (some_left, e) ↦
          let w = commit_transaction_batch-Written m h some_left (
            All-imp m.transaction_batch
              (λ t s. seen-below m.pending_transaction_ids t.id h.valid all_in s) h.noted) in
          record {
            result = w.result;
            returns = rw (all_in, e) w.returns;
            is_batch = w.is_batch;
            same_ids = w.same_ids;
            account = written-account m w;
            outcome = inr (w.is_fresh, (w.no_batch, w.no_senders));
            entries = written-Keeps m w;
          }
    ]
  ]
