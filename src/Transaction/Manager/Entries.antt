-- ===== src/Transaction/Manager/Entries.antt =====
-- Which entries the log and the batch of the thread hold, whatever their order.
use nebari.Common.{
  ℕ, ◌+◌, ◌≡◌, refl, sym, subst, Bool, List, [], ◌∷◌, ◌++◌, append-nil, append_assoc, ltb,
  if◌then◌else◌, true, false, arith,
}
use nebari.Encoding.{LogEntry}
use nebari.Transaction.Manager.{LogOps, insert_by_id, sort_by_id}

abbrev pub count_if : (LogEntry ℕ → Bool) → List (LogEntry ℕ) → ℕ
count_if test [] = 0
count_if test (t ∷ ts) = (if test t then 1 else 0) + count_if test ts

-- Every test counts as many entries of one as of the other: they hold the same, as often.
abbrev pub HaveSame : List (LogEntry ℕ) → List (LogEntry ℕ) → Type 0
HaveSame xs ys = (test : LogEntry ℕ → Bool) → count_if test xs ≡ count_if test ys

module _ (test : LogEntry ℕ → Bool) where
  pub count_if-append :
      (xs ys : List (LogEntry ℕ)) → count_if test (xs ++ ys) ≡ count_if test xs + count_if test ys
  count_if-append [] ys = omega arith
  count_if-append (x ∷ xs) ys = omega (arith, count_if-append xs ys)

  count_if-insert :
      (t : LogEntry ℕ) (ts : List (LogEntry ℕ))
      → count_if test (insert_by_id t ts) ≡ count_if test (t ∷ ts)
  count_if-insert t [] = refl
  count_if-insert t (u ∷ us) =
      elim (ltb t.id u.id)
        as (λ b.
          count_if test (if b then t ∷ u ∷ us else u ∷ insert_by_id t us)
          ≡ count_if test (t ∷ u ∷ us)) [
            | true ↦ refl
            | false ↦ omega (arith, count_if-insert t us)
          ]

pub sort-HaveSame : (ts : List (LogEntry ℕ)) → HaveSame (sort_by_id ts) ts
sort-HaveSame [] test = refl
sort-HaveSame (t ∷ ts) test =
    omega (arith, count_if-insert test t (sort_by_id ts), sort-HaveSame ts test)

module _ {W : Type 0} (ops : LogOps W) where
  -- From a log and the entries to be written to a log and those still waiting: what was written is
  -- behind what the log held, and every entry is written or waits, as often as before.
  pub record Keeps (log : W) (before : List (LogEntry ℕ)) (log' : W) (waiting : List (LogEntry ℕ))
      : Type 0 where
    pub written : List (LogEntry ℕ)
    pub holds : (held : List (LogEntry ℕ)) → ops.Holds held log → ops.Holds (held ++ written) log'
    pub same : HaveSame (written ++ waiting) before

  pub keep : (log : W) (batch : List (LogEntry ℕ)) → Keeps log batch log batch
  keep log batch = record {
    written = [];
    holds = λ held h. subst (λ ts. ops.Holds ts log) (sym (append-nil held)) h;
    same = λ test. refl;
  }

  pub no_more :
      {log log' : W} {before waiting : List (LogEntry ℕ)}
      → Keeps log before log' waiting
      → Keeps log (before ++ []) log' waiting
  no_more {log = log} {log' = log'} {before = before} {waiting = waiting} k =
      subst (λ ts. Keeps log ts log' waiting) (sym (append-nil before)) k

  -- The waiting entries that new ones join.
  pub join :
      {log log' : W} {before waiting : List (LogEntry ℕ)} (new : List (LogEntry ℕ))
      → Keeps log before log' waiting
      → Keeps log (before ++ new) log' (waiting ++ new)
  join {before = before} {waiting = waiting} new k = record {
    written = k.written;
    holds = k.holds;
    same = λ test. omega (
      arith,
      k.same test,
      count_if-append test before new,
      count_if-append test waiting new,
      count_if-append test k.written waiting,
      count_if-append test k.written (waiting ++ new),
    );
  }

  pub keep-trans :
      {log log' log'' : W} {before waiting last : List (LogEntry ℕ)}
      → Keeps log before log' waiting
      → Keeps log' waiting log'' last
      → Keeps log before log'' last
  keep-trans {log'' = log''} {waiting = waiting} {last = last} k l = record {
    written = k.written ++ l.written;
    holds = λ held h.
        subst (λ ts. ops.Holds ts log'') (append_assoc held k.written l.written)
          (l.holds (held ++ k.written) (k.holds held h));
    same = λ test. omega (
      arith,
      k.same test,
      l.same test,
      count_if-append test k.written waiting,
      count_if-append test l.written last,
      count_if-append test k.written l.written,
      count_if-append test (k.written ++ l.written) last,
    );
  }
