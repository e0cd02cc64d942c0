-- ===== src/Transaction/Manager/Batch.antt =====
-- A batch, sorted by its ids, is what the log takes, if no id is there twice.
use nebari.Common.{
  ℕ, ◌<◌, ◌≡◌, ◌≢◌, refl, true, false, some, List, [], ◌∷◌, get_last?, ltb, if◌then◌else◌, All,
  ltb→lt, arith,
}
use nebari.Tree.Modification.{TransactionId}
use nebari.Encoding.{LogEntry}
use nebari.Transaction.Log.Files.{IsAscending, last_id}
use nebari.Transaction.Manager.{insert_by_id, sort_by_id}

-- No id is in the list twice.
abbrev pub HasDistinct : List (LogEntry ℕ) → Type 0
HasDistinct [] = Unit
HasDistinct (t ∷ ts) = All (λ (u : LogEntry ℕ). u.id ≢ t.id) ts × HasDistinct ts

module _ (P : LogEntry ℕ → Type 0) where
  insert-All :
      (t : LogEntry ℕ) (ts : List (LogEntry ℕ)) → P t → All P ts → All P (insert_by_id t ts)
  insert-All t [] p h = (p, tt)
  insert-All t (u ∷ us) p h =
      elim (ltb t.id u.id) as (λ b. All P (if b then t ∷ u ∷ us else u ∷ insert_by_id t us)) [
        | true ↦ (p, h)
        | false ↦ (h.0, insert-All t us p h.1)
      ]

  pub sort-All : (ts : List (LogEntry ℕ)) → All P ts → All P (sort_by_id ts)
  sort-All [] h = tt
  sort-All (t ∷ ts) h = insert-All t (sort_by_id ts) h.0 (sort-All ts h.1)

insert-IsAscending :
    (t : LogEntry ℕ) (last : TransactionId) (ts : List (LogEntry ℕ))
    → last < t.id
    → All (λ (u : LogEntry ℕ). u.id ≢ t.id) ts
    → IsAscending last ts
    → IsAscending last (insert_by_id t ts)
insert-IsAscending t last [] h d asc = (h, tt)
insert-IsAscending t last (u ∷ us) h d asc =
    elim (ltb t.id u.id)
        as (λ b.
          ltb t.id u.id ≡ b → IsAscending last (if b then t ∷ u ∷ us else u ∷ insert_by_id t us)) [
            | true ↦ λ e. (h, (ltb→lt t.id u.id e, asc.1))
            | false ↦ λ e. (asc.0, insert-IsAscending t u.id us (above t.id u.id e (d.0)) d.1 asc.1)
          ]
      refl
  where
    above : (a b : ℕ) → ltb a b ≡ false → b ≢ a → b < a
    above a b e d = ground arith

pub sort-IsAscending :
    (last : TransactionId) (ts : List (LogEntry ℕ))
    → All (λ (t : LogEntry ℕ). last < t.id) ts
    → HasDistinct ts
    → IsAscending last (sort_by_id ts)
sort-IsAscending last [] h d = tt
sort-IsAscending last (t ∷ ts) h d =
    insert-IsAscending t last (sort_by_id ts) h.0 (sort-All (λ u. u.id ≢ t.id) ts d.0)
      (sort-IsAscending last ts h.1 d.1)

pub last_id-below :
    (bound last : TransactionId) (ts : List (LogEntry ℕ))
    → last < bound
    → All (λ (t : LogEntry ℕ). t.id < bound) ts
    → last_id last ts < bound
last_id-below bound last [] h k = h
last_id-below bound last (t ∷ ts) h k = last_id-below bound t.id ts k.0 k.1

get_last?-some : {A : Type 0} (x : A) (xs : List A) → (a : A) × (get_last? (x ∷ xs) ≡ some a)
get_last?-some x [] = (x, refl)
get_last?-some x (y ∷ ys) = get_last?-some y ys

insert-last :
    (t : LogEntry ℕ) (ts : List (LogEntry ℕ))
    → (a : LogEntry ℕ) × (get_last? (insert_by_id t ts) ≡ some a)
insert-last t [] = (t, refl)
insert-last t (u ∷ us) =
    elim (ltb t.id u.id)
      as (λ b.
        (a : LogEntry ℕ) × (get_last? (if b then t ∷ u ∷ us else u ∷ insert_by_id t us) ≡ some a)) [
          | true ↦ get_last?-some t (u ∷ us)
          | false ↦ get_last?-some u (insert_by_id t us)
        ]

-- A batch that is not empty has a last entry.
pub sort-last :
    (ts : List (LogEntry ℕ)) → ts ≢ [] → (a : LogEntry ℕ) × (get_last? (sort_by_id ts) ≡ some a)
sort-last [] h = absurd (h refl)
sort-last (t ∷ ts) h = insert-last t (sort_by_id ts)
