-- ===== src/Transaction/Lock/Wakeup.antt =====
-- No thread waits for a lock that is open and that nobody is about to signal.
use nebari.Common.{
  ℕ, ◌≡◌, ◌≢◌, ◌⊎◌, inl, inr, refl, ◌∙◌, Bool, true, false, ◌||◌, Option, none, some, List, [], ◌∷◌,
  ◌==◌, arith,
}
use native.Mathlib.Decide.{ℕ_discrete}
use nebari.Transaction.Lock.{
  Pc, idle, trying, failed, checking, registering, waiting, holding, releasing, LockState, put,
  wake, Step, start, acquire, fail, block, acquire_checked, still_locked, others_wait, register,
  release, drain, Reach, initially, later,
}

-- Somebody holds the lock, or will signal those that wait.
abbrev pub IsAttended : (ℕ → Pc) → Type 0
IsAttended pc = (i : ℕ) × ((pc i ≡ holding) ⊎ (pc i ≡ releasing))

abbrev pub has : ℕ → List ℕ → Bool
has i [] = false
has i (j ∷ js) = (i == j) || has i js

pub record IsFair (s : LockState) : Type 0 where
  pub owns : (i : ℕ) → (s.pc i ≡ checking) ⊎ (s.pc i ≡ registering) → s.owner ≡ some i
  pub holder : s.locked ≡ true → (i : ℕ) × (s.pc i ≡ holding)
  pub registered : (i : ℕ) → s.pc i ≡ waiting → has i s.blocked ≡ true
  pub sleeping : (i : ℕ) → has i s.blocked ≡ true → s.pc i ≡ waiting
  pub attended : (i : ℕ) → has i s.blocked ≡ true → IsAttended s.pc
  pub entering : (i : ℕ) → s.pc i ≡ registering → IsAttended s.pc

module _ (i : ℕ) (p : Pc) (pc : ℕ → Pc) where
  at_self : put i p pc i ≡ p
  at_self = ground arith

  at_other : (j : ℕ) (q : Pc) → pc i ≢ q → pc j ≡ q → put i p pc j ≡ q
  at_other j q d e = ground arith

  -- A step of a thread that neither holds nor releases the lock leaves it attended.
  still : pc i ≢ holding → pc i ≢ releasing → IsAttended pc → IsAttended (put i p pc)
  still d f (j, inl e) = (j, inl (at_other j holding d e))
  still d f (j, inr e) = (j, inr (at_other j releasing f e))

  still_held : pc i ≢ holding → (j : ℕ) × (pc j ≡ holding) → (j : ℕ) × (put i p pc j ≡ holding)
  still_held d (j, e) = (j, at_other j holding d e)

wake-cases :
    (is : List ℕ) (pc : ℕ → Pc) (j : ℕ)
    → ((has j is ≡ true) × (wake is pc j ≡ trying)) ⊎ ((has j is ≡ false) × (wake is pc j ≡ pc j))
wake-cases [] pc j = inr (refl, refl)
wake-cases (i ∷ is) pc j = ground (arith, wake-cases is pc j)

-- A step of a thread that is not holding, releasing or waiting, and does not come to wait.
module _ (s : LockState) (i : ℕ) (p : Pc) (h : IsFair s) (not_holding : s.pc i ≢ holding)
    (not_releasing : s.pc i ≢ releasing) (awake : s.pc i ≢ waiting)
    (stays_awake : p ≢ waiting) where
  moved :
      (owner : Option ℕ)
      → ((j : ℕ) → (put i p s.pc j ≡ checking) ⊎ (put i p s.pc j ≡ registering) → owner ≡ some j)
      → (p ≡ registering → IsAttended s.pc)
      → IsFair (record s { owner = owner; pc = put i p s.pc })
  moved owner owns enters = record {
    owns = owns;
    holder = λ k. still_held i p s.pc not_holding (h.holder k);
    registered = λ j k. h.registered j (ground arith);
    sleeping = λ j k. at_other i p s.pc j waiting awake (h.sleeping j k);
    attended = λ j k. still i p s.pc not_holding not_releasing (h.attended j k);
    entering = λ j k. still i p s.pc not_holding not_releasing (entered j k);
  }
    where
      entered : (j : ℕ) → put i p s.pc j ≡ registering → IsAttended s.pc
      entered j k = elim (ℕ_discrete j i) [
        | yes same ↦ enters (ground arith)
        | no other ↦ h.entering j (ground arith)
      ]

  -- And one that comes to hold the lock.
  took :
      (owner : Option ℕ)
      → p ≡ holding
      → ((j : ℕ) → (put i p s.pc j ≡ checking) ⊎ (put i p s.pc j ≡ registering) → owner ≡ some j)
      → IsFair (record s { locked = true; owner = owner; pc = put i p s.pc })
  took owner e owns = record {
    owns = owns;
    holder = λ _. (i, at_self i p s.pc ∙ e);
    registered = λ j k. h.registered j (ground arith);
    sleeping = λ j k. at_other i p s.pc j waiting awake (h.sleeping j k);
    attended = λ j k. (i, inl (at_self i p s.pc ∙ e));
    entering = λ j k. (i, inl (at_self i p s.pc ∙ e));
  }

pub Step-IsFair : {s t : LockState} → Step s t → IsFair s → IsFair t
Step-IsFair (start s i e) h =
    moved s i trying h (λ q. cc) (λ q. cc) (λ q. cc) (λ q. cc) s.owner
      (λ j k. h.owns j (ground arith)) (λ q. cc)
Step-IsFair (acquire s i e f) h =
    took s i holding h (λ q. cc) (λ q. cc) (λ q. cc) (λ q. cc) s.owner refl
      (λ j k. h.owns j (ground arith))
Step-IsFair (fail s i e f) h =
    moved s i failed h (λ q. cc) (λ q. cc) (λ q. cc) (λ q. cc) s.owner
      (λ j k. h.owns j (ground arith)) (λ q. cc)
Step-IsFair (block s i e f) h =
    moved s i checking h (λ q. cc) (λ q. cc) (λ q. cc) (λ q. cc) (some i)
      (λ j k. ground (arith, h.owns j)) (λ q. cc)
Step-IsFair (acquire_checked s i e n f) h =
    took s i holding h (λ q. cc) (λ q. cc) (λ q. cc) (λ q. cc) none refl
      (λ j k. ground (arith, h.owns j, h.owns i))
Step-IsFair (still_locked s i e n f) h =
    moved s i registering h (λ q. cc) (λ q. cc) (λ q. cc) (λ q. cc) s.owner
      (λ j k. ground (arith, h.owns j, h.owns i))
      (λ _. let held = h.holder f in (held.0, inl held.1))
Step-IsFair (others_wait s i j is e f) h =
    moved s i registering h (λ q. cc) (λ q. cc) (λ q. cc) (λ q. cc) s.owner
      (λ j k. ground (arith, h.owns j, h.owns i)) (λ _. h.attended j (ground arith))
Step-IsFair (register s i e) h = record {
  owns = λ j k. ground (arith, h.owns j, h.owns i);
  holder = λ k. still_held i waiting s.pc (λ q. cc) (h.holder k);
  registered = λ j k. ground (arith, h.registered j);
  sleeping = λ j k. ground (arith, h.sleeping j);
  attended = λ j k. still i waiting s.pc (λ q. cc) (λ q. cc) (h.entering i e);
  entering = λ j k. still i waiting s.pc (λ q. cc) (λ q. cc) (h.entering i e);
}
Step-IsFair (release s i e) h = record {
  owns = λ j k. h.owns j (ground arith);
  holder = λ k. cc;
  registered = λ j k. h.registered j (ground arith);
  sleeping = λ j k. at_other i releasing s.pc j waiting (λ q. cc) (h.sleeping j k);
  attended = λ j k. (i, inr (at_self i releasing s.pc));
  entering = λ j k. (i, inr (at_self i releasing s.pc));
}
Step-IsFair (drain s i e f) h = record {
  owns = λ j k. ground (arith, h.owns j, wake-cases s.blocked (put i idle s.pc) j);
  holder = λ k.
      let (j, q) = h.holder k in
      (j, ground (arith, wake-cases s.blocked (put i idle s.pc) j, h.sleeping j));
  registered = λ j k. ground (arith, wake-cases s.blocked (put i idle s.pc) j, h.registered j);
  sleeping = λ j k. cc;
  attended = λ j k. cc;
  entering = λ j k. absurd (ground (arith, h.owns j, wake-cases s.blocked (put i idle s.pc) j));
}

Reach-IsFair : {s : LockState} → Reach s → IsFair s
Reach-IsFair initially = record {
  owns = λ i k. ground arith;
  holder = λ k. cc;
  registered = λ i k. cc;
  sleeping = λ i k. cc;
  attended = λ i k. cc;
  entering = λ i k. cc;
}
Reach-IsFair (later r step) = Step-IsFair step (Reach-IsFair r)

-- In every state that can be reached, while a thread waits to be signalled, another holds the lock or
-- is about to signal all that wait.
pub waiting-IsAttended : {s : LockState} → Reach s → (i : ℕ) → s.pc i ≡ waiting → IsAttended s.pc
waiting-IsAttended r i e = let h = Reach-IsFair r in h.attended i (h.registered i e)
