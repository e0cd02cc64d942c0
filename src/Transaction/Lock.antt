-- ===== src/Transaction/Lock.antt =====
-- nebari/src/transaction/manager.rs: `TreeLock`, as the steps that its threads take.
--
-- A thread is a number. A step is one atomic access: of `locked`, or of the list under the mutex
-- `blocked`, whose owner is a field. `flume` delivers a signal that was sent.
pub mod Exclusion
pub mod Wakeup
use nebari.Common.{
  ℕ, ◌≡◌, Bool, true, false, Option, none, some, List, [], ◌∷◌, ◌==◌, if◌then◌else◌,
}

-- Where a thread is in `lock`, and in the `drop` of its handle.
pub data Pc : Type 0 where
  idle trying failed checking registering waiting holding releasing : Pc

-- `waiting` threads are those whose sender is in `blocked`, or was signalled.
pub record LockState : Type 0 where
  pub locked : Bool
  pub owner : Option ℕ
  pub blocked : List ℕ
  pub pc : ℕ → Pc

abbrev pub put : ℕ → Pc → (ℕ → Pc) → ℕ → Pc
put i p pc j = if j == i then p else pc j

abbrev pub new : LockState
new = record { locked = false; owner = none; blocked = []; pc = λ i. idle }

-- All that wait are signalled, and try again.
abbrev pub wake : List ℕ → (ℕ → Pc) → ℕ → Pc
wake [] pc = pc
wake (i ∷ is) pc = put i trying (wake is pc)

pub data Step : LockState → LockState → Type 0 where
  start : (s : LockState) (i : ℕ) → s.pc i ≡ idle → Step s (record s { pc = put i trying s.pc })
  -- the first `compare_exchange`
  acquire :
      (s : LockState) (i : ℕ)
      → s.pc i ≡ trying
      → s.locked ≡ false
      → Step s (record s { locked = true; pc = put i holding s.pc })
  fail :
      (s : LockState) (i : ℕ)
      → s.pc i ≡ trying
      → s.locked ≡ true
      → Step s (record s { pc = put i failed s.pc })
  -- the mutex is locked
  block :
      (s : LockState) (i : ℕ)
      → s.pc i ≡ failed
      → s.owner ≡ none
      → Step s (record s { owner = some i; pc = put i checking s.pc })
  -- nobody waits, and the second `compare_exchange` succeeds
  acquire_checked :
      (s : LockState) (i : ℕ)
      → s.pc i ≡ checking
      → s.blocked ≡ []
      → s.locked ≡ false
      → Step s (record s { locked = true; owner = none; pc = put i holding s.pc })
  -- nobody waits, and it fails
  still_locked :
      (s : LockState) (i : ℕ)
      → s.pc i ≡ checking
      → s.blocked ≡ []
      → s.locked ≡ true
      → Step s (record s { pc = put i registering s.pc })
  -- others wait
  others_wait :
      (s : LockState) (i j : ℕ) (is : List ℕ)
      → s.pc i ≡ checking
      → s.blocked ≡ j ∷ is
      → Step s (record s { pc = put i registering s.pc })
  register :
      (s : LockState) (i : ℕ)
      → s.pc i ≡ registering
      → Step s (record s { owner = none; blocked = i ∷ s.blocked; pc = put i waiting s.pc })
  -- `drop`: the lock is open, and then those that wait are signalled under the mutex
  release :
      (s : LockState) (i : ℕ)
      → s.pc i ≡ holding
      → Step s (record s { locked = false; pc = put i releasing s.pc })
  drain :
      (s : LockState) (i : ℕ)
      → s.pc i ≡ releasing
      → s.owner ≡ none
      → Step s (record s { blocked = []; pc = wake s.blocked (put i idle s.pc) })

pub data Reach : LockState → Type 0 where
  initially : Reach new
  later : {s t : LockState} → Reach s → Step s t → Reach t
