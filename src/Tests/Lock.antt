-- ===== src/Tests/Lock.antt =====
-- Two threads at one lock: the first holds it, the second comes to wait.
use nebari.Common.{refl, true, none, some, [], ◌∷◌}
use nebari.Transaction.Lock.{
  holding, LockState, new, put, start, acquire, fail, block, still_locked, register, Reach,
  initially, later, trying, failed, checking, registering, waiting,
}
use nebari.Transaction.Lock.Exclusion.{IsExclusive, Reach-IsExclusive}
use nebari.Transaction.Lock.Wakeup.{IsAttended, waiting-IsAttended}

abbrev first_started : LockState
first_started = record new { pc = put 0 trying new.pc }

abbrev first_holds : LockState
first_holds = record first_started { locked = true; pc = put 0 holding first_started.pc }

abbrev second_started : LockState
second_started = record first_holds { pc = put 1 trying first_holds.pc }

abbrev second_failed : LockState
second_failed = record second_started { pc = put 1 failed second_started.pc }

abbrev second_checks : LockState
second_checks = record second_failed { owner = some 1; pc = put 1 checking second_failed.pc }

abbrev second_registers : LockState
second_registers = record second_checks { pc = put 1 registering second_checks.pc }

abbrev second_waits : LockState
second_waits = record second_registers {
  owner = none;
  blocked = 1 ∷ [];
  pc = put 1 waiting second_registers.pc;
}

waits_reached : Reach second_waits
waits_reached =
    later
      (later
        (later
          (later
            (later (later (later initially (start new 0 refl)) (acquire first_started 0 refl refl))
              (start first_holds 1 refl))
            (fail second_started 1 refl refl))
          (block second_failed 1 refl refl))
        (still_locked second_checks 1 refl refl refl))
      (register second_registers 1 refl)

Reach-IsExclusive_example : IsExclusive second_waits
Reach-IsExclusive_example = Reach-IsExclusive {s = second_waits} waits_reached

waiting-IsAttended_example : IsAttended second_waits.pc
waiting-IsAttended_example = waiting-IsAttended {s = second_waits} waits_reached 1 refl
