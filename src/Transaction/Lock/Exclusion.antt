-- ===== src/Transaction/Lock/Exclusion.antt =====
-- No two threads hold a lock.
use nebari.Common.{ℕ, ◌≡◌, refl, sym, ◌∙◌, true, false, List, [], ◌∷◌, arith}
use nebari.Transaction.Lock.{
  Pc, idle, holding, LockState, put, wake, Step, start, acquire, fail, block, acquire_checked,
  still_locked, others_wait, register, release, drain, Reach, initially, later,
}

-- Who holds the lock has set it, and is alone.
pub record IsExclusive (s : LockState) : Type 0 where
  pub held : (i : ℕ) → s.pc i ≡ holding → s.locked ≡ true
  pub alone : (i j : ℕ) → s.pc i ≡ holding → s.pc j ≡ holding → i ≡ j

wake-holding : (is : List ℕ) (pc : ℕ → Pc) (j : ℕ) → wake is pc j ≡ holding → pc j ≡ holding
wake-holding [] pc j e = e
wake-holding (i ∷ is) pc j e = wake-holding is pc j (ground arith)

drained :
    (i : ℕ) (is : List ℕ) (pc : ℕ → Pc) (j : ℕ)
    → wake is (put i idle pc) j ≡ holding
    → pc j ≡ holding
drained i is pc j e = ground (arith, wake-holding is (put i idle pc) j e)

-- A step after which who holds the lock held it before, and which leaves it locked.
keep :
    (s t : LockState)
    → t.locked ≡ s.locked
    → ((j : ℕ) → t.pc j ≡ holding → s.pc j ≡ holding)
    → IsExclusive s
    → IsExclusive t
keep s t same back h = record {
  held = λ j k. same ∙ h.held j (back j k);
  alone = λ j k a b. h.alone j k (back j a) (back k b);
}

-- A thread that finds the lock open is the only one to hold it.
take :
    (s t : LockState) (i : ℕ)
    → s.locked ≡ false
    → t.locked ≡ true
    → ((j : ℕ) → t.pc j ≡ put i holding s.pc j)
    → IsExclusive s
    → IsExclusive t
take s t i free locked same h = record {
  held = λ j k. locked;
  alone = λ j k a b. only j a ∙ sym (only k b);
}
  where
    only : (j : ℕ) → t.pc j ≡ holding → j ≡ i
    only j a = ground (arith, h.held j, same j)

pub Step-IsExclusive : {s t : LockState} → Step s t → IsExclusive s → IsExclusive t
Step-IsExclusive (start s i e) h = keep s _ refl (λ j k. ground arith) h
Step-IsExclusive (acquire s i e f) h = take s _ i f refl (λ j. refl) h
Step-IsExclusive (fail s i e f) h = keep s _ refl (λ j k. ground arith) h
Step-IsExclusive (block s i e f) h = keep s _ refl (λ j k. ground arith) h
Step-IsExclusive (acquire_checked s i e n f) h = take s _ i f refl (λ j. refl) h
Step-IsExclusive (still_locked s i e n f) h = keep s _ refl (λ j k. ground arith) h
Step-IsExclusive (others_wait s i j is e f) h = keep s _ refl (λ j k. ground arith) h
Step-IsExclusive (register s i e) h = keep s _ refl (λ j k. ground arith) h
Step-IsExclusive (release s i e) h = record {
  held = λ j k. absurd (ground (arith, h.alone j i));
  alone = λ j k a b. h.alone j k (ground arith) (ground arith);
}
Step-IsExclusive (drain s i e f) h = keep s _ refl (λ j. drained i s.blocked s.pc j) h

-- In every state that can be reached, at most one thread holds the lock, and the lock is set then.
pub Reach-IsExclusive : {s : LockState} → Reach s → IsExclusive s
Reach-IsExclusive initially = record { held = λ i e. cc; alone = λ i j e f. cc }
Reach-IsExclusive (later r step) = Step-IsExclusive step (Reach-IsExclusive r)
