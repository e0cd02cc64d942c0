-- ===== src/Tree/Modification.antt =====
-- nebari/src/tree/modify.rs and `KeyOperation` of btree_entry.rs: what is done to which keys.
pub mod Ascending
use nebari.Common.{ℕ, Bool, true, false, Option, none, some, List, [], ◌∷◌, if◌then◌else◌, ◌&&◌}
use nebari.Common.Ord.{Ord, key_lt}
use nebari.Error.{Result, ok, err, keys_not_ordered}

-- `TransactionId(u64)`
abbrev pub TransactionId : Type 0
TransactionId = ℕ

pub data PersistenceMode : Type 0 where
  transactional : TransactionId → PersistenceMode
  sync flush : PersistenceMode

unfoldable pub transaction_id : PersistenceMode → Option TransactionId
transaction_id (transactional id) = some id
transaction_id sync = none
transaction_id flush = none

unfoldable pub should_synchronize : PersistenceMode → Bool
should_synchronize (transactional id) = true
should_synchronize sync = true
should_synchronize flush = false

-- `From<Option<TransactionId>>`
unfoldable pub from_transaction : Option TransactionId → PersistenceMode
from_transaction none = sync
from_transaction (some id) = transactional id

pub data KeyOperation (T : Type 0) : Type 0 where
  skip : KeyOperation T
  set : T → KeyOperation T
  remove : KeyOperation T

-- `S` is all that the callbacks may change: the changes, the writer, and what they have captured.
pub data Operation (K V I S : Type 0) : Type 0 where
  set : V → Operation K V I S
  set_each : List V → Operation K V I S
  remove : Operation K V I S
  compare_swap : (K → Option I → Option V → S → KeyOperation V × S) → Operation K V I S

-- The keys, and the values of `set_each`, as the caller lists them.
pub record Modification (K V I S : Type 0) : Type 0 where
  pub persistence_mode : PersistenceMode
  pub keys : List K
  pub operation : Operation K V I S

-- The same after `reverse`: the lists run from the vectors' ends, so `pop` takes their heads.
pub record Pending (K V I S : Type 0) : Type 0 where
  pub keys : List K
  pub operation : Operation K V I S

module _ {K : Type 0} ⦃o : Ord K⦄ where
  -- `windows(2).all(|w| w[0] < w[1])`
  unfoldable pub is_ascending : List K → Bool
  is_ascending [] = true
  is_ascending (a ∷ []) = true
  is_ascending (a ∷ b ∷ ks) = key_lt a b && is_ascending (b ∷ ks)

  -- `Modification::reverse`: reversed and read from its end, a vector is the list that it was.
  unfoldable pub reverse : {V I S : Type 0} → Modification K V I S → Result (Pending K V I S)
  unfolding is_ascending
  reverse m =
      if is_ascending m.keys
      then ok (record { keys = m.keys; operation = m.operation })
      else err keys_not_ordered
