-- ===== src/Tree/Modify/Leaf.antt =====
-- nebari/src/tree/btree_entry.rs: `ModificationContext` and `modify_leaf`.
--
-- `children[..last_index]` is kept as `before`, nearest first, and `children[last_index..]` as
-- `after`.
pub mod Runs
pub mod OneKey
use Prim.Native.Nat.{Ordering}
use nebari.Common.{
  ℕ, zero, suc, ◌+◌, max, not, ◌||◌, Bool, true, false, Option, none, some, List, [], ◌∷◌, length,
  reverse_append, leb, if◌then◌else◌,
}
use nebari.Common.Ord.{Ord, key_gt}
use nebari.Error.{Result, ok, err, message, ◌>>=◌}
use nebari.Tree.Node.{KeyEntry}
use nebari.Tree.Modification
use nebari.Tree.Modification.{KeyOperation, Operation, Pending}

-- The callbacks of the context. On an error the state is lost: the program gives up too.
pub record Callbacks (K V I S : Type 0) : Type 0 where
  pub indexer : K → Option V → Option I → S → Result (KeyOperation I × S)
  pub loader : I → S → Result (Option V × S)

-- What is decided for one key: the operation on its index, and what is left of the modification's
-- operation.
pub record Decision (K V I S : Type 0) : Type 0 where
  pub key_operation : KeyOperation I
  pub operation : Operation K V I S
  pub state : S

pub record LeafOutcome (K V I S : Type 0) : Type 0 where
  pub pending : Pending K V I S
  pub children : List (KeyEntry K I)
  pub any_changes : Bool
  pub state : S

module _ {K V I S : Type 0} (callbacks : Callbacks K V I S) where
  -- The call of the indexer after a callback of `CompareSwap`.
  unfoldable pub index_swap : K → Option I → KeyOperation V × S → Result (KeyOperation I × S)
  index_swap key existing (KeyOperation.skip, s) = ok (KeyOperation.skip, s)
  index_swap key existing (KeyOperation.set v, s) = callbacks.indexer key (some v) existing s
  index_swap key existing (KeyOperation.remove, s) = callbacks.indexer key none existing s

  -- The inner matches on `modification.operation`, for a key that has an index and for one that
  -- has none.
  unfoldable pub decide : K → Option I → Operation K V I S → S → Result (Decision K V I S)
  unfolding index_swap
  decide key existing (Operation.set v) s = do
    (k, s') ← callbacks.indexer key (some v) existing s
    ok (record { key_operation = k; operation = Operation.set v; state = s' })
  decide key existing (Operation.set_each []) s = err message
  decide key existing (Operation.set_each (v ∷ vs)) s = do
    (k, s') ← callbacks.indexer key (some v) existing s
    ok (record { key_operation = k; operation = Operation.set_each vs; state = s' })
  decide key (some index) Operation.remove s = do
    (k, s') ← callbacks.indexer key none (some index) s
    ok (record { key_operation = k; operation = Operation.remove; state = s' })
  decide key none Operation.remove s =
      ok (record { key_operation = KeyOperation.remove; operation = Operation.remove; state = s })
  decide key (some index) (Operation.compare_swap callback) s = do
    (existing_value, s') ← callbacks.loader index s
    (k, s'') ← index_swap key (some index) (callback key (some index) existing_value s')
    ok (record { key_operation = k; operation = Operation.compare_swap callback; state = s'' })
  decide key none (Operation.compare_swap callback) s = do
    (k, s') ← index_swap key none (callback key none none s)
    ok (record { key_operation = k; operation = Operation.compare_swap callback; state = s' })

module _ {K I : Type 0} ⦃o : Ord K⦄ where
  -- `children[last_index..].binary_search_by(..)` and `last_index += ..` on a sorted slice: the entries
  -- below the key are passed. Of a slice that is not sorted, the standard library leaves the answer
  -- open, and this function is not what the program does.
  unfoldable pub seek :
      K → List (KeyEntry K I) → List (KeyEntry K I) → List (KeyEntry K I) × List (KeyEntry K I)
  seek key before [] = (before, [])
  seek key before (c ∷ after) = elim (o.cmp c.key key) [
    | Ordering.lt ↦ seek key (c ∷ before) after
    | _ ↦ (before, c ∷ after)
  ]

  -- `Ok` of the search: the entry at the cursor has the key.
  unfoldable pub matching : K → List (KeyEntry K I) → Option I
  matching key [] = none
  matching key (c ∷ after) = elim (o.cmp c.key key) [ Ordering.eq ↦ some c.index | _ ↦ none ]

  -- The match on the decision: what becomes of `children[last_index..]`, and `any_changes`.
  unfoldable pub apply :
      K → Option I → KeyOperation I → List (KeyEntry K I) → List (KeyEntry K I) × Bool
  apply key existing KeyOperation.skip after = (after, false)
  apply key none (KeyOperation.set index) after =
      (record { key = key; index = index } ∷ after, true)
  apply key none KeyOperation.remove after = (after, false)
  apply key (some _) (KeyOperation.set index) [] = ([], false)
  apply key (some _) (KeyOperation.set index) (c ∷ after) =
      (record { key = key; index = index } ∷ after, true)
  apply key (some _) KeyOperation.remove [] = ([], false)
  apply key (some _) KeyOperation.remove (c ∷ after) = (after, true)

module _ {K : Type 0} ⦃o : Ord K⦄ where
  -- `max_key.map(|max_key| key > max_key).unwrap_or_default()`
  unfoldable pub is_beyond : Option K → K → Bool
  is_beyond none key = false
  is_beyond (some max_key) key = key_gt key max_key

module _ {K V I S : Type 0} ⦃o : Ord K⦄ (callbacks : Callbacks K V I S) (max_key : Option K)
    (max_len : ℕ) where
  -- The loop of `modify_leaf`: every round pops a key.
  unfoldable pub leaf_loop :
      List K
      → Operation K V I S
      → List (KeyEntry K I)
      → List (KeyEntry K I)
      → Bool
      → S
      → Result (LeafOutcome K V I S)
  unfolding seek matching apply is_beyond decide
  leaf_loop [] operation before after any_changes s = ok (record {
    pending = record { keys = []; operation = operation };
    children = reverse_append before after;
    any_changes = any_changes;
    state = s;
  })
  leaf_loop (key ∷ keys) operation before after any_changes s =
      let stop : Result (LeafOutcome K V I S) = ok (record {
        pending = record { keys = key ∷ keys; operation = operation };
        children = reverse_append before after;
        any_changes = any_changes;
        state = s;
      }) in
      let next : Result (LeafOutcome K V I S) = (do
        let (before', after') = seek key before after
        let existing = matching key after'
        decision ← decide callbacks key existing operation s
        let (after'', has_changed) = apply key existing decision.key_operation after'
        leaf_loop keys decision.operation before' after'' (any_changes || has_changed)
            decision.state) in
      if not (leb (length before + length after) max_len)
      then stop
      else if is_beyond max_key key
      then stop
      else next

module _ {K V I S : Type 0} ⦃o : Ord K⦄ where
  unfoldable pub modify_leaf :
      Callbacks K V I S
      → ℕ
      → Option K
      → Pending K V I S
      → List (KeyEntry K I)
      → S
      → Result (LeafOutcome K V I S)
  unfolding leaf_loop
  modify_leaf callbacks current_order max_key pending children s =
      leaf_loop callbacks max_key (max (length children) current_order) pending.keys
        pending.operation [] children false s
