-- ===== src/Tree/Modify/Node.antt =====
-- nebari/src/tree/btree_entry.rs: `modify_interior` and `modify`.
pub mod Locate
pub mod Child
pub mod OneKey
use Prim.Native.Nat.{Ordering}
use nebari.Common.{
  ℕ, zero, suc, ◌+◌, ◌-◌, Bool, true, false, Option, none, some, List, [], ◌∷◌, length, drop,
  reverse_append, leb, ltb, ◌==◌, if◌then◌else◌, ◌&&◌, ◌||◌, not,
}
use nebari.Common.Ord.{Ord, key_gt, key_lt}
use nebari.Error.{Result, ok, err, panic, data_integrity, ◌>>=◌}
use nebari.Tree.Node.{
  KeyEntry, Interior, loaded, BTreeNode, uninitialized, leaf, interior, BTreeEntry, Below, Entry,
  ChangeResult, unchanged, remove, absorb, changed, split, Reducer, load,
}
use nebari.Tree.Splice.{Order, clean_up, get_mut, previous_location}
use nebari.Tree.Balance.{Outcome}
use nebari.Tree.Absorb.{Store, process_change}
use nebari.Tree.Modification.{Operation, Pending}
use nebari.Tree.Modify.Leaf.{Callbacks, modify_leaf, is_beyond}

-- What `modify` changes: the entry, the modification and the callbacks' state.
pub record Modified (K V I R E S : Type 0) : Type 0 where
  pub result : ChangeResult
  pub entry : BTreeEntry K I R E
  pub pending : Pending K V I S
  pub state : S

pub record InteriorOutcome (K V I R E S : Type 0) : Type 0 where
  pub result : ChangeResult
  pub children : List (Interior K R E)
  pub pending : Pending K V I S
  pub state : S

module _ {K R E : Type 0} ⦃o : Ord K⦄ where
  -- `binary_search_by` over the interiors' keys, which are sorted: the place, and whether the key
  -- stands there. Of keys that are not sorted, the standard library leaves the answer open, and this
  -- function is not what the program does.
  unfoldable pub search_children : K → List (Interior K R E) → ℕ × Bool
  search_children key [] = (0, false)
  search_children key (c ∷ cs) =
      let (place, found) = search_children key cs in
      let later : ℕ × Bool = (suc place, found) in
      elim (o.cmp c.key key) [
        | Ordering.lt ↦ later
        | Ordering.eq ↦ (0, true)
        | Ordering.gt ↦ (0, false)
      ]

  -- `(containing_node_index, pushing_end)`; `last_index` children stand before these. A key above
  -- all of them goes to the last child.
  unfoldable pub containing_node : K → List (Interior K R E) → ℕ × Bool
  unfolding search_children
  containing_node key cs =
      let (place, found) = search_children key cs in
      if not found && (ltb 0 place && place == length cs) then (place - 1, true) else (place, false)

  -- `children[index]` between the children before it, nearest first, and those after.
  unfoldable pub cursor_at :
      ℕ
      → List (Interior K R E)
      → List (Interior K R E)
      → Result (List (Interior K R E) × Interior K R E × List (Interior K R E))
  cursor_at index before [] = err panic
  cursor_at zero before (c ∷ cs) = ok (before, c, cs)
  cursor_at (suc index) before (c ∷ cs) = cursor_at index (c ∷ before) cs

-- `child.key.clone().min(max_key.clone())`
unfoldable pub bound_for : {K : Type 0} ⦃o : Ord K⦄ → Bool → K → K → Option K → K
bound_for true key child_key max_key = key
bound_for false key child_key none = child_key
bound_for false key child_key (some max_key) =
    if key_lt max_key child_key then max_key else child_key

-- One level: `modify_child` is `modify` for the children's entries, and `process` rebalances after it,
-- given the number of children.
module _ {K V I R E S : Type 0} ⦃o : Ord K⦄ (fetch : ℕ → Result (BTreeEntry K I R E))
    (process : ℕ
      → ChangeResult
      → List (Interior K R (BTreeEntry K I R E))
      → Interior K R (BTreeEntry K I R E)
      → List (Interior K R (BTreeEntry K I R E))
      → Result (Outcome K R (BTreeEntry K I R E)))
    (modify_child : Option K
      → Pending K V I S
      → BTreeEntry K I R E
      → S
      → Result (Modified K V I R E S)) where
  -- One round of the loop of `modify_interior`, for the key on top. The answer has the index to go
  -- on from.
  unfoldable pub interior_round :
      Option K
      → K
      → ℕ
      → List (Interior K R (BTreeEntry K I R E))
      → Pending K V I S
      → S
      → Result (InteriorOutcome K V I R (BTreeEntry K I R E) S × ℕ)
  unfolding containing_node cursor_at bound_for
  interior_round max_key key last_index children pending s = do
    let (containing_node_index, pushing_end) = containing_node key (drop last_index children)
    let index = last_index + containing_node_index
    (before, child, after) ← cursor_at index [] children
    position ← load fetch child.position
    child_entry ← get_mut position
    modified ←
        modify_child (some (bound_for pushing_end key child.key max_key)) pending child_entry s
    let child' : Interior K R (BTreeEntry K I R E) = record child {
      position = loaded (previous_location position) modified.entry;
    }
    outcome ← process (length children) modified.result before child' after
    ok (
      record {
        result = outcome.result;
        children = outcome.children;
        pending = modified.pending;
        state = modified.state;
      },
      if outcome.should_backup && ltb 0 index then index - 1 else index,
    )

  -- Every round takes a key from the modification, so the number of keys is fuel enough.
  unfoldable pub interior_loop :
      Option K
      → ℕ
      → ℕ
      → List (Interior K R (BTreeEntry K I R E))
      → Bool
      → Pending K V I S
      → S
      → Result (InteriorOutcome K V I R (BTreeEntry K I R E) S)
  unfolding interior_round is_beyond
  interior_loop max_key zero last_index children any_changes pending s = err panic
  interior_loop max_key (suc fuel) last_index children any_changes pending s =
      let done : Result (InteriorOutcome K V I R (BTreeEntry K I R E) S) = ok (record {
        result = if any_changes then changed else unchanged;
        children = children;
        pending = pending;
        state = s;
      }) in
      elim pending.keys [
        | [] ↦ done
        | key ∷ keys ↦
            if leb (length children) last_index
            then done
            else if is_beyond max_key key
            then done
            else do
              (round, index) ← interior_round max_key key last_index children pending s
              let go_on : Bool → Result (InteriorOutcome K V I R (BTreeEntry K I R E) S) = λ any.
                  interior_loop max_key fuel index round.children any round.pending round.state
              elim round.result [
                | unchanged ↦ go_on any_changes
                | split ↦ err panic
                | absorb ↦ ok round
                | remove ↦ go_on true
                | changed ↦ go_on true
              ]
      ]

  -- `modify_interior`
  unfoldable pub modify_interior :
      Option K
      → List (Interior K R (BTreeEntry K I R E))
      → Pending K V I S
      → S
      → Result (InteriorOutcome K V I R (BTreeEntry K I R E) S)
  unfolding interior_loop
  modify_interior max_key children pending s =
      interior_loop max_key (suc (length pending.keys)) 0 children false pending s

module _ {K V I R E S : Type 0} ⦃o : Ord K⦄ (callbacks : Callbacks K V I S) (order : Order) where
  -- The row of `modify` for a leaf.
  unfoldable pub modify_leaf_entry :
      Option K → Pending K V I S → Bool → List (KeyEntry K I) → S → Result (Modified K V I R E S)
  unfolding modify_leaf
  modify_leaf_entry max_key pending dirty children s = do
    leaf' ← modify_leaf callbacks order.current_order max_key pending children s
    ok (record {
      result = if leaf'.any_changes then clean_up order (length leaf'.children) else unchanged;
      entry = record { dirty = leaf'.any_changes || dirty; node = leaf leaf'.children };
      pending = leaf'.pending;
      state = leaf'.state;
    })

module _ {K V I R E S : Type 0} (order : Order) where
  -- The row for an interior, after `modify_interior`.
  unfoldable pub finish_interior : Bool → InteriorOutcome K V I R E S → Modified K V I R E S
  finish_interior dirty out = record {
    result = elim out.result [ changed ↦ clean_up order (length out.children) | other ↦ other ];
    entry = record {
      dirty = elim out.result [ changed ↦ true | _ ↦ dirty ];
      node = interior out.children;
    };
    pending = out.pending;
    state = out.state;
  }

module _ {K V I R S : Type 0} ⦃o : Ord K⦄ (store : Store K I R) (reducer : Reducer I R)
    (callbacks : Callbacks K V I S) (order : Order) where
  -- `BTreeEntry::modify`. An interior that has no room for entries below it has nothing to load.
  unfoldable pub modify :
      (h : ℕ)
      → Option K
      → Pending K V I S
      → Entry K I R h
      → S
      → Result (Modified K V I R (Below K I R h) S)
  unfolding modify_leaf_entry finish_interior modify_interior
  modify zero max_key pending e s = elim e.node [
    | uninitialized ↦ err panic
    | leaf children ↦ modify_leaf_entry callbacks order max_key pending e.dirty children s
    | interior children ↦ err data_integrity
  ]
  modify (suc h) max_key pending e s = elim e.node [
    | uninitialized ↦ err panic
    | leaf children ↦ modify_leaf_entry callbacks order max_key pending e.dirty children s
    | interior children ↦ do
      out ←
          modify_interior (store h) (process_change store reducer order h) (modify h) max_key
            children pending s
      ok (finish_interior order e.dirty out)
  ]
