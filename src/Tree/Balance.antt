-- ===== src/Tree/Balance.antt =====
-- nebari/src/tree/btree_entry.rs: what a node does about a child that has become too large, too
-- small or empty (`process_interior_change_result` and what it calls).
--
-- The children of the node are given as the child in hand, those before it (nearest first) and
-- those after it; the vector is `reverse_append before (child ∷ after)`.
pub mod Steal
pub mod Absorbing
pub mod Changed
pub mod Fuel
pub mod Process
use nebari.Common.{
  ◌+◌, ℕ, zero, suc, ◌-◌, ◌<◌, Bool, true, false, not, ◌||◌, Option, none, some, List, [], ◌∷◌,
  ◌++◌, length, get_last?, reverse_append, ltb, leb, if◌then◌else◌,
}
use nebari.Error.{Result, ok, err, panic, ◌>>=◌}
use nebari.Tree.Node.{
  KeyEntry, Pointer, on_disk, loaded, Interior, BTreeNode, uninitialized, leaf, interior,
  BTreeEntry, Below, Entry, ChangeResult, unchanged, remove, absorb, changed, split, Children,
  leaves, interiors, Reducer, from_node, count, max_key, stats, new, load,
}
use nebari.Tree.Splice.{
  Order, clean_up, checked_sub, get_mut, previous_location, set_node, splice_start, splice_end,
  extend, prepend, halves, refresh, take_children,
}

-- The answer of a rebalancing step: the change, whether the caller goes back by one child, and the
-- node's children.
pub record Outcome (K R E : Type 0) : Type 0 where
  pub result : ChangeResult
  pub should_backup : Bool
  pub children : List (Interior K R E)

-- The answer of a stealing step: the neighbour and the child, both possibly changed.
pub record Stolen (K R E : Type 0) : Type 0 where
  pub result : ChangeResult
  pub should_backup : Bool
  pub neighbour : Interior K R E
  pub child : Interior K R E

-- The match on the result of a stealing step: what follows if the child is still too large, and if
-- it is not.
unfoldable pub on_stolen : {A : Type 0} → ChangeResult → Result A → Result A → Result A
on_stolen unchanged still_large settled = still_large
on_stolen changed still_large settled = settled
on_stolen _ still_large settled = err panic

-- `if let Some(free_space) = .. { if free_space > 0 { .. } }`
unfoldable pub if_free : {A : Type 0} → Option ℕ → A → (ℕ → Result A) → Result A
if_free none kept steal = ok kept
if_free (some free_space) kept steal = if ltb 0 free_space then steal free_space else ok kept

module _ {K I R E : Type 0} (fetch : ℕ → Result (BTreeEntry K I R E)) (reducer : Reducer I R)
    (order : Order) where
  abbrev pub Child : Type 0
  Child = Interior K R (BTreeEntry K I R E)

  -- The last lines of both stealing functions: both neighbours get their new keys and statistics.
  unfoldable pub finish_steal :
      Child
      → BTreeEntry K I R E
      → Child
      → BTreeEntry K I R E
      → Result (Stolen K R (BTreeEntry K I R E))
  finish_steal neighbour neighbour_entry child child_entry = do
    neighbour' ← refresh reducer (previous_location neighbour.position) neighbour_entry
    child' ← refresh reducer (previous_location child.position) child_entry
    child_count ← count child_entry
    ok (record {
      result = if leb child_count order.current_order then changed else unchanged;
      should_backup = true;
      neighbour = neighbour';
      child = child';
    })

  unfoldable pub steal_children_from_start :
      Child → Child → Result (Stolen K R (BTreeEntry K I R E))
  unfolding finish_steal
  steal_children_from_start previous child = do
    position ← load fetch previous.position
    let previous' : Child = record previous { position = position }
    previous_entry ← get_mut position
    previous_child_count ← count previous_entry
    let kept : Stolen K R (BTreeEntry K I R E) = record {
      result = unchanged;
      should_backup = false;
      neighbour = previous';
      child = child;
    }
    let steal : ℕ → Result (Stolen K R (BTreeEntry K I R E)) = λ free_space. do
      child_entry ← get_mut child.position
      (stolen_children, child_node) ← splice_start order free_space child_entry.node
      previous_node ← extend previous_entry.node stolen_children
      finish_steal previous' (set_node previous_entry previous_node) child
          (set_node child_entry child_node)
    if_free (checked_sub order.current_order previous_child_count) kept steal

  unfoldable pub steal_children_from_end : Child → Child → Result (Stolen K R (BTreeEntry K I R E))
  unfolding finish_steal
  steal_children_from_end next child = do
    position ← load fetch next.position
    let next' : Child = record next { position = position }
    next_entry ← get_mut position
    next_child_count ← count next_entry
    let kept : Stolen K R (BTreeEntry K I R E) = record {
      result = unchanged;
      should_backup = false;
      neighbour = next';
      child = child;
    }
    let steal : ℕ → Result (Stolen K R (BTreeEntry K I R E)) = λ free_space. do
      child_entry ← get_mut child.position
      (stolen_children, child_node) ← splice_end order free_space child_entry.node
      next_node ← prepend next_entry.node stolen_children
      finish_steal next' (set_node next_entry next_node) child (set_node child_entry child_node)
    if_free (checked_sub order.current_order next_child_count) kept steal

  -- The end of `process_interior_split`: the child keeps its lower half, and a new node after it
  -- takes the upper.
  unfoldable pub split_child :
      Bool → List Child → Child → List Child → Result (Outcome K R (BTreeEntry K I R E))
  split_child should_backup before child after = do
    child_entry ← get_mut child.position
    (lower, upper) ← halves child_entry.node
    child' ← refresh reducer (previous_location child.position) (set_node child_entry lower)
    next ← new reducer (from_node upper)
    ok (record {
      result = changed;
      should_backup = should_backup;
      children = reverse_append before (child' ∷ next ∷ after);
    })

  -- The second half of `process_interior_split`: the next child is asked to take some.
  unfoldable pub split_to_end :
      Bool → List Child → Child → List Child → Result (Outcome K R (BTreeEntry K I R E))
  unfolding split_child steal_children_from_end
  split_to_end should_backup before child [] = split_child should_backup before child []
  split_to_end should_backup before child (next ∷ after) = do
    stolen ← steal_children_from_end next child
    on_stolen stolen.result
        (split_child should_backup before stolen.child (stolen.neighbour ∷ after))
        (ok (record {
          result = changed;
          should_backup = should_backup;
          children = reverse_append before (stolen.child ∷ stolen.neighbour ∷ after);
        }))

  unfoldable pub process_interior_split :
      List Child → Child → List Child → Result (Outcome K R (BTreeEntry K I R E))
  unfolding split_to_end steal_children_from_start
  process_interior_split [] child after = split_to_end false [] child after
  process_interior_split (previous ∷ before) child after = do
    stolen ← steal_children_from_start previous child
    on_stolen stolen.result
        (split_to_end stolen.should_backup (stolen.neighbour ∷ before) stolen.child after)
        (ok (record {
          result = changed;
          should_backup = stolen.should_backup;
          children = reverse_append before (stolen.neighbour ∷ stolen.child ∷ after);
        }))

  -- `BTreeEntry::absorb` for the entries below this node.
  abbrev pub Absorb : Type 0
  Absorb = BTreeEntry K I R E → Children K I R E → Bool → Result (ChangeResult × BTreeEntry K I R E)

  abbrev pub Process : Type 0
  Process =
      ChangeResult → List Child → Child → List Child → Result (Outcome K R (BTreeEntry K I R E))

  -- The match at the end of `process_absorb`.
  abbrev pub absorbed : Outcome K R (BTreeEntry K I R E) → Result (Outcome K R (BTreeEntry K I R E))
  absorbed o = elim o.result [
    | remove ↦ ok (record o { should_backup = true })
    | changed ↦ ok (record o { should_backup = true })
    | _ ↦ err panic
  ]

  -- The child is removed, and its sponge takes the entries.
  unfoldable pub absorb_into :
      Absorb
      → Process
      → Child
      → Bool
      → List Child
      → Child
      → List Child
      → Result (Outcome K R (BTreeEntry K I R E))
  absorb_into absorb_entry process removed insert_on_top before sponge after = do
    removed_child ← get_mut removed.position
    children ← take_children removed_child.node
    position ← load fetch sponge.position
    sponge_entry ← get_mut position
    (result, sponge_entry') ← absorb_entry sponge_entry children insert_on_top
    outcome ←
        process result before
          (record sponge { position = loaded (previous_location position) sponge_entry' }) after
    absorbed outcome

  -- The sponge is the child before, or the one after where the first child is removed.
  unfoldable pub process_absorb :
      Absorb → Process → List Child → Child → List Child → Result (Outcome K R (BTreeEntry K I R E))
  unfolding absorb_into
  process_absorb absorb_entry process (sponge ∷ before) child after =
      absorb_into absorb_entry process child true before sponge after
  process_absorb absorb_entry process [] child (sponge ∷ after) =
      absorb_into absorb_entry process child false [] sponge after
  process_absorb absorb_entry process [] child [] =
      ok (record { result = unchanged; should_backup = false; children = child ∷ [] })

  -- The first rows of the match: the child's key and statistics are computed again.
  unfoldable pub refresh_child :
      Bool → List Child → Child → List Child → Result (Outcome K R (BTreeEntry K I R E))
  refresh_child should_backup before child after = do
    child_entry ← get_mut child.position
    child' ← refresh reducer (previous_location child.position) child_entry
    ok (record {
      result = changed;
      should_backup = should_backup;
      children = reverse_append before (child' ∷ after);
    })

  abbrev pub can_absorb : List Child → List Child → Bool
  can_absorb before after = ltb 1 (length before + suc (length after))

  -- Each absorption removes a child, so the number of children is fuel enough.
  unfoldable pub process_interior_change_result : Absorb → ℕ → Process
  unfolding process_interior_split process_absorb refresh_child
  process_interior_change_result absorb_entry zero result before child after = err panic
  process_interior_change_result absorb_entry (suc fuel) unchanged before child after = ok (record {
    result = unchanged;
    should_backup = false;
    children = reverse_append before (child ∷ after);
  })
  process_interior_change_result absorb_entry (suc fuel) changed before child after =
      refresh_child false before child after
  process_interior_change_result absorb_entry (suc fuel) split before child after =
      process_interior_split before child after
  process_interior_change_result absorb_entry (suc fuel) remove before child after =
      ok (record { result = changed; should_backup = true; children = reverse_append before after })
  process_interior_change_result absorb_entry (suc fuel) absorb before child after =
      let absorbing =
        process_absorb absorb_entry (process_interior_change_result absorb_entry fuel) before child
          after in
      if can_absorb before after then absorbing else refresh_child true before child after
