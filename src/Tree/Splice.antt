-- ===== src/Tree/Splice.antt =====
-- nebari/src/tree/btree_entry.rs: cutting, joining and measuring the children of one node.
pub mod Holds
pub mod MaxKey
use nebari.Common.{
  ℕ, zero, suc, ◌+◌, ◌-◌, ◌/◌, min, max, Bool, true, false, Option, none, some, List, [], ◌∷◌, ◌++◌,
  length, take, drop, get_last?, reverse_append, ltb, leb, if◌then◌else◌, ◌==◌,
}
use nebari.Error.{Result, ok, err, panic, ◌>>=◌}
use nebari.Tree.Node.{
  KeyEntry, Pointer, on_disk, loaded, Interior, BTreeNode, uninitialized, leaf, interior,
  BTreeEntry, Below, Entry, ChangeResult, unchanged, remove, absorb, changed, split, Children,
  leaves, interiors, Reducer, from_node, count, max_key, stats, new, load,
}

-- The numbers of the `ModificationContext`.
pub record Order : Type 0 where
  pub current_order : ℕ
  pub minimum_children : ℕ

-- `clean_up_leaf`, `clean_up_interior`: the two bodies are the same over the number of children.
unfoldable pub clean_up : Order → ℕ → ChangeResult
clean_up order child_count =
    if ltb order.current_order child_count
    then split
    else if child_count == 0
    then remove
    else if ltb child_count order.minimum_children
    then absorb
    else changed

-- `usize::checked_sub`
abbrev pub checked_sub : ℕ → ℕ → Option ℕ
checked_sub a b = if leb b a then some (a - b) else none

-- `position.get_mut().unwrap()`
abbrev pub get_mut : {E : Type 0} → Pointer E → Result E
get_mut (on_disk position) = err panic
get_mut (loaded previous_location e) = ok e

abbrev pub previous_location : {E : Type 0} → Pointer E → Option ℕ
previous_location (on_disk position) = some position
previous_location (loaded location e) = location

module _ {K I R E : Type 0} where
  abbrev pub set_node : BTreeEntry K I R E → BTreeNode K I R E → BTreeEntry K I R E
  set_node e n = record { dirty = true; node = n }

  -- `splice(0..amount)`: what is cut off, and what stays. A range past the end panics.
  unfoldable pub splice_start :
      Order → ℕ → BTreeNode K I R E → Result (Children K I R E × BTreeNode K I R E)
  splice_start order free_space uninitialized = err panic
  splice_start order free_space (leaf cs) =
      let amount_to_steal = min free_space (length cs - order.minimum_children) in
      if leb amount_to_steal (length cs)
      then ok (leaves (take amount_to_steal cs), leaf (drop amount_to_steal cs))
      else err panic
  splice_start order free_space (interior cs) =
      let amount_to_steal = max free_space (length cs - order.minimum_children) in
      if leb amount_to_steal (length cs)
      then ok (interiors (take amount_to_steal cs), interior (drop amount_to_steal cs))
      else err panic

  -- `splice(len - amount..)`
  unfoldable pub splice_end :
      Order → ℕ → BTreeNode K I R E → Result (Children K I R E × BTreeNode K I R E)
  splice_end order free_space uninitialized = err panic
  splice_end order free_space (leaf cs) =
      let amount_to_steal = min free_space (length cs - order.minimum_children) in
      if leb amount_to_steal (length cs)
      then ok (
        leaves (drop (length cs - amount_to_steal) cs),
        leaf (take (length cs - amount_to_steal) cs),
      )
      else err panic
  splice_end order free_space (interior cs) =
      let amount_to_steal = max free_space (length cs - order.minimum_children) in
      if leb amount_to_steal (length cs)
      then ok (
        interiors (drop (length cs - amount_to_steal) cs),
        interior (take (length cs - amount_to_steal) cs),
      )
      else err panic

  -- `children.extend(new_entries)`
  unfoldable pub extend : BTreeNode K I R E → Children K I R E → Result (BTreeNode K I R E)
  extend (leaf cs) (leaves new_entries) = ok (leaf (cs ++ new_entries))
  extend (interior cs) (interiors new_entries) = ok (interior (cs ++ new_entries))
  extend _ _ = err panic

  -- `children.splice(0..0, new_entries)`
  unfoldable pub prepend : BTreeNode K I R E → Children K I R E → Result (BTreeNode K I R E)
  prepend (leaf cs) (leaves new_entries) = ok (leaf (new_entries ++ cs))
  prepend (interior cs) (interiors new_entries) = ok (interior (new_entries ++ cs))
  prepend _ _ = err panic

  -- `mem::take` of a removed child's entries.
  abbrev pub take_children : BTreeNode K I R E → Result (Children K I R E)
  take_children uninitialized = err panic
  take_children (leaf cs) = ok (leaves cs)
  take_children (interior cs) = ok (interiors cs)

  -- `splice((len + 1) / 2..)`: the lower and the upper half of a node.
  unfoldable pub halves : BTreeNode K I R E → Result (BTreeNode K I R E × BTreeNode K I R E)
  halves uninitialized = err panic
  halves (leaf cs) =
      let middle = (length cs + 1) / 2 in ok (leaf (take middle cs), leaf (drop middle cs))
  halves (interior cs) =
      let middle = (length cs + 1) / 2 in ok (interior (take middle cs), interior (drop middle cs))

  -- An interior's key and statistics, computed again from its entry.
  unfoldable pub refresh :
      Reducer I R → Option ℕ → BTreeEntry K I R E → Result (Interior K R (BTreeEntry K I R E))
  refresh reducer location e = do
    key ← max_key e
    stats ← stats reducer e
    ok (record { key = key; position = loaded location e; stats = stats })
