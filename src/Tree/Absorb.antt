-- ===== src/Tree/Absorb.antt =====
-- nebari/src/tree/btree_entry.rs: `BTreeEntry::absorb`, `split` and `split_root`, and the
-- rebalancing of a node at a given height with `absorb` put in.
pub mod Sound
use nebari.Common.{
  ℕ, zero, suc, ◌+◌, Bool, true, false, Option, none, some, List, [], ◌∷◌, ◌++◌, length, get_last?,
  if◌then◌else◌,
}
use nebari.Error.{Result, ok, err, panic, data_integrity, ◌>>=◌}
use nebari.Tree.Node.{
  KeyEntry, Pointer, on_disk, loaded, Interior, BTreeNode, uninitialized, leaf, interior,
  BTreeEntry, Below, Entry, ChangeResult, Children, leaves, interiors, Reducer, from_node, new,
  load,
}
use nebari.Tree.Splice.{Order, clean_up, get_mut, previous_location, halves}
use nebari.Tree.Balance.{Process, process_interior_change_result}

-- The nodes that the file holds: reading and decoding the chunk at a position. A pointer from a
-- node that has no room for children below it cannot be followed.
abbrev pub Store : Type 0 → Type 0 → Type 0 → Type 0
Store K I R = (h : ℕ) → ℕ → Result (Entry K I R h)

module _ {K I R : Type 0} where
  abbrev pub fetch_below : Store K I R → (h : ℕ) → ℕ → Result (Below K I R h)
  fetch_below store zero position = err data_integrity
  fetch_below store (suc h) position = store h position

module _ {K R E : Type 0} where
  -- `.last_mut().unwrap()` with the interiors before it
  abbrev pub split_last : List (Interior K R E) → Option (List (Interior K R E) × Interior K R E)
  split_last [] = none
  split_last (c ∷ []) = some ([], c)
  split_last (c ∷ d ∷ cs) = elim (split_last (d ∷ cs)) [
    | none ↦ none
    | some (front, l) ↦ some (c ∷ front, l)
  ]

  -- The sponge, an interior's first or last child, is loaded and takes the leaves.
  unfoldable pub pass_leaves :
      (ℕ → Result E)
      → (E → Result (ChangeResult × E))
      → Interior K R E
      → Result (ChangeResult × Interior K R E)
  pass_leaves fetch absorb_below c = do
    position ← load fetch c.position
    entry ← get_mut position
    (result, entry') ← absorb_below entry
    ok (result, record c { position = loaded (previous_location position) entry' })

module _ {K I R E : Type 0} where
  -- One node of `absorb`; `fetch` and `absorb_below` reach the entries below.
  unfoldable pub absorb_node :
      (ℕ → Result E)
      → (E → List (KeyEntry K I) → Bool → Result (ChangeResult × E))
      → Order
      → BTreeNode K I R E
      → Children K I R E
      → Bool
      → Result (ChangeResult × BTreeEntry K I R E)
  unfolding pass_leaves
  absorb_node fetch absorb_below order (leaf existing) (leaves ls) insert_at_top =
      let cs = if insert_at_top then existing ++ ls else ls ++ existing in
      ok (clean_up order (length cs), from_node (leaf cs))
  absorb_node fetch absorb_below order (interior existing) (interiors is) insert_at_top =
      let cs = if insert_at_top then existing ++ is else is ++ existing in
      ok (clean_up order (length cs), from_node (interior cs))
  absorb_node fetch absorb_below order (interior []) (leaves ls) insert_at_top = err panic
  absorb_node fetch absorb_below order (interior (c ∷ cs)) (leaves ls) false = do
    (result, c') ← pass_leaves fetch (λ e. absorb_below e ls false) c
    ok (result, from_node (interior (c' ∷ cs)))
  absorb_node fetch absorb_below order (interior (c ∷ cs)) (leaves ls) true =
      elim (split_last (c ∷ cs)) [
        | none ↦ err panic
        | some (front, l) ↦ do
          (result, l') ← pass_leaves fetch (λ e. absorb_below e ls true) l
          ok (result, from_node (interior (front ++ l' ∷ [])))
      ]
  absorb_node fetch absorb_below order _ _ insert_at_top = err panic

module _ {K I R : Type 0} (store : Store K I R) (order : Order) where
  -- `BTreeEntry::absorb`
  unfoldable pub absorb_entry :
      (h : ℕ)
      → Entry K I R h
      → Children K I R (Below K I R h)
      → Bool
      → Result (ChangeResult × Entry K I R h)
  unfolding absorb_node
  absorb_entry zero e children insert_at_top =
      absorb_node (fetch_below store zero) (λ b. absurd b) order e.node children insert_at_top
  absorb_entry (suc h) e children insert_at_top =
      absorb_node (store h) (λ b ls top. absorb_entry h b (leaves ls) top) order e.node children
        insert_at_top

module _ {K I R : Type 0} (store : Store K I R) (reducer : Reducer I R) (order : Order) where
  -- `process_interior_change_result` for the children of a node at height `suc h`.
  abbrev pub process_change : (h : ℕ) → ℕ → Process (store h) reducer order
  process_change h fuel =
      process_interior_change_result (store h) reducer order (absorb_entry store order h) fuel

module _ {K I R E : Type 0} where
  -- `BTreeEntry::split`
  unfoldable pub split_entry :
      Reducer I R
      → BTreeEntry K I R E
      → Result (Interior K R (BTreeEntry K I R E) × Interior K R (BTreeEntry K I R E))
  split_entry reducer e = do
    (lower, upper) ← halves e.node
    lower' ← new reducer (from_node lower)
    upper' ← new reducer (from_node upper)
    ok (lower', upper')

  -- `BTreeEntry::split_root`: the tree grows by a level.
  unfoldable pub split_root :
      Reducer I R → BTreeEntry K I R E → Result (BTreeEntry K I R (BTreeEntry K I R E))
  unfolding split_entry
  split_root reducer e = do
    (lower, upper) ← split_entry reducer e
    ok (from_node (interior (lower ∷ upper ∷ [])))
