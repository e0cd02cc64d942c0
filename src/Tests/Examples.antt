-- ===== src/Tests/Examples.antt =====
-- The theorems at concrete trees over numbers.
use nebari.Common.{ℕ, true, false, none, some, List, [], ◌∷◌, ◌++◌, ◌≡◌, refl, ◌⊎◌}
use nebari.Common.Ord.{nat_ord}
use nebari.Error.{ok, err, keys_not_ordered, Ensures}
use nebari.Tree.Node.{
  KeyEntry, loaded, Interior, leaf, interior, Entry, from_node, absorb, split, interiors, max_key,
}
use nebari.Tree.Contents.{holds, IsSound, level_of, last_key}
use nebari.Tree.Absorb.{absorb_entry, process_change, split_root}
use nebari.Tree.Absorb.Sound.{absorb_entry-Absorbed, process_change-Keeps, split_root_lem}
use nebari.Tree.Balance.{steal_children_from_start, steal_children_from_end, process_interior_split}
use nebari.Tree.Balance.Steal.{StolenFront, StolenBack, steal_from_start_lem, steal_from_end_lem}
use nebari.Tree.Balance.Process.{Keeps, process_interior_split_lem}
use nebari.Tree.Balance.Absorbing.{Absorbed}
use nebari.Tree.Splice.MaxKey.{max_key-last_key}
use nebari.Tree.Modification.{Modification, Operation, PersistenceMode, reverse}
use nebari.Tree.Modification.Ascending.{reverse_lem}
use nebari.Tree.Modify.Leaf.{is_beyond, modify_leaf}
use nebari.Tree.Modify.Leaf.OneKey.{Edited}
use nebari.Tree.Modify.Leaf.Runs.{LeafDone, modify_leaf_lem}
use nebari.Tree.Modify.Node.{modify, containing_node, cursor_at}
use nebari.Tree.Modify.Node.Locate.{Located, KeysAbove, containing-Located}
use nebari.Tree.Modify.OneKey.{modify-Edited}
use nebari.Tree.Root.{Root, root_loop}
use nebari.Tree.Root.OneKey.{RootEdited, root_loop-RootEdited}
use nebari.Tree.Spec.{IsSorted, IsAscending}
use nebari.Tree.Balance.{process_interior_change_result}
use nebari.Tree.Balance.Fuel.{process_change-fuel}
use native.Mathlib.Omega.{arith}
use nebari.Tree.Balance.Changed.{HasChanged, process_change-HasChanged}
use nebari.Tests.Tree.{counting, no_store, storing, order}

abbrev pub item : ℕ → KeyEntry ℕ ℕ
item key = record { key = key; index = 1 }

abbrev low : List (KeyEntry ℕ ℕ)
low = item 10 ∷ item 20 ∷ []

abbrev high : List (KeyEntry ℕ ℕ)
high = item 50 ∷ item 60 ∷ item 70 ∷ item 80 ∷ []

abbrev pub leaf_of : List (KeyEntry ℕ ℕ) → Entry ℕ ℕ ℕ 0
leaf_of xs = from_node (leaf xs)

abbrev pub child_of : ℕ → List (KeyEntry ℕ ℕ) → Interior ℕ ℕ (Entry ℕ ℕ ℕ 0)
child_of key xs = record { key = key; position = loaded none (leaf_of xs); stats = 0 }

abbrev two_leaves : Entry ℕ ℕ ℕ 1
two_leaves = from_node (interior (child_of 20 low ∷ child_of 80 high ∷ []))

abbrev two_level_root : Root ℕ ℕ ℕ
two_level_root = record { height = 1; entry = two_leaves }

abbrev crowded : List (KeyEntry ℕ ℕ)
crowded = item 30 ∷ item 31 ∷ item 32 ∷ item 33 ∷ item 34 ∷ []

entries-IsSorted : IsSorted (low ++ high)
entries-IsSorted = (
  (refl, (refl, (refl, (refl, (refl, tt))))),
  (
    (refl, (refl, (refl, (refl, tt)))),
    ((refl, (refl, (refl, tt))), ((refl, (refl, tt)), ((refl, tt), (tt, tt)))),
  ),
)

root_loop-RootEdited_example :
    Ensures (RootEdited no_store counting storing order 50 Operation.remove (low ++ high) tt) (
      root_loop no_store counting storing order 2 two_level_root
        (record { keys = 50 ∷ []; operation = Operation.remove })
        tt)
root_loop-RootEdited_example =
    root_loop-RootEdited no_store counting storing order two_level_root 50 Operation.remove tt
      (refl, ((refl, refl), ((refl, refl), tt))) tt entries-IsSorted

modify-Edited_example :
    Ensures (Edited storing (some 65) 65 (Operation.set 7) (level_of no_store 1) (low ++ high) tt) (
      modify no_store counting storing order 1
        (some 65)
        (record { keys = 65 ∷ []; operation = Operation.set 7 })
        two_leaves
        tt)
unfolding is_beyond
modify-Edited_example =
    modify-Edited no_store counting storing order 1 (some 65) 65 (Operation.set 7) two_leaves tt
      refl (refl, ((refl, refl), ((refl, refl), tt))) tt entries-IsSorted

process_change-Keeps_example :
    Ensures (Keeps (level_of no_store 0) (no_store 0) counting order (low ++ high)) (
      process_change no_store counting order 0 2 absorb
        (child_of 20 low ∷ [])
        (child_of 80 high)
        [])
process_change-Keeps_example =
    process_change-Keeps no_store counting order 0 2 absorb (child_of 20 low ∷ [])
      (child_of 80 high) [] ((refl, refl), tt) (refl, (λ e. (refl, refl)), (λ e. cc)) tt

modify_leaf_lem_example :
    Ensures
      (λ out.
        LeafDone storing (some 65) 4 (15 ∷ 65 ∷ 75 ∷ []) (Operation.set 7) high false tt out
        × IsSorted out.children)
      (modify_leaf storing 4
        (some 65)
        (record { keys = 15 ∷ 65 ∷ 75 ∷ []; operation = Operation.set 7 })
        high
        tt)
modify_leaf_lem_example =
    modify_leaf_lem storing 4 (some 65)
      (record { keys = 15 ∷ 65 ∷ 75 ∷ []; operation = Operation.set 7 }) high tt
      ((refl, (refl, tt)), ((refl, tt), (tt, tt)))
      ((refl, (refl, (refl, tt))), ((refl, (refl, tt)), ((refl, tt), (tt, tt))))

absorb_entry-Absorbed_example :
    Ensures
      (Absorbed (level_of no_store 1) true two_leaves (interiors (child_of 90 (item 90 ∷ []) ∷ [])))
      (absorb_entry no_store order 1 two_leaves (interiors (child_of 90 (item 90 ∷ []) ∷ [])) true)
absorb_entry-Absorbed_example =
    absorb_entry-Absorbed no_store order 1 two_leaves (interiors (child_of 90 (item 90 ∷ []) ∷ []))
      true (refl, ((refl, refl), ((refl, refl), tt))) (refl, ((refl, refl), tt))

split_root_lem_example :
    Ensures
      (λ r. (holds no_store 1 r ≡ high) × IsSound no_store 1 r)
      (split_root counting (leaf_of high))
split_root_lem_example = split_root_lem no_store counting order 0 (leaf_of high) refl

process_interior_split_lem_example :
    Ensures (Keeps (level_of no_store 0) (no_store 0) counting order (low ++ crowded)) (
      process_interior_split
        (no_store 0)
        counting
        order
        (child_of 20 low ∷ [])
        (child_of 34 crowded)
        [])
process_interior_split_lem_example =
    process_interior_split_lem (level_of no_store 0) (no_store 0) counting order
      (child_of 20 low ∷ []) (child_of 34 crowded) [] ((refl, refl), tt) refl tt

steal_from_start_lem_example :
    Ensures (StolenFront (level_of no_store 0) (no_store 0) counting order (low ++ crowded)) (
      steal_children_from_start (no_store 0) counting order (child_of 20 low) (child_of 34 crowded))
steal_from_start_lem_example =
    steal_from_start_lem (level_of no_store 0) (no_store 0) counting order (child_of 20 low)
      (child_of 34 crowded) (refl, refl) refl

steal_from_end_lem_example :
    Ensures
      (StolenBack (level_of no_store 0) (no_store 0) counting order (crowded ++ high))
      (steal_children_from_end (no_store 0) counting order (child_of 80 high) (child_of 34 crowded))
steal_from_end_lem_example =
    steal_from_end_lem (level_of no_store 0) (no_store 0) counting order (child_of 80 high)
      (child_of 34 crowded) (refl, refl) refl

process_change-HasChanged_example : Ensures (HasChanged (no_store 0) counting order) (
    process_change no_store counting order 0 2 split
      (child_of 20 low ∷ [])
      (child_of 34 crowded)
      [])
process_change-HasChanged_example =
    process_change-HasChanged (no_store 0) counting order (absorb_entry no_store order 0) 2 split
      (child_of 20 low ∷ []) (child_of 34 crowded) [] (λ e. cc)

max_key-last_key_example : Ensures (λ k. last_key (low ++ high) ≡ some k) (max_key two_leaves)
max_key-last_key_example =
    max_key-last_key (level_of no_store 1) two_leaves (refl, ((refl, refl), ((refl, refl), tt)))

containing-Located_example :
    Ensures
      (λ r.
        Located 90
          (containing_node 90 (child_of 20 low ∷ child_of 80 high ∷ [])).1
          (child_of 20 low ∷ child_of 80 high ∷ [])
          r
        × KeysAbove 90 r.2)
      (cursor_at
        (containing_node 90 (child_of 20 low ∷ child_of 80 high ∷ [])).0
        []
        (child_of 20 low ∷ child_of 80 high ∷ []))
containing-Located_example =
    containing-Located 90 [] (child_of 20 low) (child_of 80 high ∷ []) ((refl, tt), (tt, tt)) tt

process_change-fuel_example :
    process_interior_change_result
      (no_store 0)
      counting
      order
      (absorb_entry no_store order 0)
      2
      absorb
      (child_of 20 low ∷ [])
      (child_of 80 high)
      []
    ≡ process_interior_change_result
        (no_store 0)
        counting
        order
        (absorb_entry no_store order 0)
        9
        absorb
        (child_of 20 low ∷ [])
        (child_of 80 high)
        []
process_change-fuel_example =
    process_change-fuel (no_store 0) counting order (absorb_entry no_store order 0) 2 9 absorb
      (child_of 20 low ∷ []) (child_of 80 high) [] (omega arith) (omega arith)

abbrev two_keys : Modification ℕ ℕ ℕ (Unit {0})
two_keys = record {
  persistence_mode = PersistenceMode.sync;
  keys = 3 ∷ 8 ∷ [];
  operation = Operation.set 1;
}

reverse_lem_example :
    (IsAscending {K = ℕ} (3 ∷ 8 ∷ [])
      × (reverse two_keys ≡ ok (record { keys = 3 ∷ 8 ∷ []; operation = Operation.set 1 })))
    ⊎ ((¬ IsAscending {K = ℕ} (3 ∷ 8 ∷ [])) × (reverse two_keys ≡ err keys_not_ordered))
reverse_lem_example = reverse_lem two_keys
