-- ===== src/Tests/Batch.antt =====
-- nebari/src/tree/btree_entry.rs: a batch of two keys over leaves that are all too small. The first
-- key makes three children be absorbed, the loop of `modify_interior` backs up by one, and the second
-- key is put behind a greater one.
use nebari.Common.{ℕ, List, [], ◌∷◌, ◌≡◌, refl, map}
use nebari.Common.Ord.{nat_ord}
use nebari.Error.{Result, ok, ◌>>=◌}
use nebari.Tree.Node.{KeyEntry, Interior, Entry, interior, from_node, load, max_key, stats}
use nebari.Tree.Splice.{Order, clean_up, refresh}
use nebari.Tree.Contents.{holds}
use nebari.Tree.Balance.{process_interior_change_result}
use nebari.Tree.Absorb.{absorb_entry}
use nebari.Tree.Modification.{Operation}
use nebari.Tree.Root.{Root, root_loop}
use nebari.Tests.Tree.{counting, no_store, storing}
use nebari.Tests.Examples.{item, child_of}

abbrev single : ℕ → Interior ℕ ℕ (Entry ℕ ℕ ℕ 0)
single k = child_of k (item k ∷ [])

abbrev wide : Order
wide = record { current_order = 10; minimum_children = 4 }

abbrev six_leaves : Root ℕ ℕ ℕ
six_leaves = record {
  height = 1;
  entry = from_node (interior (map single (10 ∷ 20 ∷ 30 ∷ 40 ∷ 50 ∷ 60 ∷ [])));
}

unfoldable batch : List ℕ → Result (List ℕ)
unfolding root_loop
batch keys = do
  m ←
      root_loop no_store counting storing wide 3 six_leaves
        (record { keys = keys; operation = Operation.set 7 }) tt
  ok (map (λ (e : KeyEntry ℕ ℕ). e.key) (holds no_store m.root.height m.root.entry))

-- Alone, the keys are put where they belong.
batch_alone : batch (45 ∷ []) ≡ ok (10 ∷ 20 ∷ 30 ∷ 40 ∷ 45 ∷ 50 ∷ 60 ∷ [])
unfolding batch load process_interior_change_result clean_up absorb_entry refresh max_key stats
batch_alone = refl

batch_unsorted : batch (40 ∷ 45 ∷ []) ≡ ok (10 ∷ 20 ∷ 30 ∷ 40 ∷ 50 ∷ 45 ∷ 60 ∷ [])
unfolding batch load process_interior_change_result clean_up absorb_entry refresh max_key stats
batch_unsorted = refl
