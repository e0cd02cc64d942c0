-- ===== src/Tests/Tree.antt =====
-- A small tree over numbers.
use nebari.Common.{ℕ, suc, none, some, List, [], ◌∷◌, length}
use nebari.Common.Ord.{nat_ord}
use nebari.Error.{Result, ok, err, data_integrity, ◌>>=◌}
use nebari.Tree.Node.{leaf, from_node, Reducer}
use nebari.Tree.Splice.{Order}
use nebari.Tree.Absorb.{Store}
use nebari.Tree.Modification.{KeyOperation, Operation}
use nebari.Tree.Modify.Leaf.{Callbacks}
use nebari.Tree.Root.{Root, root_loop}

abbrev pub counting : Reducer ℕ ℕ
counting = record { reduce = length; rereduce = λ xs. length xs }

abbrev pub no_store : Store ℕ ℕ ℕ
no_store h p = err data_integrity

abbrev pub storing : Callbacks ℕ ℕ ℕ (Unit {0})
storing = record {
  indexer = λ key value existing s.
      ok (elim value [ none ↦ KeyOperation.remove | some v ↦ KeyOperation.set v ], s);
  loader = λ index s. ok (some index, s);
}

abbrev pub order : Order
order = record { current_order = 4; minimum_children = 1 }

abbrev start : Root ℕ ℕ ℕ
start = record { height = 0; entry = from_node (leaf []) }

abbrev run : Root ℕ ℕ ℕ → List ℕ → Operation ℕ ℕ ℕ (Unit {0}) → Result (Root ℕ ℕ ℕ)
run r ks op = do
  m ←
      root_loop no_store counting storing order (suc (length ks)) r
        (record { keys = ks; operation = op }) tt
  ok m.root

first : Result (Root ℕ ℕ ℕ)
unfolding root_loop
first = do
  r ←
      run start (10 ∷ 20 ∷ 30 ∷ 40 ∷ 50 ∷ 60 ∷ 70 ∷ 80 ∷ 90 ∷ 100 ∷ 110 ∷ 120 ∷ 130 ∷ [])
        (Operation.set 1)
  run r (25 ∷ 26 ∷ 27 ∷ 95 ∷ []) (Operation.set 2)

second : Result (Root ℕ ℕ ℕ)
unfolding first root_loop
second = do r ← first; run r (10 ∷ 20 ∷ 25 ∷ 26 ∷ 27 ∷ 30 ∷ 100 ∷ []) Operation.remove
