-- ===== src/Tree/Root.antt =====
-- nebari/src/tree/unversioned.rs, versioned.rs: the loop of `modify_id_root` around
-- `BTreeEntry::modify`, the order of a modification, and `dynamic_order`.
pub mod OneKey
use nebari.Common.{
  ℕ, zero, suc, ◌+◌, ◌-◌, ◌*◌, ◌%◌, ◌/◌, min, max, Bool, true, false, Option, none, some, List, [],
  ◌∷◌, length, ltb, if◌then◌else◌,
}
use nebari.Common.Ord.{Ord}
use nebari.Error.{Result, ok, err, panic, ◌>>=◌}
use nebari.Tree.Node.{
  BTreeEntry, leaf, Below, Entry, from_node, ChangeResult, unchanged, remove, absorb, changed,
  split, Reducer,
}
use nebari.Tree.Splice.{Order}
use nebari.Tree.Absorb.{Store, split_root}
use nebari.Tree.Modification.{Pending}
use nebari.Tree.Modify.Leaf.{Callbacks}
use nebari.Tree.Modify.Node.{Modified, modify}

-- A root entry with the depth that it has room for.
pub record Root (K I R : Type 0) : Type 0 where
  pub height : ℕ
  pub entry : Entry K I R height

abbrev pub default_max_order : ℕ
default_max_order = 1000

-- `dynamic_order`; `cube_root` is `(n as f64).cbrt() as usize`. The cube wraps at 64 bits, as in a
-- release build.
unfoldable pub dynamic_order : (ℕ → ℕ) → ℕ → Option ℕ → ℕ
dynamic_order cube_root number_of_records max_order =
    let limit : ℕ = elim max_order [ none ↦ default_max_order | some m ↦ m ] in
    if ltb (limit * limit * limit % 18446744073709551616) number_of_records
    then limit
    else min limit (max 4 (cube_root number_of_records))

-- What the loop of a root's modification leaves.
pub record RootModified (K V I R S : Type 0) : Type 0 where
  pub root : Root K I R
  pub pending : Pending K V I S
  pub state : S

module _ {K V I R S : Type 0} ⦃o : Ord K⦄ (store : Store K I R) (reducer : Reducer I R)
    (callbacks : Callbacks K V I S) (order : Order) where
  -- The match of `modify_id_root` on the root's change. The empty leaf needs no room below it.
  unfoldable pub settle_root : (h : ℕ) → Modified K V I R (Below K I R h) S → Result (Root K I R)
  settle_root h m = elim m.result [
    | remove ↦ ok (record { height = 0; entry = from_node (leaf []) })
    | split ↦ do entry ← split_root reducer m.entry; ok (record { height = suc h; entry = entry })
    | _ ↦ ok (record { height = h; entry = m.entry })
  ]

  -- `while !modification.keys.is_empty()`: each round takes a key.
  unfoldable pub root_loop : ℕ → Root K I R → Pending K V I S → S → Result (RootModified K V I R S)
  unfolding settle_root modify
  root_loop zero root pending s = err panic
  root_loop (suc fuel) root pending s = elim pending.keys [
    | [] ↦ ok (record { root = root; pending = pending; state = s })
    | key ∷ keys ↦ do
      m ← modify store reducer callbacks order root.height none pending root.entry s
      root' ← settle_root root.height m
      root_loop fuel root' m.pending m.state
  ]

-- The order of a modification: `minimum_children` is half of it less one.
unfoldable pub order_for : (ℕ → ℕ) → Option ℕ → ℕ → Result Order
unfolding dynamic_order
order_for cube_root max_order total_keys =
    let current_order = dynamic_order cube_root total_keys max_order in
    if ltb (current_order / 2) 1
    then err panic
    else ok (record {
      current_order = current_order;
      minimum_children = min (current_order / 2 - 1) total_keys;
    })
