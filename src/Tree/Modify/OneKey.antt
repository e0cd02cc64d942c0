-- ===== src/Tree/Modify/OneKey.antt =====
-- `BTreeEntry::modify` for one key, at every height.
use nebari.Common.{ℕ, zero, suc, Option, [], ◌∷◌, ◌≡◌, ap, false, concat_map, inl, inr}
use nebari.Common.Ord.{Ord}
use nebari.Error.{panic, Ensures, Ensures-ok, Ensures-err, Ensures-bind}
use nebari.Tree.Node.{BTreeNode, uninitialized, leaf, interior, Below, Entry, Reducer}
use nebari.Tree.Splice.{Order}
use nebari.Tree.Contents.{child_holds, level_of, holds, IsSound, node_holds, NodeSound}
use nebari.Tree.Balance.Changed.{process_change-HasChanged}
use nebari.Tree.Absorb.{Store, absorb_entry, process_change}
use nebari.Tree.Absorb.Sound.{process_change-Keeps}
use nebari.Tree.Modification.{Operation}
use nebari.Tree.Modify.Leaf.{Callbacks, is_beyond}
use nebari.Tree.Modify.Leaf.OneKey.{Edited, modify_leaf_entry-Edited}
use nebari.Tree.Modify.Node.{modify}
use nebari.Tree.Modify.Node.Child.{HasRoom, finish-unchanged, finish-remove}
use nebari.Tree.Modify.Node.OneKey.{modify_interior-Done}
use nebari.Tree.Spec.{IsSorted}

module _ {K V I R S : Type 0} ⦃o : Ord K⦄ (store : Store K I R) (reducer : Reducer I R)
    (callbacks : Callbacks K V I S) (order : Order) where
  abbrev EditsOneKey : ℕ → K → Operation K V I S → Type 0
  EditsOneKey h key op =
      (max_key : Option K) (e : Entry K I R h) (s : S)
      → is_beyond max_key key ≡ false
      → IsSound store h e
      → HasRoom (level_of store h) e.node
      → IsSorted (holds store h e)
      → Ensures (Edited callbacks max_key key op (level_of store h) (holds store h e) s) (
          modify store reducer callbacks order h max_key
            (record { keys = key ∷ []; operation = op }) e s)

  -- Modifying one key in a sound tree whose entries are sorted, where the key is not beyond the limit
  -- and an interior at the top has a child: if `modify` returns, the key is taken from the
  -- modification, the callbacks are asked for it once, with what the sorted entries hold under it,
  -- and the tree holds those entries edited by their answer. It is sound again, `Unchanged` is
  -- answered only where it holds what it held, and `Remove` only where it holds nothing.
  pub modify-Edited :
      (h : ℕ) (max_key : Option K) (key : K) (op : Operation K V I S) (e : Entry K I R h) (s : S)
      → is_beyond max_key key ≡ false
      → IsSound store h e
      → HasRoom (level_of store h) e.node
      → IsSorted (holds store h e)
      → Ensures (Edited callbacks max_key key op (level_of store h) (holds store h e) s) (
          modify store reducer callbacks order h max_key
            (record { keys = key ∷ []; operation = op })
            e
            s)
  unfolding modify
  modify-Edited zero max_key key op e s hb hs hr h = go e.node hs
    where
      go :
          (n : BTreeNode K I R (Below K I R zero))
          → NodeSound (level_of store zero) n
          → Ensures
              (Edited callbacks max_key key op
                (level_of store zero)
                (node_holds (level_of store zero) n)
                s)
              (modify store reducer callbacks order zero max_key
                (record { keys = key ∷ []; operation = op })
                (record { dirty = e.dirty; node = n })
                s)
      go uninitialized k = Ensures-err panic
      go (leaf cs) k =
          modify_leaf_entry-Edited (level_of store zero) callbacks order max_key key op e.dirty cs s
            k hb
      go (interior cs) k = Ensures-err _
  modify-Edited (suc h) max_key key op e s hb hs hr hsort =
      go e.node hs hr hsort
        (λ mk e' s' b sound room sorted. modify-Edited h mk key op e' s' b sound room sorted)
    where
      go :
          (n : BTreeNode K I R (Below K I R (suc h)))
          → NodeSound (level_of store (suc h)) n
          → HasRoom (level_of store (suc h)) n
          → IsSorted (node_holds (level_of store (suc h)) n)
          → EditsOneKey h key op
          → Ensures
              (Edited callbacks max_key key op
                (level_of store (suc h))
                (node_holds (level_of store (suc h)) n)
                s)
              (modify store reducer callbacks order
                (suc h)
                max_key
                (record { keys = key ∷ []; operation = op })
                (record { dirty = e.dirty; node = n })
                s)
      go uninitialized k r t below = Ensures-err panic
      go (leaf cs) k r t below = cc
      go (interior []) k r t below = absurd r
      go (interior (c ∷ cs)) k r t below =
          Ensures-bind _ _
            (modify_interior-Done (level_of store h) (store h) reducer order callbacks key op
              (process_change store reducer order h) (modify store reducer callbacks order h)
              (process_change-Keeps store reducer order h)
              (process_change-HasChanged (store h) reducer order (absorb_entry store order h)) below
              max_key c cs s hb k.1 t)
            λ out ho. Ensures-ok _ (
              ho.0.0,
              (k.0, ho.0.1),
              (λ q. ho.0.2 (finish-unchanged order out.result _ q)),
              (λ q. elim (finish-remove order out.result out.children q) [
                | inl x ↦ ho.1 x
                | inr x ↦ ap (concat_map (child_holds (level_of store (suc h)))) x
              ]),
            )
