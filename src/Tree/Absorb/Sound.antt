-- ===== src/Tree/Absorb/Sound.antt =====
-- `absorb` adds the given entries on the right side, and keeps the node sound; `split_root` keeps
-- the entries.
use nebari.Common.{
  ℕ, zero, suc, ◌≡◌, ◌≢◌, refl, ap, ap₂, ◌∙◌, List, [], ◌∷◌, ◌++◌, length, concat_map-append,
  append-nil, All, All-append, Bool, true, false, arith, concat_map,
}
use nebari.Error.{Result, ok, Ensures, Ensures-ok, Ensures-bind, Ensures-imp}
use nebari.Tree.Node.{
  KeyEntry, Interior, BTreeNode, leaf, interior, uninitialized, BTreeEntry, Below, Entry, Children,
  leaves, interiors, Reducer, from_node, ChangeResult, unchanged, remove,
}
use nebari.Tree.Splice.{Order, clean_up}
use nebari.Tree.Splice.Holds.{halves_lem}
use nebari.Tree.Splice.MaxKey.{new-Stands}
use nebari.Tree.Contents.{
  Level, child_holds, ChildSound, node_holds, NodeSound, children_hold, ChildrenSound, level_of,
  holds, IsSound,
}
use nebari.Tree.Balance.Process.{Keeps, whole}
use nebari.Tree.Balance.Absorbing.{Ready, Absorbed, process_change_lem, absorbed_entries}
use nebari.Tree.Absorb.{Store, absorb_node, absorb_entry, process_change, split_root, fetch_below}

pub clean_up-ne-unchanged : (order : Order) (n : ℕ) → clean_up order n ≢ unchanged
unfolding clean_up
clean_up-ne-unchanged order n = ground arith

pub clean_up-remove :
    {A : Type 0} (order : Order) (xs : List A) → clean_up order (length xs) ≡ remove → xs ≡ []
unfolding clean_up
clean_up-remove order [] h = refl
clean_up-remove order (x ∷ xs) h = absurd (ground arith)

module _ {K I R E : Type 0} (level : Level K I E) (order : Order) where
  -- The new node holds the entries, and its size decides the answer.
  abbrev Grown : List (KeyEntry K I) → ChangeResult × BTreeEntry K I R E → Type 0
  Grown entries r =
      (node_holds level r.1.node ≡ entries)
      × NodeSound level r.1.node
      × (r.0 ≢ unchanged)
      × (r.0 ≡ remove → node_holds level r.1.node ≡ [])

  leaf-Grown :
      (cs : List (KeyEntry K I))
      → level.bottom ≡ true
      → Ensures (Grown cs) (ok (clean_up order (length cs), from_node (leaf cs)))
  leaf-Grown cs b = Ensures-ok _ (refl, b, clean_up-ne-unchanged order _, clean_up-remove order cs)

  interior-Grown :
      (cs : List (Interior K R E))
      → level.bottom ≡ false
      → All (ChildSound level) cs
      → Ensures
          (Grown (concat_map (child_holds level) cs))
          (ok (clean_up order (length cs), from_node (interior cs)))
  interior-Grown cs b h = Ensures-ok _ (
    refl,
    (b, h),
    clean_up-ne-unchanged order _,
    λ e. ap (concat_map (child_holds level)) (clean_up-remove order cs e),
  )

  module _ (fetch : ℕ → Result E)
      (absorb_below : E → List (KeyEntry K I) → Bool → Result (ChangeResult × E)) where
    absorb_node_lem :
        (n : BTreeNode K I R E) (c : Children K I R E) (top : Bool)
        → NodeSound level n
        → ChildrenSound level c
        → Ensures
            (Grown (absorbed_entries top (node_holds level n) (children_hold level c)))
            (absorb_node fetch absorb_below order n c top)
    unfolding absorb_node
    absorb_node_lem uninitialized c top s u = elim s [ ]
    absorb_node_lem (leaf cs) (leaves ls) true s u = leaf-Grown (cs ++ ls) s
    absorb_node_lem (leaf cs) (leaves ls) false s u = leaf-Grown (ls ++ cs) s
    absorb_node_lem (leaf cs) (interiors is) top s u = cc
    absorb_node_lem (interior cs) (leaves ls) top s u = cc (s.0)
    absorb_node_lem (interior cs) (interiors is) true s u =
        Ensures-imp _ (λ r h. (h.0 ∙ concat_map-append (child_holds level) cs is, h.1, h.2, h.3))
          (interior-Grown (cs ++ is) s.0 (All-append _ cs is s.1 u.1))
    absorb_node_lem (interior cs) (interiors is) false s u =
        Ensures-imp _ (λ r h. (h.0 ∙ concat_map-append (child_holds level) is cs, h.1, h.2, h.3))
          (interior-Grown (is ++ cs) s.0 (All-append _ is cs u.1 s.1))

module _ {K I R : Type 0} (store : Store K I R) (order : Order) where
  -- If a sound node of height `h` absorbs sound children, at its top or at its bottom, and this
  -- returns, the node then holds its own entries and theirs in that order, is sound, is not reported
  -- as unchanged, and is reported for removal only if it holds nothing.
  pub absorb_entry-Absorbed :
      (h : ℕ) (e : Entry K I R h) (children : Children K I R (Below K I R h)) (top : Bool)
      → IsSound store h e
      → ChildrenSound (level_of store h) children
      → Ensures
          (Absorbed (level_of store h) top e children)
          (absorb_entry store order h e children top)
  unfolding absorb_entry
  absorb_entry-Absorbed zero e c top s u =
      absorb_node_lem (level_of store zero) order (fetch_below store zero) (λ b. absurd b) e.node c
        top s u
  absorb_entry-Absorbed (suc h) e c top s u =
      absorb_node_lem (level_of store (suc h)) order (store h)
        (λ b ls t. absorb_entry store order h b (leaves ls) t) e.node c top s u

module _ {K I R : Type 0} (store : Store K I R) (reducer : Reducer I R) (order : Order) where
  -- Rebalancing the children of an interior: if the children around the one in hand are sound, its
  -- own node is, it is as it was when the change is `Unchanged`, and it holds nothing when the change
  -- is `Remove`, then a rebalancing that returns leaves sound children, whose keys are the last keys
  -- below them, and that hold the same entries in the same order.
  pub process_change-Keeps :
      (h fuel : ℕ) (result : ChangeResult) (before : List (Interior K R (Entry K I R h)))
      (child : Interior K R (Entry K I R h)) (after : List (Interior K R (Entry K I R h)))
      → All (ChildSound (level_of store (suc h))) before
      → Ready (level_of store h) (store h) reducer order result child
      → All (ChildSound (level_of store (suc h))) after
      → Ensures
          (Keeps (level_of store h) (store h) reducer order (
            whole
              (level_of store h)
              (store h)
              reducer
              order
              before
              (child_holds (level_of store (suc h)) child)
              after))
          (process_change store reducer order h fuel result before child after)
  process_change-Keeps h fuel =
      process_change_lem (level_of store h) (store h) reducer order (absorb_entry store order h)
        (absorb_entry-Absorbed store order h) fuel

  -- If the root of a sound tree is split and this returns, the new root, a level higher, is sound
  -- and holds the same entries.
  pub split_root_lem :
      (h : ℕ) (e : Entry K I R h)
      → IsSound store h e
      → Ensures
          (λ r. (holds store (suc h) r ≡ holds store h e) × IsSound store (suc h) r)
          (split_root reducer e)
  unfolding split_root
  split_root_lem h e s =
      Ensures-bind _ _
        (Ensures-bind _ _ (halves_lem (level_of store h) e.node) λ cut hc.
          let parts = hc.1 s in
          Ensures-bind _ _
            (new-Stands (level_of store h) (store h) reducer (from_node cut.0) parts.0)
            λ lower hl.
              Ensures-bind _ _
                (new-Stands (level_of store h) (store h) reducer (from_node cut.1) parts.1)
                λ upper hu.
                  Ensures-ok
                    {P = λ r.
                      (concat_map (child_holds (level_of store (suc h))) (r.0 ∷ r.1 ∷ [])
                        ≡ holds store h e)
                      × All (ChildSound (level_of store (suc h))) (r.0 ∷ r.1 ∷ [])}
                    (lower, upper) (ap₂ ◌++◌ hl.0 (append-nil _ ∙ hu.0) ∙ hc.0, (hl.1, (hu.1, tt))))
        λ r hr. Ensures-ok _ (hr.0, (refl, hr.1))
