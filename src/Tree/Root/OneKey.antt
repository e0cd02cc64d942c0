-- ===== src/Tree/Root/OneKey.antt =====
-- One key through the root: the loop settles the root's change, and the tree stays sound and sorted.
use nebari.Common.{ℕ, none, List, [], ◌∷◌, ◌≡◌, refl, sym, subst}
use nebari.Common.Ord.{Ord}
use nebari.Error.{Ensures, Ensures-ok, Ensures-bind}
use nebari.Tree.Node.{
  KeyEntry, Below, ChangeResult, unchanged, remove, absorb, changed, split, Reducer,
}
use nebari.Tree.Splice.{Order}
use nebari.Tree.Contents.{level_of, holds, IsSound, node_holds, NodeSound}
use nebari.Tree.Absorb.{Store}
use nebari.Tree.Absorb.Sound.{split_root_lem}
use nebari.Tree.Modification.{Operation, Pending}
use nebari.Tree.Modify.Leaf.{Callbacks, is_beyond}
use nebari.Tree.Modify.Leaf.OneKey.{OneEdit}
use nebari.Tree.Modify.Node.{Modified}
use nebari.Tree.Modify.Node.Child.{HasRoom}
use nebari.Tree.Modify.OneKey.{modify-Edited}
use nebari.Tree.Root.{Root, RootModified, settle_root, root_loop}
use nebari.Tree.Spec.{IsSorted}
use nebari.Tree.Spec.Runs.{Ran-IsSorted}

module _ {K V I R S : Type 0} ⦃o : Ord K⦄ (store : Store K I R) (reducer : Reducer I R)
    (callbacks : Callbacks K V I S) (order : Order) where
  -- The root holds these entries and is sound.
  abbrev Settled : List (KeyEntry K I) → Root K I R → Type 0
  Settled entries root =
      (holds store root.height root.entry ≡ entries) × IsSound store root.height root.entry

  settle_root-Settled :
      (h : ℕ) (m : Modified K V I R (Below K I R h) S)
      → NodeSound (level_of store h) m.entry.node
      → (m.result ≡ remove → node_holds (level_of store h) m.entry.node ≡ [])
      → Ensures
          (Settled (node_holds (level_of store h) m.entry.node))
          (settle_root store reducer callbacks order h m)
  unfolding settle_root
  settle_root-Settled h m hs hr = go m.result hr
    where
      go :
          (r : ChangeResult)
          → (r ≡ remove → node_holds (level_of store h) m.entry.node ≡ [])
          → Ensures
              (Settled (node_holds (level_of store h) m.entry.node))
              (settle_root store reducer callbacks order h (record m { result = r }))
      go remove k = Ensures-ok _ (sym (k refl), refl)
      go split k =
          Ensures-bind _ _ (split_root_lem store reducer order h m.entry hs) λ e he. Ensures-ok _ he
      go unchanged k = Ensures-ok _ (refl, hs)
      go absorb k = Ensures-ok _ (refl, hs)
      go changed k = Ensures-ok _ (refl, hs)

  abbrev pub RootEdited :
      K → Operation K V I S → List (KeyEntry K I) → S → RootModified K V I R S → Type 0
  RootEdited key op entries s r =
      OneEdit callbacks none key op entries s r.pending (holds store r.root.height r.root.entry)
        r.state
      × IsSound store r.root.height r.root.entry
      × IsSorted (holds store r.root.height r.root.entry)

  no_key_left :
      (entries : List (KeyEntry K I)) (key : K) (op : Operation K V I S) (root : Root K I R)
      (pending : Pending K V I S) (s s' : S)
      → OneEdit callbacks none key op entries s pending (holds store root.height root.entry) s'
      → IsSound store root.height root.entry
      → IsSorted entries
      → Ensures
          (RootEdited key op entries s)
          (root_loop store reducer callbacks order 1 root pending s')
  unfolding root_loop
  no_key_left entries key op root pending s s' h hs hsort = go pending.keys h
    where
      go :
          (keys : List K)
          → OneEdit callbacks none key op entries s
              (record { keys = keys; operation = pending.operation })
              (holds store root.height root.entry)
              s'
          → Ensures (RootEdited key op entries s) (
              root_loop store reducer callbacks order 1 root
                (record { keys = keys; operation = pending.operation })
                s')
      go [] k = Ensures-ok _ (k, hs, Ran-IsSorted k.1 hsort)
      go (j ∷ ks) k = cc (k.0)

  -- Modifying one key of a tree: if its root is sound, its entries are sorted and an interior root
  -- has a child, then a modification that returns has taken the key, has edited the entries as the
  -- callbacks decided for it, and leaves a sound root, after a split or a removal too, with sorted
  -- entries.
  pub root_loop-RootEdited :
      (root : Root K I R) (key : K) (op : Operation K V I S) (s : S)
      → IsSound store root.height root.entry
      → HasRoom (level_of store root.height) root.entry.node
      → IsSorted (holds store root.height root.entry)
      → Ensures (RootEdited key op (holds store root.height root.entry) s) (
          root_loop store reducer callbacks order 2 root
            (record { keys = key ∷ []; operation = op })
            s)
  unfolding root_loop is_beyond
  root_loop-RootEdited root key op s hs hr hsort =
      Ensures-bind _ _
        (modify-Edited store reducer callbacks order root.height none key op root.entry s refl hs hr
          hsort)
        λ m hm. Ensures-bind _ _ (settle_root-Settled root.height m hm.1 hm.3) λ root' hroot.
          no_key_left (holds store root.height root.entry) key op root' m.pending s m.state
            (subst
              (λ t.
                OneEdit callbacks none key op (holds store root.height root.entry) s m.pending t
                  m.state)
              (sym hroot.0) hm.0)
            hroot.1 hsort
