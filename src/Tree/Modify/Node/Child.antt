-- ===== src/Tree/Modify/Node/Child.antt =====
-- Facts on the child that `modify` goes down to, and on the answer of an interior.
use Prim.Native.Nat.{Ordering}
use nebari.Common.{
  ℕ, Option, none, some, List, [], ◌∷◌, ◌≡◌, ◌≢◌, refl, Bool, true, false, length, concat_map, All,
  All-append, ◌⊎◌, inl, inr, arith,
}
use nebari.Common.Ord.{lt_of_gt, cmp_refl, Ord}
use nebari.Tree.Node.{
  Interior, BTreeNode, uninitialized, leaf, interior, ChangeResult, unchanged, remove, absorb,
  changed, split,
}
use nebari.Tree.Splice.{Order, clean_up}
use nebari.Tree.Contents.{Level, last_key, child_holds, ChildSound, node_holds}
use nebari.Tree.Absorb.Sound.{clean_up-ne-unchanged, clean_up-remove}
use nebari.Tree.Modify.Leaf.{is_beyond}
use nebari.Tree.Modify.Node.{bound_for}
use nebari.Tree.Modify.Node.Locate.{KeysBelow}
use nebari.Tree.Spec.{AllBelow, IsSorted}
use nebari.Tree.Spec.Sorted.{IsSorted-prefix, IsSorted-suffix, last_key-AllBelow}

module _ {K : Type 0} ⦃o : Ord K⦄ where
  -- A child's limit does not stop the key that the child was chosen for.
  pub bound_lem :
      (max_key : Option K) (key child_key : K) (pushing_end : Bool)
      → is_beyond max_key key ≡ false
      → (pushing_end ≡ false → o.cmp child_key key ≢ Ordering.lt)
      → is_beyond (some (bound_for pushing_end key child_key max_key)) key ≡ false
  unfolding bound_for is_beyond
  bound_lem max_key key child_key true h n = ground (arith, cmp_refl key)
  bound_lem none key child_key false h n = ground (arith, n refl, lt_of_gt key child_key)
  bound_lem (some max_key) key child_key false h n = ground (arith, n refl, lt_of_gt key child_key)

module _ {K I R E : Type 0} ⦃o : Ord K⦄ (level : Level K I E) where
  -- The entries of children whose keys lie below a key lie below it.
  pub children-AllBelow :
      (key : K) (cs : List (Interior K R E))
      → KeysBelow key cs
      → All (ChildSound level) cs
      → IsSorted (concat_map (child_holds level) cs)
      → AllBelow key (concat_map (child_holds level) cs)
  children-AllBelow key [] hk hs h = tt
  children-AllBelow key (c ∷ cs) hk hs h =
      All-append _ (child_holds level c) _
        (last_key-AllBelow (child_holds level c) c.key key hs.0.1 hk.0
          (IsSorted-prefix (child_holds level c) _ h))
        (children-AllBelow key cs hk.1 hs.1 (IsSorted-suffix (child_holds level c) _ h))

  -- An interior has a child for every key.
  abbrev pub HasRoom : BTreeNode K I R E → Type 0
  HasRoom (interior []) = ⊥
  HasRoom _ = Unit

  pub last_key-HasRoom :
      (n : BTreeNode K I R E) (k : K) → last_key (node_holds level n) ≡ some k → HasRoom n
  last_key-HasRoom uninitialized k e = tt
  last_key-HasRoom (leaf cs) k e = tt
  last_key-HasRoom (interior []) k e = cc
  last_key-HasRoom (interior (c ∷ cs)) k e = tt

pub unchanged-cases : (r : ChangeResult) → (r ≡ unchanged) ⊎ (r ≢ unchanged)
unchanged-cases unchanged = inl refl
unchanged-cases remove = inr (λ e. cc)
unchanged-cases absorb = inr (λ e. cc)
unchanged-cases changed = inr (λ e. cc)
unchanged-cases split = inr (λ e. cc)

-- The answer of an interior.
module _ (order : Order) where
  pub finish-unchanged :
      (result : ChangeResult) (n : ℕ)
      → (elim result [ changed ↦ clean_up order n | other ↦ other ]) ≡ unchanged
      → result ≡ unchanged
  finish-unchanged changed n e = absurd (clean_up-ne-unchanged order n e)
  finish-unchanged unchanged n e = e
  finish-unchanged remove n e = e
  finish-unchanged absorb n e = e
  finish-unchanged split n e = e

  pub finish-remove :
      {A : Type 0} (result : ChangeResult) (xs : List A)
      → (elim result [ changed ↦ clean_up order (length xs) | other ↦ other ]) ≡ remove
      → (result ≡ remove) ⊎ (xs ≡ [])
  finish-remove changed xs e = inr (clean_up-remove order xs e)
  finish-remove unchanged xs e = cc
  finish-remove remove xs e = inl refl
  finish-remove absorb xs e = cc
  finish-remove split xs e = cc
