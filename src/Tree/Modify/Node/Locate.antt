-- ===== src/Tree/Modify/Node/Locate.antt =====
-- The search of `modify_interior` for the child that a key belongs to.
use Prim.Native.Nat.{Ordering}
use nebari.Common.{
  ℕ, suc, ◌≤◌, List, [], ◌∷◌, ◌≡◌, ◌≢◌, refl, sym, subst, Bool, true, false, length, reverse_append,
  All, All-imp, arith, ◌⊎◌, inl, inr,
}
use nebari.Common.Ord.{Ord, ◌≺◌}
use nebari.Error.{Ensures, Ensures-ok, Ensures-imp}
use nebari.Tree.Node.{Interior}
use nebari.Tree.Spec.Sorted.{ordered}
use nebari.Tree.Modify.Node.{search_children, containing_node, cursor_at}

lt-cases : (r : Ordering) → (r ≡ Ordering.lt) ⊎ (r ≢ Ordering.lt)
lt-cases Ordering.lt = inl refl
lt-cases Ordering.eq = inr (λ e. cc)
lt-cases Ordering.gt = inr (λ e. cc)

module _ {K R E : Type 0} ⦃o : Ord K⦄ where
  abbrev pub KeysBelow : K → List (Interior K R E) → Type 0
  KeysBelow key cs = All (λ (c : Interior K R E). c.key ≺ key) cs

  -- The child in hand is the one that the key belongs to.
  abbrev pub Located :
      K
      → Bool
      → List (Interior K R E)
      → List (Interior K R E) × Interior K R E × List (Interior K R E)
      → Type 0
  Located key pushing_end cs r =
      (reverse_append r.0 (r.1 ∷ r.2) ≡ cs)
      × KeysBelow key r.0
      × (pushing_end ≡ true → r.2 ≡ [])
      × (pushing_end ≡ false → o.cmp r.1.key key ≢ Ordering.lt)

  search_bound : (key : K) (cs : List (Interior K R E)) → (search_children key cs).0 ≤ length cs
  unfolding search_children
  search_bound key [] = omega arith
  search_bound key (c ∷ cs) = ground (arith, search_bound key cs)

  containing_later :
      (key : K) (c d : Interior K R E) (cs : List (Interior K R E))
      → c.key ≺ key
      → let r = containing_node key (d ∷ cs) in containing_node key (c ∷ d ∷ cs) ≡ (suc r.0, r.1)
  unfolding containing_node
  containing_later key c d cs h = ground (arith, search_bound key (d ∷ cs))

  containing_last :
      (key : K) (c : Interior K R E) → c.key ≺ key → containing_node key (c ∷ []) ≡ (0, true)
  unfolding containing_node search_children
  containing_last key c h = ground arith

  containing_here :
      (key : K) (c : Interior K R E) (cs : List (Interior K R E))
      → o.cmp c.key key ≢ Ordering.lt
      → containing_node key (c ∷ cs) ≡ (0, false)
  unfolding containing_node search_children
  containing_here key c cs h = ground arith

  abbrev Handed : K → List (Interior K R E) → List (Interior K R E) → ℕ × Bool → Type 0
  Handed key before cs r =
      Ensures (Located key r.1 (reverse_append before cs)) (cursor_at r.0 before cs)

  here-Located :
      (key : K) (pushing_end : Bool) (before : List (Interior K R E)) (c : Interior K R E)
      (cs : List (Interior K R E))
      → KeysBelow key before
      → (pushing_end ≡ true → cs ≡ [])
      → (pushing_end ≡ false → o.cmp c.key key ≢ Ordering.lt)
      → Handed key before (c ∷ cs) (0, pushing_end)
  unfolding cursor_at
  here-Located key pushing_end before c cs h e n = Ensures-ok _ (refl, h, e, n)

  later-Located :
      (key : K) (before : List (Interior K R E)) (c : Interior K R E) (cs : List (Interior K R E))
      (r : ℕ × Bool)
      → Handed key (c ∷ before) cs r
      → Handed key before (c ∷ cs) (suc r.0, r.1)
  unfolding cursor_at
  later-Located key before c cs r h = h

  -- What holds however the children are ordered, for the search as it is written here.
  pub cursor-Located :
      (key : K) (before : List (Interior K R E)) (c : Interior K R E) (cs : List (Interior K R E))
      → KeysBelow key before
      → Ensures
          (Located key (containing_node key (c ∷ cs)).1 (reverse_append before (c ∷ cs)))
          (cursor_at (containing_node key (c ∷ cs)).0 before (c ∷ cs))
  cursor-Located key before c [] h = elim (lt-cases (o.cmp c.key key)) [
    | inl e ↦
        subst (Handed key before (c ∷ [])) (sym (containing_last key c e))
          (here-Located key true before c [] h (λ _. refl) (λ f. cc))
    | inr n ↦
        subst (Handed key before (c ∷ [])) (sym (containing_here key c [] n))
          (here-Located key false before c [] h (λ f. cc) (λ _. n))
  ]
  cursor-Located key before c (d ∷ cs) h = elim (lt-cases (o.cmp c.key key)) [
    | inl e ↦ subst (Handed key before (c ∷ d ∷ cs)) (sym (containing_later key c d cs e)) (
        later-Located key before c (d ∷ cs) (containing_node key (d ∷ cs))
          (cursor-Located key (c ∷ before) d cs (e, h)))
    | inr n ↦
        subst (Handed key before (c ∷ d ∷ cs)) (sym (containing_here key c (d ∷ cs) n))
          (here-Located key false before c (d ∷ cs) h (λ f. cc) (λ _. n))
  ]

  -- The keys of all children, in their order.
  abbrev pub KeysAbove : K → List (Interior K R E) → Type 0
  KeysAbove key cs = All (λ (c : Interior K R E). key ≺ c.key) cs

  abbrev pub AreSorted : List (Interior K R E) → Type 0
  AreSorted [] = Unit
  AreSorted (c ∷ cs) = KeysAbove c.key cs × AreSorted cs

  sorted_after :
      (before cs : List (Interior K R E)) → AreSorted (reverse_append before cs) → AreSorted cs
  sorted_after [] cs h = h
  sorted_after (b ∷ before) cs h = (sorted_after before (b ∷ cs) h).1

  keys_after_lem :
      (key : K) (pushing_end : Bool) (cs : List (Interior K R E))
      (r : List (Interior K R E) × Interior K R E × List (Interior K R E))
      → AreSorted cs
      → Located key pushing_end cs r
      → KeysAbove key r.2
  keys_after_lem key true cs r h l = subst (KeysAbove key) (sym (l.2 refl)) tt
  keys_after_lem key false cs r h l =
      All-imp r.2 (λ c a. ordered key r.1.key c.key (l.3 refl) a)
        (sorted_after r.0 (r.1 ∷ r.2) (subst AreSorted (sym l.0) h)).0

  -- If the keys of the children are sorted, and those of the children before the cursor are below the
  -- key, then the search followed by the step to the child it names, where this returns, hands over
  -- the list's children in their order, those before it with keys below the key, those after it with
  -- keys above, and either it is the last one, for a key above all, or its own key is not below the
  -- key.
  pub containing-Located :
      (key : K) (before : List (Interior K R E)) (c : Interior K R E) (cs : List (Interior K R E))
      → AreSorted (reverse_append before (c ∷ cs))
      → KeysBelow key before
      → Ensures
          (λ r.
            Located key (containing_node key (c ∷ cs)).1 (reverse_append before (c ∷ cs)) r
            × KeysAbove key r.2)
          (cursor_at (containing_node key (c ∷ cs)).0 before (c ∷ cs))
  containing-Located key before c cs sorted h =
      Ensures-imp _ (λ r l. (l, keys_after_lem key (containing_node key (c ∷ cs)).1 _ r sorted l))
        (cursor-Located key before c cs h)
