-- ===== src/Tree/Modify/Node/OneKey.antt =====
-- `modify` for one key: the key belongs to one child of each interior on the way, and the entries
-- below are edited as the specification edits a list.
use Prim.Native.Nat.{Ordering}
use nebari.Common.{
  ℕ, ◌+◌, Option, List, [], ◌∷◌, ◌++◌, ◌≡◌, ◌≢◌, refl, ap, sym, subst, ◌∙◌, Bool, true, false,
  length, leb, reverse_append, concat_map, All, All-reverse_append, All-unreverse, inl, inr, arith,
}
use nebari.Common.Ord.{Ord}
use nebari.Error.{
  Result, ok, err, panic, Ensures, Ensures-ok, Ensures-err, Ensures-bind, Ensures-imp, Ensures-if,
  Ensures-and, Ensures-self,
}
use nebari.Tree.Node.{
  KeyEntry, Interior, loaded, BTreeEntry, ChangeResult, unchanged, remove, absorb, changed, split,
  Reducer,
}
use nebari.Tree.Splice.{Order, previous_location}
use nebari.Tree.Splice.MaxKey.{load_lem, get_mut_lem}
use nebari.Tree.Contents.{Level, last_key, child_holds, ChildSound, node_holds, NodeSound, above}
use nebari.Tree.Balance.{Outcome, Process}
use nebari.Tree.Balance.Process.{whole, hold-around}
use nebari.Tree.Balance.Absorbing.{ProcessSound}
use nebari.Tree.Balance.Changed.{HasChanged}
use nebari.Tree.Modification.{Operation, Pending}
use nebari.Tree.Modify.Leaf.{Callbacks, is_beyond}
use nebari.Tree.Modify.Leaf.OneKey.{OneEdit, Edited}
use nebari.Tree.Modify.Node.{
  Modified, InteriorOutcome, containing_node, cursor_at, interior_round, interior_loop,
  modify_interior,
}
use nebari.Tree.Modify.Node.Locate.{KeysBelow, Located, cursor-Located}
use nebari.Tree.Spec.{AllBelow, AllAbove, IsSorted}
use nebari.Tree.Spec.Runs.{Ran-within}
use nebari.Tree.Spec.Sorted.{IsSorted-prefix, IsSorted-suffix, last_key-AllAbove, above_of}
use nebari.Tree.Modify.Node.Child.{
  bound_lem, children-AllBelow, HasRoom, last_key-HasRoom, unchanged-cases,
}

-- One level of the tree: `process` and `modify_child` are right for the children.
module _ {K V I R E S : Type 0} ⦃o : Ord K⦄ (level : Level K I E)
    (fetch : ℕ → Result (BTreeEntry K I R E)) (reducer : Reducer I R) (order : Order)
    (callbacks : Callbacks K V I S) (key : K) (op : Operation K V I S)
    (process : ℕ → Process fetch reducer order)
    (modify_child : Option K
      → Pending K V I S
      → BTreeEntry K I R E
      → S
      → Result (Modified K V I R E S))
    (process_sound : (n : ℕ) → ProcessSound level fetch reducer order (process n))
    (process_changed : (n : ℕ) (result : ChangeResult)
        (before : List (Interior K R (BTreeEntry K I R E)))
        (child : Interior K R (BTreeEntry K I R E))
        (after : List (Interior K R (BTreeEntry K I R E)))
      → result ≢ unchanged
      → Ensures (HasChanged fetch reducer order) (process n result before child after))
    (modify_child_edited : (max_key : Option K) (e : BTreeEntry K I R E) (s : S)
      → is_beyond max_key key ≡ false
      → NodeSound level e.node
      → HasRoom level e.node
      → IsSorted (node_holds level e.node)
      → Ensures
          (Edited callbacks max_key key op level (node_holds level e.node) s)
          (modify_child max_key (record { keys = key ∷ []; operation = op }) e s)) where
  abbrev Child : Type 0
  Child = Interior K R (BTreeEntry K I R E)

  abbrev hold : Child → List (KeyEntry K I)
  hold c = child_holds (above level fetch) c

  abbrev hold_all : List Child → List (KeyEntry K I)
  hold_all cs = concat_map (child_holds (above level fetch)) cs

  abbrev AllSound : List Child → Type 0
  AllSound cs = All (ChildSound (above level fetch)) cs

  abbrev one : Pending K V I S
  one = record { keys = key ∷ []; operation = op }

  -- The children have been edited, and are sound.
  abbrev RoundDone :
      Option K → List (KeyEntry K I) → S → InteriorOutcome K V I R (BTreeEntry K I R E) S → Type 0
  RoundDone max_key entries s out =
      OneEdit callbacks max_key key op entries s out.pending (hold_all out.children) out.state
      × AllSound out.children
      × (out.result ≡ unchanged → hold_all out.children ≡ entries)

  -- What stands around the child in hand is on the two sides of the key.
  sides_lem :
      (pushing_end : Bool) (before : List Child) (child : Child) (after : List Child)
      → AllSound before
      → ChildSound (above level fetch) child
      → KeysBelow key before
      → (pushing_end ≡ true → after ≡ [])
      → (pushing_end ≡ false → o.cmp child.key key ≢ Ordering.lt)
      → IsSorted (whole level fetch reducer order before (hold child) after)
      → AllBelow key (hold_all (reverse_append before [])) × AllAbove key (hold_all after)
  sides_lem pushing_end before child after hb hc hk he hn h = (
    children-AllBelow (above level fetch) key (reverse_append before [])
        (All-reverse_append _ before [] hk tt) (All-reverse_append _ before [] hb tt)
        (IsSorted-prefix (hold_all (reverse_append before [])) _ h),
    go pushing_end he hn,
  )
    where
      go :
          (b : Bool)
          → (b ≡ true → after ≡ [])
          → (b ≡ false → o.cmp child.key key ≢ Ordering.lt)
          → AllAbove key (hold_all after)
      go true e n = subst (λ t. AllAbove key (hold_all t)) (sym (e refl)) tt
      go false e n = above_of key child.key (hold_all after) (n refl) (
          last_key-AllAbove (hold child) (hold_all after) child.key hc.1
            (IsSorted-suffix (hold_all (reverse_append before [])) _ h))

  from_zero : (n : ℕ) → n ≡ 0 + n
  from_zero n = omega arith

  -- What the child in hand went through, its neighbours went through with it.
  ran_around :
      (max_key limit : Option K) (front back entries' : List (KeyEntry K I))
      (entries : List (KeyEntry K I)) (s : S) (pending' : Pending K V I S) (s' : S)
      → AllBelow key front × AllAbove key back
      → is_beyond max_key key ≡ false
      → OneEdit callbacks limit key op entries s pending' entries' s'
      → OneEdit callbacks max_key key op
          (front ++ (entries ++ back))
          s
          pending'
          (front ++ (entries' ++ back))
          s'
  ran_around max_key limit front back entries' entries s pending' s' sides hb h = (
    h.0,
    Ran-within front back (λ k. is_beyond max_key k ≡ false) h.1
        ((λ p. (sides.0, sides.1, hb)), tt),
  )

  tell_changed :
      (n : ℕ) (result : ChangeResult) (before : List Child) (child : Child) (after : List Child)
      → Ensures
          (λ (o : Outcome K R (BTreeEntry K I R E)). o.result ≡ unchanged → result ≡ unchanged)
          (process n result before child after)
  tell_changed n result before child after = elim (unchanged-cases result) [
    | inl e ↦ Ensures-self _ (λ a x y. e)
    | inr d ↦ Ensures-imp _ (λ a x y. absurd (x y)) (process_changed n result before child after d)
  ]

  round_lem :
      (max_key : Option K) (c : Child) (cs : List Child) (s : S)
      → is_beyond max_key key ≡ false
      → AllSound (c ∷ cs)
      → IsSorted (hold_all (c ∷ cs))
      → Ensures
          (λ r. RoundDone max_key (hold_all (c ∷ cs)) s r.0)
          (interior_round fetch process modify_child max_key key 0 (c ∷ cs) one s)
  unfolding interior_round
  round_lem max_key c cs s hb hs h =
      let chosen = containing_node key (c ∷ cs) in
      Ensures-bind _ _
        (subst (λ n. Ensures (Located key chosen.1 (c ∷ cs)) (cursor_at n [] (c ∷ cs)))
          (from_zero chosen.0) (cursor-Located key [] c cs tt))
        λ r located.
          let sounds =
            All-unreverse _ r.0 (r.1 ∷ r.2) (subst (λ t. AllSound t) (sym located.0) hs) in
          let same : whole level fetch reducer order r.0 (hold r.1) r.2 ≡ hold_all (c ∷ cs) =
            sym (hold-around level fetch reducer order r.0 (r.1 ∷ r.2)) ∙ ap hold_all located.0 in
          let sorted = subst (λ t. IsSorted t) (sym same) h in
          let sides =
            sides_lem chosen.1 r.0 r.1 r.2 sounds.0 sounds.1.0 located.1 located.2 located.3
              sorted in
          let limit = bound_lem max_key key r.1.key chosen.1 hb located.3 in
          Ensures-bind _ _ (load_lem (above level fetch) r.1.position sounds.1.0.0) λ position hpos.
            Ensures-bind _ _ (get_mut_lem (above level fetch) position hpos.1) λ entry he.
              let held : node_holds level entry.node ≡ hold r.1 = he.0 ∙ hpos.0 in
              let entry_sorted =
                IsSorted-prefix (hold r.1) (hold_all r.2)
                  (IsSorted-suffix (hold_all (reverse_append r.0 [])) _ sorted) in
              Ensures-bind _ _
                (modify_child_edited _ entry s limit he.1
                  (last_key-HasRoom level entry.node r.1.key (ap last_key held ∙ sounds.1.0.1))
                  (subst (λ t. IsSorted t) (sym held) entry_sorted))
                λ m hm.
                  let child' : Child = record r.1 {
                    position = loaded (previous_location position) m.entry;
                  } in
                  Ensures-bind _ _
                    (Ensures-and _
                      (process_sound (length (c ∷ cs)) m.result r.0 child' r.2 sounds.0
                        (hm.1, (λ e. (hm.1, ap last_key (hm.2 e ∙ held) ∙ sounds.1.0.1)), hm.3)
                        sounds.1.1)
                      (tell_changed (length (c ∷ cs)) m.result r.0 child' r.2))
                    λ out ho.
                      let front = hold_all (reverse_append r.0 []) in
                      let back = hold_all r.2 in
                      let around =
                        ran_around max_key _ front back (node_holds level m.entry.node)
                          (node_holds level entry.node) s m.pending m.state sides hb hm.0 in
                      let start : front ++ (node_holds level entry.node ++ back)
                          ≡ hold_all (c ∷ cs) =
                        ap (λ t. front ++ (t ++ back)) held ∙ same in
                      Ensures-ok _ (
                        subst
                            (λ t.
                              OneEdit callbacks max_key key op t s m.pending (hold_all out.children)
                                m.state)
                            start
                            (subst
                              (λ t.
                                OneEdit callbacks max_key key op
                                  (front ++ (node_holds level entry.node ++ back)) s m.pending t
                                  m.state)
                              (sym ho.0.0) around),
                        ho.0.1,
                        (λ e. ho.0.0 ∙ ap (λ t. front ++ (t ++ back)) (hm.2 (ho.1 e)) ∙ start),
                      )

  abbrev Done :
      List (KeyEntry K I) → Option K → S → InteriorOutcome K V I R (BTreeEntry K I R E) S → Type 0
  Done entries max_key s out =
      RoundDone max_key entries s out × (out.result ≡ remove → hold_all out.children ≡ [])

  -- With no key left the loop ends.
  loop_end :
      (max_key : Option K) (entries : List (KeyEntry K I)) (index : ℕ) (children : List Child)
      (any_changes : Bool) (pending : Pending K V I S) (s s' : S)
      → OneEdit callbacks max_key key op entries s pending (hold_all children) s'
      → AllSound children
      → (any_changes ≡ false → hold_all children ≡ entries)
      → Ensures
          (Done entries max_key s)
          (interior_loop fetch process modify_child max_key 1 index children any_changes pending s')
  unfolding interior_loop
  loop_end max_key entries index children any_changes pending s s' h hs hu =
      go pending.keys any_changes h hu
    where
      go :
          (keys : List K) (any : Bool)
          → OneEdit callbacks max_key key op entries s
              (record { keys = keys; operation = pending.operation })
              (hold_all children)
              s'
          → (any ≡ false → hold_all children ≡ entries)
          → Ensures (Done entries max_key s) (
              interior_loop fetch process modify_child max_key 1 index children any
                (record { keys = keys; operation = pending.operation })
                s')
      go [] true e u = Ensures-ok _ ((e, hs, (λ f. cc)), (λ f. cc))
      go [] false e u = Ensures-ok _ ((e, hs, (λ f. u refl)), (λ f. cc))
      go (k ∷ ks) any e u = cc (e.0)

  pub modify_interior-Done :
      (max_key : Option K) (c : Child) (cs : List Child) (s : S)
      → is_beyond max_key key ≡ false
      → AllSound (c ∷ cs)
      → IsSorted (hold_all (c ∷ cs))
      → Ensures
          (Done (hold_all (c ∷ cs)) max_key s)
          (modify_interior fetch process modify_child max_key (c ∷ cs) one s)
  unfolding modify_interior interior_loop
  modify_interior-Done max_key c cs s hb hs h =
      Ensures-if (leb (length (c ∷ cs)) 0) _ _ (λ e. absurd (ground (arith, e)))
        (λ _.
          Ensures-if (is_beyond max_key key) _ _ (λ e. cc)
            (λ _.
              Ensures-bind _ _ (round_lem max_key c cs s hb hs h)
                λ r hr. go r.1 r.0 r.0.result refl hr))
    where
      entries : List (KeyEntry K I)
      entries = hold_all (c ∷ cs)

      go :
          (index : ℕ) (out : InteriorOutcome K V I R (BTreeEntry K I R E) S) (r : ChangeResult)
          → out.result ≡ r
          → RoundDone max_key entries s out
          → Ensures (Done entries max_key s) (elim r [
            | unchanged ↦
                interior_loop fetch process modify_child max_key 1 index out.children false
                  out.pending out.state
            | split ↦ err panic
            | absorb ↦ ok out
            | remove ↦
                interior_loop fetch process modify_child max_key 1 index out.children true
                  out.pending out.state
            | changed ↦
                interior_loop fetch process modify_child max_key 1 index out.children true
                  out.pending out.state
          ])
      go index out unchanged q e =
          loop_end max_key entries index out.children false out.pending s out.state e.0 e.1
            (λ _. e.2 q)
      go index out split q e = Ensures-err panic
      go index out absorb q e = Ensures-ok _ (e, (λ f. cc (q, f)))
      go index out remove q e =
          loop_end max_key entries index out.children true out.pending s out.state e.0 e.1 (λ f. cc)
      go index out changed q e =
          loop_end max_key entries index out.children true out.pending s out.state e.0 e.1 (λ f. cc)
