-- ===== src/Tree/Balance/Steal.antt =====
-- A node that steals from a neighbour moves entries over the border between them, and both stay
-- sound.
use nebari.Common.{
  ℕ, ◌≡◌, ap, ap₂, sym, ◌∙◌, Option, none, some, List, ◌++◌, ltb, Bool-cases, inl, inr,
  append_assoc,
}
use nebari.Error.{Result, ok, Ensures, Ensures-ok, Ensures-bind, Ensures-self, Ensures-imp}
use nebari.Tree.Node.{KeyEntry, Interior, BTreeEntry, Reducer, count, changed}
use nebari.Tree.Splice.{Order, set_node}
use nebari.Tree.Splice.Holds.{splice_start-CutFront, splice_end-CutBack, extend_lem, prepend_lem}
use nebari.Tree.Splice.MaxKey.{refresh-Stands, load_lem, get_mut_lem}
use nebari.Tree.Contents.{
  Level, child_holds, ChildSound, node_holds, NodeSound, above, last_key, PointerSound,
}
use nebari.Tree.Balance.{
  Stolen, if_free, finish_steal, steal_children_from_start, steal_children_from_end,
}

module _ {κ} {A : Type 0} {P : A → Type κ} where
  Ensures-if_free :
      (free_space : Option ℕ) (kept : A) (steal : ℕ → Result A)
      → Ensures P (ok kept)
      → ((n : ℕ) → Ensures P (steal n))
      → Ensures P (if_free free_space kept steal)
  unfolding if_free
  Ensures-if_free none kept steal hk hs = hk
  Ensures-if_free (some n) kept steal hk hs = elim (Bool-cases (ltb 0 n)) [
    | inl e ↦ rw e (hs n)
    | inr e ↦ rw e hk
  ]

module _ {K I R E : Type 0} (level : Level K I E) (fetch : ℕ → Result (BTreeEntry K I R E))
    (reducer : Reducer I R) (order : Order) where
  abbrev Here : Type 0
  Here = Interior K R (BTreeEntry K I R E)

  abbrev hold : Here → List (KeyEntry K I)
  hold c = child_holds (above level fetch) c

  abbrev SoundHere : Here → Type 0
  SoundHere c = ChildSound (above level fetch) c

  -- The neighbour stands before the child, and together they hold the entries.
  abbrev pub StolenFront : List (KeyEntry K I) → Stolen K R (BTreeEntry K I R E) → Type 0
  StolenFront entries s =
      (child_holds (above level fetch) s.neighbour ++ child_holds (above level fetch) s.child
        ≡ entries)
      × ChildSound (above level fetch) s.neighbour
      × PointerSound (above level fetch) s.child.position
      × (s.result ≡ changed → ChildSound (above level fetch) s.child)

  abbrev pub StolenBack : List (KeyEntry K I) → Stolen K R (BTreeEntry K I R E) → Type 0
  StolenBack entries s =
      (child_holds (above level fetch) s.child ++ child_holds (above level fetch) s.neighbour
        ≡ entries)
      × ChildSound (above level fetch) s.neighbour
      × PointerSound (above level fetch) s.child.position
      × (s.result ≡ changed → ChildSound (above level fetch) s.child)

  -- Both interiors stand for their new nodes.
  finish_steal_lem :
      (neighbour child : Here) (n c : BTreeEntry K I R E)
      → NodeSound level n.node
      → NodeSound level c.node
      → Ensures
          (λ s.
            (hold s.neighbour ≡ node_holds level n.node)
            × (hold s.child ≡ node_holds level c.node)
            × SoundHere s.neighbour
            × SoundHere s.child)
          (finish_steal fetch reducer order neighbour n child c)
  unfolding finish_steal
  finish_steal_lem neighbour child n c hn hc =
      Ensures-bind _ _ (refresh-Stands level fetch reducer _ n hn) λ n' sn.
        Ensures-bind _ _ (refresh-Stands level fetch reducer _ c hc) λ c' sc.
          Ensures-bind {P = λ r. Unit {0}} (count c) _ (Ensures-self _ (λ a x. tt))
            λ k hk. Ensures-ok _ (sn.0, sc.0, sn.1, sc.1)

  -- If the child before is sound and the child's node is, then a hand-over from the child's start
  -- that returns keeps the entries of both in their order, the child before is sound after it, and so
  -- is the child's node, and, where `Changed` is answered, the child.
  pub steal_from_start_lem :
      (previous child : Here)
      → SoundHere previous
      → PointerSound (above level fetch) child.position
      → Ensures
          (StolenFront (hold previous ++ hold child))
          (steal_children_from_start fetch reducer order previous child)
  unfolding steal_children_from_start
  steal_from_start_lem previous child sp sc =
      Ensures-bind _ _ (load_lem (above level fetch) previous.position sp.0) λ position hp.
        Ensures-bind _ _ (get_mut_lem (above level fetch) position hp.1) λ entry he.
          Ensures-bind {P = λ r. Unit {0}} (count entry) _ (Ensures-self _ (λ a x. tt)) λ n hn.
            Ensures-if_free _ _ _
              (Ensures-ok _
                (ap (λ t. t ++ hold child) hp.0, (hp.1, ap last_key hp.0 ∙ sp.1), sc, λ e. cc))
              λ free_space.
                Ensures-bind _ _ (get_mut_lem (above level fetch) child.position sc)
                  λ child_entry hc.
                    Ensures-bind _ _ (splice_start-CutFront level order free_space child_entry.node)
                      λ cut hcut.
                        Ensures-bind _ _ (extend_lem level entry.node cut.0) λ previous_node hx.
                          let parts = hcut.1 hc.1 in
                          Ensures-imp _
                            (λ s hs. (
                              ap₂ ◌++◌ (hs.0 ∙ hx.0) hs.1
                                  ∙ append_assoc (node_holds level entry.node) _ _
                                  ∙ ap₂ ◌++◌ (he.0 ∙ hp.0) (hcut.0 ∙ hc.0),
                              hs.2,
                              hs.3.0,
                              λ e. hs.3,
                            ))
                            (finish_steal_lem (record previous { position = position }) child
                              (set_node entry previous_node) (set_node child_entry cut.1)
                              (hx.1 he.1 parts.0) parts.1)

  -- If the child after is sound and the child's node is, then a hand-over from the child's end that
  -- returns keeps the entries of both in their order, the child after is sound after it, and so is
  -- the child's node, and, where `Changed` is answered, the child.
  pub steal_from_end_lem :
      (next child : Here)
      → SoundHere next
      → PointerSound (above level fetch) child.position
      → Ensures
          (StolenBack (hold child ++ hold next))
          (steal_children_from_end fetch reducer order next child)
  unfolding steal_children_from_end
  steal_from_end_lem next child sn sc =
      Ensures-bind _ _ (load_lem (above level fetch) next.position sn.0) λ position hp.
        Ensures-bind _ _ (get_mut_lem (above level fetch) position hp.1) λ entry he.
          Ensures-bind {P = λ r. Unit {0}} (count entry) _ (Ensures-self _ (λ a x. tt)) λ n hn.
            Ensures-if_free _ _ _
              (Ensures-ok _
                (ap (λ t. hold child ++ t) hp.0, (hp.1, ap last_key hp.0 ∙ sn.1), sc, λ e. cc))
              λ free_space.
                Ensures-bind _ _ (get_mut_lem (above level fetch) child.position sc)
                  λ child_entry hc.
                    Ensures-bind _ _ (splice_end-CutBack level order free_space child_entry.node)
                      λ cut hcut.
                        Ensures-bind _ _ (prepend_lem level entry.node cut.0) λ next_node hx.
                          let parts = hcut.1 hc.1 in
                          Ensures-imp _
                            (λ s hs. (
                              ap₂ ◌++◌ hs.1 (hs.0 ∙ hx.0)
                                  ∙ sym (append_assoc (node_holds level cut.1) _ _)
                                  ∙ ap₂ ◌++◌ (hcut.0 ∙ hc.0) (he.0 ∙ hp.0),
                              hs.2,
                              hs.3.0,
                              λ e. hs.3,
                            ))
                            (finish_steal_lem (record next { position = position }) child
                              (set_node entry next_node) (set_node child_entry cut.1)
                              (hx.1 he.1 parts.0) parts.1)
