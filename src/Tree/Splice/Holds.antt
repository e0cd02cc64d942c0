-- ===== src/Tree/Splice/Holds.antt =====
-- Cutting and joining nodes moves entries and loses none, and keeps nodes sound.
use nebari.Common.{
  ℕ, ◌-◌, min, max, ◌≡◌, refl, ap, sym, ◌∙◌, List, ◌++◌, length, take, drop, leb, Bool-cases, inl,
  inr, concat_map, concat_map-append, take-append-drop, All-append, All-take, All-drop,
}
use nebari.Error.{panic, Ensures, Ensures-ok, Ensures-err}
use nebari.Tree.Node.{
  Interior, BTreeNode, uninitialized, leaf, interior, Children, leaves, interiors,
}
use nebari.Tree.Splice.{Order, splice_start, splice_end, extend, prepend, halves}
use nebari.Tree.Contents.{Level, child_holds, node_holds, NodeSound, children_hold, ChildrenSound}

module _ {K I R E : Type 0} (level : Level K I E) where
  concat_take :
      (n : ℕ) (cs : List (Interior K R E))
      → concat_map (child_holds level) (take n cs) ++ concat_map (child_holds level) (drop n cs)
        ≡ concat_map (child_holds level) cs
  concat_take n cs =
      sym (concat_map-append (child_holds level) (take n cs) (drop n cs))
      ∙ ap (concat_map (child_holds level)) (take-append-drop n cs)

  -- The piece in front and the node that stays behind it.
  abbrev pub CutFront : BTreeNode K I R E → Children K I R E × BTreeNode K I R E → Type 0
  CutFront n r =
      (children_hold level r.0 ++ node_holds level r.1 ≡ node_holds level n)
      × (NodeSound level n → ChildrenSound level r.0 × NodeSound level r.1)

  abbrev pub CutBack : BTreeNode K I R E → Children K I R E × BTreeNode K I R E → Type 0
  CutBack n r =
      (node_holds level r.1 ++ children_hold level r.0 ≡ node_holds level n)
      × (NodeSound level n → ChildrenSound level r.0 × NodeSound level r.1)

  pub splice_start-CutFront :
      (order : Order) (free_space : ℕ) (n : BTreeNode K I R E)
      → Ensures (CutFront n) (splice_start order free_space n)
  unfolding splice_start
  splice_start-CutFront order free_space uninitialized = Ensures-err panic
  splice_start-CutFront order free_space (leaf cs) =
      elim (Bool-cases (leb (min free_space (length cs - order.minimum_children)) (length cs))) [
        | inl e ↦ rw e (Ensures-ok _ (take-append-drop _ cs, λ h. (h, h)))
        | inr e ↦ rw e (Ensures-err panic)
      ]
  splice_start-CutFront order free_space (interior cs) =
      elim (Bool-cases (leb (max free_space (length cs - order.minimum_children)) (length cs))) [
        | inl e ↦ rw e (
            Ensures-ok _
              (concat_take _ cs, λ h. ((h.0, All-take _ _ cs h.1), (h.0, All-drop _ _ cs h.1))))
        | inr e ↦ rw e (Ensures-err panic)
      ]

  pub splice_end-CutBack :
      (order : Order) (free_space : ℕ) (n : BTreeNode K I R E)
      → Ensures (CutBack n) (splice_end order free_space n)
  unfolding splice_end
  splice_end-CutBack order free_space uninitialized = Ensures-err panic
  splice_end-CutBack order free_space (leaf cs) =
      elim (Bool-cases (leb (min free_space (length cs - order.minimum_children)) (length cs))) [
        | inl e ↦ rw e (Ensures-ok _ (take-append-drop _ cs, λ h. (h, h)))
        | inr e ↦ rw e (Ensures-err panic)
      ]
  splice_end-CutBack order free_space (interior cs) =
      elim (Bool-cases (leb (max free_space (length cs - order.minimum_children)) (length cs))) [
        | inl e ↦ rw e (
            Ensures-ok _
              (concat_take _ cs, λ h. ((h.0, All-drop _ _ cs h.1), (h.0, All-take _ _ cs h.1))))
        | inr e ↦ rw e (Ensures-err panic)
      ]

  pub extend_lem :
      (n : BTreeNode K I R E) (c : Children K I R E)
      → Ensures
          (λ n'.
            (node_holds level n' ≡ node_holds level n ++ children_hold level c)
            × (NodeSound level n → ChildrenSound level c → NodeSound level n'))
          (extend n c)
  unfolding extend
  extend_lem (leaf cs) (leaves ls) = Ensures-ok _ (refl, λ h k. h)
  extend_lem (interior cs) (interiors is) =
      Ensures-ok _ (concat_map-append _ cs is, λ h k. (h.0, All-append _ cs is h.1 k.1))
  extend_lem uninitialized c = Ensures-err panic
  extend_lem (leaf cs) (interiors is) = Ensures-err panic
  extend_lem (interior cs) (leaves ls) = Ensures-err panic

  pub prepend_lem :
      (n : BTreeNode K I R E) (c : Children K I R E)
      → Ensures
          (λ n'.
            (node_holds level n' ≡ children_hold level c ++ node_holds level n)
            × (NodeSound level n → ChildrenSound level c → NodeSound level n'))
          (prepend n c)
  unfolding prepend
  prepend_lem (leaf cs) (leaves ls) = Ensures-ok _ (refl, λ h k. h)
  prepend_lem (interior cs) (interiors is) =
      Ensures-ok _ (concat_map-append _ is cs, λ h k. (h.0, All-append _ is cs k.1 h.1))
  prepend_lem uninitialized c = Ensures-err panic
  prepend_lem (leaf cs) (interiors is) = Ensures-err panic
  prepend_lem (interior cs) (leaves ls) = Ensures-err panic

  pub halves_lem :
      (n : BTreeNode K I R E)
      → Ensures
          (λ r.
            (node_holds level r.0 ++ node_holds level r.1 ≡ node_holds level n)
            × (NodeSound level n → NodeSound level r.0 × NodeSound level r.1))
          (halves n)
  unfolding halves
  halves_lem uninitialized = Ensures-err panic
  halves_lem (leaf cs) = Ensures-ok _ (take-append-drop _ cs, λ h. (h, h))
  halves_lem (interior cs) =
      Ensures-ok _ (concat_take _ cs, λ h. ((h.0, All-take _ _ cs h.1), (h.0, All-drop _ _ cs h.1)))
