-- ===== src/Tree/Balance/Absorbing.antt =====
-- `process_interior_change_result` keeps the entries, if absorbing a neighbour's entries does.
use nebari.Common.{
  ℕ, zero, suc, ◌≡◌, refl, ap, ap₂, sym, ◌∙◌, List, [], ◌∷◌, ◌++◌, reverse_append, All, Bool, true,
  false, append_assoc, ◌≢◌,
}
use nebari.Error.{
  Result, panic, Ensures, Ensures-ok, Ensures-err, Ensures-bind, Ensures-imp, Ensures-if,
}
use nebari.Tree.Node.{
  KeyEntry, Interior, BTreeNode, leaf, interior, uninitialized, BTreeEntry, Children, Reducer,
  loaded, ChangeResult, unchanged, remove, absorb, changed, split,
}
use nebari.Tree.Splice.{Order, previous_location, take_children}
use nebari.Tree.Splice.MaxKey.{load_lem, get_mut_lem}
use nebari.Tree.Contents.{
  Level, child_holds, ChildSound, PointerSound, node_holds, NodeSound, children_hold, ChildrenSound,
  above,
}
use nebari.Tree.Balance.{
  Outcome, Absorb, Process, absorbed, absorb_into, process_absorb, can_absorb,
  process_interior_change_result,
}
use nebari.Tree.Balance.Process.{
  hold_all, whole, Keeps, hold-around, hold-front, sound-around, process_interior_split_lem,
  refresh_child_lem,
}

-- What an entry holds after it has absorbed some, at its top or at its bottom.
abbrev pub absorbed_entries : {A : Type 0} → Bool → List A → List A → List A
absorbed_entries true own given = own ++ given
absorbed_entries false own given = given ++ own

module _ {K I R E : Type 0} (level : Level K I E) where
  -- The postcondition of `absorb`.
  abbrev pub Absorbed :
      Bool → BTreeEntry K I R E → Children K I R E → ChangeResult × BTreeEntry K I R E → Type 0
  Absorbed top e children r =
      (node_holds level r.1.node
        ≡ absorbed_entries top (node_holds level e.node) (children_hold level children))
      × NodeSound level r.1.node
      × (r.0 ≢ unchanged)
      × (r.0 ≡ remove → node_holds level r.1.node ≡ [])

  abbrev pub AbsorbSound :
      (BTreeEntry K I R E → Children K I R E → Bool → Result (ChangeResult × BTreeEntry K I R E))
      → Type 0
  AbsorbSound absorb_entry =
      (e : BTreeEntry K I R E) (children : Children K I R E) (top : Bool)
      → NodeSound level e.node
      → ChildrenSound level children
      → Ensures (Absorbed top e children) (absorb_entry e children top)

  take_children_lem :
      (n : BTreeNode K I R E)
      → NodeSound level n
      → Ensures
          (λ c. (children_hold level c ≡ node_holds level n) × ChildrenSound level c)
          (take_children n)
  take_children_lem uninitialized h = Ensures-err panic
  take_children_lem (leaf cs) h = Ensures-ok _ (refl, h)
  take_children_lem (interior cs) h = Ensures-ok _ (refl, h)

module _ {K I R E : Type 0} (level : Level K I E) (fetch : ℕ → Result (BTreeEntry K I R E))
    (reducer : Reducer I R) (order : Order) where
  -- What the child in hand satisfies when its change is processed.
  abbrev pub Ready : ChangeResult → Interior K R (BTreeEntry K I R E) → Type 0
  Ready result child =
      PointerSound (above level fetch) child.position
      × (result ≡ unchanged → ChildSound (above level fetch) child)
      × (result ≡ remove → child_holds (above level fetch) child ≡ [])

  abbrev pub ProcessSound : Process fetch reducer order → Type 0
  ProcessSound process =
      (result : ChangeResult) (before : List (Interior K R (BTreeEntry K I R E)))
      (child : Interior K R (BTreeEntry K I R E)) (after : List (Interior K R (BTreeEntry K I R E)))
      → All (ChildSound (above level fetch)) before
      → Ready result child
      → All (ChildSound (above level fetch)) after
      → Ensures
          (Keeps level fetch reducer order
            (whole level fetch reducer order before (child_holds (above level fetch) child) after))
          (process result before child after)

  regroup :
      (before : List (Interior K R (BTreeEntry K I R E)))
      (sponge child : Interior K R (BTreeEntry K I R E))
      (after : List (Interior K R (BTreeEntry K I R E)))
      → whole level fetch reducer order before
          (child_holds (above level fetch) sponge ++ child_holds (above level fetch) child)
          after
        ≡ whole level fetch reducer order
            (sponge ∷ before)
            (child_holds (above level fetch) child)
            after
  regroup before sponge child after =
      ap (λ t. hold_all level fetch reducer order (reverse_append before []) ++ t)
        (append_assoc (child_holds (above level fetch) sponge) _ _)
      ∙ sym (append_assoc (hold_all level fetch reducer order (reverse_append before [])) _ _)
      ∙ ap
          (λ t.
            t
            ++ (child_holds (above level fetch) child ++ hold_all level fetch reducer order after))
          (sym (hold-front level fetch reducer order sponge before))

  absorbed_lem :
      (entries : List (KeyEntry K I)) (o : Outcome K R (BTreeEntry K I R E))
      → Keeps level fetch reducer order entries o
      → Ensures (Keeps level fetch reducer order entries) (absorbed fetch reducer order o)
  absorbed_lem entries o h = go o.result
    where
      go :
          (r : ChangeResult)
          → Ensures
              (Keeps level fetch reducer order entries)
              (absorbed fetch reducer order (record o { result = r }))
      go unchanged = Ensures-err panic
      go absorb = Ensures-err panic
      go split = Ensures-err panic
      go remove = Ensures-ok _ h
      go changed = Ensures-ok _ h

  module _ (absorb_entry : Absorb fetch reducer order) (process : Process fetch reducer order)
      (ha : AbsorbSound level absorb_entry) (hp : ProcessSound process) where
    absorb_into_lem :
        (removed : Interior K R (BTreeEntry K I R E)) (top : Bool)
        (before : List (Interior K R (BTreeEntry K I R E)))
        (sponge : Interior K R (BTreeEntry K I R E))
        (after : List (Interior K R (BTreeEntry K I R E)))
        → PointerSound (above level fetch) removed.position
        → All (ChildSound (above level fetch)) before
        → ChildSound (above level fetch) sponge
        → All (ChildSound (above level fetch)) after
        → Ensures
            (Keeps level fetch reducer order (
              whole level fetch reducer order before
                (absorbed_entries top
                  (child_holds (above level fetch) sponge)
                  (child_holds (above level fetch) removed))
                after))
            (absorb_into fetch reducer order absorb_entry process removed top before sponge after)
    unfolding absorb_into
    absorb_into_lem removed top before sponge after hr hb hs hafter =
        Ensures-bind _ _ (get_mut_lem (above level fetch) removed.position hr) λ gone hg.
          Ensures-bind _ _ (take_children_lem level gone.node hg.1) λ children hc.
            Ensures-bind _ _ (load_lem (above level fetch) sponge.position hs.0) λ position hpos.
              Ensures-bind _ _ (get_mut_lem (above level fetch) position hpos.1) λ entry he.
                Ensures-bind _ _ (ha entry children top he.1 hc.1) λ r hr'.
                  let sponge' : Interior K R (BTreeEntry K I R E) = record sponge {
                    position = loaded (previous_location position) r.1;
                  } in
                  Ensures-bind _ _
                    (hp r.0 before sponge' after hb (hr'.1, (λ e. absurd (hr'.2 e)), hr'.3) hafter)
                    λ o ho. absorbed_lem _ o (
                      ho.0
                          ∙ ap (λ t. whole level fetch reducer order before t after)
                              (hr'.0 ∙ ap₂ (absorbed_entries top) (he.0 ∙ hpos.0) (hc.0 ∙ hg.0)),
                      ho.1,
                    )

    process_absorb_lem :
        (before : List (Interior K R (BTreeEntry K I R E)))
        (child : Interior K R (BTreeEntry K I R E))
        (after : List (Interior K R (BTreeEntry K I R E)))
        → All (ChildSound (above level fetch)) before
        → PointerSound (above level fetch) child.position
        → All (ChildSound (above level fetch)) after
        → can_absorb fetch reducer order before after ≡ true
        → Ensures
            (Keeps level fetch reducer order (
              whole level fetch reducer order before (child_holds (above level fetch) child) after))
            (process_absorb fetch reducer order absorb_entry process before child after)
    unfolding process_absorb
    process_absorb_lem [] child [] hb hc hafter e = cc
    process_absorb_lem [] child (sponge ∷ after) hb hc hafter e =
        Ensures-imp _
          (λ o ho. (ho.0 ∙ append_assoc (child_holds (above level fetch) child) _ _, ho.1))
          (absorb_into_lem child false [] sponge after hc hb hafter.0 hafter.1)
    process_absorb_lem (sponge ∷ before) child after hb hc hafter e =
        Ensures-imp _ (λ o ho. (ho.0 ∙ regroup before sponge child after, ho.1))
          (absorb_into_lem child true before sponge after hc hb.1 hb.0 hafter)

  pub process_change_lem :
      (absorb_entry : Absorb fetch reducer order)
      → AbsorbSound level absorb_entry
      → (fuel : ℕ)
      → ProcessSound (process_interior_change_result fetch reducer order absorb_entry fuel)
  unfolding process_interior_change_result
  process_change_lem absorb_entry ha zero result before child after hb hc hafter = Ensures-err panic
  process_change_lem absorb_entry ha (suc fuel) unchanged before child after hb hc hafter =
      Ensures-ok _ (
        hold-around level fetch reducer order before (child ∷ after),
        sound-around level fetch reducer order before _ hb (hc.1 refl, hafter),
      )
  process_change_lem absorb_entry ha (suc fuel) changed before child after hb hc hafter =
      refresh_child_lem level fetch reducer order false before child after hb hc.0 hafter
  process_change_lem absorb_entry ha (suc fuel) split before child after hb hc hafter =
      process_interior_split_lem level fetch reducer order before child after hb hc.0 hafter
  process_change_lem absorb_entry ha (suc fuel) remove before child after hb hc hafter =
      Ensures-ok _ (
        hold-around level fetch reducer order before after
            ∙ ap
                (λ t.
                  hold_all level fetch reducer order (reverse_append before [])
                  ++ (t ++ hold_all level fetch reducer order after))
                (sym (hc.2 refl)),
        sound-around level fetch reducer order before after hb hafter,
      )
  process_change_lem absorb_entry ha (suc fuel) absorb before child after hb hc hafter =
      let process = process_interior_change_result fetch reducer order absorb_entry fuel in
      Ensures-if (can_absorb fetch reducer order before after) _ _
        (process_absorb_lem absorb_entry process ha (process_change_lem absorb_entry ha fuel) before
          child after hb hc.0 hafter)
        (λ e. refresh_child_lem level fetch reducer order true before child after hb hc.0 hafter)
