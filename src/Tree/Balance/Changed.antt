-- ===== src/Tree/Balance/Changed.antt =====
-- A child that has changed leaves a changed parent: rebalancing never reports `Unchanged` for it.
use nebari.Common.{ℕ, zero, suc, ◌≢◌, ◌≡◌, refl, List, [], ◌∷◌, Bool, true, false}
use nebari.Error.{Result, ok, panic, Ensures, Ensures-ok, Ensures-err, Ensures-then, Ensures-if}
use nebari.Tree.Node.{
  Interior, BTreeEntry, ChangeResult, unchanged, remove, absorb, changed, split, Reducer, from_node,
  loaded, new, load,
}
use nebari.Tree.Splice.{Order, get_mut, previous_location, set_node, take_children, halves, refresh}
use nebari.Tree.Balance.{
  Outcome, split_child, split_to_end, process_interior_split, Absorb, Process, absorbed,
  absorb_into, process_absorb, refresh_child, can_absorb, process_interior_change_result,
}
use nebari.Tree.Balance.Process.{Ensures-on_stolen}

module _ {K I R E : Type 0} (fetch : ℕ → Result (BTreeEntry K I R E)) (reducer : Reducer I R)
    (order : Order) where
  abbrev Child : Type 0
  Child = Interior K R (BTreeEntry K I R E)

  abbrev pub HasChanged : Outcome K R (BTreeEntry K I R E) → Type 0
  HasChanged o = o.result ≢ unchanged

  changed_ok :
      (b : Bool) (cs : List Child)
      → Ensures HasChanged (ok (record { result = changed; should_backup = b; children = cs }))
  changed_ok b cs = Ensures-ok _ (λ e. cc)

  split_child-HasChanged :
      (b : Bool) (before : List Child) (child : Child) (after : List Child)
      → Ensures HasChanged (split_child fetch reducer order b before child after)
  unfolding split_child
  split_child-HasChanged b before child after = Ensures-then (get_mut child.position) _ λ entry.
      Ensures-then (halves entry.node) _ λ cut.
        Ensures-then (refresh reducer (previous_location child.position) (set_node entry cut.0)) _
          λ c. Ensures-then (new reducer (from_node cut.1)) _ λ next. changed_ok b _

  split_to_end-HasChanged :
      (b : Bool) (before : List Child) (child : Child) (after : List Child)
      → Ensures HasChanged (split_to_end fetch reducer order b before child after)
  unfolding split_to_end
  split_to_end-HasChanged b before child [] = split_child-HasChanged b before child []
  split_to_end-HasChanged b before child (next ∷ after) = Ensures-then _ _ λ stolen.
      Ensures-on_stolen stolen.result _ _
        (λ e. split_child-HasChanged b before stolen.child (stolen.neighbour ∷ after))
        (λ e. changed_ok b _)

  process_interior_split-HasChanged :
      (before : List Child) (child : Child) (after : List Child)
      → Ensures HasChanged (process_interior_split fetch reducer order before child after)
  unfolding process_interior_split
  process_interior_split-HasChanged [] child after = split_to_end-HasChanged false [] child after
  process_interior_split-HasChanged (previous ∷ before) child after = Ensures-then _ _ λ stolen.
      Ensures-on_stolen stolen.result _ _
        (λ e.
          split_to_end-HasChanged stolen.should_backup (stolen.neighbour ∷ before) stolen.child
            after)
        (λ e. changed_ok stolen.should_backup _)

  refresh_child-HasChanged :
      (b : Bool) (before : List Child) (child : Child) (after : List Child)
      → Ensures HasChanged (refresh_child fetch reducer order b before child after)
  unfolding refresh_child
  refresh_child-HasChanged b before child after = Ensures-then (get_mut child.position) _ λ entry.
      Ensures-then (refresh reducer (previous_location child.position) entry) _ λ c. changed_ok b _

  absorbed-HasChanged :
      (o : Outcome K R (BTreeEntry K I R E)) → Ensures HasChanged (absorbed fetch reducer order o)
  absorbed-HasChanged o = go o.result
    where
      go :
          (r : ChangeResult)
          → Ensures HasChanged (absorbed fetch reducer order (record o { result = r }))
      go unchanged = Ensures-err panic
      go absorb = Ensures-err panic
      go split = Ensures-err panic
      go remove = Ensures-ok _ (λ e. cc)
      go changed = Ensures-ok _ (λ e. cc)

  absorb_into-HasChanged :
      (absorb_entry : Absorb fetch reducer order) (process : Process fetch reducer order)
      (removed : Child) (top : Bool) (before : List Child) (sponge : Child) (after : List Child)
      → Ensures HasChanged
          (absorb_into fetch reducer order absorb_entry process removed top before sponge after)
  unfolding absorb_into
  absorb_into-HasChanged absorb_entry process removed top before sponge after =
      Ensures-then (get_mut removed.position) _ λ gone.
        Ensures-then (take_children gone.node) _ λ children.
          Ensures-then (load fetch sponge.position) _ λ position.
            Ensures-then (get_mut position) _ λ entry.
              Ensures-then (absorb_entry entry children top) _ λ r.
                Ensures-then
                  (process r.0 before
                    (record sponge { position = loaded (previous_location position) r.1 }) after)
                  _ (absorbed-HasChanged)

  process_absorb-HasChanged :
      (absorb_entry : Absorb fetch reducer order) (process : Process fetch reducer order)
      (before : List Child) (child : Child) (after : List Child)
      → can_absorb fetch reducer order before after ≡ true
      → Ensures HasChanged
          (process_absorb fetch reducer order absorb_entry process before child after)
  unfolding process_absorb
  process_absorb-HasChanged ab process (sponge ∷ before) child after h =
      absorb_into-HasChanged ab process child true before sponge after
  process_absorb-HasChanged ab process [] child (sponge ∷ after) h =
      absorb_into-HasChanged ab process child false [] sponge after
  process_absorb-HasChanged ab process [] child [] h = cc

  -- Rebalancing that returns does not answer `Unchanged`, unless the child was `Unchanged`.
  pub process_change-HasChanged :
      (absorb_entry : Absorb fetch reducer order) (fuel : ℕ) (result : ChangeResult)
      (before : List Child) (child : Child) (after : List Child)
      → result ≢ unchanged
      → Ensures HasChanged (
          process_interior_change_result fetch reducer order absorb_entry fuel result before child
            after)
  unfolding process_interior_change_result
  process_change-HasChanged ab zero result before child after n = Ensures-err panic
  process_change-HasChanged ab (suc fuel) unchanged before child after n = absurd (n refl)
  process_change-HasChanged ab (suc fuel) changed before child after n =
      refresh_child-HasChanged false before child after
  process_change-HasChanged ab (suc fuel) split before child after n =
      process_interior_split-HasChanged before child after
  process_change-HasChanged ab (suc fuel) remove before child after n = changed_ok true _
  process_change-HasChanged ab (suc fuel) absorb before child after n =
      Ensures-if (can_absorb fetch reducer order before after) _ _
        (process_absorb-HasChanged ab (process_interior_change_result fetch reducer order ab fuel)
          before child after)
        (λ e. refresh_child-HasChanged true before child after)
