-- ===== src/Tree/Balance/Process.antt =====
-- Rebalancing after a change of one child moves entries between the children and loses none, and
-- leaves every child sound.
use nebari.Common.{
  ℕ, ◌≡◌, refl, ap, ap₂, sym, ◌∙◌, List, [], ◌∷◌, ◌++◌, reverse_append, reverse_append-nil,
  concat_map, concat_map-append, All, All-reverse_append, Bool, false, append_assoc, append-nil,
}
use nebari.Error.{Result, panic, Ensures, Ensures-ok, Ensures-err, Ensures-bind, Ensures-imp}
use nebari.Tree.Node.{
  KeyEntry, Interior, BTreeEntry, Reducer, from_node, ChangeResult, unchanged, changed,
}
use nebari.Tree.Splice.{Order, previous_location, set_node}
use nebari.Tree.Splice.Holds.{halves_lem}
use nebari.Tree.Splice.MaxKey.{refresh-Stands, new-Stands, get_mut_lem}
use nebari.Tree.Contents.{Level, child_holds, ChildSound, PointerSound, node_holds, above}
use nebari.Tree.Balance.{
  Outcome, split_child, split_to_end, process_interior_split, refresh_child, on_stolen,
}
use nebari.Tree.Balance.Steal.{steal_from_start_lem, steal_from_end_lem}

module _ {κ} {A : Type 0} {P : A → Type κ} where
  pub Ensures-on_stolen :
      (r : ChangeResult) (still_large settled : Result A)
      → (r ≡ unchanged → Ensures P still_large)
      → (r ≡ changed → Ensures P settled)
      → Ensures P (on_stolen r still_large settled)
  unfolding on_stolen
  Ensures-on_stolen unchanged still_large settled hu hc = hu refl
  Ensures-on_stolen changed still_large settled hu hc = hc refl
  Ensures-on_stolen _ still_large settled hu hc = Ensures-err panic

module _ {K I R E : Type 0} (level : Level K I E) (fetch : ℕ → Result (BTreeEntry K I R E))
    (reducer : Reducer I R) (order : Order) where
  abbrev pub Here : Type 0
  Here = Interior K R (BTreeEntry K I R E)

  abbrev pub hold : Here → List (KeyEntry K I)
  hold c = child_holds (above level fetch) c

  abbrev pub hold_all : List Here → List (KeyEntry K I)
  hold_all cs = concat_map (child_holds (above level fetch)) cs

  -- What the children hold with `entries` in the place of the child in hand.
  abbrev pub whole :
      List (Interior K R (BTreeEntry K I R E))
      → List (KeyEntry K I)
      → List (Interior K R (BTreeEntry K I R E))
      → List (KeyEntry K I)
  whole before entries after =
      concat_map (child_holds (above level fetch)) (reverse_append before [])
      ++ (entries ++ concat_map (child_holds (above level fetch)) after)

  -- The outcome's children are sound and hold the entries.
  abbrev pub Keeps : List (KeyEntry K I) → Outcome K R (BTreeEntry K I R E) → Type 0
  Keeps entries o =
      (concat_map (child_holds (above level fetch)) o.children ≡ entries)
      × All (ChildSound (above level fetch)) o.children

  abbrev pub AllSound : List Here → Type 0
  AllSound cs = All (ChildSound (above level fetch)) cs

  pub hold-around :
      (before after : List Here)
      → hold_all (reverse_append before after)
        ≡ hold_all (reverse_append before []) ++ hold_all after
  hold-around before after =
      ap hold_all (reverse_append-nil before after)
      ∙ concat_map-append hold (reverse_append before []) after

  pub hold-front :
      (c : Here) (before : List Here)
      → hold_all (reverse_append (c ∷ before) []) ≡ hold_all (reverse_append before []) ++ hold c
  hold-front c before =
      hold-around before (c ∷ [])
      ∙ ap (λ t. hold_all (reverse_append before []) ++ t) (append-nil _)

  pub sound-around :
      (before after : List Here)
      → AllSound before
      → AllSound after
      → AllSound (reverse_append before after)
  sound-around before after hb ha = All-reverse_append _ before after hb ha

  split_child_lem :
      (backup : Bool) (before : List Here) (child : Here) (after : List Here)
      → AllSound before
      → PointerSound (above level fetch) child.position
      → AllSound after
      → Ensures
          (Keeps (whole before (hold child) after))
          (split_child fetch reducer order backup before child after)
  unfolding split_child
  split_child_lem backup before child after hb hc ha =
      Ensures-bind _ _ (get_mut_lem (above level fetch) child.position hc) λ entry he.
        Ensures-bind _ _ (halves_lem level entry.node) λ cut hcut.
          let parts = hcut.1 he.1 in
          Ensures-bind _ _
            (refresh-Stands level fetch reducer (previous_location child.position)
              (set_node entry cut.0) parts.0)
            λ lower hl.
              Ensures-bind _ _ (new-Stands level fetch reducer (from_node cut.1) parts.1)
                λ upper hu. Ensures-ok _ (
                  hold-around before (lower ∷ upper ∷ after)
                      ∙ ap (λ t. hold_all (reverse_append before []) ++ t)
                          (ap₂ ◌++◌ hl.0 (ap (λ t. t ++ hold_all after) hu.0)
                            ∙ sym (append_assoc (node_holds level cut.0) _ _)
                            ∙ ap (λ t. t ++ hold_all after) (hcut.0 ∙ he.0)),
                  sound-around before _ hb (hl.1, (hu.1, ha)),
                )

  split_to_end_lem :
      (backup : Bool) (before : List Here) (child : Here) (after : List Here)
      → AllSound before
      → PointerSound (above level fetch) child.position
      → AllSound after
      → Ensures
          (Keeps (whole before (hold child) after))
          (split_to_end fetch reducer order backup before child after)
  unfolding split_to_end
  split_to_end_lem backup before child [] hb hc ha = split_child_lem backup before child [] hb hc ha
  split_to_end_lem backup before child (next ∷ after) hb hc ha =
      Ensures-bind _ _ (steal_from_end_lem level fetch reducer order next child ha.0 hc)
        λ stolen hs.
          let same : hold stolen.child ++ (hold stolen.neighbour ++ hold_all after)
              ≡ hold child ++ (hold next ++ hold_all after) =
            sym (append_assoc (hold stolen.child) _ _)
            ∙ ap (λ t. t ++ hold_all after) hs.0
            ∙ append_assoc (hold child) _ _ in
          let front = hold_all (reverse_append before []) in
          Ensures-on_stolen stolen.result _ _
            (λ e.
              Ensures-imp _ (λ o ho. (ho.0 ∙ ap (λ t. front ++ t) same, ho.1))
                (split_child_lem backup before stolen.child (stolen.neighbour ∷ after) hb hs.2
                  (hs.1, ha.1)))
            (λ e. Ensures-ok _ (
              hold-around before (stolen.child ∷ stolen.neighbour ∷ after)
                  ∙ ap (λ t. front ++ t) same,
              sound-around before _ hb (hs.3 e, (hs.1, ha.1)),
            ))

  -- If the children around one that is too large are sound, and so is its own node, then handing
  -- entries to its neighbours or splitting it, where this returns, leaves sound children that hold
  -- the same entries in the same order.
  pub process_interior_split_lem :
      (before : List Here) (child : Here) (after : List Here)
      → AllSound before
      → PointerSound (above level fetch) child.position
      → AllSound after
      → Ensures
          (Keeps (whole before (hold child) after))
          (process_interior_split fetch reducer order before child after)
  unfolding process_interior_split
  process_interior_split_lem [] child after hb hc ha =
      split_to_end_lem false [] child after hb hc ha
  process_interior_split_lem (previous ∷ before) child after hb hc ha =
      Ensures-bind _ _ (steal_from_start_lem level fetch reducer order previous child hb.0 hc)
        λ stolen hs.
          let front = hold_all (reverse_append before []) in
          let rest = hold_all after in
          let same : (front ++ hold stolen.neighbour) ++ (hold stolen.child ++ rest)
              ≡ whole (previous ∷ before) (hold child) after =
            append_assoc front _ _
            ∙ ap (λ t. front ++ t)
                (sym (append_assoc (hold stolen.neighbour) _ _)
                  ∙ ap (λ t. t ++ rest) hs.0
                  ∙ append_assoc (hold previous) _ _)
            ∙ sym (append_assoc front _ _)
            ∙ ap (λ t. t ++ (hold child ++ rest)) (sym (hold-front previous before)) in
          Ensures-on_stolen stolen.result _ _
            (λ e.
              Ensures-imp _
                (λ o ho. (
                  ho.0
                      ∙ ap (λ t. t ++ (hold stolen.child ++ rest))
                          (hold-front stolen.neighbour before)
                      ∙ same,
                  ho.1,
                ))
                (split_to_end_lem stolen.should_backup (stolen.neighbour ∷ before) stolen.child
                  after (hs.1, hb.1) hs.2 ha))
            (λ e. Ensures-ok _ (
              hold-around before (stolen.neighbour ∷ stolen.child ∷ after)
                  ∙ sym (append_assoc front _ _)
                  ∙ same,
              sound-around before _ hb.1 (hs.1, (hs.3 e, ha)),
            ))

  pub refresh_child_lem :
      (backup : Bool) (before : List Here) (child : Here) (after : List Here)
      → AllSound before
      → PointerSound (above level fetch) child.position
      → AllSound after
      → Ensures
          (Keeps (whole before (hold child) after))
          (refresh_child fetch reducer order backup before child after)
  unfolding refresh_child
  refresh_child_lem backup before child after hb hc ha =
      Ensures-bind _ _ (get_mut_lem (above level fetch) child.position hc) λ entry he.
        Ensures-bind _ _
          (refresh-Stands level fetch reducer (previous_location child.position) entry he.1)
          λ c hcs. Ensures-ok _ (
            hold-around before (c ∷ after)
                ∙ ap (λ t. hold_all (reverse_append before []) ++ (t ++ hold_all after))
                    (hcs.0 ∙ he.0),
            sound-around before _ hb (hcs.1, ha),
          )
