-- ===== src/Tree/Spec/Runs.antt =====
-- Sequences of edits: they compose, keep the order, and may run inside a longer list.
use nebari.Common.{List, [], ◌∷◌, ◌++◌, ◌≡◌, ap, sym, subst, ◌∙◌, All, All-imp, arith}
use nebari.Common.Ord.{lt_of_gt, Ord, ◌≺◌}
use nebari.Tree.Node.{KeyEntry}
use nebari.Tree.Modification.{KeyOperation, Operation}
use nebari.Tree.Modify.Leaf.{Callbacks, decide}
use nebari.Tree.Spec.{
  find, insert, delete, edit, AllBelow, AllAbove, IsSorted, IsAscending, Ran, done, step,
}
use nebari.Tree.Spec.Locality.{find_after, find_before, edit_after, edit_before}

module _ {K I : Type 0} ⦃o : Ord K⦄ where
  module _ (Q : K → Type 0) where
    insert-All :
        (key : K) (index : I) (xs : List (KeyEntry K I))
        → Q key
        → All (λ (c : KeyEntry K I). Q c.key) xs
        → All (λ (c : KeyEntry K I). Q c.key) (insert key index xs)
    unfolding insert
    insert-All key index [] q h = (q, tt)
    insert-All key index (c ∷ xs) q h = ground (arith, insert-All key index xs q)

    delete-All :
        (key : K) (xs : List (KeyEntry K I))
        → All (λ (c : KeyEntry K I). Q c.key) xs
        → All (λ (c : KeyEntry K I). Q c.key) (delete key xs)
    unfolding delete
    delete-All key [] h = tt
    delete-All key (c ∷ xs) h = ground (arith, delete-All key xs)

    pub edit-All :
        (key : K) (op : KeyOperation I) (xs : List (KeyEntry K I))
        → Q key
        → All (λ (c : KeyEntry K I). Q c.key) xs
        → All (λ (c : KeyEntry K I). Q c.key) (edit key op xs)
    unfolding edit
    edit-All key KeyOperation.skip xs q h = h
    edit-All key (KeyOperation.set index) xs q h = insert-All key index xs q h
    edit-All key KeyOperation.remove xs q h = delete-All key xs h

  above_trans : (a b : K) (xs : List (KeyEntry K I)) → a ≺ b → AllAbove b xs → AllAbove a xs
  above_trans a b xs h k = All-imp xs (λ c e. o.lt_trans a b c.key h e) k

  insert-IsSorted :
      (key : K) (index : I) (xs : List (KeyEntry K I))
      → IsSorted xs
      → IsSorted (insert key index xs)
  unfolding insert
  insert-IsSorted key index [] h = (tt, tt)
  insert-IsSorted key index (c ∷ xs) h = ground (
    arith,
    insert-IsSorted key index xs h.1,
    insert-All (λ k. c.key ≺ k) key index xs,
    o.eq_of_cmp c.key key,
    lt_of_gt c.key key,
    above_trans key c.key xs,
  )

  delete-IsSorted : (key : K) (xs : List (KeyEntry K I)) → IsSorted xs → IsSorted (delete key xs)
  unfolding delete
  delete-IsSorted key [] h = tt
  delete-IsSorted key (c ∷ xs) h =
      ground (arith, delete-IsSorted key xs h.1, delete-All (λ k. c.key ≺ k) key xs)

  pub edit-IsSorted :
      (key : K) (op : KeyOperation I) (xs : List (KeyEntry K I))
      → IsSorted xs
      → IsSorted (edit key op xs)
  unfolding edit
  edit-IsSorted key KeyOperation.skip xs h = h
  edit-IsSorted key (KeyOperation.set index) xs h = insert-IsSorted key index xs h
  edit-IsSorted key KeyOperation.remove xs h = delete-IsSorted key xs h

module _ {K V I S : Type 0} ⦃o : Ord K⦄ {callbacks : Callbacks K V I S} {P : K → Type 0}
    {keys' : List K} {operation' : Operation K V I S} {entries' : List (KeyEntry K I)}
    {state' : S} where
  pub Ran-trans :
      {js : List K} {op' : Operation K V I S} {ys : List (KeyEntry K I)} {t : S} {ks : List K}
      {op : Operation K V I S} {xs : List (KeyEntry K I)} {s : S}
      → Ran callbacks P js op' ys t ks op xs s
      → Ran callbacks P keys' operation' entries' state' js op' ys t
      → Ran callbacks P keys' operation' entries' state' ks op xs s
  Ran-trans done r = r
  Ran-trans (step d p e q) r = step d p e (Ran-trans q r)

  pub Ran-keys :
      (Q : K → Type 0) {ks : List K} {op : Operation K V I S} {xs : List (KeyEntry K I)} {s : S}
      → Ran callbacks P keys' operation' entries' state' ks op xs s
      → All Q ks
      → All Q keys'
  Ran-keys Q done h = h
  Ran-keys Q (step d p e q) h = Ran-keys Q q h.1

  pub Ran-IsAscending :
      {ks : List K} {op : Operation K V I S} {xs : List (KeyEntry K I)} {s : S}
      → Ran callbacks P keys' operation' entries' state' ks op xs s
      → IsAscending ks
      → IsAscending keys'
  Ran-IsAscending done h = h
  Ran-IsAscending (step d p e q) h = Ran-IsAscending q h.1

  pub Ran-IsSorted :
      {ks : List K} {op : Operation K V I S} {xs : List (KeyEntry K I)} {s : S}
      → Ran callbacks P keys' operation' entries' state' ks op xs s
      → IsSorted xs
      → IsSorted entries'
  Ran-IsSorted done h = h
  Ran-IsSorted (step {key = key} {entries = xs} d p e q) h =
      Ran-IsSorted q (edit-IsSorted key d.key_operation xs h)

  pub Ran-All :
      (Q : K → Type 0) {ks : List K} {op : Operation K V I S} {xs : List (KeyEntry K I)} {s : S}
      → Ran callbacks P keys' operation' entries' state' ks op xs s
      → All (λ k. P k → Q k) ks
      → All (λ (c : KeyEntry K I). Q c.key) xs
      → All (λ (c : KeyEntry K I). Q c.key) entries'
  Ran-All Q done hk h = h
  Ran-All Q (step {key = key} {entries = xs} d p e q) hk h =
      Ran-All Q q hk.1 (edit-All Q key d.key_operation xs (hk.0 p) h)

  -- The edits run inside a longer list, if the keys belong between its ends.
  pub Ran-within :
      (front back : List (KeyEntry K I)) (Q : K → Type 0) {ks : List K} {op : Operation K V I S}
      {xs : List (KeyEntry K I)} {s : S}
      → Ran callbacks P keys' operation' entries' state' ks op xs s
      → All (λ k. P k → AllBelow k front × AllAbove k back × Q k) ks
      → Ran callbacks Q keys' operation'
          (front ++ (entries' ++ back))
          state'
          ks
          op
          (front ++ (xs ++ back))
          s
  Ran-within front back Q done h = done
  Ran-within front back Q
        (step {key = key} {keys = ks} {operation = op} {entries = xs} {s = s} d p e q) h =
      let places = h.0 p in
      let same : find key (front ++ (xs ++ back)) ≡ find key xs =
        find_after key front (xs ++ back) places.0 ∙ find_before key xs back places.1 in
      let edited : edit key d.key_operation (front ++ (xs ++ back))
          ≡ front ++ (edit key d.key_operation xs ++ back) =
        edit_after key d.key_operation front (xs ++ back) places.0
        ∙ ap (λ t. front ++ t) (edit_before key d.key_operation xs back places.1) in
      step d places.2 (ap (λ t. decide callbacks key t op s) same ∙ e) (
        subst
          (λ t.
            Ran callbacks Q keys' operation' (front ++ (entries' ++ back)) state' ks d.operation t
              d.state)
          (sym edited) (Ran-within front back Q q h.1))
