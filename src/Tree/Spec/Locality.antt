-- ===== src/Tree/Spec/Locality.antt =====
-- An edit of a key touches only the stretch of the entries where the key belongs.
use nebari.Common.{List, [], ◌∷◌, ◌++◌, ◌≡◌, refl, ap, arith}
use nebari.Common.Ord.{gt_of_lt, lt_of_gt, cmp_refl, Ord}
use nebari.Tree.Node.{KeyEntry}
use nebari.Tree.Modification.{KeyOperation}
use nebari.Tree.Spec.{find, insert, delete, edit, AllBelow, AllAbove}

module _ {K I : Type 0} ⦃o : Ord K⦄ where
  pub find_after :
      (key : K) (xs ys : List (KeyEntry K I)) → AllBelow key xs → find key (xs ++ ys) ≡ find key ys
  unfolding find
  find_after key [] ys h = refl
  find_after key (c ∷ xs) ys h = rw (h.0, find) (find_after key xs ys h.1)

  pub find_before :
      (key : K) (xs ys : List (KeyEntry K I)) → AllAbove key ys → find key (xs ++ ys) ≡ find key xs
  unfolding find
  find_before key [] [] h = refl
  find_before key [] (y ∷ ys) h =
      ground (arith, cmp_refl key, lt_of_gt key y.key, gt_of_lt key y.key)
  find_before key (c ∷ xs) ys h = ground (arith, find_before key xs ys h)

  pub edit_after :
      (key : K) (op : KeyOperation I) (xs ys : List (KeyEntry K I))
      → AllBelow key xs
      → edit key op (xs ++ ys) ≡ xs ++ edit key op ys
  unfolding edit insert delete
  edit_after key op [] ys h = refl
  edit_after key KeyOperation.skip (c ∷ xs) ys h = refl
  edit_after key (KeyOperation.set index) (c ∷ xs) ys h =
      rw (h.0, insert) (ap (λ t. c ∷ t) (edit_after key (KeyOperation.set index) xs ys h.1))
  edit_after key KeyOperation.remove (c ∷ xs) ys h =
      rw (h.0, delete) (ap (λ t. c ∷ t) (edit_after key KeyOperation.remove xs ys h.1))

  insert_before :
      (key : K) (index : I) (xs ys : List (KeyEntry K I))
      → AllAbove key ys
      → insert key index (xs ++ ys) ≡ insert key index xs ++ ys
  unfolding insert
  insert_before key index [] [] h = refl
  insert_before key index [] (y ∷ ys) h = ground (arith, gt_of_lt key y.key)
  insert_before key index (c ∷ xs) ys h = ground (arith, insert_before key index xs ys h)

  delete_before :
      (key : K) (xs ys : List (KeyEntry K I))
      → AllAbove key ys
      → delete key (xs ++ ys) ≡ delete key xs ++ ys
  unfolding delete
  delete_before key [] [] h = refl
  delete_before key [] (y ∷ ys) h = ground (arith, gt_of_lt key y.key)
  delete_before key (c ∷ xs) ys h = ground (arith, delete_before key xs ys h)

  pub edit_before :
      (key : K) (op : KeyOperation I) (xs ys : List (KeyEntry K I))
      → AllAbove key ys
      → edit key op (xs ++ ys) ≡ edit key op xs ++ ys
  unfolding edit
  edit_before key KeyOperation.skip xs ys h = refl
  edit_before key (KeyOperation.set index) xs ys h = insert_before key index xs ys h
  edit_before key KeyOperation.remove xs ys h = delete_before key xs ys h
