-- ===== src/Tree/Spec/Sorted.antt =====
-- Parts of a sorted list, and where a key stands to them.
use Prim.Native.Nat.{Ordering}
use nebari.Common.{some, List, [], ◌∷◌, ◌++◌, ◌≡◌, ◌≢◌, sym, subst, All-prefix, All-imp, arith}
use mathlib.Core.Option.{some-injective}
use nebari.Common.Ord.{lt_of_gt, Ord, ◌≺◌}
use nebari.Tree.Node.{KeyEntry}
use nebari.Tree.Contents.{last_key}
use nebari.Tree.Spec.{AllBelow, AllAbove, IsSorted}

module _ {K : Type 0} ⦃o : Ord K⦄ where
  pub ordered : (key k c : K) → o.cmp k key ≢ Ordering.lt → k ≺ c → key ≺ c
  ordered key k c n a = ground (arith, o.eq_of_cmp k key, lt_of_gt k key, o.lt_trans key k c)

module _ {K I : Type 0} ⦃o : Ord K⦄ where
  pub IsSorted-prefix : (xs ys : List (KeyEntry K I)) → IsSorted (xs ++ ys) → IsSorted xs
  IsSorted-prefix [] ys h = tt
  IsSorted-prefix (x ∷ xs) ys h = (All-prefix _ xs ys h.0, IsSorted-prefix xs ys h.1)

  pub IsSorted-suffix : (xs ys : List (KeyEntry K I)) → IsSorted (xs ++ ys) → IsSorted ys
  IsSorted-suffix [] ys h = h
  IsSorted-suffix (x ∷ xs) ys h = IsSorted-suffix xs ys h.1

  pub last_key-AllAbove :
      (xs ys : List (KeyEntry K I)) (k : K)
      → last_key xs ≡ some k
      → IsSorted (xs ++ ys)
      → AllAbove k ys
  last_key-AllAbove [] ys k e h = cc
  last_key-AllAbove (x ∷ []) ys k e h = subst (λ t. AllAbove t ys) (some-injective _ _ e) h.0
  last_key-AllAbove (x ∷ y ∷ xs) ys k e h = last_key-AllAbove (y ∷ xs) ys k e h.1

  pub last_key-AllBelow :
      (xs : List (KeyEntry K I)) (k key : K)
      → last_key xs ≡ some k
      → k ≺ key
      → IsSorted xs
      → AllBelow key xs
  last_key-AllBelow [] k key e l h = tt
  last_key-AllBelow (x ∷ []) k key e l h = (subst (λ t. t ≺ key) (sym (some-injective _ _ e)) l, tt)
  last_key-AllBelow (x ∷ y ∷ xs) k key e l h =
      let later = last_key-AllBelow (y ∷ xs) k key e l h.1 in
      (o.lt_trans x.key y.key key h.0.0 later.0, later)

  -- A key that is not above `k` lies below whatever lies above `k`.
  pub above_of :
      (key k : K) (ys : List (KeyEntry K I))
      → o.cmp k key ≢ Ordering.lt
      → AllAbove k ys
      → AllAbove key ys
  above_of key k ys n h = All-imp ys (λ c a. ordered key k c.key n a) h
