-- ===== src/Tree/Spec.antt =====
-- What a modification means for the entries of a tree: an ordered association list that is edited
-- one key after another. Nothing here knows of nodes, orders or positions.
pub mod Locality
pub mod Runs
pub mod Sorted
use Prim.Native.Nat.{Ordering}
use nebari.Common.{
  Option, none, some, List, [], ◌∷◌, ◌++◌, ◌≡◌, refl, ap, Bool, true, false, All, All-append, arith,
}
use nebari.Common.Ord.{Ord, ◌≺◌}
use nebari.Error.{Result, ok}
use nebari.Tree.Node.{KeyEntry}
use nebari.Tree.Modification.{KeyOperation, Operation}
use nebari.Tree.Modify.Leaf.{Callbacks, Decision, decide}

module _ {K I : Type 0} ⦃o : Ord K⦄ where
  unfoldable pub find : K → List (KeyEntry K I) → Option I
  find key [] = none
  find key (c ∷ xs) = elim (o.cmp c.key key) [
    | Ordering.lt ↦ find key xs
    | Ordering.eq ↦ some c.index
    | Ordering.gt ↦ none
  ]

  unfoldable pub insert : K → I → List (KeyEntry K I) → List (KeyEntry K I)
  insert key index [] = record { key = key; index = index } ∷ []
  insert key index (c ∷ xs) = elim (o.cmp c.key key) [
    | Ordering.lt ↦ c ∷ insert key index xs
    | Ordering.eq ↦ record { key = key; index = index } ∷ xs
    | Ordering.gt ↦ record { key = key; index = index } ∷ c ∷ xs
  ]

  unfoldable pub delete : K → List (KeyEntry K I) → List (KeyEntry K I)
  delete key [] = []
  delete key (c ∷ xs) = elim (o.cmp c.key key) [
    | Ordering.lt ↦ c ∷ delete key xs
    | Ordering.eq ↦ xs
    | Ordering.gt ↦ c ∷ xs
  ]

  unfoldable pub edit : K → KeyOperation I → List (KeyEntry K I) → List (KeyEntry K I)
  edit key KeyOperation.skip xs = xs
  edit key (KeyOperation.set index) xs = insert key index xs
  edit key KeyOperation.remove xs = delete key xs

  -- Every entry's key lies below, or above, a key.
  abbrev pub AllBelow : K → List (KeyEntry K I) → Type 0
  AllBelow key xs = All (λ (c : KeyEntry K I). c.key ≺ key) xs

  abbrev pub AllAbove : K → List (KeyEntry K I) → Type 0
  AllAbove key xs = All (λ (c : KeyEntry K I). key ≺ c.key) xs

  abbrev pub IsSorted : List (KeyEntry K I) → Type 0
  IsSorted [] = Unit
  IsSorted (c ∷ xs) = AllAbove c.key xs × IsSorted xs

abbrev pub IsAscending : {K : Type 0} ⦃o : Ord K⦄ → List K → Type 0
IsAscending [] = Unit
IsAscending (k ∷ ks) = All (λ j. k ≺ j) ks × IsAscending ks

-- The keys that satisfy `P` are taken one by one from a modification, and the entries edited as the
-- callbacks decide. The parameters are the end: the keys left, the operation, the entries, the state.
pub data Ran {K V I S : Type 0} ⦃o : Ord K⦄ (callbacks : Callbacks K V I S) (P : K → Type 0)
    (keys' : List K) (operation' : Operation K V I S) (entries' : List (KeyEntry K I)) (state' : S)
    : List K → Operation K V I S → List (KeyEntry K I) → S → Type 0 where
  done : Ran callbacks P keys' operation' entries' state' keys' operation' entries' state'
  step :
      {key : K} {keys : List K} {operation : Operation K V I S} {entries : List (KeyEntry K I)}
      {s : S}
      → (d : Decision K V I S) → P key
      → decide callbacks key (find key entries) operation s ≡ ok d
      → Ran callbacks P keys' operation' entries' state' keys d.operation
          (edit key d.key_operation entries)
          d.state
      → Ran callbacks P keys' operation' entries' state' (key ∷ keys) operation entries s
