-- ===== src/Tree/Contents.antt =====
-- The entries that a tree stands for, in the order of its leaves, and the soundness of a tree: the
-- key of every interior is the last key of the entries below it.
use nebari.Common.{
  ℕ, zero, suc, ◌≡◌, Option, none, some, List, [], ◌∷◌, ◌++◌, concat_map, All, Bool, true, false,
}
use nebari.Error.{Result, ok, err, data_integrity}
use nebari.Tree.Node.{
  KeyEntry, Pointer, on_disk, loaded, Interior, BTreeNode, uninitialized, leaf, interior,
  BTreeEntry, Below, Entry, Children, leaves, interiors,
}
use nebari.Tree.Absorb.{Store}

-- What is known of the entries below a node: what they hold, how they are fetched, and that they
-- are sound.
pub record Level (K I E : Type 0) : Type 1 where
  pub holds : E → List (KeyEntry K I)
  pub fetch : ℕ → Result E
  pub Sound : E → Type 0
  -- There is no entry below: the nodes are leaves. All leaves are equally deep.
  pub bottom : Bool

module _ {K I : Type 0} where
  abbrev pub last_key : List (KeyEntry K I) → Option K
  last_key [] = none
  last_key (x ∷ []) = some x.key
  last_key (x ∷ y ∷ xs) = last_key (y ∷ xs)

  pub last_key-append :
      (xs ys : List (KeyEntry K I)) (k : K) → last_key ys ≡ some k → last_key (xs ++ ys) ≡ some k
  last_key-append [] ys k h = h
  last_key-append (x ∷ []) [] k h = cc
  last_key-append (x ∷ []) (y ∷ ys) k h = h
  last_key-append (x ∷ z ∷ xs) ys k h = last_key-append (z ∷ xs) ys k h

module _ {K I E : Type 0} (level : Level K I E) where
  abbrev pub fetched : Result E → List (KeyEntry K I)
  fetched (ok e) = level.holds e
  fetched (err e) = []

  abbrev pub FetchedSound : Result E → Type 0
  FetchedSound (ok e) = level.Sound e
  FetchedSound (err e) = ⊥

  abbrev pub pointer_holds : Pointer E → List (KeyEntry K I)
  pointer_holds (on_disk position) = fetched (level.fetch position)
  pointer_holds (loaded location e) = level.holds e

  abbrev pub PointerSound : Pointer E → Type 0
  PointerSound (on_disk position) = FetchedSound (level.fetch position)
  PointerSound (loaded location e) = level.Sound e

module _ {K I R E : Type 0} (level : Level K I E) where
  abbrev pub child_holds : Interior K R E → List (KeyEntry K I)
  child_holds c = pointer_holds level c.position

  abbrev pub ChildSound : Interior K R E → Type 0
  ChildSound c =
      PointerSound level c.position × (last_key (pointer_holds level c.position) ≡ some c.key)

  abbrev pub node_holds : BTreeNode K I R E → List (KeyEntry K I)
  node_holds uninitialized = []
  node_holds (leaf cs) = cs
  node_holds (interior cs) = concat_map child_holds cs

  abbrev pub NodeSound : BTreeNode K I R E → Type 0
  NodeSound uninitialized = ⊥
  NodeSound (leaf cs) = level.bottom ≡ true
  NodeSound (interior cs) = (level.bottom ≡ false) × All ChildSound cs

  abbrev pub children_hold : Children K I R E → List (KeyEntry K I)
  children_hold (leaves cs) = cs
  children_hold (interiors cs) = concat_map child_holds cs

  abbrev pub ChildrenSound : Children K I R E → Type 0
  ChildrenSound (leaves cs) = level.bottom ≡ true
  ChildrenSound (interiors cs) = (level.bottom ≡ false) × All ChildSound cs

  -- The level of the entries whose children are of this one.
  abbrev pub above : (ℕ → Result (BTreeEntry K I R E)) → Level K I (BTreeEntry K I R E)
  above fetch = record {
    holds = λ e. node_holds e.node;
    fetch = fetch;
    Sound = λ e. NodeSound e.node;
    bottom = false;
  }

module _ {K I R : Type 0} (store : Store K I R) where
  -- The level of the entries that nest `h` deep, and what such an entry holds.
  abbrev pub level_of : (h : ℕ) → Level K I (Below K I R h)
  level_of zero = record {
    holds = λ e. [];
    fetch = λ p. err data_integrity;
    Sound = λ e. ⊥;
    bottom = true;
  }
  level_of (suc h) = above (level_of h) (store h)

  abbrev pub holds : (h : ℕ) → Entry K I R h → List (KeyEntry K I)
  holds h e = node_holds (level_of h) e.node

  abbrev pub IsSound : (h : ℕ) → Entry K I R h → Type 0
  IsSound h e = NodeSound (level_of h) e.node
