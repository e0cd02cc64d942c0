-- ===== src/Tree/Node.antt =====
-- nebari/src/tree/btree_entry.rs, interior.rs, key_entry.rs: the data of a B-tree.
--
-- The program's types are recursive through `Box`. Here the type of a node's children is a
-- parameter `E`, and `Below h` ties the knot for trees whose nodes nest at most `h` deep.
use nebari.Common.{ℕ, zero, suc, Bool, true, Option, none, some, List, [], length, get_last?, map}
use nebari.Error.{Result, ok, err, panic, ◌>>=◌}

pub record KeyEntry (K I : Type 0) : Type 0 where
  pub key : K
  pub index : I

pub data Pointer (E : Type 0) : Type 0 where
  on_disk : ℕ → Pointer E
  loaded : Option ℕ → E → Pointer E

pub record Interior (K R E : Type 0) : Type 0 where
  pub key : K
  pub position : Pointer E
  pub stats : R

-- `E` is the type of the entries that the interiors point to.
pub data BTreeNode (K I R E : Type 0) : Type 0 where
  uninitialized : BTreeNode K I R E
  leaf : List (KeyEntry K I) → BTreeNode K I R E
  interior : List (Interior K R E) → BTreeNode K I R E

pub record BTreeEntry (K I R E : Type 0) : Type 0 where
  pub dirty : Bool
  pub node : BTreeNode K I R E

-- The children of an entry that nests at most `h` deep.
abbrev pub Below : Type 0 → Type 0 → Type 0 → ℕ → Type 0
Below K I R zero = ⊥
Below K I R (suc h) = BTreeEntry K I R (Below K I R h)

abbrev pub Entry : Type 0 → Type 0 → Type 0 → ℕ → Type 0
Entry K I R h = BTreeEntry K I R (Below K I R h)

-- What a modification reports to the node above.
pub data ChangeResult : Type 0 where
  unchanged remove absorb changed split : ChangeResult

-- The entries that a node gives up to a neighbour.
pub data Children (K I R E : Type 0) : Type 0 where
  leaves : List (KeyEntry K I) → Children K I R E
  interiors : List (Interior K R E) → Children K I R E

-- Statistics over the indexes of a leaf, and over the statistics of interiors.
pub record Reducer (I R : Type 0) : Type 0 where
  pub reduce : List I → R
  pub rereduce : List R → R

-- `.last().unwrap().key`
abbrev pub last_key_of_leaf : {K I : Type 0} → List (KeyEntry K I) → Result K
last_key_of_leaf children = elim (get_last? children) [ none ↦ err panic | some c ↦ ok c.key ]

abbrev pub last_key_of_interior : {K R E : Type 0} → List (Interior K R E) → Result K
last_key_of_interior children = elim (get_last? children) [ none ↦ err panic | some c ↦ ok c.key ]

module _ {K I R E : Type 0} where
  -- `From<BTreeNode>`, `Default`
  abbrev pub from_node : BTreeNode K I R E → BTreeEntry K I R E
  from_node n = record { dirty = true; node = n }

  abbrev pub default : BTreeEntry K I R E
  default = from_node (leaf [])

  unfoldable pub count : BTreeEntry K I R E → Result ℕ
  count e = elim e.node [
    | uninitialized ↦ err panic
    | leaf children ↦ ok (length children)
    | interior children ↦ ok (length children)
  ]

  unfoldable pub max_key : BTreeEntry K I R E → Result K
  max_key e = elim e.node [
    | uninitialized ↦ err panic
    | leaf children ↦ last_key_of_leaf children
    | interior children ↦ last_key_of_interior children
  ]

  unfoldable pub stats : Reducer I R → BTreeEntry K I R E → Result R
  stats reducer e = elim e.node [
    | uninitialized ↦ err panic
    | leaf children ↦ ok (reducer.reduce (map (λ (c : KeyEntry K I). c.index) children))
    | interior children ↦ ok (reducer.rereduce (map (λ (c : Interior K R E). c.stats) children))
  ]

  -- `Interior::new`
  unfoldable pub new : Reducer I R → BTreeEntry K I R E → Result (Interior K R (BTreeEntry K I R E))
  new reducer e = do
    key ← max_key e
    stats ← stats reducer e
    ok (record { key = key; position = loaded none e; stats = stats })

module _ {E : Type 0} where
  -- `Pointer::position`
  unfoldable pub pointer_position : Pointer E → Option ℕ
  pointer_position (on_disk location) = some location
  pointer_position (loaded previous_location e) = previous_location

  -- `Pointer::load`: a node that is already loaded stays; `fetch` reads the chunk at a position and
  -- decodes it.
  unfoldable pub load : (ℕ → Result E) → Pointer E → Result (Pointer E)
  load fetch (on_disk position) = do entry ← fetch position; ok (loaded (some position) entry)
  load fetch (loaded previous_location e) = ok (loaded previous_location e)

  -- `Pointer::get`, `get_mut`
  unfoldable pub get : Pointer E → Option E
  get (on_disk position) = none
  get (loaded previous_location e) = some e
