-- ===== src/Tree/Splice/MaxKey.antt =====
-- `max_key` is the last key of what a sound node holds; so an interior with its key computed again
-- is sound, and holds what its entry holds.
use nebari.Common.{ℕ, ◌≡◌, refl, Option, some, List, [], ◌∷◌, concat_map, append-nil, All}
use nebari.Error.{
  Result, ok, err, panic, ◌>>=◌, Ensures, Ensures-ok, Ensures-err, Ensures-bind, Ensures-self,
  Ensures-imp,
}
use nebari.Tree.Node.{
  KeyEntry, Pointer, on_disk, loaded, Interior, BTreeNode, uninitialized, leaf, interior,
  BTreeEntry, Reducer, max_key, last_key_of_leaf, last_key_of_interior, stats, load, new,
}
use nebari.Tree.Splice.{get_mut, refresh}
use nebari.Tree.Contents.{
  Level, last_key, last_key-append, pointer_holds, PointerSound, fetched, FetchedSound, child_holds,
  ChildSound, node_holds, NodeSound, above,
}

module _ {K I : Type 0} where
  leaf-max_key :
      (cs : List (KeyEntry K I)) → Ensures (λ k. last_key cs ≡ some k) (last_key_of_leaf cs)
  leaf-max_key [] = Ensures-err panic
  leaf-max_key (c ∷ []) = Ensures-ok c.key refl
  leaf-max_key (c ∷ d ∷ cs) = leaf-max_key (d ∷ cs)

module _ {K I R E : Type 0} (level : Level K I E) where
  interior-max_key :
      (cs : List (Interior K R E))
      → All (ChildSound level) cs
      → Ensures
          (λ k. last_key (concat_map (child_holds level) cs) ≡ some k)
          (last_key_of_interior cs)
  interior-max_key [] h = Ensures-err panic
  interior-max_key (c ∷ []) h = Ensures-ok c.key (rw append-nil h.0.1)
  interior-max_key (c ∷ d ∷ cs) h =
      Ensures-imp _ (λ k e. last_key-append (child_holds level c) _ k e)
        (interior-max_key (d ∷ cs) h.1)

  -- In a sound node, `max_key`, where it returns, is the key of the last entry that the node holds.
  pub max_key-last_key :
      (e : BTreeEntry K I R E)
      → NodeSound level e.node
      → Ensures (λ k. last_key (node_holds level e.node) ≡ some k) (max_key e)
  unfolding max_key
  max_key-last_key e h = go e.node h
    where
      go :
          (n : BTreeNode K I R E)
          → NodeSound level n
          → Ensures
              (λ k. last_key (node_holds level n) ≡ some k)
              (max_key (record { dirty = e.dirty; node = n }))
      go uninitialized s = Ensures-err panic
      go (leaf cs) s = leaf-max_key cs
      go (interior cs) s = interior-max_key cs s.1

module _ {K I R E : Type 0} (level : Level K I E) (fetch : ℕ → Result (BTreeEntry K I R E)) where
  -- The interior stands for a sound node that holds these entries.
  abbrev pub Stands : List (KeyEntry K I) → Interior K R (BTreeEntry K I R E) → Type 0
  Stands entries c =
      (child_holds (above level fetch) c ≡ entries) × ChildSound (above level fetch) c

  pub refresh-Stands :
      (reducer : Reducer I R) (location : Option ℕ) (e : BTreeEntry K I R E)
      → NodeSound level e.node
      → Ensures (Stands (node_holds level e.node)) (refresh reducer location e)
  unfolding refresh
  refresh-Stands reducer location e h = Ensures-bind _ _ (max_key-last_key level e h) λ k hk.
      Ensures-bind {P = λ r. Unit {0}} (stats reducer e) _ (Ensures-self _ (λ a x. tt))
        λ r hr. Ensures-ok _ (refl, (h, hk))

  pub new-Stands :
      (reducer : Reducer I R) (e : BTreeEntry K I R E)
      → NodeSound level e.node
      → Ensures (Stands (node_holds level e.node)) (new reducer e)
  unfolding new
  new-Stands reducer e h = Ensures-bind _ _ (max_key-last_key level e h) λ k hk.
      Ensures-bind {P = λ r. Unit {0}} (stats reducer e) _ (Ensures-self _ (λ a x. tt))
        λ r hr. Ensures-ok _ (refl, (h, hk))

module _ {K I E : Type 0} (level : Level K I E) where
  -- A loaded pointer holds what the pointer held.
  pub load_lem :
      (p : Pointer E)
      → PointerSound level p
      → Ensures
          (λ q. (pointer_holds level q ≡ pointer_holds level p) × PointerSound level q)
          (load level.fetch p)
  unfolding load
  load_lem (loaded location e) h = Ensures-ok _ (refl, h)
  load_lem (on_disk position) h = go (level.fetch position) h
    where
      go :
          (r : Result E)
          → FetchedSound level r
          → Ensures
              (λ q. (pointer_holds level q ≡ fetched level r) × PointerSound level q)
              (r >>= λ e. ok (loaded (some position) e))
      go (ok e) k = Ensures-ok _ (refl, k)
      go (err e) k = elim k [ ]

  pub get_mut_lem :
      (p : Pointer E)
      → PointerSound level p
      → Ensures (λ e. (level.holds e ≡ pointer_holds level p) × level.Sound e) (get_mut p)
  get_mut_lem (on_disk position) h = Ensures-err panic
  get_mut_lem (loaded location e) h = Ensures-ok e (refl, h)
