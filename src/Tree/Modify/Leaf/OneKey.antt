-- ===== src/Tree/Modify/Leaf/OneKey.antt =====
-- A leaf that is modified for one key.
use nebari.Common.{
  ℕ, suc, max, ◌≤◌, Option, List, [], ◌∷◌, ◌≡◌, refl, ap, sym, subst, ◌∙◌, Bool, true, false,
  length, leb, if◌then◌else◌, ◌⊎◌, inl, inr, arith,
}
use nebari.Common.Ord.{Ord}
use nebari.Error.{Ensures, Ensures-ok, Ensures-bind}
use nebari.Tree.Node.{KeyEntry, unchanged, remove}
use nebari.Tree.Splice.{Order, clean_up}
use nebari.Tree.Contents.{Level, node_holds, NodeSound}
use nebari.Tree.Absorb.Sound.{clean_up-ne-unchanged, clean_up-remove}
use nebari.Tree.Modification.{Operation, Pending}
use nebari.Tree.Modify.Leaf.{Callbacks, is_beyond, LeafOutcome}
use nebari.Tree.Modify.Leaf.Runs.{LeafDone, LeafStop, modify_leaf-LeafDone}
use nebari.Tree.Modify.Node.{Modified, modify_leaf_entry}
use nebari.Tree.Spec.{Ran, done, step}

module _ {K V I S : Type 0} ⦃o : Ord K⦄ {callbacks : Callbacks K V I S} {P : K → Type 0}
    {keys' : List K} {op' : Operation K V I S} {entries' : List (KeyEntry K I)} {s' : S} where
  keys_left :
      {keys : List K} {op : Operation K V I S} {entries : List (KeyEntry K I)} {s : S}
      → Ran callbacks P keys' op' entries' s' keys op entries s
      → length keys' ≤ length keys
  keys_left done = omega arith
  keys_left (step d p e q) = omega (arith, keys_left q)

  -- A run that starts with one key takes it, or does nothing.
  one_key :
      {keys : List K} {op : Operation K V I S} {entries : List (KeyEntry K I)} {s : S}
      → Ran callbacks P keys' op' entries' s' keys op entries s
      → length keys ≡ 1
      → (keys' ≡ []) ⊎ ((keys' ≡ keys) × (entries' ≡ entries))
  one_key done h = inr (refl, refl)
  one_key (step d p e q) h = inl (length-nil keys' (keys_left q) h)
    where
      length-nil : (ks : List K) {n : ℕ} → length ks ≤ n → suc n ≡ 1 → ks ≡ []
      length-nil [] l e = refl
      length-nil (k ∷ ks) l e = absurd (omega (arith, l, e))

at_most : (n m : ℕ) → ¬ (leb n (max n m) ≡ false)
at_most n m h = ground arith

module _ {K V I S : Type 0} ⦃o : Ord K⦄ (callbacks : Callbacks K V I S) (max_key : Option K)
    (key : K) (op : Operation K V I S) where
  -- The key is taken, and the entries are edited as the callbacks decide for it.
  abbrev pub OneEdit : List (KeyEntry K I) → S → Pending K V I S → List (KeyEntry K I) → S → Type 0
  OneEdit entries s pending' entries' s' =
      (pending'.keys ≡ [])
      × Ran callbacks (λ k. is_beyond max_key k ≡ false) pending'.keys pending'.operation entries'
          s' (key ∷ []) op entries s

  -- The node has been edited, is sound, and its answer is right about what it holds.
  abbrev pub Edited :
      {R E : Type 0} → Level K I E → List (KeyEntry K I) → S → Modified K V I R E S → Type 0
  Edited level entries s m =
      OneEdit entries s m.pending (node_holds level m.entry.node) m.state
      × NodeSound level m.entry.node
      × (m.result ≡ unchanged → node_holds level m.entry.node ≡ entries)
      × (m.result ≡ remove → node_holds level m.entry.node ≡ [])

  leaf_taken :
      (current_order : ℕ) (children : List (KeyEntry K I)) (s : S) (out : LeafOutcome K V I S)
      → is_beyond max_key key ≡ false
      → LeafDone callbacks max_key
          (max (length children) current_order)
          (key ∷ [])
          op
          children
          false
          s
          out
      → out.pending.keys ≡ []
  leaf_taken current_order children s out hb h = elim (one_key h.0 refl) [
    | inl e ↦ e
    | inr same ↦
        let stop =
          subst
            (λ ks. LeafStop max_key (max (length children) current_order) (length out.children) ks)
            same.0 h.1 in
        elim stop [
          | inl b ↦ cc
          | inr large ↦ absurd (
              at_most (length children) current_order (
                ap (λ xs. leb (length xs) (max (length children) current_order)) (sym same.1)
                ∙ large))
        ]
  ]

module _ (order : Order) where
  if-unchanged :
      (any : Bool) (n : ℕ) → (if any then clean_up order n else unchanged) ≡ unchanged → any ≡ false
  if-unchanged true n h = absurd (clean_up-ne-unchanged order n h)
  if-unchanged false n h = refl

  if-remove :
      {A : Type 0} (any : Bool) (xs : List A)
      → (if any then clean_up order (length xs) else unchanged) ≡ remove
      → xs ≡ []
  if-remove true xs h = clean_up-remove order xs h
  if-remove false xs h = cc

module _ {K V I R E S : Type 0} ⦃o : Ord K⦄ (level : Level K I E) (callbacks : Callbacks K V I S)
    (order : Order) where
  pub modify_leaf_entry-Edited :
      (max_key : Option K) (key : K) (op : Operation K V I S) (dirty : Bool)
      (children : List (KeyEntry K I)) (s : S)
      → level.bottom ≡ true
      → is_beyond max_key key ≡ false
      → Ensures (Edited callbacks max_key key op {R = R} level children s) (
          modify_leaf_entry callbacks order max_key
            (record { keys = key ∷ []; operation = op })
            dirty
            children
            s)
  unfolding modify_leaf_entry
  modify_leaf_entry-Edited max_key key op dirty children s b hb =
      Ensures-bind _ _
        (modify_leaf-LeafDone callbacks order.current_order max_key
          (record { keys = key ∷ []; operation = op }) children s (tt, tt))
        λ out h. Ensures-ok _ (
          (leaf_taken callbacks max_key key op order.current_order children s out hb h, h.0),
          b,
          (λ e. (h.2 (if-unchanged order out.any_changes _ e)).1),
          (λ e. if-remove order out.any_changes out.children e),
        )
