-- ===== src/Tree/Modify/Leaf/Runs.antt =====
-- `modify_leaf` edits the leaf's entries key by key, as the specification does.
use nebari.Common.{
  ℕ, ◌+◌, max, not, ◌||◌, Option, List, [], ◌∷◌, ◌≡◌, refl, ap, sym, subst, ◌∙◌, Bool, true, false,
  length, leb, reverse_append, reverse_append-nil, All, All-imp, All-reverse_append, ◌⊎◌, inl, inr,
  arith,
}
use nebari.Common.Ord.{Ord, ◌≺◌}
use nebari.Error.{ok, Ensures, Ensures-ok, Ensures-bind, Ensures-self, Ensures-imp, Ensures-if}
use nebari.Tree.Node.{KeyEntry}
use nebari.Tree.Modification.{KeyOperation, Operation, Pending}
use nebari.Tree.Modify.Leaf.{
  Callbacks, decide, LeafOutcome, seek, matching, apply, is_beyond, leaf_loop, modify_leaf,
}
use nebari.Tree.Spec.{find, insert, delete, edit, AllBelow, IsSorted, IsAscending, Ran, done, step}
use nebari.Tree.Spec.Runs.{Ran-IsSorted}
use nebari.Tree.Spec.Locality.{find_after, edit_after}

module _ {K I : Type 0} ⦃o : Ord K⦄ where
  -- The search passes entries below the key and moves nothing.
  seek_lem :
      (key : K) (before after : List (KeyEntry K I))
      → AllBelow key before
      → let r = seek key before after in
        (reverse_append r.0 r.1 ≡ reverse_append before after)
        × AllBelow key r.0
        × (length r.0 + length r.1 ≡ length before + length after)
        × (matching key r.1 ≡ find key after)
  unfolding seek matching find
  seek_lem key before [] h = (refl, h, refl, refl)
  seek_lem key before (c ∷ after) h = ground (arith, seek_lem key (c ∷ before) after)

  -- What is done at the place of the search is the edit of the rest.
  apply_lem :
      (key : K) (before after : List (KeyEntry K I)) (op : KeyOperation I)
      → let r = seek key before after in
        ((apply key (matching key r.1) op r.1).0 ≡ edit key op r.1)
        × ((apply key (matching key r.1) op r.1).1 ≡ false → edit key op r.1 ≡ r.1)
  unfolding seek matching apply edit insert delete
  apply_lem key before [] KeyOperation.skip = (refl, λ e. refl)
  apply_lem key before [] (KeyOperation.set index) = (refl, λ e. cc)
  apply_lem key before [] KeyOperation.remove = (refl, λ e. refl)
  apply_lem key before (c ∷ after) op = ground (arith, apply_lem key (c ∷ before) after op)

  below_each :
      (key : K) (keys : List K) (xs : List (KeyEntry K I))
      → All (λ j. key ≺ j) keys
      → AllBelow key xs
      → All (λ j. AllBelow j xs) keys
  below_each key keys xs ha h =
      All-imp keys (λ j e. All-imp xs (λ c b. o.lt_trans c.key key j b e) h) ha

  -- The edit of the whole is the edit of the rest after the cursor.
  edit_at_cursor :
      (key : K) (op : KeyOperation I) (before after whole : List (KeyEntry K I))
      → reverse_append before after ≡ whole
      → AllBelow key before
      → reverse_append before (edit key op after) ≡ edit key op whole
  edit_at_cursor key op before after whole e h =
      reverse_append-nil before (edit key op after)
      ∙ sym
          (edit_after key op (reverse_append before []) after (All-reverse_append _ before [] h tt))
      ∙ ap (edit key op) (sym (reverse_append-nil before after) ∙ e)

  find_at_cursor :
      (key : K) (before after : List (KeyEntry K I))
      → AllBelow key before
      → find key (reverse_append before after) ≡ find key after
  find_at_cursor key before after h =
      ap (find key) (reverse_append-nil before after)
      ∙ find_after key (reverse_append before []) after (All-reverse_append _ before [] h tt)

-- Why the loop ends with a key left: the key is beyond the leaf, or the leaf is too large.
abbrev pub LeafStop : {K : Type 0} ⦃o : Ord K⦄ → Option K → ℕ → ℕ → List K → Type 0
LeafStop max_key max_len size [] = Unit
LeafStop max_key max_len size (k ∷ ks) = (is_beyond max_key k ≡ true) ⊎ (leb size max_len ≡ false)

module _ {K V I S : Type 0} ⦃o : Ord K⦄ (callbacks : Callbacks K V I S) (max_key : Option K)
    (max_len : ℕ) where
  abbrev pub LeafDone :
      List K → Operation K V I S → List (KeyEntry K I) → Bool → S → LeafOutcome K V I S → Type 0
  LeafDone keys operation entries any_changes s out =
      Ran callbacks (λ k. is_beyond max_key k ≡ false) out.pending.keys out.pending.operation
        out.children out.state keys operation entries s
      × LeafStop max_key max_len (length out.children) out.pending.keys
      × (out.any_changes ≡ false → (any_changes ≡ false) × (out.children ≡ entries))

  stop_lem :
      (keys : List K) (op : Operation K V I S) (before after : List (KeyEntry K I))
      (any_changes : Bool) (s : S)
      → LeafStop max_key max_len (length (reverse_append before after)) keys
      → Ensures (LeafDone keys op (reverse_append before after) any_changes s) (
          ok (record {
            pending = record { keys = keys; operation = op };
            children = reverse_append before after;
            any_changes = any_changes;
            state = s;
          }))
  stop_lem keys op before after any_changes s h = Ensures-ok _ (done, h, λ e. (e, refl))

  or_false : (a b : Bool) → (a || b) ≡ false → (a ≡ false) × (b ≡ false)
  or_false a b h = ground arith

  length-reverse_append :
      {A : Type 0} (xs ys : List A) → length (reverse_append xs ys) ≡ length xs + length ys
  length-reverse_append [] ys = omega arith
  length-reverse_append (x ∷ xs) ys = omega (arith, length-reverse_append xs (x ∷ ys))

  leaf_loop_lem :
      (keys : List K) (op : Operation K V I S) (before after : List (KeyEntry K I))
      (any_changes : Bool) (s : S)
      → IsAscending keys
      → All (λ k. AllBelow k before) keys
      → Ensures
          (LeafDone keys op (reverse_append before after) any_changes s)
          (leaf_loop callbacks max_key max_len keys op before after any_changes s)
  unfolding leaf_loop
  leaf_loop_lem [] op before after any_changes s hk hb =
      stop_lem [] op before after any_changes s tt
  leaf_loop_lem (key ∷ keys) op before after any_changes s hk hb =
      let r = seek key before after in
      let sought = seek_lem key before after hb.0 in
      let whole = reverse_append before after in
      let large : not (leb (length before + length after) max_len) ≡ true
          → leb (length whole) max_len ≡ false =
        λ e. ground (arith, e, length-reverse_append before after) in
      Ensures-if (not (leb (length before + length after) max_len)) _ _
        (λ e. stop_lem (key ∷ keys) op before after any_changes s (inr (large e)))
        (λ e.
          Ensures-if (is_beyond max_key key) _ _
            (λ b. stop_lem (key ∷ keys) op before after any_changes s (inl b))
            (λ b.
              Ensures-bind _ _
                (Ensures-self (decide callbacks key (matching key r.1) op s) (λ d hd. hd))
                λ d hd.
                  let applied = apply_lem key before after d.key_operation in
                  let after' = (apply key (matching key r.1) d.key_operation r.1).0 in
                  let edited : reverse_append r.0 after' ≡ edit key d.key_operation whole =
                    ap (reverse_append r.0) applied.0
                    ∙ edit_at_cursor key d.key_operation r.0 r.1 whole sought.0 sought.1 in
                  Ensures-imp _
                    (λ out ho. (
                      step d b
                          (ap (λ t. decide callbacks key t op s)
                              (find_at_cursor key before after hb.0 ∙ sym sought.3)
                            ∙ hd)
                          (subst
                            (λ t.
                              Ran callbacks (λ k. is_beyond max_key k ≡ false) out.pending.keys
                                out.pending.operation out.children out.state keys d.operation t
                                d.state)
                            edited ho.0),
                      ho.1,
                      λ f.
                          let same = ho.2 f in
                          let parts = or_false any_changes _ same.0 in
                          (
                            parts.0,
                            same.1
                                ∙ ap (reverse_append r.0) (applied.0 ∙ applied.1 parts.1)
                                ∙ sought.0,
                          ),
                    ))
                    (leaf_loop_lem keys d.operation r.0 after' _ d.state hk.1
                      (below_each key keys r.0 hk.0 sought.1))))

module _ {K V I S : Type 0} ⦃o : Ord K⦄ where
  -- What holds however the leaf's entries are ordered, for the search as it is written here.
  pub modify_leaf-LeafDone :
      (callbacks : Callbacks K V I S) (current_order : ℕ) (max_key : Option K)
      (pending : Pending K V I S) (children : List (KeyEntry K I)) (s : S)
      → IsAscending pending.keys
      → Ensures
          (LeafDone callbacks max_key
            (max (length children) current_order)
            pending.keys
            pending.operation
            children
            false
            s)
          (modify_leaf callbacks current_order max_key pending children s)
  unfolding modify_leaf
  modify_leaf-LeafDone callbacks current_order max_key pending children s h =
      leaf_loop_lem callbacks max_key (max (length children) current_order) pending.keys
        pending.operation [] children false s h (everywhere pending.keys)
    where
      everywhere : (ks : List K) → All (λ (k : K). AllBelow {I = I} k []) ks
      everywhere [] = tt
      everywhere (k ∷ ks) = (tt, everywhere ks)

  -- If a sorted leaf is modified for ascending keys and this returns, the keys that are taken are
  -- taken in order, none of them beyond the limit, each time the callbacks decide with what the
  -- entries hold under the key, and the entries are edited as they decide, and stay sorted. A key is
  -- left only if it is beyond the limit or the leaf has grown past its size, and if no change is
  -- reported the entries are the same.
  pub modify_leaf_lem :
      (callbacks : Callbacks K V I S) (current_order : ℕ) (max_key : Option K)
      (pending : Pending K V I S) (children : List (KeyEntry K I)) (s : S)
      → IsAscending pending.keys
      → IsSorted children
      → Ensures
          (λ out.
            LeafDone callbacks max_key
              (max (length children) current_order)
              pending.keys
              pending.operation
              children
              false
              s
              out
            × IsSorted out.children)
          (modify_leaf callbacks current_order max_key pending children s)
  modify_leaf_lem callbacks current_order max_key pending children s h sorted =
      Ensures-imp _ (λ out d. (d, Ran-IsSorted d.0 sorted))
        (modify_leaf-LeafDone callbacks current_order max_key pending children s h)
