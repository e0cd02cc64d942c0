-- ===== src/Tree/Balance/Fuel.antt =====
-- The number of children is fuel enough for `process_interior_change_result`.
use nebari.Common.{
  ℕ, zero, suc, ◌+◌, ◌≤◌, ◌≡◌, refl, ap, List, [], ◌∷◌, Bool, length, if◌then◌else◌, arith, true,
}
use nebari.Error.{Result, ok, err, ◌>>=◌}
use nebari.Tree.Node.{
  Interior, loaded, load, BTreeEntry, ChangeResult, unchanged, remove, absorb, changed, split,
  Reducer,
}
use nebari.Tree.Splice.{Order, get_mut, previous_location, take_children}
use nebari.Tree.Balance.{
  Absorb, Process, absorbed, absorb_into, process_absorb, refresh_child, can_absorb,
  process_interior_change_result,
}

>>=-cong {ℓ κ} :
    {A : Type ℓ} {B : Type κ} (m : Result A) (f g : A → Result B)
    → ((a : A) → f a ≡ g a)
    → (m >>= f) ≡ (m >>= g)
>>=-cong (ok a) f g h = h a
>>=-cong (err e) f g h = refl

module _ {K I R E : Type 0} (fetch : ℕ → Result (BTreeEntry K I R E)) (reducer : Reducer I R)
    (order : Order) (absorb_entry : Absorb fetch reducer order) where
  abbrev Child : Type 0
  Child = Interior K R (BTreeEntry K I R E)

  -- The children around the one in hand, and itself.
  abbrev size : List Child → List Child → ℕ
  size before after = length before + suc (length after)

  absorb_into-cong :
      (p q : Process fetch reducer order) (removed : Child) (top : Bool) (before : List Child)
      (sponge : Child) (after : List Child)
      → ((r : ChangeResult) (c : Child) → p r before c after ≡ q r before c after)
      → absorb_into fetch reducer order absorb_entry p removed top before sponge after
        ≡ absorb_into fetch reducer order absorb_entry q removed top before sponge after
  unfolding absorb_into
  absorb_into-cong p q removed top before sponge after h =
      >>=-cong (get_mut removed.position) _ _ λ gone.
        >>=-cong (take_children gone.node) _ _ λ children.
          >>=-cong (load fetch sponge.position) _ _ λ position.
            >>=-cong (get_mut position) _ _ λ entry.
              >>=-cong (absorb_entry entry children top) _ _ λ r.
                ap (λ m. m >>= absorbed fetch reducer order)
                  (h r.0 (record sponge { position = loaded (previous_location position) r.1 }))

  process_absorb-cong :
      (p q : Process fetch reducer order) (n : ℕ) (before : List Child) (child : Child)
      (after : List Child)
      → size before after ≤ suc n
      → ((r : ChangeResult) (xs : List Child) (c : Child) (ys : List Child)
          → size xs ys ≤ n
          → p r xs c ys ≡ q r xs c ys)
      → process_absorb fetch reducer order absorb_entry p before child after
        ≡ process_absorb fetch reducer order absorb_entry q before child after
  unfolding process_absorb
  process_absorb-cong p q n [] child [] l h = refl
  process_absorb-cong p q n [] child (sponge ∷ after) l h =
      absorb_into-cong p q child _ [] sponge after λ r c. h r [] c after (omega (arith, l))
  process_absorb-cong p q n (sponge ∷ before) child after l h =
      absorb_into-cong p q child _ before sponge after λ r c. h r before c after (omega (arith, l))

  -- With fuel for every child, the answer does not depend on the fuel.
  pub process_change-fuel :
      (n m : ℕ) (result : ChangeResult) (before : List Child) (child : Child) (after : List Child)
      → length before + suc (length after) ≤ n
      → length before + suc (length after) ≤ m
      → process_interior_change_result fetch reducer order absorb_entry n result before child after
        ≡ process_interior_change_result fetch reducer order absorb_entry m result before child
            after
  unfolding process_interior_change_result
  process_change-fuel zero m result before child after hn hm = absurd (omega (arith, hn))
  process_change-fuel (suc n) zero result before child after hn hm = absurd (omega (arith, hm))
  process_change-fuel (suc n) (suc m) unchanged before child after hn hm = refl
  process_change-fuel (suc n) (suc m) changed before child after hn hm = refl
  process_change-fuel (suc n) (suc m) split before child after hn hm = refl
  process_change-fuel (suc n) (suc m) remove before child after hn hm = refl
  process_change-fuel (suc n) (suc m) absorb before child after hn hm =
      ap
        (λ r.
          if can_absorb fetch reducer order before after
          then r
          else refresh_child fetch reducer order true before child after)
        (process_absorb-cong (process_interior_change_result fetch reducer order absorb_entry n)
          (process_interior_change_result fetch reducer order absorb_entry m)
          (length before + length after) before child after (omega arith)
          λ r xs c ys l.
            process_change-fuel n m r xs c ys (omega (arith, l, hn)) (omega (arith, l, hm)))
