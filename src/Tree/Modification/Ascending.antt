-- ===== src/Tree/Modification/Ascending.antt =====
-- `Modification::reverse` accepts the ascending lists of keys and no others.
use nebari.Common.{
  List, [], ◌∷◌, ◌≡◌, refl, Bool, true, false, Bool-cases, ◌⊎◌, inl, inr, All-imp, arith,
}
use nebari.Common.Ord.{Ord, ◌≺◌}
use nebari.Error.{ok, err, keys_not_ordered}
use nebari.Tree.Modification.{Modification, is_ascending, reverse}
use nebari.Tree.Spec.{IsAscending}

module _ {K : Type 0} ⦃o : Ord K⦄ where
  first_two :
      (a b : K) (ks : List K)
      → is_ascending (a ∷ b ∷ ks) ≡ true
      → (a ≺ b) × (is_ascending (b ∷ ks) ≡ true)
  unfolding is_ascending
  first_two a b ks h = ground (arith, h)

  is_ascending-IsAscending : (ks : List K) → is_ascending ks ≡ true → IsAscending ks
  is_ascending-IsAscending [] h = tt
  is_ascending-IsAscending (a ∷ []) h = (tt, tt)
  is_ascending-IsAscending (a ∷ b ∷ ks) h =
      let two = first_two a b ks h in
      let rest = is_ascending-IsAscending (b ∷ ks) two.1 in
      ((two.0, All-imp ks (λ j e. o.lt_trans a b j two.0 e) rest.0), rest)

  IsAscending-is_ascending : (ks : List K) → IsAscending ks → is_ascending ks ≡ true
  unfolding is_ascending
  IsAscending-is_ascending [] h = refl
  IsAscending-is_ascending (a ∷ []) h = refl
  IsAscending-is_ascending (a ∷ b ∷ ks) h =
      ground (arith, h.0.0, IsAscending-is_ascending (b ∷ ks) h.1)

module _ {K V I S : Type 0} ⦃o : Ord K⦄ where
  -- Either the keys of a modification are ascending, all pairs of them, and `reverse` accepts it as it
  -- is, or they are not, and it is refused because they are not ordered.
  pub reverse_lem :
      (m : Modification K V I S)
      → (IsAscending m.keys × (reverse m ≡ ok (record { keys = m.keys; operation = m.operation })))
        ⊎ ((¬ IsAscending m.keys) × (reverse m ≡ err keys_not_ordered))
  unfolding reverse
  reverse_lem m = elim (Bool-cases (is_ascending m.keys)) [
    | inl e ↦ inl (is_ascending-IsAscending m.keys e, rw e refl)
    | inr e ↦ inr (λ h. refused (IsAscending-is_ascending m.keys h) e, rw e refl)
  ]
    where
      refused : {b : Bool} → b ≡ true → b ≡ false → ⊥
      refused h e = cc
