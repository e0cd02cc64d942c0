-- ===== src/Common/Ord.antt =====
-- The order of keys. The program compares `ArcBytes`, whose `Ord` belongs to the crate
-- `arc-bytes`: a key type with a comparison and the laws that Rust's `Ord` documents.
use Prim.Native.Nat.{ℕ, compare, Ordering}
use Prim.Native.Nat.Ordering.{lt, eq, gt}
use mathlib.Core.Path.{◌≡◌}
use mathlib.Core.Bool.{Bool, true, false}
use native.Mathlib.Omega.{arith}

abbrev pub opposite : Ordering → Ordering
opposite gt = lt
opposite eq = eq
opposite lt = gt

pub record Ord {ℓ} (K : Type ℓ) : Type ℓ where
  pub cmp : K → K → Ordering
  -- Exchanging the keys turns the answer round, equal keys are the same, and `<` chains.
  pub cmp-opposite : (x y : K) → cmp y x ≡ opposite (cmp x y)
  pub eq_of_cmp : (x y : K) → cmp x y ≡ eq → x ≡ y
  pub lt_trans : (x y z : K) → cmp x y ≡ lt → cmp y z ≡ lt → cmp x z ≡ lt

infix 50 ◌≺◌
abbrev pub ◌≺◌ {ℓ} : {K : Type ℓ} ⦃o : Ord K⦄ → K → K → Type 0
◌≺◌ ⦃o⦄ x y = o.cmp x y ≡ lt

module _ {ℓ} {K : Type ℓ} ⦃o : Ord K⦄ where
  pub cmp_refl : (x : K) → o.cmp x x ≡ eq
  cmp_refl x = ground (arith, o.cmp-opposite x x)

  pub lt_of_gt : (x y : K) → o.cmp x y ≡ gt → o.cmp y x ≡ lt
  lt_of_gt x y h = ground (arith, o.cmp-opposite x y)

  pub gt_of_lt : (x y : K) → o.cmp x y ≡ lt → o.cmp y x ≡ gt
  gt_of_lt x y h = ground (arith, o.cmp-opposite x y)

abbrev pub key_lt {ℓ} : {K : Type ℓ} ⦃o : Ord K⦄ → K → K → Bool
key_lt ⦃o⦄ a b = elim (o.cmp a b) [ lt ↦ true | _ ↦ false ]

abbrev pub key_gt {ℓ} : {K : Type ℓ} ⦃o : Ord K⦄ → K → K → Bool
key_gt ⦃o⦄ a b = elim (o.cmp a b) [ gt ↦ true | _ ↦ false ]

pub compare-opposite : (x y : ℕ) → compare y x ≡ opposite (compare x y)
compare-opposite x y = ground arith

pub eq_of_compare : (x y : ℕ) → compare x y ≡ eq → x ≡ y
eq_of_compare x y h = ground arith

pub lt_trans_of_compare : (x y z : ℕ) → compare x y ≡ lt → compare y z ≡ lt → compare x z ≡ lt
lt_trans_of_compare x y z h k = ground arith

instance abbrev pub nat_ord : Ord ℕ
nat_ord = record {
  cmp = compare;
  cmp-opposite = compare-opposite;
  eq_of_cmp = eq_of_compare;
  lt_trans = lt_trans_of_compare;
}
