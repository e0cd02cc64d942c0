-- ===== src/Error.antt =====
-- nebari/src/error.rs: the kinds of error that the modelled code returns. A panic of the program
-- (`unwrap` on `None`, `unreachable!`, an index out of range) is the kind `panic`.
use nebari.Common.{◌≡◌, refl, ap, subst, Bool, true, false, if◌then◌else◌}

pub data InternalError : Type 0 where
  header_too_large transaction_manager_stopped internal_communication incorrect_byte_length :
      InternalError

-- The payloads that are text or foreign errors are left out.
pub data ErrorKind : Type 0 where
  message io data_integrity invalid_tree_name : ErrorKind
  key_too_large value_too_large keys_not_ordered : ErrorKind
  tree_compacted vault transaction_pushed_out_of_order : ErrorKind
  internal : InternalError → ErrorKind
  panic : ErrorKind

pub data Result {ℓ} (A : Type ℓ) : Type ℓ where
  ok : A → Result A
  err : ErrorKind → Result A

-- The `?` operator: the rest runs on the value, and an error ends the function.
infixl 5 ◌>>=◌
abbrev pub ◌>>=◌ {ℓ κ} : {X : Type ℓ} {Y : Type κ} → Result X → (X → Result Y) → Result Y
ok x >>= rest = rest x
err kind >>= rest = err kind

-- Every value that `r` returns satisfies `P`.
pub record Ensures {ℓ κ} {A : Type ℓ} (P : A → Type κ) (r : Result A) : Type (ℓ ⊔ κ) where
  pub at : (a : A) → r ≡ ok a → P a

pub ok-injective {ℓ} : {A : Type ℓ} {a b : A} → ok a ≡ ok b → a ≡ b
ok-injective {A = A} {a = a} e = ap value e
  where
    value : Result A → A
    value (ok b) = b
    value (err e) = a

module _ {ℓ κ} {A : Type ℓ} {P : A → Type κ} where
  pub Ensures-ok : (a : A) → P a → Ensures P (ok a)
  Ensures-ok a p = record { at = λ b e. subst P (ok-injective e) p }

  pub Ensures-err : (e : ErrorKind) → Ensures P (err e)
  Ensures-err e = record { at = λ b h. cc }

  -- A postcondition may name the result that it is about.
  pub Ensures-self : (r : Result A) → ((a : A) → r ≡ ok a → P a) → Ensures P r
  Ensures-self r f = record { at = f }

module _ {ℓ κ μ ν} {A : Type ℓ} {B : Type κ} {P : A → Type μ} {Q : B → Type ν} where
  pub Ensures-bind :
      (m : Result A) (f : A → Result B)
      → Ensures P m
      → ((a : A) → P a → Ensures Q (f a))
      → Ensures Q (m >>= f)
  Ensures-bind (ok a) f h k = k a (h.at a refl)
  Ensures-bind (err e) f h k = Ensures-err e

module _ {ℓ κ ν} {A : Type ℓ} {B : Type κ} {Q : B → Type ν} where
  -- Where nothing is known of the first result.
  pub Ensures-then :
      (m : Result A) (f : A → Result B) → ((a : A) → Ensures Q (f a)) → Ensures Q (m >>= f)
  Ensures-then (ok a) f k = k a
  Ensures-then (err e) f k = Ensures-err e

module _ {ℓ μ ν} {A : Type ℓ} {P : A → Type μ} {Q : A → Type ν} where
  pub Ensures-imp : (r : Result A) → ((a : A) → P a → Q a) → Ensures P r → Ensures Q r
  Ensures-imp r f h = record { at = λ a e. f a (h.at a e) }

module _ {ℓ κ} {A : Type ℓ} {P : A → Type κ} where
  pub Ensures-if :
      (b : Bool) (x y : Result A)
      → (b ≡ true → Ensures P x)
      → (b ≡ false → Ensures P y)
      → Ensures P (if b then x else y)
  Ensures-if true x y hx hy = hx refl
  Ensures-if false x y hx hy = hy refl

module _ {ℓ κ ν} {A : Type ℓ} {P : A → Type κ} {Q : A → Type ν} where
  pub Ensures-and : (r : Result A) → Ensures P r → Ensures Q r → Ensures (λ a. P a × Q a) r
  Ensures-and r hp hq = record { at = λ a e. (hp.at a e, hq.at a e) }
