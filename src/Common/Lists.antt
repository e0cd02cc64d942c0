-- ===== src/Common/Lists.antt =====
-- Lists measured and cut by native numbers, under the library's names.
use Prim.Native.Nat.{ℕ, zero, suc, ◌+◌, ◌-◌, ◌≤◌, min}
use mathlib.Core.Path.{◌≡◌, refl, ap}
use mathlib.Core.List.{List, [], ◌∷◌, ◌++◌, map, append_assoc}
use mathlib.Core.Option.{Option, none, some}
use native.Mathlib.Omega.{arith}

module _ {ℓ} {A : Type ℓ} where
  abbrev pub length : List A → ℕ
  length [] = 0
  length (x ∷ xs) = suc (length xs)

  abbrev pub take : ℕ → List A → List A
  take zero xs = []
  take (suc n) [] = []
  take (suc n) (x ∷ xs) = x ∷ take n xs

  abbrev pub drop : ℕ → List A → List A
  drop zero xs = xs
  drop (suc n) [] = []
  drop (suc n) (x ∷ xs) = drop n xs

  abbrev pub get_last? : List A → Option A
  get_last? [] = none
  get_last? (x ∷ []) = some x
  get_last? (x ∷ y ∷ xs) = get_last? (y ∷ xs)

  abbrev pub replicate : ℕ → A → List A
  replicate zero a = []
  replicate (suc n) a = a ∷ replicate n a

  -- The elements before the cursor are kept nearest first.
  abbrev pub reverse_append : List A → List A → List A
  reverse_append [] ys = ys
  reverse_append (x ∷ xs) ys = reverse_append xs (x ∷ ys)

module _ {ℓ} {A : Type ℓ} where
  pub length-append : (xs ys : List A) → length (xs ++ ys) ≡ length xs + length ys
  length-append [] ys = omega arith
  length-append (x ∷ xs) ys = omega (arith, length-append xs ys)

  pub take-append-drop : (n : ℕ) (xs : List A) → take n xs ++ drop n xs ≡ xs
  take-append-drop zero xs = refl
  take-append-drop (suc n) [] = refl
  take-append-drop (suc n) (x ∷ xs) = rw (take-append-drop n xs)

  pub length-take : (n : ℕ) (xs : List A) → length (take n xs) ≡ min n (length xs)
  length-take zero xs = omega arith
  length-take (suc n) [] = omega arith
  length-take (suc n) (x ∷ xs) = omega (arith, length-take n xs)

  pub length-drop : (n : ℕ) (xs : List A) → length (drop n xs) ≡ length xs - n
  length-drop zero xs = omega arith
  length-drop (suc n) [] = omega arith
  length-drop (suc n) (x ∷ xs) = omega (arith, length-drop n xs)

  pub length-replicate : (n : ℕ) (a : A) → length (replicate n a) ≡ n
  length-replicate zero a = refl
  length-replicate (suc n) a = ap suc (length-replicate n a)

  pub take-append : (xs ys : List A) → take (length xs) (xs ++ ys) ≡ xs
  take-append [] ys = refl
  take-append (x ∷ xs) ys = rw (take-append xs ys)

  pub drop-append : (xs ys : List A) → drop (length xs) (xs ++ ys) ≡ ys
  drop-append [] ys = refl
  drop-append (x ∷ xs) ys = drop-append xs ys

  pub take_all : (n : ℕ) (xs : List A) → length xs ≤ n → take n xs ≡ xs
  take_all zero [] h = refl
  take_all zero (x ∷ xs) h = absurd (omega arith)
  take_all (suc n) [] h = refl
  take_all (suc n) (x ∷ xs) h = rw (take_all n xs (omega arith))

  pub drop_all : (n : ℕ) (xs : List A) → length xs ≤ n → drop n xs ≡ []
  drop_all zero [] h = refl
  drop_all zero (x ∷ xs) h = absurd (omega arith)
  drop_all (suc n) [] h = refl
  drop_all (suc n) (x ∷ xs) h = drop_all n xs (omega arith)

  pub reverse_append-append :
      (xs ys zs : List A) → reverse_append xs (ys ++ zs) ≡ reverse_append xs ys ++ zs
  reverse_append-append [] ys zs = refl
  reverse_append-append (x ∷ xs) ys zs = reverse_append-append xs (x ∷ ys) zs

  pub reverse_append-nil : (xs ys : List A) → reverse_append xs ys ≡ reverse_append xs [] ++ ys
  reverse_append-nil xs ys = reverse_append-append xs [] ys

module _ {ℓ κ} {A : Type ℓ} {B : Type κ} where
  pub length-map : (xs : List A) (f : A → B) → length (map f xs) ≡ length xs
  length-map [] f = refl
  length-map (x ∷ xs) f = ap suc (length-map xs f)

  -- The results of `f` one after another, over the list type of this development.
  abbrev pub concat_map : (A → List B) → List A → List B
  concat_map f [] = []
  concat_map f (x ∷ xs) = f x ++ concat_map f xs

  pub concat_map-append :
      (f : A → List B) (xs ys : List A)
      → concat_map f (xs ++ ys) ≡ concat_map f xs ++ concat_map f ys
  concat_map-append f [] ys = refl
  concat_map-append f (x ∷ xs) ys = simp (concat_map-append f xs ys, append_assoc)

-- A predicate of every element.
abbrev pub All {ℓ κ} : {A : Type ℓ} → (A → Type κ) → List A → Type κ
All P [] = Unit
All P (x ∷ xs) = P x × All P xs

module _ {ℓ κ} {A : Type ℓ} (P : A → Type κ) where
  pub All-append : (xs ys : List A) → All P xs → All P ys → All P (xs ++ ys)
  All-append [] ys hx hy = hy
  All-append (x ∷ xs) ys hx hy = (hx.0, All-append xs ys hx.1 hy)

  pub All-prefix : (xs ys : List A) → All P (xs ++ ys) → All P xs
  All-prefix [] ys h = tt
  All-prefix (x ∷ xs) ys h = (h.0, All-prefix xs ys h.1)

  pub All-suffix : (xs ys : List A) → All P (xs ++ ys) → All P ys
  All-suffix [] ys h = h
  All-suffix (x ∷ xs) ys h = All-suffix xs ys h.1

  pub All-take : (n : ℕ) (xs : List A) → All P xs → All P (take n xs)
  All-take zero xs h = tt
  All-take (suc n) [] h = tt
  All-take (suc n) (x ∷ xs) h = (h.0, All-take n xs h.1)

  pub All-drop : (n : ℕ) (xs : List A) → All P xs → All P (drop n xs)
  All-drop zero xs h = h
  All-drop (suc n) [] h = tt
  All-drop (suc n) (x ∷ xs) h = All-drop n xs h.1

  pub All-reverse_append : (xs ys : List A) → All P xs → All P ys → All P (reverse_append xs ys)
  All-reverse_append [] ys hx hy = hy
  All-reverse_append (x ∷ xs) ys hx hy = All-reverse_append xs (x ∷ ys) hx.1 (hx.0, hy)

  pub All-unreverse : (xs ys : List A) → All P (reverse_append xs ys) → All P xs × All P ys
  All-unreverse [] ys h = (tt, h)
  All-unreverse (x ∷ xs) ys h =
      let rest = All-unreverse xs (x ∷ ys) h in ((rest.1.0, rest.0), rest.1.1)

module _ {ℓ μ ν} {A : Type ℓ} {P : A → Type μ} {Q : A → Type ν} where
  pub All-imp : (xs : List A) → ((x : A) → P x → Q x) → All P xs → All Q xs
  All-imp [] f h = tt
  All-imp (x ∷ xs) f h = (f x h.0, All-imp xs f h.1)
