-- ===== src/Encoding/Nodes/All.antt =====
-- The children of a node, one after the other, are read back as they were written.
use nebari.Common.{
  ℕ, zero, suc, ◌<◌, ◌≤◌, ◌≡◌, refl, List, [], ◌∷◌, ◌++◌, length, length-append, map, append_assoc,
  append-nil, arith,
}
use nebari.Error.{Result, ok, Ensures, Ensures-ok, Ensures-bind}
use nebari.Encoding.RoundTrip.{Written}
use nebari.Encoding.Nodes.{serialize_all, deserialize_all}

pub map_id : {A : Type 0} → (xs : List A) → map (λ x. x) xs ≡ xs
map_id [] = refl
map_id (x ∷ xs) = rw (map_id xs)

abbrev pub Each : {A : Type 0} → (A → Type 0) → List A → Type 0
Each P [] = Unit
Each P (a ∷ xs) = P a × Each P xs

module _ {B W A V : Type 0} (view : A → V) (read : List B → Result (A × List B)) where
  -- The values that the answer holds are appended in some bytes, and fill a reader of just these.
  pub record AllStored (xs : List A) (writer : List B) (r : ℕ × List A × List B × W) : Type 0 where
    pub bytes : List B
    pub appended : r.2 ≡ writer ++ bytes
    pub counted : r.0 ≡ length bytes
    pub kept : map view r.1 ≡ map view xs
    pub readable : (fuel : ℕ) → length bytes ≤ fuel → deserialize_all read fuel bytes ≡ ok r.1

module _ {B A : Type 0} (read : List B → Result (A × List B)) where
  nothing_to_read : (fuel : ℕ) → deserialize_all read fuel [] ≡ ok []
  nothing_to_read zero = refl
  nothing_to_read (suc fuel) = refl

  read_one_more :
      (bytes rest : List B) (a : A) (xs : List A) (fuel : ℕ)
      → 0 < length bytes
      → length (bytes ++ rest) ≤ fuel
      → read (bytes ++ rest) ≡ ok (a, rest)
      → ((fuel : ℕ) → length rest ≤ fuel → deserialize_all read fuel rest ≡ ok xs)
      → deserialize_all read fuel (bytes ++ rest) ≡ ok (a ∷ xs)
  read_one_more [] rest a xs fuel h l e k = absurd (omega (arith, h))
  read_one_more (b ∷ bytes) rest a xs zero h l e k = absurd (omega (arith, l))
  read_one_more (b ∷ bytes) rest a xs (suc fuel) h l e k =
      simp (e, k fuel (omega (arith, l, length-append bytes rest)))

module _ {B W A V : Type 0} (view : A → V) where
  -- The value that the answer holds is appended in some bytes and read back, and it looks the same.
  abbrev pub Stored : (List B → Result (A × List B)) → A → List B → ℕ × A × List B × W → Type 0
  Stored read x writer r =
      Written read r.1 writer (r.0, r.2, r.3) × ((0 < r.0) × (view r.1 ≡ view x))

  pub all-AllStored :
      (read : List B → Result (A × List B)) (write : A → List B → W → Result (ℕ × A × List B × W))
      (P : A → Type 0)
      → ((a : A)
          → P a
          → (before : List B) (w : W) → Ensures (Stored read a before) (write a before w))
      → (xs : List A) → Each P xs
      → (writer : List B) (w : W)
      → Ensures (AllStored view read xs writer) (serialize_all write xs writer w)
  all-AllStored read write P h [] hp writer w = Ensures-ok _ (record {
    bytes = [];
    appended = simp append-nil;
    counted = refl;
    kept = refl;
    readable = λ fuel l. nothing_to_read read fuel;
  })
  all-AllStored read write P h (a ∷ xs) hp writer w = Ensures-bind _ _ (h a hp.0 writer w) λ r hr.
      Ensures-bind _ _ (all-AllStored read write P h xs hp.1 r.2 r.3) λ s hs. Ensures-ok _ (record {
        bytes = hr.0.bytes ++ hs.bytes;
        appended = simp (hs.appended, hr.0.appended, append_assoc);
        counted = omega (arith, hr.0.counted, hs.counted, length-append hr.0.bytes hs.bytes);
        kept = simp (hr.1.1, hs.kept);
        readable = λ fuel l.
            read_one_more read hr.0.bytes hs.bytes r.1 s.1 fuel
              (omega (arith, hr.1.0, hr.0.counted)) l (hr.0.readable hs.bytes) hs.readable;
      })
