-- ===== src/Transaction/Log/Pages.antt =====
-- Reading a payload from pages: what one page gives, and what the pages behind it.
use nebari.Common.{
  ℕ, zero, suc, ◌+◌, ◌-◌, ◌≤◌, ◌<◌, ◌≡◌, refl, sym, ap, subst, ◌∙◌, min, Bool, true, false, List,
  [], ◌∷◌, ◌++◌, length, take, drop, length-append, length-take, length-drop, take-append,
  drop-append, if◌then◌else◌, append_assoc, take-append-drop, concat_map, lt→ltb, le→ltb, arith,
}
use nebari.Error.{Result, ok, ◌>>=◌}
use nebari.Io.Memory.{MemoryFile, forward, seek, read}
use nebari.Transaction.Log.{page_size, page_header, read_payload}

-- A file between what is before its position and what is after.
abbrev pub at : List ℕ → List ℕ → MemoryFile ℕ
at before after = record { buffer = before ++ after; position = length before }

at-append :
    (before x after : List ℕ)
    → record { buffer = before ++ (x ++ after); position = length before + length x }
      ≡ at (before ++ x) after
at-append before x after = simp (append_assoc, length-append)

pub read-at :
    (x before after : List ℕ)
    → read (length x) (at before (x ++ after)) ≡ ok (x, at (before ++ x) after)
unfolding read
read-at x before after =
    rw
      (
        le→ltb (length (before ++ (x ++ after))) (length before + length x)
            (omega (arith, length-append before (x ++ after), length-append x after)),
        drop-append before (x ++ after),
        take-append x after,
        at-append before x after,
      )
      refl

seek-at :
    (b : ℕ) (before after : List ℕ)
    → seek (forward 1) (at before (b ∷ after)) ≡ ok (at (before ++ (b ∷ [])) after)
unfolding seek
seek-at b before after = ap ok (at-append before (b ∷ []) after)

abbrev pub payload_of : Result (List ℕ × MemoryFile ℕ) → Result (List ℕ)
payload_of r = r >>= λ r. ok r.0

pub read_payload-end :
    (n len offset : ℕ) (first : Bool) (payload : List ℕ) (log : MemoryFile ℕ)
    → len ≤ offset
    → read_payload n len offset first payload log ≡ ok (payload, log)
unfolding read_payload
read_payload-end zero len offset first payload log h = refl
read_payload-end (suc n) len offset first payload log h = simp (read_payload, le→ltb offset len h)

pub page_header-later :
    (payload : List ℕ) (offset : ℕ) → 0 < offset → page_header payload offset ≡ ok (0 ∷ [])
unfolding page_header
page_header-later payload zero h = absurd (omega arith)
page_header-later payload (suc offset) h = refl

-- A page that does not begin an entry.
abbrev pub IsContinuation : List ℕ → Type 0
IsContinuation page = (length page ≡ page_size) × ((rest : List ℕ) × (page ≡ 0 ∷ rest))

abbrev pub IsReadable : List ℕ → ℕ → List (List ℕ) → Type 0
IsReadable payload offset pages =
    (before after read_before : List ℕ) (n : ℕ)
    → length payload ≤ n + offset
    → payload_of (
        read_payload n (length payload) offset false read_before
          (at before (concat_map (λ page. page) pages ++ after)))
      ≡ ok (read_before ++ drop offset payload)

drop-nil : (n : ℕ) → drop {A = ℕ} n [] ≡ []
drop-nil zero = refl
drop-nil (suc n) = refl

shift : (o c : ℕ) → suc (o + c) ≡ suc o + c
shift o c = omega arith

pub drop-drop : (c o : ℕ) (xs : List ℕ) → drop c (drop o xs) ≡ drop (o + c) xs
drop-drop c o [] = rw (drop-nil o, drop-nil c, drop-nil (o + c)) refl
drop-drop c zero (x ∷ xs) = ap (λ n. drop n (x ∷ xs)) (omega arith)
drop-drop c (suc o) (x ∷ xs) = drop-drop c o xs ∙ ap (λ n. drop n (x ∷ xs)) (shift o c)

abbrev pub chunk : List ℕ → ℕ → ℕ → List ℕ
chunk payload offset c = take c (drop offset payload)

pub length-chunk :
    (payload : List ℕ) (offset c : ℕ)
    → offset + c ≤ length payload
    → length (chunk payload offset c) ≡ c
length-chunk payload offset c h =
    omega (arith, length-take c (drop offset payload), length-drop offset payload)

-- The bytes of a page are read, and the rest of the payload from what follows.
page-readable :
    (payload : List ℕ) (offset c m : ℕ) (before tail read_before : List ℕ)
    → offset + c ≤ length payload
    → ((before read_before : List ℕ)
        → payload_of
            (read_payload m (length payload) (offset + c) false read_before (at before tail))
          ≡ ok (read_before ++ drop (offset + c) payload))
    → payload_of (
        read c (at before (chunk payload offset c ++ tail)) >>= λ (bytes, log).
        read_payload m (length payload) (offset + c) false (read_before ++ bytes) log)
      ≡ ok (read_before ++ drop offset payload)
page-readable payload offset c m before tail read_before h next =
    subst
      (λ k.
        payload_of (
          read k (at before (chunk payload offset c ++ tail)) >>= λ (bytes, log).
          read_payload m (length payload) (offset + c) false (read_before ++ bytes) log)
        ≡ ok (read_before ++ drop offset payload))
      (length-chunk payload offset c h)
      (rw (read-at (chunk payload offset c) before tail) (
        next (before ++ chunk payload offset c) (read_before ++ chunk payload offset c)
        ∙ ap ok (
            append_assoc read_before _ _
            ∙ ap (λ xs. read_before ++ (chunk payload offset c ++ xs))
                (sym (drop-drop c offset payload))
            ∙ ap (λ xs. read_before ++ xs) (take-append-drop c (drop offset payload)))))

pub read_payload-page :
    (payload read_before tail : List ℕ) (offset c m : ℕ) (before : List ℕ) (first : Bool)
    → 0 < c
    → offset + c ≤ length payload
    → c ≡ min (page_size - (if first then 4 else 1)) (length payload - offset)
    → ((before read_before : List ℕ)
        → payload_of
            (read_payload m (length payload) (offset + c) false read_before (at before tail))
          ≡ ok (read_before ++ drop (offset + c) payload))
    → payload_of (
        read_payload
          (suc m)
          (length payload)
          offset
          first
          read_before
          (at before ((if first then [] else 0 ∷ []) ++ (chunk payload offset c ++ tail))))
      ≡ ok (read_before ++ drop offset payload)
unfolding read_payload
read_payload-page payload read_before tail offset c m before true some h e next =
    rw (read_payload, lt→ltb offset (length payload) (omega arith), ← e)
      (page-readable payload offset c m before tail read_before h next)
read_payload-page payload read_before tail offset c m before false some h e next =
    rw (read_payload, lt→ltb offset (length payload) (omega arith), ← e, seek-at 0 before _)
      (page-readable payload offset c m (before ++ (0 ∷ [])) tail read_before h next)
