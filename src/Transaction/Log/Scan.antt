-- ===== src/Transaction/Log/Scan.antt =====
-- Scanning a file of segments from the border of any page, forward to the next entry or back to the
-- one that the page belongs to.
use nebari.Common.{
  ℕ, zero, suc, ◌+◌, ◌*◌, ◌≤◌, ◌<◌, ◌≡◌, refl, sym, ap, subst, ◌∙◌, Bool, true, false, Option, some,
  List, [], ◌∷◌, ◌++◌, length, length-append, append_assoc, All, All-prefix, All-suffix, concat_map,
  concat_map-append, arith, the,
}
use nebari.Error.{Result, ok, ◌>>=◌}
use nebari.Io.Memory.{file_length, seek}
use nebari.Encoding.{ByteOrder}
use nebari.Transaction.Log.{
  page_size, Vault, ScanResult, found, continuation, parse_header, adjacent_page, scan_loop,
}
use nebari.Transaction.Log.Pages.{IsContinuation}
use nebari.Transaction.Log.Segments.{
  Segment, bytes_of, IsSegment, scan_loop-continuation, length-pages,
}

abbrev concat : List (List ℕ) → List ℕ
concat = concat_map (λ page. page)

-- A page of a list, with those before and after.
record Cut (pages : List (List ℕ)) (j : ℕ) : Type 0 where
  earlier : List (List ℕ)
  page : List ℕ
  later : List (List ℕ)
  shape : pages ≡ earlier ++ (page ∷ later)
  place : length earlier ≡ j

split_at : (pages : List (List ℕ)) (j : ℕ) → j < length pages → Cut pages j
split_at [] j h = absurd (omega arith)
split_at (page ∷ pages) zero h = record {
  earlier = [];
  page = page;
  later = pages;
  shape = refl;
  place = refl;
}
split_at (page ∷ pages) (suc j) h =
    let cut = split_at pages j (omega arith) in
    record {
      earlier = page ∷ cut.earlier;
      page = cut.page;
      later = cut.later;
      shape = ap (λ xs. page ∷ xs) cut.shape;
      place = ap suc cut.place;
    }

module _ (bytes : ByteOrder ℕ) (vault : Option Vault) where
  -- A scan seeks before it reads.
  scan_loop-position :
      (n block : ℕ) (scan_forward : Bool) (buffer : List ℕ) (p q : ℕ)
      → scan_loop bytes vault n block scan_forward (record { buffer = buffer; position = p })
        ≡ scan_loop bytes vault n block scan_forward (record { buffer = buffer; position = q })
  unfolding scan_loop seek file_length
  scan_loop-position zero block scan_forward buffer p q = refl
  scan_loop-position (suc n) block scan_forward buffer p q = refl

  split_header :
      (page : List ℕ)
      → IsContinuation page
      → (header : List ℕ) × ((tail : List ℕ) × ((page ≡ header ++ tail)
            × ((length header ≡ 4) × (parse_header header ≡ continuation))))
  split_header [] h = absurd (omega (arith, h.0))
  split_header (a ∷ []) h = absurd (omega (arith, h.0))
  split_header (a ∷ b ∷ []) h = absurd (omega (arith, h.0))
  split_header (a ∷ b ∷ c ∷ []) h = absurd (omega (arith, h.0))
  split_header (zero ∷ b ∷ c ∷ d ∷ tail) h = (zero ∷ b ∷ c ∷ d ∷ [], (tail, (refl, (refl, refl))))
  split_header (suc a ∷ b ∷ c ∷ d ∷ tail) h = cc

  -- The scan of a page that does not begin an entry goes on at its neighbour.
  page_step :
      (before page after : List ℕ) (p n block : ℕ) (scan_forward : Bool)
      → IsContinuation page
      → adjacent_page (length before) scan_forward ≡ ok (some block)
      → scan_loop bytes vault
          (suc n)
          (length before)
          scan_forward
          (record { buffer = before ++ (page ++ after); position = p })
        ≡ scan_loop bytes vault n block scan_forward
            (record { buffer = before ++ (page ++ after); position = p })
  page_step before page after p n block scan_forward h e =
      let (header, (tail, (shape, (four, kind)))) = split_header page h in
      subst
        (λ rest.
          scan_loop bytes vault (suc n) (length before) scan_forward
            (record { buffer = before ++ rest; position = p })
          ≡ scan_loop bytes vault n block scan_forward
              (record { buffer = before ++ rest; position = p }))
        (sym (ap (λ page. page ++ after) shape ∙ append_assoc header tail after))
        (scan_loop-continuation bytes vault before header (tail ++ after) p n scan_forward four kind
          ∙ (rw (e, ◌>>=◌)
              (scan_loop-position n block scan_forward ((before ++ header) ++ (tail ++ after))
                  (length (before ++ header)) p
                ∙ ap
                    (λ buffer.
                      scan_loop bytes vault n block scan_forward
                        (record { buffer = buffer; position = p }))
                    (append_assoc before header (tail ++ after)))))

  forward_page : (block : ℕ) → 0 < block → adjacent_page block true ≡ ok (some (block + page_size))
  forward_page block h = ground arith

  backward_page : (block : ℕ) → adjacent_page (block + page_size) false ≡ ok (some block)
  backward_page block = ground arith

  module _ (buffer : List ℕ) (p : ℕ) where
    abbrev scan : ℕ → ℕ → Bool → Result ScanResult
    scan n block scan_forward =
        scan_loop bytes vault n block scan_forward (record { buffer = buffer; position = p })

    step_in :
        (before page after : List ℕ) (n block : ℕ) (scan_forward : Bool)
        → buffer ≡ before ++ (page ++ after)
        → IsContinuation page
        → adjacent_page (length before) scan_forward ≡ ok (some block)
        → scan (suc n) (length before) scan_forward ≡ scan n block scan_forward
    step_in before page after n block scan_forward e h next =
        subst
          (λ buffer.
            scan_loop bytes vault (suc n) (length before) scan_forward
              (record { buffer = buffer; position = p })
            ≡ scan_loop bytes vault n block scan_forward (record { buffer = buffer; position = p }))
          (sym e) (page_step before page after p n block scan_forward h next)

    -- Forward over the pages that do not begin an entry.
    pub scan-pages :
        (pages : List (List ℕ)) (before after : List ℕ) (n : ℕ)
        → buffer ≡ before ++ (concat pages ++ after)
        → 0 < length before
        → All IsContinuation pages
        → scan (length pages + n) (length before) true
          ≡ scan n (length before + page_size * length pages) true
    scan-pages [] before after n e later h =
        ap (λ k. scan k (length before) true) (the (0 + n ≡ n) (omega arith))
        ∙ ap (λ k. scan n k true) (the (length before ≡ length before + 1024 * 0) (omega arith))
    scan-pages (page ∷ pages) before after n e later h =
        ap (λ k. scan k (length before) true)
          (the (suc (length pages) + n ≡ suc (length pages + n)) (omega arith))
        ∙ (step_in before page (concat pages ++ after) (length pages + n)
              (length before + page_size) true
              (e ∙ ap (λ xs. before ++ xs) (append_assoc page (concat pages) after)) h.0
              (forward_page (length before) later)
            ∙ (ap (λ k. scan (length pages + n) k true)
                  (the (length before + page_size ≡ length (before ++ page))
                    (omega (arith, length-append before page, h.0.0)))
                ∙ (scan-pages pages (before ++ page) after n (e ∙ simp append_assoc)
                      (omega (arith, length-append before page)) h.1
                    ∙ ap (λ k. scan n k true)
                        (the
                          (length (before ++ page) + page_size * length pages
                            ≡ length before + page_size * suc (length pages))
                          (omega (arith, length-append before page, h.0.0))))))

    -- The scan of a segment's own pages, from any of them back to its first.
    back_step :
        (s : Segment) (before after : List ℕ) (j n : ℕ)
        → IsSegment bytes vault s
        → buffer ≡ before ++ (bytes_of s ++ after)
        → j < length s.pages
        → scan (suc n) (length before + page_size * suc j) false
          ≡ scan n (length before + page_size * j) false
    back_step s before after j n h e small =
        let cut = split_at s.pages j small in
        let earlier = before ++ (s.first_page ++ concat cut.earlier) in
        let kept : All IsContinuation (cut.earlier ++ (cut.page ∷ cut.later)) =
          subst (All IsContinuation) cut.shape h.continue in
        let pages = All-suffix IsContinuation cut.earlier (cut.page ∷ cut.later) kept in
        let border : length earlier ≡ length before + page_size * suc j = omega (
          arith,
          length-append before (s.first_page ++ concat cut.earlier),
          length-append s.first_page (concat cut.earlier),
          h.whole,
          length-pages cut.earlier (All-prefix IsContinuation cut.earlier _ kept),
          cut.place,
        ) in
        let whole : buffer ≡ earlier ++ (cut.page ++ (concat cut.later ++ after)) =
          e
          ∙ (ap (λ pages. before ++ ((s.first_page ++ concat pages) ++ after)) cut.shape
              ∙ simp (
                concat_map-append (λ page. page) cut.earlier (cut.page ∷ cut.later),
                append_assoc,
              )) in
        subst (λ k. scan (suc n) k false ≡ scan n (length before + page_size * j) false) border
          (step_in earlier cut.page (concat cut.later ++ after) n (length before + page_size * j)
            false whole pages.0
            (ap (λ k. adjacent_page k false)
                (the (length earlier ≡ (length before + page_size * j) + page_size)
                  (omega (arith, border)))
              ∙ backward_page (length before + page_size * j)))

    pub scan-back :
        (s : Segment) (before after : List ℕ) (j n : ℕ)
        → IsSegment bytes vault s
        → buffer ≡ before ++ (bytes_of s ++ after)
        → j ≤ length s.pages
        → scan (suc (j + n)) (length before + page_size * j) false
          ≡ ok (found s.entry (length before) s.payload_length)
    scan-back s before after zero n h e small =
        ap (λ k. scan (suc (0 + n)) k false)
          (the (length before + 1024 * 0 ≡ length before) (omega arith))
        ∙ (ap
              (λ b.
                scan_loop bytes vault (suc (0 + n)) (length before) false
                  (record { buffer = b; position = p }))
              e
            ∙ h.found_at before after p (0 + n) false)
    scan-back s before after (suc j) n h e small =
        back_step s before after j (suc j + n) h e (omega arith)
        ∙ (ap (λ k. scan k (length before + page_size * j) false)
              (the (suc j + n ≡ suc (j + n)) (omega arith))
            ∙ scan-back s before after j n h e (omega arith))
