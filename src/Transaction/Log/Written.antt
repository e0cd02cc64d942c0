-- ===== src/Transaction/Log/Written.antt =====
-- A payload that was written in pages is read back from them.
use nebari.Common.{
  ◌⊎◌, inl, inr, ℕ, zero, suc, ◌+◌, ◌-◌, ◌*◌, ◌≤◌, ◌<◌, ◌≡◌, refl, sym, subst, true, false, List,
  [], ◌∷◌, ◌++◌, length, drop, length-append, length-drop, drop_all, append-nil, append_assoc, All,
  concat_map, lt→ltb, le→ltb, arith,
}
use nebari.Error.{Result, ok}
use nebari.Io.Memory.{write}
use nebari.Transaction.Log.{
  page_size, Writer, bytes_to_write, page_of, write_page, write_pages, read_payload,
}
use native.Mathlib.Decide.{dec_lt, dec_le}
use nebari.Transaction.Log.Pages.{
  at, payload_of, IsContinuation, IsReadable, read_payload-end, page_header-later, chunk,
  length-chunk, read_payload-page,
}

-- The pages that are written from an offset on: they are whole, and give the rest of the payload.
pub record Paged (payload : List ℕ) (offset : ℕ) (w : Writer) (r : Result Writer) : Type 0 where
  pub result : Writer
  pub returns : r ≡ ok result
  pub pages : List (List ℕ)
  pub appended : result.log.buffer ≡ w.log.buffer ++ concat_map (λ page. page) pages
  pub moved :
      result.log_position.file_offset ≡ w.log_position.file_offset + page_size * length pages
  pub same_last :
      result.log_position.last_written_transaction ≡ w.log_position.last_written_transaction
  pub kept : result.completed_transactions ≡ w.completed_transactions
  pub scratch_whole : length result.scratch ≡ page_size
  pub continue : All IsContinuation pages
  pub covered : length payload ≤ offset + 1023 * length pages
  pub tight : 1023 * length pages < length payload - offset + 1023
  pub readable : IsReadable payload offset pages

write_pages-end :
    (n : ℕ) (payload : List ℕ) (offset : ℕ) (w : Writer)
    → length payload ≤ offset
    → write_pages n payload offset w ≡ ok w
unfolding write_pages
write_pages-end zero payload offset w h = refl
write_pages-end (suc n) payload offset w h = simp (write_pages, le→ltb offset (length payload) h)

Paged-end :
    (n : ℕ) (payload : List ℕ) (offset : ℕ) (w : Writer)
    → length payload ≤ offset
    → length w.scratch ≡ page_size
    → Paged payload offset w (write_pages n payload offset w)
Paged-end n payload offset w h s = record {
  result = w;
  returns = write_pages-end n payload offset w h;
  pages = [];
  appended = sym (append-nil w.log.buffer);
  moved = omega arith;
  same_last = refl;
  kept = refl;
  scratch_whole = s;
  continue = tt;
  covered = omega arith;
  tight = omega arith;
  readable = λ before after read_before n _.
      rw
        (
          read_payload-end n (length payload) offset false read_before (at before after) h,
          drop_all offset payload h,
          append-nil,
        )
        refl;
}

module _ (header payload : List ℕ) (offset : ℕ) (scratch : List ℕ) where
  abbrev pub front : List ℕ
  front = header ++ chunk payload offset (bytes_to_write header payload offset)

  length-front :
      length header ≤ page_size
      → offset ≤ length payload
      → length front ≡ length header + bytes_to_write header payload offset
  length-front k h = omega (
    arith,
    length-append header (chunk payload offset (bytes_to_write header payload offset)),
    length-chunk payload offset (bytes_to_write header payload offset) (omega arith),
  )

  pub length-page_of :
      length header ≤ page_size
      → offset ≤ length payload
      → length scratch ≡ page_size
      → length (page_of header payload offset scratch) ≡ page_size
  length-page_of k h s = omega (
    arith,
    length-front k h,
    length-append front (drop (length front) scratch),
    length-drop (length front) scratch,
  )

  -- A page ends the payload or is full, and then nothing of the buffer is behind it.
  end_or_full :
      length header ≤ page_size
      → offset ≤ length payload
      → length scratch ≡ page_size
      → (length payload ≤ offset + bytes_to_write header payload offset)
        ⊎ (drop (length front) scratch ≡ [])
  end_or_full k h s =
      elim (dec_le (length payload) (offset + bytes_to_write header payload offset)) [
        | yes ends ↦ inl ends
        | no full ↦ inr (drop_all (length front) scratch (omega (arith, length-front k h)))
      ]

-- What is read behind a page, if it is full or the payload ends in it.
after-page :
    (payload : List ℕ) (offset m : ℕ) (pad tail : List ℕ)
    → (length payload ≤ offset) ⊎ (pad ≡ [])
    → ((before read_before : List ℕ)
        → payload_of (read_payload m (length payload) offset false read_before (at before tail))
          ≡ ok (read_before ++ drop offset payload))
    → (before read_before : List ℕ)
    → payload_of
        (read_payload m (length payload) offset false read_before (at before (pad ++ tail)))
      ≡ ok (read_before ++ drop offset payload)
after-page payload offset m pad tail (inl h) next before read_before =
    rw
      (
        read_payload-end m (length payload) offset false read_before (at before (pad ++ tail)) h,
        drop_all offset payload h,
        append-nil,
      )
      refl
after-page payload offset m pad tail (inr e) next before read_before =
    rw e (next before read_before)

pub page_shape :
    (header bytes pad others after : List ℕ)
    → (((header ++ bytes) ++ pad) ++ others) ++ after
      ≡ header ++ (bytes ++ (pad ++ (others ++ after)))
page_shape header bytes pad others after = simp append_assoc

page-IsReadable :
    (payload : List ℕ) (offset : ℕ) (scratch : List ℕ) (pages : List (List ℕ))
    → offset < length payload
    → length scratch ≡ page_size
    → IsReadable payload (offset + bytes_to_write (0 ∷ []) payload offset) pages
    → IsReadable payload offset (page_of (0 ∷ []) payload offset scratch ∷ pages)
page-IsReadable payload offset scratch pages h s rest before after read_before zero hm =
    absurd (omega arith)
page-IsReadable payload offset scratch pages h s rest before after read_before (suc m) hm =
    let c = bytes_to_write (0 ∷ []) payload offset in
    let written = front (0 ∷ []) payload offset scratch in
    let pad = drop (length written) scratch in
    let others = concat_map (λ page. page) pages in
    subst
      (λ bytes.
        payload_of
          (read_payload (suc m) (length payload) offset false read_before (at before bytes))
        ≡ ok (read_before ++ drop offset payload))
      (sym (page_shape (0 ∷ []) (chunk payload offset c) pad others after))
      (read_payload-page payload read_before (pad ++ (others ++ after)) offset c m before false
        (omega arith) (omega arith) (omega arith)
        (after-page payload (offset + c) m pad (others ++ after)
          (end_or_full (0 ∷ []) payload offset scratch (omega arith) (omega arith) s)
          (λ before read_before. rest before after read_before m (omega arith))))

-- One page is written, then the others.
module _ (n : ℕ) (payload : List ℕ) (offset : ℕ) (w : Writer) where
  abbrev later_count : ℕ
  later_count = bytes_to_write (0 ∷ []) payload offset

  abbrev later_page : List ℕ
  later_page = page_of (0 ∷ []) payload offset w.scratch

  page-Paged :
      0 < offset
      → offset < length payload
      → length w.scratch ≡ page_size
      → Paged payload
          (offset + later_count)
          (write_page later_page w)
          (write_pages n payload (offset + later_count) (write_page later_page w))
      → Paged payload offset w (write_pages (suc n) payload offset w)
  unfolding write_pages write
  page-Paged later h s rest = record {
    result = rest.result;
    returns =
        rw (write_pages, lt→ltb offset (length payload) h, page_header-later payload offset later)
          rest.returns;
    pages = later_page ∷ rest.pages;
    appended = simp (rest.appended, append_assoc);
    moved = omega (arith, rest.moved);
    same_last = rest.same_last;
    kept = rest.kept;
    scratch_whole = rest.scratch_whole;
    continue = (
      (length-page_of (0 ∷ []) payload offset w.scratch (omega arith) (omega arith) s, (_, refl)),
      rest.continue,
    );
    covered = omega (arith, rest.covered);
    tight = omega (arith, rest.tight);
    readable = page-IsReadable payload offset w.scratch rest.pages h s rest.readable;
  }

pub write_pages-Paged :
    (n : ℕ) (payload : List ℕ) (offset : ℕ) (w : Writer)
    → length payload ≤ n + offset
    → 0 < offset
    → length w.scratch ≡ page_size
    → Paged payload offset w (write_pages n payload offset w)
write_pages-Paged zero payload offset w h later s = Paged-end zero payload offset w (omega arith) s
write_pages-Paged (suc n) payload offset w h later s = elim (dec_lt offset (length payload)) [
  | no ended ↦ Paged-end (suc n) payload offset w (omega arith) s
  | yes more ↦ page-Paged n payload offset w later more s (
      write_pages-Paged n payload (offset + later_count n payload offset w)
        (write_page (later_page n payload offset w) w) (omega arith) (omega arith)
        (length-page_of (0 ∷ []) payload offset w.scratch (omega arith) (omega arith) s))
]

-- Behind the header of a first page the whole payload is read.
pub first-readable :
    (header payload : List ℕ) (scratch : List ℕ) (pages : List (List ℕ)) (n : ℕ)
    → length header ≡ 4
    → 0 < length payload
    → length payload ≤ n
    → length scratch ≡ page_size
    → IsReadable payload (0 + bytes_to_write header payload 0) pages
    → (before after : List ℕ)
    → payload_of (
        read_payload n (length payload) 0 true [] (
          at before (
            chunk payload 0 (bytes_to_write header payload 0)
            ++ (drop (length (front header payload 0 scratch)) scratch
                ++ (concat_map (λ page. page) pages ++ after)))))
      ≡ ok payload
first-readable header payload scratch pages zero k some h s rest before after = absurd (omega arith)
first-readable header payload scratch pages (suc m) k some h s rest before after =
    let pad = drop (length (front header payload 0 scratch)) scratch in
    let others = concat_map (λ page. page) pages in
    let c = bytes_to_write header payload 0 in
    read_payload-page payload [] (pad ++ (others ++ after)) 0 c m before true (omega arith)
      (omega arith) (omega arith)
      (after-page payload (0 + c) m pad (others ++ after)
        (end_or_full header payload 0 scratch (omega arith) (omega arith) s)
        (λ before read_before. rest before after read_before m (omega arith)))
