-- ===== src/Transaction/Log/Recovery.antt =====
-- Opening a log again: `initialize_state` over a file of segments, of which a crash may have left a
-- part of a page.
use nebari.Common.{
  ℕ, suc, ◌+◌, ◌-◌, ◌*◌, ◌%◌, ◌<◌, ◌≡◌, refl, sym, ap, ◌∙◌, false, Option, List, [], ◌∷◌, ◌++◌,
  length, length-append, take-append, append-nil, All, ◌==◌, le→ltb, arith, the,
}
use nebari.Error.{ok, ◌>>=◌}
use nebari.Io.Memory.{file_length}
use nebari.Tree.Modification.{TransactionId}
use nebari.Encoding.{ByteOrder}
use nebari.Transaction.State.{State, uninitialized_id, initialize}
use nebari.Transaction.Log.{
  page_size, Vault, found, scan_loop, scan_for_transaction, initialize_from, initialize_state,
}
use nebari.Transaction.Log.Segments.{Segment, bytes_of, IsSegment}
use nebari.Transaction.Log.Append.{length-bytes_of}
use nebari.Transaction.Log.Files.{bytes_of_all}
use nebari.Transaction.Log.Scan.{scan-back}

module _ (bytes : ByteOrder ℕ) (vault : Option Vault) where
  -- Where a scan ends that begins at the last page of a file of segments.
  scan-last :
      (before : List ℕ) (s : Segment) (p : ℕ)
      → IsSegment bytes vault s
      → scan_for_transaction bytes vault
          (record { buffer = before ++ bytes_of s; position = p })
          (length (before ++ bytes_of s) - page_size)
          false
        ≡ ok (found s.entry (length before) s.payload_length)
  unfolding scan_for_transaction file_length
  scan-last before s p h =
      let buffer = before ++ bytes_of s in
      let total : length buffer ≡ length before + (page_size + page_size * length s.pages) =
        omega (arith, length-append before (bytes_of s), length-bytes_of bytes vault s h) in
      let k = length s.pages in
      let n = length buffer + (length buffer - page_size) - k in
      ap
        (λ m.
          scan_loop bytes vault (suc m) (length buffer - page_size) false
            (record { buffer = buffer; position = p }))
        (the (length buffer + (length buffer - page_size) ≡ k + n) (omega (arith, total)))
      ∙ (ap
            (λ b.
              scan_loop bytes vault (suc (k + n)) b false
                (record { buffer = buffer; position = p }))
            (the (length buffer - page_size ≡ length before + page_size * k) (omega (arith, total)))
          ∙ scan-back bytes vault buffer p s before [] k n h
              (ap (λ xs. before ++ xs) (sym (append-nil (bytes_of s)))) (omega arith))

  whole_pages :
      (ss : List Segment)
      → All (IsSegment bytes vault) ss
      → length (bytes_of_all ss) % page_size ≡ 0
  whole_pages [] h = refl
  whole_pages (s ∷ ss) h = omega (
    arith,
    whole_pages ss h.1,
    length-bytes_of bytes vault s h.0,
    length-append (bytes_of s) (bytes_of_all ss),
  )

  module _ {C : Type 0} (state : State C) where
    abbrev pub recovered : Segment → ℕ → State C
    recovered s log_length = record state {
      current_transaction_id = s.entry.id + 1;
      log_position = record { file_offset = log_length; last_written_transaction = s.entry.id };
    }

    initialize_fresh :
        (id : TransactionId) (position : ℕ)
        → state.current_transaction_id ≡ uninitialized_id
        → initialize id position state
          ≡ ok (record state {
            current_transaction_id = id + 1;
            log_position = record { file_offset = position; last_written_transaction = id };
          })
    unfolding initialize
    initialize_fresh id position e = rw e refl

    initialize_from-last :
        (before : List ℕ) (s : Segment) (p : ℕ)
        → IsSegment bytes vault s
        → state.current_transaction_id ≡ uninitialized_id
        → initialize_from bytes vault state
            (length (before ++ bytes_of s))
            (record { buffer = before ++ bytes_of s; position = p })
          ≡ ok (recovered s (length (before ++ bytes_of s)))
    unfolding initialize_from
    initialize_from-last before s p h e =
        rw
          (
            le→ltb (length (before ++ bytes_of s)) page_size
                (omega (arith, length-append before (bytes_of s), length-bytes_of bytes vault s h)),
            scan-last before s p h,
            ◌>>=◌,
          )
          (initialize_fresh s.entry.id (length (before ++ bytes_of s)) e)

    -- Opening a log whose file holds the segments of its entries, and less than a page behind them, cuts
    -- that off, and goes on with the id after that of the last entry and at the end of the file, if the
    -- state was not initialized before.
    pub initialize_state-recovered :
        (ss : List Segment) (s : Segment) (torn : List ℕ) (p : ℕ)
        → All (IsSegment bytes vault) ss
        → IsSegment bytes vault s
        → length torn < page_size
        → state.current_transaction_id ≡ uninitialized_id
        → let all = bytes_of_all ss ++ bytes_of s in
          initialize_state bytes vault state (record { buffer = all ++ torn; position = p })
          ≡ ok (recovered s (length all), record { buffer = all; position = 0 })
    unfolding initialize_state file_length
    initialize_state-recovered ss s torn p hs h short e =
        let all = bytes_of_all ss ++ bytes_of s in
        let total : length (all ++ torn) ≡ length all + length torn = length-append all torn in
        let pages : length all % page_size ≡ 0 = omega (
          arith,
          whole_pages ss hs,
          length-bytes_of bytes vault s h,
          length-append (bytes_of_all ss) (bytes_of s),
        ) in
        let some_bytes : 0 < length all =
          omega (
            arith,
            length-bytes_of bytes vault s h,
            length-append (bytes_of_all ss) (bytes_of s),
          ) in
        rw
          (
            the ((length (all ++ torn) == 0) ≡ false) (ground (arith, total, some_bytes)),
            the (length (all ++ torn) - length (all ++ torn) % page_size ≡ length all)
                (omega (arith, total, pages, short)),
            take-append all torn,
            initialize_from-last (bytes_of_all ss) s 0 h e,
            ◌>>=◌,
          )
          refl
