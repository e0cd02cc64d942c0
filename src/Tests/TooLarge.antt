-- ===== src/Tests/TooLarge.antt =====
-- The largest data that `set_data` accepts is refused when the entry is pushed.
use nebari.Common.{ℕ, zero, suc, ◌<◌, ◌≤◌, ◌≡◌, refl, some, none, List, length, lt→ltb, arith}
use nebari.Error.{ok, err, message, ◌>>=◌}
use nebari.Encoding.{u64, ByteOrder, set_data, serialize_log}
use nebari.Encoding.RoundTrip.{length_parts}
use nebari.Transaction.Log.{Writer, page_header, write_pages, write_transaction}

too_large : (payload : List ℕ) → 16777216 ≤ length payload → page_header payload 0 ≡ err message
unfolding page_header
too_large payload h = ground arith

no_page :
    (n : ℕ) (payload : List ℕ) (w : Writer)
    → 0 < n
    → 16777216 ≤ length payload
    → write_pages n payload 0 w ≡ err message
unfolding write_pages
no_page zero payload w p h = absurd (omega (arith, p))
no_page (suc n) payload w p h =
    rw (lt→ltb 0 (length payload) (omega (arith, h)), write_pages, too_large payload h, ◌>>=◌) refl

module _ (bytes : ByteOrder ℕ) (id : ℕ) (contents : List ℕ)
    (full : length contents ≡ 16777208) where
  accepted :
      set_data bytes (record { id = id; «data» = none }) contents
      ≡ ok (record { id = id; «data» = some contents })
  unfolding set_data
  accepted = ground arith

  refused :
      (w : Writer)
      → w.log_position.last_written_transaction < id
      → write_transaction bytes none (record { id = id; «data» = some contents }) w ≡ err message
  unfolding write_transaction serialize_log
  refused w h =
      rw (lt→ltb w.log_position.last_written_transaction id h, ◌>>=◌)
        (no_page _ _ _ (omega (arith, full, length_parts bytes u64 id contents))
          (omega (arith, full, length_parts bytes u64 id contents)))
