-- ===== src/Transaction/Log/Append.antt =====
-- Writing an entry that the log takes: a segment of the file behind what was there.
use nebari.Common.{
  ℕ, suc, ◌+◌, ◌-◌, ◌*◌, ◌≤◌, ◌<◌, ◌≡◌, refl, ap, ◌∙◌, Option, some, List, [], ◌∷◌, ◌++◌, length,
  length-append, append_assoc, All, concat_map, lt→ltb, arith,
}
use nebari.Error.{Result, ok, ◌>>=◌}
use nebari.Io.Memory.{write}
use nebari.Encoding.{ByteOrder, LogEntry}
use nebari.Transaction.Log.{
  page_size, Vault, Writer, page_header, bytes_to_write, page_of, write_page, write_pages,
  with_position, write_transaction,
}
use nebari.Transaction.Log.Pages.{IsContinuation, IsReadable}
use nebari.Transaction.Log.Written.{write_pages-Paged, length-page_of}
use nebari.Transaction.Log.Segments.{
  first_header, Segment, bytes_of, length-pages, IsSegment, IsLoggable, IsLoggable-some_payload,
  segment_of, segment-found_at,
}

module _ (bytes : ByteOrder ℕ) (vault : Option Vault) where
  -- An entry that the log takes is written as a segment behind what the file holds.
  pub record Appended (t : LogEntry ℕ) (w : Writer) (r : Result Writer) : Type 0 where
    pub result : Writer
    pub returns : r ≡ ok result
    pub segment : Segment
    pub is_segment : IsSegment bytes vault segment
    pub of_entry : segment.entry ≡ t
    pub appended : result.log.buffer ≡ w.log.buffer ++ bytes_of segment
    pub moved :
        result.log_position.file_offset ≡ w.log_position.file_offset + length (bytes_of segment)
    pub last : result.log_position.last_written_transaction ≡ t.id
    pub completed :
        result.completed_transactions
        ≡ w.completed_transactions ++ ((t.id, some w.log_position.file_offset) ∷ [])
    pub scratch_whole : length result.scratch ≡ page_size

  page_header-first :
      (payload : List ℕ)
      → length payload < 16777216
      → page_header payload 0 ≡ ok (first_header (length payload))
  unfolding page_header
  page_header-first payload h = ground arith

  -- The pages of an entry, once its position is taken.
  module _ (t : LogEntry ℕ) (h : IsLoggable bytes vault t) (w : Writer) where
    abbrev count_first : ℕ
    count_first = bytes_to_write (first_header (length h.payload)) h.payload 0

    abbrev first_written : Writer
    first_written =
        write_page (page_of (first_header (length h.payload)) h.payload 0 w.scratch)
          (with_position t w)

    entry_pages-IsSegment :
        (pages : List (List ℕ))
        → length w.scratch ≡ page_size
        → All IsContinuation pages
        → length h.payload ≤ 1020 + 1023 * length pages
        → 1023 * length pages < length h.payload + 3
        → IsReadable h.payload (0 + count_first) pages
        → IsSegment bytes vault (segment_of bytes vault t h.payload w.scratch pages)
    entry_pages-IsSegment pages s continue covered tight readable = record {
      whole =
          length-page_of (first_header (length h.payload)) h.payload 0 w.scratch (omega arith)
            (omega arith) s;
      continue = continue;
      some_payload = IsLoggable-some_payload bytes vault t h;
      covered = covered;
      tight = tight;
      found_at = segment-found_at bytes vault t h w.scratch pages s readable;
    }

  pub length-bytes_of :
      (s : Segment)
      → IsSegment bytes vault s
      → length (bytes_of s) ≡ page_size + page_size * length s.pages
  length-bytes_of s h = omega (
    arith,
    h.whole,
    length-pages s.pages h.continue,
    length-append s.first_page (concat_map (λ page. page) s.pages),
  )

  write_pages-first :
      (n : ℕ) (payload : List ℕ) (w : Writer)
      → 0 < length payload
      → length payload < 16777216
      → let header = first_header (length payload) in
        write_pages (suc n) payload 0 w
        ≡ write_pages n payload
            (0 + bytes_to_write header payload 0)
            (write_page (page_of header payload 0 w.scratch) w)
  unfolding write_pages
  write_pages-first n payload w full small =
      rw (write_pages, lt→ltb 0 (length payload) full, page_header-first payload small) refl

  written_from :
      (t : LogEntry ℕ) (h : IsLoggable bytes vault t) (w : Writer)
      → w.log_position.last_written_transaction < t.id
      → write_transaction bytes vault t w
        ≡ write_pages (length h.payload) h.payload 0 (with_position t w)
  unfolding write_transaction
  written_from t h w later =
      rw (lt→ltb w.log_position.last_written_transaction t.id later, ◌>>=◌, h.sealed) refl

  first_returns :
      (t : LogEntry ℕ) (h : IsLoggable bytes vault t) (w : Writer) (n : ℕ)
      → w.log_position.last_written_transaction < t.id
      → length h.payload ≡ suc n
      → write_transaction bytes vault t w
        ≡ write_pages n h.payload (0 + count_first t h w) (first_written t h w)
  first_returns t h w n later e =
      written_from t h w later
      ∙ ap (λ k. write_pages k h.payload 0 (with_position t w)) e
      ∙ write_pages-first n h.payload (with_position t w) (IsLoggable-some_payload bytes vault t h)
          h.small

  append-entry :
      (t : LogEntry ℕ) (h : IsLoggable bytes vault t) (w : Writer) (n : ℕ)
      → length h.payload ≡ suc n
      → w.log_position.last_written_transaction < t.id
      → length w.scratch ≡ page_size
      → Appended t w (write_transaction bytes vault t w)
  unfolding write_transaction write
  append-entry t h w n e later s =
      let rest =
        write_pages-Paged n h.payload (0 + count_first t h w) (first_written t h w) (omega arith)
          (omega arith)
          (length-page_of (first_header (length h.payload)) h.payload 0 w.scratch (omega arith)
            (omega arith) s) in
      let segment = segment_of bytes vault t h.payload w.scratch rest.pages in
      let sound =
        entry_pages-IsSegment t h w rest.pages s rest.continue
          (omega (arith, rest.covered, IsLoggable-some_payload bytes vault t h))
          (omega (arith, rest.tight)) rest.readable in
      record {
        result = rest.result;
        returns = first_returns t h w n later e ∙ rest.returns;
        segment = segment;
        is_segment = sound;
        of_entry = refl;
        appended = simp (rest.appended, append_assoc);
        moved = omega (arith, rest.moved, length-bytes_of segment sound);
        last = rest.same_last;
        completed = rest.kept;
        scratch_whole = rest.scratch_whole;
      }

  pub write_transaction-Appended :
      (t : LogEntry ℕ) (h : IsLoggable bytes vault t) (w : Writer)
      → w.log_position.last_written_transaction < t.id
      → length w.scratch ≡ page_size
      → Appended t w (write_transaction bytes vault t w)
  write_transaction-Appended t h w later s =
      append-entry t h w (length h.payload - 1)
        (omega (arith, IsLoggable-some_payload bytes vault t h)) later s
