-- ===== src/Transaction/Log/Segments.antt =====
-- What an entry takes of the file: its first page and those that follow. A segment is read as the
-- entry wherever it stands.
use nebari.Common.{
  ℕ, suc, ◌+◌, ◌*◌, ◌/◌, ◌%◌, ◌≤◌, ◌<◌, ◌≡◌, ◌≢◌, refl, sym, ap, subst, ◌∙◌, Bool, true, false,
  Option, none, some, List, [], ◌∷◌, ◌++◌, length, drop, length-append, All, concat_map, leb, arith,
}
use nebari.Error.{Result, ok, err, ◌>>=◌}
use nebari.Io.Memory.{MemoryFile, seek, read, file_length}
use nebari.Encoding.{u64, ByteOrder, LogEntry, serialize_log}
use nebari.Encoding.Entries.{deserialize-serialize_log}
use nebari.Transaction.Log.{
  page_size, Vault, seal, unseal, bytes_to_write, page_of, read_payload, found, first, continuation,
  adjacent_page, not_found, parse_header, read_entry, scan_loop,
}
use nebari.Transaction.Log.Pages.{at, read-at, payload_of, IsContinuation, IsReadable, chunk}
use nebari.Transaction.Log.Written.{front, page_shape, first-readable}

abbrev pub first_header : ℕ → List ℕ
first_header n = 1 ∷ n / 65536 % 256 ∷ n / 256 % 256 ∷ n % 256 ∷ []

-- The length of a payload is written in three bytes, and read back.
parse-first_header : (n : ℕ) → n < 16777216 → parse_header (first_header n) ≡ first n
parse-first_header n h = ap first (omega arith)

payload_of-ok :
    (r : Result (List ℕ × MemoryFile ℕ)) (p : List ℕ)
    → payload_of r ≡ ok p
    → (log : MemoryFile ℕ) × (r ≡ ok (p, log))
payload_of-ok (ok (q, log)) p e = (log, cc)
payload_of-ok (err k) p e = cc

-- The pages of one entry.
pub record Segment : Type 0 where
  pub entry : LogEntry ℕ
  pub payload_length : ℕ
  pub first_page : List ℕ
  pub pages : List (List ℕ)

pub length-pages :
    (pages : List (List ℕ))
    → All IsContinuation pages
    → length (concat_map (λ page. page) pages) ≡ page_size * length pages
length-pages [] h = omega arith
length-pages (page ∷ pages) h =
    omega
      (arith, h.0.0, length-pages pages h.1, length-append page (concat_map (λ page. page) pages))

abbrev pub bytes_of : Segment → List ℕ
bytes_of s = s.first_page ++ concat_map (λ page. page) s.pages

module _ (bytes : ByteOrder ℕ) (vault : Option Vault) where
  pub record IsSegment (s : Segment) : Type 0 where
    pub whole : length s.first_page ≡ page_size
    pub continue : All IsContinuation s.pages
    pub some_payload : 0 < s.payload_length
    pub covered : s.payload_length ≤ 1020 + 1023 * length s.pages
    pub tight : 1023 * length s.pages < s.payload_length + 3
    pub found_at :
        (before after : List ℕ) (position n : ℕ) (scan_forward : Bool)
        → scan_loop bytes vault
            (suc n)
            (length before)
            scan_forward
            (record { buffer = before ++ (bytes_of s ++ after); position = position })
          ≡ ok (found s.entry (length before) s.payload_length)

  -- An entry that the log takes: its number fits, its data are not empty, and what the vault makes of
  -- it is shorter than 2 ^ 24 bytes.
  pub record IsLoggable (t : LogEntry ℕ) : Type 0 where
    pub payload : List ℕ
    pub sealed : seal vault (serialize_log bytes t) ≡ ok payload
    pub small : length payload < 16777216
    pub id_fits : t.id < 18446744073709551616
    pub some_data : t.«data» ≢ some []

  pub IsLoggable-some_payload : (t : LogEntry ℕ) (h : IsLoggable t) → 0 < length h.payload
  unfolding serialize_log
  IsLoggable-some_payload t h = sealed_payload vault h.payload h.sealed
    where
      contents : Option (List ℕ) → List ℕ
      contents none = []
      contents (some xs) = xs

      value : Result (List ℕ) → List ℕ
      value (ok xs) = xs
      value (err k) = []

      sealed_payload :
          (v : Option Vault) (p : List ℕ) → seal v (serialize_log bytes t) ≡ ok p → 0 < length p
      sealed_payload (some v) p e = v.length-encrypt (serialize_log bytes t) p e
      sealed_payload none p e =
          subst (λ x. 0 < length x) (ap value e)
            (omega (
              arith,
              length-append (bytes.write u64 t.id) (contents t.«data»),
              bytes.length-write u64 t.id,
            ))

  unseal-seal : (v : Option Vault) (p c : List ℕ) → seal v p ≡ ok c → unseal v c ≡ ok p
  unseal-seal none p c e = sym e
  unseal-seal (some v) p c e = v.decrypt-encrypt p c e

  -- The bytes behind the header of a first page are read as the entry.
  read_entry-found :
      (t : LogEntry ℕ) (h : IsLoggable t) (before tail : List ℕ) (block_start : ℕ)
      → payload_of (read_payload (length h.payload) (length h.payload) 0 true [] (at before tail))
        ≡ ok h.payload
      → read_entry bytes vault block_start (length h.payload) (at before tail)
        ≡ ok (found t block_start (length h.payload))
  unfolding read_entry
  read_entry-found t h before tail block_start e =
      let r = payload_of-ok _ h.payload e in
      rw
        (
          r.1,
          unseal-seal vault _ h.payload h.sealed,
          deserialize-serialize_log bytes t.id t.«data» h.id_fits h.some_data,
        )
        refl

  module _ (before header tail : List ℕ) (position n : ℕ) (scan_forward : Bool) where
    abbrev pub log_at : MemoryFile ℕ
    log_at = record { buffer = before ++ (header ++ tail); position = position }

    before_end : length header ≡ 4 → leb (file_length log_at) (length before) ≡ false
    unfolding file_length
    before_end h = ground (arith, length-append before (header ++ tail), length-append header tail)

    read_header :
        length header ≡ 4
        → read 4 (at before (header ++ tail)) ≡ ok (header, at (before ++ header) tail)
    read_header h =
        subst (λ k. read k (at before (header ++ tail)) ≡ ok (header, at (before ++ header) tail)) h
          (read-at header before tail)

    pub scan_loop-first :
        (len : ℕ)
        → length header ≡ 4
        → parse_header header ≡ first len
        → scan_loop bytes vault (suc n) (length before) scan_forward log_at
          ≡ read_entry bytes vault (length before) len (at (before ++ header) tail)
    unfolding scan_loop seek
    scan_loop-first len h e = rw (scan_loop, before_end h, read_header h, ◌>>=◌, e) refl

    pub scan_loop-continuation :
        length header ≡ 4
        → parse_header header ≡ continuation
        → scan_loop bytes vault (suc n) (length before) scan_forward log_at ≡ (
            adjacent_page (length before) scan_forward >>= λ next. elim next [
              | none ↦ ok (not_found 0)
              | some block ↦ scan_loop bytes vault n block scan_forward (at (before ++ header) tail)
            ])
    unfolding scan_loop seek
    scan_loop-continuation h e = rw (scan_loop, before_end h, read_header h, ◌>>=◌, e) refl

  -- The pages of an entry, written over a buffer.
  abbrev pub segment_of : LogEntry ℕ → List ℕ → List ℕ → List (List ℕ) → Segment
  segment_of t payload scratch pages = record {
    entry = t;
    payload_length = length payload;
    first_page = page_of (first_header (length payload)) payload 0 scratch;
    pages = pages;
  }

  pub segment-found_at :
      (t : LogEntry ℕ) (h : IsLoggable t) (scratch : List ℕ) (pages : List (List ℕ))
      → length scratch ≡ page_size
      → IsReadable h.payload
          (0 + bytes_to_write (first_header (length h.payload)) h.payload 0)
          pages
      → (before after : List ℕ) (position n : ℕ) (scan_forward : Bool)
      → scan_loop bytes vault (suc n) (length before) scan_forward (record {
        buffer = before ++ (bytes_of (segment_of t h.payload scratch pages) ++ after);
        position = position;
      })
        ≡ ok (found t (length before) (length h.payload))
  unfolding scan_loop file_length seek
  segment-found_at t h scratch pages s rest before after position n scan_forward =
      let payload = h.payload in
      let header = first_header (length payload) in
      let others = concat_map (λ page. page) pages in
      let tail =
        chunk payload 0 (bytes_to_write header payload 0)
        ++ (drop (length (front header payload 0 scratch)) scratch ++ (others ++ after)) in
      subst
        (λ buffer.
          scan_loop bytes vault (suc n) (length before) scan_forward
            (record { buffer = before ++ buffer; position = position })
          ≡ ok (found t (length before) (length payload)))
        (sym (
          page_shape header (chunk payload 0 (bytes_to_write header payload 0))
            (drop (length (front header payload 0 scratch)) scratch) others after))
        (scan_loop-first before header tail position n scan_forward (length payload) refl
            (parse-first_header (length payload) h.small)
          ∙ read_entry-found t h (before ++ header) tail (length before) (
              first-readable header payload scratch pages (length payload) refl
                (IsLoggable-some_payload t h) (omega arith) s rest (before ++ header) after))
