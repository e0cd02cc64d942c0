-- ===== src/Transaction/Search/All.antt =====
-- The scan of a whole log: the callback gets the entries in order, each once, until it says stop.
use nebari.Common.{
  ℕ, zero, suc, ◌+◌, ◌-◌, ◌*◌, ◌/◌, ◌%◌, ◌≤◌, ◌<◌, ◌≡◌, refl, sym, ap, subst, ◌∙◌, Bool, true,
  false, Option, List, [], ◌∷◌, ◌++◌, map, length, take, drop, length-append, length-take,
  take-append-drop, append_assoc, All, All-take, All-drop, concat_map, concat_map-append, leb,
  arith, the, ◌⊎◌, inl, inr,
}
use nebari.Error.{Result, ok, ◌>>=◌}
use nebari.Io.Memory.{MemoryFile, file_length}
use nebari.Encoding.{ByteOrder, LogEntry}
use nebari.Transaction.State.{Cache, State}
use nebari.Transaction.Log.{
  page_size, next_page_start, Vault, ScanResult, found, not_found, scan_loop, scan_for_transaction,
}
use nebari.Transaction.Log.Pages.{IsContinuation}
use nebari.Transaction.Log.Segments.{Segment, bytes_of, IsSegment, length-pages}
use nebari.Transaction.Log.Append.{length-bytes_of}
use nebari.Transaction.Log.Files.{bytes_of_all}
use nebari.Transaction.Log.Scan.{scan-pages}
use nebari.Transaction.Log.Reopen.{IsLogOf}
use nebari.Transaction.Search.{Estimate, Range, Bound, unbounded, offer, scan_entries, scan}

abbrev concat : List (List ℕ) → List ℕ
concat = concat_map (λ page. page)

-- What the callback makes of the entries in the range, until it says stop.
abbrev pub feed {ℓ} : {S : Type ℓ} → (LogEntry ℕ → S → Bool × S) → List (LogEntry ℕ) → S → S
feed callback [] s = s
feed callback (t ∷ ts) s =
    let answer = callback t s in
    elim (answer.0) [ true ↦ feed callback ts (answer.1) | false ↦ answer.1 ]

abbrev next_of : ℕ → List Segment → ScanResult
next_of position [] = not_found position
next_of position (s ∷ ss) = found s.entry position s.payload_length

module _ (bytes : ByteOrder ℕ) (vault : Option Vault) (buffer : List ℕ) (p : ℕ) where
  abbrev log : MemoryFile ℕ
  log = record { buffer = buffer; position = p }

  scan_loop-border :
      (ss : List Segment) (before : List ℕ) (n : ℕ)
      → All (IsSegment bytes vault) ss
      → buffer ≡ before ++ bytes_of_all ss
      → scan_loop bytes vault (suc n) (length before) true log ≡ ok (next_of (length before) ss)
  unfolding scan_loop file_length
  scan_loop-border [] before n h e =
      rw
        (
          scan_loop,
          file_length,
          the (leb (length buffer) (length before) ≡ true)
              (ground (arith, ap length e, length-append before [])),
        )
        refl
  scan_loop-border (s ∷ ss) before n h e =
      ap
        (λ b.
          scan_loop bytes vault (suc n) (length before) true (record { buffer = b; position = p }))
        (e ∙ ap (λ xs. before ++ xs) (refl))
      ∙ h.0.found_at before (bytes_of_all ss) p n true

  -- From the border of a page, the scan forward gives the next entry.
  scan_for_transaction-next :
      (ss : List Segment) (pages : List (List ℕ)) (before : List ℕ)
      → All (IsSegment bytes vault) ss
      → All IsContinuation pages
      → buffer ≡ before ++ (concat pages ++ bytes_of_all ss)
      → (0 < length before) ⊎ (pages ≡ [])
      → scan_for_transaction bytes vault log (length before) true
        ≡ ok (next_of (length before + page_size * length pages) ss)
  unfolding scan_for_transaction file_length
  scan_for_transaction-next ss [] before h hp e start =
      scan_loop-border ss before (length buffer + length before) h e
      ∙ ap (λ k. ok (next_of k ss))
          (the (length before ≡ length before + page_size * 0) (omega arith))
  scan_for_transaction-next ss (page ∷ rest) before h hp e (inr none_left) = cc
  scan_for_transaction-next ss (page ∷ rest) before h hp e (inl later) =
      let pages = page ∷ rest in
      let total : length (before ++ concat pages) ≡ length before + page_size * length pages =
        omega (arith, length-append before (concat pages), length-pages pages hp) in
      let n = length buffer + length before - length pages in
      ap (λ m. scan_loop bytes vault m (length before) true log)
        (the (suc (length buffer + length before) ≡ length pages + suc n) (
          omega (
            arith,
            ap length e,
            length-append before (concat pages ++ bytes_of_all ss),
            length-append (concat pages) (bytes_of_all ss),
            length-pages pages hp,
          )))
      ∙ (scan-pages bytes vault buffer p pages before (bytes_of_all ss) (suc n) e later hp
          ∙ subst (λ k. scan_loop bytes vault (suc n) k true log ≡ ok (next_of k ss)) total
              (scan_loop-border ss (before ++ concat pages) n h
                (e ∙ sym (append_assoc before (concat pages) (bytes_of_all ss)))))

module _ {S : Type 0} (callback : LogEntry ℕ → S → Bool × S) (bytes : ByteOrder ℕ)
    (vault : Option Vault) (ids : Range) (buffer : List ℕ) (p : ℕ) where
  -- How many pages behind its first a scan passes that goes on at the page after the length.
  abbrev passed : Segment → ℕ
  passed s = (s.payload_length - 1) / page_size

  after_entry :
      (s : Segment) (ss : List Segment) (before skipped : List ℕ)
      → buffer ≡ before ++ (skipped ++ (bytes_of s ++ bytes_of_all ss))
      → buffer
        ≡ (before ++ (skipped ++ (s.first_page ++ concat (take (passed s) s.pages))))
          ++ (concat (drop (passed s) s.pages) ++ bytes_of_all ss)
  after_entry s ss before skipped e =
      e
      ∙ (ap (λ pages. before ++ (skipped ++ ((s.first_page ++ concat pages) ++ bytes_of_all ss)))
            (sym (take-append-drop (passed s) s.pages))
          ∙ simp (
            concat_map-append (λ page. page) (take (passed s) s.pages) (drop (passed s) s.pages),
            append_assoc,
          ))

  either_way :
      (go : Bool) (s t : S) (r : Result S)
      → r ≡ ok t
      → elim go [ false ↦ ok s | true ↦ r ] ≡ ok (elim go [ false ↦ s | true ↦ t ])
  either_way false s t r e = refl
  either_way true s t r e = e

  -- Where the scan goes on: at the border of a page of the entry that was found.
  next_border :
      (x : Segment) (pages : List (List ℕ)) (before : List ℕ)
      → IsSegment bytes vault x
      → All IsContinuation pages
      → length before % page_size ≡ 0
      → length (before ++ (concat pages ++ (x.first_page ++ concat (take (passed x) x.pages))))
        ≡ next_page_start (length before + page_size * length pages + x.payload_length)
  next_border x pages before h hp border = omega (
    arith,
    h.whole,
    h.some_payload,
    h.covered,
    border,
    length-append before (concat pages ++ (x.first_page ++ concat (take (passed x) x.pages))),
    length-append (concat pages) (x.first_page ++ concat (take (passed x) x.pages)),
    length-append x.first_page (concat (take (passed x) x.pages)),
    length-pages pages hp,
    length-pages (take (passed x) x.pages) (All-take IsContinuation (passed x) x.pages h.continue),
    length-take (passed x) x.pages,
  )

  scan_entries-feed :
      (ss : List Segment) (pages : List (List ℕ)) (before : List ℕ) (n : ℕ) (s : S)
      → All (IsSegment bytes vault) ss
      → All IsContinuation pages
      → buffer ≡ before ++ (concat pages ++ bytes_of_all ss)
      → (0 < length before) ⊎ (pages ≡ [])
      → length before % page_size ≡ 0
      → length ss < n
      → scan_entries callback bytes vault n ids (length before) (log bytes vault buffer p) s
        ≡ ok (feed (offer callback ids) (map (λ (s : Segment). s.entry) ss) s)
  unfolding scan_entries
  scan_entries-feed ss pages before zero s h hp e start border more = absurd (omega arith)
  scan_entries-feed [] pages before (suc n) s h hp e start border more =
      rw (scan_for_transaction-next bytes vault buffer p [] pages before h hp e start, ◌>>=◌) refl
  scan_entries-feed (x ∷ ss) pages before (suc n) s h hp e start border more =
      let answer = offer callback ids x.entry s in
      let before' =
        before ++ (concat pages ++ (x.first_page ++ concat (take (passed x) x.pages))) in
      let border' = next_border x pages before h.0 hp border in
      rw (scan_for_transaction-next bytes vault buffer p (x ∷ ss) pages before h hp e start, ◌>>=◌)
        (either_way (answer.0) (answer.1)
          (feed (offer callback ids) (map (λ (s : Segment). s.entry) ss) (answer.1)) _
          (ap (λ k. scan_entries callback bytes vault n ids k (log bytes vault buffer p) (answer.1))
              (sym border')
            ∙ scan_entries-feed ss (drop (passed x) x.pages) before' n (answer.1) h.1
                (All-drop IsContinuation (passed x) x.pages h.0.continue)
                (after_entry x ss before (concat pages) e)
                (inl (omega (arith, border', h.0.some_payload))) (omega (arith, border'))
                (omega arith)))

module _ (bytes : ByteOrder ℕ) (vault : Option Vault) where
  count_segments :
      (ss : List Segment) → All (IsSegment bytes vault) ss → length ss ≤ length (bytes_of_all ss)
  count_segments [] h = omega arith
  count_segments (s ∷ ss) h = omega (
    arith,
    count_segments ss h.1,
    length-bytes_of bytes vault s h.0,
    length-append (bytes_of s) (bytes_of_all ss),
  )

  -- Scanning the file of a log from its start gives the callback the entries up to the end of the
  -- range in their order, each once, until it says stop; the state of the log stays as it was.
  pub scan-feed :
      {C S : Type 0} (callback : LogEntry ℕ → S → Bool × S) (estimate : Estimate) (cache : Cache C)
      (ts : List (LogEntry ℕ)) (state : State C) (log : MemoryFile ℕ) (end_bound : Bound) (s : S)
      → IsLogOf bytes vault ts state log
      → let ids : Range = record { start_bound = unbounded; end_bound = end_bound } in
        scan callback bytes vault estimate cache ids log state s
        ≡ ok (feed (offer callback ids) ts s, state)
  unfolding scan file_length
  scan-feed callback estimate cache ts state log end_bound s is_log =
      rw
        (
          scan_entries-feed callback bytes vault
              (record { start_bound = unbounded; end_bound = end_bound }) log.buffer log.position
              is_log.segments [] [] (suc (length log.buffer)) s is_log.are_segments tt
              is_log.contents (inr refl) refl
              (omega (
                arith,
                count_segments is_log.segments is_log.are_segments,
                ap length is_log.contents,
              )),
          is_log.of_entries,
          ◌>>=◌,
        )
        refl
