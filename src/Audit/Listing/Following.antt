-- ===== src/Audit/Listing/Following.antt =====
-- ListAuditEventPage and parseAuditEventListQuery: a client that follows the cursors of the pages.
use mathlib.Core.List.{append_assoc}
use tictick_hi.Base.{
  ℕ, zero, suc, ◌+◌, ◌<◌, ◌≤◌, String, true, false, ◌≡◌, refl, sym, subst, ap, ◌∙◌, Option, none,
  some, List, [], ◌∷◌, ◌++◌, Bool-cases, arith, ltb, if◌then◌else◌, All, take, drop, length,
  length-take, length-drop, last_or, inl, inr, Result, ok, err, ◌>>=◌, str_eq, trim_space,
}
use tictick_hi.Audit.Hashes.{AuditEventHashRecord, HashCodec}
use tictick_hi.Audit.Verification.{zero_record}
use tictick_hi.Audit.Listing.{
  AuditEvent, AuditEventCursor, AuditEventListQuery, ListingError, unfinished,
  validate_audit_event_cursor, encode_audit_event_cursor, decode_audit_event_cursor,
  new_audit_event_cursor, normalize_audit_event_limit, scan_audit_events, rows_before, queried,
  zero_event, page_of, list_audit_event_page, parse_audit_event_list_query,
}
use tictick_hi.Audit.Listing.Scanning.{
  normalize_pos, take_all, take-take-suc, take-append-drop, SamePlace, scan-length, scan-take,
  scan-drop, scan-last,
}
use tictick_hi.Audit.Listing.Cursors.{
  cursor_at, All-middle, NewestFirst, rows_before-rest, split_at_last,
}

-- What JSON in base64 without padding does with the cursor of a row that has a name: it is written
-- without blanks, and read back from what was written.
pub record HasToken (marshal : AuditEventCursor → Option String)
    (unmarshal : String → Option AuditEventCursor) (r : AuditEventHashRecord) : Type 0 where
  pub named : str_eq r.id "" ≡ false
  pub token : String
  pub written : marshal (cursor_at r) ≡ some token
  pub reads : unmarshal token ≡ some (cursor_at r)
  pub trimmed : trim_space token ≡ token
  pub shown : str_eq token "" ≡ false

-- A client that asks for pages, each with the cursor of the one before it, until there is none.
unfoldable pub follow :
    HashCodec
    → (AuditEventCursor → Option String)
    → (String → Option AuditEventCursor)
    → List AuditEventHashRecord
    → ℕ
    → ℕ
    → String
    → Result ListingError (List AuditEvent)
follow codec marshal unmarshal rows limit zero token = err unfinished
follow codec marshal unmarshal rows limit (suc fuel) token = do
  query ← parse_audit_event_list_query unmarshal limit token
  page ← list_audit_event_page codec marshal rows query
  if str_eq page.next_cursor ""
      then ok page.events
      else (follow codec marshal unmarshal rows limit fuel page.next_cursor >>= λ rest.
          ok (page.events ++ rest))

module _ (codec : HashCodec) (marshal : AuditEventCursor → Option String)
    (unmarshal : String → Option AuditEventCursor) (rows : List AuditEventHashRecord)
    (limit : ℕ) where
  -- The token of a row that has a name is written, and is read as its cursor.
  encode-cursor_at :
      (e : AuditEvent) (r : AuditEventHashRecord)
      → SamePlace e r
      → (k : HasToken marshal unmarshal r)
      → encode_audit_event_cursor marshal (new_audit_event_cursor e) ≡ ok k.token
  unfolding encode_audit_event_cursor validate_audit_event_cursor
  encode-cursor_at e r same k =
      let shown : str_eq e.id "" ≡ false = rw same.0 k.named in
      let moved : new_audit_event_cursor e ≡ cursor_at r = rw (same.0, same.1) refl in
      rw (shown, moved, k.written) refl

  parse-cursor_at :
      (r : AuditEventHashRecord) (k : HasToken marshal unmarshal r)
      → parse_audit_event_list_query unmarshal limit k.token
        ≡ ok (record { limit = limit; cursor = some (cursor_at r) })
  unfolding parse_audit_event_list_query decode_audit_event_cursor validate_audit_event_cursor
  parse-cursor_at r k = rw (k.trimmed, k.shown, k.reads, k.named) refl

  -- Where the rows left fit on a page, the page is the last one.
  list-last :
      (cursor : Option AuditEventCursor) (rest : List AuditEventHashRecord) (es : List AuditEvent)
      → queried cursor rows ≡ rest
      → scan_audit_events codec rest ≡ ok es
      → length rest ≤ normalize_audit_event_limit limit
      → list_audit_event_page codec marshal rows (record { limit = limit; cursor = cursor })
        ≡ ok (record { events = es; next_cursor = "" })
  unfolding list_audit_event_page page_of
  list-last cursor rest es q h few =
      let n = normalize_audit_event_limit limit in
      let all = take_all (n + 1) rest (omega arith) in
      let size = scan-length codec rest es h in
      let fits : ltb n (length es) ≡ false = ground arith in rw (q, all, h, fits) refl

  -- Otherwise the page holds as many as asked for, and its token is that of its last row.
  list-more :
      (cursor : Option AuditEventCursor) (rest : List AuditEventHashRecord) (es : List AuditEvent)
      (m : ℕ)
      → queried cursor rows ≡ rest
      → scan_audit_events codec rest ≡ ok es
      → normalize_audit_event_limit limit ≡ suc m
      → suc m < length rest
      → (k : HasToken marshal unmarshal (last_or zero_record (take (suc m) rest)))
      → list_audit_event_page codec marshal rows (record { limit = limit; cursor = cursor })
        ≡ ok (record { events = take (suc m) es; next_cursor = k.token })
  unfolding list_audit_event_page page_of
  list-more cursor rest es m q h n more k =
      let size = scan-length codec rest es h in
      let page = scan-take codec (suc m + 1) rest es h in
      let longer : ltb (suc m) (length (take (suc m + 1) es)) ≡ true =
        ground (arith, length-take (suc m + 1) es) in
      let cut : take (suc m) (take (suc m + 1) es) ≡ take (suc m) es =
        subst (λ k. take (suc m) (take k es) ≡ take (suc m) es)
          (let e : suc (suc m) ≡ suc m + 1 = omega arith in e) (take-take-suc (suc m) es) in
      let r = last_or zero_record (take (suc m) rest) in
      let token =
        encode-cursor_at (last_or zero_event (take (suc m) es)) r
          (scan-last codec (suc m) rest es zero_event zero_record h (refl, refl)) k in
      rw (q, n, page, longer, cut, token) refl

  follow_end :
      (fuel : ℕ) (token : String) (query : AuditEventListQuery) (es : List AuditEvent)
      → parse_audit_event_list_query unmarshal limit token ≡ ok query
      → list_audit_event_page codec marshal rows query
        ≡ ok (record { events = es; next_cursor = "" })
      → follow codec marshal unmarshal rows limit (suc fuel) token ≡ ok es
  unfolding follow str_eq
  follow_end fuel token query es p q = rw (p, q) refl

  follow_on :
      (fuel : ℕ) (token next : String) (query : AuditEventListQuery) (es rest : List AuditEvent)
      → parse_audit_event_list_query unmarshal limit token ≡ ok query
      → list_audit_event_page codec marshal rows query
        ≡ ok (record { events = es; next_cursor = next })
      → str_eq next "" ≡ false
      → follow codec marshal unmarshal rows limit fuel next ≡ ok rest
      → follow codec marshal unmarshal rows limit (suc fuel) token ≡ ok (es ++ rest)
  unfolding follow
  follow_on fuel token next query es rest p q shown h = rw (p, q, shown, h) refl

  -- From any point of the rows on.
  follow_rest :
      (fuel : ℕ) (token : String) (cursor : Option AuditEventCursor)
      (before rest : List AuditEventHashRecord) (es : List AuditEvent)
      → NewestFirst rows
      → All (HasToken marshal unmarshal) rows
      → parse_audit_event_list_query unmarshal limit token
        ≡ ok (record { limit = limit; cursor = cursor })
      → queried cursor rows ≡ rest
      → rows ≡ before ++ rest
      → scan_audit_events codec rest ≡ ok es
      → length rest < fuel
      → follow codec marshal unmarshal rows limit fuel token ≡ ok es
  follow_rest zero token cursor before rest es newest named p q whole h enough =
      absurd (omega arith)
  follow_rest (suc fuel) token cursor before rest es newest named p q whole h enough =
      let n = normalize_audit_event_limit limit in
      let (m, size) = normalize_pos limit in
      elim (Bool-cases (ltb (suc m) (length rest))) [
        | inr few ↦
            follow_end fuel token (record { limit = limit; cursor = cursor }) es p
              (list-last cursor rest es q h (ground arith))
        | inl more ↦
            let r = last_or zero_record (take (suc m) rest) in
            let (init, cut) = split_at_last zero_record m rest (ground arith) in
            let split : rows ≡ (before ++ init) ++ r ∷ drop (suc m) rest =
              whole
              ∙ ap (λ l. before ++ l) cut
              ∙ sym (append_assoc before init (r ∷ drop (suc m) rest)) in
            let shown : HasToken marshal unmarshal r =
              All-middle (HasToken marshal unmarshal) (before ++ init) (drop (suc m) rest) r
                (subst (All (HasToken marshal unmarshal)) split named) in
            let after =
              subst (λ l. rows_before (cursor_at r) l ≡ drop (suc m) rest) (sym split)
                (rows_before-rest (before ++ init) (drop (suc m) rest) r
                  (subst NewestFirst split newest)) in
            let moved : rows ≡ (before ++ init ++ r ∷ []) ++ drop (suc m) rest =
              split ∙ (simp append_assoc) in
            let shorter : length (drop (suc m) rest) < fuel =
              ground (arith, length-drop (suc m) rest) in
            let later =
              follow_rest fuel shown.token (some (cursor_at r)) (before ++ init ++ r ∷ [])
                (drop (suc m) rest) (drop (suc m) es) newest named (parse-cursor_at r shown) after
                moved (scan-drop codec (suc m) rest es h) shorter in
            follow_on fuel token shown.token (record { limit = limit; cursor = cursor })
              (take (suc m) es) (drop (suc m) es) p
              (list-more cursor rest es m q h size (ground arith) shown) shown.shown later
            ∙ ap (λ l. ok l) (take-append-drop (suc m) es)
      ]

  -- If the rows stand newest first, with metadata that can be read, and each has a name and a token
  -- that is read back as the cursor that it was made from, then a client that follows the pages from
  -- the first one, whatever limit it asks for, sees every event exactly once, newest first, and is
  -- done after at most as many pages as there are rows, plus one.
  pub follow-scan_audit_events :
      (es : List AuditEvent)
      → NewestFirst rows
      → All (HasToken marshal unmarshal) rows
      → scan_audit_events codec rows ≡ ok es
      → follow codec marshal unmarshal rows limit (suc (length rows)) "" ≡ ok es
  unfolding parse_audit_event_list_query trim_space str_eq
  follow-scan_audit_events es newest named h =
      follow_rest (suc (length rows)) "" none [] rows es newest named refl refl refl h (omega arith)
