-- ===== src/Audit/Listing/Cursors.antt =====
-- internal/data/audit.go: the order of rows, and where a cursor points.
use tictick_hi.Base.{
  ℕ, zero, suc, ◌<◌, true, false, ◌≡◌, refl, ap, List, [], ◌∷◌, ◌++◌, Bool-cases, arith, All, take,
  drop, length, last_or, text_lt, text_lt_asym, inl, inr,
}
use tictick_hi.Audit.Hashes.{AuditEventHashRecord}
use tictick_hi.Audit.Listing.{AuditEventCursor, is_before, rows_before}

abbrev pub cursor_at : AuditEventHashRecord → AuditEventCursor
cursor_at r = record { version = 1; created_at = r.created_at; id = r.id }

is_before_asym :
    (r s : AuditEventHashRecord)
    → is_before (cursor_at r) s ≡ true
    → is_before (cursor_at s) r ≡ false
is_before_asym r s h = elim (Bool-cases (text_lt s.id r.id)) [
  | inl less ↦ let more = text_lt_asym s.id r.id less in ground arith
  | inr not_less ↦ ground arith
]

is_before_irrefl : (r : AuditEventHashRecord) → is_before (cursor_at r) r ≡ false
is_before_irrefl r = elim (Bool-cases (is_before (cursor_at r) r)) [
  | inl less ↦ is_before_asym r r less
  | inr not_less ↦ not_less
]

-- Rows in the order of the listing: every row is newer than those after it.
abbrev pub NewestFirst : List AuditEventHashRecord → Type 0
NewestFirst [] = Unit
NewestFirst (r ∷ rs) = All (λ s. is_before (cursor_at r) s ≡ true) rs × NewestFirst rs

rows_before-all :
    (c : AuditEventCursor) (rs : List AuditEventHashRecord)
    → All (λ s. is_before c s ≡ true) rs
    → rows_before c rs ≡ rs
unfolding rows_before
rows_before-all c [] h = refl
rows_before-all c (r ∷ rs) h = rw h.0 (ap (λ l. r ∷ l) (rows_before-all c rs h.1))

pub All-middle :
    (P : AuditEventHashRecord → Type 0) (xs ys : List AuditEventHashRecord)
    (r : AuditEventHashRecord)
    → All P (xs ++ r ∷ ys)
    → P r
All-middle P [] ys r h = h.0
All-middle P (x ∷ xs) ys r h = All-middle P xs ys r h.1

-- The rows before the cursor of a row are those after it in the listing.
pub rows_before-rest :
    (xs ys : List AuditEventHashRecord) (r : AuditEventHashRecord)
    → NewestFirst (xs ++ r ∷ ys)
    → rows_before (cursor_at r) (xs ++ r ∷ ys) ≡ ys
unfolding rows_before
rows_before-rest [] ys r h = rw (is_before_irrefl r) (rows_before-all (cursor_at r) ys h.0)
rows_before-rest (x ∷ xs) ys r h =
    let newer = All-middle (λ s. is_before (cursor_at x) s ≡ true) xs ys r h.0 in
    rw (is_before_asym x r newer) (rows_before-rest xs ys r h.1)

-- The last row of a page, with what stands before and after it.
pub split_at_last :
    (z : AuditEventHashRecord) (n : ℕ) (rs : List AuditEventHashRecord)
    → n < length rs
    → (before : List AuditEventHashRecord) × (rs
        ≡ before ++ last_or z (take (suc n) rs) ∷ drop (suc n) rs)
split_at_last z n [] h = absurd (omega arith)
split_at_last z zero (r ∷ rs) h = ([], refl)
split_at_last z (suc n) (r ∷ rs) h =
    let (before, e) = split_at_last r n rs (omega arith) in (r ∷ before, ap (λ l. r ∷ l) e)
