-- ===== src/DataSync/Cursor.antt =====
-- internal/datasync/runner.go, `nextCursorOpenTime`: how far a fetched batch carries the cursor.
pub mod Contiguous
use tictick_hi.Base.{
  ℕ, ◌+◌, Bool, true, false, not, ◌||◌, Option, none, some, List, [], ◌∷◌, ltb, leb, ◌==◌,
  if◌then◌else◌,
}
use tictick_hi.Data.Model.{Candle}

unfoldable pub contains : ℕ → List ℕ → Bool
contains t [] = false
contains t (x ∷ xs) = (x == t) || contains t xs

-- The loop with the map `seen`.
unfoldable pub unique_open_times : List ℕ → List Candle → List ℕ
unfolding contains
unique_open_times seen [] = []
unique_open_times seen (c ∷ cs) =
    let skip = unique_open_times seen cs in
    let keep = c.open_time ∷ unique_open_times (c.open_time ∷ seen) cs in
    if contains c.open_time seen then skip else keep

unfoldable pub insert_time : ℕ → List ℕ → List ℕ
insert_time t [] = t ∷ []
insert_time t (x ∷ xs) = let rest = insert_time t xs in if leb t x then t ∷ x ∷ xs else x ∷ rest

unfoldable pub sort_times : List ℕ → List ℕ
unfolding insert_time
sort_times [] = []
sort_times (t ∷ ts) = insert_time t (sort_times ts)

unfoldable pub unique_sorted_open_times : List Candle → List ℕ
unfolding unique_open_times sort_times
unique_sorted_open_times cs = sort_times (unique_open_times [] cs)

-- The loop that follows the chain of open times one interval apart.
unfoldable pub chain_tip : ℕ → ℕ → List ℕ → ℕ
chain_tip interval tip [] = tip
chain_tip interval tip (t ∷ ts) =
    let rest = chain_tip interval t ts in if t == tip + interval then rest else tip

unfoldable pub advance : ℕ → ℕ → ℕ → Option ℕ → Option ℕ
advance interval start tip none = some tip
advance interval start tip (some current) =
    if not (ltb current tip)
    then none
    else (if ltb (current + interval) start then none else some tip)

unfoldable pub cursor_of_times : ℕ → Option ℕ → List ℕ → Option ℕ
unfolding chain_tip advance
cursor_of_times interval latest [] = none
cursor_of_times interval latest (t ∷ ts) = advance interval t (chain_tip interval t ts) latest

unfoldable pub next_cursor_open_time : Option ℕ → ℕ → List Candle → Option ℕ
unfolding cursor_of_times unique_sorted_open_times
next_cursor_open_time latest interval cs =
    cursor_of_times interval latest (unique_sorted_open_times cs)
