-- ===== src/DataSync/Cursor/Contiguous.antt =====
-- internal/datasync/runner.go: the cursor never passes over a candle that was not fetched.
use tictick_hi.Base.{
  ℕ, zero, suc, ◌+◌, ◌*◌, ◌≤◌, ◌<◌, ◌≡◌, refl, subst, sym, ◌∙◌, ◌⊎◌, inl, inr, arith, Bool, true,
  false, ◌||◌, some, List, [], ◌∷◌, ◌==◌, Bool-cases,
}
use tictick_hi.Data.Model.{Candle}
use tictick_hi.Data.Gaps.Accounting.{IsMultiple, Opens, steps_between}
use tictick_hi.DataSync.Cursor.{
  contains, unique_open_times, insert_time, sort_times, unique_sorted_open_times, chain_tip,
  advance, cursor_of_times, next_cursor_open_time,
}

abbrev pub has_open_time : ℕ → List Candle → Bool
has_open_time t [] = false
has_open_time t (c ∷ cs) = (c.open_time == t) || has_open_time t cs

contains-insert_time :
    (u t : ℕ) (xs : List ℕ) → contains u (insert_time t xs) ≡ ((t == u) || contains u xs)
unfolding contains insert_time
contains-insert_time u t [] = refl
contains-insert_time u t (x ∷ xs) = ground (arith, contains-insert_time u t xs)

contains-sort_times : (u : ℕ) (ts : List ℕ) → contains u (sort_times ts) ≡ contains u ts
unfolding contains sort_times
contains-sort_times u [] = refl
contains-sort_times u (t ∷ ts) =
    ground (arith, contains-insert_time u t (sort_times ts), contains-sort_times u ts)

unique-has_open_time :
    (u : ℕ) (seen : List ℕ) (cs : List Candle)
    → contains u (unique_open_times seen cs) ≡ true
    → has_open_time u cs ≡ true
unfolding contains unique_open_times
unique-has_open_time u seen [] h = h
unique-has_open_time u seen (c ∷ cs) h =
    ground (arith, unique-has_open_time u seen cs, unique-has_open_time u (c.open_time ∷ seen) cs)

-- Each step of one interval up to the tip is in the list.
chain_tip-contains :
    (d t : ℕ) (ts : List ℕ) (k : ℕ)
    → 0 < d
    → t + k * d ≤ chain_tip d t ts
    → contains (t + k * d) (t ∷ ts) ≡ true
unfolding chain_tip contains
chain_tip-contains d t ts zero p h = ground arith
chain_tip-contains d t [] (suc k) p h = absurd (omega arith)
chain_tip-contains d t (x ∷ xs) (suc k) p h =
    let again : x ≡ t + d → x + k * d ≡ t + suc k * d = λ e. omega (arith, e) in
    ground (arith, again, chain_tip-contains d x xs k p)

tip-contains : (d t : ℕ) (ts : List ℕ) → contains (chain_tip d t ts) (t ∷ ts) ≡ true
unfolding chain_tip contains
tip-contains d t [] = ground arith
tip-contains d t (x ∷ xs) = ground (arith, tip-contains d x xs)

has_open_time-IsMultiple :
    (d u : ℕ) (cs : List Candle) → Opens d cs → has_open_time u cs ≡ true → IsMultiple d u
has_open_time-IsMultiple d u [] o h = cc
has_open_time-IsMultiple d u (c ∷ cs) o h = elim (Bool-cases (c.open_time == u)) [
  | inl e ↦ subst (IsMultiple d) (ground arith) o.0
  | inr e ↦ has_open_time-IsMultiple d u cs o.1 (ground arith)
]

compare_times : (a b : ℕ) → (a < b) ⊎ ((a ≡ b) ⊎ (b < a))
compare_times a b = grind arith

one_step :
    (d start latest j k : ℕ)
    → start ≡ latest + suc j * d
    → start ≤ latest + d
    → start + k * d ≡ latest + suc k * d
one_step d start latest j k gap near = omega arith

-- The open times of the batch from the first on, in steps of the interval, up to the tip.
steps_fetched :
    (d start tip latest k : ℕ) (ts : List ℕ)
    → 0 < d
    → IsMultiple d start
    → IsMultiple d latest
    → start ≤ latest + d
    → tip ≡ chain_tip d start ts
    → latest + suc k * d ≤ tip
    → contains (latest + suc k * d) (start ∷ ts) ≡ true
steps_fetched d start tip latest k ts p m l near e h = elim (compare_times start latest) [
  | inl before ↦
      let (j, gap) = steps_between d start latest m l before in
      let same : start + (suc j + suc k) * d ≡ latest + suc k * d = omega (arith, gap) in
      rw (← same) (chain_tip-contains d start ts (suc j + suc k) p (omega (arith, same, e, h)))
  | inr (inl equal) ↦
      let same : start + suc k * d ≡ latest + suc k * d = omega arith in
      rw (← same) (chain_tip-contains d start ts (suc k) p (omega (arith, same, e, h)))
  | inr (inr after) ↦
      let (j, gap) = steps_between d latest start l m after in
      let same : start + k * d ≡ latest + suc k * d = one_step d start latest j k gap near in
      rw (← same) (chain_tip-contains d start ts k p (omega (arith, same, e, h)))
]

sorted_has_open_time :
    (u : ℕ) (cs : List Candle)
    → contains u (unique_sorted_open_times cs) ≡ true
    → has_open_time u cs ≡ true
unfolding unique_sorted_open_times
sorted_has_open_time u cs h =
    unique-has_open_time u [] cs (sym (contains-sort_times u (unique_open_times [] cs)) ∙ h)

-- On a list of times that are multiples of the interval.
cursor_of_times-contains :
    (d latest tip k : ℕ) (ts : List ℕ)
    → 0 < d
    → IsMultiple d latest
    → ((u : ℕ) → contains u ts ≡ true → IsMultiple d u)
    → cursor_of_times d (some latest) ts ≡ some tip
    → latest + suc k * d ≤ tip
    → contains (latest + suc k * d) ts ≡ true
unfolding cursor_of_times advance
cursor_of_times-contains d latest tip k [] p l m e h = cc
cursor_of_times-contains d latest tip k (t ∷ ts) p l m e h =
    steps_fetched d t tip latest k ts p (m t (unfold contains in ground arith)) l (ground arith)
      (ground arith) h

cursor_of_times-lt :
    (d latest tip : ℕ) (ts : List ℕ)
    → cursor_of_times d (some latest) ts ≡ some tip
    → (latest < tip) × (contains tip ts ≡ true)
unfolding cursor_of_times advance
cursor_of_times-lt d latest tip [] e = cc
cursor_of_times-lt d latest tip (t ∷ ts) e = ground (arith, tip-contains d t ts)

-- Where open times are multiples of the interval, a cursor that moves on from the latest synced
-- open time moves forward, to the open time of a fetched candle, and every open time between the
-- two, `k + 1` intervals after the latest, was fetched as well: no candle is passed over.
pub next_cursor_open_time_contiguous :
    (d latest tip k : ℕ) (cs : List Candle)
    → 0 < d
    → IsMultiple d latest
    → Opens d cs
    → next_cursor_open_time (some latest) d cs ≡ some tip
    → latest + suc k * d ≤ tip
    → (latest < tip)
      × (has_open_time tip cs ≡ true)
      × (has_open_time (latest + suc k * d) cs ≡ true)
unfolding next_cursor_open_time
next_cursor_open_time_contiguous d latest tip k cs p l o e h =
    let ts = unique_sorted_open_times cs in
    let multiples = λ (u : ℕ) (c : contains u ts ≡ true).
      has_open_time-IsMultiple d u cs o (sorted_has_open_time u cs c) in
    let (less, there) = cursor_of_times-lt d latest tip ts e in
    (
      less,
      sorted_has_open_time tip cs there,
      sorted_has_open_time (latest + suc k * d) cs
          (cursor_of_times-contains d latest tip k ts p l multiples e h),
    )
