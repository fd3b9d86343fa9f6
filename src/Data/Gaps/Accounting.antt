-- ===== src/Data/Gaps/Accounting.antt =====
-- internal/data/candle_provider.go: the gaps and the candles of a range account for all its slots.
use native.Mathlib.Nat.{mul-div_left, lt_of_mul-lt-mul_right}
use tictick_hi.Base.{
  ℕ, suc, ◌+◌, ◌-◌, ◌*◌, ◌/◌, ◌≤◌, ◌<◌, ◌≡◌, refl, ap, subst, ◌∙◌, none, some, List, [], ◌∷◌, ◌++◌,
  arith, length, All, ltb, Bool-cases, inl, inr,
}
use tictick_hi.Data.Interval.{align_time}
use tictick_hi.Data.Model.{Candle, CandleGap}
use tictick_hi.Data.Validation.Series.{IsRising}
use tictick_hi.Data.Gaps.{
  first_expected_open, new_candle_gap, leading_gap, inner_gap, inner_gaps, trailing_gap, whole_gap,
  last_open, gaps_of_sorted,
}

-- The instant is a multiple of the duration.
abbrev pub IsMultiple : ℕ → ℕ → Type 0
IsMultiple d t = align_time t d ≡ t

abbrev pub total_missing : List CandleGap → ℕ
total_missing [] = 0
total_missing (g ∷ gs) = g.missing_candles + total_missing gs

pub total_missing-append :
    (gs hs : List CandleGap) → total_missing (gs ++ hs) ≡ total_missing gs + total_missing hs
total_missing-append [] hs = omega arith
total_missing-append (g ∷ gs) hs = omega (arith, total_missing-append gs hs)

pub multiple : (d q : ℕ) → 0 < d → IsMultiple d (q * d)
unfolding align_time
multiple d q p = ap (λ t. t * d) (mul-div_left q p)

pub align_time-IsMultiple : (d t : ℕ) → 0 < d → IsMultiple d (align_time t d)
align_time-IsMultiple d t p = rw align_lem (multiple d (t / d) p)
  where
    align_lem : align_time t d ≡ t / d * d
    align_lem = unfold align_time in refl

pub IsMultiple-add : (d t : ℕ) → 0 < d → IsMultiple d t → IsMultiple d (t + d)
unfolding align_time
IsMultiple-add d t p h = subst (IsMultiple d) (omega arith) (multiple d (suc (t / d)) p)

gap_of_count :
    (d from k : ℕ) → 0 < d → (new_candle_gap from (from + suc k * d) d).missing_candles ≡ suc k
unfolding new_candle_gap
gap_of_count d from k p = ground (arith, count)
  where
    difference : from + suc k * d - from ≡ suc k * d
    difference = omega arith

    count : (from + suc k * d - from) / d ≡ suc k
    count = rw difference (mul-div_left (suc k) p)

-- Two multiples differ by a whole number of intervals.
pub steps_between :
    (d from to : ℕ)
    → IsMultiple d from
    → IsMultiple d to
    → from < to
    → (k : ℕ) × (to ≡ from + suc k * d)
unfolding align_time
steps_between d from to f t h =
    let a = from / d in
    let b = to / d in
    let less : a < b = lt_of_mul-lt-mul_right d (omega arith) in
    let split : b ≡ a + suc (b - a - 1) = omega arith in
    (b - a - 1, omega (arith, ap (λ (n : ℕ). n * d) split))

-- The gap from one multiple to a later one misses exactly the candles between.
pub new_candle_gap_exact :
    (d from to : ℕ)
    → 0 < d
    → IsMultiple d from
    → IsMultiple d to
    → from < to
    → (new_candle_gap from to d).missing_candles * d + from ≡ to
new_candle_gap_exact d from to p f t h =
    let (k, e) = steps_between d from to f t h in rw (e, gap_of_count d from k p) (omega arith)

abbrev pub Opens : ℕ → List Candle → Type 0
Opens d = All (λ c. IsMultiple d c.open_time)

-- Rising multiples are at least one interval apart.
next_multiple : (d from to : ℕ) → IsMultiple d from → IsMultiple d to → from < to → from + d ≤ to
next_multiple d from to f t h = let (k, e) = steps_between d from to f t h in rw e (omega arith)

inner_gap_account :
    (d from to : ℕ)
    → 0 < d
    → IsMultiple d from
    → IsMultiple d to
    → from < to
    → total_missing (inner_gap d from to) * d + from + d ≡ to
unfolding inner_gap
inner_gap_account d from to p f t h = ground (
  arith,
  next_multiple d from to f t h,
  new_candle_gap_exact d (from + d) to p (IsMultiple-add d from p f) t,
)

inner_gaps_account :
    (d previous : ℕ) (cs : List Candle)
    → 0 < d
    → IsMultiple d previous
    → Opens d cs
    → IsRising (some previous) cs
    → (total_missing (inner_gaps d previous cs) + length cs) * d + previous ≡ last_open previous cs
unfolding inner_gaps
inner_gaps_account d b [] p m o r = omega arith
inner_gaps_account d b (c ∷ cs) p m o r = omega (
  arith,
  total_missing-append (inner_gap d b c.open_time) (inner_gaps d c.open_time cs),
  ap (λ (n : ℕ). n * d)
      (total_missing-append (inner_gap d b c.open_time) (inner_gaps d c.open_time cs)),
  inner_gap_account d b c.open_time p m o.0 r.0,
  inner_gaps_account d c.open_time cs p o.0 o.1 r.1,
)

first_expected_open-IsMultiple : (d from : ℕ) → 0 < d → IsMultiple d (first_expected_open from d)
unfolding first_expected_open
first_expected_open-IsMultiple d from p = elim (Bool-cases (ltb (align_time from d) from)) [
  | inl e ↦ rw e (IsMultiple-add d _ p (align_time-IsMultiple d from p))
  | inr e ↦ rw e (align_time-IsMultiple d from p)
]

leading_gap_account :
    (d from open_time : ℕ)
    → 0 < d
    → IsMultiple d open_time
    → first_expected_open from d ≤ open_time
    → total_missing (leading_gap d (some from) open_time) * d + first_expected_open from d
      ≡ open_time
unfolding leading_gap
leading_gap_account d from t p m h = ground (
  arith,
  new_candle_gap_exact d (first_expected_open from d) t p (first_expected_open-IsMultiple d from p)
      m,
)

trailing_gap_account :
    (d to last : ℕ)
    → 0 < d
    → IsMultiple d last
    → last ≤ align_time to d
    → total_missing (trailing_gap d (some to) last) * d + last ≡ align_time to d
unfolding trailing_gap
trailing_gap_account d to last p m h = ground (
  arith,
  new_candle_gap_exact d (last + d) (align_time to d + d) p (IsMultiple-add d last p m)
      (IsMultiple-add d (align_time to d) p (align_time-IsMultiple d to p)),
  next_multiple d last (align_time to d) m (align_time-IsMultiple d to p),
)

last_open-IsMultiple :
    (d t : ℕ) (cs : List Candle) → IsMultiple d t → Opens d cs → IsMultiple d (last_open t cs)
last_open-IsMultiple d t [] m o = m
last_open-IsMultiple d t (c ∷ cs) m o = last_open-IsMultiple d c.open_time cs o.0 o.1

abbrev pub IsWithin : ℕ → ℕ → List Candle → Type 0
IsWithin first last = All (λ c. (first ≤ c.open_time) × (c.open_time ≤ last))

last_open-le :
    (first last t : ℕ) (cs : List Candle)
    → t ≤ last
    → IsWithin first last cs
    → last_open t cs ≤ last
last_open-le f l t [] h w = h
last_open-le f l t (c ∷ cs) h w = last_open-le f l c.open_time cs w.0.1 w.1

-- Every slot of the range is a candle or is missing: in a range of whole slots from the first
-- expected open time to the last, the candles and the missing ones together are as many as the
-- slots.
pub gaps_of_sorted_account :
    (d from to : ℕ) (cs : List Candle)
    → 0 < d
    → Opens d cs
    → IsRising none cs
    → first_expected_open from d ≤ align_time to d
    → IsWithin (first_expected_open from d) (align_time to d) cs
    → (total_missing (gaps_of_sorted d (some from) (some to) cs) + length cs) * d
        + first_expected_open from d
      ≡ align_time to d + d
unfolding gaps_of_sorted whole_gap
gaps_of_sorted_account d from to [] p o r h w = ground (
  arith,
  new_candle_gap_exact d (first_expected_open from d) (align_time to d + d) p
      (first_expected_open-IsMultiple d from p)
      (IsMultiple-add d (align_time to d) p (align_time-IsMultiple d to p)),
)
gaps_of_sorted_account d from to (c ∷ cs) p o r h w =
    let inner = inner_gaps d c.open_time cs in
    let lead = leading_gap d (some from) c.open_time in
    let trail = trailing_gap d (some to) (last_open c.open_time cs) in
    let parts =
      total_missing-append lead (inner ++ trail)
      ∙ ap (λ (n : ℕ). total_missing lead + n) (total_missing-append inner trail) in
    omega (
      arith,
      ap (λ (n : ℕ). n * d) parts,
      leading_gap_account d from c.open_time p o.0 w.0.0,
      inner_gaps_account d c.open_time cs p o.0 o.1 r.1,
      trailing_gap_account d to (last_open c.open_time cs) p
          (last_open-IsMultiple d c.open_time cs o.0 o.1)
          (last_open-le (first_expected_open from d) (align_time to d) c.open_time cs w.0.1 w.1),
    )
