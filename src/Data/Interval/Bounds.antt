-- ===== src/Data/Interval/Bounds.antt =====
-- internal/data/interval.go: what a parsed interval can be, and the size at which it wraps.
use tictick_hi.Base.{
  ℕ, zero, suc, ◌*◌, ◌<◌, ◌≡◌, refl, ap, ◌∙◌, ◌⊎◌, inl, inr, List, [], ◌∷◌, ◌++◌, true, false, some,
  arith, ltb, ok, length, last_or, length-append,
}
use tictick_hi.Base.Int.{pos}
use tictick_hi.Data.Interval.{
  minute, hour, wrap64, int64_limit, is_digit, digits_from, digits, atoi, positive_value,
  all_but_last, scale, parse_interval,
}

all_but_last-append : (c : ℕ) (ds : List ℕ) (u : ℕ) → all_but_last ((c ∷ ds) ++ u ∷ []) ≡ c ∷ ds
all_but_last-append c [] u = refl
all_but_last-append c (d ∷ ds) u = ap (◌∷◌ c) (all_but_last-append d ds u)

last_or-append : (c : ℕ) (ds : List ℕ) (u : ℕ) → last_or c (ds ++ u ∷ []) ≡ u
last_or-append c [] u = refl
last_or-append c (d ∷ ds) u = last_or-append d ds u

digits-is_digit : (c : ℕ) (ds : List ℕ) {v : ℕ} → digits (c ∷ ds) ≡ some v → is_digit c ≡ true
unfolding digits digits_from
digits-is_digit c ds h = ground arith

atoi-digits :
    (c : ℕ) (ds : List ℕ) (v : ℕ)
    → digits (c ∷ ds) ≡ some v
    → v < int64_limit
    → atoi (c ∷ ds) ≡ some (pos v)
unfolding atoi
atoi-digits c ds v h b = ground (arith, digits-is_digit c ds h)

positive_value-pos : (v : ℕ) → 0 < v → positive_value (some (pos v)) ≡ ok v
positive_value-pos zero h = elim h [ ]
positive_value-pos (suc v) h = refl

refuse-no : (c : ℕ) (ds : List ℕ) (u : ℕ) → ltb (length ((c ∷ ds) ++ u ∷ [])) 2 ≡ false
refuse-no c ds u = ground (arith, length-append ds (u ∷ []))

parse_interval-scale :
    (c : ℕ) (ds : List ℕ) (u v : ℕ)
    → digits (c ∷ ds) ≡ some v
    → 0 < v
    → v < int64_limit
    → parse_interval ((c ∷ ds) ++ u ∷ []) ≡ scale u v
unfolding parse_interval
parse_interval-scale c ds u v h p b = rw (
  all_but_last-append c ds u,
  atoi-digits c ds v h b,
  positive_value-pos v p,
  last_or-append c ds u,
  refuse-no c ds u,
)

abbrev pub day : ℕ
day = 24 * hour

-- The letters that `IntervalDuration` knows, and what each stands for.
abbrev pub IsUnit : ℕ → ℕ → Type 0
IsUnit u n = ((u ≡ b'm') × (n ≡ minute)) ⊎ (((u ≡ b'h') × (n ≡ hour)) ⊎ ((u ≡ b'd') × (n ≡ day)))

scale-exact : (u n v : ℕ) → IsUnit u n → v * n < int64_limit → scale u v ≡ ok (v * n)
unfolding scale
scale-exact u n v k b = ground arith

-- A text of digits that stand for a positive `v`, followed by a unit of `n` nanoseconds, is read
-- as `v * n`, if that product is within int64.
pub parse_interval-exact :
    (c : ℕ) (ds : List ℕ) (u n v : ℕ)
    → digits (c ∷ ds) ≡ some v
    → 0 < v
    → IsUnit u n
    → v * n < int64_limit
    → parse_interval ((c ∷ ds) ++ u ∷ []) ≡ ok (v * n)
parse_interval-exact c ds u n v h p k b =
    parse_interval-scale c ds u v h p (ground arith) ∙ scale-exact u n v k b

days_wrap64 : (v : ℕ) → wrap64 (wrap64 (v * 24) * hour) ≡ wrap64 (v * day)
days_wrap64 v = omega arith

scale-wrap64 : (u n v : ℕ) → IsUnit u n → scale u v ≡ ok (wrap64 (v * n))
unfolding scale
scale-wrap64 u n v (inl k) = ground arith
scale-wrap64 u n v (inr (inl k)) = ground arith
scale-wrap64 u n v (inr (inr k)) = rw (k.0, k.1) (ap ok (days_wrap64 v))

-- A text of digits that stand for a positive int64 `v`, followed by a unit of `n` nanoseconds, is
-- always accepted, and read as `v * n` modulo 2 ^ 64.
pub parse_interval-wrap64 :
    (c : ℕ) (ds : List ℕ) (u n v : ℕ)
    → digits (c ∷ ds) ≡ some v
    → 0 < v
    → v < int64_limit
    → IsUnit u n
    → parse_interval ((c ∷ ds) ++ u ∷ []) ≡ ok (wrap64 (v * n))
parse_interval-wrap64 c ds u n v h p b k =
    parse_interval-scale c ds u v h p b ∙ scale-wrap64 u n v k
