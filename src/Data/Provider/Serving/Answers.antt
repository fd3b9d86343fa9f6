-- ===== src/Data/Provider/Serving/Answers.antt =====
-- internal/data/candle_provider.go: what a served result says of its candles.
use tictick_hi.Base.{
  ℕ, ◌≤◌, ◌≡◌, refl, ◌⊎◌, inl, inr, arith, String, Bool, true, false, not, ◌&&◌, ◌||◌, Option, List,
  [], ◌∷◌, ltb, if◌then◌else◌, Result, ok, err, Option-cases, Bool-cases, length, ◌==◌, str_eq,
  map_err, >>=-eq-ok,
}
use tictick_hi.Base.Rat.{Rat}
use tictick_hi.Data.Model.{
  Candle, CandleError, CandleQuery, CandleResult, CandleGap, CandleSource, CandleHealth,
  CandleIssue, healthy, gap, insufficient, native,
}
use tictick_hi.Data.Interval.{base_candle_interval}
use tictick_hi.Data.Query.{
  validate_candle_query_target, validate_candle_query_range, normalize_candle_limit,
}
use tictick_hi.Data.Gaps.{detect_candle_gaps_in_range}
use tictick_hi.Data.Validation.{validate_candle_series}
use tictick_hi.Data.Cursor.{CandleCursor}
use tictick_hi.Data.Provider.Results.{
  validate_strategy_candle_result, is_empty, is_healthy, candle_result, candle_health,
  invalid_candle_result,
}
use tictick_hi.Data.Provider.BaseWindow.{new_aggregation_base_query, AggregationBaseWindow}
use tictick_hi.Data.Provider.Trimming.{filter_candles_in_range, trim_aggregated_candles}
use tictick_hi.Data.Provider.Aggregation.{Store, aggregate_base_candles, AggregationBuildResult}
use tictick_hi.Data.Provider.Serving.{
  with_pagination, paginate, serve_from_base, serve_native, bad_query, interval_refused,
  store_error, total, aggregated_result, serve_aggregated, serve_valid, get_candles, limited_by,
}

-- Either the health is not `ok`, or there are candles, no gaps and no issues, and where the limit of
-- base candles cut the answer it still holds as many candles as the query asks for.
abbrev pub IsWhole : CandleQuery → CandleResult → Type 0
IsWhole q r =
    (is_empty r.candles ≡ false)
    × (r.gaps ≡ [])
    × (r.issues ≡ [])
    × ((r.coverage.limited_by_base_window ≡ false)
        ⊎ (normalize_candle_limit q.limit ≤ length r.candles))

abbrev pub IsHonest : CandleQuery → CandleResult → Type 0
IsHonest q r = (is_healthy r.health ≡ false) ⊎ IsWhole q r

candle_result-IsHonest :
    (q : CandleQuery) (cs : List Candle) (s : CandleSource) (b : String) (gs : List CandleGap)
    → IsHonest q (candle_result q cs s b gs)
unfolding candle_result
candle_result-IsHonest q [] s b [] = inl refl
candle_result-IsHonest q [] s b (g ∷ gs) = inl refl
candle_result-IsHonest q (c ∷ cs) s b [] = inr (refl, refl, refl, inl refl)
candle_result-IsHonest q (c ∷ cs) s b (g ∷ gs) = inl refl

-- The health after the corrections of `GetCandles`.
abbrev corrected : Bool → List Candle → List CandleGap → CandleHealth
corrected limited cs gs =
    if is_empty cs && not (is_empty gs)
    then gap
    else (if limited then insufficient else candle_health cs gs)

corrected-honest :
    (limited : Bool) (n : ℕ) (cs : List Candle) (gs : List CandleGap)
    → (is_healthy (corrected (limited && ltb (length cs) n) cs gs) ≡ false)
      ⊎ ((is_empty cs ≡ false)
          × (gs ≡ [])
          × (◌≡◌ {A = List CandleIssue} [] [])
          × ((limited ≡ false) ⊎ (n ≤ length cs)))
unfolding candle_health
corrected-honest limited n [] (g ∷ gs) = inl refl
corrected-honest limited n [] [] = elim (Bool-cases (limited && ltb 0 n)) [
  | inl t ↦ inl (ground arith)
  | inr t ↦ inl (ground arith)
]
corrected-honest limited n (c ∷ cs) (g ∷ gs) =
    elim (Bool-cases (limited && ltb (length (c ∷ cs)) n)) [
      | inl t ↦ inl (ground arith)
      | inr t ↦ inl (ground arith)
    ]
corrected-honest false n (c ∷ cs) [] = inr (refl, refl, refl, inl refl)
corrected-honest true n (c ∷ cs) [] = elim (Bool-cases (ltb (length (c ∷ cs)) n)) [
  | inl t ↦ inl (ground arith)
  | inr t ↦ inr (refl, refl, refl, inr (ground arith))
]

aggregated_result-IsHonest :
    (q : CandleQuery) (w : AggregationBaseWindow) (a : AggregationBuildResult)
    → IsHonest q (aggregated_result q w a)
unfolding aggregated_result
aggregated_result-IsHonest q w a =
    let cs = trim_aggregated_candles (filter_candles_in_range a.candles q.from q.to) q in
    corrected-honest (limited_by w a.returned_base_candles) (normalize_candle_limit q.limit) cs
      a.gaps

module _ (set_string : String → Option Rat) (text_lt : String → String → Bool)
    (format_decimal : Rat → String) (marshal : CandleCursor → Option String) (list_native : Store)
    (list_latest : Store) where
  with_pagination-IsHonest :
      (q : CandleQuery) (r r' : CandleResult)
      → IsHonest q r
      → with_pagination marshal list_native q r ≡ ok r'
      → IsHonest q r'
  unfolding with_pagination
  with_pagination-IsHonest q r r' h e =
      let (p, _, same) = >>=-eq-ok (paginate marshal list_native q r.source r.candles) _ e in
      ground arith

  serve_aggregated-IsHonest :
      (q : CandleQuery) (cs : List Candle) (gs : List CandleGap) (w : AggregationBaseWindow)
      (a : AggregationBuildResult) (r : CandleResult)
      → serve_aggregated set_string text_lt format_decimal marshal list_native list_latest q cs gs w
          a
        ≡ ok r
      → IsHonest q r
  unfolding serve_aggregated invalid_candle_result
  serve_aggregated-IsHonest q cs gs w a r e = elim (Option-cases a.invalid_err) [
    | inr (x, p) ↦ inl (ground arith)
    | inl p ↦ elim (Bool-cases (a.returned_base_candles == 0 && not (is_empty cs))) [
      | inl t ↦
          with_pagination-IsHonest q (candle_result q cs native q.interval gs) r
            (candle_result-IsHonest q cs native q.interval gs) (ground arith)
      | inr t ↦
          with_pagination-IsHonest q (aggregated_result q w a) r (aggregated_result-IsHonest q w a)
            (ground arith)
    ]
  ]

  serve_from_base-IsHonest :
      (q : CandleQuery) (cs : List Candle) (gs : List CandleGap) (r : CandleResult)
      → serve_from_base set_string text_lt format_decimal marshal list_native list_latest q cs gs
        ≡ ok r
      → IsHonest q r
  unfolding serve_from_base
  serve_from_base-IsHonest q cs gs r e =
      let (base, _, read) =
        >>=-eq-ok (map_err interval_refused (new_aggregation_base_query q)) _ e in
      let (a, _, served) =
        >>=-eq-ok
          (total (
            aggregate_base_candles set_string text_lt format_decimal list_native list_latest base.0
              base.1 q.interval))
          _ read in
      serve_aggregated-IsHonest q cs gs base.1 a r served

  serve_valid-IsHonest :
      (q : CandleQuery) (cs : List Candle) (gs : List CandleGap) (r : CandleResult)
      → serve_valid set_string text_lt format_decimal marshal list_native list_latest q cs gs ≡ ok r
      → IsHonest q r
  unfolding serve_valid
  serve_valid-IsHonest q cs gs r e =
      elim (Bool-cases
        (str_eq q.interval base_candle_interval || (not (is_empty cs) && is_empty gs))) [
          | inl t ↦
              with_pagination-IsHonest q (candle_result q cs native q.interval gs) r
                (candle_result-IsHonest q cs native q.interval gs) (ground arith)
          | inr t ↦ serve_from_base-IsHonest q cs gs r (ground arith)
        ]

  serve_native-IsHonest :
      (q : CandleQuery) (cs : List Candle) (v : Result CandleError (Unit {0})) (r : CandleResult)
      → serve_native set_string text_lt format_decimal marshal list_native list_latest q cs v ≡ ok r
      → IsHonest q r
  unfolding serve_native invalid_candle_result
  serve_native-IsHonest q cs (err x) r e = inl (ground arith)
  serve_native-IsHonest q cs (ok u) r e =
      let (gs, _, served) =
        >>=-eq-ok (map_err interval_refused (detect_candle_gaps_in_range cs q.interval q.from q.to))
          _ e in
      serve_valid-IsHonest q cs gs r served

  get_candles-IsHonest :
      (q : CandleQuery) (r : CandleResult)
      → get_candles set_string text_lt format_decimal marshal list_native list_latest q ≡ ok r
      → IsHonest q r
  unfolding get_candles
  get_candles-IsHonest q r e =
      let (_, _, ranged) = >>=-eq-ok (map_err bad_query (validate_candle_query_target q)) _ e in
      let (_, _, reading) =
        >>=-eq-ok (map_err bad_query (validate_candle_query_range q)) _ ranged in
      let (cs, _, served) = >>=-eq-ok (map_err store_error (list_native q)) _ reading in
      serve_native-IsHonest q cs (validate_candle_series set_string cs q.interval) r served

  -- An answer of `GetCandles` that claims the health `ok` has candles, and reports no gaps and no
  -- issues; where the limit of base candles cut it, it still holds as many candles as the query asks
  -- for.
  pub get_candles_healthy :
      (q : CandleQuery) (r : CandleResult)
      → get_candles set_string text_lt format_decimal marshal list_native list_latest q ≡ ok r
      → r.health ≡ healthy
      → (is_empty r.candles ≡ false)
        × (r.gaps ≡ [])
        × (r.issues ≡ [])
        × ((r.coverage.limited_by_base_window ≡ false)
            ⊎ (normalize_candle_limit q.limit ≤ length r.candles))
  get_candles_healthy q r e h = elim (get_candles-IsHonest q r e) [
    | inl sick ↦ cc
    | inr good ↦ good
  ]

  -- What a backtest or a trading run goes on with: an answer of `GetCandles` that
  -- `ValidateStrategyCandleResult` accepts has candles, no gaps and no issues, and was not cut by
  -- the limit of base candles.
  pub validate_strategy_candle_result-get_candles :
      (q : CandleQuery) (r : CandleResult)
      → get_candles set_string text_lt format_decimal marshal list_native list_latest q ≡ ok r
      → validate_strategy_candle_result r ≡ ok tt
      → (is_empty r.candles ≡ false)
        × (r.gaps ≡ [])
        × (r.issues ≡ [])
        × (r.coverage.limited_by_base_window ≡ false)
  unfolding validate_strategy_candle_result
  validate_strategy_candle_result-get_candles q r e v = elim (get_candles-IsHonest q r e) [
    | inl sick ↦ absurd (ground arith)
    | inr (there, whole, sound, _) ↦ (there, whole, sound, ground arith)
  ]
