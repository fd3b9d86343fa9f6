-- ===== src/Data/Provider/Aggregation/Pages.antt =====
-- internal/data/candle_provider_aggregation.go: the page loops end, and stay within their limit.
use tictick_hi.Base.{
  ℕ, zero, suc, ◌+◌, ◌-◌, ◌<◌, ◌≡◌, refl, ◌⊎◌, inl, inr, arith, String, Bool, Option, none, some,
  List, [], ◌∷◌, ltb, leb, Result, ok, err, Result-cases, Bool-cases, length,
}
use tictick_hi.Base.Rat.{Rat}
use tictick_hi.Data.Model.{Candle, CandleQuery}
use tictick_hi.Data.Provider.BaseWindow.{AggregationBaseWindow, aggregation_page_limit}
use tictick_hi.Data.Provider.Aggregation.{
  Store, StoreError, AggregationBuildResult, Forward, Backward, Paged, stop, continue_with,
  take_page, finished, first_state, forward_loop, backward_loop, step_back,
  aggregate_forward_base_candles, latest_aggregation_stream_query, aggregate_base_candles,
  no_aggregation, stream_query, forward_from, stream_from, aggregate_latest, base_candles_from,
}

Paged-cases :
    (p : Paged)
    → ((r : AggregationBuildResult) × (p ≡ stop r)) ⊎ ((s : Forward) × (p ≡ continue_with s))
Paged-cases (stop r) = inl (r, refl)
Paged-cases (continue_with s) = inr (s, refl)

module _ (set_string : String → Option Rat) (text_lt : String → String → Bool)
    (format_decimal : Rat → String) where
  -- A page that lets the loop go on has brought its candles.
  take_page-returned :
      (q : CandleQuery) (n : ℕ) (s s' : Forward) (page : List Candle)
      → take_page set_string text_lt format_decimal q n s page ≡ continue_with s'
      → (s'.returned ≡ s.returned + length page) × (0 < length page)
  unfolding take_page
  take_page-returned q n s s' [] h = cc
  take_page-returned q n s s' (c ∷ cs) h = ground arith

  -- The rounds that are left grow fewer with every page.
  forward_loop_total :
      (list_native : Store) (q : CandleQuery) (limit fuel : ℕ) (s : Forward)
      → limit - s.returned < fuel
      → (r : Result StoreError AggregationBuildResult) × (forward_loop set_string text_lt
            format_decimal list_native q limit fuel s
          ≡ some r)
  unfolding forward_loop
  forward_loop_total list_native q limit zero s h = absurd (omega arith)
  forward_loop_total list_native q limit (suc fuel) s h = elim (Bool-cases (ltb s.returned limit)) [
    | inr e ↦ rw e (ok (finished set_string text_lt format_decimal s), refl)
    | inl e ↦
        let n = aggregation_page_limit (limit - s.returned) in
        elim (Result-cases (list_native (record q { from = some s.from; limit = n }))) [
          | inl (x, p) ↦ rw (e, p, forward_loop) (err x, refl)
          | inr (page, p) ↦
              elim (Paged-cases (take_page set_string text_lt format_decimal q n s page)) [
                | inl (r, t) ↦ rw (e, p, forward_loop) (rw t (ok r, refl))
                | inr (s', t) ↦
                    let more = take_page-returned q n s s' page t in
                    rw (e, p, forward_loop)
                      (rw t (forward_loop_total list_native q limit fuel s' (ground arith)))
              ]
        ]
  ]

  forward_from_total :
      (list_native : Store) (q : CandleQuery) (limit : ℕ) (target : String) (start : Option ℕ)
      → (r : Result StoreError AggregationBuildResult) × (forward_from set_string text_lt
            format_decimal list_native q limit target start
          ≡ some r)
  unfolding forward_from
  forward_from_total list_native q limit target none = (ok no_aggregation, refl)
  forward_from_total list_native q limit target (some from) =
      forward_loop_total list_native q limit (suc limit)
        (first_state set_string text_lt format_decimal q from target) (omega arith)

  aggregate_forward_total :
      (list_native : Store) (q : CandleQuery) (limit : ℕ) (target : String)
      → (r : Result StoreError AggregationBuildResult) × (aggregate_forward_base_candles set_string
            text_lt format_decimal list_native q limit target
          ≡ some r)
  unfolding aggregate_forward_base_candles
  aggregate_forward_total list_native q limit target =
      forward_from_total list_native q limit target q.from

  stream_from_total :
      (list_native : Store) (limit : ℕ) (target : String) (q : CandleQuery) (start : Option ℕ)
      → (r : Result StoreError AggregationBuildResult) × (stream_from set_string text_lt
            format_decimal list_native limit target q start
          ≡ some r)
  unfolding stream_from
  stream_from_total list_native limit target q none = (ok no_aggregation, refl)
  stream_from_total list_native limit target q (some from) =
      aggregate_forward_total list_native q limit target

  aggregate_latest_total :
      (list_native : Store) (limit : ℕ) (target : String) (stream : Result StoreError CandleQuery)
      → (r : Result StoreError AggregationBuildResult) × (aggregate_latest set_string text_lt
            format_decimal list_native limit target
            (some stream)
          ≡ some r)
  unfolding aggregate_latest
  aggregate_latest_total list_native limit target (err e) = (err e, refl)
  aggregate_latest_total list_native limit target (ok q) =
      stream_from_total list_native limit target q q.from

backward_loop_total :
    (list_latest : Store) (q : CandleQuery) (limit fuel : ℕ) (s : Backward)
    → limit - s.returned < fuel
    → (r : Result StoreError Backward) × (backward_loop list_latest q limit fuel s ≡ some r)
unfolding backward_loop step_back
backward_loop_total list_latest q limit zero s h = absurd (omega arith)
backward_loop_total list_latest q limit (suc fuel) s h = elim (Bool-cases (ltb s.returned limit)) [
  | inr e ↦ rw e (ok s, refl)
  | inl e ↦
      let n = aggregation_page_limit (limit - s.returned) in
      elim (Result-cases (list_latest (record q { to = s.to; limit = n }))) [
        | inl (x, p) ↦ rw (e, p, backward_loop) (err x, refl)
        | inr ([], p) ↦ rw (e, p, backward_loop) (ok s, refl)
        | inr (c ∷ cs, p) ↦ elim (Bool-cases (ltb (length (c ∷ cs)) n)) [
          | inl t ↦ rw (e, p, backward_loop) (rw t (ok (step_back s c cs), refl))
          | inr t ↦
              rw (e, p, backward_loop)
                (rw t
                  (backward_loop_total list_latest q limit fuel (step_back s c cs) (ground arith)))
        ]
      ]
]

latest_aggregation_stream_query_total :
    (list_latest : Store) (q : CandleQuery) (limit : ℕ)
    → (r : Result StoreError CandleQuery) × (latest_aggregation_stream_query list_latest q limit
        ≡ some r)
unfolding latest_aggregation_stream_query
latest_aggregation_stream_query_total list_latest q limit =
    let start : Backward = record {
      to = q.to;
      returned = 0;
      earliest_open = none;
      latest_open = none;
    } in
    let (r, e) = backward_loop_total list_latest q limit (suc limit) start (omega arith) in
    elim (Result-cases r) [
      | inl (x, p) ↦ rw (e, latest_aggregation_stream_query) (rw p (err x, refl))
      | inr (s, p) ↦
          rw (e, latest_aggregation_stream_query) (rw p (ok (stream_query q limit s), refl))
    ]

module _ (set_string : String → Option Rat) (text_lt : String → String → Bool)
    (format_decimal : Rat → String) where
  base_candles_from_total :
      (list_native list_latest : Store) (q : CandleQuery) (limit : ℕ) (target : String)
      (start : Option ℕ)
      → (r : Result StoreError AggregationBuildResult) × (base_candles_from set_string text_lt
            format_decimal list_native list_latest q limit target start
          ≡ some r)
  unfolding base_candles_from
  base_candles_from_total list_native list_latest q limit target none =
      let (stream, e) = latest_aggregation_stream_query_total list_latest q limit in
      rw e
        (aggregate_latest_total set_string text_lt format_decimal list_native limit target stream)
  base_candles_from_total list_native list_latest q limit target (some from) =
      aggregate_forward_total set_string text_lt format_decimal list_native q limit target

  -- The aggregation of base candles always ends: whatever the store answers, the fuel of its two
  -- loops is enough, so it gives a result or the store's error.
  pub aggregate_base_candles_total :
      (list_native list_latest : Store) (q : CandleQuery) (w : AggregationBaseWindow)
      (target : String)
      → (r : Result StoreError AggregationBuildResult) × (aggregate_base_candles set_string text_lt
            format_decimal list_native list_latest q w target
          ≡ some r)
  unfolding aggregate_base_candles
  aggregate_base_candles_total list_native list_latest q w target =
      elim (Bool-cases (leb w.limit 0)) [
        | inl z ↦ rw z (ok no_aggregation, refl)
        | inr z ↦ rw z (base_candles_from_total list_native list_latest q w.limit target q.from)
      ]
