-- ===== src/Strategy/Signals.antt =====
-- internal/strategy/runtime.go: the two strategies, and the intents that they give. `show_int`
-- stands for the decimal digits that `%d` and `strconv.Itoa` print.
pub mod Numbering
use tictick_hi.Base.{
  ℕ, suc, ◌+◌, ◌-◌, String, Bool, true, false, not, ◌&&◌, ◌||◌, Option, none, some, List, [], ◌∷◌,
  ◌++◌, if◌then◌else◌, Result, ok, err, ◌>>=◌, ◌>>◌, refuse_if, map_err, str_eq, append, length,
  take, drop,
}
use tictick_hi.Base.Int.{ℤ, pos, ltb_ℤ}
use tictick_hi.Data.Model.{Candle}
use tictick_hi.Strategy.Intents.{Intent, intent_type_order, intent_type_notification}
use tictick_hi.Strategy.Params.{
  Floats, Value, Values, ParamSpec, ParamError, normalize_params, number_param_value,
  int_param_value, text_param, decimal_param,
}

pub data StrategyError : Type 0 where
  invalid_ema_periods invalid_lookback empty_range bad_price strategy_not_found : StrategyError
  bad_params : ParamError → StrategyError

pub record Definition (F : Type 0) : Type 0 where
  pub id : String
  pub params : List (ParamSpec F)

module _ (fl : Floats) (show_int : ℤ → String) where
  abbrev pub signal_type : String → String
  signal_type intent_type =
      if not (str_eq intent_type intent_type_notification) then intent_type_order else intent_type

  abbrev pub signal_id : String → String → ℕ → String
  signal_id prefix intent_type index =
      append prefix
        (append "_" (append (signal_type intent_type) (append "_" (show_int (pos (suc index))))))

  unfoldable pub signal_intent : String → ℕ → String → String → Candle → String → Intent
  signal_intent prefix index intent_type side c quantity = record {
    id = signal_id prefix intent_type index;
    intent_type = signal_type intent_type;
    side = side;
    price = c.close;
    quantity = quantity;
    message = append prefix (
        append " " (append side (append " signal for " (append c.symbol (append " at " c.close)))));
    occurred_at = c.open_time;
  }

  abbrev pub parsed : Option fl.F → Result StrategyError fl.F
  parsed none = err bad_price
  parsed (some f) = ok f

  -- `closePrices`, with each candle beside its price.
  pub close_prices : List Candle → Result StrategyError (List (Candle × fl.F))
  close_prices [] = ok []
  close_prices (c ∷ cs) = do
    price ← parsed (fl.parse c.close)
    rest ← close_prices cs
    ok ((c, price) ∷ rest)

  unfoldable pub ema : fl.F → fl.F → fl.F → fl.F
  ema price previous alpha =
      fl.add (fl.mul price alpha) (fl.mul previous (fl.sub (fl.of_int (pos 1)) alpha))

  unfoldable pub alpha_of : ℤ → fl.F
  alpha_of period = fl.div (fl.of_int (pos 2)) (fl.add (fl.of_int period) (fl.of_int (pos 1)))

  -- The `switch` of the loop: whether the lines cross, and to which side.
  unfoldable pub crossing : fl.F → fl.F → fl.F → fl.F → Option String
  crossing previous_fast previous_slow fast slow =
      if fl.le previous_fast previous_slow && fl.lt slow fast
      then some "buy"
      else (if fl.le previous_slow previous_fast && fl.lt fast slow then some "sell" else none)

  abbrev pub emitted : String → ℕ → String → Option String → Candle → String → List Intent
  emitted prefix index mode none c quantity = []
  emitted prefix index mode (some side) c quantity =
      signal_intent prefix index mode side c quantity ∷ []

  -- The loop; `count` is the number of intents so far.
  pub ema_loop :
      fl.F → fl.F → String → String → ℕ → fl.F → fl.F → List (Candle × fl.F) → List Intent
  unfolding ema crossing signal_intent
  ema_loop fast_alpha slow_alpha mode quantity count fast slow [] = []
  ema_loop fast_alpha slow_alpha mode quantity count fast slow ((c, price) ∷ rest) =
      let next_fast = ema price fast fast_alpha in
      let next_slow = ema price slow slow_alpha in
      let made =
        emitted "ema-cross" count mode (crossing fast slow next_fast next_slow) c quantity in
      made
      ++ ema_loop fast_alpha slow_alpha mode quantity (count + length made) next_fast next_slow rest

  pub ema_from : fl.F → fl.F → String → String → List (Candle × fl.F) → List Intent
  unfolding ema_loop
  ema_from fast_alpha slow_alpha mode quantity [] = []
  ema_from fast_alpha slow_alpha mode quantity ((c, price) ∷ rest) =
      ema_loop fast_alpha slow_alpha mode quantity 0 price price rest

  unfoldable pub ema_cross_intents : List Candle → Values fl.F → Result StrategyError (List Intent)
  unfolding ema_from close_prices alpha_of int_param_value text_param decimal_param
  ema_cross_intents candles params = do
    let mode = text_param fl params "signalMode" intent_type_order
    let fast_period = int_param_value fl params "fastPeriod" (pos 12)
    let slow_period = int_param_value fl params "slowPeriod" (pos 26)
    refuse_if (not (ltb_ℤ (pos 0) fast_period) || not (ltb_ℤ fast_period slow_period))
        invalid_ema_periods
    closes ← close_prices candles
    ok (
        ema_from (alpha_of fast_period) (alpha_of slow_period) mode
          (decimal_param fl show_int params "orderSize" "0.01") closes)

  -- The loop of `rangeHighLow`.
  pub widen : fl.F → fl.F → List Candle → Result StrategyError (fl.F × fl.F)
  widen high low [] = ok (high, low)
  widen high low (c ∷ cs) = do
    next_high ← parsed (fl.parse c.high)
    next_low ← parsed (fl.parse c.low)
    widen (if fl.lt high next_high then next_high else high)
        (if fl.lt next_low low then next_low else low) cs

  unfoldable pub range_high_low : List Candle → Result StrategyError (fl.F × fl.F)
  unfolding widen
  range_high_low [] = err empty_range
  range_high_low (c ∷ cs) = do
    high ← parsed (fl.parse c.high)
    low ← parsed (fl.parse c.low)
    widen high low cs

  abbrev pub when {ℓ} : {A : Type ℓ} → Bool → A → Option A
  when true a = some a
  when false a = none

  abbrev pub side_after : Option String → String → String
  side_after none last_side = last_side
  side_after (some side) last_side = side

  -- The two tests of the loop, in order: the sides that are signalled.
  unfoldable pub breakout_buy : String → String → fl.F → fl.F → fl.F → Option String
  breakout_buy side last_side buffer high close =
      when
        (fl.lt (fl.mul high (fl.add (fl.of_int (pos 1)) buffer)) close
          && not (str_eq side "short")
          && not (str_eq last_side "buy"))
        "buy"

  unfoldable pub breakout_sell : String → String → fl.F → fl.F → fl.F → Option String
  breakout_sell side last_side buffer low close =
      when
        (fl.lt close (fl.mul low (fl.sub (fl.of_int (pos 1)) buffer))
          && not (str_eq side "long")
          && not (str_eq last_side "sell"))
        "sell"

  -- The loop over the candles from `index` on; `count` is the number of intents so far.
  pub breakout_loop :
      List Candle
      → ℕ
      → fl.F
      → String
      → String
      → String
      → ℕ
      → ℕ
      → String
      → List Candle
      → Result StrategyError (List Intent)
  unfolding range_high_low breakout_buy breakout_sell signal_intent
  breakout_loop candles lookback buffer side mode quantity index count last_side [] = ok []
  breakout_loop candles lookback buffer side mode quantity index count last_side (c ∷ cs) = do
    (high, low) ← range_high_low (take lookback (drop (index - lookback) candles))
    close ← parsed (fl.parse c.close)
    let buy = breakout_buy side last_side buffer high close
    let bought = emitted "breakout-range" count mode buy c quantity
    let middle = side_after buy last_side
    let sell = breakout_sell side middle buffer low close
    let sold = emitted "breakout-range" (count + length bought) mode sell c quantity
    rest ←
        breakout_loop candles lookback buffer side mode quantity (suc index)
          (count + length bought + length sold) (side_after sell middle) cs
    ok (bought ++ (sold ++ rest))

  -- `lookback` as an index: `lookback <= 0` refuses.
  abbrev pub lookback_of : ℤ → Result StrategyError ℕ
  lookback_of (pos n) = refuse_if (not (ltb_ℤ (pos 0) (pos n))) invalid_lookback >> ok n
  lookback_of _ = err invalid_lookback

  unfoldable pub breakout_range_intents :
      List Candle → Values fl.F → Result StrategyError (List Intent)
  unfolding breakout_loop number_param_value int_param_value text_param decimal_param
  breakout_range_intents candles params = do
    lookback ← lookback_of (int_param_value fl params "lookback" (pos 20))
    let buffer =
        fl.div (number_param_value fl params "breakoutBufferPct" (fl.constant "0.2"))
          (fl.of_int (pos 100))
    breakout_loop candles lookback buffer (text_param fl params "side" "both")
        (text_param fl params "signalMode" intent_type_order)
        (decimal_param fl show_int params "orderSize" "0.01") lookback 0 "" (drop lookback candles)

  unfoldable pub generate_intents :
      Definition fl.F → List Candle → Values fl.F → Result StrategyError (List Intent)
  unfolding ema_cross_intents breakout_range_intents normalize_params
  generate_intents definition candles params = do
    normalized ← map_err bad_params (normalize_params fl definition.params params)
    if str_eq definition.id "ema-cross"
        then ema_cross_intents candles normalized
        else (if str_eq definition.id "breakout-range"
            then breakout_range_intents candles normalized
            else err strategy_not_found)
