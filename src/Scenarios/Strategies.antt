-- ===== src/Scenarios/Strategies.antt =====
-- Two strategies, a backtest and a paper run: internal/strategy, internal/backtest, internal/trading.
use tictick_hi.Base.{
  ℕ, ◌+◌, ◌-◌, ◌*◌, ◌/◌, ◌≤◌, ◌≡◌, refl, String, true, Option, none, some, List, [], ◌∷◌, ok, All,
  length, ltb, leb, str_eq, if◌then◌else◌,
}
use tictick_hi.Base.Int.{ℤ, pos, negsuc, ltb_ℤ, ◌*ℤ◌, ◌+ℤ◌, ◌-ℤ◌}
use tictick_hi.Base.Rat.{Rat, rat, zero_rat, add_rat, sub_rat, mul_rat, quo_rat, is_pos}
use tictick_hi.Data.Model.{Candle}
use tictick_hi.Strategy.Intents.{Intent}
use tictick_hi.Strategy.Params.{
  Floats, integer, text, ParamSpec, Values, number_type, select_type, normalize_params, text_param,
}
use tictick_hi.Strategy.Params.Normalized.{
  IsKnown, IsAccepted, IsSupplied, normalize_params-IsAccepted,
}
use tictick_hi.Strategy.Signals.{ema_cross_intents, breakout_range_intents}
use tictick_hi.Strategy.Signals.Numbering.{IsNumbered, ema_cross_intents-IsNumbered}
use tictick_hi.Backtest.{BacktestTask, Account, Summary, execute, parse_backtest_bps}
use tictick_hi.Backtest.Position.{IsSettled, execute-IsSettled}
use tictick_hi.Trading.{TradingTask, TradingRunResult, run_result}
use tictick_hi.Trading.Keys.{IsAnswered, run_result-IsAnswered}
use tictick_hi.Trading.Retries.{IsSameRun, run_result-IsSameRun}

abbrev magnitude : ℤ → ℕ
magnitude (pos n) = n
magnitude (negsuc n) = 0

-- Thousandths, cut off at zero, in the place of float64.
abbrev thousandths : Floats
thousandths = record {
  F = ℕ;
  constant = λ s. 200;
  parse = λ s. some (if str_eq s "1" then 1000 else 9000);
  of_int = λ n. magnitude n * 1000;
  to_int = λ n. pos (n / 1000);
  format = λ n. "1";
  lt = ltb;
  le = leb;
  add = λ a b. a + b;
  sub = λ a b. a - b;
  mul = λ a b. a * b / 1000;
  div = λ a b. a * 1000 / b;
}

abbrev some_digits : ℤ → String
some_digits n = if ltb_ℤ n (pos 2) then "1" else "2"

abbrev priced : ℕ → String → Candle
priced t price = record {
  exchange = "binance";
  symbol = "BTCUSDT";
  interval = "1m";
  open_time = t;
  close_time = t + 60_000_000_000;
  open_price = price;
  high = price;
  low = price;
  close = price;
  volume = "1";
  is_closed = true;
}

abbrev rising_prices : List Candle
rising_prices = priced 0 "1" ∷ priced 60_000_000_000 "9" ∷ []

abbrev lookback_of_one : Values ℕ
lookback_of_one = ("lookback", integer (pos 1)) ∷ []

abbrev buy_signal : String → String → Intent
buy_signal name message = record {
  id = name;
  intent_type = "order";
  side = "buy";
  price = "9";
  quantity = "0.01";
  message = message;
  occurred_at = 60_000_000_000;
}

ema_crossed :
    ema_cross_intents thousandths some_digits rising_prices []
    ≡ ok (buy_signal "ema-cross_order_1" "ema-cross buy signal for BTCUSDT at 9" ∷ [])
unfolding ema_cross_intents str_eq
ema_crossed = refl

ema_cross_intents-IsNumbered_example :
    IsNumbered thousandths some_digits "ema-cross"
      (text_param thousandths [] "signalMode" "order")
      0
      (buy_signal "ema-cross_order_1" "ema-cross buy signal for BTCUSDT at 9" ∷ [])
ema_cross_intents-IsNumbered_example =
    ema_cross_intents-IsNumbered thousandths some_digits rising_prices []
      (buy_signal "ema-cross_order_1" "ema-cross buy signal for BTCUSDT at 9" ∷ []) ema_crossed

broken_out :
    breakout_range_intents thousandths some_digits rising_prices lookback_of_one
    ≡ ok (buy_signal "breakout-range_order_1" "breakout-range buy signal for BTCUSDT at 9" ∷ [])
unfolding breakout_range_intents str_eq
broken_out = refl

abbrev lookback_spec : ParamSpec ℕ
lookback_spec = record {
  key = "lookback";
  param_type = number_type;
  required = true;
  default = some (integer (pos 20));
  least = some 1000;
  most = some 300_000;
  options = [];
}

abbrev side_spec : ParamSpec ℕ
side_spec = record {
  key = "side";
  param_type = select_type;
  required = true;
  default = some (text "both");
  least = none;
  most = none;
  options = "both" ∷ "long" ∷ [];
}

abbrev both_specs : List (ParamSpec ℕ)
both_specs = lookback_spec ∷ side_spec ∷ []

abbrev normal_values : Values ℕ
normal_values = ("lookback", integer (pos 1)) ∷ ("side", text "both") ∷ []

normalized_lem : normalize_params thousandths both_specs lookback_of_one ≡ ok normal_values
unfolding normalize_params str_eq
normalized_lem = refl

normalize_params-IsAccepted_example :
    All (IsKnown thousandths both_specs) lookback_of_one
    × All (IsAccepted thousandths both_specs) normal_values
    × All (IsSupplied thousandths lookback_of_one) both_specs
normalize_params-IsAccepted_example =
    normalize_params-IsAccepted thousandths both_specs lookback_of_one normal_values normalized_lem

abbrev read_one : String → Option Rat
read_one s = some (rat (pos 1) 0)

abbrev always_named : ℕ → Option String
always_named n = some "bo_1"

abbrev unmapped : String → String
unmapped name = "si_1"

abbrev small_backtest : BacktestTask
small_backtest = record {
  id = "b1";
  interval = "1m";
  initial_balance = "1";
  fee_bps = "";
  slippage_bps = "";
  trigger_mode = "";
}

abbrev one_buy : List Intent
one_buy = buy_signal "ema-cross_order_1" "" ∷ []

-- Digits for the two numbers that occur.
abbrev one_or_zero : ℕ → Rat → String
one_or_zero n r = if is_pos r then "1" else "0"

abbrev bought : Account
bought = record {
  money = record { cash = rat (pos 0) 0; position = rat (pos 1) 0; total_fees = rat (pos 0) 0 };
  orders =
      record {
        id = "bo_1";
        intent_id = "si_1";
        side = "buy";
        price = "1";
        quantity = "1";
        occurred_at = 60_000_000_000;
      }
      ∷ [];
  calls = 1;
}

abbrev bought_summary : Summary
bought_summary = record {
  initial_balance = "1";
  fee_bps = "0";
  slippage_bps = "0";
  total_fees = "0";
  final_equity = "1";
  return_pct = "0";
  total_intents = 1;
  total_orders = 1;
}

no_fee : parse_backtest_bps read_one "" ≡ ok (rat (pos 0) 0, rat (pos 0) 0)
unfolding parse_backtest_bps str_eq zero_rat
no_fee = refl

small_backtest_executed :
    execute read_one one_or_zero always_named unmapped small_backtest rising_prices one_buy
    ≡ ok (bought, bought_summary)
unfolding execute str_eq is_pos zero_rat sub_rat add_rat mul_rat ◌-ℤ◌ ◌+ℤ◌ ◌*ℤ◌ quo_rat
small_backtest_executed = refl

execute-IsSettled_example :
    IsSettled one_or_zero (rat (pos 0) 0) (rat (pos 1) 0) bought
    × (bought_summary.total_orders ≡ length bought.orders)
    × (bought_summary.total_orders ≤ length one_buy)
execute-IsSettled_example =
    execute-IsSettled read_one one_or_zero always_named unmapped small_backtest rising_prices
      one_buy (rat (pos 1) 0) (rat (pos 0) 0) (rat (pos 0) 0) bought bought_summary refl no_fee
      small_backtest_executed

abbrev first_key : String → String → String
first_key prefix key = prefix

abbrev paper_task : TradingTask
paper_task = record {
  id = "p1";
  task_type = "paper";
  exchange = "binance";
  account_id = "a1";
  symbol = "BTCUSDT";
  strategy_id = "ema-cross";
  intent_policy = [];
  request_id = "";
  trace_parent = "";
}

abbrev paper_run : ℕ → TradingRunResult
paper_run now = record {
  task_id = "p1";
  intents =
      record {
        id = "si";
        task_id = "p1";
        task_type = "paper";
        strategy_id = "ema-cross";
        intent_type = "order";
        idempotency_key = "p1:ema-cross_order_1";
        policy = "execute";
        status = "executed";
        created_at = now;
      }
      ∷ [];
  orders =
      record {
        id = "ord";
        task_id = "p1";
        task_type = "paper";
        intent_id = "si";
        idempotency_key = "p1:ema-cross_order_1";
        exchange = "binance";
        account_id = "a1";
        symbol = "BTCUSDT";
        side = "buy";
        order_type = "market";
        price = "9";
        quantity = "0.01";
        status = "filled";
        created_at = now;
      }
      ∷ [];
  executions =
      record {
        id = "exe";
        task_id = "p1";
        task_type = "paper";
        order_id = "ord";
        intent_id = "si";
        idempotency_key = "p1:ema-cross_order_1";
        exchange = "binance";
        account_id = "a1";
        symbol = "BTCUSDT";
        side = "buy";
        price = "9";
        quantity = "0.01";
        fee = "0";
        status = "filled";
        executed_at = now;
      }
      ∷ [];
  notifications = [];
}

paper_ran : run_result first_key paper_task one_buy 5 ≡ ok (paper_run 5)
unfolding run_result str_eq
paper_ran = refl

run_result-IsAnswered_example : IsAnswered first_key paper_task one_buy (paper_run 5)
run_result-IsAnswered_example =
    run_result-IsAnswered first_key paper_task one_buy 5 (paper_run 5) paper_ran

run_result-IsSameRun_example :
    (s : TradingRunResult) × (run_result first_key paper_task one_buy 9 ≡ ok s)
    × IsSameRun (paper_run 5) s
run_result-IsSameRun_example =
    run_result-IsSameRun first_key paper_task one_buy 5 9 (paper_run 5) paper_ran
