-- ===== src/Backtest.antt =====
-- internal/backtest/runner.go: the intents of a strategy are filled one after the other.
-- `set_string` stands for `big.Rat.SetString`, `format_decimal` for `FloatString`, which rounds to a
-- number of digits, and `new_id` for the random identifiers of internal/core, of which the n-th call
-- either fails or gives a text.
pub mod Position
use tictick_hi.Base.{
  ℕ, zero, suc, String, Bool, true, false, not, ◌||◌, Option, none, some, List, [], ◌∷◌,
  if◌then◌else◌, Result, ok, err, ◌>>=◌, ◌>>◌, refuse_if, map_err, str_eq, length,
}
use tictick_hi.Base.Int.{ℤ, pos}
use tictick_hi.Base.Rat.{Rat, rat, zero_rat, lt_rat, add_rat, sub_rat, mul_rat, quo_rat, is_pos}
use tictick_hi.Data.Model.{Candle}
use tictick_hi.Strategy.Intents.{Intent, intent_type_order}

pub record BacktestTask : Type 0 where
  pub id : String
  pub interval : String
  pub initial_balance : String
  pub fee_bps : String
  pub slippage_bps : String
  pub trigger_mode : String

-- The price and the quantity are printed, with eight digits. The backtest's id and the status
-- `filled`, the same in every order, are left out.
pub record BacktestOrder : Type 0 where
  pub id : String
  pub intent_id : String
  pub side : String
  pub price : String
  pub quantity : String
  pub occurred_at : ℕ

pub data BacktestError : Type 0 where
  bad_initial_balance bad_bps bps_above_limit bad_price bad_quantity : BacktestError
  no_identifier : BacktestError

unfoldable pub backtest_trigger_mode : BacktestTask → String
backtest_trigger_mode task =
    if str_eq task.trigger_mode "" then "closed_candle" else task.trigger_mode

abbrev pub ten_thousand : Rat
ten_thousand = rat (pos 10_000) 0

abbrev pub one_rat : Rat
one_rat = rat (pos 1) 0

abbrev pub parsed : BacktestError → Option Rat → Result BacktestError Rat
parsed e none = err e
parsed e (some r) = ok r

unfoldable pub apply_slippage : Rat → String → Rat → Rat
apply_slippage price side slippage_rate =
    if not (is_pos slippage_rate)
    then price
    else (if str_eq side "buy"
        then mul_rat price (add_rat one_rat slippage_rate)
        else mul_rat price (sub_rat one_rat slippage_rate))

-- The variables of the loop that are numbers.
pub record Money : Type 0 where
  pub cash : Rat
  pub position : Rat
  pub total_fees : Rat

abbrev pub start_money : Rat → Money
start_money balance = record { cash = balance; position = zero_rat; total_fees = zero_rat }

-- All of them; `calls` counts the identifiers that were asked for.
pub record Account : Type 0 where
  pub money : Money
  pub orders : List BacktestOrder
  pub calls : ℕ

abbrev pub start_account : Rat → Account
start_account balance = record { money = start_money balance; orders = []; calls = 0 }

-- The `switch` on the side: the quantity that is filled, or none where the intent is passed over.
unfoldable pub fill_quantity : String → Rat → Rat → Option Rat
fill_quantity side position quantity =
    if str_eq side "buy"
    then some quantity
    else (if str_eq side "sell"
        then (if not (is_pos position)
            then none
            else (if lt_rat position quantity then some position else some quantity))
        else none)

-- Cash, position and fees after a fill.
unfoldable pub settle : String → Rat → Rat → Rat → Money → Money
settle side fill_price quantity fee_rate m =
    let notional = mul_rat fill_price quantity in
    let fee = mul_rat notional fee_rate in
    if str_eq side "buy"
    then record {
      cash = sub_rat m.cash (add_rat notional fee);
      position = add_rat m.position quantity;
      total_fees = add_rat m.total_fees fee;
    }
    else record {
      cash = add_rat m.cash (sub_rat notional fee);
      position = sub_rat m.position quantity;
      total_fees = add_rat m.total_fees fee;
    }

-- The summary; its numbers are printed with four digits.
pub record Summary : Type 0 where
  pub initial_balance : String
  pub fee_bps : String
  pub slippage_bps : String
  pub total_fees : String
  pub final_equity : String
  pub return_pct : String
  pub total_intents : ℕ
  pub total_orders : ℕ

unfoldable pub return_pct_of : Rat → Rat → Rat
return_pct_of initial final =
    if is_pos initial
    then mul_rat (quo_rat (sub_rat final initial) initial) (rat (pos 100) 0)
    else zero_rat

abbrev pub or_zero : Option Rat → Rat
or_zero none = zero_rat
or_zero (some r) = r

module _ (set_string : String → Option Rat) where
  unfoldable pub parse_backtest_bps : String → Result BacktestError (Rat × Rat)
  parse_backtest_bps value = if str_eq value "" then ok (zero_rat, zero_rat) else (do
    bps ← parsed bad_bps (set_string value)
    refuse_if (lt_rat ten_thousand bps) bps_above_limit
    ok (bps, quo_rat bps ten_thousand))

  unfoldable pub last_close : List Candle → Rat
  last_close [] = zero_rat
  last_close (c ∷ []) = or_zero (set_string c.close)
  last_close (c ∷ d ∷ cs) = last_close (d ∷ cs)

-- `Decimal.String`
abbrev pub shown : (ℕ → Rat → String) → Rat → String
shown format_decimal x = format_decimal 8 x

module _ (set_string : String → Option Rat) (format_decimal : ℕ → Rat → String)
    (new_id : ℕ → Option String) (intent_ids : String → String) where
  abbrev pub with_order :
      Intent → Rat → Rat → Money → Account → Option String → Result BacktestError Account
  with_order intent fill_price quantity m a none = err no_identifier
  with_order intent fill_price quantity m a (some id) = ok (record {
    money = m;
    orders =
        record {
          id = id;
          intent_id = intent_ids intent.id;
          side = intent.side;
          price = shown format_decimal fill_price;
          quantity = shown format_decimal quantity;
          occurred_at = intent.occurred_at;
        }
        ∷ a.orders;
    calls = suc a.calls;
  })

  -- From the quantity on. The orders are kept newest first; the source appends them.
  pub fill : Intent → Rat → Rat → Rat → Account → Option Rat → Result BacktestError Account
  unfolding settle apply_slippage
  fill intent price fee_rate slippage_rate a none = ok a
  fill intent price fee_rate slippage_rate a (some quantity) =
      let fill_price = apply_slippage price intent.side slippage_rate in
      if not (is_pos fill_price)
      then ok a
      else with_order intent fill_price quantity
          (settle intent.side fill_price quantity fee_rate a.money) a (new_id a.calls)

  pub fill_parsed : Intent → Rat → Rat → Account → Rat → Rat → Result BacktestError Account
  unfolding fill fill_quantity
  fill_parsed intent fee_rate slippage_rate a price quantity =
      if not (is_pos quantity) || not (is_pos price)
      then ok a
      else fill intent price fee_rate slippage_rate a
          (fill_quantity intent.side a.money.position quantity)

  -- One round of the loop.
  pub execute_intent : Rat → Rat → Account → Intent → Result BacktestError Account
  unfolding fill_parsed
  execute_intent fee_rate slippage_rate a intent =
      if not (str_eq intent.intent_type intent_type_order) then ok a else (do
        price ← parsed bad_price (set_string intent.price)
        quantity ← parsed bad_quantity (set_string intent.quantity)
        fill_parsed intent fee_rate slippage_rate a price quantity)

  pub execute_intents : Rat → Rat → Account → List Intent → Result BacktestError Account
  unfolding execute_intent
  execute_intents fee_rate slippage_rate a [] = ok a
  execute_intents fee_rate slippage_rate a (i ∷ is) =
      execute_intent fee_rate slippage_rate a i >>= λ a'.
      execute_intents fee_rate slippage_rate a' is

  abbrev pub summarised : Rat → Rat → Rat → List Candle → List Intent → Account → Summary
  summarised initial fee_bps slippage_bps candles intents a =
      let final = add_rat a.money.cash (mul_rat a.money.position (last_close set_string candles)) in
      record {
        initial_balance = format_decimal 4 initial;
        fee_bps = format_decimal 4 fee_bps;
        slippage_bps = format_decimal 4 slippage_bps;
        total_fees = format_decimal 4 a.money.total_fees;
        final_equity = format_decimal 4 final;
        return_pct = format_decimal 4 (return_pct_of initial final);
        total_intents = length intents;
        total_orders = length a.orders;
      }

  -- Once the balance and the rates have been read.
  pub execute_with :
      List Candle
      → List Intent
      → Rat
      → Rat × Rat
      → Rat × Rat
      → Result BacktestError (Account × Summary)
  unfolding execute_intents last_close return_pct_of
  execute_with candles intents initial (fee_bps, fee_rate) (slippage_bps, slippage_rate) = do
    a ← execute_intents fee_rate slippage_rate (start_account initial) intents
    ok (a, summarised initial fee_bps slippage_bps candles intents a)

  unfoldable pub execute :
      BacktestTask → List Candle → List Intent → Result BacktestError (Account × Summary)
  unfolding execute_with parse_backtest_bps
  execute task candles intents = do
    initial ← parsed bad_initial_balance (set_string task.initial_balance)
    fee ← parse_backtest_bps set_string task.fee_bps
    slippage ← parse_backtest_bps set_string task.slippage_bps
    execute_with candles intents initial fee slippage
