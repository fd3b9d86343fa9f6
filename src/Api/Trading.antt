-- ===== src/Api/Trading.antt =====
-- internal/web/api/validation.go: new trading tasks and backtests. Decoded JSON is a Value, and a map
-- of values an association list.
pub mod Running
use tictick_hi.Base.{
  ℕ, String, Bool, true, false, not, ◌&&◌, ◌||◌, Option, none, some, List, [], ◌∷◌, ltb,
  if◌then◌else◌, Result, ok, err, ◌>>=◌, ◌>>◌, refuse_if, map_err, str_eq, trim_space,
}
use tictick_hi.Data.Query.{blank}
use tictick_hi.Strategy.Params.{
  Floats, Value, float64, integer, json_number, text, boolean, other, ParamSpec, ParamError, Values,
  lookup, is_one_of, normalize_params,
}
use tictick_hi.Api.Symbols.{SymbolError, validate_exchange_symbol}

pub record Definition (F : Type 0) : Type 0 where
  pub supported_intervals : List String
  pub params : List (ParamSpec F)

pub record CreateTradingTask (F : Type 0) : Type 0 where
  pub name : String
  pub task_type : String
  pub exchange : String
  pub account_id : String
  pub symbol : String
  pub interval : String
  pub strategy_id : String
  pub strategy_params : Values F
  pub intent_policy : Values F
  pub live_confirmation : String

pub data RequestError : Type 0 where
  fields_required wrong_type not_confirmed interval_unsupported account_required : RequestError
  wrong_order_intent live_execution_disabled wrong_risk_limit range_required : RequestError
  range_reversed wrong_balance wrong_basis_points wrong_trigger_mode : RequestError
  symbol_refused : SymbolError → RequestError
  params_refused : ParamError → RequestError

-- `if _, exists := policy[key]; !exists { policy[key] = value }`
unfoldable pub put_missing : {F : Type 0} → String → Value F → Values F → Values F
unfolding lookup
put_missing key value policy = elim (lookup key policy) [
  | none ↦ (key, value) ∷ policy
  | some v ↦ policy
]

unfoldable pub default_policy : {F : Type 0} → F → String → Values F → Values F
unfolding put_missing
default_policy ten task_type policy = put_missing "riskLimitPct" (float64 ten) (
    put_missing "notificationChannel" (text "default") (
      put_missing "orderIntent" (text (if str_eq task_type "live" then "notify" else "execute"))
        policy))

unfoldable pub normalize_create_trading_task :
    {F : Type 0} → F → CreateTradingTask F → CreateTradingTask F
unfolding default_policy
normalize_create_trading_task ten task = record task {
  account_id =
      if str_eq task.task_type "paper" && str_eq task.account_id ""
      then "paper"
      else task.account_id;
  intent_policy = default_policy ten task.task_type task.intent_policy;
}

abbrev pub check_order_intent :
    {F : Type 0} → String → Option (Value F) → Result RequestError (Unit {0})
check_order_intent task_type none = err wrong_order_intent
check_order_intent task_type (some (text intent)) =
    if str_eq intent "execute"
    then refuse_if (str_eq task_type "live") live_execution_disabled
    else if str_eq intent "notify"
    then ok tt
    else err wrong_order_intent
check_order_intent task_type (some _) = err wrong_order_intent

module _ (fl : Floats) where
  -- A json.Number that does not parse is not a number.
  abbrev pub policy_number : Option (Value fl.F) → Option fl.F
  policy_number (some (float64 f)) = some f
  policy_number (some (integer n)) = some (fl.of_int n)
  policy_number (some (json_number s)) = fl.parse s
  policy_number _ = none

  abbrev pub is_percentage : Option fl.F → Bool
  is_percentage none = false
  is_percentage (some f) = fl.le (fl.constant "0") f && fl.le f (fl.constant "100")

  unfoldable pub validate_create_trading_task :
      CreateTradingTask fl.F → Definition fl.F → Result RequestError (Unit {0})
  validate_create_trading_task task definition = do
    refuse_if
        (blank task.name
          || (blank task.task_type
              || (blank task.exchange
                  || (blank task.symbol || (blank task.interval || blank task.strategy_id)))))
        fields_required
    map_err symbol_refused (validate_exchange_symbol task.exchange task.symbol)
    refuse_if (not (str_eq task.task_type "paper") && not (str_eq task.task_type "live")) wrong_type
    refuse_if
        (str_eq task.task_type "live" && not (str_eq (trim_space task.live_confirmation) "LIVE"))
        not_confirmed
    refuse_if (not (is_one_of task.interval definition.supported_intervals)) interval_unsupported
    refuse_if (blank task.account_id) account_required
    check_order_intent task.task_type (lookup "orderIntent" task.intent_policy)
    refuse_if (not (is_percentage (policy_number (lookup "riskLimitPct" task.intent_policy))))
        wrong_risk_limit
    params ← map_err params_refused (normalize_params fl definition.params task.strategy_params)
    ok tt

  pub record CreateBacktestTask : Type 0 where
    pub name : String
    pub exchange : String
    pub symbol : String
    pub interval : String
    pub start_time : Option ℕ
    pub end_time : Option ℕ
    pub strategy_id : String
    pub strategy_params : Values fl.F
    pub initial_balance : String
    pub fee_bps : String
    pub slippage_bps : String
    pub trigger_mode : String

  abbrev pub or_text : String → String → String
  or_text fallback value = if str_eq value "" then fallback else value

  unfoldable pub normalize_create_backtest : CreateBacktestTask → CreateBacktestTask
  normalize_create_backtest task = record task {
    initial_balance = or_text "10000" task.initial_balance;
    fee_bps = or_text "0" task.fee_bps;
    slippage_bps = or_text "0" task.slippage_bps;
    trigger_mode = or_text "closed_candle" task.trigger_mode;
  }

  -- `validDecimal(value, true)`, which is the only use of it.
  abbrev pub is_positive : Option fl.F → Bool
  is_positive none = false
  is_positive (some f) = fl.lt (fl.constant "0") f

  abbrev pub is_basis_points : Option fl.F → Bool
  is_basis_points none = false
  is_basis_points (some f) = fl.le (fl.constant "0") f && fl.le f (fl.constant "10000")

  unfoldable pub check_times : Option ℕ → Option ℕ → Result RequestError (Unit {0})
  check_times (some from) (some to) = refuse_if (not (ltb from to)) range_reversed
  check_times _ _ = err range_required

  unfoldable pub validate_create_backtest :
      CreateBacktestTask → Definition fl.F → Result RequestError (Unit {0})
  unfolding check_times
  validate_create_backtest task definition = do
    refuse_if
        (blank task.name
          || (blank task.exchange
              || (blank task.symbol || (blank task.interval || blank task.strategy_id))))
        fields_required
    map_err symbol_refused (validate_exchange_symbol task.exchange task.symbol)
    check_times task.start_time task.end_time
    refuse_if (not (is_one_of task.interval definition.supported_intervals)) interval_unsupported
    refuse_if (not (is_positive (fl.parse task.initial_balance))) wrong_balance
    refuse_if
        (not (is_basis_points (fl.parse task.fee_bps))
          || not (is_basis_points (fl.parse task.slippage_bps)))
        wrong_basis_points
    refuse_if
        (not (str_eq task.trigger_mode "closed_candle")
          && not (str_eq task.trigger_mode "minute_replay"))
        wrong_trigger_mode
    params ← map_err params_refused (normalize_params fl definition.params task.strategy_params)
    ok tt
