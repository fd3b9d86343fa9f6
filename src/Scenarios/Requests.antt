-- ===== src/Scenarios/Requests.antt =====
-- A symbol of okx and a live task that the API accepts: internal/web/api.
use Prim.Native.Nat.{max}
use tictick_hi.Base.{
  ◌<◌, inr, arith, arith, ℕ, ◌+◌, ◌≤◌, Bool, true, false, ◌≡◌, ◌↔◌, refl, none, List, [], ◌∷◌, ◌++◌,
  All, ok, length, ltb, leb, str_eq, codes, trim_space,
}
use tictick_hi.Base.Int.{pos}
use tictick_hi.Data.Query.{blank}
use tictick_hi.Strategy.Intents.{Intent}
use tictick_hi.Strategy.Params.{Floats, float64, text, lookup, normalize_params}
use tictick_hi.Trading.{TradingRunResult, run_result}
use tictick_hi.Api.Symbols.{matches_okx, matches_binance, all_upper_digit, validate_exchange_symbol}
use tictick_hi.Api.Symbols.Patterns.{IsPart, dashed, matches_okx_iff}
use tictick_hi.Api.Trading.{CreateTradingTask, Definition, validate_create_trading_task}
use tictick_hi.Api.Trading.Running.{stored_task, validate_create_trading_task-run_result}
use tictick_hi.Api.Logins.{
  LoginLimiter, Logins, idle, after_begin, after_finish, begin_login, finish_login,
  check_login_rate_limit, record_login_failure, failed_row, Reaches, at_once, step_on, begun,
  finished,
}
use tictick_hi.Api.Logins.Guessing.{tried-lt}

matches_okx_iff_example : (matches_okx (codes "BTC-USDT-SWAP") ≡ true) ↔ (
    (first : List ℕ) × (more : List (List ℕ)) × (codes "BTC-USDT-SWAP" ≡ first ++ dashed more)
    × IsPart first
    × All IsPart more
    × (1 ≤ length more)
    × (length more ≤ 2))
matches_okx_iff_example = matches_okx_iff (codes "BTC-USDT-SWAP")

abbrev hundreds : Floats
hundreds = record {
  F = ℕ;
  constant = λ s. limit (str_eq s "0");
  parse = λ s. none;
  of_int = λ n. 1;
  to_int = λ n. pos n;
  format = λ n. "1";
  lt = ltb;
  le = leb;
  add = λ a b. a + b;
  sub = λ a b. a;
  mul = λ a b. a;
  div = λ a b. a;
}
  where
    limit : Bool → ℕ
    limit true = 0
    limit false = 100

abbrev definition : Definition ℕ
definition = record { supported_intervals = "1m" ∷ []; params = [] }

abbrev live_task : CreateTradingTask ℕ
live_task = record {
  name = "swing";
  task_type = "live";
  exchange = "binance";
  account_id = "main";
  symbol = "BTCUSDT";
  interval = "1m";
  strategy_id = "ema_cross";
  strategy_params = [];
  intent_policy = ("riskLimitPct", float64 10) ∷ ("orderIntent", text "notify") ∷ [];
  live_confirmation = " LIVE ";
}

live_accepted : validate_create_trading_task hundreds live_task definition ≡ ok tt
unfolding validate_create_trading_task validate_exchange_symbol matches_binance all_upper_digit
    blank lookup normalize_params str_eq trim_space
live_accepted = refl

abbrev cross_intents : List Intent
cross_intents =
    record {
      id = "ema_cross-0";
      intent_type = "order";
      side = "buy";
      price = "10";
      quantity = "1";
      message = "";
      occurred_at = 7;
    }
    ∷ []

validate_create_trading_task-run_result_example :
    (r : TradingRunResult) × (run_result
        (λ a b. a)
        (stored_task "t1" "req" "trace" live_task)
        cross_intents
        9
      ≡ ok r)
validate_create_trading_task-run_result_example =
    validate_create_trading_task-run_result hundreds live_task definition "t1" "req" "trace"
      (λ a b. a) cross_intents 9 live_accepted

-- Two failures lock a key for 900; three guesses arrive, two of them side by side.
abbrev limiter : LoginLimiter
limiter = record { limit = 2; window = 600; lockout = 900; hash = λ s. s }

abbrev guess : ℕ → Logins → Logins
guess now s = after_begin s (begin_login limiter "ann|::1" "ann" "guess" now s.limits)

abbrev failure : ℕ → Logins → Logins
failure t s = after_finish s (finish_login limiter "ann|::1" t false s.limits)

abbrev quiet : Logins
quiet = idle (λ k. none)

abbrev two_asked : Logins
two_asked = guess 101 (guess 100 quiet)

abbrev two_failed : Logins
two_failed = failure 112 (failure 111 two_asked)

one_waits : (guess 100 quiet).waiting ≡ 1
unfolding begin_login check_login_rate_limit blank
one_waits = refl

two_wait : two_asked.waiting ≡ 2
unfolding begin_login check_login_rate_limit blank
two_wait = refl

one_left : (failure 111 two_asked).waiting ≡ 1
unfolding begin_login finish_login check_login_rate_limit blank
one_left = refl

none_wait : two_failed.waiting ≡ 0
unfolding begin_login finish_login check_login_rate_limit blank
none_wait = refl

-- The third guess comes after both failures and is refused.
third_refused : (guess 113 two_failed).tried ≡ 2
unfolding begin_login finish_login check_login_rate_limit record_login_failure failed_row blank
    str_eq
third_refused = refl

abbrev three_guesses : Reaches limiter "ann|::1" 2 quiet (guess 113 two_failed)
three_guesses =
    step_on
      (step_on
        (step_on
          (step_on (step_on at_once (begun quiet "ann" "guess" 100 (omega arith)))
            (begun (guess 100 quiet) "ann" "guess" 101 (omega (arith, one_waits))))
          (finished two_asked 111 false (omega (arith, two_wait))))
        (finished (failure 111 two_asked) 112 false (omega (arith, one_left))))
      (begun two_failed "ann" "guess" 113 (omega (arith, none_wait)))

in_time : (t : ℕ) → 100 ≤ t → t ≤ 200 → (100 ≤ t) × (t ≤ 200)
in_time t h k = (h, k)

tried-lt_example : (guess 113 two_failed).tried < max 1 2 + 2
tried-lt_example =
    tried-lt limiter "ann|::1" 2 100 200 (λ k. none) (guess 113 two_failed) three_guesses
      (record { window = inr (omega arith); lockout = omega arith })
      (
        (
          (
            (
              (tt, in_time 100 (omega arith) (omega arith)),
              in_time 101 (omega arith) (omega arith),
            ),
            (omega arith, omega arith, refl),
          ),
          (omega arith, omega arith, refl),
        ),
        in_time 113 (omega arith) (omega arith),
      )
      refl
