-- ===== src/Trading.antt =====
-- internal/trading: runner.go, `result`, and executor.go. `stable_id` stands for
-- `core.StablePrefixedID`, a hash of its key; payloads, response summaries and the
-- second time stamps, equal to the first, are left out.
pub mod Keys
pub mod Retries
use tictick_hi.Base.{
  ℕ, String, Bool, true, false, not, ◌||◌, Option, none, some, List, [], ◌∷◌, ◌++◌, if◌then◌else◌,
  Result, ok, err, ◌>>=◌, str_eq, append,
}
use tictick_hi.Strategy.Intents.{Intent, intent_type_notification}

-- A value of the policy map: a text, or a value of another type.
pub data PolicyValue : Type 0 where
  text_value : String → PolicyValue
  other_value : PolicyValue

pub record TradingTask : Type 0 where
  pub id : String
  pub task_type : String
  pub exchange : String
  pub account_id : String
  pub symbol : String
  pub strategy_id : String
  pub intent_policy : List (String × PolicyValue)
  pub request_id : String
  pub trace_parent : String

pub record StrategyIntent : Type 0 where
  pub id : String
  pub task_id : String
  pub task_type : String
  pub strategy_id : String
  pub intent_type : String
  pub idempotency_key : String
  pub policy : String
  pub status : String
  pub created_at : ℕ

pub record Order : Type 0 where
  pub id : String
  pub task_id : String
  pub task_type : String
  pub intent_id : String
  pub idempotency_key : String
  pub exchange : String
  pub account_id : String
  pub symbol : String
  pub side : String
  pub order_type : String
  pub price : String
  pub quantity : String
  pub status : String
  pub created_at : ℕ

pub record Execution : Type 0 where
  pub id : String
  pub task_id : String
  pub task_type : String
  pub order_id : String
  pub intent_id : String
  pub idempotency_key : String
  pub exchange : String
  pub account_id : String
  pub symbol : String
  pub side : String
  pub price : String
  pub quantity : String
  pub fee : String
  pub status : String
  pub executed_at : ℕ

pub record Notification : Type 0 where
  pub id : String
  pub intent_id : String
  pub request_id : String
  pub trace_parent : String
  pub channel : String
  pub title : String
  pub body : String
  pub status : String
  pub created_at : ℕ

pub record TradingRunResult : Type 0 where
  pub task_id : String
  pub intents : List StrategyIntent
  pub orders : List Order
  pub executions : List Execution
  pub notifications : List Notification

pub data TradingError : Type 0 where
  live_execution_disabled : TradingError

abbrev pub text_or : String → PolicyValue → String
text_or fallback (text_value s) = if str_eq s "" then fallback else s
text_or fallback other_value = fallback

unfoldable pub text_policy : List (String × PolicyValue) → String → String → String
text_policy [] key fallback = fallback
text_policy ((k, v) ∷ rest) key fallback =
    let later = text_policy rest key fallback in if str_eq k key then text_or fallback v else later

unfoldable pub intent_policy_of : TradingTask → Intent → String
unfolding text_policy
intent_policy_of task intent =
    if str_eq intent.intent_type intent_type_notification
    then "notify"
    else (if str_eq task.task_type "paper"
        then text_policy task.intent_policy "orderIntent" "execute"
        else text_policy task.intent_policy "orderIntent" "notify")

unfoldable pub notification_body : TradingTask → Intent → String
notification_body task intent =
    if not (str_eq intent.message "")
    then intent.message
    else append intent.side (
        append " "
          (append intent.quantity (append " " (append task.symbol (append " at " intent.price)))))

abbrev pub idempotency_key_of : TradingTask → Intent → String
idempotency_key_of task intent = append task.id (append ":" intent.id)

module _ (stable_id : String → String → String) where
  abbrev pub intent_id_of : TradingTask → Intent → String
  intent_id_of task intent = stable_id "si" (append "intent:" (idempotency_key_of task intent))

  unfoldable pub trading_intent : TradingTask → Intent → String → String → ℕ → StrategyIntent
  trading_intent task intent policy status now = record {
    id = intent_id_of task intent;
    task_id = task.id;
    task_type = task.task_type;
    strategy_id = task.strategy_id;
    intent_type = intent.intent_type;
    idempotency_key = idempotency_key_of task intent;
    policy = policy;
    status = status;
    created_at = now;
  }

  unfoldable pub notification : TradingTask → Intent → String → ℕ → Notification
  unfolding notification_body
  notification task intent channel now = record {
    id = stable_id "nt" (
        append "notification:"
          (append task.id (append ":" (append intent.id (append ":" channel)))));
    intent_id = intent_id_of task intent;
    request_id = task.request_id;
    trace_parent = task.trace_parent;
    channel = channel;
    title = "Strategy intent";
    body = notification_body task intent;
    status = "pending";
    created_at = now;
  }

  abbrev pub order_id_of : TradingTask → Intent → String
  order_id_of task intent = stable_id "ord" (append "order:" (idempotency_key_of task intent))

  unfoldable pub paper_order : TradingTask → Intent → ℕ → Order
  paper_order task intent now = record {
    id = order_id_of task intent;
    task_id = task.id;
    task_type = task.task_type;
    intent_id = intent_id_of task intent;
    idempotency_key = idempotency_key_of task intent;
    exchange = task.exchange;
    account_id = task.account_id;
    symbol = task.symbol;
    side = intent.side;
    order_type = "market";
    price = intent.price;
    quantity = intent.quantity;
    status = "filled";
    created_at = now;
  }

  unfoldable pub paper_execution : TradingTask → Intent → ℕ → Execution
  paper_execution task intent now = record {
    id = stable_id "exe" (append "execution:" (idempotency_key_of task intent));
    task_id = task.id;
    task_type = task.task_type;
    order_id = order_id_of task intent;
    intent_id = intent_id_of task intent;
    idempotency_key = idempotency_key_of task intent;
    exchange = task.exchange;
    account_id = task.account_id;
    symbol = task.symbol;
    side = intent.side;
    price = intent.price;
    quantity = intent.quantity;
    fee = "0";
    status = "filled";
    executed_at = now;
  }

  -- `runner.executor(task).Execute(…)`: paper tasks are filled, others refused.
  unfoldable pub execute_order : TradingTask → Intent → ℕ → Result TradingError (Order × Execution)
  unfolding paper_order paper_execution
  execute_order task intent now =
      if str_eq task.task_type "paper"
      then ok (paper_order task intent now, paper_execution task intent now)
      else err live_execution_disabled

  abbrev pub notified : TradingTask → String → ℕ → TradingRunResult → Intent → TradingRunResult
  notified task channel now r intent = record r {
    intents =
        r.intents
        ++ trading_intent task intent (intent_policy_of task intent) "notification_pending" now
          ∷ [];
    notifications = r.notifications ++ notification task intent channel now ∷ [];
  }

  abbrev pub executed :
      TradingTask → ℕ → TradingRunResult → Intent → Order × Execution → TradingRunResult
  executed task now r intent (order, execution) = record r {
    intents =
        r.intents ++ trading_intent task intent (intent_policy_of task intent) "executed" now ∷ [];
    orders = r.orders ++ order ∷ [];
    executions = r.executions ++ execution ∷ [];
  }

  -- One round of the loop.
  unfoldable pub handle_intent :
      TradingTask → String → ℕ → TradingRunResult → Intent → Result TradingError TradingRunResult
  unfolding intent_policy_of execute_order trading_intent notification
  handle_intent task channel now r intent =
      if str_eq (intent_policy_of task intent) "notify"
      then ok (notified task channel now r intent)
      else execute_order task intent now >>= λ done. ok (executed task now r intent done)

  unfoldable pub handle_intents :
      TradingTask
      → String
      → ℕ
      → TradingRunResult
      → List Intent
      → Result TradingError TradingRunResult
  unfolding handle_intent
  handle_intents task channel now r [] = ok r
  handle_intents task channel now r (i ∷ is) =
      handle_intent task channel now r i >>= λ r'. handle_intents task channel now r' is

  unfoldable pub run_result : TradingTask → List Intent → ℕ → Result TradingError TradingRunResult
  unfolding handle_intents
  run_result task intents now =
      handle_intents task (text_policy task.intent_policy "notificationChannel" "default") now
        (record {
          task_id = task.id;
          intents = [];
          orders = [];
          executions = [];
          notifications = [];
        })
        intents
