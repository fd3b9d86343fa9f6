-- ===== src/Api/Trading/Running.antt =====
-- internal/web/api/validation.go, internal/store/postgres/trading_store.go and
-- internal/trading/runner.go: a task that was accepted, stored and run.
use tictick_hi.Base.{
  ℕ, String, Bool, true, false, not, ◌&&◌, ◌||◌, ◌≡◌, refl, ap, ◌∙◌, ◌⊎◌, inl, inr, Option, none,
  some, List, [], ◌∷◌, Bool-cases, arith, if◌then◌else◌, ok, >>=-eq-ok, refuse_if, map_err, str_eq,
  str_eq_iff, trim_space,
}
use tictick_hi.Data.Query.{blank}
use tictick_hi.Strategy.Intents.{Intent, intent_type_notification}
use tictick_hi.Strategy.Params.{
  Floats, Value, float64, integer, json_number, text, boolean, other, Values, lookup, is_one_of,
}
use tictick_hi.Trading.{
  PolicyValue, text_value, other_value, TradingTask, TradingRunResult, text_or, text_policy,
  intent_policy_of, execute_order, handle_intent, handle_intents, run_result, notified, executed,
  paper_order, paper_execution,
}
use tictick_hi.Api.Symbols.{validate_exchange_symbol}
use tictick_hi.Api.Trading.{
  CreateTradingTask, Definition, RequestError, check_order_intent, validate_create_trading_task,
  fields_required, symbol_refused, wrong_type, not_confirmed, interval_unsupported,
  account_required,
}

abbrev pub stored_value : {F : Type 0} → Value F → PolicyValue
stored_value (text s) = text_value s
stored_value _ = other_value

abbrev pub stored_policy : {F : Type 0} → Values F → List (String × PolicyValue)
stored_policy [] = []
stored_policy ((k, v) ∷ policy) = (k, stored_value v) ∷ stored_policy policy

-- The row that `CreateTradingTask` of the store writes, as a run reads it.
unfoldable pub stored_task :
    {F : Type 0} → String → String → String → CreateTradingTask F → TradingTask
stored_task id request_id trace_parent task = record {
  id = id;
  task_type = task.task_type;
  exchange = task.exchange;
  account_id = task.account_id;
  symbol = task.symbol;
  strategy_id = task.strategy_id;
  intent_policy = stored_policy task.intent_policy;
  request_id = request_id;
  trace_parent = trace_parent;
}

text_policy-stored :
    {F : Type 0} (policy : Values F) (key fallback s : String)
    → lookup key policy ≡ some (text s)
    → text_policy (stored_policy policy) key fallback ≡ (if str_eq s "" then fallback else s)
unfolding lookup text_policy
text_policy-stored [] key fallback s h = absurd (ground arith)
text_policy-stored ((k, v) ∷ policy) key fallback s h = elim (Bool-cases (str_eq k key)) [
  | inl here ↦
      let same : v ≡ text s = ground arith in
      rw here (ap (λ w. text_or fallback (stored_value w)) same)
  | inr later ↦ rw later (text_policy-stored policy key fallback s (rw later at h))
]

-- The order intent of a live task that is accepted is `notify`.
live_notifies :
    {F : Type 0} (task_type : String) (v : Option (Value F))
    → check_order_intent task_type v ≡ ok tt
    → str_eq task_type "live" ≡ true
    → v ≡ some (text "notify")
live_notifies task_type none h l = absurd (ground arith)
live_notifies task_type (some (text s)) h l = elim (Bool-cases (str_eq s "execute")) [
  | inl execute ↦ cc (rw (execute, l) at h)
  | inr other_intent ↦ elim (Bool-cases (str_eq s "notify")) [
    | inl notify ↦ ap (λ x. some (text x)) ((str_eq_iff s "notify").0 notify)
    | inr wrong ↦ cc (rw (other_intent, wrong) at h)
  ]
]
live_notifies task_type (some (float64 f)) h l = cc
live_notifies task_type (some (integer n)) h l = cc
live_notifies task_type (some (json_number s)) h l = cc
live_notifies task_type (some (boolean b)) h l = cc
live_notifies task_type (some other) h l = cc

either_same : (b : Bool) (s : String) → (if b then s else s) ≡ s
either_same true s = refl
either_same false s = refl

-- A task whose intents all have an executor, or are notifications.
abbrev CanRun : TradingTask → Type 0
CanRun task =
    (str_eq task.task_type "paper" ≡ true) ⊎ ((i : Intent) → intent_policy_of task i ≡ "notify")

handle_intent_succeeds :
    (stable_id : String → String → String) (task : TradingTask) (channel : String) (now : ℕ)
    (r : TradingRunResult) (i : Intent)
    → CanRun task
    → (r' : TradingRunResult) × (handle_intent stable_id task channel now r i ≡ ok r')
unfolding handle_intent execute_order
handle_intent_succeeds stable_id task channel now r i (inr notifies) = (
  notified stable_id task channel now r i,
  rw ((str_eq_iff (intent_policy_of task i) "notify").1 (notifies i)) refl,
)
handle_intent_succeeds stable_id task channel now r i (inl paper) =
    elim (Bool-cases (str_eq (intent_policy_of task i) "notify")) [
      | inl told ↦ (notified stable_id task channel now r i, rw told refl)
      | inr done ↦ (
        executed stable_id task now r i
            (paper_order stable_id task i now, paper_execution stable_id task i now),
        rw (done, paper) refl,
      )
    ]

handle_intents_succeed :
    (stable_id : String → String → String) (task : TradingTask) (channel : String) (now : ℕ)
    (r : TradingRunResult) (is : List Intent)
    → CanRun task
    → (r' : TradingRunResult) × (handle_intents stable_id task channel now r is ≡ ok r')
unfolding handle_intents
handle_intents_succeed stable_id task channel now r [] h = (r, refl)
handle_intents_succeed stable_id task channel now r (i ∷ is) h =
    let (m, p) = handle_intent_succeeds stable_id task channel now r i h in
    let (r', q) = handle_intents_succeed stable_id task channel now m is h in (r', rw p q)

module _ (fl : Floats) (task : CreateTradingTask fl.F) (definition : Definition fl.F)
    (id request_id trace_parent : String) where
  live_CanRun :
      lookup "orderIntent" task.intent_policy ≡ some (text "notify")
      → (i : Intent) → str_eq task.task_type "paper" ≡ false
      → intent_policy_of (stored_task id request_id trace_parent task) i ≡ "notify"
  unfolding intent_policy_of stored_task
  live_CanRun h i n = elim (Bool-cases (str_eq i.intent_type intent_type_notification)) [
    | inl told ↦ rw told refl
    | inr order ↦
        rw (order, n)
          (text_policy-stored task.intent_policy "orderIntent" "notify" "notify" h
            ∙ either_same (str_eq "notify" "") "notify")
  ]

  passed_test : (b : Bool) (e : RequestError) {u : Unit {0}} → refuse_if b e ≡ ok u → b ≡ false
  passed_test true e h = cc
  passed_test false e h = refl

  runs :
      {u : Unit {0}}
      → (not (str_eq task.task_type "paper") && not (str_eq task.task_type "live")) ≡ false
      → check_order_intent task.task_type (lookup "orderIntent" task.intent_policy) ≡ ok u
      → CanRun (stored_task id request_id trace_parent task)
  unfolding stored_task
  runs t p = elim (Bool-cases (str_eq task.task_type "paper")) [
    | inl paper ↦ inl paper
    | inr n ↦
        let live : str_eq task.task_type "live" ≡ true = ground arith in
        inr (λ i.
          live_CanRun
            (live_notifies task.task_type (lookup "orderIntent" task.intent_policy) p live) i n)
  ]

  -- A trading task that the API accepts can be run: whatever intents its strategy gives, `result`
  -- succeeds on the stored task and never meets an executor that is disabled.
  pub validate_create_trading_task-run_result :
      (stable_id : String → String → String) (intents : List Intent) (now : ℕ)
      → validate_create_trading_task fl task definition ≡ ok tt
      → (r : TradingRunResult) × (run_result stable_id
            (stored_task id request_id trace_parent task)
            intents
            now
          ≡ ok r)
  unfolding run_result validate_create_trading_task
  validate_create_trading_task-run_result stable_id intents now h =
      let (u1, p1, h1) =
        >>=-eq-ok
          (refuse_if
            (blank task.name
              || (blank task.task_type
                  || (blank task.exchange
                      || (blank task.symbol || (blank task.interval || blank task.strategy_id)))))
            fields_required)
          _ h in
      let (u2, p2, h2) =
        >>=-eq-ok (map_err symbol_refused (validate_exchange_symbol task.exchange task.symbol)) _
          h1 in
      let (u3, p3, h3) =
        >>=-eq-ok
          (refuse_if (not (str_eq task.task_type "paper") && not (str_eq task.task_type "live"))
            wrong_type)
          _ h2 in
      let (u4, p4, h4) =
        >>=-eq-ok
          (refuse_if
            (str_eq task.task_type "live"
              && not (str_eq (trim_space task.live_confirmation) "LIVE"))
            not_confirmed)
          _ h3 in
      let (u5, p5, h5) =
        >>=-eq-ok
          (refuse_if (not (is_one_of task.interval definition.supported_intervals))
            interval_unsupported)
          _ h4 in
      let (u6, p6, h6) = >>=-eq-ok (refuse_if (blank task.account_id) account_required) _ h5 in
      let (u7, p7, h7) =
        >>=-eq-ok (check_order_intent task.task_type (lookup "orderIntent" task.intent_policy)) _
          h6 in
      let stored = stored_task id request_id trace_parent task in
      let can_run : CanRun stored =
        runs
          (passed_test (not (str_eq task.task_type "paper") && not (str_eq task.task_type "live"))
            wrong_type p3)
          p7 in
      handle_intents_succeed stable_id stored
        (text_policy stored.intent_policy "notificationChannel" "default") now
        (record {
          task_id = stored.id;
          intents = [];
          orders = [];
          executions = [];
          notifications = [];
        })
        intents can_run
