-- ===== src/Trading/Keys.antt =====
-- internal/trading/runner.go, `result`: every intent is answered once, and under the same key.
use mathlib.Core.List.{append_assoc, append-nil}
use tictick_hi.Base.{
  ℕ, ◌≡◌, ◌⊎◌, refl, sym, ap, subst, ◌∙◌, inl, inr, arith, String, true, List, [], ◌∷◌, ◌++◌, map,
  ok, >>=-eq-ok, ok-injective, Bool-cases, str_eq, append,
}
use tictick_hi.Strategy.Intents.{Intent}
use tictick_hi.Trading.{
  TradingTask, TradingError, TradingRunResult, StrategyIntent, Order, Execution, Notification,
  intent_policy_of, execute_order, handle_intent, handle_intents, run_result, notified, executed,
  trading_intent, notification, paper_order, paper_execution, text_policy,
}

module _ {ℓ κ} {A : Type ℓ} {B : Type κ} where
  pub map-snoc : (f : A → B) (xs : List A) (x : A) → map f (xs ++ x ∷ []) ≡ map f xs ++ f x ∷ []
  map-snoc f [] x = refl
  map-snoc f (y ∷ xs) x = ap (◌∷◌ (f y)) (map-snoc f xs x)

abbrev intent_key : StrategyIntent → String
intent_key i = i.idempotency_key

-- The key of an intent, and the identifier of its stored form.
abbrev pub own_key : TradingTask → Intent → String
own_key task j = append task.id (append ":" j.id)

abbrev pub own_id : (String → String → String) → TradingTask → Intent → String
own_id stable_id task j = stable_id "si" (append "intent:" (own_key task j))

-- The order and the execution of an intent: both carry its key and the identifier under which it is
-- stored, and what it asks for, and the execution names the order.
pub record IsFilled (stable_id : String → String → String) (task : TradingTask) (j : Intent)
    (o : Order) (x : Execution) : Type 0 where
  pub paper : str_eq task.task_type "paper" ≡ true
  pub order_intent : o.intent_id ≡ own_id stable_id task j
  pub order_key : o.idempotency_key ≡ own_key task j
  pub order_side : o.side ≡ j.side
  pub order_price : o.price ≡ j.price
  pub order_quantity : o.quantity ≡ j.quantity
  pub execution_order : x.order_id ≡ o.id
  pub execution_intent : x.intent_id ≡ own_id stable_id task j
  pub execution_key : x.idempotency_key ≡ own_key task j
  pub execution_side : x.side ≡ j.side
  pub execution_price : x.price ≡ j.price
  pub execution_quantity : x.quantity ≡ j.quantity

pub record IsStored (stable_id : String → String → String) (task : TradingTask) (j : Intent)
    (status : String) (i : StrategyIntent) : Type 0 where
  pub stored_id : i.id ≡ own_id stable_id task j
  pub stored_key : i.idempotency_key ≡ own_key task j
  pub stored_status : i.status ≡ status

-- What the lists of a run hold, intent by intent: each is stored as executed, with an order and an
-- execution, or as pending, with a notification.
pub data Answers (stable_id : String → String → String) (task : TradingTask)
    : List Intent
      → List StrategyIntent
      → List Order
      → List Execution
      → List Notification
      → Type 0 where
  none_yet : Answers stable_id task [] [] [] [] []
  filled :
      {js : List Intent} {is : List StrategyIntent} {os : List Order} {xs : List Execution}
      {ns : List Notification} (j : Intent) (i : StrategyIntent) (o : Order) (x : Execution)
      → Answers stable_id task js is os xs ns
      → IsStored stable_id task j "executed" i
      → IsFilled stable_id task j o x
      → Answers stable_id task (js ++ j ∷ []) (is ++ i ∷ []) (os ++ o ∷ []) (xs ++ x ∷ []) ns
  told :
      {js : List Intent} {is : List StrategyIntent} {os : List Order} {xs : List Execution}
      {ns : List Notification} (j : Intent) (i : StrategyIntent) (n : Notification)
      → Answers stable_id task js is os xs ns
      → IsStored stable_id task j "notification_pending" i
      → n.intent_id ≡ own_id stable_id task j
      → Answers stable_id task (js ++ j ∷ []) (is ++ i ∷ []) os xs (ns ++ n ∷ [])

pub record IsAnswered (stable_id : String → String → String) (task : TradingTask) (js : List Intent)
    (r : TradingRunResult) : Type 0 where
  pub keyed : map intent_key r.intents ≡ map (own_key task) js
  pub answers : Answers stable_id task js r.intents r.orders r.executions r.notifications
  pub live : (str_eq task.task_type "paper" ≡ true) ⊎ (r.orders ≡ [])

module _ (stable_id : String → String → String) (task : TradingTask) (channel : String)
    (now : ℕ) where
  keyed-snoc :
      (js : List Intent) (is : List StrategyIntent) (j : Intent) (i : StrategyIntent)
      → map intent_key is ≡ map (own_key task) js
      → i.idempotency_key ≡ own_key task j
      → map intent_key (is ++ i ∷ []) ≡ map (own_key task) (js ++ j ∷ [])
  keyed-snoc js is j i h k =
      map-snoc intent_key is i
      ∙ ap (λ ks. ks ++ i.idempotency_key ∷ []) h
      ∙ ap (λ key. map (own_key task) js ++ key ∷ []) k
      ∙ sym (map-snoc (own_key task) js j)

  trading_intent-IsStored :
      (j : Intent) (policy status : String)
      → IsStored stable_id task j status (trading_intent stable_id task j policy status now)
  unfolding trading_intent
  trading_intent-IsStored j policy status = record {
    stored_id = refl;
    stored_key = refl;
    stored_status = refl;
  }

  notified-IsAnswered :
      (js : List Intent) (r : TradingRunResult) (j : Intent)
      → IsAnswered stable_id task js r
      → IsAnswered stable_id task (js ++ j ∷ []) (notified stable_id task channel now r j)
  unfolding notification
  notified-IsAnswered js r j h =
      let stored = trading_intent-IsStored j (intent_policy_of task j) "notification_pending" in
      record {
        keyed = keyed-snoc js r.intents j _ h.keyed stored.stored_key;
        answers = told j _ _ h.answers stored refl;
        live = h.live;
      }

  executed-IsAnswered :
      (js : List Intent) (r : TradingRunResult) (j : Intent)
      → str_eq task.task_type "paper" ≡ true
      → IsAnswered stable_id task js r
      → IsAnswered stable_id task (js ++ j ∷ []) (
          executed stable_id task now r j
            (paper_order stable_id task j now, paper_execution stable_id task j now))
  unfolding paper_order paper_execution
  executed-IsAnswered js r j paper h =
      let stored = trading_intent-IsStored j (intent_policy_of task j) "executed" in
      record {
        keyed = keyed-snoc js r.intents j _ h.keyed stored.stored_key;
        answers =
            filled j _ (paper_order stable_id task j now) (paper_execution stable_id task j now)
              h.answers stored
              (record {
                paper = paper;
                order_intent = refl;
                order_key = refl;
                order_side = refl;
                order_price = refl;
                order_quantity = refl;
                execution_order = refl;
                execution_intent = refl;
                execution_key = refl;
                execution_side = refl;
                execution_price = refl;
                execution_quantity = refl;
              });
        live = inl paper;
      }

  handle_intent-IsAnswered :
      (js : List Intent) (r r' : TradingRunResult) (j : Intent)
      → IsAnswered stable_id task js r
      → handle_intent stable_id task channel now r j ≡ ok r'
      → IsAnswered stable_id task (js ++ j ∷ []) r'
  unfolding handle_intent execute_order
  handle_intent-IsAnswered js r r' j h e =
      elim (Bool-cases (str_eq (intent_policy_of task j) "notify")) [
        | inl pending ↦
            subst (IsAnswered stable_id task (js ++ j ∷ []))
              (ok-injective {E = TradingError} (ground arith)) (notified-IsAnswered js r j h)
        | inr done ↦ elim (Bool-cases (str_eq task.task_type "paper")) [
          | inr other ↦ absurd (ground arith)
          | inl paper ↦
              subst (IsAnswered stable_id task (js ++ j ∷ []))
                (ok-injective {E = TradingError} (ground arith))
                (executed-IsAnswered js r j paper h)
        ]
      ]

  handle_intents-IsAnswered :
      (done : List Intent) (r r' : TradingRunResult) (js : List Intent)
      → IsAnswered stable_id task done r
      → handle_intents stable_id task channel now r js ≡ ok r'
      → IsAnswered stable_id task (done ++ js) r'
  unfolding handle_intents
  handle_intents-IsAnswered done r r' [] h e =
      subst (λ l. IsAnswered stable_id task l r') (sym (append-nil done))
        (subst (IsAnswered stable_id task done) (ok-injective e) h)
  handle_intents-IsAnswered done r r' (j ∷ js) h e =
      let (m, now_done, later) = >>=-eq-ok (handle_intent stable_id task channel now r j) _ e in
      subst (λ l. IsAnswered stable_id task l r') (append_assoc done (j ∷ []) js)
        (handle_intents-IsAnswered (done ++ j ∷ []) m r' js
          (handle_intent-IsAnswered done r m j h now_done) later)

-- A run that succeeds answers every intent once, in order: each is stored under its own key
-- `task:intent` and the identifier made from it, either as executed, with an order and an execution
-- that carry that key and identifier and the side, price and quantity of the intent, or as pending,
-- with a notification that names it. A task that is not a paper task has no order at all.
pub run_result-IsAnswered :
    (stable_id : String → String → String) (task : TradingTask) (intents : List Intent) (now : ℕ)
    (r : TradingRunResult)
    → run_result stable_id task intents now ≡ ok r
    → IsAnswered stable_id task intents r
unfolding run_result
run_result-IsAnswered stable_id task intents now r e =
    handle_intents-IsAnswered stable_id task
      (text_policy task.intent_policy "notificationChannel" "default") now []
      (record { task_id = task.id; intents = []; orders = []; executions = []; notifications = [] })
      r intents (record { keyed = refl; answers = none_yet; live = inr refl }) e
