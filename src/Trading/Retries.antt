-- ===== src/Trading/Retries.antt =====
-- internal/trading/runner.go: a run that is repeated later asks for the same rows.
use tictick_hi.Base.{
  ℕ, ◌≡◌, refl, subst, inl, inr, arith, String, List, [], ◌∷◌, ◌++◌, map, ok, >>=-eq-ok,
  ok-injective, Bool-cases, str_eq,
}
use tictick_hi.Strategy.Intents.{Intent}
use tictick_hi.Trading.{
  TradingTask, TradingError, TradingRunResult, StrategyIntent, Order, Execution, Notification,
  intent_policy_of, execute_order, handle_intent, handle_intents, run_result, notified, executed,
  trading_intent, notification, paper_order, paper_execution, text_policy,
}
use tictick_hi.Trading.Keys.{map-snoc}

abbrev intent_row : StrategyIntent → String
intent_row i = i.id

abbrev order_row : Order → String
order_row o = o.id

abbrev execution_row : Execution → String × String
execution_row x = (x.id, x.order_id)

abbrev notification_row : Notification → String
notification_row n = n.id

-- The two results have the same identifiers, row by row.
pub record IsSameRun (r s : TradingRunResult) : Type 0 where
  pub intents : map intent_row r.intents ≡ map intent_row s.intents
  pub orders : map order_row r.orders ≡ map order_row s.orders
  pub executions : map execution_row r.executions ≡ map execution_row s.executions
  pub notifications : map notification_row r.notifications ≡ map notification_row s.notifications

map-snoc-eq {ℓ κ} :
    {A : Type ℓ} {B : Type κ} (f : A → B) (xs ys : List A) (x y : A)
    → map f xs ≡ map f ys
    → f x ≡ f y
    → map f (xs ++ x ∷ []) ≡ map f (ys ++ y ∷ [])
map-snoc-eq f xs ys x y h e = rw (map-snoc f xs x, map-snoc f ys y, h, e) refl

module _ (stable_id : String → String → String) (task : TradingTask) (channel : String)
    (t u : ℕ) where
  notified-IsSameRun :
      (r s : TradingRunResult) (i : Intent)
      → IsSameRun r s
      → IsSameRun (notified stable_id task channel t r i) (notified stable_id task channel u s i)
  unfolding trading_intent notification
  notified-IsSameRun r s i h = record {
    intents = map-snoc-eq intent_row r.intents s.intents _ _ h.intents refl;
    orders = h.orders;
    executions = h.executions;
    notifications =
        map-snoc-eq notification_row r.notifications s.notifications _ _ h.notifications refl;
  }

  executed-IsSameRun :
      (r s : TradingRunResult) (i : Intent)
      → IsSameRun r s
      → IsSameRun
          (executed stable_id task t r i
            (paper_order stable_id task i t, paper_execution stable_id task i t))
          (executed stable_id task u s i
            (paper_order stable_id task i u, paper_execution stable_id task i u))
  unfolding trading_intent paper_order paper_execution
  executed-IsSameRun r s i h = record {
    intents = map-snoc-eq intent_row r.intents s.intents _ _ h.intents refl;
    orders = map-snoc-eq order_row r.orders s.orders _ _ h.orders refl;
    executions = map-snoc-eq execution_row r.executions s.executions _ _ h.executions refl;
    notifications = h.notifications;
  }

  handle_intent-IsSameRun :
      (r s r' : TradingRunResult) (i : Intent)
      → IsSameRun r s
      → handle_intent stable_id task channel t r i ≡ ok r'
      → (s' : TradingRunResult) × (handle_intent stable_id task channel u s i ≡ ok s')
        × IsSameRun r' s'
  unfolding handle_intent execute_order
  handle_intent-IsSameRun r s r' i h e =
      elim (Bool-cases (str_eq (intent_policy_of task i) "notify")) [
        | inl told ↦ (
          notified stable_id task channel u s i,
          rw told refl,
          subst (λ x. IsSameRun x (notified stable_id task channel u s i))
              (ok-injective {E = TradingError} (ground arith)) (notified-IsSameRun r s i h),
        )
        | inr done ↦ elim (Bool-cases (str_eq task.task_type "paper")) [
          | inr other ↦ absurd (ground arith)
          | inl paper ↦
              let again =
                executed stable_id task u s i
                  (paper_order stable_id task i u, paper_execution stable_id task i u) in
              (
                again,
                rw (done, paper) refl,
                subst (λ x. IsSameRun x again) (ok-injective {E = TradingError} (ground arith))
                    (executed-IsSameRun r s i h),
              )
        ]
      ]

  handle_intents-IsSameRun :
      (r s r' : TradingRunResult) (is : List Intent)
      → IsSameRun r s
      → handle_intents stable_id task channel t r is ≡ ok r'
      → (s' : TradingRunResult) × (handle_intents stable_id task channel u s is ≡ ok s')
        × IsSameRun r' s'
  unfolding handle_intents
  handle_intents-IsSameRun r s r' [] h e = (s, refl, subst (λ x. IsSameRun x s) (ok-injective e) h)
  handle_intents-IsSameRun r s r' (i ∷ is) h e =
      let (m, first, later) = >>=-eq-ok (handle_intent stable_id task channel t r i) _ e in
      let (n, again, same) = handle_intent-IsSameRun r s m i h first in
      let (s', rest, last) = handle_intents-IsSameRun m n r' is same later in
      (s', rw again rest, last)

-- A run that succeeds also succeeds at another time, and its intents, orders, executions and
-- notifications then have the same identifiers, row by row.
pub run_result-IsSameRun :
    (stable_id : String → String → String) (task : TradingTask) (intents : List Intent) (t u : ℕ)
    (r : TradingRunResult)
    → run_result stable_id task intents t ≡ ok r
    → (s : TradingRunResult) × (run_result stable_id task intents u ≡ ok s) × IsSameRun r s
unfolding run_result
run_result-IsSameRun stable_id task intents t u r e =
    let empty : TradingRunResult = record {
      task_id = task.id;
      intents = [];
      orders = [];
      executions = [];
      notifications = [];
    } in
    handle_intents-IsSameRun stable_id task
      (text_policy task.intent_policy "notificationChannel" "default") t u empty empty r intents
      (record { intents = refl; orders = refl; executions = refl; notifications = refl }) e
