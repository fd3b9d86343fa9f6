-- ===== src/Backtest/Position.antt =====
-- internal/backtest/runner.go, `execute`: the position, the orders and the account.
use tictick_hi.Base.{
  if◌then◌else◌, ℕ, suc, ◌+◌, ◌≤◌, ◌≡◌, refl, subst, ◌⊎◌, inl, inr, arith, String, true, false,
  Option, none, some, List, [], ◌∷◌, ok, ◌>>=◌, >>=-eq-ok, ok-injective, Result-cases, Bool-cases,
  All, length, str_eq,
}
use tictick_hi.Base.Rat.{
  Rat, zero_rat, add_rat, sub_rat, mul_rat, lt_rat, is_pos, IsNonneg, IsPositive, is_pos-IsPositive,
  IsPositive-IsNonneg, zero_rat-IsNonneg, add_rat-IsNonneg, sub_rat-IsNonneg, lt_rat_irrefl,
}
use tictick_hi.Data.Model.{Candle}
use tictick_hi.Strategy.Intents.{Intent, intent_type_order}
use tictick_hi.Backtest.{
  BacktestTask, BacktestOrder, Account, Money, Summary, start_account, fill_quantity, settle,
  apply_slippage, parsed, parse_backtest_bps, bad_price, bad_quantity, with_order, fill,
  fill_parsed, execute_with, execute_intent, execute_intents, execute,
}

-- What an intent is filled with, before it is printed.
pub record Fill : Type 0 where
  pub side : String
  pub price : Rat
  pub quantity : Rat

abbrev pub IsFill : Fill → Type 0
IsFill f = IsPositive f.price × IsPositive f.quantity

-- The orders print the fills, one by one, with eight digits.
abbrev pub ArePrinted : (ℕ → Rat → String) → List Fill → List BacktestOrder → Type 0
ArePrinted format_decimal [] [] = Unit
ArePrinted format_decimal [] (o ∷ os) = ⊥
ArePrinted format_decimal (f ∷ fs) [] = ⊥
ArePrinted format_decimal (f ∷ fs) (o ∷ os) =
    (o.side ≡ f.side)
    × (o.price ≡ format_decimal 8 f.price)
    × (o.quantity ≡ format_decimal 8 f.quantity)
    × ArePrinted format_decimal fs os

-- The books of the fills, newest first: every fill costs its value times the fee rate; a purchase
-- takes its value and its fee from the cash and adds its quantity to the position, and a sale does
-- the opposite with the value and the quantity.
abbrev pub value_of : Fill → Rat
value_of f = mul_rat f.price f.quantity

abbrev pub fees_of : Rat → List Fill → Rat
fees_of fee_rate [] = zero_rat
fees_of fee_rate (f ∷ fs) = add_rat (fees_of fee_rate fs) (mul_rat (value_of f) fee_rate)

abbrev pub position_of : List Fill → Rat
position_of [] = zero_rat
position_of (f ∷ fs) =
    if str_eq f.side "buy"
    then add_rat (position_of fs) f.quantity
    else sub_rat (position_of fs) f.quantity

abbrev pub cash_of : Rat → Rat → List Fill → Rat
cash_of fee_rate initial [] = initial
cash_of fee_rate initial (f ∷ fs) =
    if str_eq f.side "buy"
    then sub_rat (cash_of fee_rate initial fs)
        (add_rat (value_of f) (mul_rat (value_of f) fee_rate))
    else add_rat (cash_of fee_rate initial fs)
        (sub_rat (value_of f) (mul_rat (value_of f) fee_rate))

-- No short position, and fills of positive price and quantity that the orders print and whose books
-- are the money.
pub record IsSettled (format_decimal : ℕ → Rat → String) (fee_rate initial : Rat) (a : Account)
    : Type 0 where
  pub long : IsNonneg a.money.position
  pub filled : List Fill
  pub fills : All IsFill filled
  pub printed : ArePrinted format_decimal filled a.orders
  pub cash : a.money.cash ≡ cash_of fee_rate initial filled
  pub position : a.money.position ≡ position_of filled
  pub fees : a.money.total_fees ≡ fees_of fee_rate filled

-- The quantity that is filled is positive, and one that is sold is held.
fill_quantity-held :
    (side : String) (position quantity q : Rat)
    → IsPositive quantity
    → fill_quantity side position quantity ≡ some q
    → IsPositive q × ((str_eq side "buy" ≡ true) ⊎ (lt_rat position q ≡ false))
unfolding fill_quantity
fill_quantity-held side position quantity q h e =
    ground (arith, lt_rat_irrefl position, is_pos-IsPositive position)

settle-long :
    (side : String) (price q fee_rate : Rat) (m : Money)
    → IsNonneg m.position
    → IsPositive q
    → (str_eq side "buy" ≡ true) ⊎ (lt_rat m.position q ≡ false)
    → IsNonneg (settle side price q fee_rate m).position
unfolding settle
settle-long side price q fee_rate m h p held = elim (Bool-cases (str_eq side "buy")) [
  | inl buy ↦ rw buy (add_rat-IsNonneg m.position q h (IsPositive-IsNonneg q p))
  | inr sell ↦ elim held [
    | inl buy ↦ absurd (ground arith)
    | inr enough ↦ rw sell (sub_rat-IsNonneg m.position q enough)
  ]
]

module _ (set_string : String → Option Rat) (format_decimal : ℕ → Rat → String)
    (new_id : ℕ → Option String) (intent_ids : String → String) (fee_rate initial : Rat) where
  -- One round keeps the invariant, and adds one order at most.
  abbrev IsNext : Account → Account → Type 0
  IsNext a a' =
      IsSettled format_decimal fee_rate initial a' × (length a'.orders ≤ suc (length a.orders))

  stays-IsNext :
      (a a' : Account) → IsSettled format_decimal fee_rate initial a → a ≡ a' → IsNext a a'
  stays-IsNext a a' h e = subst (IsNext a) e (h, omega arith)

  -- The account after a fill.
  abbrev settled_order : Intent → Rat → Rat → Account → String → Account
  settled_order i price q a id = record {
    money = settle i.side price q fee_rate a.money;
    orders =
        record {
          id = id;
          intent_id = intent_ids i.id;
          side = i.side;
          price = format_decimal 8 price;
          quantity = format_decimal 8 q;
          occurred_at = i.occurred_at;
        }
        ∷ a.orders;
    calls = suc a.calls;
  }

  settled_order-IsSettled :
      (i : Intent) (price q : Rat) (a : Account) (id : String)
      → IsSettled format_decimal fee_rate initial a
      → IsPositive price
      → IsPositive q
      → (str_eq i.side "buy" ≡ true) ⊎ (lt_rat a.money.position q ≡ false)
      → IsSettled format_decimal fee_rate initial (settled_order i price q a id)
  unfolding settle
  settled_order-IsSettled i price q a id h pp pq held =
      let long = settle-long i.side price q fee_rate a.money h.long pq held in
      let f : Fill = record { side = i.side; price = price; quantity = q } in
      elim (Bool-cases (str_eq i.side "buy")) [
        | inl buy ↦ record {
          long = long;
          filled = f ∷ h.filled;
          fills = ((pp, pq), h.fills);
          printed = (refl, refl, refl, h.printed);
          cash = rw (buy, h.cash) refl;
          position = rw (buy, h.position) refl;
          fees = rw (buy, h.fees) refl;
        }
        | inr sell ↦ record {
          long = long;
          filled = f ∷ h.filled;
          fills = ((pp, pq), h.fills);
          printed = (refl, refl, refl, h.printed);
          cash = rw (sell, h.cash) refl;
          position = rw (sell, h.position) refl;
          fees = rw (sell, h.fees) refl;
        }
      ]

  with_order-IsNext :
      (i : Intent) (price q : Rat) (a a' : Account) (id : Option String)
      → IsSettled format_decimal fee_rate initial a
      → IsPositive price
      → IsPositive q
      → (str_eq i.side "buy" ≡ true) ⊎ (lt_rat a.money.position q ≡ false)
      → with_order set_string format_decimal new_id intent_ids i price q
          (settle i.side price q fee_rate a.money)
          a
          id
        ≡ ok a'
      → IsNext a a'
  with_order-IsNext i price q a a' none h pp pq held e = absurd (ground arith)
  with_order-IsNext i price q a a' (some id) h pp pq held e =
      subst (IsNext a) (ok-injective e)
        (settled_order-IsSettled i price q a id h pp pq held, omega arith)

  fill-IsNext :
      (i : Intent) (price quantity slippage_rate : Rat) (a a' : Account) (filled : Option Rat)
      → IsSettled format_decimal fee_rate initial a
      → IsPositive quantity
      → fill_quantity i.side a.money.position quantity ≡ filled
      → fill set_string format_decimal new_id intent_ids i price fee_rate slippage_rate a filled
        ≡ ok a'
      → IsNext a a'
  unfolding fill
  fill-IsNext i price quantity slippage_rate a a' none h p f e =
      stays-IsNext a a' h (ok-injective e)
  fill-IsNext i price quantity slippage_rate a a' (some q) h p f e =
      let fill_price = apply_slippage price i.side slippage_rate in
      let (pq, held) = fill_quantity-held i.side a.money.position quantity q p f in
      elim (Bool-cases (is_pos fill_price)) [
        | inl good ↦
            with_order-IsNext i fill_price q a a' (new_id a.calls) h
              (is_pos-IsPositive fill_price good) pq held (ground arith)
        | inr bad ↦ stays-IsNext a a' h (ground arith)
      ]

  fill_parsed-IsNext :
      (i : Intent) (slippage_rate price quantity : Rat) (a a' : Account)
      → IsSettled format_decimal fee_rate initial a
      → fill_parsed set_string format_decimal new_id intent_ids i fee_rate slippage_rate a price
          quantity
        ≡ ok a'
      → IsNext a a'
  unfolding fill_parsed
  fill_parsed-IsNext i slippage_rate price quantity a a' h e = elim (Bool-cases (is_pos quantity)) [
    | inr bad ↦ stays-IsNext a a' h (ground arith)
    | inl good ↦ elim (Bool-cases (is_pos price)) [
      | inr bad ↦ stays-IsNext a a' h (ground arith)
      | inl fine ↦
          fill-IsNext i price quantity slippage_rate a a'
            (fill_quantity i.side a.money.position quantity) h (is_pos-IsPositive quantity good)
            refl (ground arith)
    ]
  ]

  execute_intent-IsNext :
      (slippage_rate : Rat) (a a' : Account) (i : Intent)
      → IsSettled format_decimal fee_rate initial a
      → execute_intent set_string format_decimal new_id intent_ids fee_rate slippage_rate a i
        ≡ ok a'
      → IsNext a a'
  unfolding execute_intent
  execute_intent-IsNext slippage_rate a a' i h e =
      elim (Bool-cases (str_eq i.intent_type intent_type_order)) [
        | inr other ↦ stays-IsNext a a' h (ground arith)
        | inl order ↦
            let (price, _, e1) =
              >>=-eq-ok (parsed bad_price (set_string i.price))
                (λ p. parsed bad_quantity (set_string i.quantity) >>= λ q.
                  fill_parsed set_string format_decimal new_id intent_ids i fee_rate slippage_rate a
                    p q)
                (ground arith) in
            let (quantity, _, e2) = >>=-eq-ok (parsed bad_quantity (set_string i.quantity)) _ e1 in
            fill_parsed-IsNext i slippage_rate price quantity a a' h e2
      ]

  execute_intents-IsSettled :
      (slippage_rate : Rat) (a a' : Account) (is : List Intent)
      → IsSettled format_decimal fee_rate initial a
      → execute_intents set_string format_decimal new_id intent_ids fee_rate slippage_rate a is
        ≡ ok a'
      → IsSettled format_decimal fee_rate initial a'
        × (length a'.orders ≤ length a.orders + length is)
  unfolding execute_intents
  execute_intents-IsSettled slippage_rate a a' [] h e =
      subst
        (λ x. IsSettled format_decimal fee_rate initial x × (length x.orders ≤ length a.orders + 0))
        (ok-injective e) (h, omega arith)
  execute_intents-IsSettled slippage_rate a a' (i ∷ is) h e =
      let (b, now, later) =
        >>=-eq-ok
          (execute_intent set_string format_decimal new_id intent_ids fee_rate slippage_rate a i) _
          e in
      let (next, few) = execute_intent-IsNext slippage_rate a b i h now in
      let (rest, fewer) = execute_intents-IsSettled slippage_rate b a' is next later in
      (rest, omega arith)

  start-IsSettled : IsSettled format_decimal fee_rate initial (start_account initial)
  start-IsSettled = record {
    long = zero_rat-IsNonneg;
    filled = [];
    fills = tt;
    printed = tt;
    cash = refl;
    position = refl;
    fees = refl;
  }

module _ (set_string : String → Option Rat) (format_decimal : ℕ → Rat → String)
    (new_id : ℕ → Option String) (intent_ids : String → String) where
  execute_with-IsSettled :
      (candles : List Candle) (intents : List Intent) (initial : Rat) (fee slippage : Rat × Rat)
      (r : Account × Summary)
      → execute_with set_string format_decimal new_id intent_ids candles intents initial fee
          slippage
        ≡ ok r
      → IsSettled format_decimal fee.1 initial r.0
        × (r.1.total_orders ≡ length r.0.orders)
        × (r.1.total_orders ≤ length intents)
  unfolding execute_with
  execute_with-IsSettled candles intents initial fee slippage r e =
      let (a, ran, same) =
        >>=-eq-ok
          (execute_intents set_string format_decimal new_id intent_ids fee.1 slippage.1
            (start_account initial) intents)
          _ e in
      let (settled, few) =
        execute_intents-IsSettled set_string format_decimal new_id intent_ids fee.1 initial
          slippage.1 (start_account initial) a intents
          (start-IsSettled set_string format_decimal new_id intent_ids fee.1 initial) ran in
      subst
        (λ x.
          IsSettled format_decimal fee.1 initial x.0
          × (x.1.total_orders ≡ length x.0.orders)
          × (x.1.total_orders ≤ length intents))
        (ok-injective same) (settled, refl, omega arith)

  -- A backtest that ends without an error never holds a short position. Its orders, which are no
  -- more than its intents, print fills of positive price and quantity with eight digits, and its
  -- cash, position and fees are exactly what the books of these fills give, before they are rounded
  -- for the orders, at the initial balance and the fee rate of the task.
  pub execute-IsSettled :
      (task : BacktestTask) (candles : List Candle) (intents : List Intent)
      (initial fee_bps fee_rate : Rat) (a : Account) (s : Summary)
      → set_string task.initial_balance ≡ some initial
      → parse_backtest_bps set_string task.fee_bps ≡ ok (fee_bps, fee_rate)
      → execute set_string format_decimal new_id intent_ids task candles intents ≡ ok (a, s)
      → IsSettled format_decimal fee_rate initial a
        × (s.total_orders ≡ length a.orders)
        × (s.total_orders ≤ length intents)
  unfolding execute
  execute-IsSettled task candles intents initial fee_bps fee_rate a s p f e =
      elim (Result-cases (parse_backtest_bps set_string task.slippage_bps)) [
        | inl (x, bad) ↦ absurd (ground arith)
        | inr (slippage, fine) ↦
            execute_with-IsSettled candles intents initial (fee_bps, fee_rate) slippage (a, s)
              (ground arith)
      ]
