-- ===== src/Strategy/Signals/Numbering.antt =====
-- internal/strategy/runtime.go: how the intents of one run are numbered, and their sides.
use tictick_hi.Base.{
  append, ap, str_eq_iff, if◌then◌else◌, ℕ, suc, ◌+◌, ◌-◌, ◌≡◌, refl, subst, inl, inr, arith,
  String, Bool, true, false, not, ◌&&◌, ◌||◌, Option, none, some, List, [], ◌∷◌, ◌++◌, ok,
  refuse_if, >>=-eq-ok, ok-injective, Bool-cases, length, take, drop, str_eq,
}
use tictick_hi.Base.Int.{ℤ, pos, ltb_ℤ}
use tictick_hi.Data.Model.{Candle}
use tictick_hi.Strategy.Intents.{Intent, intent_type_order}
use tictick_hi.Strategy.Params.{Floats, Values, text_param, int_param_value}
use tictick_hi.Strategy.Signals.{
  signal_id, signal_intent, parsed, emitted, ema_loop, ema_from, ema_cross_intents, close_prices,
  breakout_buy, breakout_sell, breakout_loop, breakout_range_intents, range_high_low, side_after,
  lookback_of, when, invalid_ema_periods,
}

module _ (fl : Floats) (show_int : ℤ → String) where
  -- The name `prefix_type_k` of the k-th intent, from 1, where the type is `notification` if that is
  -- the mode, and `order` otherwise.
  abbrev pub name_of : String → String → ℕ → String
  name_of prefix mode k = append prefix (
      append "_" (
        append (if str_eq mode "notification" then "notification" else "order")
          (append "_" (show_int (pos k)))))

  -- The intents have the names of the numbers after `count`.
  abbrev pub IsNumbered : String → String → ℕ → List Intent → Type 0
  IsNumbered prefix mode count [] = Unit
  IsNumbered prefix mode count (i ∷ is) =
      (i.id ≡ name_of prefix mode (suc count)) × IsNumbered prefix mode (suc count) is

  signal_id-name_of :
      (prefix mode : String) (count : ℕ)
      → signal_id fl show_int prefix mode count ≡ name_of prefix mode (suc count)
  signal_id-name_of prefix mode count = elim (Bool-cases (str_eq mode "notification")) [
    | inl told ↦
        let same : mode ≡ "notification" = (str_eq_iff mode "notification").0 told in
        rw told (
          ap (λ m. append prefix (append "_" (append m (append "_" (show_int (pos (suc count)))))))
            same)
    | inr other ↦ rw other refl
  ]

  emitted-IsNumbered :
      (prefix mode quantity : String) (count : ℕ) (o : Option String) (c : Candle)
      → IsNumbered prefix mode count (emitted fl show_int prefix count mode o c quantity)
  unfolding signal_intent
  emitted-IsNumbered prefix mode quantity count none c = tt
  emitted-IsNumbered prefix mode quantity count (some s) c =
      (signal_id-name_of prefix mode count, tt)

  e_zero : (count n : ℕ) → count + 0 ≡ n → count ≡ n
  e_zero count n e = omega arith

  append-IsNumbered :
      (prefix mode : String) (count n : ℕ) (xs ys : List Intent)
      → IsNumbered prefix mode count xs
      → count + length xs ≡ n
      → IsNumbered prefix mode n ys
      → IsNumbered prefix mode count (xs ++ ys)
  append-IsNumbered prefix mode count n [] ys h e k = rw (e_zero count n e) k
  append-IsNumbered prefix mode count n (x ∷ xs) ys h e k =
      (h.0, append-IsNumbered prefix mode (suc count) n xs ys h.1 (omega arith) k)

  ema_loop-IsNumbered :
      (a b : fl.F) (mode quantity : String) (rest : List (Candle × fl.F)) (count : ℕ) (f s : fl.F)
      → IsNumbered "ema-cross" mode count (ema_loop fl show_int a b mode quantity count f s rest)
  unfolding ema_loop
  ema_loop-IsNumbered a b mode quantity [] count f s = tt
  ema_loop-IsNumbered a b mode quantity ((c, price) ∷ rest) count f s =
      append-IsNumbered "ema-cross" mode count _
        (emitted fl show_int "ema-cross" count mode _ c quantity) _
        (emitted-IsNumbered "ema-cross" mode quantity count _ c) refl
        (ema_loop-IsNumbered a b mode quantity rest _ _ _)

  ema_from-IsNumbered :
      (a b : fl.F) (mode quantity : String) (cs : List (Candle × fl.F))
      → IsNumbered "ema-cross" mode 0 (ema_from fl show_int a b mode quantity cs)
  unfolding ema_from
  ema_from-IsNumbered a b mode quantity [] = tt
  ema_from-IsNumbered a b mode quantity ((c, price) ∷ rest) =
      ema_loop-IsNumbered a b mode quantity rest 0 price price

  -- Each intent has another side than the one before it.
  abbrev pub IsAlternating : String → List Intent → Type 0
  IsAlternating last [] = Unit
  IsAlternating last (i ∷ is) = (str_eq last i.side ≡ false) × IsAlternating i.side is

  abbrev IsSwitch : String → Option String → Type 0
  IsSwitch last none = Unit
  IsSwitch last (some side) = str_eq last side ≡ false

  when-IsSwitch :
      (b : Bool) (last side : String)
      → IsSwitch last (when fl show_int (b && not (str_eq last side)) side)
  when-IsSwitch false last side = tt
  when-IsSwitch true last side = elim (Bool-cases (str_eq last side)) [
    | inl same ↦ rw same tt
    | inr other ↦ rw other other
  ]

  emitted-IsAlternating :
      (mode quantity last : String) (count : ℕ) (o : Option String) (c : Candle)
      (rest : List Intent)
      → IsSwitch last o
      → IsAlternating (side_after fl show_int o last) rest
      → IsAlternating last (emitted fl show_int "breakout-range" count mode o c quantity ++ rest)
  unfolding signal_intent
  emitted-IsAlternating mode quantity last count none c rest h k = k
  emitted-IsAlternating mode quantity last count (some s) c rest h k = (h, k)

  -- What one run of the breakout strategy gives.
  abbrev pub IsSignals : String → ℕ → String → List Intent → Type 0
  IsSignals mode count last is = IsNumbered "breakout-range" mode count is × IsAlternating last is

  round-IsSignals :
      (mode quantity last : String) (count : ℕ) (buy sell : Option String) (c : Candle)
      (rest : List Intent)
      → IsSwitch last buy
      → IsSwitch (side_after fl show_int buy last) sell
      → IsSignals mode
          (count
            + length (emitted fl show_int "breakout-range" count mode buy c quantity)
            + length (
                emitted fl show_int "breakout-range"
                  (count + length (emitted fl show_int "breakout-range" count mode buy c quantity))
                  mode
                  sell
                  c
                  quantity))
          (side_after fl show_int sell (side_after fl show_int buy last))
          rest
      → IsSignals mode count last (
          emitted fl show_int "breakout-range" count mode buy c quantity
          ++ (emitted fl show_int "breakout-range"
                (count + length (emitted fl show_int "breakout-range" count mode buy c quantity))
                mode
                sell
                c
                quantity
              ++ rest))
  round-IsSignals mode quantity last count buy sell c rest b s (n, a) =
      let bought = emitted fl show_int "breakout-range" count mode buy c quantity in
      let sold =
        emitted fl show_int "breakout-range" (count + length bought) mode sell c quantity in
      (
        append-IsNumbered "breakout-range" mode count (count + length bought) bought (sold ++ rest)
            (emitted-IsNumbered "breakout-range" mode quantity count buy c) refl
            (append-IsNumbered "breakout-range" mode (count + length bought) _ sold rest
              (emitted-IsNumbered "breakout-range" mode quantity (count + length bought) sell c)
              refl n),
        emitted-IsAlternating mode quantity last count buy c (sold ++ rest) b (
            emitted-IsAlternating mode quantity (side_after fl show_int buy last)
              (count + length bought) sell c rest s a),
      )

  breakout_loop-IsSignals :
      (candles : List Candle) (lookback : ℕ) (buffer : fl.F) (side mode quantity : String)
      (index count : ℕ) (last : String) (cs : List Candle) (is : List Intent)
      → breakout_loop fl show_int candles lookback buffer side mode quantity index count last cs
        ≡ ok is
      → IsSignals mode count last is
  unfolding breakout_loop breakout_buy breakout_sell
  breakout_loop-IsSignals candles lookback buffer side mode quantity index count last [] is e =
      subst (IsSignals mode count last) (ok-injective e) (tt, tt)
  breakout_loop-IsSignals candles lookback buffer side mode quantity index count last (c ∷ cs) is
        e =
      let (range, _, e1) =
        >>=-eq-ok (range_high_low fl show_int (take lookback (drop (index - lookback) candles))) _
          e in
      let (close, _, e2) = >>=-eq-ok (parsed fl show_int (fl.parse c.close)) _ e1 in
      let (rest, later, made) =
        >>=-eq-ok
          (breakout_loop fl show_int candles lookback buffer side mode quantity (suc index) _ _ cs)
          _ e2 in
      subst (IsSignals mode count last) (ok-injective made) (
        round-IsSignals mode quantity last count _ _ c rest (when-IsSwitch _ last "buy")
          (when-IsSwitch _ _ "sell")
          (breakout_loop-IsSignals candles lookback buffer side mode quantity (suc index) _ _ cs
            rest later))

  -- Whatever the candles, the k-th intent of a run of `ema-cross`, counting from 1, is named
  -- `ema-cross_<type>_k`, where the type is `notification` if that is the signal mode, and `order`
  -- otherwise.
  pub ema_cross_intents-IsNumbered :
      (candles : List Candle) (params : Values fl.F) (is : List Intent)
      → ema_cross_intents fl show_int candles params ≡ ok is
      → IsNumbered "ema-cross" (text_param fl params "signalMode" intent_type_order) 0 is
  unfolding ema_cross_intents
  ema_cross_intents-IsNumbered candles params is e =
      let (u, _, e1) =
        >>=-eq-ok
          (refuse_if
            (not (ltb_ℤ (pos 0) (int_param_value fl params "fastPeriod" (pos 12)))
              || not (
                  ltb_ℤ (int_param_value fl params "fastPeriod" (pos 12))
                    (int_param_value fl params "slowPeriod" (pos 26))))
            invalid_ema_periods)
          _ e in
      let (closes, _, made) = >>=-eq-ok (close_prices fl show_int candles) _ e1 in
      subst (IsNumbered "ema-cross" (text_param fl params "signalMode" intent_type_order) 0)
        (ok-injective made) (ema_from-IsNumbered _ _ _ _ closes)

  -- Whatever the candles, the k-th intent of a run of `breakout-range` is named
  -- `breakout-range_<type>_k`, and buys and sells alternate.
  pub breakout_range_intents-IsSignals :
      (candles : List Candle) (params : Values fl.F) (is : List Intent)
      → breakout_range_intents fl show_int candles params ≡ ok is
      → IsNumbered "breakout-range" (text_param fl params "signalMode" intent_type_order) 0 is
        × IsAlternating "" is
  unfolding breakout_range_intents
  breakout_range_intents-IsSignals candles params is e =
      let (lookback, _, ran) =
        >>=-eq-ok (lookback_of fl show_int (int_param_value fl params "lookback" (pos 20))) _ e in
      breakout_loop-IsSignals candles lookback _ _ _ _ lookback 0 "" (drop lookback candles) is ran
