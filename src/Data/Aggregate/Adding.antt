-- ===== src/Data/Aggregate/Adding.antt =====
-- internal/data/aggregate.go, `add`: what holds of the aggregator as candles are added.
use tictick_hi.Base.{
  ℕ, ◌≡◌, refl, inl, inr, arith, String, Bool, Option, none, some, List, [], ◌∷◌, subst,
  ok-injective, ◌==◌, ok, >>=-eq-ok, Bool-cases, All,
}
use tictick_hi.Base.Rat.{Rat}
use tictick_hi.Data.Interval.{align_time}
use tictick_hi.Data.Model.{Candle}
use tictick_hi.Data.Aggregate.{
  AggregateWindow, Aggregator, new_aggregator, new_window, extend_window, open_window,
  extend_current, add, add_all, flush,
}
use tictick_hi.Data.Aggregate.Windows.{
  IsWindowOption, IsAggregated, IsSound, flush-IsSound, new_window-IsWindow, extend_window-IsWindow,
}

module _ (P : Candle → Type 0) (target base : ℕ) (set_string : String → Option Rat)
    (text_lt : String → String → Bool) (format_decimal : Rat → String) where
  open_window-IsSound :
      (a a' : Aggregator) (c : Candle)
      → P c
      → IsSound P target base a
      → open_window set_string text_lt format_decimal a c ≡ ok a'
      → IsSound P target base a'
  unfolding open_window
  open_window-IsSound a a' c p h e =
      let (w, made, same) =
        >>=-eq-ok
          (new_window set_string text_lt format_decimal c (align_time c.open_time a.target_duration)
            a.target_duration a.target_interval)
          _ e in
      let done = flush-IsSound P target base a h in
      subst (IsSound P target base) (ok-injective same) (record {
        same_target = done.same_target;
        same_base = done.same_base;
        expected = done.expected;
        window =
            new_window-IsWindow P target base set_string text_lt format_decimal c a.target_duration
              a.target_interval w p h.same_target made;
        results = done.results;
      })

  extend_current-IsSound :
      (a a' : Aggregator) (w : Option AggregateWindow) (c : Candle)
      → P c
      → IsSound P target base a
      → IsWindowOption P target base w
      → extend_current set_string text_lt format_decimal a w c ≡ ok a'
      → IsSound P target base a'
  unfolding extend_current
  extend_current-IsSound a a' none c p h win e = open_window-IsSound a a' c p h e
  extend_current-IsSound a a' (some w) c p h win e =
      elim (Bool-cases (w.candle.open_time == align_time c.open_time a.target_duration)) [
        | inr other ↦ open_window-IsSound a a' c p h (ground arith)
        | inl here ↦
            let (w', made, same) =
              >>=-eq-ok (extend_window set_string text_lt format_decimal a.base_duration w c)
                (λ v. ok (record a { current = some v })) (ground arith) in
            subst (IsSound P target base) (ok-injective same) (record {
              same_target = h.same_target;
              same_base = h.same_base;
              expected = h.expected;
              window =
                  extend_window-IsWindow P target base set_string text_lt format_decimal w w' c
                    a.base_duration p win h.same_base (ground (arith, h.same_target)) made;
              results = h.results;
            })
      ]

  add_all-IsSound :
      (a a' : Aggregator) (cs : List Candle)
      → All P cs
      → IsSound P target base a
      → add_all set_string text_lt format_decimal a cs ≡ ok a'
      → IsSound P target base a'
  unfolding add_all add
  add_all-IsSound a a' [] ps h e = subst (IsSound P target base) (ok-injective e) h
  add_all-IsSound a a' (c ∷ cs) ps h e =
      let (b, added, rest) = >>=-eq-ok (add set_string text_lt format_decimal a c) _ e in
      add_all-IsSound b a' cs ps.1 (extend_current-IsSound a b a.current c ps.0 h h.window added)
        rest

  -- The candles that an aggregator gives, from base candles that have any
  -- property `P`: each covers its interval, and is either not closed or stands for
  -- `target / base` closed base candles of its own window that follow each other without a gap.
  pub add_all-IsAggregated :
      (name : String) (a : Aggregator) (cs : List Candle)
      → All P cs
      → add_all set_string text_lt format_decimal (new_aggregator name target base) cs ≡ ok a
      → All (IsAggregated P target base) (flush a).result
  unfolding new_aggregator
  add_all-IsAggregated name a cs ps e =
      (flush-IsSound P target base a (
        add_all-IsSound (new_aggregator name target base) a cs ps
          (record {
            same_target = refl;
            same_base = refl;
            expected = refl;
            window = tt;
            results = tt;
          })
          e)).results
