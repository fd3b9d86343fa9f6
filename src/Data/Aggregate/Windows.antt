-- ===== src/Data/Aggregate/Windows.antt =====
-- internal/data/aggregate.go: what an aggregated candle stands for.
use tictick_hi.Base.{
  ℕ, suc, ◌+◌, ◌/◌, ◌≡◌, refl, sym, ◌⊎◌, inl, inr, arith, String, Bool, true, false, ◌&&◌, Option,
  none, some, List, [], ◌∷◌, ap, subst, ok-injective, ◌==◌, ok, >>=-eq-ok, Bool-cases, length, All,
  All-append,
}
use tictick_hi.Base.Rat.{Rat, add_rat}
use tictick_hi.Data.Interval.{align_time}
use tictick_hi.Data.Model.{Candle}
use tictick_hi.Data.Aggregate.{
  AggregateWindow, Aggregator, parsed_volume, started, extended, new_window, extend_window, flush,
  flushed,
}

-- Candles from the last back to the first, each `base` after the one before it.
abbrev pub IsRun : ℕ → List Candle → Type 0
IsRun base [] = Unit
IsRun base (c ∷ []) = Unit
IsRun base (c ∷ d ∷ ds) = (c.open_time ≡ d.open_time + base) × IsRun base (d ∷ ds)

module _ (P : Candle → Type 0) (target base : ℕ) where
  -- A closed base candle of the window that starts at `start`.
  abbrev pub IsPart : ℕ → Candle → Type 0
  IsPart start c = P c × (c.is_closed ≡ true) × (align_time c.open_time target ≡ start)

  pub record Parts (start count last : ℕ) : Type 0 where
    pub latest : Candle
    pub earlier : List Candle
    pub counted : length (latest ∷ earlier) ≡ count
    pub at_end : latest.open_time ≡ last
    pub run : IsRun base (latest ∷ earlier)
    pub parts : All (IsPart start) (latest ∷ earlier)

  -- The window covers its interval, and unless it is marked, its candles are a run of closed ones.
  pub record IsWindow (w : AggregateWindow) : Type 0 where
    pub ends : w.candle.close_time ≡ w.candle.open_time + target
    pub sound :
        ((w.has_gap ≡ true) ⊎ (w.all_closed ≡ false))
        ⊎ Parts w.candle.open_time w.count w.last_open_time

  abbrev pub IsWindowOption : Option AggregateWindow → Type 0
  IsWindowOption none = Unit
  IsWindowOption (some w) = IsWindow w

  -- A candle of the result: it covers its interval, and is open or made of a full run.
  abbrev pub IsAggregated : Candle → Type 0
  IsAggregated c =
      (c.close_time ≡ c.open_time + target)
      × ((c.is_closed ≡ false)
          ⊎ ((parts : List Candle) × (length parts ≡ target / base)
              × IsRun base parts
              × All (IsPart c.open_time) parts))

  pub record IsSound (a : Aggregator) : Type 0 where
    pub same_target : a.target_duration ≡ target
    pub same_base : a.base_duration ≡ base
    pub expected : a.expected_count ≡ target / base
    pub window : IsWindowOption a.current
    pub results : All IsAggregated a.result

  closed-Parts :
      (w : AggregateWindow)
      → IsWindow w
      → w.has_gap ≡ false
      → (w.count == target / base) && w.all_closed ≡ true
      → (parts : List Candle) × (length parts ≡ target / base)
        × IsRun base parts
        × All (IsPart w.candle.open_time) parts
  closed-Parts w h g full = elim h.sound [
    | inl marked ↦ absurd (ground arith)
    | inr p ↦ (p.latest ∷ p.earlier, ground (arith, p.counted), p.run, p.parts)
  ]

  flushed-IsAggregated :
      (w : Option AggregateWindow) → IsWindowOption w → All IsAggregated (flushed (target / base) w)
  unfolding flushed
  flushed-IsAggregated none h = tt
  flushed-IsAggregated (some w) h = elim (Bool-cases w.has_gap) [
    | inl g ↦ rw g tt
    | inr g ↦ elim (Bool-cases ((w.count == target / base) && w.all_closed)) [
      | inl full ↦ rw g ((h.ends, inr (closed-Parts w h g full)), tt)
      | inr part ↦ rw g ((h.ends, inl part), tt)
    ]
  ]

  pub flush-IsSound : (a : Aggregator) → IsSound a → IsSound (flush a)
  unfolding flush
  flush-IsSound a h = record {
    same_target = h.same_target;
    same_base = h.same_base;
    expected = h.expected;
    window = tt;
    results =
        All-append IsAggregated a.result (flushed a.expected_count a.current) h.results
          (rw h.expected (flushed-IsAggregated a.current h.window));
  }

  module _ (set_string : String → Option Rat) (text_lt : String → String → Bool)
      (format_decimal : Rat → String) where
    started-IsWindow :
        (c : Candle) (name : String) (v : Rat)
        → P c
        → IsWindow (
            started set_string text_lt format_decimal c
              (align_time c.open_time target)
              target
              name
              v)
    started-IsWindow c name v p = record {
      ends = refl;
      sound = elim (Bool-cases c.is_closed) [
        | inr n ↦ inl (inr n)
        | inl y ↦ inr (record {
          latest = c;
          earlier = [];
          counted = refl;
          at_end = refl;
          run = tt;
          parts = ((p, y, refl), tt);
        })
      ];
    }

    extended_sound :
        (w : AggregateWindow) (c : Candle) (v : Rat)
        → P c
        → w.candle.open_time ≡ align_time c.open_time target
        → Parts w.candle.open_time w.count w.last_open_time
        → (((extended set_string text_lt format_decimal base w c v).has_gap ≡ true)
            ⊎ (w.all_closed && c.is_closed ≡ false))
          ⊎ Parts w.candle.open_time (suc w.count) c.open_time
    extended_sound w c v p same h = elim (Bool-cases (c.open_time == w.last_open_time + base)) [
      | inr apart ↦ inl (inl (rw apart refl))
      | inl next ↦ elim (Bool-cases c.is_closed) [
        | inr n ↦ inl (inr (ground arith))
        | inl y ↦ inr (record {
          latest = c;
          earlier = h.latest ∷ h.earlier;
          counted = ap suc h.counted;
          at_end = refl;
          run = (ground (arith, h.at_end), h.run);
          parts = ((p, y, sym same), h.parts);
        })
      ]
    ]

    extended-IsWindow :
        (w : AggregateWindow) (c : Candle) (v : Rat)
        → P c
        → IsWindow w
        → w.candle.open_time ≡ align_time c.open_time target
        → IsWindow (extended set_string text_lt format_decimal base w c v)
    extended-IsWindow w c v p h same = record {
      ends = h.ends;
      sound = elim h.sound [
        | inl (inl g) ↦ inl (inl (ground arith))
        | inl (inr n) ↦ inl (inr (ground arith))
        | inr parts ↦ extended_sound w c v p same parts
      ];
    }

    pub new_window-IsWindow :
        (c : Candle) (duration : ℕ) (name : String) (w : AggregateWindow)
        → P c
        → duration ≡ target
        → new_window set_string text_lt format_decimal c
            (align_time c.open_time duration)
            duration
            name
          ≡ ok w
        → IsWindow w
    unfolding new_window
    new_window-IsWindow c duration name w p same e =
        let (v, _, made) = >>=-eq-ok (parsed_volume (set_string c.volume)) _ e in
        subst IsWindow (ok-injective made) (rw same (started-IsWindow c name v p))

    pub extend_window-IsWindow :
        (w w' : AggregateWindow) (c : Candle) (step : ℕ)
        → P c
        → IsWindow w
        → step ≡ base
        → w.candle.open_time ≡ align_time c.open_time target
        → extend_window set_string text_lt format_decimal step w c ≡ ok w'
        → IsWindow w'
    unfolding extend_window
    extend_window-IsWindow w w' c step p h stepped same e =
        let (v, _, made) = >>=-eq-ok (parsed_volume (set_string c.volume)) _ e in
        subst IsWindow (ok-injective made)
          (rw stepped (extended-IsWindow w c (add_rat w.volume v) p h same))
