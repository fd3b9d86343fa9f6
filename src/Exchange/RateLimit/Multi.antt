-- ===== src/Exchange/RateLimit/Multi.antt =====
-- internal/exchange/ratelimit.go, `MultiWindowRateLimiter`: all windows are charged, or none.
use tictick_hi.Base.{
  leb, none, some, subst, Option-cases, ℕ, ◌+◌, ◌≤◌, ◌<◌, ◌≡◌, refl, ◌⊎◌, inl, inr, true, false,
  List, [], ◌∷◌, arith, All, All-mono, Bool-cases, ltb,
}
use tictick_hi.Exchange.RateLimit.{
  FixedWindow, refresh, is_over, window_wait, longest_wait, refresh_all, charge_all, charge,
  reserve_all,
}
use tictick_hi.Exchange.RateLimit.Fixed.{IsValid}

-- A window that is valid and still open at `now`.
pub record IsOpen (now : ℕ) (w : FixedWindow) : Type 0 where
  pub valid : IsValid w
  pub not_over : is_over w.reset_at now ≡ false

refresh-IsOpen : (now : ℕ) (w : FixedWindow) → IsValid w → IsOpen now (refresh now w)
unfolding refresh
refresh-IsOpen now w v = ground arith

refresh_all-IsOpen :
    (now : ℕ) (ws : List FixedWindow) → All IsValid ws → All (IsOpen now) (refresh_all now ws)
unfolding refresh_all
refresh_all-IsOpen now [] v = tt
refresh_all-IsOpen now (w ∷ ws) v = (refresh-IsOpen now w v.0, refresh_all-IsOpen now ws v.1)

window_wait-room :
    (now weight : ℕ) (w : FixedWindow)
    → IsOpen now w
    → window_wait now weight w ≡ 0
    → IsValid (charge weight w)
unfolding window_wait
window_wait-room now weight w o h = ground arith

longest_wait-le :
    (now weight : ℕ) (w : FixedWindow) (ws : List FixedWindow)
    → (window_wait now weight w ≤ longest_wait now weight (w ∷ ws))
      × (longest_wait now weight ws ≤ longest_wait now weight (w ∷ ws))
unfolding longest_wait
longest_wait-le now weight w ws = ground arith

longest_wait-nil :
    (now weight : ℕ) (w : FixedWindow) (ws : List FixedWindow)
    → window_wait now weight w ≡ 0
    → longest_wait now weight ws ≡ 0
    → longest_wait now weight (w ∷ ws) ≡ 0
unfolding longest_wait
longest_wait-nil now weight w ws h k = ground arith

charge_all-IsValid :
    (now weight : ℕ) (ws : List FixedWindow)
    → All (IsOpen now) ws
    → longest_wait now weight ws ≡ 0
    → All IsValid (charge_all weight ws)
unfolding charge_all
charge_all-IsValid now weight [] o h = tt
charge_all-IsValid now weight (w ∷ ws) o h =
    let least = longest_wait-le now weight w ws in
    (
      window_wait-room now weight w o.0 (omega arith),
      charge_all-IsValid now weight ws o.1 (omega arith),
    )

-- What becomes of a window at `now` when `weight` is added to it, written without the code's
-- functions: one that is still open keeps its end, and one that is over starts again.
abbrev pub IsAdded : ℕ → ℕ → FixedWindow → FixedWindow → Type 0
IsAdded now weight w w' =
    (w'.limit ≡ w.limit)
    × (w'.window ≡ w.window)
    × (((t : ℕ) × (w.reset_at ≡ some t)
          × (now < t)
          × (w'.reset_at ≡ some t)
          × (w'.used ≡ w.used + weight))
        ⊎ (((w.reset_at ≡ none) ⊎ ((t : ℕ) × (w.reset_at ≡ some t) × (t ≤ now)))
            × (w'.reset_at ≡ some (now + w.window))
            × (w'.used ≡ weight)))

abbrev pub AreAdded : ℕ → ℕ → List FixedWindow → List FixedWindow → Type 0
AreAdded now weight [] [] = Unit
AreAdded now weight [] (w' ∷ ws') = ⊥
AreAdded now weight (w ∷ ws) [] = ⊥
AreAdded now weight (w ∷ ws) (w' ∷ ws') = IsAdded now weight w w' × AreAdded now weight ws ws'

refresh-IsAdded :
    (now weight : ℕ) (w : FixedWindow) → IsAdded now weight w (charge weight (refresh now w))
unfolding refresh
refresh-IsAdded now weight w = elim (Option-cases w.reset_at) [
  | inl never ↦ rw never (refl, refl, inr (inl refl, refl, omega arith))
  | inr (t, until) ↦ elim (Bool-cases (leb t now)) [
    | inl over ↦ rw (until, over) (refl, refl, inr (inr (t, refl, ground arith), refl, omega arith))
    | inr still ↦ rw (until, still) (refl, refl, inl (t, refl, ground arith, refl, refl))
  ]
]

charge_nothing : (w : FixedWindow) → charge 0 w ≡ w
charge_nothing w = (let e : w.used + 0 ≡ w.used = omega arith in rw e refl)

charge_all-AreAdded :
    (now weight : ℕ) (ws : List FixedWindow)
    → AreAdded now weight ws (charge_all weight (refresh_all now ws))
unfolding charge_all refresh_all
charge_all-AreAdded now weight [] = tt
charge_all-AreAdded now weight (w ∷ ws) =
    (refresh-IsAdded now weight w, charge_all-AreAdded now weight ws)

refresh_all-AreAdded : (now : ℕ) (ws : List FixedWindow) → AreAdded now 0 ws (refresh_all now ws)
unfolding refresh_all
refresh_all-AreAdded now [] = tt
refresh_all-AreAdded now (w ∷ ws) = (
  subst (IsAdded now 0 w) (charge_nothing (refresh now w)) (refresh-IsAdded now 0 w),
  refresh_all-AreAdded now ws,
)

-- `reserve` on several windows keeps each within its limit, and charges all of them or none: a
-- request that is granted adds its weight to every window, and one that is refused adds nothing and
-- has to wait. Either way, a window that is open at the time keeps its end, and one that is over
-- starts again at the time, from 0.
pub reserve_all-IsValid :
    (now weight : ℕ) (ws : List FixedWindow)
    → All IsValid ws
    → let (ws', wait_for, done) = reserve_all now weight ws in
      All IsValid ws'
      × (((done ≡ true) × AreAdded now weight ws ws')
          ⊎ ((done ≡ false) × AreAdded now 0 ws ws' × (0 < wait_for)))
unfolding reserve_all
reserve_all-IsValid now weight ws v =
    let fresh = refresh_all-IsOpen now ws v in
    elim (Bool-cases (ltb 0 (longest_wait now weight (refresh_all now ws)))) [
      | inl e ↦ rw e (
        All-mono (IsOpen now) IsValid (λ w o. o.valid) (refresh_all now ws) fresh,
        inr (refl, refresh_all-AreAdded now ws, ground arith),
      )
      | inr e ↦ rw e (
        charge_all-IsValid now weight (refresh_all now ws) fresh (ground arith),
        inl (refl, charge_all-AreAdded now weight ws),
      )
    ]

window_wait-later :
    (now later weight : ℕ) (w : FixedWindow)
    → IsOpen now w
    → weight ≤ w.limit
    → now + window_wait now weight w ≤ later
    → window_wait later weight (refresh later w) ≡ 0
unfolding window_wait refresh
window_wait-later now later weight w o h e = ground arith

abbrev pub Fits : ℕ → List FixedWindow → Type 0
Fits weight = All (λ w. weight ≤ w.limit)

longest_wait-later :
    (now later weight : ℕ) (ws : List FixedWindow)
    → All (IsOpen now) ws
    → Fits weight ws
    → now + longest_wait now weight ws ≤ later
    → longest_wait later weight (refresh_all later ws) ≡ 0
unfolding refresh_all
longest_wait-later now later weight [] o f e = unfold longest_wait in refl
longest_wait-later now later weight (w ∷ ws) o f e =
    let least = longest_wait-le now weight w ws in
    longest_wait-nil later weight (refresh later w) (refresh_all later ws)
      (window_wait-later now later weight w o.0 f.0 (omega arith))
      (longest_wait-later now later weight ws o.1 f.1 (omega arith))

refresh_all-Fits :
    (now weight : ℕ) (ws : List FixedWindow) → Fits weight ws → Fits weight (refresh_all now ws)
unfolding refresh_all refresh
refresh_all-Fits now weight [] f = tt
refresh_all-Fits now weight (w ∷ ws) f = (ground arith, refresh_all-Fits now weight ws f.1)

-- The wait that a refused request is told is long enough: asked again once it is over, with
-- nobody else asking, the request is granted, if no window is smaller than its weight.
pub reserve_all_again :
    (now later weight : ℕ) (ws : List FixedWindow)
    → All IsValid ws
    → Fits weight ws
    → (reserve_all now weight ws).2 ≡ false
    → now + (reserve_all now weight ws).1 ≤ later
    → (reserve_all later weight (reserve_all now weight ws).0).2 ≡ true
unfolding reserve_all
reserve_all_again now later weight ws v f r e =
    let fresh = refresh_all-IsOpen now ws v in
    let fits = refresh_all-Fits now weight ws f in
    ground (arith, longest_wait-later now later weight (refresh_all now ws) fresh fits)
