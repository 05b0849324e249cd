-- ===== src/StrategyLab/WalkForward/Rolling.antt =====
-- The windows of a walk-forward validation.
use event_probability_termin.Base.{
  ℕ, zero, suc, ◌+◌, ◌≤◌, ◌<◌, ◌≡◌, ◌||◌, List, [], ◌∷◌, arith, All, All-map_weaken, length,
  Bool-cases, inl, inr, ltb, leb,
}
use event_probability_termin.Base.Number.{Number}
use event_probability_termin.EventReplay.{ReplayWindow}
use event_probability_termin.StrategyLab.Ranking.{WalkForwardWindow}
use event_probability_termin.StrategyLab.WalkForward.{rolling_windows, build_rolling_windows}

-- A window whose train span is not empty and ends where its test span begins, which is not empty and
-- lies within the bounds.
abbrev pub IsWithin : (start end : ℕ) → WalkForwardWindow → Type 0
IsWithin start end w =
    (start ≤ w.train_start)
    × (w.train_start < w.train_end)
    × (w.train_end ≡ w.test_start)
    × (w.test_start < w.test_end)
    × (w.test_end ≤ end)

-- The test span of each window begins where that of the one before has ended.
abbrev pub TestsFollow : List WalkForwardWindow → Type 0
TestsFollow [] = Unit
TestsFollow (v ∷ []) = Unit
TestsFollow (v ∷ w ∷ ws) = (v.test_end ≡ w.test_start) × TestsFollow (w ∷ ws)

within_lem :
    (end train test rounds index cursor : ℕ)
    → All (IsWithin cursor end) (rolling_windows end train test rounds index cursor)
      × (length (rolling_windows end train test rounds index cursor) ≤ rounds)
unfolding rolling_windows
within_lem end train test zero index cursor = (tt, omega arith)
within_lem end train test (suc rounds) index cursor =
    let (rest, few) = within_lem end train test rounds (suc index) (cursor + test) in
    let stops =
      ltb end (cursor + train + test)
      || leb (cursor + train) cursor
      || leb (cursor + train + test) (cursor + train) in
    elim (Bool-cases stops) [
      | inl e ↦ rw e (tt, omega arith)
      | inr e ↦
          let weaker =
            All-map_weaken (IsWithin (cursor + test) end) (IsWithin cursor end)
              (rolling_windows end train test rounds (suc index) (cursor + test))
              (λ w h. ground arith) rest in
          rw e (((ground arith), weaker), omega (arith, few))
    ]

follow_lem :
    (end train test rounds index cursor : ℕ)
    → TestsFollow (rolling_windows end train test rounds index cursor)
unfolding rolling_windows
follow_lem end train test zero index cursor = tt
follow_lem end train test (suc zero) index cursor = ground arith
follow_lem end train test (suc (suc rounds)) index cursor =
    let rest = follow_lem end train test (suc rounds) (suc index) (cursor + test) in
    ground (arith, rest)

module _ {F : Type 0} ⦃N : Number F⦄ where
  -- The rolling windows lie within the total window, at most twelve; each has a train span that is not
  -- empty and, right behind it, a test span that is not empty; and the test spans follow upon each
  -- other without a gap and without overlap.
  pub rolling_windows-AreWithin :
      (window : ReplayWindow ℕ) (train_ratio test_ratio : F)
      → let windows = build_rolling_windows window train_ratio test_ratio in
        All (IsWithin window.start_time window.end_time) windows
        × TestsFollow windows
        × (length windows ≤ 12)
  unfolding build_rolling_windows
  rolling_windows-AreWithin window train_ratio test_ratio =
      elim (Bool-cases (leb window.end_time window.start_time)) [
        | inl e ↦ rw e (tt, tt, omega arith)
        | inr e ↦
            let (within, few) = within_lem window.end_time _ _ 12 0 window.start_time in
            rw e (within, follow_lem window.end_time _ _ 12 0 window.start_time, few)
      ]
