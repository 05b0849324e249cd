-- ===== src/ShortWindow/Metrics/Drawdown.antt =====
-- The one-pass drawdown against its definition.
use mathlib.Core.List.{foldl}
use Prim.Native.Nat.{max}
use event_probability_termin.Base.{
  ℕ, suc, ◌+◌, ◌-◌, ◌≤◌, ◌≡◌, refl, ap, ◌∙◌, some, none, List, [], ◌∷◌, map, arith, is_empty,
  if◌then◌else◌,
}
use event_probability_termin.Base.Int.{pos, sub_ℤ}
use event_probability_termin.ShortWindow.Replay.{OutcomeStatus, ReplayResult}
use event_probability_termin.ShortWindow.Metrics.{Curve, curve_step, status_of, max_drawdown}

-- The most by which losses exceed wins in an initial segment.
abbrev pub initial_excess : List OutcomeStatus → ℕ
initial_excess [] = 0
initial_excess (OutcomeStatus.loss ∷ rest) = suc (initial_excess rest)
initial_excess (OutcomeStatus.win ∷ rest) = initial_excess rest - 1
initial_excess (_ ∷ rest) = initial_excess rest

-- The most by which losses exceed wins in any segment.
abbrev pub worst_excess : List OutcomeStatus → ℕ
worst_excess [] = 0
worst_excess (status ∷ rest) = max (initial_excess (status ∷ rest)) (worst_excess rest)

initial-le-worst : (l : List OutcomeStatus) → initial_excess l ≤ worst_excess l
initial-le-worst [] = omega arith
initial-le-worst (status ∷ rest) = omega arith

-- The gap between the peak and the curve, and the drawdown so far, as numbers.
record IsCurve (c : Curve) (gap deepest : ℕ) : Type 0 where
  gap_is : sub_ℤ c.peak c.equity ≡ pos gap
  deepest_is : c.drawdown ≡ pos deepest
  ordered : gap ≤ deepest

abbrev gap_after : ℕ → OutcomeStatus → ℕ
gap_after gap OutcomeStatus.loss = suc gap
gap_after gap OutcomeStatus.win = gap - 1
gap_after gap _ = gap

curve_step-IsCurve :
    (c : Curve) (gap deepest : ℕ) (status : OutcomeStatus)
    → IsCurve c gap deepest
    → IsCurve (curve_step c status) (gap_after gap status) (max deepest (gap_after gap status))
unfolding curve_step
curve_step-IsCurve c gap deepest OutcomeStatus.win h = ground arith
curve_step-IsCurve c gap deepest OutcomeStatus.loss h = ground arith
curve_step-IsCurve c gap deepest _ h = ground arith

excess_step :
    (status : OutcomeStatus) (rest : List OutcomeStatus) (gap deepest : ℕ)
    → gap ≤ deepest
    → initial_excess rest ≤ worst_excess rest
    → let next = gap_after gap status in
      max (max deepest next) (max (worst_excess rest) (next + initial_excess rest))
      ≡ max deepest (max (worst_excess (status ∷ rest)) (gap + initial_excess (status ∷ rest)))
excess_step OutcomeStatus.win rest gap deepest h low = omega arith
excess_step OutcomeStatus.loss rest gap deepest h low = omega arith
excess_step _ rest gap deepest h low = omega arith

run_lem :
    (l : List OutcomeStatus) (c : Curve) (gap deepest : ℕ)
    → IsCurve c gap deepest
    → (foldl curve_step c l).drawdown
      ≡ pos (max deepest (max (worst_excess l) (gap + initial_excess l)))
run_lem [] c gap deepest h = ground (arith, h.deepest_is)
run_lem (status ∷ rest) c gap deepest h =
    run_lem rest (curve_step c status) _ _ (curve_step-IsCurve c gap deepest status h)
    ∙ ap pos (excess_step status rest gap deepest h.ordered (initial-le-worst rest))

module _ {F : Type 0} where
  -- The maximal drawdown of a replay is null of no results, and otherwise the most by which losses
  -- exceed wins in any run of consecutive results.
  pub max_drawdown_lem :
      (results : List (ReplayResult F))
      → max_drawdown results
        ≡ (if is_empty results then none else some (worst_excess (map status_of results)))
  unfolding max_drawdown
  max_drawdown_lem [] = refl
  max_drawdown_lem (r ∷ rs) =
      let l = map status_of (r ∷ rs) in
      let final =
        run_lem l (record { equity = pos 0; peak = pos 0; drawdown = pos 0 }) 0 0
          (record { gap_is = refl; deepest_is = refl; ordered = omega arith }) in
      ground (arith, final, initial-le-worst l)
