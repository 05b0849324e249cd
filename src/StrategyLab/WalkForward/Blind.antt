-- ===== src/StrategyLab/WalkForward/Blind.antt =====
-- What the selection of a walk-forward validation sees.
use mathlib.Core.Option
use mathlib.Core.Path.{ap₂}
use event_probability_termin.Base.{
  ℕ, ◌≡◌, refl, ap, ◌∙◌, List, [], ◌∷◌, map, String, Option, none, some, sym,
}
use event_probability_termin.Base.Number.{Number}
use event_probability_termin.EventReplay.{ReplayWindow}
use event_probability_termin.EventReplay.Windows.{WindowRequest}
use event_probability_termin.StrategyLab.{StrategyParameterSet}
use event_probability_termin.StrategyLab.Ranking.{ParameterSweepResult, WalkForwardWindow}
use event_probability_termin.StrategyLab.Sweep.{
  ReplayRunner, RunSignalReplayInput, request_of, rated, run_replay_for_parameter,
}
use event_probability_termin.StrategyLab.WalkForward.{
  WalkForwardContext, SelectedWindowResult, sweep_of, train_window, to_replay_window, selected_of,
  select_on_train, tried, run_window,
}

-- A map that leaves alone what a second one reads.
map-map :
    {A B C : Type 0} (f : A → B) (g : B → C) (h : A → C) (o : Option A)
    → ((a : A) → g (f a) ≡ h a)
    → Option.map g (Option.map f o) ≡ Option.map h o
map-map f g h none e = refl
map-map f g h (some a) e = ap some (e a)

module _ {F : Type 0} ⦃N : Number F⦄ (decimal : ℕ → String) (context : WalkForwardContext F)
    (window : WalkForwardWindow) where
  -- Two runners that answer alike for the span from the start to the end of the window's training.
  abbrev pub AgreeOnTrain : ReplayRunner F → ReplayRunner F → Type 0
  AgreeOnTrain runner other =
      (request : RunSignalReplayInput F) (span : ReplayWindow (Option ℕ))
      → request.window ≡ WindowRequest.given span
      → span.start_time ≡ some window.train_start
      → span.end_time ≡ some window.train_end
      → runner request ≡ other request

  module _ (other : ReplayRunner F) (agree : AgreeOnTrain context.replay_runner other) where
    abbrev context' : WalkForwardContext F
    context' = record context { replay_runner = other }

    abbrev on_train : WalkForwardContext F → StrategyParameterSet F → ParameterSweepResult F
    on_train c set =
        run_replay_for_parameter (sweep_of decimal c (train_window decimal context window)) set

    replays_agree :
        (sets : List (StrategyParameterSet F))
        → map (on_train context) sets ≡ map (on_train context') sets
    unfolding run_replay_for_parameter to_replay_window
    replays_agree [] = refl
    replays_agree (set ∷ sets) =
        let request =
          request_of (sweep_of decimal context (train_window decimal context window)) set in
        ap₂ (λ r rest. r ∷ rest) (ap (rated set) (agree request _ refl refl refl))
          (replays_agree sets)

  -- Which parameter set a window selects does not depend on any replay but those of the span from the
  -- start to the end of its training: with another runner that answers alike for that span, the same
  -- result of the training is selected, and the same set is tried on the test span.
  pub selection-blind :
      (other : ReplayRunner F)
      → AgreeOnTrain context.replay_runner other
      → let context' = record context { replay_runner = other } in
        (select_on_train decimal context window ≡ select_on_train decimal context' window)
        × (Option.map (λ r. r.parameter_set) (run_window decimal context window)
            ≡ Option.map (λ r. r.parameter_set) (run_window decimal context' window))
  unfolding select_on_train tried run_window
  selection-blind other agree =
      let same =
        ap (λ results. selected_of results) (replays_agree other agree context.candidates) in
      let read = λ (c : WalkForwardContext F).
        map-map (tried decimal c window) (λ (r : SelectedWindowResult F). r.parameter_set)
          (λ r. r.parameter_set) (select_on_train decimal c window) (λ a. refl) in
      (
        same,
        read context
            ∙ ap (Option.map (λ r. r.parameter_set)) same
            ∙ sym (read (record context { replay_runner = other })),
      )
