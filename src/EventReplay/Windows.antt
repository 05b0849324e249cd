-- ===== src/EventReplay/Windows.antt =====
-- packages/research-signals/src/replay/window.ts: the window of a replay, named or given.
use event_probability_termin.Base.{
  ℕ, ◌-◌, ◌*◌, ◌<◌, ◌≡◌, ◌⊎◌, ◌↔◌, inl, inr, Option, none, some, String, arith, leb, if◌then◌else◌,
  same_text, Bool, true, false,
}
use event_probability_termin.Market.{OhlcvInterval}
use event_probability_termin.EventReplay.{ReplayWindowId, ReplayWindow}

-- The errors that are thrown.
pub data WindowError : Type 0 where
  custom_without_times invalid_now invalid_start_time invalid_end_time start_not_earlier :
      WindowError

pub data WindowRequest : Type 0 where
  named : ReplayWindowId → WindowRequest
  given : ReplayWindow (Option ℕ) → WindowRequest

-- The custom window has no duration of its own.
unfoldable pub window_duration_ms : ReplayWindowId → Option ℕ
window_duration_ms ReplayWindowId.d1 = some (24 * 60 * 60 * 1000)
window_duration_ms ReplayWindowId.d3 = some (3 * 24 * 60 * 60 * 1000)
window_duration_ms ReplayWindowId.w1 = some (7 * 24 * 60 * 60 * 1000)
window_duration_ms ReplayWindowId.m1 = some (30 * 24 * 60 * 60 * 1000)
window_duration_ms ReplayWindowId.custom = none

abbrev window_label : ReplayWindowId → String
window_label ReplayWindowId.d1 = "Past 1 day"
window_label ReplayWindowId.d3 = "Past 3 days"
window_label ReplayWindowId.w1 = "Past 1 week"
window_label ReplayWindowId.m1 = "Past 1 month"
window_label ReplayWindowId.custom = "Custom replay window"

abbrev pub WindowResult : Type 0
WindowResult = WindowError ⊎ ReplayWindow ℕ

abbrev parse_iso : Option ℕ → WindowError → (ℕ → WindowResult) → WindowResult
parse_iso none error go = inl error
parse_iso (some time) error go = go time

-- `resolveReplayWindow` of a name. A window that would reach back before 1970 is not modelled.
unfoldable pub resolve_named_window : ReplayWindowId → Option ℕ → WindowResult
unfolding window_duration_ms
resolve_named_window id now = elim (window_duration_ms id) [
  | none ↦ inl WindowError.custom_without_times
  | some duration ↦ parse_iso now WindowError.invalid_now (λ end_ms. inr (record {
    id = id;
    start_time = end_ms - duration;
    end_time = end_ms;
    label = window_label id;
  }))
]

unfoldable pub validate_custom_replay_window : ReplayWindow (Option ℕ) → WindowResult
unfolding resolve_named_window
validate_custom_replay_window window =
    let checked = parse_iso window.start_time WindowError.invalid_start_time (λ start_ms.
      parse_iso window.end_time WindowError.invalid_end_time (λ end_ms.
        if leb end_ms start_ms
        then inl WindowError.start_not_earlier
        else inr (record {
          id = ReplayWindowId.custom;
          start_time = start_ms;
          end_time = end_ms;
          label = if same_text window.label "" then "Custom replay window" else window.label;
        }))) in
    elim window.id [
      | ReplayWindowId.custom ↦ checked
      | ReplayWindowId.d1 ↦ resolve_named_window ReplayWindowId.d1 window.end_time
      | ReplayWindowId.d3 ↦ resolve_named_window ReplayWindowId.d3 window.end_time
      | ReplayWindowId.w1 ↦ resolve_named_window ReplayWindowId.w1 window.end_time
      | ReplayWindowId.m1 ↦ resolve_named_window ReplayWindowId.m1 window.end_time
    ]

unfoldable pub resolve_replay_window : WindowRequest → Option ℕ → WindowResult
unfolding validate_custom_replay_window
resolve_replay_window (WindowRequest.named id) now = resolve_named_window id now
resolve_replay_window (WindowRequest.given window) now = validate_custom_replay_window window

unfoldable pub interval_ms_for_replay : OhlcvInterval → ℕ
interval_ms_for_replay OhlcvInterval.m1 = 60_000
interval_ms_for_replay OhlcvInterval.m5 = 300_000
interval_ms_for_replay OhlcvInterval.m10 = 600_000
interval_ms_for_replay OhlcvInterval.m15 = 900_000
interval_ms_for_replay OhlcvInterval.m30 = 1_800_000
interval_ms_for_replay OhlcvInterval.h1 = 3_600_000
interval_ms_for_replay OhlcvInterval.h4 = 14_400_000
interval_ms_for_replay OhlcvInterval.d1 = 86_400_000
interval_ms_for_replay OhlcvInterval.w1 = 604_800_000
interval_ms_for_replay OhlcvInterval.mo1 = 2_592_000_000

-- A window that was resolved has its start before its end if it was given, and otherwise the
-- duration of its name up to its end.
abbrev pub IsSpan : ReplayWindow ℕ → Type 0
IsSpan w =
    (window_duration_ms w.id ≡ none → w.start_time < w.end_time)
    × ((duration : ℕ)
        → window_duration_ms w.id ≡ some duration
        → w.start_time ≡ w.end_time - duration)

named-IsSpan :
    (id : ReplayWindowId) (now : Option ℕ) (w : ReplayWindow ℕ)
    → resolve_named_window id now ≡ inr w
    → IsSpan w
unfolding resolve_named_window window_duration_ms
named-IsSpan id now w h = ground arith

-- Every window that is resolved, named or given, spans the duration of its name, or some time where
-- it is a custom one.
pub resolve_replay_window-IsSpan :
    (request : WindowRequest) (now : Option ℕ) (w : ReplayWindow ℕ)
    → resolve_replay_window request now ≡ inr w
    → IsSpan w
unfolding resolve_replay_window validate_custom_replay_window resolve_named_window
    window_duration_ms
resolve_replay_window-IsSpan request now w h = ground arith

abbrev pub is_window : WindowResult → Bool
is_window (inl error) = false
is_window (inr window) = true

-- A custom window is resolved exactly when both of its times are dates and the first is earlier.
pub custom_window_iff :
    (window : ReplayWindow (Option ℕ)) (now : Option ℕ)
    → window.id ≡ ReplayWindowId.custom
    → (is_window (resolve_replay_window (WindowRequest.given window) now) ≡ true) ↔ (
        (start : ℕ) × (end : ℕ) × (window.start_time ≡ some start)
        × (window.end_time ≡ some end)
        × (start < end))
unfolding resolve_replay_window validate_custom_replay_window resolve_named_window
    window_duration_ms
custom_window_iff window now h = ground arith
