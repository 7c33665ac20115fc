-- ===== src/Inspector/Recorder.antt =====
-- ios-inspector/sandstorm_inspector/recorder.py: recording steps. The script is in `Script`.
pub mod Script
pub mod Recording
use sandstorm_ios_driver.Prelude.{
  ℕ, suc, ◌+◌, ◌-◌, String, Bool, true, false, not, ◌&&◌, ◌||◌, Option, none, some, List, [], ◌∷◌,
  ◌++◌, map, ◌==◌, leb, length, if◌then◌else◌,
}
use sandstorm_ios_driver.Prelude.Text.{Text, codes, is_empty, join, starts_with, strip}
use sandstorm_ios_driver.Prelude.Int.{ℤ, pos}
use sandstorm_ios_driver.Python.Json.{Json, float, int, str}
use sandstorm_ios_driver.Python.Runtime.{Runtime}
use sandstorm_ios_driver.Inspector.Suggestion.{escape, quote, quoted}
use sandstorm_ios_driver.Inspector.Tree.{Node, attr, text_or_empty}
use mathlib.Core.List.{reverse}

pub record Step : Type 0 where
  pub action : String
  pub code : Text
  pub summary : Text
  pub locator : Option Text

pub record Recorder : Type 0 where
  pub steps : List Step
  pub recording : Bool

abbrev pub new_recorder : Recorder
new_recorder = record { steps = []; recording = false }

unfoldable pub start : Recorder → Recorder
start r = record r { recording = true }

unfoldable pub stop : Recorder → Recorder
stop r = record r { recording = false }

unfoldable pub clear : Recorder → Recorder
clear r = record r { steps = [] }

-- `steps.pop()`: the last step, and the steps before it
unfoldable pub pop : List Step → Option Step × List Step
pop [] = (none, [])
pop (s ∷ []) = (some s, [])
pop (s ∷ t ∷ rest) = let (last, before) = pop (t ∷ rest) in (last, s ∷ before)

unfoldable pub undo : Recorder → Option Step × Recorder
unfolding pop
undo r = let (last, before) = pop r.steps in (last, record r { steps = before })

-- `record`
unfoldable pub capture : Step → Recorder → Option Step × Recorder
capture s r = if r.recording then (some s, record r { steps = r.steps ++ (s ∷ []) }) else (none, r)

abbrev pub step : String → Text → Text → Option Text → Step
step action code summary locator = record {
  action = action;
  code = code;
  summary = summary;
  locator = locator;
}

abbrev pub Capture : Type 0
Capture = Recorder → Option Step × Recorder

unfoldable pub record_launch : Text → Bool → Capture
unfolding capture
record_launch bundle_id relaunch = capture (
    step "launch" (if relaunch then codes "app.launch(relaunch=True)" else codes "app.launch()")
      (codes "launch  " ++ (bundle_id ++ (if relaunch then codes "  [fresh]" else []))) none)

unfoldable pub record_terminate : Text → Capture
unfolding capture
record_terminate bundle_id =
    capture (step "terminate" (codes "app.terminate()") (codes "terminate  " ++ bundle_id) none)

-- `if locator:`, an expression that is there and not empty
abbrev pub given : Option Text → Option Text
given none = none
given (some l) = if is_empty l then none else some l

unfoldable pub capture_if : Option Step → Capture
unfolding capture
capture_if none r = (none, r)
capture_if (some s) r = capture s r

module _ {F : Type 0} (rt : Runtime F) where
  abbrev tap_step : Option Text → Text → Option (F × F) → Option Step
  tap_step (some l) target point =
      some (step "tap" (l ++ codes ".tap()") (codes "tap  " ++ target) (some l))
  tap_step none target none = none
  tap_step none target (some (x, y)) = some (
      step "tap"
        (codes "page.tap(" ++ (rt.fixed 4 x ++ (codes ", " ++ (rt.fixed 4 y ++ codes ")"))))
        (codes "tap  (" ++ (rt.fixed 3 x ++ (codes ", " ++ (rt.fixed 3 y ++ codes ")")))) none)

  abbrev duration_text : F → Text
  duration_text d = codes "duration=" ++ (rt.show (float d) ++ codes ")")

  abbrev press_step : Option Text → Text → Option (F × F) → F → Option Step
  press_step (some l) target point duration = some (
      step "long_press" (l ++ (codes ".long_press(" ++ duration_text duration))
        (codes "long press  " ++ target) (some l))
  press_step none target none duration = none
  press_step none target (some (x, y)) duration = some (
      step "long_press"
        (codes "page.long_press("
          ++ (rt.fixed 4 x
              ++ (codes ", " ++ (rt.fixed 4 y ++ (codes ", " ++ duration_text duration)))))
        (codes "long press  (" ++ (rt.fixed 3 x ++ (codes ", " ++ (rt.fixed 3 y ++ codes ")"))))
        none)

  unfoldable pub record_tap : Option Text → Text → Option (F × F) → Capture
  unfolding capture_if
  record_tap locator target point = capture_if (tap_step (given locator) target point)

  unfoldable pub record_long_press : Option Text → Text → Option (F × F) → F → Capture
  unfolding capture_if
  record_long_press locator target point duration =
      capture_if (press_step (given locator) target point duration)

  unfoldable pub record_fill : Text → Text → Text → Capture
  unfolding capture
  record_fill locator target words = capture (
      step "fill" (locator ++ (codes ".fill(" ++ (quoted words ++ codes ")")))
        (codes "fill  " ++ (target ++ (codes " = " ++ rt.repr words))) (some locator))

  abbrev pair_text : ℕ → F × F → Text
  pair_text n (x, y) = codes "(" ++ (rt.fixed n x ++ (codes ", " ++ (rt.fixed n y ++ codes ")")))

  unfoldable pub record_swipe : F × F → F × F → F → Capture
  unfolding capture
  record_swipe from to duration = capture (
      step "swipe"
        (codes "page.swipe("
          ++ (pair_text 3 from
              ++ (codes ", " ++ (pair_text 3 to ++ (codes ", " ++ duration_text duration)))))
        (codes "swipe  " ++ (pair_text 2 from ++ (codes " -> " ++ pair_text 2 to))) none)

  unfoldable pub record_wait_for : Text → Text → Text → F → Capture
  unfolding capture
  record_wait_for locator target state timeout = capture (
      step "wait_for"
        (locator
          ++ (codes ".wait_for(state=\""
              ++ (state ++ (codes "\", timeout=" ++ (rt.show (float timeout) ++ codes ")")))))
        (codes "wait for  " ++ (target ++ (codes "  [" ++ (state ++ codes "]")))) (some locator))

  unfoldable pub record_assert_text : Text → Text → Text → Capture
  unfolding capture
  record_assert_text locator target words = capture (
      step "assert_text"
        (codes "assert " ++ (locator ++ (codes ".text_content() == " ++ quoted words)))
        (codes "assert text  " ++ (target ++ (codes " == " ++ rt.repr words))) (some locator))

unfoldable pub record_clear : Text → Text → Capture
unfolding capture
record_clear locator target =
    capture (step "clear" (locator ++ codes ".clear()") (codes "clear  " ++ target) (some locator))

unfoldable pub record_assert_visible : Text → Text → Capture
unfolding capture
record_assert_visible locator target = capture (
    step "assert_visible"
      (codes "assert "
        ++ (locator ++ (codes ".is_visible(), \"" ++ (escape target ++ codes " is not visible\""))))
      (codes "assert visible  " ++ target) (some locator))

unfoldable pub record_screenshot : Text → Capture
unfolding capture
record_screenshot path = capture (
    step "screenshot" (codes "page.screenshot(" ++ (quoted path ++ codes ")"))
      (codes "screenshot  " ++ path) none)

abbrev alert_argument : Option Text → Text
alert_argument none = []
alert_argument (some b) = quoted b

abbrev alert_suffix : Option Text → Text
alert_suffix none = []
alert_suffix (some b) = codes "  [" ++ (b ++ codes "]")

unfoldable pub record_alert : Bool → Option Text → Capture
unfolding capture
record_alert accept button = capture (
    step "alert"
      (codes "page."
        ++ ((if accept then codes "accept_alert" else codes "dismiss_alert")
            ++ (codes "(" ++ (alert_argument (given button) ++ codes ")"))))
      ((if accept then codes "accept" else codes "dismiss")
        ++ (codes " alert" ++ alert_suffix (given button)))
      none)
