-- ===== src/Inspector/Window/Actions.antt =====
-- The actions of the window on the selected element, in ios-inspector/sandstorm_inspector/app.py.
use sandstorm_ios_driver.Prelude.{Bool, true, false, ◌||◌, Option, none, some, ◌++◌, if◌then◌else◌}
use sandstorm_ios_driver.Prelude.Text.{Text, codes, is_empty, text_eq}
use sandstorm_ios_driver.Python.Exception.{Except, ok, err, Action, pure, bind, ◌>>=◌}
use sandstorm_ios_driver.Python.Runtime.{Runtime, eq_zero}
use sandstorm_ios_driver.Sdk.Session.{seconds}
use sandstorm_ios_driver.Sdk.Locator.{
  Locator, WaitState, state_name, tap, long_press, fill, clear, wait_for, is_visible, text_content,
}
use sandstorm_ios_driver.Sdk.Page.{page_tap, page_long_press, swipe, middle}
use sandstorm_ios_driver.Sdk.Device.{Device, with_session}
use sandstorm_ios_driver.Inspector.Tree.{Node}
use sandstorm_ios_driver.Inspector.HitTest.{Rect, rect_of}
use sandstorm_ios_driver.Inspector.Suggestion.{LocatorSuggestion, best_locator}
use sandstorm_ios_driver.Inspector.Suggestion.Build.{build, inline}
use sandstorm_ios_driver.Inspector.Recorder.{
  Step, Recorder, record_tap, record_long_press, record_fill, record_clear, record_swipe,
  record_wait_for, record_assert_visible, record_assert_text, record_screenshot,
}
use sandstorm_ios_driver.Inspector.Recorder.Script.{describe_target}
use sandstorm_ios_driver.Inspector.Window.{
  Toolkit, Window, say, shown_error, captured, after_capture,
}
use sandstorm_ios_driver.Inspector.Window.Session.{ask, modify, page, perform, refresh}

-- The answer of a dialog, if it was accepted.
abbrev pub Answer : Type 0 → Type 0
Answer A = Option A

module _ {F : Type 0} ⦃rt : Runtime F⦄ (qt : Toolkit F) where
  abbrev pub center_in : F × F → Rect F → Option (F × F)
  center_in (width, height) r =
      if eq_zero width || eq_zero height
      then none
      else some (
        qt.divide (rt.add r.x (rt.half r.width)) width,
        qt.divide (rt.add r.y (rt.half r.height)) height,
      )

  abbrev pub center_of : Option (Node F) → F × F → Except F (Option (F × F))
  center_of none size = ok none
  center_of (some n) size = rect_of n >>= λ r. ok (center_in size r)

  unfoldable pub normalized_center : Window F → Except F (Option (F × F))
  normalized_center w = center_of w.selected w.point_size

  abbrev pub suggestion_in : Option (Node F) → Option (Node F) → Option LocatorSuggestion
  suggestion_in (some n) (some root) = best_locator rt n root
  suggestion_in _ _ = none

  unfoldable pub selected_suggestion : Window F → Option LocatorSuggestion
  selected_suggestion w = suggestion_in w.selected w.snapshot

  abbrev pub target_name : Window F → Text
  target_name w = describe_target w.selected

  abbrev pub select_first : Action F (Window F) (Unit {0})
  select_first = modify (say (codes "Select an element first"))

  -- `suggestion.build(self._page)`: the page needs a session.
  unfoldable pub built : LocatorSuggestion → Action F (Window F) (Locator F)
  unfolding build
  built s = ask (λ w. (with_session (pure (build page s)) w.device).0)

  unfoldable pub then_refresh : Action F (Window F) (Unit {0}) → Action F (Window F) (Unit {0})
  unfolding refresh
  then_refresh m = bind m (λ _. refresh qt)

  abbrev pub at_center :
      (F × F → Action F (Window F) (Unit {0})) → Option (F × F) → Action F (Window F) (Unit {0})
  at_center at_point none = select_first
  at_center at_point (some at) = then_refresh (at_point at)

  -- On the best locator of the selection, or else at its center.
  unfoldable pub by_suggestion :
      Option LocatorSuggestion
      → (LocatorSuggestion → Locator F → Action F (Window F) (Unit {0}))
      → (F × F → Action F (Window F) (Unit {0}))
      → Action F (Window F) (Unit {0})
  unfolding normalized_center
  by_suggestion (some s) on_locator at_point = bind (built s) (λ l. then_refresh (on_locator s l))
  by_suggestion none on_locator at_point = bind (ask normalized_center) (at_center at_point)

  unfoldable pub action_tap : Action F (Window F) (Unit {0})
  unfolding selected_suggestion inline
  action_tap w =
      let name = target_name w in
      by_suggestion (selected_suggestion w)
        (λ s l.
          perform qt (with_session (tap l none)) (codes "Tapped " ++ name)
            (record_tap rt (some (inline s.code)) name none))
        (λ (x, y).
          perform qt (with_session (page_tap x y)) (codes "Tapped")
            (record_tap rt none (codes "point") (some (x, y))))
        w

  unfoldable pub action_long_press : Action F (Window F) (Unit {0})
  unfolding selected_suggestion inline
  action_long_press w =
      let name = target_name w in
      by_suggestion (selected_suggestion w)
        (λ s l.
          perform qt (with_session (long_press l rt.one_float none)) (codes "Long pressed " ++ name)
            (record_long_press rt (some (inline s.code)) name none rt.one_float))
        (λ (x, y).
          perform qt (with_session (page_long_press x y rt.one_float)) (codes "Long pressed")
            (record_long_press rt none (codes "point") (some (x, y)) rt.one_float))
        w

  abbrev pub on_suggestion :
      (LocatorSuggestion → Locator F → Action F (Window F) (Unit {0}))
      → Option LocatorSuggestion
      → Action F (Window F) (Unit {0})
  on_suggestion rest none = select_first
  on_suggestion rest (some s) = bind (built s) (rest s)

  -- `_require_locator`, and the rest of the action
  unfoldable pub require_locator :
      (LocatorSuggestion → Locator F → Action F (Window F) (Unit {0}))
      → Action F (Window F) (Unit {0})
  unfolding selected_suggestion
  require_locator rest w = on_suggestion rest (selected_suggestion w) w

  abbrev pub typed :
      Answer Text → (Text → Action F (Window F) (Unit {0})) → Action F (Window F) (Unit {0})
  typed none rest = pure tt
  typed (some t) rest = if is_empty t then pure tt else rest t

  unfoldable pub action_type : Answer Text → Action F (Window F) (Unit {0})
  unfolding inline
  action_type answer w =
      let name = target_name w in
      require_locator
        (λ s l. typed answer (λ t. then_refresh (
          perform qt (with_session (fill l t none)) (codes "Typed into " ++ name)
            (record_fill rt (inline s.code) name t))))
        w

  unfoldable pub action_clear : Action F (Window F) (Unit {0})
  unfolding inline
  action_clear w =
      let name = target_name w in
      require_locator
        (λ s l. then_refresh (
          perform qt (with_session (clear l none)) (codes "Cleared " ++ name)
            (record_clear (inline s.code) name)))
        w

  unfoldable pub action_swipe : Action F (Window F) (Unit {0})
  action_swipe =
      let from : F × F = (middle, qt.three_quarters) in
      let to : F × F = (middle, qt.one_quarter) in
      then_refresh (
        perform qt (with_session (swipe from to qt.three_tenths)) (codes "Swiped")
          (record_swipe rt from to qt.three_tenths))

  abbrev pub waited :
      Answer WaitState
      → (WaitState → Action F (Window F) (Unit {0}))
      → Action F (Window F) (Unit {0})
  waited none rest = pure tt
  waited (some s) rest = rest s

  unfoldable pub action_wait_for : Answer WaitState → Action F (Window F) (Unit {0})
  unfolding inline
  action_wait_for answer w =
      let name = target_name w in
      require_locator
        (λ s l. waited answer (λ state.
          perform qt (with_session (wait_for l state (some (seconds 10))))
            (name ++ (codes " is " ++ codes (state_name state)))
            (record_wait_for rt (inline s.code) name (codes (state_name state)) (seconds 10))))
        w

  abbrev pub answered :
      {A : Type 0}
      → (A → Action F (Window F) (Unit {0}))
      → Window F
      → Except F A × Device F
      → Except F (Unit {0}) × Window F
  answered rest w (ok a, d) = rest a (record w { device = d })
  answered rest w (err e, d) = shown_error tt e (record w { device = d })

  -- A query, whose `IOSError` is shown, and the rest with its result.
  abbrev pub asked :
      {A : Type 0}
      → Action F (Device F) A
      → (A → Action F (Window F) (Unit {0}))
      → Action F (Window F) (Unit {0})
  asked query rest w = answered rest w (query w.device)

  unfoldable pub record_visible : Text → Text → Bool → Window F → Window F
  record_visible code name false w = say (name ++ codes " is NOT visible") w
  record_visible code name true w =
      captured rt qt (record_assert_visible code name) (say (name ++ codes " is visible") w)

  unfoldable pub action_assert_visible : Action F (Window F) (Unit {0})
  unfolding inline record_visible
  action_assert_visible w =
      let name = target_name w in
      require_locator
        (λ s l.
          asked (with_session (is_visible l))
            (λ visible. modify (record_visible (inline s.code) name visible)))
        w

  abbrev pub if_accepted :
      Answer Text → (Text → Window F → Window F) → Action F (Window F) (Unit {0})
  if_accepted none rest = pure tt
  if_accepted (some t) rest = modify (rest t)

  unfoldable pub record_text : Text → Text → Text → Text → Window F → Window F
  record_text code name current t w =
      let recorded = captured rt qt (record_assert_text rt code name t) w in
      if text_eq t current
      then recorded
      else say (codes "Recorded, but the element currently reads " ++ rt.repr current) recorded

  -- The answer to the dialog depends on the current text, which it shows.
  unfoldable pub action_assert_text : (Text → Answer Text) → Action F (Window F) (Unit {0})
  unfolding inline record_text
  action_assert_text answer w =
      let name = target_name w in
      require_locator
        (λ s l.
          asked (with_session (text_content l))
            (λ current. if_accepted (answer current) (record_text (inline s.code) name current)))
        w

  abbrev pub screenshot_step : Option Step × Recorder → Window F → Window F
  screenshot_step (none, r) w = say (codes "Start recording first") (record w { recorder = r })
  screenshot_step (some s, r) w = after_capture rt qt (some s, r) w

  unfoldable pub action_record_screenshot : Answer Text → Action F (Window F) (Unit {0})
  action_record_screenshot answer =
      typed answer (λ name. modify (λ w. screenshot_step (record_screenshot name w.recorder) w))

  abbrev pub copied : Option LocatorSuggestion → Window F → Window F
  copied none w = w
  copied (some s) w = say (codes "Locator copied") (record w { clipboard = s.code })

  unfoldable pub copy_locator : Window F → Window F
  unfolding selected_suggestion
  copy_locator w = copied (selected_suggestion w) w
