-- ===== src/Inspector/Window/Events.antt =====
-- What the events of the window do to its recorder panel.
use sandstorm_ios_driver.Inspector.Window.Captures.{
  IsCapture, tap-IsCapture, press-IsCapture, fill-IsCapture, swipe-IsCapture, wait-IsCapture,
  text-IsCapture, clear-IsCapture, visible-IsCapture, screenshot-IsCapture,
}
use sandstorm_ios_driver.Prelude.{
  ◌≡◌, refl, ap, Bool, true, false, Option, none, some, [], ◌∷◌, ◌++◌, if◌then◌else◌,
}
use sandstorm_ios_driver.Prelude.Text.{Text, codes, text_eq}
use sandstorm_ios_driver.Python.Exception.{Except, ok, err, Action}
use sandstorm_ios_driver.Python.Runtime.{Runtime}
use sandstorm_ios_driver.Transport.Raises.{Keeps-continue}
use sandstorm_ios_driver.Sdk.Device.{Device, with_session}
use sandstorm_ios_driver.Sdk.Locator.{Locator, WaitState, is_visible, text_content}
use sandstorm_ios_driver.Inspector.Suggestion.{LocatorSuggestion}
use sandstorm_ios_driver.Inspector.Suggestion.Build.{inline}
use sandstorm_ios_driver.Inspector.Recorder.{
  Step, Recorder, Capture, record_assert_visible, record_assert_text, record_screenshot,
}
use sandstorm_ios_driver.Inspector.Window.{Toolkit, Window, say, captured, after_capture}
use sandstorm_ios_driver.Inspector.Window.Session.{ask, modify, perform}
use sandstorm_ios_driver.Inspector.Window.Actions.{
  record_text, record_visible, Answer, at_center, by_suggestion, built, then_refresh, on_suggestion,
  require_locator, typed, waited, answered, asked, if_accepted, screenshot_step,
  selected_suggestion, normalized_center, target_name, action_tap, action_long_press, action_type,
  action_clear, action_swipe, action_wait_for, action_assert_visible, action_assert_text,
  action_record_screenshot,
}
use sandstorm_ios_driver.Inspector.Window.Recorded.{
  panel_of, Captures, Keeps, shown_error-panel, perform-Keeps, then_refresh-Keeps,
}

module _ {F : Type 0} ⦃rt : Runtime F⦄ (qt : Toolkit F) (P : Window F → Type 0)
    (same : (w w₁ : Window F) → panel_of w₁ ≡ panel_of w → P w → P w₁)
    (keeps : (w : Window F) (out : Option Step × Recorder)
      → Captures w.recorder out
      → P w
      → P (after_capture rt qt out w)) where
  abbrev KeepsIt : {A : Type 0} → Action F (Window F) A → Type 0
  KeepsIt m = Keeps qt P same m

  -- A command on a locator or at a point, with what is recorded of it.
  performed :
      {A : Type 0} (m : Action F (Device F) A) (success : Text) (c : Capture)
      → IsCapture c
      → KeepsIt (perform qt m success c)
  performed m success c h = perform-Keeps qt P same keeps m success c h.captures

  refreshing : (m : Action F (Window F) (Unit {0})) → KeepsIt m → KeepsIt (then_refresh qt m)
  refreshing m h = then_refresh-Keeps qt P same keeps m h

  at_center-Keeps :
      (at_point : F × F → Action F (Window F) (Unit {0})) (o : Option (F × F))
      → ((at : F × F) → KeepsIt (at_point at))
      → KeepsIt (at_center qt at_point o)
  at_center-Keeps at_point none h w p = same w _ refl p
  at_center-Keeps at_point (some at) h w p = refreshing (at_point at) (h at) w p

  by_suggestion-Keeps :
      (o : Option LocatorSuggestion)
      (on_locator : LocatorSuggestion → Locator F → Action F (Window F) (Unit {0}))
      (at_point : F × F → Action F (Window F) (Unit {0}))
      → ((s : LocatorSuggestion) (l : Locator F) → KeepsIt (on_locator s l))
      → ((at : F × F) → KeepsIt (at_point at))
      → KeepsIt (by_suggestion qt o on_locator at_point)
  unfolding by_suggestion built
  by_suggestion-Keeps (some s) on_locator at_point h k w p =
      Keeps-continue P (λ l. then_refresh qt (on_locator s l)) (built qt s w) p
        (λ l w₁ p₁. refreshing (on_locator s l) (h s l) w₁ p₁)
  by_suggestion-Keeps none on_locator at_point h k w p =
      Keeps-continue P (at_center qt at_point) (ask (normalized_center qt) w) p
        (λ o w₁ p₁. at_center-Keeps at_point o k w₁ p₁)

  require_locator-Keeps :
      (rest : LocatorSuggestion → Locator F → Action F (Window F) (Unit {0}))
      → ((s : LocatorSuggestion) (l : Locator F) → KeepsIt (rest s l))
      → KeepsIt (require_locator qt rest)
  unfolding require_locator built
  require_locator-Keeps rest h w p = on_suggestion-Keeps (selected_suggestion qt w)
    where
      on_suggestion-Keeps : (o : Option LocatorSuggestion) → P (on_suggestion qt rest o w).1
      on_suggestion-Keeps none = same w _ refl p
      on_suggestion-Keeps (some s) =
          Keeps-continue P (rest s) (built qt s w) p (λ l w₁ p₁. h s l w₁ p₁)

  typed-Keeps :
      (answer : Answer Text) (rest : Text → Action F (Window F) (Unit {0}))
      → ((t : Text) → KeepsIt (rest t))
      → KeepsIt (typed qt answer rest)
  typed-Keeps none rest h w p = p
  typed-Keeps (some []) rest h w p = p
  typed-Keeps (some (c ∷ t)) rest h w p = h (c ∷ t) w p

  waited-Keeps :
      (answer : Answer WaitState) (rest : WaitState → Action F (Window F) (Unit {0}))
      → ((t : WaitState) → KeepsIt (rest t))
      → KeepsIt (waited qt answer rest)
  waited-Keeps none rest h w p = p
  waited-Keeps (some t) rest h w p = h t w p

  answered-Keeps :
      {A : Type 0} (rest : A → Action F (Window F) (Unit {0})) (w : Window F)
      (out : Except F A × Device F)
      → ((a : A) → KeepsIt (rest a))
      → P w
      → P (answered qt rest w out).1
  answered-Keeps rest w (ok a, d) h p = h a (record w { device = d }) (same w _ refl p)
  answered-Keeps rest w (err e, d) h p =
      same w _ (shown_error-panel tt e (record w { device = d })) p

  asked-Keeps :
      {A : Type 0} (query : Action F (Device F) A) (rest : A → Action F (Window F) (Unit {0}))
      → ((a : A) → KeepsIt (rest a))
      → KeepsIt (asked qt query rest)
  asked-Keeps query rest h w p = answered-Keeps rest w (query w.device) h p

  captured-Keeps : (c : Capture) → IsCapture c → (w : Window F) → P w → P (captured rt qt c w)
  captured-Keeps c h w p = keeps w (c w.recorder) (h.captures w.recorder) p

  chosen : (b : Bool) (w w₁ : Window F) → P w → P w₁ → P (if b then w else w₁)
  chosen true w w₁ p q = p
  chosen false w w₁ p q = q

  pub tap-Keeps : KeepsIt (action_tap qt)
  unfolding action_tap
  tap-Keeps w p =
      by_suggestion-Keeps (selected_suggestion qt w) _ _
        (λ s l. performed _ _ _ (tap-IsCapture rt _ _ _))
        (λ at. performed _ _ _ (tap-IsCapture rt _ _ _)) w p

  pub press-Keeps : KeepsIt (action_long_press qt)
  unfolding action_long_press
  press-Keeps w p =
      by_suggestion-Keeps (selected_suggestion qt w) _ _
        (λ s l. performed _ _ _ (press-IsCapture rt _ _ _ _))
        (λ at. performed _ _ _ (press-IsCapture rt _ _ _ _)) w p

  pub type-Keeps : (answer : Answer Text) → KeepsIt (action_type qt answer)
  unfolding action_type
  type-Keeps answer w p =
      require_locator-Keeps _
        (λ s l.
          typed-Keeps answer _ (λ t. refreshing _ (performed _ _ _ (fill-IsCapture rt _ _ _))))
        w p

  pub clear-Keeps : KeepsIt (action_clear qt)
  unfolding action_clear
  clear-Keeps w p =
      require_locator-Keeps _ (λ s l. refreshing _ (performed _ _ _ (clear-IsCapture _ _))) w p

  pub swipe-Keeps : KeepsIt (action_swipe qt)
  unfolding action_swipe
  swipe-Keeps w p = refreshing _ (performed _ _ _ (swipe-IsCapture rt _ _ _)) w p

  pub wait-Keeps : (answer : Answer WaitState) → KeepsIt (action_wait_for qt answer)
  unfolding action_wait_for
  wait-Keeps answer w p =
      require_locator-Keeps _
        (λ s l. waited-Keeps answer _ (λ t. performed _ _ _ (wait-IsCapture rt _ _ _ _))) w p

  record_visible-Keeps :
      (code name : Text) (b : Bool) (w : Window F) → P w → P (record_visible qt code name b w)
  unfolding record_visible
  record_visible-Keeps code name false w p = same w _ refl p
  record_visible-Keeps code name true w p =
      captured-Keeps (record_assert_visible code name) (visible-IsCapture code name)
        (say (name ++ codes " is visible") w) (same w _ refl p)

  pub visible-Keeps : KeepsIt (action_assert_visible qt)
  unfolding action_assert_visible
  visible-Keeps w p =
      require_locator-Keeps _
        (λ s l.
          asked-Keeps (with_session (is_visible l))
            (λ visible. modify (record_visible qt (inline s.code) (target_name qt w) visible))
            (λ visible w₁ p₁.
              record_visible-Keeps (inline s.code) (target_name qt w) visible w₁ p₁))
        w p

  record_text-Keeps :
      (code name current t : Text) (w : Window F) → P w → P (record_text qt code name current t w)
  unfolding record_text
  record_text-Keeps code name current t w p =
      let recorded =
        captured-Keeps (record_assert_text rt code name t) (text-IsCapture rt code name t) w p in
      chosen (text_eq t current) _ _ recorded
        (same (captured rt qt (record_assert_text rt code name t) w) _ refl recorded)

  if_accepted-Keeps :
      (o : Answer Text) (rest : Text → Window F → Window F)
      → ((t : Text) (w : Window F) → P w → P (rest t w))
      → KeepsIt (if_accepted qt o rest)
  if_accepted-Keeps none rest h w p = p
  if_accepted-Keeps (some t) rest h w p = h t w p

  pub text-Keeps : (answer : Text → Answer Text) → KeepsIt (action_assert_text qt answer)
  unfolding action_assert_text
  text-Keeps answer w p =
      require_locator-Keeps _
        (λ s l.
          asked-Keeps (with_session (text_content l))
            (λ current.
              if_accepted qt (answer current)
                (record_text qt (inline s.code) (target_name qt w) current))
            (λ current.
              if_accepted-Keeps (answer current) _
                (λ t w₁ p₁. record_text-Keeps (inline s.code) (target_name qt w) current t w₁ p₁)))
        w p

  screenshot_step-Keeps :
      (w : Window F) (out : Option Step × Recorder)
      → Captures w.recorder out
      → P w
      → P (screenshot_step qt out w)
  screenshot_step-Keeps w (none, r) h p =
      same w _ (ap (λ r. panel_of (record w { recorder = r })) h) p
  screenshot_step-Keeps w (some s, r) h p = keeps w (some s, r) h p

  pub screenshot-Keeps : (answer : Answer Text) → KeepsIt (action_record_screenshot qt answer)
  unfolding action_record_screenshot
  screenshot-Keeps answer = typed-Keeps answer _ (λ t w p.
      screenshot_step-Keeps w (record_screenshot t w.recorder)
        ((screenshot-IsCapture t).captures w.recorder) p)
