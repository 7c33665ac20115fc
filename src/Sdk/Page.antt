-- ===== src/Sdk/Page.antt =====
-- ios-sdk/sandstorm_ios/sdk/page.py
use sandstorm_ios_driver.Prelude.{
  ℕ, String, Bool, true, false, not, Option, none, some, List, [], ◌∷◌, if◌then◌else◌,
}
use sandstorm_ios_driver.Prelude.Int.{ℤ}
use sandstorm_ios_driver.Prelude.Text.{Text, is_empty}
use sandstorm_ios_driver.Python.Json.{
  Json, bool, int, float, str, arr, obj, Fields, end, field, field_if,
}
use sandstorm_ios_driver.Python.Exception.{Except, ok, err, Action, ios_error, pure, bind, ◌>>=◌}
use sandstorm_ios_driver.Python.Runtime.{Runtime, truthy, lookup_or, to_text, text}
use sandstorm_ios_driver.Errors.{raised}
use sandstorm_ios_driver.Protocol.Selector.{
  Selector, Criteria, root, no_criteria, Value, by_strategy, to_wire,
}
use sandstorm_ios_driver.Transport.Client.{Client, lift}
use sandstorm_ios_driver.Sdk.Session.{session_invoke, session_result, seconds}
use sandstorm_ios_driver.Sdk.Application.{texts}
use sandstorm_ios_driver.Sdk.Locator.{Locator, order}

-- The bytes of a screenshot, and the file that they are written to, if any.
abbrev pub saved : Option Text → List ℕ → List ℕ × List (Text × List ℕ)
saved none bytes = (bytes, [])
saved (some path) bytes = (bytes, (path, bytes) ∷ [])

pub record Page (F : Type 0) : Type 0 where
  pub default_timeout : F

module _ {F : Type 0} where
  unfoldable pub set_default_timeout : Page F → F → Page F
  set_default_timeout p t = record p { default_timeout = t }

  -- `locator(**criteria)`
  unfoldable pub locator : Page F → Criteria → Locator F
  locator p c = record { selector = root c; timeout = p.default_timeout }

  unfoldable pub get_by_id : Page F → Text → Locator F
  unfolding locator
  get_by_id p identifier = locator p (record no_criteria { identifier = some identifier })

  unfoldable pub get_by_text : Page F → Text → Bool → Locator F
  unfolding locator
  get_by_text p words exact = locator p (record no_criteria { text = some words; exact = exact })

  unfoldable pub get_by_label : Page F → Text → Bool → Locator F
  unfolding locator
  get_by_label p label exact = locator p (record no_criteria { label = some label; exact = exact })

  unfoldable pub get_by_type : Page F → Text → Locator F
  unfolding locator
  get_by_type p element_type = locator p (record no_criteria { type = some element_type })

  unfoldable pub get_by_predicate : Page F → Text → Locator F
  unfolding locator
  get_by_predicate p predicate = locator p (record no_criteria { predicate = some predicate })

  abbrev pub point : F × F → Json F
  point (x, y) = obj (field "x" (float x) (field "y" (float y) end))

  abbrev pub from_to : F × F → F × F → F → Fields F
  from_to a b duration =
      field "from" (point a) (field "to" (point b) (field "duration" (float duration) end))

  -- `{"button": button} if button else {}`
  abbrev pub button_params : Option Text → Fields F
  button_params none = end
  button_params (some b) = if is_empty b then end else field "button" (str b) end

  abbrev pub float_if : Option F → Option (Json F)
  float_if none = none
  float_if (some x) = some (float x)

  abbrev pub wire_if : Option Selector → Option (Json F)
  wire_if none = none
  wire_if (some s) = some (to_wire s)

  abbrev pub orientation_params : Option Text → Fields F
  orientation_params none = end
  orientation_params (some v) = if is_empty v then end else field "orientation" (str v) end

  -- `if buttons: params["buttons"] = list(buttons)`
  abbrev pub button_list : List Text → Fields F
  button_list [] = end
  button_list (b ∷ bs) = field "buttons" (arr (texts (b ∷ bs))) end

module _ {F : Type 0} ⦃rt : Runtime F⦄ where
  unfoldable pub page_by_strategy : Page F → String → Value → Except F (Locator F)
  page_by_strategy p strategy v =
      by_strategy rt strategy v >>= λ s. ok (record { selector = s; timeout = p.default_timeout })

  unfoldable pub page_tap : F → F → Action F (Client F) (Unit {0})
  page_tap x y = order "gesture.tap" (field "at" (point (x, y)) end) none

  unfoldable pub page_long_press : F → F → F → Action F (Client F) (Unit {0})
  page_long_press x y duration =
      order "gesture.longPress" (field "at" (point (x, y)) (field "duration" (float duration) end))
        none

  unfoldable pub swipe : F × F → F × F → F → Action F (Client F) (Unit {0})
  swipe a b duration = order "gesture.swipe" (from_to a b duration) none

  unfoldable pub drag : F × F → F × F → F → Action F (Client F) (Unit {0})
  drag a b duration = order "gesture.drag" (from_to a b duration) none

  abbrev pub middle : F
  middle = rt.half rt.one_float

  -- The end points of a scroll. The third argument is the default duration 0.3 of `swipe`.
  unfoldable pub scroll_down : F → F → Action F (Client F) (Unit {0})
  scroll_down duration distance =
      swipe (middle, rt.add middle (rt.half distance)) (middle, rt.sub middle (rt.half distance))
        duration

  unfoldable pub scroll_up : F → F → Action F (Client F) (Unit {0})
  scroll_up duration distance =
      swipe (middle, rt.sub middle (rt.half distance)) (middle, rt.add middle (rt.half distance))
        duration

  abbrev screenshot_bytes : Option Text → Option (List ℕ) → Except F (List ℕ × List (Text × List ℕ))
  screenshot_bytes path none =
      err (raised ios_error "Agent returned a screenshot without its binary payload")
  screenshot_bytes path (some bytes) = ok (saved path bytes)

  unfoldable pub screenshot :
      Option Text → F → Option F → Bool → Action F (Client F) (List ℕ × List (Text × List ℕ))
  screenshot path scale quality app_only =
      bind
        (session_invoke "screen.screenshot"
          (field "scale" (float scale)
            (field "appOnly" (bool app_only) (field_if "quality" (float_if quality))))
          (some (seconds 60)) true)
        (λ response. lift (screenshot_bytes path response.binary))

  unfoldable pub snapshot : ℤ → Bool → Option Selector → F → Action F (Client F) (Json F)
  snapshot max_depth include_invisible selector timeout =
      session_result "screen.snapshot"
        (field "maxDepth" (int max_depth) (
          field "includeInvisible" (bool include_invisible)
            (field_if "selector" (wire_if selector))))
        (some timeout)

  unfoldable pub accept_alert : Option Text → Action F (Client F) (Unit {0})
  accept_alert button = order "alert.accept" (button_params button) none

  unfoldable pub dismiss_alert : Option Text → Action F (Client F) (Unit {0})
  dismiss_alert button = order "alert.dismiss" (button_params button) none

  unfoldable pub alert_text : Action F (Client F) Text
  alert_text =
      bind (session_result "alert.text" end none)
        (λ result. bind (lift (lookup_or result "text" (text ""))) (λ t. pure (to_text t)))

  unfoldable pub set_alert_policy : Text → List Text → Action F (Client F) (Unit {0})
  set_alert_policy policy buttons =
      order "session.setAlertPolicy" (field "policy" (str policy) (button_list buttons)) none

  unfoldable pub alert_info : Action F (Client F) (Json F)
  alert_info = session_result "alert.info" end none

  unfoldable pub alert_present : Action F (Client F) Bool
  unfolding alert_info
  alert_present =
      bind alert_info
        (λ result. bind (lift (lookup_or result "present" (bool false))) (λ p. pure (truthy p)))

  unfoldable pub handle_alert_if_present : Option Text → Bool → Action F (Client F) Bool
  handle_alert_if_present button accept = bind alert_present (λ present.
      if not present
      then pure false
      else bind (if accept then accept_alert button else dismiss_alert button) (λ _. pure true))

  unfoldable pub orientation : Option Text → Action F (Client F) Text
  orientation value =
      bind (session_result "device.orientation" (orientation_params value) none) (λ result.
        bind (lift (lookup_or result "orientation" (text "unknown"))) (λ t. pure (to_text t)))
