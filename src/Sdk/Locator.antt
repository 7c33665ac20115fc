-- ===== src/Sdk/Locator.antt =====
-- ios-sdk/sandstorm_ios/sdk/locator.py
use sandstorm_ios_driver.Prelude.{
  String, Bool, true, false, Option, none, some, List, [], ◌∷◌, if◌then◌else◌,
}
use sandstorm_ios_driver.Prelude.Int.{ℤ, pos}
use sandstorm_ios_driver.Prelude.Text.{Text, is_empty}
use sandstorm_ios_driver.Python.Json.{
  Json, null, bool, int, float, str, arr, obj, Items, nil, cons, Fields, end, field, then_fields,
}
use sandstorm_ios_driver.Python.Exception.{
  Except, ok, err, Action, attribute_error, type_error, element_not_found, pure, bind, ◌>>=◌,
}
use sandstorm_ios_driver.Python.Runtime.{
  Runtime, truthy, lookup, lookup_or, or_else, or_json, to_int, to_float, to_text, text,
}
use sandstorm_ios_driver.Errors.{raised}
use sandstorm_ios_driver.Protocol.Selector.{Selector, Criteria, child, with_index, to_wire}
use sandstorm_ios_driver.Transport.Client.{Client, lift}
use sandstorm_ios_driver.Sdk.Session.{session_invoke, session_result, seconds}

pub record Frame (F : Type 0) : Type 0 where
  pub x : F
  pub y : F
  pub width : F
  pub height : F

-- `value`, `placeholder` and `visible` are as the agent sent them, null where it did not.
pub record ElementAttributes (F : Type 0) : Type 0 where
  pub is_there : Bool
  pub type : Text
  pub identifier : Text
  pub label : Text
  pub value : Json F
  pub title : Text
  pub placeholder : Json F
  pub enabled : Bool
  pub selected : Bool
  pub visible : Json F
  pub frame : Frame F

pub record Locator (F : Type 0) : Type 0 where
  pub selector : Selector
  pub timeout : F

pub data WaitState : Type 0 where
  exists not_exists visible not_visible enabled : WaitState

abbrev pub state_name : WaitState → String
state_name WaitState.exists = "exists"
state_name WaitState.not_exists = "not_exists"
state_name WaitState.visible = "visible"
state_name WaitState.not_visible = "not_visible"
state_name WaitState.enabled = "enabled"

abbrev pub or_text : Text → Text → Text
or_text s t = if is_empty s then t else s

module _ {F : Type 0} where
  unfoldable pub nth : Locator F → ℤ → Locator F
  nth l i = record l { selector = with_index l.selector i }

  unfoldable pub first : Locator F → Locator F
  unfolding nth
  first l = nth l (pos 0)

  -- `locator(**criteria)`
  unfoldable pub scoped : Locator F → Criteria → Locator F
  scoped l c = record l { selector = child l.selector c }

  unfoldable pub with_timeout : Locator F → F → Locator F
  with_timeout l t = record l { timeout = t }

  unfoldable pub resolve_timeout : Locator F → Option F → F
  resolve_timeout l none = l.timeout
  resolve_timeout l (some t) = t

  abbrev pub selector_and : Locator F → Fields F → Fields F
  selector_and l rest = field "selector" (to_wire l.selector) rest

  abbrev pub timed : Locator F → Option F → Fields F → Fields F
  unfolding resolve_timeout
  timed l timeout extra =
      selector_and l (then_fields extra (field "timeout" (float (resolve_timeout l timeout)) end))

module _ {F : Type 0} ⦃rt : Runtime F⦄ where
  unfoldable pub frame_from_wire : Json F → Except F (Frame F)
  frame_from_wire payload = lookup_or payload "x" (float rt.zero_float) >>= λ x.
      to_float x >>= λ fx. lookup_or payload "y" (float rt.zero_float) >>= λ y. to_float y >>= λ fy.
      lookup_or payload "width" (float rt.zero_float) >>= λ w. to_float w >>= λ fw.
      lookup_or payload "height" (float rt.zero_float) >>= λ h.
      to_float h >>= λ fh. ok (record { x = fx; y = fy; width = fw; height = fh })

  unfoldable pub center : Frame F → F × F
  center f = (rt.add f.x (rt.half f.width), rt.add f.y (rt.half f.height))

  unfoldable pub attributes_from_wire : Json F → Except F (ElementAttributes F)
  attributes_from_wire payload = lookup_or payload "exists" (bool false) >>= λ there.
      lookup_or payload "type" (text "") >>= λ type.
      lookup_or payload "identifier" (text "") >>= λ identifier.
      lookup_or payload "label" (text "") >>= λ label. lookup_or payload "value" null >>= λ value.
      lookup_or payload "title" (text "") >>= λ title.
      lookup_or payload "placeholder" null >>= λ placeholder.
      lookup_or payload "enabled" (bool false) >>= λ on.
      lookup_or payload "selected" (bool false) >>= λ chosen.
      lookup_or payload "visible" null >>= λ shown.
      lookup_or payload "hittable" shown >>= λ hittable. lookup payload "frame" >>= λ given.
      frame_from_wire (or_else given (obj end)) >>= λ frame. ok (record {
        is_there = truthy there;
        type = to_text type;
        identifier = to_text identifier;
        label = to_text label;
        value = value;
        title = to_text title;
        placeholder = placeholder;
        enabled = truthy on;
        selected = truthy chosen;
        visible = hittable;
        frame = frame;
      })

  -- `exists`: a query of the agent, with the wait 0.0 unless another is given
  unfoldable pub is_present : Locator F → F → Action F (Client F) Bool
  is_present l timeout =
      bind
        (session_result "element.exists" (selector_and l (field "timeout" (float timeout) end))
          none)
        (λ result.
          bind (lift (lookup_or result "exists" (bool false))) (λ there. pure (truthy there)))

  abbrev pub find_all : Locator F → ℤ → Action F (Client F) (Json F)
  find_all l limit =
      session_result "element.findAll" (selector_and l (field "limit" (int limit) end)) none

  unfoldable pub count : Locator F → ℤ → Action F (Client F) ℤ
  count l limit =
      bind (find_all l limit)
        (λ result. bind (lift (lookup_or result "count" (int (pos 0)))) (λ n. lift (to_int n)))

  unfoldable pub all_attributes : Items F → Except F (List (ElementAttributes F))
  all_attributes nil = ok []
  all_attributes (cons x xs) =
      attributes_from_wire x >>= λ a. all_attributes xs >>= λ rest. ok (a ∷ rest)

  -- `for item in x`: the characters of a text and the keys of a dict have no `get`.
  unfoldable pub elements : Json F → Except F (List (ElementAttributes F))
  unfolding all_attributes
  elements (arr xs) = all_attributes xs
  elements (str []) = ok []
  elements (str (c ∷ s)) = err attribute_error
  elements (obj end) = ok []
  elements (obj (field k v d)) = err attribute_error
  elements _ = err type_error

  unfoldable pub all_matches : Locator F → ℤ → Action F (Client F) (List (ElementAttributes F))
  all_matches l limit = bind (find_all l limit) (λ result.
      bind (lift (lookup_or result "elements" (arr nil))) (λ items. lift (elements items)))

  unfoldable pub attributes : Locator F → Option F → Action F (Client F) (ElementAttributes F)
  attributes l timeout =
      bind (session_result "element.getAttributes" (timed l timeout end) none)
        (λ result. lift (attributes_from_wire result))

  -- `attributes.label or str(attributes.value or "") or attributes.title`
  unfoldable pub shown_text : ElementAttributes F → Text
  shown_text a = or_text a.label (or_text (to_text (or_json a.value (str []))) a.title)

  unfoldable pub text_content : Locator F → Action F (Client F) Text
  text_content l = bind (attributes l none) (λ a. pure (shown_text a))

  unfoldable pub is_visible : Locator F → Action F (Client F) Bool
  is_visible l = bind (attributes l none) (λ a. pure (truthy a.visible))

  unfoldable pub is_enabled : Locator F → Action F (Client F) Bool
  is_enabled l = bind (attributes l none) (λ a. pure a.enabled)

  -- A command whose response is dropped.
  abbrev pub order : String → Fields F → Option F → Action F (Client F) (Unit {0})
  order method params timeout = bind (session_invoke method params timeout true) (λ _. pure tt)

  unfoldable pub tap : Locator F → Option F → Action F (Client F) (Unit {0})
  tap l timeout = order "element.tap" (timed l timeout end) none

  unfoldable pub long_press : Locator F → F → Option F → Action F (Client F) (Unit {0})
  long_press l duration timeout =
      order "element.longPress" (timed l timeout (field "duration" (float duration) end)) none

  unfoldable pub fill : Locator F → Text → Option F → Action F (Client F) (Unit {0})
  fill l words timeout =
      order "element.typeText"
        (timed l timeout (field "text" (str words) (field "clear" (bool true) end))) none

  unfoldable pub type_text : Locator F → Text → Option F → Action F (Client F) (Unit {0})
  type_text l words timeout =
      order "element.typeText"
        (timed l timeout (field "text" (str words) (field "clear" (bool false) end))) none

  unfoldable pub clear : Locator F → Option F → Action F (Client F) (Unit {0})
  clear l timeout = order "element.clear" (timed l timeout end) none

  unfoldable pub wait_for : Locator F → WaitState → Option F → Action F (Client F) (Unit {0})
  unfolding resolve_timeout
  wait_for l state timeout =
      order "element.waitFor" (timed l timeout (field "state" (text (state_name state)) end))
        (some (rt.add (resolve_timeout l timeout) (seconds 10)))

  abbrev existing : ElementAttributes F → Except F (ElementAttributes F)
  existing a = if a.is_there then ok a else err (raised element_not_found "Element not found")

  unfoldable pub require : Locator F → Action F (Client F) (ElementAttributes F)
  require l = bind (attributes l none) (λ a. lift (existing a))
