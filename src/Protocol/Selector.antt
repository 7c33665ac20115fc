-- ===== src/Protocol/Selector.antt =====
-- ios-sdk/sandstorm_ios/protocol/selector.py: element selectors and their wire form.
pub mod Wire
use text.Mathlib.Text.{◌==◌}
use sandstorm_ios_driver.Prelude.{
  ℕ, String, Bool, true, false, ◌||◌, Option, none, some, List, [], ◌∷◌, ◌++◌, if◌then◌else◌,
}
use sandstorm_ios_driver.Prelude.Int.{ℤ}
use sandstorm_ios_driver.Prelude.Text.{Text, codes, join, is_empty}
use sandstorm_ios_driver.Python.Json.{
  Json, bool, int, str, obj, Fields, end, field, field_if, then_fields,
}
use sandstorm_ios_driver.Python.Exception.{Except, ok, err, value_error, ◌>>=◌}
use sandstorm_ios_driver.Python.Runtime.{Runtime, parsed}

abbrev pub supported_strategies : List String
supported_strategies =
    "accessibilityId" ∷ "identifier" ∷ "label" ∷ "text" ∷ "type" ∷ "predicate" ∷ "index" ∷ []

-- The fields of a selector but its parent.
pub record Criteria : Type 0 where
  pub type : Option Text
  pub identifier : Option Text
  pub label : Option Text
  pub text : Option Text
  pub value : Option Text
  pub predicate : Option Text
  pub index : Option ℤ
  pub exact : Bool

-- A selector without a parent, and one among the descendants of its parent.
pub data Selector : Type 0 where
  root : Criteria → Selector
  within : Selector → Criteria → Selector

abbrev pub no_criteria : Criteria
no_criteria = record {
  type = none;
  identifier = none;
  label = none;
  text = none;
  value = none;
  predicate = none;
  index = none;
  exact = true;
}

unfoldable pub criteria : Selector → Criteria
criteria (root c) = c
criteria (within p c) = c

-- `Selector(parent=self, …)`
unfoldable pub child : Selector → Criteria → Selector
child s c = within s c

-- `replace(self, index=index)`
unfoldable pub with_index : Selector → ℤ → Selector
with_index (root c) i = root (record c { index = some i })
with_index (within p c) i = within p (record c { index = some i })

-- The second argument of `by_strategy`.
pub data Value : Type 0 where
  words : Text → Value
  number : ℤ → Value

-- `text or "<empty>"`
abbrev pub or_empty : Text → Text
or_empty t = if is_empty t then codes "<empty>" else t

module _ {F : Type 0} (rt : Runtime F) where
  value_text : Value → Text
  value_text (words t) = t
  value_text (number i) = rt.show (int i)

  value_int : Value → Except F ℤ
  value_int (words t) = parsed (rt.int_of_text t)
  value_int (number i) = ok i

  unfoldable pub by_strategy : String → Value → Except F Selector
  unfolding value_text value_int
  by_strategy strategy v =
      if strategy == "accessibilityId" || strategy == "identifier"
      then ok (root (record no_criteria { identifier = some (value_text v) }))
      else if strategy == "label"
      then ok (root (record no_criteria { label = some (value_text v) }))
      else if strategy == "text"
      then ok (root (record no_criteria { text = some (value_text v) }))
      else if strategy == "type"
      then ok (root (record no_criteria { type = some (value_text v) }))
      else if strategy == "predicate"
      then ok (root (record no_criteria { predicate = some (value_text v) }))
      else if strategy == "index"
      then (value_int v >>= λ i. ok (root (record no_criteria { index = some i })))
      else err value_error

  -- The parts `name=value!r` of `describe`.
  abbrev pub part : String → Option Text → List Text
  part name none = []
  part name (some t) = (codes name ++ (codes "=" ++ rt.repr t)) ∷ []

  abbrev pub index_part : Option ℤ → List Text
  index_part none = []
  index_part (some i) = (codes "index=" ++ rt.show (int i)) ∷ []

  abbrev pub parts : Criteria → List Text
  parts c =
      part "type" c.type
      ++ (part "identifier" c.identifier
          ++ (part "label" c.label
              ++ (part "text" c.text
                  ++ (part "value" c.value
                      ++ (part "predicate" c.predicate ++ index_part c.index)))))

  unfoldable pub describe : Selector → Text
  describe (root c) = or_empty (join (codes ", ") (parts c))
  describe (within p c) =
      or_empty
        (join (codes ", ") (parts c ++ ((codes "parent=(" ++ (describe p ++ codes ")")) ∷ [])))

module _ {F : Type 0} where
  abbrev pub text_if : Option Text → Option (Json F)
  text_if none = none
  text_if (some t) = some (str t)

  abbrev pub int_if : Option ℤ → Option (Json F)
  int_if none = none
  int_if (some i) = some (int i)

  -- The entries of a wire payload but the parent's, in the order in which they are added.
  unfoldable pub wire_fields : Criteria → Fields F → Fields F
  wire_fields c rest = field "exact" (bool c.exact) (
      then_fields (field_if "type" (text_if c.type)) (
        then_fields (field_if "identifier" (text_if c.identifier)) (
          then_fields (field_if "label" (text_if c.label)) (
            then_fields (field_if "text" (text_if c.text)) (
              then_fields (field_if "value_" (text_if c.value)) (
                then_fields (field_if "predicate" (text_if c.predicate))
                  (then_fields (field_if "index" (int_if c.index)) rest)))))))

  unfoldable pub to_wire : Selector → Json F
  unfolding wire_fields
  to_wire (root c) = obj (wire_fields c end)
  to_wire (within p c) = obj (wire_fields c (field "parent" (to_wire p) end))
