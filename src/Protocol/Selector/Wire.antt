-- ===== src/Protocol/Selector/Wire.antt =====
-- The wire form of a selector keeps every criterion and the parent.

use sandstorm_ios_driver.Prelude.{◌≡◌, refl, ap, ap₂, ◌∙◌, sym, Option, none, some, arith}
use sandstorm_ios_driver.Prelude.Int.{ℤ}
use sandstorm_ios_driver.Prelude.Text.{Text}
use sandstorm_ios_driver.Python.Json.{Json, bool, obj, Fields, end, field, get}
use sandstorm_ios_driver.Protocol.Selector.{
  Criteria, Selector, root, within, text_if, int_if, wire_fields, to_wire, criteria,
}

module _ {F : Type 0} where
  -- The entries of the payload, one for each criterion that is given.
  pub record Shows (d : Fields F) (c : Criteria) : Type 0 where
    pub exact : get "exact" d ≡ some (bool c.exact)
    pub type : get "type" d ≡ text_if c.type
    pub identifier : get "identifier" d ≡ text_if c.identifier
    pub label : get "label" d ≡ text_if c.label
    pub text : get "text" d ≡ text_if c.text
    pub value : get "value_" d ≡ text_if c.value
    pub predicate : get "predicate" d ≡ text_if c.predicate
    pub index : get "index" d ≡ int_if c.index

  -- The parent's payload, if any.
  abbrev pub parent_fields : Option (Json F) → Fields F
  parent_fields none = end
  parent_fields (some p) = field "parent" p end

  wire_fields-Shows :
      (c : Criteria) (p : Option (Json F)) → Shows (wire_fields c (parent_fields p)) c
  unfolding wire_fields get
  wire_fields-Shows c p = record {
    exact = refl;
    type = ground arith;
    identifier = ground arith;
    label = ground arith;
    text = ground arith;
    value = ground arith;
    predicate = ground arith;
    index = ground arith;
  }

  get-parent :
      (c : Criteria) (p : Option (Json F)) → get "parent" (wire_fields c (parent_fields p)) ≡ p
  unfolding wire_fields get
  get-parent c p = ground arith

  text_if_inj : (a b : Option Text) → text_if {F = F} a ≡ text_if b → a ≡ b
  text_if_inj a b h = ground arith

  int_if_inj : (a b : Option ℤ) → int_if {F = F} a ≡ int_if b → a ≡ b
  int_if_inj a b h = ground arith

  Shows-unique : {d : Fields F} (a b : Criteria) → Shows d a → Shows d b → a ≡ b
  Shows-unique a b h k =
      let e₁ : a.exact ≡ b.exact = cc (h.exact, k.exact) in
      let e₂ : a.type ≡ b.type = text_if_inj _ _ (sym h.type ∙ k.type) in
      let e₃ : a.identifier ≡ b.identifier = text_if_inj _ _ (sym h.identifier ∙ k.identifier) in
      let e₄ : a.label ≡ b.label = text_if_inj _ _ (sym h.label ∙ k.label) in
      let e₅ : a.text ≡ b.text = text_if_inj _ _ (sym h.text ∙ k.text) in
      let e₆ : a.value ≡ b.value = text_if_inj _ _ (sym h.value ∙ k.value) in
      let e₇ : a.predicate ≡ b.predicate = text_if_inj _ _ (sym h.predicate ∙ k.predicate) in
      let e₈ : a.index ≡ b.index = int_if_inj _ _ (sym h.index ∙ k.index) in
      λ i. record {
        type = e₂ i;
        identifier = e₃ i;
        label = e₄ i;
        text = e₅ i;
        value = e₆ i;
        predicate = e₇ i;
        index = e₈ i;
        exact = e₁ i;
      }

  abbrev pub parent_wire : Selector → Option (Json F)
  parent_wire (root c) = none
  parent_wire (within p c) = some (to_wire p)

  -- The payload, as the entries of the selector's own criteria and of its parent.
  to_wire_lem :
      (s : Selector) → to_wire s ≡ obj (wire_fields (criteria s) (parent_fields (parent_wire s)))
  unfolding to_wire criteria
  to_wire_lem (root c) = refl
  to_wire_lem (within p c) = refl

  obj_inj : (d e : Fields F) → obj d ≡ obj e → d ≡ e
  obj_inj d e h = cc

  same_parts :
      (s t : Selector)
      → to_wire {F = F} s ≡ to_wire t
      → (criteria s ≡ criteria t) × (parent_wire s ≡ parent_wire t)
  same_parts s t h =
      let d : Fields F = wire_fields (criteria s) (parent_fields (parent_wire s)) in
      let e : Fields F = wire_fields (criteria t) (parent_fields (parent_wire t)) in
      let same : d ≡ e = obj_inj d e (sym (to_wire_lem s) ∙ h ∙ to_wire_lem t) in
      (
        Shows-unique (criteria s) (criteria t) (wire_fields-Shows (criteria s) (parent_wire s))
            (rw same (wire_fields-Shows (criteria t) (parent_wire t))),
        sym (get-parent (criteria s) (parent_wire s))
            ∙ ap (get "parent") same
            ∙ get-parent (criteria t) (parent_wire t),
      )

  -- The payload holds an entry for each criterion that is given and for none that is not, and the
  -- payload of the parent.
  pub to_wire-Shows :
      (s : Selector)
      → (d : Fields F) × (to_wire s ≡ obj d)
        × Shows d (criteria s)
        × (get "parent" d ≡ parent_wire s)
  to_wire-Shows s = (
    wire_fields (criteria s) (parent_fields (parent_wire s)),
    to_wire_lem s,
    wire_fields-Shows (criteria s) (parent_wire s),
    get-parent (criteria s) (parent_wire s),
  )

  -- Two selectors with one payload are the same selector, parents included.
  pub to_wire-injective : (s t : Selector) → to_wire {F = F} s ≡ to_wire t → s ≡ t
  unfolding criteria
  to_wire-injective (root c) (root d) h = ap root (same_parts (root c) (root d) h).0
  to_wire-injective (root c) (within q d) h = absurd (cc ((same_parts (root c) (within q d) h).1))
  to_wire-injective (within p c) (root d) h = absurd (cc ((same_parts (within p c) (root d) h).1))
  to_wire-injective (within p c) (within q d) h =
      let (own, parent) = same_parts (within p c) (within q d) h in
      ap₂ within (to_wire-injective p q (cc (parent))) own
