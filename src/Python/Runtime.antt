-- ===== src/Python/Runtime.antt =====
-- The built-in conversions, the arithmetic of floats and the JSON codec that the program calls.
-- They are Python's own, and enter as one record of functions, an instance argument.
use sandstorm_ios_driver.Prelude.{
  ℕ, Bool, true, false, not, ◌&&◌, String, Option, none, some, List, if◌then◌else◌,
}
use sandstorm_ios_driver.Prelude.Int.{ℤ, pos, int_eq}
use sandstorm_ios_driver.Prelude.Text.{Text, codes, is_empty}
use sandstorm_ios_driver.Python.Json.{
  Json, null, bool, int, float, str, arr, obj, nil, cons, end, field, get,
}
use sandstorm_ios_driver.Python.Exception.{
  Except, ok, err, type_error, attribute_error, value_error, ◌>>=◌,
}

pub record Runtime (F : Type 0) : Type 0 where
  pub zero_float : F
  pub one_float : F
  pub inf : F
  pub of_ℤ : ℤ → F
  pub add : F → F → F
  pub sub : F → F → F
  pub mul : F → F → F
  pub max : F → F → F
  pub half : F → F
  pub lt : F → F → Bool
  pub le : F → F → Bool
  -- `none` where Python raises ValueError (or OverflowError, for `int` of an infinite float):
  -- `int(x)` of a float and of a text, `float(x)` of a text, `str(x)` of what is no text
  pub truncate : F → Option ℤ
  pub int_of_text : Text → Option ℤ
  pub float_of_text : Text → Option F
  pub show : Json F → Text
  -- a float with so many decimals, as `f"{x:.4f}"`
  pub fixed : ℕ → F → Text
  -- `repr(x)` of a text
  pub repr : Text → Text
  -- `json.dumps(x, separators=(",", ":")).encode("utf-8")` and `json.loads`
  pub dumps : Json F → List ℕ
  pub loads : List ℕ → Option (Json F)

abbrev pub parsed : {F A : Type 0} → Option A → Except F A
parsed none = err value_error
parsed (some a) = ok a

module _ {F : Type 0} ⦃rt : Runtime F⦄ where
  abbrev pub eq_zero : F → Bool
  eq_zero x = rt.le x rt.zero_float && rt.le rt.zero_float x

  -- `bool(x)`
  unfoldable pub truthy : Json F → Bool
  truthy null = false
  truthy (bool b) = b
  truthy (int i) = not (int_eq i (pos 0))
  truthy (float x) = not (eq_zero x)
  truthy (str s) = not (is_empty s)
  truthy (arr nil) = false
  truthy (arr (cons x xs)) = true
  truthy (obj end) = false
  truthy (obj (field k v d)) = true

  -- `x or default`, of a value that `get` may not find
  abbrev pub or_else : Option (Json F) → Json F → Json F
  or_else none d = d
  or_else (some x) d = if truthy x then x else d

  -- `x or default`, of a value at hand
  abbrev pub or_json : Json F → Json F → Json F
  or_json x d = if truthy x then x else d

  -- `m.get(key)` of any value: only a dict has the method.
  unfoldable pub lookup : Json F → String → Except F (Option (Json F))
  lookup (obj d) k = ok (get k d)
  lookup null k = err attribute_error
  lookup (bool b) k = err attribute_error
  lookup (int i) k = err attribute_error
  lookup (float x) k = err attribute_error
  lookup (str s) k = err attribute_error
  lookup (arr xs) k = err attribute_error

  abbrev pub default : Json F → Option (Json F) → Json F
  default d none = d
  default d (some x) = x

  -- `m.get(key, default)`
  abbrev pub lookup_or : Json F → String → Json F → Except F (Json F)
  lookup_or m k d = lookup m k >>= λ o. ok (default d o)

  -- `int(x)`
  unfoldable pub to_int : Json F → Except F ℤ
  to_int null = err type_error
  to_int (bool true) = ok (pos 1)
  to_int (bool false) = ok (pos 0)
  to_int (int i) = ok i
  to_int (float x) = parsed (rt.truncate x)
  to_int (str s) = parsed (rt.int_of_text s)
  to_int (arr xs) = err type_error
  to_int (obj d) = err type_error

  -- `float(x)`
  unfoldable pub to_float : Json F → Except F F
  to_float null = err type_error
  to_float (bool true) = ok rt.one_float
  to_float (bool false) = ok rt.zero_float
  to_float (int i) = ok (rt.of_ℤ i)
  to_float (float x) = ok x
  to_float (str s) = parsed (rt.float_of_text s)
  to_float (arr xs) = err type_error
  to_float (obj d) = err type_error

  -- `str(x)`
  unfoldable pub to_text : Json F → Text
  to_text (str s) = s
  to_text null = codes "None"
  to_text (bool true) = codes "True"
  to_text (bool false) = codes "False"
  to_text (int i) = rt.show (int i)
  to_text (float x) = rt.show (float x)
  to_text (arr xs) = rt.show (arr xs)
  to_text (obj d) = rt.show (obj d)

abbrev pub text : {F : Type 0} → String → Json F
text s = str (codes s)
