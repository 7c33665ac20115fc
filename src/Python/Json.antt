-- ===== src/Python/Json.antt =====
-- The values that `json.loads` yields. Floats are a parameter, as the kernel has none.
use sandstorm_ios_driver.Prelude.{String, ◌≡◌, refl, Bool, Option, none, some, arith, if◌then◌else◌}
use sandstorm_ios_driver.Prelude.Int.{ℤ}
use sandstorm_ios_driver.Prelude.Text.{Text}
use text.Mathlib.Text.{◌==◌}

mutual
  pub data Json (F : Type 0) : Type 0 where
    null : Json F
    bool : Bool → Json F
    int : ℤ → Json F
    float : F → Json F
    str : Text → Json F
    arr : Items F → Json F
    obj : Fields F → Json F

  pub data Items (F : Type 0) : Type 0 where
    nil : Items F
    cons : Json F → Items F → Items F

  pub data Fields (F : Type 0) : Type 0 where
    end : Fields F
    field : String → Json F → Fields F → Fields F

module _ {F : Type 0} where
  -- `d.get(key)`
  unfoldable pub get : String → Fields F → Option (Json F)
  get k end = none
  get k (field j v d) = if j == k then some v else get k d

  -- `d | e` on keys that `d` lacks: the entries of `e` behind those of `d`.
  abbrev pub then_fields : Fields F → Fields F → Fields F
  then_fields end e = e
  then_fields (field k v d) e = field k v (then_fields d e)

  -- The entry that `if x is not None: d[key] = x` adds.
  abbrev pub field_if : String → Option (Json F) → Fields F
  field_if k none = end
  field_if k (some v) = field k v end

  pub get-then_fields :
      (k : String) (d e : Fields F)
      → get k (then_fields d e) ≡ (elim (get k d) [ none ↦ get k e | some v ↦ some v ])
  unfolding get
  get-then_fields k end e = refl
  get-then_fields k (field j v d) e = ground (arith, get-then_fields k d e)
