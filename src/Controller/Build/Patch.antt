-- ===== src/Controller/Build/Patch.antt =====
-- What `patch_xctestrun` leaves in the file.
use sandstorm_ios_driver.Prelude.{
  ◌≡◌, refl, ◌∙◌, ◌⊎◌, String, Bool, true, false, Bool-cases, inl, inr, Option, none, some, List,
  [], ◌∷◌, arith, if◌then◌else◌,
}
use sandstorm_ios_driver.Prelude.Int.{pos}
use sandstorm_ios_driver.Prelude.Text.{Text}
use sandstorm_ios_driver.Python.Json.{
  Json, null, bool, int, float, str, arr, obj, Fields, end, field, get,
}
use sandstorm_ios_driver.Python.Exception.{Except-cases, ok, ◌>>=◌}
use sandstorm_ios_driver.Python.Runtime.{Runtime, or_else}
use sandstorm_ios_driver.Sdk.Device.{put}
use sandstorm_ios_driver.Controller.Build.Plist.{
  with_all, dict_of, patched, patch_fields, skips, patch_value, patch_flat,
}
use mathlib.Core.Path.{subst}
use text.Mathlib.Text.{◌==◌ as str_eq}
use text.Mathlib.TextEquality.{eq_iff}

module _ {F : Type 0} where
  -- The key that was put.
  pub get-put_same :
      (j k : String) (v : Json F) (d : Fields F) → str_eq j k ≡ true → get k (put j v d) ≡ some v
  unfolding get put
  get-put_same j k v end h = rw h refl
  get-put_same j k v (field i w d) h = elim (Bool-cases (str_eq i j)) [
    | inl same ↦ ground (arith, same, (eq_iff i j).0 same, h)
    | inr other ↦ ground (arith, other, (eq_iff j k).0 h, get-put_same j k v d h)
  ]

  -- A key that was not put.
  pub get-put_other :
      (j k : String) (v : Json F) (d : Fields F) → str_eq j k ≡ false → get k (put j v d) ≡ get k d
  unfolding get put
  get-put_other j k v end h = rw h refl
  get-put_other j k v (field i w d) h = elim (Bool-cases (str_eq i j)) [
    | inl same ↦ ground (arith, same, (eq_iff i j).0 same, h)
    | inr other ↦ ground (arith, other, get-put_other j k v d h)
  ]

-- The last value that the list gives the variable.
abbrev pub assigned : String → List (String × Text) → Option Text
assigned k [] = none
assigned k ((j, v) ∷ rest) = later (assigned k rest)
  where
    later : Option Text → Option Text
    later (some u) = some u
    later none = if str_eq j k then some v else none

module _ {F : Type 0} where
  abbrev pub assigned_or : Option Text → Option (Json F) → Option (Json F)
  assigned_or none before = before
  assigned_or (some v) before = some (str v)

  get-with_all :
      (k : String) (environment : List (String × Text)) (e : Fields F)
      → get k (with_all environment e) ≡ assigned_or (assigned k environment) (get k e)
  unfolding with_all
  get-with_all k [] e = refl
  get-with_all k ((j, v) ∷ rest) e = elim (Bool-cases (str_eq j k)) [
    | inl same ↦
        ground (arith, same, get-with_all k rest (put j (str v) e), get-put_same j k (str v) e same)
    | inr other ↦
        ground
          (arith, other, get-with_all k rest (put j (str v) e), get-put_other j k (str v) e other)
  ]

module _ {F : Type 0} ⦃rt : Runtime F⦄ (environment : List (String × Text)) where
  -- A target after the patch: its environment gives each variable the value of the list, or else the
  -- one it had; the timeouts are off; and every other entry is as before.
  pub record Injected (before after : Fields F) : Type 0 where
    pub known : Fields F
    pub was_known : dict_of (or_else (get "EnvironmentVariables" before) (obj end)) ≡ ok known
    pub given : Fields F
    pub is_given : get "EnvironmentVariables" after ≡ some (obj given)
    pub variables : (k : String) → get k given ≡ assigned_or (assigned k environment) (get k known)
    pub timeouts : get "TestTimeoutsEnabled" after ≡ some (bool false)
    pub allowance : get "DefaultTestExecutionTimeAllowance" after ≡ some (int (pos 0))
    pub others :
        (k : String)
        → str_eq "EnvironmentVariables" k ≡ false
        → str_eq "TestTimeoutsEnabled" k ≡ false
        → str_eq "DefaultTestExecutionTimeAllowance" k ≡ false
        → get k after ≡ get k before

  patched-Injected :
      (before e : Fields F)
      → dict_of (or_else (get "EnvironmentVariables" before) (obj end)) ≡ ok e
      → Injected before (patched environment before e)
  patched-Injected before e was = record {
    known = e;
    was_known = was;
    given = with_all environment e;
    is_given =
        get-put_other "DefaultTestExecutionTimeAllowance" "EnvironmentVariables" _ _ refl
        ∙ get-put_other "TestTimeoutsEnabled" "EnvironmentVariables" _ _ refl
        ∙ get-put_same "EnvironmentVariables" "EnvironmentVariables" _ before refl;
    variables = λ k. get-with_all k environment e;
    timeouts =
        get-put_other "DefaultTestExecutionTimeAllowance" "TestTimeoutsEnabled" _ _ refl
        ∙ get-put_same "TestTimeoutsEnabled" "TestTimeoutsEnabled" _ _ refl;
    allowance =
        get-put_same "DefaultTestExecutionTimeAllowance" "DefaultTestExecutionTimeAllowance" _ _
          refl;
    others = λ k e t d.
        get-put_other "DefaultTestExecutionTimeAllowance" k _ _ d
        ∙ get-put_other "TestTimeoutsEnabled" k _ _ t
        ∙ get-put_other "EnvironmentVariables" k _ before e;
  }

  pub patch_fields-Injected :
      (before after : Fields F) → patch_fields environment before ≡ ok after → Injected before after
  unfolding patch_fields
  patch_fields-Injected before after h =
      elim (Except-cases (dict_of (or_else (get "EnvironmentVariables" before) (obj end)))) [
        | inl (e, was) ↦
            subst (Injected before) (ground (arith, h, was)) (patched-Injected before e was)
        | inr (x, raised) ↦ absurd (ground (arith, h, raised))
      ]

  abbrev pub Patches : Bool → Option (Json F) → Option (Json F) → Type 0
  Patches skip (some (obj before)) after =
      (skip ≡ true) × (after ≡ some (obj before))
      ⊎ (skip ≡ false) × ((d : Fields F) × (after ≡ some (obj d)) × Injected before d)
  Patches skip before after = after ≡ before

  value-Patches :
      (key : String) (v w : Json F)
      → patch_value environment key v ≡ ok w
      → Patches (skips key) (some v) (some w)
  unfolding patch_value
  value-Patches key (obj before) w h = by_skip (skips key) refl h
    where
      by_skip :
          (b : Bool)
          → skips key ≡ b
          → (if b then ok (obj before) else (patch_fields environment before >>= λ d. ok (obj d)))
            ≡ ok w
          → Patches b (some (obj before)) (some w)
      by_skip true k h = inl (refl, ground (arith, h))
      by_skip false k h = elim (Except-cases (patch_fields environment before)) [
        | inl (d, done) ↦
            inr (refl, (d, ground (arith, h, done), patch_fields-Injected before d done))
        | inr (x, raised) ↦ absurd (ground (arith, h, raised))
      ]
  value-Patches key null w h = ground (arith, h)
  value-Patches key (bool b) w h = ground (arith, h)
  value-Patches key (int i) w h = ground (arith, h)
  value-Patches key (float x) w h = ground (arith, h)
  value-Patches key (str t) w h = ground (arith, h)
  value-Patches key (arr xs) w h = ground (arith, h)

  field-Patches :
      (j key : String) (v w : Json F) (rest d : Fields F)
      → Patches (skips j) (some v) (some w)
      → Patches (skips key) (get key rest) (get key d)
      → Patches (skips key) (get key (field j v rest)) (get key (field j w d))
  unfolding get
  field-Patches j key v w rest d one others = elim (Bool-cases (str_eq j key)) [
    | inl same ↦
        rw same (subst (λ k. Patches (skips k) (some v) (some w)) ((eq_iff j key).0 same) one)
    | inr other ↦ rw other others
  ]

  pub flat-Patches :
      (payload after : Fields F)
      → patch_flat environment payload ≡ ok after
      → (key : String) → Patches (skips key) (get key payload) (get key after)
  unfolding patch_flat get
  flat-Patches end after h key =
      let is_end : end ≡ after = ground (arith, h) in subst (λ d. get key d ≡ none) is_end refl
  flat-Patches (field j v rest) after h key = elim (Except-cases (patch_value environment j v)) [
    | inl (w, one) ↦ elim (Except-cases (patch_flat environment rest)) [
      | inl (d, others) ↦
          let is_field : field j w d ≡ after = ground (arith, h, one, others) in
          subst (λ a. Patches (skips key) (get key (field j v rest)) (get key a)) is_field
            (field-Patches j key v w rest d (value-Patches j v w one)
              (flat-Patches rest d others key))
      | inr (x, others) ↦ absurd (ground (arith, h, one, others))
    ]
    | inr (x, one) ↦ absurd (ground (arith, h, one))
  ]
