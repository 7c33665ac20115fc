-- ===== src/Controller/Build/Layouts.antt =====
-- What `patch_xctestrun` leaves of a file, in either layout.
use mathlib.Core.Path.{subst}
use sandstorm_ios_driver.Prelude.{
  ◌≡◌, refl, String, false, Option, none, some, List, inl, inr, arith, ◌∷◌, ◌⊎◌, [],
}
use sandstorm_ios_driver.Prelude.Text.{Text}
use sandstorm_ios_driver.Python.Json.{
  Json, null, bool, int, float, str, arr, obj, Items, nil, cons, Fields, end, field, get,
}
use sandstorm_ios_driver.Python.Exception.{Except-cases, ok}
use sandstorm_ios_driver.Python.Runtime.{Runtime}
use sandstorm_ios_driver.Sdk.Device.{put}
use sandstorm_ios_driver.Controller.Build.Plist.{
  skips, patch_fields, patch_target, patch_targets, patch_listed, patch_configuration,
  patch_configurations, patch_by, patch_xctestrun,
}
use sandstorm_ios_driver.Controller.Build.Patch.{
  Injected, Patches, get-put_same, get-put_other, patch_fields-Injected, flat-Patches,
}
use text.Mathlib.Text.{◌==◌ as str_eq}

module _ {F : Type 0} where
  -- Every entry but this one is as before.
  abbrev pub Keeps : String → Fields F → Fields F → Type 0
  Keeps key before after = (k : String) → str_eq key k ≡ false → get k after ≡ get k before

  -- An empty dict or an empty text.
  abbrev pub IsHollow : Json F → Type 0
  IsHollow v = (v ≡ obj end) ⊎ (v ≡ str [])

module _ {F : Type 0} ⦃rt : Runtime F⦄ (environment : List (String × Text)) where
  -- Both are dicts, and the second is the first with the variables.
  abbrev pub Target : Json F → Json F → Type 0
  Target v w =
      (before : Fields F) × (after : Fields F) × (v ≡ obj before)
      × (w ≡ obj after)
      × Injected environment before after

  -- So are the targets of two lists, one by one.
  abbrev pub Targets : Items F → Items F → Type 0
  Targets nil after = after ≡ nil
  Targets (cons v vs) after =
      (w : Json F) × (ws : Items F) × (after ≡ cons w ws) × Target v w × Targets vs ws

  -- The list of targets of a configuration, if it has one; anything else that is patched without an
  -- error is an empty dict or text, and is left.
  abbrev pub Listed : Option (Json F) → Fields F → Fields F → Type 0
  Listed none before after = after ≡ before
  Listed (some (arr ts)) before after =
      (us : Items F) × (get "TestTargets" after ≡ some (arr us))
      × Targets ts us
      × Keeps "TestTargets" before after
  Listed (some t) before after = IsHollow t × (after ≡ before)

  abbrev pub Configuration : Json F → Json F → Type 0
  Configuration v w =
      (before : Fields F) × (after : Fields F) × (v ≡ obj before)
      × (w ≡ obj after)
      × Listed (get "TestTargets" before) before after

  abbrev pub Configurations : Items F → Items F → Type 0
  Configurations nil after = after ≡ nil
  Configurations (cons v vs) after =
      (w : Json F) × (ws : Items F) × (after ≡ cons w ws) × Configuration v w × Configurations vs ws

  -- The file: configurations with their targets, or the targets by their keys.
  abbrev pub Layout : Option (Json F) → Fields F → Fields F → Type 0
  Layout none before after =
      (key : String) → Patches environment (skips key) (get key before) (get key after)
  Layout (some (arr cs)) before after =
      (ds : Items F) × (get "TestConfigurations" after ≡ some (arr ds))
      × Configurations cs ds
      × Keeps "TestConfigurations" before after
  Layout (some v) before after = IsHollow v × (after ≡ before)

  patch_target-Target : (v w : Json F) → patch_target environment v ≡ ok w → Target v w
  unfolding patch_target
  patch_target-Target (obj before) w h = elim (Except-cases (patch_fields environment before)) [
    | inl (after, done) ↦ (
      before,
      after,
      refl,
      ground (arith, h, done),
      patch_fields-Injected environment before after done,
    )
    | inr (x, raised) ↦ absurd (ground (arith, h, raised))
  ]
  patch_target-Target null w h = absurd (ground (arith, h))
  patch_target-Target (bool b) w h = absurd (ground (arith, h))
  patch_target-Target (int i) w h = absurd (ground (arith, h))
  patch_target-Target (float x) w h = absurd (ground (arith, h))
  patch_target-Target (str s) w h = absurd (ground (arith, h))
  patch_target-Target (arr xs) w h = absurd (ground (arith, h))

  patch_targets-Targets : (vs ws : Items F) → patch_targets environment vs ≡ ok ws → Targets vs ws
  unfolding patch_targets
  patch_targets-Targets nil ws h = ground (arith, h)
  patch_targets-Targets (cons v vs) us h = elim (Except-cases (patch_target environment v)) [
    | inl (w, one) ↦ elim (Except-cases (patch_targets environment vs)) [
      | inl (ws, others) ↦ (
        w,
        ws,
        ground (arith, h, one, others),
        patch_target-Target v w one,
        patch_targets-Targets vs ws others,
      )
      | inr (x, others) ↦ absurd (ground (arith, h, one, others))
    ]
    | inr (x, one) ↦ absurd (ground (arith, h, one))
  ]

  patch_listed-Listed :
      (o : Option (Json F)) (before after : Fields F)
      → patch_listed environment before o ≡ ok after
      → Listed o before after
  unfolding patch_listed
  patch_listed-Listed none before after h = ground (arith, h)
  patch_listed-Listed (some (arr ts)) before after h =
      elim (Except-cases (patch_targets environment ts)) [
        | inl (us, done) ↦
            let is_put : put "TestTargets" (arr us) before ≡ after = ground (arith, h, done) in
            subst (λ a. Listed (some (arr ts)) before a) is_put
              (
                us,
                get-put_same "TestTargets" "TestTargets" (arr us) before refl,
                patch_targets-Targets ts us done,
                λ k e. get-put_other "TestTargets" k (arr us) before e,
              )
        | inr (x, raised) ↦ absurd (ground (arith, h, raised))
      ]
  patch_listed-Listed (some (obj end)) before after h = (inl refl, ground (arith, h))
  patch_listed-Listed (some (obj (field k v d))) before after h = absurd (ground (arith, h))
  patch_listed-Listed (some null) before after h = absurd (ground (arith, h))
  patch_listed-Listed (some (bool b)) before after h = absurd (ground (arith, h))
  patch_listed-Listed (some (int i)) before after h = absurd (ground (arith, h))
  patch_listed-Listed (some (float x)) before after h = absurd (ground (arith, h))
  patch_listed-Listed (some (str [])) before after h = (inr refl, ground (arith, h))
  patch_listed-Listed (some (str (c ∷ s))) before after h = absurd (ground (arith, h))

  patch_configuration-Configuration :
      (v w : Json F) → patch_configuration environment v ≡ ok w → Configuration v w
  unfolding patch_configuration
  patch_configuration-Configuration (obj before) w h =
      elim (Except-cases (patch_listed environment before (get "TestTargets" before))) [
        | inl (after, done) ↦ (
          before,
          after,
          refl,
          ground (arith, h, done),
          patch_listed-Listed (get "TestTargets" before) before after done,
        )
        | inr (x, raised) ↦ absurd (ground (arith, h, raised))
      ]
  patch_configuration-Configuration null w h = absurd (ground (arith, h))
  patch_configuration-Configuration (bool b) w h = absurd (ground (arith, h))
  patch_configuration-Configuration (int i) w h = absurd (ground (arith, h))
  patch_configuration-Configuration (float x) w h = absurd (ground (arith, h))
  patch_configuration-Configuration (str s) w h = absurd (ground (arith, h))
  patch_configuration-Configuration (arr xs) w h = absurd (ground (arith, h))

  patch_configurations-Configurations :
      (vs ws : Items F) → patch_configurations environment vs ≡ ok ws → Configurations vs ws
  unfolding patch_configurations
  patch_configurations-Configurations nil ws h = ground (arith, h)
  patch_configurations-Configurations (cons v vs) us h =
      elim (Except-cases (patch_configuration environment v)) [
        | inl (w, one) ↦ elim (Except-cases (patch_configurations environment vs)) [
          | inl (ws, others) ↦ (
            w,
            ws,
            ground (arith, h, one, others),
            patch_configuration-Configuration v w one,
            patch_configurations-Configurations vs ws others,
          )
          | inr (x, others) ↦ absurd (ground (arith, h, one, others))
        ]
        | inr (x, one) ↦ absurd (ground (arith, h, one))
      ]

  patch_by-Layout :
      (o : Option (Json F)) (before after : Fields F)
      → patch_by environment before o ≡ ok after
      → Layout o before after
  unfolding patch_by
  patch_by-Layout none before after h = flat-Patches environment before after h
  patch_by-Layout (some (arr cs)) before after h =
      elim (Except-cases (patch_configurations environment cs)) [
        | inl (ds, done) ↦
            let is_put : put "TestConfigurations" (arr ds) before ≡ after =
              ground (arith, h, done) in
            subst (λ a. Layout (some (arr cs)) before a) is_put
              (
                ds,
                get-put_same "TestConfigurations" "TestConfigurations" (arr ds) before refl,
                patch_configurations-Configurations cs ds done,
                λ k e. get-put_other "TestConfigurations" k (arr ds) before e,
              )
        | inr (x, raised) ↦ absurd (ground (arith, h, raised))
      ]
  patch_by-Layout (some (obj end)) before after h = (inl refl, ground (arith, h))
  patch_by-Layout (some (obj (field k v d))) before after h = absurd (ground (arith, h))
  patch_by-Layout (some null) before after h = absurd (ground (arith, h))
  patch_by-Layout (some (bool b)) before after h = absurd (ground (arith, h))
  patch_by-Layout (some (int i)) before after h = absurd (ground (arith, h))
  patch_by-Layout (some (float x)) before after h = absurd (ground (arith, h))
  patch_by-Layout (some (str [])) before after h = (inr refl, ground (arith, h))
  patch_by-Layout (some (str (c ∷ s))) before after h = absurd (ground (arith, h))

  -- If the patch raises nothing, each target of the file, that is each dict under a key that does not
  -- start with `__`, or where the file has test configurations each target of each of them, has every
  -- variable of the list at its last value, its other variables and entries as before, and no
  -- timeouts; and every other entry is as before.
  pub patch_xctestrun-Layout :
      (before after : Fields F)
      → patch_xctestrun environment before ≡ ok after
      → Layout (get "TestConfigurations" before) before after
  unfolding patch_xctestrun
  patch_xctestrun-Layout before after h =
      patch_by-Layout (get "TestConfigurations" before) before after h
