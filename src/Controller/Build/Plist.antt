-- ===== src/Controller/Build/Plist.antt =====
-- `patch_xctestrun` of ios-controller/sandstorm_controller/build.py, on the dictionary of the file,
-- whose values are those that JSON has.
use sandstorm_ios_driver.Prelude.{
  String, Bool, false, Option, none, some, List, [], ◌∷◌, if◌then◌else◌,
}
use sandstorm_ios_driver.Prelude.Int.{pos}
use sandstorm_ios_driver.Prelude.Text.{Text, codes, starts_with}
use sandstorm_ios_driver.Python.Json.{
  Json, bool, int, str, arr, obj, Items, nil, cons, Fields, end, field, get,
}
use sandstorm_ios_driver.Python.Exception.{Except, ok, err, attribute_error, type_error, ◌>>=◌}
use sandstorm_ios_driver.Python.Runtime.{Runtime, or_else}
use sandstorm_ios_driver.Sdk.Device.{put}

-- The layout of version 1: the keys whose values are left.
abbrev pub skips : String → Bool
skips key = starts_with (codes key) (codes "__")

module _ {F : Type 0} where
  -- `env.update(environment)`
  unfoldable pub with_all : List (String × Text) → Fields F → Fields F
  unfolding put
  with_all [] e = e
  with_all ((k, v) ∷ rest) e = with_all rest (put k (str v) e)

module _ {F : Type 0} ⦃rt : Runtime F⦄ where
  -- A value that is neither a dict nor falsy raises. So is it taken to do for a list of pairs, which
  -- `dict` would take; a plist with the variables as one is not modelled.
  abbrev pub dict_of : Json F → Except F (Fields F)
  dict_of (obj e) = ok e
  dict_of _ = err type_error

  abbrev pub patched : List (String × Text) → Fields F → Fields F → Fields F
  patched environment target e = put "DefaultTestExecutionTimeAllowance" (int (pos 0)) (
      put "TestTimeoutsEnabled" (bool false)
        (put "EnvironmentVariables" (obj (with_all environment e)) target))

  -- `patch_target`
  unfoldable pub patch_fields : List (String × Text) → Fields F → Except F (Fields F)
  patch_fields environment target =
      dict_of (or_else (get "EnvironmentVariables" target) (obj end)) >>= λ e.
      ok (patched environment target e)

  unfoldable pub patch_target : List (String × Text) → Json F → Except F (Json F)
  unfolding patch_fields
  patch_target environment (obj target) = patch_fields environment target >>= λ d. ok (obj d)
  patch_target environment _ = err attribute_error

  unfoldable pub patch_targets : List (String × Text) → Items F → Except F (Items F)
  unfolding patch_target
  patch_targets environment nil = ok nil
  patch_targets environment (cons target targets) = patch_target environment target >>= λ t.
      patch_targets environment targets >>= λ ts. ok (cons t ts)

  unfoldable pub patch_value : List (String × Text) → String → Json F → Except F (Json F)
  unfolding patch_fields
  patch_value environment key (obj target) =
      if skips key then ok (obj target) else (patch_fields environment target >>= λ d. ok (obj d))
  patch_value environment key v = ok v

  unfoldable pub patch_flat : List (String × Text) → Fields F → Except F (Fields F)
  unfolding patch_value
  patch_flat environment end = ok end
  patch_flat environment (field key value rest) = patch_value environment key value >>= λ v.
      patch_flat environment rest >>= λ d. ok (field key v d)

  -- The layout of version 2: the targets of each configuration.
  -- The loop over a value that is no list: an empty dict or text has no round, and another one has
  -- keys or characters, which are no dicts; any other value cannot be iterated.
  abbrev pub no_list : Json F → Except F (Unit {0})
  no_list (obj end) = ok tt
  no_list (obj (field k v d)) = err attribute_error
  no_list (str []) = ok tt
  no_list (str (c ∷ s)) = err attribute_error
  no_list _ = err type_error

  -- The list of targets is changed in place, where there is one.
  unfoldable pub patch_listed :
      List (String × Text) → Fields F → Option (Json F) → Except F (Fields F)
  unfolding patch_targets
  patch_listed environment configuration none = ok configuration
  patch_listed environment configuration (some (arr targets)) =
      patch_targets environment targets >>= λ ts. ok (put "TestTargets" (arr ts) configuration)
  patch_listed environment configuration (some v) = no_list v >>= λ u. ok configuration

  unfoldable pub patch_configuration : List (String × Text) → Json F → Except F (Json F)
  unfolding patch_listed
  patch_configuration environment (obj configuration) =
      patch_listed environment configuration (get "TestTargets" configuration) >>= λ d. ok (obj d)
  patch_configuration environment _ = err attribute_error

  unfoldable pub patch_configurations : List (String × Text) → Items F → Except F (Items F)
  unfolding patch_configuration
  patch_configurations environment nil = ok nil
  patch_configurations environment (cons c cs) = patch_configuration environment c >>= λ d.
      patch_configurations environment cs >>= λ ds. ok (cons d ds)

  unfoldable pub patch_by : List (String × Text) → Fields F → Option (Json F) → Except F (Fields F)
  unfolding patch_flat patch_configurations
  patch_by environment payload none = patch_flat environment payload
  patch_by environment payload (some (arr configurations)) =
      patch_configurations environment configurations >>= λ cs.
      ok (put "TestConfigurations" (arr cs) payload)
  patch_by environment payload (some v) = no_list v >>= λ u. ok payload

  unfoldable pub patch_xctestrun : List (String × Text) → Fields F → Except F (Fields F)
  unfolding patch_by
  patch_xctestrun environment payload =
      patch_by environment payload (get "TestConfigurations" payload)
