-- ===== src/Controller/Setup.antt =====
-- The checks and choices of `sandstorm ios setup`: ios-controller/sandstorm_controller/build.py and
-- cli.py.
use sandstorm_ios_driver.Prelude.{
  String, Bool, true, false, not, ◌&&◌, ◌||◌, Option, none, some, List, [], ◌∷◌, ◌++◌, ltb,
  if◌then◌else◌,
}
use sandstorm_ios_driver.Prelude.Int.{ℤ, pos, negsuc}
use sandstorm_ios_driver.Prelude.Text.{Text, codes, has_part, before_char, is_empty}
use sandstorm_ios_driver.Python.Exception.{Except, ok, err, setup_error}
use sandstorm_ios_driver.Python.Runtime.{Runtime}
use sandstorm_ios_driver.Errors.{raised}
use sandstorm_ios_driver.Controller.Devices.{DeviceRecord, is_simulator}
use sandstorm_ios_driver.Controller.Profiles.{ProvisioningProfile, agent_bundle_id_for_runner}

abbrev pub int_less : ℤ → ℤ → Bool
int_less (pos a) (pos b) = ltb a b
int_less (pos a) (negsuc b) = false
int_less (negsuc a) (pos b) = true
int_less (negsuc a) (negsuc b) = ltb b a

module _ {F : Type 0} (rt : Runtime F) where
  -- `int(version.split(".")[0])`: 46 is the dot
  abbrev pub major : Text → Option ℤ
  major version = rt.int_of_text (before_char 46 version)

  abbrev too_new : Option ℤ → Option ℤ → Bool
  too_new (some sdk) (some device) = int_less sdk device
  too_new _ _ = false

  -- `verify_sdk_supports`, over the SDK's version and whether the check is to be skipped
  unfoldable pub verify_sdk_supports : Option Text → Bool → DeviceRecord → Except F (Unit {0})
  verify_sdk_supports none skip device = ok tt
  verify_sdk_supports (some sdk) skip device =
      if is_simulator device || is_empty sdk
      then ok tt
      else if too_new (major sdk) (major device.ios_version) && not skip
      then err (raised setup_error "This Xcode ships an older iOS SDK than the device runs")
      else ok tt

-- `_plan_bundle_ids`: the arguments, then the prefix, the agent's and the demo's identifier
abbrev pub or_option : Option Text → Option Text → Option Text
or_option none d = d
or_option (some t) d = if is_empty t then d else some t

abbrev pub is_given : Option Text → Bool
is_given none = false
is_given (some t) = not (is_empty t)

abbrev pub agent_from_profile : Option ProvisioningProfile → Option Text → Option Text → Option Text
agent_from_profile none agent prefix = agent
agent_from_profile (some p) agent prefix =
    if is_given agent || is_given prefix then agent else agent_bundle_id_for_runner p

abbrev pub under_prefix : Option Text → String → Option Text → Option Text
under_prefix none name id = id
under_prefix (some prefix) name id =
    if is_empty prefix then id else or_option id (some (prefix ++ codes name))

unfoldable pub plan_bundle_ids :
    Option ProvisioningProfile
    → Option Text
    → Option Text
    → Option Text
    → Option Text × Option Text × Option Text
plan_bundle_ids profile prefix agent demo = (
  prefix,
  under_prefix prefix ".sandstormagent" (agent_from_profile profile agent prefix),
  under_prefix prefix ".sandstormdemo" demo,
)

-- `configure_project`: the identifiers that are written, with the generator's own as defaults
abbrev pub prefixed_or : Option Text → String → Text → Text
prefixed_or none name default = default
prefixed_or (some prefix) name default = if is_empty prefix then default else prefix ++ codes name

abbrev pub chosen_id : Option Text → Option Text → String → Text → Text
chosen_id none prefix name default = prefixed_or prefix name default
chosen_id (some id) prefix name default =
    if is_empty id then prefixed_or prefix name default else id

unfoldable pub project_ids : Option Text → Option Text → Option Text → Text → Text → Text × Text
project_ids prefix demo agent demo_default agent_default = (
  chosen_id demo prefix ".sandstormdemo" demo_default,
  chosen_id agent prefix ".sandstormagent" agent_default,
)

-- `_diagnose_build_failure`: which of the three remedies are given
pub data Hint : Type 0 where
  no_account no_profile no_destination : Hint

unfoldable pub diagnose_build_failure : Text → List Hint
diagnose_build_failure output =
    (if has_part (codes "No Accounts") output || has_part (codes "missing Xcode-Token") output
      then no_account ∷ []
      else [])
    ++ ((if has_part (codes "No profiles for") output && not (has_part (codes "No Accounts") output)
          then no_profile ∷ []
          else [])
        ++ (if has_part (codes "Unable to find a destination matching") output
            then no_destination ∷ []
            else []))
