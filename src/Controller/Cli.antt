-- ===== src/Controller/Cli.antt =====
-- `sandstorm ios setup` and the exit codes of the commands: ios-controller/sandstorm_controller/cli.py.
-- What is found on the machine is given; a command yields its exit code, or raises, and what it did.
pub mod Refusals
use sandstorm_ios_driver.Prelude.{
  ℕ, String, Bool, true, false, not, ◌&&◌, ◌||◌, Option, none, some, List, [], ◌∷◌, ◌++◌,
  if◌then◌else◌,
}
use sandstorm_ios_driver.Prelude.Text.{Text}
use sandstorm_ios_driver.Python.Exception.{Except, ok, err, Exc, ios, Action, bind, ◌>>=◌}
use sandstorm_ios_driver.Python.Runtime.{Runtime}
use sandstorm_ios_driver.Sdk.Session.{agent_version, session_id}
use sandstorm_ios_driver.Sdk.Device.{
  Device, device_connect, device_disconnect, device_ping, info, with_session,
}
use sandstorm_ios_driver.Controller.Devices.{DeviceRecord, is_simulator}
use sandstorm_ios_driver.Controller.Profiles.{
  ProvisioningProfile, is_wildcard, signs_runner, find_profile,
}
use sandstorm_ios_driver.Controller.Setup.{or_option, is_given, plan_bundle_ids, project_ids}
use sandstorm_ios_driver.Controller.Build.{XcodeEnvironment, BuildResult}

pub record SetupArgs : Type 0 where
  pub team : Option Text
  pub profile : Option Text
  pub bundle_prefix : Option Text
  pub agent_bundle_id : Option Text
  pub demo_bundle_id : Option Text
  pub no_demo : Bool
  pub force : Bool

-- The arguments of `write_project`. Signing is manual or automatic.
pub record Settings : Type 0 where
  pub demo_bundle_id : Text
  pub agent_bundle_id : Text
  pub manual : Bool
  pub team : Option Text
  pub profile : Option Text
  pub include_demo : Bool

-- What a command did: it wrote the project, ran the build, with this style and team, and installed
-- the demo app.
pub data Effect : Type 0 where
  configured : Settings → Effect
  built : Bool → Option Text → Effect
  installed : Effect

abbrev pub Outcome : Type 0 → Type 0
Outcome F = Except F ℕ × List Effect

abbrev pub is_off : Option Bool → Bool
is_off (some false) = true
is_off _ = false

abbrev pub mode_or : Option Bool → Option Bool → Option Bool
mode_or none read = read
mode_or (some b) read = some b

-- Developer Mode is known to be off, by the record of the device or else by asking the device.
abbrev pub developer_off : DeviceRecord → Option Bool → Bool
developer_off device read = not (is_simulator device) && is_off (mode_or device.developer_mode read)

abbrev pub team_of : Option ProvisioningProfile → Option Text
team_of none = none
team_of (some p) = some p.team_id

abbrev pub name_of : Option ProvisioningProfile → Option Text
name_of none = none
name_of (some p) = some p.name

-- The demo app is left out as asked, or if the profile is explicit.
abbrev pub includes_demo : Bool → Option ProvisioningProfile → Bool
includes_demo no_demo none = not no_demo
includes_demo no_demo (some p) = not no_demo && is_wildcard p

abbrev pub settings_of : SetupArgs → Option ProvisioningProfile → Text × Text → Settings
settings_of args profile (demo, agent) = record {
  demo_bundle_id = demo;
  agent_bundle_id = agent;
  manual = is_given args.profile;
  team = or_option args.team (team_of profile);
  profile = name_of profile;
  include_demo = includes_demo args.no_demo profile;
}

-- `configure_project` with the identifiers of `_plan_bundle_ids`; the generator has its own defaults.
unfoldable pub planned : SetupArgs → Option ProvisioningProfile → Text → Text → Settings
planned args profile demo_default agent_default =
    let (prefix, agent, demo) =
      plan_bundle_ids profile args.bundle_prefix args.agent_bundle_id args.demo_bundle_id in
    settings_of args profile (project_ids prefix demo agent demo_default agent_default)

abbrev pub cannot_sign : Option ProvisioningProfile → Text → Bool
cannot_sign none agent = false
cannot_sign (some p) agent = not (signs_runner p agent)

abbrev pub found : Option ProvisioningProfile → Option (Option ProvisioningProfile)
found none = none
found (some p) = some (some p)

-- `find_profile(args.profile) if args.profile else None`, with `none` where one was asked for and
-- not found
abbrev pub wanted_profile :
    Option Text → List ProvisioningProfile → Option (Option ProvisioningProfile)
wanted_profile none profiles = some none
wanted_profile (some reference) profiles =
    if is_given (some reference) then found (find_profile reference profiles) else some none

abbrev pub wants_project : SetupArgs → Bool
wants_project args =
    is_given args.profile
    || is_given args.bundle_prefix
    || is_given args.agent_bundle_id
    || is_given args.demo_bundle_id

module _ {F : Type 0} where
  -- The build, with what was done before, and the demo app.
  abbrev pub finish : SetupArgs → Except F BuildResult → List Effect → Outcome F
  finish args (ok build) before =
      (ok 0, before ++ (built (is_given args.profile) args.team ∷ installed ∷ []))
  finish args (err e) before = (err e, before ++ (built (is_given args.profile) args.team ∷ []))

  -- Behind `configure_project`, which may raise.
  abbrev pub with_settings :
      SetupArgs
      → Option ProvisioningProfile
      → Except F (Unit {0})
      → Except F BuildResult
      → Settings
      → Outcome F
  with_settings args profile (err e) build settings = (err e, [])
  with_settings args profile (ok u) build settings =
      if cannot_sign profile settings.agent_bundle_id && not args.force
      then (ok 2, configured settings ∷ [])
      else finish args build (configured settings ∷ [])

  unfoldable pub with_profile :
      SetupArgs
      → Text
      → Text
      → Except F (Unit {0})
      → Except F BuildResult
      → Option (Option ProvisioningProfile)
      → Outcome F
  unfolding planned
  with_profile args demo_default agent_default generated build none = (ok 2, [])
  with_profile args demo_default agent_default generated build (some profile) =
      with_settings args profile generated build (planned args profile demo_default agent_default)

  unfoldable pub with_device :
      SetupArgs
      → Text
      → Text
      → Option Bool
      → List ProvisioningProfile
      → Except F (Unit {0})
      → Except F BuildResult
      → Except F DeviceRecord
      → Outcome F
  unfolding with_profile
  with_device args demo_default agent_default read profiles generated build (err e) = (err e, [])
  with_device args demo_default agent_default read profiles generated build (ok device) =
      if developer_off device read
      then (ok 2, [])
      else if wants_project args
      then with_profile args demo_default agent_default generated build
          (wanted_profile args.profile profiles)
      else finish args build []

  -- `cmd_setup`, over the toolchain, the device that is resolved, its Developer Mode if it is asked,
  -- the installed profiles, and the results of `configure_project` and of the build.
  unfoldable pub cmd_setup :
      SetupArgs
      → Text
      → Text
      → Except F XcodeEnvironment
      → Except F DeviceRecord
      → Option Bool
      → List ProvisioningProfile
      → Except F (Unit {0})
      → Except F BuildResult
      → Outcome F
  unfolding with_device
  cmd_setup args demo_default agent_default (err e) device read profiles generated build =
      (err e, [])
  cmd_setup args demo_default agent_default (ok environment) device read profiles generated build =
      with_device args demo_default agent_default read profiles generated build device

  -- `main`: an `IOSError` is the exit code 1; any other exception ends the program.
  unfoldable pub exit_code : Except F ℕ → Except F ℕ
  exit_code (ok n) = ok n
  exit_code (err (ios e)) = ok 1
  exit_code (err e) = err e

-- `cmd_devices` and `cmd_profiles`: 1 if there is nothing to list. The JSON form always succeeds.
abbrev pub listed : {A : Type 0} → List A → ℕ
listed [] = 1
listed (x ∷ xs) = 0

unfoldable pub cmd_devices : Bool → List DeviceRecord → ℕ
cmd_devices json devices = if json then 0 else listed devices

-- `cmd_profiles`; the device is resolved only if there are profiles, and if one is asked for.
unfoldable pub cmd_profiles :
    {F : Type 0} → List ProvisioningProfile → Option Text → Except F DeviceRecord → Except F ℕ
cmd_profiles [] udid device = ok 1
cmd_profiles (p ∷ ps) udid device = if is_given udid then (device >>= λ d. ok 0) else ok 0

-- `cmd_ping`: it disconnects at the end, but not where a step raises.
unfoldable pub cmd_ping : {F : Type 0} → ⦃rt : Runtime F⦄ → ℕ → Action F (Device F) ℕ
cmd_ping retries = bind (device_connect retries) (λ _.
    bind (λ d. (info d, d))
      (λ i. bind device_ping (λ latency.
        bind (with_session (λ c. (agent_version c >>= λ a. session_id c, c)))
          (λ _ d. (ok 0, device_disconnect d)))))
