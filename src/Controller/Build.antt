-- ===== src/Controller/Build.antt =====
-- `AgentBuilder` and the detection of the toolchain:
-- ios-controller/sandstorm_controller/build.py. What the tools print, the regular expressions and
-- what stands on the disk are given.
pub mod Plist
pub mod Patch
pub mod Layouts
use sandstorm_ios_driver.Prelude.{
  ℕ, String, Bool, true, false, not, ◌&&◌, ◌||◌, Option, none, some, List, [], ◌∷◌, ◌++◌, map, ◌==◌,
  if◌then◌else◌,
}
use sandstorm_ios_driver.Prelude.Int.{pos}
use sandstorm_ios_driver.Prelude.Text.{
  Text, codes, is_empty, strip, split_lines, ends_with, starts_with, before_char, has_part,
}
use sandstorm_ios_driver.Python.Json.{
  Json, null, bool, int, float, str, arr, obj, Items, nil, cons, Fields, end, field, get,
}
use sandstorm_ios_driver.Python.Exception.{
  Except, ok, err, setup_error, index_error, attribute_error, type_error, ◌>>=◌,
}
use sandstorm_ios_driver.Python.Runtime.{Runtime, truthy, lookup_or, or_else}
use sandstorm_ios_driver.Errors.{raised}
use sandstorm_ios_driver.Sdk.Device.{put}
use sandstorm_ios_driver.Controller.Devices.{DeviceRecord, is_simulator, destination}
use sandstorm_ios_driver.Controller.Discovery.{Completed, failed}
use sandstorm_ios_driver.Controller.Setup.{or_option, verify_sdk_supports}

pub record XcodeEnvironment : Type 0 where
  pub xcode_path : Text
  pub xcode_version : Text
  pub signing_identities : List Text

abbrev pub has_signing_identity : XcodeEnvironment → Bool
has_signing_identity e = some_text e.signing_identities
  where
    some_text : List Text → Bool
    some_text [] = false
    some_text (t ∷ ts) = true

pub record BuildResult : Type 0 where
  pub xctestrun_path : Text
  pub products_dir : Text
  pub runner_app : Option Text
  pub demo_app : Option Text

-- `text or None`
abbrev pub or_none : Text → Option Text
or_none [] = none
or_none (c ∷ s) = some (c ∷ s)

unfoldable pub iphoneos_sdk_version : Completed → Option Text
iphoneos_sdk_version result = if failed result then none else or_none (strip result.stdout)

-- `line.split('"')[1]` of a line with a double quote, 34
abbrev pub after_quote : Text → Text
after_quote [] = []
after_quote (c ∷ s) = let rest = after_quote s in if c == 34 then s else rest

abbrev pub identity_of : Text → List Text
identity_of line = if has_part (34 ∷ []) line then before_char 34 (after_quote line) ∷ [] else []

abbrev pub identities_in : List Text → List Text
identities_in [] = []
identities_in (l ∷ ls) = identity_of l ++ identities_in ls

unfoldable pub signing_identities : Completed → List Text
signing_identities result = if failed result then [] else identities_in (split_lines result.stdout)

-- `re.search(…)` with `group(1)`, of the subject of a certificate and of Xcode's preferences, is given.
unfoldable pub detect_development_team :
    (Text → Option Text) → (Text → Option Text) → Completed → Completed → Completed → Option Text
detect_development_team in_subject in_preferences certificates subject teams = or_teams (
    if not (failed certificates) && not (is_empty (strip certificates.stdout))
    then in_subject subject.stdout
    else none)
  where
    or_teams : Option Text → Option Text
    or_teams (some team) = some team
    or_teams none = if failed teams then none else in_preferences teams.stdout

-- The existing file of that name.
abbrev pub there_if : (Text → Bool) → Text → Option Text
there_if there path = if there path then some path else none

-- `p.is_dir() and p.name.endswith(platform)`, over the names of the directories, with the default
abbrev pub directory_or : Text → Text → List Text → Text
directory_or products platform [] = products
directory_or products platform (name ∷ names) =
    let rest = directory_or products platform names in
    if ends_with name platform then products ++ (47 ∷ name) else rest

abbrev pub platform_of : DeviceRecord → Text
platform_of device = if is_simulator device then codes "iphonesimulator" else codes "iphoneos"

pub record AgentBuilder : Type 0 where
  pub project_path : Text
  pub scheme : Text
  pub derived_data : Text

unfoldable pub build_command : AgentBuilder → Text → DeviceRecord → List Text → List Text
build_command b configuration device signing =
    codes "xcodebuild"
    ∷ codes "build-for-testing"
    ∷ codes "-project"
    ∷ b.project_path
    ∷ codes "-scheme"
    ∷ b.scheme
    ∷ codes "-configuration"
    ∷ configuration
    ∷ codes "-destination"
    ∷ destination device
    ∷ codes "-derivedDataPath"
    ∷ b.derived_data
    ∷ codes "-quiet"
    ∷ signing

module _ {F : Type 0} where
  abbrev pub first_line : List Text → Except F Text
  first_line [] = err index_error
  first_line (l ∷ ls) = ok (strip l)

  unfoldable pub detect_xcode : Bool → Completed → Completed → Completed → Except F XcodeEnvironment
  unfolding signing_identities
  detect_xcode has_xcodebuild version path identities =
      if not has_xcodebuild
      then err (raised setup_error "xcodebuild is not on PATH")
      else if failed version
      then err (raised setup_error "`xcodebuild -version` failed")
      else (first_line (split_lines version.stdout) >>= λ line. ok (record {
        xcode_path = strip path.stdout;
        xcode_version = line;
        signing_identities = signing_identities identities;
      }))

  -- What a build needs beside the device: the signing style, and the team of the argument, of the
  -- environment and of the keychain.
  abbrev pub by_team : Option Text → Except F (List Text)
  by_team none = err (raised setup_error "Building for a physical device needs a signing team")
  by_team (some team) =
      if is_empty team
      then err (raised setup_error "Building for a physical device needs a signing team")
      else ok (
          (codes "DEVELOPMENT_TEAM=" ++ team)
          ∷ codes "CODE_SIGN_STYLE=Automatic"
          ∷ codes "-allowProvisioningUpdates"
          ∷ [])

  unfoldable pub signing_arguments :
      DeviceRecord → Bool → Option Text → Option Text → Option Text → Except F (List Text)
  signing_arguments device manual team environment detected =
      if is_simulator device || manual
      then ok []
      else by_team (or_option team (or_option environment detected))

  -- The matches of the pattern, the newest first; the directories in the directory of the first; the
  -- paths that exist.
  unfoldable pub locate_build :
      DeviceRecord
      → List Text
      → (Text → Text)
      → (Text → List Text)
      → (Text → Bool)
      → Except F BuildResult
  locate_build device [] parent directories there =
      err (raised setup_error "No .xctestrun for the platform. Run `sandstorm ios setup` first.")
  locate_build device (newest ∷ older) parent directories there =
      let dir = directory_or (parent newest) (platform_of device) (directories (parent newest)) in
      ok (record {
        xctestrun_path = newest;
        products_dir = dir;
        runner_app = there_if there (dir ++ codes "/SandstormAgent-Runner.app");
        demo_app = there_if there (dir ++ codes "/SandstormDemo.app");
      })

  abbrev pub located : Except F BuildResult → Completed → Except F BuildResult
  located build result =
      if failed result then err (raised setup_error "Agent build failed") else build

  -- `build_for_testing`, over the SDK's version and whether its check is skipped, the signing style,
  -- the team of the argument, of the environment and of the keychain, the run of a command, and
  -- the search for the result.
  unfoldable pub build_for_testing :
      Runtime F
      → AgentBuilder
      → DeviceRecord
      → Option Text
      → Bool
      → Bool
      → Option Text
      → Option Text
      → Option Text
      → Text
      → (List Text → Completed)
      → Except F BuildResult
      → Except F BuildResult
  unfolding signing_arguments build_command
  build_for_testing rt b device sdk skip manual team environment detected configuration execute
        build =
      verify_sdk_supports rt sdk skip device >>= λ _.
      signing_arguments device manual team environment detected >>= λ arguments.
      located build (execute (build_command b configuration device arguments))

unfoldable pub install_commands : DeviceRecord → Bool → BuildResult → List (List Text)
install_commands device has_xcrun build = for build.demo_app
  where
    for : Option Text → List (List Text)
    for none = []
    for (some demo) =
        if is_simulator device
        then (codes "xcrun" ∷ codes "simctl" ∷ codes "install" ∷ device.udid ∷ demo ∷ []) ∷ []
        else if has_xcrun
        then (codes "xcrun"
            ∷ codes "devicectl"
            ∷ codes "device"
            ∷ codes "install"
            ∷ codes "app"
            ∷ codes "--device"
            ∷ device.udid
            ∷ demo
            ∷ [])
          ∷ []
        else []
