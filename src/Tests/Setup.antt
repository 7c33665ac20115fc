-- ===== src/Tests/Setup.antt =====
-- A setup that is refused, and a patched file.
use sandstorm_ios_driver.Prelude.{ℕ, ◌≡◌, refl, true, false, none, some, List, [], ◌∷◌, String}
use sandstorm_ios_driver.Prelude.Text.{Text, codes, starts_with}
use sandstorm_ios_driver.Python.Json.{Fields, end, field, str, obj, get}
use sandstorm_ios_driver.Python.Exception.{Except, ok}
use sandstorm_ios_driver.Python.Runtime.{truthy}
use sandstorm_ios_driver.Sdk.Device.{put}
use sandstorm_ios_driver.Controller.Devices.{DeviceRecord, physical}
use sandstorm_ios_driver.Controller.Profiles.{ProvisioningProfile}
use sandstorm_ios_driver.Controller.Build.{XcodeEnvironment, BuildResult}
use sandstorm_ios_driver.Controller.Build.Plist.{
  patch_xctestrun, patch_by, patch_flat, patch_value, patch_fields, with_all, patched,
}
use sandstorm_ios_driver.Controller.Build.Layouts.{Layout, patch_xctestrun-Layout}
use sandstorm_ios_driver.Controller.Cli.{SetupArgs, cmd_setup, developer_off}
use sandstorm_ios_driver.Controller.Cli.Refusals.{Builds, Signable, cmd_setup-Builds}
use sandstorm_ios_driver.Tests.Samples.{plain}

abbrev environment : List (String × Text)
environment = ("SANDSTORM_PORT", codes "8433") ∷ []

abbrev target : Fields ℕ
target = field "EnvironmentVariables" (obj (field "A" (str (codes "1")) end)) end

abbrev payload : Fields ℕ
payload = field "SandstormAgent" (obj target) end

abbrev injected : Fields ℕ
unfolding put
injected =
    field "SandstormAgent"
      (obj (patched ⦃rt = plain⦄ environment target (field "A" (str (codes "1")) end))) end

patch_xctestrun-Layout_example :
    Layout ⦃rt = plain⦄ environment (get "TestConfigurations" payload) payload injected
unfolding patch_xctestrun patch_by patch_flat patch_value patch_fields with_all put get truthy
    starts_with
patch_xctestrun-Layout_example =
    patch_xctestrun-Layout ⦃rt = plain⦄ environment payload injected refl

abbrev phone : DeviceRecord
phone = record {
  udid = codes "C";
  name = codes "iPhone";
  kind = physical;
  ios_version = codes "18.1";
  state = codes "connected";
  developer_mode = some true;
  paired = some true;
}

abbrev found : Except ℕ DeviceRecord
found = ok phone

-- A profile that covers every identifier.
abbrev wildcard : ProvisioningProfile
wildcard = record {
  uuid = codes "u";
  name = codes "Team";
  team_id = codes "T";
  app_id = codes "T.*";
  expired = false;
  devices = [];
}

abbrev args : SetupArgs
args = record {
  team = none;
  profile = some (codes "Team");
  bundle_prefix = some (codes "com.demo");
  agent_bundle_id = none;
  demo_bundle_id = none;
  no_demo = false;
  force = false;
}

abbrev toolchain : XcodeEnvironment
toolchain = record { xcode_path = []; xcode_version = codes "Xcode 16"; signing_identities = [] }

abbrev result : BuildResult
result = record {
  xctestrun_path = codes "a";
  products_dir = codes "b";
  runner_app = none;
  demo_app = none;
}

cmd_setup-Builds_example :
    Builds {F = ℕ}
      (((d : DeviceRecord) × (found ≡ ok d) × (developer_off d none ≡ false))
        × Signable args (codes "demo") (codes "agent") (wildcard ∷ []))
      (cmd_setup args
        (codes "demo")
        (codes "agent")
        (ok toolchain)
        found
        none
        (wildcard ∷ [])
        (ok tt)
        (ok result))
cmd_setup-Builds_example =
    cmd_setup-Builds args (codes "demo") (codes "agent") (ok toolchain) found none (wildcard ∷ [])
      (ok tt) (ok result)
