-- ===== src/Controller/Discovery.antt =====
-- The discovery of devices in ios-controller/sandstorm_controller/devices.py, over what the tools
-- print. A command that ran is its return code with its output; the tools on the path and the
-- contents of the file that devicectl writes are given.
pub mod Kinds
use mathlib.Core.List.{reverse}
use sandstorm_ios_driver.Prelude.{
  ℕ, ◌+◌, ◌==◌, String, Bool, true, false, not, ◌&&◌, ◌||◌, Option, none, some, List, [], ◌∷◌, ◌++◌,
  map, if◌then◌else◌,
}
use sandstorm_ios_driver.Prelude.Text.{
  Text, codes, text_eq, before_char, remove, replace_char, has_part,
}
use sandstorm_ios_driver.Python.Json.{
  Json, null, bool, int, float, str, arr, obj, Items, nil, cons, Fields, end, field, get,
}
use sandstorm_ios_driver.Python.Exception.{
  Except, ok, err, key_error, type_error, attribute_error, ◌>>=◌,
}
use sandstorm_ios_driver.Python.Runtime.{Runtime, lookup, lookup_or, parsed, text, to_text}
use sandstorm_ios_driver.Controller.Devices.{
  DeviceKind, simulator, physical, DeviceRecord, discover_devices, discover_physical_devices,
}

-- `subprocess.CompletedProcess`
pub record Completed : Type 0 where
  pub returncode : ℕ
  pub stdout : Text
  pub stderr : Text

abbrev pub failed : Completed → Bool
failed r = not (r.returncode == 0)

-- `runtime.rsplit(".", 1)[-1].replace("iOS-", "").replace("-", ".")`: 45 is the dash, 46 the dot
unfoldable pub runtime_version : Text → Text
runtime_version runtime =
    replace_char 45 (46 ∷ []) (remove (codes "iOS-") (reverse (before_char 46 (reverse runtime))))

-- `c.lower()` of an ASCII text
abbrev lower_ascii : ℕ → ℕ
lower_ascii c = if has_part (c ∷ []) (codes "ABCDEFGHIJKLMNOPQRSTUVWXYZ") then c + 32 else c

module _ {F : Type 0} ⦃rt : Runtime F⦄ where
  -- `x == "…"`, of a value that `get` may not find
  abbrev pub is_str : Option (Json F) → String → Bool
  is_str (some (str s)) t = text_eq s (codes t)
  is_str _ t = false

  abbrev found : Option (Json F) → Except F (Json F)
  found none = err key_error
  found (some v) = ok v

  -- `x[key]`
  abbrev pub subscript : Json F → String → Except F (Json F)
  subscript (obj d) k = found (get k d)
  subscript _ k = err type_error

  -- `x.items()`
  abbrev pub items_of : Json F → Except F (Fields F)
  items_of (obj d) = ok d
  items_of _ = err attribute_error

  -- What `for` goes through: a list. Other values raise.
  abbrev pub list_of : Json F → Except F (Items F)
  list_of (arr xs) = ok xs
  list_of _ = err type_error

  -- A text of the record: what the tool printed there.
  abbrev pub text_of : Json F → String → String → Except F Text
  text_of entry k d = lookup_or entry k (text d) >>= λ v. ok (to_text v)

  -- `discover_simulators`
  abbrev simulator_record : Text → Json F → Except F DeviceRecord
  simulator_record version entry = subscript entry "udid" >>= λ udid.
      text_of entry "name" "Simulator" >>= λ name. text_of entry "state" "Unknown" >>= λ state.
      ok (record {
        udid = to_text udid;
        name = name;
        kind = simulator;
        ios_version = version;
        state = state;
        developer_mode = some true;
        paired = some true;
      })

  -- `booted_only and entry.get("state") != "Booted"`
  abbrev is_skipped : Bool → Json F → Except F Bool
  is_skipped booted_only entry =
      if booted_only
      then (lookup entry "state" >>= λ state. ok (not (is_str state "Booted")))
      else ok false

  -- The record, if any, before those of the other entries.
  abbrev with_entry :
      Bool → Text → Json F → Except F (List DeviceRecord) → Except F (List DeviceRecord)
  with_entry skip version entry later =
      if skip then later else (simulator_record version entry >>= λ d. later >>= λ ds. ok (d ∷ ds))

  unfoldable pub simulators_in : Bool → Text → Items F → Except F (List DeviceRecord)
  simulators_in booted_only version nil = ok []
  simulators_in booted_only version (cons entry entries) = is_skipped booted_only entry >>= λ skip.
      with_entry skip version entry (simulators_in booted_only version entries)

  unfoldable pub simulators_of : Bool → Fields F → Except F (List DeviceRecord)
  unfolding simulators_in runtime_version
  simulators_of booted_only end = ok []
  simulators_of booted_only (field runtime entries rest) = list_of entries >>= λ es.
      simulators_in booted_only (runtime_version (codes runtime)) es >>= λ ds.
      simulators_of booted_only rest >>= λ more. ok (ds ++ more)

  -- `_devicectl_devices`: `none` is a device of another platform.
  abbrev pub is_ios : Option (Json F) → Bool
  is_ios none = true
  is_ios (some null) = true
  is_ios (some v) = is_str (some v) "iOS"

  abbrev pub empty : Json F
  empty = obj end

  abbrev pub physical_record : Json F → Json F → Json F → Json F → Except F DeviceRecord
  physical_record entry properties hardware connection =
      lookup_or entry "identifier" (text "") >>= λ identifier.
      lookup_or hardware "udid" identifier >>= λ udid.
      text_of properties "name" "iPhone" >>= λ name.
      text_of properties "osVersionNumber" "unknown" >>= λ version.
      text_of connection "tunnelState" "unknown" >>= λ state.
      lookup properties "developerModeStatus" >>= λ mode.
      lookup connection "pairingState" >>= λ pairing. ok (record {
        udid = to_text udid;
        name = name;
        kind = physical;
        ios_version = version;
        state = state;
        developer_mode = some (is_str mode "enabled");
        paired = some (is_str pairing "paired");
      })

  abbrev pub if_ios : Bool → Except F DeviceRecord → Except F (List DeviceRecord)
  if_ios b r = if b then (r >>= λ d. ok (d ∷ [])) else ok []

  unfoldable pub physical_of : Json F → Except F (List DeviceRecord)
  physical_of entry = lookup_or entry "deviceProperties" empty >>= λ properties.
      lookup_or entry "hardwareProperties" empty >>= λ hardware.
      lookup_or entry "connectionProperties" empty >>= λ connection.
      lookup hardware "platform" >>= λ platform.
      if_ios (is_ios platform) (physical_record entry properties hardware connection)

  -- `_pymobiledevice3_devices`
  unfoldable pub usb_of : Json F → Except F (List DeviceRecord)
  usb_of entry = text_of entry "Identifier" "" >>= λ udid.
      text_of entry "DeviceName" "iPhone" >>= λ name.
      text_of entry "ProductVersion" "unknown" >>= λ version.
      text_of entry "ConnectionType" "USB" >>= λ state. ok (
        record {
          udid = udid;
          name = name;
          kind = physical;
          ios_version = version;
          state = state;
          developer_mode = none;
          paired = some true;
        }
        ∷ [])

  -- The loop over the entries of either tool.
  unfoldable pub entries_of :
      (Json F → Except F (List DeviceRecord)) → Items F → Except F (List DeviceRecord)
  entries_of one nil = ok []
  entries_of one (cons entry entries) =
      one entry >>= λ ds. entries_of one entries >>= λ more. ok (ds ++ more)

  unfoldable pub devicectl_devices :
      Bool → Completed → Option (Json F) → Except F (List DeviceRecord)
  unfolding entries_of physical_of
  devicectl_devices has_xcrun result none = ok []
  devicectl_devices has_xcrun result (some payload) =
      if not has_xcrun || failed result
      then ok []
      else (lookup_or payload "result" empty >>= λ listing.
          lookup_or listing "devices" (arr nil) >>= λ devices.
          list_of devices >>= entries_of physical_of)

  -- What `json.loads` makes of a text is given.
  module _ (decode : Text → Option (Json F)) where
    unfoldable pub discover_simulators : Bool → Completed → Except F (List DeviceRecord)
    unfolding simulators_of
    discover_simulators booted_only result =
        if failed result
        then ok []
        else (parsed (decode result.stdout) >>= λ payload.
            lookup_or payload "devices" empty >>= λ runtimes.
            items_of runtimes >>= simulators_of booted_only)

    abbrev pub usb_listing : Option (Json F) → Except F (List DeviceRecord)
    usb_listing none = ok []
    usb_listing (some payload) = list_of payload >>= entries_of usb_of

    unfoldable pub pymobiledevice3_devices : Bool → Completed → Except F (List DeviceRecord)
    unfolding entries_of usb_of
    pymobiledevice3_devices has_tool result =
        if not has_tool || failed result then ok [] else usb_listing (decode result.stdout)

    -- The keys of the decoded object; anything else, or nothing, is the empty set.
    abbrev keys : Fields F → List String
    keys end = []
    keys (field k v d) = k ∷ keys d

    abbrev keys_of : Option (Json F) → List String
    keys_of (some (obj d)) = keys d
    keys_of _ = []

    unfoldable pub read_installed_bundles : Bool → Completed → List String
    read_installed_bundles has_tool result =
        if not has_tool || failed result then [] else keys_of (decode result.stdout)

-- `none` where the state is unknown.
unfoldable pub read_developer_mode : Bool → Completed → Option Bool
read_developer_mode has_tool result =
    if not has_tool || failed result
    then none
    else some (has_part (codes "true") (map lower_ascii result.stdout))

-- `boot_simulator`: the commands in their order. The window is shown as the caller says, or unless
-- SANDSTORM_HEADLESS is set.
abbrev pub is_headless : Option Text → Bool
is_headless none = false
is_headless (some v) = text_eq v (codes "1") || text_eq v (codes "true") || text_eq v (codes "yes")

abbrev pub shows_ui : Option Bool → Option Text → Bool
shows_ui none headless = not (is_headless headless)
shows_ui (some show_ui) headless = show_ui

unfoldable pub keyboard_command : Bool → List Text
keyboard_command connected =
    codes "defaults"
    ∷ codes "write"
    ∷ codes "com.apple.iphonesimulator"
    ∷ codes "ConnectHardwareKeyboard"
    ∷ codes "-bool"
    ∷ (if connected then codes "true" else codes "false")
    ∷ []

unfoldable pub ui_commands : Text → List (List Text)
unfolding keyboard_command
ui_commands udid =
    keyboard_command false
    ∷ (codes "open"
        ∷ codes "-a"
        ∷ codes "Simulator"
        ∷ codes "--args"
        ∷ codes "-CurrentDeviceUDID"
        ∷ udid
        ∷ [])
    ∷ []

unfoldable pub boot_commands : Text → Option Bool → Option Text → List (List Text)
unfolding ui_commands
boot_commands udid show_ui headless =
    (codes "xcrun" ∷ codes "simctl" ∷ codes "bootstatus" ∷ udid ∷ codes "-b" ∷ [])
    ∷ (if shows_ui show_ui headless then ui_commands udid else [])
