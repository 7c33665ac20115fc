-- ===== src/Controller/Devices.antt =====
-- ios-controller/sandstorm_controller/devices.py: the records of devices, and the choice of one.
pub mod Choice
use sandstorm_ios_driver.Prelude.{
  String, Bool, true, false, not, ◌&&◌, Option, none, some, List, [], ◌∷◌, ◌++◌, keep,
  if◌then◌else◌,
}
use sandstorm_ios_driver.Prelude.Text.{Text, codes, text_eq, join, is_empty}
use sandstorm_ios_driver.Python.Exception.{Except, ok, err, device_not_found}
use sandstorm_ios_driver.Errors.{raised}

pub data DeviceKind : Type 0 where
  simulator physical : DeviceKind

pub record DeviceRecord : Type 0 where
  pub udid : Text
  pub name : Text
  pub kind : DeviceKind
  pub ios_version : Text
  pub state : Text
  pub developer_mode : Option Bool
  pub paired : Option Bool

abbrev pub kind_is_simulator : DeviceKind → Bool
kind_is_simulator simulator = true
kind_is_simulator physical = false

abbrev pub is_simulator : DeviceRecord → Bool
is_simulator d = kind_is_simulator d.kind

abbrev kind_value : DeviceKind → Text
kind_value simulator = codes "simulator"
kind_value physical = codes "physical"

unfoldable pub destination : DeviceRecord → Text
destination d =
    codes "platform="
    ++ ((if is_simulator d then codes "iOS Simulator" else codes "iOS") ++ (codes ",id=" ++ d.udid))

-- `["flag"]` if the value `is False`
abbrev flag_if_false : Option Bool → String → List Text
flag_if_false (some false) flag = codes flag ∷ []
flag_if_false _ flag = []

abbrev pub bracketed : List Text → Text
bracketed [] = []
bracketed (f ∷ fs) = codes " [" ++ (join (codes ", ") (f ∷ fs) ++ codes "]")

unfoldable pub describe : DeviceRecord → Text
describe d =
    d.name
    ++ (codes " ("
        ++ (kind_value d.kind
            ++ (codes ", iOS "
                ++ (d.ios_version
                    ++ (codes ", "
                        ++ (d.state
                            ++ (codes ")"
                                ++ (bracketed (
                                      flag_if_false d.developer_mode "developer-mode-off"
                                      ++ flag_if_false d.paired "unpaired")
                                    ++ (codes " " ++ d.udid)))))))))

-- `discover_devices`, over what the two discoveries yield
unfoldable pub discover_devices :
    Bool → Bool → List DeviceRecord → List DeviceRecord → List DeviceRecord
discover_devices include_simulators include_physical physicals simulators =
    (if include_physical then physicals else []) ++ (if include_simulators then simulators else [])

-- `discover_physical_devices`: the second tool is asked only if the first finds nothing.
unfoldable pub discover_physical_devices : List DeviceRecord → List DeviceRecord → List DeviceRecord
discover_physical_devices [] pymobiledevice3 = pymobiledevice3
discover_physical_devices (d ∷ ds) pymobiledevice3 = d ∷ ds

abbrev pub is_booted : DeviceRecord → Bool
is_booted d = is_simulator d && text_eq d.state (codes "Booted")

abbrev pub is_physical : DeviceRecord → Bool
is_physical d = not (is_simulator d)

module _ {F : Type 0} where
  unfoldable pub with_udid : Text → List DeviceRecord → Except F DeviceRecord
  with_udid udid [] = err (raised device_not_found "No device with that UDID")
  with_udid udid (d ∷ ds) = if text_eq d.udid udid then ok d else with_udid udid ds

  abbrev pub first_or : List DeviceRecord → Except F DeviceRecord → Except F DeviceRecord
  first_or [] other = other
  first_or (d ∷ ds) other = ok d

  unfoldable pub default_device : List DeviceRecord → Except F DeviceRecord
  default_device devices = first_or (keep is_booted devices) (
      first_or (keep is_physical devices) (
        first_or (keep is_simulator devices)
          (err (raised device_not_found "No iOS devices or simulators are available"))))

  -- `resolve_device`: an empty UDID counts as none.
  unfoldable pub resolve_device : Option Text → List DeviceRecord → Except F DeviceRecord
  unfolding default_device with_udid
  resolve_device none devices = default_device devices
  resolve_device (some udid) devices =
      if is_empty udid then default_device devices else with_udid udid devices
