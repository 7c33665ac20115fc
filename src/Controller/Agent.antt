-- ===== src/Controller/Agent.antt =====
-- What ios-controller/sandstorm_controller/agent.py hands to the agent and to its clients. A free port
-- and a random token are given.
use sandstorm_ios_driver.Prelude.{ℕ, String, Option, none, some, List, [], ◌∷◌, ◌==◌, if◌then◌else◌}
use sandstorm_ios_driver.Prelude.Int.{pos}
use sandstorm_ios_driver.Prelude.Text.{Text, codes, is_empty}
use sandstorm_ios_driver.Python.Json.{int}
use sandstorm_ios_driver.Python.Runtime.{Runtime}
use sandstorm_ios_driver.Controller.Devices.{DeviceRecord, is_simulator, destination}

abbrev pub default_device_port : ℕ
default_device_port = 8433

-- The fields of `AgentRunner` that are passed on.
pub record AgentSettings : Type 0 where
  pub device : DeviceRecord
  pub device_port : ℕ
  pub token : Text
  pub log_level : Text

-- The fields of `AgentHandle`.
pub record AgentHandle : Type 0 where
  pub device : DeviceRecord
  pub host : Text
  pub port : ℕ
  pub token : Text

-- `device_port or …`, `token or …`
abbrev pub port_or : Option ℕ → ℕ → ℕ
port_or none d = d
port_or (some p) d = if p == 0 then d else p

abbrev pub token_or : Option Text → Text → Text
token_or none d = d
token_or (some t) d = if is_empty t then d else t

-- `start_agent`, up to the start of the runner
unfoldable pub start_agent : DeviceRecord → Option ℕ → Option Text → Text → ℕ → Text → AgentSettings
start_agent device device_port token log_level free_port random_token = record {
  device = device;
  device_port =
      port_or device_port (if is_simulator device then free_port else default_device_port);
  token = token_or token random_token;
  log_level = log_level;
}

module _ {F : Type 0} (rt : Runtime F) where
  -- The environment and the command of `_spawn`.
  unfoldable pub agent_environment : AgentSettings → List (String × Text)
  agent_environment s =
      ("SANDSTORM_PORT", rt.show (int (pos s.device_port)))
      ∷ ("SANDSTORM_TOKEN", s.token)
      ∷ ("SANDSTORM_LOG_LEVEL", s.log_level)
      ∷ []

  unfoldable pub handle_environment : AgentHandle → List (String × Text)
  handle_environment h =
      ("SANDSTORM_AGENT_HOST", h.host)
      ∷ ("SANDSTORM_AGENT_PORT", rt.show (int (pos h.port)))
      ∷ ("SANDSTORM_TOKEN", h.token)
      ∷ ("SANDSTORM_UDID", h.device.udid)
      ∷ []

unfoldable pub test_command : AgentSettings → Text → List Text
test_command s patched =
    codes "xcodebuild"
    ∷ codes "test-without-building"
    ∷ codes "-xctestrun"
    ∷ patched
    ∷ codes "-destination"
    ∷ destination s.device
    ∷ codes "-only-testing:SandstormAgent/AutomationServerTests/testAutomationServer"
    ∷ []
