-- ===== src/Errors.antt =====
-- ios-sdk/sandstorm_ios/errors.py: the exception hierarchy, and the errors that the agent reports.
pub mod Mapping
use sandstorm_ios_driver.Prelude.{String, Bool, Option, none, some, List, [], ◌∷◌, if◌then◌else◌}
use sandstorm_ios_driver.Prelude.Text.{Text, codes, text_eq}
use sandstorm_ios_driver.Python.Json.{Json, str, obj, end}
use sandstorm_ios_driver.Python.Exception.{
  ErrorClass, ios_error, device_not_found, agent_not_running, agent_connection_error,
  protocol_error, unauthorized, element_not_found, element_not_interactable, stale_element,
  command_timeout, app_launch_error, session_lost, setup_error, IosError, Exc, ios, Except, ok,
  ◌>>=◌,
}
use sandstorm_ios_driver.Python.Runtime.{Runtime, lookup, lookup_or, or_else, to_text, text}

-- The class attribute `code`.
unfoldable pub class_code : ErrorClass → Text
class_code ios_error = codes "SANDSTORM_ERROR"
class_code device_not_found = codes "DEVICE_NOT_FOUND"
class_code agent_not_running = codes "AGENT_NOT_RUNNING"
class_code agent_connection_error = codes "AGENT_CONNECTION_ERROR"
class_code protocol_error = codes "PROTOCOL_ERROR"
class_code unauthorized = codes "UNAUTHORIZED"
class_code element_not_found = codes "ELEMENT_NOT_FOUND"
class_code element_not_interactable = codes "ELEMENT_NOT_INTERACTABLE"
class_code stale_element = codes "STALE_ELEMENT"
class_code command_timeout = codes "TIMEOUT"
class_code app_launch_error = codes "APP_LAUNCH_FAILED"
class_code session_lost = codes "SESSION_LOST"
class_code setup_error = codes "SETUP_ERROR"

-- `kind(message)`, as the program raises it. What a message interpolates is left out of it.
abbrev pub new_error : {F : Type 0} → ErrorClass → String → IosError F
new_error kind message = record {
  kind = kind;
  code = class_code kind;
  message = codes message;
  details = obj end;
}

abbrev pub raised : {F : Type 0} → ErrorClass → String → Exc F
raised kind message = ios (new_error kind message)

abbrev pub agent_error_map : List (Text × ErrorClass)
agent_error_map =
    (codes "UNKNOWN_METHOD", protocol_error)
    ∷ (codes "INVALID_PARAMS", protocol_error)
    ∷ (codes "PROTOCOL_ERROR", protocol_error)
    ∷ (codes "UNAUTHORIZED", unauthorized)
    ∷ (codes "ELEMENT_NOT_FOUND", element_not_found)
    ∷ (codes "ELEMENT_NOT_INTERACTABLE", element_not_interactable)
    ∷ (codes "STALE_ELEMENT", stale_element)
    ∷ (codes "APP_LAUNCH_FAILED", app_launch_error)
    ∷ (codes "NO_ACTIVE_APP", app_launch_error)
    ∷ (codes "ALERT_NOT_FOUND", element_not_found)
    ∷ (codes "TIMEOUT", command_timeout)
    ∷ (codes "SNAPSHOT_FAILED", ios_error)
    ∷ (codes "INTERNAL_ERROR", ios_error)
    ∷ []

-- `AGENT_ERROR_MAP.get(code, IOSError)`
unfoldable pub class_in : List (Text × ErrorClass) → Text → ErrorClass
class_in [] code = ios_error
class_in ((c, kind) ∷ rest) code = if text_eq c code then kind else class_in rest code

module _ {F : Type 0} ⦃rt : Runtime F⦄ where
  unfoldable pub error_from_payload : Json F → Except F (IosError F)
  error_from_payload payload = lookup_or payload "code" (text "INTERNAL_ERROR") >>= λ code.
      lookup_or payload "message" (text "Unknown agent error") >>= λ message.
      lookup payload "details" >>= λ details. ok (record {
        kind = class_in agent_error_map (to_text code);
        code = to_text code;
        message = to_text message;
        details = or_else details (obj end);
      })
