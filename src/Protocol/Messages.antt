-- ===== src/Protocol/Messages.antt =====
-- ios-sdk/sandstorm_ios/protocol/messages.py: commands, responses and the handshake.
use sandstorm_ios_driver.Prelude.{ℕ, String, Bool, false, Option, none, some, List}
use sandstorm_ios_driver.Prelude.Int.{ℤ, pos, negsuc}
use sandstorm_ios_driver.Prelude.Text.{Text}
use sandstorm_ios_driver.Python.Json.{Json, null, bool, int, float, str, obj, Fields, end, field}
use sandstorm_ios_driver.Python.Exception.{Except, ok, ◌>>=◌}
use sandstorm_ios_driver.Python.Runtime.{
  Runtime, truthy, lookup, lookup_or, or_else, to_int, to_float, to_text, text,
}

abbrev pub protocol_version : ℕ
protocol_version = 1

abbrev pub client_name : String
client_name = "sandstorm-python"

pub record Command (F : Type 0) : Type 0 where
  pub id : ℕ
  pub method : String
  pub params : Fields F

-- `error` is null where the agent sent none.
pub record Response (F : Type 0) : Type 0 where
  pub id : ℤ
  pub success : Bool
  pub result : Json F
  pub error : Json F
  pub binary : Option (List ℕ)

pub record DeviceInfo (F : Type 0) : Type 0 where
  pub name : Text
  pub ios_version : Text
  pub model : Text
  pub udid : Json F
  pub is_simulator : Bool
  pub screen_width : F
  pub screen_height : F
  pub screen_scale : F

pub record Handshake (F : Type 0) : Type 0 where
  pub version : ℤ
  pub agent_version : Text
  pub session_id : Text
  pub device : DeviceInfo F

module _ {F : Type 0} where
  unfoldable pub command_to_wire : Command F → Json F
  command_to_wire c = obj (
      field "id" (int (pos c.id))
        (field "method" (text c.method) (field "params" (obj c.params) end)))

  abbrev pub text_or_null : Option Text → Json F
  text_or_null none = null
  text_or_null (some t) = str t

  unfoldable pub build_handshake_request : Option Text → Text → Json F
  build_handshake_request token client_version = obj (
      field "protocolVersion" (int (pos protocol_version)) (
        field "client" (text client_name)
          (field "clientVersion" (str client_version) (field "token" (text_or_null token) end))))

module _ {F : Type 0} ⦃rt : Runtime F⦄ where
  unfoldable pub response_from_wire : Json F → Option (List ℕ) → Except F (Response F)
  response_from_wire payload attachment = lookup_or payload "id" (int (negsuc 0)) >>= λ raw.
      to_int raw >>= λ id. lookup_or payload "success" (bool false) >>= λ success.
      lookup payload "result" >>= λ result. lookup_or payload "error" null >>= λ error. ok (record {
        id = id;
        success = truthy success;
        result = or_else result (obj end);
        error = error;
        binary = attachment;
      })

  unfoldable pub device_from_wire : Json F → Except F (DeviceInfo F)
  device_from_wire payload = lookup payload "screen" >>= λ given.
      let screen = or_else given (obj end) in
      lookup_or payload "name" (text "unknown") >>= λ name.
      lookup_or payload "iosVersion" (text "unknown") >>= λ ios_version.
      lookup_or payload "model" (text "unknown") >>= λ model.
      lookup_or payload "udid" null >>= λ udid.
      lookup_or payload "isSimulator" (bool false) >>= λ simulator.
      lookup_or screen "width" (float rt.zero_float) >>= λ width. to_float width >>= λ w.
      lookup_or screen "height" (float rt.zero_float) >>= λ height. to_float height >>= λ h.
      lookup_or screen "scale" (float rt.one_float) >>= λ scale. to_float scale >>= λ k.
      ok (record {
        name = to_text name;
        ios_version = to_text ios_version;
        model = to_text model;
        udid = udid;
        is_simulator = truthy simulator;
        screen_width = w;
        screen_height = h;
        screen_scale = k;
      })

  unfoldable pub handshake_from_wire : Json F → Except F (Handshake F)
  handshake_from_wire payload = lookup_or payload "protocolVersion" (int (pos 0)) >>= λ raw.
      to_int raw >>= λ version.
      lookup_or payload "agentVersion" (text "unknown") >>= λ agent_version.
      lookup_or payload "sessionId" (text "") >>= λ session_id. lookup payload "device" >>= λ given.
      device_from_wire (or_else given (obj end)) >>= λ device. ok (record {
        version = version;
        agent_version = to_text agent_version;
        session_id = to_text session_id;
        device = device;
      })
