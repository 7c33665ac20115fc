-- ===== src/Sdk/Device.antt =====
-- ios-sdk/sandstorm_ios/sdk/device.py
pub mod Connected
use sandstorm_ios_driver.Prelude.{ℕ, String, Bool, true, false, Option, none, some, if◌then◌else◌}
use sandstorm_ios_driver.Prelude.Int.{ℤ, pos, int_eq}
use sandstorm_ios_driver.Prelude.Text.{Text, codes, is_empty}
use sandstorm_ios_driver.Python.Json.{Json, float, obj, Fields, end, field}
use sandstorm_ios_driver.Python.Exception.{
  Except, ok, err, Action, agent_not_running, type_error, pure, bind,
}
use sandstorm_ios_driver.Python.Runtime.{Runtime, parsed}
use sandstorm_ios_driver.Errors.{raised}
use sandstorm_ios_driver.Protocol.Messages.{DeviceInfo}
use sandstorm_ios_driver.Transport.Client.{Client, connect}
use sandstorm_ios_driver.Sdk.Session.{
  device_info, session_result, session_ping, session_stop_agent, session_close,
}
use text.Mathlib.Text.{◌==◌ as str_eq}

abbrev pub default_agent_port : ℕ
default_agent_port = 8433

-- `os.environ`
abbrev pub Environment : Type 0
Environment = String → Option Text

abbrev or_text : Text → Text → Text
or_text s d = if is_empty s then d else s

abbrev env_or : Option Text → Text → Text
env_or none d = d
env_or (some t) d = t

-- `host or os.environ.get("SANDSTORM_AGENT_HOST", "127.0.0.1")`
unfoldable pub choose_host : Environment → Option Text → Text
choose_host env none = env_or (env "SANDSTORM_AGENT_HOST") (codes "127.0.0.1")
choose_host env (some h) = or_text h (env_or (env "SANDSTORM_AGENT_HOST") (codes "127.0.0.1"))

-- `token if token is not None else os.environ.get("SANDSTORM_TOKEN")`
unfoldable pub choose_token : Environment → Option Text → Option Text
choose_token env none = env "SANDSTORM_TOKEN"
choose_token env (some t) = some t

module _ {F : Type 0} (rt : Runtime F) where
  env_port : Option Text → Except F ℤ
  env_port none = ok (pos default_agent_port)
  env_port (some t) = parsed (rt.int_of_text t)

  -- `port or int(os.environ.get("SANDSTORM_AGENT_PORT", DEFAULT_AGENT_PORT))`
  unfoldable pub choose_port : Environment → Option ℤ → Except F ℤ
  unfolding env_port
  choose_port env none = env_port (env "SANDSTORM_AGENT_PORT")
  choose_port env (some p) =
      if int_eq p (pos 0) then env_port (env "SANDSTORM_AGENT_PORT") else ok p

-- `has_session` is `_session is not None`; the session stands on the device's own client.
pub record Device (F : Type 0) : Type 0 where
  pub client : Client F
  pub has_session : Bool

module _ {F : Type 0} where
  -- Every failure to connect is one error.
  abbrev after_connect :
      Device F → {A : Type 0} → Except F A × Client F → Except F (Unit {0}) × Device F
  after_connect d (ok h, c) = (ok tt, record { client = c; has_session = true })
  after_connect d (err e, c) =
      (err (raised agent_not_running "No Sandstorm agent answered"), record d { client = c })

  -- The property `session`: the rest of a method, if there is a session.
  abbrev pub with_session : {A : Type 0} → Action F (Client F) A → Action F (Device F) A
  with_session m d =
      if d.has_session
      then (let (r, c) = m d.client in (r, record d { client = c }))
      else (err (raised agent_not_running "Device is not connected; call connect() first"), d)

  unfoldable pub device_disconnect : Device F → Device F
  device_disconnect d =
      if d.has_session then record { client = session_close d.client; has_session = false } else d

  unfoldable pub info : Device F → Except F (DeviceInfo F)
  info d =
      if d.has_session
      then device_info d.client
      else err (raised agent_not_running "Device is not connected; call connect() first")

  unfoldable pub device_is_connected : Device F → Bool
  device_is_connected d = d.has_session

  -- `result["latency"] = x` on a copy of the fields
  unfoldable pub put : String → Json F → Fields F → Fields F
  put k v end = field k v end
  put k v (field j w d) = if str_eq j k then field j v d else field j w (put k v d)

  -- `dict(x)`
  abbrev to_dict : Json F → Except F (Fields F)
  to_dict (obj d) = ok d
  to_dict _ = err type_error

module _ {F : Type 0} ⦃rt : Runtime F⦄ where
  -- The log line at the end reads `self.info`, which is there after a handshake.
  unfoldable pub device_connect : ℕ → Action F (Device F) (Unit {0})
  device_connect retries d = after_connect d (connect retries d.client)

  unfoldable pub device_ping : Action F (Device F) F
  device_ping = with_session session_ping

  unfoldable pub health : Action F (Device F) (Fields F)
  health = with_session (
      bind (session_result "session.info" end none) (λ result.
        bind (λ c. (to_dict result, c))
          (λ d. bind session_ping (λ latency. pure (put "latency" (float latency) d)))))

  -- Ends the run and closes the socket.
  unfoldable pub device_stop_agent : Action F (Device F) (Unit {0})
  device_stop_agent d =
      if d.has_session
      then (ok tt, device_disconnect (record d { client = session_stop_agent d.client }))
      else (err (raised agent_not_running "Device is not connected; call connect() first"), d)
