-- ===== src/Sdk/Session.antt =====
-- ios-sdk/sandstorm_ios/sdk/session.py. A session is its client, so the state is the client's.
pub mod Closed
use sandstorm_ios_driver.Prelude.{
  ℕ, String, Bool, true, false, ◌&&◌, Option, none, some, if◌then◌else◌,
}
use sandstorm_ios_driver.Prelude.Int.{pos}
use sandstorm_ios_driver.Prelude.Text.{Text}
use sandstorm_ios_driver.Python.Json.{Json, Fields, end}
use sandstorm_ios_driver.Python.Exception.{
  Except, ok, err, Action, session_lost, pure, raise, bind, ◌>>=◌,
}
use sandstorm_ios_driver.Python.Runtime.{Runtime}
use sandstorm_ios_driver.Errors.{raised}
use sandstorm_ios_driver.Protocol.Messages.{Response, Handshake, DeviceInfo}
use sandstorm_ios_driver.Transport.Client.{Client, is_connected, close, get_handshake}
use sandstorm_ios_driver.Transport.Invoke.{invoke, ping, is_healthy}

module _ {F : Type 0} where
  unfoldable pub session_id : Client F → Except F Text
  session_id c = get_handshake c >>= λ h. ok h.session_id

  unfoldable pub agent_version : Client F → Except F Text
  agent_version c = get_handshake c >>= λ h. ok h.agent_version

  unfoldable pub device_info : Client F → Except F (DeviceInfo F)
  device_info c = get_handshake c >>= λ h. ok h.device

  unfoldable pub session_close : Client F → Client F
  session_close c = close c

module _ {F : Type 0} ⦃rt : Runtime F⦄ where
  -- A literal of the source, such as `30.0`.
  abbrev pub seconds : ℕ → F
  seconds n = rt.of_ℤ (pos n)

  -- 3.0 is the timeout of a health check.
  unfoldable pub is_alive : Client F → Bool × Client F
  is_alive c = if is_connected c then is_healthy (seconds 3) c else (false, c)

  unfoldable pub session_invoke :
      String → Fields F → Option F → Bool → Action F (Client F) (Response F)
  session_invoke method params timeout retry c =
      if is_connected c
      then invoke method params timeout retry c
      else (err (raised session_lost "Session is closed"), c)

  unfoldable pub session_result : String → Fields F → Option F → Action F (Client F) (Json F)
  session_result method params timeout =
      bind (session_invoke method params timeout true) (λ r. pure r.result)

  unfoldable pub session_ping : Action F (Client F) F
  session_ping = ping (seconds 5)

  -- Whatever the command's outcome, the client is closed.
  unfoldable pub session_stop_agent : Client F → Client F
  session_stop_agent c =
      let (_, c') = session_invoke "session.stop" end (some (seconds 5)) false c in close c'
