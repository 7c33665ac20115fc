-- ===== src/Sdk/Session/Closed.antt =====
-- What is left of a session after the agent was stopped or the session closed.
use sandstorm_ios_driver.Prelude.{◌≡◌, refl, String, Bool, Option, false}
use sandstorm_ios_driver.Python.Json.{Fields}
use sandstorm_ios_driver.Python.Exception.{err, session_lost}
use sandstorm_ios_driver.Python.Runtime.{Runtime}
use sandstorm_ios_driver.Errors.{raised}
use sandstorm_ios_driver.Transport.Client.{Client, close, is_connected, get_handshake}
use sandstorm_ios_driver.Sdk.Session.{
  session_invoke, session_stop_agent, session_id, is_alive, session_result, agent_version,
  device_info,
}

module _ {F : Type 0} ⦃rt : Runtime F⦄ where
  stop_agent-closes : (c : Client F) → is_connected (session_stop_agent c) ≡ false
  unfolding session_stop_agent close is_connected
  stop_agent-closes c = refl

  -- After `stop_agent`, whatever the agent answered, `invoke` and `result` refuse every command with
  -- `IOSSessionLost` and leave the client as it is, so they send nothing; the session is not alive,
  -- which is found without a command; and `id`, `agent_version` and `device_info` raise
  -- `IOSSessionLost`. These are the operations of a session but `ping`.
  pub stop_agent-refuses :
      (method : String) (params : Fields F) (timeout : Option F) (retry : Bool) (c : Client F)
      → (session_invoke method params timeout retry (session_stop_agent c)
          ≡ (err (raised session_lost "Session is closed"), session_stop_agent c))
        × (session_result method params timeout (session_stop_agent c)
            ≡ (err (raised session_lost "Session is closed"), session_stop_agent c))
        × (is_alive (session_stop_agent c) ≡ (false, session_stop_agent c))
        × (session_id (session_stop_agent c)
            ≡ err (raised session_lost "Not connected to an agent"))
        × (agent_version (session_stop_agent c)
            ≡ err (raised session_lost "Not connected to an agent"))
        × (device_info (session_stop_agent c)
            ≡ err (raised session_lost "Not connected to an agent"))
  unfolding session_invoke session_result is_alive session_id agent_version device_info
      get_handshake session_stop_agent close is_connected
  stop_agent-refuses method params timeout retry c = (refl, refl, refl, refl, refl, refl)
