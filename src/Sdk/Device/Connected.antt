-- ===== src/Sdk/Device/Connected.antt =====
-- The device after `connect`.
use sandstorm_ios_driver.Prelude.{ℕ, ◌≡◌, refl, true}
use sandstorm_ios_driver.Python.Exception.{Except, ok, err, agent_not_running}
use sandstorm_ios_driver.Python.Runtime.{Runtime}
use sandstorm_ios_driver.Errors.{raised}
use sandstorm_ios_driver.Protocol.Messages.{Handshake}
use sandstorm_ios_driver.Transport.Client.{Client, is_connected, get_handshake, connect}
use sandstorm_ios_driver.Transport.Client.Connecting.{Connects, connect-Connects}
use sandstorm_ios_driver.Sdk.Session.{device_info, session_id, agent_version}
use sandstorm_ios_driver.Sdk.Device.{
  Device, after_connect, device_connect, device_is_connected, info,
}

-- The outcome for a device, by that of `connect` of its client. After a handshake there is a session
-- whose client is connected, and the device, the session and the version that are read from it are
-- those of the handshake. After any error it is `IOSAgentNotRunning`, with the session as it was.
abbrev pub Connected :
    {F : Type 0}
    → Except F (Handshake F) × Client F
    → Device F
    → Except F (Unit {0}) × Device F
    → Type 0
Connected (ok h, c) before (r, d) =
    (r ≡ ok tt)
    × (device_is_connected d ≡ true)
    × (is_connected d.client ≡ true)
    × (info d ≡ ok h.device)
    × (session_id d.client ≡ ok h.session_id)
    × (agent_version d.client ≡ ok h.agent_version)
Connected (err e, c) before (r, d) =
    (r ≡ err (raised agent_not_running "No Sandstorm agent answered"))
    × (device_is_connected d ≡ device_is_connected before)

module _ {F : Type 0} ⦃rt : Runtime F⦄ where
  from_connect :
      (n : ℕ) (d : Device F) (out : Except F (Handshake F) × Client F)
      → Connects n out
      → Connected out d (after_connect d out)
  unfolding device_is_connected is_connected info device_info session_id agent_version get_handshake
  from_connect n d (ok h, c) connects =
      let e = connects.0.1 in (refl, refl, connects.0.0, rw e refl, rw e refl, rw e refl)
  from_connect n d (err e, c) connects = (refl, refl)

  -- `connect` of a device, with any number of retries and on any network: where `connect` of its
  -- client returns a handshake, there is a session, its client has a socket, and `info`,
  -- `session_id` and `agent_version` are those of this handshake; where it raises, whatever the
  -- error, `IOSAgentNotRunning` is raised, and the device has a session if it had one before.
  pub device_connect-Connected :
      (retries : ℕ) (d : Device F)
      → Connected (connect retries d.client) d (device_connect retries d)
  unfolding device_connect
  device_connect-Connected retries d =
      from_connect d.client.next_id d (connect retries d.client) (connect-Connects retries d.client)
