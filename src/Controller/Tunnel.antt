-- ===== src/Controller/Tunnel.antt =====
-- ios-controller/sandstorm_controller/tunnel.py: the way to the agent's port.
use sandstorm_ios_driver.Prelude.{
  ℕ, Bool, true, false, Option, none, some, List, [], ◌∷◌, ◌++◌, ◌==◌, if◌then◌else◌,
}
use sandstorm_ios_driver.Prelude.Int.{pos}
use sandstorm_ios_driver.Prelude.Text.{Text, codes}
use sandstorm_ios_driver.Python.Json.{int}
use sandstorm_ios_driver.Python.Exception.{Except, ok, err, agent_connection_error, ◌>>=◌}
use sandstorm_ios_driver.Python.Runtime.{Runtime}
use sandstorm_ios_driver.Errors.{raised}
use sandstorm_ios_driver.Controller.Devices.{DeviceRecord, is_simulator}

-- The state of the forwarding process: running, or ended.
pub data Process : Type 0 where
  running ended : Process

pub record Tunnel : Type 0 where
  pub host : Text
  pub local_port : ℕ
  pub device_port : ℕ
  pub process : Option Process

abbrev pub is_running : Option Process → Bool
is_running none = true
is_running (some running) = true
is_running (some ended) = false

unfoldable pub is_active : Tunnel → Bool
is_active t = is_running t.process

abbrev closed : Option Process → Option Process
closed none = none
closed (some p) = some ended

-- A process that runs is ended, by `terminate` or by `kill`.
unfoldable pub close : Tunnel → Tunnel
close t = record t { process = closed t.process }

-- What the system answers: the tools on the path, a free port, and how the process is after the wait.
pub record System : Type 0 where
  pub has_iproxy : Bool
  pub has_pymobiledevice3 : Bool
  pub free_port : ℕ
  pub after_start : Process

module _ {F : Type 0} (rt : Runtime F) where
  abbrev number : ℕ → Text
  number n = rt.show (int (pos n))

  unfoldable pub forward_command : System → Text → ℕ → ℕ → Except F (List Text)
  forward_command sys udid local_port device_port =
      if sys.has_iproxy
      then ok (
          codes "iproxy"
          ∷ (number local_port ++ (codes ":" ++ number device_port))
          ∷ codes "-u"
          ∷ udid
          ∷ [])
      else if sys.has_pymobiledevice3
      then ok (
          codes "pymobiledevice3"
          ∷ codes "usbmux"
          ∷ codes "forward"
          ∷ number local_port
          ∷ number device_port
          ∷ codes "--serial"
          ∷ udid
          ∷ codes "--no-color"
          ∷ [])
      else err (raised agent_connection_error "No USB forwarder found")

  -- `local_port or allocate_port()`
  abbrev port_or : Option ℕ → ℕ → ℕ
  port_or none free = free
  port_or (some p) free = if p == 0 then free else p

  abbrev started : ℕ → ℕ → Process → Except F Tunnel
  started port device_port ended =
      err (raised agent_connection_error "USB tunnel exited immediately")
  started port device_port running = ok (record {
    host = codes "127.0.0.1";
    local_port = port;
    device_port = device_port;
    process = some running;
  })

  unfoldable pub open_tunnel : System → DeviceRecord → ℕ → Option ℕ → Except F Tunnel
  unfolding forward_command
  open_tunnel sys device device_port local_port =
      if is_simulator device
      then ok (record {
        host = codes "127.0.0.1";
        local_port = device_port;
        device_port = device_port;
        process = none;
      })
      else (forward_command sys device.udid (port_or local_port sys.free_port) device_port
          >>= λ command. started (port_or local_port sys.free_port) device_port sys.after_start)
