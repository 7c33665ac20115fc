-- ===== src/Transport/Net.antt =====
-- The sockets that the client dials, as scripts of what the peer and the network do.
use sandstorm_ios_driver.Prelude.{ℕ, List, [], ◌∷◌, ◌++◌}
use sandstorm_ios_driver.Python.Exception.{
  Except, ok, err, Action, os_error, socket_timeout, command_timeout, agent_connection_error,
}
use sandstorm_ios_driver.Errors.{raised}
use sandstorm_ios_driver.Protocol.Framing.{Arrival}

-- What a `sendall` meets. A script that has ended accepts every write.
pub data Delivery : Type 0 where
  delivered write_silence write_failure : Delivery

-- `sent` holds the frames that were written whole.
pub record Socket : Type 0 where
  pub incoming : List Arrival
  pub deliveries : List Delivery
  pub sent : List (List ℕ)

-- `socket.create_connection` with `setsockopt`: an `OSError`, or a socket.
pub data Dial : Type 0 where
  refused : Dial
  accepted : Socket → Dial

module _ {F : Type 0} where
  abbrev pub delivery : List Delivery → Except F (Unit {0}) × List Delivery
  delivery [] = (ok tt, [])
  delivery (delivered ∷ later) = (ok tt, later)
  delivery (write_silence ∷ later) = (err socket_timeout, later)
  delivery (write_failure ∷ later) = (err os_error, later)

  abbrev pub written :
      List ℕ → Socket → Except F (Unit {0}) × List Delivery → Except F (Unit {0}) × Socket
  written bytes s (ok u, later) =
      (ok u, record s { deliveries = later; sent = s.sent ++ (bytes ∷ []) })
  written bytes s (err e, later) = (err e, record s { deliveries = later })

  -- `sock.sendall(bytes)`
  unfoldable pub sendall : List ℕ → Action F Socket (Unit {0})
  sendall bytes s = written bytes s (delivery s.deliveries)

  -- The handlers of `_send_json`.
  abbrev pub write_errors : Except F (Unit {0}) → Except F (Unit {0})
  write_errors (ok u) = ok u
  write_errors (err socket_timeout) = err (raised command_timeout "Timed out writing to the agent")
  write_errors (err os_error) = err (raised agent_connection_error "Failed to write to the agent")
  write_errors (err e) = err e
