-- ===== src/Transport/Client.antt =====
-- The state of `IOSControllerClient`, its handshake and its connection loop.
pub mod Connecting
pub mod Unclosed
use sandstorm_ios_driver.Prelude.{
  ℕ, zero, suc, ◌+◌, ◌==◌, Bool, true, false, not, Option, none, some, List, [], ◌∷◌, if◌then◌else◌,
}
use sandstorm_ios_driver.Prelude.Int.{pos, int_eq}
use sandstorm_ios_driver.Prelude.Text.{Text}
use sandstorm_ios_driver.Python.Json.{Json, bool, obj, end}
use sandstorm_ios_driver.Python.Exception.{
  ErrorClass, Exc, ios, os_error, socket_timeout, assertion_error, agent_connection_error,
  session_lost, protocol_error, Except, ok, err, Action, pure, raise, bind, continue, ◌>>=◌,
}
use sandstorm_ios_driver.Python.Runtime.{Runtime, lookup, or_else, parsed}
use sandstorm_ios_driver.Errors.{raised, error_from_payload}
use sandstorm_ios_driver.Protocol.Framing.{json_frame, encode_frame, read_frame}
use sandstorm_ios_driver.Protocol.Messages.{
  Handshake, build_handshake_request, handshake_from_wire, protocol_version,
}
use sandstorm_ios_driver.Transport.Net.{Socket, Dial, refused, accepted, sendall, write_errors}

-- The fields of the object, with what the world will do: the dials to come and the clock, whose
-- n-th reading is `clock n`. The reader stands on the socket, and is there when the socket is.
pub record Client (F : Type 0) : Type 0 where
  pub token : Option Text
  pub client_version : Text
  pub command_timeout : F
  pub max_retries : ℕ
  pub socket : Option Socket
  pub next_id : ℕ
  pub handshake : Option (Handshake F)
  pub dials : List Dial
  pub clock : ℕ → F
  pub ticks : ℕ

abbrev pub is_some : {A : Type 0} → Option A → Bool
is_some none = false
is_some (some a) = true

abbrev pub is_lost_kind : ErrorClass → Bool
is_lost_kind agent_connection_error = true
is_lost_kind session_lost = true
is_lost_kind _ = false

abbrev pub is_connection_kind : ErrorClass → Bool
is_connection_kind agent_connection_error = true
is_connection_kind _ = false

module _ {F : Type 0} where
  unfoldable pub is_connected : Client F → Bool
  is_connected c = is_some c.socket

  -- The property `handshake`.
  abbrev given_handshake : Option (Handshake F) → Except F (Handshake F)
  given_handshake none = err (raised session_lost "Not connected to an agent")
  given_handshake (some h) = ok h

  unfoldable pub get_handshake : Client F → Except F (Handshake F)
  get_handshake c = given_handshake c.handshake

  unfoldable pub close : Client F → Client F
  close c = record c { socket = none; handshake = none }

  abbrev pub dial : Client F → List Dial → Except F (Unit {0}) × Client F
  dial c [] = (err os_error, c)
  dial c (refused ∷ dials) = (err os_error, record c { dials = dials })
  dial c (accepted s ∷ dials) = (ok tt, record c { socket = some s; dials = dials })

  unfoldable pub open_socket : Action F (Client F) (Unit {0})
  open_socket c = dial c c.dials

  -- A call on the client's socket, which `assert` wants to be there.
  abbrev pub on_socket : {A : Type 0} → Action F Socket A → Option Socket → Action F (Client F) A
  on_socket m none c = (err assertion_error, c)
  on_socket m (some s) c = let (r, s') = m s in (r, record c { socket = some s' })

  abbrev pub send_frame : Except F (List ℕ) → Action F Socket (Unit {0})
  send_frame (ok frame) s = let (r, s') = sendall frame s in (write_errors r, s')
  send_frame (err e) s = (err e, s)

  abbrev pub receive : Action F Socket (ℕ × List ℕ)
  receive s = let (r, incoming) = read_frame s.incoming in (r, record s { incoming = incoming })

  -- `self._reader.read_frame()`
  unfoldable pub client_read : Action F (Client F) (ℕ × List ℕ)
  client_read c = on_socket receive c.socket c

  -- `time.monotonic()`
  unfoldable pub monotonic : Action F (Client F) F
  monotonic c = (ok (c.clock c.ticks), record c { ticks = c.ticks + 1 })

  abbrev pub lift : {A : Type 0} → Except F A → Action F (Client F) A
  lift r c = (r, c)

  abbrev pub is_false : Option (Json F) → Bool
  is_false (some (bool false)) = true
  is_false _ = false

  -- `except (IOSAgentConnectionError, IOSSessionLost)`, and the inner
  -- `except IOSAgentConnectionError`, of `invoke`
  unfoldable pub is_lost : Exc F → Bool
  is_lost (ios e) = is_lost_kind e.kind
  is_lost _ = false

  unfoldable pub is_connection : Exc F → Bool
  is_connection (ios e) = is_connection_kind e.kind
  is_connection _ = false

  -- `except (IOSAgentConnectionError, OSError)`
  unfoldable pub retries_connect : Exc F → Bool
  retries_connect (ios e) = is_connection_kind e.kind
  retries_connect os_error = true
  retries_connect socket_timeout = true
  retries_connect _ = false

module _ {F : Type 0} ⦃rt : Runtime F⦄ where
  unfoldable pub send_json : Json F → Action F (Client F) (Unit {0})
  send_json payload c =
      on_socket (send_frame (encode_frame json_frame (rt.dumps payload))) c.socket c

  -- `raise error_from_payload(payload)`
  abbrev pub raise_payload : {A : Type 0} → Json F → Except F A
  raise_payload payload = error_from_payload payload >>= λ e. err (ios e)

  -- The checks on the agent's reply to the handshake.
  unfoldable pub accept_handshake : Json F → Except F (Handshake F)
  accept_handshake message = lookup message "success" >>= λ success.
      if is_false success
      then (lookup message "error" >>= λ e. raise_payload (or_else e (obj end)))
      else (handshake_from_wire message >>= λ h.
          if int_eq h.version (pos protocol_version)
          then ok h
          else err (raised protocol_error "Protocol mismatch"))

  -- The frame that answers the handshake.
  unfoldable pub check_reply : ℕ × List ℕ → Action F (Client F) (Handshake F)
  check_reply (frame_type, bytes) c =
      if not (frame_type == json_frame)
      then (err (raised protocol_error "Agent answered the handshake with a binary frame"), c)
      else (parsed (rt.loads bytes) >>= accept_handshake, c)

  unfoldable pub perform_handshake : Action F (Client F) (Handshake F)
  unfolding check_reply
  perform_handshake c =
      bind (send_json (build_handshake_request c.token c.client_version))
        (λ _. bind client_read check_reply) c

  abbrev pub set_handshake : Handshake F → Action F (Client F) (Handshake F)
  set_handshake h c = (ok h, record c { handshake = some h })

  -- The body of the `try` in `connect`.
  unfoldable pub connect_once : Action F (Client F) (Handshake F)
  connect_once = bind open_socket (λ _. bind perform_handshake set_handshake)

  abbrev pub after_connect :
      (Client F → Except F (Handshake F) × Client F)
      → Except F (Handshake F) × Client F
      → Except F (Handshake F) × Client F
  after_connect again (ok h, c) = (ok h, c)
  after_connect again (err e, c) = if retries_connect e then again (close c) else (err e, c)

  -- `for attempt in range(n)`
  unfoldable pub connect_loop : ℕ → Action F (Client F) (Handshake F)
  connect_loop zero c = (err (raised agent_connection_error "Could not connect to the agent"), c)
  connect_loop (suc n) c = after_connect (connect_loop n) (connect_once c)

  unfoldable pub connect : ℕ → Action F (Client F) (Handshake F)
  connect retries = connect_loop (suc retries)
