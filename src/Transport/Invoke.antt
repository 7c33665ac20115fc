-- ===== src/Transport/Invoke.antt =====
-- `invoke` of `IOSControllerClient`: one command, its reply, and the attempts around it.
pub mod Waiting
pub mod Keeps
pub mod Coherence
pub mod Outcomes
pub mod Replies
use sandstorm_ios_driver.Prelude.{
  ℕ, zero, suc, ◌+◌, ◌==◌, String, Bool, true, false, not, Option, none, some, List, [], ◌∷◌,
  length, if◌then◌else◌,
}
use sandstorm_ios_driver.Prelude.Int.{ℤ, pos, int_eq}
use sandstorm_ios_driver.Python.Json.{Json, null, int, obj, Fields, end}
use sandstorm_ios_driver.Python.Exception.{
  Exc, ios, no_fuel, command_timeout, session_lost, protocol_error, Except, ok, err, Action, pure,
  raise, bind, continue, ◌>>=◌,
}
use sandstorm_ios_driver.Python.Runtime.{
  Runtime, truthy, lookup, lookup_or, default, or_json, to_int, parsed,
}
use sandstorm_ios_driver.Errors.{raised, error_from_payload}
use sandstorm_ios_driver.Protocol.Framing.{json_frame, binary_frame}
use sandstorm_ios_driver.Protocol.Framing.Stream.{size}
use sandstorm_ios_driver.Protocol.Messages.{Command, Response, command_to_wire, response_from_wire}
use sandstorm_ios_driver.Transport.Net.{Socket}
use sandstorm_ios_driver.Transport.Client.{
  Client, close, client_read, monotonic, lift, send_json, raise_payload, connect, is_lost,
  is_connection,
}

abbrev pub incoming_size : Option Socket → ℕ
incoming_size none = 0
incoming_size (some s) = size s.incoming

abbrev pub default_timeout : {F : Type 0} → F → Option F → F
default_timeout t none = t
default_timeout t (some u) = u

abbrev pub attempts : Bool → ℕ → ℕ
attempts retry max_retries = if retry then suc max_retries else 1

abbrev pub Attempt : Type 0 → Type 0
Attempt F = Action F (Client F) (Response F)

module _ {F : Type 0} ⦃rt : Runtime F⦄ where
  -- The checks on the binary frame behind a response that announces one.
  unfoldable pub check_attachment : Json F → ℕ × List ℕ → Except F (Option (List ℕ))
  check_attachment descriptor (binary_type, bytes) =
      if not (binary_type == binary_frame)
      then err (raised protocol_error "Expected a binary attachment frame")
      else lookup_or descriptor "length" (int (pos (length bytes))) >>= λ announced.
          to_int announced >>= λ n.
          if not (int_eq (pos (length bytes)) n)
          then err (raised protocol_error "Truncated binary attachment")
          else ok (some bytes)

  unfoldable pub attachment : Json F → Action F (Client F) (Option (List ℕ))
  unfolding check_attachment
  attachment descriptor c =
      if truthy descriptor
      then bind client_read (λ frame. lift (check_attachment descriptor frame)) c
      else (ok none, c)

  abbrev pub with_attachment : Json F → Option (List ℕ) → Action F (Client F) (Response F)
  with_attachment message binary = lift (response_from_wire message binary)

  abbrev pub with_descriptor : Json F → Json F → Action F (Client F) (Response F)
  with_descriptor message descriptor = bind (attachment descriptor) (with_attachment message)

  abbrev pub with_message : Json F → Action F (Client F) (Response F)
  with_message message = bind (lift (lookup_or message "binary" null)) (with_descriptor message)

  -- What follows on the frame of a response.
  unfoldable pub with_frame : ℕ × List ℕ → Action F (Client F) (Response F)
  with_frame (frame_type, bytes) c =
      if not (frame_type == json_frame)
      then (err (raised protocol_error "Unexpected binary frame"), c)
      else bind (lift (parsed (rt.loads bytes))) with_message c

  -- One response with its attachment: the body of the loop up to the test of the id.
  unfoldable pub read_response : Action F (Client F) (Response F)
  unfolding attachment with_frame
  read_response = bind client_read with_frame

  -- `while True:`. Each round takes the bytes of a frame off the socket.
  unfoldable pub await_reply : ℕ → ℕ → F → Action F (Client F) (Response F)
  await_reply zero id deadline = raise no_fuel
  await_reply (suc fuel) id deadline = bind read_response λ response.
      if int_eq response.id (pos id)
      then pure response
      else bind monotonic λ now.
        if rt.lt deadline now
        then raise (raised command_timeout "timed out waiting for a matching reply")
        else await_reply fuel id deadline

  abbrev pub exchange : String → Fields F → F → Action F (Client F) (Response F)
  exchange method params timeout c =
      bind
        (send_json (command_to_wire (record { id = c.next_id; method = method; params = params })))
        (λ _.
          bind monotonic
            λ now c'. await_reply (suc (incoming_size c'.socket)) c.next_id (rt.add now timeout) c')
        c

  abbrev pub on_session :
      Option Socket → String → Fields F → Option F → Action F (Client F) (Response F)
  on_session none method params timeout c =
      (err (raised session_lost "Not connected to an agent"), c)
  on_session (some s) method params timeout c =
      exchange method params (default_timeout c.command_timeout timeout)
        (record c { next_id = c.next_id + 1 })

  unfoldable pub invoke_once : String → Fields F → Option F → Action F (Client F) (Response F)
  invoke_once method params timeout c = on_session c.socket method params timeout c

  -- The body of the `try` in `invoke`.
  unfoldable pub checked : Except F (Response F) → Except F (Response F)
  checked (ok r) = if r.success then ok r else raise_payload (or_json r.error (obj end))
  checked (err e) = err e

  -- After `self.connect(retries=1)`: only an `IOSAgentConnectionError` is swallowed.
  abbrev pub resume :
      {A : Type 0} → Attempt F → Except F A × Client F → Except F (Response F) × Client F
  resume again (ok h, c) = again c
  resume again (err e, c) = if is_connection e then again c else (err e, c)

  -- Reconnecting, unless the failed attempt was the last: `n` attempts are left.
  unfoldable pub reconnect : ℕ → Attempt F → Attempt F
  reconnect zero again c = again c
  reconnect (suc n) again c = resume again (connect 1 c)

  abbrev pub after_attempt :
      ℕ → Attempt F → Except F (Response F) × Client F → Except F (Response F) × Client F
  after_attempt n again (ok r, c) = (ok r, c)
  after_attempt n again (err e, c) = if is_lost e then reconnect n again (close c) else (err e, c)

  unfoldable pub try_once : String → Fields F → Option F → Action F (Client F) (Response F)
  try_once method params timeout c =
      let (r, c') = invoke_once method params timeout c in (checked r, c')

  -- `for attempt in range(n)`
  unfoldable pub invoke_loop : ℕ → String → Fields F → Option F → Action F (Client F) (Response F)
  invoke_loop zero method params timeout c = (err (raised session_lost "Lost the agent session"), c)
  invoke_loop (suc n) method params timeout c =
      after_attempt n (invoke_loop n method params timeout) (try_once method params timeout c)

  unfoldable pub invoke : String → Fields F → Option F → Bool → Action F (Client F) (Response F)
  invoke method params timeout retry c =
      invoke_loop (attempts retry c.max_retries) method params timeout c

  -- `ping` returns the seconds that it took; 5.0 is its default timeout.
  unfoldable pub ping : F → Action F (Client F) F
  ping timeout = bind monotonic λ started.
      bind (invoke "session.ping" end (some timeout) true)
        λ _. bind monotonic λ now. pure (rt.sub now started)

  abbrev pub succeeded : {A : Type 0} → Except F A → Bool
  succeeded (ok a) = true
  succeeded (err e) = false

  unfoldable pub is_healthy : F → Client F → Bool × Client F
  is_healthy timeout c = let (r, c') = ping timeout c in (succeeded r, c')
