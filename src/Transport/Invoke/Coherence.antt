-- ===== src/Transport/Invoke/Coherence.antt =====
-- The invariant of the client's state: a handshake only beside a socket.
use sandstorm_ios_driver.Prelude.{
  ℕ, zero, suc, ◌+◌, ◌≡◌, refl, Bool-cases, inl, inr, Option, none, some, List, true, Bool,
}
use sandstorm_ios_driver.Python.Json.{Json, Fields}
use sandstorm_ios_driver.Python.Exception.{Except, ok, err, Action, bind, continue}
use sandstorm_ios_driver.Python.Runtime.{Runtime}
use sandstorm_ios_driver.Protocol.Messages.{Response}
use sandstorm_ios_driver.Transport.Net.{Socket}
use sandstorm_ios_driver.Transport.Client.{Client, on_socket, receive, client_read, monotonic}
use sandstorm_ios_driver.Transport.Raises.{Keeps-continue}
use sandstorm_ios_driver.Prelude.{[], ◌∷◌, ◌⊎◌, String, suc}
use sandstorm_ios_driver.Protocol.Messages.{Handshake}
use sandstorm_ios_driver.Transport.Net.{Dial, refused, accepted}
use sandstorm_ios_driver.Transport.Client.{
  is_some, close, dial, open_socket, send_json, perform_handshake, set_handshake, connect_once,
  after_connect, connect_loop, connect, retries_connect, is_lost, is_connection,
}
use sandstorm_ios_driver.Transport.Client.Connecting.{HasSocket, perform_handshake-socket}
use sandstorm_ios_driver.Transport.Invoke.Keeps.{await_reply-Keeps}
use sandstorm_ios_driver.Transport.Invoke.{
  exchange, on_session, invoke_once, default_timeout, Attempt, resume, reconnect, after_attempt,
  try_once, invoke_loop, invoke, attempts,
}

-- The client has no handshake, or a socket.
abbrev pub Coherent : {F : Type 0} → Client F → Type 0
Coherent c = (c.handshake ≡ none) ⊎ (is_some c.socket ≡ true)

module _ {F : Type 0} where
  on_socket-Coherent :
      {A : Type 0} (m : Action F Socket A) (o : Option Socket) (c : Client F)
      → Coherent c
      → Coherent (on_socket m o c).1
  on_socket-Coherent m none c h = h
  on_socket-Coherent m (some s) c h = inr refl

  client_read-Coherent : (c : Client F) → Coherent c → Coherent (client_read c).1
  unfolding client_read
  client_read-Coherent c h = on_socket-Coherent receive c.socket c h

  close-Coherent : (c : Client F) → Coherent (close c)
  unfolding close
  close-Coherent c = inl refl

  -- A dial that is refused changes nothing but the dials to come.
  after_dial :
      {A : Type 0} (rest : Unit {0} → Action F (Client F) A) (c : Client F) (dials : List Dial)
      → Coherent c
      → ((c₁ : Client F) → HasSocket c₁ → HasSocket (rest tt c₁).1)
      → Coherent (continue rest (dial c dials)).1
  after_dial rest c [] h keeps = h
  after_dial rest c (refused ∷ dials) h keeps = h
  after_dial rest c (accepted s ∷ dials) h keeps =
      inr (keeps (record c { socket = some s; dials = dials }) refl)

module _ {F : Type 0} ⦃rt : Runtime F⦄ where
  send_json-Coherent : (j : Json F) (c : Client F) → Coherent c → Coherent (send_json j c).1
  unfolding send_json
  send_json-Coherent j c h = on_socket-Coherent _ c.socket c h

  connect_once-Coherent : (c : Client F) → Coherent c → Coherent (connect_once c).1
  unfolding connect_once open_socket
  connect_once-Coherent c h =
      after_dial (λ _. bind perform_handshake set_handshake) c c.dials h
        (λ c₁ h₁.
          Keeps-continue HasSocket set_handshake (perform_handshake c₁)
            (perform_handshake-socket c₁ h₁) (λ h c₂ h₂. h₂))

  after_connect-Coherent :
      (again : Client F → Except F (Handshake F) × Client F)
      (out : Except F (Handshake F) × Client F)
      → Coherent out.1
      → ((c : Client F) → Coherent c → Coherent (again c).1)
      → Coherent (after_connect again out).1
  after_connect-Coherent again (ok h, c) k later = k
  after_connect-Coherent again (err e, c) k later = elim (Bool-cases (retries_connect e)) [
    | inl retries ↦ rw retries (later (close c) (close-Coherent c))
    | inr raises ↦ rw raises k
  ]

  connect_loop-Coherent : (n : ℕ) (c : Client F) → Coherent c → Coherent (connect_loop n c).1
  unfolding connect_loop
  connect_loop-Coherent zero c h = h
  connect_loop-Coherent (suc n) c h =
      after_connect-Coherent (connect_loop n) (connect_once c) (connect_once-Coherent c h)
        (λ c₁ h₁. connect_loop-Coherent n c₁ h₁)

  exchange-Coherent :
      (method : String) (params : Fields F) (timeout : F) (c : Client F)
      → Coherent c
      → Coherent (exchange method params timeout c).1
  unfolding monotonic
  exchange-Coherent method params timeout c h =
      Keeps-continue Coherent _ (send_json _ c) (send_json-Coherent _ c h) (λ _ c₁ h₁.
        await_reply-Keeps Coherent client_read-Coherent (λ c₂ h₂. h₂) _ c.next_id _
          (record c₁ { ticks = c₁.ticks + 1 }) h₁)

  on_session-Coherent :
      (o : Option Socket) (method : String) (params : Fields F) (timeout : Option F) (c : Client F)
      → Coherent c
      → Coherent (on_session o method params timeout c).1
  on_session-Coherent none method params timeout c h = h
  on_session-Coherent (some s) method params timeout c h =
      exchange-Coherent method params (default_timeout c.command_timeout timeout)
        (record c { next_id = c.next_id + 1 }) h

  try_once-Coherent :
      (method : String) (params : Fields F) (timeout : Option F) (c : Client F)
      → Coherent c
      → Coherent (try_once method params timeout c).1
  unfolding try_once invoke_once
  try_once-Coherent method params timeout c h =
      on_session-Coherent c.socket method params timeout c h

  resume-Coherent :
      (again : Attempt F) (out : Except F (Handshake F) × Client F)
      → Coherent out.1
      → ((c : Client F) → Coherent c → Coherent (again c).1)
      → Coherent (resume again out).1
  resume-Coherent again (ok h, c) k later = later c k
  resume-Coherent again (err e, c) k later = elim (Bool-cases (is_connection e)) [
    | inl connection ↦ rw connection (later c k)
    | inr other ↦ rw other k
  ]

  reconnect-Coherent :
      (n : ℕ) (again : Attempt F) (c : Client F)
      → Coherent c
      → ((c₁ : Client F) → Coherent c₁ → Coherent (again c₁).1)
      → Coherent (reconnect n again c).1
  unfolding reconnect connect
  reconnect-Coherent zero again c h later = later c h
  reconnect-Coherent (suc n) again c h later =
      resume-Coherent again (connect 1 c) (connect_loop-Coherent 2 c h) later

  after_attempt-Coherent :
      (n : ℕ) (again : Attempt F) (out : Except F (Response F) × Client F)
      → Coherent out.1
      → ((c : Client F) → Coherent c → Coherent (again c).1)
      → Coherent (after_attempt n again out).1
  after_attempt-Coherent n again (ok r, c) k later = k
  after_attempt-Coherent n again (err e, c) k later = elim (Bool-cases (is_lost e)) [
    | inl lost ↦ rw lost (reconnect-Coherent n again (close c) (close-Coherent c) later)
    | inr kept ↦ rw kept k
  ]

  invoke_loop-Coherent :
      (n : ℕ) (method : String) (params : Fields F) (timeout : Option F) (c : Client F)
      → Coherent c
      → Coherent (invoke_loop n method params timeout c).1
  unfolding invoke_loop
  invoke_loop-Coherent zero method params timeout c h = h
  invoke_loop-Coherent (suc n) method params timeout c h =
      after_attempt-Coherent n (invoke_loop n method params timeout) _
        (try_once-Coherent method params timeout c h)
        (λ c₁ h₁. invoke_loop-Coherent n method params timeout c₁ h₁)

  -- The client never has a handshake without a socket: if that holds before, it holds after
  -- `connect`, after `invoke` and after `close`, whatever they return or raise.
  pub client-Coherent :
      (c : Client F) (retries : ℕ) (method : String) (params : Fields F) (timeout : Option F)
      (retry : Bool)
      → Coherent c
      → Coherent (connect retries c).1
        × Coherent (invoke method params timeout retry c).1
        × Coherent (close c)
  unfolding connect invoke
  client-Coherent c retries method params timeout retry h = (
    connect_loop-Coherent (suc retries) c h,
    invoke_loop-Coherent (attempts retry c.max_retries) method params timeout c h,
    close-Coherent c,
  )
