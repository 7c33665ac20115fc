-- ===== src/Transport/Client/Connecting.antt =====
-- What `connect` leaves behind, on each of its outcomes.
use sandstorm_ios_driver.Prelude.{
  ℕ, zero, suc, ◌≡◌, refl, ◌∙◌, Bool, true, false, Bool-cases, inl, inr, ◌⊎◌, Option, none, some,
  List, arith, if◌then◌else◌, ◌==◌,
}
use sandstorm_ios_driver.Prelude.Int.{pos, int_eq, int_eq_iff}
use sandstorm_ios_driver.Python.Json.{Json}
use sandstorm_ios_driver.Python.Exception.{Except, ok, err, Exc, Action, bind}
use sandstorm_ios_driver.Python.Runtime.{Runtime, lookup, parsed}
use sandstorm_ios_driver.Errors.{error_from_payload}
use sandstorm_ios_driver.Protocol.Messages.{
  build_handshake_request, Handshake, protocol_version, handshake_from_wire,
}
use sandstorm_ios_driver.Transport.Net.{Socket}
use sandstorm_ios_driver.Transport.Client.{
  Client, is_some, close, on_socket, send_json, client_read, check_reply, set_handshake,
  perform_handshake, accept_handshake, raise_payload, is_false, open_socket, connect_once,
  connect_loop, connect, after_connect, is_connection, retries_connect,
}
use sandstorm_ios_driver.Transport.Raises.{Only, Keeps-continue, Post, Post-continue, Post-bind}
use sandstorm_ios_driver.Transport.Raises.Tame.{tame, connect_once-tame}

-- The socket is there.
abbrev pub HasSocket : {F : Type 0} → Client F → Type 0
HasSocket c = is_some c.socket ≡ true

-- So many commands have been numbered.
abbrev pub HasId : {F : Type 0} → ℕ → Client F → Type 0
HasId n c = c.next_id ≡ n

module _ {F : Type 0} where
  -- A call on the socket leaves it there, and numbers no command.
  pub on_socket-socket :
      {A : Type 0} (m : Action F Socket A) (o : Option Socket) (c : Client F)
      → HasSocket c
      → HasSocket (on_socket m o c).1
  on_socket-socket m none c h = h
  on_socket-socket m (some s) c h = refl

  pub on_socket-next_id :
      {A : Type 0} (m : Action F Socket A) (o : Option Socket) (c : Client F)
      → HasId c.next_id (on_socket m o c).1
  on_socket-next_id m none c = refl
  on_socket-next_id m (some s) c = refl

  pub client_read-next_id : (c : Client F) → HasId c.next_id (client_read c).1
  unfolding client_read
  client_read-next_id c = on_socket-next_id _ c.socket c

module _ {F : Type 0} ⦃rt : Runtime F⦄ where
  pub send_json-next_id : (j : Json F) (c : Client F) → HasId c.next_id (send_json j c).1
  unfolding send_json
  send_json-next_id j c = on_socket-next_id _ c.socket c

  check_reply-state : (frame : ℕ × List ℕ) (c : Client F) → (check_reply frame c).1 ≡ c
  unfolding check_reply
  check_reply-state (t, bytes) c = ground arith

  abbrev request : Client F → Json F
  request c = build_handshake_request c.token c.client_version

  pub perform_handshake-socket : (c : Client F) → HasSocket c → HasSocket (perform_handshake c).1
  unfolding perform_handshake send_json client_read
  perform_handshake-socket c h =
      Keeps-continue HasSocket (λ _. bind client_read check_reply) (send_json (request c) c)
        (on_socket-socket _ c.socket c h)
        (λ _ c₁ h₁.
          Keeps-continue HasSocket check_reply (client_read c₁) (on_socket-socket _ c₁.socket c₁ h₁)
            (λ frame c₂ h₂. rw (check_reply-state frame c₂) h₂))

  perform_handshake-next_id : (c : Client F) → HasId c.next_id (perform_handshake c).1
  unfolding perform_handshake
  perform_handshake-next_id c =
      Keeps-continue (HasId c.next_id) (λ _. bind client_read check_reply) (send_json (request c) c)
        (send_json-next_id (request c) c)
        (λ _ c₁ h₁.
          Keeps-continue (HasId c.next_id) check_reply (client_read c₁)
            (client_read-next_id c₁ ∙ h₁) (λ frame c₂ h₂. rw (check_reply-state frame c₂) h₂))

  open_socket-next_id : (c : Client F) → HasId c.next_id (open_socket c).1
  unfolding open_socket
  open_socket-next_id c = ground arith

  open_socket-ok : (c c' : Client F) → open_socket c ≡ (ok tt, c') → HasSocket c'
  unfolding open_socket
  open_socket-ok c c' h = ground arith

  connect_once-next_id : (c : Client F) → HasId c.next_id (connect_once c).1
  unfolding connect_once
  connect_once-next_id c =
      Keeps-continue (HasId c.next_id) (λ _. bind perform_handshake set_handshake) (open_socket c)
        (open_socket-next_id c)
        (λ _ c₁ h₁.
          Keeps-continue (HasId c.next_id) set_handshake (perform_handshake c₁)
            (perform_handshake-next_id c₁ ∙ h₁) (λ h c₂ h₂. h₂))

  -- A handshake that is accepted speaks the version of the client.
  abbrev pub Speaks : Handshake F → Client F → Type 0
  Speaks h c = h.version ≡ pos protocol_version

  pub raise_payload-Post :
      (A : Type 0) (Q : A → Client F → Type 0) (m : Json F) (c : Client F)
      → Post Q (raise_payload {A = A} m, c)
  raise_payload-Post A Q m c = Post-bind Q (error_from_payload m) _ c (λ e. tt)

  checked_version :
      (h : Handshake F) (b : Bool) (e : Exc F) (c : Client F)
      → int_eq h.version (pos protocol_version) ≡ b
      → Post Speaks ((if b then ok h else err e), c)
  checked_version h true e c same = (int_eq_iff h.version (pos protocol_version)).0 same
  checked_version h false e c differ = tt

  pub choice-Post :
      {A : Type 0} (Q : A → Client F → Type 0) (b : Bool) (r q : Except F A) (c : Client F)
      → Post Q (r, c)
      → Post Q (q, c)
      → Post Q ((if b then r else q), c)
  choice-Post Q true r q c h k = h
  choice-Post Q false r q c h k = k

  accept_handshake-Speaks : (m : Json F) (c : Client F) → Post Speaks (accept_handshake m, c)
  unfolding accept_handshake
  accept_handshake-Speaks m c = Post-bind Speaks (lookup m "success") _ c (λ success.
      choice-Post Speaks (is_false success) _ _ c
        (Post-bind Speaks (lookup m "error") _ c (λ e. raise_payload-Post _ Speaks _ c))
        (Post-bind Speaks (handshake_from_wire m) _ c (λ h. checked_version h _ _ c refl)))

  check_reply-Speaks : (frame : ℕ × List ℕ) (c : Client F) → Post Speaks (check_reply frame c)
  unfolding check_reply
  check_reply-Speaks (t, bytes) c = elim (Bool-cases (t == 1)) [
    | inl text ↦
        rw text (Post-bind Speaks (parsed (rt.loads bytes)) _ c (λ m. accept_handshake-Speaks m c))
    | inr binary ↦ rw binary tt
  ]

  perform_handshake-Speaks : (c : Client F) → Post Speaks (perform_handshake c)
  unfolding perform_handshake
  perform_handshake-Speaks c =
      Post-continue Speaks (λ _. bind client_read check_reply) (send_json (request c) c)
        (λ _ c₁ _.
          Post-continue Speaks check_reply (client_read c₁)
            (λ frame c₂ _. check_reply-Speaks frame c₂))

  -- A client with the handshake of an agent that speaks its version.
  abbrev pub Ready : Handshake F → Client F → Type 0
  Ready h c = HasSocket c × (c.handshake ≡ some h) × (h.version ≡ pos protocol_version)

  connect_once-Ready : (c : Client F) → Post Ready (connect_once c)
  unfolding connect_once
  connect_once-Ready c =
      Post-continue Ready (λ _. bind perform_handshake set_handshake) (open_socket c)
        (λ _ c₁ opened. Post-continue Ready set_handshake (perform_handshake c₁) (λ h c₂ shaken.
          let socket₂ : HasSocket c₂ =
            rw shaken at (perform_handshake-socket c₁ (open_socket-ok c c₁ opened)) in
          let speaks : h.version ≡ pos protocol_version =
            rw shaken at (perform_handshake-Speaks c₁) in
          (socket₂, refl, speaks)))

  -- On success the client is ready; on an `IOSAgentConnectionError` it is closed, with no
  -- handshake; no other error is an `IOSSessionLost`. Commands are not numbered meanwhile.
  abbrev pub Connects : ℕ → Except F (Handshake F) × Client F → Type 0
  Connects n (ok h, c) = Ready h c × (c.next_id ≡ n)
  Connects n (err e, c) =
      (tame e ≡ true)
      × ((is_connection e ≡ false) ⊎ ((c.socket ≡ none) × (c.handshake ≡ none)))
      × (c.next_id ≡ n)

  not_connection : (e : Exc F) → retries_connect e ≡ false → is_connection e ≡ false
  unfolding retries_connect is_connection
  not_connection e h = ground arith

  connect_loop-Connects :
      (n : ℕ) (c : Client F)
      → (n ≡ 0 → (c.socket ≡ none) × (c.handshake ≡ none))
      → Connects c.next_id (connect_loop n c)
  unfolding connect_loop close
  connect_loop-Connects zero c closed = (refl, inr (closed refl), refl)
  connect_loop-Connects (suc n) c closed =
      after (connect_once c) (connect_once-Ready c) (connect_once-tame c) (connect_once-next_id c)
        (connect_loop n) (λ c'. connect_loop-Connects n c')
    where
      after :
          (out : Except F (Handshake F) × Client F)
          → Post Ready out
          → Only tame out.0
          → out.1.next_id ≡ c.next_id
          → (again : Client F → Except F (Handshake F) × Client F)
          → ((c' : Client F)
              → (n ≡ 0 → (c'.socket ≡ none) × (c'.handshake ≡ none))
              → Connects c'.next_id (again c'))
          → Connects c.next_id (after_connect again out)
      after (ok h, c') ready calm same again later = (ready, same)
      after (err e, c') ready calm same again later = elim (Bool-cases (retries_connect e)) [
        | inl retries ↦ rw retries (rw (← same) (later (close c') (λ _. (refl, refl))))
        | inr raises ↦ rw raises (calm, inl (not_connection e raises), same)
      ]

  -- `connect`, with any number of retries and on any network: on success the client has a socket
  -- and the handshake that is returned, which carries the client's protocol version; an error that
  -- it raises is neither an `IOSSessionLost` nor the model's `no_fuel`, and on an
  -- `IOSAgentConnectionError` the client has neither socket nor handshake. No command is numbered.
  pub connect-Connects : (retries : ℕ) (c : Client F) → Connects c.next_id (connect retries c)
  unfolding connect
  connect-Connects retries c = connect_loop-Connects (suc retries) c (λ e. absurd (omega arith))
