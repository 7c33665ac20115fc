-- ===== src/Transport/Client/Unclosed.antt =====
-- Which errors of `connect` leave the socket open.
use sandstorm_ios_driver.Prelude.{
  ℕ, zero, suc, ◌≡◌, refl, true, false, Bool-cases, inl, inr, ◌⊎◌, List, [], ◌∷◌,
}
use sandstorm_ios_driver.Python.Exception.{Except, ok, err, Action, continue, bind}
use sandstorm_ios_driver.Python.Runtime.{Runtime}
use sandstorm_ios_driver.Protocol.Messages.{Handshake}
use sandstorm_ios_driver.Transport.Net.{Dial, refused, accepted}
use sandstorm_ios_driver.Transport.Client.{
  Client, is_connected, close, dial, open_socket, perform_handshake, set_handshake, connect_once,
  connect_loop, connect, after_connect, is_connection, retries_connect,
}
use sandstorm_ios_driver.Transport.Client.Connecting.{HasSocket, perform_handshake-socket}
use sandstorm_ios_driver.Transport.Raises.{Keeps-continue}

module _ {F : Type 0} where
  abbrev Opened : Except F (Unit {0}) × Client F → Type 0
  Opened (ok u, c) = HasSocket c
  Opened (err e, c) = retries_connect e ≡ true

  dial-Opened : (c : Client F) (dials : List Dial) → Opened (dial c dials)
  unfolding retries_connect
  dial-Opened c [] = refl
  dial-Opened c (refused ∷ dials) = refl
  dial-Opened c (accepted s ∷ dials) = refl

  -- An error that `connect` does not catch leaves the socket there.
  abbrev Leaves : {A : Type 0} → Except F A × Client F → Type 0
  Leaves (ok h, c) = Unit
  Leaves (err e, c) = retries_connect e ≡ false → HasSocket c

  abbrev pub Unclosed : {A : Type 0} → Except F A × Client F → Type 0
  Unclosed (ok h, c) = Unit
  Unclosed (err e, c) = (is_connection e ≡ true) ⊎ (is_connected c ≡ true)

  any-Leaves : {A : Type 0} (out : Except F A × Client F) → HasSocket out.1 → Leaves out
  any-Leaves (ok h, c) k = tt
  any-Leaves (err e, c) k = λ _. k

  after_open :
      {A : Type 0} (rest : Unit {0} → Action F (Client F) A) (out : Except F (Unit {0}) × Client F)
      → Opened out
      → ((c : Client F) → HasSocket c → HasSocket (rest tt c).1)
      → Leaves (continue rest out)
  after_open rest (ok u, c) h keeps = any-Leaves (rest tt c) (keeps c h)
  after_open rest (err e, c) h keeps = λ k. absurd cc

module _ {F : Type 0} ⦃rt : Runtime F⦄ where
  connect_once-Leaves : (c : Client F) → Leaves (connect_once c)
  unfolding connect_once open_socket
  connect_once-Leaves c =
      after_open (λ _. bind perform_handshake set_handshake) (open_socket c) (dial-Opened c c.dials)
        (λ c₁ h₁.
          Keeps-continue HasSocket set_handshake (perform_handshake c₁)
            (perform_handshake-socket c₁ h₁) (λ h c₂ h₂. h₂))

  after_connect-Unclosed :
      (again : Client F → Except F (Handshake F) × Client F)
      (out : Except F (Handshake F) × Client F)
      → Leaves out
      → ((c : Client F) → Unclosed (again c))
      → Unclosed (after_connect again out)
  unfolding is_connected
  after_connect-Unclosed again (ok h, c) left later = tt
  after_connect-Unclosed again (err e, c) left later = elim (Bool-cases (retries_connect e)) [
    | inl retries ↦ rw retries (later (close c))
    | inr raises ↦ rw raises (inr (left raises))
  ]

  connect_loop-Unclosed : (n : ℕ) (c : Client F) → Unclosed (connect_loop n c)
  unfolding connect_loop is_connection
  connect_loop-Unclosed zero c = inl refl
  connect_loop-Unclosed (suc n) c =
      after_connect-Unclosed (connect_loop n) (connect_once c) (connect_once-Leaves c)
        (λ c'. connect_loop-Unclosed n c')

  -- Whatever the agent answers: if `connect` raises an error that is no `IOSAgentConnectionError`,
  -- such as a refused token or another protocol version, the client still counts as connected.
  pub connect-Unclosed : (retries : ℕ) (c : Client F) → Unclosed (connect retries c)
  unfolding connect
  connect-Unclosed retries c = connect_loop-Unclosed (suc retries) c
