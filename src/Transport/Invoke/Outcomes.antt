-- ===== src/Transport/Invoke/Outcomes.antt =====
-- The outcomes of `invoke`, over all attempts and reconnections.
use sandstorm_ios_driver.Prelude.{
  ℕ, zero, suc, ◌+◌, ◌≤◌, ◌<◌, ◌≡◌, refl, ap, sym, ◌∙◌, String, Bool, true, false, Bool-cases, inl,
  inr, ◌⊎◌, Option, none, some, arith, if◌then◌else◌,
}
use sandstorm_ios_driver.Prelude.Int.{pos}
use sandstorm_ios_driver.Python.Json.{Json, Fields, obj, end}
use sandstorm_ios_driver.Python.Exception.{
  Except, Except-cases, ok, err, Exc, no_fuel, session_lost, agent_connection_error, ErrorClass,
  Action,
}
use sandstorm_ios_driver.Python.Runtime.{Runtime, or_json}
use sandstorm_ios_driver.Errors.{error_from_payload}
use sandstorm_ios_driver.Errors.Mapping.{
  Reported, error_from_payload-Reported, error_from_payload-fails,
}
use sandstorm_ios_driver.Protocol.Messages.{Response, command_to_wire, Handshake}
use sandstorm_ios_driver.Transport.Net.{Socket}
use sandstorm_ios_driver.Transport.Client.{
  Client, close, is_lost, is_lost_kind, is_connection, monotonic, send_json, connect, raise_payload,
}
use sandstorm_ios_driver.Transport.Client.Connecting.{
  HasId, Connects, connect-Connects, send_json-next_id,
}
use sandstorm_ios_driver.Transport.Raises.{Only, Only-continue, Keeps-continue, Post, Post-continue}
use sandstorm_ios_driver.Transport.Raises.Tame.{tame, send_json-tame}
use sandstorm_ios_driver.Transport.Invoke.{
  await_reply, incoming_size, default_timeout, exchange, invoke_once, on_session, checked, Attempt,
  resume, reconnect, after_attempt, try_once, invoke_loop, invoke, attempts,
}
use sandstorm_ios_driver.Transport.Invoke.Waiting.{await_reply-ends, await_reply-id}
use sandstorm_ios_driver.Transport.Invoke.Keeps.{await_reply-next_id}

module _ {F : Type 0} ⦃rt : Runtime F⦄ where
  abbrev wait : ℕ → F → F → Action F (Client F) (Response F)
  wait id timeout now c = await_reply (suc (incoming_size c.socket)) id (rt.add now timeout) c

  abbrev command : String → Fields F → Client F → Json F
  command method params c =
      command_to_wire (record { id = c.next_id; method = method; params = params })

  exchange-tame :
      (method : String) (params : Fields F) (timeout : F) (c : Client F)
      → Only tame (exchange method params timeout c).0
  unfolding monotonic
  exchange-tame method params timeout c =
      Only-continue tame _ (send_json (command method params c) c) (send_json-tame _ c)
        (λ _ c₁. await_reply-ends _ c.next_id _ (record c₁ { ticks = c₁.ticks + 1 }) (omega arith))

  exchange-id :
      (method : String) (params : Fields F) (timeout : F) (c : Client F)
      → Post (λ r _. r.id ≡ pos c.next_id) (exchange method params timeout c)
  unfolding monotonic
  exchange-id method params timeout c =
      Post-continue (λ r _. r.id ≡ pos c.next_id) _ (send_json (command method params c) c)
        (λ _ c₁ e. await_reply-id _ c.next_id _ (record c₁ { ticks = c₁.ticks + 1 }))

  exchange-next_id :
      (method : String) (params : Fields F) (timeout : F) (c : Client F)
      → HasId c.next_id (exchange method params timeout c).1
  unfolding monotonic
  exchange-next_id method params timeout c =
      Keeps-continue (HasId c.next_id) _ (send_json (command method params c) c)
        (send_json-next_id _ c)
        (λ _ c₁ h₁.
          await_reply-next_id c.next_id _ c.next_id _ (record c₁ { ticks = c₁.ticks + 1 }) h₁)

abbrev pub fueled : {F : Type 0} → Exc F → Bool
fueled no_fuel = false
fueled _ = true

-- No socket and no handshake.
abbrev pub Closed : {F : Type 0} → Client F → Type 0
Closed c = (c.socket ≡ none) × (c.handshake ≡ none)

-- One attempt: a reply to the command that was numbered last, or an exception of the program.
abbrev pub Attempted : {F : Type 0} → ℕ → Except F (Response F) × Client F → Type 0
Attempted n (ok r, c) = (r.id ≡ pos c.next_id) × (c.next_id ≡ suc n)
Attempted n (err e, c) = (fueled e ≡ true) × (n ≤ c.next_id) × (c.next_id ≤ suc n)

-- All attempts: a successful reply to the command that was numbered last, or an exception of the
-- program; where that is one that means a lost session, the client is closed. At most `k` commands
-- have been numbered.
abbrev pub Outcome : {F : Type 0} → ℕ → ℕ → Except F (Response F) × Client F → Type 0
Outcome k n (ok r, c) =
    (r.success ≡ true) × (r.id ≡ pos c.next_id) × (n < c.next_id) × (c.next_id ≤ n + k)
Outcome k n (err e, c) =
    (fueled e ≡ true) × ((is_lost e ≡ false) ⊎ Closed c) × (n ≤ c.next_id) × (c.next_id ≤ n + k)

attempts-positive : (retry : Bool) (n : ℕ) → attempts retry n ≡ 0 → ⊥
attempts-positive true n e = absurd (omega arith)
attempts-positive false n e = absurd (omega arith)

-- A property of a choice, from its branches with what each knows.
if_cases :
    {A : Type 0} (P : A → Type 0) (b : Bool) {x y : A}
    → (b ≡ true → P x)
    → (b ≡ false → P y)
    → P (if b then x else y)
if_cases P true h k = h refl
if_cases P false h k = k refl

pub Reported-not_lost : (kind : ErrorClass) → Reported kind → is_lost_kind kind ≡ false
Reported-not_lost session_lost h = absurd (h.0 refl)
Reported-not_lost agent_connection_error h = absurd (h.1 refl)
Reported-not_lost _ h = refl

module _ {F : Type 0} ⦃rt : Runtime F⦄ where
  tame-fueled : (e : Exc F) → tame e ≡ true → fueled e ≡ true
  tame-fueled e h = ground arith

  -- A `tame` error that is no connection error is no lost session.
  tame-not_lost : (e : Exc F) → tame e ≡ true → is_connection e ≡ false → is_lost e ≡ false
  unfolding is_connection is_lost
  tame-not_lost e h k = ground arith

  from_exchange :
      (n m : ℕ) (out : Except F (Response F) × Client F)
      → m ≡ suc n
      → Only tame out.0
      → Post (λ r _. r.id ≡ pos m) out
      → out.1.next_id ≡ m
      → Attempted n out
  from_exchange n m (ok r, c) next calm id same = (id ∙ ap pos (sym same), same ∙ next)
  from_exchange n m (err e, c) next calm id same = (tame-fueled e calm, omega arith, omega arith)

  session_cases :
      (o : Option Socket) (method : String) (params : Fields F) (timeout : Option F) (c : Client F)
      → Attempted c.next_id (on_session o method params timeout c)
  session_cases none method params timeout c = (refl, omega arith, omega arith)
  session_cases (some s) method params timeout c =
      let d : Client F = record c { next_id = c.next_id + 1 } in
      let t : F = default_timeout c.command_timeout timeout in
      from_exchange c.next_id (c.next_id + 1) (exchange method params t d) (omega arith)
        (exchange-tame method params t d) (exchange-id method params t d)
        (exchange-next_id method params t d)

  pub invoke_once-Attempted :
      (method : String) (params : Fields F) (timeout : Option F) (c : Client F)
      → Attempted c.next_id (invoke_once method params timeout c)
  unfolding invoke_once
  invoke_once-Attempted method params timeout c = session_cases c.socket method params timeout c

  -- What an error reported by the agent is raised as.
  abbrev Fails : Except F (Response F) → Type 0
  Fails (ok r) = ⊥
  Fails (err e) = (fueled e ≡ true) × (is_lost e ≡ false)

  raise_payload-Fails : (payload : Json F) → Fails (raise_payload payload)
  unfolding is_lost
  raise_payload-Fails payload = elim (Except-cases (error_from_payload payload)) [
    | inl (e, eq) ↦
        rw eq (refl, Reported-not_lost e.kind (error_from_payload-Reported payload e eq))
    | inr (x, eq) ↦ rw (eq, error_from_payload-fails payload eq) (refl, refl)
  ]

  -- One attempt with the check on the reply: `Outcome`, but that a lost session is not closed yet.
  abbrev Tried : ℕ → Except F (Response F) × Client F → Type 0
  Tried n (ok r, c) = (r.success ≡ true) × (r.id ≡ pos c.next_id) × (c.next_id ≡ suc n)
  Tried n (err e, c) = (fueled e ≡ true) × (n ≤ c.next_id) × (c.next_id ≤ suc n)

  Tried-failure :
      (n : ℕ) (r : Except F (Response F)) (c : Client F)
      → Fails r
      → c.next_id ≡ suc n
      → Tried n (r, c)
  Tried-failure n (ok r) c h same = absurd h
  Tried-failure n (err e) c h same = (h.0, omega arith, omega arith)

  checked-Tried :
      (n : ℕ) (r : Except F (Response F)) (c : Client F)
      → Attempted n (r, c)
      → Tried n (checked r, c)
  unfolding checked
  checked-Tried n (err e) c h = h
  checked-Tried n (ok r) c h =
      if_cases (λ x. Tried n (x, c)) r.success (λ good. (good, h.0, h.1))
        (λ bad. Tried-failure n _ c (raise_payload-Fails (or_json r.error (obj end))) h.1)

  try_once-Tried :
      (method : String) (params : Fields F) (timeout : Option F) (c : Client F)
      → Tried c.next_id (try_once method params timeout c)
  unfolding try_once
  try_once-Tried method params timeout c =
      checked-Tried c.next_id _ (invoke_once method params timeout c).1
        (invoke_once-Attempted method params timeout c)

  -- A reconnection within the loop leaves the outcome to the attempts that follow.
  resume-Outcome :
      (k n : ℕ) (again : Attempt F) (out : Except F (Handshake F) × Client F)
      → Connects n out
      → ((c : Client F) → Outcome k c.next_id (again c))
      → Outcome k n (resume again out)
  resume-Outcome k n again (ok h, c) connects later = rw⁻¹ connects.1 (later c)
  resume-Outcome k n again (err e, c) connects later = elim (Bool-cases (is_connection e)) [
    | inl connection ↦ rw connection (rw⁻¹ connects.2 (later c))
    | inr other ↦
        let kept : is_lost e ≡ false = tame-not_lost e connects.0 other in
        rw other (tame-fueled e connects.0, inl kept, omega arith, omega arith)
  ]

  reconnect-Outcome :
      (k : ℕ) (again : Attempt F) (c : Client F)
      → Closed c
      → ((c' : Client F) → (k ≡ 0 → Closed c') → Outcome k c'.next_id (again c'))
      → Outcome k c.next_id (reconnect k again c)
  unfolding reconnect
  reconnect-Outcome zero again c closed later = later c (λ _. closed)
  reconnect-Outcome (suc k) again c closed later =
      resume-Outcome (suc k) c.next_id again (connect 1 c) (connect-Connects 1 c)
        (λ c'. later c' (λ e. absurd (omega arith)))

  -- One more attempt before.
  Outcome-suc :
      (k n m : ℕ) (out : Except F (Response F) × Client F)
      → n ≤ m
      → m ≤ suc n
      → Outcome k m out
      → Outcome (suc k) n out
  Outcome-suc k n m (ok r, c) low high (good, id, more, most) = (good, id, omega arith, omega arith)
  Outcome-suc k n m (err e, c) low high (fuel, closed, more, most) =
      (fuel, closed, omega arith, omega arith)

  after_attempt-Outcome :
      (k n : ℕ) (again : Attempt F) (out : Except F (Response F) × Client F)
      → Tried n out
      → ((c : Client F) → (k ≡ 0 → Closed c) → Outcome k c.next_id (again c))
      → Outcome (suc k) n (after_attempt k again out)
  unfolding close
  after_attempt-Outcome k n again (ok r, c) (good, id, next) later =
      (good, id, omega arith, omega arith)
  after_attempt-Outcome k n again (err e, c) (fuel, low, high) later =
      elim (Bool-cases (is_lost e)) [
        | inl lost ↦ rw lost (
            Outcome-suc k n c.next_id _ low high
              (reconnect-Outcome k again (close c) (refl, refl) later))
        | inr kept ↦ rw kept (fuel, inl kept, low, omega arith)
      ]

  invoke_loop-Outcome :
      (k : ℕ) (method : String) (params : Fields F) (timeout : Option F) (c : Client F)
      → (k ≡ 0 → Closed c)
      → Outcome k c.next_id (invoke_loop k method params timeout c)
  unfolding invoke_loop
  invoke_loop-Outcome zero method params timeout c closed =
      (refl, inr (closed refl), omega arith, omega arith)
  invoke_loop-Outcome (suc k) method params timeout c closed =
      after_attempt-Outcome k c.next_id (invoke_loop k method params timeout) _
        (try_once-Tried method params timeout c)
        (λ c' closed'. invoke_loop-Outcome k method params timeout c' closed')

  -- `invoke` on any client, network, clock and frames: it returns a reply only when that reply
  -- reports success and carries the id of the command that was numbered last; it numbers at most
  -- `attempts retry max_retries` commands, that is one, or `max_retries + 1` with `retry`; it
  -- never runs out of the model's fuel; and when it raises `IOSSessionLost` or
  -- `IOSAgentConnectionError`, the client has neither socket nor handshake.
  pub invoke-Outcome :
      (method : String) (params : Fields F) (timeout : Option F) (retry : Bool) (c : Client F)
      → Outcome (attempts retry c.max_retries) c.next_id (invoke method params timeout retry c)
  unfolding invoke
  invoke-Outcome method params timeout retry c =
      invoke_loop-Outcome (attempts retry c.max_retries) method params timeout c
        (λ e. absurd (attempts-positive retry c.max_retries e))
