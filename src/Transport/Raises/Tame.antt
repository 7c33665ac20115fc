-- ===== src/Transport/Raises/Tame.antt =====
-- The connection and the handshake raise neither `IOSSessionLost` nor the model's `no_fuel`.
use sandstorm_ios_driver.Prelude.{
  ℕ, String, ◌≡◌, inl, inr, refl, Bool, true, false, not, Option, none, some, List, arith, ◌==◌,
  Bool-cases,
}
use sandstorm_ios_driver.Prelude.Int.{pos, int_eq}
use sandstorm_ios_driver.Python.Json.{Json, obj, end}
use sandstorm_ios_driver.Python.Exception.{
  Except, Except-cases, ok, err, Exc, ios, ErrorClass, session_lost, no_fuel, ◌>>=◌,
}
use sandstorm_ios_driver.Python.Runtime.{
  Runtime, lookup, lookup_or, or_else, parsed, to_int, to_float,
}
use sandstorm_ios_driver.Errors.{error_from_payload}
use sandstorm_ios_driver.Errors.Mapping.{
  Reported, error_from_payload-Reported, error_from_payload-fails,
}
use sandstorm_ios_driver.Protocol.Messages.{
  handshake_from_wire, protocol_version, device_from_wire, response_from_wire,
}
use sandstorm_ios_driver.Protocol.Framing.{
  Arrival, read_frame, encode_frame, pack_header, json_frame,
}
use sandstorm_ios_driver.Protocol.Framing.Reading.{read_frame_cases}
use sandstorm_ios_driver.Transport.Net.{Socket, sendall}
use sandstorm_ios_driver.Transport.Client.{
  Client, raise_payload, accept_handshake, is_false, client_read, receive, on_socket, send_frame,
  send_json, open_socket, check_reply, set_handshake, perform_handshake, connect_once,
}
use sandstorm_ios_driver.Transport.Raises.{Only, Only-bind, Only-continue, Only-if}

abbrev pub is_session_lost : ErrorClass → Bool
is_session_lost session_lost = true
is_session_lost _ = false

module _ {F : Type 0} where
  abbrev pub tame : Exc F → Bool
  tame (ios e) = not (is_session_lost e.kind)
  tame no_fuel = false
  tame _ = true

pub parsed-tame : (F : Type 0) {A : Type 0} (o : Option A) → Only {F = F} tame (parsed o)
parsed-tame F none = refl
parsed-tame F (some a) = tt

pub Reported-tame : (kind : ErrorClass) → Reported kind → not (is_session_lost kind) ≡ true
Reported-tame session_lost r = absurd (r.0 refl)
Reported-tame _ r = refl

read_frame-tame : (F : Type 0) (s : List Arrival) → Only {F = F} tame (read_frame s).0
read_frame-tame F s = elim (read_frame_cases {F = F} s) [
  | inl (t, payload, s', out, known, fits, less) ↦ rw out tt
  | inr (e, s', out, inl kind) ↦ rw (out, kind) refl
  | inr (e, s', out, inr kind) ↦ rw (out, kind) refl
]

module _ {F : Type 0} ⦃rt : Runtime F⦄ where
  pub lookup-tame : (m : Json F) (k : String) → Only tame (lookup m k)
  unfolding lookup
  lookup-tame m k = ground arith

  pub lookup_or-tame : (m : Json F) (k : String) (d : Json F) → Only tame (lookup_or m k d)
  lookup_or-tame m k d = Only-bind tame (lookup m k) _ (lookup-tame m k) (λ o. tt)

  pub to_int-tame : (x : Json F) → Only tame (to_int x)
  unfolding to_int
  to_int-tame x = ground arith

  to_float-tame : (x : Json F) → Only tame (to_float x)
  unfolding to_float
  to_float-tame x = ground arith

  abbrev pub screen : Option (Json F) → Json F
  screen given = or_else given (obj end)

  float_field-tame :
      {B : Type 0} (m : Json F) (k : String) (d : Json F) (f : F → Except F B)
      → ((x : F) → Only tame (f x))
      → Only tame (lookup_or m k d >>= λ x. to_float x >>= f)
  float_field-tame m k d f h =
      Only-bind tame _ _ (lookup_or-tame m k d) (λ x. Only-bind tame _ _ (to_float-tame x) h)

  device_from_wire-tame : (m : Json F) → Only tame (device_from_wire m)
  unfolding device_from_wire
  device_from_wire-tame m = Only-bind tame _ _ (lookup-tame m "screen") (λ given.
      Only-bind tame _ _ (lookup_or-tame m "name" _) (λ _.
        Only-bind tame _ _ (lookup_or-tame m "iosVersion" _) (λ _.
          Only-bind tame _ _ (lookup_or-tame m "model" _) (λ _.
            Only-bind tame _ _ (lookup_or-tame m "udid" _) (λ _.
              Only-bind tame _ _ (lookup_or-tame m "isSimulator" _) (λ _.
                float_field-tame (screen given) "width" _ _ (λ _.
                  float_field-tame (screen given) "height" _ _
                    (λ _. float_field-tame (screen given) "scale" _ _ (λ _. tt)))))))))

  pub handshake_from_wire-tame : (m : Json F) → Only tame (handshake_from_wire m)
  unfolding handshake_from_wire
  handshake_from_wire-tame m = Only-bind tame _ _ (lookup_or-tame m "protocolVersion" _) (λ raw.
      Only-bind tame _ _ (to_int-tame raw) (λ _.
        Only-bind tame _ _ (lookup_or-tame m "agentVersion" _) (λ _.
          Only-bind tame _ _ (lookup_or-tame m "sessionId" _) (λ _.
            Only-bind tame _ _ (lookup-tame m "device")
              (λ given. Only-bind tame _ _ (device_from_wire-tame (screen given)) (λ _. tt))))))

  pub response_from_wire-tame :
      (m : Json F) (binary : Option (List ℕ)) → Only tame (response_from_wire m binary)
  unfolding response_from_wire
  response_from_wire-tame m binary = Only-bind tame _ _ (lookup_or-tame m "id" _) (λ raw.
      Only-bind tame _ _ (to_int-tame raw) (λ _.
        Only-bind tame _ _ (lookup_or-tame m "success" _) (λ _.
          Only-bind tame _ _ (lookup-tame m "result")
            (λ _. Only-bind tame _ _ (lookup_or-tame m "error" _) (λ _. tt)))))

  pub raise_payload-tame : (A : Type 0) (m : Json F) → Only tame (raise_payload {A = A} m)
  raise_payload-tame A m = elim (Except-cases (error_from_payload m)) [
    | inl (e, eq) ↦ rw eq (Reported-tame e.kind (error_from_payload-Reported m e eq))
    | inr (x, eq) ↦ rw (eq, error_from_payload-fails m eq) refl
  ]

  pub accept_handshake-tame : (m : Json F) → Only tame (accept_handshake m)
  unfolding accept_handshake
  accept_handshake-tame m = Only-bind tame _ _ (lookup-tame m "success") (λ success.
      Only-if tame (is_false success) _ _
        (Only-bind tame _ _ (lookup-tame m "error")
          (λ e. raise_payload-tame _ (or_else e (obj end))))
        (Only-bind tame _ _ (handshake_from_wire-tame m)
          (λ h. Only-if tame (int_eq h.version (pos protocol_version)) (ok h) _ tt refl)))

  receive-tame : (o : Option Socket) (c : Client F) → Only tame (on_socket receive o c).0
  receive-tame none c = refl
  receive-tame (some s) c = read_frame-tame F s.incoming

  pub client_read-tame : (c : Client F) → Only tame (client_read c).0
  unfolding client_read
  client_read-tame c = receive-tame c.socket c

  send_frame-tame :
      (frame : Except F (List ℕ))
      → Only tame frame
      → (o : Option Socket) (c : Client F) → Only tame (on_socket (send_frame frame) o c).0
  unfolding sendall
  send_frame-tame frame h none c = refl
  send_frame-tame (err e) h (some s) c = h
  send_frame-tame (ok frame) h (some s) c = ground arith

  pub send_json-tame : (payload : Json F) (c : Client F) → Only tame (send_json payload c).0
  unfolding send_json encode_frame pack_header
  send_json-tame payload c = send_frame-tame _ (ground arith) c.socket c

  check_reply-tame : (frame : ℕ × List ℕ) (c : Client F) → Only tame (check_reply frame c).0
  unfolding check_reply
  check_reply-tame (t, bytes) c = elim (Bool-cases (t == json_frame)) [
    | inl text ↦ rw text (Only-bind tame _ _ (parsed-tame F (rt.loads bytes)) accept_handshake-tame)
    | inr binary ↦ rw binary refl
  ]

  perform_handshake-tame : (c : Client F) → Only tame (perform_handshake c).0
  unfolding perform_handshake
  perform_handshake-tame c = Only-continue tame _ _ (send_json-tame _ c) (λ _ c₁.
      Only-continue tame check_reply (client_read c₁) (client_read-tame c₁) check_reply-tame)

  pub connect_once-tame : (c : Client F) → Only tame (connect_once c).0
  unfolding connect_once open_socket
  connect_once-tame c = Only-continue tame _ _ (ground arith) (λ _ c₁.
      Only-continue tame set_handshake (perform_handshake c₁) (perform_handshake-tame c₁)
        (λ h c₂. tt))
