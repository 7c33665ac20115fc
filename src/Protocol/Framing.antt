-- ===== src/Protocol/Framing.antt =====
-- ios-sdk/sandstorm_ios/protocol/framing.py: frames, and the blocking reader of them.
pub mod Stream
pub mod Header
pub mod Reading
pub mod Channel
use sandstorm_ios_driver.Prelude.{
  ℕ, zero, suc, ◌+◌, ◌-◌, ◌*◌, ◌/◌, ◌%◌, ◌^◌, min, Bool, not, ◌&&◌, ◌||◌, List, [], ◌∷◌, ◌++◌,
  length, take, drop, ltb, ◌==◌, if◌then◌else◌,
}
use sandstorm_ios_driver.Python.Exception.{
  Except, ok, err, Action, pure, raise, bind, os_error, socket_timeout, struct_error, no_fuel,
  agent_connection_error, protocol_error, ◌>>=◌,
}
use sandstorm_ios_driver.Errors.{raised}

abbrev pub json_frame : ℕ
json_frame = 1

abbrev pub binary_frame : ℕ
binary_frame = 2

abbrev pub header_size : ℕ
header_size = 5

abbrev pub max_payload_size : ℕ
max_payload_size = 64 * 1024 * 1024

-- What the peer's side of a socket does next: deliver bytes (none: it has closed), stay silent
-- until the timeout, or fail. A socket whose list has ended stays silent.
pub data Arrival : Type 0 where
  chunk : List ℕ → Arrival
  silence failure : Arrival

-- The bytes of a chunk that a `recv` left.
unfoldable pub put_back : List ℕ → List Arrival → List Arrival
put_back [] arrivals = arrivals
put_back (b ∷ bs) arrivals = chunk (b ∷ bs) ∷ arrivals

abbrev pub header_bytes : ℕ → ℕ → List ℕ
header_bytes frame_type n =
    frame_type ∷ (n / 2 ^ 24) ∷ (n / 2 ^ 16 % 256) ∷ (n / 2 ^ 8 % 256) ∷ (n % 256) ∷ []

module _ {F : Type 0} where
  -- `_HEADER.pack(frame_type, length)`, with the errors of `struct.pack(">BI", …)`
  unfoldable pub pack_header : ℕ → ℕ → Except F (List ℕ)
  pack_header frame_type n =
      if ltb frame_type 256 && ltb n (2 ^ 32)
      then ok (header_bytes frame_type n)
      else err struct_error

  -- `_HEADER.unpack(header)`
  unfoldable pub unpack_header : List ℕ → Except F (ℕ × ℕ)
  unpack_header (t ∷ a ∷ b ∷ c ∷ d ∷ []) = ok (t, a * 2 ^ 24 + b * 2 ^ 16 + c * 2 ^ 8 + d)
  unpack_header _ = err struct_error

  unfoldable pub encode_frame : ℕ → List ℕ → Except F (List ℕ)
  encode_frame frame_type payload =
      if ltb max_payload_size (length payload)
      then err (raised protocol_error "Payload exceeds the frame limit")
      else pack_header frame_type (length payload) >>= λ header. ok (header ++ payload)

  -- `socket.recv(n)`
  unfoldable pub recv : ℕ → Action F (List Arrival) (List ℕ)
  recv n [] = (err socket_timeout, [])
  recv n (silence ∷ arrivals) = (err socket_timeout, arrivals)
  recv n (failure ∷ arrivals) = (err os_error, arrivals)
  recv n (chunk [] ∷ arrivals) = (ok [], chunk [] ∷ arrivals)
  recv n (chunk (b ∷ bs) ∷ arrivals) = (ok (take n (b ∷ bs)), put_back (drop n (b ∷ bs)) arrivals)

  -- The handlers around `recv` in `_read_exactly`, and the test `if not chunk`.
  unfoldable pub checked_chunk : Except F (List ℕ) → Except F (List ℕ)
  checked_chunk (ok []) = err (raised agent_connection_error "Agent closed the connection")
  checked_chunk (ok (b ∷ bs)) = ok (b ∷ bs)
  checked_chunk (err socket_timeout) =
      err (raised agent_connection_error "Timed out reading from the agent")
  checked_chunk (err os_error) = err (raised agent_connection_error "Agent socket error")
  checked_chunk (err e) = err e

  abbrev pub next_chunk : ℕ → Action F (List Arrival) (List ℕ)
  next_chunk remaining s = let (r, s') = recv (min remaining 65536) s in (checked_chunk r, s')

  -- `while remaining:`, with the joined chunks so far. Each round reads a byte at least.
  unfoldable pub read_loop : ℕ → ℕ → List ℕ → Action F (List Arrival) (List ℕ)
  read_loop zero remaining got s = if remaining == 0 then (ok got, s) else (err no_fuel, s)
  read_loop (suc fuel) remaining got s =
      let rest =
        bind (next_chunk remaining)
          (λ bytes. read_loop fuel (remaining - length bytes) (got ++ bytes)) s in
      if remaining == 0 then (ok got, s) else rest

  unfoldable pub read_exactly : ℕ → Action F (List Arrival) (List ℕ)
  read_exactly count = read_loop count count []

  -- The checks of `read_frame` on the header, and its body.
  unfoldable pub read_body : ℕ → ℕ → Action F (List Arrival) (ℕ × List ℕ)
  read_body frame_type n =
      if not (frame_type == json_frame || frame_type == binary_frame)
      then raise (raised protocol_error "Unknown frame type")
      else if ltb max_payload_size n
      then raise (raised protocol_error "Agent announced an oversized frame")
      else bind (read_exactly n) (λ payload. pure (frame_type, payload))

  unfoldable pub read_frame : Action F (List Arrival) (ℕ × List ℕ)
  unfolding read_body
  read_frame =
      bind (read_exactly header_size)
        λ header. bind (λ s. (unpack_header header, s)) λ (frame_type, n). read_body frame_type n
