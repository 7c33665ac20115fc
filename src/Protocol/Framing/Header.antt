-- ===== src/Protocol/Framing/Header.antt =====
-- The five bytes before a payload.
use sandstorm_ios_driver.Prelude.{
  refl, ◌&&◌, ℕ, ◌+◌, ◌*◌, ◌/◌, ◌%◌, ◌^◌, ◌∷◌, ◌≤◌, ◌<◌, ◌≡◌, List, ◌++◌, arith, length, Bool-cases,
  ltb, inl, inr, ◌⊎◌,
}
use sandstorm_ios_driver.Python.Exception.{ok}
use sandstorm_ios_driver.Protocol.Framing.{
  pack_header, unpack_header, encode_frame, max_payload_size, header_size, header_bytes, Except,
  err, raised, protocol_error, struct_error,
}

-- A frame is the type, which fits a byte, four bytes that are the big-endian length of the
-- payload, and the payload, which is within the limit. Without a frame, the payload exceeds the
-- limit, or it does not and the type fits no byte.
abbrev pub Encodes : {F : Type 0} → ℕ → List ℕ → Except F (List ℕ) → Type 0
Encodes t payload (ok frame) =
    (t < 256)
    × (length payload ≤ max_payload_size)
    × ((a : ℕ) × (b : ℕ) × (c : ℕ) × (d : ℕ) × (frame ≡ t ∷ a ∷ b ∷ c ∷ d ∷ payload)
        × (a < 256)
        × (b < 256)
        × (c < 256)
        × (d < 256)
        × (((a * 256 + b) * 256 + c) * 256 + d ≡ length payload))
Encodes t payload (err e) =
    ((max_payload_size < length payload)
      × (e ≡ raised protocol_error "Payload exceeds the frame limit"))
    ⊎ ((length payload ≤ max_payload_size) × (256 ≤ t) × (e ≡ struct_error))

header-big_endian :
    (n : ℕ)
    → n ≤ max_payload_size
    → (n / 2 ^ 24 < 256)
      × (n / 2 ^ 16 % 256 < 256)
      × (n / 2 ^ 8 % 256 < 256)
      × (n % 256 < 256)
      × (((n / 2 ^ 24 * 256 + n / 2 ^ 16 % 256) * 256 + n / 2 ^ 8 % 256) * 256 + n % 256 ≡ n)
header-big_endian n h = (omega arith, omega arith, omega arith, omega arith, omega arith)

module _ {F : Type 0} where
  pub unpack_header-pack_header :
      (t n : ℕ) {header : List ℕ}
      → pack_header {F = F} t n ≡ ok header
      → (unpack_header {F = F} header ≡ ok (t, n)) × (length header ≡ header_size)
  unfolding pack_header unpack_header
  unpack_header-pack_header t n h = ground arith

  -- What an encoded frame consists of.
  pub encode_frame-split :
      (t : ℕ) (payload : List ℕ) {frame : List ℕ}
      → encode_frame {F = F} t payload ≡ ok frame
      → (frame ≡ header_bytes t (length payload) ++ payload)
        × (pack_header {F = F} t (length payload) ≡ ok (header_bytes t (length payload)))
        × (length payload ≤ max_payload_size)
  unfolding encode_frame pack_header
  encode_frame-split t payload h = ground arith

-- Encoding, of any payload under any type: a frame is made exactly for a payload within the limit
-- and a type below 256, and consists of the type, the length as four bytes with the highest first,
-- and the payload; a payload over the limit raises `IOSProtocolError`, and otherwise a type of 256
-- or more the error of `struct`.
pub encode_frame-Encodes :
    (F : Type 0) (t : ℕ) (payload : List ℕ) → Encodes t payload (encode_frame {F = F} t payload)
unfolding encode_frame pack_header
encode_frame-Encodes F t payload =
    let n = length payload in
    elim (Bool-cases (ltb max_payload_size n)) [
      | inl over ↦ rw over (inl (ground arith, refl))
      | inr within ↦
          let (a, b, c, d, value) = header-big_endian n (ground arith) in
          rw within (elim (Bool-cases (ltb t 256 && ltb n (2 ^ 32))) [
            | inl fits ↦ rw fits (ground arith, ground arith, (_, _, _, _, refl, a, b, c, d, value))
            | inr wide ↦ rw wide (inr (ground arith, ground arith, refl))
          ])
    ]
