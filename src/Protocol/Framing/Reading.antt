-- ===== src/Protocol/Framing/Reading.antt =====
-- `read_frame` against `encode_frame`, and what it returns and raises on any input.
use sandstorm_ios_driver.Prelude.{
  ap, sym, Bool-cases, take-append_le, take-append-drop, ℕ, suc, ◌+◌, ◌≤◌, ◌<◌, ◌≡◌, ◌≢◌, ◌⊎◌, inl,
  inr, refl, ◌||◌, ◌==◌, List, [], ◌∷◌, ◌++◌, ◌∙◌, append_assoc, arith, length, take, drop,
  length-append, length-drop, length-take, take-length_append, drop-length_append, ltb,
}
use native.Mathlib.Decide.{dec_lt}
use sandstorm_ios_driver.Python.Exception.{
  ok, err, ios, IosError, protocol_error, agent_connection_error, continue,
}
use sandstorm_ios_driver.Errors.{new_error}
use sandstorm_ios_driver.Protocol.Framing.{
  Arrival, json_frame, binary_frame, header_size, max_payload_size, header_bytes, unpack_header,
  encode_frame, read_exactly, read_body, read_frame,
}
use sandstorm_ios_driver.Protocol.Framing.Stream.{
  pending, read_exactly_enough, Disconnects, read_loop_short, size, size-read_loop,
}
use sandstorm_ios_driver.Protocol.Framing.Header.{unpack_header-pack_header, encode_frame-split}

module _ {F : Type 0} where
  -- After a whole header, the frame is that of the checks and of the body.
  at_header :
      (header body : List ℕ) (s : List Arrival)
      → length header ≡ header_size
      → pending s ≡ header ++ body
      → (s' : List Arrival) × (read_frame {F = F} s
          ≡ continue (λ (t, n). read_body t n) (unpack_header header, s'))
        × (pending s' ≡ body)
  unfolding read_frame
  at_header header body s five e =
      let (s', out, left) =
        read_exactly_enough {F = F} header_size s
          (rw e (omega (arith, length-append header body))) in
      let taken : take header_size (header ++ body) ≡ header =
        rw (← five) (take-length_append header body) in
      let dropped : drop header_size (header ++ body) ≡ body =
        rw (← five) (drop-length_append header body) in
      (s', rw (out, e, taken), left ∙ rw (e, dropped))

  body_enough :
      (t : ℕ) (payload rest : List ℕ) (s : List Arrival)
      → (t ≡ json_frame) ⊎ (t ≡ binary_frame)
      → length payload ≤ max_payload_size
      → pending s ≡ payload ++ rest
      → (s' : List Arrival) × (read_body {F = F} t (length payload) s ≡ (ok (t, payload), s'))
        × (pending s' ≡ rest)
  unfolding read_body
  body_enough t payload rest s known fits e =
      let (s', out, left) =
        read_exactly_enough {F = F} (length payload) s
          (rw e (omega (arith, length-append payload rest))) in
      let taken : take (length payload) (pending s) ≡ payload =
        rw e (take-length_append payload rest) in
      (s', ground (arith, out, taken), left ∙ rw e (drop-length_append payload rest))

  -- A frame that `encode_frame` makes of a payload, under one of the two known types, is read back
  -- whole, type and payload, whatever chunks it arrives in, if its bytes are the first to come and
  -- arrive before any silence or failure; the bytes behind it stay to be read.
  pub read_frame-encode_frame :
      (t : ℕ) (payload rest : List ℕ) {frame : List ℕ} (s : List Arrival)
      → (t ≡ json_frame) ⊎ (t ≡ binary_frame)
      → encode_frame {F = F} t payload ≡ ok frame
      → pending s ≡ frame ++ rest
      → (s' : List Arrival) × (read_frame {F = F} s ≡ (ok (t, payload), s')) × (pending s' ≡ rest)
  read_frame-encode_frame t payload rest s known enc e =
      let (whole, packed, fits) = encode_frame-split {F = F} t payload enc in
      let (unpacked, five) = unpack_header-pack_header {F = F} t (length payload) packed in
      let (s₁, out₁, left₁) =
        at_header (header_bytes t (length payload)) (payload ++ rest) s five
          (e ∙ rw (whole, append_assoc)) in
      let (s₂, out₂, left₂) = body_enough t payload rest s₁ known fits left₁ in
      (s₂, out₁ ∙ rw (unpacked, out₂), left₂)

  -- The bytes of a read, or an `IOSAgentConnectionError`: the two outcomes of `_read_exactly`.
  exactly_cases :
      (n : ℕ) (s : List Arrival)
      → ((bytes : List ℕ) × (s' : List Arrival) × (read_exactly {F = F} n s ≡ (ok bytes, s'))
          × (length bytes ≡ n)
          × (size s' + n ≤ size s))
        ⊎ ((e : IosError F) × (s' : List Arrival) × (read_exactly {F = F} n s ≡ (err (ios e), s'))
            × (e.kind ≡ agent_connection_error))
  unfolding read_exactly
  exactly_cases n s = elim (dec_lt (length (pending s)) n) [
    | yes short ↦
        let (e, out, kind) = read_loop_short {F = F} n n [] s (omega arith) short in
        inr (e, (read_exactly n s).1, ap (λ r. (r, (read_exactly {F = F} n s).1)) out, kind)
    | no enough ↦
        let (s', out, left) = read_exactly_enough {F = F} n s (omega arith) in
        let taken : size s' + n ≤ size s =
          rw out at (size-read_loop {F = F} n n [] s (ap (λ r. r.0) out)) in
        inl (take n (pending s), s', out, omega (arith, length-take n (pending s)), taken)
  ]

  body_cases :
      (t n : ℕ) (s : List Arrival)
      → ((payload : List ℕ) × (s' : List Arrival) × (read_body {F = F} t n s
            ≡ (ok (t, payload), s'))
          × ((t ≡ json_frame) ⊎ (t ≡ binary_frame))
          × (length payload ≤ max_payload_size)
          × (size s' + length payload ≤ size s))
        ⊎ ((e : IosError F) × (s' : List Arrival) × (read_body {F = F} t n s ≡ (err (ios e), s'))
            × ((e.kind ≡ agent_connection_error) ⊎ (e.kind ≡ protocol_error)))
  unfolding read_body
  body_cases t n s = elim (Bool-cases (t == json_frame || t == binary_frame)) [
    | inr unknown ↦ inr (new_error protocol_error "Unknown frame type", s, rw unknown, inr refl)
    | inl known ↦ elim (Bool-cases (ltb max_payload_size n)) [
      | inl large ↦ inr (
        new_error protocol_error "Agent announced an oversized frame",
        s,
        rw (known, large),
        inr refl,
      )
      | inr fits ↦ elim (exactly_cases n s) [
        | inl (payload, s', out, len, less) ↦
            inl (payload, s', rw (known, fits, out), ground arith, ground arith, omega arith)
        | inr (e, s', out, kind) ↦ inr (e, s', rw (known, fits, out), inl kind)
      ]
    ]
  ]

  unpacked :
      (header : List ℕ)
      → length header ≡ header_size
      → (t : ℕ) × (n : ℕ) × (unpack_header {F = F} header ≡ ok (t, n))
  unfolding unpack_header
  unpacked (t ∷ a ∷ b ∷ c ∷ d ∷ []) five = (_, _, refl)
  unpacked _ five = absurd (omega arith)

  -- The outcomes of `read_frame` on any input: a frame of a known type within the limit, and fewer
  -- bytes to come by at least the header and the payload; or a connection or a protocol error.
  pub read_frame_cases :
      (s : List Arrival)
      → ((t : ℕ) × (payload : List ℕ) × (s' : List Arrival) × (read_frame {F = F} s
            ≡ (ok (t, payload), s'))
          × ((t ≡ json_frame) ⊎ (t ≡ binary_frame))
          × (length payload ≤ max_payload_size)
          × (size s' + length payload + header_size ≤ size s))
        ⊎ ((e : IosError F) × (s' : List Arrival) × (read_frame {F = F} s ≡ (err (ios e), s'))
            × ((e.kind ≡ agent_connection_error) ⊎ (e.kind ≡ protocol_error)))
  unfolding read_frame
  read_frame_cases s = elim (exactly_cases header_size s) [
    | inl (header, s', out, five, less) ↦
        let (t, n, both) = unpacked header five in
        elim (body_cases t n s') [
          | inl (payload, s'', out', known, fits, less') ↦
              inl (t, payload, s'', rw (out, both, out'), known, fits, omega arith)
          | inr (e, s'', out', kind) ↦ inr (e, s'', rw (out, both, out'), kind)
        ]
    | inr (e, s', out, kind) ↦ inr (e, s', rw out, inl kind)
  ]

  body_short :
      (t n : ℕ) (s : List Arrival)
      → (t ≡ json_frame) ⊎ (t ≡ binary_frame)
      → n ≤ max_payload_size
      → length (pending s) < n
      → Disconnects (read_body {F = F} t n s).0
  unfolding read_body read_exactly
  body_short t n s known fits short =
      let (x, out, kind) = read_loop_short {F = F} n n [] s (omega arith) short in
      (x, ground (arith, out), kind)

  -- Of a frame that `encode_frame` makes under a known type, only a proper prefix arrives before the
  -- stream ends, stays silent or fails: the reader raises an `IOSAgentConnectionError`.
  pub read_frame-cut_short :
      (t : ℕ) (payload more : List ℕ) {frame : List ℕ} (s : List Arrival)
      → (t ≡ json_frame) ⊎ (t ≡ binary_frame)
      → encode_frame {F = F} t payload ≡ ok frame
      → frame ≡ pending s ++ more
      → more ≢ []
      → Disconnects (read_frame {F = F} s).0
  unfolding read_frame read_exactly
  read_frame-cut_short t payload [] s known enc e cut = absurd (cut refl)
  read_frame-cut_short t payload (m ∷ more) s known enc e cut =
      let (whole, packed, fits) = encode_frame-split {F = F} t payload enc in
      let (both, five) = unpack_header-pack_header {F = F} t (length payload) packed in
      let header : List ℕ = header_bytes t (length payload) in
      let lengths : 5 + length payload ≡ length (pending s) + suc (length more) =
        sym (length-append header payload)
        ∙ ap length (sym whole ∙ e)
        ∙ length-append (pending s) (m ∷ more) in
      elim (dec_lt (length (pending s)) header_size) [
        | yes short ↦
            let (x, out, kind) = read_loop_short {F = F} 5 5 [] s (omega arith) short in
            (x, rw out, kind)
        | no whole_header ↦
            let taken : take 5 (pending s) ≡ header =
              sym (take-append_le 5 (pending s) (m ∷ more) (omega arith))
              ∙ ap (take 5) (sym e ∙ whole) in
            let parts : pending s ≡ header ++ drop 5 (pending s) =
              sym (take-append-drop 5 (pending s)) ∙ ap (λ h. h ++ drop 5 (pending s)) taken in
            let (s', out, left) = at_header header (drop 5 (pending s)) s five parts in
            let few : length (pending s') < length payload =
              rw left (omega (arith, length-drop 5 (pending s))) in
            rw (out, both) (body_short t (length payload) s' known fits few)
      ]
