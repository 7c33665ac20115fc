-- ===== src/Protocol/Framing/Channel.antt =====
-- A stream of frames as the queue that it stands for.
use sandstorm_ios_driver.Prelude.{
  ℕ, ◌≡◌, refl, sym, ap, ◌∙◌, ◌⊎◌, inl, inr, List, [], ◌∷◌, ◌++◌, All, arith,
}
use sandstorm_ios_driver.Python.Exception.{Except, Except-cases, ok, ◌>>=◌}
use sandstorm_ios_driver.Protocol.Framing.{
  Arrival, json_frame, binary_frame, header_bytes, encode_frame, pack_header, read_frame,
}
use sandstorm_ios_driver.Protocol.Framing.Stream.{pending, Disconnects}
use sandstorm_ios_driver.Protocol.Framing.Reading.{read_frame-encode_frame, read_frame-cut_short}

abbrev pub Frame : Type 0
Frame = ℕ × List ℕ

abbrev pub Known : Frame → Type 0
Known (t, payload) = (t ≡ json_frame) ⊎ (t ≡ binary_frame)

module _ (F : Type 0) where
  -- The bytes of the frames, one after the other.
  abbrev pub encode_all : List Frame → Except F (List ℕ)
  encode_all [] = ok []
  encode_all ((t, payload) ∷ queue) =
      encode_frame t payload >>= λ frame. encode_all queue >>= λ later. ok (frame ++ later)

  -- The bytes that arrive are those of the queue.
  abbrev pub Holds : List Arrival → List Frame → Type 0
  Holds s queue = (encode_all queue ≡ ok (pending s)) × All Known queue

  -- A read against the queue's `pop`: of an empty queue it raises a connection error, else it yields
  -- the head, and the stream holds the tail.
  abbrev pub Pops : List Frame → Except F Frame × List Arrival → Type 0
  Pops [] (r, s) = Disconnects r
  Pops (f ∷ queue) (r, s) = (r ≡ ok f) × Holds s queue

  encode_all-cons :
      (t : ℕ) (payload : List ℕ) (queue : List Frame) (bytes : List ℕ)
      → encode_all ((t, payload) ∷ queue) ≡ ok bytes
      → (frame : List ℕ) × (later : List ℕ) × (encode_frame {F = F} t payload ≡ ok frame)
        × (encode_all queue ≡ ok later)
        × (bytes ≡ frame ++ later)
  encode_all-cons t payload queue bytes h = elim (Except-cases (encode_frame {F = F} t payload)) [
    | inl (frame, one) ↦ elim (Except-cases (encode_all queue)) [
      | inl (later, others) ↦ (frame, later, one, others, ground (arith, one, others))
      | inr (x, others) ↦ absurd (ground (arith, one, others))
    ]
    | inr (x, one) ↦ absurd (ground (arith, one))
  ]

  nothing_comes : (s : List Arrival) → [] ≡ pending s → Disconnects (read_frame {F = F} s).0
  unfolding encode_frame pack_header
  nothing_comes s e =
      read_frame-cut_short {F = F} 1 [] (header_bytes 1 0) {frame = header_bytes 1 0} s (inl refl)
        refl (rw⁻¹ e refl) (λ k. cc)

  -- `read_frame` implements the queue: if the bytes that arrive, in any chunks, before the stream
  -- ends or stays silent are those of a queue of frames of the two types, then it yields the head
  -- and leaves a stream that holds the tail; and if the queue is empty, it raises an
  -- `IOSAgentConnectionError`.
  pub read_frame-Pops :
      (s : List Arrival) (queue : List Frame) → Holds s queue → Pops queue (read_frame s)
  read_frame-Pops s [] (bytes, known) = nothing_comes s (ground (arith, bytes))
  read_frame-Pops s ((t, payload) ∷ queue) (bytes, (one, others)) =
      let (frame, later, enc, enc_later, split) =
        encode_all-cons t payload queue (pending s) bytes in
      let (s', out, left) = read_frame-encode_frame {F = F} t payload later s one enc split in
      rw out (refl, (enc_later ∙ ap ok (sym left), others))
