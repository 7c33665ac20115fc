-- ===== src/Transport/Invoke/Waiting.antt =====
-- The loop that waits for the matching reply: it ends, and what it returns.
use sandstorm_ios_driver.Prelude.{
  ℕ, zero, suc, ◌+◌, ◌≤◌, ◌<◌, ◌≡◌, refl, not, Bool-cases, inl, inr, Option, none, some, List,
  arith, ◌==◌, length,
}
use sandstorm_ios_driver.Prelude.Int.{pos, int_eq, int_eq_iff}
use sandstorm_ios_driver.Python.Json.{Json, null}
use sandstorm_ios_driver.Python.Exception.{Except, ok, err}
use sandstorm_ios_driver.Python.Runtime.{Runtime, lookup_or, parsed, truthy}
use sandstorm_ios_driver.Protocol.Framing.Reading.{read_frame_cases}
use sandstorm_ios_driver.Protocol.Messages.{response_from_wire}
use sandstorm_ios_driver.Transport.Net.{Socket}
use sandstorm_ios_driver.Transport.Client.{Client, on_socket, receive, client_read, monotonic, lift}
use sandstorm_ios_driver.Transport.Raises.{
  Only, Only-bind, Only-continue, Only-steps, Only-if, Only-choice, Post, Post-continue,
}
use sandstorm_ios_driver.Transport.Raises.Tame.{
  tame, parsed-tame, lookup_or-tame, to_int-tame, response_from_wire-tame, client_read-tame,
}
use sandstorm_ios_driver.Transport.Invoke.{
  check_attachment, attachment, with_attachment, with_descriptor, with_message, with_frame,
  read_response, await_reply, incoming_size,
}

-- Of `n` bytes those of a header at least have been read.
abbrev pub AtMost : {F A : Type 0} → ℕ → A → Client F → Type 0
AtMost n a c = incoming_size c.socket + 5 ≤ n

module _ {F : Type 0} where
  receive-less :
      (o : Option Socket) (c : Client F) (n : ℕ)
      → incoming_size o ≤ n
      → Post (AtMost n) (on_socket receive o c)
  receive-less none c n h = tt
  receive-less (some s) c n h = elim (read_frame_cases {F = F} s.incoming) [
    | inl (t, payload, s', out, known, fits, less) ↦ rw out (omega arith)
    | inr (e, s', out, kind) ↦ rw out tt
  ]

  -- A frame that is read takes five bytes at least off the socket.
  client_read-less :
      (c : Client F) (n : ℕ) → incoming_size c.socket ≤ n → Post (AtMost n) (client_read c)
  unfolding client_read
  client_read-less c n h = receive-less c.socket c n h

  -- A step that leaves the state alone.
  lift-AtMost :
      {A : Type 0} (r : Except F A) (c : Client F) (n : ℕ)
      → incoming_size c.socket + 5 ≤ n
      → Post (AtMost n) (r, c)
  lift-AtMost (ok a) c n h = h
  lift-AtMost (err e) c n h = tt

module _ {F : Type 0} ⦃rt : Runtime F⦄ where
  attachment-AtMost :
      (j : Json F) (c : Client F) (n : ℕ)
      → incoming_size c.socket + 5 ≤ n
      → Post (AtMost n) (attachment j c)
  unfolding attachment
  attachment-AtMost j c n h = elim (Bool-cases (truthy j)) [
    | inl present ↦ rw present (
        Post-continue (AtMost n) (λ frame. lift (check_attachment j frame)) (client_read c)
          (λ frame c₁ e.
            lift-AtMost (check_attachment j frame) c₁ n
              (rw e at (client_read-less c n (omega arith)))))
    | inr absent ↦ rw absent h
  ]

  with_descriptor-AtMost :
      (m d : Json F) (c : Client F) (n : ℕ)
      → incoming_size c.socket + 5 ≤ n
      → Post (AtMost n) (with_descriptor m d c)
  with_descriptor-AtMost m d c n h =
      Post-continue (AtMost n) (with_attachment m) (attachment d c) (λ binary c₁ e.
        lift-AtMost (response_from_wire m binary) c₁ n (rw e at (attachment-AtMost d c n h)))

  with_frame-AtMost :
      (frame : ℕ × List ℕ) (c : Client F) (n : ℕ)
      → incoming_size c.socket + 5 ≤ n
      → Post (AtMost n) (with_frame frame c)
  unfolding with_frame
  with_frame-AtMost (t, bytes) c n h = elim (Bool-cases (t == 1)) [
    | inl text ↦ rw text (
        Post-continue (AtMost n) with_message (parsed (rt.loads bytes), c)
          (λ m c₁ e.
            Post-continue (AtMost n) (with_descriptor m) (lookup_or m "binary" null, c₁)
              (λ d c₂ e₂. with_descriptor-AtMost m d c₂ n (grind arith))))
    | inr binary ↦ rw binary tt
  ]

  -- A response that is read has taken the five bytes of a header at least off the socket.
  read_response-AtMost :
      (c : Client F) (n : ℕ) → incoming_size c.socket ≤ n → Post (AtMost n) (read_response c)
  unfolding read_response
  read_response-AtMost c n h =
      Post-continue (AtMost n) with_frame (client_read c)
        (λ frame c₁ e. with_frame-AtMost frame c₁ n (rw e at (client_read-less c n h)))

  check_attachment-tame : (j : Json F) (frame : ℕ × List ℕ) → Only tame (check_attachment j frame)
  unfolding check_attachment
  check_attachment-tame j (t, bytes) = Only-if tame (not (t == 2)) _ _ refl (
      Only-bind tame _ _ (lookup_or-tame j "length" _) (λ announced.
        Only-bind tame _ _ (to_int-tame announced)
          (λ n. Only-if tame (not (int_eq (pos (length bytes)) n)) _ (ok (some bytes)) refl tt)))

  attachment-tame : (j : Json F) (c : Client F) → Only tame (attachment j c).0
  unfolding attachment
  attachment-tame j c = elim (Bool-cases (truthy j)) [
    | inl present ↦ rw present (
        Only-continue tame (λ frame. lift (check_attachment j frame)) (client_read c)
          (client_read-tame c) (λ frame c₁. check_attachment-tame j frame))
    | inr absent ↦ rw absent tt
  ]

  with_frame-tame : (frame : ℕ × List ℕ) (c : Client F) → Only tame (with_frame frame c).0
  unfolding with_frame
  with_frame-tame (t, bytes) c = elim (Bool-cases (t == 1)) [
    | inl text ↦ rw text (
        Only-continue tame with_message (parsed (rt.loads bytes), c)
          (parsed-tame F (rt.loads bytes))
          (λ m c₁.
            Only-continue tame (with_descriptor m) (lookup_or m "binary" null, c₁)
              (lookup_or-tame m "binary" null)
              (λ d c₂.
                Only-continue tame (with_attachment m) (attachment d c₂) (attachment-tame d c₂)
                  (λ b c₃. response_from_wire-tame m b))))
    | inr binary ↦ rw binary refl
  ]

  read_response-tame : (c : Client F) → Only tame (read_response c).0
  unfolding read_response
  read_response-tame c =
      Only-continue tame with_frame (client_read c) (client_read-tame c) with_frame-tame

  -- With more fuel than bytes to come, the wait ends with the matching reply or with an exception
  -- of the program, and that is never an `IOSSessionLost`.
  pub await_reply-ends :
      (fuel id : ℕ) (deadline : F) (c : Client F)
      → incoming_size c.socket < fuel
      → Only tame (await_reply fuel id deadline c).0
  unfolding await_reply monotonic
  await_reply-ends zero id deadline c h = absurd (omega arith)
  await_reply-ends (suc fuel) id deadline c h =
      Only-steps tame _ (read_response c) (read_response-tame c) (λ r c₁ e.
        Only-choice tame (int_eq r.id (pos id)) _ _ c₁ tt (
          Only-choice tame (rt.lt deadline (c₁.clock c₁.ticks)) _ _
            (record c₁ { ticks = c₁.ticks + 1 }) refl
            (let left : incoming_size c₁.socket + 5 ≤ incoming_size c.socket =
                rw e at (read_response-AtMost c (incoming_size c.socket) (omega arith)) in
              await_reply-ends fuel id deadline (record c₁ { ticks = c₁.ticks + 1 })
                (omega arith))))

  -- The reply that is returned carries the id of the command.
  pub await_reply-id :
      (fuel id : ℕ) (deadline : F) (c : Client F)
      → Post (λ r _. r.id ≡ pos id) (await_reply fuel id deadline c)
  unfolding await_reply monotonic
  await_reply-id zero id deadline c = tt
  await_reply-id (suc fuel) id deadline c =
      Post-continue (λ r _. r.id ≡ pos id) _ (read_response c)
        (λ r c₁ e. elim (Bool-cases (int_eq r.id (pos id))) [
          | inl same ↦ rw same ((int_eq_iff r.id (pos id)).0 same)
          | inr differ ↦ rw differ (elim (Bool-cases (rt.lt deadline (c₁.clock c₁.ticks))) [
            | inl late ↦ rw late tt
            | inr early ↦
                rw early (await_reply-id fuel id deadline (record c₁ { ticks = c₁.ticks + 1 }))
          ])
        ])
