-- ===== src/Transport/Invoke/Keeps.antt =====
-- What the wait for a reply leaves alone.
use sandstorm_ios_driver.Prelude.{ℕ, zero, suc, ◌∙◌, Bool-cases, inl, inr, List, ◌==◌}
use sandstorm_ios_driver.Prelude.Int.{pos, int_eq}
use sandstorm_ios_driver.Python.Json.{Json, null}
use sandstorm_ios_driver.Python.Runtime.{Runtime, lookup_or, parsed, truthy}
use sandstorm_ios_driver.Transport.Client.{Client, client_read, monotonic, lift}
use sandstorm_ios_driver.Transport.Client.Connecting.{HasId, client_read-next_id}
use sandstorm_ios_driver.Transport.Raises.{Keeps-continue, Keeps-choice}
use sandstorm_ios_driver.Transport.Invoke.{
  check_attachment, attachment, with_attachment, with_descriptor, with_message, with_frame,
  read_response, await_reply,
}

-- What `client_read` and the clock keep of the client is kept by the wait.
module _ {F : Type 0} ⦃rt : Runtime F⦄ (P : Client F → Type 0)
    (read : (c : Client F) → P c → P (client_read c).1)
    (clock : (c : Client F) → P c → P (monotonic c).1) where
  attachment-Keeps : (j : Json F) (c : Client F) → P c → P (attachment j c).1
  unfolding attachment
  attachment-Keeps j c h = elim (Bool-cases (truthy j)) [
    | inl present ↦ rw present (
        Keeps-continue P (λ frame. lift (check_attachment j frame)) (client_read c) (read c h)
          (λ frame c₁ h₁. h₁))
    | inr absent ↦ rw absent h
  ]

  with_frame-Keeps : (frame : ℕ × List ℕ) (c : Client F) → P c → P (with_frame frame c).1
  unfolding with_frame
  with_frame-Keeps (t, bytes) c h = elim (Bool-cases (t == 1)) [
    | inl text ↦ rw text (
        Keeps-continue P with_message (parsed (rt.loads bytes), c) h
          (λ m c₁ h₁.
            Keeps-continue P (with_descriptor m) (lookup_or m "binary" null, c₁) h₁
              (λ d c₂ h₂.
                Keeps-continue P (with_attachment m) (attachment d c₂) (attachment-Keeps d c₂ h₂)
                  (λ b c₃ h₃. h₃))))
    | inr binary ↦ rw binary h
  ]

  read_response-Keeps : (c : Client F) → P c → P (read_response c).1
  unfolding read_response
  read_response-Keeps c h =
      Keeps-continue P with_frame (client_read c) (read c h)
        (λ frame c₁ h₁. with_frame-Keeps frame c₁ h₁)

  pub await_reply-Keeps :
      (fuel id : ℕ) (deadline : F) (c : Client F) → P c → P (await_reply fuel id deadline c).1
  unfolding await_reply
  await_reply-Keeps zero id deadline c h = h
  await_reply-Keeps (suc fuel) id deadline c h =
      Keeps-continue P _ (read_response c) (read_response-Keeps c h) (λ r c₁ h₁.
        Keeps-choice P (int_eq r.id (pos id)) _ _ c₁ h₁ (
          Keeps-continue P _ (monotonic c₁) (clock c₁ h₁) (λ now c₂ h₂.
            Keeps-choice P (rt.lt deadline now) _ _ c₂ h₂
              (await_reply-Keeps fuel id deadline c₂ h₂))))

-- Waiting numbers no command.
module _ {F : Type 0} ⦃rt : Runtime F⦄ where
  pub await_reply-next_id :
      (n fuel id : ℕ) (deadline : F) (c : Client F)
      → HasId n c
      → HasId n (await_reply fuel id deadline c).1
  unfolding monotonic
  await_reply-next_id n fuel id deadline c h =
      await_reply-Keeps (HasId n) (λ c₁ h₁. client_read-next_id c₁ ∙ h₁) (λ c₁ h₁. h₁) fuel id
        deadline c h
