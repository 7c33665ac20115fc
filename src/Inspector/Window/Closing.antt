-- ===== src/Inspector/Window/Closing.antt =====
-- What closing the window leaves.
use sandstorm_ios_driver.Prelude.{
  ◌≡◌, ◌≢◌, refl, ◌⊎◌, inl, inr, Bool, true, false, none, List, [], ◌∷◌, ◌++◌, length, ◌==◌, arith,
}
use sandstorm_ios_driver.Prelude.Text.{Text}
use sandstorm_ios_driver.Python.Exception.{Except, ok, err, os_error}
use sandstorm_ios_driver.Python.Runtime.{Runtime}
use sandstorm_ios_driver.Sdk.Device.{Device, device_disconnect}
use sandstorm_ios_driver.Inspector.Recorder.{Step}
use sandstorm_ios_driver.Inspector.Window.{
  Toolkit, Window, Choice, save, discard, cancel, shut, by_choice, save_code, close_event,
  generated_code,
}

-- Whether the window closes, how the handler ends, and the window after it.
abbrev Outcome : Type 0 → Type 0
Outcome F = Bool × (Except F (Unit {0}) × Window F)

-- The window closes without a session and without the timer, and these are the files saved.
abbrev Shut : {F : Type 0} → List (Text × Text) → Outcome F → Type 0
Shut files (closed, (r, w)) =
    (closed ≡ true)
    × (r ≡ ok tt)
    × (w.device.has_session ≡ false)
    × (w.refresh_timer ≡ none)
    × (w.saved ≡ files)

module _ {F : Type 0} (rt : Runtime F) (qt : Toolkit F) where
  -- By the answer to the question: `Cancel` changes nothing and keeps the window open; `Discard`
  -- closes and saves nothing; `Save` writes the generated code to the path and closes; without a
  -- path it closes and saves nothing; where the file cannot be written it raises, and the window
  -- closes with session and timer left.
  abbrev Answered : Choice → Text → Bool → Window F → Outcome F → Type 0
  Answered cancel path written w out = out ≡ (false, (ok tt, w))
  Answered discard path written w out = Shut w.saved out
  Answered save [] written w out = Shut w.saved out
  Answered save (c ∷ path) true w out =
      Shut (w.saved ++ ((c ∷ path, generated_code rt qt w) ∷ [])) out
  Answered save (c ∷ path) false w out = out ≡ (true, (err os_error, w))

  -- The question is asked if there are steps.
  abbrev pub Closes : Choice → Text → Bool → Window F → Outcome F → Type 0
  Closes choice path written w out =
      ((w.recorder.steps ≡ []) × Shut w.saved out)
      ⊎ ((w.recorder.steps ≢ []) × Answered choice path written w out)

  disconnected : (d : Device F) → (device_disconnect d).has_session ≡ false
  unfolding device_disconnect
  disconnected d = ground arith

  by_choice-Answered :
      (choice : Choice) (path : Text) (written : Bool) (w : Window F)
      → Answered choice path written w (by_choice rt qt choice path written w)
  unfolding by_choice shut save_code
  by_choice-Answered cancel path written w = refl
  by_choice-Answered discard path written w = (refl, refl, disconnected w.device, refl, refl)
  by_choice-Answered save [] written w = (refl, refl, disconnected w.device, refl, refl)
  by_choice-Answered save (c ∷ path) true w = (refl, refl, disconnected w.device, refl, refl)
  by_choice-Answered save (c ∷ path) false w = refl

  steps-cases :
      (steps : List Step)
      → ((steps ≡ []) × ((length steps == 0) ≡ true))
        ⊎ ((steps ≢ []) × ((length steps == 0) ≡ false))
  steps-cases [] = inl (refl, refl)
  steps-cases (s ∷ steps) = inr (λ e. cc, ground arith)

  -- Without steps the window closes, without session and timer and with nothing saved. With steps
  -- the user's answer decides: `Cancel` leaves it open as it was; `Discard` closes it likewise;
  -- `Save` closes it with one more file, the generated code under the path of the dialog. Where
  -- that dialog is cancelled it closes with nothing saved, and where the file cannot be written the
  -- handler raises, and the window closes with session and timer left.
  pub close_event-Closes :
      (choice : Choice) (path : Text) (written : Bool) (w : Window F)
      → Closes choice path written w (close_event rt qt choice path written w)
  unfolding close_event shut
  close_event-Closes choice path written w = elim (steps-cases w.recorder.steps) [
    | inl (none_left, e) ↦ inl (none_left, rw e (refl, refl, disconnected w.device, refl, refl))
    | inr (left, e) ↦ inr (left, rw e (by_choice-Answered choice path written w))
  ]
