-- ===== src/Inspector/Recorder/Recording.antt =====
-- What recording and undoing do to the list of steps.
use sandstorm_ios_driver.Prelude.{◌≡◌, refl, ap, true, some, List, [], ◌∷◌, ◌++◌}
use sandstorm_ios_driver.Inspector.Recorder.{Step, Recorder, pop, undo, capture}

pop-append : (steps : List Step) (s : Step) → pop (steps ++ (s ∷ [])) ≡ (some s, steps)
unfolding pop
pop-append [] s = refl
pop-append (a ∷ []) s = refl
pop-append (a ∷ b ∷ rest) s = ap (λ (last, before). (last, a ∷ before)) (pop-append (b ∷ rest) s)

-- While recording, `undo` takes back what was captured last: it returns that step and leaves the
-- recorder as it was before.
pub undo-capture :
    (s : Step) (r : Recorder) → r.recording ≡ true → undo (capture s r).1 ≡ (some s, r)
unfolding undo capture
undo-capture s r on = rw (on, pop-append r.steps s) refl
