-- ===== src/Inspector/Window/Shown.antt =====
-- What the recorder panel shows, and when the recorder changes.
use sandstorm_ios_driver.Prelude.{
  ◌≡◌, refl, sym, ap, ◌∙◌, Bool, true, false, not, Option, none, some, List, [], ◌∷◌, map, length,
  ◌==◌, ◌&&◌, if◌then◌else◌, arith,
}
use mathlib.Core.Path.{subst}
use mathlib.Core.List.{map-append}
use sandstorm_ios_driver.Prelude.Text.{Text, codes, strip}
use sandstorm_ios_driver.Python.Runtime.{Runtime}
use sandstorm_ios_driver.Inspector.Suggestion.{LocatorSuggestion}
use sandstorm_ios_driver.Inspector.Recorder.{Step, Recorder, start, stop, clear, pop, undo}
use sandstorm_ios_driver.Inspector.Recorder.Script.{generate}
use sandstorm_ios_driver.Sdk.Locator.{or_text}
use sandstorm_ios_driver.Inspector.Window.{
  Toolkit, Window, after_capture, on_step_recorded, after_undo, generated_code, update_code_preview,
  toggle_recording, recorder_undo, recorder_clear, without_last, copy_code, save_code,
  edit_case_name, choose_style, update_auto_refresh,
}
use sandstorm_ios_driver.Inspector.Window.Actions.{copy_locator, copied, selected_suggestion}
use sandstorm_ios_driver.Inspector.Window.Handle.{
  Event, connects, launches, refreshes, taps, long_presses, clears, swipes, asserts_visible,
  copies_locator, copies_code, undoes, shows_invisible, records, clears_steps, clicks, chooses_item,
  types, waits, asserts_text, takes_screenshot, saves, names_case, names_bundle, chooses_style,
  chooses_period, handle,
}
use sandstorm_ios_driver.Inspector.Window.Session.{
  set_include_invisible, tree_selection_changed, found_in,
}
use sandstorm_ios_driver.Inspector.Window.Recorded.{
  Panel, panel_of, Captures, Keeps, refresh-Keeps, connect-Keeps, select_if-Keeps,
  select_at_point-Keeps, launch_app-Keeps,
}
use sandstorm_ios_driver.Inspector.Window.Events.{
  tap-Keeps, press-Keeps, type-Keeps, clear-Keeps, swipe-Keeps, wait-Keeps, visible-Keeps,
  text-Keeps, screenshot-Keeps,
}

-- The events that reach the panel itself.
abbrev pub is_edit : {F : Type 0} → Event F → Bool
is_edit undoes = true
is_edit (records b) = true
is_edit (clears_steps b) = true
is_edit (names_case t) = true
is_edit (names_bundle t) = true
is_edit (chooses_style s) = true
is_edit _ = false

module _ {F : Type 0} ⦃rt : Runtime F⦄ (qt : Toolkit F) (P : Window F → Type 0)
    (same : (w w₁ : Window F) → panel_of w₁ ≡ panel_of w → P w → P w₁)
    (keeps : (w : Window F) (out : Option Step × Recorder)
      → Captures w.recorder out
      → P w
      → P (after_capture rt qt out w)) where
  copied-panel :
      (o : Option LocatorSuggestion) (w : Window F) → panel_of (copied qt o w) ≡ panel_of w
  copied-panel none w = refl
  copied-panel (some s) w = refl

  -- Every other event keeps what captures keep.
  handle-Keeps : (e : Event F) → is_edit e ≡ false → Keeps qt P same (handle qt e)
  unfolding handle copy_code save_code update_auto_refresh copy_locator set_include_invisible
      tree_selection_changed
  handle-Keeps connects h = connect-Keeps qt P same
  handle-Keeps launches h = launch_app-Keeps qt P same keeps
  handle-Keeps refreshes h = refresh-Keeps qt P same
  handle-Keeps taps h = tap-Keeps qt P same keeps
  handle-Keeps long_presses h = press-Keeps qt P same keeps
  handle-Keeps clears h = clear-Keeps qt P same keeps
  handle-Keeps swipes h = swipe-Keeps qt P same keeps
  handle-Keeps asserts_visible h = visible-Keeps qt P same keeps
  handle-Keeps copies_locator h =
      λ w p. same w (copy_locator qt w) (copied-panel (selected_suggestion qt w) w) p
  handle-Keeps copies_code h = λ w p. same w _ refl p
  handle-Keeps (shows_invisible b) h =
      λ w p. refresh-Keeps qt P same (record w { include_invisible = b }) (same w _ refl p)
  handle-Keeps (clicks at) h = select_at_point-Keeps qt P same at
  handle-Keeps (chooses_item path) h =
      λ w p. select_if-Keeps qt P same (found_in qt w.snapshot path) w p
  handle-Keeps (types answer) h = type-Keeps qt P same keeps answer
  handle-Keeps (waits answer) h = wait-Keeps qt P same keeps answer
  handle-Keeps (asserts_text answer) h = text-Keeps qt P same keeps answer
  handle-Keeps (takes_screenshot answer) h = screenshot-Keeps qt P same keeps answer
  handle-Keeps (saves [] written) h = λ w p. p
  handle-Keeps (saves (c ∷ path) true) h = λ w p. same w _ refl p
  handle-Keeps (saves (c ∷ path) false) h = λ w p. p
  handle-Keeps (chooses_period index) h = λ w p. same w _ refl p
  handle-Keeps undoes h = absurd (ground arith)
  handle-Keeps (records b) h = absurd (ground arith)
  handle-Keeps (clears_steps b) h = absurd (ground arith)
  handle-Keeps (names_case t) h = absurd (ground arith)
  handle-Keeps (names_bundle t) h = absurd (ground arith)
  handle-Keeps (chooses_style s) h = absurd (ground arith)

abbrev pub summaries : List Step → List Text
summaries = map (λ s. s.summary)

summaries-pop : (xs : List Step) → summaries (pop xs).1 ≡ without_last (summaries xs)
unfolding pop
summaries-pop [] = refl
summaries-pop (x ∷ []) = refl
summaries-pop (x ∷ y ∷ xs) = ap (λ ts. x.summary ∷ ts) (summaries-pop (y ∷ xs))

pop-none : (xs : List Step) → (pop xs).0 ≡ none → (pop xs).1 ≡ xs
unfolding pop
pop-none [] h = refl
pop-none (x ∷ []) h = absurd (ground arith)
pop-none (x ∷ y ∷ xs) h = ap (λ ts. x ∷ ts) (pop-none (y ∷ xs) h)

module _ {F : Type 0} ⦃rt : Runtime F⦄ (qt : Toolkit F) where
  -- The list shows the recorder's steps, and the preview the code that they make.
  abbrev pub Shown : Window F → Type 0
  Shown w = (w.step_list ≡ summaries w.recorder.steps) × (w.code_preview ≡ generated_code rt qt w)

  abbrev pub edits_bundle : Event F → Bool
  edits_bundle (names_bundle t) = true
  edits_bundle _ = false

  abbrev ShownIn : Panel → Type 0
  ShownIn l =
      (l.step_list ≡ summaries l.recorder.steps)
      × (l.code_preview
          ≡ generate rt qt.stamp (or_text (strip l.bundle_input) l.default_bundle_id)
              (or_text (strip l.case_name) (codes "recorded flow")) l.style_box l.host l.port
              l.recorder)

  same-Shown : (w w₁ : Window F) → panel_of w₁ ≡ panel_of w → Shown w → Shown w₁
  unfolding generated_code
  same-Shown w w₁ e p = subst ShownIn (sym e) p

  clear-Shown : (b : Bool) (w : Window F) → Shown w → Shown (recorder_clear rt qt b w)
  unfolding recorder_clear clear update_code_preview generated_code
  clear-Shown b w p = either-Shown (not (length w.recorder.steps == 0) && not b) w _ p (refl, refl)
    where
      either-Shown : (b : Bool) (w w₁ : Window F) → Shown w → Shown w₁ → Shown (if b then w else w₁)
      either-Shown true w w₁ p q = p
      either-Shown false w w₁ p q = q

  after_capture-Shown :
      (w : Window F) (out : Option Step × Recorder)
      → Captures w.recorder out
      → Shown w
      → Shown (after_capture rt qt out w)
  unfolding after_capture on_step_recorded update_code_preview generated_code
  after_capture-Shown w (none, r) h p = rw h p
  after_capture-Shown w (some s, r) (on, h) (p, q) =
      rw h (rw p (sym (map-append (λ s. s.summary) w.recorder.steps (s ∷ []))), refl)

  after_undo-Shown :
      (w : Window F) (out : Option Step × List Step)
      → summaries out.1 ≡ without_last w.step_list
      → (out.0 ≡ none → out.1 ≡ w.recorder.steps)
      → Shown w
      → Shown (after_undo rt qt (out.0, record w.recorder { steps = out.1 }) w)
  unfolding after_undo update_code_preview generated_code
  after_undo-Shown w (none, steps) h k p = rw (k refl) p
  after_undo-Shown w (some s, steps) h k (p, q) = (sym h, refl)

  undo-Shown : (w : Window F) → Shown w → Shown (recorder_undo rt qt w)
  unfolding recorder_undo undo
  undo-Shown w (p, q) =
      after_undo-Shown w (pop w.recorder.steps) (rw p (summaries-pop w.recorder.steps))
        (pop-none w.recorder.steps) (p, q)

  -- Whatever event happens, but an edit of the bundle identifier, the list of steps and the preview
  -- show the recorder afterwards if they did before, also if the handler raises. The time stamp in
  -- the code counts as the same.
  pub handle-Shown :
      (e : Event F) (w : Window F) → edits_bundle e ≡ false → Shown w → Shown (handle qt e w).1
  unfolding handle edit_case_name choose_style toggle_recording recorder_clear start stop clear
      update_code_preview generated_code
  handle-Shown undoes w h p = undo-Shown w p
  handle-Shown (records true) w h (p, q) = (p, refl)
  handle-Shown (records false) w h (p, q) = (p, refl)
  handle-Shown (clears_steps b) w h p = clear-Shown b w p
  handle-Shown (names_case t) w h (p, q) = (p, refl)
  handle-Shown (chooses_style s) w h (p, q) = (p, refl)
  handle-Shown (names_bundle t) w h p = absurd (ground arith)
  handle-Shown e w h p = handle-Keeps qt Shown same-Shown after_capture-Shown e refl w p

  abbrev pub edits_steps : Event F → Bool
  edits_steps undoes = true
  edits_steps (records b) = true
  edits_steps (clears_steps b) = true
  edits_steps _ = false

  after_capture-idle :
      (w : Window F) (out : Option Step × Recorder)
      → w.recorder.recording ≡ false
      → Captures w.recorder out
      → (after_capture rt qt out w).recorder ≡ w.recorder
  unfolding after_capture on_step_recorded
  after_capture-idle w (none, r) off h = h
  after_capture-idle w (some s, r) off (on, h) = absurd (ground (arith, on, off))

  -- While nothing is recorded, no event but `Undo`, `Clear` and `Record` changes the recorder,
  -- whatever the agent answers.
  pub handle-idle :
      (e : Event F) (w : Window F)
      → w.recorder.recording ≡ false
      → edits_steps e ≡ false
      → (handle qt e w).1.recorder ≡ w.recorder
  unfolding handle edit_case_name choose_style update_code_preview
  handle-idle undoes w off h = absurd (ground arith)
  handle-idle (records b) w off h = absurd (ground arith)
  handle-idle (clears_steps b) w off h = absurd (ground arith)
  handle-idle (names_case t) w off h = refl
  handle-idle (chooses_style s) w off h = refl
  handle-idle (names_bundle t) w off h = refl
  handle-idle e w off h =
      handle-Keeps qt (λ w₁. w₁.recorder ≡ w.recorder)
        (λ w₁ w₂ same p. ap (λ s. s.recorder) same ∙ p)
        (λ w₁ out c p. after_capture-idle w₁ out (ap (λ r. r.recording) p ∙ off) c ∙ p) e refl w
        refl
