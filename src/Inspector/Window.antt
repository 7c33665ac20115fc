-- ===== src/Inspector/Window.antt =====
-- The state of `InspectorWindow` and of its `ScreenshotView`, and the recorder panel:
-- ios-inspector/sandstorm_inspector/app.py. The widgets are the values that they show; what Qt
-- computes from an image and what the user answers in a dialog are given.
pub mod Session
pub mod Actions
pub mod Handle
pub mod Captures
pub mod Recorded
pub mod Events
pub mod Shown
pub mod Closing
pub mod Opening
use sandstorm_ios_driver.Prelude.{
  ℕ, ◌≡◌, refl, String, Bool, true, false, not, ◌&&◌, ◌||◌, Option, none, some, List, [], ◌∷◌, ◌++◌,
  length, ◌==◌, map, if◌then◌else◌,
}
use mathlib.Core.List.{reverse}
use sandstorm_ios_driver.Prelude.Text.{Text, codes, is_empty, strip}
use sandstorm_ios_driver.Prelude.Int.{pos}
use sandstorm_ios_driver.Python.Json.{Json, int}
use sandstorm_ios_driver.Python.Exception.{
  Except, ok, err, Exc, ios, IosError, Action, bind, os_error,
}
use sandstorm_ios_driver.Python.Runtime.{Runtime, eq_zero}
use sandstorm_ios_driver.Inspector.Tree.{Node}
use sandstorm_ios_driver.Inspector.HitTest.{Rect}
use sandstorm_ios_driver.Inspector.Suggestion.{LocatorSuggestion}
use sandstorm_ios_driver.Inspector.Recorder.{Step, Recorder, Capture, start, stop, clear, undo}
use sandstorm_ios_driver.Inspector.Recorder.Script.{Style, generate, function_name}
use sandstorm_ios_driver.Sdk.Locator.{or_text}
use sandstorm_ios_driver.Sdk.Device.{Device, device_disconnect}

-- What the window takes from Qt and from Python: the width and height of an image in pixels, the
-- quotient of two floats, the literals 0.3, 0.25 and 0.75, and the time stamp of the generated code,
-- one for all the calls.
pub record Toolkit (F : Type 0) : Type 0 where
  pub image_size : List ℕ → F × F
  pub divide : F → F → F
  pub three_tenths : F
  pub one_quarter : F
  pub three_quarters : F
  pub stamp : Text

-- `ScreenshotView`: the size of its image in pixels, and the rectangle that is marked in it.
pub record View (F : Type 0) : Type 0 where
  pub image : Option (F × F)
  pub marked : Option (Rect F)
  pub points_size : F × F

module _ {F : Type 0} (rt : Runtime F) (qt : Toolkit F) where
  unfoldable pub set_screenshot : List ℕ → F × F → View F → View F
  set_screenshot bytes point_size v = record {
    image = some (qt.image_size bytes);
    marked = none;
    points_size = point_size;
  }

  -- `a / b if b else 1.0`
  abbrev pub ratio : F → F → F
  ratio a b = if eq_zero ⦃rt = rt⦄ b then rt.one_float else qt.divide a b

  abbrev pub scale_of : Option (F × F) → F × F → F × F
  scale_of none size = (rt.one_float, rt.one_float)
  scale_of (some (w, h)) (width, height) = (ratio w width, ratio h height)

  unfoldable pub pixel_scale : View F → F × F
  pixel_scale v = scale_of v.image v.points_size

  abbrev pub scaled : Rect F → F × F → Rect F
  scaled r (sx, sy) = record {
    x = rt.mul r.x sx;
    y = rt.mul r.y sy;
    width = rt.mul r.width sx;
    height = rt.mul r.height sy;
  }

  unfoldable pub marked_in : Option (F × F) → Rect F → View F → View F
  unfolding pixel_scale
  marked_in none r v = v
  marked_in (some size) r v = record v { marked = some (scaled r (pixel_scale v)) }

  unfoldable pub highlight : Rect F → View F → View F
  highlight r v = marked_in v.image r v

  abbrev pub unscaled : F × F → F × F → Option (F × F)
  unscaled (x, y) (sx, sy) =
      if eq_zero ⦃rt = rt⦄ sx || eq_zero ⦃rt = rt⦄ sy
      then none
      else some (qt.divide x sx, qt.divide y sy)

  unfoldable pub clicked_in : Option (F × F) → F × F → View F → Option (F × F)
  unfolding pixel_scale
  clicked_in none at v = none
  clicked_in (some size) at v = unscaled at (pixel_scale v)

  -- `mousePressEvent` at a point of the scene: the point of the device that it calls back with.
  unfoldable pub clicked : F × F → View F → Option (F × F)
  clicked at v = clicked_in v.image at v

-- What the status bar shows: a text, or that of an error.
pub data Status (F : Type 0) : Type 0 where
  blank : Status F
  said : Text → Status F
  failed : IosError F → Status F

pub record Window (F : Type 0) : Type 0 where
  pub device : Device F
  pub host : Text
  pub port : ℕ
  pub snapshot : Option (Node F)
  pub selected : Option (Node F)
  pub point_size : F × F
  pub default_bundle_id : Text
  pub include_invisible : Bool
  pub recorder : Recorder
  pub view : View F
  pub device_label : Text
  pub bundle_input : Text
  pub relaunch_toggle : Bool
  pub tree : List (Text × Option (Json F))
  -- the attributes, of which the fields show seven
  pub detail_fields : List (String × Text)
  pub locator_output : List LocatorSuggestion
  pub case_name : Text
  pub style_box : Style
  pub step_list : List Text
  pub code_preview : Text
  pub status : Status F
  -- the period of the timer in milliseconds, while it runs
  pub refresh_timer : Option ℕ
  pub clipboard : Text
  pub saved : List (Text × Text)

-- `takeItem(count() - 1)`: the list without its last item
abbrev pub without_last : List Text → List Text
without_last [] = []
without_last (t ∷ []) = []
without_last (t ∷ u ∷ rest) = t ∷ without_last (u ∷ rest)

module _ {F : Type 0} where
  abbrev pub say : Text → Window F → Window F
  say t w = record w { status = said t }

  unfoldable pub update_auto_refresh : ℕ → Window F → Window F
  update_auto_refresh index w = record w {
    refresh_timer = if index == 1 then some 2000 else if index == 2 then some 5000 else none;
  }

  -- `except IOSError as exc`, with its text in the status bar
  abbrev pub shown_error : {A : Type 0} → A → Exc F → Window F → Except F A × Window F
  shown_error a (ios e) w = (ok a, record w { status = failed e })
  shown_error a e w = (err e, w)

  -- `_run`
  abbrev pub reported :
      {A : Type 0} → Text → Window F → Except F A × Device F → Except F Bool × Window F
  reported success w (ok a, d) = (ok true, say success (record w { device = d }))
  reported success w (err e, d) = shown_error false e (record w { device = d })

  unfoldable pub run : {A : Type 0} → Action F (Device F) A → Text → Action F (Window F) Bool
  run action success w = reported success w (action w.device)

  -- The recorder panel, which shows the steps and the code.
  module _ (rt : Runtime F) (qt : Toolkit F) where
    unfoldable pub generated_code : Window F → Text
    generated_code w =
        generate rt qt.stamp (or_text (strip w.bundle_input) w.default_bundle_id)
          (or_text (strip w.case_name) (codes "recorded flow")) w.style_box w.host w.port w.recorder

    unfoldable pub update_code_preview : Window F → Window F
    update_code_preview w = record w { code_preview = generated_code w }

    unfoldable pub on_step_recorded : Option Step → Window F → Window F
    unfolding update_code_preview
    on_step_recorded none w = w
    on_step_recorded (some s) w =
        update_code_preview (record w { step_list = w.step_list ++ (s.summary ∷ []) })

    unfoldable pub after_capture : Option Step × Recorder → Window F → Window F
    unfolding on_step_recorded
    after_capture (s, r) w = on_step_recorded s (record w { recorder = r })

    -- A method of the recorder, and `_on_step_recorded` with its result.
    abbrev pub captured : Capture → Window F → Window F
    captured c w = after_capture (c w.recorder) w

    unfoldable pub toggle_recording : Bool → Window F → Window F
    unfolding update_code_preview start stop
    toggle_recording active w = update_code_preview (
        if active
        then say
            (codes "Recording "
              ++ (or_text (strip w.bundle_input) (codes "session") ++ (8230 ∷ [])))
            (record w { recorder = start w.recorder })
        else say
            (codes "Recording stopped, "
              ++ (rt.show (int (pos (length w.recorder.steps))) ++ codes " step(s)"))
            (record w { recorder = stop w.recorder }))

    unfoldable pub after_undo : Option Step × Recorder → Window F → Window F
    unfolding update_code_preview
    after_undo (none, r) w = record w { recorder = r }
    after_undo (some s, r) w =
        update_code_preview (record w { recorder = r; step_list = without_last w.step_list })

    unfoldable pub recorder_undo : Window F → Window F
    unfolding undo
    recorder_undo w = after_undo (undo w.recorder) w

    -- `confirmed` is the answer to the question, which is asked if there are steps.
    unfoldable pub recorder_clear : Bool → Window F → Window F
    unfolding clear update_code_preview
    recorder_clear confirmed w =
        if not (length w.recorder.steps == 0) && not confirmed
        then w
        else update_code_preview (record w { recorder = clear w.recorder; step_list = [] })

    unfoldable pub copy_code : Window F → Window F
    copy_code w =
        say (codes "Test code copied to the clipboard") (record w { clipboard = generated_code w })

    unfoldable pub suggested_file : Window F → Text
    suggested_file w =
        function_name (or_text (strip w.case_name) (codes "recorded flow")) (codes "test_")
        ++ codes ".py"

    -- `path` is the answer of the dialog, empty if it was cancelled; `written` tells whether
    -- `write_text` succeeds. Where it raises, no file counts as saved.
    unfoldable pub save_code : Text → Bool → Action F (Window F) (Unit {0})
    save_code path written w =
        if is_empty path
        then (ok tt, w)
        else if written
        then (
          ok tt,
          say (codes "Saved " ++ path)
              (record w { saved = w.saved ++ ((path, generated_code w) ∷ []) }),
        )
        else (err os_error, w)

    -- The edits of the fields beside the toolbar's.
    unfoldable pub edit_case_name : Text → Window F → Window F
    unfolding update_code_preview
    edit_case_name t w = update_code_preview (record w { case_name = t })

    unfoldable pub choose_style : Style → Window F → Window F
    unfolding update_code_preview
    choose_style style w = update_code_preview (record w { style_box = style })

  -- No handler belongs to the field of the bundle identifier.
  abbrev pub edit_bundle : Text → Window F → Window F
  edit_bundle t w = record w { bundle_input = t }

-- The answers to the question about unsaved steps.
pub data Choice : Type 0 where
  save discard cancel : Choice

module _ {F : Type 0} (rt : Runtime F) (qt : Toolkit F) where
  unfoldable pub shut : Action F (Window F) (Unit {0})
  unfolding device_disconnect
  shut w = (ok tt, record w { refresh_timer = none; device = device_disconnect w.device })

  unfoldable pub by_choice :
      Choice → Text → Bool → Window F → Bool × (Except F (Unit {0}) × Window F)
  unfolding save_code shut
  by_choice save path written w = (true, bind (save_code rt qt path written) (λ _. shut) w)
  by_choice discard path written w = (true, shut w)
  by_choice cancel path written w = (false, (ok tt, w))

  -- `closeEvent`: whether the window closes, and how the handler ends. The event stays accepted,
  -- so the window closes, unless it is ignored. `path` and `written` are those of `_save_code`.
  unfoldable pub close_event :
      Choice → Text → Bool → Window F → Bool × (Except F (Unit {0}) × Window F)
  unfolding shut
  close_event choice path written w =
      if length w.recorder.steps == 0 then (true, shut w) else by_choice choice path written w
