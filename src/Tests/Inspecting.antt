-- ===== src/Tests/Inspecting.antt =====
-- A window of the Inspector, for the theorems about its events.
use sandstorm_ios_driver.Prelude.{List, ℕ, ◌≡◌, refl, true, false, none, some, [], ◌∷◌}
use sandstorm_ios_driver.Prelude.Text.{codes, split_lines, starts_with, strip, join}
use sandstorm_ios_driver.Python.Json.{end, field, str, obj}
use sandstorm_ios_driver.Inspector.Tree.{Node, node, leaf}
use sandstorm_ios_driver.Inspector.Suggestion.Build.{inline, replace_from}
use sandstorm_ios_driver.Inspector.Recorder.{Step, step}
use sandstorm_ios_driver.Inspector.Recorder.Script.{pytest}
use sandstorm_ios_driver.Inspector.Window.{
  Toolkit, Window, blank, generated_code, close_event, save,
}
use sandstorm_ios_driver.Inspector.Window.Handle.{
  Event, taps, records, connects, launches, undoes, handle,
}
use sandstorm_ios_driver.Inspector.Window.Opening.{new_window, handle_all, opened-Shown}
use sandstorm_ios_driver.Inspector.Window.Shown.{Shown, handle-idle}
use sandstorm_ios_driver.Inspector.Window.Closing.{Closes, close_event-Closes}
use sandstorm_ios_driver.Tests.Samples.{client, plain, replying}

abbrev screen : Node ℕ
screen =
    node
      (field "identifier" (str (codes "save"))
        (field "type" (str (codes "Button")) (field "frame" (obj end) end)))
      leaf

abbrev toolkit : Toolkit ℕ
toolkit = record {
  image_size = λ bytes. (100, 200);
  divide = λ a b. a;
  three_tenths = 0;
  one_quarter = 0;
  three_quarters = 1;
  stamp = codes "2025-01-01 00:00";
}

abbrev launched : Step
launched = step "launch" (codes "app.launch()") (codes "launch  demo") none

-- A window that is connected, records, and has its only element selected. The preview is not shown.
abbrev before : Window ℕ
before = record {
  device = record { client = replying; has_session = true };
  host = codes "127.0.0.1";
  port = 8433;
  snapshot = some screen;
  selected = some screen;
  point_size = (100, 200);
  default_bundle_id = codes "demo";
  include_invisible = false;
  recorder = record { steps = launched ∷ []; recording = true };
  view = record { image = none; marked = none; points_size = (1, 1) };
  device_label = [];
  bundle_input = codes "demo";
  relaunch_toggle = true;
  tree = [];
  detail_fields = [];
  locator_output = [];
  case_name = codes "flow";
  style_box = pytest;
  step_list = codes "launch  demo" ∷ [];
  code_preview = [];
  status = blank;
  refresh_timer = none;
  clipboard = [];
  saved = [];
}

abbrev window : Window ℕ
window = record before { code_preview = generated_code plain toolkit before }

abbrev idle : Window ℕ
idle = record window { recorder = record { steps = launched ∷ []; recording = false } }

abbrev session : List (Event ℕ)
session = connects ∷ records true ∷ launches ∷ taps ∷ undoes ∷ []

opened-Shown_example : Shown ⦃rt = plain⦄ toolkit (
    handle_all ⦃rt = plain⦄ toolkit session (
      new_window ⦃rt = plain⦄ toolkit
        (codes "127.0.0.1")
        8433
        (codes "demo")
        (record { client = client; has_session = false })))
opened-Shown_example =
    opened-Shown ⦃rt = plain⦄ toolkit (codes "127.0.0.1") 8433 (codes "demo")
      (record { client = client; has_session = false }) session
      (refl, (refl, (refl, (refl, (refl, tt)))))

handle-idle_example : (handle ⦃rt = plain⦄ toolkit taps idle).1.recorder ≡ idle.recorder
handle-idle_example = handle-idle ⦃rt = plain⦄ toolkit taps idle refl refl

close_event-Closes_example :
    Closes plain toolkit save
      (codes "flow.py")
      true
      window
      (close_event plain toolkit save (codes "flow.py") true window)
close_event-Closes_example = close_event-Closes plain toolkit save (codes "flow.py") true window

-- Blanks inside a literal are lost: the recorded call is not that of the locator.
test_inline :
    inline (codes "page.get_by_label(\"Total ( USD )\")")
    ≡ codes "page.get_by_label(\"Total (USD)\")"
unfolding inline split_lines replace_from starts_with strip join
test_inline = refl
