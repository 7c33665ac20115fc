-- ===== src/Inspector/Window/Opening.antt =====
-- The window as `main` of ios-inspector/sandstorm_inspector/app.py opens it, and what it shows after any
-- events.
use sandstorm_ios_driver.Prelude.{
  ℕ, ◌≡◌, refl, true, false, Option, none, some, List, [], ◌∷◌, All, if◌then◌else◌,
}
use sandstorm_ios_driver.Prelude.Text.{Text, codes, is_empty}
use sandstorm_ios_driver.Python.Runtime.{Runtime}
use sandstorm_ios_driver.Sdk.Device.{Environment, Device}
use sandstorm_ios_driver.Inspector.Recorder.{new_recorder}
use sandstorm_ios_driver.Inspector.Recorder.Script.{pytest}
use sandstorm_ios_driver.Inspector.Window.{
  Toolkit, Window, blank, generated_code, update_code_preview,
}
use sandstorm_ios_driver.Inspector.Window.Handle.{Event, handle}
use sandstorm_ios_driver.Inspector.Window.Shown.{Shown, edits_bundle, handle-Shown}

abbrev pub bundle_or : Option Text → Text
bundle_or none = codes "com.sandstorm.demo"
bundle_or (some b) = b

-- `bundle_id or os.environ.get("SANDSTORM_BUNDLE_ID", "com.sandstorm.demo")`
unfoldable pub choose_bundle : Environment → Option Text → Text
choose_bundle env none = bundle_or (env "SANDSTORM_BUNDLE_ID")
choose_bundle env (some b) = if is_empty b then bundle_or (env "SANDSTORM_BUNDLE_ID") else b

module _ {F : Type 0} ⦃rt : Runtime F⦄ (qt : Toolkit F) where
  -- `InspectorWindow.__init__` with the widgets of `_build_ui`, before the first event, which
  -- connects.
  unfoldable pub new_window : Text → ℕ → Text → Device F → Window F
  unfolding update_code_preview
  new_window host port bundle_id device = update_code_preview rt qt (record {
    device = device;
    host = host;
    port = port;
    snapshot = none;
    selected = none;
    point_size = (rt.one_float, rt.one_float);
    default_bundle_id = bundle_id;
    include_invisible = false;
    recorder = new_recorder;
    view = record { image = none; marked = none; points_size = (rt.one_float, rt.one_float) };
    device_label = codes "Not connected";
    bundle_input = bundle_id;
    relaunch_toggle = true;
    tree = [];
    detail_fields = [];
    locator_output = [];
    case_name = codes "recorded flow";
    style_box = pytest;
    step_list = [];
    code_preview = [];
    status = blank;
    refresh_timer = none;
    clipboard = [];
    saved = [];
  })

  -- The window after the events, in their order.
  unfoldable pub handle_all : List (Event F) → Window F → Window F
  unfolding handle
  handle_all [] w = w
  handle_all (e ∷ es) w = handle_all es (handle qt e w).1

  handle_all-Shown :
      (es : List (Event F)) (w : Window F)
      → All (λ e. edits_bundle qt e ≡ false) es
      → Shown qt w
      → Shown qt (handle_all es w)
  unfolding handle_all
  handle_all-Shown [] w h p = p
  handle_all-Shown (e ∷ es) w (h, hs) p =
      handle_all-Shown es (handle qt e w).1 hs (handle-Shown qt e w h p)

  -- After any events but edits of the bundle identifier, in any order and whether their handlers
  -- raise or not, the window that was opened shows in the list of steps and in the preview what the
  -- recorder holds. The time stamp in the code counts as the same.
  pub opened-Shown :
      (host : Text) (port : ℕ) (bundle_id : Text) (device : Device F) (es : List (Event F))
      → All (λ e. edits_bundle qt e ≡ false) es
      → Shown qt (handle_all es (new_window host port bundle_id device))
  unfolding new_window update_code_preview generated_code
  opened-Shown host port bundle_id device es h = handle_all-Shown es _ h (refl, refl)
