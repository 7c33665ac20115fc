-- ===== src/Inspector/Window/Recorded.antt =====
-- What the events do to the recorder panel: the list of steps, the code beside it and the recorder.
use sandstorm_ios_driver.Prelude.{
  ℕ, ◌≡◌, refl, inl, inr, Bool, true, false, Bool-cases, Option, none, some, List, [], ◌∷◌, ◌++◌,
  arith, if◌then◌else◌,
}
use sandstorm_ios_driver.Prelude.Text.{Text, codes}
use sandstorm_ios_driver.Python.Json.{Json}
use sandstorm_ios_driver.Python.Exception.{Except, ok, err, Exc, Action, ◌>>=◌}
use sandstorm_ios_driver.Python.Runtime.{Runtime, lookup}
use sandstorm_ios_driver.Transport.Raises.{Keeps-continue}
use sandstorm_ios_driver.Sdk.Device.{
  Device, with_session, device_connect, device_is_connected, info,
}
use sandstorm_ios_driver.Inspector.HitTest.{rect_of, describe}
use sandstorm_ios_driver.Sdk.Application.{launch}
use sandstorm_ios_driver.Sdk.Session.{seconds}
use sandstorm_ios_driver.Inspector.Tree.{Node}
use sandstorm_ios_driver.Inspector.Recorder.{
  Step, Recorder, Capture, capture, capture_if, record_launch,
}
use sandstorm_ios_driver.Inspector.Recorder.Script.{Style}
use sandstorm_ios_driver.Inspector.Window.{
  Toolkit, Window, say, run, reported, captured, after_capture, is_empty, shown_error, strip,
  highlight,
}
use sandstorm_ios_driver.Inspector.Window.Session.{
  ask, show, show_tree, refreshed, refresh, connected, connect, named, perform, launch_app, select,
  select_if, select_at_point, hit_in, app, pulled, point_size_of, tree_if, in_dialog,
}
use sandstorm_ios_driver.Inspector.Window.Actions.{then_refresh}

-- The part of the window that the recorder panel is made of.
pub record Panel : Type 0 where
  pub recorder : Recorder
  pub step_list : List Text
  pub code_preview : Text
  pub bundle_input : Text
  pub default_bundle_id : Text
  pub case_name : Text
  pub style_box : Style
  pub host : Text
  pub port : ℕ

abbrev pub panel_of : {F : Type 0} → Window F → Panel
panel_of w = record {
  recorder = w.recorder;
  step_list = w.step_list;
  code_preview = w.code_preview;
  bundle_input = w.bundle_input;
  default_bundle_id = w.default_bundle_id;
  case_name = w.case_name;
  style_box = w.style_box;
  host = w.host;
  port = w.port;
}

-- A capture of this recorder appends a step while recording, or does nothing.
abbrev pub Captures : Recorder → Option Step × Recorder → Type 0
Captures r (none, r₁) = r₁ ≡ r
Captures r (some s, r₁) = (r.recording ≡ true) × (r₁ ≡ record r { steps = r.steps ++ (s ∷ []) })

pub capture-Captures : (s : Step) (r : Recorder) → Captures r (capture s r)
unfolding capture
capture-Captures s r = elim (Bool-cases r.recording) [
  | inl on ↦ rw on (refl, refl)
  | inr off ↦ rw off refl
]

pub capture_if-Captures : (o : Option Step) (r : Recorder) → Captures r (capture_if o r)
unfolding capture_if
capture_if-Captures none r = refl
capture_if-Captures (some s) r = capture-Captures s r

module _ {F : Type 0} where
  -- No handler of an exception changes the panel.
  pub shown_error-panel :
      {A : Type 0} (a : A) (e : Exc F) (w : Window F) → panel_of (shown_error a e w).1 ≡ panel_of w
  shown_error-panel a e w = ground arith

  in_dialog-panel :
      ⦃rt : Runtime F⦄ (qt : Toolkit F) (e : Exc F) (w : Window F)
      → panel_of (in_dialog qt e w).1 ≡ panel_of w
  in_dialog-panel qt e w = ground arith

module _ {F : Type 0} ⦃rt : Runtime F⦄ (qt : Toolkit F) (P : Window F → Type 0)
    (same : (w w₁ : Window F) → panel_of w₁ ≡ panel_of w → P w → P w₁) where
  -- A handler keeps it.
  abbrev pub Keeps : {A : Type 0} → Action F (Window F) A → Type 0
  Keeps m = (w : Window F) → P w → P (m w).1

  -- Either result of a test.
  pub either :
      {A : Type 0} (b : Bool) (x y : Except F A × Window F)
      → P x.1
      → P y.1
      → P (if b then x else y).1
  either true x y p q = p
  either false x y p q = q

  show-Keeps : (pictures : List ℕ × Json F) → Keeps (show qt pictures)
  unfolding show_tree
  show-Keeps (image, s) w p =
      Keeps-continue P _ (ask (λ w. point_size_of s w.point_size) w) p (λ size w₁ p₁.
        let w₂ : Window F = record w₁ { point_size = size } in
        Keeps-continue P _ (ask (λ w. lookup s "tree" >>= tree_if) w₂) (same w₁ w₂ refl p₁)
          (λ t w₃ p₃. same w₃ (show_tree qt image t w₃) refl p₃))

  refreshed-Keeps :
      (w : Window F) (out : Except F (List ℕ × Json F) × Device F) → P w → P (refreshed qt w out).1
  refreshed-Keeps w (ok pictures, d) p =
      show-Keeps pictures (record w { device = d }) (same w _ refl p)
  refreshed-Keeps w (err e, d) p = same w _ (shown_error-panel tt e (record w { device = d })) p

  pub refresh-Keeps : Keeps (refresh qt)
  unfolding refresh
  refresh-Keeps w p =
      either (device_is_connected w.device) _ (ok tt, w)
        (refreshed-Keeps (say (codes "Refreshing…") w)
          (with_session (pulled w.include_invisible) w.device) (same w _ refl p))
        p

  connected-Keeps :
      (w : Window F) (out : Except F (Unit {0}) × Device F) → P w → P (connected qt w out).1
  connected-Keeps w (ok u, d) p =
      Keeps-continue P _ (ask (λ w. info w.device) (record w { device = d })) (same w _ refl p)
        (λ i w₁ p₁. refresh-Keeps (named qt i w₁) (same w₁ _ refl p₁))
  connected-Keeps w (err e, d) p = same w _ (in_dialog-panel qt e (record w { device = d })) p

  pub connect-Keeps : Keeps (connect qt)
  unfolding connect
  connect-Keeps w p = connected-Keeps w (device_connect 3 w.device) p

  select-Keeps : (n : Node F) → Keeps (select qt n)
  unfolding select
  select-Keeps n w p =
      Keeps-continue P _ (ask (λ w. rect_of n) (record w { selected = some n })) (same w _ refl p)
        (λ r w₁ p₁.
          let w₂ : Window F = record w₁ { view = highlight rt qt r w₁.view } in
          Keeps-continue P _ (ask (λ w. describe n) w₂) (same w₁ w₂ refl p₁)
            (λ attributes w₃ p₃. same w₃ _ refl p₃))

  pub select_if-Keeps : (o : Option (Node F)) → Keeps (select_if qt o)
  unfolding select_if
  select_if-Keeps none w p = p
  select_if-Keeps (some n) w p = select-Keeps n w p

  pub select_at_point-Keeps : (at : F × F) → Keeps (select_at_point qt at)
  unfolding select_at_point
  select_at_point-Keeps at w p =
      Keeps-continue P _ (ask (λ w. hit_in qt w.snapshot at) w) p
        (λ o w₁ p₁. select_if-Keeps o w₁ p₁)

  run-Keeps : {A : Type 0} (m : Action F (Device F) A) (success : Text) → Keeps (run m success)
  unfolding run
  run-Keeps m success w p = reported-Keeps (m w.device)
    where
      reported-Keeps : {A : Type 0} (out : Except F A × Device F) → P (reported success w out).1
      reported-Keeps (ok a, d) = same w _ refl p
      reported-Keeps (err e, d) = same w _ (shown_error-panel false e (record w { device = d })) p

  -- What follows holds if it also survives the capture of a step.
  module _
      (keeps : (w : Window F) (out : Option Step × Recorder)
        → Captures w.recorder out
        → P w
        → P (after_capture rt qt out w)) where
    pub perform-Keeps :
        {A : Type 0} (m : Action F (Device F) A) (success : Text) (c : Capture)
        → ((r : Recorder) → Captures r (c r))
        → Keeps (perform qt m success c)
    perform-Keeps m success c captures w p =
        Keeps-continue P _ (run m success w) (run-Keeps m success w p) (λ done w₁ p₁.
          kept done (captured rt qt c w₁) w₁ (keeps w₁ (c w₁.recorder) (captures w₁.recorder) p₁)
            p₁)
      where
        kept : (b : Bool) (w₁ w₂ : Window F) → P w₁ → P w₂ → P (if b then w₁ else w₂)
        kept true w₁ w₂ p q = p
        kept false w₁ w₂ p q = q

    pub then_refresh-Keeps :
        (m : Action F (Window F) (Unit {0})) → Keeps m → Keeps (then_refresh qt m)
    unfolding then_refresh
    then_refresh-Keeps m h w p = Keeps-continue P _ (m w) (h w p) (λ _ w₁ p₁. refresh-Keeps w₁ p₁)

    pub launch_app-Keeps : Keeps (launch_app qt)
    unfolding launch_app record_launch
    launch_app-Keeps w p =
        let bundle = strip w.bundle_input in
        let action = with_session (launch (app bundle) [] [] w.relaunch_toggle (seconds 30)) in
        let success = codes "Launched " ++ bundle in
        let c = record_launch bundle w.relaunch_toggle in
        either (is_empty bundle) (ok tt, w) _ p
          (Keeps-continue P (λ _. refresh qt) (perform qt action success c w)
            (perform-Keeps action success c (λ r. capture-Captures _ r) w p)
            (λ _ w₁ p₁. refresh-Keeps w₁ p₁))
