-- ===== src/Inspector/Window/Handle.antt =====
-- The events of the window and their handlers, as ios-inspector/sandstorm_inspector/app.py connects
-- them.
use sandstorm_ios_driver.Prelude.{ℕ, Bool}
use sandstorm_ios_driver.Prelude.Text.{Text}
use sandstorm_ios_driver.Python.Exception.{Action}
use sandstorm_ios_driver.Python.Runtime.{Runtime}
use sandstorm_ios_driver.Sdk.Locator.{WaitState}
use sandstorm_ios_driver.Inspector.Recorder.Script.{Style}
use sandstorm_ios_driver.Inspector.Window.{
  Toolkit, Window, update_auto_refresh, toggle_recording, recorder_undo, recorder_clear, copy_code,
  save_code, edit_case_name, choose_style, edit_bundle,
}
use sandstorm_ios_driver.Inspector.Window.Session.{
  modify, refresh, set_include_invisible, connect, launch_app, select_at_point,
  tree_selection_changed,
}
use sandstorm_ios_driver.Inspector.Window.Actions.{
  Answer, action_tap, action_long_press, action_type, action_clear, action_swipe, action_wait_for,
  action_assert_visible, action_assert_text, action_record_screenshot, copy_locator,
}

-- The signals of the widgets, with the answers of the user.
pub data Event (F : Type 0) : Type 0 where
  connects launches refreshes taps long_presses clears swipes asserts_visible copies_locator
        copies_code undoes :
      Event F
  shows_invisible records : Bool → Event F
  clears_steps : Bool → Event F
  clicks : F × F → Event F
  chooses_item : Text → Event F
  types : Answer Text → Event F
  waits : Answer WaitState → Event F
  asserts_text : (Text → Answer Text) → Event F
  takes_screenshot : Answer Text → Event F
  -- the path that the dialog answers, and whether the file is written
  saves : Text → Bool → Event F
  names_case names_bundle : Text → Event F
  chooses_style : Style → Event F
  chooses_period : ℕ → Event F

module _ {F : Type 0} ⦃rt : Runtime F⦄ (qt : Toolkit F) where
  unfoldable pub handle : Event F → Action F (Window F) (Unit {0})
  handle connects = connect qt
  handle launches = launch_app qt
  handle refreshes = refresh qt
  handle taps = action_tap qt
  handle long_presses = action_long_press qt
  handle clears = action_clear qt
  handle swipes = action_swipe qt
  handle asserts_visible = action_assert_visible qt
  handle copies_locator = modify (copy_locator qt)
  handle copies_code = modify (copy_code rt qt)
  handle undoes = modify (recorder_undo rt qt)
  handle (shows_invisible b) = set_include_invisible qt b
  handle (records b) = modify (toggle_recording rt qt b)
  handle (clears_steps b) = modify (recorder_clear rt qt b)
  handle (clicks at) = select_at_point qt at
  handle (chooses_item path) = tree_selection_changed qt path
  handle (types answer) = action_type qt answer
  handle (waits answer) = action_wait_for qt answer
  handle (asserts_text answer) = action_assert_text qt answer
  handle (takes_screenshot answer) = action_record_screenshot qt answer
  handle (saves path written) = save_code rt qt path written
  handle (names_case t) = modify (edit_case_name rt qt t)
  handle (names_bundle t) = modify (edit_bundle t)
  handle (chooses_style style) = modify (choose_style rt qt style)
  handle (chooses_period index) = modify (update_auto_refresh index)
