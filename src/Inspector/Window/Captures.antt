-- ===== src/Inspector/Window/Captures.antt =====
-- Each method of the recorder that the window calls appends a step while recording, or does nothing.
use sandstorm_ios_driver.Prelude.{Option}
use sandstorm_ios_driver.Prelude.Text.{Text}
use sandstorm_ios_driver.Python.Runtime.{Runtime}
use sandstorm_ios_driver.Inspector.Recorder.{
  Recorder, Capture, record_tap, record_long_press, record_fill, record_clear, record_swipe,
  record_wait_for, record_assert_visible, record_assert_text, record_screenshot,
}
use sandstorm_ios_driver.Inspector.Window.Recorded.{Captures, capture-Captures, capture_if-Captures}

-- What a method of the recorder does, of all recorders.
pub record IsCapture (c : Capture) : Type 0 where
  pub captures : (r : Recorder) → Captures r (c r)

module _ {F : Type 0} (rt : Runtime F) where
  pub tap-IsCapture :
      (l : Option Text) (t : Text) (at : Option (F × F)) → IsCapture (record_tap rt l t at)
  unfolding record_tap
  tap-IsCapture l t at = record { captures = λ r. capture_if-Captures _ r }

  pub press-IsCapture :
      (l : Option Text) (t : Text) (at : Option (F × F)) (d : F)
      → IsCapture (record_long_press rt l t at d)
  unfolding record_long_press
  press-IsCapture l t at d = record { captures = λ r. capture_if-Captures _ r }

  pub fill-IsCapture : (l t s : Text) → IsCapture (record_fill rt l t s)
  unfolding record_fill
  fill-IsCapture l t s = record { captures = λ r. capture-Captures _ r }

  pub swipe-IsCapture : (a b : F × F) (d : F) → IsCapture (record_swipe rt a b d)
  unfolding record_swipe
  swipe-IsCapture a b d = record { captures = λ r. capture-Captures _ r }

  pub wait-IsCapture : (l t s : Text) (d : F) → IsCapture (record_wait_for rt l t s d)
  unfolding record_wait_for
  wait-IsCapture l t s d = record { captures = λ r. capture-Captures _ r }

  pub text-IsCapture : (l t s : Text) → IsCapture (record_assert_text rt l t s)
  unfolding record_assert_text
  text-IsCapture l t s = record { captures = λ r. capture-Captures _ r }

pub clear-IsCapture : (l t : Text) → IsCapture (record_clear l t)
unfolding record_clear
clear-IsCapture l t = record { captures = λ r. capture-Captures _ r }

pub visible-IsCapture : (l t : Text) → IsCapture (record_assert_visible l t)
unfolding record_assert_visible
visible-IsCapture l t = record { captures = λ r. capture-Captures _ r }

pub screenshot-IsCapture : (path : Text) → IsCapture (record_screenshot path)
unfolding record_screenshot
screenshot-IsCapture path = record { captures = λ r. capture-Captures _ r }
