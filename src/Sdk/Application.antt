-- ===== src/Sdk/Application.antt =====
-- ios-sdk/sandstorm_ios/sdk/application.py
use sandstorm_ios_driver.Prelude.{String, Bool, true, false, none, some, List, [], ◌∷◌}
use sandstorm_ios_driver.Prelude.Text.{Text}
use sandstorm_ios_driver.Python.Json.{
  bool, float, str, arr, obj, Items, nil, cons, Fields, end, field,
}
use sandstorm_ios_driver.Python.Exception.{Action, pure, bind}
use sandstorm_ios_driver.Python.Runtime.{Runtime, truthy, lookup_or}
use sandstorm_ios_driver.Transport.Client.{Client, lift}
use sandstorm_ios_driver.Sdk.Session.{session_invoke, session_result, seconds}

pub record Application (F : Type 0) : Type 0 where
  pub bundle_id : Text
  pub default_timeout : F

module _ {F : Type 0} where
  abbrev pub texts : List Text → Items F
  texts [] = nil
  texts (t ∷ ts) = cons (str t) (texts ts)

  abbrev pub text_fields : List (String × Text) → Fields F
  text_fields [] = end
  text_fields ((k, t) ∷ ts) = field k (str t) (text_fields ts)

  abbrev pub bundle_params : Application F → Fields F
  bundle_params a = field "bundleId" (str a.bundle_id) end

  unfoldable pub launch_params :
      Application F → List Text → List (String × Text) → Bool → F → Fields F
  launch_params a arguments environment relaunch timeout = field "bundleId" (str a.bundle_id) (
      field "arguments" (arr (texts arguments)) (
        field "environment" (obj (text_fields environment))
          (field "relaunch" (bool relaunch) (field "timeout" (float timeout) end))))

module _ {F : Type 0} ⦃rt : Runtime F⦄ where
  unfoldable pub launch :
      Application F → List Text → List (String × Text) → Bool → F → Action F (Client F) (Unit {0})
  launch a arguments environment relaunch timeout =
      bind
        (session_invoke "app.launch" (launch_params a arguments environment relaunch timeout)
          (some (rt.add timeout (seconds 15))) true)
        (λ _. pure tt)

  unfoldable pub activate : Application F → Action F (Client F) (Unit {0})
  activate a = bind (session_invoke "app.activate" (bundle_params a) none true) (λ _. pure tt)

  unfoldable pub terminate : Application F → Action F (Client F) (Unit {0})
  terminate a = bind (session_invoke "app.terminate" (bundle_params a) none true) (λ _. pure tt)

  unfoldable pub is_running : Application F → Action F (Client F) Bool
  is_running a = bind (session_result "app.state" (bundle_params a) none) (λ result.
      bind (lift (lookup_or result "running" (bool false))) (λ running. pure (truthy running)))
