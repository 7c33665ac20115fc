-- ===== src/Transport/Invoke/Replies.antt =====
-- What `invoke` makes of a reply of the agent.
use sandstorm_ios_driver.Prelude.{ℕ, suc, ◌≡◌, refl, Bool, true, false, Option, String}
use sandstorm_ios_driver.Python.Json.{obj, Fields, end}
use sandstorm_ios_driver.Python.Exception.{ok, err, ios, IosError}
use sandstorm_ios_driver.Python.Runtime.{Runtime, or_json}
use sandstorm_ios_driver.Errors.{error_from_payload}
use sandstorm_ios_driver.Errors.Mapping.{error_from_payload-Reported}
use sandstorm_ios_driver.Protocol.Messages.{Response}
use sandstorm_ios_driver.Transport.Client.{Client, is_lost}
use sandstorm_ios_driver.Transport.Invoke.{checked, try_once, invoke_once, invoke_loop, invoke}
use sandstorm_ios_driver.Transport.Invoke.Outcomes.{Reported-not_lost}

module _ {F : Type 0} ⦃rt : Runtime F⦄ where
  loop_reported :
      (n : ℕ) (method : String) (params : Fields F) (timeout : Option F) (c c' : Client F)
      (r : Response F) (e : IosError F)
      → invoke_once method params timeout c ≡ (ok r, c')
      → r.success ≡ false
      → error_from_payload (or_json r.error (obj end)) ≡ ok e
      → is_lost (ios e) ≡ false
      → invoke_loop (suc n) method params timeout c ≡ (err (ios e), c')
  unfolding invoke_loop try_once checked
  loop_reported n method params timeout c c' r e reply failed error kept =
      rw (reply, failed, error, kept) refl

  -- If the agent answers the command with a failure, `invoke` raises the error that the payload
  -- stands for, once: it does not try again, and leaves the client as the reply left it.
  pub invoke-reported :
      (method : String) (params : Fields F) (timeout : Option F) (retry : Bool) (c c' : Client F)
      (r : Response F) (e : IosError F)
      → invoke_once method params timeout c ≡ (ok r, c')
      → r.success ≡ false
      → error_from_payload (or_json r.error (obj end)) ≡ ok e
      → invoke method params timeout retry c ≡ (err (ios e), c')
  unfolding invoke is_lost
  invoke-reported method params timeout true c c' r e reply failed error =
      loop_reported c.max_retries method params timeout c c' r e reply failed error
        (Reported-not_lost e.kind (error_from_payload-Reported (or_json r.error (obj end)) e error))
  invoke-reported method params timeout false c c' r e reply failed error =
      loop_reported 0 method params timeout c c' r e reply failed error
        (Reported-not_lost e.kind (error_from_payload-Reported (or_json r.error (obj end)) e error))
