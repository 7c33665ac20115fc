-- ===== src/Errors/Mapping.antt =====
-- Which classes an error reported by the agent can have.
use sandstorm_ios_driver.Prelude.{◌≡◌, ◌≢◌, Bool-cases, inl, inr, List, [], ◌∷◌, arith, All}
use sandstorm_ios_driver.Prelude.Text.{Text, text_eq}
use sandstorm_ios_driver.Python.Json.{Json}
use sandstorm_ios_driver.Python.Runtime.{Runtime, lookup}
use sandstorm_ios_driver.Python.Exception.{
  ErrorClass, agent_connection_error, session_lost, IosError, Exc, ok, err, attribute_error,
}
use sandstorm_ios_driver.Errors.{class_in, agent_error_map, error_from_payload}

-- Neither of the classes on which `invoke` reconnects.
abbrev pub Reported : ErrorClass → Type 0
Reported kind = (kind ≢ session_lost) × (kind ≢ agent_connection_error)

class_in-Reported :
    (entries : List (Text × ErrorClass)) (code : Text)
    → All (λ (_, kind). Reported kind) entries
    → Reported (class_in entries code)
unfolding class_in
class_in-Reported [] code h = (λ e. cc, λ e. cc)
class_in-Reported ((c, kind) ∷ rest) code (own, others) = elim (Bool-cases (text_eq c code)) [
  | inl same ↦ rw same own
  | inr differ ↦ rw differ (class_in-Reported rest code others)
]

agent_error_map-Reported : All (λ (_, kind). Reported kind) agent_error_map
agent_error_map-Reported = ground arith

module _ {F : Type 0} ⦃rt : Runtime F⦄ where
  -- What a payload is made of, or the `AttributeError` of one that is no dict.
  kind_by_code :
      (payload : Json F) (e : IosError F)
      → error_from_payload payload ≡ ok e
      → e.kind ≡ class_in agent_error_map e.code
  unfolding error_from_payload lookup
  kind_by_code payload e h = ground arith

  pub error_from_payload-fails :
      (payload : Json F) {x : Exc F} → error_from_payload payload ≡ err x → x ≡ attribute_error
  unfolding error_from_payload lookup
  error_from_payload-fails payload h = ground arith

  -- An error that the agent reports is of no class on which the client reconnects.
  pub error_from_payload-Reported :
      (payload : Json F) (e : IosError F) → error_from_payload payload ≡ ok e → Reported e.kind
  error_from_payload-Reported payload e h =
      rw (kind_by_code payload e h)
        (class_in-Reported agent_error_map e.code agent_error_map-Reported)
