-- ===== src/Controller/Profiles/Decoded.antt =====
-- `_to_profile` and `describe` of ios-controller/sandstorm_controller/profiles.py. The decoding of a
-- file and the test of a date against the clock are given.
use sandstorm_ios_driver.Prelude.{
  Bool, not, ◌||◌, Option, none, some, List, [], ◌∷◌, ◌++◌, map, if◌then◌else◌,
}
use sandstorm_ios_driver.Prelude.Text.{Text, codes, join}
use sandstorm_ios_driver.Python.Json.{Json, str, arr, obj, Items, nil, cons, Fields, end, field}
use sandstorm_ios_driver.Python.Exception.{Except, ok, err, key_error, type_error, ◌>>=◌}
use sandstorm_ios_driver.Python.Runtime.{Runtime, truthy, lookup, lookup_or, or_else, to_text, text}
use sandstorm_ios_driver.Controller.Profiles.{ProvisioningProfile, is_wildcard, bundle_id_pattern}

abbrev flags : ProvisioningProfile → List Text
flags p =
    (if p.expired then codes "EXPIRED" ∷ [] else [])
    ++ (if is_wildcard p then codes "wildcard" ∷ [] else [])

abbrev suffix : List Text → Text
unfolding join
suffix [] = []
suffix (f ∷ fs) = codes " [" ++ (join (codes ", ") (f ∷ fs) ++ codes "]")

unfoldable pub describe : ProvisioningProfile → Text
unfolding suffix
describe p =
    p.name
    ++ (codes " ("
        ++ (bundle_id_pattern p
            ++ (codes ", team " ++ (p.team_id ++ (codes ")" ++ suffix (flags p))))))

module _ {F : Type 0} ⦃rt : Runtime F⦄ where
  -- `teams[0]`, of a value that is not falsy
  abbrev first_of : Json F → Except F (Json F)
  first_of (arr (cons x xs)) = ok x
  first_of (str (c ∷ s)) = ok (str (c ∷ []))
  first_of (obj d) = err key_error
  first_of _ = err type_error

  -- The texts among the members. No other member is equal to a UDID.
  abbrev texts_in : Items F → List Text
  texts_in nil = []
  texts_in (cons (str s) xs) = s ∷ texts_in xs
  texts_in (cons x xs) = texts_in xs

  abbrev keys_in : Fields F → List Text
  keys_in end = []
  keys_in (field k v d) = codes k ∷ keys_in d

  -- `tuple(x)`
  abbrev members : Json F → Except F (List Text)
  members (arr xs) = ok (texts_in xs)
  members (str s) = ok (map (λ c. c ∷ []) s)
  members (obj d) = ok (keys_in d)
  members _ = err type_error

  abbrev the_profile : Text → Bool → Json F → Text → Json F → Except F (Option ProvisioningProfile)
  the_profile stem expired payload app_id teams = lookup_or payload "UUID" (text "") >>= λ uuid.
      lookup_or payload "Name" (str stem) >>= λ name. first_of teams >>= λ team.
      lookup payload "ProvisionedDevices" >>= λ devices.
      members (or_else devices (arr nil)) >>= λ udids. ok (
        some (record {
          uuid = to_text uuid;
          name = to_text name;
          team_id = to_text team;
          app_id = app_id;
          expired = expired;
          devices = udids;
        }))

  -- `path.stem`, and whether the expiration date is in the past
  unfoldable pub to_profile : Text → Bool → Json F → Except F (Option ProvisioningProfile)
  to_profile stem expired payload = lookup payload "Entitlements" >>= λ given.
      lookup (or_else given (obj end)) "application-identifier" >>= λ app_id.
      lookup payload "TeamIdentifier" >>= λ teams.
      if not (truthy (or_else app_id (text ""))) || not (truthy (or_else teams (arr nil)))
      then ok none
      else the_profile stem expired payload (to_text (or_else app_id (text "")))
          (or_else teams (arr nil))
