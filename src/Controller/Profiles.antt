-- ===== src/Controller/Profiles.antt =====
-- ios-controller/sandstorm_controller/profiles.py: which profile signs what.

pub mod Runner
pub mod Decoded
use sandstorm_ios_driver.Prelude.{
  Bool, true, false, not, ◌&&◌, ◌||◌, Option, none, some, List, [], ◌∷◌, ◌++◌, length, take, ◌-◌,
  if◌then◌else◌,
}
use sandstorm_ios_driver.Prelude.Text.{
  Text, codes, text_eq, starts_with, ends_with, after, is_empty,
}

-- `t in ts`
unfoldable pub contains_text : List Text → Text → Bool
contains_text [] t = false
contains_text (x ∷ xs) t = text_eq x t || contains_text xs t

-- `expired` is the outcome of the test against the clock.
pub record ProvisioningProfile : Type 0 where
  pub uuid : Text
  pub name : Text
  pub team_id : Text
  pub app_id : Text
  pub expired : Bool
  pub devices : List Text

unfoldable pub is_wildcard : ProvisioningProfile → Bool
unfolding ends_with
is_wildcard p = ends_with p.app_id (codes "*")

unfoldable pub bundle_id_pattern : ProvisioningProfile → Text
bundle_id_pattern p =
    let prefix = p.team_id ++ codes "." in
    if starts_with p.app_id prefix then after p.app_id prefix else p.app_id

-- The text without its last `len(suffix)` characters.
unfoldable pub without_suffix : Text → Text → Text
without_suffix s suffix = take (length s - length suffix) s

-- `matches_bundle_id`, of a pattern
unfoldable pub pattern_matches : Text → Text → Bool
unfolding without_suffix ends_with starts_with
pattern_matches pattern bundle_id =
    if text_eq pattern (codes "*")
    then true
    else if ends_with pattern (codes ".*")
    then starts_with bundle_id (without_suffix pattern (codes "*"))
    else text_eq bundle_id pattern

unfoldable pub matches_bundle_id : ProvisioningProfile → Text → Bool
unfolding pattern_matches bundle_id_pattern
matches_bundle_id p bundle_id = pattern_matches (bundle_id_pattern p) bundle_id

unfoldable pub provisions_device : ProvisioningProfile → Text → Bool
provisions_device p udid = contains_text p.devices udid

abbrev pub runner_suffix : Text
runner_suffix = codes ".xctrunner"

unfoldable pub required_app_id : Text → Text
required_app_id agent_bundle_id = agent_bundle_id ++ runner_suffix

unfoldable pub signs_runner : ProvisioningProfile → Text → Bool
unfolding matches_bundle_id required_app_id
signs_runner p agent_bundle_id = matches_bundle_id p (required_app_id agent_bundle_id)

unfoldable pub agent_bundle_id_for_runner : ProvisioningProfile → Option Text
unfolding is_wildcard bundle_id_pattern without_suffix
agent_bundle_id_for_runner p =
    if is_wildcard p
    then none
    else if ends_with (bundle_id_pattern p) runner_suffix
    then some (without_suffix (bundle_id_pattern p) runner_suffix)
    else some (bundle_id_pattern p)

-- `list_profiles` before the sort: the first profile of each UUID, over those that decode
unfoldable pub fresh_profiles :
    Bool → List Text → List ProvisioningProfile → List ProvisioningProfile
fresh_profiles include_expired seen [] = []
fresh_profiles include_expired seen (p ∷ ps) =
    let skipped = fresh_profiles include_expired seen ps in
    let later = fresh_profiles include_expired (p.uuid ∷ seen) ps in
    if contains_text seen p.uuid
    then skipped
    else if p.expired && not include_expired
    then later
    else p ∷ later

unfoldable pub find_profile : Text → List ProvisioningProfile → Option ProvisioningProfile
find_profile reference [] = none
find_profile reference (p ∷ ps) =
    if text_eq reference p.uuid || text_eq reference p.name
    then some p
    else find_profile reference ps

abbrev pub covers_all : ProvisioningProfile → List Text → Bool
covers_all p [] = true
covers_all p (b ∷ bs) = matches_bundle_id p b && covers_all p bs

abbrev pub provisions : ProvisioningProfile → Option Text → Bool
provisions p none = true
provisions p (some udid) = is_empty udid || provisions_device p udid

-- `usable_profiles`, over the listed ones
unfoldable pub usable_profiles :
    Option Text → List Text → List ProvisioningProfile → List ProvisioningProfile
unfolding provisions_device matches_bundle_id
usable_profiles udid bundle_ids [] = []
usable_profiles udid bundle_ids (p ∷ ps) =
    let rest = usable_profiles udid bundle_ids ps in
    if provisions p udid && covers_all p bundle_ids then p ∷ rest else rest
