-- ===== src/Controller/Profiles/Runner.antt =====
-- The agent that an explicit profile of a runner stands for.
use mathlib.Core.List.{reverse, reverse-append, reverse-reverse}
use sandstorm_ios_driver.Prelude.{
  ℕ, zero, suc, ◌-◌, ◌≡◌, refl, sym, ap, ◌∙◌, true, Bool-cases, inl, inr, some, [], ◌∷◌, ◌++◌,
  arith, length, take, length-append, take-length_append,
}
use sandstorm_ios_driver.Prelude.Text.{
  Text, codes, text_eq, text_eq_refl, starts_with, ends_with, after, starts_with-after,
}
use sandstorm_ios_driver.Controller.Profiles.{
  ProvisioningProfile, bundle_id_pattern, without_suffix, pattern_matches, matches_bundle_id,
  runner_suffix, required_app_id, signs_runner, agent_bundle_id_for_runner,
}

front : (t u : Text) → take (length (t ++ u) - length u) (t ++ u) ≡ t
front t u =
    let e : length (t ++ u) - length u ≡ length t = rw (length-append t u) (omega arith) in
    ap (λ n. take n (t ++ u)) e ∙ take-length_append t u

ends_with-split : (s u : Text) → ends_with s u ≡ true → (t : Text) × (s ≡ t ++ u)
unfolding ends_with
ends_with-split s u h =
    let a : Text = after (reverse s) (reverse u) in
    (
      reverse a,
      sym (reverse-reverse s)
          ∙ ap reverse (starts_with-after (reverse s) (reverse u) h)
          ∙ reverse-append (reverse u) a
          ∙ ap (λ v. reverse a ++ v) (reverse-reverse u),
    )

-- A text that ends in a suffix is what is left of it without the suffix, and the suffix.
without_suffix-append : (s u : Text) → ends_with s u ≡ true → without_suffix s u ++ u ≡ s
unfolding without_suffix
without_suffix-append s u h =
    let (t, e) = ends_with-split s u h in rw e (ap (λ v. v ++ u) (front t u))

starts_with-take : (n : ℕ) (s : Text) → starts_with s (take n s) ≡ true
unfolding starts_with
starts_with-take zero s = ground arith
starts_with-take (suc n) [] = refl
starts_with-take (suc n) (c ∷ s) = ground (arith, starts_with-take n s)

pattern_matches_self : (s : Text) → pattern_matches s s ≡ true
unfolding pattern_matches without_suffix
pattern_matches_self s = elim (Bool-cases (text_eq s (codes "*"))) [
  | inl all ↦ rw all refl
  | inr other ↦ rw other (elim (Bool-cases (ends_with s (codes ".*"))) [
    | inl wild ↦ rw wild (starts_with-take _ s)
    | inr explicit ↦ rw explicit (text_eq_refl s)
  ])
]

-- If a profile's pattern ends in `.xctrunner` and it yields an agent's bundle id, then the App ID
-- that this agent requires is the profile's pattern, and the profile signs the agent's runner.
pub agent_bundle_id_for_runner-signs :
    (p : ProvisioningProfile) (agent : Text)
    → ends_with (bundle_id_pattern p) runner_suffix ≡ true
    → agent_bundle_id_for_runner p ≡ some agent
    → (required_app_id agent ≡ bundle_id_pattern p) × (signs_runner p agent ≡ true)
unfolding agent_bundle_id_for_runner signs_runner matches_bundle_id required_app_id
agent_bundle_id_for_runner-signs p agent h e =
    let same : agent ≡ without_suffix (bundle_id_pattern p) runner_suffix = ground arith in
    let whole : agent ++ runner_suffix ≡ bundle_id_pattern p =
      rw same (without_suffix-append (bundle_id_pattern p) runner_suffix h) in
    (whole, rw whole (pattern_matches_self (bundle_id_pattern p)))
