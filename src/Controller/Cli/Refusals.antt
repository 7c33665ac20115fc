-- ===== src/Controller/Cli/Refusals.antt =====
-- When `sandstorm ios setup` builds, and what its exit code says.
use sandstorm_ios_driver.Prelude.{
  ◌≡◌, refl, ◌⊎◌, inl, inr, Bool, true, false, not, ◌&&◌, ◌||◌, Option, none, some, List, [], ◌∷◌,
  arith, if◌then◌else◌,
}
use sandstorm_ios_driver.Prelude.Text.{Text}
use sandstorm_ios_driver.Python.Exception.{Except, ok, err}
use sandstorm_ios_driver.Controller.Devices.{DeviceRecord}
use sandstorm_ios_driver.Controller.Profiles.{ProvisioningProfile}
use sandstorm_ios_driver.Controller.Build.{XcodeEnvironment, BuildResult}
use sandstorm_ios_driver.Controller.Cli.{
  SetupArgs, Settings, Effect, configured, built, installed, Outcome, developer_off, planned,
  cannot_sign, finish, with_profile, with_device, wanted_profile, wants_project, cmd_setup,
}

abbrev pub builds : List Effect → Bool
builds [] = false
builds (built manual team ∷ rest) = true
builds (configured s ∷ rest) = builds rest
builds (installed ∷ rest) = builds rest

-- The profile that was asked for, if any, is there, and signs the runner of the agent that is
-- configured, or `--force` was given.
abbrev pub Signable : SetupArgs → Text → Text → List ProvisioningProfile → Type 0
Signable args demo_default agent_default profiles =
    (wants_project args ≡ false)
    ⊎ ((o : Option ProvisioningProfile) × (wanted_profile args.profile profiles ≡ some o)
        × (not (cannot_sign o (planned args o demo_default agent_default).agent_bundle_id)
              || args.force
            ≡ true))

-- What was done before the build.
abbrev before : Option Settings → List Effect
before none = []
before (some s) = configured s ∷ []

module _ {F : Type 0} where
  -- The exit code 0 means that the build ran, and 2 that it did not; and it runs only if this holds.
  abbrev pub Builds : Type 0 → Outcome F → Type 0
  Builds ready (r, effects) =
      (r ≡ ok 0 → builds effects ≡ true)
      × (r ≡ ok 2 → builds effects ≡ false)
      × (builds effects ≡ true → ready)

  refused : (ready : Type 0) (s : Option Settings) → Builds ready (ok 2, before s)
  refused ready none =
      ((λ e. absurd (ground (arith, e))), (λ e. refl), (λ e. absurd (ground (arith, e))))
  refused ready (some s) =
      ((λ e. absurd (ground (arith, e))), (λ e. refl), (λ e. absurd (ground (arith, e))))

  finish-Builds :
      (args : SetupArgs) (ready : Type 0) (build : Except F BuildResult) (s : Option Settings)
      → ready
      → Builds ready (finish args build (before s))
  finish-Builds args ready (ok b) none r =
      ((λ e. refl), (λ e. absurd (ground (arith, e))), (λ e. r))
  finish-Builds args ready (ok b) (some s) r =
      ((λ e. refl), (λ e. absurd (ground (arith, e))), (λ e. r))
  finish-Builds args ready (err x) none r =
      ((λ e. refl), (λ e. absurd (ground (arith, e))), (λ e. r))
  finish-Builds args ready (err x) (some s) r =
      ((λ e. refl), (λ e. absurd (ground (arith, e))), (λ e. r))

  Builds-map : {A B : Type 0} (out : Outcome F) → (A → B) → Builds A out → Builds B out
  Builds-map out f (h, k, l) = (h, k, λ e. f (l e))

  either :
      (ready : Type 0) (b : Bool) (x y : Outcome F)
      → (b ≡ true → Builds ready x)
      → (b ≡ false → Builds ready y)
      → Builds ready (if b then x else y)
  either ready true x y h k = h refl
  either ready false x y h k = k refl

module _ {F : Type 0} (args : SetupArgs) (demo_default agent_default : Text) where
  profile-Builds :
      (profiles : List ProvisioningProfile) (generated : Except F (Unit {0}))
      (build : Except F BuildResult) (o : Option (Option ProvisioningProfile))
      → wanted_profile args.profile profiles ≡ o
      → Builds
          (Signable args demo_default agent_default profiles)
          (with_profile args demo_default agent_default generated build o)
  unfolding with_profile
  profile-Builds profiles generated build none h = refused _ none
  profile-Builds profiles (err e) build (some o) h =
      ((λ k. absurd (ground (arith, k))), (λ k. refl), (λ k. absurd (ground (arith, k))))
  profile-Builds profiles (ok u) build (some o) h =
      let s = planned args o demo_default agent_default in
      let ready = Signable args demo_default agent_default profiles in
      either ready (cannot_sign o s.agent_bundle_id && not args.force) _ _
        (λ _. refused ready (some s))
        (λ can. finish-Builds args ready build (some s) (inr (o, h, ground (arith, can))))

  device-Builds :
      (read : Option Bool) (profiles : List ProvisioningProfile) (generated : Except F (Unit {0}))
      (build : Except F BuildResult) (device : Except F DeviceRecord)
      → Builds
          (((d : DeviceRecord) × (device ≡ ok d) × (developer_off d read ≡ false))
            × Signable args demo_default agent_default profiles)
          (with_device args demo_default agent_default read profiles generated build device)
  unfolding with_device
  device-Builds read profiles generated build (err e) =
      ((λ h. absurd (ground (arith, h))), (λ h. refl), (λ h. absurd (ground (arith, h))))
  device-Builds read profiles generated build (ok d) =
      either _ (developer_off d read) _ _ (λ _. refused _ none)
        (λ on.
          either _ (wants_project args) _ _
            (λ _.
              Builds-map
                (with_profile args demo_default agent_default generated build
                  (wanted_profile args.profile profiles))
                (λ s. ((d, refl, on), s))
                (profile-Builds profiles generated build (wanted_profile args.profile profiles)
                  refl))
            (λ plain. finish-Builds args _ build none ((d, refl, on), inl plain)))

  -- `sandstorm ios setup` runs the build only if there is a device on which Developer Mode is not
  -- known to be off, and, where the project is configured, the profile that was asked for is found
  -- and signs the runner, or `--force` is given. The exit code 0 says that the build ran, and 2 that
  -- it did not.
  pub cmd_setup-Builds :
      (environment : Except F XcodeEnvironment) (device : Except F DeviceRecord)
      (read : Option Bool) (profiles : List ProvisioningProfile) (generated : Except F (Unit {0}))
      (build : Except F BuildResult)
      → Builds
          (((d : DeviceRecord) × (device ≡ ok d) × (developer_off d read ≡ false))
            × Signable args demo_default agent_default profiles)
          (cmd_setup args demo_default agent_default environment device read profiles generated
            build)
  unfolding cmd_setup
  cmd_setup-Builds (err e) device read profiles generated build =
      ((λ h. absurd (ground (arith, h))), (λ h. refl), (λ h. absurd (ground (arith, h))))
  cmd_setup-Builds (ok environment) device read profiles generated build =
      device-Builds read profiles generated build device
