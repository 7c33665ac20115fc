-- ===== src/Controller/Devices/Choice.antt =====
-- Which device the resolution chooses.
use sandstorm_ios_driver.Prelude.{
  ℕ, ◌≤◌, ◌≡◌, refl, Bool, true, false, Bool-cases, inl, inr, ◌⊎◌, none, List, [], ◌∷◌, All, keep,
  arith, if◌then◌else◌,
}
use sandstorm_ios_driver.Python.Exception.{Except, ok, err, ios, IosError}
use sandstorm_ios_driver.Controller.Devices.{
  DeviceRecord, is_simulator, is_booted, is_physical, first_or, default_device, resolve_device,
}

-- A booted simulator before a physical device, before any other simulator.
abbrev pub rank : DeviceRecord → ℕ
rank d = if is_booted d then 0 else if is_physical d then 1 else 2

-- One of the devices, and none has a lower rank.
abbrev pub Member : DeviceRecord → List DeviceRecord → Type 0
Member d [] = ⊥
Member d (e ∷ es) = (d ≡ e) ⊎ Member d es

abbrev pub Preferred : {F : Type 0} → List DeviceRecord → Except F DeviceRecord → Type 0
Preferred devices (ok d) = Member d devices × All (λ e. rank d ≤ rank e) devices
Preferred devices (err e) = devices ≡ []

-- The first device that passes a test, or that none passes it.
abbrev First : (DeviceRecord → Bool) → List DeviceRecord → List DeviceRecord → Type 0
First test devices [] = All (λ e. test e ≡ false) devices
First test devices (d ∷ ds) = Member d devices × (test d ≡ true)

First-step :
    (test : DeviceRecord → Bool) (d : DeviceRecord) (ds kept : List DeviceRecord)
    → test d ≡ false
    → First test ds kept
    → First test (d ∷ ds) kept
First-step test d ds [] e h = (e, h)
First-step test d ds (k ∷ ks) e (h, passes) = (inr h, passes)

keep-First :
    (test : DeviceRecord → Bool) (devices : List DeviceRecord)
    → First test devices (keep test devices)
keep-First test [] = tt
keep-First test (d ∷ ds) = elim (Bool-cases (test d)) [
  | inl passes ↦ rw passes (inl refl, passes)
  | inr fails ↦ rw fails (First-step test d ds (keep test ds) fails (keep-First test ds))
]

everything : (ds : List DeviceRecord) → All (λ e. Unit {0}) ds
everything [] = tt
everything (d ∷ ds) = (tt, everything ds)

All-map :
    (P Q : DeviceRecord → Type 0) (ds : List DeviceRecord)
    → ((d : DeviceRecord) → P d → Q d)
    → All P ds
    → All Q ds
All-map P Q [] f h = tt
All-map P Q (d ∷ ds) f (p, h) = (f d p, All-map P Q ds f h)

rank_booted : (d : DeviceRecord) → is_booted d ≡ true → rank d ≡ 0
rank_booted d e = rw e refl

rank_positive : (d : DeviceRecord) → is_booted d ≡ false → 1 ≤ rank d
rank_positive d e = rw e (ground arith)

rank_physical : (d : DeviceRecord) → is_physical d ≡ true → rank d ≤ 1
rank_physical d e = ground arith

rank_simulator : (d : DeviceRecord) → is_booted d ≡ false → is_physical d ≡ false → rank d ≡ 2
rank_simulator d e f = rw (e, f) refl

rank_bound : (d : DeviceRecord) → rank d ≤ 2
rank_bound d = ground arith

-- A device is physical or a simulator.
neither :
    (ds : List DeviceRecord)
    → All (λ e. is_physical e ≡ false) ds
    → All (λ e. is_simulator e ≡ false) ds
    → ds ≡ []
neither [] h k = refl
neither (d ∷ ds) (p, h) (s, k) = absurd (grind arith)

All-both :
    (P Q : DeviceRecord → Type 0) (ds : List DeviceRecord)
    → All P ds
    → All Q ds
    → All (λ e. P e × Q e) ds
All-both P Q [] h k = tt
All-both P Q (d ∷ ds) (p, h) (q, k) = ((p, q), All-both P Q ds h k)

module _ {F : Type 0} where
  choose_simulator :
      (devices kept : List DeviceRecord)
      → First is_simulator devices kept
      → All (λ e. is_booted e ≡ false) devices
      → All (λ e. is_physical e ≡ false) devices
      → (e : IosError F) → Preferred {F = F} devices (first_or kept (err (ios e)))
  choose_simulator devices [] none_left h k e = neither devices k none_left
  choose_simulator devices (d ∷ ds) (member, passes) h k e = (
    member,
    All-map _ _ devices (λ e' (b, p). rw (rank_simulator e' b p) (rank_bound d))
        (All-both _ _ devices h k),
  )

  choose_physical :
      (devices kept : List DeviceRecord)
      → First is_physical devices kept
      → All (λ e. is_booted e ≡ false) devices
      → (other : Except F DeviceRecord)
      → (All (λ e. is_physical e ≡ false) devices → Preferred devices other)
      → Preferred devices (first_or kept other)
  choose_physical devices [] k h other later = later k
  choose_physical devices (d ∷ ds) (member, passes) h other later = (
    member,
    All-map _ _ devices
        (λ e b. let p = rank_positive e b in let q = rank_physical d passes in omega arith) h,
  )

  choose_booted :
      (devices kept : List DeviceRecord)
      → First is_booted devices kept
      → (other : Except F DeviceRecord)
      → (All (λ e. is_booted e ≡ false) devices → Preferred devices other)
      → Preferred devices (first_or kept other)
  choose_booted devices [] h other later = later h
  choose_booted devices (d ∷ ds) (member, passes) other later = (
    member,
    All-map (λ e. Unit {0}) _ devices (λ e u. rw (rank_booted d passes) (omega arith))
        (everything devices),
  )

-- Without a UDID the resolution answers with one of the devices that is preferred to, or as good
-- as, every other: a booted simulator before a physical device before any other simulator. It
-- fails only if there is no device at all.
pub resolve_device-Preferred :
    (F : Type 0) (devices : List DeviceRecord)
    → Preferred devices (resolve_device {F = F} none devices)
unfolding resolve_device default_device
resolve_device-Preferred F devices = choose_booted devices _ (keep-First is_booted devices) _ (λ h.
    choose_physical devices _ (keep-First is_physical devices) h _
      (λ k. choose_simulator devices _ (keep-First is_simulator devices) h k _))
