-- ===== src/Controller/Discovery/Kinds.antt =====
-- What the discovered devices are.
use sandstorm_ios_driver.Prelude.{
  ◌≡◌, refl, Bool, true, false, not, ◌||◌, if◌then◌else◌, List, [], ◌∷◌, ◌++◌, All, arith, Option,
  none, some,
}
use sandstorm_ios_driver.Prelude.Text.{Text, codes, text_eq}
use sandstorm_ios_driver.Python.Json.{Json, arr, Items, nil, cons, Fields, end, field}
use sandstorm_ios_driver.Python.Exception.{Except, ok, err, ◌>>=◌}
use sandstorm_ios_driver.Python.Runtime.{Runtime, lookup, lookup_or, to_text}
use sandstorm_ios_driver.Controller.Devices.{DeviceRecord, is_simulator}
use sandstorm_ios_driver.Controller.Discovery.{
  Completed, list_of, runtime_version, physical_record, if_ios, is_ios, empty, text_of,
  simulator_record, is_skipped, with_entry, simulators_in, simulators_of, discover_simulators,
  physical_of, usb_of, entries_of, devicectl_devices, pymobiledevice3_devices, failed, usb_listing,
  parsed, items_of,
}

-- Of the devices that a discovery yields, if it raises nothing.
abbrev pub Each : {F : Type 0} → (DeviceRecord → Type 0) → Except F (List DeviceRecord) → Type 0
Each P (ok ds) = All P ds
Each P (err e) = Unit

-- A simulator, and a booted one if only those are wanted.
abbrev pub Wanted : Bool → DeviceRecord → Type 0
Wanted booted_only d =
    (is_simulator d ≡ true) × (not booted_only || text_eq d.state (codes "Booted") ≡ true)

abbrev pub OnDevice : DeviceRecord → Type 0
OnDevice d = is_simulator d ≡ false

All-append :
    (P : DeviceRecord → Type 0) (xs ys : List DeviceRecord) → All P xs → All P ys → All P (xs ++ ys)
All-append P [] ys h k = k
All-append P (x ∷ xs) ys (p, h) k = (p, All-append P xs ys h k)

module _ {F : Type 0} (P : DeviceRecord → Type 0) where
  Each-bind :
      {B : Type 0} (m : Except F B) (f : B → Except F (List DeviceRecord))
      → ((b : B) → m ≡ ok b → Each P (f b))
      → Each P (m >>= f)
  Each-bind (ok b) f k = k b refl
  Each-bind (err e) f k = tt

  Each-append :
      (m q : Except F (List DeviceRecord))
      → Each P m
      → Each P q
      → Each P (m >>= λ ds. q >>= λ more. ok (ds ++ more))
  Each-append (err e) q h k = tt
  Each-append (ok ds) (err e) h k = tt
  Each-append (ok ds) (ok more) h k = All-append P ds more h k

  Each-cons :
      (m : Except F DeviceRecord) (q : Except F (List DeviceRecord))
      → ((d : DeviceRecord) → m ≡ ok d → P d)
      → Each P q
      → Each P (m >>= λ d. q >>= λ ds. ok (d ∷ ds))
  Each-cons (err e) q h k = tt
  Each-cons (ok d) (err e) h k = tt
  Each-cons (ok d) (ok ds) h k = (h d refl, k)

  Each-choice :
      (b : Bool) (m q : Except F (List DeviceRecord))
      → (b ≡ true → Each P m)
      → (b ≡ false → Each P q)
      → Each P (if b then m else q)
  Each-choice true m q h k = h refl
  Each-choice false m q h k = k refl

module _ {F : Type 0} ⦃rt : Runtime F⦄ where
  kept-Wanted :
      (booted_only : Bool) (version : Text) (entry : Json F) (d : DeviceRecord)
      → is_skipped booted_only entry ≡ ok false
      → simulator_record version entry ≡ ok d
      → Wanted booted_only d
  unfolding lookup to_text
  kept-Wanted true version entry d h k = ground arith
  kept-Wanted false version entry d h k = ground arith

  entry-Wanted :
      (booted_only : Bool) (version : Text) (entry : Json F) (later : Except F (List DeviceRecord))
      → Each (Wanted booted_only) later
      → Each
          (Wanted booted_only)
          (is_skipped booted_only entry >>= λ skip. with_entry skip version entry later)
  entry-Wanted booted_only version entry later h =
      Each-bind (Wanted booted_only) (is_skipped booted_only entry) _ (λ skip e.
        Each-choice (Wanted booted_only) skip later _ (λ _. h)
          (λ kept.
            Each-cons (Wanted booted_only) (simulator_record version entry) later
              (λ d k. kept-Wanted booted_only version entry d (rw kept at e) k) h))

  simulators_in-Wanted :
      (booted_only : Bool) (version : Text) (entries : Items F)
      → Each (Wanted booted_only) (simulators_in booted_only version entries)
  unfolding simulators_in
  simulators_in-Wanted booted_only version nil = tt
  simulators_in-Wanted booted_only version (cons entry entries) =
      entry-Wanted booted_only version entry (simulators_in booted_only version entries)
        (simulators_in-Wanted booted_only version entries)

  simulators_of-Wanted :
      (booted_only : Bool) (runtimes : Fields F)
      → Each (Wanted booted_only) (simulators_of booted_only runtimes)
  unfolding simulators_of
  simulators_of-Wanted booted_only end = tt
  simulators_of-Wanted booted_only (field runtime entries rest) =
      Each-bind (Wanted booted_only) (list_of entries)
        (λ es. simulators_in booted_only (runtime_version (codes runtime)) es >>= λ ds.
          simulators_of booted_only rest >>= λ more. ok (ds ++ more))
        (λ es _.
          Each-append (Wanted booted_only)
            (simulators_in booted_only (runtime_version (codes runtime)) es)
            (simulators_of booted_only rest)
            (simulators_in-Wanted booted_only (runtime_version (codes runtime)) es)
            (simulators_of-Wanted booted_only rest))

  physical_record-OnDevice :
      (entry properties hardware connection : Json F) (d : DeviceRecord)
      → physical_record entry properties hardware connection ≡ ok d
      → OnDevice d
  unfolding lookup to_text
  physical_record-OnDevice entry properties hardware connection d h = ground arith

  if_ios-OnDevice :
      (b : Bool) (r : Except F DeviceRecord)
      → ((d : DeviceRecord) → r ≡ ok d → OnDevice d)
      → Each OnDevice (if_ios b r)
  if_ios-OnDevice false r h = tt
  if_ios-OnDevice true (err e) h = tt
  if_ios-OnDevice true (ok d) h = (h d refl, tt)

  physical_of-OnDevice : (entry : Json F) → Each OnDevice (physical_of entry)
  unfolding physical_of
  physical_of-OnDevice entry =
      Each-bind OnDevice (lookup_or entry "deviceProperties" empty) _ (λ properties _.
        Each-bind OnDevice (lookup_or entry "hardwareProperties" empty) _ (λ hardware _.
          Each-bind OnDevice (lookup_or entry "connectionProperties" empty) _ (λ connection _.
            Each-bind OnDevice (lookup hardware "platform") _ (λ platform _.
              if_ios-OnDevice (is_ios platform)
                (physical_record entry properties hardware connection)
                (physical_record-OnDevice entry properties hardware connection)))))

  usb_of-OnDevice : (entry : Json F) → Each OnDevice (usb_of entry)
  unfolding usb_of
  usb_of-OnDevice entry = Each-bind OnDevice (text_of entry "Identifier" "") _ (λ udid _.
      Each-bind OnDevice (text_of entry "DeviceName" "iPhone") _ (λ name _.
        Each-bind OnDevice (text_of entry "ProductVersion" "unknown") _ (λ version _.
          Each-bind OnDevice (text_of entry "ConnectionType" "USB") _ (λ state _. (refl, tt)))))

  entries_of-Each :
      (P : DeviceRecord → Type 0) (one : Json F → Except F (List DeviceRecord))
      → ((entry : Json F) → Each P (one entry))
      → (entries : Items F) → Each P (entries_of one entries)
  unfolding entries_of
  entries_of-Each P one h nil = tt
  entries_of-Each P one h (cons entry entries) =
      Each-append P (one entry) (entries_of one entries) (h entry) (entries_of-Each P one h entries)

  simctl-Wanted :
      (decode : Text → Option (Json F)) (booted_only : Bool) (result : Completed)
      → Each (Wanted booted_only) (discover_simulators decode booted_only result)
  unfolding discover_simulators
  simctl-Wanted decode booted_only result =
      Each-choice (Wanted booted_only) (failed result) (ok []) _ (λ _. tt)
        (λ _. Each-bind (Wanted booted_only) (parsed (decode result.stdout)) _ (λ payload _.
          Each-bind (Wanted booted_only) (lookup_or payload "devices" empty) _ (λ runtimes _.
            Each-bind (Wanted booted_only) (items_of runtimes) (simulators_of booted_only)
              (λ fs _. simulators_of-Wanted booted_only fs))))

  devicectl-OnDevice :
      (has_xcrun : Bool) (result : Completed) (payload : Option (Json F))
      → Each OnDevice (devicectl_devices has_xcrun result payload)
  unfolding devicectl_devices
  devicectl-OnDevice has_xcrun result none = tt
  devicectl-OnDevice has_xcrun result (some payload) =
      Each-choice OnDevice (not has_xcrun || failed result) (ok []) _ (λ _. tt)
        (λ _. Each-bind OnDevice (lookup_or payload "result" empty) _ (λ listing _.
          Each-bind OnDevice (lookup_or listing "devices" (arr nil)) _ (λ devices _.
            Each-bind OnDevice (list_of devices) (entries_of physical_of)
              (λ es _. entries_of-Each OnDevice physical_of physical_of-OnDevice es))))

  usb_listing-OnDevice :
      (decode : Text → Option (Json F)) (listing : Option (Json F))
      → Each OnDevice (usb_listing decode listing)
  usb_listing-OnDevice decode none = tt
  usb_listing-OnDevice decode (some payload) =
      Each-bind OnDevice (list_of payload) (entries_of usb_of)
        (λ es _. entries_of-Each OnDevice usb_of usb_of-OnDevice es)

  pymobiledevice3-OnDevice :
      (decode : Text → Option (Json F)) (has_tool : Bool) (result : Completed)
      → Each OnDevice (pymobiledevice3_devices decode has_tool result)
  unfolding pymobiledevice3_devices
  pymobiledevice3-OnDevice decode has_tool result =
      Each-choice OnDevice (not has_tool || failed result) (ok []) _ (λ _. tt)
        (λ _. usb_listing-OnDevice decode (decode result.stdout))

  -- Whatever the tools print: `simctl` yields simulators only, and only booted ones where the
  -- caller wants those; `devicectl` and `pymobiledevice3` yield physical devices only.
  pub discovery-Kinds :
      (decode : Text → Option (Json F)) (booted_only has_xcrun has_tool : Bool)
      (simctl devicectl usb : Completed) (payload : Option (Json F))
      → Each (Wanted booted_only) (discover_simulators decode booted_only simctl)
        × Each OnDevice (devicectl_devices has_xcrun devicectl payload)
        × Each OnDevice (pymobiledevice3_devices decode has_tool usb)
  discovery-Kinds decode booted_only has_xcrun has_tool simctl devicectl usb payload = (
    simctl-Wanted decode booted_only simctl,
    devicectl-OnDevice has_xcrun devicectl payload,
    pymobiledevice3-OnDevice decode has_tool usb,
  )
