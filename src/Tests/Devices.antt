-- ===== src/Tests/Devices.antt =====
-- What the tools print, for the theorem about the discovery of devices; and a stream and a client.
use sandstorm_ios_driver.Prelude.{
  ℕ, refl, inl, true, none, some, Option, List, [], ◌∷◌, ◌++◌, if◌then◌else◌,
}
use sandstorm_ios_driver.Prelude.Text.{Text, codes, text_eq}
use sandstorm_ios_driver.Python.Json.{Json, arr, obj, nil, cons, end, field}
use sandstorm_ios_driver.Python.Runtime.{text}
use sandstorm_ios_driver.Protocol.Framing.{
  chunk, json_frame, read_frame, Arrival, encode_frame, pack_header,
}
use sandstorm_ios_driver.Protocol.Framing.Stream.{pending}
use sandstorm_ios_driver.Protocol.Framing.Channel.{Frame, Pops, read_frame-Pops}
use sandstorm_ios_driver.Transport.Client.{connect, close}
use sandstorm_ios_driver.Transport.Invoke.{invoke}
use sandstorm_ios_driver.Transport.Invoke.Coherence.{Coherent, client-Coherent}
use sandstorm_ios_driver.Controller.Discovery.{
  Completed, discover_simulators, devicectl_devices, pymobiledevice3_devices,
}
use sandstorm_ios_driver.Controller.Discovery.Kinds.{Each, Wanted, OnDevice, discovery-Kinds}
use sandstorm_ios_driver.Tests.Samples.{plain, client, reply_bytes, hello}

abbrev simulators : Json ℕ
simulators = obj (
    field "devices"
      (obj (
        field "com.apple.CoreSimulator.SimRuntime.iOS-18-1"
          (arr (
            cons (obj (field "udid" (text "A") (field "state" (text "Booted") end)))
              (cons (obj (field "udid" (text "B") (field "state" (text "Shutdown") end))) nil)))
          end))
      end)

abbrev phones : Json ℕ
phones = arr (cons (obj (field "Identifier" (text "C") end)) nil)

abbrev listing : Json ℕ
listing = obj (
    field "result"
      (obj (field "devices" (arr (cons (obj (field "identifier" (text "C") end)) nil)) end)) end)

abbrev decoded : Text → Option (Json ℕ)
decoded t =
    if text_eq t (codes "simctl")
    then some simulators
    else if text_eq t (codes "usb")
    then some phones
    else none

abbrev printed : Text → Completed
printed t = record { returncode = 0; stdout = t; stderr = [] }

discovery-Kinds_example :
    Each {F = ℕ}
      (Wanted true)
      (discover_simulators ⦃rt = plain⦄ decoded true (printed (codes "simctl")))
    × Each {F = ℕ} OnDevice (devicectl_devices ⦃rt = plain⦄ true (printed []) (some listing))
    × Each {F = ℕ} OnDevice
        (pymobiledevice3_devices ⦃rt = plain⦄ decoded true (printed (codes "usb")))
discovery-Kinds_example =
    discovery-Kinds ⦃rt = plain⦄ decoded true true true (printed (codes "simctl")) (printed [])
      (printed (codes "usb")) (some listing)

-- Two frames that arrive in one chunk.
abbrev stream : List Arrival
stream = chunk (reply_bytes ++ hello) ∷ []

abbrev queue : List Frame
queue = (json_frame, 114 ∷ []) ∷ (json_frame, 104 ∷ []) ∷ []

read_frame-Pops_example : Pops ℕ queue (read_frame stream)
unfolding encode_frame pack_header pending
read_frame-Pops_example = read_frame-Pops ℕ stream queue (refl, (inl refl, (inl refl, tt)))

client-Coherent_example :
    Coherent (connect ⦃rt = plain⦄ 2 client).1
    × Coherent (invoke ⦃rt = plain⦄ "app.launch" end none true client).1
    × Coherent (close client)
client-Coherent_example =
    client-Coherent ⦃rt = plain⦄ client 2 "app.launch" end none true (inl refl)
