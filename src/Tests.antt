-- ===== src/Tests.antt =====
-- The theorems at concrete inputs, under a runtime whose floats are natural numbers.
pub mod Samples
pub mod Runs
pub mod Inspecting
pub mod Setup
pub mod Devices
pub mod Runner
use sandstorm_ios_driver.Tests.Samples.{
  failure_error, refused_client, plain, reply_bytes, client, replying, hello,
}
use sandstorm_ios_driver.Prelude.{
  ℕ, ◌≡◌, refl, Bool, true, false, Option, none, some, List, [], ◌∷◌, ◌++◌, arith, inl, inr, All,
  ◌≤◌, ◌<◌, ◌⊎◌, length, keep, append-nil, if◌then◌else◌,
}
use sandstorm_ios_driver.Prelude.Int.{ℤ, pos}
use sandstorm_ios_driver.Prelude.Text.{Text, codes, starts_with, text_eq}
use sandstorm_ios_driver.Python.Json.{Json, str, obj, field, end}
use sandstorm_ios_driver.Python.Exception.{Except, ok, err, IosError, ErrorClass, ios_error}
use sandstorm_ios_driver.Python.Runtime.{lookup, to_text, truthy}
use sandstorm_ios_driver.Errors.{error_from_payload, class_in}
use sandstorm_ios_driver.Errors.Mapping.{Reported, error_from_payload-Reported}
use sandstorm_ios_driver.Protocol.Framing.{
  encode_frame, pack_header, header_size, max_payload_size, read_frame, json_frame, Arrival, chunk,
  silence, header_bytes,
}
use sandstorm_ios_driver.Protocol.Framing.Stream.{pending, size, Disconnects}
use sandstorm_ios_driver.Protocol.Framing.Header.{Encodes, encode_frame-Encodes}
use sandstorm_ios_driver.Protocol.Framing.Reading.{read_frame-encode_frame, read_frame-cut_short}
use sandstorm_ios_driver.Transport.Client.{Client, connect}
use sandstorm_ios_driver.Transport.Client.Connecting.{Connects, connect-Connects}
use sandstorm_ios_driver.Transport.Client.Unclosed.{Unclosed, connect-Unclosed}
use sandstorm_ios_driver.Transport.Invoke.{invoke, attempts, await_reply}
use sandstorm_ios_driver.Transport.Invoke.Waiting.{await_reply-ends}
use sandstorm_ios_driver.Transport.Invoke.Outcomes.{Outcome, invoke-Outcome}
use sandstorm_ios_driver.Transport.Raises.{Only}
use sandstorm_ios_driver.Transport.Raises.Tame.{tame}
use sandstorm_ios_driver.Prelude.{◌+◌, String}
use sandstorm_ios_driver.Python.Json.{Fields, get, float, bool}
use sandstorm_ios_driver.Python.Exception.{
  ios, unauthorized, agent_connection_error, protocol_error, session_lost,
}
use sandstorm_ios_driver.Errors.{raised}
use sandstorm_ios_driver.Protocol.Framing.{binary_frame}
use sandstorm_ios_driver.Protocol.Framing.Reading.{read_frame_cases}
use sandstorm_ios_driver.Protocol.Selector.{Selector, root, within, no_criteria, criteria, to_wire}
use sandstorm_ios_driver.Protocol.Selector.Wire.{
  Shows, parent_wire, to_wire-Shows, to_wire-injective,
}
use sandstorm_ios_driver.Inspector.Tree.{Node, node, Nodes, leaf, also, iter_nodes}
use sandstorm_ios_driver.Inspector.HitTest.{hit_test}
use sandstorm_ios_driver.Inspector.HitTest.Smallest.{Strict, Smallest, hit_test-Smallest}
use sandstorm_ios_driver.Inspector.Recorder.{Step, Recorder, step, undo, capture}
use sandstorm_ios_driver.Inspector.Recorder.Recording.{undo-capture}
use sandstorm_ios_driver.Inspector.Recorder.Script.{function_name, or_recorded, cleaned}
use sandstorm_ios_driver.Inspector.Recorder.Script.Names.{
  is_name_char, function_name-collected, function_name-caseless,
}
use sandstorm_ios_driver.Controller.Devices.{
  DeviceRecord, DeviceKind, simulator, physical, resolve_device,
}
use sandstorm_ios_driver.Controller.Devices.Choice.{Preferred, resolve_device-Preferred}
use sandstorm_ios_driver.Controller.Stale.{
  Target, runner, supervisor, kill_order, terminate_stale_runners,
}
use sandstorm_ios_driver.Controller.Stale.Kills.{
  Spared, is_runner, is_supervisor, terminate_stale_runners-spares, kill_order-runners,
}
use sandstorm_ios_driver.Sdk.Session.{
  session_invoke, session_stop_agent, is_alive, session_id, session_result, agent_version,
  device_info,
}
use sandstorm_ios_driver.Sdk.Session.Closed.{stop_agent-refuses}
use sandstorm_ios_driver.Python.Json.{null}
use sandstorm_ios_driver.Python.Exception.{command_timeout}
use sandstorm_ios_driver.Python.Runtime.{to_int}
use sandstorm_ios_driver.Protocol.Framing.{
  read_exactly, read_loop, checked_chunk, recv, put_back, read_body, unpack_header,
}
use sandstorm_ios_driver.Protocol.Messages.{Response, command_to_wire, response_from_wire}
use sandstorm_ios_driver.Transport.Net.{sendall}
use sandstorm_ios_driver.Transport.Client.{send_json, monotonic, client_read}
use sandstorm_ios_driver.Transport.Invoke.{invoke_once, read_response, attachment, with_frame}
use sandstorm_ios_driver.Transport.Invoke.Replies.{invoke-reported}
use sandstorm_ios_driver.Inspector.Tree.{walk_with_depth, count_nodes}
use sandstorm_ios_driver.Inspector.Tree.Walks.{visited, walk-iter_nodes}
use sandstorm_ios_driver.Inspector.Suggestion.{escape}
use sandstorm_ios_driver.Inspector.Recorder.Script.Literal.{
  read_literal, as_literal, read_literal-escape,
}
use sandstorm_ios_driver.Prelude.{map}
use sandstorm_ios_driver.Prelude.Text.{ends_with}
use sandstorm_ios_driver.Controller.Profiles.{
  ProvisioningProfile, bundle_id_pattern, runner_suffix, agent_bundle_id_for_runner,
  required_app_id, signs_runner, is_wildcard, without_suffix,
}
use sandstorm_ios_driver.Controller.Profiles.Runner.{agent_bundle_id_for_runner-signs}
use sandstorm_ios_driver.Prelude.Text.{after}
use sandstorm_ios_driver.Prelude.Text.{is_empty}
use sandstorm_ios_driver.Inspector.Tree.{attr, text_or_empty}
use sandstorm_ios_driver.Inspector.Suggestion.{best_locator, candidates, of_type, index_among}
use sandstorm_ios_driver.Inspector.Suggestion.Best.{
  Best, Stands, best_locator-Best, index_among-Stands,
}
use sandstorm_ios_driver.Sdk.Device.{Device, device_connect}
use sandstorm_ios_driver.Sdk.Device.Connected.{Connected, device_connect-Connected}

invoke-Outcome_example : Outcome 3 0 (invoke ⦃rt = plain⦄ "app.launch" end none true replying)
invoke-Outcome_example = invoke-Outcome ⦃rt = plain⦄ "app.launch" end none true replying

connect-Connects_example : Connects ⦃rt = plain⦄ 0 (connect ⦃rt = plain⦄ 2 client)
connect-Connects_example = connect-Connects ⦃rt = plain⦄ 2 client

connect-Unclosed_example : Unclosed (connect ⦃rt = plain⦄ 2 client)
connect-Unclosed_example = connect-Unclosed ⦃rt = plain⦄ 2 client

await_reply-ends_example : Only tame (await_reply ⦃rt = plain⦄ 40 1 9 replying).0
unfolding size
await_reply-ends_example = await_reply-ends ⦃rt = plain⦄ 40 1 9 replying (omega arith)

abbrev two_frames : List Arrival
two_frames = chunk (1 ∷ 0 ∷ 0 ∷ []) ∷ chunk (0 ∷ 1 ∷ 114 ∷ 1 ∷ 0 ∷ []) ∷ silence ∷ []

read_frame-encode_frame_example :
    (s' : List Arrival) × (read_frame {F = ℕ} two_frames ≡ (ok (1, 114 ∷ []), s'))
    × (pending s' ≡ 1 ∷ 0 ∷ [])
unfolding encode_frame pack_header pending
read_frame-encode_frame_example =
    read_frame-encode_frame {F = ℕ} 1 (114 ∷ []) (1 ∷ 0 ∷ []) {frame = reply_bytes} two_frames
      (inl refl) refl refl

abbrev cut_frame : List Arrival
cut_frame = chunk (1 ∷ 0 ∷ 0 ∷ []) ∷ chunk (0 ∷ 1 ∷ []) ∷ []

read_frame-cut_short_example : Disconnects (read_frame {F = ℕ} cut_frame).0
unfolding encode_frame pack_header pending
read_frame-cut_short_example =
    read_frame-cut_short {F = ℕ} 1 (114 ∷ []) (114 ∷ []) {frame = reply_bytes} cut_frame (inl refl)
      refl refl (λ e. cc)

encode_frame-Encodes_example : Encodes 1 (114 ∷ []) (encode_frame {F = ℕ} 1 (114 ∷ []))
encode_frame-Encodes_example = encode_frame-Encodes ℕ 1 (114 ∷ [])

read_frame_cases_example :
    ((t : ℕ) × (payload : List ℕ) × (s' : List Arrival) × (read_frame {F = ℕ} two_frames
        ≡ (ok (t, payload), s'))
      × ((t ≡ json_frame) ⊎ (t ≡ binary_frame))
      × (length payload ≤ max_payload_size)
      × (size s' + length payload + header_size ≤ size two_frames))
    ⊎ ((e : IosError ℕ) × (s' : List Arrival) × (read_frame {F = ℕ} two_frames ≡ (err (ios e), s'))
        × ((e.kind ≡ agent_connection_error) ⊎ (e.kind ≡ protocol_error)))
read_frame_cases_example = read_frame_cases two_frames

abbrev save_button : Selector
save_button =
    within (root (record no_criteria { type = some (codes "Window") }))
      (record no_criteria { identifier = some (codes "save"); index = some (pos 2) })

to_wire-Shows_example :
    (d : Fields ℕ) × (to_wire save_button ≡ obj d)
    × Shows d (criteria save_button)
    × (get "parent" d ≡ parent_wire save_button)
to_wire-Shows_example = to_wire-Shows save_button

to_wire-injective_example : save_button ≡ save_button
to_wire-injective_example = to_wire-injective {F = ℕ} save_button save_button refl

abbrev denied : Json ℕ
denied = obj (field "code" (str (codes "UNAUTHORIZED")) (field "message" (str (codes "no")) end))

abbrev denied_error : IosError ℕ
denied_error = record {
  kind = unauthorized;
  code = codes "UNAUTHORIZED";
  message = codes "no";
  details = obj end;
}

error_from_payload-Reported_example : Reported denied_error.kind
unfolding error_from_payload class_in lookup text_eq to_text truthy get
error_from_payload-Reported_example =
    error_from_payload-Reported ⦃rt = plain⦄ denied denied_error refl

abbrev frame_of : ℕ → ℕ → Fields ℕ → Json ℕ
frame_of w h d = obj (
    field "x" (float 0)
      (field "y" (float 0) (field "width" (float w) (field "height" (float h) end))))

-- A window of 10 by 10 with a button of 2 by 3 and a hidden one of 1 by 1.
abbrev window : Node ℕ
window = node (field "frame" (frame_of 10 10 end) end) (
    also (node (field "frame" (frame_of 2 3 end) end) leaf)
      (also (node (field "visible" (bool false) (field "frame" (frame_of 1 1 end) end)) leaf) leaf))

plain-Strict : Strict plain
plain-Strict = (λ a b c h k. ground arith, λ a. ground arith)

hit_test-Smallest_example :
    Smallest ⦃rt = plain⦄ true 1 1 (iter_nodes window) (hit_test ⦃rt = plain⦄ window 1 1 true)
hit_test-Smallest_example = hit_test-Smallest ⦃rt = plain⦄ plain-Strict window 1 1 true

abbrev device : String → DeviceKind → String → DeviceRecord
device udid kind state = record {
  udid = codes udid;
  name = codes "iPhone";
  kind = kind;
  ios_version = codes "17.0";
  state = codes state;
  developer_mode = none;
  paired = none;
}

abbrev three_devices : List DeviceRecord
three_devices =
    device "A" physical "connected"
    ∷ device "B" simulator "Shutdown"
    ∷ device "C" simulator "Booted"
    ∷ []

resolve_device-Preferred_example :
    Preferred three_devices (resolve_device {F = ℕ} none three_devices)
resolve_device-Preferred_example = resolve_device-Preferred ℕ three_devices

abbrev listing : Option (List Text)
listing = some (codes "40 30 xcodebuild test-without-building -destination id=A" ∷ [])

terminate_stale_runners-spares_example :
    All
      (Spared (pos 40) (pos 20))
      (terminate_stale_runners plain (pos 40) (pos 20) (λ p. true) (codes "A") listing).0
terminate_stale_runners-spares_example =
    terminate_stale_runners-spares plain (pos 40) (pos 20) (λ p. true) (codes "A") listing

abbrev two_targets : List Target
two_targets = (pos 30, supervisor) ∷ (pos 40, runner) ∷ []

kill_order-runners_example :
    kill_order two_targets ≡ keep is_runner two_targets ++ keep is_supervisor two_targets
kill_order-runners_example = kill_order-runners two_targets

stop_agent-refuses_example :
    (session_invoke ⦃rt = plain⦄ "app.launch" end none true
        (session_stop_agent ⦃rt = plain⦄ replying)
      ≡ (err (raised session_lost "Session is closed"), session_stop_agent ⦃rt = plain⦄ replying))
    × (session_result ⦃rt = plain⦄ "app.launch" end none (session_stop_agent ⦃rt = plain⦄ replying)
        ≡ (err (raised session_lost "Session is closed"), session_stop_agent ⦃rt = plain⦄ replying))
    × (is_alive ⦃rt = plain⦄ (session_stop_agent ⦃rt = plain⦄ replying)
        ≡ (false, session_stop_agent ⦃rt = plain⦄ replying))
    × (session_id (session_stop_agent ⦃rt = plain⦄ replying)
        ≡ err (raised session_lost "Not connected to an agent"))
    × (agent_version (session_stop_agent ⦃rt = plain⦄ replying)
        ≡ err (raised session_lost "Not connected to an agent"))
    × (device_info (session_stop_agent ⦃rt = plain⦄ replying)
        ≡ err (raised session_lost "Not connected to an agent"))
stop_agent-refuses_example = stop_agent-refuses ⦃rt = plain⦄ "app.launch" end none true replying

abbrev tapped : Step
tapped = step "tap" (codes "page.tap(1, 2)") (codes "tap") none

undo-capture_example :
    undo (capture tapped (record { steps = []; recording = true })).1
    ≡ (some tapped, record { steps = []; recording = true })
undo-capture_example = undo-capture tapped (record { steps = []; recording = true }) refl

function_name-collected_example :
    (starts_with (function_name (codes "2 Sign-in!") (codes "test_")) (codes "test_") ≡ true)
    × All (λ c. is_name_char c ≡ true) (function_name (codes "2 Sign-in!") (codes "test_"))
function_name-collected_example = function_name-collected (codes "2 Sign-in!")

function_name-caseless_example : function_name (codes "2 Sign-in") [] ≡ (
    let title = or_recorded (cleaned (codes "2 Sign-in")) in
    if starts_with title [] then title else [] ++ title)
function_name-caseless_example = function_name-caseless (codes "2 Sign-in") []

walk-iter_nodes_example :
    (map visited (walk_with_depth window 2) ≡ iter_nodes window)
    × (length (walk_with_depth window 2) ≡ count_nodes window)
walk-iter_nodes_example = walk-iter_nodes window 2

read_literal-escape_example :
    read_literal false (escape (codes "say \"hi\"") ++ (34 ∷ codes ")"))
    ≡ as_literal (codes "say \"hi\"") (codes ")")
read_literal-escape_example = read_literal-escape (codes "say \"hi\"") (codes ")")

abbrev failed_response : Response ℕ
failed_response = record {
  id = pos 1;
  success = false;
  result = obj end;
  error = failure_error;
  binary = none;
}

abbrev late : IosError ℕ
late = record {
  kind = command_timeout;
  code = codes "TIMEOUT";
  message = codes "late";
  details = obj end;
}

invoke-reported_example :
    invoke ⦃rt = plain⦄ "app.launch" end none true refused_client
    ≡ (err (ios late), (invoke_once ⦃rt = plain⦄ "app.launch" end none refused_client).1)
unfolding invoke_once send_json encode_frame pack_header sendall monotonic await_reply read_response
    client_read read_frame read_exactly read_loop checked_chunk recv text_eq size put_back read_body
    unpack_header command_to_wire response_from_wire get lookup to_int truthy attachment with_frame
    error_from_payload class_in to_text
invoke-reported_example =
    invoke-reported ⦃rt = plain⦄ "app.launch" end none true refused_client
      (invoke_once ⦃rt = plain⦄ "app.launch" end none refused_client).1 failed_response late refl
      refl refl

abbrev runner_profile : ProvisioningProfile
runner_profile = record {
  uuid = codes "U";
  name = codes "Runner";
  team_id = codes "T";
  app_id = codes "T.a.xctrunner";
  expired = false;
  devices = codes "A" ∷ [];
}

agent_bundle_id_for_runner-signs_example :
    (required_app_id (codes "a") ≡ bundle_id_pattern runner_profile)
    × (signs_runner runner_profile (codes "a") ≡ true)
unfolding bundle_id_pattern agent_bundle_id_for_runner is_wildcard without_suffix ends_with
    starts_with after
agent_bundle_id_for_runner-signs_example =
    agent_bundle_id_for_runner-signs runner_profile (codes "a") refl refl

abbrev button : String → Node ℕ
button path =
    node
      (field "type" (str (codes "Button"))
        (field "identifier" (str (codes "save")) (field "path" (str (codes path)) end)))
      leaf

abbrev buttons : Node ℕ
buttons = node (field "path" (str (codes "0")) end) (also (button "0/0") (also (button "0/1") leaf))

best_locator-Best_example :
    Best (best_locator plain (button "0/1") buttons) (candidates plain (button "0/1") buttons)
best_locator-Best_example = best_locator-Best plain (button "0/1") buttons

index_among-Stands_example :
    Stands
      (some (str (codes "0/1")))
      0
      (of_type (codes "Button") (iter_nodes buttons))
      (index_among buttons (button "0/1"))
unfolding get
index_among-Stands_example = index_among-Stands buttons (button "0/1") refl

abbrev phone : Device ℕ
phone = record { client = client; has_session = false }

device_connect-Connected_example :
    Connected (connect ⦃rt = plain⦄ 1 phone.client) phone (device_connect ⦃rt = plain⦄ 1 phone)
device_connect-Connected_example = device_connect-Connected ⦃rt = plain⦄ 1 phone
