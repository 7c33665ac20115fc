-- ===== src/Tests/Runs.antt =====
-- The runs of the tests: the sample clients connect and get their reply.
use sandstorm_ios_driver.Prelude.{◌≡◌, refl, Bool, true, false, none}
use sandstorm_ios_driver.Prelude.Text.{text_eq}
use sandstorm_ios_driver.Python.Json.{get, end}
use sandstorm_ios_driver.Python.Exception.{Except, ok, err}
use sandstorm_ios_driver.Python.Runtime.{lookup, to_float, to_int, to_text, truthy}
use sandstorm_ios_driver.Protocol.Framing.{
  encode_frame, pack_header, read_frame, read_exactly, read_loop, checked_chunk, recv, put_back,
  read_body, unpack_header,
}
use sandstorm_ios_driver.Protocol.Framing.Stream.{size}
use sandstorm_ios_driver.Protocol.Messages.{
  build_handshake_request, command_to_wire, device_from_wire, handshake_from_wire,
  response_from_wire,
}
use sandstorm_ios_driver.Transport.Net.{sendall}
use sandstorm_ios_driver.Transport.Client.{
  send_json, monotonic, client_read, accept_handshake, check_reply, close, connect, connect_loop,
  connect_once, open_socket, perform_handshake, retries_connect, is_connected, is_lost,
}
use sandstorm_ios_driver.Transport.Invoke.{
  invoke, invoke_loop, try_once, checked, invoke_once, await_reply, read_response, attachment,
  with_frame, ping, reconnect,
}
use sandstorm_ios_driver.Sdk.Session.{session_ping, session_stop_agent, session_invoke}
use sandstorm_ios_driver.Tests.Samples.{plain, client, replying, redialling}

abbrev succeeds : {F A S : Type 0} → Except F A × S → Bool
succeeds (ok a, s) = true
succeeds (err e, s) = false

test_invoke : succeeds (invoke ⦃rt = plain⦄ "app.launch" end none true replying) ≡ true
unfolding invoke invoke_loop try_once checked invoke_once send_json encode_frame pack_header sendall
    monotonic await_reply read_response client_read read_frame read_exactly read_loop checked_chunk
    recv text_eq size put_back read_body unpack_header command_to_wire response_from_wire get lookup
    to_int truthy attachment with_frame
test_invoke = refl

test_connect : succeeds (connect ⦃rt = plain⦄ 2 client) ≡ true
unfolding connect connect_loop connect_once open_socket perform_handshake check_reply
    accept_handshake retries_connect close send_json encode_frame pack_header sendall client_read
    read_frame read_exactly read_loop checked_chunk recv text_eq size put_back read_body
    unpack_header build_handshake_request handshake_from_wire device_from_wire get lookup to_int
    to_text to_float truthy
test_connect = refl

-- After `stop_agent`, `ping` dials again and is answered.
test_ping_stopped :
    succeeds (session_ping ⦃rt = plain⦄ (session_stop_agent ⦃rt = plain⦄ redialling)) ≡ true
unfolding session_ping session_stop_agent session_invoke is_connected ping invoke invoke_loop
    try_once checked invoke_once await_reply read_response attachment with_frame connect
    connect_loop connect_once open_socket perform_handshake check_reply accept_handshake
    retries_connect close send_json encode_frame pack_header sendall monotonic client_read
    read_frame read_exactly read_loop checked_chunk recv text_eq size put_back read_body
    unpack_header command_to_wire response_from_wire build_handshake_request handshake_from_wire
    device_from_wire get lookup to_int to_text to_float truthy is_lost reconnect
test_ping_stopped = refl
