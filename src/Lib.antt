-- ===== src/Lib.antt =====
-- The Sandstorm iOS driver: a Python SDK that drives an agent inside an iOS device over a socket, an
-- inspector that records flows and suggests locators, and a controller that finds devices, builds
-- and starts the agent.
--
-- How the parts interact. A device (ios-sdk/sandstorm_ios/sdk/device.py) owns a client
-- (ios-sdk/sandstorm_ios/transport.py). The client dials the agent, sends a handshake, and then one
-- command at a time, in frames (protocol/framing.py) that hold JSON messages (protocol/messages.py);
-- an element is named by a selector (protocol/selector.py). A session (sdk/session.py) guards the
-- client; applications, pages and locators (sdk/application.py, sdk/page.py, sdk/locator.py) send its
-- commands. The inspector (ios-inspector/sandstorm_inspector) reads a snapshot of the element tree,
-- finds the element under a point, suggests locators and generates code of recorded steps; its window
-- (app.py) drives a device and the recorder by the events of its widgets. The controller
-- (ios-controller/sandstorm_controller) discovers devices, chooses one and a profile, builds the agent,
-- patches its environment into the test run, starts and restarts it under a supervisor, opens the
-- tunnel and ends runners that were left behind.
--
-- The modules:
-- - Prelude: numbers, lists, texts (lists of character codes) and the integers.
-- - Python: JSON values, exceptions as values with the classes of errors.py, and the record of
--   Python's own conversions, floats and codec, which the definitions take as an argument.
-- - Errors: errors.py, AGENT_ERROR_MAP and error_from_payload.
-- - Protocol.Framing, Protocol.Messages, Protocol.Selector: the files of that name in
--   ios-sdk/sandstorm_ios/protocol. `read_loop` is the loop of _read_exactly.
-- - Transport.Net, Transport.Client, Transport.Invoke: IOSControllerClient. A method is a function from
--   the client's fields to its result and the fields after it, in the order of the code's effects.
--   `connect_loop` and `invoke_loop` are the loops over the attempts, `await_reply` is the
--   `while True` of _invoke_once. Transport.Raises holds the rules by which a predicate on results
--   or states passes through the steps of a method.
-- - Protocol.Framing.Channel: a stream of frames as a queue. Transport.Invoke.Coherence: an invariant of
--   the client.
-- - Sdk.Session, Sdk.Device, Sdk.Application, Sdk.Page, Sdk.Locator: the files of ios-sdk/sandstorm_ios/sdk.
-- - Inspector.Tree and Inspector.HitTest: hierarchy.py. Inspector.Suggestion and
--   Inspector.Suggestion.Build: locators.py. Inspector.Recorder and Inspector.Recorder.Script:
--   recorder.py.
-- - Inspector.Window with Session, Actions, Handle and Opening: app.py. The window is the values that its widgets show;
--   an event is a signal with the answers of the user, and `handle` is the handler that is connected to
--   it, the state after it included where it raises.
-- - Controller.Devices and Controller.Discovery: devices.py. Controller.Profiles with Decoded: profiles.py.
--   Controller.Setup, Controller.Build and Controller.Build.Plist: build.py, with _plan_bundle_ids of cli.py. Controller.Cli:
--   cmd_setup, cmd_ping, main and the listings of cli.py. Controller.Stale: terminate_stale_runners of agent.py.
--   Controller.Agent: start_agent, and what is handed on. Controller.Tunnel: tunnel.py.
-- - Controller.Runner: AgentRunner of agent.py. `System` is its fields with the processes that it has
--   started and the places of its threads, and Controller.Runner.Steps.Step is one step of a thread, of
--   a process or of the clock. A run is any sequence of steps, with one call of start and one of stop
--   at most. The output of a process is taken to end only after the process has ended, and a process
--   that stop kills counts as ended from then on, although stop does not wait for it.
-- - Tests: the theorems at concrete inputs, and runs of the sample clients.
--
-- The network and the clock. A socket is a script of what its peer does: bytes that arrive, silence
-- until the timeout, failure; and what each write meets. A client holds the scripts of the dials to
-- come and the readings of the clock. No fact is assumed of either. A command of the controller is its
-- return code and output, which are given as well.
--
-- Bounds and fuel. `read_loop` has as fuel the bytes that it wants, and each round reads one at
-- least. `await_reply` has as fuel one more than the bytes to come, and each round takes the five
-- bytes of a header at least. Running out of either would be the exception `no_fuel`, which is none
-- of the program. The loops over attempts count down. Frame lengths are four bytes, big-endian, with
-- the division and remainder written out.
--
-- Not modelled: the lock of the client (it is used by one thread), logging, context managers, the
-- layout of the window and Qt itself, tools/generate_xcodeproj.py (a generator), the running of
-- subprocesses and the files of the controller (what they yield is an argument), the commands of cli.py
-- that only print or call other components, a list of pairs as the variables of a test target,
-- values of a snapshot's texts and paths that are neither texts nor missing, allocate_port and wait_for_port (socket I/O), and the agent
-- itself, which is written in Swift.
pub mod Prelude
pub mod Python
pub mod Errors
pub mod Protocol
pub mod Transport
pub mod Sdk
pub mod Inspector
pub mod Controller
pub mod Tests
