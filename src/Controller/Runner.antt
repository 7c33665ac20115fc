-- ===== src/Controller/Runner.antt =====
-- `AgentRunner` of ios-controller/sandstorm_controller/agent.py: its fields, the processes that it
-- starts, and the three threads that share them, a step at a time. A runner is started once and
-- stopped once at most. The output of a process is taken to end only after the process has ended,
-- and a process that `stop` kills counts as ended from then on, although `stop` does not wait for it.
pub mod Steps
pub mod Single
pub mod Halt
pub mod Stop
pub mod Recover
use sandstorm_ios_driver.Prelude.{
  ℕ, suc, ◌+◌, ◌≡◌, ◌==◌, String, Bool, true, false, not, ◌||◌, Option, none, some, List, [], ◌∷◌,
  if◌then◌else◌,
}
use sandstorm_ios_driver.Prelude.Text.{Text}

-- A process with the thread that reads its output: the process runs; it has ended and its output is
-- still read; the thread has ended. A process that was not started yet is `over` too.
pub data Phase : Type 0 where
  alive drained over : Phase

-- Where the thread stands that calls `start` and `stop`. The flag says whether `start` raises after
-- the `stop`; `reading` is behind the assignment of `_stopping`; `terminating` holds the local variable `process` of `stop`.
pub data Main : Type 0 where
  fresh waiting judging forwarding serving : Main
  stop_requested : Bool → Main
  reading : Bool → Main
  terminating : Bool → Option ℕ → Main
  clearing : Bool → Main
  ended : Bool → Main

-- Where the supervisor stands: not started; at the test of the loop; in the wait for a crash; after
-- it; past the test of `_stopping`; past the count; past the reset in `_spawn`; in the wait for
-- READY; in the pause after a failure; at its end.
pub data Supervisor : Type 0 where
  absent top listening woken checked counted prepared settling pausing gone : Supervisor

pub record System : Type 0 where
  pub ready : Bool
  pub crashed : Bool
  pub stopping : Bool
  pub fatal : Option String
  pub restarts : ℕ
  pub process : Option ℕ
  pub spawned : ℕ
  pub phase : ℕ → Phase
  pub main : Main
  pub supervisor : Supervisor

abbrev pub init : System
init = record {
  ready = false;
  crashed = false;
  stopping = false;
  fatal = none;
  restarts = 0;
  process = none;
  spawned = 0;
  phase = λ p. over;
  main = fresh;
  supervisor = absent;
}

-- The map with one process in another phase.
abbrev pub update : (ℕ → Phase) → ℕ → Phase → ℕ → Phase
update f p x q = if q == p then x else f q

-- `_spawn` up to the start of the process: the events are cleared and the error is dropped.
unfoldable pub reset : System → System
reset s = record s { ready = false; crashed = false; fatal = none }

-- The rest of `_spawn`: a new process, and the thread that reads its output.
unfoldable pub launch : System → System
launch s = record s {
  process = some s.spawned;
  spawned = suc s.spawned;
  phase = update s.phase s.spawned alive;
}

-- The process of `stop`, terminated or killed if it still runs.
abbrev ended_phase : Phase → Phase
ended_phase alive = drained
ended_phase x = x

abbrev pub kill : Option ℕ → (ℕ → Phase) → ℕ → Phase
kill none f = f
kill (some p) f = update f p (ended_phase (f p))

-- FATAL_PATTERNS, with the message of each.
abbrev pub fatal_patterns : List (String × String)
fatal_patterns =
    (
      "Developer App Certificate is not trusted|profile has not been explicitly trusted",
      "The agent is installed but iOS will not launch it: the developer certificate is not trusted on the device. On the iPhone open Settings -> General -> VPN & Device Management -> your Apple ID -> Trust, then run `sandstorm ios start` again.",
    )
    ∷ (
      "device is locked|passcode-protected and locked",
      "The device is locked. Unlock the iPhone (and disable auto-lock) and try again.",
    )
    ∷ (
      "Developer Mode disabled|developer mode is not enabled",
      "Developer Mode is off. Enable Settings -> Privacy & Security -> Developer Mode, reboot, then try again.",
    )
    ∷ (
      "No profiles for .* were found|requires a provisioning profile",
      "Signing failed: no provisioning profile for the agent bundle id. Re-run `sandstorm ios setup --udid <UDID>` with a valid Apple ID signed into Xcode.",
    )
    ∷ []

abbrev pub ready_pattern : String
ready_pattern = "SANDSTORM_AGENT_READY port=(\\d+)"

-- `re.search` is given.
module _ (search : String → Text → Bool) where
  -- The message of the first pattern that the line matches, or what was there.
  unfoldable pub first_hint : List (String × String) → Text → Option String → Option String
  first_hint [] line before = before
  first_hint ((pattern_text, hint) ∷ rest) line before =
      if search pattern_text line then some hint else first_hint rest line before

  -- The loop body of `_pump_output`, up to the logging.
  unfoldable pub read_line : Text → System → System
  unfolding first_hint
  read_line line s = record s {
    ready = s.ready || search ready_pattern line;
    fatal = first_hint fatal_patterns line s.fatal;
  }

-- The end of `_pump_output`, of this process.
unfoldable pub end_of_output : ℕ → System → System
end_of_output p s = record s {
  crashed = s.crashed || not s.stopping;
  phase = update s.phase p over;
}

-- The first assignment of `stop`.
unfoldable pub request_stop : Bool → System → System
request_stop r s = record s { stopping = true; main = reading r }

-- The supervisor's tests, each with the place where it goes on.
abbrev pub if_running : Bool → Supervisor → Supervisor
if_running stopping next = if stopping then gone else next

abbrev pub if_restartable : Option String → Supervisor
if_restartable none = counted
if_restartable (some hint) = gone

abbrev pub add_restart : Option String → ℕ → ℕ
add_restart none n = suc n
add_restart (some hint) n = n

abbrev pub started : Bool → Supervisor
started auto_restart = if auto_restart then top else absent
