-- ===== src/Controller/Runner/Steps.antt =====
-- The interleavings of the threads of `AgentRunner`, the processes and the clock.
use sandstorm_ios_driver.Prelude.{ℕ, ◌≡◌, Bool, true, false, Option, none, String}
use sandstorm_ios_driver.Prelude.Text.{Text}
use sandstorm_ios_driver.Controller.Runner.{
  alive, drained, fresh, waiting, judging, forwarding, serving, stop_requested, reading,
  terminating, clearing, ended, top, listening, woken, checked, counted, prepared, settling,
  pausing, System, update, reset, launch, kill, read_line, end_of_output, request_stop, if_running,
  if_restartable, add_restart, started,
}

module _ (search : String → Text → Bool) (auto_restart : Bool) where
  -- A step to `t`. The environment decides what a process prints and when it ends, when a wait runs
  -- out of time, whether a build is found, a process can be started and the port answers.
  pub data Step (s t : System) : Type 0 where
    -- the process that runs, and the thread that reads its output to the end
    prints : (p : ℕ) (line : Text) → s.phase p ≡ alive → t ≡ read_line search line s → Step s t
    prints_late :
        (p : ℕ) (line : Text) → s.phase p ≡ drained → t ≡ read_line search line s → Step s t
    exits :
        (p : ℕ) → s.phase p ≡ alive → t ≡ record s { phase = update s.phase p drained } → Step s t
    ends : (p : ℕ) → s.phase p ≡ drained → t ≡ end_of_output p s → Step s t
    -- `start`
    no_build : s.main ≡ fresh → t ≡ record s { main = ended true } → Step s t
    spawns : s.main ≡ fresh → t ≡ record (launch (reset s)) { main = waiting } → Step s t
    cannot_spawn : s.main ≡ fresh → t ≡ record (reset s) { main = ended true } → Step s t
    waits_no_more : s.main ≡ waiting → t ≡ record s { main = judging } → Step s t
    is_ready : s.main ≡ judging → s.ready ≡ true → t ≡ record s { main = forwarding } → Step s t
    is_late :
        s.main ≡ judging → s.ready ≡ false → t ≡ record s { main = stop_requested true } → Step s t
    -- `open_tunnel` raises, and `start` with it, without a `stop`
    no_tunnel : s.main ≡ forwarding → t ≡ record s { main = ended true } → Step s t
    no_port : s.main ≡ forwarding → t ≡ record s { main = stop_requested true } → Step s t
    serves :
        s.main ≡ forwarding
        → t ≡ record s { main = serving; supervisor = started auto_restart }
        → Step s t
    -- `stop`
    stops : s.main ≡ serving → t ≡ record s { main = stop_requested false } → Step s t
    raises_flag : (r : Bool) → s.main ≡ stop_requested r → t ≡ request_stop r s → Step s t
    reads_process :
        (r : Bool) → s.main ≡ reading r → t ≡ record s { main = terminating r s.process } → Step s t
    terminates :
        (r : Bool) (o : Option ℕ)
        → s.main ≡ terminating r o
        → t ≡ record s { phase = kill o s.phase; main = clearing r }
        → Step s t
    clears :
        (r : Bool)
        → s.main ≡ clearing r
        → t ≡ record s { process = none; main = ended r }
        → Step s t
    -- `supervise`
    loops :
        s.supervisor ≡ top
        → t ≡ record s { supervisor = if_running s.stopping listening }
        → Step s t
    hears :
        s.supervisor ≡ listening → s.crashed ≡ true → t ≡ record s { supervisor = woken } → Step s t
    hears_nothing : s.supervisor ≡ listening → t ≡ record s { supervisor = top } → Step s t
    checks_stop :
        s.supervisor ≡ woken
        → t ≡ record s { supervisor = if_running s.stopping checked }
        → Step s t
    checks_fatal :
        s.supervisor ≡ checked
        → t ≡ record s {
          supervisor = if_restartable s.fatal;
          restarts = add_restart s.fatal s.restarts;
        }
        → Step s t
    prepares : s.supervisor ≡ counted → t ≡ record (reset s) { supervisor = prepared } → Step s t
    respawns : s.supervisor ≡ prepared → t ≡ record (launch s) { supervisor = settling } → Step s t
    cannot_respawn : s.supervisor ≡ prepared → t ≡ record s { supervisor = pausing } → Step s t
    settles : s.supervisor ≡ settling → t ≡ record s { supervisor = top } → Step s t
    resumes : s.supervisor ≡ pausing → t ≡ record s { supervisor = top } → Step s t

  pub data Run (s : System) : System → Type 0 where
    here : Run s s
    next : {t u : System} → Run s t → Step t u → Run s u

  -- A run followed by a run.
  pub Run-trans : {s t u : System} → Run s t → Run t u → Run s u
  Run-trans r here = r
  Run-trans r (next q st) = next (Run-trans r q) st
