-- ===== src/Controller/Runner/Single.antt =====
-- No two processes of one `AgentRunner` run at the same time.
use sandstorm_ios_driver.Prelude.{ℕ, suc, ◌≡◌, ◌≢◌, Bool, true, false, none, some, String, arith}
use sandstorm_ios_driver.Prelude.Text.{Text}
use sandstorm_ios_driver.Controller.Runner.{
  alive, over, Main, fresh, waiting, judging, forwarding, ended, Supervisor, absent, woken, checked,
  counted, prepared, pausing, System, init, reset, launch, read_line, end_of_output, request_stop,
}
use sandstorm_ios_driver.Controller.Runner.Steps.{
  Step, prints, prints_late, exits, ends, no_build, spawns, cannot_spawn, waits_no_more, is_ready,
  is_late, no_tunnel, no_port, serves, stops, raises_flag, reads_process, terminates, clears, loops,
  hears, hears_nothing, checks_stop, checks_fatal, prepares, respawns, cannot_respawn, settles,
  resumes, Run, here, next,
}

-- Between the wait for a crash and the start of the next process, or after it has failed.
abbrev pub is_restarting : Supervisor → Bool
is_restarting woken = true
is_restarting checked = true
is_restarting counted = true
is_restarting prepared = true
is_restarting pausing = true
is_restarting _ = false

-- Behind the reset of `_spawn`, with no process started.
abbrev pub has_reset : Supervisor → Bool
has_reset prepared = true
has_reset pausing = true
has_reset _ = false

-- Before `start` has returned or called `stop`.
abbrev pub is_starting : Main → Bool
is_starting fresh = true
is_starting waiting = true
is_starting judging = true
is_starting forwarding = true
is_starting _ = false

abbrev pub is_ended : Main → Bool
is_ended (ended r) = true
is_ended _ = false

-- What holds of a process at every time: it is over unless it was started last; it is over when the
-- crash is known, while the supervisor restarts and before the first start; no crash is known after the reset; until `stop` is through
-- a process that runs is the runner's own.
pub record InvAt (p : ℕ) (s : System) : Type 0 where
  pub old : suc p ≢ s.spawned → s.phase p ≡ over
  pub known : s.crashed ≡ true → s.phase p ≡ over
  pub restarting : is_restarting s.supervisor ≡ true → s.phase p ≡ over
  pub cleared : has_reset s.supervisor ≡ true → s.crashed ≡ false
  pub before : s.main ≡ fresh → s.phase p ≡ over
  pub unsupervised : is_starting s.main ≡ true → s.supervisor ≡ absent
  pub own : s.phase p ≡ alive → is_ended s.main ≡ false → s.process ≡ some p

abbrev pub Inv : System → Type 0
Inv s = (p : ℕ) → InvAt p s

init-Inv : Inv init
init-Inv p = ground arith

module _ {search : String → Text → Bool} {auto_restart : Bool} where
  Step-Inv : {s t : System} → Inv s → Step search auto_restart s t → Inv t
  unfolding read_line end_of_output reset launch request_stop
  Step-Inv h (prints p line a e) q = rw e (ground (arith, h q))
  Step-Inv h (prints_late p line a e) q = rw e (ground (arith, h q))
  Step-Inv h (exits p a e) q = rw e (ground (arith, h q, h p))
  Step-Inv h (ends p a e) q = rw e (ground (arith, h q, h p))
  Step-Inv h (no_build a e) q = rw e (ground (arith, h q))
  Step-Inv h (spawns a e) q = rw e (ground (arith, h q))
  Step-Inv h (cannot_spawn a e) q = rw e (ground (arith, h q))
  Step-Inv h (waits_no_more a e) q = rw e (ground (arith, h q))
  Step-Inv h (is_ready a b e) q = rw e (ground (arith, h q))
  Step-Inv h (is_late a b e) q = rw e (ground (arith, h q))
  Step-Inv h (no_tunnel a e) q = rw e (ground (arith, h q))
  Step-Inv h (no_port a e) q = rw e (ground (arith, h q))
  Step-Inv h (serves a e) q = rw e (ground (arith, h q))
  Step-Inv h (stops a e) q = rw e (ground (arith, h q))
  Step-Inv h (raises_flag r a e) q = rw e (ground (arith, h q))
  Step-Inv h (reads_process r a e) q = rw e (ground (arith, h q))
  Step-Inv h (terminates r none a e) q = rw e (ground (arith, h q))
  Step-Inv h (terminates r (some p) a e) q = rw e (ground (arith, h q, h p))
  Step-Inv h (clears r a e) q = rw e (ground (arith, h q))
  Step-Inv h (loops a e) q = rw e (ground (arith, h q))
  Step-Inv h (hears a b e) q = rw e (ground (arith, h q))
  Step-Inv h (hears_nothing a e) q = rw e (ground (arith, h q))
  Step-Inv h (checks_stop a e) q = rw e (ground (arith, h q))
  Step-Inv h (checks_fatal a e) q = rw e (ground (arith, h q))
  Step-Inv h (prepares a e) q = rw e (ground (arith, h q))
  Step-Inv h (respawns a e) q = rw e (ground (arith, h q))
  Step-Inv h (cannot_respawn a e) q = rw e (ground (arith, h q))
  Step-Inv h (settles a e) q = rw e (ground (arith, h q))
  Step-Inv h (resumes a e) q = rw e (ground (arith, h q))

  pub Run-Inv : {s : System} → Run search auto_restart init s → Inv s
  Run-Inv here = init-Inv
  Run-Inv (next r st) = Step-Inv (Run-Inv r) st

  -- In every state that the runner, its supervisor and its processes reach, in any interleaving, at
  -- most one process runs.
  pub Run-single :
      {s : System} (p q : ℕ)
      → Run search auto_restart init s
      → s.phase p ≡ alive
      → s.phase q ≡ alive
      → p ≡ q
  Run-single p q r a b = ground (arith, Run-Inv r p, Run-Inv r q)
