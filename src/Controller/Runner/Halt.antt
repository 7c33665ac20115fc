-- ===== src/Controller/Runner/Halt.antt =====
-- When the supervisor starts no further process.
use sandstorm_ios_driver.Prelude.{ℕ, ◌≡◌, Bool, true, false, Option, none, some, String, ◌⊎◌, arith}
use sandstorm_ios_driver.Prelude.Text.{Text}
use sandstorm_ios_driver.Controller.Runner.{
  over, Main, fresh, Supervisor, absent, top, listening, woken, checked, pausing, gone, System,
  init, reset, launch, read_line, end_of_output, request_stop,
}
use sandstorm_ios_driver.Controller.Runner.Steps.{
  Step, prints, prints_late, exits, ends, no_build, spawns, cannot_spawn, waits_no_more, is_ready,
  is_late, no_tunnel, no_port, serves, stops, raises_flag, reads_process, terminates, clears, loops,
  hears, hears_nothing, checks_stop, checks_fatal, prepares, respawns, cannot_respawn, settles,
  resumes, Run, here, next, Run-trans,
}
use sandstorm_ios_driver.Controller.Runner.Single.{Inv, Run-Inv}

abbrev is_some : {A : Type 0} → Option A → Bool
is_some none = false
is_some (some a) = true

-- Waiting for a crash, or on the way back to it, or at the end.
abbrev is_idle : Supervisor → Bool
is_idle absent = true
is_idle pausing = true
is_idle top = true
is_idle listening = true
is_idle gone = true
is_idle _ = false

-- Before the restarts are counted, or at the end.
abbrev is_undecided : Supervisor → Bool
is_undecided absent = true
is_undecided top = true
is_undecided listening = true
is_undecided woken = true
is_undecided checked = true
is_undecided gone = true
is_undecided _ = false

abbrev is_fresh : Main → Bool
is_fresh fresh = true
is_fresh _ = false

-- No process is left, and either no crash is to be heard of or a fatal error stands.
record HaltAt (n p : ℕ) (s : System) : Type 0 where
  pub over_ : s.phase p ≡ over
  pub begun : is_fresh s.main ≡ false
  pub unchanged : s.spawned ≡ n
  pub stuck :
      ((is_idle s.supervisor ≡ true) × (s.crashed ≡ false))
      ⊎ ((is_undecided s.supervisor ≡ true) × (is_some s.fatal ≡ true))

abbrev Halt : ℕ → System → Type 0
Halt n s = (p : ℕ) → HaltAt n p s

module _ {search : String → Text → Bool} {auto_restart : Bool} {n : ℕ} where
  Step-Halt : {s t : System} → Halt n s → Inv s → Step search auto_restart s t → Halt n t
  unfolding read_line end_of_output reset launch request_stop
  Step-Halt h k (prints p line a e) q = rw e (ground (arith, h q, k q))
  Step-Halt h k (prints_late p line a e) q = rw e (ground (arith, h q, k q))
  Step-Halt h k (exits p a e) q = rw e (ground (arith, h q, h p, k q))
  Step-Halt h k (ends p a e) q = rw e (ground (arith, h q, h p, k q))
  Step-Halt h k (no_build a e) q = rw e (ground (arith, h q, k q))
  Step-Halt h k (spawns a e) q = rw e (ground (arith, h q, k q))
  Step-Halt h k (cannot_spawn a e) q = rw e (ground (arith, h q, k q))
  Step-Halt h k (waits_no_more a e) q = rw e (ground (arith, h q, k q))
  Step-Halt h k (is_ready a b e) q = rw e (ground (arith, h q, k q))
  Step-Halt h k (is_late a b e) q = rw e (ground (arith, h q, k q))
  Step-Halt h k (no_tunnel a e) q = rw e (ground (arith, h q, k q))
  Step-Halt h k (no_port a e) q = rw e (ground (arith, h q, k q))
  Step-Halt h k (serves a e) q = rw e (ground (arith, h q, k q))
  Step-Halt h k (stops a e) q = rw e (ground (arith, h q, k q))
  Step-Halt h k (raises_flag r a e) q = rw e (ground (arith, h q, k q))
  Step-Halt h k (reads_process r a e) q = rw e (ground (arith, h q, k q))
  Step-Halt h k (terminates r none a e) q = rw e (ground (arith, h q, k q))
  Step-Halt h k (terminates r (some p) a e) q = rw e (ground (arith, h q, h p, k q))
  Step-Halt h k (clears r a e) q = rw e (ground (arith, h q, k q))
  Step-Halt h k (loops a e) q = rw e (ground (arith, h q, k q))
  Step-Halt h k (hears a b e) q = rw e (ground (arith, h q, k q))
  Step-Halt h k (hears_nothing a e) q = rw e (ground (arith, h q, k q))
  Step-Halt h k (checks_stop a e) q = rw e (ground (arith, h q, k q))
  Step-Halt h k (checks_fatal a e) q = rw e (ground (arith, h q, k q))
  Step-Halt h k (prepares a e) q = rw e (ground (arith, h q, k q))
  Step-Halt h k (respawns a e) q = rw e (ground (arith, h q, k q))
  Step-Halt h k (cannot_respawn a e) q = rw e (ground (arith, h q, k q))
  Step-Halt h k (settles a e) q = rw e (ground (arith, h q, k q))
  Step-Halt h k (resumes a e) q = rw e (ground (arith, h q, k q))

  Run-Halt :
      {s t : System}
      → Halt n s
      → Run search auto_restart init s
      → Run search auto_restart s t
      → Halt n t
  Run-Halt h r here = h
  Run-Halt h r (next st last) = Step-Halt (Run-Halt h r st) (Run-Inv (Run-trans _ _ r st)) last

pausing-Halt : {s : System} → Inv s → s.supervisor ≡ pausing → Halt s.spawned s
pausing-Halt h e p = ground (arith, h p)

fatal-Halt :
    {s : System} {hint : String}
    → Inv s
    → s.supervisor ≡ listening
    → s.crashed ≡ true
    → s.fatal ≡ some hint
    → Halt s.spawned s
fatal-Halt h e f k p = ground (arith, h p)

module _ {search : String → Text → Bool} {auto_restart : Bool} where
  -- Once the supervisor has failed to start a process (it pauses), no process is ever started again,
  -- in any interleaving, and none runs: the supervisor waits for a crash that was cleared.
  pub Run-pausing :
      {s t : System} (p : ℕ)
      → Run search auto_restart init s
      → s.supervisor ≡ pausing
      → Run search auto_restart s t
      → (t.spawned ≡ s.spawned) × (t.phase p ≡ over)
  Run-pausing p r e q = ground (arith, Run-Halt (pausing-Halt (Run-Inv r) e) r q p)

  -- If the crash of a process is known together with a fatal error while the supervisor listens, no
  -- process is ever started again, in any interleaving, and none runs.
  pub Run-fatal :
      {s t : System} {hint : String} (p : ℕ)
      → Run search auto_restart init s
      → s.supervisor ≡ listening
      → s.crashed ≡ true
      → s.fatal ≡ some hint
      → Run search auto_restart s t
      → (t.spawned ≡ s.spawned) × (t.phase p ≡ over)
  Run-fatal p r e f k q = ground (arith, Run-Halt (fatal-Halt (Run-Inv r) e f k) r q p)
