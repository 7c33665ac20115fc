-- ===== src/Controller/Runner/Stop.antt =====
-- What `stop` leaves, against a supervisor that restarts meanwhile.
use sandstorm_ios_driver.Prelude.{
  ℕ, suc, ◌≡◌, ◌≢◌, refl, Bool, true, false, Option, none, some, String, ==_iff, arith,
}
use sandstorm_ios_driver.Prelude.Text.{Text}
use sandstorm_ios_driver.Controller.Runner.{
  alive, Main, stop_requested, reading, terminating, clearing, ended, Supervisor, absent, top,
  listening, woken, checked, counted, prepared, settling, pausing, gone, System, init, reset,
  launch, kill, read_line, end_of_output, request_stop,
}
use sandstorm_ios_driver.Controller.Runner.Steps.{
  Step, prints, prints_late, exits, ends, no_build, spawns, cannot_spawn, waits_no_more, is_ready,
  is_late, no_tunnel, no_port, serves, stops, raises_flag, reads_process, terminates, clears, loops,
  hears, hears_nothing, checks_stop, checks_fatal, prepares, respawns, cannot_respawn, settles,
  resumes, Run, here, next, Run-trans,
}
use sandstorm_ios_driver.Controller.Runner.Single.{Inv, Run-Inv, is_ended}

-- Past the test of `_stopping`, with a process still to start.
abbrev pub is_committed : Supervisor → Bool
is_committed checked = true
is_committed counted = true
is_committed prepared = true
is_committed _ = false

-- Behind the request of a stop.
abbrev is_past_request : Main → Bool
is_past_request (reading r) = true
is_past_request (terminating r o) = true
is_past_request (clearing r) = true
is_past_request (ended r) = true
is_past_request _ = false

-- The process that `stop` is about to end.
abbrev target : Main → Option ℕ → Option ℕ
target (reading r) process = process
target (terminating r o) process = o
target _ process = none

record CalmAt (n p : ℕ) (s : System) : Type 0 where
  pub flagged : s.stopping ≡ true
  pub uncommitted : is_committed s.supervisor ≡ false
  pub requested : is_past_request s.main ≡ true
  pub targeted : s.phase p ≡ alive → target s.main s.process ≡ some p
  pub unchanged : s.spawned ≡ n

abbrev Calm : ℕ → System → Type 0
Calm n s = (p : ℕ) → CalmAt n p s

module _ {search : String → Text → Bool} {auto_restart : Bool} {n : ℕ} where
  Step-Calm : {s t : System} → Calm n s → Step search auto_restart s t → Calm n t
  unfolding read_line end_of_output reset launch request_stop
  Step-Calm h (prints p line a e) q = rw e (ground (arith, h q))
  Step-Calm h (prints_late p line a e) q = rw e (ground (arith, h q))
  Step-Calm h (exits p a e) q = rw e (ground (arith, h q, h p))
  Step-Calm h (ends p a e) q = rw e (ground (arith, h q, h p))
  Step-Calm h (no_build a e) q = rw e (ground (arith, h q))
  Step-Calm h (spawns a e) q = rw e (ground (arith, h q))
  Step-Calm h (cannot_spawn a e) q = rw e (ground (arith, h q))
  Step-Calm h (waits_no_more a e) q = rw e (ground (arith, h q))
  Step-Calm h (is_ready a b e) q = rw e (ground (arith, h q))
  Step-Calm h (is_late a b e) q = rw e (ground (arith, h q))
  Step-Calm h (no_tunnel a e) q = rw e (ground (arith, h q))
  Step-Calm h (no_port a e) q = rw e (ground (arith, h q))
  Step-Calm h (serves a e) q = rw e (ground (arith, h q))
  Step-Calm h (stops a e) q = rw e (ground (arith, h q))
  Step-Calm h (raises_flag r a e) q = rw e (ground (arith, h q))
  Step-Calm h (reads_process r a e) q = rw e (ground (arith, h q))
  Step-Calm h (terminates r none a e) q = rw e (ground (arith, h q))
  Step-Calm h (terminates r (some p) a e) q = rw e (ground (arith, h q, h p))
  Step-Calm h (clears r a e) q = rw e (ground (arith, h q))
  Step-Calm h (loops a e) q = rw e (ground (arith, h q))
  Step-Calm h (hears a b e) q = rw e (ground (arith, h q))
  Step-Calm h (hears_nothing a e) q = rw e (ground (arith, h q))
  Step-Calm h (checks_stop a e) q = rw e (ground (arith, h q))
  Step-Calm h (checks_fatal a e) q = rw e (ground (arith, h q))
  Step-Calm h (prepares a e) q = rw e (ground (arith, h q))
  Step-Calm h (respawns a e) q = rw e (ground (arith, h q))
  Step-Calm h (cannot_respawn a e) q = rw e (ground (arith, h q))
  Step-Calm h (settles a e) q = rw e (ground (arith, h q))
  Step-Calm h (resumes a e) q = rw e (ground (arith, h q))

  Run-Calm : {s t : System} → Calm n s → Run search auto_restart s t → Calm n t
  Run-Calm h here = h
  Run-Calm h (next r st) = Step-Calm (Run-Calm h r) st

request_stop-Calm :
    {s : System} (r : Bool)
    → Inv s
    → s.main ≡ stop_requested r
    → is_committed s.supervisor ≡ false
    → Calm s.spawned (request_stop r s)
unfolding request_stop
request_stop-Calm r h e f p = ground (arith, h p)

-- A run from `s` in which the supervisor starts a process and `stop` goes no further.
abbrev Restarts : (String → Text → Bool) → Bool → System → Type 0
Restarts search auto_restart s =
    (t : System) × Run search auto_restart s t
    × (t.main ≡ s.main)
    × (t.stopping ≡ s.stopping)
    × (t.phase s.spawned ≡ alive)

module _ {search : String → Text → Bool} {auto_restart : Bool} where
  -- If the supervisor is not past its test of `_stopping` when `stop` sets the flag, no process is
  -- started any more, and when `stop` is through no process runs, in any interleaving.
  pub stop-clean :
      {s t : System} (r : Bool) (p : ℕ)
      → Run search auto_restart init s
      → s.main ≡ stop_requested r
      → is_committed s.supervisor ≡ false
      → Run search auto_restart (request_stop r s) t
      → is_ended t.main ≡ true
      → (t.spawned ≡ s.spawned) × (t.phase p ≢ alive)
  stop-clean r p q e f later done =
      ground (arith, Run-Calm (request_stop-Calm r (Run-Inv q) e f) later p)

  -- The rest of `stop`.
  stop-Run :
      (s : System) (r : Bool)
      → s.main ≡ reading r
      → Run search auto_restart s
          (record s { phase = kill s.process s.phase; process = none; main = ended r })
  stop-Run s r e =
      next (next (next here (reads_process r e refl)) (terminates r s.process refl refl))
        (clears r refl refl)

  prepared-Restarts : (s : System) → s.supervisor ≡ prepared → Restarts search auto_restart s
  unfolding launch
  prepared-Restarts s e = (
    record (launch s) { supervisor = settling },
    next here (respawns e refl),
    refl,
    refl,
    rw ((==_iff s.spawned s.spawned).1 refl) refl,
  )

  counted-Restarts : (s : System) → s.supervisor ≡ counted → Restarts search auto_restart s
  unfolding reset
  counted-Restarts s e =
      let (t, run, is_main, is_stopping, runs) =
        prepared-Restarts (record (reset s) { supervisor = prepared }) refl in
      (t, Run-trans _ _ (next here (prepares e refl)) run, is_main, is_stopping, runs)

  checked-Restarts :
      (s : System) → s.supervisor ≡ checked → s.fatal ≡ none → Restarts search auto_restart s
  checked-Restarts s e f =
      let s₁ : System = record s { supervisor = counted; restarts = suc s.restarts } in
      let (t, run, is_main, is_stopping, runs) = counted-Restarts s₁ refl in
      (t, Run-trans _ _ (next here (checks_fatal e (rw f refl))) run, is_main, is_stopping, runs)

  -- From each place past the test of `_stopping`.
  committed-Restarts :
      (v : Supervisor) (s : System)
      → s.supervisor ≡ v
      → is_committed v ≡ true
      → (v ≡ checked → s.fatal ≡ none)
      → Restarts search auto_restart s
  committed-Restarts prepared s e c f = prepared-Restarts s e
  committed-Restarts counted s e c f = counted-Restarts s e
  committed-Restarts checked s e c f = checked-Restarts s e (f refl)
  committed-Restarts absent s e c f = absurd (ground arith)
  committed-Restarts top s e c f = absurd (ground arith)
  committed-Restarts listening s e c f = absurd (ground arith)
  committed-Restarts woken s e c f = absurd (ground arith)
  committed-Restarts settling s e c f = absurd (ground arith)
  committed-Restarts pausing s e c f = absurd (ground arith)
  committed-Restarts gone s e c f = absurd (ground arith)

  -- If the supervisor is past that test when `stop` sets the flag, with its process still to start
  -- and no fatal error where it still looks for one, then a run leads to a state in which `stop` is
  -- through and a process runs that the supervisor has started since.
  pub stop-leaves :
      {s : System} (r : Bool)
      → Run search auto_restart init s
      → s.main ≡ stop_requested r
      → is_committed s.supervisor ≡ true
      → (s.supervisor ≡ checked → s.fatal ≡ none)
      → (t : System) × Run search auto_restart init t
        × Run search auto_restart (request_stop r s) t
        × (is_ended t.main ≡ true)
        × (t.stopping ≡ true)
        × (t.phase s.spawned ≡ alive)
  unfolding request_stop
  stop-leaves {s} r q e c f =
      let s₁ : System = request_stop r s in
      let s₂ : System = record s₁ {
        phase = kill s.process s.phase;
        process = none;
        main = ended r;
      } in
      let (t, run, is_main, is_stopping, runs) = committed-Restarts s.supervisor s₂ refl c f in
      let later : Run search auto_restart s₁ t = Run-trans _ _ (stop-Run s₁ r refl) run in
      let whole : Run search auto_restart init t =
        Run-trans _ _ (next q (raises_flag r e refl)) later in
      (t, whole, later, rw is_main refl, is_stopping, runs)
