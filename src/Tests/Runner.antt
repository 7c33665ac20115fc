-- ===== src/Tests/Runner.antt =====
-- A run of `AgentRunner` for the theorems about it: the agent is started and gets ready, its process
-- ends, and the supervisor cannot start another one.
use sandstorm_ios_driver.Prelude.{ℕ, ◌≡◌, ◌≢◌, refl, String, Bool, true, false, none, some, []}
use sandstorm_ios_driver.Prelude.Text.{Text}
use text.Mathlib.Text.{◌==◌ as str_eq}
use sandstorm_ios_driver.Controller.Runner.{
  alive, drained, over, waiting, judging, serving, stop_requested, ended, top, listening, checked,
  pausing, System, init, update, reset, launch, kill, read_line, first_hint, end_of_output,
  request_stop, ready_pattern,
}
use sandstorm_ios_driver.Controller.Runner.Steps.{
  prints, exits, ends, spawns, waits_no_more, is_ready, serves, stops, reads_process, terminates,
  clears, loops, hears, checks_stop, checks_fatal, prepares, cannot_respawn, resumes, Run, here,
  next,
}
use sandstorm_ios_driver.Controller.Runner.Single.{Run-single, is_ended}
use sandstorm_ios_driver.Controller.Runner.Halt.{Run-pausing, Run-fatal}
use sandstorm_ios_driver.Controller.Runner.Stop.{stop-clean, stop-leaves}
use sandstorm_ios_driver.Controller.Runner.Recover.{Run-recovers}

-- Each line is the one that says READY.
abbrev only_ready : String → Text → Bool
only_ready pattern_text line = str_eq pattern_text ready_pattern

-- Each line matches each pattern.
abbrev every_pattern : String → Text → Bool
every_pattern pattern_text line = true

abbrev launched : System
unfolding launch reset
launched = record (launch (reset init)) { main = waiting }

module _ (search : String → Text → Bool) where
  abbrev judged : System
  unfolding read_line first_hint
  judged = record (read_line search [] launched) { main = judging }

  abbrev served : System
  served = record judged { main = serving; supervisor = top }

  abbrev crashed_ : System
  unfolding end_of_output
  crashed_ =
      end_of_output 0
        (record served { supervisor = listening; phase = update served.phase 0 drained })

  to_judged : Run search true init judged
  unfolding launch reset read_line first_hint
  to_judged =
      next (next (next here (spawns refl refl)) (prints 0 [] refl refl)) (waits_no_more refl refl)

  to_listening :
      judged.ready ≡ true → Run search true init (record served { supervisor = listening })
  unfolding launch reset read_line first_hint
  to_listening r =
      next (next (next to_judged (is_ready refl r refl)) (serves refl refl)) (loops refl refl)

  to_crashed : judged.ready ≡ true → Run search true init crashed_
  unfolding launch reset read_line first_hint end_of_output
  to_crashed r = next (next (to_listening r) (exits 0 refl refl)) (ends 0 refl refl)

Run-single_example : ◌≡◌ {A = ℕ} 0 0
unfolding launch reset read_line first_hint
Run-single_example = Run-single 0 0 (to_judged only_ready) refl refl

-- The second start fails.
abbrev paused : System
unfolding reset launch read_line end_of_output first_hint
paused = record (reset (record (crashed_ only_ready) { restarts = 1 })) { supervisor = pausing }

to_paused : Run only_ready true init paused
unfolding launch reset read_line first_hint end_of_output
to_paused =
    next
      (next
        (next
          (next (next (to_crashed only_ready refl) (hears refl refl refl)) (checks_stop refl refl))
          (checks_fatal refl refl))
        (prepares refl refl))
      (cannot_respawn refl refl)

Run-pausing_example : (paused.spawned ≡ 1) × (paused.phase 0 ≡ over)
unfolding launch reset read_line first_hint end_of_output
Run-pausing_example =
    Run-pausing {t = record paused { supervisor = top }} 0 to_paused refl
      (next here (resumes refl refl))

Run-fatal_example :
    ((crashed_ every_pattern).spawned ≡ 1) × ((crashed_ every_pattern).phase 0 ≡ over)
unfolding launch reset read_line first_hint end_of_output
Run-fatal_example = Run-fatal 0 (to_crashed every_pattern refl) refl refl refl here

-- `stop` while the supervisor listens.
abbrev stopping_ : System
stopping_ = record (served only_ready) { supervisor = listening; main = stop_requested false }

to_stopping : Run only_ready true init stopping_
unfolding launch reset read_line first_hint
to_stopping = next (to_listening only_ready refl) (stops refl refl)

abbrev stopped : System
unfolding request_stop launch reset read_line first_hint
stopped = record (request_stop false stopping_) {
  phase = kill stopping_.process stopping_.phase;
  process = none;
  main = ended false;
}

stop-clean_example : (stopped.spawned ≡ 1) × (stopped.phase 0 ≢ alive)
unfolding launch reset read_line first_hint request_stop
stop-clean_example =
    stop-clean {t = stopped} false 0 to_stopping refl refl
      (next (next (next here (reads_process false refl refl)) (terminates false (some 0) refl refl))
        (clears false refl refl))
      refl

-- `stop` while the supervisor restarts, past its test of `_stopping`.
abbrev racing : System
unfolding launch reset read_line first_hint end_of_output
racing = record (crashed_ only_ready) { supervisor = checked; main = stop_requested false }

to_racing : Run only_ready true init racing
unfolding launch reset read_line first_hint end_of_output
to_racing =
    next (next (next (to_crashed only_ready refl) (hears refl refl refl)) (checks_stop refl refl))
      (stops refl refl)

stop-leaves_example :
    (t : System) × Run only_ready true init t
    × Run only_ready true (request_stop false racing) t
    × (is_ended t.main ≡ true)
    × (t.stopping ≡ true)
    × (t.phase racing.spawned ≡ alive)
unfolding launch reset read_line first_hint end_of_output
stop-leaves_example = stop-leaves false to_racing refl refl (λ e. refl)

abbrev serving_ : System
serving_ = record (served only_ready) { supervisor = listening }

Run-recovers_example :
    (t : System) × Run only_ready true serving_ t
    × (t.phase 1 ≡ alive)
    × (t.process ≡ some 1)
    × (t.restarts ≡ 1)
    × (t.supervisor ≡ top)
unfolding launch reset read_line first_hint
Run-recovers_example = Run-recovers serving_ 0 refl refl refl refl
