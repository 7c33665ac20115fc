-- ===== src/Controller/Runner/Recover.antt =====
-- The supervisor brings a crashed agent back.
use sandstorm_ios_driver.Prelude.{
  ℕ, suc, ◌≡◌, refl, Bool, true, false, none, some, String, ==_iff, arith,
}
use sandstorm_ios_driver.Prelude.Text.{Text}
use sandstorm_ios_driver.Controller.Runner.{
  alive, drained, top, listening, woken, checked, counted, prepared, settling, System, update,
  reset, launch, end_of_output,
}
use sandstorm_ios_driver.Controller.Runner.Steps.{
  exits, ends, hears, checks_stop, checks_fatal, prepares, respawns, settles, Run, here, next,
}

-- The states between, named for the step that led there.
module _ (s : System) (p : ℕ) where
  abbrev exited : System
  exited = record s { phase = update s.phase p drained }

  abbrev crashed_ : System
  crashed_ = end_of_output p exited

  abbrev respawned : System
  respawned =
      record (launch (record (reset (record crashed_ { restarts = suc s.restarts })) {
        supervisor = prepared;
      })) { supervisor = settling }

module _ {search : String → Text → Bool} {auto_restart : Bool} where
  -- If the process ends while the supervisor listens, no stop was requested and no fatal error
  -- stands, then a run leads to the state in which a new process runs, is the runner's own and
  -- counts as a restart, with the supervisor back at its loop.
  pub Run-recovers :
      (s : System) (p : ℕ)
      → s.phase p ≡ alive
      → s.supervisor ≡ listening
      → s.stopping ≡ false
      → s.fatal ≡ none
      → (t : System) × Run search auto_restart s t
        × (t.phase s.spawned ≡ alive)
        × (t.process ≡ some s.spawned)
        × (t.restarts ≡ suc s.restarts)
        × (t.supervisor ≡ top)
  unfolding end_of_output reset launch
  Run-recovers s p a l f k =
      let s₁ : System = exited s p in
      let s₂ : System = crashed_ s p in
      let s₃ : System = record s₂ { supervisor = woken } in
      let s₄ : System = record s₂ { supervisor = checked } in
      let s₅ : System = record s₂ { supervisor = counted; restarts = suc s.restarts } in
      let s₆ : System = record (reset s₅) { supervisor = prepared } in
      let s₇ : System = respawned s p in
      let is_drained : s₁.phase p ≡ drained = rw ((==_iff p p).1 refl) refl in
      let heard : s₂.crashed ≡ true = ground arith in
      let r₁ : Run search auto_restart s s₁ = next here (exits p a refl) in
      let r₂ : Run search auto_restart s s₂ = next r₁ (ends p is_drained refl) in
      let r₃ : Run search auto_restart s s₃ = next r₂ (hears l heard refl) in
      let r₄ : Run search auto_restart s s₄ = next r₃ (checks_stop refl (rw f refl)) in
      let r₅ : Run search auto_restart s s₅ = next r₄ (checks_fatal refl (rw k refl)) in
      let r₆ : Run search auto_restart s s₆ = next r₅ (prepares refl refl) in
      let r₇ : Run search auto_restart s s₇ = next r₆ (respawns refl refl) in
      (
        record s₇ { supervisor = top },
        next r₇ (settles refl refl),
        rw ((==_iff s.spawned s.spawned).1 refl) refl,
        refl,
        refl,
        refl,
      )
