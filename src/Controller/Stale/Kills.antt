-- ===== src/Controller/Stale/Kills.antt =====
-- Which processes `terminate_stale_runners` signals, and in which order.
use sandstorm_ios_driver.Prelude.{
  ◌≡◌, refl, ap, ◌∙◌, Bool, true, false, not, ◌&&◌, Bool-cases, inl, inr, Option, none, some, List,
  [], ◌∷◌, ◌++◌, All, keep, insert_by, sort_by, if◌then◌else◌,
}
use sandstorm_ios_driver.Prelude.Int.{ℤ}
use sandstorm_ios_driver.Prelude.Text.{Text, text_less}
use sandstorm_ios_driver.Python.Runtime.{Runtime}
use sandstorm_ios_driver.Controller.Stale.{
  runner, supervisor, Target, is_protected, above_one, targets_of, three_fields, is_test_run,
  numbered, of_fields, targets, sooner, kill_order, send_signals, terminate_stale_runners,
}

-- Neither this process nor its parent.
abbrev pub Spared : ℤ → ℤ → ℤ → Type 0
Spared own parent p = is_protected own parent p ≡ false

abbrev SparedTarget : ℤ → ℤ → Target → Type 0
SparedTarget own parent (p, role) = Spared own parent p

All-append : {A : Type 0} (P : A → Type 0) (xs ys : List A) → All P xs → All P ys → All P (xs ++ ys)
All-append P [] ys h k = k
All-append P (x ∷ xs) ys (p, h) k = (p, All-append P xs ys h k)

module _ (own parent : ℤ) where
  runner_part :
      (pid : ℤ) (b : Bool)
      → is_protected own parent pid ≡ b
      → All (SparedTarget own parent) (if b then [] else (pid, runner) ∷ [])
  runner_part pid true e = tt
  runner_part pid false e = (e, tt)

  supervisor_part :
      (ppid : ℤ) (b c : Bool)
      → is_protected own parent ppid ≡ b
      → All (SparedTarget own parent) (if not b && c then (ppid, supervisor) ∷ [] else [])
  supervisor_part ppid true c e = tt
  supervisor_part ppid false true e = (e, tt)
  supervisor_part ppid false false e = tt

  targets_of-Spared :
      (pid ppid : ℤ) → All (SparedTarget own parent) (targets_of own parent pid ppid)
  unfolding targets_of
  targets_of-Spared pid ppid =
      All-append _ _ _ (runner_part pid _ refl) (supervisor_part ppid _ (above_one ppid) refl)

  numbered-Spared :
      {F : Type 0} (rt : Runtime F) (o : Option (ℤ × ℤ))
      → All (SparedTarget own parent) (numbered rt own parent o)
  numbered-Spared rt none = tt
  numbered-Spared rt (some (pid, ppid)) = targets_of-Spared pid ppid

  of_fields-Spared :
      {F : Type 0} (rt : Runtime F) (udid : Text) (o : Option (Text × Text × Text))
      → All (SparedTarget own parent) (of_fields rt own parent udid o)
  of_fields-Spared rt udid none = tt
  of_fields-Spared rt udid (some (a, b, command)) = elim (Bool-cases (is_test_run udid command)) [
    | inl run ↦ rw run (numbered-Spared rt _)
    | inr other ↦ rw other tt
  ]

  targets-Spared :
      {F : Type 0} (rt : Runtime F) (udid : Text) (lines : List Text)
      → All (SparedTarget own parent) (targets rt own parent udid lines)
  unfolding targets
  targets-Spared rt udid [] = tt
  targets-Spared rt udid (line ∷ lines) =
      All-append _ _ _ (of_fields-Spared rt udid (three_fields line)) (targets-Spared rt udid lines)

insert_by-All :
    {A : Type 0} (less : A → A → Bool) (P : A → Type 0) (a : A) (xs : List A)
    → P a
    → All P xs
    → All P (insert_by less a xs)
unfolding insert_by
insert_by-All less P a [] p h = (p, tt)
insert_by-All less P a (x ∷ xs) p (q, h) = elim (Bool-cases (less x a)) [
  | inl e ↦ rw e (q, insert_by-All less P a xs p h)
  | inr e ↦ rw e (p, (q, h))
]

sort_by-All :
    {A : Type 0} (less : A → A → Bool) (P : A → Type 0) (xs : List A)
    → All P xs
    → All P (sort_by less xs)
unfolding sort_by
sort_by-All less P [] h = tt
sort_by-All less P (x ∷ xs) (p, h) =
    insert_by-All less P x (sort_by less xs) p (sort_by-All less P xs h)

send_signals-Spared :
    (own parent : ℤ) (accepts : ℤ → Bool) (ts : List Target)
    → All (SparedTarget own parent) ts
    → All (Spared own parent) (send_signals accepts ts).0
unfolding send_signals
send_signals-Spared own parent accepts [] h = tt
send_signals-Spared own parent accepts ((p, role) ∷ ts) (s, h) =
    (s, send_signals-Spared own parent accepts ts h)

-- No signal goes to the own process or to its parent, whatever the process listing says.
pub terminate_stale_runners-spares :
    {F : Type 0} (rt : Runtime F) (own parent : ℤ) (accepts : ℤ → Bool) (udid : Text)
    (listing : Option (List Text))
    → All (Spared own parent) (terminate_stale_runners rt own parent accepts udid listing).0
unfolding terminate_stale_runners kill_order
terminate_stale_runners-spares rt own parent accepts udid none = tt
terminate_stale_runners-spares rt own parent accepts udid (some lines) =
    send_signals-Spared own parent accepts _
      (sort_by-All sooner _ _ (targets-Spared own parent rt udid lines))

abbrev pub is_runner : Target → Bool
is_runner (p, runner) = true
is_runner (p, supervisor) = false

abbrev pub is_supervisor : Target → Bool
is_supervisor t = not (is_runner t)

supervisor_first :
    (p : ℤ) (xs : List Target)
    → insert_by sooner (p, supervisor) (keep is_supervisor xs)
      ≡ (p, supervisor) ∷ keep is_supervisor xs
unfolding insert_by text_less
supervisor_first p [] = refl
supervisor_first p ((q, runner) ∷ xs) = supervisor_first p xs
supervisor_first p ((q, supervisor) ∷ xs) = refl

supervisor_insert :
    (p : ℤ) (xs ys : List Target)
    → insert_by sooner (p, supervisor) (keep is_runner xs ++ keep is_supervisor ys)
      ≡ keep is_runner xs ++ ((p, supervisor) ∷ keep is_supervisor ys)
unfolding insert_by text_less
supervisor_insert p [] ys = supervisor_first p ys
supervisor_insert p ((q, runner) ∷ xs) ys = ap (λ l. (q, runner) ∷ l) (supervisor_insert p xs ys)
supervisor_insert p ((q, supervisor) ∷ xs) ys = supervisor_insert p xs ys

runner_insert :
    (p : ℤ) (xs ys : List Target)
    → insert_by sooner (p, runner) (keep is_runner xs ++ keep is_supervisor ys)
      ≡ (p, runner) ∷ (keep is_runner xs ++ keep is_supervisor ys)
unfolding insert_by text_less
runner_insert p [] [] = refl
runner_insert p [] ((q, runner) ∷ ys) = runner_insert p [] ys
runner_insert p [] ((q, supervisor) ∷ ys) = refl
runner_insert p ((q, runner) ∷ xs) ys = refl
runner_insert p ((q, supervisor) ∷ xs) ys = runner_insert p xs ys

-- The kill order is: all runners, in the order in which they were found, and after them all
-- supervisors, in the order in which they were found.
pub kill_order-runners :
    (ts : List Target) → kill_order ts ≡ keep is_runner ts ++ keep is_supervisor ts
unfolding kill_order sort_by
kill_order-runners [] = refl
kill_order-runners ((p, runner) ∷ ts) =
    ap (insert_by sooner (p, runner)) (kill_order-runners ts) ∙ runner_insert p ts ts
kill_order-runners ((p, supervisor) ∷ ts) =
    ap (insert_by sooner (p, supervisor)) (kill_order-runners ts) ∙ supervisor_insert p ts ts
