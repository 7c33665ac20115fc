-- ===== src/Controller/Stale.antt =====
-- `terminate_stale_runners` of ios-controller/sandstorm_controller/agent.py
pub mod Kills
use sandstorm_ios_driver.Prelude.{
  ℕ, zero, suc, ◌+◌, Bool, true, false, not, ◌&&◌, ◌||◌, Option, none, some, List, [], ◌∷◌, ◌++◌,
  sort_by, ltb, if◌then◌else◌,
}
use sandstorm_ios_driver.Prelude.Int.{ℤ, pos, negsuc, int_eq}
use sandstorm_ios_driver.Prelude.Text.{
  Text, codes, text_eq, text_less, has_part, word, lstrip, is_empty,
}
use sandstorm_ios_driver.Python.Runtime.{Runtime}

pub data Role : Type 0 where
  runner supervisor : Role

-- The second part of a target, by which the targets are sorted.
abbrev pub role_name : Role → Text
role_name runner = codes "runner"
role_name supervisor = codes "supervisor"

abbrev pub Target : Type 0
Target = ℤ × Role

-- `line.split(maxsplit=2)` where it yields three fields
unfoldable pub three_fields : Text → Option (Text × Text × Text)
unfolding word lstrip
three_fields line =
    let (a, rest) = word (lstrip line) in
    let (b, rest') = word (lstrip rest) in
    let c = lstrip rest' in if is_empty c then none else some (a, b, c)

abbrev pub is_protected : ℤ → ℤ → ℤ → Bool
is_protected own parent p = int_eq p own || int_eq p parent

-- `p > 1`
abbrev pub above_one : ℤ → Bool
above_one (pos n) = ltb 1 n
above_one (negsuc n) = false

-- The command line of a test run on the device.
unfoldable pub is_test_run : Text → Text → Bool
is_test_run udid command =
    has_part (codes "xcodebuild") command
    && has_part (codes "test-without-building") command
    && has_part udid command

-- What a process adds: itself, and its parent.
unfoldable pub targets_of : ℤ → ℤ → ℤ → ℤ → List Target
targets_of own parent pid ppid =
    (if is_protected own parent pid then [] else (pid, runner) ∷ [])
    ++ (if not (is_protected own parent ppid) && above_one ppid
        then (ppid, supervisor) ∷ []
        else [])

abbrev both_numbers : Option ℤ → Option ℤ → Option (ℤ × ℤ)
both_numbers (some a) (some b) = some (a, b)
both_numbers _ _ = none

module _ {F : Type 0} (rt : Runtime F) where
  abbrev pub numbered : ℤ → ℤ → Option (ℤ × ℤ) → List Target
  numbered own parent none = []
  numbered own parent (some (pid, ppid)) = targets_of own parent pid ppid

  abbrev pub of_fields : ℤ → ℤ → Text → Option (Text × Text × Text) → List Target
  of_fields own parent udid none = []
  of_fields own parent udid (some (a, b, command)) =
      if is_test_run udid command
      then numbered own parent (both_numbers (rt.int_of_text a) (rt.int_of_text b))
      else []

  -- The targets, over the lines of `ps`, in the order in which they are found.
  unfoldable pub targets : ℤ → ℤ → Text → List Text → List Target
  unfolding three_fields
  targets own parent udid [] = []
  targets own parent udid (line ∷ lines) =
      of_fields own parent udid (three_fields line) ++ targets own parent udid lines

-- `sorted(targets, key=lambda item: item[1])`
abbrev pub sooner : Target → Target → Bool
sooner (p, a) (q, b) = text_less (role_name a) (role_name b)

unfoldable pub kill_order : List Target → List Target
unfolding text_less sort_by
kill_order ts = sort_by sooner ts

-- The signals that are sent, and how many of them `os.kill` accepts.
unfoldable pub send_signals : (ℤ → Bool) → List Target → List ℤ × ℕ
send_signals accepts [] = ([], 0)
send_signals accepts ((p, role) ∷ ts) =
    let (sent, killed) = send_signals accepts ts in
    (p ∷ sent, if accepts p then suc killed else killed)

module _ {F : Type 0} (rt : Runtime F) where
  -- `none` is a listing that failed. The pids are those of this process and of its parent.
  unfoldable pub terminate_stale_runners :
      ℤ → ℤ → (ℤ → Bool) → Text → Option (List Text) → List ℤ × ℕ
  unfolding targets kill_order send_signals
  terminate_stale_runners own parent accepts udid none = ([], 0)
  terminate_stale_runners own parent accepts udid (some lines) =
      send_signals accepts (kill_order (targets rt own parent udid lines))
