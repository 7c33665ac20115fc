-- ===== src/Inspector/Recorder/Script/Names.antt =====
-- The names of the functions that the generated code defines.
use sandstorm_ios_driver.Prelude.{
  ◌≡◌, refl, Bool, true, false, ◌&&◌, ◌||◌, Bool-cases, inl, inr, ◌⊎◌, ℕ, [], ◌∷◌, ◌++◌, All, leb,
  ◌==◌, map, arith, if◌then◌else◌,
}
use sandstorm_ios_driver.Prelude.Text.{Text, codes, is_empty, starts_with, starts_with-append}
use sandstorm_ios_driver.Inspector.Recorder.Script.{
  function_name, or_recorded, cleaned, starts_with_digit, is_digit, collapse, lstrip_underscore,
  strip_underscore, is_alnum, lower_char,
}
use mathlib.Core.List.{reverse, reverse_aux}

-- A small letter, a digit or an underscore.
abbrev pub is_name_char : ℕ → Bool
is_name_char c = is_digit c || (leb 97 c && leb c 122) || c == 95

abbrev Word : ℕ → Type 0
Word c = (is_alnum c ≡ true) ⊎ (c ≡ 95)

abbrev Name : ℕ → Type 0
Name c = is_name_char c ≡ true

run_of_others :
    (inside : Bool) (rest : Text) → All Word rest → All Word (if inside then rest else (95 ∷ rest))
run_of_others true rest h = h
run_of_others false rest h = (inr refl, h)

collapse-Word : (inside : Bool) (s : Text) → All Word (collapse inside s)
unfolding collapse
collapse-Word inside [] = tt
collapse-Word inside (c ∷ s) = elim (Bool-cases (is_alnum c)) [
  | inl word ↦ rw word (inl word, collapse-Word false s)
  | inr other ↦ rw other (run_of_others inside (collapse true s) (collapse-Word true s))
]

lstrip-All : (P : ℕ → Type 0) (s : Text) → All P s → All P (lstrip_underscore s)
unfolding lstrip_underscore
lstrip-All P [] h = tt
lstrip-All P (c ∷ s) (p, h) = elim (Bool-cases (c == 95)) [
  | inl e ↦ rw e (lstrip-All P s h)
  | inr e ↦ rw e (p, h)
]

All-append : (P : ℕ → Type 0) (s t : Text) → All P s → All P t → All P (s ++ t)
All-append P [] t h k = k
All-append P (c ∷ s) t (p, h) k = (p, All-append P s t h k)

reverse_aux-All : (P : ℕ → Type 0) (s t : Text) → All P s → All P t → All P (reverse_aux s t)
reverse_aux-All P [] t h k = k
reverse_aux-All P (c ∷ s) t (p, h) k = reverse_aux-All P s (c ∷ t) h (p, k)

reverse-All : (P : ℕ → Type 0) (s : Text) → All P s → All P (reverse s)
reverse-All P s h = reverse_aux-All P s [] h tt

lower-Name : (c : ℕ) → Word c → Name (lower_char c)
lower-Name c (inl h) = ground arith
lower-Name c (inr h) = rw h refl

map-Name : (s : Text) → All Word s → All Name (map lower_char s)
map-Name [] h = tt
map-Name (c ∷ s) (p, h) = (lower-Name c p, map-Name s h)

cleaned-Name : (name : Text) → All Name (cleaned name)
unfolding cleaned strip_underscore
cleaned-Name name = map-Name _ (
    reverse-All Word _
      (lstrip-All Word _ (reverse-All Word _ (lstrip-All Word _ (collapse-Word false name)))))

or_recorded-Name : (s : Text) → All Name s → All Name (or_recorded s)
or_recorded-Name [] h = ground arith
or_recorded-Name (c ∷ s) h = h

prefixed :
    (title prefix : Text) (b d : Bool)
    → starts_with title prefix ≡ b
    → is_empty prefix ≡ false
    → All Name title
    → All Name prefix
    → let f =
        if b
        then title
        else if is_empty prefix && d
        then codes "case_" ++ title
        else prefix ++ title in
      (starts_with f prefix ≡ true) × All Name f
prefixed title prefix true d e k h p = (e, h)
prefixed title prefix false d e k h p =
    rw k (starts_with-append prefix title, All-append Name prefix title p h)

-- Whatever the name of the recording, the function of the generated test is named `test_…` and
-- consists of small letters, digits and underscores, so it is an identifier that pytest collects.
pub function_name-collected :
    (name : Text)
    → (starts_with (function_name name (codes "test_")) (codes "test_") ≡ true)
      × All (λ c. is_name_char c ≡ true) (function_name name (codes "test_"))
unfolding function_name
function_name-collected name =
    prefixed (or_recorded (cleaned name)) (codes "test_") _
      (starts_with_digit (or_recorded (cleaned name))) refl refl
      (or_recorded-Name _ (cleaned-Name name)) (ground arith)

starts_with_nothing : (s : Text) → starts_with s [] ≡ true
unfolding starts_with
starts_with_nothing s = ground arith

-- For every name and prefix, the branch that puts `case_` before a title makes no difference, since
-- it is never reached: without it the function is the same, the title alone if it starts with the
-- prefix (as every title does with the empty one), or else the prefix and the title.
pub function_name-caseless :
    (name prefix : Text)
    → function_name name prefix ≡ (
        let title = or_recorded (cleaned name) in
        if starts_with title prefix then title else prefix ++ title)
unfolding function_name
function_name-caseless name [] = rw (starts_with_nothing (or_recorded (cleaned name))) refl
function_name-caseless name (c ∷ prefix) = refl
