-- ===== src/Inspector/Recorder/Script/Literal.antt =====
-- The string literals of the generated code, read back as Python reads them.
use sandstorm_ios_driver.Prelude.{
  ℕ, ==_iff, ◌≡◌, refl, Bool, true, false, ◌||◌, Bool-cases, inl, inr, Option, none, some, [], ◌∷◌,
  ◌++◌, ◌==◌, arith, if◌then◌else◌,
}
use sandstorm_ios_driver.Prelude.Text.{Text, replace_char}
use sandstorm_ios_driver.Inspector.Suggestion.{escape}

abbrev with_first : ℕ → Option (Text × Text) → Option (Text × Text)
with_first c none = none
with_first c (some (s, rest)) = some (c ∷ s, rest)

-- The characters that end a line for Python, LF (10) and CR (13), and the one that it refuses in
-- code, NUL (0).
abbrev is_refused : ℕ → Bool
is_refused c = c == 10 || c == 13 || c == 0

-- A literal behind its opening quote: its text, and the code behind the closing quote. A line feed,
-- a carriage return or a NUL inside ends it in error. The flag is set behind a backslash (92), which stands for the next
-- character, a backslash or a double quote (34); other escapes are not read.
unfoldable pub read_literal : Bool → Text → Option (Text × Text)
read_literal escaped [] = none
read_literal true (c ∷ s) =
    let rest = read_literal false s in if c == 92 || c == 34 then with_first c rest else none
read_literal false (c ∷ s) =
    let plain = read_literal false s in
    let behind = read_literal true s in
    if c == 34
    then some ([], s)
    else if is_refused c
    then none
    else if c == 92
    then behind
    else with_first c plain

-- Has a character that no literal on one line may have.
unfoldable pub breaks_line : Text → Bool
breaks_line [] = false
breaks_line (c ∷ s) = is_refused c || breaks_line s

abbrev escaped_char : ℕ → Text → Text
escaped_char c rest =
    if c == 92 then 92 ∷ 92 ∷ rest else if c == 34 then 92 ∷ 34 ∷ rest else c ∷ rest

escape-cons : (c : ℕ) (s : Text) → escape (c ∷ s) ≡ escaped_char c (escape s)
unfolding escape replace_char
escape-cons c s = elim (Bool-cases (c == 92)) [
  | inl back ↦ rw back refl
  | inr other ↦ rw other refl
]

abbrev pub as_literal : Text → Text → Option (Text × Text)
as_literal s rest = if breaks_line s then none else some (s, rest)

with_first-as_literal :
    (c : ℕ) (s rest : Text)
    → with_first c (as_literal s rest) ≡ (if breaks_line s then none else some (c ∷ s, rest))
with_first-as_literal c s rest = elim (Bool-cases (breaks_line s)) [
  | inl breaks ↦ rw breaks refl
  | inr whole ↦ rw whole refl
]

read_char :
    (c : ℕ) (s tail rest : Text)
    → read_literal false tail ≡ as_literal s rest
    → read_literal false (escaped_char c tail) ≡ as_literal (c ∷ s) rest
unfolding read_literal breaks_line escape
read_char c s tail rest h = elim (Bool-cases (c == 92)) [
  | inl back ↦ let e : c ≡ 92 = (==_iff c 92).0 back in rw (e, h) (with_first-as_literal 92 s rest)
  | inr other ↦ rw other (elim (Bool-cases (c == 34)) [
    | inl double ↦
        let e : c ≡ 34 = (==_iff c 34).0 double in rw (e, h) (with_first-as_literal 34 s rest)
    | inr plain ↦ rw plain (elim (Bool-cases (is_refused c)) [
      | inl line ↦ rw (plain, line) refl
      | inr same ↦ rw (plain, same, other, h) (with_first-as_literal c s rest)
    ])
  ])
]

escaped_char-append : (c : ℕ) (s t : Text) → escaped_char c s ++ t ≡ escaped_char c (s ++ t)
escaped_char-append c s t = ground arith

-- Behind its opening quote, the literal that `_escape` makes of a text is read back as that text,
-- with the code behind the closing quote left, if the text has no line feed, no carriage return
-- and no NUL; if it has one, the literal ends in error there.
pub read_literal-escape :
    (s rest : Text) → read_literal false (escape s ++ (34 ∷ rest)) ≡ as_literal s rest
unfolding read_literal breaks_line escape
read_literal-escape [] rest = refl
read_literal-escape (c ∷ s) rest =
    rw (escape-cons c s, escaped_char-append c (escape s) (34 ∷ rest))
      (read_char c s (escape s ++ (34 ∷ rest)) rest (read_literal-escape s rest))
