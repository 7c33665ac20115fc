-- ===== src/Prelude/Text.antt =====
-- Python's `str` as the list of its code points, with the methods that the program calls.
use Prim.Native.Nat.{ℕ, zero, suc}
use Prim.Native.Char.{code}
use Prim.Native.String.{String}
use mathlib.Core.Path.{◌≡◌, refl}
use mathlib.Core.Logic.{◌↔◌}
use mathlib.Core.Bool.{Bool, true, false, ◌&&◌, ◌||◌, not}
use mathlib.Core.List.{List, [], ◌∷◌, ◌++◌, reverse}
use native.Mathlib.Omega.{arith}
use sandstorm_ios_driver.Prelude.Tests.{ltb, leb, ◌==◌, if◌then◌else◌}

abbrev pub Text : Type 0
Text = List ℕ

abbrev pub codes : String → Text
codes String.[] = []
codes (String.◌∷◌ c s) = code c ∷ codes s

-- `s == t`
unfoldable pub text_eq : Text → Text → Bool
text_eq [] [] = true
text_eq (c ∷ s) (d ∷ t) = (c == d) && text_eq s t
text_eq _ _ = false

pub text_eq_iff : (s t : Text) → (text_eq s t ≡ true) ↔ (s ≡ t)
unfolding text_eq
text_eq_iff [] [] = (λ _. refl, λ _. refl)
text_eq_iff [] (d ∷ t) = (λ h. cc, λ h. cc)
text_eq_iff (c ∷ s) [] = (λ h. cc, λ h. cc)
text_eq_iff (c ∷ s) (d ∷ t) = ground (arith, text_eq_iff s t)

pub text_eq_refl : (s : Text) → text_eq s s ≡ true
text_eq_refl s = (text_eq_iff s s).1 refl

-- `if s:` is false on the empty text.
abbrev pub is_empty : Text → Bool
is_empty [] = true
is_empty (c ∷ s) = false

-- `s.startswith(prefix)`
unfoldable pub starts_with : Text → Text → Bool
starts_with s [] = true
starts_with [] (p ∷ prefix) = false
starts_with (c ∷ s) (p ∷ prefix) = (c == p) && starts_with s prefix

pub starts_with-append : (s t : Text) → starts_with (s ++ t) s ≡ true
unfolding starts_with
starts_with-append [] t = refl
starts_with-append (c ∷ s) t = ground (arith, starts_with-append s t)

-- The rest behind a prefix: `s[len(prefix):]`, where `s` starts with the prefix.
unfoldable pub after : Text → Text → Text
after s [] = s
after [] (p ∷ prefix) = []
after (c ∷ s) (p ∷ prefix) = after s prefix

pub after-append : (s t : Text) → after (s ++ t) s ≡ t
unfolding after
after-append [] t = refl
after-append (c ∷ s) t = after-append s t

pub starts_with-after : (s p : Text) → starts_with s p ≡ true → s ≡ p ++ after s p
unfolding starts_with after
starts_with-after s [] h = refl
starts_with-after [] (p ∷ prefix) h = cc
starts_with-after (c ∷ s) (p ∷ prefix) h = ground (arith, starts_with-after s prefix)

-- `s.endswith(suffix)`, read from the back.
unfoldable pub ends_with : Text → Text → Bool
unfolding starts_with
ends_with s suffix = starts_with (reverse s) (reverse suffix)

-- The ASCII members of `str.isspace`: tab to carriage return, the separators 28 to 31, blank.
abbrev pub is_space : ℕ → Bool
is_space c = (leb 9 c && leb c 13) || (leb 28 c && leb c 32)

unfoldable pub lstrip : Text → Text
lstrip [] = []
lstrip (c ∷ s) = if is_space c then lstrip s else c ∷ s

-- `s.strip()`
unfoldable pub strip : Text → Text
unfolding lstrip
strip s = reverse (lstrip (reverse (lstrip s)))

-- `sep.join(parts)`
unfoldable pub join : Text → List Text → Text
join sep [] = []
join sep (p ∷ []) = p
join sep (p ∷ q ∷ ps) = p ++ (sep ++ join sep (q ∷ ps))

-- `s.replace(c, new)` for one character.
unfoldable pub replace_char : ℕ → Text → Text → Text
replace_char c new [] = []
replace_char c new (d ∷ s) =
    let rest = replace_char c new s in if d == c then new ++ rest else d ∷ rest

-- `s.replace(old, "")` for a text that is not empty; every round drops a character at least.
remove_loop : ℕ → Text → Text → Text
remove_loop zero old s = s
remove_loop (suc fuel) old [] = []
remove_loop (suc fuel) old (c ∷ s) =
    let removed = remove_loop fuel old (after (c ∷ s) old) in
    let kept = c ∷ remove_loop fuel old s in if starts_with (c ∷ s) old then removed else kept

text_length : Text → ℕ
text_length [] = 0
text_length (c ∷ s) = suc (text_length s)

unfoldable pub remove : Text → Text → Text
unfolding remove_loop text_length
remove old s = remove_loop (text_length s) old s

-- The order of texts by code points, strictly.
unfoldable pub text_less : Text → Text → Bool
text_less s [] = false
text_less [] (d ∷ t) = true
text_less (c ∷ s) (d ∷ t) = ltb c d || (c == d && text_less s t)

-- `part in s`
unfoldable pub has_part : Text → Text → Bool
unfolding starts_with
has_part part [] = starts_with [] part
has_part part (c ∷ s) = starts_with (c ∷ s) part || has_part part s

-- The characters up to a blank, and the rest from it.
unfoldable pub word : Text → Text × Text
word [] = ([], [])
word (c ∷ s) = let (w, rest) = word s in if is_space c then ([], c ∷ s) else (c ∷ w, rest)

-- `s.split(sep)[0]` for one character
unfoldable pub before_char : ℕ → Text → Text
before_char sep [] = []
before_char sep (c ∷ s) = let rest = before_char sep s in if c == sep then [] else c ∷ rest

-- The characters at which `splitlines` splits.
abbrev pub is_line_break : ℕ → Bool
is_line_break c =
    (leb 10 c && leb c 13) || (leb 28 c && leb c 30) || (c == 133) || (c == 8232) || (c == 8233)

abbrev pub before_first : ℕ → List Text → List Text
before_first c [] = (c ∷ []) ∷ []
before_first c (l ∷ ls) = (c ∷ l) ∷ ls

-- `s.splitlines()`, up to empty lines: the last line may be empty, and a line feed after a carriage
-- return is a line end of its own.
unfoldable pub split_lines : Text → List Text
split_lines [] = []
split_lines (c ∷ s) =
    let rest = split_lines s in
    if is_line_break c
    then [] ∷ rest
    else if starts_line s
    then before_first c rest
    else (c ∷ []) ∷ rest
  where
    -- Whether the text goes on with a character of the same line.
    starts_line : Text → Bool
    starts_line [] = false
    starts_line (c ∷ s) = not (is_line_break c)
