-- ===== src/Inspector/Suggestion/Build.antt =====
-- `build`, `inline` and `format_report` of ios-inspector/sandstorm_inspector/locators.py: what is made
-- of a suggestion.
use sandstorm_ios_driver.Prelude.{
  ℕ, zero, suc, ◌-◌, String, not, Option, none, some, List, [], ◌∷◌, ◌++◌, ltb, length, map, keep,
  if◌then◌else◌,
}
use sandstorm_ios_driver.Prelude.Int.{pos}
use sandstorm_ios_driver.Prelude.Text.{Text, codes, is_empty, starts_with, strip, join, split_lines}
use sandstorm_ios_driver.Python.Json.{int}
use sandstorm_ios_driver.Python.Runtime.{Runtime}
use sandstorm_ios_driver.Protocol.Selector.{Criteria, no_criteria}
use sandstorm_ios_driver.Sdk.Locator.{Locator, nth}
use sandstorm_ios_driver.Sdk.Page.{Page, locator}
use sandstorm_ios_driver.Inspector.Suggestion.{LocatorSuggestion, max_score, strategy_name}
use text.Mathlib.Text.{◌==◌ as str_eq}

-- One keyword argument of `page.locator`.
abbrev pub with_criterion : String → Text → Criteria → Criteria
with_criterion k v c =
    if str_eq k "identifier"
    then record c { identifier = some v }
    else if str_eq k "type"
    then record c { type = some v }
    else if str_eq k "label"
    then record c { label = some v }
    else if str_eq k "text"
    then record c { text = some v }
    else if str_eq k "predicate"
    then record c { predicate = some v }
    else c

abbrev pub criteria_of : List (String × Text) → Criteria
criteria_of [] = no_criteria
criteria_of ((k, v) ∷ rest) = with_criterion k v (criteria_of rest)

abbrev pub nth_if : {F : Type 0} → Option ℕ → Locator F → Locator F
nth_if none l = l
nth_if (some i) l = nth l (pos i)

unfoldable pub build : {F : Type 0} → Page F → LocatorSuggestion → Locator F
build p s = nth_if s.position (locator p (criteria_of s.criteria))

-- `s.replace(old, new)`, with the number of characters of the last occurrence that are still to skip
unfoldable pub replace_from : ℕ → Text → Text → Text → Text
unfolding starts_with
replace_from n old new [] = []
replace_from (suc n) old new (c ∷ s) = replace_from n old new s
replace_from zero old new (c ∷ s) =
    let found = starts_with (c ∷ s) old in
    let rest = replace_from (if found then length old - 1 else 0) old new s in
    if found then new ++ rest else c ∷ rest

abbrev pub replace : String → String → Text → Text
unfolding replace_from
replace old new s = replace_from 0 (codes old) (codes new) s

unfoldable pub inline : Text → Text
unfolding split_lines replace_from strip join
inline code = replace ", )" ")" (
    replace " )" ")" (
      replace "( " "("
        (join (codes " ") (keep (λ l. not (is_empty l)) (map strip (split_lines code))))))

-- `format_report`
abbrev pub stars : {F : Type 0} → Runtime F → LocatorSuggestion → Text
stars rt s = rt.show (int (pos s.score)) ++ (codes "/" ++ rt.show (int (pos max_score)))

abbrev pub wider : ℕ → ℕ → ℕ
wider a b = if ltb a b then b else a

abbrev pub widest : List LocatorSuggestion → ℕ
widest [] = 0
widest (s ∷ rest) = wider (length (strategy_name s.strategy)) (widest rest)

-- `s.ljust(width)`: 32 is the blank
abbrev pub ljust : ℕ → Text → Text
ljust zero s = s
ljust (suc n) [] = 32 ∷ ljust n []
ljust (suc n) (c ∷ s) = c ∷ ljust n s

unfoldable pub format_report : {F : Type 0} → Runtime F → List LocatorSuggestion → Text
unfolding join
format_report rt [] = codes "No locator could be recommended for this element."
format_report rt (s ∷ rest) =
    let width = widest (s ∷ rest) in
    join (10 ∷ [])
      (map (λ x. ljust width (strategy_name x.strategy) ++ (codes ": " ++ stars rt x)) (s ∷ rest))
