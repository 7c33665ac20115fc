-- ===== src/Inspector/Suggestion.antt =====
-- ios-inspector/sandstorm_inspector/locators.py: the ranking of locators.

pub mod Best
pub mod Build
use sandstorm_ios_driver.Prelude.{
  ℕ, suc, String, Bool, true, false, not, ◌&&◌, ◌||◌, Option, none, some, List, [], ◌∷◌, ◌++◌, ◌==◌,
  ltb, keep, sort_by, if◌then◌else◌,
}
use sandstorm_ios_driver.Prelude.Int.{pos}
use sandstorm_ios_driver.Prelude.Text.{Text, codes, text_less, strip, is_empty, join, replace_char}
use sandstorm_ios_driver.Python.Json.{Json, str}
use sandstorm_ios_driver.Python.Runtime.{Runtime}
use sandstorm_ios_driver.Inspector.Tree.{Node, attr, is_text, iter_nodes, stripped, text_or_empty}

abbrev pub max_score : ℕ
max_score = 5

-- The strategies, with the names that they are shown and compared by.
pub data Strategy : Type 0 where
  accessibility_id identifier_type label type_label text predicate index : Strategy

abbrev pub strategy_name : Strategy → Text
strategy_name accessibility_id = codes "Accessibility ID"
strategy_name identifier_type = codes "Identifier + type"
strategy_name label = codes "Label"
strategy_name type_label = codes "Type + label"
strategy_name text = codes "Text"
strategy_name predicate = codes "Predicate"
strategy_name index = codes "Index"

pub record LocatorSuggestion : Type 0 where
  pub strategy : Strategy
  pub score : ℕ
  pub unique : Bool
  pub code : Text
  pub reason : String
  pub criteria : List (String × Text)
  pub position : Option ℕ

-- `value.replace("\\", "\\\\").replace('"', '\\"')`: 92 is the backslash and 34 the double quote.
unfoldable pub escape : Text → Text
unfolding replace_char
escape s = replace_char 34 (92 ∷ 34 ∷ []) (replace_char 92 (92 ∷ 92 ∷ []) s)

-- The double quote.
abbrev pub quote : Text
quote = 34 ∷ []

-- `"…"` around an escaped text
abbrev pub quoted : Text → Text
quoted s = quote ++ (escape s ++ quote)

-- `page.locator(type="…", key="…")`, on lines of its own
abbrev pub compound_code : Text → String → Text → Text
compound_code element_type k v =
    codes "page.locator("
    ++ (10 ∷ codes "    type=\""
        ++ (element_type
            ++ (codes "\","
                ++ (10 ∷ codes "    "
                    ++ (codes k ++ (codes "=" ++ (quoted v ++ (10 ∷ codes ")"))))))))

module _ {F : Type 0} where
  -- `all(node.get(key) == value for key, value in criteria.items())`
  unfoldable pub meets : List (String × Text) → Node F → Bool
  meets [] n = true
  meets ((k, v) ∷ criteria) n = is_text (attr k n) v && meets criteria n

  unfoldable pub count_in : List (String × Text) → List (Node F) → ℕ
  count_in criteria [] = 0
  count_in criteria (n ∷ ns) =
      let rest = count_in criteria ns in if meets criteria n then suc rest else rest

  unfoldable pub count_matches : Node F → List (String × Text) → ℕ
  count_matches root criteria = count_in criteria (iter_nodes root)

  unfoldable pub is_unique : Node F → List (String × Text) → Bool
  is_unique root criteria = count_matches root criteria == 1

  abbrev pub by_identifier : Node F → Text → LocatorSuggestion
  by_identifier root identifier =
      let unique = is_unique root (("identifier", identifier) ∷ []) in
      record {
        strategy = accessibility_id;
        score = if unique then max_score else 3;
        unique = unique;
        code = codes "page.get_by_id(" ++ (quoted identifier ++ codes ")");
        reason =
            if unique
            then "Accessibility identifiers are set by developers and survive copy changes"
            else "Identifier is not unique in this hierarchy";
        criteria = ("identifier", identifier) ∷ [];
        position = none;
      }

  abbrev pub by_identifier_type : Node F → Text → Text → LocatorSuggestion
  by_identifier_type root identifier element_type = record {
    strategy = identifier_type;
    score = 4;
    unique = is_unique root (("identifier", identifier) ∷ ("type", element_type) ∷ []);
    code = compound_code element_type "identifier" identifier;
    reason = "Narrows a duplicated identifier by element type";
    criteria = ("type", element_type) ∷ ("identifier", identifier) ∷ [];
    position = none;
  }

  unfoldable pub identifier_suggestions : Node F → Text → Text → List LocatorSuggestion
  identifier_suggestions root identifier element_type =
      if is_empty identifier
      then []
      else by_identifier root identifier
        ∷ (if is_unique root (("identifier", identifier) ∷ [])
            then []
            else by_identifier_type root identifier element_type ∷ [])

  abbrev pub by_label : Node F → Text → LocatorSuggestion
  by_label root name =
      let unique = is_unique root (("label", name) ∷ []) in
      record {
        strategy = label;
        score = if unique then 4 else 2;
        unique = unique;
        code = codes "page.get_by_label(" ++ (quoted name ++ codes ")");
        reason =
            if unique
            then "Readable, but breaks under localization"
            else "Several elements share this label";
        criteria = ("label", name) ∷ [];
        position = none;
      }

  abbrev pub by_type_label : Node F → Text → Text → LocatorSuggestion
  by_type_label root name element_type =
      let unique = is_unique root (("label", name) ∷ ("type", element_type) ∷ []) in
      record {
        strategy = type_label;
        score = if unique then 4 else 3;
        unique = unique;
        code = compound_code element_type "label" name;
        reason = "Compound match evaluated in a single NSPredicate";
        criteria = ("type", element_type) ∷ ("label", name) ∷ [];
        position = none;
      }

  unfoldable pub label_suggestions : Node F → Text → Text → List LocatorSuggestion
  label_suggestions root name element_type =
      if is_empty name
      then []
      else by_label root name
        ∷ (if is_empty element_type then [] else by_type_label root name element_type ∷ [])

  -- `isinstance(value, str) and value.strip()`
  unfoldable pub text_suggestions : Node F → Option (Json F) → List LocatorSuggestion
  text_suggestions root (some (str value)) =
      if is_empty (strip value)
      then []
      else record {
        strategy = text;
        score = 3;
        unique = is_unique root (("value", value) ∷ []);
        code = codes "page.get_by_text(" ++ (quoted value ++ codes ")");
        reason = "Matches label, value, title or placeholder";
        criteria = ("text", value) ∷ [];
        position = none;
      }
        ∷ []
  text_suggestions root _ = []

-- The clause `key == "…"` of a predicate, for a text that is not empty.
abbrev pub clause : String → Text → List Text
clause k v = if is_empty v then [] else (codes k ++ (codes " == " ++ quoted v)) ∷ []

unfoldable pub predicate_text : Text → Text → Text
unfolding join
predicate_text identifier name =
    join (codes " AND ") (clause "identifier" identifier ++ clause "label" name)

unfoldable pub predicate_suggestions : Text → Text → List LocatorSuggestion
unfolding predicate_text
predicate_suggestions identifier name =
    if is_empty identifier && is_empty name
    then []
    else record {
      strategy = predicate;
      score = 3;
      unique = true;
      code = codes "page.get_by_predicate('" ++ (predicate_text identifier name ++ codes "')");
      reason = "Full NSPredicate power, evaluated inside the app process";
      criteria = ("predicate", predicate_text identifier name) ∷ [];
      position = none;
    }
      ∷ []

module _ {F : Type 0} where
  -- `node.get("path") == element.get("path")`, for paths that are texts or absent
  unfoldable pub same_path : Option (Json F) → Option (Json F) → Bool
  same_path (some (str p)) q = is_text q p
  same_path none none = true
  same_path _ _ = false

  unfoldable pub position_of : Option (Json F) → ℕ → List (Node F) → Option ℕ
  position_of path i [] = none
  position_of path i (n ∷ ns) =
      if same_path (attr "path" n) path then some i else position_of path (suc i) ns

  abbrev pub of_type : Text → List (Node F) → List (Node F)
  of_type t = keep (λ n. is_text (attr "type" n) t)

  unfoldable pub index_among : Node F → Node F → Option ℕ
  unfolding position_of same_path
  index_among root element =
      let element_type = text_or_empty (attr "type" element) in
      if is_empty element_type
      then none
      else position_of (attr "path" element) 0 (of_type element_type (iter_nodes root))

module _ {F : Type 0} (rt : Runtime F) where
  abbrev pub index_suggestions : Text → Option ℕ → List LocatorSuggestion
  index_suggestions element_type none = []
  index_suggestions element_type (some i) =
      record {
        strategy = index;
        score = 2;
        unique = true;
        code =
            codes "page.get_by_type(\""
            ++ (element_type ++ (codes "\").nth(" ++ (rt.show (Json.int (pos i)) ++ codes ")")));
        reason = "Positional; breaks whenever the layout changes. Use as a last resort";
        criteria = ("type", element_type) ∷ [];
        position = some i;
      }
      ∷ []

-- The order of the keys `(-score, not unique, strategy)`, strictly.
unfoldable pub ranks_before : LocatorSuggestion → LocatorSuggestion → Bool
ranks_before a b =
    ltb b.score a.score
    || (a.score == b.score
        && ((a.unique && not b.unique)
            || (not (a.unique && not b.unique)
                && not (b.unique && not a.unique)
                && text_less (strategy_name a.strategy) (strategy_name b.strategy))))

abbrev pub head : List LocatorSuggestion → Option LocatorSuggestion
head [] = none
head (s ∷ _) = some s

module _ {F : Type 0} (rt : Runtime F) where
  -- The suggestions in the order in which they are appended.
  unfoldable pub candidates : Node F → Node F → List LocatorSuggestion
  candidates element root =
      let identifier = stripped "identifier" element in
      let name = stripped "label" element in
      let element_type = text_or_empty (attr "type" element) in
      identifier_suggestions root identifier element_type
      ++ (label_suggestions root name element_type
          ++ (text_suggestions root (attr "value" element)
              ++ (predicate_suggestions identifier name
                  ++ index_suggestions rt element_type (index_among root element))))

  unfoldable pub recommend : Node F → Node F → List LocatorSuggestion
  recommend element root = sort_by ranks_before (candidates element root)

  unfoldable pub best_locator : Node F → Node F → Option LocatorSuggestion
  best_locator element root = head (recommend element root)
