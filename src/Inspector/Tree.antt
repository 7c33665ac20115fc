-- ===== src/Inspector/Tree.antt =====
-- ios-inspector/sandstorm_inspector/hierarchy.py and the walk of locators.py, over the snapshot
-- trees that the agent sends: dicts of attributes whose `children` is a list of such dicts.
pub mod Walks
use sandstorm_ios_driver.Prelude.{
  ℕ, ◌+◌, String, Bool, false, Option, none, some, List, [], ◌∷◌, ◌++◌, length, take, ltb,
  if◌then◌else◌,
}
use sandstorm_ios_driver.Prelude.Text.{Text, codes, text_eq, strip, remove, is_empty}
use sandstorm_ios_driver.Python.Json.{Json, str, Fields, get}
use sandstorm_ios_driver.Python.Runtime.{Runtime, to_text, default}

mutual
  pub data Node (F : Type 0) : Type 0 where
    node : Fields F → Nodes F → Node F

  pub data Nodes (F : Type 0) : Type 0 where
    leaf : Nodes F
    also : Node F → Nodes F → Nodes F

-- At most 40 characters: 37 of a longer detail, and three dots.
abbrev pub shortened : Text → Text
shortened detail = if ltb 40 (length detail) then take 37 detail ++ codes "..." else detail

abbrev pub first_text : Text → Text → Text
first_text a b = if is_empty a then b else a

module _ {F : Type 0} where
  -- `node.get(key)`, for a key other than `children`
  abbrev pub attr : String → Node F → Option (Json F)
  attr k (node attributes children) = get k attributes

  unfoldable mutual
    pub iter_nodes : Node F → List (Node F)
    iter_nodes (node attributes children) = node attributes children ∷ iter_children children

    pub iter_children : Nodes F → List (Node F)
    iter_children leaf = []
    iter_children (also n ns) = iter_nodes n ++ iter_children ns

  unfoldable mutual
    pub walk_with_depth : Node F → ℕ → List (Node F × ℕ)
    walk_with_depth (node attributes children) depth =
        (node attributes children, depth) ∷ walk_children children (depth + 1)

    pub walk_children : Nodes F → ℕ → List (Node F × ℕ)
    walk_children leaf depth = []
    walk_children (also n ns) depth = walk_with_depth n depth ++ walk_children ns depth

  unfoldable pub count_nodes : Node F → ℕ
  count_nodes root = length (iter_nodes root)

  -- `value == t`, for a text `t`
  abbrev pub is_text : Option (Json F) → Text → Bool
  is_text (some (str s)) t = text_eq s t
  is_text _ t = false

  unfoldable pub first_at : Text → List (Node F) → Option (Node F)
  first_at path [] = none
  first_at path (n ∷ ns) = if is_text (attr "path" n) path then some n else first_at path ns

  unfoldable pub find_by_path : Node F → Text → Option (Node F)
  unfolding first_at
  find_by_path root path = first_at path (iter_nodes root)

  -- `node.get(key) or ""`, where the agent sends a text or nothing, as a snapshot is documented
  abbrev pub text_or_empty : Option (Json F) → Text
  text_or_empty (some (str s)) = s
  text_or_empty _ = []

  unfoldable pub stripped : String → Node F → Text
  stripped k n = strip (text_or_empty (attr k n))

  unfoldable pub detail : Node F → Text
  unfolding stripped
  detail n =
      first_text (stripped "identifier" n)
        (first_text (stripped "label" n) (text_or_empty (attr "value" n)))

module _ {F : Type 0} ⦃rt : Runtime F⦄ where
  unfoldable pub node_title : Node F → Text
  unfolding detail
  node_title n =
      let element_type =
        remove (codes "XCUIElementType") (to_text (default (str []) (attr "type" n))) in
      if is_empty (detail n)
      then element_type
      else element_type ++ (codes " — " ++ shortened (detail n))
