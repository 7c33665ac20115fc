-- ===== src/Inspector/HitTest.antt =====
-- `Rect` and `hit_test` of ios-inspector/sandstorm_inspector/hierarchy.py
pub mod Smallest
use sandstorm_ios_driver.Prelude.{
  Bool, true, false, not, ◌&&◌, ◌||◌, Option, none, some, List, [], ◌∷◌, ◌++◌, String,
  if◌then◌else◌,
}
use sandstorm_ios_driver.Prelude.Text.{Text, codes}
use sandstorm_ios_driver.Python.Json.{Json, null, bool, float, str, obj, end}
use sandstorm_ios_driver.Python.Exception.{Except, ok, err, ◌>>=◌}
use sandstorm_ios_driver.Python.Runtime.{
  Runtime, truthy, lookup_or, or_else, to_float, to_text, default,
}
use sandstorm_ios_driver.Inspector.Tree.{Node, attr, iter_nodes}

pub record Rect (F : Type 0) : Type 0 where
  pub x : F
  pub y : F
  pub width : F
  pub height : F

-- `node.get("visible") is False`
abbrev pub is_hidden : {F : Type 0} → Option (Json F) → Bool
is_hidden (some (bool false)) = true
is_hidden _ = false

module _ {F : Type 0} ⦃rt : Runtime F⦄ where
  unfoldable pub area : Rect F → F
  area r = rt.mul (rt.max r.width rt.zero_float) (rt.max r.height rt.zero_float)

  unfoldable pub contains : Rect F → F → F → Bool
  contains r x y =
      rt.le r.x x && rt.le x (rt.add r.x r.width) && rt.le r.y y && rt.le y (rt.add r.y r.height)

  abbrev frame_field : Json F → String → Except F F
  frame_field frame k = lookup_or frame k (float rt.zero_float) >>= to_float

  unfoldable pub rect_of : Node F → Except F (Rect F)
  rect_of n =
      let frame = or_else (attr "frame" n) (obj end) in
      frame_field frame "x" >>= λ x. frame_field frame "y" >>= λ y.
      frame_field frame "width" >>= λ w.
      frame_field frame "height" >>= λ h. ok (record { x = x; y = y; width = w; height = h })

  -- The area of a node that the point hits: it is not skipped, has an area, and contains the point.
  unfoldable pub hit_area : Bool → F → F → Node F → Except F (Option F)
  hit_area visible_only x y n =
      if visible_only && is_hidden (attr "visible" n)
      then ok none
      else (rect_of n >>= λ r.
          if rt.le (area r) rt.zero_float || not (contains r x y)
          then ok none
          else ok (some (area r)))

  -- `best` and `best_area` after a node.
  abbrev pub improve : Node F → Option F → Option (Node F) × F → Option (Node F) × F
  improve n none best = best
  improve n (some a) (best, best_area) =
      if rt.lt a best_area then (some n, a) else (best, best_area)

  unfoldable pub hit_loop :
      Bool → F → F → Option (Node F) × F → List (Node F) → Except F (Option (Node F) × F)
  hit_loop visible_only x y best [] = ok best
  hit_loop visible_only x y best (n ∷ ns) =
      hit_area visible_only x y n >>= λ a. hit_loop visible_only x y (improve n a best) ns

  unfoldable pub hit_test : Node F → F → F → Bool → Except F (Option (Node F))
  hit_test root x y visible_only =
      hit_loop visible_only x y (none, rt.inf) (iter_nodes root) >>= λ (best, _). ok best

  -- `describe`: the attribute table of the detail pane
  abbrev shown : Option (Json F) → Text
  shown v = to_text (or_else v (str []))

  abbrev shown_value : Option (Json F) → Text
  shown_value none = []
  shown_value (some null) = []
  shown_value (some v) = to_text v

  abbrev shown_flag : Option (Json F) → Text
  shown_flag v = to_text {F = F} (bool (truthy (default (bool false) v)))

  unfoldable pub describe : Node F → Except F (List (String × Text))
  describe n = rect_of n >>= λ r. ok (
      ("Type", to_text (default (str []) (attr "type" n)))
      ∷ ("Identifier", shown (attr "identifier" n))
      ∷ ("Label", shown (attr "label" n))
      ∷ ("Value", shown_value (attr "value" n))
      ∷ ("Title", shown (attr "title" n))
      ∷ ("Placeholder", shown (attr "placeholder" n))
      ∷ (
        "Frame",
        codes "x="
            ++ (rt.fixed 0 r.x
                ++ (codes " y="
                    ++ (rt.fixed 0 r.y
                        ++ (codes " w="
                            ++ (rt.fixed 0 r.width ++ (codes " h=" ++ rt.fixed 0 r.height)))))),
      )
      ∷ ("Enabled", shown_flag (attr "enabled" n))
      ∷ ("Visible", shown_flag (attr "visible" n))
      ∷ ("Path", shown (attr "path" n))
      ∷ [])
