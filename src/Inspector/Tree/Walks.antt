-- ===== src/Inspector/Tree/Walks.antt =====
-- The three walks over a tree agree.
use sandstorm_ios_driver.Prelude.{
  ℕ, suc, ◌+◌, ◌≡◌, refl, sym, ap, ap₂, ◌∙◌, List, [], ◌∷◌, ◌++◌, length, map,
}
use sandstorm_ios_driver.Inspector.Tree.{
  Node, node, Nodes, leaf, also, iter_nodes, iter_children, walk_with_depth, walk_children,
  count_nodes,
}

abbrev pub visited : {F : Type 0} → Node F × ℕ → Node F
visited (n, depth) = n

module _ {F : Type 0} where
  map_append :
      (xs ys : List (Node F × ℕ)) → map visited (xs ++ ys) ≡ map visited xs ++ map visited ys
  map_append [] ys = refl
  map_append (x ∷ xs) ys = ap (λ l. visited x ∷ l) (map_append xs ys)

  length-map : (xs : List (Node F × ℕ)) → length (map visited xs) ≡ length xs
  length-map [] = refl
  length-map (x ∷ xs) = ap suc (length-map xs)

  mutual
    unfolding walk_with_depth iter_nodes

    node_walk : (n : Node F) (depth : ℕ) → map visited (walk_with_depth n depth) ≡ iter_nodes n
    node_walk (node attributes children) depth =
        ap (λ l. node attributes children ∷ l) (children_walk children (depth + 1))

    children_walk :
        (ns : Nodes F) (depth : ℕ) → map visited (walk_children ns depth) ≡ iter_children ns
    children_walk leaf depth = refl
    children_walk (also n ns) depth =
        map_append (walk_with_depth n depth) (walk_children ns depth)
        ∙ ap₂ (λ a b. a ++ b) (node_walk n depth) (children_walk ns depth)

  -- From any depth, `walk_with_depth` visits the nodes that `iter_nodes` yields, in the same order,
  -- and `count_nodes` is how many it visits.
  pub walk-iter_nodes :
      (root : Node F) (depth : ℕ)
      → (map visited (walk_with_depth root depth) ≡ iter_nodes root)
        × (length (walk_with_depth root depth) ≡ count_nodes root)
  unfolding count_nodes
  walk-iter_nodes root depth = (
    node_walk root depth,
    sym (length-map (walk_with_depth root depth)) ∙ ap length (node_walk root depth),
  )
