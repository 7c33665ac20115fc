-- ===== src/Inspector/Suggestion/Best.antt =====
-- The best suggestion, and the index of an element among those of its type.
use sandstorm_ios_driver.Prelude.{
  ℕ, zero, suc, ◌+◌, ◌≤◌, ◌≡◌, refl, true, false, Bool-cases, inl, inr, ◌⊎◌, Option, none, some,
  List, [], ◌∷◌, All, arith, get_elem?, sort_by, insert_by,
}
use sandstorm_ios_driver.Prelude.Text.{is_empty}
use sandstorm_ios_driver.Python.Json.{Json}
use sandstorm_ios_driver.Python.Runtime.{Runtime}
use sandstorm_ios_driver.Inspector.Tree.{Node, attr, iter_nodes, text_or_empty}
use sandstorm_ios_driver.Inspector.Suggestion.{
  LocatorSuggestion, ranks_before, candidates, recommend, head, best_locator, same_path,
  position_of, of_type, index_among,
}

-- One of the list.
abbrev pub Among : LocatorSuggestion → List LocatorSuggestion → Type 0
Among s [] = ⊥
Among s (c ∷ cs) = (s ≡ c) ⊎ Among s cs

abbrev pub Best : Option LocatorSuggestion → List LocatorSuggestion → Type 0
Best none cs = cs ≡ []
Best (some s) cs = Among s cs × All (λ c. c.score ≤ s.score) cs

ranks-score : (a b : LocatorSuggestion) → ranks_before b a ≡ true → a.score ≤ b.score
unfolding ranks_before
ranks-score a b h = ground arith

not_ranks-score : (a b : LocatorSuggestion) → ranks_before b a ≡ false → b.score ≤ a.score
unfolding ranks_before
not_ranks-score a b h = ground arith

lower :
    (m n : ℕ)
    → m ≤ n
    → (cs : List LocatorSuggestion) → All (λ c. c.score ≤ m) cs
    → All (λ c. c.score ≤ n) cs
lower m n le [] h = tt
lower m n le (c ∷ cs) (p, h) = (omega arith, lower m n le cs h)

insert-Best :
    (a : LocatorSuggestion) (sorted cs : List LocatorSuggestion)
    → Best (head sorted) cs
    → Best (head (insert_by ranks_before a sorted)) (a ∷ cs)
unfolding insert_by
insert-Best a [] cs h = rw h (inl refl, (omega arith, tt))
insert-Best a (b ∷ rest) cs (member, all) = elim (Bool-cases (ranks_before b a)) [
  | inl first ↦ rw first (inr member, (ranks-score a b first, all))
  | inr later ↦
      rw later (inl refl, (omega arith, lower b.score a.score (not_ranks-score a b later) cs all))
]

sort-Best : (cs : List LocatorSuggestion) → Best (head (sort_by ranks_before cs)) cs
unfolding sort_by
sort-Best [] = refl
sort-Best (c ∷ cs) = insert-Best c (sort_by ranks_before cs) cs (sort-Best cs)

module _ {F : Type 0} where
  -- The best locator is one of the candidates, and no candidate has a higher score; there is none
  -- only if there is no candidate.
  pub best_locator-Best :
      (rt : Runtime F) (element root : Node F)
      → Best (best_locator rt element root) (candidates rt element root)
  unfolding best_locator recommend
  best_locator-Best rt element root = sort-Best (candidates rt element root)

  -- At this index, counted from `i`, a node with the path stands in the list.
  abbrev pub Stands : Option (Json F) → ℕ → List (Node F) → Option ℕ → Type 0
  Stands path i ns none = All (λ n. same_path (attr "path" n) path ≡ false) ns
  Stands path i ns (some k) =
      (j : ℕ) × (n : Node F) × (k ≡ i + j)
      × (get_elem? ns j ≡ some n)
      × (same_path (attr "path" n) path ≡ true)

  Stands-suc :
      (path : Option (Json F)) (i : ℕ) (n : Node F) (ns : List (Node F)) (o : Option ℕ)
      → same_path (attr "path" n) path ≡ false
      → Stands path (suc i) ns o
      → Stands path i (n ∷ ns) o
  Stands-suc path i n ns none e h = (e, h)
  Stands-suc path i n ns (some k) e (j, m, same, at, found) = (suc j, m, omega arith, at, found)

  position_of-Stands :
      (path : Option (Json F)) (i : ℕ) (ns : List (Node F))
      → Stands path i ns (position_of path i ns)
  unfolding position_of
  position_of-Stands path i [] = tt
  position_of-Stands path i (n ∷ ns) = elim (Bool-cases (same_path (attr "path" n) path)) [
    | inl here ↦ rw here (zero, n, omega arith, refl, here)
    | inr other ↦ rw other (Stands-suc path i n ns _ other (position_of-Stands path (suc i) ns))
  ]

  -- For an element that has a type, the index is the place, among the nodes of that type in the
  -- order of the tree, of a node with the element's path; there is none only if no node of the type
  -- has this path.
  pub index_among-Stands :
      (root element : Node F)
      → is_empty (text_or_empty (attr "type" element)) ≡ false
      → Stands
          (attr "path" element)
          0
          (of_type (text_or_empty (attr "type" element)) (iter_nodes root))
          (index_among root element)
  unfolding index_among
  index_among-Stands root element typed = rw typed (position_of-Stands (attr "path" element) 0 _)
