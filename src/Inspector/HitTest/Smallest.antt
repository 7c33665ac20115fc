-- ===== src/Inspector/HitTest/Smallest.antt =====
-- The node that a hit test finds has the least area of all that the point hits.
use sandstorm_ios_driver.Prelude.{
  ◌≡◌, refl, Bool, true, false, Bool-cases, inl, inr, ◌⊎◌, Option, none, some, List, [], ◌∷◌, All,
}
use sandstorm_ios_driver.Python.Exception.{Except, ok, err, ◌>>=◌}
use sandstorm_ios_driver.Python.Runtime.{Runtime}
use sandstorm_ios_driver.Inspector.Tree.{Node, iter_nodes}
use sandstorm_ios_driver.Inspector.HitTest.{hit_area, improve, hit_loop, hit_test}

-- `<` of floats is transitive and irreflexive, with NaN as well.
abbrev pub Strict : {F : Type 0} → Runtime F → Type 0
Strict {F} rt =
    ((a b c : F) → rt.lt a b ≡ true → rt.lt b c ≡ true → rt.lt a c ≡ true)
    × ((a : F) → rt.lt a a ≡ false)

-- What the loop makes of its least area: the same, or a smaller one.
abbrev Below : {F : Type 0} → Runtime F → F → F → Type 0
Below rt a' a = (a' ≡ a) ⊎ (rt.lt a' a ≡ true)

clash : {b : Bool} → b ≡ true → b ≡ false → ⊥
clash h k = cc

module _ {F : Type 0} (rt : Runtime F) (order : Strict rt) where
  not_smaller : (a' b : F) → Below rt a' b → rt.lt b a' ≡ false
  not_smaller a' b (inl same) = rw same (order.1 b)
  not_smaller a' b (inr less) = elim (Bool-cases (rt.lt b a')) [
    | inl back ↦ absurd (clash (order.0 b a' b back less) (order.1 b))
    | inr e ↦ e
  ]

  still_not_smaller : (a' a b : F) → Below rt a' a → rt.lt b a ≡ false → rt.lt b a' ≡ false
  still_not_smaller a' a b (inl same) e = rw same e
  still_not_smaller a' a b (inr less) e = elim (Bool-cases (rt.lt b a')) [
    | inl back ↦ absurd (clash (order.0 b a' a back less) e)
    | inr k ↦ k
  ]

  Below-trans : (a' b a : F) → Below rt a' b → rt.lt b a ≡ true → Below rt a' a
  Below-trans a' b a (inl same) e = inr (rw same e)
  Below-trans a' b a (inr less) e = inr (order.0 a' b a less e)

module _ {F : Type 0} ⦃rt : Runtime F⦄ where
  -- Not the area of a hit that is smaller.
  abbrev pub NotSmaller : F → Except F (Option F) → Type 0
  NotSmaller a (ok (some b)) = rt.lt b a ≡ false
  NotSmaller a _ = Unit

  abbrev pub Least : Bool → F → F → F → List (Node F) → Type 0
  Least v x y a ns = All (λ m. NotSmaller a (hit_area v x y m)) ns

  -- The node is one of the list, and this is the area of its hit.
  abbrev pub Origin : Bool → F → F → Option (Node F) → F → List (Node F) → Type 0
  Origin v x y best a [] = ⊥
  Origin v x y best a (m ∷ ms) =
      ((hit_area v x y m ≡ ok (some a)) × (best ≡ some m)) ⊎ Origin v x y best a ms

  -- The loop over the nodes, from the accumulator `best`, `a`.
  abbrev Sound :
      Bool → F → F → Option (Node F) → F → List (Node F) → Except F (Option (Node F) × F) → Type 0
  Sound v x y best a ns (err e) = Unit
  Sound v x y best a ns (ok (best', a')) =
      Below rt a' a × Least v x y a' ns × (((best' ≡ best) × (a' ≡ a)) ⊎ Origin v x y best' a' ns)

  skipped :
      (v : Bool) (x y : F) (best : Option (Node F)) (a : F) (n : Node F) (ns : List (Node F))
      (out : Except F (Option (Node F) × F))
      → hit_area v x y n ≡ ok none
      → Sound v x y best a ns out
      → Sound v x y best a (n ∷ ns) out
  skipped v x y best a n ns (err e) area h = tt
  skipped v x y best a n ns (ok (best', a')) area (below, least, inl same) =
      (below, (rw area tt, least), inl same)
  skipped v x y best a n ns (ok (best', a')) area (below, least, inr origin) =
      (below, (rw area tt, least), inr (inr origin))

  replaced :
      Strict rt
      → (v : Bool) (x y : F) (best : Option (Node F)) (a b : F) (n : Node F) (ns : List (Node F))
        (out : Except F (Option (Node F) × F))
      → hit_area v x y n ≡ ok (some b)
      → rt.lt b a ≡ true
      → Sound v x y (some n) b ns out
      → Sound v x y best a (n ∷ ns) out
  replaced order v x y best a b n ns (err e) area less h = tt
  replaced order v x y best a b n ns (ok (best', a')) area less (below, least, inl (same, equal)) =
      (
        Below-trans rt order a' b a below less,
        (rw area (not_smaller rt order a' b below), least),
        inr (inl (rw equal area, same)),
      )
  replaced order v x y best a b n ns (ok (best', a')) area less (below, least, inr origin) = (
    Below-trans rt order a' b a below less,
    (rw area (not_smaller rt order a' b below), least),
    inr (inr origin),
  )

  kept :
      Strict rt
      → (v : Bool) (x y : F) (best : Option (Node F)) (a b : F) (n : Node F) (ns : List (Node F))
        (out : Except F (Option (Node F) × F))
      → hit_area v x y n ≡ ok (some b)
      → rt.lt b a ≡ false
      → Sound v x y best a ns out
      → Sound v x y best a (n ∷ ns) out
  kept order v x y best a b n ns (err e) area more h = tt
  kept order v x y best a b n ns (ok (best', a')) area more (below, least, inl same) =
      (below, (rw area (still_not_smaller rt order a' a b below more), least), inl same)
  kept order v x y best a b n ns (ok (best', a')) area more (below, least, inr origin) =
      (below, (rw area (still_not_smaller rt order a' a b below more), least), inr (inr origin))

  hit_loop-Sound :
      Strict rt
      → (v : Bool) (x y : F) (best : Option (Node F)) (a : F) (ns : List (Node F))
      → Sound v x y best a ns (hit_loop v x y (best, a) ns)
  unfolding hit_loop
  hit_loop-Sound order v x y best a [] = (inl refl, tt, inl (refl, refl))
  hit_loop-Sound order v x y best a (n ∷ ns) =
      by_area (hit_area v x y n) refl (λ best' a'. hit_loop-Sound order v x y best' a' ns)
    where
      by_area :
          (r : Except F (Option F))
          → hit_area v x y n ≡ r
          → ((best' : Option (Node F)) (a' : F)
              → Sound v x y best' a' ns (hit_loop v x y (best', a') ns))
          → Sound v x y best a (n ∷ ns) (r >>= λ b. hit_loop v x y (improve n b (best, a)) ns)
      by_area (err e) area again = tt
      by_area (ok none) area again = skipped v x y best a n ns _ area (again best a)
      by_area (ok (some b)) area again = elim (Bool-cases (rt.lt b a)) [
        | inl less ↦ rw less (replaced order v x y best a b n ns _ area less (again (some n) b))
        | inr more ↦ rw more (kept order v x y best a b n ns _ area more (again best a))
      ]

  -- The answer over a list of nodes: a node of the list that is hit, of the least area; or none, if
  -- no node is hit with an area below infinity.
  abbrev pub Smallest : Bool → F → F → List (Node F) → Except F (Option (Node F)) → Type 0
  Smallest v x y ns (err e) = Unit
  Smallest v x y ns (ok none) = Least v x y rt.inf ns
  Smallest v x y ns (ok (some n)) = (a : F) × Origin v x y (some n) a ns × Least v x y a ns

  no-Origin : (v : Bool) (x y a : F) (ns : List (Node F)) → Origin v x y none a ns → ⊥
  no-Origin v x y a [] h = h
  no-Origin v x y a (n ∷ ns) (inl (area, same)) = cc
  no-Origin v x y a (n ∷ ns) (inr h) = no-Origin v x y a ns h

  from_loop :
      (v : Bool) (x y : F) (ns : List (Node F)) (out : Except F (Option (Node F) × F))
      → Sound v x y none rt.inf ns out
      → Smallest v x y ns (out >>= λ (best, _). ok best)
  from_loop v x y ns (err e) h = tt
  from_loop v x y ns (ok (none, a)) (below, least, inl (same, equal)) = rw equal at least
  from_loop v x y ns (ok (none, a)) (below, least, inr origin) =
      absurd (no-Origin v x y a ns origin)
  from_loop v x y ns (ok (some n, a)) (below, least, inl (same, equal)) = absurd cc
  from_loop v x y ns (ok (some n, a)) (below, least, inr origin) = (a, origin, least)

  -- If the order of floats is strict, `hit_test`, where it raises nothing, answers with a node of
  -- the tree that is hit (it is not skipped as hidden, its area is above zero, it contains the
  -- point) and no hit of the tree has a smaller area; or with none, and then no hit has an area
  -- below infinity.
  pub hit_test-Smallest :
      Strict rt
      → (root : Node F) (x y : F) (visible_only : Bool)
      → Smallest visible_only x y (iter_nodes root) (hit_test root x y visible_only)
  unfolding hit_test
  hit_test-Smallest order root x y v =
      from_loop v x y (iter_nodes root) _ (hit_loop-Sound order v x y none rt.inf (iter_nodes root))
