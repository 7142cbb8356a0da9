-- ===== src/Model/Movement/OnRoad.antt =====
-- CalculateNewDogPosition of src/model.cpp and the roads of the map.
use backend_for_browser_game.Base.{
  ◌≡◌, refl, sym, ap, ◌∙◌, subst, ◌⊎◌, inl, inr, Bool, true, ◌||◌, ◌&&◌, List, [], ◌∷◌, any_of,
  all_of, arith, Bool-cases, if◌then◌else◌,
}
use backend_for_browser_game.Base.Perm.{any_of-perm, any_of-copy_if, all_of-perm, all_of-copy_if}
use backend_for_browser_game.Double.{Double, IsIeee}
use backend_for_browser_game.Geom.{Point2D}
use backend_for_browser_game.Model.Road.{Direction, is_point_on_road, find_stop_point}
use backend_for_browser_game.Model.Road.Stop.{is_straight, IsAhead, find_stop_point-on_road}
use backend_for_browser_game.Model.Dog.{Dog}
use backend_for_browser_game.Model.Movement.{
  Entry, Boost, IsRTree, best_stop, stands, target_of, relevant, move_along,
  calculate_new_dog_position,
}

module _ {D : Type 0} ⦃d : Double D⦄ where
  abbrev pub on_some_road : List (Entry D) → Point2D D → Bool
  on_some_road roads p = any_of (λ e. is_point_on_road p e.1) roads

  abbrev pub all_straight : List (Entry D) → Bool
  all_straight roads = all_of (λ e. is_straight e.1) roads

  module _ (laws : IsIeee D) (boost : Boost D) where
    best_stop-cons :
        (from to : Point2D D) (dir : Direction) (e : Entry D) (es : List (Entry D))
        (stop : Point2D D) (best : D)
        → let candidate = find_stop_point from to e.1 dir in
          ((is_point_on_road from e.1 ≡ true)
            × (best_stop boost from to dir (e ∷ es) stop best
                ≡ best_stop boost from to dir es candidate (boost.distance from candidate)))
          ⊎ (best_stop boost from to dir (e ∷ es) stop best
              ≡ best_stop boost from to dir es stop best)
    unfolding best_stop
    best_stop-cons from to dir e es stop best =
        let candidate = find_stop_point from to e.1 dir in
        elim (Bool-cases (is_point_on_road from e.1 && d.lt best (boost.distance from candidate))) [
          | inl h ↦ inl (ground arith, rw h)
          | inr h ↦ inr (rw h)
        ]

    -- The stop is the one that the loop began with, or lies on a road of the list.
    best_stop_cases :
        (from to : Point2D D) (dir : Direction) (es : List (Entry D)) (stop : Point2D D) (best : D)
        (p : Point2D D)
        → all_straight es ≡ true
        → IsAhead dir from to
        → best_stop boost from to dir es stop best ≡ p
        → (on_some_road es p ≡ true) ⊎ (p ≡ stop)
    best_stop_cases from to dir [] stop best p s a q = inr (sym q ∙ unfold best_stop in refl)
    best_stop_cases from to dir (e ∷ es) stop best p s a q =
        let candidate = find_stop_point from to e.1 dir in
        elim (best_stop-cons from to dir e es stop best) [
          | inl (here, h) ↦ ground (
            arith,
            best_stop_cases from to dir es candidate (boost.distance from candidate) p
                (ground arith) a (sym h ∙ q),
            find_stop_point-on_road laws from to e.1 dir (ground arith) a here,
          )
          | inr h ↦
              ground
                (arith, best_stop_cases from to dir es stop best p (ground arith) a (sym h ∙ q))
        ]

    -- The new position lies on a road of the list, or is the old one.
    move_along_cases :
        (g : Dog D) (dt : D) (es : List (Entry D)) (p : Point2D D)
        → all_straight es ≡ true
        → IsAhead g.direction g.position (target_of g dt)
        → (move_along boost g dt es).0 ≡ p
        → (on_some_road es p ≡ true) ⊎ (p ≡ g.position)
    unfolding move_along
    move_along_cases g dt [] p s a q = inr (sym q)
    move_along_cases g dt (e ∷ es) p s a q =
        elim (Bool-cases (on_some_road (e ∷ es) (target_of g dt))) [
          | inl h ↦ inl (subst (λ x. on_some_road (e ∷ es) x ≡ true) (rw h at q) h)
          | inr h ↦
              best_stop_cases g.position (target_of g dt) g.direction (e ∷ es) g.position
                d.min_positive p s a (rw h at q)
        ]

    module _ (tree : IsRTree boost) where
      -- A dog that stands on some road and moves along its heading comes to stand on some road.
      pub calculate-on_road :
          (g : Dog D) (dt : D) (roads : List (Entry D))
          → all_straight roads ≡ true
          → IsAhead g.direction g.position (target_of g dt)
          → on_some_road roads g.position ≡ true
          → on_some_road roads (calculate_new_dog_position boost g dt roads).0 ≡ true
      unfolding calculate_new_dog_position
      calculate-on_road g dt roads s a h = elim (Bool-cases (stands g)) [
        | inl e ↦ subst on (sym (ap (λ (b : Bool). (branch b).0) e)) h
        | inr e ↦ subst on (sym (ap (λ (b : Bool). (branch b).0) e)) moved
      ]
        where
          on : Point2D D → Type 0
          on x = on_some_road roads x ≡ true

          branch : Bool → Point2D D × Dog D
          branch b =
              if b then (g.position, g) else move_along boost g dt (relevant boost g dt roads)

          test : Entry D → Bool
          test e = boost.intersects g.position (target_of g dt) e.0 || boost.within g.position e.0

          moved : on (move_along boost g dt (relevant boost g dt roads)).0
          moved =
              elim (move_along_cases g dt (relevant boost g dt roads) _
                (all_of-perm _ (tree.query-perm test roads) ∙ all_of-copy_if _ test roads s) a
                refl) [
                  | inl found ↦
                      any_of-copy_if _ test roads
                        (sym (any_of-perm _ (tree.query-perm test roads)) ∙ found)
                  | inr same ↦ subst on (sym same) h
                ]
