-- ===== src/Model/GameMap/RandomPoint.antt =====
-- Map::GetRandomPointOnRoad of src/model.cpp, against the test IsPointOnRoad.
use backend_for_browser_game.Base.{
  ℕ, zero, suc, ℤ, pos, pos_part, ◌+◌, ◌%◌, ◌+ℤ◌, ◌-ℤ◌, ◌≤ℤ◌, ltb_ℤ, eqb_ℤ, min_ℤ, max_ℤ,
  min_ℤ_self, +ℤ_parts, -ℤ_distance, ◌≡◌, subst, inl, inr, Bool, true, List, [], ◌∷◌, length,
  get_elem?, any_of, all_of, some, ok, undefined, or_fail, or_fail-eq-ok, >>=-eq-ok, arith,
  Bool-cases, if◌then◌else◌,
}
use backend_for_browser_game.Double.{Double, IsIeee}
use backend_for_browser_game.Geom.{Point2D}
use backend_for_browser_game.Model.Road.{
  Point, Road, is_horizontal, is_point_on_road, in_band, road_half_width,
}
use backend_for_browser_game.Model.Road.Stop.{is_straight}
use backend_for_browser_game.Model.GameMap.{GameMap, uniform, get_random_point_on_road}

pub uniform_bounds : (lo hi v : ℤ) (draw : ℕ) → uniform lo hi draw ≡ ok v → (lo ≤ℤ v) × (v ≤ℤ hi)
unfolding uniform
uniform_bounds lo hi v draw h = elim (Bool-cases (ltb_ℤ hi lo)) [
  | inl y ↦ ground arith
  | inr n ↦
      let e : lo +ℤ pos (draw % (pos_part (hi -ℤ lo) + 1)) ≡ v = ground (arith, n) in
      let order : lo ≤ℤ hi = ground (arith, n) in
      subst (λ x. (lo ≤ℤ x) × (x ≤ℤ hi)) e
        (omega (
          arith,
          order,
          -ℤ_distance hi lo order,
          +ℤ_parts lo (pos (draw % (pos_part (hi -ℤ lo) + 1))),
        ))
]

-- A draw between two numbers, whichever is the larger.
between_bounds :
    (a b v : ℤ) (draw : ℕ)
    → (if ltb_ℤ b a then uniform b a draw else uniform a b draw) ≡ ok v
    → (min_ℤ a b ≤ℤ v) × (v ≤ℤ max_ℤ a b)
unfolding min_ℤ max_ℤ
between_bounds a b v draw h = elim (Bool-cases (ltb_ℤ b a)) [
  | inl y ↦ ground (arith, uniform_bounds b a v draw (rw y at h))
  | inr n ↦ ground (arith, uniform_bounds a b v draw (rw n at h))
]

module _ {D : Type 0} ⦃d : Double D⦄ where
  abbrev pub as_point_2d : Point → Point2D D
  as_point_2d p = record { x = d.of_int p.x; y = d.of_int p.y }

  module _ (laws : IsIeee D) where
    open laws use {le_trans, sub_le, le_add, of_int_mono, of_int-IsFinite, decimal_nonneg}

    in_band_of_int : (v lo hi : ℤ) → lo ≤ℤ v → v ≤ℤ hi → in_band (d.of_int v) lo hi ≡ true
    unfolding in_band
    in_band_of_int v lo hi a b =
        let (small, fin) = decimal_nonneg 4 1 in
        ground (
          arith,
          le_trans (d.sub (d.of_int lo) road_half_width) (d.of_int lo) (d.of_int v)
              (sub_le (d.of_int lo) road_half_width small (of_int-IsFinite lo) fin)
              (of_int_mono lo v a),
          le_trans (d.of_int v) (d.of_int hi) (d.add (d.of_int hi) road_half_width)
              (of_int_mono v hi b)
              (le_add (d.of_int hi) road_half_width small (of_int-IsFinite hi)),
        )

    -- Between the ends of a straight road a point of whole units lies on the road.
    between_ends :
        (r : Road D) (p : Point)
        → is_straight r ≡ true
        → (min_ℤ r.start.x r.finish.x ≤ℤ p.x) × (p.x ≤ℤ max_ℤ r.start.x r.finish.x)
        → (min_ℤ r.start.y r.finish.y ≤ℤ p.y) × (p.y ≤ℤ max_ℤ r.start.y r.finish.y)
        → is_point_on_road (as_point_2d p) r ≡ true
    unfolding is_straight is_point_on_road
    between_ends r p s h k = elim (Bool-cases (is_horizontal r)) [
      | inl y ↦ ground (
        arith,
        in_band_of_int p.x (min_ℤ r.start.x r.finish.x) (max_ℤ r.start.x r.finish.x) h.0 h.1,
        in_band_of_int p.y r.start.y r.start.y (inside r.start.y r.finish.y p.y y k).0
            (inside r.start.y r.finish.y p.y y k).1,
      )
      | inr n ↦
          let y : eqb_ℤ r.start.x r.finish.x ≡ true = ground (arith, n, s) in
          ground (
            arith,
            in_band_of_int p.y (min_ℤ r.start.y r.finish.y) (max_ℤ r.start.y r.finish.y) k.0 k.1,
            in_band_of_int p.x r.start.x r.start.x (inside r.start.x r.finish.x p.x y h).0
                (inside r.start.x r.finish.x p.x y h).1,
          )
    ]
      where
        inside :
            (a b v : ℤ)
            → eqb_ℤ a b ≡ true
            → (min_ℤ a b ≤ℤ v) × (v ≤ℤ max_ℤ a b)
            → (a ≤ℤ v) × (v ≤ℤ a)
        inside a b v e w =
            let (small, large) = min_ℤ_self a b e in
            (subst (λ t. t ≤ℤ v) small w.0, subst (λ t. v ≤ℤ t) large w.1)

    any_of-get_elem? :
        (q : Road D → Bool) (rs : List (Road D)) (i : ℕ) {r : Road D}
        → get_elem? rs i ≡ some r
        → q r ≡ true
        → any_of q rs ≡ true
    any_of-get_elem? q [] i e h = cc
    any_of-get_elem? q (x ∷ rs) zero e h = ground arith
    any_of-get_elem? q (x ∷ rs) (suc i) e h = ground (arith, any_of-get_elem? q rs i e h)

    all_of-get_elem? :
        (q : Road D → Bool) (rs : List (Road D)) (i : ℕ) {r : Road D}
        → get_elem? rs i ≡ some r
        → all_of q rs ≡ true
        → q r ≡ true
    all_of-get_elem? q [] i e h = cc
    all_of-get_elem? q (x ∷ rs) zero e h = ground arith
    all_of-get_elem? q (x ∷ rs) (suc i) e h = all_of-get_elem? q rs i e (ground arith)

    -- The point that is drawn lies on some road of the map, by the very test that moving dogs pass.
    pub get_random_point_on_road_lem :
        (m : GameMap D) (i a b : ℕ) (p : Point)
        → all_of is_straight m.roads ≡ true
        → get_random_point_on_road m i a b ≡ ok p
        → any_of (is_point_on_road (as_point_2d p)) m.roads ≡ true
    unfolding get_random_point_on_road
    get_random_point_on_road_lem m i a b p s h =
        let (k, e1, h1) = >>=-eq-ok (uniform (pos 0) (pos (length m.roads) -ℤ pos 1) i) _ h in
        let (r, e2, h2) = >>=-eq-ok (or_fail (get_elem? m.roads (pos_part k)) undefined) _ h1 in
        let (x, e3, h3) =
          >>=-eq-ok
            (if ltb_ℤ r.finish.x r.start.x
              then uniform r.finish.x r.start.x a
              else uniform r.start.x r.finish.x a)
            _ h2 in
        let (y, e4, h4) =
          >>=-eq-ok
            (if ltb_ℤ r.finish.y r.start.y
              then uniform r.finish.y r.start.y b
              else uniform r.start.y r.finish.y b)
            _ h3 in
        let at = or_fail-eq-ok (get_elem? m.roads (pos_part k)) undefined e2 in
        let made : Point = record { x = x; y = y } in
        let same : made ≡ p = ground (arith, h4) in
        subst (λ q. any_of (is_point_on_road (as_point_2d q)) m.roads ≡ true) same
          (any_of-get_elem? (is_point_on_road (as_point_2d made)) m.roads (pos_part k) at (
            between_ends r made (all_of-get_elem? is_straight m.roads (pos_part k) at s)
              (between_bounds r.start.x r.finish.x x a e3)
              (between_bounds r.start.y r.finish.y y b e4)))

module _ {D : Type 0} ⦃d : Double D⦄ (laws : IsIeee D) where
  -- The start of a straight road lies on the road.
  pub start-on_road :
      (rs : List (Road D)) (i : ℕ) (r : Road D)
      → get_elem? rs i ≡ some r
      → all_of is_straight rs ≡ true
      → any_of (is_point_on_road (as_point_2d r.start)) rs ≡ true
  start-on_road rs i r at s =
      any_of-get_elem? laws (is_point_on_road (as_point_2d r.start)) rs i at (
        between_ends laws r r.start (all_of-get_elem? laws is_straight rs i at s)
          (start_between r.start.x r.finish.x) (start_between r.start.y r.finish.y))
    where
      start_between : (a b : ℤ) → (min_ℤ a b ≤ℤ a) × (a ≤ℤ max_ℤ a b)
      start_between a b = unfold min_ℤ max_ℤ in ground arith
