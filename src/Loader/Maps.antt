-- ===== src/Loader/Maps.antt =====
-- What LoadGame of src/json_loader.cpp makes of the maps of a file.
use backend_for_browser_game.Base.{
  ℕ, ◌+◌, ◌≡◌, refl, ◌∙◌, subst, inl, inr, Bool, true, List, [], ◌∷◌, ◌++◌, length, length-append,
  all_of, any_of, str_eq, Bytes, Option, some, none, ok, ok-inj, >>=-eq-ok, arith, Bool-cases,
}
use backend_for_browser_game.Json.{Json, codes, read}
use backend_for_browser_game.Double.{Double}
use backend_for_browser_game.Model.Road.{Road, horizontal_road, vertical_road}
use backend_for_browser_game.Model.Road.Stop.{is_straight}
use backend_for_browser_game.Model.GameMap.{
  GameMap, new_office, add_road, add_building, add_office, add_loot_value,
}
use backend_for_browser_game.Loader.{
  to_u32, object_of, int_at, text_at, road_of, add_roads, building_of, add_buildings, add_offices,
  add_loot_values,
}

all_of-last :
    {A : Type 0} (p : A → Bool) (xs : List A) (x : A)
    → all_of p xs ≡ true
    → p x ≡ true
    → all_of p (xs ++ (x ∷ [])) ≡ true
all_of-last p [] x h k = ground arith
all_of-last p (y ∷ xs) x h k = ground (arith, all_of-last p xs x)

module _ {D : Type 0} ⦃d : Double D⦄ where
  -- What the other parts of a map leave as it is.
  pub record SameRoads (m m' : GameMap D) : Type 0 where
    pub same_roads : m'.roads ≡ m.roads
    pub same_tree : m'.road_rtree ≡ m.road_rtree
    pub same_values : m'.loot_value ≡ m.loot_value

  SameRoads-refl : (m : GameMap D) → SameRoads m m
  SameRoads-refl m = record { same_roads = refl; same_tree = refl; same_values = refl }

  SameRoads-trans : (a b c : GameMap D) → SameRoads a b → SameRoads b c → SameRoads a c
  SameRoads-trans a b c f g = record {
    same_roads = g.same_roads ∙ f.same_roads;
    same_tree = g.same_tree ∙ f.same_tree;
    same_values = g.same_values ∙ f.same_values;
  }

  add_office-SameRoads : (m m' : GameMap D) (o : _) → add_office m o ≡ ok m' → SameRoads m m'
  unfolding add_office
  add_office-SameRoads m m' o h =
      elim (Bool-cases (any_of (λ (e : Bytes × ℕ). str_eq e.0 o.id) m.warehouse_id_to_index)) [
        | inl y ↦ absurd (ground (arith, rw y at h))
        | inr n ↦
            subst (SameRoads m) (ok-inj (rw n at h))
              (record { same_roads = refl; same_tree = refl; same_values = refl })
      ]

  module _ {J : Type 0} (json : Json J) where
    road_of-straight :
        (v : J) (x : Option J) (r : Road D) → road_of json v x ≡ ok r → is_straight r ≡ true
    unfolding road_of horizontal_road vertical_road is_straight
    road_of-straight v (some x) r h =
        let (x0, e₁, h₁) = >>=-eq-ok (int_at json v (codes "x0")) _ h in
        let (y0, e₂, h₂) = >>=-eq-ok (int_at json v (codes "y0")) _ h₁ in
        let (x1, e₃, h₃) = >>=-eq-ok (read (some x) json.as_int64) _ h₂ in
        subst (λ (r : Road D). is_straight r ≡ true) (ok-inj h₃) (ground arith)
    road_of-straight v none r h =
        let (x0, e₁, h₁) = >>=-eq-ok (int_at json v (codes "x0")) _ h in
        let (y0, e₂, h₂) = >>=-eq-ok (int_at json v (codes "y0")) _ h₁ in
        let (y1, e₃, h₃) = >>=-eq-ok (int_at json v (codes "y1")) _ h₂ in
        subst (λ (r : Road D). is_straight r ≡ true) (ok-inj h₃) (ground arith)

    pub add_roads-straight :
        (m m' : GameMap D) (vs : List J)
        → add_roads json m vs ≡ ok m'
        → all_of is_straight m.roads ≡ true
        → (all_of is_straight m'.roads ≡ true)
          × (m'.road_rtree ≡ m.road_rtree)
          × (m'.loot_value ≡ m.loot_value)
    unfolding add_roads add_road
    add_roads-straight m m' [] h s =
        let same : m ≡ m' = ok-inj h in
        subst
          (λ (x : GameMap D).
            (all_of is_straight x.roads ≡ true)
            × (x.road_rtree ≡ m.road_rtree)
            × (x.loot_value ≡ m.loot_value))
          same (s, refl, refl)
    add_roads-straight m m' (v ∷ vs) h s =
        let (o, e₁, h₁) = >>=-eq-ok (object_of json v) _ h in
        let (r, e₂, h₂) = >>=-eq-ok (road_of json o (json.member o (codes "x1"))) _ h₁ in
        add_roads-straight (add_road m r) m' vs h₂
          (all_of-last is_straight m.roads r s (road_of-straight o _ r e₂))

    pub add_buildings-SameRoads :
        (m m' : GameMap D) (vs : List J) → add_buildings json m vs ≡ ok m' → SameRoads m m'
    unfolding add_buildings add_building
    add_buildings-SameRoads m m' [] h = subst (SameRoads m) (ok-inj h) (SameRoads-refl m)
    add_buildings-SameRoads m m' (v ∷ vs) h =
        let (o, e₁, h₁) = >>=-eq-ok (object_of json v) _ h in
        let (b, e₂, h₂) = >>=-eq-ok (building_of json o) _ h₁ in
        let later = add_buildings-SameRoads (add_building m b) m' vs h₂ in
        record {
          same_roads = later.same_roads;
          same_tree = later.same_tree;
          same_values = later.same_values;
        }

    pub add_offices-SameRoads :
        (m m' : GameMap D) (vs : List J) → add_offices json m vs ≡ ok m' → SameRoads m m'
    unfolding add_offices
    add_offices-SameRoads m m' [] h = subst (SameRoads m) (ok-inj h) (SameRoads-refl m)
    add_offices-SameRoads m m' (v ∷ vs) h =
        let (o, e₁, h₁) = >>=-eq-ok (object_of json v) _ h in
        let (x, e₂, h₂) = >>=-eq-ok (int_at json o (codes "x")) _ h₁ in
        let (y, e₃, h₃) = >>=-eq-ok (int_at json o (codes "y")) _ h₂ in
        let (dx, e₄, h₄) = >>=-eq-ok (int_at json o (codes "offsetX")) _ h₃ in
        let (dy, e₅, h₅) = >>=-eq-ok (int_at json o (codes "offsetY")) _ h₄ in
        let (id, e₆, h₆) = >>=-eq-ok (text_at json o (codes "id")) _ h₅ in
        let (mid, e₇, h₇) =
          >>=-eq-ok
            (add_office m (new_office id (record { x = x; y = y }) (record { dx = dx; dy = dy }))) _
            h₆ in
        SameRoads-trans m mid m' (add_office-SameRoads m mid _ e₇)
          (add_offices-SameRoads mid m' vs h₇)

    pub add_loot_values_lem :
        (m m' : GameMap D) (vs : List J)
        → add_loot_values json m vs ≡ ok m'
        → (m'.roads ≡ m.roads)
          × (m'.road_rtree ≡ m.road_rtree)
          × (m'.loot_types_count ≡ m.loot_types_count)
          × (length m'.loot_value ≡ length m.loot_value + length vs)
    unfolding add_loot_values add_loot_value
    add_loot_values_lem m m' [] h =
        let same : m ≡ m' = ok-inj h in
        subst
          (λ (x : GameMap D).
            (x.roads ≡ m.roads)
            × (x.road_rtree ≡ m.road_rtree)
            × (x.loot_types_count ≡ m.loot_types_count)
            × (length x.loot_value ≡ length m.loot_value + 0))
          same (refl, refl, refl, omega arith)
    add_loot_values_lem m m' (v ∷ vs) h =
        let (o, e₁, h₁) = >>=-eq-ok (object_of json v) _ h in
        let (n, e₂, h₂) = >>=-eq-ok (read (json.member o (codes "value")) json.as_int64) _ h₁ in
        let (a, b, c, e) = add_loot_values_lem (add_loot_value m (to_u32 n)) m' vs h₂ in
        (a, b, c, omega (arith, e, length-append m.loot_value (to_u32 n ∷ [])))
