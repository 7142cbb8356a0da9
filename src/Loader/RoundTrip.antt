-- ===== src/Loader/RoundTrip.antt =====
-- AddRoads and AddBuildings of src/json_loader.cpp on what RoadsToJson and BuildingsToJson of
-- src/api_handler.cpp make.
use mathlib.Core.List.{append_assoc, append-nil}
use mathlib.Core.Option
use backend_for_browser_game.Base.{
  ℤ, pos, negsuc, ◌-◌, ◌^◌, ◌≤ℤ◌, eqb_ℤ_iff, ◌≡◌, refl, sym, ap, ◌∙◌, ◌⊎◌, inl, inr, true, false,
  List, [], ◌∷◌, ◌++◌, map, All, find_if, str_eq, Bytes, some, Result, ok, ◌>>=◌, >>=_assoc, arith,
  Bool-cases,
}
use backend_for_browser_game.Json.{Json, Maker, IsFaithful, codes}
use backend_for_browser_game.Double.{Double}
use backend_for_browser_game.Model.Road.{
  Point, Road, horizontal_road, vertical_road, is_horizontal, build_bounding_box,
}
use backend_for_browser_game.Model.GameMap.{GameMap, Rectangle, add_road, add_building}
use backend_for_browser_game.Loader.{
  to_int, int_at, object_of, road_of, add_roads, building_of, add_buildings,
}
use backend_for_browser_game.Handlers.MapJson.{
  road_json, roads_to_json, building_json, buildings_to_json,
}

-- A number of 32 bits.
abbrev pub IsInt : ℤ → Type 0
IsInt n = (negsuc (2 ^ 31 - 1) ≤ℤ n) × (n ≤ℤ pos (2 ^ 31 - 1))

to_int_id : (n : ℤ) → IsInt n → to_int n ≡ n
unfolding to_int
to_int_id (pos n) h = ground arith
to_int_id (negsuc n) h = ground arith

abbrev pub IsBuilding : Rectangle → Type 0
IsBuilding b = IsInt b.position.x × IsInt b.position.y × IsInt b.size.width × IsInt b.size.height

module _ {D : Type 0} ⦃d : Double D⦄ where
  -- A road that one of the constructors has made, between points whose coordinates are of 32 bits.
  pub record IsMade (r : Road D) : Type 0 where
    pub made : (r ≡ horizontal_road r.start r.finish.x) ⊎ (r ≡ vertical_road r.start r.finish.y)
    pub start_x : IsInt r.start.x
    pub start_y : IsInt r.start.y
    pub end_x : IsInt r.finish.x
    pub end_y : IsInt r.finish.y

  abbrev of_ends : Point → Point → Road D
  of_ends s e = record { start = s; finish = e; bounding_box = build_bounding_box s e }

  IsMade-of_ends : (r : Road D) → IsMade r → r ≡ of_ends r.start r.finish
  unfolding horizontal_road vertical_road
  IsMade-of_ends r v = elim v.made [
    | inl e ↦ e ∙ ap (of_ends r.start) (sym (ap (λ (x : Road D). x.finish) e))
    | inr e ↦ e ∙ ap (of_ends r.start) (sym (ap (λ (x : Road D). x.finish) e))
  ]

  horizontal_again :
      (r : Road D) → IsMade r → is_horizontal r ≡ true → horizontal_road r.start r.finish.x ≡ r
  unfolding horizontal_road
  horizontal_again r v h =
      let level : r.start.y ≡ r.finish.y = (eqb_ℤ_iff r.start.y r.finish.y).0 h in
      ap (λ y. of_ends r.start (record { x = r.finish.x; y = y })) level ∙ sym (IsMade-of_ends r v)

  vertical_again :
      (r : Road D) → IsMade r → is_horizontal r ≡ false → vertical_road r.start r.finish.y ≡ r
  unfolding horizontal_road vertical_road
  vertical_again r v n = elim v.made [
    | inl e ↦
        let level : r.finish.y ≡ r.start.y = ap (λ (x : Road D). x.finish.y) e in
        let flat = (eqb_ℤ_iff r.start.y r.finish.y).1 (sym level) in
        absurd (ground (arith, n, flat))
    | inr e ↦ sym e
  ]

module _ {J : Type 0} (json : Json J) (make : Maker J) (faithful : IsFaithful json make) where
  int_at-of_object :
      (ms : List (Bytes × J)) (key : Bytes) (n : ℤ)
      → IsInt n
      → Option.map (λ (m : Bytes × J). m.1) (find_if (λ (m : Bytes × J). str_eq m.0 key) ms)
        ≡ some (make.of_int n)
      → int_at json (make.of_object ms) key ≡ ok n
  int_at-of_object ms key n fits h =
      rw (faithful.member_of_object ms key, h, faithful.as_int64_of_int n, to_int_id n fits) refl

  object_of-of_object :
      (ms : List (Bytes × J)) → object_of json (make.of_object ms) ≡ ok (make.of_object ms)
  object_of-of_object ms = rw (faithful.is_object_of_object ms) refl

  module _ {D : Type 0} ⦃d : Double D⦄ where
    abbrev parsed_road : J → Result (Road D)
    parsed_road v = object_of json v >>= λ o. road_of json o (json.member o (codes "x1"))

    road_of_horizontal :
        (x0 y0 x1 : ℤ)
        → IsInt x0 × IsInt y0 × IsInt x1
        → parsed_road (
            make.of_object (
              (codes "x0", make.of_int x0)
              ∷ (codes "y0", make.of_int y0)
              ∷ (codes "x1", make.of_int x1)
              ∷ []))
          ≡ ok (horizontal_road (record { x = x0; y = y0 }) x1)
    unfolding road_of
    road_of_horizontal x0 y0 x1 (a, b, c) =
        let ms : List (Bytes × J) =
          (codes "x0", make.of_int x0)
          ∷ (codes "y0", make.of_int y0)
          ∷ (codes "x1", make.of_int x1)
          ∷ [] in
        rw
          (
            object_of-of_object ms,
            faithful.member_of_object ms (codes "x1"),
            int_at-of_object ms (codes "x0") x0 a refl,
            int_at-of_object ms (codes "y0") y0 b refl,
            faithful.as_int64_of_int x1,
            to_int_id x1 c,
          )
          refl

    road_of_vertical :
        (x0 y0 y1 : ℤ)
        → IsInt x0 × IsInt y0 × IsInt y1
        → parsed_road (
            make.of_object (
              (codes "x0", make.of_int x0)
              ∷ (codes "y0", make.of_int y0)
              ∷ (codes "y1", make.of_int y1)
              ∷ []))
          ≡ ok (vertical_road (record { x = x0; y = y0 }) y1)
    unfolding road_of
    road_of_vertical x0 y0 y1 (a, b, c) =
        let ms : List (Bytes × J) =
          (codes "x0", make.of_int x0)
          ∷ (codes "y0", make.of_int y0)
          ∷ (codes "y1", make.of_int y1)
          ∷ [] in
        rw
          (
            object_of-of_object ms,
            faithful.member_of_object ms (codes "x1"),
            int_at-of_object ms (codes "x0") x0 a refl,
            int_at-of_object ms (codes "y0") y0 b refl,
            int_at-of_object ms (codes "y1") y1 c refl,
          )
          refl

    road_of-road_json : (r : Road D) → IsMade r → parsed_road (road_json make r) ≡ ok r
    unfolding road_json
    road_of-road_json r v = elim (Bool-cases (is_horizontal r)) [
      | inl y ↦
          rw (y, road_json)
            (road_of_horizontal r.start.x r.start.y r.finish.x (v.start_x, v.start_y, v.end_x)
              ∙ ap ok (horizontal_again r v y))
      | inr n ↦
          rw (n, road_json)
            (road_of_vertical r.start.x r.start.y r.finish.y (v.start_x, v.start_y, v.end_y)
              ∙ ap ok (vertical_again r v n))
    ]

    add_each_road :
        (rs : List (Road D)) (n : GameMap D)
        → All IsMade rs
        → add_roads json n (map (road_json make) rs) ≡ ok (record n { roads = n.roads ++ rs })
    unfolding add_roads add_road
    add_each_road [] n v = ap (λ rs. ok (record n { roads = rs })) (sym (append-nil n.roads))
    add_each_road (r ∷ rs) n v =
        sym (>>=_assoc (object_of json (road_json make r)) _ _)
        ∙ ap (λ m. m >>= λ r. add_roads json (add_road n r) (map (road_json make) rs))
            (road_of-road_json r v.0)
        ∙ add_each_road rs (add_road n r) v.1
        ∙ ap (λ rs. ok (record n { roads = rs })) (append_assoc n.roads (r ∷ []) rs)

  building_of-building_json :
      (b : Rectangle)
      → IsBuilding b
      → (object_of json (building_json make b) >>= building_of json) ≡ ok b
  unfolding building_json building_of
  building_of-building_json b (x, y, w, h) =
      let ms : List (Bytes × J) =
        (codes "x", make.of_int b.position.x)
        ∷ (codes "y", make.of_int b.position.y)
        ∷ (codes "w", make.of_int b.size.width)
        ∷ (codes "h", make.of_int b.size.height)
        ∷ [] in
      rw
        (
          object_of-of_object ms,
          int_at-of_object ms (codes "x") b.position.x x refl,
          int_at-of_object ms (codes "y") b.position.y y refl,
          int_at-of_object ms (codes "w") b.size.width w refl,
          int_at-of_object ms (codes "h") b.size.height h refl,
        )
        refl

  module _ {D : Type 0} where
    add_each_building :
        (bs : List Rectangle) (n : GameMap D)
        → All IsBuilding bs
        → add_buildings json n (map (building_json make) bs)
          ≡ ok (record n { buildings = n.buildings ++ bs })
    unfolding add_buildings add_building
    add_each_building [] n v =
        ap (λ bs. ok (record n { buildings = bs })) (sym (append-nil n.buildings))
    add_each_building (b ∷ bs) n v =
        sym (>>=_assoc (object_of json (building_json make b)) _ _)
        ∙ ap (λ m. m >>= λ b. add_buildings json (add_building n b) (map (building_json make) bs))
            (building_of-building_json b v.0)
        ∙ add_each_building bs (add_building n b) v.1
        ∙ ap (λ bs. ok (record n { buildings = bs })) (append_assoc n.buildings (b ∷ []) bs)

  module _ {D : Type 0} ⦃d : Double D⦄ where
    -- Take a map whose roads the constructors have made, between points whose coordinates are of 32
    -- bits, and whose buildings have coordinates and sizes of 32 bits. From the JSON that is made of
    -- its roads, and from that of its buildings, loading adds these to a map unchanged and in order.
    pub add_roads-roads_to_json :
        (m n : GameMap D)
        → All IsMade m.roads
        → All IsBuilding m.buildings
        → (add_roads json n (roads_to_json make m) ≡ ok (record n { roads = n.roads ++ m.roads }))
          × (add_buildings json n (buildings_to_json make m)
              ≡ ok (record n { buildings = n.buildings ++ m.buildings }))
    unfolding roads_to_json buildings_to_json
    add_roads-roads_to_json m n v w = (add_each_road m.roads n v, add_each_building m.buildings n w)
