-- ===== src/Loader/Games.antt =====
-- LoadGame of src/json_loader.cpp: the maps of the game that comes back.
use mathlib.Core.Option
use backend_for_browser_game.Base.{
  ℕ, ℤ, pos, ◌≡◌, refl, sym, ap, ◌∙◌, subst, inl, inr, true, List, [], ◌∷◌, ◌++◌, map, length,
  all_of, any_of, find_if, find_if_last, str_eq_refl, get_elem?, get_elem?-append-cases, str_eq,
  Bytes, Option, some, none, ok, err, or_fail, runtime_error, ok-inj, >>=-eq-ok, arith, Bool-cases,
  Result,
}
use backend_for_browser_game.Json.{Json, Doubles, codes, read}
use backend_for_browser_game.Double.{Double}
use backend_for_browser_game.Model.Road.{Road}
use backend_for_browser_game.Model.Road.Stop.{is_straight}
use backend_for_browser_game.Model.GameMap.{
  GameMap, new_map, set_dog_speed, set_bag_capacity, set_loot_types_count, build_road_rtree,
}
use backend_for_browser_game.Model.World.{
  Game, add_map, find_map, set_loot_generator, set_dog_retirement_time,
}
use backend_for_browser_game.Loader.{
  LootTypesStorage, add_loot_types, to_int, to_u32, object_of, text_at, array_at, double_or, int_or,
  add_roads, add_buildings, add_offices, add_loot_values, load_parts, load_map, load_maps, at_key,
  load_document, load_game, add_loot_generator_config, set_retirement, caught,
}
use backend_for_browser_game.Loader.Maps.{
  add_roads-straight, add_buildings-SameRoads, add_offices-SameRoads, add_loot_values_lem,
}

find_map-append :
    (t rest : List (Bytes × ℕ)) (id : Bytes) (k : ℕ)
    → Option.map (λ (e : Bytes × ℕ). e.1) (find_if (λ (e : Bytes × ℕ). str_eq e.0 id) t) ≡ some k
    → Option.map (λ (e : Bytes × ℕ). e.1) (find_if (λ (e : Bytes × ℕ). str_eq e.0 id) (t ++ rest))
      ≡ some k
find_map-append [] rest id k h = absurd (ground (arith, h))
find_map-append (e ∷ t) rest id k h = ground (arith, h, find_map-append t rest id k)

module _ {D : Type 0} ⦃d : Double D⦄ where
  -- A map before its tree is filled.
  record IsReady (m : GameMap D) : Type 0 where
    straight : all_of is_straight m.roads ≡ true
    no_tree : m.road_rtree ≡ []
    counted : m.loot_types_count ≡ to_int (pos (length m.loot_value))

  -- A map whose roads run along the axes and are all in its tree, and that has a value for each type
  -- of loot.
  pub record IsPlayable (m : GameMap D) : Type 0 where
    pub straight : all_of is_straight m.roads ≡ true
    pub indexed : m.road_rtree ≡ map (λ (r : Road D). (r.bounding_box, r)) m.roads
    pub counted : m.loot_types_count ≡ to_int (pos (length m.loot_value))

  -- All maps are playable, and each is found by its id.
  pub record IsLoaded (g : Game D) : Type 0 where
    pub playable : (k : ℕ) (m : GameMap D) → get_elem? g.maps k ≡ some m → IsPlayable m
    pub found : (k : ℕ) (m : GameMap D) → get_elem? g.maps k ≡ some m → find_map g m.id ≡ some k

  IsReady-IsPlayable : (m : GameMap D) → IsReady m → IsPlayable (build_road_rtree m)
  unfolding build_road_rtree
  IsReady-IsPlayable m v = record {
    straight = v.straight;
    indexed = rw v.no_tree refl;
    counted = v.counted;
  }

  add_map-IsLoaded :
      (g g' : Game D) (m : GameMap D) → IsReady m → add_map g m ≡ ok g' → IsLoaded g → IsLoaded g'
  unfolding add_map find_map build_road_rtree
  add_map-IsLoaded g g' m ready h v =
      elim (Bool-cases (any_of (λ (e : Bytes × ℕ). str_eq e.0 m.id) g.map_id_to_index)) [
        | inl y ↦ absurd (ground (arith, rw y at h))
        | inr n ↦ subst IsLoaded (ok-inj (rw n at h)) (record {
          playable = λ k x e. elim (get_elem?-append-cases g.maps (build_road_rtree m) k e) [
            | inl old ↦ v.playable k x old
            | inr (at, same) ↦ subst IsPlayable (sym same) (IsReady-IsPlayable m ready)
          ];
          found = λ k x e. elim (get_elem?-append-cases g.maps (build_road_rtree m) k e) [
            | inl old ↦ find_map-append g.map_id_to_index _ x.id k (v.found k x old)
            | inr (at, same) ↦
                rw (ap (λ (y : GameMap D). y.id) same, at)
                  (rw
                    (find_if_last (λ (e : Bytes × ℕ). str_eq e.0 m.id) g.map_id_to_index
                      (m.id, length g.maps) n (str_eq_refl m.id))
                    refl)
          ];
        })
      ]

  add_map_sessions :
      (g g' : Game D) (m : GameMap D) → add_map g m ≡ ok g' → g'.sessions ≡ g.sessions
  unfolding add_map
  add_map_sessions g g' m h =
      elim (Bool-cases (any_of (λ (e : Bytes × ℕ). str_eq e.0 m.id) g.map_id_to_index)) [
        | inl y ↦ absurd (ground (arith, rw y at h))
        | inr n ↦ ap (λ (x : Game D). x.sessions) (sym (ok-inj (rw n at h)))
      ]

  module _ {J : Type 0} (json : Json J) (doubles : Doubles J D) where
    -- The parts of a map one after another, from an empty one on.
    stages-IsReady :
        (m₀ m₁ m₂ m₃ m₄ : GameMap D) (rs bs os ts : List J)
        → m₀.roads ≡ []
        → m₀.road_rtree ≡ []
        → m₀.loot_value ≡ []
        → add_roads json m₀ rs ≡ ok m₁
        → add_buildings json m₁ bs ≡ ok m₂
        → add_offices json m₂ os ≡ ok m₃
        → add_loot_values json (set_loot_types_count m₃ (to_int (pos (length ts)))) ts ≡ ok m₄
        → IsReady m₄
    unfolding set_loot_types_count
    stages-IsReady m₀ m₁ m₂ m₃ m₄ rs bs os ts r t l h₁ h₂ h₃ h₄ =
        let (straight, tree, values) = add_roads-straight json m₀ m₁ rs h₁ (rw r refl) in
        let b = add_buildings-SameRoads json m₁ m₂ bs h₂ in
        let c = add_offices-SameRoads json m₂ m₃ os h₃ in
        let (p, q, count, long) = add_loot_values_lem json _ m₄ ts h₄ in
        let none_before : length m₃.loot_value ≡ 0 =
          ap length (c.same_values ∙ b.same_values ∙ values ∙ l) in
        record {
          straight =
              subst (λ rs. all_of is_straight rs ≡ true) (sym (p ∙ c.same_roads ∙ b.same_roads))
                straight;
          no_tree = q ∙ c.same_tree ∙ b.same_tree ∙ tree ∙ t;
          counted = count ∙ ap (λ n. to_int (pos n)) (omega (arith, long, none_before));
        }

    load_parts-IsReady :
        (start : GameMap D) (o : J) (m : GameMap D) (types : List J)
        → start.roads ≡ []
        → start.road_rtree ≡ []
        → start.loot_value ≡ []
        → load_parts json doubles start o ≡ ok (m, types)
        → IsReady m
    unfolding load_parts
    load_parts-IsReady start o m types r t l h =
        let (rs, e₆, h₆) = >>=-eq-ok (array_at json o (codes "roads")) _ h in
        let (m₁, e₇, h₇) = >>=-eq-ok (add_roads json start rs) _ h₆ in
        let (bs, e₈, h₈) = >>=-eq-ok (array_at json o (codes "buildings")) _ h₇ in
        let (m₂, e₉, h₉) = >>=-eq-ok (add_buildings json m₁ bs) _ h₈ in
        let (os, f₁, k₁) = >>=-eq-ok (array_at json o (codes "offices")) _ h₉ in
        let (m₃, f₂, k₂) = >>=-eq-ok (add_offices json m₂ os) _ k₁ in
        let (ts, f₃, k₃) = >>=-eq-ok (array_at json o (codes "lootTypes")) _ k₂ in
        let sized = set_loot_types_count m₃ (to_int (pos (length ts))) in
        let (m₄, f₄, k₄) = >>=-eq-ok (add_loot_values json sized ts) _ k₃ in
        let done = stages-IsReady start m₁ m₂ m₃ m₄ rs bs os ts r t l e₇ e₉ f₂ f₄ in
        subst (λ (x : GameMap D × List J). IsReady x.0) (ok-inj k₄) done

    load_map-IsReady :
        (speed : D) (capacity : ℤ) (v : J) (m : GameMap D) (types : List J)
        → load_map json doubles speed capacity v ≡ ok (m, types)
        → IsReady m
    unfolding load_map new_map set_dog_speed set_bag_capacity set_loot_types_count
    load_map-IsReady speed capacity v m types h =
        let (o, e₁, h₁) = >>=-eq-ok (object_of json v) _ h in
        let (fast, e₂, h₂) =
          >>=-eq-ok (double_or json doubles (json.member o (codes "dogSpeed")) speed) _ h₁ in
        let (bag, e₃, h₃) =
          >>=-eq-ok (int_or json doubles (json.member o (codes "bagCapacity")) capacity) _ h₂ in
        let (id, e₄, h₄) = >>=-eq-ok (text_at json o (codes "id")) _ h₃ in
        let (name, e₅, h₅) = >>=-eq-ok (text_at json o (codes "name")) _ h₄ in
        let start =
          set_bag_capacity (set_dog_speed (new_map id name fast 0 (pos 0)) fast) (to_u32 bag) in
        load_parts-IsReady start o m types refl refl refl h₅

    load_maps-IsLoaded :
        (speed : D) (capacity : ℤ) (vs : List J) (g g' : Game D)
        (storage storage' : LootTypesStorage J)
        → load_maps json doubles speed capacity vs g storage ≡ ok (g', storage')
        → IsLoaded g
        → IsLoaded g'
    unfolding load_maps
    load_maps-IsLoaded speed capacity [] g g' storage storage' h v =
        subst (λ (x : Game D × LootTypesStorage J). IsLoaded x.0) (ok-inj h) v
    load_maps-IsLoaded speed capacity (j ∷ vs) g g' storage storage' h v =
        let ((m, types), e₁, h₁) = >>=-eq-ok (load_map json doubles speed capacity j) _ h in
        let (mid, e₂, h₂) = >>=-eq-ok (add_map g m) _ h₁ in
        load_maps-IsLoaded speed capacity vs mid g' (add_loot_types storage m.id types) storage' h₂
          (add_map-IsLoaded g mid m (load_map-IsReady speed capacity j m types e₁) e₂ v)

    empty-IsLoaded : (g : Game D) → g.maps ≡ [] → IsLoaded g
    empty-IsLoaded g e = record {
      playable = λ k m h. absurd (ground (arith, rw e at h));
      found = λ k m h. absurd (ground (arith, rw e at h));
    }

    set_retirement_rest :
        (g g' : Game D) (v : Option J)
        → set_retirement json doubles g v ≡ ok g'
        → (g'.maps ≡ g.maps) × (g'.sessions ≡ g.sessions)
    unfolding set_dog_retirement_time
    set_retirement_rest g g' none h = (
      ap (λ (x : Game D). x.maps) (sym (ok-inj h)),
      ap (λ (x : Game D). x.sessions) (sym (ok-inj h)),
    )
    set_retirement_rest g g' (some v) h =
        let (t, e, k) = >>=-eq-ok (read (some v) doubles.as_double) _ h in
        (
          ap (λ (x : Game D). x.maps) (sym (ok-inj k)),
          ap (λ (x : Game D). x.sessions) (sym (ok-inj k)),
        )

    add_loot_generator_config_rest :
        (g g' : Game D) (v : J)
        → add_loot_generator_config json doubles g v ≡ ok g'
        → (g'.maps ≡ g.maps) × (g'.sessions ≡ g.sessions)
    unfolding add_loot_generator_config set_loot_generator
    add_loot_generator_config_rest g g' v h =
        let (c, e₁, h₁) = >>=-eq-ok (at_key json doubles v (codes "lootGeneratorConfig")) _ h in
        let (o, e₂, h₂) = >>=-eq-ok (object_of json c) _ h₁ in
        let (p, e₃, h₃) =
          >>=-eq-ok (read (json.member o (codes "period")) doubles.as_double) _ h₂ in
        let (q, e₄, h₄) =
          >>=-eq-ok (read (json.member o (codes "probability")) doubles.as_double) _ h₃ in
        (
          ap (λ (x : Game D). x.maps) (sym (ok-inj h₄)),
          ap (λ (x : Game D). x.sessions) (sym (ok-inj h₄)),
        )

    load_document-IsLoaded :
        (game g : Game D) (storage : LootTypesStorage J) (v : J)
        → game.maps ≡ []
        → load_document json doubles game v ≡ ok (g, storage)
        → IsLoaded g
    unfolding load_document
    load_document-IsLoaded game g storage v none_yet h =
        let (o, e₁, h₁) = >>=-eq-ok (object_of json v) _ h in
        let (vs, e₂, h₂) = >>=-eq-ok (array_at json o (codes "maps")) _ h₁ in
        let (speed, e₃, h₃) =
          >>=-eq-ok
            (double_or json doubles (json.member o (codes "defaultDogSpeed")) (d.decimal 1 0)) _
            h₂ in
        let (timed, e₄, h₄) =
          >>=-eq-ok (set_retirement json doubles game (json.member o (codes "dogRetirementTime"))) _
            h₃ in
        let (bag, e₅, h₅) =
          >>=-eq-ok (int_or json doubles (json.member o (codes "defaultBagCapacity")) (pos 3)) _
            h₄ in
        let (ready, e₆, h₆) = >>=-eq-ok (add_loot_generator_config json doubles timed o) _ h₅ in
        load_maps-IsLoaded speed bag vs ready g [] storage h₆ (
          empty-IsLoaded ready (
            (add_loot_generator_config_rest timed ready o e₆).0
            ∙ (set_retirement_rest game timed _ e₄).0
            ∙ none_yet))

    caught-ok : {A : Type 0} (m : Result A) (x : A) → caught m ≡ ok x → m ≡ ok x
    caught-ok (ok y) x h = h
    caught-ok (err e) x h = cc

    load_maps_sessions :
        (speed : D) (capacity : ℤ) (vs : List J) (g g' : Game D)
        (storage storage' : LootTypesStorage J)
        → load_maps json doubles speed capacity vs g storage ≡ ok (g', storage')
        → g'.sessions ≡ g.sessions
    unfolding load_maps
    load_maps_sessions speed capacity [] g g' storage storage' h =
        ap (λ (x : Game D × LootTypesStorage J). x.0.sessions) (sym (ok-inj h))
    load_maps_sessions speed capacity (j ∷ vs) g g' storage storage' h =
        let ((m, types), e₁, h₁) = >>=-eq-ok (load_map json doubles speed capacity j) _ h in
        let (mid, e₂, h₂) = >>=-eq-ok (add_map g m) _ h₁ in
        load_maps_sessions speed capacity vs mid g' (add_loot_types storage m.id types) storage' h₂
        ∙ add_map_sessions g mid m e₂

    load_document_sessions :
        (game g : Game D) (storage : LootTypesStorage J) (v : J)
        → load_document json doubles game v ≡ ok (g, storage)
        → g.sessions ≡ game.sessions
    unfolding load_document
    load_document_sessions game g storage v h =
        let (o, e₁, h₁) = >>=-eq-ok (object_of json v) _ h in
        let (vs, e₂, h₂) = >>=-eq-ok (array_at json o (codes "maps")) _ h₁ in
        let (speed, e₃, h₃) =
          >>=-eq-ok
            (double_or json doubles (json.member o (codes "defaultDogSpeed")) (d.decimal 1 0)) _
            h₂ in
        let (timed, e₄, h₄) =
          >>=-eq-ok (set_retirement json doubles game (json.member o (codes "dogRetirementTime"))) _
            h₃ in
        let (bag, e₅, h₅) =
          >>=-eq-ok (int_or json doubles (json.member o (codes "defaultBagCapacity")) (pos 3)) _
            h₄ in
        let (ready, e₆, h₆) = >>=-eq-ok (add_loot_generator_config json doubles timed o) _ h₅ in
        load_maps_sessions speed bag vs ready g [] storage h₆
        ∙ (add_loot_generator_config_rest timed ready o e₆).1
        ∙ (set_retirement_rest game timed _ e₄).1

    -- Loading makes no sessions.
    pub load_game_sessions :
        (game g : Game D) (storage : LootTypesStorage J) (file : Option Bytes)
        → load_game json doubles game file ≡ ok (g, storage)
        → g.sessions ≡ game.sessions
    unfolding load_game
    load_game_sessions game g storage file h =
        let (content, e₁, h₁) =
          >>=-eq-ok (or_fail file runtime_error) _ (caught-ok _ (g, storage) h) in
        let (v, e₂, h₂) = >>=-eq-ok (or_fail (json.parse content) runtime_error) _ h₁ in
        load_document_sessions game g storage v h₂

    -- If LoadGame returns, then in every map of the game all roads run along the axes, the tree holds
    -- exactly the roads with their boxes, and there is a value for each type of loot; and a map is
    -- found by its id at the place where it stands.
    pub load_game-IsLoaded :
        (game g : Game D) (storage : LootTypesStorage J) (file : Option Bytes)
        → game.maps ≡ []
        → load_game json doubles game file ≡ ok (g, storage)
        → IsLoaded g
    unfolding load_game
    load_game-IsLoaded game g storage file none_yet h =
        let (content, e₁, h₁) =
          >>=-eq-ok (or_fail file runtime_error) _ (caught-ok _ (g, storage) h) in
        let (v, e₂, h₂) = >>=-eq-ok (or_fail (json.parse content) runtime_error) _ h₁ in
        load_document-IsLoaded game g storage v none_yet h₂
