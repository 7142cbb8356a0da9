-- ===== src/Handlers/MapJson.antt =====
-- RoadsToJson, BuildingsToJson, OfficesToJson, MapInfoToJson and MapsListToJson of
-- src/api_handler.cpp, up to the text that `serialize` makes of a value.
use backend_for_browser_game.Base.{List, [], ◌∷◌, map, if◌then◌else◌}
use backend_for_browser_game.Json.{Maker, codes}
use backend_for_browser_game.Double.{Double}
use backend_for_browser_game.Model.Road.{Road, is_horizontal}
use backend_for_browser_game.Model.GameMap.{GameMap, Rectangle, Office}
use backend_for_browser_game.Model.World.{Game}
use backend_for_browser_game.Loader.{LootTypesStorage, get_loot_types}

module _ {J : Type 0} (make : Maker J) where
  unfoldable pub building_json : Rectangle → J
  building_json b = make.of_object (
      (codes "x", make.of_int b.position.x)
      ∷ (codes "y", make.of_int b.position.y)
      ∷ (codes "w", make.of_int b.size.width)
      ∷ (codes "h", make.of_int b.size.height)
      ∷ [])

  module _ {D : Type 0} where
    unfoldable pub buildings_to_json : GameMap D → List J
    buildings_to_json m = map building_json m.buildings

    unfoldable pub office_json : Office D → J
    office_json o = make.of_object (
        (codes "id", make.of_string o.id)
        ∷ (codes "x", make.of_int o.position.x)
        ∷ (codes "y", make.of_int o.position.y)
        ∷ (codes "offsetX", make.of_int o.offset.dx)
        ∷ (codes "offsetY", make.of_int o.offset.dy)
        ∷ [])

    unfoldable pub offices_to_json : GameMap D → List J
    offices_to_json m = map office_json m.offices

    unfoldable pub map_entry_json : GameMap D → J
    map_entry_json m =
        make.of_object
          ((codes "id", make.of_string m.id) ∷ (codes "name", make.of_string m.name) ∷ [])

    unfoldable pub maps_list_to_json : Game D → J
    maps_list_to_json g = make.of_array (map map_entry_json g.maps)

  module _ {D : Type 0} ⦃d : Double D⦄ where
    unfoldable pub road_json : Road D → J
    road_json r = make.of_object (
        (codes "x0", make.of_int r.start.x)
        ∷ (codes "y0", make.of_int r.start.y)
        ∷ (if is_horizontal r
            then (codes "x1", make.of_int r.finish.x)
            else (codes "y1", make.of_int r.finish.y))
        ∷ [])

    unfoldable pub roads_to_json : GameMap D → List J
    roads_to_json m = map road_json m.roads

    unfoldable pub map_info_to_json : LootTypesStorage J → GameMap D → J
    map_info_to_json storage m = make.of_object (
        (codes "id", make.of_string m.id)
        ∷ (codes "name", make.of_string m.name)
        ∷ (codes "roads", make.of_array (roads_to_json m))
        ∷ (codes "buildings", make.of_array (buildings_to_json m))
        ∷ (codes "offices", make.of_array (offices_to_json m))
        ∷ (codes "lootTypes", make.of_array (get_loot_types storage m.id))
        ∷ [])
