-- ===== src/Collision.antt =====
-- src/collision_detector.h and src/collision_detector.cpp: which gatherers pass which items, in the
-- order of time. `std::sort` is a parameter, since it may put events of one time in any order.
pub mod Events
pub mod Passing
pub mod Order
pub mod Sorting
pub mod Tests
use backend_for_browser_game.Base.{
  ℕ, ◌+◌, Bool, ◌&&◌, List, [], ◌∷◌, ◌++◌, length, get_elem?, Result, or_fail, out_of_range,
  if◌then◌else◌,
}
use backend_for_browser_game.Double.{Double, nought}
use backend_for_browser_game.Geom.{Point2D, eq_pt}

pub data ItemType : Type 0 where
  loot office : ItemType

pub record CollectionResult (D : Type 0) : Type 0 where
  pub sq_distance : D
  pub proj_ratio : D

pub record Item (D : Type 0) : Type 0 where
  pub position : Point2D D
  pub width : D
  pub item_id : ℕ
  pub item_type : ItemType

pub record Gatherer (D : Type 0) : Type 0 where
  pub start_pos : Point2D D
  pub end_pos : Point2D D
  pub width : D
  pub gatherer_id : ℕ

-- `item_id` and `gatherer_id` are the places of the item and the gatherer in the provider.
pub record GatheringEvent (D : Type 0) : Type 0 where
  pub item_id : ℕ
  pub gatherer_id : ℕ
  pub sq_distance : D
  pub time : D
  pub item_type : ItemType

pub record GathererProvider (D : Type 0) : Type 0 where
  pub items : List (Item D)
  pub gatherers : List (Gatherer D)

module _ {D : Type 0} where
  abbrev pub empty_provider : GathererProvider D
  empty_provider = record { items = []; gatherers = [] }

  unfoldable pub add_item : GathererProvider D → Item D → GathererProvider D
  add_item p i = record p { items = p.items ++ (i ∷ []) }

  unfoldable pub get_item : GathererProvider D → ℕ → Result (Item D)
  get_item p i = or_fail (get_elem? p.items i) out_of_range

  unfoldable pub add_gatherer : GathererProvider D → Gatherer D → GathererProvider D
  add_gatherer p g = record p { gatherers = p.gatherers ++ (g ∷ []) }

  unfoldable pub get_gatherer : GathererProvider D → ℕ → Result (Gatherer D)
  get_gatherer p i = or_fail (get_elem? p.gatherers i) out_of_range

module _ {D : Type 0} ⦃d : Double D⦄ where
  abbrev pub one : D
  one = d.decimal 1 0

  unfoldable pub is_collected : CollectionResult D → D → Bool
  is_collected r collect_radius =
      d.le nought r.proj_ratio
      && d.le r.proj_ratio one
      && d.le r.sq_distance (d.mul collect_radius collect_radius)

  unfoldable pub try_collect_point : Point2D D → Point2D D → Point2D D → CollectionResult D
  try_collect_point a b c =
      let u_x = d.sub c.x a.x in
      let u_y = d.sub c.y a.y in
      let v_x = d.sub b.x a.x in
      let v_y = d.sub b.y a.y in
      let u_dot_v = d.add (d.mul u_x v_x) (d.mul u_y v_y) in
      let u_len2 = d.add (d.mul u_x u_x) (d.mul u_y u_y) in
      let v_len2 = d.add (d.mul v_x v_x) (d.mul v_y v_y) in
      record {
        sq_distance = d.sub u_len2 (d.div (d.mul u_dot_v u_dot_v) v_len2);
        proj_ratio = d.div u_dot_v v_len2;
      }

  abbrev pub collect : Gatherer D → Item D → CollectionResult D
  collect gatherer item = try_collect_point gatherer.start_pos gatherer.end_pos item.position

  abbrev pub event_of : ℕ → ℕ → Gatherer D → Item D → GatheringEvent D
  event_of g i gatherer item = record {
    item_id = i;
    gatherer_id = g;
    sq_distance = (collect gatherer item).sq_distance;
    time = (collect gatherer item).proj_ratio;
    item_type = item.item_type;
  }

  abbrev pub hits : Gatherer D → Item D → Bool
  hits gatherer item = is_collected (collect gatherer item) (d.add gatherer.width item.width)

  -- The inner loop, from item `i` on.
  unfoldable pub events_of_gatherer : ℕ → Gatherer D → ℕ → List (Item D) → List (GatheringEvent D)
  events_of_gatherer g gatherer i [] = []
  events_of_gatherer g gatherer i (item ∷ items) =
      let rest = events_of_gatherer g gatherer (i + 1) items in
      if hits gatherer item then event_of g i gatherer item ∷ rest else rest

  -- The outer loop, from gatherer `g` on. One that stands still is passed over.
  unfoldable pub events_from : ℕ → List (Gatherer D) → List (Item D) → List (GatheringEvent D)
  unfolding events_of_gatherer
  events_from g [] items = []
  events_from g (gatherer ∷ gatherers) items =
      let rest = events_from (g + 1) gatherers items in
      if eq_pt gatherer.start_pos gatherer.end_pos
      then rest
      else events_of_gatherer g gatherer 0 items ++ rest

  module _ (sort : List (GatheringEvent D) → List (GatheringEvent D)) where
    unfoldable pub find_gather_events : GathererProvider D → List (GatheringEvent D)
    unfolding events_from
    find_gather_events p = sort (events_from 0 p.gatherers p.items)
