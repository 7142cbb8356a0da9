-- ===== src/Model/Road.antt =====
-- Roads of src/model.h and src/model.cpp, with the tests of a point against a road.
pub mod Stop
use backend_for_browser_game.Base.{ℕ, ℤ, eqb_ℤ, min_ℤ, max_ℤ, Bool, ◌&&◌, List, map, if◌then◌else◌}
use backend_for_browser_game.Double.{Double, min_d, max_d}
use backend_for_browser_game.Geom.{Point2D}

-- `struct Point`, in whole units.
pub record Point : Type 0 where
  pub x : ℤ
  pub y : ℤ

pub data Direction : Type 0 where
  north south west east none_dir : Direction

-- boost::geometry's box, by its corners.
pub record Box (D : Type 0) : Type 0 where
  pub min_corner : Point2D D
  pub max_corner : Point2D D

pub record Road (D : Type 0) : Type 0 where
  pub start : Point
  pub finish : Point
  pub bounding_box : Box D

module _ {D : Type 0} ⦃d : Double D⦄ where
  abbrev pub road_half_width : D
  road_half_width = d.decimal 4 1

  abbrev pub point_2d : D → D → Point2D D
  point_2d x y = record { x = x; y = y }

  abbrev pub is_horizontal : Road D → Bool
  is_horizontal r = eqb_ℤ r.start.y r.finish.y

  -- Road::BuildBoundingBox, on the two ends.
  unfoldable pub build_bounding_box : Point → Point → Box D
  build_bounding_box s e =
      if eqb_ℤ s.x e.x
      then record {
        min_corner = point_2d (d.sub (d.of_int s.x) road_half_width) (d.of_int (min_ℤ s.y e.y));
        max_corner = point_2d (d.add (d.of_int s.x) road_half_width) (d.of_int (max_ℤ s.y e.y));
      }
      else record {
        min_corner = point_2d (d.of_int (min_ℤ s.x e.x)) (d.sub (d.of_int s.y) road_half_width);
        max_corner = point_2d (d.of_int (max_ℤ s.x e.x)) (d.add (d.of_int s.y) road_half_width);
      }

  -- The two constructors.
  unfoldable pub horizontal_road : Point → ℤ → Road D
  horizontal_road s end_x =
      let e : Point = record { x = end_x; y = s.y } in
      record { start = s; finish = e; bounding_box = build_bounding_box s e }

  unfoldable pub vertical_road : Point → ℤ → Road D
  vertical_road s end_y =
      let e : Point = record { x = s.x; y = end_y } in
      record { start = s; finish = e; bounding_box = build_bounding_box s e }

  -- lo - half width <= v && v <= hi + half width
  unfoldable pub in_band : D → ℤ → ℤ → Bool
  in_band v lo hi =
      d.le (d.sub (d.of_int lo) road_half_width) v && d.le v (d.add (d.of_int hi) road_half_width)

  unfoldable pub is_point_on_road : Point2D D → Road D → Bool
  is_point_on_road p r =
      if is_horizontal r
      then in_band p.x (min_ℤ r.start.x r.finish.x) (max_ℤ r.start.x r.finish.x)
        && in_band p.y r.start.y r.start.y
      else in_band p.y (min_ℤ r.start.y r.finish.y) (max_ℤ r.start.y r.finish.y)
        && in_band p.x r.start.x r.start.x

  -- Where a dog that leaves the road is stopped, in its direction.
  unfoldable pub find_stop_point : Point2D D → Point2D D → Road D → Direction → Point2D D
  find_stop_point from to r east =
      point_2d (min_d to.x (d.add (d.of_int (max_ℤ r.start.x r.finish.x)) road_half_width)) from.y
  find_stop_point from to r west =
      point_2d (max_d to.x (d.sub (d.of_int (min_ℤ r.start.x r.finish.x)) road_half_width)) from.y
  find_stop_point from to r north =
      point_2d from.x (max_d to.y (d.sub (d.of_int (min_ℤ r.start.y r.finish.y)) road_half_width))
  find_stop_point from to r south =
      point_2d from.x (min_d to.y (d.add (d.of_int (max_ℤ r.start.y r.finish.y)) road_half_width))
  find_stop_point from to r none_dir = from
