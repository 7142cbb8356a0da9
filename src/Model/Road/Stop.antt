-- ===== src/Model/Road/Stop.antt =====
-- FindStopPoint of src/model.cpp, for dogs on straight roads.
use backend_for_browser_game.Base.{
  ℤ, eqb_ℤ, min_ℤ_self, min_ℤ, max_ℤ, ◌≡◌, Bool, true, ◌||◌, ◌&&◌, arith,
}
use backend_for_browser_game.Double.{Double, IsIeee, ◌≼◌, min_d, max_d}
use backend_for_browser_game.Geom.{Point2D}
use backend_for_browser_game.Model.Road.{
  Road, Direction, north, south, west, east, none_dir, in_band, road_half_width, is_point_on_road,
  find_stop_point,
}

module _ {D : Type 0} ⦃d : Double D⦄ where
  -- A road runs along one of the axes.
  unfoldable pub is_straight : Road D → Bool
  is_straight r = eqb_ℤ r.start.x r.finish.x || eqb_ℤ r.start.y r.finish.y

  -- The target lies in the direction of the dog.
  abbrev pub IsAhead : Direction → Point2D D → Point2D D → Type 0
  IsAhead east from to = from.x ≼ to.x
  IsAhead west from to = to.x ≼ from.x
  IsAhead north from to = to.y ≼ from.y
  IsAhead south from to = from.y ≼ to.y
  IsAhead none_dir from to = Unit

  module _ (laws : IsIeee D) where
    open laws use {number_of_le, le_trans, lt-eq-not-le}

    min_d-band :
        (lo v hi t : D)
        → lo ≼ v
        → v ≼ hi
        → v ≼ t
        → (d.le lo (min_d t hi) && d.le (min_d t hi) hi) ≡ true
    min_d-band lo v hi t a b c = ground (
      arith,
      le_trans lo v hi a b,
      le_trans lo v t a c,
      number_of_le v hi b,
      number_of_le v t c,
      lt-eq-not-le hi t (number_of_le v hi b).1 (number_of_le v t c).1,
    )

    max_d-band :
        (lo v hi t : D)
        → lo ≼ v
        → v ≼ hi
        → t ≼ v
        → (d.le lo (max_d t lo) && d.le (max_d t lo) hi) ≡ true
    max_d-band lo v hi t a b c = ground (
      arith,
      le_trans lo v hi a b,
      le_trans t v hi c b,
      number_of_le lo v a,
      number_of_le t v c,
      lt-eq-not-le t lo (number_of_le t v c).0 (number_of_le lo v a).0,
    )

    in_band-min_d :
        (v t : D) (lo hi : ℤ)
        → in_band v lo hi ≡ true
        → v ≼ t
        → in_band (min_d t (d.add (d.of_int hi) road_half_width)) lo hi ≡ true
    unfolding in_band
    in_band-min_d v t lo hi h a =
        min_d-band (d.sub (d.of_int lo) road_half_width) v (d.add (d.of_int hi) road_half_width) t
          (ground arith) (ground arith) a

    in_band-max_d :
        (v t : D) (lo hi : ℤ)
        → in_band v lo hi ≡ true
        → t ≼ v
        → in_band (max_d t (d.sub (d.of_int lo) road_half_width)) lo hi ≡ true
    unfolding in_band
    in_band-max_d v t lo hi h a =
        max_d-band (d.sub (d.of_int lo) road_half_width) v (d.add (d.of_int hi) road_half_width) t
          (ground arith) (ground arith) a

    -- A dog on a straight road that is stopped for a target ahead of it is stopped on that road.
    pub find_stop_point-on_road :
        (from to : Point2D D) (r : Road D) (dir : Direction)
        → is_straight r ≡ true
        → IsAhead dir from to
        → is_point_on_road from r ≡ true
        → is_point_on_road (find_stop_point from to r dir) r ≡ true
    unfolding is_straight is_point_on_road find_stop_point
    find_stop_point-on_road from to r east s a h = ground (
      arith,
      in_band-min_d from.x to.x (min_ℤ r.start.x r.finish.x) (max_ℤ r.start.x r.finish.x),
      in_band-min_d from.x to.x r.start.x r.start.x,
      min_ℤ_self r.start.x r.finish.x,
    )
    find_stop_point-on_road from to r west s a h = ground (
      arith,
      in_band-max_d from.x to.x (min_ℤ r.start.x r.finish.x) (max_ℤ r.start.x r.finish.x),
      in_band-max_d from.x to.x r.start.x r.start.x,
      min_ℤ_self r.start.x r.finish.x,
    )
    find_stop_point-on_road from to r north s a h = ground (
      arith,
      in_band-max_d from.y to.y (min_ℤ r.start.y r.finish.y) (max_ℤ r.start.y r.finish.y),
      in_band-max_d from.y to.y r.start.y r.start.y,
      min_ℤ_self r.start.y r.finish.y,
    )
    find_stop_point-on_road from to r south s a h = ground (
      arith,
      in_band-min_d from.y to.y (min_ℤ r.start.y r.finish.y) (max_ℤ r.start.y r.finish.y),
      in_band-min_d from.y to.y r.start.y r.start.y,
      min_ℤ_self r.start.y r.finish.y,
    )
    find_stop_point-on_road from to r none_dir s a h = h
