-- ===== src/Geom.antt =====
-- src/geom.h: vectors and points of the plane.
use backend_for_browser_game.Double.{Double}
use backend_for_browser_game.Base.{Bool, ◌&&◌}

pub record Vec2D (D : Type 0) : Type 0 where
  pub x : D
  pub y : D

pub record Point2D (D : Type 0) : Type 0 where
  pub x : D
  pub y : D

module _ {D : Type 0} ⦃d : Double D⦄ where
  -- operator*=
  unfoldable pub scale : Vec2D D → D → Vec2D D
  scale v s = record { x = d.mul v.x s; y = d.mul v.y s }

  -- operator+=
  unfoldable pub translate : Point2D D → Vec2D D → Point2D D
  translate p v = record { x = d.add p.x v.x; y = d.add p.y v.y }

  -- Equality of both coordinates, as `==` of doubles.
  unfoldable pub eq_pt : Point2D D → Point2D D → Bool
  eq_pt p q = d.eq p.x q.x && d.eq p.y q.y
