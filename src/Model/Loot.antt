-- ===== src/Model/Loot.antt =====
-- `class Loot` of src/model.h and src/model.cpp. The static counter is passed along.
use backend_for_browser_game.Base.{ℕ, ◌+◌, u32}
use backend_for_browser_game.Double.{Double}
use backend_for_browser_game.Geom.{Point2D}

pub record Loot (D : Type 0) : Type 0 where
  pub type_id : ℕ
  pub id : ℕ
  pub position : Point2D D
  pub width : D
  pub value : ℕ

module _ {D : Type 0} ⦃d : Double D⦄ where
  -- The constructor numbers the loot by the counter, which it moves on; the new counter comes back.
  unfoldable pub new_loot : ℕ → ℕ → Point2D D → ℕ → Loot D × ℕ
  new_loot loot_counter type_id position value = (
    record {
      type_id = type_id;
      id = loot_counter;
      position = position;
      width = d.decimal 0 1;
      value = value;
    },
    u32 (loot_counter + 1),
  )

module _ {D : Type 0} where
  unfoldable pub set_id : Loot D → ℕ → Loot D
  set_id l i = record l { id = i }

  unfoldable pub set_width : Loot D → D → Loot D
  set_width l w = record l { width = w }
