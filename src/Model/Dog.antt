-- ===== src/Model/Dog.antt =====
-- `class Dog` of src/model.h and src/model.cpp.
use backend_for_browser_game.Base.{ℕ, ℤ, ◌+◌, List, [], ◌∷◌, ◌++◌, length, Bytes, u32}
use backend_for_browser_game.Double.{Double, nought}
use backend_for_browser_game.Geom.{Point2D, Vec2D}
use backend_for_browser_game.Model.Road.{Direction, north}
use backend_for_browser_game.Model.Loot.{Loot}

pub data DogStatus : Type 0 where
  active inactive : DogStatus

pub record Dog (D : Type 0) : Type 0 where
  pub id : ℕ
  pub dog_name : Bytes
  pub position : Point2D D
  pub speed : Vec2D D
  pub direction : Direction
  pub bag : List (Loot D)
  pub width : D
  pub score : ℕ
  pub join_time : ℤ
  pub inactivity_time : D
  pub status : DogStatus
  pub uuid : Bytes

module _ {D : Type 0} ⦃d : Double D⦄ where
  -- The constructor: a fresh uuid comes from the generator, and the join time is whatever the memory
  -- holds. The new value of the static counter comes back.
  unfoldable pub new_dog : ℕ → Bytes → ℤ → Bytes → Point2D D → Dog D × ℕ
  new_dog dog_counter uuid garbage name position = (
    record {
      id = dog_counter;
      dog_name = name;
      position = position;
      speed = record { x = nought; y = nought };
      direction = north;
      bag = [];
      width = d.decimal 6 1;
      score = 0;
      join_time = garbage;
      inactivity_time = nought;
      status = active;
      uuid = uuid;
    },
    u32 (dog_counter + 1),
  )

  unfoldable pub update_inactivity_time : Dog D → D → Dog D
  update_inactivity_time g delta = record g { inactivity_time = d.add g.inactivity_time delta }

  unfoldable pub reset_inactivity_timer : Dog D → Dog D
  reset_inactivity_timer g = record g { inactivity_time = nought }

module _ {D : Type 0} where
  unfoldable pub set_direction : Dog D → Direction → Dog D
  set_direction g v = record g { direction = v }

  unfoldable pub set_position : Dog D → Point2D D → Dog D
  set_position g v = record g { position = v }

  unfoldable pub set_speed : Dog D → Vec2D D → Dog D
  set_speed g v = record g { speed = v }

  unfoldable pub set_width : Dog D → D → Dog D
  set_width g v = record g { width = v }

  unfoldable pub set_id : Dog D → ℕ → Dog D
  set_id g v = record g { id = v }

  unfoldable pub add_loot : Dog D → Loot D → Dog D
  add_loot g l = record g { bag = g.bag ++ (l ∷ []) }

  unfoldable pub get_loot_count_in_bag : Dog D → ℕ
  get_loot_count_in_bag g = u32 (length g.bag)

  -- The loop of ReleaseLoot, with the wrapping of uint32_t.
  unfoldable pub score_bag : ℕ → List (Loot D) → ℕ
  score_bag score [] = score
  score_bag score (l ∷ ls) = score_bag (u32 (score + l.value)) ls

  unfoldable pub release_loot : Dog D → Dog D
  release_loot g = record g { score = score_bag g.score g.bag; bag = [] }

  unfoldable pub set_score : Dog D → ℕ → Dog D
  set_score g v = record g { score = v }

  unfoldable pub set_join_time : Dog D → ℤ → Dog D
  set_join_time g v = record g { join_time = v }

  unfoldable pub set_status : Dog D → DogStatus → Dog D
  set_status g v = record g { status = v }

  unfoldable pub set_uuid : Dog D → Bytes → Dog D
  set_uuid g v = record g { uuid = v }
