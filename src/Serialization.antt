-- ===== src/Serialization.antt =====
-- src/model_serialization.h: what a save file holds of loot, dogs, sessions and players, and how they are
-- restored from it. The archive of boost::serialization is not modelled; a representation is what
-- is written to it and read from it. The static counters are those of the `World`.
pub mod RoundTrip
pub mod Archive
pub mod Files
pub mod Sessions
pub mod Players
pub mod Tests
use backend_for_browser_game.Base.{
  ℕ, ℤ, List, [], ◌∷◌, ◌++◌, map, length, get_elem?, Bytes, Option, some, none, Result, ok, err,
  undefined, or_fail, ◌>>=◌,
}
use backend_for_browser_game.Double.{Double}
use backend_for_browser_game.Geom.{Point2D, Vec2D}
use backend_for_browser_game.Model.Road.{Direction}
use backend_for_browser_game.Model.Loot.{Loot, new_loot}
use backend_for_browser_game.Model.Loot
use backend_for_browser_game.Model.Dog.{Dog, new_dog, set_speed, set_direction, add_loot, set_score}
use backend_for_browser_game.Model.Dog
use backend_for_browser_game.Model.Session.{GameSession, new_session, add_dog, get_dog_by_id}
use backend_for_browser_game.Model.Session
use backend_for_browser_game.Model.World.{World, Player, find_map, map_at, find_session_by_id}
use backend_for_browser_game.Model.Retire.{dog_at}

pub record LootRepr (D : Type 0) : Type 0 where
  pub type_id : ℕ
  pub id : ℕ
  pub value : ℕ
  pub position : Point2D D
  pub width : D
  pub loot_counter : ℕ

pub record DogRepr (D : Type 0) : Type 0 where
  pub id : ℕ
  pub dog_name : Bytes
  pub position : Point2D D
  pub speed : Vec2D D
  pub direction : Direction
  pub bag : List (LootRepr D)
  pub width : D
  pub score : ℕ
  pub dog_counter : ℕ

pub record GameSessionRepr (D : Type 0) : Type 0 where
  pub map_id : Bytes
  pub dogs : List (DogRepr D)
  pub loot : List (LootRepr D)
  pub session_id : ℕ
  pub session_counter : ℕ

pub record PlayerRepr : Type 0 where
  pub session_id : ℕ
  pub dog_id : ℕ
  pub token : Bytes
  pub id : ℕ
  pub player_counter : ℕ

-- What the constructor of a restored dog draws and what its memory holds: a new uuid, and the join time,
-- which nothing sets.
pub record Fresh : Type 0 where
  pub uuid : Bytes
  pub garbage : ℤ

module _ {D : Type 0} where
  unfoldable pub loot_repr : World D → Loot D → LootRepr D
  loot_repr w l = record {
    type_id = l.type_id;
    id = l.id;
    value = l.value;
    position = l.position;
    width = l.width;
    loot_counter = w.loot_counter;
  }

  unfoldable pub dog_repr : World D → Dog D → DogRepr D
  dog_repr w g = record {
    id = g.id;
    dog_name = g.dog_name;
    position = g.position;
    speed = g.speed;
    direction = g.direction;
    bag = map (loot_repr w) g.bag;
    width = g.width;
    score = g.score;
    dog_counter = w.dog_counter;
  }

  unfoldable pub dog_reprs : World D → List ℕ → Result (List (DogRepr D))
  dog_reprs w [] = ok []
  dog_reprs w (a ∷ rest) = do
    g ← dog_at w.dogs (some a)
    others ← dog_reprs w rest
    ok (dog_repr w g ∷ others)

  unfoldable pub session_repr : World D → GameSession D → Result (GameSessionRepr D)
  session_repr w s = do
    m ← map_at w.game s.map
    dogs ← dog_reprs w s.dogs
    ok (record {
      map_id = m.id;
      dogs = dogs;
      loot = map (loot_repr w) s.loot;
      session_id = s.session_id;
      session_counter = w.session_counter;
    })

  unfoldable pub player_repr : World D → Player → Result PlayerRepr
  player_repr w p = do
    a ← or_fail p.session undefined
    s ← or_fail (get_elem? w.sessions a) undefined
    g ← dog_at w.dogs p.dog
    ok (record {
      session_id = s.session_id;
      dog_id = g.id;
      token = p.token;
      id = p.id;
      player_counter = w.player_counter;
    })

module _ {D : Type 0} ⦃d : Double D⦄ where
  unfoldable pub restore_loot : World D → LootRepr D → Loot D × World D
  restore_loot w r =
      let made = (new_loot w.loot_counter r.type_id r.position r.value).0 in
      (Loot.set_width (Loot.set_id made r.id) r.width, record w { loot_counter = r.loot_counter })

  -- The loop over the bag.
  unfoldable pub restore_bag : World D → Dog D → List (LootRepr D) → Dog D × World D
  restore_bag w g [] = (g, w)
  restore_bag w g (r ∷ rs) = let (l, w') = restore_loot w r in restore_bag w' (add_loot g l) rs

  unfoldable pub restore_dog : World D → Fresh → DogRepr D → Dog D × World D
  restore_dog w fresh r =
      let made = (new_dog w.dog_counter fresh.uuid fresh.garbage r.dog_name r.position).0 in
      let (g, w') =
        restore_bag w (set_direction (set_speed (Dog.set_id made r.id) r.speed) r.direction)
          r.bag in
      (set_score (Dog.set_width g r.width) r.score, record w' { dog_counter = r.dog_counter })

  -- The loops of GameSessionRepr::Restore. The k-th dog has its own draws; each goes to the heap.
  unfoldable pub restore_dogs :
      World D → (ℕ → Fresh) → GameSession D → List (DogRepr D) → GameSession D × World D
  restore_dogs w fresh s [] = (s, w)
  restore_dogs w fresh s (r ∷ rs) =
      let a = length w.dogs in
      let (g, w') = restore_dog w (fresh a) r in
      restore_dogs (record w' { dogs = w'.dogs ++ (g ∷ []) }) fresh (add_dog s a) rs

  unfoldable pub restore_ground :
      World D → GameSession D → List (LootRepr D) → GameSession D × World D
  restore_ground w s [] = (s, w)
  restore_ground w s (r ∷ rs) =
      let (l, w') = restore_loot w r in restore_ground w' (Session.add_loot s l) rs

  unfoldable pub restore_session :
      World D → (ℕ → Fresh) → GameSessionRepr D → GameSession D × World D
  restore_session w fresh r =
      let made = (new_session w.session_counter (find_map w.game r.map_id)).0 in
      let (s, w') = restore_dogs w fresh made r.dogs in
      let (s', w'') = restore_ground w' s r.loot in
      (Session.set_id s' r.session_id, record w'' { session_counter = r.session_counter })

module _ {D : Type 0} where
  -- The session must be there; a dog that is not leaves a null pointer.
  unfoldable pub restore_player : World D → PlayerRepr → Result (Player × World D)
  restore_player w r = do
    a ← or_fail (find_session_by_id w r.session_id) undefined
    s ← or_fail (get_elem? w.sessions a) undefined
    ok (
      record {
        session = some a;
        dog = get_dog_by_id w.dogs s r.dog_id;
        token = r.token;
        id = r.id;
      },
      record w { player_counter = r.player_counter },
    )
