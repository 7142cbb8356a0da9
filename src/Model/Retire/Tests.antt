-- ===== src/Model/Retire/Tests.antt =====
-- Retiring in the sample world, and the theorems about it there.
use backend_for_browser_game.Base.{
  true, ℕ, zero, suc, pos, ◌-ℤ◌, ◌≡◌, refl, [], ◌∷◌, ◌++◌, ok, arith,
}
use backend_for_browser_game.Double.Milli.{Milli, milli_double}
use backend_for_browser_game.Model.Session.{GameSession, DogHeap}
use backend_for_browser_game.Model.Session
use backend_for_browser_game.Model.World.{World, get_current_time}
use backend_for_browser_game.Model.Retire.{
  remove_inactive_dogs, retire_dogs, retire_dog, save_record, Round, record_of,
  remove_player_from_game_by_dog_id, take_player, drop_player, leave_session, sweep,
}
use backend_for_browser_game.Model.Retire.Active.{
  HasUniqueIds, active_at, dogs_at, remove_inactive_dogs-active,
}
use backend_for_browser_game.Model.Retire.Records.{records_of, remove_inactive_dogs-records}
use backend_for_browser_game.Model.Samples.{milli, session, world, player_of}

abbrev clock : ℕ → Round
clock k = record { now = pos 0; saves = true }

-- The second dog leaves, with its player and a record of five seconds.
abbrev after : World Milli
after = record world {
  sessions = record session { dogs = 0 ∷ [] } ∷ [];
  players = player_of 0 (b'a' ∷ []) ∷ [];
  records = record { id_uuid = b's' ∷ []; name = b'R' ∷ []; score = 20; play_time_ms = 5000 } ∷ [];
}

retired : remove_inactive_dogs world clock 0 ≡ ok after
unfolding remove_inactive_dogs retire_dogs retire_dog save_record remove_player_from_game_by_dog_id
    take_player drop_player leave_session sweep Session.remove_dog record_of ◌-ℤ◌ get_current_time
retired = refl

world-HasUniqueIds : HasUniqueIds world.dogs
world-HasUniqueIds zero zero g h p q e = refl
world-HasUniqueIds zero (suc zero) g h p q e = ground arith
world-HasUniqueIds zero (suc (suc b)) g h p q e = ground arith
world-HasUniqueIds (suc zero) zero g h p q e = ground arith
world-HasUniqueIds (suc zero) (suc zero) g h p q e = refl
world-HasUniqueIds (suc zero) (suc (suc b)) g h p q e = ground arith
world-HasUniqueIds (suc (suc a)) b g h p q e = ground arith

remove_inactive_dogs-active_example :
    (after.dogs ≡ world.dogs)
    × ((k : ℕ) → active_at (milli 15000) after k ≡ active_at (milli 15000) world k)
    × (dogs_at after 0 ≡ active_at (milli 15000) world 0)
remove_inactive_dogs-active_example =
    remove_inactive_dogs-active world after clock 0 world-HasUniqueIds retired

remove_inactive_dogs-records_example :
    after.records ≡ [] ++ records_of world.game world.dogs clock 0 (1 ∷ [])
remove_inactive_dogs-records_example =
    remove_inactive_dogs-records world after clock 0 session refl retired
