-- ===== src/Serialization/Tests.antt =====
-- The sample dog and the loot of its session, saved and restored.
use backend_for_browser_game.Base.{
  false, true, some, ℕ, List, Result, ok, err, refl, negsuc, ◌≡◌, [], ◌∷◌, ◌++◌, map,
}
use backend_for_browser_game.Double.{nought}
use backend_for_browser_game.Double.Milli.{Milli, milli_double}
use backend_for_browser_game.Model.Dog.{Dog, active, new_dog}
use backend_for_browser_game.Model.GameMap.{GameMap}
use backend_for_browser_game.Model.World.{World, map_at, find_map, find_session_by_id}
use backend_for_browser_game.Model.Samples.{rex, sleepy, coin, gem, session, town_id, world}
use backend_for_browser_game.Json.{codes}
use backend_for_browser_game.Serialization.Files.{
  partial, Disk, Outcomes, IsAtomic, save_file, save_file-IsAtomic,
}
use backend_for_browser_game.Serialization.{
  GameSessionRepr, Fresh, loot_repr, dog_repr, dog_reprs, session_repr, player_repr, restore_loot,
  restore_bag, restore_dog, restore_dogs, restore_ground, restore_session, restore_player,
}
use backend_for_browser_game.Serialization.Archive.{
  SaveFile, session_reprs, player_reprs, save_state, put_session, load_players, load_sessions,
  load_state,
}
use backend_for_browser_game.Model.Session
use backend_for_browser_game.Model.Session.{new_session, get_dog_by_id, add_dog}
use backend_for_browser_game.Serialization.Sessions.{
  dogs_at_all, IsBack, restore_session-session_repr,
}
use backend_for_browser_game.Serialization.Players.{identity, load_state-save_state}
use backend_for_browser_game.Serialization.RoundTrip.{restore_dog-dog_repr}

-- A server that has started again.
abbrev restarted : World Milli
restarted = record world {
  dogs = [];
  sessions = [];
  players = [];
  dog_counter = 0;
  loot_counter = 0;
}

abbrev fresh : Fresh
fresh = record { uuid = b'n' ∷ []; garbage = negsuc 41 }

restore_dog-dog_repr_example :
    let (g', v') = restore_dog restarted fresh (dog_repr world (record rex { bag = coin ∷ [] })) in
    (g' ≡ record rex {
      bag = coin ∷ [];
      uuid = b'n' ∷ [];
      join_time = negsuc 41;
      inactivity_time = nought;
      status = active;
    })
    × (v'.dog_counter ≡ 6)
restore_dog-dog_repr_example =
    restore_dog-dog_repr world restarted fresh (record rex { bag = coin ∷ [] })

abbrev afresh : ℕ → Fresh
afresh k = fresh

abbrev file_of : Result (SaveFile Milli) → SaveFile Milli
file_of (ok f) = f
file_of (err e) = record { sessions = []; players = [] }

abbrev saved_session : GameSessionRepr Milli
saved_session = record {
  map_id = town_id;
  dogs = dog_repr world rex ∷ dog_repr world sleepy ∷ [];
  loot = loot_repr world coin ∷ loot_repr world gem ∷ [];
  session_id = 0;
  session_counter = 1;
}

session_saved : session_repr world session ≡ ok saved_session
unfolding session_repr map_at dog_reprs
session_saved = refl

restore_session-session_repr_example :
    (gs : List (Dog Milli)) × (m : GameMap Milli) × (dogs_at_all world.dogs session.dogs ≡ ok gs)
    × (map_at world.game session.map ≡ ok m)
    × IsBack restarted afresh m session gs saved_session
restore_session-session_repr_example =
    restore_session-session_repr world restarted afresh session saved_session session_saved

abbrev saved : SaveFile Milli
saved = file_of (save_state world)

saves : save_state world ≡ ok saved
unfolding save_state session_reprs session_repr map_at dog_reprs player_reprs player_repr
saves = refl

abbrev world_of : Result (World Milli) → World Milli
world_of (ok w) = w
world_of (err e) = restarted

abbrev again : World Milli
again = world_of (load_state restarted afresh saved)

loads : load_state restarted afresh saved ≡ ok again
unfolding save_state session_reprs session_repr map_at dog_reprs player_reprs player_repr load_state
    load_sessions load_players put_session restore_session restore_dogs restore_dog restore_bag
    restore_loot restore_ground restore_player find_session_by_id find_map new_session new_dog
    get_dog_by_id add_dog Session.set_id Session.add_loot dog_repr
loads = refl

load_state-save_state_example :
    map identity again.players ≡ map identity restarted.players ++ map identity world.players
load_state-save_state_example = load_state-save_state world restarted again afresh saved saves loads

-- The old file is there, and the renaming fails.
abbrev not_renamed : Outcomes
not_renamed = record {
  directory = true;
  opened = true;
  written = true;
  flushed = true;
  renamed = false;
  removed = true;
}

abbrev disk : Disk Milli
disk path = some partial

save_file-IsAtomic_example :
    IsAtomic (codes "state") disk saved (save_file world not_renamed disk (codes "state"))
save_file-IsAtomic_example =
    save_file-IsAtomic world not_renamed disk (codes "state") saved saves refl
