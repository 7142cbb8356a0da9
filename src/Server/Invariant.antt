-- ===== src/Server/Invariant.antt =====
-- The dogs of every session in every state that the server comes to.
use backend_for_browser_game.Base.{
  ℕ, ℤ, pos, ◌≤ℤ◌, ◌+ℤ◌, arith, ◌≡◌, refl, true, List, [], get_elem?, some,
}
use backend_for_browser_game.Double.{Double, IsIeee}
use backend_for_browser_game.Collision.{GatheringEvent}
use backend_for_browser_game.Model.GameMap.{GameMap}
use backend_for_browser_game.Model.Dog.{Dog}
use backend_for_browser_game.Model.Session.{GameSession}
use backend_for_browser_game.Model.World.{World, Game, test, normal, add_test_time}
use backend_for_browser_game.Model.Movement.{Boost, IsRTree}
use backend_for_browser_game.Model.Movement.OnRoad.{on_some_road}
use backend_for_browser_game.Model.Gather.{has}
use backend_for_browser_game.Server.Shrink.{Shrinks-refl}
use backend_for_browser_game.Server.Sound.{
  HasFineMaps, IsSound, SameTables, SameTables-refl, move-IsSound,
}
use backend_for_browser_game.Server.Ticking.{update-IsSound}
use backend_for_browser_game.Server.Joining.{join_game-IsSound, make_action-IsSound}
use backend_for_browser_game.Server.Steps.{
  Step, Reach, joining, acting, ticking, timing, here, next,
}

abbrev pub Nonnegative : ℤ → Type 0
Nonnegative t = pos 0 ≤ℤ t

module _ {D : Type 0} ⦃d : Double D⦄ where
  -- The dog at an address stands on a road of the map of a session.
  abbrev pub StandsOnRoad : World D → GameSession D → ℕ → Type 0
  StandsOnRoad w s b =
      (k : ℕ) × (m : GameMap D) × (g : Dog D) × (s.map ≡ some k)
      × (get_elem? w.game.maps k ≡ some m)
      × (get_elem? w.dogs b ≡ some g)
      × (on_some_road m.road_rtree g.position ≡ true)

module _ {D : Type 0} ⦃d : Double D⦄ (laws : IsIeee D) (boost : Boost D) (tree : IsRTree boost)
    (sort : List (GatheringEvent D) → List (GatheringEvent D)) where
  abbrev IsSoundSomehow : World D → Type 0
  IsSoundSomehow w = (home : ℕ → ℕ) × IsSound home w

  -- The clock of the game is no part of it.
  add_test_time-SameTables : (g : Game D) (t : ℤ) → SameTables g (add_test_time g t)
  unfolding add_test_time
  add_test_time-SameTables g t =
      elim g.game_mode
        as (λ m. SameTables g (elim m [
          | test ↦ record g { accumulated_time = g.accumulated_time +ℤ t }
          | normal ↦ g
        ])) [
          | test ↦ record { same_maps = refl; same_index = refl; same_table = refl }
          | normal ↦ SameTables-refl g
        ]

  add_test_time-IsSound :
      (home : ℕ → ℕ) (w : World D) (t : ℤ)
      → IsSound home w
      → IsSound home (record w { game = add_test_time w.game t })
  add_test_time-IsSound home w t v =
      move-IsSound home w _ (add_test_time-SameTables w.game t) (Shrinks-refl w.sessions)
        (λ m b e on. on) v

  Step-IsSound :
      (w w' : World D) → Step boost sort Nonnegative w w' → IsSoundSomehow w → IsSoundSomehow w'
  Step-IsSound w w' (joining _ _ p name map_id c h) (home, v) =
      join_game-IsSound laws home w w' p name map_id c h v
  Step-IsSound w w' (acting _ _ p token move e h) (home, v) =
      (home, make_action-IsSound laws home w w' p move h v)
  Step-IsSound w w' (ticking _ _ outside t saving n h) (home, v) =
      (home, update-IsSound boost sort laws tree home w w' outside t saving n h v)
  Step-IsSound w w' (timing _ t) (home, v) = (home, add_test_time-IsSound home w t v)

  Reach-IsSound :
      (w w' : World D) → Reach boost sort Nonnegative w w' → IsSoundSomehow w → IsSoundSomehow w'
  Reach-IsSound w w' (here _) v = v
  Reach-IsSound w w' (next _ mid _ before step) v =
      Step-IsSound mid w' step (Reach-IsSound w mid before v)

  empty-IsSound :
      (w : World D)
      → HasFineMaps w.game
      → w.sessions ≡ []
      → w.game.sessions ≡ []
      → IsSound (λ b. 0) w
  empty-IsSound w fine none_here none_listed = record {
    fine = fine;
    hosted = λ a s e. absurd (ground (arith, rw none_here at e));
    listed = λ id a e. absurd (ground (arith, rw none_listed at e));
  }

  -- The server starts without sessions, on maps whose roads run along the axes and are all in the
  -- map's tree, and whose dog speed is finite and not negative. Then after any sequence of joins, actions
  -- and ticks of no negative time that end without an exception, every dog of every session stands on
  -- a road of the session's map.
  pub Reach-StandsOnRoad :
      (w w' : World D) (a : ℕ) (s : GameSession D) (b : ℕ)
      → HasFineMaps w.game
      → w.sessions ≡ []
      → w.game.sessions ≡ []
      → Reach boost sort Nonnegative w w'
      → get_elem? w'.sessions a ≡ some s
      → has s.dogs b ≡ true
      → StandsOnRoad w' s b
  Reach-StandsOnRoad w w' a s b fine none_here none_listed run at mine =
      let (home, v) = Reach-IsSound w w' run (λ b. 0, empty-IsSound w fine none_here none_listed) in
      let host = v.hosted a s at in
      let (same, (g, e, placed)) = host.settled b mine in
      (host.place, host.ground_map, g, host.has_place, host.at_place, e, placed.on_road)
