-- ===== src/Server/Ticking.antt =====
-- Game::Update of src/model.cpp, for the dogs of all sessions.
use backend_for_browser_game.Base.{
  ℕ, ℤ, pos, ◌≤ℤ◌, ◌==◌, ◌≡◌, refl, sym, ◌∙◌, subst, inl, inr, Bool, false, List, [], ◌∷◌, length,
  u32, get_elem?, get_elem?-set, set, Bytes, copy_if, some, ok, undefined, or_fail, or_fail-eq-ok,
  >>=-eq-ok, arith, Bool-cases,
}
use backend_for_browser_game.Double.{Double, IsIeee}
use backend_for_browser_game.Collision.{
  GatheringEvent, GathererProvider, add_gatherer, empty_provider, find_gather_events,
}
use backend_for_browser_game.LootGen.{LootGenerator, generate}
use backend_for_browser_game.Model.GameMap.{GameMap}
use backend_for_browser_game.Model.Session.{GameSession, DogHeap}
use backend_for_browser_game.Model.World.{World, map_at, set_loot_generator}
use backend_for_browser_game.Model.Movement.{
  Entry, Boost, IsRTree, move_dog, update_dogs, update_dogs_position,
}
use backend_for_browser_game.Model.Movement.Heading.{IsPlacedAt}
use backend_for_browser_game.Model.Spawn.{update_loot, spawn_loot}
use backend_for_browser_game.Model.Gather.{has, gather_loot, add_loot_items, add_office_items}
use backend_for_browser_game.Model.Retire.{
  Round, is_inactive, retire_dogs, remove_inactive_dogs, sweep,
}
use backend_for_browser_game.Model.Retire.Records.{retire_dogs-Saved}
use backend_for_browser_game.Model.Tick.{
  Outside, play_session, update_session, update_sessions, save_due, update,
}
use backend_for_browser_game.Model.Tick.Roads.{
  gather_loot-Stays, play_session-Stays, remove_inactive_dogs_dogs,
}
use backend_for_browser_game.Server.Shrink.{
  Within, Within-trans, Shrinks, Shrinks-refl, gather_loot-Within, spawn_loot-Within, set-Shrinks,
  remove_inactive_dogs-Shrinks,
}
use backend_for_browser_game.Server.Sound.{
  IsFine-all_straight, IsSound, IsHosted, SameTables, SameTables-refl, StaysHome, move-IsSound,
  hosted_map, All-has,
}

module _ {D : Type 0} ⦃d : Double D⦄ (boost : Boost D)
    (sort : List (GatheringEvent D) → List (GatheringEvent D)) where
  -- Movement writes only the dogs that it is given.
  update_dogs_others :
      (dt : D) (roads : List (Entry D)) (dogs : List ℕ) (heap : DogHeap D)
      (provider : GathererProvider D) (r : DogHeap D × GathererProvider D) (b : ℕ)
      → has dogs b ≡ false
      → update_dogs boost dt roads dogs heap provider ≡ ok r
      → get_elem? r.0 b ≡ get_elem? heap b
  unfolding update_dogs
  update_dogs_others dt roads [] heap provider r b n h = ground (arith, h)
  update_dogs_others dt roads (a ∷ dogs) heap provider r b n h =
      let (g, p, q) = >>=-eq-ok (or_fail (get_elem? heap a) undefined) _ h in
      let (new, seen) = move_dog boost dt roads g in
      let later =
        update_dogs_others dt roads dogs (set heap a new) (add_gatherer provider seen) r b
          (ground arith) q in
      let miss : (a == b) ≡ false = ground arith in
      let wrote = get_elem?-set heap a b new (or_fail-eq-ok _ undefined p) in
      later ∙ wrote ∙ rw miss refl

  update_loot-Within :
      (m : GameMap D) (g : LootGenerator D) (x : D) (draws : ℕ → ℕ) (s : GameSession D) (t : ℤ)
      (n : ℕ) (r : GameSession D × LootGenerator D × ℕ)
      → update_loot m g x draws s t n ≡ ok r
      → Within s r.0
  unfolding update_loot
  update_loot-Within m g x draws s t n r h =
      let made =
        generate g (d.truncate (d.mul (d.of_int t) (d.decimal 1000 0))) (u32 (length s.loot))
          (u32 (length s.dogs)) x in
      let (q, p, e) = >>=-eq-ok (spawn_loot m draws 0 made.0 s n) _ h in
      let same : q.0 ≡ r.0 = ground (arith, e) in
      subst (Within s) same (spawn_loot-Within m draws 0 made.0 s n q p)

  -- What a session's part of a tick does to the tables, the sessions, and the dogs of others.
  record Played (w w' : World D) (s : GameSession D) : Type 0 where
    tables : SameTables w.game w'.game
    shrinks : Shrinks w.sessions w'.sessions
    others :
        (roads : List (Entry D)) (b : ℕ)
        → has s.dogs b ≡ false
        → IsPlacedAt roads w.dogs b
        → IsPlacedAt roads w'.dogs b

  play_session-Played :
      (w w' : World D) (outside : Outside D) (t : ℤ) (a : ℕ) (s : GameSession D) (m : GameMap D)
      → get_elem? w.sessions a ≡ some s
      → map_at w.game s.map ≡ ok m
      → play_session boost sort w outside t a s ≡ ok w'
      → Played w w' s
  unfolding play_session update_dogs_position set_loot_generator
  play_session-Played w w' outside t a s m at maps h =
      let dt = d.div (d.of_int t) (d.decimal 1000 0) in
      let (moved, e₁, h₁) =
        >>=-eq-ok (update_dogs boost dt m.road_rtree s.dogs w.dogs empty_provider) _
          (rw maps at h) in
      let (generator, e₂, h₂) = >>=-eq-ok (or_fail w.game.loot_generator undefined) _ h₁ in
      let (spawned, e₃, h₃) =
        >>=-eq-ok (update_loot m generator outside.random (outside.draws a) s t w.loot_counter) _
          h₂ in
      let (offices, e₄, h₄) =
        >>=-eq-ok (add_office_items m.offices (add_loot_items (spawned.0).loot moved.1)) _ h₃ in
      let (gathered, e₅, h₅) =
        >>=-eq-ok (gather_loot m.bag_capacity (find_gather_events sort offices) spawned.0 moved.0) _
          h₄ in
      let dogs : gathered.dogs ≡ w'.dogs = ground (arith, h₅) in
      let sessions : set w.sessions a gathered.session ≡ w'.sessions = ground (arith, h₅) in
      let sub =
        Within-trans s spawned.0 gathered.session
          (update_loot-Within m generator _ _ s t _ spawned e₃)
          (gather_loot-Within m.bag_capacity _ spawned.0 moved.0 gathered e₅) in
      record {
        tables = record {
          same_maps = ground (arith, h₅);
          same_index = ground (arith, h₅);
          same_table = ground (arith, h₅);
        };
        shrinks = subst (Shrinks w.sessions) sessions (set-Shrinks w.sessions a s _ at sub);
        others = λ roads b n (g, f, v).
            subst (λ heap. IsPlacedAt roads heap b) dogs
              (gather_loot-Stays roads m.bag_capacity _ spawned.0 moved.0 gathered e₅ b (
                g,
                update_dogs_others dt m.road_rtree s.dogs w.dogs empty_provider moved b n e₁ ∙ f,
                v,
              ));
      }

  remove_inactive_dogs-game :
      (w w' : World D) (clock : ℕ → Round) (a : ℕ)
      → remove_inactive_dogs w clock a ≡ ok w'
      → w'.game ≡ w.game
  unfolding remove_inactive_dogs sweep
  remove_inactive_dogs-game w w' clock a h =
      let limit = w.game.dog_retirement_time_seconds in
      let (s, p, q) = >>=-eq-ok (or_fail (get_elem? w.sessions a) undefined) _ h in
      let old = copy_if (is_inactive limit w.dogs) s.dogs in
      let (mid, r, t) = >>=-eq-ok (retire_dogs w clock 0 old) _ q in
      let (s', f, v) = >>=-eq-ok (or_fail (get_elem? mid.sessions a) undefined) _ t in
      let same : mid.game ≡ w'.game = ground (arith, v) in
      sym same ∙ (retire_dogs-Saved w mid clock 0 old r).same_game

  retired-IsSound :
      (home : ℕ → ℕ) (w w' : World D) (clock : ℕ → Round) (a : ℕ)
      → remove_inactive_dogs w clock a ≡ ok w'
      → IsSound home w
      → IsSound home w'
  retired-IsSound home w w' clock a h =
      let same = remove_inactive_dogs-game w w' clock a h in
      move-IsSound home w w' (subst (SameTables w.game) (sym same) (SameTables-refl w.game))
        (remove_inactive_dogs-Shrinks w w' clock a h)
        (λ m b e v.
          subst (λ heap. IsPlacedAt m.road_rtree heap b)
            (sym (remove_inactive_dogs_dogs w w' clock a h)) v)

  module _ (laws : IsIeee D) (tree : IsRTree boost) where
    Played-StaysHome :
        (home : ℕ → ℕ) (w w' : World D) (outside : Outside D) (t : ℤ) (a : ℕ) (s : GameSession D)
        → pos 0 ≤ℤ t
        → IsSound home w
        → IsHosted home w s
        → Played w w' s
        → play_session boost sort w outside t a s ≡ ok w'
        → StaysHome home w w'.dogs
    Played-StaysHome home w w' outside t a s n v host played h m b e on =
        elim (Bool-cases (has s.dogs b)) [
          | inl mine ↦
              let (here, there) = host.settled b mine in
              let same : host.ground_map ≡ m = ground (arith, e, here, host.at_place) in
              subst (λ (x : GameMap D). IsPlacedAt x.road_rtree w'.dogs b) same
                (play_session-Stays laws boost tree sort w w' outside t a s host.ground_map n
                  (hosted_map home w s host)
                  (IsFine-all_straight host.ground_map
                    (v.fine host.place host.ground_map host.at_place))
                  (All-has (IsPlacedAt host.ground_map.road_rtree w.dogs) s.dogs
                    (λ c k. (host.settled c k).1))
                  h b there)
          | inr others ↦ played.others m.road_rtree b others on
        ]

    update_session-IsSound :
        (home : ℕ → ℕ) (w w' : World D) (outside : Outside D) (t : ℤ) (a : ℕ)
        → pos 0 ≤ℤ t
        → update_session boost sort w outside t a ≡ ok w'
        → IsSound home w
        → IsSound home w'
    unfolding update_session
    update_session-IsSound home w w' outside t a n h v =
        let (s, p, q) = >>=-eq-ok (or_fail (get_elem? w.sessions a) undefined) _ h in
        let at = or_fail-eq-ok _ undefined p in
        let host = v.hosted a s at in
        let (mid, e, f) = >>=-eq-ok (play_session boost sort w outside t a s) _ q in
        let played =
          play_session-Played w mid outside t a s host.ground_map at (hosted_map home w s host) e in
        let stays = Played-StaysHome home w mid outside t a s n v host played e in
        retired-IsSound home mid w' (outside.clock a) a f
          (move-IsSound home w mid played.tables played.shrinks stays v)

    update_sessions-IsSound :
        (home : ℕ → ℕ) (w w' : World D) (outside : Outside D) (t : ℤ) (rows : List (Bytes × ℕ))
        → pos 0 ≤ℤ t
        → update_sessions boost sort w outside t rows ≡ ok w'
        → IsSound home w
        → IsSound home w'
    unfolding update_sessions
    update_sessions-IsSound home w w' outside t [] n h v =
        let same : w ≡ w' = ground (arith, h) in subst (IsSound home) same v
    update_sessions-IsSound home w w' outside t ((id, a) ∷ rest) n h v =
        let (mid, p, q) = >>=-eq-ok (update_session boost sort w outside t a) _ h in
        update_sessions-IsSound home mid w' outside t rest n q
          (update_session-IsSound home w mid outside t a n p v)

    -- A tick, of no negative time, that ends without an exception.
    pub update-IsSound :
        (home : ℕ → ℕ) (w w' : World D) (outside : Outside D) (t : ℤ) (saving : Bool)
        → pos 0 ≤ℤ t
        → update boost sort w outside t ≡ ok (w', saving)
        → IsSound home w
        → IsSound home w'
    unfolding update save_due
    update-IsSound home w w' outside t saving n h v =
        let (mid, p, q) = >>=-eq-ok (update_sessions boost sort w outside t w.game.sessions) _ h in
        let done = update_sessions-IsSound home w mid outside t w.game.sessions n p v in
        let same : record mid { game = (save_due boost sort mid.game t).1 } ≡ w' =
          ground (arith, q) in
        subst (IsSound home) same (
          move-IsSound home mid _
            (record { same_maps = refl; same_index = refl; same_table = refl })
            (Shrinks-refl mid.sessions) (λ m b e on. on) done)
