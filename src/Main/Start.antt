-- ===== src/Main/Start.antt =====
-- A server that src/main.cpp has started, from the configuration file to its requests and ticks.
use backend_for_browser_game.Base.{
  ℕ, ◌≡◌, refl, sym, ap, ◌∙◌, subst, true, List, [], get_elem?, Bytes, Option, some, ok, ok-inj,
  >>=-eq-ok, Bool-cases, inl, inr,
}
use backend_for_browser_game.Json.{Json, Doubles}
use backend_for_browser_game.Double.{Double, IsIeee, nought, ◌≼◌, IsFinite}
use backend_for_browser_game.Collision.{GatheringEvent}
use backend_for_browser_game.Model.GameMap.{GameMap}
use backend_for_browser_game.Model.Session.{GameSession}
use backend_for_browser_game.Model.World.{
  World, Game, set_dog_spawn_mode, set_game_mode, set_save_period,
}
use backend_for_browser_game.Model.Movement.{Boost, IsRTree}
use backend_for_browser_game.Model.Gather.{has}
use backend_for_browser_game.Serialization.{Fresh}
use backend_for_browser_game.Serialization.Archive.{SaveFile}
use backend_for_browser_game.Loader.{load_game}
use backend_for_browser_game.Loader.Games.{IsLoaded, load_game-IsLoaded, load_game_sessions}
use backend_for_browser_game.Server.Sound.{HasFineMaps}
use backend_for_browser_game.Server.Steps.{Reach}
use backend_for_browser_game.Server.Invariant.{Nonnegative, StandsOnRoad, Reach-StandsOnRoad}
use backend_for_browser_game.Main.{Args, first_world, configure, load_saved, prepare}

module _ {D : Type 0} ⦃d : Double D⦄ where
  -- The speeds of the maps of a game are finite and not negative.
  abbrev pub HasFineSpeeds : Game D → Type 0
  HasFineSpeeds g =
      (k : ℕ) (m : GameMap D)
      → get_elem? g.maps k ≡ some m
      → (nought ≼ m.dog_speed) × IsFinite m.dog_speed

  -- The settings leave maps and sessions alone.
  record SameWorld (w w' : World D) : Type 0 where
    same_maps : w'.game.maps ≡ w.game.maps
    same_table : w'.game.sessions ≡ w.game.sessions
    same_sessions : w'.sessions ≡ w.sessions

  configure-SameWorld : (args : Args) (w : World D) → SameWorld w (configure args w)
  unfolding configure set_game_mode set_dog_spawn_mode set_save_period
  configure-SameWorld args w = elim (Bool-cases args.save_state_period_set) [
    | inl y ↦ record {
      same_maps = rw (y, configure) refl;
      same_table = rw (y, configure) refl;
      same_sessions = refl;
    }
    | inr n ↦ record {
      same_maps = rw (n, configure) refl;
      same_table = rw (n, configure) refl;
      same_sessions = refl;
    }
  ]

  load_saved-none :
      (args : Args) (fresh : ℕ → Fresh) (saved : Option (SaveFile D)) (w w' : World D)
      → args.state_file_path ≡ []
      → load_saved args fresh saved w ≡ ok w'
      → w ≡ w'
  unfolding load_saved
  load_saved-none args fresh saved w w' e h = ok-inj (rw e at h)

module _ {J : Type 0} (json : Json J) {D : Type 0} ⦃d : Double D⦄ (doubles : Doubles J D)
    (laws : IsIeee D) (boost : Boost D) (tree : IsRTree boost)
    (sort : List (GatheringEvent D) → List (GatheringEvent D)) where
  IsLoaded-HasFineMaps :
      (g g' : Game D) → g'.maps ≡ g.maps → IsLoaded g → HasFineSpeeds g' → HasFineMaps g'
  IsLoaded-HasFineMaps g g' same v fast k m h =
      let ready = v.playable k m (ap (λ ms. get_elem? ms k) (sym same) ∙ h) in
      let (low, fin) = fast k m h in
      record {
        straight = ready.straight;
        indexed = ready.indexed;
        speed_low = low;
        speed_finite = fin;
      }

  -- Suppose main makes a new game ready from a configuration file, without a file of saved state, and
  -- the speeds of its maps are finite and not negative. Then after any sequence of joins, actions and
  -- ticks of no negative time that end without an exception, every dog of every session stands on a
  -- road of the session's map.
  pub prepare-StandsOnRoad :
      (args : Args) (game : Game D) (config : Option Bytes) (fresh : ℕ → Fresh)
      (saved : Option (SaveFile D)) (w w' : World D) (a : ℕ) (s : GameSession D) (b : ℕ)
      → game.maps ≡ []
      → game.sessions ≡ []
      → args.state_file_path ≡ []
      → prepare json doubles args game config fresh saved ≡ ok w
      → HasFineSpeeds w.game
      → Reach boost sort Nonnegative w w'
      → get_elem? w'.sessions a ≡ some s
      → has s.dogs b ≡ true
      → StandsOnRoad w' s b
  unfolding prepare
  prepare-StandsOnRoad args game config fresh saved w w' a s b no_maps no_sessions no_file h fast
        run at mine =
      let ((g, storage), e₁, h₁) = >>=-eq-ok (load_game json doubles game config) _ h in
      let (mid, e₂, h₂) = >>=-eq-ok (load_saved args fresh saved (first_world g)) _ h₁ in
      let first = load_saved-none args fresh saved (first_world g) mid no_file e₂ in
      let done : configure args mid ≡ w = ok-inj h₂ in
      let same : SameWorld (first_world g) w =
        subst (SameWorld (first_world g)) (ap (configure args) first ∙ done)
          (configure-SameWorld args (first_world g)) in
      let table = load_game_sessions json doubles game g storage config e₁ in
      Reach-StandsOnRoad laws boost tree sort w w' a s b
        (IsLoaded-HasFineMaps g w.game same.same_maps
          (load_game-IsLoaded json doubles game g storage config no_maps e₁) fast)
        same.same_sessions (same.same_table ∙ table ∙ no_sessions) run at mine
