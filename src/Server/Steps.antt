-- ===== src/Server/Steps.antt =====
-- The operations of the server one after another: requests come in any order, and the timer ticks
-- between them.
use backend_for_browser_game.Base.{ℤ, ◌≡◌, Bool, List, Bytes, some, ok}
use backend_for_browser_game.Double.{Double}
use backend_for_browser_game.Collision.{GatheringEvent}
use backend_for_browser_game.Model.Movement.{Boost}
use backend_for_browser_game.Model.World.{World, Player, add_test_time}
use backend_for_browser_game.Model.Tick.{Outside, update}
use backend_for_browser_game.Application.{Chance, join_game, make_action, find_player_by_token}

module _ {D : Type 0} ⦃d : Double D⦄ (boost : Boost D)
    (sort : List (GatheringEvent D) → List (GatheringEvent D)) (allowed : ℤ → Type 0) where
  -- A join, an action of a player that a token finds, or a tick whose time is allowed; in test mode the
  -- clock of the game is moved on by hand.
  pub data Step : World D → World D → Type 0 where
    joining :
        (w w' : World D) (p : Player) (name map_id : Bytes) (c : Chance)
        → join_game w name map_id c ≡ ok (w', p)
        → Step w w'
    acting :
        (w w' : World D) (p : Player) (token move : Bytes)
        → find_player_by_token w.players token ≡ some p
        → make_action w p move ≡ ok w'
        → Step w w'
    ticking :
        (w w' : World D) (outside : Outside D) (t : ℤ) (saving : Bool)
        → allowed t
        → update boost sort w outside t ≡ ok (w', saving)
        → Step w w'
    timing : (w : World D) (t : ℤ) → Step w (record w { game = add_test_time w.game t })

  pub data Reach : World D → World D → Type 0 where
    here : (w : World D) → Reach w w
    next : (w mid w' : World D) → Reach w mid → Step mid w' → Reach w w'
