-- ===== src/Serialization/Archive.antt =====
-- Game::SaveState and Game::LoadState of src/model.cpp: what goes into the archive, and what is made of
-- it. The file that SaveState writes is modelled in Serialization.Files; the log is left out.
use backend_for_browser_game.Base.{
  ℕ, List, [], ◌∷◌, ◌++◌, length, get_elem?, remove_if, str_eq, Bytes, Result, ok, undefined,
  or_fail, ◌>>=◌,
}
use backend_for_browser_game.Double.{Double}
use backend_for_browser_game.Model.Session.{GameSession}
use backend_for_browser_game.Model.World.{World, Player, map_at}
use backend_for_browser_game.Serialization.{
  GameSessionRepr, PlayerRepr, Fresh, session_repr, player_repr, restore_session, restore_player,
}

pub record SaveFile (D : Type 0) : Type 0 where
  pub sessions : List (GameSessionRepr D)
  pub players : List PlayerRepr

module _ {D : Type 0} where
  unfoldable pub session_reprs : World D → List (Bytes × ℕ) → Result (List (GameSessionRepr D))
  session_reprs w [] = ok []
  session_reprs w ((id, a) ∷ rest) = do
    s ← or_fail (get_elem? w.sessions a) undefined
    r ← session_repr w s
    others ← session_reprs w rest
    ok (r ∷ others)

  unfoldable pub player_reprs : World D → List Player → Result (List PlayerRepr)
  player_reprs w [] = ok []
  player_reprs w (p ∷ rest) = do r ← player_repr w p; others ← player_reprs w rest; ok (r ∷ others)

  unfoldable pub save_state : World D → Result (SaveFile D)
  save_state w = do
    sessions ← session_reprs w w.game.sessions
    players ← player_reprs w w.players
    ok (record { sessions = sessions; players = players })

  -- `sessions_[id] = …`, with a new session on the heap.
  unfoldable pub put_session : World D → Bytes → GameSession D → World D
  put_session w id s = record w {
    game = record (w.game) {
      sessions = (id, length w.sessions) ∷ remove_if (λ e. str_eq e.0 id) w.game.sessions;
    };
    sessions = w.sessions ++ (s ∷ []);
  }

  unfoldable pub load_players : World D → List PlayerRepr → Result (World D)
  load_players w [] = ok w
  load_players w (r ∷ rs) = restore_player w r >>= λ (p, w').
      load_players (record w' { players = w'.players ++ (p ∷ []) }) rs

module _ {D : Type 0} ⦃d : Double D⦄ where
  unfoldable pub load_sessions : World D → (ℕ → Fresh) → List (GameSessionRepr D) → Result (World D)
  load_sessions w fresh [] = ok w
  load_sessions w fresh (r ∷ rs) =
      let (s, w') = restore_session w fresh r in
      map_at w'.game s.map >>= λ m. load_sessions (put_session w' m.id s) fresh rs

  unfoldable pub load_state : World D → (ℕ → Fresh) → SaveFile D → Result (World D)
  load_state w fresh f =
      load_sessions (record w { game = record (w.game) { sessions = [] } }) fresh f.sessions
      >>= λ w'. load_players w' f.players
