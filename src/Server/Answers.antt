-- ===== src/Server/Answers.antt =====
-- Handle of src/api_handler.h: what an answer says of the request and of what has become of the state.
use Prim.Native.String.{String}
use backend_for_browser_game.Base.{
  ℕ, ℤ, ◌≡◌, refl, subst, Bool, true, false, List, Bytes, Option, some, none, Result, ok, ok-inj,
  ◌>>=◌, >>=-eq-ok, if◌then◌else◌,
}
use backend_for_browser_game.Double.{Double}
use backend_for_browser_game.Collision.{GatheringEvent}
use backend_for_browser_game.Model.World.{World, Player, PlayerRecord, add_test_time, find_map}
use backend_for_browser_game.Model.Movement.{Boost}
use backend_for_browser_game.Model.Tick.{update}
use backend_for_browser_game.Application.{
  join_game, make_action, find_player_by_token, find_players_in_session, find_loot_in_session,
}
use backend_for_browser_game.Handlers.Text.{url_decode, is_valid_action}
use backend_for_browser_game.Handlers.Records.{Page, cut}
use backend_for_browser_game.Json.{codes, Json}
use backend_for_browser_game.Handlers.Api.{
  Request, Answer, Response, Body, Code, failure, maps, map_info, players, state, records, joined,
  nothing, fail_with, succeed, try_extract_token, authorized, permitted, execute_authorized,
  names_of, dogs_of, get_players_response, get_state_response, map_info_response, map_found,
  maps_list_response, rows_response, page_response,
}
use backend_for_browser_game.Handlers.Game.{
  member_of, text_of, Inputs, is_post, is_get_head, is_test, path_of,
}

-- The part of the target before the query.
abbrev pub IsFor : Request → Bytes → Type 0
IsFor req path = (full : Bytes) × (url_decode req.target ≡ ok full) × ((cut b'?' full).0 ≡ path)

-- What is read from the state.
abbrev pub IsReport : {D : Type 0} → Body D → Type 0
IsReport (failure code) = ⊥
IsReport (maps ms) = Unit
IsReport (map_info m) = Unit
IsReport (players ps) = Unit
IsReport (state dogs loot) = Unit
IsReport (records rows) = Unit
IsReport (joined token id) = ⊥
IsReport nothing = ⊥

module _ {J : Type 0} (json : Json J) {D : Type 0} ⦃d : Double D⦄ (boost : Boost D)
    (sort : List (GatheringEvent D) → List (GatheringEvent D)) (w : World D) (inputs : Inputs D)
    (req : Request) where
  -- A member of the JSON in the body, and the text in one.
  abbrev pub HasMember : String → J → Type 0
  HasMember key v =
      (doc : J) × (json.parse req.body ≡ some doc) × (member_of json doc (codes key) ≡ ok (some v))

  abbrev pub HasText : String → Bytes → Type 0
  HasText key s = (v : J) × HasMember key v × (text_of json v ≡ ok s)

  -- An answer, and the state that the server is left in. A refusal and a report leave it as it was.
  pub data IsExplained : World D → Response D → Type 0 where
    refuses : (status : ℕ) (code : Code) → IsExplained w (fail_with status code)
    reports : (b : Body D) → is_get_head req.method ≡ true → IsReport b → IsExplained w (succeed b)
    joins :
        (w' : World D) (p : Player) (name map_id : Bytes)
        → is_post req.method ≡ true
        → IsFor req (path_of "/join")
        → HasText "userName" name
        → HasText "mapId" map_id
        → join_game w name map_id inputs.chance ≡ ok (w', p)
        → IsExplained w' (succeed (joined p.token p.id))
    acts :
        (w' : World D) (p : Player) (token move : Bytes)
        → is_post req.method ≡ true
        → IsFor req (path_of "/player/action")
        → HasText "move" move
        → try_extract_token req ≡ ok (some token)
        → find_player_by_token w.players token ≡ some p
        → is_valid_action move ≡ true
        → make_action w p move ≡ ok w'
        → IsExplained w' (succeed nothing)
    ticks :
        (w' : World D) (v : J) (t : ℤ) (saving : Bool)
        → is_post req.method ≡ true
        → IsFor req (path_of "/tick")
        → HasMember "timeDelta" v
        → is_test w.game.game_mode ≡ true
        → json.as_int64 v ≡ some t
        → update boost sort (record w { game = add_test_time w.game t }) inputs.outside t
          ≡ ok (w', saving)
        → IsExplained w' (succeed nothing)

  abbrev pub Explains : Answer D → Type 0
  Explains a = (w' : World D) (r : Response D) → a ≡ ok (w', r) → IsExplained w' r

  pub ok-Explains : (w' : World D) (r : Response D) → IsExplained w' r → Explains (ok (w', r))
  ok-Explains w₁ r₁ k w' r h =
      subst (λ (x : World D × Response D). IsExplained x.0 x.1) (ok-inj h) k

  pub refuse-Explains : (status : ℕ) (code : Code) → Explains (ok (w, fail_with status code))
  refuse-Explains status code = ok-Explains w (fail_with status code) (refuses status code)

  pub bind-Explains :
      {A : Type 0} (m : Result A) (f : A → Answer D)
      → ((a : A) → m ≡ ok a → Explains (f a))
      → Explains (m >>= f)
  bind-Explains m f k w' r h = let (a, e, q) = >>=-eq-ok m f h in k a e w' r q

  pub if-Explains :
      (b : Bool) (x y : Answer D)
      → (b ≡ true → Explains x)
      → (b ≡ false → Explains y)
      → Explains (if b then x else y)
  if-Explains true x y k l = k refl
  if-Explains false x y k l = l refl

  -- The action may read the header again.
  pub authorized-Explains :
      (action : Bytes → Answer D)
      → ((token : Bytes) (p : Player)
          → try_extract_token req ≡ ok (some token)
          → find_player_by_token w.players token ≡ some p
          → Explains (action token))
      → Explains (execute_authorized w req action)
  unfolding execute_authorized
  authorized-Explains action k =
      bind-Explains (try_extract_token req) (authorized w action) by_token
    where
      by_player :
          (token : Bytes) (p : Option Player)
          → try_extract_token req ≡ ok (some token)
          → find_player_by_token w.players token ≡ p
          → Explains (permitted w action token p)
      by_player token none e f = refuse-Explains _ _
      by_player token (some p) e f = k token p e f

      by_token :
          (found : Option Bytes)
          → try_extract_token req ≡ ok found
          → Explains (authorized w action found)
      by_token none e = refuse-Explains _ _
      by_token (some token) e = by_player token (find_player_by_token w.players token) e refl

  module _ (reads : is_get_head req.method ≡ true) where
    report-Explains : (b : Body D) → IsReport b → Explains (ok (w, succeed b))
    report-Explains b k = ok-Explains w (succeed b) (reports b reads k)

    pub get_players_response-Explains : Explains (get_players_response w req)
    unfolding get_players_response
    get_players_response-Explains = authorized-Explains _ (λ token p e f.
        bind-Explains (names_of w (find_players_in_session w.players token)) _
          (λ names g. report-Explains (players names) tt))

    pub get_state_response-Explains : Explains (get_state_response w req)
    unfolding get_state_response
    get_state_response-Explains = authorized-Explains _ (λ token p e f.
        bind-Explains (dogs_of w (find_players_in_session w.players token)) _ (λ dogs g.
          bind-Explains (find_loot_in_session w token) _
            (λ loot h. report-Explains (state dogs loot) tt)))

    pub page_response-Explains :
        (query : Page → Option (List PlayerRecord)) (page : Option Page)
        → Explains (page_response query w page)
    page_response-Explains query none = refuse-Explains _ _
    page_response-Explains query (some page) = rows (query page)
      where
        rows : (found : Option (List PlayerRecord)) → Explains (rows_response w found)
        rows none = refuse-Explains _ _
        rows (some found) = report-Explains (records found) tt

    pub map_info_response-Explains : (id : Bytes) → Explains (map_info_response w id)
    unfolding map_info_response
    map_info_response-Explains id = at (find_map w.game id)
      where
        at : (m : Option ℕ) → Explains (map_found w m)
        at none = refuse-Explains _ _
        at (some i) = bind-Explains _ _ (λ m e. report-Explains (map_info m) tt)

    pub maps_list_response-Explains : Explains (maps_list_response w)
    unfolding maps_list_response
    maps_list_response-Explains = report-Explains _ tt
