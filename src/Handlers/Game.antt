-- ===== src/Handlers/Game.antt =====
-- The handlers that change the game, and `Handle` of src/api_handler.h.
use Prim.Native.String.{String}
use backend_for_browser_game.Base.{
  ℕ, zero, suc, ℤ, Bool, true, false, ◌&&◌, List, [], ◌∷◌, ◌++◌, str_eq, Bytes, Option, some, none,
  Result, ok, err, runtime_error, undefined, or_fail, ◌>>=◌, if◌then◌else◌,
}
use backend_for_browser_game.Json.{Json, codes}
use backend_for_browser_game.Double.{Double}
use backend_for_browser_game.Collision.{GatheringEvent}
use backend_for_browser_game.Model.World.{
  World, PlayerRecord, GameMode, test, normal, find_map, add_test_time,
}
use backend_for_browser_game.Model.Movement.{Boost}
use backend_for_browser_game.Model.Tick.{Outside, update}
use backend_for_browser_game.Application.{Chance, join_game, make_action, find_player_by_token}
use backend_for_browser_game.Handlers.Text.{url_decode, is_valid_action}
use backend_for_browser_game.Handlers.Records.{Page, cut}
use backend_for_browser_game.Handlers.Api.{
  Method, get, head, post, other, Request, bad_request, invalid_method, invalid_argument_code,
  map_not_found, joined, nothing, Answer, fail_with, succeed, starts_with, word, execute_authorized,
  get_players_response, get_state_response, get_records_response, map_info_response,
  maps_list_response,
}

abbrev pub api_maps : Bytes
api_maps = codes "/api/v1/maps"

abbrev pub api_game : Bytes
api_game = codes "/api/v1/game"

abbrev pub path_of : String → Bytes
path_of s = api_game ++ codes s

abbrev pub drop : ℕ → Bytes → Bytes
drop zero s = s
drop (suc n) [] = []
drop (suc n) (c ∷ s) = drop n s

-- c_str(), up to the first null.
abbrev until_null : Bytes → Bytes
until_null s = (cut 0 s).0

abbrev pub is_get_head : Method → Bool
is_get_head get = true
is_get_head head = true
is_get_head post = false
is_get_head other = false

abbrev pub is_post : Method → Bool
is_post post = true
is_post get = false
is_post head = false
is_post other = false

-- What the handlers read from outside: draws and the clock for a join, those for a tick, and the rows
-- of the database.
pub record Inputs (D : Type 0) : Type 0 where
  pub chance : Chance
  pub outside : Outside D
  pub query : Page → Option (List PlayerRecord)

abbrev pub is_test : GameMode → Bool
is_test test = true
is_test normal = false

module _ {J : Type 0} (json : Json J) where
  abbrev pub text_of : J → Result Bytes
  text_of v = or_fail (json.as_string v) runtime_error >>= λ s. ok (until_null s)

  -- as_object() throws on what is no object.
  abbrev pub member_of : J → Bytes → Result (Option J)
  member_of v key = if json.is_object v then ok (json.member v key) else err runtime_error

  module _ {D : Type 0} ⦃d : Double D⦄ where
    abbrev pub join_as : World D → Chance → Bytes → Bytes → Answer D
    join_as w chance map_id user_name =
        if str_eq user_name []
        then ok (w, fail_with 400 invalid_argument_code)
        else elim (find_map w.game map_id) [
          | none ↦ ok (w, fail_with 404 map_not_found)
          | some m ↦ join_game w user_name map_id chance >>= λ (w', p).
              ok (w', succeed (joined p.token p.id))
        ]

    abbrev pub join_members : World D → Chance → Option J → Option J → Answer D
    join_members w chance (some user) (some place) = do
      map_id ← text_of place
      user_name ← text_of user
      join_as w chance map_id user_name
    join_members w chance _ _ = ok (w, fail_with 400 invalid_argument_code)

    abbrev pub join_body : World D → Chance → Option J → Answer D
    join_body w chance none = ok (w, fail_with 400 invalid_argument_code)
    join_body w chance (some v) = do
      user ← member_of v (codes "userName")
      place ← member_of v (codes "mapId")
      join_members w chance user place

    unfoldable pub join_game_response : World D → Chance → Request → Answer D
    join_game_response w chance req = join_body w chance (json.parse req.body)

    abbrev pub act : World D → Bytes → Bytes → Answer D
    act w token move = do
      p ← or_fail (find_player_by_token w.players token) undefined
      w' ← make_action w p move
      ok (w', succeed nothing)

    abbrev pub action_member : World D → Bytes → Option J → Answer D
    action_member w token none = ok (w, fail_with 400 invalid_argument_code)
    action_member w token (some v) = text_of v >>= λ move.
        if is_valid_action move
        then act w token move
        else ok (w, fail_with 400 invalid_argument_code)

    abbrev pub action_body : World D → Bytes → Option J → Answer D
    action_body w token none = ok (w, fail_with 400 invalid_argument_code)
    action_body w token (some v) = member_of v (codes "move") >>= action_member w token

    abbrev pub action_typed : World D → Bytes → Request → Bytes → Answer D
    action_typed w token req type =
        if str_eq (word type).0 (codes "application/json")
        then action_body w token (json.parse req.body)
        else ok (w, fail_with 400 invalid_argument_code)

    unfoldable pub player_action_response : World D → Request → Answer D
    player_action_response w req =
        execute_authorized w req
          (λ token. or_fail req.content_type undefined >>= λ type. action_typed w token req type)

    module _ (boost : Boost D) (sort : List (GatheringEvent D) → List (GatheringEvent D)) where
      abbrev pub tick_delta : World D → Outside D → Option ℤ → Answer D
      tick_delta w outside none = ok (w, fail_with 400 invalid_argument_code)
      tick_delta w outside (some delta) =
          update boost sort (record w { game = add_test_time w.game delta }) outside delta
          >>= λ (w', saving). ok (w', succeed nothing)

      abbrev pub tick_member : World D → Outside D → Option J → Answer D
      tick_member w outside none = ok (w, fail_with 400 invalid_argument_code)
      tick_member w outside (some v) = tick_delta w outside (json.as_int64 v)

      abbrev pub tick_body : World D → Outside D → Option J → Answer D
      tick_body w outside none = ok (w, fail_with 400 invalid_argument_code)
      tick_body w outside (some v) = member_of v (codes "timeDelta") >>= tick_member w outside

      unfoldable pub tick_response : World D → Outside D → Request → Answer D
      tick_response w outside req = tick_body w outside (json.parse req.body)

      abbrev post_only : Method → World D → Answer D → Answer D
      post_only method w answer =
          if is_post method then answer else ok (w, fail_with 405 invalid_method)

      abbrev get_head_only : Method → World D → Answer D → Answer D
      get_head_only method w answer =
          if is_get_head method then answer else ok (w, fail_with 405 invalid_method)

      unfoldable pub handle_maps : World D → Bytes → Method → Answer D
      handle_maps w target method = get_head_only method w (
          if str_eq target api_maps
          then maps_list_response w
          else if starts_with target (api_maps ++ codes "/")
          then map_info_response w (drop 13 target)
          else ok (w, fail_with 400 bad_request))

      unfoldable pub handle_game : World D → Inputs D → Bytes → Request → Answer D
      handle_game w inputs target req =
          if str_eq target (path_of "/player/action")
          then post_only req.method w (player_action_response w req)
          else if str_eq target (path_of "/join")
          then post_only req.method w (join_game_response w inputs.chance req)
          else if str_eq target (path_of "/players")
          then get_head_only req.method w (get_players_response w req)
          else if str_eq target (path_of "/records")
          then get_head_only req.method w (get_records_response inputs.query w req)
          else if str_eq target (path_of "/state")
          then get_head_only req.method w (get_state_response w req)
          else if str_eq target (path_of "/tick") && is_test w.game.game_mode
          then post_only req.method w (tick_response w inputs.outside req)
          else ok (w, fail_with 400 bad_request)

      unfoldable pub handle : World D → Inputs D → Request → Answer D
      handle w inputs req = url_decode req.target >>= λ full_target.
          let target = (cut b'?' full_target).0 in
          if starts_with target api_maps
          then handle_maps w target req.method
          else if starts_with target api_game
          then handle_game w inputs target req
          else ok (w, fail_with 400 bad_request)
