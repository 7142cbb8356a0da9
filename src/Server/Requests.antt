-- ===== src/Server/Requests.antt =====
-- Handle of src/api_handler.h as a sequence of the operations of the server.
use backend_for_browser_game.Base.{
  refl, ◌++◌, ℤ, ◌≡◌, Bool, ◌&&◌, true, List, str_eq, str_eq-eq, Bytes, some, ok, arith,
  if◌then◌else◌,
}
use backend_for_browser_game.Double.{Double}
use backend_for_browser_game.Collision.{GatheringEvent}
use backend_for_browser_game.Model.World.{World, add_test_time}
use backend_for_browser_game.Model.Movement.{Boost}
use backend_for_browser_game.Handlers.Text.{url_decode}
use backend_for_browser_game.Handlers.Records.{cut, page_of}
use backend_for_browser_game.Json.{Json, codes}
use backend_for_browser_game.Handlers.Api.{
  Request, Answer, Response, fail_with, invalid_method, get_records_response, map_info_response,
  bad_request, starts_with,
}
use backend_for_browser_game.Handlers.Game.{
  Inputs, is_post, is_get_head, is_test, join_game_response, tick_response, path_of, api_maps,
  api_game, drop, handle_maps, handle_game, handle,
}
use backend_for_browser_game.Server.Steps.{Reach, joining, acting, ticking, timing, here, next}
use backend_for_browser_game.Server.Answers.{
  IsFor, IsExplained, refuses, reports, joins, acts, ticks, if-Explains, bind-Explains,
  get_players_response-Explains, get_state_response-Explains, page_response-Explains,
  map_info_response-Explains, maps_list_response-Explains,
}
use backend_for_browser_game.Server.Posts.{
  Fine, refuse, join_body-Explains, player_action_response-Explains, tick_body-Explains,
}

module _ {J : Type 0} (json : Json J) {D : Type 0} ⦃d : Double D⦄ (boost : Boost D)
    (sort : List (GatheringEvent D) → List (GatheringEvent D)) where
  module _ (w : World D) (inputs : Inputs D) (req : Request) where
    branch :
        (b : Bool) (x y : Answer D)
        → (b ≡ true → Fine json boost sort w inputs req x)
        → Fine json boost sort w inputs req y
        → Fine json boost sort w inputs req (if b then x else y)
    branch b x y k l = if-Explains json boost sort w inputs req b x y k (λ n. l)

    -- The method is tested first.
    guarded :
        (b : Bool) (x : Answer D)
        → (b ≡ true → Fine json boost sort w inputs req x)
        → Fine json boost sort w inputs req (if b then x else ok (w, fail_with 405 invalid_method))
    guarded b x k = branch b x _ k (refuse json boost sort w inputs req 405 invalid_method)

    handle_maps-Explains :
        (target : Bytes)
        → Fine json boost sort w inputs req (handle_maps json boost sort w target req.method)
    unfolding handle_maps
    handle_maps-Explains target = guarded (is_get_head req.method) _ (λ reads.
        branch (str_eq target api_maps) _ _
          (λ y. maps_list_response-Explains json boost sort w inputs req reads)
          (branch (starts_with target (api_maps ++ codes "/"))
            (map_info_response w (drop 13 target)) _
            (λ y. map_info_response-Explains json boost sort w inputs req reads (drop 13 target))
            (refuse json boost sort w inputs req 400 bad_request)))

    handle_game-Explains :
        (full : Bytes)
        → url_decode req.target ≡ ok full
        → Fine json boost sort w inputs req
            (handle_game json boost sort w inputs (cut b'?' full).0 req)
    unfolding handle_game get_records_response join_game_response tick_response
    handle_game-Explains full e =
        let target = (cut b'?' full).0 in
        branch (str_eq target (path_of "/player/action")) _ _
          (λ y.
            guarded (is_post req.method) _ (λ posted.
              player_action_response-Explains json boost sort w inputs req posted (aim y)))
          (branch (str_eq target (path_of "/join")) _ _
            (λ y. guarded (is_post req.method) _ (λ posted.
              join_body-Explains json boost sort w inputs req posted (aim y) (json.parse req.body)
                refl))
            (branch (str_eq target (path_of "/players")) _ _
              (λ y.
                guarded (is_get_head req.method) _
                  (get_players_response-Explains json boost sort w inputs req))
              (branch (str_eq target (path_of "/records")) _ _
                (λ y. guarded (is_get_head req.method) _ (λ reads.
                  page_response-Explains json boost sort w inputs req reads inputs.query
                    (page_of req.target)))
                (branch (str_eq target (path_of "/state")) _ _
                  (λ y.
                    guarded (is_get_head req.method) _
                      (get_state_response-Explains json boost sort w inputs req))
                  (branch (str_eq target (path_of "/tick") && is_test w.game.game_mode) _ _
                    (λ y. guarded (is_post req.method) _ (λ posted.
                      tick_body-Explains json boost sort w inputs req posted
                        (aim (ground (arith, y))) (ground (arith, y)) (json.parse req.body) refl))
                    (refuse json boost sort w inputs req 400 bad_request))))))
      where
        aim : {path : Bytes} → str_eq (cut b'?' full).0 path ≡ true → IsFor req path
        aim {path} y = (full, e, str_eq-eq _ path y)

    handle-IsExplained :
        (w' : World D) (r : Response D)
        → handle json boost sort w inputs req ≡ ok (w', r)
        → IsExplained json boost sort w inputs req w' r
    unfolding handle
    handle-IsExplained =
        bind-Explains json boost sort w inputs req (url_decode req.target) _ (λ full e.
          branch (starts_with (cut b'?' full).0 api_maps) _ _
            (λ y. handle_maps-Explains (cut b'?' full).0)
            (branch (starts_with (cut b'?' full).0 api_game) _ _ (λ y. handle_game-Explains full e)
              (refuse json boost sort w inputs req 400 bad_request)))

  module _ (allowed : ℤ → Type 0)
      (numbers : (v : J) (t : ℤ) → json.as_int64 v ≡ some t → allowed t) where
    IsExplained-Reach :
        (w : World D) (inputs : Inputs D) (req : Request) (w' : World D) (r : Response D)
        → IsExplained json boost sort w inputs req w' r
        → Reach boost sort allowed w w'
    IsExplained-Reach w inputs req _ _ (refuses status code) = here w
    IsExplained-Reach w inputs req _ _ (reports b m k) = here w
    IsExplained-Reach w inputs req _ _ (joins w' p name map_id m a u l e) =
        next w w w' (here w) (joining w w' p name map_id inputs.chance e)
    IsExplained-Reach w inputs req _ _ (acts w' p token move m a j k f v e) =
        next w w w' (here w) (acting w w' p token move f e)
    IsExplained-Reach w inputs req _ _ (ticks w' v t saving m a j g k e) =
        let timed : World D = record w { game = add_test_time w.game t } in
        next w timed w' (next w w timed (here w) (timing w t))
          (ticking timed w' inputs.outside t saving (numbers v t k) e)

    -- Suppose every number that the parser of JSON reads from a request is allowed as the time of a tick.
    -- Then an answer to a request leaves the server in a state that joins, actions, ticks of an allowed
    -- time and moves of the test clock lead to; and the answer is one of five. It refuses, or it reports
    -- to a GET or HEAD request, and the state stays as it was. It gives the token and the id of a player
    -- who has joined by the name and on the map that the body gives, for a POST to the path of joins. It
    -- is empty for a POST to the path of actions that carries a token, and the player with this token has
    -- made the action of the body, which is valid. Or it is empty for a POST to the path of ticks in test
    -- mode, and the test clock and the game have moved on by the number in the body.
    pub handle-Reach :
        (w : World D) (inputs : Inputs D) (req : Request) (w' : World D) (r : Response D)
        → handle json boost sort w inputs req ≡ ok (w', r)
        → IsExplained json boost sort w inputs req w' r × Reach boost sort allowed w w'
    handle-Reach w inputs req w' r h =
        let told = handle-IsExplained w inputs req w' r h in
        (told, IsExplained-Reach w inputs req w' r told)
