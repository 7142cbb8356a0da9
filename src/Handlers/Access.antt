-- ===== src/Handlers/Access.antt =====
-- Handle of src/api_handler.h: which requests may change the game.
use backend_for_browser_game.Base.{
  ℕ, ◌≡◌, Bool, true, false, ◌&&◌, List, str_eq, Bytes, Option, some, none, Result, ok, ◌>>=◌,
  >>=-eq-ok, arith, if◌then◌else◌,
}
use backend_for_browser_game.Double.{Double}
use backend_for_browser_game.Collision.{GatheringEvent}
use backend_for_browser_game.Model.World.{World, Player, PlayerRecord, map_at}
use backend_for_browser_game.Model.Movement.{Boost}
use backend_for_browser_game.Application.{
  find_player_by_token, find_players_in_session, find_loot_in_session,
}
use backend_for_browser_game.Handlers.Text.{url_decode}
use backend_for_browser_game.Handlers.Records.{Page, cut, page_of}
use backend_for_browser_game.Json.{Json}
use backend_for_browser_game.Handlers.Api.{
  bad_request, invalid_method, Method, Request, Answer, Response, fail_with, try_extract_token,
  authorized, permitted, rows_response, page_response, map_found, execute_authorized, names_of,
  dogs_of, get_players_response, get_state_response, get_records_response, map_info_response,
  maps_list_response,
}
use backend_for_browser_game.Handlers.Game.{
  Inputs, is_post, is_get_head, handle_maps, handle_game, handle, api_maps, path_of, is_test,
}

module _ {D : Type 0} where
  -- Whatever the answer is, the world with it is the one before.
  abbrev pub Keeps : World D → Answer D → Type 0
  Keeps w a = (w' : World D) (r : Response D) → a ≡ ok (w', r) → w' ≡ w

  pub ok-Keeps : (w : World D) (r : Response D) → Keeps w (ok (w, r))
  ok-Keeps w r w' r' h = ground (arith, h)

  pub bind-Keeps :
      {A : Type 0} (w : World D) (m : Result A) (f : A → Answer D)
      → ((a : A) → Keeps w (f a))
      → Keeps w (m >>= f)
  bind-Keeps w m f k w' r h = let (a, e, q) = >>=-eq-ok m f h in k a w' r q

  pub if-Keeps :
      (w : World D) (b : Bool) (x y : Answer D)
      → Keeps w x
      → Keeps w y
      → Keeps w (if b then x else y)
  if-Keeps w true x y k l = k
  if-Keeps w false x y k l = l

  permitted-Keeps :
      (w : World D) (action : Bytes → Answer D) (t : Bytes) (p : Option Player)
      → ((t : Bytes) → Keeps w (action t))
      → Keeps w (permitted w action t p)
  permitted-Keeps w action t none k = ok-Keeps w _
  permitted-Keeps w action t (some p) k = k t

  authorized-Keeps :
      (w : World D) (action : Bytes → Answer D) (token : Option Bytes)
      → ((t : Bytes) → Keeps w (action t))
      → Keeps w (authorized w action token)
  authorized-Keeps w action none k = ok-Keeps w _
  authorized-Keeps w action (some t) k =
      permitted-Keeps w action t (find_player_by_token w.players t) k

  pub get_players_response-Keeps :
      (w : World D) (req : Request) → Keeps w (get_players_response w req)
  unfolding get_players_response execute_authorized
  get_players_response-Keeps w req = bind-Keeps w (try_extract_token req) _ (λ token.
      authorized-Keeps w _ token (λ t.
        bind-Keeps w (names_of w (find_players_in_session w.players t)) _ (λ names. ok-Keeps w _)))

  pub get_state_response-Keeps : (w : World D) (req : Request) → Keeps w (get_state_response w req)
  unfolding get_state_response execute_authorized
  get_state_response-Keeps w req = bind-Keeps w (try_extract_token req) _ (λ token.
      authorized-Keeps w _ token (λ t.
        bind-Keeps w (dogs_of w (find_players_in_session w.players t)) _
          (λ dogs. bind-Keeps w (find_loot_in_session w t) _ (λ loot. ok-Keeps w _))))

  rows-Keeps : (w : World D) (rows : Option (List PlayerRecord)) → Keeps w (rows_response w rows)
  rows-Keeps w none = ok-Keeps w _
  rows-Keeps w (some rows) = ok-Keeps w _

  pub page-Keeps :
      (query : Page → Option (List PlayerRecord)) (w : World D) (page : Option Page)
      → Keeps w (page_response query w page)
  page-Keeps query w none = ok-Keeps w _
  page-Keeps query w (some page) = rows-Keeps w (query page)

  map_found-Keeps : (w : World D) (i : Option ℕ) → Keeps w (map_found w i)
  map_found-Keeps w none = ok-Keeps w _
  map_found-Keeps w (some i) = bind-Keeps w (map_at w.game (some i)) _ (λ m. ok-Keeps w _)

module _ {J : Type 0} (json : Json J) {D : Type 0} ⦃d : Double D⦄ (boost : Boost D)
    (sort : List (GatheringEvent D) → List (GatheringEvent D)) where
  pub handle_maps-Keeps :
      (w : World D) (target : Bytes) (method : Method)
      → Keeps w (handle_maps json boost sort w target method)
  unfolding handle_maps maps_list_response map_info_response
  handle_maps-Keeps w target method =
      if-Keeps w (is_get_head method) _ _
        (if-Keeps w (str_eq target api_maps) _ _ (ok-Keeps w _)
          (if-Keeps w _ _ _ (map_found-Keeps w _) (ok-Keeps w _)))
        (ok-Keeps w _)

  handle_game-Keeps :
      (w : World D) (inputs : Inputs D) (target : Bytes) (req : Request)
      → is_post req.method ≡ false
      → Keeps w (handle_game json boost sort w inputs target req)
  unfolding handle_game get_records_response
  handle_game-Keeps w inputs target req n =
      let refused = ok-Keeps w (fail_with 405 invalid_method) in
      rw n (
        if-Keeps w (str_eq target (path_of "/player/action")) _ _ refused (
          if-Keeps w (str_eq target (path_of "/join")) _ _ refused (
            if-Keeps w (str_eq target (path_of "/players")) _ _
              (reads (get_players_response-Keeps w req))
              (if-Keeps w (str_eq target (path_of "/records")) _ _
                (reads (page-Keeps inputs.query w (page_of req.target)))
                (if-Keeps w (str_eq target (path_of "/state")) _ _
                  (reads (get_state_response-Keeps w req))
                  (if-Keeps w (str_eq target (path_of "/tick") && is_test w.game.game_mode) _ _
                    refused (ok-Keeps w (fail_with 400 bad_request))))))))
    where
      reads :
          {a : Answer D}
          → Keeps w a
          → Keeps w (if is_get_head req.method then a else ok (w, fail_with 405 invalid_method))
      reads k = if-Keeps w (is_get_head req.method) _ _ k (ok-Keeps w _)

  -- A request by any other method than POST leaves the state of the server as it is.
  pub handle-Keeps :
      (w : World D) (inputs : Inputs D) (req : Request)
      → is_post req.method ≡ false
      → (w' : World D) (r : Response D) → handle json boost sort w inputs req ≡ ok (w', r)
      → w' ≡ w
  unfolding handle
  handle-Keeps w inputs req n = bind-Keeps w (url_decode req.target) _ (λ full.
      if-Keeps w _ _ _ (handle_maps-Keeps w (cut b'?' full).0 req.method)
        (if-Keeps w _ _ _ (handle_game-Keeps w inputs (cut b'?' full).0 req n) (ok-Keeps w _)))
