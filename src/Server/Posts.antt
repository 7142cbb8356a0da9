-- ===== src/Server/Posts.antt =====
-- The handlers of joins, actions and ticks of src/api_handler.h, and what their answers say.
use backend_for_browser_game.Base.{
  ℕ, ℤ, ◌≡◌, refl, true, List, str_eq, Bytes, Option, some, none, ok, undefined, or_fail,
  or_fail-eq-ok, ◌>>=◌,
}
use backend_for_browser_game.Double.{Double}
use backend_for_browser_game.Collision.{GatheringEvent}
use backend_for_browser_game.Model.World.{World, add_test_time, find_map}
use backend_for_browser_game.Model.Movement.{Boost}
use backend_for_browser_game.Model.Tick.{update}
use backend_for_browser_game.Application.{join_game, make_action, find_player_by_token}
use backend_for_browser_game.Handlers.Text.{is_valid_action}
use backend_for_browser_game.Json.{Json, codes}
use backend_for_browser_game.Handlers.Api.{
  Request, Answer, fail_with, succeed, joined, map_not_found, Code, try_extract_token, word,
}
use backend_for_browser_game.Handlers.Game.{
  Inputs, is_post, is_test, text_of, member_of, join_as, join_members, join_body, act,
  action_member, action_body, player_action_response, tick_delta, tick_member, tick_body, path_of,
}
use backend_for_browser_game.Server.Answers.{
  HasText, HasMember, IsFor, joins, acts, ticks, Explains, ok-Explains, refuse-Explains,
  bind-Explains, if-Explains, authorized-Explains,
}

module _ {J : Type 0} (json : Json J) {D : Type 0} ⦃d : Double D⦄ (boost : Boost D)
    (sort : List (GatheringEvent D) → List (GatheringEvent D)) (w : World D) (inputs : Inputs D)
    (req : Request) where
  abbrev pub Fine : Answer D → Type 0
  Fine = Explains json boost sort w inputs req

  pub refuse : (status : ℕ) (code : Code) → Fine (ok (w, fail_with status code))
  refuse = refuse-Explains json boost sort w inputs req

  module _ (posted : is_post req.method ≡ true) where
    module _ (aim : IsFor req (path_of "/join")) where
      join_as-Explains :
          (map_id name : Bytes)
          → HasText json boost sort w inputs req "userName" name
          → HasText json boost sort w inputs req "mapId" map_id
          → Fine (join_as json w inputs.chance map_id name)
      join_as-Explains map_id name user place =
          if-Explains json boost sort w inputs req (str_eq name _) _ _ (λ y. refuse _ _)
            (λ n. at (find_map w.game map_id))
        where
          at :
              (m : Option ℕ)
              → Fine (elim m [
                | none ↦ ok (w, fail_with 404 map_not_found)
                | some m ↦ join_game w name map_id inputs.chance >>= λ (w', p).
                    ok (w', succeed (joined p.token p.id))
              ])
          at none = refuse _ _
          at (some m) =
              bind-Explains json boost sort w inputs req (join_game w name map_id inputs.chance) _
                (λ (w', p) e.
                  ok-Explains json boost sort w inputs req w' _
                    (joins w' p name map_id posted aim user place e))

      join_members-Explains :
          (doc : J) (user place : Option J)
          → json.parse req.body ≡ some doc
          → member_of json doc (codes "userName") ≡ ok user
          → member_of json doc (codes "mapId") ≡ ok place
          → Fine (join_members json w inputs.chance user place)
      join_members-Explains doc none place b x y = refuse _ _
      join_members-Explains doc (some user) none b x y = refuse _ _
      join_members-Explains doc (some user) (some place) b x y =
          bind-Explains json boost sort w inputs req (text_of json place) _ (λ map_id e.
            bind-Explains json boost sort w inputs req (text_of json user) _ (λ name f.
              join_as-Explains map_id name (user, (doc, b, x), f) (place, (doc, b, y), e)))

      pub join_body-Explains :
          (v : Option J) → json.parse req.body ≡ v → Fine (join_body json w inputs.chance v)
      join_body-Explains none b = refuse _ _
      join_body-Explains (some v) b =
          bind-Explains json boost sort w inputs req (member_of json v (codes "userName")) _
            (λ user e.
              bind-Explains json boost sort w inputs req (member_of json v (codes "mapId")) _
                (λ place f. join_members-Explains v user place b e f))

    module _ (aim : IsFor req (path_of "/player/action")) (token : Bytes)
        (known : try_extract_token req ≡ ok (some token)) where
      act-Explains :
          (move : Bytes)
          → HasText json boost sort w inputs req "move" move
          → is_valid_action move ≡ true
          → Fine (act json w token move)
      act-Explains move said v =
          bind-Explains json boost sort w inputs req
            (or_fail (find_player_by_token w.players token) undefined) _
            (λ p e. bind-Explains json boost sort w inputs req (make_action w p move) _ (λ w' f.
              ok-Explains json boost sort w inputs req w' _ (
                acts w' p token move posted aim said known
                  (or_fail-eq-ok (find_player_by_token w.players token) undefined e) v f)))

      action_member-Explains :
          (doc : J) (v : Option J)
          → json.parse req.body ≡ some doc
          → member_of json doc (codes "move") ≡ ok v
          → Fine (action_member json w token v)
      action_member-Explains doc none b x = refuse _ _
      action_member-Explains doc (some v) b x =
          bind-Explains json boost sort w inputs req (text_of json v) _ (λ move e.
            if-Explains json boost sort w inputs req (is_valid_action move) _ _
              (act-Explains move (v, (doc, b, x), e)) (λ n. refuse _ _))

      action_body-Explains :
          (v : Option J) → json.parse req.body ≡ v → Fine (action_body json w token v)
      action_body-Explains none b = refuse _ _
      action_body-Explains (some v) b =
          bind-Explains json boost sort w inputs req (member_of json v (codes "move")) _
            (λ m e. action_member-Explains v m b e)

    pub player_action_response-Explains :
        IsFor req (path_of "/player/action") → Fine (player_action_response json w req)
    unfolding player_action_response
    player_action_response-Explains aim =
        authorized-Explains json boost sort w inputs req _ (λ token p known found.
          bind-Explains json boost sort w inputs req (or_fail req.content_type undefined) _
            (λ type e.
              if-Explains json boost sort w inputs req
                (str_eq (word type).0 (codes "application/json")) _ _
                (λ y. action_body-Explains aim token known (json.parse req.body) refl)
                (λ n. refuse _ _)))

    module _ (aim : IsFor req (path_of "/tick")) (testing : is_test w.game.game_mode ≡ true) where
      tick_delta-Explains :
          (v : J) (t : Option ℤ)
          → HasMember json boost sort w inputs req "timeDelta" v
          → json.as_int64 v ≡ t
          → Fine (tick_delta json boost sort w inputs.outside t)
      tick_delta-Explains v none said e = refuse _ _
      tick_delta-Explains v (some t) said e =
          bind-Explains json boost sort w inputs req
            (update boost sort (record w { game = add_test_time w.game t }) inputs.outside t) _
            (λ (w', saving) f.
              ok-Explains json boost sort w inputs req w' _
                (ticks w' v t saving posted aim said testing e f))

      tick_member-Explains :
          (doc : J) (v : Option J)
          → json.parse req.body ≡ some doc
          → member_of json doc (codes "timeDelta") ≡ ok v
          → Fine (tick_member json boost sort w inputs.outside v)
      tick_member-Explains doc none b x = refuse _ _
      tick_member-Explains doc (some v) b x =
          tick_delta-Explains v (json.as_int64 v) (doc, b, x) refl

      pub tick_body-Explains :
          (v : Option J)
          → json.parse req.body ≡ v
          → Fine (tick_body json boost sort w inputs.outside v)
      tick_body-Explains none b = refuse _ _
      tick_body-Explains (some v) b =
          bind-Explains json boost sort w inputs req (member_of json v (codes "timeDelta")) _
            (λ m e. tick_member-Explains v m b e)
