-- ===== src/Handlers/Authorized.antt =====
-- PlayerActionResponse and ExecuteAuthorized of src/api_handler.h: who may act.
use backend_for_browser_game.Base.{
  ◌≡◌, ◌∙◌, ◌⊎◌, inl, inr, true, str_eq, Bytes, Option, some, none, ok, undefined, or_fail,
  or_fail-eq-ok, ◌>>=◌, >>=-eq-ok, arith, Bool-cases, if◌then◌else◌,
}
use backend_for_browser_game.Double.{Double}
use backend_for_browser_game.Model.World.{World, Player}
use backend_for_browser_game.Application.{find_player_by_token, make_action}
use backend_for_browser_game.Handlers.Text.{is_valid_action}
use backend_for_browser_game.Json.{Json}
use backend_for_browser_game.Handlers.Api.{
  Request, Answer, Response, fail_with, invalid_argument_code, try_extract_token, permitted,
  authorized, execute_authorized, word,
}
use backend_for_browser_game.Json.{codes}
use backend_for_browser_game.Handlers.Game.{
  act, action_member, action_body, action_typed, player_action_response, text_of, member_of,
}

module _ {J : Type 0} (json : Json J) {D : Type 0} ⦃d : Double D⦄ where
  -- A player with the token has made a valid action.
  abbrev pub HasActed : World D → Bytes → World D → Type 0
  HasActed w token w' =
      (p : Player) × (move : Bytes) × (find_player_by_token w.players token ≡ some p)
      × (is_valid_action move ≡ true)
      × (make_action w p move ≡ ok w')

  abbrev Outcome : World D → Bytes → Answer D → Type 0
  Outcome w token a =
      (w' : World D) (r : Response D) → a ≡ ok (w', r) → (w' ≡ w) ⊎ HasActed w token w'

  act-Outcome :
      (w : World D) (token move : Bytes)
      → is_valid_action move ≡ true
      → Outcome w token (act json w token move)
  act-Outcome w token move v w' r h =
      let (p, e, q) = >>=-eq-ok (or_fail (find_player_by_token w.players token) undefined) _ h in
      let (after, f, k) = >>=-eq-ok (make_action w p move) _ q in
      inr (
        p,
        move,
        or_fail-eq-ok (find_player_by_token w.players token) undefined e,
        v,
        f ∙ ground (arith, k),
      )

  action_member-Outcome :
      (w : World D) (token : Bytes) (v : Option J) → Outcome w token (action_member json w token v)
  action_member-Outcome w token none w' r h = inl (ground (arith, h))
  action_member-Outcome w token (some v) w' r h =
      let (move, e, q) = >>=-eq-ok (text_of json v) _ h in checked move q
    where
      checked :
          (move : Bytes)
          → (if is_valid_action move
              then act json w token move
              else ok (w, fail_with 400 invalid_argument_code))
            ≡ ok (w', r)
          → (w' ≡ w) ⊎ HasActed w token w'
      checked move q = elim (Bool-cases (is_valid_action move)) [
        | inl y ↦ act-Outcome w token move y w' r (rw y at q)
        | inr n ↦ inl (ground (arith, rw n at q))
      ]

  action_body-Outcome :
      (w : World D) (token : Bytes) (v : Option J) → Outcome w token (action_body json w token v)
  action_body-Outcome w token none w' r h = inl (ground (arith, h))
  action_body-Outcome w token (some v) w' r h =
      let (m, e, q) = >>=-eq-ok (member_of json v (codes "move")) _ h in
      action_member-Outcome w token m w' r q

  action_typed-Outcome :
      (w : World D) (token : Bytes) (req : Request) (type : Bytes)
      → Outcome w token (action_typed json w token req type)
  action_typed-Outcome w token req type w' r h =
      elim (Bool-cases (str_eq (word type).0 (codes "application/json"))) [
        | inl y ↦ action_body-Outcome w token (json.parse req.body) w' r (rw y at h)
        | inr n ↦ inl (ground (arith, rw n at h))
      ]

  -- If the handler of actions answers, then the state is as before, or the request carries a valid
  -- token, a player has it, and the state is what that player's action makes of it.
  pub player_action_response-HasActed :
      (w : World D) (req : Request) (w' : World D) (r : Response D)
      → player_action_response json w req ≡ ok (w', r)
      → (w' ≡ w)
        ⊎ ((token : Bytes) × (try_extract_token req ≡ ok (some token)) × HasActed w token w')
  unfolding player_action_response execute_authorized
  player_action_response-HasActed w req w' r h =
      let (found, e, q) = >>=-eq-ok (try_extract_token req) _ h in by_token found e q
    where
      after : Bytes → Answer D
      after token =
          or_fail req.content_type undefined >>= λ type. action_typed json w token req type

      by_player :
          (token : Bytes) (p : Option Player)
          → try_extract_token req ≡ ok (some token)
          → permitted w after token p ≡ ok (w', r)
          → (w' ≡ w)
            ⊎ ((token : Bytes) × (try_extract_token req ≡ ok (some token)) × HasActed w token w')
      by_player token none e q = inl (ground (arith, q))
      by_player token (some p) e q =
          let (type, f, k) = >>=-eq-ok (or_fail req.content_type undefined) _ q in
          elim (action_typed-Outcome w token req type w' r k) [
            | inl same ↦ inl same
            | inr acted ↦ inr (token, e, acted)
          ]

      by_token :
          (found : Option Bytes)
          → try_extract_token req ≡ ok found
          → authorized w after found ≡ ok (w', r)
          → (w' ≡ w)
            ⊎ ((token : Bytes) × (try_extract_token req ≡ ok (some token)) × HasActed w token w')
      by_token none e q = inl (ground (arith, q))
      by_token (some token) e q = by_player token (find_player_by_token w.players token) e q
