-- ===== src/Handlers/Tests.antt =====
-- Requests to the sample world, and the theorems about the handlers at them.
use backend_for_browser_game.Base.{
  ◌↔◌, ℕ, pos, ◌+◌, ◌-ℤ◌, ◌≤◌, ◌≡◌, ◌⊎◌, refl, true, false, [], ◌∷◌, Bytes, some, none, ok, arith,
}
use backend_for_browser_game.Double.Milli.{Milli, milli_double}
use backend_for_browser_game.Collision.Sorting.{sort_events}
use backend_for_browser_game.Model.World.{World, find_map, map_at}
use backend_for_browser_game.Model.Samples.{
  milli, sample_boost, town, world, rex, sleepy, player_of,
}
use backend_for_browser_game.Application.Tests.{chance}
use backend_for_browser_game.Handlers.Text.{
  generate_token, is_valid_hex_token, is_valid_action, url_decode, is_xdigit, hex_value,
}
use backend_for_browser_game.Handlers.Tokens.{generate_token-IsValid, generate_token-inj}
use backend_for_browser_game.Handlers.Decoding.{IsEncoded, url_decode_iff}
use backend_for_browser_game.Handlers.Records.{
  page_of, page_of-max_items, cut, lines, read_params, read_param, stoi, int_digits, start_of,
  max_items_of,
}
use backend_for_browser_game.Json.{Json}
use backend_for_browser_game.Handlers.Api.{
  Request, get, post, succeed, nothing, try_extract_token, execute_authorized, word, map_info,
  map_info_response,
}
use backend_for_browser_game.Json.{codes}
use backend_for_browser_game.Handlers.Game.{Inputs, handle, handle_maps, player_action_response}
use backend_for_browser_game.Handlers.Authorized.{HasActed, player_action_response-HasActed}
use backend_for_browser_game.Application.{key_l, steer, make_action, find_player_by_token}
use backend_for_browser_game.Handlers.Access.{handle-Keeps}

generate_token-IsValid_example : is_valid_hex_token (generate_token 255 7) ≡ true
generate_token-IsValid_example = generate_token-IsValid 255 7

generate_token-inj_example : ◌≡◌ {A = ℕ} 255 (200 + 55) × ◌≡◌ {A = ℕ} 7 (5 + 2)
generate_token-inj_example =
    generate_token-inj 255 7 (200 + 55) (5 + 2) (omega arith) (omega arith) (omega arith)
      (omega arith) refl

url_decode_iff_example :
    (url_decode (codes "a%4A%e9+") ≡ ok (b'a' ∷ b'J' ∷ 233 ∷ b' ' ∷ []))
    ↔ IsEncoded (codes "a%4A%e9+") (b'a' ∷ b'J' ∷ 233 ∷ b' ' ∷ [])
url_decode_iff_example = url_decode_iff (codes "a%4A%e9+") (b'a' ∷ b'J' ∷ 233 ∷ b' ' ∷ [])

decodes : url_decode (codes "a%4A%e9+") ≡ ok (b'a' ∷ b'J' ∷ 233 ∷ b' ' ∷ [])
unfolding url_decode is_xdigit hex_value
decodes = refl

some_page :
    page_of (codes "/r?start=-5&maxItems=50&x") ≡ some (record { start = 0; max_items = 50 })
unfolding page_of cut lines read_params read_param stoi int_digits start_of max_items_of ◌-ℤ◌
some_page = refl

page_of-max_items_example : 50 ≤ 100
page_of-max_items_example =
    page_of-max_items (codes "/r?start=-5&maxItems=50&x") (record { start = 0; max_items = 50 })
      some_page

-- A reader of JSON that knows no objects.
abbrev texts : Json Bytes
texts = record {
  parse = some;
  is_object = λ s. false;
  member = λ s k. none;
  as_string = some;
  as_int64 = λ s. none;
  as_array = λ s. none;
}

abbrev pub inputs : Inputs Milli
inputs = record {
  chance = chance;
  outside = record {
    draws = λ a k. 0;
    random = milli 1000;
    clock = λ a k. record { now = pos 0; saves = true };
  };
  query = λ p. none;
}

abbrev ask_map : Request
ask_map = record {
  method = get;
  target = codes "/api/v1/maps/t";
  authorization = none;
  content_type = none;
  body = [];
}

answered :
    handle texts sample_boost sort_events world inputs ask_map ≡ ok (world, succeed (map_info town))
unfolding handle url_decode cut handle_maps map_info_response find_map map_at
answered = refl

handle-Keeps_example : ◌≡◌ {A = World Milli} world world
handle-Keeps_example =
    handle-Keeps texts sample_boost sort_events world inputs ask_map refl world
      (succeed (map_info town)) answered

-- A reader to which every text is an object whose members are the text.
abbrev pub echo : Json Bytes
echo = record texts { is_object = λ s. true; member = λ s k. some s }

abbrev token : Bytes
token = codes "00000000000000ff0000000000000007"

abbrev guarded : World Milli
guarded = record world { players = player_of 0 token ∷ [] }

abbrev go_left : Request
go_left = record {
  method = post;
  target = codes "/api/v1/game/player/action";
  authorization = some (codes "Bearer 00000000000000ff0000000000000007");
  content_type = some (codes "application/json");
  body = key_l;
}

abbrev turned : World Milli
turned = record guarded { dogs = steer (milli 3000) key_l rex ∷ sleepy ∷ [] }

acted : player_action_response echo guarded go_left ≡ ok (turned, succeed nothing)
unfolding player_action_response execute_authorized try_extract_token is_valid_hex_token word
    is_xdigit find_player_by_token is_valid_action cut make_action map_at
acted = refl

player_action_response-HasActed_example :
    (turned ≡ guarded)
    ⊎ ((token : Bytes) × (try_extract_token go_left ≡ ok (some token))
        × HasActed echo guarded token turned)
player_action_response-HasActed_example =
    player_action_response-HasActed echo guarded go_left turned (succeed nothing) acted
