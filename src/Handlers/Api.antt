-- ===== src/Handlers/Api.antt =====
-- class ApiRequestHandler of src/api_handler.h: every handler, on the state of the server. The JSON of
-- a body is read by boost::json, which is the parameter `Json`; a response holds the values that the
-- code makes JSON of.
use backend_for_browser_game.Base.{
  ℕ, ◌==◌, Bool, true, false, ◌&&◌, List, [], ◌∷◌, map, Bytes, Option, some, none, Result, ok,
  undefined, or_fail, ◌>>=◌, if◌then◌else◌,
}
use backend_for_browser_game.Model.GameMap.{GameMap}
use backend_for_browser_game.Model.Loot.{Loot}
use backend_for_browser_game.Model.Dog.{Dog}
use backend_for_browser_game.Model.World.{World, Player, PlayerRecord, find_map, map_at}
use backend_for_browser_game.Model.Retire.{dog_at}
use backend_for_browser_game.Model.Gather.{is_space}
use backend_for_browser_game.Application.{
  find_player_by_token, find_players_in_session, find_loot_in_session,
}
use backend_for_browser_game.Handlers.Text.{is_valid_hex_token}
use backend_for_browser_game.Handlers.Records.{Page, page_of}

pub data Method : Type 0 where
  get head post other : Method

-- A header that is absent is `none`.
pub record Request : Type 0 where
  pub method : Method
  pub target : Bytes
  pub authorization : Option Bytes
  pub content_type : Option Bytes
  pub body : Bytes

pub data Code : Type 0 where
  bad_request invalid_method invalid_argument_code invalid_token unknown_token map_not_found
        internal_error :
      Code

pub data Body (D : Type 0) : Type 0 where
  failure : Code → Body D
  maps : List (Bytes × Bytes) → Body D
  map_info : GameMap D → Body D
  players : List (ℕ × Bytes) → Body D
  state : List (ℕ × Dog D) → List (Loot D) → Body D
  records : List PlayerRecord → Body D
  joined : Bytes → ℕ → Body D
  nothing : Body D

pub record Response (D : Type 0) : Type 0 where
  pub status : ℕ
  pub body : Body D

abbrev pub starts_with : Bytes → Bytes → Bool
starts_with s [] = true
starts_with [] (c ∷ p) = false
starts_with (b ∷ s) (c ∷ p) = b == c && starts_with s p

-- `stream >> text`: a word behind spaces, and what follows it.
unfoldable pub word_end : Bytes → Bytes × Bytes
word_end [] = ([], [])
word_end (c ∷ s) =
    let (front, rest) = word_end s in if is_space c then ([], c ∷ s) else (c ∷ front, rest)

unfoldable pub word : Bytes → Bytes × Bytes
unfolding word_end
word [] = ([], [])
word (c ∷ s) = let later = word s in if is_space c then later else word_end (c ∷ s)

-- TryExtractToken, which reads the header before it looks whether it is there.
unfoldable pub try_extract_token : Request → Result (Option Bytes)
try_extract_token req = or_fail req.authorization undefined >>= λ value.
    let token = (word (word value).1).0 in
    ok (if is_valid_hex_token token then some token else none)

abbrev pub Answer : Type 0 → Type 0
Answer D = Result (World D × Response D)

module _ {D : Type 0} where
  abbrev pub fail_with : ℕ → Code → Response D
  fail_with status code = record { status = status; body = failure code }

  abbrev pub succeed : Body D → Response D
  succeed body = record { status = 200; body = body }

  abbrev pub permitted : World D → (Bytes → Answer D) → Bytes → Option Player → Answer D
  permitted w action token none = ok (w, fail_with 401 unknown_token)
  permitted w action token (some p) = action token

  abbrev pub authorized : World D → (Bytes → Answer D) → Option Bytes → Answer D
  authorized w action none = ok (w, fail_with 401 invalid_token)
  authorized w action (some token) = permitted w action token (find_player_by_token w.players token)

  unfoldable pub execute_authorized : World D → Request → (Bytes → Answer D) → Answer D
  execute_authorized w req action = try_extract_token req >>= authorized w action

  -- The names of players, which are those of their dogs.
  unfoldable pub names_of : World D → List Player → Result (List (ℕ × Bytes))
  names_of w [] = ok []
  names_of w (p ∷ ps) = do
    g ← dog_at w.dogs p.dog
    rest ← names_of w ps
    ok ((p.id, g.dog_name) ∷ rest)

  unfoldable pub get_players_response : World D → Request → Answer D
  get_players_response w req = execute_authorized w req (λ token.
      names_of w (find_players_in_session w.players token) >>= λ names.
      ok (w, succeed (players names)))

  unfoldable pub dogs_of : World D → List Player → Result (List (ℕ × Dog D))
  dogs_of w [] = ok []
  dogs_of w (p ∷ ps) = do g ← dog_at w.dogs p.dog; rest ← dogs_of w ps; ok ((p.id, g) ∷ rest)

  unfoldable pub get_state_response : World D → Request → Answer D
  get_state_response w req = execute_authorized w req (λ token. do
    dogs ← dogs_of w (find_players_in_session w.players token)
    loot ← find_loot_in_session w token
    ok (w, succeed (state dogs loot)))

  abbrev pub rows_response : World D → Option (List PlayerRecord) → Answer D
  rows_response w none = ok (w, fail_with 500 internal_error)
  rows_response w (some rows) = ok (w, succeed (records rows))

  abbrev pub page_response : (Page → Option (List PlayerRecord)) → World D → Option Page → Answer D
  page_response query w none = ok (w, fail_with 400 invalid_argument_code)
  page_response query w (some page) = rows_response w (query page)

  -- `query` is what the database answers, `none` if it throws.
  unfoldable pub get_records_response :
      (Page → Option (List PlayerRecord)) → World D → Request → Answer D
  get_records_response query w req = page_response query w (page_of req.target)

  abbrev pub map_found : World D → Option ℕ → Answer D
  map_found w none = ok (w, fail_with 404 map_not_found)
  map_found w (some i) = map_at w.game (some i) >>= λ m. ok (w, succeed (map_info m))

  unfoldable pub map_info_response : World D → Bytes → Answer D
  map_info_response w id = map_found w (find_map w.game id)

  unfoldable pub maps_list_response : World D → Answer D
  maps_list_response w =
      ok (w, succeed (maps (map (λ (m : GameMap D). (m.id, m.name)) w.game.maps)))
