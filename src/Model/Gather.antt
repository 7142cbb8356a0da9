-- ===== src/Model/Gather.antt =====
-- Game::AddLootToGathererProvider, Game::AddOfficesToGathererProvider and Game::GatherLoot of
-- src/model.cpp.
pub mod Steps
pub mod Value
pub mod Capacity
pub mod Total
pub mod Places
pub mod Tests
use backend_for_browser_game.Base.{
  ℕ, ◌+◌, ◌%◌, ◌*◌, ◌-◌, ◌^◌, ◌==◌, ltb, leb, Bool, true, false, not, ◌&&◌, ◌||◌, List, [], ◌∷◌,
  ◌++◌, map, get_elem?, set, any_of, Bytes, u32, Option, some, none, Result, ok, err,
  invalid_argument, out_of_range, undefined, or_fail, ◌>>=◌, if◌then◌else◌,
}
use backend_for_browser_game.Double.{Double}
use backend_for_browser_game.Collision.{
  GathererProvider, GatheringEvent, ItemType, loot, office, Item, add_item,
}
use backend_for_browser_game.Model.GameMap.{GameMap, Office}
use backend_for_browser_game.Model.Loot.{Loot}
use backend_for_browser_game.Model.Dog.{Dog, release_loot, add_loot, get_loot_count_in_bag}
use backend_for_browser_game.Model.Session.{GameSession, DogHeap}
use backend_for_browser_game.Model.Session

abbrev pub is_digit : ℕ → Bool
is_digit c = leb b'0' c && leb c b'9'

-- The digits at the head of a text, in base ten.
unfoldable pub digits_value : ℕ → Bytes → ℕ
digits_value acc [] = acc
digits_value acc (c ∷ cs) = elim (is_digit c) [
  | true ↦ digits_value (acc * 10 + (c - b'0')) cs
  | false ↦ acc
]

abbrev pub is_space : ℕ → Bool
is_space c = c == b' ' || (leb 9 c && leb c 13)

-- Decimal digits that std::stoul reads, at least one, within 64 bits.
abbrev digits_checked : Bytes → Result ℕ
unfolding digits_value
digits_checked [] = err invalid_argument
digits_checked (c ∷ cs) =
    if is_digit c
    then (if ltb (digits_value 0 (c ∷ cs)) (2 ^ 64)
        then ok (digits_value 0 (c ∷ cs))
        else err out_of_range)
    else err invalid_argument

-- std::stoul: spaces, a sign, digits; after a minus the value wraps around.
unfoldable pub stoul : Bytes → Result ℕ
unfolding digits_value
stoul [] = err invalid_argument
stoul (c ∷ cs) =
    let rest = stoul cs in
    if is_space c
    then rest
    else if c == b'+'
    then digits_checked cs
    else if c == b'-'
    then (digits_checked cs >>= λ v. ok ((2 ^ 64 - v) % 2 ^ 64))
    else digits_checked (c ∷ cs)

-- `office_id.substr(1)`, which throws on the empty text.
abbrev pub substr_one : Bytes → Result Bytes
substr_one [] = err out_of_range
substr_one (c ∷ cs) = ok cs

abbrev pub has : List ℕ → ℕ → Bool
has ids id = any_of (λ i. i == id) ids

abbrev pub is_office : ItemType → Bool
is_office office = true
is_office loot = false

-- What GatherLoot has at hand in its loop: the session, the dogs, and the ids that it has collected.
pub record Gathering (D : Type 0) : Type 0 where
  pub session : GameSession D
  pub dogs : DogHeap D
  pub collected : List ℕ

module _ {D : Type 0} where
  unfoldable pub add_loot_items : List (Loot D) → GathererProvider D → GathererProvider D
  add_loot_items [] p = p
  add_loot_items (l ∷ ls) p = add_loot_items ls (
      add_item p
        (record { position = l.position; width = l.width; item_id = l.id; item_type = loot }))

module _ {D : Type 0} ⦃d : Double D⦄ where
  unfoldable pub add_office_items :
      List (Office D) → GathererProvider D → Result (GathererProvider D)
  add_office_items [] p = ok p
  add_office_items (o ∷ os) p = do
    rest ← substr_one o.id
    id ← stoul rest
    add_office_items os (
        add_item p (record {
          position = record { x = d.of_int o.position.x; y = d.of_int o.position.y };
          width = o.width;
          item_id = u32 id;
          item_type = office;
        }))

module _ {D : Type 0} where
  -- A dog at a piece of loot: it takes the loot if no dog has, and its bag has room.
  unfoldable pub take_loot : ℕ → GatheringEvent D → ℕ → Dog D → Gathering D → Result (Gathering D)
  take_loot capacity event a dog st =
      if has st.collected event.item_id
      then ok st
      else if ltb (get_loot_count_in_bag dog) capacity
      then (Session.gather_loot st.session event.item_id >>= λ (l, s). ok (record {
        session = s;
        dogs = set st.dogs a (add_loot dog l);
        collected = st.collected ++ (event.item_id ∷ []);
      }))
      else ok st

  -- A dog at an item: at an office it hands in what it carries.
  unfoldable pub reach_item :
      ItemType → ℕ → GatheringEvent D → ℕ → Dog D → Gathering D → Result (Gathering D)
  reach_item office capacity event a dog st =
      ok (record st { dogs = set st.dogs a (release_loot dog) })
  reach_item loot capacity event a dog st = take_loot capacity event a dog st

  -- The body of the loop behind `continue`.
  unfoldable pub handle_event : ℕ → GatheringEvent D → Gathering D → Result (Gathering D)
  handle_event capacity event st = do
    a ← or_fail (get_elem? st.session.dogs event.gatherer_id) undefined
    dog ← or_fail (get_elem? st.dogs a) undefined
    reach_item event.item_type capacity event a dog st

  unfoldable pub gather_event : List ℕ → ℕ → GatheringEvent D → Gathering D → Result (Gathering D)
  gather_event existing capacity event st =
      if not (is_office event.item_type) && not (has existing event.item_id)
      then ok st
      else handle_event capacity event st

  unfoldable pub gather_events :
      List ℕ → ℕ → List (GatheringEvent D) → Gathering D → Result (Gathering D)
  gather_events existing capacity [] st = ok st
  gather_events existing capacity (e ∷ es) st =
      gather_event existing capacity e st >>= gather_events existing capacity es

  -- Game::GatherLoot, on the events that the collision detector found.
  unfoldable pub gather_loot :
      ℕ → List (GatheringEvent D) → GameSession D → DogHeap D → Result (Gathering D)
  gather_loot capacity events s dogs =
      gather_events (map (λ (l : Loot D). l.id) s.loot) capacity events
        (record { session = s; dogs = dogs; collected = [] })
