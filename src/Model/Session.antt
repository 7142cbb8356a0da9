-- ===== src/Model/Session.antt =====
-- `class GameSession` of src/model.h and src/model.cpp. Dogs live on a heap that sessions and players
-- share: `dogs` holds addresses, as the `shared_ptr`s of the source do. Loot is not changed once it
-- is in a session, so it is held by value.
use backend_for_browser_game.Base.{
  ℕ, ◌+◌, ◌==◌, Bool, false, List, [], ◌∷◌, ◌++◌, get_elem?, find_if, erase_first, Option, none,
  some, Result, ok, invalid_argument, or_fail, u32, ◌>>=◌,
}
use backend_for_browser_game.Model.Loot.{Loot}
use backend_for_browser_game.Model.Dog.{Dog}

-- `map` is the index of the map in the game, or `none` for a null pointer.
pub record GameSession (D : Type 0) : Type 0 where
  pub map : Option ℕ
  pub dogs : List ℕ
  pub loot : List (Loot D)
  pub session_id : ℕ

-- The dogs that any pointer may reach, by address.
abbrev pub DogHeap : Type 0 → Type 0
DogHeap D = List (Dog D)

module _ {D : Type 0} where
  -- `dog->GetId() == dog_id` at an address; a dangling one does not occur.
  abbrev pub has_id : DogHeap D → ℕ → ℕ → Bool
  has_id heap id a = elim (get_elem? heap a) [ none ↦ false | some g ↦ g.id == id ]

  unfoldable pub new_session : ℕ → Option ℕ → GameSession D × ℕ
  new_session session_counter m = (
    record { map = m; dogs = []; loot = []; session_id = session_counter },
    u32 (session_counter + 1),
  )

  unfoldable pub set_id : GameSession D → ℕ → GameSession D
  set_id s i = record s { session_id = i }

  unfoldable pub add_dog : GameSession D → ℕ → GameSession D
  add_dog s a = record s { dogs = s.dogs ++ (a ∷ []) }

  -- `none` is nullptr.
  unfoldable pub get_dog_by_id : DogHeap D → GameSession D → ℕ → Option ℕ
  get_dog_by_id heap s id = find_if (has_id heap id) s.dogs

  unfoldable pub add_loot : GameSession D → Loot D → GameSession D
  add_loot s l = record s { loot = s.loot ++ (l ∷ []) }

  -- The first loot with the id leaves the session, or the call throws.
  unfoldable pub gather_loot : GameSession D → ℕ → Result (Loot D × GameSession D)
  gather_loot s id = or_fail (find_if (λ (l : Loot D). l.id == id) s.loot) invalid_argument >>= λ l.
      ok (l, record s { loot = erase_first (λ (k : Loot D). k.id == id) s.loot })

  unfoldable pub remove_dog : DogHeap D → GameSession D → ℕ → GameSession D
  remove_dog heap s id = record s { dogs = erase_first (has_id heap id) s.dogs }
