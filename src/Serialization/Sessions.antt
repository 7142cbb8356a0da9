-- ===== src/Serialization/Sessions.antt =====
-- GameSessionRepr of src/model_serialization.h: a session that is saved and restored.
use mathlib.Core.List.{append-nil, append_assoc}
use backend_for_browser_game.Base.{
  some, ℕ, ◌+◌, ◌≡◌, refl, sym, ap, ap₂, ◌∙◌, subst, List, [], ◌∷◌, ◌++◌, map, length,
  length-append, Result, ok, ok-inj, ◌>>=◌, >>=-eq-ok,
}
use backend_for_browser_game.Double.{Double, nought}
use backend_for_browser_game.Model.Dog.{Dog, active, new_dog, set_speed, set_direction, set_score}
use backend_for_browser_game.Model.Dog
use backend_for_browser_game.Model.GameMap.{GameMap}
use backend_for_browser_game.Model.Loot.{Loot}
use backend_for_browser_game.Model.Session.{GameSession, DogHeap, new_session, add_dog}
use backend_for_browser_game.Model.Session
use backend_for_browser_game.Model.World.{World, find_map, map_at}
use backend_for_browser_game.Model.Retire.{dog_at}
use backend_for_browser_game.Serialization.{
  DogRepr, GameSessionRepr, Fresh, loot_repr, dog_repr, dog_reprs, session_repr, restore_dog,
  restore_dogs, restore_session,
}
use backend_for_browser_game.Serialization.RoundTrip.{
  counted, restore_bag_lem, restore_dog-dog_repr, restore_ground-loot_repr,
}

module _ {D : Type 0} where
  -- The dogs at some addresses.
  abbrev pub dogs_at_all : DogHeap D → List ℕ → Result (List (Dog D))
  dogs_at_all heap [] = ok []
  dogs_at_all heap (a ∷ rest) =
      dog_at heap (some a) >>= λ g. dogs_at_all heap rest >>= λ gs. ok (g ∷ gs)

  dog_reprs_lem :
      (w : World D) (places : List ℕ) (rs : List (DogRepr D))
      → dog_reprs w places ≡ ok rs
      → (gs : List (Dog D)) × (dogs_at_all w.dogs places ≡ ok gs) × (rs ≡ map (dog_repr w) gs)
  unfolding dog_reprs
  dog_reprs_lem w [] rs h = ([], refl, sym (ok-inj h))
  dog_reprs_lem w (a ∷ places) rs h =
      let (g, e, k) = >>=-eq-ok (dog_at w.dogs (some a)) _ h in
      let (others, f, l) = >>=-eq-ok (dog_reprs w places) _ k in
      let (gs, at, same) = dog_reprs_lem w places others f in
      (g ∷ gs, rw (e, at) refl, sym (ok-inj l) ∙ ap (λ rs. dog_repr w g ∷ rs) same)

module _ {D : Type 0} ⦃d : Double D⦄ where
  -- A dog places it comes back, with what its constructor draws.
  abbrev pub revived : Fresh → Dog D → Dog D
  revived fresh g = record g {
    uuid = fresh.uuid;
    join_time = fresh.garbage;
    inactivity_time = nought;
    status = active;
  }

  -- The dogs that come back, from an address on.
  abbrev pub revived_from : (ℕ → Fresh) → ℕ → List (Dog D) → List (Dog D)
  revived_from fresh k [] = []
  revived_from fresh k (g ∷ gs) = revived (fresh k) g ∷ revived_from fresh (k + 1) gs

  abbrev pub addresses : ℕ → List (Dog D) → List ℕ
  addresses k [] = []
  addresses k (g ∷ gs) = k ∷ addresses (k + 1) gs

  -- What the loops leave of the rest of the state.
  record Restored (v v' : World D) (new : List (Dog D)) : Type 0 where
    same_game : v'.game ≡ v.game
    more_dogs : v'.dogs ≡ v.dogs ++ new

  counted_rest :
      (w v : World D) (ls : List (Loot D))
      → ((counted w v ls).game ≡ v.game) × ((counted w v ls).dogs ≡ v.dogs)
  counted_rest w v [] = (refl, refl)
  counted_rest w v (l ∷ ls) = (refl, refl)

  restore_dog_rest :
      (w v : World D) (fresh : Fresh) (g : Dog D)
      → let v' = (restore_dog v fresh (dog_repr w g)).1 in (v'.game ≡ v.game) × (v'.dogs ≡ v.dogs)
  unfolding restore_dog dog_repr set_direction set_speed Dog.set_id new_dog set_score Dog.set_width
  restore_dog_rest w v fresh g =
      let bagged =
        restore_bag_lem w v
          (set_direction
            (set_speed
              (Dog.set_id (new_dog v.dog_counter fresh.uuid fresh.garbage g.dog_name g.position).0
                g.id)
              g.speed)
            g.direction)
          g.bag in
      rw bagged (counted_rest w v g.bag)

  restore_dogs_lem :
      (w v : World D) (fresh : ℕ → Fresh) (s : GameSession D) (gs : List (Dog D))
      → let (s', v') = restore_dogs v fresh s (map (dog_repr w) gs) in
        (s' ≡ record s { dogs = s.dogs ++ addresses (length v.dogs) gs })
        × Restored v v' (revived_from fresh (length v.dogs) gs)
  unfolding restore_dogs add_dog
  restore_dogs_lem w v fresh s [] = (
    ap (λ places. record s { dogs = places }) (sym (append-nil s.dogs)),
    record { same_game = refl; more_dogs = sym (append-nil v.dogs) },
  )
  restore_dogs_lem w v fresh s (g ∷ gs) =
      let a = length v.dogs in
      let (new, v₁) = restore_dog v (fresh a) (dog_repr w g) in
      let v₂ : World D = record v₁ { dogs = v₁.dogs ++ (new ∷ []) } in
      let back = (restore_dog-dog_repr w v (fresh a) g).0 in
      let (game, dogs) = restore_dog_rest w v (fresh a) g in
      let (same, later) = restore_dogs_lem w v₂ fresh (add_dog s a) gs in
      let long : length v₂.dogs ≡ a + 1 =
        length-append v₁.dogs (new ∷ []) ∙ ap (λ heap. length heap + 1) dogs in
      (
        same
            ∙ ap (λ k. record s { dogs = (s.dogs ++ (a ∷ [])) ++ addresses k gs }) long
            ∙ ap (λ places. record s { dogs = places }) (append_assoc s.dogs (a ∷ []) _),
        record {
          same_game = later.same_game ∙ game;
          more_dogs =
              later.more_dogs
              ∙ ap₂ (λ heap k. (heap ++ (new ∷ [])) ++ revived_from fresh k gs) dogs long
              ∙ ap (λ x. (v.dogs ++ (x ∷ [])) ++ revived_from fresh (a + 1) gs) back
              ∙ append_assoc v.dogs (revived (fresh a) g ∷ []) _;
        },
      )

  abbrev saved_as : World D → GameMap D → GameSession D → List (DogRepr D) → GameSessionRepr D
  saved_as w m s ds = record {
    map_id = m.id;
    dogs = ds;
    loot = map (loot_repr w) s.loot;
    session_id = s.session_id;
    session_counter = w.session_counter;
  }

  -- What is restored: the session, on the map with the id of `m` in the new game, with its dogs at new
  -- addresses, and the heap with these behind the other dogs.
  abbrev pub IsBack :
      World D → (ℕ → Fresh) → GameMap D → GameSession D → List (Dog D) → GameSessionRepr D → Type 0
  IsBack v fresh m s gs r =
      let (s', v') = restore_session v fresh r in
      (s' ≡ record {
        map = find_map v.game m.id;
        dogs = addresses (length v.dogs) gs;
        loot = s.loot;
        session_id = s.session_id;
      })
      × (v'.dogs ≡ v.dogs ++ revived_from fresh (length v.dogs) gs)

  restore_saved :
      (w v : World D) (fresh : ℕ → Fresh) (m : GameMap D) (s : GameSession D) (gs : List (Dog D))
      → IsBack v fresh m s gs (saved_as w m s (map (dog_repr w) gs))
  unfolding restore_session new_session Session.set_id
  restore_saved w v fresh m s gs =
      let made = (new_session v.session_counter (find_map v.game m.id)).0 in
      let (x, v₁) = restore_dogs v fresh made (map (dog_repr w) gs) in
      let (same, rest) = restore_dogs_lem w v fresh made gs in
      rw (restore_ground-loot_repr w v₁ x s.loot) (
        ap (λ (y : GameSession D). record y { loot = y.loot ++ s.loot; session_id = s.session_id })
            same,
        (counted_rest w v₁ s.loot).1 ∙ rest.more_dogs,
      )

  -- Suppose a session can be saved. Then its dogs and its map are there, and the session that is
  -- restored from what is saved has the same id and the same loot; its map is the one that has the
  -- same id in the new game; and its dogs lie at new addresses behind the other dogs, in their order,
  -- each as it was but for its uuid, its timer, its status and its join time.
  pub restore_session-session_repr :
      (w v : World D) (fresh : ℕ → Fresh) (s : GameSession D) (r : GameSessionRepr D)
      → session_repr w s ≡ ok r
      → (gs : List (Dog D)) × (m : GameMap D) × (dogs_at_all w.dogs s.dogs ≡ ok gs)
        × (map_at w.game s.map ≡ ok m)
        × IsBack v fresh m s gs r
  unfolding session_repr restore_session new_session Session.set_id
  restore_session-session_repr w v fresh s r h =
      let (m, e₁, h₁) = >>=-eq-ok (map_at w.game s.map) _ h in
      let (rs, e₂, h₂) = >>=-eq-ok (dog_reprs w s.dogs) _ h₁ in
      let (gs, at, same) = dog_reprs_lem w s.dogs rs e₂ in
      let whole : record {
        map_id = m.id;
        dogs = map (dog_repr w) gs;
        loot = map (loot_repr w) s.loot;
        session_id = s.session_id;
        session_counter = w.session_counter;
      }
          ≡ r =
        ap (λ ds. saved_as w m s ds) (sym same) ∙ ok-inj h₂ in
      (gs, m, at, e₁, subst (IsBack v fresh m s gs) whole (restore_saved w v fresh m s gs))
