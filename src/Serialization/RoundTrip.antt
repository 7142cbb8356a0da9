-- ===== src/Serialization/RoundTrip.antt =====
-- src/model_serialization.h: representations that are restored.
use backend_for_browser_game.Base.{◌≡◌, refl, ◌∙◌, List, [], ◌∷◌, ◌++◌, map}
use mathlib.Core.List.{append-nil, append_assoc}
use backend_for_browser_game.Double.{Double, nought}
use backend_for_browser_game.Model.Loot.{Loot, new_loot}
use backend_for_browser_game.Model.Loot
use backend_for_browser_game.Model.Dog.{
  Dog, active, new_dog, set_speed, set_direction, add_loot, set_score,
}
use backend_for_browser_game.Model.Dog
use backend_for_browser_game.Model.Session.{GameSession}
use backend_for_browser_game.Model.Session
use backend_for_browser_game.Model.World.{World}
use backend_for_browser_game.Serialization.{
  Fresh, loot_repr, dog_repr, restore_loot, restore_bag, restore_dog, restore_ground,
}

module _ {D : Type 0} ⦃d : Double D⦄ where
  -- The counter of the loot, once some of it has been restored.
  abbrev pub counted : World D → World D → List (Loot D) → World D
  counted w v [] = v
  counted w v (l ∷ ls) = record v { loot_counter = w.loot_counter }

  counted_again :
      (w v : World D) (ls : List (Loot D))
      → counted w (record v { loot_counter = w.loot_counter }) ls
        ≡ record v { loot_counter = w.loot_counter }
  counted_again w v [] = refl
  counted_again w v (l ∷ ls) = refl

  pub restore_bag_lem :
      (w v : World D) (g : Dog D) (ls : List (Loot D))
      → restore_bag v g (map (loot_repr w) ls) ≡ (record g { bag = g.bag ++ ls }, counted w v ls)
  unfolding restore_bag restore_loot loot_repr new_loot Loot.set_id Loot.set_width add_loot
  restore_bag_lem w v g [] = rw (append-nil g.bag) refl
  restore_bag_lem w v g (l ∷ ls) =
      let after = record v { loot_counter = w.loot_counter } in
      restore_bag_lem w after (add_loot g l) ls
      ∙ rw (counted_again w v ls, append_assoc g.bag (l ∷ []) ls) refl

  -- A dog that is saved and restored is the same but for its new uuid, its timer and status, which are
  -- reset, and its join time, which is whatever the memory holds. The counter of dogs is restored.
  pub restore_dog-dog_repr :
      (w v : World D) (fresh : Fresh) (g : Dog D)
      → let (g', v') = restore_dog v fresh (dog_repr w g) in
        (g' ≡ record g {
          uuid = fresh.uuid;
          join_time = fresh.garbage;
          inactivity_time = nought;
          status = active;
        })
        × (v'.dog_counter ≡ w.dog_counter)
  unfolding restore_dog dog_repr new_dog Dog.set_id set_speed set_direction set_score Dog.set_width
  restore_dog-dog_repr w v fresh g =
      let bagged =
        restore_bag_lem w v
          (set_direction
            (set_speed
              (Dog.set_id (new_dog v.dog_counter fresh.uuid fresh.garbage g.dog_name g.position).0
                g.id)
              g.speed)
            g.direction)
          g.bag in
      rw bagged (refl, refl)

  -- The loot of a session comes back as it was, in its order.
  pub restore_ground-loot_repr :
      (w v : World D) (s : GameSession D) (ls : List (Loot D))
      → restore_ground v s (map (loot_repr w) ls)
        ≡ (record s { loot = s.loot ++ ls }, counted w v ls)
  unfolding restore_ground restore_loot loot_repr new_loot Loot.set_id Loot.set_width
      Session.add_loot
  restore_ground-loot_repr w v s [] = rw (append-nil s.loot) refl
  restore_ground-loot_repr w v s (l ∷ ls) =
      let after = record v { loot_counter = w.loot_counter } in
      restore_ground-loot_repr w after (Session.add_loot s l) ls
      ∙ rw (counted_again w v ls, append_assoc s.loot (l ∷ []) ls) refl
