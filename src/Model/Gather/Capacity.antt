-- ===== src/Model/Gather/Capacity.antt =====
-- GatherLoot of src/model.cpp and the sizes of bags.
use backend_for_browser_game.Base.{
  ℕ, zero, suc, ◌^◌, ◌≤◌, ◌<◌, ◌==◌, ◌≡◌, inl, inr, List, [], ◌∷◌, length, length-append, get_elem?,
  set, All, map, find_if, some, ok, arith, Option-cases,
}
use backend_for_browser_game.Collision.{GatheringEvent, ItemType, loot, office}
use backend_for_browser_game.Model.Loot.{Loot}
use backend_for_browser_game.Model.Dog.{Dog, release_loot, add_loot, get_loot_count_in_bag}
use backend_for_browser_game.Model.Session.{GameSession, DogHeap}
use backend_for_browser_game.Model.Session
use backend_for_browser_game.Model.Gather.{Gathering, reach_item, take_loot, gather_loot}
use backend_for_browser_game.Model.Gather.Steps.{gather_events_keep}

module _ {D : Type 0} where
  abbrev pub Fits : ℕ → DogHeap D → Type 0
  Fits capacity heap = All (λ g. length g.bag ≤ capacity) heap

  Fits-set :
      (capacity : ℕ) (gs : DogHeap D) (a : ℕ) (new : Dog D)
      → Fits capacity gs
      → length new.bag ≤ capacity
      → Fits capacity (set gs a new)
  Fits-set capacity [] a new f n = tt
  Fits-set capacity (g ∷ gs) zero new f n = (n, f.1)
  Fits-set capacity (g ∷ gs) (suc a) new f n = (f.0, Fits-set capacity gs a new f.1 n)

  Fits-at :
      (capacity : ℕ) (gs : DogHeap D) (a : ℕ) {g : Dog D}
      → Fits capacity gs
      → get_elem? gs a ≡ some g
      → length g.bag ≤ capacity
  Fits-at capacity [] a f e = cc
  Fits-at capacity (x ∷ gs) zero f e = ground arith
  Fits-at capacity (x ∷ gs) (suc a) f e = Fits-at capacity gs a f.1 e

  reach_item-Fits :
      (i : ItemType) (capacity : ℕ) (e : GatheringEvent D) (a : ℕ) (g : Dog D)
      (st new : Gathering D)
      → capacity < 2 ^ 32
      → get_elem? st.dogs a ≡ some g
      → reach_item i capacity e a g st ≡ ok new
      → Fits capacity st.dogs
      → Fits capacity new.dogs
  unfolding reach_item take_loot release_loot add_loot get_loot_count_in_bag Session.gather_loot
  reach_item-Fits office capacity e a g st new c at h f =
      ground (arith, Fits-set capacity st.dogs a (release_loot g) f)
  reach_item-Fits loot capacity e a g st new c at h f =
      elim (Option-cases (find_if (λ (l : Loot D). l.id == e.item_id) st.session.loot)) [
        | inl gone ↦ ground (arith, gone)
        | inr (l, found) ↦ ground (
          arith,
          found,
          Fits-at capacity st.dogs a f at,
          length-append g.bag (l ∷ []),
          Fits-set capacity st.dogs a (add_loot g l) f,
        )
      ]

  -- If no bag holds more than the capacity, none does after the call.
  pub gather_loot-Fits :
      (capacity : ℕ) (es : List (GatheringEvent D)) (s : GameSession D) (heap : DogHeap D)
      (r : Gathering D)
      → capacity < 2 ^ 32
      → gather_loot capacity es s heap ≡ ok r
      → Fits capacity heap
      → Fits capacity r.dogs
  unfolding gather_loot
  gather_loot-Fits capacity es s heap r c h f =
      gather_events_keep (λ st. Fits capacity st.dogs) capacity
        (λ e a g st new at k v. reach_item-Fits e.item_type capacity e a g st new c at k v)
        (map (λ (l : Loot D). l.id) s.loot) es _ r h f
