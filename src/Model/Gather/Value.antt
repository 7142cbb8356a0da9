-- ===== src/Model/Gather/Value.antt =====
-- GatherLoot and ReleaseLoot of src/model.cpp: points in bags, on the ground and in scores.
use backend_for_browser_game.Base.{
  ℕ, zero, suc, ◌+◌, ◌==◌, ◌≡◌, refl, ap, ◌∙◌, inl, inr, Bool, List, [], ◌∷◌, ◌++◌, get_elem?, set,
  find_if, erase_first, u32, some, ok, map, arith, Option-cases,
}
use backend_for_browser_game.Collision.{GatheringEvent, ItemType, loot, office}
use backend_for_browser_game.Model.Loot.{Loot}
use backend_for_browser_game.Model.Dog.{Dog, score_bag, release_loot, add_loot}
use backend_for_browser_game.Model.Session.{GameSession, DogHeap}
use backend_for_browser_game.Model.Session
use backend_for_browser_game.Model.Gather.{Gathering, reach_item, take_loot, gather_loot}
use backend_for_browser_game.Model.Gather.Steps.{gather_events_keep}

module _ {D : Type 0} where
  abbrev pub loot_value : List (Loot D) → ℕ
  loot_value [] = 0
  loot_value (l ∷ ls) = l.value + loot_value ls

  abbrev pub dog_value : Dog D → ℕ
  dog_value g = g.score + loot_value g.bag

  abbrev pub heap_value : DogHeap D → ℕ
  heap_value [] = 0
  heap_value (g ∷ gs) = dog_value g + heap_value gs

  loot_value-append :
      (xs ys : List (Loot D)) → loot_value (xs ++ ys) ≡ loot_value xs + loot_value ys
  loot_value-append [] ys = omega arith
  loot_value-append (x ∷ xs) ys = omega (arith, loot_value-append xs ys)

  loot_value-erase_first :
      (p : Loot D → Bool) (ls : List (Loot D)) (l : Loot D)
      → find_if p ls ≡ some l
      → loot_value (erase_first p ls) + l.value ≡ loot_value ls
  loot_value-erase_first p [] l e = cc
  loot_value-erase_first p (k ∷ ls) l e = ground (arith, loot_value-erase_first p ls l)

  heap_value-set :
      (gs : DogHeap D) (a : ℕ) (new : Dog D) {old : Dog D}
      → get_elem? gs a ≡ some old
      → heap_value (set gs a new) + dog_value old ≡ heap_value gs + dog_value new
  heap_value-set [] a new e = cc
  heap_value-set (g ∷ gs) zero new e = ground arith
  heap_value-set (g ∷ gs) (suc a) new e = omega (arith, heap_value-set gs a new e)

  score_bag-u32 :
      (score : ℕ) (ls : List (Loot D)) → u32 (score_bag score ls) ≡ u32 (score + loot_value ls)
  unfolding score_bag
  score_bag-u32 score [] = omega arith
  score_bag-u32 score (l ∷ ls) = omega (arith, score_bag-u32 (u32 (score + l.value)) ls)

  -- All points: those scored, those in bags, and those that lie in the session.
  abbrev pub points : Gathering D → ℕ
  points st = loot_value st.session.loot + heap_value st.dogs

  take_loot-points :
      (capacity : ℕ) (e : GatheringEvent D) (a : ℕ) (g : Dog D) (st : Gathering D)
      {st' : Gathering D}
      → get_elem? st.dogs a ≡ some g
      → take_loot capacity e a g st ≡ ok st'
      → points st' ≡ points st
  unfolding take_loot Session.gather_loot add_loot
  take_loot-points capacity e a g st at h =
      elim (Option-cases (find_if (λ (l : Loot D). l.id == e.item_id) st.session.loot)) [
        | inl gone ↦ ground (arith, gone)
        | inr (l, found) ↦ ground (
          arith,
          found,
          loot_value-erase_first (λ (k : Loot D). k.id == e.item_id) st.session.loot l found,
          heap_value-set st.dogs a (add_loot g l) at,
          loot_value-append g.bag (l ∷ []),
        )
      ]

  reach_item-points :
      (i : ItemType) (capacity : ℕ) (e : GatheringEvent D) (a : ℕ) (g : Dog D) (st : Gathering D)
      {st' : Gathering D}
      → get_elem? st.dogs a ≡ some g
      → reach_item i capacity e a g st ≡ ok st'
      → u32 (points st') ≡ u32 (points st)
  unfolding reach_item release_loot
  reach_item-points office capacity e a g st at h =
      ground (arith, heap_value-set st.dogs a (release_loot g) at, score_bag-u32 g.score g.bag)
  reach_item-points loot capacity e a g st at h = ap u32 (take_loot-points capacity e a g st at h)

  -- Modulo 2^32, the points scored, in bags and on the ground are as many after the call as before.
  pub gather_loot-points :
      (capacity : ℕ) (es : List (GatheringEvent D)) (s : GameSession D) (heap : DogHeap D)
      (r : Gathering D)
      → gather_loot capacity es s heap ≡ ok r
      → u32 (loot_value r.session.loot + heap_value r.dogs)
        ≡ u32 (loot_value s.loot + heap_value heap)
  unfolding gather_loot
  gather_loot-points capacity es s heap r h =
      gather_events_keep (λ st. u32 (points st) ≡ u32 (loot_value s.loot + heap_value heap))
        capacity (λ e a g st new at k v. reach_item-points e.item_type capacity e a g st at k ∙ v)
        (map (λ (l : Loot D). l.id) s.loot) es _ r h refl
