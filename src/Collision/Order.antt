-- ===== src/Collision/Order.antt =====
-- FindGatherEvents of src/collision_detector.cpp: the times of the events, and their order.
use mathlib.Core.List.{Perm}
use backend_for_browser_game.Base.{
  ℕ, ◌+◌, ◌≡◌, refl, ◌∙◌, inl, inr, Bool, true, false, ◌&&◌, List, [], ◌∷◌, ◌++◌, All, all_of,
  arith, Bool-cases,
}
use backend_for_browser_game.Base.Perm.{all_of-perm}
use backend_for_browser_game.Double.{Double, IsIeee, ◌≼◌, nought}
use backend_for_browser_game.Geom.{eq_pt}
use backend_for_browser_game.Collision.{
  Item, Gatherer, GatheringEvent, GathererProvider, one, is_collected, events_of_gatherer,
  events_from, find_gather_events,
}

module _ {D : Type 0} ⦃d : Double D⦄ where
  -- The time is a part of the way: a number from 0 to 1.
  abbrev pub is_timely : GatheringEvent D → Bool
  is_timely e = d.le nought e.time && d.le e.time one

  abbrev pub IsOrdered : List (GatheringEvent D) → Type 0
  IsOrdered [] = Unit
  IsOrdered (e ∷ es) = All (λ f. d.lt f.time e.time ≡ false) es × IsOrdered es

  abbrev pub IsSorted : List (GatheringEvent D) → Type 0
  IsSorted [] = Unit
  IsSorted (e ∷ es) = All (λ f. e.time ≼ f.time) es × IsSorted es

  -- What std::sort promises where its comparison is a strict weak order, as `<` is on numbers: a
  -- permutation in which no event is smaller than one before it.
  pub record IsSort (sort : List (GatheringEvent D) → List (GatheringEvent D)) : Type 0 where
    pub sort-perm : (es : List (GatheringEvent D)) → all_of is_timely es ≡ true → Perm (sort es) es
    pub sort-IsOrdered :
        (es : List (GatheringEvent D)) → all_of is_timely es ≡ true → IsOrdered (sort es)

  pub all_of-append :
      (p : GatheringEvent D → Bool) (xs ys : List (GatheringEvent D))
      → all_of p xs ≡ true
      → all_of p ys ≡ true
      → all_of p (xs ++ ys) ≡ true
  all_of-append p [] ys h k = k
  all_of-append p (x ∷ xs) ys h k = ground (arith, all_of-append p xs ys)

  events_of_gatherer_timely :
      (g : ℕ) (gatherer : Gatherer D) (i : ℕ) (items : List (Item D))
      → all_of is_timely (events_of_gatherer g gatherer i items) ≡ true
  unfolding events_of_gatherer is_collected
  events_of_gatherer_timely g gatherer i [] = refl
  events_of_gatherer_timely g gatherer i (item ∷ items) =
      ground (arith, events_of_gatherer_timely g gatherer (i + 1) items)

  pub events_from_timely :
      (g : ℕ) (gatherers : List (Gatherer D)) (items : List (Item D))
      → all_of is_timely (events_from g gatherers items) ≡ true
  unfolding events_from
  events_from_timely g [] items = refl
  events_from_timely g (gatherer ∷ gatherers) items =
      elim (Bool-cases (eq_pt gatherer.start_pos gatherer.end_pos)) [
        | inl e ↦ rw e (events_from_timely (g + 1) gatherers items)
        | inr e ↦ rw e (
            all_of-append is_timely _ _ (events_of_gatherer_timely g gatherer 0 items)
              (events_from_timely (g + 1) gatherers items))
      ]

  module _ (laws : IsIeee D) where
    open laws use {number_of_le, lt-eq-not-le}

    All-le :
        (e : GatheringEvent D) (es : List (GatheringEvent D))
        → is_timely e ≡ true
        → all_of is_timely es ≡ true
        → All (λ f. d.lt f.time e.time ≡ false) es
        → All (λ f. e.time ≼ f.time) es
    All-le e [] t ts h = tt
    All-le e (f ∷ es) t ts (h, hs) = (
      ground (arith, number_of_le f.time one, number_of_le e.time one, lt-eq-not-le f.time e.time),
      All-le e es t (ground arith) hs,
    )

    IsOrdered-IsSorted :
        (es : List (GatheringEvent D)) → all_of is_timely es ≡ true → IsOrdered es → IsSorted es
    IsOrdered-IsSorted [] t o = tt
    IsOrdered-IsSorted (e ∷ es) t (h, hs) =
        (All-le e es (ground arith) (ground arith) h, IsOrdered-IsSorted es (ground arith) hs)

    -- The events come in the order of time, and every time is a number from 0 to 1: no event of an
    -- undefined ratio passes, so the comparison that the sort is given is an order.
    pub find_gather_events-IsSorted :
        (sort : List (GatheringEvent D) → List (GatheringEvent D)) (p : GathererProvider D)
        → IsSort sort
        → IsSorted (find_gather_events sort p)
          × (all_of is_timely (find_gather_events sort p) ≡ true)
    unfolding find_gather_events
    find_gather_events-IsSorted sort p s =
        let found = events_from 0 p.gatherers p.items in
        let timely = events_from_timely 0 p.gatherers p.items in
        let timely' : all_of is_timely (sort found) ≡ true =
          all_of-perm is_timely (s.sort-perm found timely) ∙ timely in
        (IsOrdered-IsSorted (sort found) timely' (s.sort-IsOrdered found timely), timely')
