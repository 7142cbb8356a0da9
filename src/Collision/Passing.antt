-- ===== src/Collision/Passing.antt =====
-- FindGatherEvents of src/collision_detector.cpp, against the geometry of gatherers and items.
use mathlib.Core.List.Perm
use mathlib.Core.Logic.{∥∥₁_map}
use backend_for_browser_game.Base.{
  ℕ, ◌+◌, ◌≡◌, refl, sym, ap₂, ◌∙◌, subst, ◌↔◌, Bool, true, false, ◌&&◌, List, get_elem?, some,
  arith,
}
use backend_for_browser_game.Double.{Double, nought, ◌≼◌}
use backend_for_browser_game.Geom.{Point2D, eq_pt}
use backend_for_browser_game.Collision.{
  Item, Gatherer, GatheringEvent, GathererProvider, hits, event_of, is_collected, try_collect_point,
  find_gather_events, events_from,
}
use backend_for_browser_game.Collision.Order.{IsSort, events_from_timely}
use backend_for_browser_game.Collision.Events.{
  In, In-perm, IsEvent, events_from-IsEvent, IsEvent-events_from,
}

all_three : (a b c : Bool) → (a && b && c) ≡ true → (a ≡ true) × (b ≡ true) × (c ≡ true)
all_three a b c h = (ground (arith, h), ground (arith, h), ground (arith, h))

not_both : (a b : Bool) → (a && b) ≡ false → ¬ ((a ≡ true) × (b ≡ true))
not_both a b h (x, y) = ground (arith, h, x, y)

both_not : (a b : Bool) → ¬ ((a ≡ true) × (b ≡ true)) → (a && b) ≡ false
both_not true true h = absurd (h (refl, refl))
both_not true false h = refl
both_not false b h = refl

module _ {D : Type 0} ⦃d : Double D⦄ where
  -- Vectors of the plane.
  abbrev pub minus : Point2D D → Point2D D → Point2D D
  minus p q = record { x = d.sub p.x q.x; y = d.sub p.y q.y }

  abbrev pub dot : Point2D D → Point2D D → D
  dot u v = d.add (d.mul u.x v.x) (d.mul u.y v.y)

  -- The way of a gatherer, and where an item is seen from its start.
  abbrev pub way : Gatherer D → Point2D D
  way g = minus g.end_pos g.start_pos

  abbrev pub seen : Gatherer D → Item D → Point2D D
  seen g i = minus i.position g.start_pos

  -- How far along the way the item is, as a part of it, and the square of its distance from the way:
  -- by Pythagoras what the projection leaves.
  abbrev pub part_of_way : Gatherer D → Item D → D
  part_of_way g i = d.div (dot (seen g i) (way g)) (dot (way g) (way g))

  abbrev pub sq_distance_of : Gatherer D → Item D → D
  sq_distance_of g i =
      let across = dot (seen g i) (way g) in
      d.sub (dot (seen g i) (seen g i)) (d.div (d.mul across across) (dot (way g) (way g)))

  -- The gatherer moves and passes the item on its way, no farther from it than the two widths.
  pub record Passes (g : Gatherer D) (i : Item D) : Type 0 where
    pub moves :
        ¬ ((d.eq g.start_pos.x g.end_pos.x ≡ true) × (d.eq g.start_pos.y g.end_pos.y ≡ true))
    pub behind_start : nought ≼ part_of_way g i
    pub before_end : part_of_way g i ≼ d.decimal 1 0
    pub near : sq_distance_of g i ≼ d.mul (d.add g.width i.width) (d.add g.width i.width)

  -- The gatherer and the item at two places of the provider, one of which passes the other, and the
  -- event of that.
  pub record IsPassing (p : GathererProvider D) (e : GatheringEvent D) : Type 0 where
    pub gatherer : Gatherer D
    pub item : Item D
    pub at_gatherer : get_elem? p.gatherers e.gatherer_id ≡ some gatherer
    pub at_item : get_elem? p.items e.item_id ≡ some item
    pub passes : Passes gatherer item
    pub time_is : e.time ≡ part_of_way gatherer item
    pub distance_is : e.sq_distance ≡ sq_distance_of gatherer item
    pub type_is : e.item_type ≡ item.item_type

  hits-Passes :
      (g : Gatherer D) (i : Item D)
      → eq_pt g.start_pos g.end_pos ≡ false
      → hits g i ≡ true
      → Passes g i
  unfolding is_collected try_collect_point eq_pt
  hits-Passes g i m h =
      let (x, y, z) = all_three _ _ _ h in
      record { moves = not_both _ _ m; behind_start = x; before_end = y; near = z }

  Passes-hits :
      (g : Gatherer D) (i : Item D)
      → Passes g i
      → (eq_pt g.start_pos g.end_pos ≡ false) × (hits g i ≡ true)
  unfolding is_collected try_collect_point eq_pt
  Passes-hits g i v = (both_not _ _ v.moves, rw (v.behind_start, v.before_end, v.near) refl)

  from_zero :
      (g i : ℕ) (gatherer : Gatherer D) (item : Item D)
      → event_of (0 + g) (0 + i) gatherer item ≡ event_of g i gatherer item
  from_zero g i gatherer item =
      ap₂ (λ (a b : ℕ). event_of a b gatherer item) (omega arith) (omega arith)

  IsEvent-IsPassing :
      (p : GathererProvider D) (e : GatheringEvent D)
      → IsEvent 0 p.gatherers p.items e
      → IsPassing p e
  unfolding is_collected try_collect_point
  IsEvent-IsPassing p e (k, g, a, m, (l, i, b, h, same)) =
      subst (IsPassing p) (sym (same ∙ from_zero k l g i)) (record {
        gatherer = g;
        item = i;
        at_gatherer = a;
        at_item = b;
        passes = hits-Passes g i m h;
        time_is = refl;
        distance_is = refl;
        type_is = refl;
      })

  IsPassing-IsEvent :
      (p : GathererProvider D) (e : GatheringEvent D)
      → IsPassing p e
      → IsEvent 0 p.gatherers p.items e
  unfolding is_collected try_collect_point
  IsPassing-IsEvent p e v =
      let (m, h) = Passes-hits v.gatherer v.item v.passes in
      let named : e ≡ event_of e.gatherer_id e.item_id v.gatherer v.item =
        rw (v.time_is, v.distance_is, v.type_is) refl in
      (
        e.gatherer_id,
        v.gatherer,
        v.at_gatherer,
        m,
        (
          e.item_id,
          v.item,
          v.at_item,
          h,
          named ∙ sym (from_zero e.gatherer_id e.item_id v.gatherer v.item),
        ),
      )

  -- An event is found exactly when a gatherer moves and passes an item: the item's place along the way is
  -- between its ends, and its distance from the way is no more than the two widths. The event names both
  -- by their places in the provider, and has the place along the way as its time.
  pub find_gather_events_iff :
      (sort : List (GatheringEvent D) → List (GatheringEvent D)) (p : GathererProvider D)
      (e : GatheringEvent D)
      → IsSort sort
      → ∥ In e (find_gather_events sort p) ∥₁ ↔ ∥ IsPassing p e ∥₁
  unfolding find_gather_events
  find_gather_events_iff sort p e s =
      let found = events_from 0 p.gatherers p.items in
      let perm = s.sort-perm found (events_from_timely 0 p.gatherers p.items) in
      (
        λ h.
            ∥∥₁_map (In-perm e perm h)
              (λ q. IsEvent-IsPassing p e (events_from-IsEvent 0 p.gatherers p.items e q)),
        λ h. In-perm e (Perm.symm perm) (
            ∥∥₁_map h (λ q. IsEvent-events_from 0 p.gatherers p.items e (IsPassing-IsEvent p e q))),
      )
