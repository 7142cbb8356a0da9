-- ===== src/Model/Tick/Roads.antt =====
-- The body of the loop of Game::Update in src/model.cpp, and the roads.
use backend_for_browser_game.Base.{
  ℕ, ℤ, pos, ◌≤ℤ◌, ◌≡◌, sym, ◌∙◌, subst, true, List, All, get_elem?, set, map, copy_if, ◌⊎◌, inl,
  inr, ◌==◌, Bool-cases, ltb, get_elem?-set, some, ok, undefined, or_fail, ok-inj, >>=-eq-ok, arith,
}
use backend_for_browser_game.Double.{Double, IsIeee, nought, ◌≼◌, IsFinite}
use backend_for_browser_game.Collision.{
  GatheringEvent, GathererProvider, ItemType, loot, office, empty_provider, find_gather_events,
}
use backend_for_browser_game.Model.GameMap.{GameMap}
use backend_for_browser_game.Model.Loot.{Loot}
use backend_for_browser_game.Model.Dog.{Dog, release_loot, add_loot, get_loot_count_in_bag}
use backend_for_browser_game.Model.Session.{GameSession, DogHeap}
use backend_for_browser_game.Model.Session
use backend_for_browser_game.Model.World.{World, map_at}
use backend_for_browser_game.Model.Movement.{
  Entry, Boost, IsRTree, update_dogs, update_dogs_position,
}
use backend_for_browser_game.Model.Movement.OnRoad.{all_straight}
use backend_for_browser_game.Model.Movement.Heading.{IsPlaced, IsPlacedAt, update_dogs_keep}
use backend_for_browser_game.Model.Spawn.{update_loot}
use backend_for_browser_game.Model.Gather.{
  Gathering, reach_item, take_loot, gather_loot, has, add_loot_items, add_office_items,
}
use backend_for_browser_game.Model.Gather.Steps.{gather_events_keep}
use backend_for_browser_game.Model.Retire.{
  Round, is_inactive, retire_dogs, remove_inactive_dogs, sweep,
}
use backend_for_browser_game.Model.Retire.Records.{retire_dogs-Saved}
use backend_for_browser_game.Model.Tick.{Outside, play_session, update_session}

module _ {D : Type 0} ⦃d : Double D⦄ where
  -- The dogs of one heap that are on the roads are so in the other.
  abbrev pub Stays : List (Entry D) → DogHeap D → DogHeap D → Type 0
  Stays roads heap heap' = (b : ℕ) → IsPlacedAt roads heap b → IsPlacedAt roads heap' b

  -- A write of a dog that differs in its bag and score only.
  set-Stays :
      (roads : List (Entry D)) (heap : DogHeap D) (a : ℕ) (g new : Dog D)
      → get_elem? heap a ≡ some g
      → (IsPlaced roads g → IsPlaced roads new)
      → Stays roads heap (set heap a new)
  set-Stays roads heap a g new at f b (old, e, v) =
      let r = get_elem?-set heap a b new at in
      elim (Bool-cases (a == b)) [
        | inl hit ↦
            let same : old ≡ g = ground (arith, e, at, hit) in
            (new, r ∙ rw hit, f (subst (IsPlaced roads) same v))
        | inr miss ↦ (old, r ∙ rw miss e, v)
      ]

  -- Taking loot leaves the dogs alone or adds to one bag.
  take_loot_dogs :
      (capacity : ℕ) (e : GatheringEvent D) (a : ℕ) (g : Dog D) (st new : Gathering D)
      → take_loot capacity e a g st ≡ ok new
      → (new.dogs ≡ st.dogs) ⊎ ((l : Loot D) × (new.dogs ≡ set st.dogs a (add_loot g l)))
  unfolding take_loot
  take_loot_dogs capacity e a g st new h = elim (Bool-cases (has st.collected e.item_id)) [
    | inl old ↦ inl (ground (arith, rw old at h))
    | inr fresh ↦ elim (Bool-cases (ltb (get_loot_count_in_bag g) capacity)) [
      | inl room ↦
          let ((l, s), p, q) =
            >>=-eq-ok (Session.gather_loot st.session e.item_id) _ (rw (fresh, room) at h) in
          inr (l, ground (arith, q))
      | inr full ↦ inl (ground (arith, rw (fresh, full) at h))
    ]
  ]

  take_loot-Stays :
      (roads : List (Entry D)) (capacity : ℕ) (e : GatheringEvent D) (a : ℕ) (g : Dog D)
      (st new : Gathering D)
      → get_elem? st.dogs a ≡ some g
      → take_loot capacity e a g st ≡ ok new
      → Stays roads st.dogs new.dogs
  unfolding add_loot
  take_loot-Stays roads capacity e a g st new at h = elim (take_loot_dogs capacity e a g st new h) [
    | inl same ↦ subst (Stays roads st.dogs) (sym same) (λ b v. v)
    | inr (l, more) ↦ subst (Stays roads st.dogs) (sym more) (
        set-Stays roads st.dogs a g (add_loot g l) at (λ v. record {
          on_road = v.on_road;
          finite_x = v.finite_x;
          finite_y = v.finite_y;
          faces = v.faces;
        }))
  ]

  reach_item-Stays :
      (roads : List (Entry D)) (i : ItemType) (capacity : ℕ) (e : GatheringEvent D) (a : ℕ)
      (g : Dog D) (st new : Gathering D)
      → get_elem? st.dogs a ≡ some g
      → reach_item i capacity e a g st ≡ ok new
      → Stays roads st.dogs new.dogs
  unfolding reach_item release_loot
  reach_item-Stays roads office capacity e a g st new at h =
      let same : set st.dogs a (release_loot g) ≡ new.dogs = ground (arith, h) in
      subst (Stays roads st.dogs) same (
        set-Stays roads st.dogs a g (release_loot g) at (λ v. record {
          on_road = v.on_road;
          finite_x = v.finite_x;
          finite_y = v.finite_y;
          faces = v.faces;
        }))
  reach_item-Stays roads loot capacity e a g st new at h =
      take_loot-Stays roads capacity e a g st new at h

  pub gather_loot-Stays :
      (roads : List (Entry D)) (capacity : ℕ) (es : List (GatheringEvent D)) (s : GameSession D)
      (heap : DogHeap D) (r : Gathering D)
      → gather_loot capacity es s heap ≡ ok r
      → Stays roads heap r.dogs
  unfolding gather_loot
  gather_loot-Stays roads capacity es s heap r h =
      gather_events_keep (λ st. Stays roads heap st.dogs) capacity
        (λ e a g st new at k v b w.
          reach_item-Stays roads e.item_type capacity e a g st new at k b (v b w))
        (map (λ (l : Loot D). l.id) s.loot) es _ r h (λ b w. w)

  pub remove_inactive_dogs_dogs :
      (w w' : World D) (clock : ℕ → Round) (a : ℕ)
      → remove_inactive_dogs w clock a ≡ ok w'
      → w'.dogs ≡ w.dogs
  unfolding remove_inactive_dogs sweep
  remove_inactive_dogs_dogs w w' clock a h =
      let limit = w.game.dog_retirement_time_seconds in
      let (s, p, q) = >>=-eq-ok (or_fail (get_elem? w.sessions a) undefined) _ h in
      let old = copy_if (is_inactive limit w.dogs) s.dogs in
      let (mid, r, t) = >>=-eq-ok (retire_dogs w clock 0 old) _ q in
      let (s', f, v) = >>=-eq-ok (or_fail (get_elem? mid.sessions a) undefined) _ t in
      let same : mid.dogs ≡ w'.dogs = ground (arith, v) in
      sym same ∙ (retire_dogs-Saved w mid clock 0 old r).same_dogs

  module _ (laws : IsIeee D) (boost : Boost D) (tree : IsRTree boost)
      (sort : List (GatheringEvent D) → List (GatheringEvent D)) where
    seconds :
        (t : ℤ)
        → pos 0 ≤ℤ t
        → IsFinite (d.div (d.of_int t) (d.decimal 1000 0))
          × (nought ≼ d.div (d.of_int t) (d.decimal 1000 0))
    seconds t h =
        let from_zero : nought ≼ d.of_int t =
          subst (λ x. x ≼ d.of_int t) laws.of_int_zero (laws.of_int_mono (pos 0) t h) in
        let (low, fin) = laws.div_nonneg (d.of_int t) 999 from_zero (laws.of_int-IsFinite t) in
        (fin, low)

    pub play_session-Stays :
        (w w' : World D) (outside : Outside D) (t : ℤ) (a : ℕ) (s : GameSession D) (m : GameMap D)
        → pos 0 ≤ℤ t
        → map_at w.game s.map ≡ ok m
        → all_straight m.road_rtree ≡ true
        → All (IsPlacedAt m.road_rtree w.dogs) s.dogs
        → play_session boost sort w outside t a s ≡ ok w'
        → Stays m.road_rtree w.dogs w'.dogs
    unfolding play_session update_dogs_position
    play_session-Stays w w' outside t a s m n at straight placed h b v =
        let dt = d.div (d.of_int t) (d.decimal 1000 0) in
        let (moved, e₁, h₁) =
          >>=-eq-ok (update_dogs boost dt m.road_rtree s.dogs w.dogs empty_provider) _
            (rw at at h) in
        let (generator, e₂, h₂) = >>=-eq-ok (or_fail w.game.loot_generator undefined) _ h₁ in
        let (spawned, e₃, h₃) =
          >>=-eq-ok (update_loot m generator outside.random (outside.draws a) s t w.loot_counter) _
            h₂ in
        let (offices, e₄, h₄) =
          >>=-eq-ok (add_office_items m.offices (add_loot_items (spawned.0).loot moved.1)) _ h₃ in
        let (gathered, e₅, h₅) =
          >>=-eq-ok (gather_loot m.bag_capacity (find_gather_events sort offices) spawned.0 moved.0)
            _ h₄ in
        let (r, f, keep) =
          update_dogs_keep laws boost tree dt (seconds t n) m.road_rtree s.dogs w.dogs
            empty_provider straight placed in
        let same : r ≡ moved = ok-inj (sym f ∙ e₁) in
        let ended : gathered.dogs ≡ w'.dogs = ground (arith, h₅) in
        subst (λ heap. IsPlacedAt m.road_rtree heap b) ended
          (gather_loot-Stays m.road_rtree m.bag_capacity (find_gather_events sort offices) spawned.0
            moved.0 gathered e₅ b
            (subst (λ (x : DogHeap D × GathererProvider D). IsPlacedAt m.road_rtree x.0 b) same
              (keep b v)))

    -- If time does not run backwards, the roads of the session's map are straight, and the dogs of the
    -- session are on them, then after the session's part of a tick that ends without an exception, all
    -- dogs that were on those roads with a fitting heading are so still.
    pub update_session-IsPlaced :
        (w w' : World D) (outside : Outside D) (t : ℤ) (a : ℕ) (s : GameSession D) (m : GameMap D)
        → pos 0 ≤ℤ t
        → get_elem? w.sessions a ≡ some s
        → map_at w.game s.map ≡ ok m
        → all_straight m.road_rtree ≡ true
        → All (IsPlacedAt m.road_rtree w.dogs) s.dogs
        → update_session boost sort w outside t a ≡ ok w'
        → (b : ℕ) → IsPlacedAt m.road_rtree w.dogs b
        → IsPlacedAt m.road_rtree w'.dogs b
    unfolding update_session
    update_session-IsPlaced w w' outside t a s m n at maps straight placed h =
        let (mid, p, q) =
          >>=-eq-ok (play_session boost sort w outside t a s)
            (λ mid. remove_inactive_dogs mid (outside.clock a) a) (rw at at h) in
        subst (Stays m.road_rtree w.dogs)
          (sym (remove_inactive_dogs_dogs mid w' (outside.clock a) a q))
          (play_session-Stays w mid outside t a s m n maps straight placed p)
