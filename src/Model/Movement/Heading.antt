-- ===== src/Model/Movement/Heading.antt =====
-- UpdateDogsPosition of src/model.cpp: an invariant of one dog, and of a heap of dogs.
use backend_for_browser_game.Base.{
  ℕ, ℤ, pos, ◌≡◌, refl, sym, ◌∙◌, subst, subst₂, ◌⊎◌, inl, inr, true, List, [], ◌∷◌, any_of, All,
  get_elem?, get_elem?-set, set, some, ok, arith, Bool-cases, ◌==◌, min_ℤ, max_ℤ,
}
use backend_for_browser_game.Double.{Double, IsIeee, ◌≼◌, nought, IsFinite}
use backend_for_browser_game.Geom.{Point2D, Vec2D, eq_pt}
use backend_for_browser_game.Collision.{GathererProvider, add_gatherer}
use backend_for_browser_game.Model.Road.{
  Road, Direction, north, south, west, east, none_dir, is_point_on_road, in_band, road_half_width,
}
use backend_for_browser_game.Model.Road.Stop.{IsAhead}
use backend_for_browser_game.Model.Dog.{
  Dog, set_speed, set_position, set_status, update_inactivity_time, reset_inactivity_timer,
}
use backend_for_browser_game.Model.Session.{DogHeap}
use backend_for_browser_game.Model.Movement.{
  Entry, Boost, IsRTree, stands, target_of, halt, relevant, move_along, calculate_new_dog_position,
  move_dog, update_dogs,
}
use backend_for_browser_game.Model.Movement.OnRoad.{on_some_road, all_straight, calculate-on_road}

module _ {D : Type 0} ⦃d : Double D⦄ where
  -- The sign of the speed fits the direction.
  abbrev pub Faces : Direction → Vec2D D → Type 0
  Faces east v = nought ≼ v.x
  Faces west v = v.x ≼ nought
  Faces north v = v.y ≼ nought
  Faces south v = nought ≼ v.y
  Faces none_dir v = Unit

  pub record IsPlaced (roads : List (Entry D)) (g : Dog D) : Type 0 where
    pub on_road : on_some_road roads g.position ≡ true
    pub finite_x : IsFinite g.speed.x
    pub finite_y : IsFinite g.speed.y
    pub faces : Faces g.direction g.speed

  -- The dog at an address is on the roads.
  abbrev pub IsPlacedAt : List (Entry D) → DogHeap D → ℕ → Type 0
  IsPlacedAt roads heap a = (g : Dog D) × (get_elem? heap a ≡ some g) × IsPlaced roads g

  pub set-IsPlacedAt :
      (roads : List (Entry D)) (heap : DogHeap D) (a b : ℕ) (g new : Dog D)
      → get_elem? heap a ≡ some g
      → IsPlaced roads new
      → IsPlacedAt roads heap b
      → IsPlacedAt roads (set heap a new) b
  set-IsPlacedAt roads heap a b g new e v (old, f, w) =
      let r = get_elem?-set heap a b new e in
      elim (Bool-cases (a == b)) [
        | inl hit ↦ (new, r ∙ rw hit, v)
        | inr miss ↦ (old, r ∙ rw miss f, w)
      ]

  module _ (laws : IsIeee D) where
    open laws use {
      number_of_finite, finite_between, decimal_nonneg, offset-IsFinite, le_add, add_le, mul_nonneg,
      mul_nonpos, of_int_zero,
    }

    in_band-IsFinite : (v : D) (lo hi : ℤ) → in_band v lo hi ≡ true → IsFinite v
    unfolding in_band
    in_band-IsFinite v lo hi h =
        finite_between (d.sub (d.of_int lo) road_half_width) v (d.add (d.of_int hi) road_half_width)
          (ground arith) (ground arith) (offset-IsFinite lo 4 1 (omega arith)).0
          (offset-IsFinite hi 4 1 (omega arith)).1

    is_point_on_road-IsFinite :
        (p : Point2D D) (r : Road D) → is_point_on_road p r ≡ true → IsFinite p.x × IsFinite p.y
    unfolding is_point_on_road
    is_point_on_road-IsFinite p r h = ground (
      arith,
      in_band-IsFinite p.x (min_ℤ r.start.x r.finish.x) (max_ℤ r.start.x r.finish.x),
      in_band-IsFinite p.y r.start.y r.start.y,
      in_band-IsFinite p.y (min_ℤ r.start.y r.finish.y) (max_ℤ r.start.y r.finish.y),
      in_band-IsFinite p.x r.start.x r.start.x,
    )

    on_some_road-IsFinite :
        (p : Point2D D) (roads : List (Entry D))
        → on_some_road roads p ≡ true
        → IsFinite p.x × IsFinite p.y
    on_some_road-IsFinite p [] h = cc
    on_some_road-IsFinite p (e ∷ es) h = elim (Bool-cases (is_point_on_road p e.1)) [
      | inl here ↦ is_point_on_road-IsFinite p e.1 here
      | inr miss ↦ on_some_road-IsFinite p es (ground arith)
    ]

    -- What a dog heads for lies ahead.
    target-IsAhead :
        (g : Dog D) (dt : D) (dir : Direction)
        → IsFinite g.position.x × IsFinite g.position.y
        → IsFinite g.speed.x × IsFinite g.speed.y
        → IsFinite dt × (nought ≼ dt)
        → Faces dir g.speed
        → IsAhead dir g.position (target_of g dt)
    target-IsAhead g dt east p v t f = le_add _ _ (mul_nonneg _ _ f t.1 v.0 t.0) p.0
    target-IsAhead g dt west p v t f = add_le _ _ (mul_nonpos _ _ f t.1 v.0 t.0) p.0
    target-IsAhead g dt north p v t f = add_le _ _ (mul_nonpos _ _ f t.1 v.1 t.0) p.1
    target-IsAhead g dt south p v t f = le_add _ _ (mul_nonneg _ _ f t.1 v.1 t.0) p.1
    target-IsAhead g dt none_dir p v t f = tt

    nought_refl : ◌≼◌ {D = D} nought nought
    nought_refl = (decimal_nonneg 0 0).0

    halt-Faces : (dir : Direction) → Faces dir halt
    halt-Faces east = rw of_int_zero nought_refl
    halt-Faces west = rw of_int_zero nought_refl
    halt-Faces north = rw of_int_zero nought_refl
    halt-Faces south = rw of_int_zero nought_refl
    halt-Faces none_dir = tt

    module _ (boost : Boost D) (tree : IsRTree boost) (dt : D)
        (time : IsFinite dt × (nought ≼ dt)) where
      move_along_dog :
          (g : Dog D) (es : List (Entry D))
          → ((move_along boost g dt es).1 ≡ g) ⊎ ((move_along boost g dt es).1 ≡ set_speed g halt)
      unfolding move_along
      move_along_dog g [] = inl refl
      move_along_dog g (e ∷ es) =
          elim (Bool-cases
            (any_of (λ (r : Entry D). is_point_on_road (target_of g dt) r.1) (e ∷ es))) [
              | inl h ↦ inl (rw h)
              | inr h ↦ inr (rw h)
            ]

      -- The call keeps the dog but for its speed, which it may set to zero.
      calculate_dog :
          (g : Dog D) (roads : List (Entry D))
          → ((calculate_new_dog_position boost g dt roads).1 ≡ g)
            ⊎ ((calculate_new_dog_position boost g dt roads).1 ≡ set_speed g halt)
      unfolding calculate_new_dog_position
      calculate_dog g roads = elim (Bool-cases (stands g)) [
        | inl e ↦ inl (rw e)
        | inr e ↦ rw e (move_along_dog g (relevant boost g dt roads))
      ]

      move_dog_fields :
          (g : Dog D) (roads : List (Entry D))
          → let new = calculate_new_dog_position boost g dt roads in
            let after = (move_dog boost dt roads g).0 in
            (after.position ≡ new.0)
            × (after.direction ≡ new.1.direction)
            × (after.speed ≡ new.1.speed)
      unfolding move_dog set_position set_status update_inactivity_time reset_inactivity_timer
      move_dog_fields g roads =
          let new = calculate_new_dog_position boost g dt roads in
          elim (Bool-cases (eq_pt g.position new.0)) [
            | inl e ↦ rw e (refl, refl, refl)
            | inr e ↦ rw e (refl, refl, refl)
          ]

      abbrev IsHeaded : Dog D → Type 0
      IsHeaded g = IsFinite g.speed.x × IsFinite g.speed.y × Faces g.direction g.speed

      calculate-IsHeaded :
          (g : Dog D) (roads : List (Entry D))
          → IsHeaded g
          → IsHeaded (calculate_new_dog_position boost g dt roads).1
      unfolding set_speed
      calculate-IsHeaded g roads v = elim (calculate_dog g roads) [
        | inl e ↦ subst IsHeaded (sym e) v
        | inr e ↦
            subst IsHeaded (sym e)
              (laws.of_int-IsFinite (pos 0), laws.of_int-IsFinite (pos 0), halt-Faces g.direction)
      ]

      -- One round of the loop keeps a dog of the roads on the roads, and its heading.
      pub move_dog-IsPlaced :
          (g : Dog D) (roads : List (Entry D))
          → all_straight roads ≡ true
          → IsPlaced roads g
          → IsPlaced roads (move_dog boost dt roads g).0
      move_dog-IsPlaced g roads s v =
          let (where_to, dir, spd) = move_dog_fields g roads in
          let ahead =
            target-IsAhead g dt g.direction (on_some_road-IsFinite g.position roads v.on_road)
              (v.finite_x, v.finite_y) time v.faces in
          let (fx, fy, face) = calculate-IsHeaded g roads (v.finite_x, v.finite_y, v.faces) in
          record {
            on_road =
                subst (λ p. on_some_road roads p ≡ true) (sym where_to)
                  (calculate-on_road laws boost tree g dt roads s ahead v.on_road);
            finite_x = rw spd fx;
            finite_y = rw spd fy;
            faces = subst₂ Faces (sym dir) (sym spd) face;
          }

      set-All :
          (roads : List (Entry D)) (heap : DogHeap D) (a : ℕ) (g new : Dog D) (bs : List ℕ)
          → get_elem? heap a ≡ some g
          → IsPlaced roads new
          → All (IsPlacedAt roads heap) bs
          → All (IsPlacedAt roads (set heap a new)) bs
      set-All roads heap a g new [] e v w = tt
      set-All roads heap a g new (b ∷ bs) e v w =
          (set-IsPlacedAt roads heap a b g new e v w.0, set-All roads heap a g new bs e v w.1)

      -- The loop ends without a fault, and whatever dogs were on the roads are on them still.
      pub update_dogs_keep :
          (roads : List (Entry D)) (dogs : List ℕ) (heap : DogHeap D)
          (provider : GathererProvider D)
          → all_straight roads ≡ true
          → All (IsPlacedAt roads heap) dogs
          → (r : DogHeap D × GathererProvider D) × (update_dogs boost dt roads dogs heap provider
              ≡ ok r)
            × ((b : ℕ) → IsPlacedAt roads heap b → IsPlacedAt roads r.0 b)
      unfolding update_dogs
      update_dogs_keep roads [] heap provider s v = ((heap, provider), refl, λ b w. w)
      update_dogs_keep roads (a ∷ dogs) heap provider s v =
          let (g, e, w) = v.0 in
          let (new, seen) = move_dog boost dt roads g in
          let placed = move_dog-IsPlaced g roads s w in
          let (r, f, keep) =
            update_dogs_keep roads dogs (set heap a new) (add_gatherer provider seen) s
              (set-All roads heap a g new dogs e placed v.1) in
          (r, rw e f, λ b h. keep b (set-IsPlacedAt roads heap a b g new e placed h))

      All-Stays :
          (roads : List (Entry D)) (heap heap' : DogHeap D) (dogs : List ℕ)
          → ((b : ℕ) → IsPlacedAt roads heap b → IsPlacedAt roads heap' b)
          → All (IsPlacedAt roads heap) dogs
          → All (IsPlacedAt roads heap') dogs
      All-Stays roads heap heap' [] keep v = tt
      All-Stays roads heap heap' (b ∷ dogs) keep v =
          (keep b v.0, All-Stays roads heap heap' dogs keep v.1)

      -- If the roads are straight and the dogs of a session are on them, each with a speed that fits its
      -- direction, then the loop over the dogs ends without a fault, and they are so afterwards.
      pub update_dogs-IsPlaced :
          (roads : List (Entry D)) (dogs : List ℕ) (heap : DogHeap D)
          (provider : GathererProvider D)
          → all_straight roads ≡ true
          → All (IsPlacedAt roads heap) dogs
          → (r : DogHeap D × GathererProvider D) × (update_dogs boost dt roads dogs heap provider
              ≡ ok r)
            × All (IsPlacedAt roads r.0) dogs
      update_dogs-IsPlaced roads dogs heap provider s v =
          let (r, e, keep) = update_dogs_keep roads dogs heap provider s v in
          (r, e, All-Stays roads heap r.0 dogs keep v)
