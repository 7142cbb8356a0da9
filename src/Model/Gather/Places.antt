-- ===== src/Model/Gather/Places.antt =====
-- The gathering of a tick of src/model.cpp, and the two meanings of an item's number: its place in the
-- provider, by which events name it, and the id of a piece of loot, by which GatherLoot looks for it.
use backend_for_browser_game.Base.{
  ℕ, ◌+◌, ◌≤◌, ◌<◌, ◌≡◌, refl, sym, ap, ◌∙◌, subst, ltb, Bool, true, false, ◌&&◌, ◌||◌, ◌==◌,
  ==_iff, ◌⊎◌, inl, inr, List, [], ◌∷◌, ◌++◌, All, all_of, map, length, length-append, get_elem?,
  get_elem?-set, set, some, ok, ok-inj, undefined, or_fail, or_fail-eq-ok, >>=-eq-ok, Bool-cases,
  arith,
}
use backend_for_browser_game.Base.Perm.{all_of-perm}
use backend_for_browser_game.Double.{Double}
use backend_for_browser_game.Geom.{eq_pt}
use backend_for_browser_game.Collision.{
  GatheringEvent, GathererProvider, Gatherer, Item, ItemType, loot, office, add_item,
  events_of_gatherer, events_from, find_gather_events,
}
use backend_for_browser_game.Collision.Order.{IsSort, all_of-append, events_from_timely}
use backend_for_browser_game.Model.GameMap.{Office}
use backend_for_browser_game.Model.Loot.{Loot}
use backend_for_browser_game.Model.Dog.{Dog, release_loot}
use backend_for_browser_game.Model.Session.{GameSession, DogHeap}
use backend_for_browser_game.Model.Gather.{
  Gathering, has, is_office, add_loot_items, add_office_items, reach_item, handle_event,
  gather_event, gather_events, gather_loot, substr_one, stoul,
}

-- From place `i` on, loot stands at places below `n` only.
abbrev loot_below : {D : Type 0} → ℕ → ℕ → List (Item D) → Bool
loot_below n i [] = true
loot_below n i (item ∷ items) = (is_office item.item_type || ltb i n) && loot_below n (i + 1) items

abbrev event_below : {D : Type 0} → ℕ → GatheringEvent D → Bool
event_below n e = is_office e.item_type || ltb e.item_id n

module _ {D : Type 0} where
  loot_below_all :
      (n i : ℕ) (items : List (Item D)) → i + length items ≤ n → loot_below n i items ≡ true
  loot_below_all n i [] h = refl
  loot_below_all n i (item ∷ items) h = ground (arith, h, loot_below_all n (i + 1) items)

  loot_below_last :
      (n i : ℕ) (items : List (Item D)) (item : Item D)
      → is_office item.item_type ≡ true
      → loot_below n i items ≡ true
      → loot_below n i (items ++ (item ∷ [])) ≡ true
  loot_below_last n i [] item o h = ground (arith, o)
  loot_below_last n i (x ∷ items) item o h =
      ground (arith, h, loot_below_last n (i + 1) items item o)

  length-add_loot_items :
      (ls : List (Loot D)) (p : GathererProvider D)
      → length (add_loot_items ls p).items ≡ length p.items + length ls
  unfolding add_loot_items add_item
  length-add_loot_items [] p = omega arith
  length-add_loot_items (l ∷ ls) p =
      length-add_loot_items ls _ ∙ omega (arith, length-append p.items (_ ∷ []))

module _ {D : Type 0} ⦃d : Double D⦄ where
  add_office_items_below :
      (n : ℕ) (os : List (Office D)) (p q : GathererProvider D)
      → add_office_items os p ≡ ok q
      → loot_below n 0 p.items ≡ true
      → loot_below n 0 q.items ≡ true
  unfolding add_office_items add_item
  add_office_items_below n [] p q h v =
      subst (λ (x : GathererProvider D). loot_below n 0 x.items ≡ true) (ok-inj h) v
  add_office_items_below n (o ∷ os) p q h v =
      let (rest, e, h₁) = >>=-eq-ok (substr_one o.id) _ h in
      let (id, f, h₂) = >>=-eq-ok (stoul rest) _ h₁ in
      add_office_items_below n os _ q h₂ (loot_below_last n 0 p.items _ refl v)

  events_of_gatherer_below :
      (n g : ℕ) (gatherer : Gatherer D) (i : ℕ) (items : List (Item D))
      → loot_below n i items ≡ true
      → all_of (event_below n) (events_of_gatherer g gatherer i items) ≡ true
  unfolding events_of_gatherer
  events_of_gatherer_below n g gatherer i [] h = refl
  events_of_gatherer_below n g gatherer i (item ∷ items) h =
      ground (arith, h, events_of_gatherer_below n g gatherer (i + 1) items)

  events_from_below :
      (n g : ℕ) (gatherers : List (Gatherer D)) (items : List (Item D))
      → loot_below n 0 items ≡ true
      → all_of (event_below n) (events_from g gatherers items) ≡ true
  unfolding events_from
  events_from_below n g [] items h = refl
  events_from_below n g (gatherer ∷ gatherers) items h =
      elim (Bool-cases (eq_pt gatherer.start_pos gatherer.end_pos)) [
        | inl y ↦ rw y (events_from_below n (g + 1) gatherers items h)
        | inr z ↦ rw z (
            all_of-append {D = D} (event_below n) (events_of_gatherer g gatherer 0 items) _
              (events_of_gatherer_below n g gatherer 0 items h)
              (events_from_below n (g + 1) gatherers items h))
      ]

is_office-eq : (t : ItemType) → is_office t ≡ true → t ≡ office
is_office-eq loot h = cc
is_office-eq office h = refl

module _ {D : Type 0} where
  has_none :
      (n id : ℕ) (ls : List (Loot D))
      → id < n
      → All (λ l. n ≤ l.id) ls
      → has (map (λ (l : Loot D). l.id) ls) id ≡ false
  has_none n id [] h v = refl
  has_none n id (l ∷ ls) h v = ground (arith, has_none n id ls h v.1)

  -- No loot is collected, and each dog has in its bag what it had, or nothing.
  pub record IsIdle (s : GameSession D) (heap : DogHeap D) (st : Gathering D) : Type 0 where
    pub same_session : st.session ≡ s
    pub nothing_collected : st.collected ≡ []
    pub no_gain :
        (a : ℕ) (g' : Dog D)
        → get_elem? st.dogs a ≡ some g'
        → (g : Dog D) × (get_elem? heap a ≡ some g) × ((g'.bag ≡ g.bag) ⊎ (g'.bag ≡ []))

  handle_office-IsIdle :
      (capacity : ℕ) (e : GatheringEvent D) (s : GameSession D) (heap : DogHeap D)
      (st new : Gathering D)
      → is_office e.item_type ≡ true
      → handle_event capacity e st ≡ ok new
      → IsIdle s heap st
      → IsIdle s heap new
  unfolding handle_event reach_item release_loot
  handle_office-IsIdle capacity e s heap st new o h v =
      let (a, p, q) = >>=-eq-ok (or_fail (get_elem? st.session.dogs e.gatherer_id) undefined) _ h in
      let (g, r, t) = >>=-eq-ok (or_fail (get_elem? st.dogs a) undefined) _ q in
      let at = or_fail-eq-ok (get_elem? st.dogs a) undefined r in
      let same : record st { dogs = set st.dogs a (release_loot g) } ≡ new =
        ok-inj (rw (is_office-eq e.item_type o) at t) in
      subst (IsIdle s heap) same (record {
        same_session = v.same_session;
        nothing_collected = v.nothing_collected;
        no_gain = released a g at;
      })
    where
      released :
          (a : ℕ) (g : Dog D)
          → get_elem? st.dogs a ≡ some g
          → (b : ℕ) (g' : Dog D) → get_elem? (set st.dogs a (release_loot g)) b ≡ some g'
          → (old : Dog D) × (get_elem? heap b ≡ some old) × ((g'.bag ≡ old.bag) ⊎ (g'.bag ≡ []))
      released a g at b g' k = elim (Bool-cases (a == b)) [
        | inr miss ↦
            v.no_gain b g' (rw miss at (sym (get_elem?-set st.dogs a b (release_loot g) at) ∙ k))
        | inl hit ↦
            let here : a ≡ b = (==_iff a b).0 hit in
            let (old, k', bag) = v.no_gain a g at in
            let put : release_loot g ≡ g' =
              ground (arith, rw hit at (sym (get_elem?-set st.dogs a b (release_loot g) at) ∙ k)) in
            (old, rw (← here) k', inr (ap (λ (x : Dog D). x.bag) (sym put)))
      ]

  gather_event-IsIdle :
      (existing : List ℕ) (capacity n : ℕ) (e : GatheringEvent D) (s : GameSession D)
      (heap : DogHeap D) (st new : Gathering D)
      → ((id : ℕ) → id < n → has existing id ≡ false)
      → event_below n e ≡ true
      → gather_event existing capacity e st ≡ ok new
      → IsIdle s heap st
      → IsIdle s heap new
  unfolding gather_event
  gather_event-IsIdle existing capacity n e s heap st new fresh b h v =
      elim (Bool-cases (is_office e.item_type)) [
        | inl o ↦ handle_office-IsIdle capacity e s heap st new o (rw o at h) v
        | inr z ↦
            let gone = fresh e.item_id (ground (arith, b, z)) in
            subst (IsIdle s heap) (ok-inj (rw (z, gone) at h)) v
      ]

  gather_events-IsIdle :
      (existing : List ℕ) (capacity n : ℕ) (es : List (GatheringEvent D)) (s : GameSession D)
      (heap : DogHeap D) (st new : Gathering D)
      → ((id : ℕ) → id < n → has existing id ≡ false)
      → all_of (event_below n) es ≡ true
      → gather_events existing capacity es st ≡ ok new
      → IsIdle s heap st
      → IsIdle s heap new
  unfolding gather_events
  gather_events-IsIdle existing capacity n [] s heap st new fresh b h v =
      subst (IsIdle s heap) (ok-inj h) v
  gather_events-IsIdle existing capacity n (e ∷ es) s heap st new fresh b h v =
      let (mid, p, q) =
        >>=-eq-ok (gather_event existing capacity e st) (gather_events existing capacity es) h in
      gather_events-IsIdle existing capacity n es s heap mid new fresh (ground (arith, b)) q
        (gather_event-IsIdle existing capacity n e s heap st mid fresh (ground (arith, b)) p v)

module _ {D : Type 0} ⦃d : Double D⦄ (sort : List (GatheringEvent D) → List (GatheringEvent D))
    (sorts : IsSort sort) where
  -- Suppose that the ids of all loot of a session are no less than the number of pieces that lie there,
  -- as they are once so many pieces have been made and collected before. Then from whatever events the
  -- collision detector finds for the session's loot and the map's offices, a gathering that ends without
  -- an exception collects nothing: the session stays as it was, and each dog's bag holds what it held, or
  -- nothing after an office.
  pub gather_loot-IsIdle :
      (capacity : ℕ) (offices : List (Office D)) (gatherers : List (Gatherer D))
      (p : GathererProvider D) (s : GameSession D) (heap : DogHeap D) (st : Gathering D)
      → All (λ l. length s.loot ≤ l.id) s.loot
      → add_office_items offices
          (add_loot_items s.loot (record { items = []; gatherers = gatherers }))
        ≡ ok p
      → gather_loot capacity (find_gather_events sort p) s heap ≡ ok st
      → IsIdle s heap st
  unfolding gather_loot find_gather_events
  gather_loot-IsIdle capacity offices gatherers p s heap st old provides h =
      let n = length s.loot in
      let items = (add_loot_items s.loot (record { items = []; gatherers = gatherers })).items in
      let count = length-add_loot_items s.loot (record { items = []; gatherers = gatherers }) in
      let below =
        add_office_items_below n offices _ p provides
          (loot_below_all n 0 items (omega (arith, count))) in
      let perm =
        sorts.sort-perm (events_from 0 p.gatherers p.items)
          (events_from_timely 0 p.gatherers p.items) in
      gather_events-IsIdle (map (λ (l : Loot D). l.id) s.loot) capacity n _ s heap _ st
        (λ id k. has_none n id s.loot k old)
        (all_of-perm (event_below n) perm ∙ events_from_below n 0 p.gatherers p.items below) h
        (record {
          same_session = refl;
          nothing_collected = refl;
          no_gain = λ a g e. (g, e, inl refl);
        })
