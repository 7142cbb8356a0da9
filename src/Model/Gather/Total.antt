-- ===== src/Model/Gather/Total.antt =====
-- The exceptions and the indices of GatherLoot of src/model.cpp.
use backend_for_browser_game.Base.{
  ℕ, zero, suc, ◌<◌, ◌==◌, ◌≡◌, refl, sym, subst, ◌⊎◌, inl, inr, Bool, true, not, ◌&&◌, List, [],
  ◌∷◌, ◌++◌, length, length-set, get_elem?, set, All, map, any_of, find_if, erase_first, some,
  Result, ok, ◌>>=◌, arith, Bool-cases, ltb,
}
use backend_for_browser_game.Collision.{GatheringEvent, ItemType, loot, office}
use backend_for_browser_game.Model.Loot.{Loot}
use backend_for_browser_game.Model.Dog.{Dog, release_loot, add_loot, get_loot_count_in_bag}
use backend_for_browser_game.Model.Session.{GameSession, DogHeap}
use backend_for_browser_game.Model.Session
use backend_for_browser_game.Model.Gather.{
  Gathering, has, is_office, reach_item, take_loot, handle_event, gather_event, gather_events,
  gather_loot,
}

get_elem?_in_range :
    {A : Type 0} (xs : List A) (i : ℕ) → i < length xs → (x : A) × (get_elem? xs i ≡ some x)
get_elem?_in_range [] i h = elim h [ ]
get_elem?_in_range (x ∷ xs) zero h = (x, refl)
get_elem?_in_range (x ∷ xs) (suc i) h = get_elem?_in_range xs i (omega arith)

All-get_elem? :
    {A : Type 0} (P : A → Type 0) (xs : List A) (i : ℕ) {x : A}
    → All P xs
    → get_elem? xs i ≡ some x
    → P x
All-get_elem? P [] i v e = cc
All-get_elem? P (y ∷ xs) zero v e = ground arith
All-get_elem? P (y ∷ xs) (suc i) v e = All-get_elem? P xs i v.1 e

has-append : (xs : List ℕ) (id k : ℕ) → has xs id ≡ true → has (xs ++ (k ∷ [])) id ≡ true
has-append [] id k h = cc
has-append (x ∷ xs) id k h = ground (arith, has-append xs id k)

has-append_self : (xs : List ℕ) (id k : ℕ) → id ≡ k → has (xs ++ (k ∷ [])) id ≡ true
has-append_self [] id k e = ground arith
has-append_self (x ∷ xs) id k e = ground (arith, has-append_self xs id k e)

live-set :
    (addrs : List ℕ) (n : ℕ) (m : ℕ) → m ≡ n → All (λ a. a < n) addrs → All (λ a. a < m) addrs
live-set [] n m e v = tt
live-set (a ∷ rest) n m e v = (omega arith, live-set rest n m e v.1)

module _ {D : Type 0} where
  abbrev lies : GameSession D → ℕ → Bool
  lies s id = any_of (λ (l : Loot D). l.id == id) s.loot

  -- Every id of the start is collected or lies in the session; the pointers point somewhere.
  record IsSound (existing : List ℕ) (st : Gathering D) : Type 0 where
    there :
        (id : ℕ)
        → has existing id ≡ true
        → (has st.collected id ≡ true) ⊎ (lies st.session id ≡ true)
    live : All (λ a. a < length st.dogs) st.session.dogs

  find_if-any_of :
      (p : Loot D → Bool) (ls : List (Loot D))
      → any_of p ls ≡ true
      → (l : Loot D) × (find_if p ls ≡ some l)
  find_if-any_of p [] h = cc
  find_if-any_of p (l ∷ ls) h = elim (Bool-cases (p l)) [
    | inl y ↦ (l, rw y)
    | inr n ↦ rw n (find_if-any_of p ls (ground arith))
  ]

  lies_after :
      (id k : ℕ) (ls : List (Loot D))
      → any_of (λ (l : Loot D). l.id == id) ls ≡ true
      → (id ≡ k)
        ⊎ (any_of (λ (l : Loot D). l.id == id) (erase_first (λ (l : Loot D). l.id == k) ls) ≡ true)
  lies_after id k [] h = cc
  lies_after id k (l ∷ ls) h = ground (arith, lies_after id k ls)

  module _ (existing : List ℕ) where
    collect_there :
        (k : ℕ) (collected : List ℕ) (s : GameSession D) (id : ℕ)
        → (has collected id ≡ true) ⊎ (lies s id ≡ true)
        → (has (collected ++ (k ∷ [])) id ≡ true)
          ⊎ (any_of (λ (l : Loot D). l.id == id) (erase_first (λ (l : Loot D). l.id == k) s.loot)
              ≡ true)
    collect_there k collected s id (inl c) = inl (has-append collected id k c)
    collect_there k collected s id (inr l) = elim (lies_after id k s.loot l) [
      | inl e ↦ inl (has-append_self collected id k e)
      | inr r ↦ inr r
    ]

    abbrev Continues : Gathering D → Result (Gathering D) → Type 0
    Continues st r =
        (new : Gathering D) × (r ≡ ok new)
        × IsSound existing new
        × (new.session.dogs ≡ st.session.dogs)

    take_loot_now :
        (e : GatheringEvent D) (a : ℕ) (g : Dog D) (st : Gathering D)
        → lies st.session e.item_id ≡ true
        → IsSound existing st
        → Continues st (
            Session.gather_loot st.session e.item_id >>= λ (l, s). ok (record {
              session = s;
              dogs = set st.dogs a (add_loot g l);
              collected = st.collected ++ (e.item_id ∷ []);
            }))
    unfolding Session.gather_loot
    take_loot_now e a g st there v =
        let (l, found) = find_if-any_of (λ (l : Loot D). l.id == e.item_id) st.session.loot there in
        (
          record {
            session = record (st.session) {
              loot = erase_first (λ (k : Loot D). k.id == e.item_id) st.session.loot;
            };
            dogs = set st.dogs a (add_loot g l);
            collected = st.collected ++ (e.item_id ∷ []);
          },
          rw found,
          record {
            there = λ id h. collect_there e.item_id st.collected st.session id (v.there id h);
            live = live-set st.session.dogs _ _ (length-set st.dogs a (add_loot g l)) v.live;
          },
          refl,
        )

    take_loot-ok :
        (capacity : ℕ) (e : GatheringEvent D) (a : ℕ) (g : Dog D) (st : Gathering D)
        → has existing e.item_id ≡ true
        → IsSound existing st
        → Continues st (take_loot capacity e a g st)
    unfolding take_loot
    take_loot-ok capacity e a g st w v = elim (Bool-cases (has st.collected e.item_id)) [
      | inl y ↦ rw y (st, refl, v, refl)
      | inr n ↦ elim (Bool-cases (ltb (get_loot_count_in_bag g) capacity)) [
        | inl room ↦
            let there : lies st.session e.item_id ≡ true = ground (arith, v.there e.item_id w) in
            rw (n, room) (take_loot_now e a g st there v)
        | inr full ↦ rw (n, full) (st, refl, v, refl)
      ]
    ]

    reach_item-ok :
        (i : ItemType) (capacity : ℕ) (e : GatheringEvent D) (a : ℕ) (g : Dog D) (st : Gathering D)
        → (is_office i ≡ true) ⊎ (has existing e.item_id ≡ true)
        → IsSound existing st
        → Continues st (reach_item i capacity e a g st)
    unfolding reach_item
    reach_item-ok office capacity e a g st w v = (
      record st { dogs = set st.dogs a (release_loot g) },
      refl,
      record {
        there = v.there;
        live = live-set st.session.dogs _ _ (length-set st.dogs a (release_loot g)) v.live;
      },
      refl,
    )
    reach_item-ok loot capacity e a g st (inl w) v = cc
    reach_item-ok loot capacity e a g st (inr w) v = take_loot-ok capacity e a g st w v

    gather_event-ok :
        (capacity : ℕ) (e : GatheringEvent D) (st : Gathering D)
        → e.gatherer_id < length st.session.dogs
        → IsSound existing st
        → Continues st (gather_event existing capacity e st)
    unfolding gather_event handle_event
    gather_event-ok capacity e st h v =
        let (a, p) = get_elem?_in_range st.session.dogs e.gatherer_id h in
        let (g, q) =
          get_elem?_in_range st.dogs a
            (All-get_elem? (λ b. b < length st.dogs) st.session.dogs _ v.live p) in
        elim (Bool-cases (not (is_office e.item_type) && not (has existing e.item_id))) [
          | inl skip ↦ rw skip (st, refl, v, refl)
          | inr go ↦ rw (go, p, q) (reach_item-ok e.item_type capacity e a g st (ground arith) v)
        ]

    gather_events-ok :
        (capacity : ℕ) (es : List (GatheringEvent D)) (st : Gathering D)
        → All (λ e. e.gatherer_id < length st.session.dogs) es
        → IsSound existing st
        → (new : Gathering D) × (gather_events existing capacity es st ≡ ok new)
    unfolding gather_events
    gather_events-ok capacity [] st h v = (st, refl)
    gather_events-ok capacity (e ∷ es) st h v =
        let (mid, p, w, same) = gather_event-ok capacity e st h.0 v in
        let (new, q) =
          gather_events-ok capacity es mid
            (subst (λ ds. All (λ (e : GatheringEvent D). e.gatherer_id < length ds) es) (sym same)
              h.1)
            w in
        (new, rw p q)

  has-map :
      (ls : List (Loot D)) (id : ℕ)
      → has (map (λ (l : Loot D). l.id) ls) id ≡ true
      → any_of (λ (l : Loot D). l.id == id) ls ≡ true
  has-map [] id h = cc
  has-map (l ∷ ls) id h = ground (arith, has-map ls id)

  -- If every event names a dog by a place in the session, and the session's pointers are good, the
  -- call ends without an exception, whatever items the events name.
  pub gather_loot-ok :
      (capacity : ℕ) (es : List (GatheringEvent D)) (s : GameSession D) (heap : DogHeap D)
      → All (λ e. e.gatherer_id < length s.dogs) es
      → All (λ a. a < length heap) s.dogs
      → (r : Gathering D) × (gather_loot capacity es s heap ≡ ok r)
  unfolding gather_loot
  gather_loot-ok capacity es s heap h live =
      gather_events-ok (map (λ (l : Loot D). l.id) s.loot) capacity es _ h
        (record { there = λ id k. inr (has-map s.loot id k); live = live })
