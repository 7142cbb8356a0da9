-- ===== src/Server/Joining.antt =====
-- JoinGameUseCase::execute of src/application.cpp and Player::MakeAction, for the dogs of all sessions.
use backend_for_browser_game.Base.{
  get_elem?-append, get_elem?_last, get_elem?-lt, get_elem?-append-cases, str_eq-eq, ℕ, ℤ, ◌==◌,
  ==_iff, ◌≡◌, refl, sym, ap, ◌∙◌, subst, ◌⊎◌, inl, inr, true, false, List, [], ◌∷◌, ◌++◌, length,
  get_elem?, get_elem?-set, set, str_eq, Bytes, Option, some, none, ok, undefined, or_fail,
  or_fail-eq-ok, ok-inj, >>=-eq-ok, arith, Bool-cases, Option-cases, if◌then◌else◌,
}
use backend_for_browser_game.Double.{Double, IsIeee}
use backend_for_browser_game.Geom.{Point2D}
use backend_for_browser_game.Model.GameMap.{GameMap}
use backend_for_browser_game.Model.GameMap.RandomPoint.{as_point_2d}
use backend_for_browser_game.Model.Dog.{Dog, new_dog, set_join_time}
use backend_for_browser_game.Model.Session.{GameSession, DogHeap, new_session}
use backend_for_browser_game.Model.Session
use backend_for_browser_game.Model.World.{
  World, Player, find_map, map_at, table_find, session_for, add_dog_to_session, get_current_time,
}
use backend_for_browser_game.Model.Movement.OnRoad.{on_some_road}
use backend_for_browser_game.Model.Movement.Heading.{IsPlaced, IsPlacedAt, set-IsPlacedAt}
use backend_for_browser_game.Model.Gather.{has}
use backend_for_browser_game.Model.Retire.{dog_at}
use backend_for_browser_game.Application.{
  Chance, spawn_point, enter, join_game, make_action, session_at, set_dog, steer, add_player,
}
use backend_for_browser_game.Application.Actions.{steer-IsPlaced, spawn_point-on_road}
use backend_for_browser_game.Server.Shrink.{Within-refl, Shrinks-refl}
use backend_for_browser_game.Server.Sound.{
  IsFine, IsSound, IsHosted, IsHosted-move, SameTables-refl, StaysHome, move-IsSound,
}

has-append-last :
    (xs : List ℕ) (a b : ℕ) → has (xs ++ (a ∷ [])) b ≡ true → (has xs b ≡ true) ⊎ ((a == b) ≡ true)
has-append-last [] a b h = ground arith
has-append-last (x ∷ xs) a b h = ground (arith, has-append-last xs a b)

module _ {D : Type 0} ⦃d : Double D⦄ (laws : IsIeee D) where
  make_action-StaysHome :
      (home : ℕ → ℕ) (w : World D) (a : ℕ) (g : Dog D) (speed : D) (move : Bytes) (m : GameMap D)
      → IsFine m
      → get_elem? w.dogs a ≡ some g
      → StaysHome home w (set w.dogs a (steer m.dog_speed move g))
  make_action-StaysHome home w a g speed move m v at n b e (old, f, on) =
      elim (Bool-cases (a == b)) [
        | inl hit ↦
            let same : old ≡ g = ground (arith, f, at, hit) in
            let turned =
              steer-IsPlaced laws n.road_rtree m.dog_speed move g v.speed_low v.speed_finite
                (subst (IsPlaced n.road_rtree) same on) in
            set-IsPlacedAt n.road_rtree w.dogs a b g _ at turned (old, f, on)
        | inr miss ↦ (old, get_elem?-set w.dogs a b _ at ∙ rw miss f, on)
      ]

  -- An action that ends without an exception.
  pub make_action-IsSound :
      (home : ℕ → ℕ) (w w' : World D) (p : Player) (move : Bytes)
      → make_action w p move ≡ ok w'
      → IsSound home w
      → IsSound home w'
  unfolding make_action map_at
  make_action-IsSound home w w' p move h v =
      let (s, e₁, h₁) = >>=-eq-ok (session_at w p.session) _ h in
      let (m, e₂, h₂) = >>=-eq-ok (map_at w.game s.map) _ h₁ in
      let (g, e₃, h₃) = >>=-eq-ok (dog_at w.dogs p.dog) _ h₂ in pointed s.map p.dog m g e₂ e₃ h₃
    where
      pointed :
          (k : Option ℕ) (a : Option ℕ) (m : GameMap D) (g : Dog D)
          → map_at w.game k ≡ ok m
          → dog_at w.dogs a ≡ ok g
          → ok (set_dog w a (steer m.dog_speed move g)) ≡ ok w'
          → IsSound home w'
      pointed none a m g e f q = cc
      pointed (some k) none m g e f q = cc
      pointed (some k) (some a) m g e f q =
          let fine = v.fine k m (or_fail-eq-ok _ undefined e) in
          let at = or_fail-eq-ok (get_elem? w.dogs a) undefined f in
          let same : record w { dogs = set w.dogs a (steer m.dog_speed move g) } ≡ w' =
            ground (arith, q) in
          subst (IsSound home) same (
            move-IsSound home w _ (SameTables-refl w.game) (Shrinks-refl w.sessions)
              (make_action-StaysHome home w a g m.dog_speed move m fine at) v)

  -- A dog that is new on the heap, and whose home is the map at `k`.
  abbrev pub settle : (ℕ → ℕ) → ℕ → ℕ → ℕ → ℕ
  settle home a k b = if b == a then k else home b

  add_dog-IsSound :
      (home : ℕ → ℕ) (w : World D) (g : Dog D) (counter k : ℕ)
      → IsSound home w
      → IsSound
          (settle home (length w.dogs) k)
          (record w { dogs = w.dogs ++ (g ∷ []); dog_counter = counter })
  add_dog-IsSound home w g counter k v = record {
    fine = v.fine;
    hosted = λ a s e.
        let host = v.hosted a s e in
        record {
          place = host.place;
          ground_map = host.ground_map;
          has_place = host.has_place;
          at_place = host.at_place;
          settled = λ b h.
              let (at, (old, f, on)) = host.settled b h in
              let low = get_elem?-lt w.dogs b f in
              let miss : (b == length w.dogs) ≡ false = ground (arith, low) in
              (rw miss at, (old, get_elem?-append w.dogs (g ∷ []) b f, on));
        };
    listed = v.listed;
  }

  -- The session of the map is there, or is made.
  session_for-IsSound :
      (home : ℕ → ℕ) (w : World D) (map_id : Bytes) (k : ℕ) (m : GameMap D)
      → find_map w.game map_id ≡ some k
      → get_elem? w.game.maps k ≡ some m
      → IsSound home w
      → let (a, w') = session_for w map_id in
        IsSound home w'
        × ((s : GameSession D) × (get_elem? w'.sessions a ≡ some s) × (s.map ≡ some k))
        × (w'.dogs ≡ w.dogs)
        × (w'.game.maps ≡ w.game.maps)
  unfolding session_for new_session find_map
  session_for-IsSound home w map_id k m found at v =
      elim (Option-cases (table_find w.game.sessions map_id)) [
        | inr (a, e) ↦
            let (s, f, on) = v.listed map_id a e in
            rw (e, session_for) (v, (s, f, on ∙ found), refl, refl)
        | inl e ↦
            rw (e, session_for) (made, (fresh, get_elem?_last w.sessions fresh, found), refl, refl)
      ]
    where
      fresh : GameSession D
      fresh = (new_session {D = D} w.session_counter (find_map w.game map_id)).0

      after : World D
      after = record w {
        game = record (w.game) { sessions = (map_id, length w.sessions) ∷ w.game.sessions };
        sessions = w.sessions ++ (fresh ∷ []);
        session_counter = (new_session {D = D} w.session_counter (find_map w.game map_id)).1;
      }

      made : IsSound home after
      made = record {
        fine = v.fine;
        hosted = λ a s e. elim (get_elem?-append-cases w.sessions fresh a e) [
          | inl old ↦
              IsHosted-move home w after s s refl (Within-refl s) (λ n b f on. on)
                (v.hosted a s old)
          | inr (f, same) ↦ record {
            place = k;
            ground_map = m;
            has_place = ground (arith, same, found);
            at_place = at;
            settled = λ b h. absurd (ground (arith, same, h));
          }
        ];
        listed = λ id a e. elim (Bool-cases (str_eq map_id id)) [
          | inl hit ↦
              let same = str_eq-eq map_id id hit in
              let here : length w.sessions ≡ a = ground (arith, rw hit at e) in
              (
                fresh,
                subst (λ i. get_elem? after.sessions i ≡ some fresh) here
                    (get_elem?_last w.sessions fresh),
                ap (λ i. table_find w.game.map_id_to_index i) same,
              )
          | inr miss ↦
              let (s, f, on) = v.listed id a (rw miss at e) in
              (s, get_elem?-append w.sessions (fresh ∷ []) a f, on)
        ];
      }

  -- A session takes a dog that is at home on its map.
  welcome-IsSound :
      (home : ℕ → ℕ) (w : World D) (a dog k : ℕ) (s : GameSession D) (m : GameMap D)
      → get_elem? w.sessions a ≡ some s
      → s.map ≡ some k
      → get_elem? w.game.maps k ≡ some m
      → (home dog ≡ k) × IsPlacedAt m.road_rtree w.dogs dog
      → IsSound home w
      → IsSound home (record w { sessions = set w.sessions a (Session.add_dog s dog) })
  unfolding Session.add_dog
  welcome-IsSound home w a dog k s m at on maps ready v = record {
    fine = v.fine;
    hosted = hosted_in;
    listed = λ id i e.
        let (t, f, g) = v.listed id i e in
        let r = get_elem?-set w.sessions a i (Session.add_dog s dog) at in
        elim (Bool-cases (a == i)) [
          | inl hit ↦
              let same : s ≡ t = ground (arith, at, f, hit) in
              (Session.add_dog s dog, r ∙ rw hit, ap (λ (x : GameSession D). x.map) same ∙ g)
          | inr miss ↦ (t, r ∙ rw miss f, g)
        ];
  }
    where
      more : GameSession D
      more = record s { dogs = s.dogs ++ (dog ∷ []) }

      after : World D
      after = record w { sessions = set w.sessions a more }

      grown : IsHosted home after more
      grown = record {
        place = k;
        ground_map = m;
        has_place = on;
        at_place = maps;
        settled = λ b h. elim (has-append-last s.dogs dog b h) [
          | inl old ↦
              let host = v.hosted a s at in
              let same : host.place ≡ k = ground (arith, host.has_place, on) in
              let (x, y) = host.settled b old in
              let same_ground : host.ground_map ≡ m = ground (arith, host.at_place, same, maps) in
              (x ∙ same, subst (λ (n : GameMap D). IsPlacedAt n.road_rtree w.dogs b) same_ground y)
          | inr new ↦
              subst (λ c. (home c ≡ k) × IsPlacedAt m.road_rtree w.dogs c) ((==_iff dog b).0 new)
                ready
        ];
      }

      hosted_in :
          (i : ℕ) (t : GameSession D)
          → get_elem? (set w.sessions a more) i ≡ some t
          → IsHosted home after t
      hosted_in i t e =
          let r = get_elem?-set w.sessions a i more at in
          elim (Bool-cases (a == i)) [
            | inl hit ↦
                let same : more ≡ t = ground (arith, sym r ∙ e, hit) in
                subst (IsHosted home after) same grown
            | inr miss ↦
                IsHosted-move home w after t t refl (Within-refl t) (λ n b f on. on)
                  (v.hosted i t (ground (arith, sym r ∙ e, miss)))
          ]

  -- A dog as it is made stands still, wherever it is put.
  new_dog-IsPlaced :
      (m : GameMap D) (counter : ℕ) (uuid : Bytes) (garbage now : ℤ) (name : Bytes)
      (place : Point2D D)
      → on_some_road m.road_rtree place ≡ true
      → IsPlaced m.road_rtree (set_join_time (new_dog counter uuid garbage name place).0 now)
  unfolding new_dog set_join_time
  new_dog-IsPlaced m counter uuid garbage now name place h =
      let (low, fin) = laws.decimal_nonneg 0 0 in
      record { on_road = h; finite_x = fin; finite_y = fin; faces = low }

  enter-IsSound :
      (home : ℕ → ℕ) (w w' : World D) (p : Player) (name map_id : Bytes) (c : Chance)
      (place : Point2D D) (k : ℕ) (m : GameMap D)
      → find_map w.game map_id ≡ some k
      → get_elem? w.game.maps k ≡ some m
      → on_some_road m.road_rtree place ≡ true
      → enter w name map_id c place ≡ ok (w', p)
      → IsSound home w
      → IsSound (settle home (length w.dogs) k) w'
  unfolding enter add_dog_to_session add_player
  enter-IsSound home w w' p name map_id c place k m found at road h v =
      let (g, counter) = new_dog w.dog_counter c.uuid c.garbage name place in
      let joined = set_join_time g (get_current_time w.game c.now) in
      let dog = length w.dogs in
      let home' = settle home dog k in
      let w₁ : World D = record w { dogs = w.dogs ++ (joined ∷ []); dog_counter = counter } in
      let (r, e₁, h₁) = >>=-eq-ok (add_dog_to_session w₁ dog map_id) _ h in
      let (a, w₂) = session_for w₁ map_id in
      let (s, e₂, h₂) = >>=-eq-ok (or_fail (get_elem? w₂.sessions a) undefined) _ e₁ in
      let (sound, (t, f, on), dogs, maps) =
        session_for-IsSound home' w₁ map_id k m found at
          (add_dog-IsSound home w joined counter k v) in
      let same : t ≡ s = ground (arith, f, or_fail-eq-ok _ undefined e₂) in
      let ready : IsPlacedAt m.road_rtree w₁.dogs dog = (
        joined,
        get_elem?_last w.dogs joined,
        new_dog-IsPlaced m w.dog_counter c.uuid c.garbage (get_current_time w.game c.now) name place
            road,
      ) in
      let hit : (dog == dog) ≡ true = ground arith in
      let done =
        welcome-IsSound home' w₂ a dog k s m (or_fail-eq-ok _ undefined e₂)
          (subst (λ (x : GameSession D). x.map ≡ some k) same on) (rw maps at)
          (rw hit refl, subst (λ heap. IsPlacedAt m.road_rtree heap dog) (sym dogs) ready) sound in
      let welcomed = subst (λ (x : World D × ℕ). IsSound home' x.0) (ok-inj h₂) done in
      subst (λ (x : World D × Player). IsSound home' x.0) (ok-inj h₁)
        (move-IsSound home' r.0 (add_player r.0 c.token r.1 dog).0 (SameTables-refl r.0.game)
          (Shrinks-refl r.0.sessions) (λ n b x y. y) welcomed)

  -- A join that ends without an exception: each dog has a home still.
  pub join_game-IsSound :
      (home : ℕ → ℕ) (w w' : World D) (p : Player) (name map_id : Bytes) (c : Chance)
      → join_game w name map_id c ≡ ok (w', p)
      → IsSound home w
      → (home' : ℕ → ℕ) × IsSound home' w'
  unfolding join_game map_at
  join_game-IsSound home w w' p name map_id c h v =
      let (m, e₁, h₁) = >>=-eq-ok (map_at w.game (find_map w.game map_id)) _ h in
      let (q, e₂, h₂) = >>=-eq-ok (spawn_point w.game.dog_spawn_mode m c) _ h₁ in
      elim (Option-cases (find_map w.game map_id)) [
        | inl none_there ↦ absurd (ground (arith, rw (none_there, map_at) at e₁))
        | inr (k, found) ↦
            let at = or_fail-eq-ok _ undefined (rw (found, map_at) at e₁) in
            let fine = v.fine k m at in
            (
              settle home (length w.dogs) k,
              enter-IsSound home w w' p name map_id c (as_point_2d q) k m found at
                  (spawn_point-on_road laws m w.game.dog_spawn_mode c q fine.straight fine.indexed
                    e₂)
                  h₂ v,
            )
      ]
