-- ===== src/Server/Shrink.antt =====
-- Sessions in the operations of src/model.cpp and src/application.cpp: none of them but joining adds a
-- dog to a session, and none changes the map of one.
use backend_for_browser_game.Base.{
  ℕ, zero, suc, ◌+◌, ◌==◌, ◌≡◌, refl, sym, ◌∙◌, subst, inl, inr, Bool, true, List, [], ◌∷◌, map,
  get_elem?, get_elem?-set, set, copy_if, find_if, erase_first, invalid_argument, not, ltb, Option,
  none, some, ok, undefined, or_fail, or_fail-eq-ok, >>=-eq-ok, arith, Bool-cases,
}
use backend_for_browser_game.Double.{Double}
use backend_for_browser_game.Collision.{GatheringEvent, ItemType, loot, office}
use backend_for_browser_game.Model.GameMap.{GameMap, get_random_point_on_road, get_loot_value}
use backend_for_browser_game.Model.Loot.{Loot}
use backend_for_browser_game.Model.Dog.{Dog, get_loot_count_in_bag}
use backend_for_browser_game.Model.Session.{GameSession, DogHeap, has_id}
use backend_for_browser_game.Model.Session
use backend_for_browser_game.Model.World.{World, Player}
use backend_for_browser_game.Model.Spawn.{Draws, get_random_id, spawn_loot}
use backend_for_browser_game.Model.Gather.{Gathering, has, reach_item, take_loot, gather_loot}
use backend_for_browser_game.Model.Gather.Steps.{gather_events_keep}
use backend_for_browser_game.Model.Retire.{
  Round, retire_dog_lem, take_player, leave_session, drop_player, remove_player_from_game_by_dog_id,
  retire_dog, retire_dogs, is_inactive, sweep, remove_inactive_dogs,
}

has-copy_if : (p : ℕ → Bool) (xs : List ℕ) (b : ℕ) → has (copy_if p xs) b ≡ true → has xs b ≡ true
has-copy_if p [] b h = h
has-copy_if p (x ∷ xs) b h = ground (arith, has-copy_if p xs b)

has-erase_first :
    (p : ℕ → Bool) (xs : List ℕ) (b : ℕ) → has (erase_first p xs) b ≡ true → has xs b ≡ true
has-erase_first p [] b h = h
has-erase_first p (x ∷ xs) b h = ground (arith, has-erase_first p xs b)

module _ {D : Type 0} where
  -- A session that has its map still, and no new dogs.
  pub record Within (s s' : GameSession D) : Type 0 where
    pub same_map : s'.map ≡ s.map
    pub no_more : (b : ℕ) → has s'.dogs b ≡ true → has s.dogs b ≡ true

  pub Within-refl : (s : GameSession D) → Within s s
  Within-refl s = record { same_map = refl; no_more = λ b h. h }

  pub Within-trans : (s t u : GameSession D) → Within s t → Within t u → Within s u
  Within-trans s t u f g = record {
    same_map = g.same_map ∙ f.same_map;
    no_more = λ b h. f.no_more b (g.no_more b h);
  }

  -- The same addresses hold sessions, each within the one before.
  pub record Shrinks (old new : List (GameSession D)) : Type 0 where
    pub forth :
        (a : ℕ) (s : GameSession D)
        → get_elem? old a ≡ some s
        → (s' : GameSession D) × (get_elem? new a ≡ some s') × Within s s'
    pub back :
        (a : ℕ) (s' : GameSession D)
        → get_elem? new a ≡ some s'
        → (s : GameSession D) × (get_elem? old a ≡ some s) × Within s s'

  pub Shrinks-refl : (ss : List (GameSession D)) → Shrinks ss ss
  Shrinks-refl ss = record {
    forth = λ a s e. (s, e, Within-refl s);
    back = λ a s e. (s, e, Within-refl s);
  }

  pub Shrinks-trans :
      (ss ts us : List (GameSession D)) → Shrinks ss ts → Shrinks ts us → Shrinks ss us
  Shrinks-trans ss ts us f g = record {
    forth = λ a s e.
        let (t, e', v) = f.forth a s e in
        let (u, e'', w) = g.forth a t e' in (u, e'', Within-trans s t u v w);
    back = λ a u e.
        let (t, e', w) = g.back a u e in
        let (s, e'', v) = f.back a t e' in (s, e'', Within-trans s t u v w);
  }

  pub set-Shrinks :
      (ss : List (GameSession D)) (a : ℕ) (s s' : GameSession D)
      → get_elem? ss a ≡ some s
      → Within s s'
      → Shrinks ss (set ss a s')
  set-Shrinks ss a s s' at v = record { forth = forward; back = backward }
    where
      forward :
          (b : ℕ) (t : GameSession D)
          → get_elem? ss b ≡ some t
          → (t' : GameSession D) × (get_elem? (set ss a s') b ≡ some t') × Within t t'
      forward b t e =
          let r = get_elem?-set ss a b s' at in
          elim (Bool-cases (a == b)) [
            | inl hit ↦
                let same : s ≡ t = ground (arith, e, at, hit) in
                (s', r ∙ rw hit, subst (λ x. Within x s') same v)
            | inr miss ↦ (t, r ∙ rw miss e, Within-refl t)
          ]

      backward :
          (b : ℕ) (t' : GameSession D)
          → get_elem? (set ss a s') b ≡ some t'
          → (t : GameSession D) × (get_elem? ss b ≡ some t) × Within t t'
      backward b t' e =
          let r = get_elem?-set ss a b s' at in
          elim (Bool-cases (a == b)) [
            | inl hit ↦
                let same : s' ≡ t' = ground (arith, sym r ∙ e, hit) in
                (s, ground (arith, at, hit), subst (Within s) same v)
            | inr miss ↦ (t', ground (arith, sym r ∙ e, miss), Within-refl t')
          ]

  take_loot-Within :
      (s : GameSession D) (capacity : ℕ) (e : GatheringEvent D) (a : ℕ) (g : Dog D)
      (st new : Gathering D)
      → take_loot capacity e a g st ≡ ok new
      → Within s st.session
      → Within s new.session
  unfolding take_loot Session.gather_loot
  take_loot-Within s capacity e a g st new h v = elim (Bool-cases (has st.collected e.item_id)) [
    | inl old ↦
        let same : st ≡ new = ground (arith, rw old at h) in
        subst (λ (x : Gathering D). Within s x.session) same v
    | inr fresh ↦ elim (Bool-cases (ltb (get_loot_count_in_bag g) capacity)) [
      | inl room ↦
          let ((l, t), p, q) =
            >>=-eq-ok (Session.gather_loot st.session e.item_id) _ (rw (fresh, room) at h) in
          let (k, i, j) =
            >>=-eq-ok
              (or_fail (find_if (λ (l : Loot D). l.id == e.item_id) st.session.loot)
                invalid_argument)
              _ p in
          let kept : new.session.map ≡ st.session.map = ground (arith, j, q) in
          let dogs : new.session.dogs ≡ st.session.dogs = ground (arith, j, q) in
          record {
            same_map = kept ∙ v.same_map;
            no_more = λ b w. v.no_more b (subst (λ x. has x b ≡ true) dogs w);
          }
      | inr full ↦
          let same : st ≡ new = ground (arith, rw (fresh, full) at h) in
          subst (λ (x : Gathering D). Within s x.session) same v
    ]
  ]

  reach_item-Within :
      (s : GameSession D) (i : ItemType) (capacity : ℕ) (e : GatheringEvent D) (a : ℕ) (g : Dog D)
      (st new : Gathering D)
      → reach_item i capacity e a g st ≡ ok new
      → Within s st.session
      → Within s new.session
  unfolding reach_item
  reach_item-Within s office capacity e a g st new h v =
      let same : st.session ≡ new.session = ground (arith, h) in subst (Within s) same v
  reach_item-Within s loot capacity e a g st new h v = take_loot-Within s capacity e a g st new h v

  pub gather_loot-Within :
      (capacity : ℕ) (es : List (GatheringEvent D)) (s : GameSession D) (heap : DogHeap D)
      (r : Gathering D)
      → gather_loot capacity es s heap ≡ ok r
      → Within s r.session
  unfolding gather_loot
  gather_loot-Within capacity es s heap r h =
      gather_events_keep (λ st. Within s st.session) capacity
        (λ e a g st new at k v. reach_item-Within s e.item_type capacity e a g st new k v)
        (map (λ (l : Loot D). l.id) s.loot) es _ r h (Within-refl s)

  remove_dog-Within :
      (heap : DogHeap D) (s : GameSession D) (id : ℕ) → Within s (Session.remove_dog heap s id)
  unfolding Session.remove_dog
  remove_dog-Within heap s id = record {
    same_map = refl;
    no_more = has-erase_first (has_id heap id) s.dogs;
  }

  leave_session-Shrinks :
      (w : World D) (id : ℕ) (at : Option ℕ) (ss : List (GameSession D))
      → leave_session w id at ≡ ok ss
      → Shrinks w.sessions ss
  unfolding leave_session
  leave_session-Shrinks w id none ss h = cc
  leave_session-Shrinks w id (some a) ss h =
      let (s, p, q) = >>=-eq-ok (or_fail (get_elem? w.sessions a) undefined) _ h in
      let same : set w.sessions a (Session.remove_dog w.dogs s id) ≡ ss = ground (arith, q) in
      subst (Shrinks w.sessions) same
        (set-Shrinks w.sessions a s _ (or_fail-eq-ok _ undefined p) (remove_dog-Within w.dogs s id))

  drop_player-Shrinks :
      (w w' : World D) (id : ℕ) (found : Option Player × List Player)
      → drop_player w id found ≡ ok w'
      → Shrinks w.sessions w'.sessions
  unfolding drop_player
  drop_player-Shrinks w w' id (none, ps) h =
      let same : w ≡ w' = ground (arith, h) in
      subst (λ (x : World D). Shrinks w.sessions x.sessions) same (Shrinks-refl w.sessions)
  drop_player-Shrinks w w' id (some p, ps) h =
      let (ss, q, r) = >>=-eq-ok (leave_session w id p.session) _ h in
      let same : ss ≡ w'.sessions = ground (arith, r) in
      subst (Shrinks w.sessions) same (leave_session-Shrinks w id p.session ss q)

  retire_dogs-Shrinks :
      (w w' : World D) (clock : ℕ → Round) (k : ℕ) (dogs : List ℕ)
      → retire_dogs w clock k dogs ≡ ok w'
      → Shrinks w.sessions w'.sessions
  unfolding retire_dogs remove_player_from_game_by_dog_id
  retire_dogs-Shrinks w w' clock k [] h =
      let same : w ≡ w' = ground (arith, h) in
      subst (λ (x : World D). Shrinks w.sessions x.sessions) same (Shrinks-refl w.sessions)
  retire_dogs-Shrinks w w' clock k (a ∷ rest) h =
      let (mid, p, q) = >>=-eq-ok (retire_dog w (clock k) a) _ h in
      let (g, r, t) = retire_dog_lem w mid (clock k) a p in
      let (found, u, v) = >>=-eq-ok (take_player w.dogs g.id w.players) _ t in
      Shrinks-trans w.sessions mid.sessions w'.sessions (drop_player-Shrinks _ mid g.id found v)
        (retire_dogs-Shrinks mid w' clock (k + 1) rest q)

module _ {D : Type 0} ⦃d : Double D⦄ where
  pub remove_inactive_dogs-Shrinks :
      (w w' : World D) (clock : ℕ → Round) (a : ℕ)
      → remove_inactive_dogs w clock a ≡ ok w'
      → Shrinks w.sessions w'.sessions
  unfolding remove_inactive_dogs sweep
  remove_inactive_dogs-Shrinks w w' clock a h =
      let limit = w.game.dog_retirement_time_seconds in
      let (s, p, q) = >>=-eq-ok (or_fail (get_elem? w.sessions a) undefined) _ h in
      let old = copy_if (is_inactive limit w.dogs) s.dogs in
      let (mid, r, t) = >>=-eq-ok (retire_dogs w clock 0 old) _ q in
      let (s', f, v) = >>=-eq-ok (or_fail (get_elem? mid.sessions a) undefined) _ t in
      let same : (sweep limit mid a s').sessions ≡ w'.sessions = ground (arith, v) in
      Shrinks-trans w.sessions mid.sessions w'.sessions (retire_dogs-Shrinks w mid clock 0 old r) (
        subst (Shrinks mid.sessions) same (
          set-Shrinks mid.sessions a s' _ (or_fail-eq-ok _ undefined f) (record {
            same_map = refl;
            no_more = has-copy_if (λ x. not (is_inactive limit mid.dogs x)) s'.dogs;
          })))

  -- Loot that appears changes neither map nor dogs.
  pub spawn_loot-Within :
      (m : GameMap D) (draws : Draws) (k n : ℕ) (s : GameSession D) (counter : ℕ)
      (r : GameSession D × ℕ)
      → spawn_loot m draws k n s counter ≡ ok r
      → Within s r.0
  unfolding spawn_loot Session.add_loot
  spawn_loot-Within m draws k zero s counter r h =
      let same : s ≡ r.0 = ground (arith, h) in subst (Within s) same (Within-refl s)
  spawn_loot-Within m draws k (suc n) s counter r h =
      let (point, e₁, h₁) = >>=-eq-ok (get_random_point_on_road m _ _ _) _ h in
      let (kind, e₂, h₂) = >>=-eq-ok (get_random_id _ _) _ h₁ in
      let (value, e₃, h₃) = >>=-eq-ok (get_loot_value m _) _ h₂ in
      let v = spawn_loot-Within m draws (k + 4) n _ _ r h₃ in
      record { same_map = v.same_map; no_more = v.no_more }
