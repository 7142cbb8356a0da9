-- ===== src/Model/Retire/Records.antt =====
-- RemoveInactiveDogs of src/model.cpp and the records that it saves.
use mathlib.Core.List.{append-nil, append_assoc}
use backend_for_browser_game.Base.{
  ℕ, ◌+◌, ◌≡◌, refl, sym, ◌∙◌, subst, ap₂, List, [], ◌∷◌, ◌++◌, get_elem?, copy_if, Option, some,
  none, ok, undefined, or_fail, >>=-eq-ok, arith,
}
use backend_for_browser_game.Double.{Double}
use backend_for_browser_game.Model.Dog.{Dog}
use backend_for_browser_game.Model.Session.{GameSession, DogHeap}
use backend_for_browser_game.Model.World.{World, Game, Player, PlayerRecord, get_current_time}
use backend_for_browser_game.Model.Retire.{
  Round, retire_dog_lem, take_player, leave_session, drop_player, remove_player_from_game_by_dog_id,
  record_of, retire_dog, retire_dogs, is_inactive, sweep, remove_inactive_dogs,
}

module _ {D : Type 0} where
  -- The records of the dogs at some addresses, at the times that the clock shows.
  abbrev pub records_of : Game D → DogHeap D → (ℕ → Round) → ℕ → List ℕ → List PlayerRecord
  records_of game heap clock k [] = []
  records_of game heap clock k (a ∷ rest) =
      let later = records_of game heap clock (k + 1) rest in
      elim (get_elem? heap a) [
        | none ↦ later
        | some g ↦ record_of g (get_current_time game (clock k).now) ∷ later
      ]

  pub record Saved (w w' : World D) (new : List PlayerRecord) : Type 0 where
    pub same_game : w'.game ≡ w.game
    pub same_dogs : w'.dogs ≡ w.dogs
    pub saved : w'.records ≡ w.records ++ new

  drop_player-Saved :
      (w w' : World D) (id : ℕ) (found : Option Player × List Player)
      → drop_player w id found ≡ ok w'
      → Saved w w' []
  unfolding drop_player
  drop_player-Saved w w' id (none, ps) h =
      let same : w ≡ w' = ground arith in
      subst (λ x. Saved w x []) same
        (record { same_game = refl; same_dogs = refl; saved = sym (append-nil w.records) })
  drop_player-Saved w w' id (some p, ps) h =
      let (ss, q, r) = >>=-eq-ok (leave_session w id p.session) _ h in
      let same : record w { sessions = ss; players = ps } ≡ w' = ground (arith, r) in
      subst (λ x. Saved w x []) same
        (record { same_game = refl; same_dogs = refl; saved = sym (append-nil w.records) })

  retire_dog-Saved :
      (w w' : World D) (round : Round) (a : ℕ)
      → retire_dog w round a ≡ ok w'
      → (g : Dog D) × (get_elem? w.dogs a ≡ some g)
        × Saved w w' (record_of g (get_current_time w.game round.now) ∷ [])
  unfolding remove_player_from_game_by_dog_id
  retire_dog-Saved w w' round a h =
      let (g, at, q) = retire_dog_lem w w' round a h in
      let new = record_of g (get_current_time w.game round.now) in
      let saved : World D = record w { records = w.records ++ (new ∷ []) } in
      let (found, r, s) =
        >>=-eq-ok (take_player w.dogs g.id w.players) (drop_player saved g.id) q in
      let kept = drop_player-Saved saved w' g.id found s in
      (
        g,
        at,
        record {
          same_game = kept.same_game;
          same_dogs = kept.same_dogs;
          saved = kept.saved ∙ append-nil (w.records ++ (new ∷ []));
        },
      )

  pub retire_dogs-Saved :
      (w w' : World D) (clock : ℕ → Round) (k : ℕ) (dogs : List ℕ)
      → retire_dogs w clock k dogs ≡ ok w'
      → Saved w w' (records_of w.game w.dogs clock k dogs)
  unfolding retire_dogs
  retire_dogs-Saved w w' clock k [] h =
      let same : w ≡ w' = ground arith in
      subst (λ x. Saved w x []) same
        (record { same_game = refl; same_dogs = refl; saved = sym (append-nil w.records) })
  retire_dogs-Saved w w' clock k (a ∷ rest) h =
      let (mid, p, q) = >>=-eq-ok (retire_dog w (clock k) a) _ h in
      let (g, at, first) = retire_dog-Saved w mid (clock k) a p in
      let later = retire_dogs-Saved mid w' clock (k + 1) rest q in
      let new = record_of g (get_current_time w.game (clock k).now) in
      rw (at, records_of)
        (record {
          same_game = later.same_game ∙ first.same_game;
          same_dogs = later.same_dogs ∙ first.same_dogs;
          saved =
              later.saved
              ∙ ap₂ ◌++◌ first.saved
                  (ap₂ (λ g h. records_of g h clock (k + 1) rest) first.same_game first.same_dogs)
              ∙ append_assoc w.records (new ∷ []) _;
        })

module _ {D : Type 0} ⦃d : Double D⦄ where
  -- The call saves a record for each dog of the session that is inactive, in their order, and no other;
  -- a record has the dog's score, and its time from joining to now.
  pub remove_inactive_dogs-records :
      (w w' : World D) (clock : ℕ → Round) (a : ℕ) (s : GameSession D)
      → get_elem? w.sessions a ≡ some s
      → remove_inactive_dogs w clock a ≡ ok w'
      → let retired = copy_if (is_inactive w.game.dog_retirement_time_seconds w.dogs) s.dogs in
        w'.records ≡ w.records ++ records_of w.game w.dogs clock 0 retired
  unfolding remove_inactive_dogs sweep
  remove_inactive_dogs-records w w' clock a s at h =
      let limit = w.game.dog_retirement_time_seconds in
      let old = copy_if (is_inactive limit w.dogs) s.dogs in
      let (mid, r, t) = >>=-eq-ok (retire_dogs w clock 0 old) _ (rw at at h) in
      let (s', f, v) = >>=-eq-ok (or_fail (get_elem? mid.sessions a) undefined) _ t in
      let same : mid.records ≡ w'.records = ground (arith, v) in
      sym same ∙ (retire_dogs-Saved w mid clock 0 old r).saved
