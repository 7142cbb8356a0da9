-- ===== src/Serialization/Players.antt =====
-- Players in Game::SaveState and Game::LoadState of src/model.cpp.
use mathlib.Core.List.{append-nil, append_assoc}
use backend_for_browser_game.Base.{
  ℕ, ◌≡◌, refl, sym, ap, ap₂, ◌∙◌, List, [], ◌∷◌, ◌++◌, map, length, get_elem?, Bytes, ok,
  undefined, or_fail, ok-inj, >>=-eq-ok,
}
use backend_for_browser_game.Double.{Double}
use backend_for_browser_game.Model.Dog.{Dog, add_loot}
use backend_for_browser_game.Model.Session.{GameSession, add_dog}
use backend_for_browser_game.Model.Session
use backend_for_browser_game.Model.World.{World, Player, map_at, find_session_by_id}
use backend_for_browser_game.Model.Retire.{dog_at}
use backend_for_browser_game.Serialization.{
  LootRepr, DogRepr, GameSessionRepr, PlayerRepr, Fresh, player_repr, restore_loot, restore_bag,
  restore_dog, restore_dogs, restore_ground, restore_session, restore_player,
}
use backend_for_browser_game.Serialization.Archive.{
  SaveFile, session_reprs, player_reprs, save_state, put_session, load_players, load_sessions,
  load_state,
}

-- Who a player is to clients.
abbrev pub identity : Player → Bytes × ℕ
identity p = (p.token, p.id)

abbrev saved_identity : PlayerRepr → Bytes × ℕ
saved_identity r = (r.token, r.id)

map-last :
    (ps : List Player) (p : Player)
    → map identity (ps ++ (p ∷ [])) ≡ map identity ps ++ (identity p ∷ [])
map-last [] p = refl
map-last (q ∷ ps) p = ap (λ xs. identity q ∷ xs) (map-last ps p)

module _ {D : Type 0} where
  player_reprs_lem :
      (w : World D) (ps : List Player) (rs : List PlayerRepr)
      → player_reprs w ps ≡ ok rs
      → map saved_identity rs ≡ map identity ps
  unfolding player_reprs player_repr
  player_reprs_lem w [] rs h = ap (map saved_identity) (sym (ok-inj h))
  player_reprs_lem w (p ∷ ps) rs h =
      let (r, e, k) = >>=-eq-ok (player_repr w p) _ h in
      let (others, f, l) = >>=-eq-ok (player_reprs w ps) _ k in
      let (a, e₁, h₁) = >>=-eq-ok (or_fail p.session undefined) _ e in
      let (s, e₂, h₂) = >>=-eq-ok (or_fail (get_elem? w.sessions a) undefined) _ h₁ in
      let (g, e₃, h₃) = >>=-eq-ok (dog_at w.dogs p.dog) _ h₂ in
      ap (map saved_identity) (sym (ok-inj l))
      ∙ ap₂ (λ x xs. x ∷ xs) (ap saved_identity (sym (ok-inj h₃))) (player_reprs_lem w ps others f)

  load_players_lem :
      (v v' : World D) (rs : List PlayerRepr)
      → load_players v rs ≡ ok v'
      → map identity v'.players ≡ map identity v.players ++ map saved_identity rs
  unfolding load_players restore_player
  load_players_lem v v' [] h =
      ap (λ (x : World D). map identity x.players) (sym (ok-inj h))
      ∙ sym (append-nil (map identity v.players))
  load_players_lem v v' (r ∷ rs) h =
      let ((p, w), e, k) = >>=-eq-ok (restore_player v r) _ h in
      let (a, e₁, h₁) = >>=-eq-ok (or_fail (find_session_by_id v r.session_id) undefined) _ e in
      let (s, e₂, h₂) = >>=-eq-ok (or_fail (get_elem? v.sessions a) undefined) _ h₁ in
      let same = ok-inj h₂ in
      let one : identity p ≡ saved_identity r =
        ap (λ (x : Player × World D). identity x.0) (sym same) in
      let rest : w.players ≡ v.players = ap (λ (x : Player × World D). x.1.players) (sym same) in
      load_players_lem (record w { players = w.players ++ (p ∷ []) }) v' rs k
      ∙ ap (λ xs. xs ++ map saved_identity rs)
          (ap (λ xs. map identity (xs ++ (p ∷ []))) rest
            ∙ map-last v.players p
            ∙ ap (λ x. map identity v.players ++ (x ∷ [])) one)
      ∙ append_assoc (map identity v.players) (saved_identity r ∷ []) (map saved_identity rs)

module _ {D : Type 0} ⦃d : Double D⦄ where
  restore_bag_players :
      (v : World D) (g : Dog D) (rs : List (LootRepr D))
      → (restore_bag v g rs).1.players ≡ v.players
  unfolding restore_bag restore_loot
  restore_bag_players v g [] = refl
  restore_bag_players v g (r ∷ rs) =
      let (l, v') = restore_loot v r in restore_bag_players v' (add_loot g l) rs

  restore_dogs_players :
      (v : World D) (fresh : ℕ → Fresh) (s : GameSession D) (rs : List (DogRepr D))
      → (restore_dogs v fresh s rs).1.players ≡ v.players
  unfolding restore_dogs restore_dog
  restore_dogs_players v fresh s [] = refl
  restore_dogs_players v fresh s (r ∷ rs) =
      let a = length v.dogs in
      let (g, v') = restore_dog v (fresh a) r in
      restore_dogs_players (record v' { dogs = v'.dogs ++ (g ∷ []) }) fresh (add_dog s a) rs
      ∙ restore_bag_players v _ r.bag

  restore_ground_players :
      (v : World D) (s : GameSession D) (rs : List (LootRepr D))
      → (restore_ground v s rs).1.players ≡ v.players
  unfolding restore_ground restore_loot
  restore_ground_players v s [] = refl
  restore_ground_players v s (r ∷ rs) =
      let (l, v') = restore_loot v r in restore_ground_players v' (Session.add_loot s l) rs

  restore_session_players :
      (v : World D) (fresh : ℕ → Fresh) (r : GameSessionRepr D)
      → (restore_session v fresh r).1.players ≡ v.players
  unfolding restore_session
  restore_session_players v fresh r =
      restore_ground_players _ _ r.loot ∙ restore_dogs_players v fresh _ r.dogs

  load_sessions_players :
      (v v' : World D) (fresh : ℕ → Fresh) (rs : List (GameSessionRepr D))
      → load_sessions v fresh rs ≡ ok v'
      → v'.players ≡ v.players
  unfolding load_sessions put_session
  load_sessions_players v v' fresh [] h = ap (λ (x : World D). x.players) (sym (ok-inj h))
  load_sessions_players v v' fresh (r ∷ rs) h =
      let (s, w) = restore_session v fresh r in
      let (m, e, k) = >>=-eq-ok (map_at w.game s.map) _ h in
      load_sessions_players (put_session w m.id s) v' fresh rs k ∙ restore_session_players v fresh r

  -- If a state can be saved, and what is saved can be loaded into a server, then the players that were
  -- saved come behind the server's players, in their order, each with its token and its id.
  pub load_state-save_state :
      (w v v' : World D) (fresh : ℕ → Fresh) (f : SaveFile D)
      → save_state w ≡ ok f
      → load_state v fresh f ≡ ok v'
      → map identity v'.players ≡ map identity v.players ++ map identity w.players
  unfolding save_state load_state
  load_state-save_state w v v' fresh f h k =
      let (ss, e₁, h₁) = >>=-eq-ok (session_reprs w w.game.sessions) _ h in
      let (ps, e₂, h₂) = >>=-eq-ok (player_reprs w w.players) _ h₁ in
      let (mid, e₃, h₃) = >>=-eq-ok (load_sessions _ fresh f.sessions) _ k in
      let saved : f.players ≡ ps = ap (λ (x : SaveFile D). x.players) (sym (ok-inj h₂)) in
      load_players_lem mid v' f.players h₃
      ∙ ap₂ (λ ps rs. map identity ps ++ map saved_identity rs)
          (load_sessions_players _ mid fresh f.sessions e₃) saved
      ∙ ap (λ xs. map identity v.players ++ xs) (player_reprs_lem w w.players ps e₂)
