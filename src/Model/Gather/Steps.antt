-- ===== src/Model/Gather/Steps.antt =====
-- Induction over the loop of GatherLoot of src/model.cpp.
use backend_for_browser_game.Base.{
  ℕ, ◌≡◌, subst, inl, inr, not, ◌&&◌, List, [], ◌∷◌, get_elem?, some, ok, undefined, or_fail,
  or_fail-eq-ok, >>=-eq-ok, arith, Bool-cases,
}
use backend_for_browser_game.Collision.{GatheringEvent}
use backend_for_browser_game.Model.Dog.{Dog}
use backend_for_browser_game.Model.Gather.{
  Gathering, has, is_office, reach_item, handle_event, gather_event, gather_events,
}

module _ {D : Type 0} (P : Gathering D → Type 0) (capacity : ℕ)
    (keep : (e : GatheringEvent D) (a : ℕ) (g : Dog D) (st new : Gathering D)
      → get_elem? st.dogs a ≡ some g
      → reach_item e.item_type capacity e a g st ≡ ok new
      → P st
      → P new) where
  handle_event_keeps :
      (e : GatheringEvent D) (st new : Gathering D)
      → handle_event capacity e st ≡ ok new
      → P st
      → P new
  unfolding handle_event
  handle_event_keeps e st new h v =
      let (a, p, q) = >>=-eq-ok (or_fail (get_elem? st.session.dogs e.gatherer_id) undefined) _ h in
      let (g, r, s) = >>=-eq-ok (or_fail (get_elem? st.dogs a) undefined) _ q in
      keep e a g st new (or_fail-eq-ok _ undefined r) s v

  gather_event_keeps :
      (existing : List ℕ) (e : GatheringEvent D) (st new : Gathering D)
      → gather_event existing capacity e st ≡ ok new
      → P st
      → P new
  unfolding gather_event
  gather_event_keeps existing e st new h v =
      elim (Bool-cases (not (is_office e.item_type) && not (has existing e.item_id))) [
        | inl skip ↦ let same : st ≡ new = ground arith in subst P same v
        | inr go ↦ handle_event_keeps e st new (rw go at h) v
      ]

  pub gather_events_keep :
      (existing : List ℕ) (es : List (GatheringEvent D)) (st new : Gathering D)
      → gather_events existing capacity es st ≡ ok new
      → P st
      → P new
  unfolding gather_events
  gather_events_keep existing [] st new h v = let same : st ≡ new = ground arith in subst P same v
  gather_events_keep existing (e ∷ es) st new h v =
      let (mid, p, q) =
        >>=-eq-ok (gather_event existing capacity e st) (gather_events existing capacity es) h in
      gather_events_keep existing es mid new q (gather_event_keeps existing e st mid p v)
