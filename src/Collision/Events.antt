-- ===== src/Collision/Events.antt =====
-- FindGatherEvents of src/collision_detector.cpp: which events there are, each a gatherer and an item by
-- their places.
use mathlib.Core.List.{Perm, Permᴰ}
use mathlib.Core.Logic.{∥∥₁_map, ∥∥₁_elim, ∥∥₁_prop}
use backend_for_browser_game.Base.{
  ℕ, zero, suc, ◌+◌, ◌≡◌, refl, ap, ◌∙◌, subst, subst₂, ap₂, ◌⊎◌, inl, inr, true, false, List, [],
  ◌∷◌, ◌++◌, get_elem?, some, arith, Bool-cases,
}
use backend_for_browser_game.Double.{Double}
use backend_for_browser_game.Geom.{eq_pt}
use backend_for_browser_game.Collision.{
  Item, Gatherer, GatheringEvent, hits, event_of, events_of_gatherer, events_from,
}

-- Membership that can be taken apart.
abbrev pub In : {A : Type 0} → A → List A → Type 0
In a [] = ⊥
In a (x ∷ xs) = (a ≡ x) ⊎ In a xs

module _ {A : Type 0} (a : A) where
  In-append : (xs ys : List A) → In a (xs ++ ys) → In a xs ⊎ In a ys
  In-append [] ys h = inr h
  In-append (x ∷ xs) ys (inl e) = inl (inl e)
  In-append (x ∷ xs) ys (inr h) = elim (In-append xs ys h) [ inl l ↦ inl (inr l) | inr r ↦ inr r ]

  In-append_left : (xs ys : List A) → In a xs → In a (xs ++ ys)
  In-append_left [] ys h = elim h [ ]
  In-append_left (x ∷ xs) ys (inl e) = inl e
  In-append_left (x ∷ xs) ys (inr h) = inr (In-append_left xs ys h)

  In-append_right : (xs ys : List A) → In a ys → In a (xs ++ ys)
  In-append_right [] ys h = h
  In-append_right (x ∷ xs) ys h = inr (In-append_right xs ys h)

  In-permᴰ : {xs ys : List A} → Permᴰ xs ys → In a xs → In a ys
  In-permᴰ Permᴰ.nil h = h
  In-permᴰ (Permᴰ.cons e p) (inl h) = inl (h ∙ e)
  In-permᴰ (Permᴰ.cons e p) (inr h) = inr (In-permᴰ p h)
  In-permᴰ (Permᴰ.swap e f) (inl h) = inr (inl (h ∙ e))
  In-permᴰ (Permᴰ.swap e f) (inr (inl h)) = inl (h ∙ f)
  In-permᴰ (Permᴰ.swap e f) (inr (inr h)) = inr (inr h)
  In-permᴰ (Permᴰ.trans p q) h = In-permᴰ q (In-permᴰ p h)

  pub In-perm : {xs ys : List A} → Perm xs ys → ∥ In a xs ∥₁ → ∥ In a ys ∥₁
  In-perm {ys = ys} p h = ∥∥₁_elim p ∥∥₁_prop (λ q. ∥∥₁_map {B = In a ys} h (In-permᴰ q))

module _ {D : Type 0} ⦃d : Double D⦄ where
  abbrev IsHit : ℕ → Gatherer D → ℕ → List (Item D) → GatheringEvent D → Type 0
  IsHit g gatherer i items e =
      (k : ℕ) × (item : Item D) × (get_elem? items k ≡ some item)
      × (hits gatherer item ≡ true)
      × (e ≡ event_of g (i + k) gatherer item)

  abbrev pub IsEvent : ℕ → List (Gatherer D) → List (Item D) → GatheringEvent D → Type 0
  IsEvent g gatherers items e =
      (k : ℕ) × (gatherer : Gatherer D) × (get_elem? gatherers k ≡ some gatherer)
      × (eq_pt gatherer.start_pos gatherer.end_pos ≡ false)
      × IsHit (g + k) gatherer 0 items e

  events_of_gatherer-IsHit :
      (g : ℕ) (gatherer : Gatherer D) (i : ℕ) (items : List (Item D)) (e : GatheringEvent D)
      → In e (events_of_gatherer g gatherer i items)
      → IsHit g gatherer i items e
  unfolding events_of_gatherer
  events_of_gatherer-IsHit g gatherer i [] e h = elim h [ ]
  events_of_gatherer-IsHit g gatherer i (item ∷ items) e h =
      elim (Bool-cases (hits gatherer item)) [
        | inl y ↦ first y (events_of_gatherer-IsHit g gatherer (i + 1) items e) (rw y at h)
        | inr n ↦ later (events_of_gatherer-IsHit g gatherer (i + 1) items e (rw n at h))
      ]
    where
      later : IsHit g gatherer (i + 1) items e → IsHit g gatherer i (item ∷ items) e
      later (k, it, a, b, c) =
          (suc k, it, a, b, c ∙ ap (λ (n : ℕ). event_of g n gatherer it) (omega arith))

      first :
          hits gatherer item ≡ true
          → (In e (events_of_gatherer g gatherer (i + 1) items) → IsHit g gatherer (i + 1) items e)
          → In e (event_of g i gatherer item ∷ events_of_gatherer g gatherer (i + 1) items)
          → IsHit g gatherer i (item ∷ items) e
      first y ih (inl q) =
          (zero, item, refl, y, q ∙ ap (λ (n : ℕ). event_of g n gatherer item) (omega arith))
      first y ih (inr q) = later (ih q)

  IsHit-events_of_gatherer :
      (g : ℕ) (gatherer : Gatherer D) (i : ℕ) (items : List (Item D)) (e : GatheringEvent D)
      → IsHit g gatherer i items e
      → In e (events_of_gatherer g gatherer i items)
  unfolding events_of_gatherer
  IsHit-events_of_gatherer g gatherer i [] e (k, it, a, b, c) = cc
  IsHit-events_of_gatherer g gatherer i (item ∷ items) e (zero, it, a, b, c) =
      let same : it ≡ item = cc in
      rw (subst (λ x. hits gatherer x ≡ true) same b)
        (inl (c ∙ ap₂ (λ (n : ℕ) (x : Item D). event_of g n gatherer x) (omega arith) same))
  IsHit-events_of_gatherer g gatherer i (item ∷ items) e (suc k, it, a, b, c) =
      let tail =
        IsHit-events_of_gatherer g gatherer (i + 1) items e
          (k, it, a, b, c ∙ ap (λ (n : ℕ). event_of g n gatherer it) (omega arith)) in
      elim (Bool-cases (hits gatherer item)) [ inl y ↦ rw y (inr tail) | inr n ↦ rw n tail ]

  pub events_from-IsEvent :
      (g : ℕ) (gatherers : List (Gatherer D)) (items : List (Item D)) (e : GatheringEvent D)
      → In e (events_from g gatherers items)
      → IsEvent g gatherers items e
  unfolding events_from
  events_from-IsEvent g [] items e h = elim h [ ]
  events_from-IsEvent g (gatherer ∷ rest) items e h =
      elim (Bool-cases (eq_pt gatherer.start_pos gatherer.end_pos)) [
        | inl y ↦ later (events_from-IsEvent (g + 1) rest items e (rw y at h))
        | inr n ↦ elim (In-append e (events_of_gatherer g gatherer 0 items) _ (rw n at h)) [
          | inl l ↦ now n (events_of_gatherer-IsHit g gatherer 0 items e l)
          | inr r ↦ later (events_from-IsEvent (g + 1) rest items e r)
        ]
      ]
    where
      later : IsEvent (g + 1) rest items e → IsEvent g (gatherer ∷ rest) items e
      later (k, gt, a, b, c) = (suc k, gt, a, b, subst (λ n. IsHit n gt 0 items e) (omega arith) c)

      now :
          eq_pt gatherer.start_pos gatherer.end_pos ≡ false
          → IsHit g gatherer 0 items e
          → IsEvent g (gatherer ∷ rest) items e
      now n h = (zero, gatherer, refl, n, subst (λ k. IsHit k gatherer 0 items e) (omega arith) h)

  pub IsEvent-events_from :
      (g : ℕ) (gatherers : List (Gatherer D)) (items : List (Item D)) (e : GatheringEvent D)
      → IsEvent g gatherers items e
      → In e (events_from g gatherers items)
  unfolding events_from
  IsEvent-events_from g [] items e (k, gt, a, b, c) = cc
  IsEvent-events_from g (gatherer ∷ rest) items e (zero, gt, a, b, c) =
      let same : gt ≡ gatherer = cc in
      let hit = subst₂ (λ n x. IsHit n x 0 items e) (omega arith) same c in
      rw (subst (λ (x : Gatherer D). eq_pt x.start_pos x.end_pos ≡ false) same b) (
        In-append_left e (events_of_gatherer g gatherer 0 items) (events_from (g + 1) rest items)
          (IsHit-events_of_gatherer g gatherer 0 items e hit))
  IsEvent-events_from g (gatherer ∷ rest) items e (suc k, gt, a, b, c) =
      let tail =
        IsEvent-events_from (g + 1) rest items e
          (k, gt, a, b, subst (λ n. IsHit n gt 0 items e) (omega arith) c) in
      elim (Bool-cases (eq_pt gatherer.start_pos gatherer.end_pos)) [
        | inl y ↦ rw y tail
        | inr n ↦ rw n (In-append_right e (events_of_gatherer g gatherer 0 items) _ tail)
      ]
