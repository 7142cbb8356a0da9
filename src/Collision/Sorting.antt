-- ===== src/Collision/Sorting.antt =====
-- A value for the parameter `sort`: insertion, which keeps events of one time in their order.
use mathlib.Core.List.{Perm}
use mathlib.Core.List.Perm
use backend_for_browser_game.Base.{
  ◌≡◌, inl, inr, true, false, List, [], ◌∷◌, All, all_of, arith, Bool-cases, if◌then◌else◌,
}
use backend_for_browser_game.Double.{Double, IsIeee, ◌≼◌, IsNumber}
use backend_for_browser_game.Collision.{GatheringEvent, one}
use backend_for_browser_game.Collision.Order.{is_timely, IsOrdered, IsSorted, IsSort}

module _ {D : Type 0} ⦃d : Double D⦄ where
  insert : GatheringEvent D → List (GatheringEvent D) → List (GatheringEvent D)
  insert e [] = e ∷ []
  insert e (f ∷ es) = if d.lt e.time f.time then e ∷ f ∷ es else f ∷ insert e es

  unfoldable pub sort_events : List (GatheringEvent D) → List (GatheringEvent D)
  unfolding insert
  sort_events [] = []
  sort_events (e ∷ es) = insert e (sort_events es)

  insert-perm : (e : GatheringEvent D) (es : List (GatheringEvent D)) → Perm (insert e es) (e ∷ es)
  unfolding insert
  insert-perm e [] = Perm.refl (e ∷ [])
  insert-perm e (f ∷ es) = elim (Bool-cases (d.lt e.time f.time)) [
    | inl y ↦ rw y (Perm.refl (e ∷ f ∷ es))
    | inr n ↦ rw n (Perm.trans (Perm.cons f (insert-perm e es)) (Perm.swap e f es))
  ]

  sort_events-perm : (es : List (GatheringEvent D)) → Perm (sort_events es) es
  unfolding sort_events
  sort_events-perm [] = Perm.nil
  sort_events-perm (e ∷ es) =
      Perm.trans (insert-perm e (sort_events es)) (Perm.cons e (sort_events-perm es))

  module _ {ℓ} (P : GatheringEvent D → Type ℓ) where
    All-insert :
        (e : GatheringEvent D) (es : List (GatheringEvent D)) → P e → All P es → All P (insert e es)
    unfolding insert
    All-insert e [] p ps = (p, tt)
    All-insert e (f ∷ es) p ps = elim (Bool-cases (d.lt e.time f.time)) [
      | inl y ↦ rw y (p, ps)
      | inr n ↦ rw n (ps.0, All-insert e es p ps.1)
    ]

    All-sort_events : (es : List (GatheringEvent D)) → All P es → All P (sort_events es)
    unfolding sort_events
    All-sort_events [] ps = tt
    All-sort_events (e ∷ es) ps = All-insert e (sort_events es) ps.0 (All-sort_events es ps.1)

  module _ (laws : IsIeee D) where
    open laws use {number_of_le, le_trans, le_total, lt-eq-not-le}

    abbrev IsNumbered : GatheringEvent D → Type 0
    IsNumbered e = IsNumber e.time

    All-le_trans :
        (e f : GatheringEvent D) (es : List (GatheringEvent D))
        → e.time ≼ f.time
        → All (λ g. f.time ≼ g.time) es
        → All (λ g. e.time ≼ g.time) es
    All-le_trans e f [] h hs = tt
    All-le_trans e f (g ∷ es) h hs = (le_trans _ _ _ h hs.0, All-le_trans e f es h hs.1)

    insert-IsSorted :
        (e : GatheringEvent D) (es : List (GatheringEvent D))
        → IsNumbered e
        → All IsNumbered es
        → IsSorted es
        → IsSorted (insert e es)
    unfolding insert
    insert-IsSorted e [] n ns s = (tt, tt)
    insert-IsSorted e (f ∷ es) n ns s =
        let test = lt-eq-not-le e.time f.time n ns.0 in
        let total = le_total e.time f.time n ns.0 in
        elim (Bool-cases (d.lt e.time f.time)) [
          | inl y ↦
              let below : e.time ≼ f.time = ground arith in
              rw y ((below, All-le_trans e f es below s.0), s)
          | inr q ↦
              let above : f.time ≼ e.time = ground arith in
              rw q
                (All-insert (λ g. f.time ≼ g.time) e es above s.0, insert-IsSorted e es n ns.1 s.1)
        ]

    sort_events-IsSorted :
        (es : List (GatheringEvent D)) → All IsNumbered es → IsSorted (sort_events es)
    unfolding sort_events
    sort_events-IsSorted [] ns = tt
    sort_events-IsSorted (e ∷ es) ns =
        insert-IsSorted e (sort_events es) ns.0 (All-sort_events IsNumbered es ns.1)
          (sort_events-IsSorted es ns.1)

    All-lt :
        (e : GatheringEvent D) (es : List (GatheringEvent D))
        → All (λ f. e.time ≼ f.time) es
        → All (λ f. d.lt f.time e.time ≡ false) es
    All-lt e [] h = tt
    All-lt e (f ∷ es) h =
        let (n, m) = number_of_le e.time f.time h.0 in
        (ground (arith, lt-eq-not-le f.time e.time m n, h.0), All-lt e es h.1)

    IsSorted-IsOrdered : (es : List (GatheringEvent D)) → IsSorted es → IsOrdered es
    IsSorted-IsOrdered [] s = tt
    IsSorted-IsOrdered (e ∷ es) s = (All-lt e es s.0, IsSorted-IsOrdered es s.1)

    All-IsNumbered : (es : List (GatheringEvent D)) → all_of is_timely es ≡ true → All IsNumbered es
    All-IsNumbered [] t = tt
    All-IsNumbered (e ∷ es) t =
        ((number_of_le e.time one (ground arith)).0, All-IsNumbered es (ground arith))

    pub sort_events-IsSort : IsSort sort_events
    sort_events-IsSort = record {
      sort-perm = λ es t. sort_events-perm es;
      sort-IsOrdered = λ es t. IsSorted-IsOrdered _ (sort_events-IsSorted es (All-IsNumbered es t));
    }
