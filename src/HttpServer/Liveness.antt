-- ===== src/HttpServer/Liveness.antt =====
-- SessionBase of src/http_server.cpp when no operation fails: every request that a client sends gets its
-- answer.
use backend_for_browser_game.Base.{
  ℕ, ◌+◌, ◌<◌, ◌≡◌, refl, sym, ap, ◌∙◌, subst, ◌⊎◌, inl, inr, Bool, true, false, List, [], ◌∷◌,
  ◌++◌, map, arith,
}
use mathlib.Core.List.{append-nil}
use backend_for_browser_game.HttpServer.{
  end_of_stream, arrived, Operation, reading, handling, writing, Session, run, read, close,
  handle_request, on_read, write, on_write,
}
use backend_for_browser_game.HttpServer.Steps.{only_one, none_left, map-last}

-- How many operations are still to end before the request that is served has its answer.
abbrev pub owed : {Q A : Type 0} → List (Operation Q A) → ℕ
owed [] = 0
owed (reading ∷ ops) = owed ops
owed (writing a need_eof ∷ ops) = 1 + owed ops
owed (handling q ∷ ops) = 2 + owed ops

module _ {Q A : Type 0} where
  -- An operation that is under way ends without an error, and its callback runs. The list holds the
  -- request that a client has sent, if it is the end of a read.
  pub data Serve (answer : Q → A) : Session Q A → List Q → Session Q A → Type 0 where
    read_brings :
        (s : Session Q A) (xs ys : List (Operation Q A)) (q : Q)
        → s.pending ≡ xs ++ reading ∷ ys
        → Serve answer s (q ∷ []) (on_read (record s { pending = xs ++ ys }) (arrived q))
    stream_ends :
        (s : Session Q A) (xs ys : List (Operation Q A))
        → s.pending ≡ xs ++ reading ∷ ys
        → Serve answer s [] (on_read (record s { pending = xs ++ ys }) end_of_stream)
    handler_sends :
        (s : Session Q A) (xs ys : List (Operation Q A)) (q : Q) (need_eof : Bool)
        → s.pending ≡ xs ++ handling q ∷ ys
        → Serve answer s [] (write (record s { pending = xs ++ ys }) (answer q) need_eof)
    write_ends :
        (s : Session Q A) (xs ys : List (Operation Q A)) (a : A) (need_eof : Bool)
        → s.pending ≡ xs ++ writing a need_eof ∷ ys
        → Serve answer s [] (on_write (record s { pending = xs ++ ys }) a need_eof true)

  -- A session without errors, and the requests that clients have sent.
  pub data Runs (answer : Q → A) : Session Q A → List Q → Type 0 where
    begin : Runs answer run []
    next :
        (s t : Session Q A) (qs more : List Q)
        → Runs answer s qs
        → Serve answer s more t
        → Runs answer t (qs ++ more)

  data IsBusy (answer : Q → A) (s : Session Q A) (qs : List Q) : Type 0 where
    waits : s.pending ≡ reading ∷ [] → s.sent ≡ map answer qs → IsBusy answer s qs
    asks :
        (ps : List Q) (q : Q)
        → s.pending ≡ handling q ∷ []
        → qs ≡ ps ++ (q ∷ [])
        → s.sent ≡ map answer ps
        → IsBusy answer s qs
    answers :
        (ps : List Q) (q : Q) (need_eof : Bool)
        → s.pending ≡ writing (answer q) need_eof ∷ []
        → qs ≡ ps ++ (q ∷ [])
        → s.sent ≡ map answer ps
        → IsBusy answer s qs
    ended : s.pending ≡ [] → s.shutdown_asked ≡ true → s.sent ≡ map answer qs → IsBusy answer s qs

  at_reading :
      (answer : Q → A) (s : Session Q A) (qs : List Q) (xs ys : List (Operation Q A))
      → s.pending ≡ xs ++ reading ∷ ys
      → IsBusy answer s qs
      → (xs ++ ys ≡ []) × (s.sent ≡ map answer qs)
  at_reading answer s qs xs ys h (waits e f) = ((only_one reading reading s.pending xs ys e h).1, f)
  at_reading answer s qs xs ys h (asks ps q e f g) =
      absurd (ground (arith, (only_one (handling q) reading s.pending xs ys e h).0))
  at_reading answer s qs xs ys h (answers ps q b e f g) =
      absurd (ground (arith, (only_one (writing (answer q) b) reading s.pending xs ys e h).0))
  at_reading answer s qs xs ys h (ended e f g) = absurd (none_left reading s.pending xs ys e h)

  -- The last request, and what is told of it.
  abbrev Owes : (Q → A) → Session Q A → List Q → Q → List Q → Type 0
  Owes answer s qs q ps = (qs ≡ ps ++ (q ∷ [])) × (s.sent ≡ map answer ps)

  at_handling :
      (answer : Q → A) (s : Session Q A) (qs : List Q) (xs ys : List (Operation Q A)) (p : Q)
      → s.pending ≡ xs ++ handling p ∷ ys
      → IsBusy answer s qs
      → (ps : List Q) × (xs ++ ys ≡ []) × (s.pending ≡ handling p ∷ []) × Owes answer s qs p ps
  at_handling answer s qs xs ys p h (waits e f) =
      absurd (ground (arith, (only_one reading (handling p) s.pending xs ys e h).0))
  at_handling answer s qs xs ys p h (asks ps q e f g) =
      let (same, gone) = only_one (handling q) (handling p) s.pending xs ys e h in
      let here : q ≡ p = ground (arith, same) in
      subst
        (λ x.
          (ps : List Q) × (xs ++ ys ≡ []) × (s.pending ≡ handling x ∷ []) × Owes answer s qs x ps)
        here (ps, gone, e, (f, g))
  at_handling answer s qs xs ys p h (answers ps q b e f g) =
      absurd (ground (arith, (only_one (writing (answer q) b) (handling p) s.pending xs ys e h).0))
  at_handling answer s qs xs ys p h (ended e f g) =
      absurd (none_left (handling p) s.pending xs ys e h)

  at_writing :
      (answer : Q → A) (s : Session Q A) (qs : List Q) (xs ys : List (Operation Q A)) (a : A)
      (b : Bool)
      → s.pending ≡ xs ++ writing a b ∷ ys
      → IsBusy answer s qs
      → (xs ++ ys ≡ []) × (s.pending ≡ writing a b ∷ []) × (s.sent ++ (a ∷ []) ≡ map answer qs)
  at_writing answer s qs xs ys a b h (waits e f) =
      absurd (ground (arith, (only_one reading (writing a b) s.pending xs ys e h).0))
  at_writing answer s qs xs ys a b h (asks ps q e f g) =
      absurd (ground (arith, (only_one (handling q) (writing a b) s.pending xs ys e h).0))
  at_writing answer s qs xs ys a b h (answers ps q c e f g) =
      let (same, gone) = only_one (writing (answer q) c) (writing a b) s.pending xs ys e h in
      let here : answer q ≡ a = ground (arith, same) in
      (
        gone,
        e ∙ ap (λ op. op ∷ []) same,
        ap (λ x. s.sent ++ (x ∷ [])) (sym here)
            ∙ ap (λ x. x ++ (answer q ∷ [])) g
            ∙ map-last answer ps q
            ∙ ap (map answer) (sym f),
      )
  at_writing answer s qs xs ys a b h (ended e f g) =
      absurd (none_left (writing a b) s.pending xs ys e h)

  written-IsBusy :
      (answer : Q → A) (s : Session Q A) (qs : List Q) (a : A) (need_eof : Bool)
      → s.pending ≡ []
      → s.sent ++ (a ∷ []) ≡ map answer qs
      → IsBusy answer (on_write s a need_eof true) qs
  unfolding on_write close read
  written-IsBusy answer s qs a true gone k = ended gone refl k
  written-IsBusy answer s qs a false gone k = waits (ap (λ ops. reading ∷ ops) gone) k

  Serve-IsBusy :
      (answer : Q → A) (s t : Session Q A) (qs more : List Q)
      → Serve answer s more t
      → IsBusy answer s qs
      → IsBusy answer t (qs ++ more)
  unfolding on_read handle_request close write
  Serve-IsBusy answer s _ qs _ (read_brings _ xs ys q h) v =
      let (gone, f) = at_reading answer s qs xs ys h v in
      asks qs q (ap (λ ops. handling q ∷ ops) gone) refl f
  Serve-IsBusy answer s _ qs _ (stream_ends _ xs ys h) v =
      let (gone, f) = at_reading answer s qs xs ys h v in
      ended gone refl (f ∙ ap (map answer) (sym (append-nil qs)))
  Serve-IsBusy answer s _ qs _ (handler_sends _ xs ys q b h) v =
      let (ps, gone, at, (f, g)) = at_handling answer s qs xs ys q h v in
      answers ps q b (ap (λ ops. writing (answer q) b ∷ ops) gone) (append-nil qs ∙ f) g
  Serve-IsBusy answer s _ qs _ (write_ends _ xs ys a b h) v =
      let (gone, at, f) = at_writing answer s qs xs ys a b h v in
      written-IsBusy answer (record s { pending = xs ++ ys }) (qs ++ []) a b gone
        (f ∙ ap (map answer) (sym (append-nil qs)))

  Runs-IsBusy :
      (answer : Q → A) (s : Session Q A) (qs : List Q) → Runs answer s qs → IsBusy answer s qs
  unfolding run read
  Runs-IsBusy answer s qs begin = waits refl refl
  Runs-IsBusy answer s _ (next r _ qs more before step) =
      Serve-IsBusy answer r s qs more step (Runs-IsBusy answer r qs before)

  written-owed :
      (s : Session Q A) (a : A) (need_eof : Bool)
      → s.pending ≡ []
      → owed (on_write s a need_eof true).pending ≡ 0
  unfolding on_write close read
  written-owed s a true gone = rw gone refl
  written-owed s a false gone = rw gone refl

  -- All requests have their answers, or the step brings no other one and less is owed after it.
  abbrev pub Nears : (Q → A) → List Q → Session Q A → List Q → Session Q A → Type 0
  Nears answer qs s more t =
      (s.sent ≡ map answer qs) ⊎ ((more ≡ []) × (owed t.pending < owed s.pending))

  Serve-Nears :
      (answer : Q → A) (s t : Session Q A) (qs more : List Q)
      → IsBusy answer s qs
      → Serve answer s more t
      → Nears answer qs s more t
  unfolding write
  Serve-Nears answer s _ qs _ v (read_brings _ xs ys q h) = inl (at_reading answer s qs xs ys h v).1
  Serve-Nears answer s _ qs _ v (stream_ends _ xs ys h) = inl (at_reading answer s qs xs ys h v).1
  Serve-Nears answer s _ qs _ v (handler_sends _ xs ys q b h) =
      let (ps, gone, at, f) = at_handling answer s qs xs ys q h v in
      inr (refl, rw (at, gone) (omega arith))
  Serve-Nears answer s _ qs _ v (write_ends _ xs ys a b h) =
      let (gone, at, f) = at_writing answer s qs xs ys a b h v in
      let none = written-owed (record s { pending = xs ++ ys }) a b gone in
      inr (refl, rw (at, none) (omega arith))

  -- The session has shut its connection after the answers to all requests, or it can go on.
  abbrev pub GoesOn : (Q → A) → List Q → Session Q A → Type 0
  GoesOn answer qs s =
      ((s.pending ≡ []) × (s.shutdown_asked ≡ true) × (s.sent ≡ map answer qs))
      ⊎ ((more : List Q) × (t : Session Q A) × Serve answer s more t)

  IsBusy-GoesOn :
      (answer : Q → A) (s : Session Q A) (qs : List Q) → IsBusy answer s qs → GoesOn answer qs s
  IsBusy-GoesOn answer s qs (waits e f) = inr ([], _, stream_ends s [] [] e)
  IsBusy-GoesOn answer s qs (asks ps q e f g) = inr ([], _, handler_sends s [] [] q false e)
  IsBusy-GoesOn answer s qs (answers ps q b e f g) = inr ([], _, write_ends s [] [] (answer q) b e)
  IsBusy-GoesOn answer s qs (ended e f g) = inl (e, f, g)

  -- Suppose no operation of a session fails. Then in every state that it comes to, the session has
  -- shut its connection after the answers to all requests that clients have sent, in their order, or an
  -- operation can end; and whichever ends, either all these requests have had their answers already, or no
  -- request comes and fewer operations remain until the last one has its answer.
  pub Runs-IsServed :
      (answer : Q → A) (s : Session Q A) (qs : List Q)
      → Runs answer s qs
      → GoesOn answer qs s
        × ((more : List Q) (t : Session Q A) → Serve answer s more t → Nears answer qs s more t)
  Runs-IsServed answer s qs r =
      let v = Runs-IsBusy answer s qs r in
      (IsBusy-GoesOn answer s qs v, λ more t step. Serve-Nears answer s t qs more v step)
