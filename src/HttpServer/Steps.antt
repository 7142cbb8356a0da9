-- ===== src/HttpServer/Steps.antt =====
-- SessionBase of src/http_server.cpp as a state machine: operations end, and their callbacks run.
use backend_for_browser_game.Base.{
  ◌≤◌, ◌≡◌, refl, sym, ap, ◌∙◌, Bool, true, false, List, [], ◌∷◌, ◌++◌, length, map, arith,
}
use mathlib.Core.List.{append-nil}
use backend_for_browser_game.HttpServer.{
  ReadResult, end_of_stream, failed, arrived, Operation, reading, handling, writing, Session, run,
  read, close, handle_request, on_read, write, on_write,
}

-- A list of one has one place.
pub only_one :
    {X : Type 0} (x y : X) (zs xs ys : List X)
    → zs ≡ x ∷ []
    → zs ≡ xs ++ y ∷ ys
    → (x ≡ y) × (xs ++ ys ≡ [])
only_one x y zs [] ys e h = ground (arith, sym e ∙ h)
only_one x y zs (z ∷ []) ys e h = absurd (ground (arith, sym e ∙ h))
only_one x y zs (z ∷ w ∷ xs) ys e h = absurd (ground (arith, sym e ∙ h))

pub none_left : {X : Type 0} (y : X) (zs xs ys : List X) → zs ≡ [] → zs ≡ xs ++ y ∷ ys → ⊥
none_left y zs [] ys e h = ground (arith, sym e ∙ h)
none_left y zs (z ∷ xs) ys e h = ground (arith, sym e ∙ h)

module _ {Q A : Type 0} where
  -- An operation that is under way ends: it leaves the session, and its callback runs. A handler answers
  -- a request with `answer`, or throws without an answer.
  pub data Step (answer : Q → A) : Session Q A → Session Q A → Type 0 where
    read_ends :
        (s : Session Q A) (xs ys : List (Operation Q A)) (r : ReadResult Q)
        → s.pending ≡ xs ++ reading ∷ ys
        → Step answer s (on_read (record s { pending = xs ++ ys }) r)
    handler_sends :
        (s : Session Q A) (xs ys : List (Operation Q A)) (q : Q) (need_eof : Bool)
        → s.pending ≡ xs ++ handling q ∷ ys
        → Step answer s (write (record s { pending = xs ++ ys }) (answer q) need_eof)
    handler_throws :
        (s : Session Q A) (xs ys : List (Operation Q A)) (q : Q)
        → s.pending ≡ xs ++ handling q ∷ ys
        → Step answer s (record s { pending = xs ++ ys })
    write_ends :
        (s : Session Q A) (xs ys : List (Operation Q A)) (a : A) (need_eof success : Bool)
        → s.pending ≡ xs ++ writing a need_eof ∷ ys
        → Step answer s (on_write (record s { pending = xs ++ ys }) a need_eof success)

  pub data Reach (answer : Q → A) : Session Q A → Type 0 where
    begin : Reach answer run
    next : (s t : Session Q A) → Reach answer s → Step answer s t → Reach answer t

  -- One operation is under way, and all earlier requests have their answers, in their order; or none is.
  data IsServing (answer : Q → A) (s : Session Q A) : Type 0 where
    waits : s.pending ≡ reading ∷ [] → s.sent ≡ map answer s.received → IsServing answer s
    asks :
        (qs : List Q) (q : Q)
        → s.pending ≡ handling q ∷ []
        → s.received ≡ qs ++ (q ∷ [])
        → s.sent ≡ map answer qs
        → IsServing answer s
    answers :
        (qs : List Q) (q : Q) (need_eof : Bool)
        → s.pending ≡ writing (answer q) need_eof ∷ []
        → s.received ≡ qs ++ (q ∷ [])
        → s.sent ≡ map answer qs
        → IsServing answer s
    rests :
        (qs rest : List Q)
        → s.pending ≡ []
        → s.received ≡ qs ++ rest
        → length rest ≤ 1
        → s.sent ≡ map answer qs
        → IsServing answer s

  read_ends-IsServing :
      (answer : Q → A) (s : Session Q A) (xs ys : List (Operation Q A)) (r : ReadResult Q)
      → s.pending ≡ xs ++ reading ∷ ys
      → IsServing answer s
      → IsServing answer (on_read (record s { pending = xs ++ ys }) r)
  unfolding on_read close handle_request
  read_ends-IsServing answer s xs ys r h (waits e f) =
      let (same, gone) = only_one reading reading s.pending xs ys e h in ended r gone
    where
      ended :
          (r : ReadResult Q)
          → xs ++ ys ≡ []
          → IsServing answer (on_read (record s { pending = xs ++ ys }) r)
      ended end_of_stream gone =
          rests s.received [] gone (sym (append-nil s.received)) (omega arith) f
      ended failed gone = rests s.received [] gone (sym (append-nil s.received)) (omega arith) f
      ended (arrived q) gone = asks s.received q (ap (λ ops. handling q ∷ ops) gone) refl f
  read_ends-IsServing answer s xs ys r h (asks qs q e f g) =
      absurd (ground (arith, (only_one (handling q) reading s.pending xs ys e h).0))
  read_ends-IsServing answer s xs ys r h (answers qs q b e f g) =
      absurd (ground (arith, (only_one (writing (answer q) b) reading s.pending xs ys e h).0))
  read_ends-IsServing answer s xs ys r h (rests qs rest e f n g) =
      absurd (none_left reading s.pending xs ys e h)

  handler_ends-IsServing :
      (answer : Q → A) (s t : Session Q A) (xs ys : List (Operation Q A)) (p : Q)
      → s.pending ≡ xs ++ handling p ∷ ys
      → ((qs : List Q)
          → xs ++ ys ≡ []
          → s.received ≡ qs ++ (p ∷ [])
          → s.sent ≡ map answer qs
          → IsServing answer t)
      → IsServing answer s
      → IsServing answer t
  handler_ends-IsServing answer s t xs ys p h k (waits e f) =
      absurd (ground (arith, (only_one reading (handling p) s.pending xs ys e h).0))
  handler_ends-IsServing answer s t xs ys p h k (asks qs q e f g) =
      let (same, gone) = only_one (handling q) (handling p) s.pending xs ys e h in
      let here : q ≡ p = ground (arith, same) in k qs gone (f ∙ ap (λ x. qs ++ (x ∷ [])) here) g
  handler_ends-IsServing answer s t xs ys p h k (answers qs q b e f g) =
      absurd (ground (arith, (only_one (writing (answer q) b) (handling p) s.pending xs ys e h).0))
  handler_ends-IsServing answer s t xs ys p h k (rests qs rest e f n g) =
      absurd (none_left (handling p) s.pending xs ys e h)

  pub map-last :
      (answer : Q → A) (qs : List Q) (q : Q)
      → map answer qs ++ (answer q ∷ []) ≡ map answer (qs ++ (q ∷ []))
  map-last answer [] q = refl
  map-last answer (p ∷ qs) q = ap (λ xs. answer p ∷ xs) (map-last answer qs q)

  write_ends-IsServing :
      (answer : Q → A) (s : Session Q A) (xs ys : List (Operation Q A)) (a : A)
      (need_eof success : Bool)
      → s.pending ≡ xs ++ writing a need_eof ∷ ys
      → IsServing answer s
      → IsServing answer (on_write (record s { pending = xs ++ ys }) a need_eof success)
  unfolding on_write close read
  write_ends-IsServing answer s xs ys a b c h (waits e f) =
      absurd (ground (arith, (only_one reading (writing a b) s.pending xs ys e h).0))
  write_ends-IsServing answer s xs ys a b c h (asks qs q e f g) =
      absurd (ground (arith, (only_one (handling q) (writing a b) s.pending xs ys e h).0))
  write_ends-IsServing answer s xs ys a b c h (answers qs q d e f g) =
      let (same, gone) = only_one (writing (answer q) d) (writing a b) s.pending xs ys e h in
      let here : answer q ≡ a = ground (arith, same) in
      ended b c gone (
        ap (λ x. s.sent ++ (x ∷ [])) (sym here)
        ∙ ap (λ x. x ++ (answer q ∷ [])) g
        ∙ map-last answer qs q)
    where
      ended :
          (need_eof success : Bool)
          → xs ++ ys ≡ []
          → s.sent ++ (a ∷ []) ≡ map answer (qs ++ (q ∷ []))
          → IsServing answer (on_write (record s { pending = xs ++ ys }) a need_eof success)
      ended b false gone k = rests qs (q ∷ []) gone f (omega arith) g
      ended true true gone k =
          rests (qs ++ (q ∷ [])) [] gone (f ∙ sym (append-nil (qs ++ (q ∷ [])))) (omega arith) k
      ended false true gone k = waits (ap (λ ops. reading ∷ ops) gone) (k ∙ ap (map answer) (sym f))
  write_ends-IsServing answer s xs ys a b c h (rests qs rest e f n g) =
      absurd (none_left (writing a b) s.pending xs ys e h)

  Step-IsServing :
      (answer : Q → A) (s t : Session Q A)
      → Step answer s t
      → IsServing answer s
      → IsServing answer t
  unfolding write
  Step-IsServing answer s t (read_ends _ xs ys r h) v = read_ends-IsServing answer s xs ys r h v
  Step-IsServing answer s t (handler_sends _ xs ys q b h) v =
      handler_ends-IsServing answer s t xs ys q h
        (λ qs gone f g. answers qs q b (ap (λ ops. writing (answer q) b ∷ ops) gone) f g) v
  Step-IsServing answer s t (handler_throws _ xs ys q h) v =
      handler_ends-IsServing answer s t xs ys q h
        (λ qs gone f g. rests qs (q ∷ []) gone f (omega arith) g) v
  Step-IsServing answer s t (write_ends _ xs ys a b c h) v =
      write_ends-IsServing answer s xs ys a b c h v

  Reach-IsServing : (answer : Q → A) (s : Session Q A) → Reach answer s → IsServing answer s
  unfolding run read
  Reach-IsServing answer s begin = waits refl refl
  Reach-IsServing answer s (next t _ before step) =
      Step-IsServing answer t s step (Reach-IsServing answer t before)

  -- The responses so far are the answers to the first requests, in their order, and at most one request
  -- is without one.
  abbrev pub HasAnswers : (Q → A) → Session Q A → Type 0
  HasAnswers answer s =
      (qs : List Q) × (rest : List Q) × (s.received ≡ qs ++ rest)
      × (s.sent ≡ map answer qs)
      × (length rest ≤ 1)

  -- In every state that a session comes to, at most one of its operations is under way; the responses
  -- that it has sent are the answers to its first requests, in their order, and at most one request is
  -- without an answer.
  pub Reach-HasAnswers :
      (answer : Q → A) (s : Session Q A)
      → Reach answer s
      → (length s.pending ≤ 1) × HasAnswers answer s
  Reach-HasAnswers answer s r = told (Reach-IsServing answer s r)
    where
      told : IsServing answer s → (length s.pending ≤ 1) × HasAnswers answer s
      told (waits e f) =
          (rw e (omega arith), (s.received, [], sym (append-nil s.received), f, omega arith))
      told (asks qs q e f g) = (rw e (omega arith), (qs, q ∷ [], f, g, omega arith))
      told (answers qs q b e f g) = (rw e (omega arith), (qs, q ∷ [], f, g, omega arith))
      told (rests qs rest e f n g) = (rw e (omega arith), (qs, rest, f, g, n))
