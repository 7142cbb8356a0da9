-- ===== src/HttpServer/Tests.antt =====
-- A session that gets one request, answers it, and waits for the next one.
use backend_for_browser_game.Base.{List, ℕ, suc, ◌≤◌, refl, true, false, [], ◌∷◌, length}
use backend_for_browser_game.HttpServer.{
  Session, reading, handling, writing, arrived, run, read, on_read, handle_request, write, on_write,
}
use backend_for_browser_game.HttpServer.Liveness
use backend_for_browser_game.HttpServer.Liveness.{GoesOn, Nears, Runs-IsServed}
use backend_for_browser_game.HttpServer.Steps.{
  Reach, begin, next, read_ends, handler_sends, write_ends, HasAnswers, Reach-HasAnswers,
}

abbrev asked : Session ℕ ℕ
asked = record { pending = handling 5 ∷ []; received = 5 ∷ []; sent = []; shutdown_asked = false }

abbrev answering : Session ℕ ℕ
answering = record {
  pending = writing 6 false ∷ [];
  received = 5 ∷ [];
  sent = [];
  shutdown_asked = false;
}

abbrev waiting : Session ℕ ℕ
waiting = record {
  pending = reading ∷ [];
  received = 5 ∷ [];
  sent = 6 ∷ [];
  shutdown_asked = false;
}

asked-Reach : Reach suc asked
unfolding run read on_read handle_request
asked-Reach = next run asked begin (read_ends run [] [] (arrived 5) refl)

waiting-Reach : Reach suc waiting
unfolding read write on_write
waiting-Reach =
    next answering waiting
      (next asked answering asked-Reach (handler_sends asked [] [] 5 false refl))
      (write_ends answering [] [] 6 false true refl)

Reach-HasAnswers_example : (length waiting.pending ≤ 1) × HasAnswers suc waiting
Reach-HasAnswers_example = Reach-HasAnswers suc waiting waiting-Reach

asked-Runs : Liveness.Runs suc asked (5 ∷ [])
unfolding run read on_read handle_request
asked-Runs =
    Liveness.next run asked [] (5 ∷ []) Liveness.begin (Liveness.read_brings run [] [] 5 refl)

Runs-IsServed_example :
    GoesOn suc (5 ∷ []) asked
    × ((more : List ℕ) (t : Session ℕ ℕ)
        → Liveness.Serve suc asked more t
        → Nears suc (5 ∷ []) asked more t)
Runs-IsServed_example = Runs-IsServed suc asked (5 ∷ []) asked-Runs
