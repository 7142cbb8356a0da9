-- ===== src/RequestHandler/Replies.antt =====
-- RequestHandler::operator() of src/request_handler.h: which requests are answered, and how.
use backend_for_browser_game.Base.{
  ◌≡◌, ◌≢◌, true, false, List, Bytes, none, some, Result, ok, err, Error, undefined,
}
use backend_for_browser_game.Json.{Json, codes}
use backend_for_browser_game.Double.{Double}
use backend_for_browser_game.Collision.{GatheringEvent}
use backend_for_browser_game.Model.Movement.{Boost}
use backend_for_browser_game.Model.World.{World}
use backend_for_browser_game.Handlers.Api.{Request, Response, starts_with}
use backend_for_browser_game.Handlers.Game.{Inputs, handle}
use backend_for_browser_game.RequestHandler.Files.{SendsOnly, IsServed}
use backend_for_browser_game.RequestHandler.{
  FileSystem, ServerResponse, Reply, api, report_server_error, file_request_processing,
}

-- Nothing undefined happens.
abbrev IsDefined : {A : Type 0} → Result A → Type 0
IsDefined m = m ≢ err undefined

module _ {P : Type 0} (fs : FileSystem P) {J : Type 0} (json : Json J) {D : Type 0} ⦃d : Double D⦄
    (boost : Boost D) (sort : List (GatheringEvent D) → List (GatheringEvent D)) (root : P) where
  -- What becomes of a request whose target is decoded. The last of the API's cases is undefined
  -- behaviour; there is none for files.
  pub data IsAnswered (w : World D) (inputs : Inputs D) (req : Request) (target : Bytes)
      : Result (Reply P D) → Type 0 where
    api_answers :
        (w' : World D) (answer : Response D)
        → starts_with target (codes "/api/") ≡ true
        → handle json boost sort w inputs req ≡ ok (w', answer)
        → IsAnswered w inputs req target (ok (some w', api answer))
    api_throws :
        (e : Error)
        → starts_with target (codes "/api/") ≡ true
        → handle json boost sort w inputs req ≡ err e
        → e ≢ undefined
        → IsAnswered w inputs req target (ok (none, report_server_error fs))
    api_breaks :
        starts_with target (codes "/api/") ≡ true
        → handle json boost sort w inputs req ≡ err undefined
        → IsAnswered w inputs req target (err undefined)
    file_answers :
        (r : ServerResponse P D)
        → starts_with target (codes "/api/") ≡ false
        → file_request_processing fs root req ≡ ok r
        → SendsOnly fs (IsServed fs root) r
        → IsAnswered w inputs req target (ok (some w, r))
    file_throws :
        (e : Error)
        → starts_with target (codes "/api/") ≡ false
        → file_request_processing fs {D = D} root req ≡ err e
        → e ≢ undefined
        → IsAnswered w inputs req target (ok (some w, report_server_error fs))
