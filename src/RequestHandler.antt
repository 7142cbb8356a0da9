-- ===== src/RequestHandler.antt =====
-- src/request_handler.h and src/request_handler.cpp: static files, and what becomes of a request. The
-- file system and its paths are parameters; logging is left out.
pub mod Files
pub mod Replies
pub mod Tests
use backend_for_browser_game.Base.{
  undefined, Error, ℕ, ◌+◌, ◌-◌, leb, Bool, true, false, ◌&&◌, ◌||◌, List, [], ◌∷◌, map, str_eq,
  Bytes, Option, some, none, Result, ok, err, out_of_range, runtime_error, or_fail, ◌>>=◌,
  if◌then◌else◌,
}
use backend_for_browser_game.Json.{Json, codes}
use backend_for_browser_game.Double.{Double}
use backend_for_browser_game.Collision.{GatheringEvent}
use backend_for_browser_game.Model.Movement.{Boost}
use backend_for_browser_game.Model.World.{World}
use backend_for_browser_game.Handlers.Text.{url_decode}
use backend_for_browser_game.Handlers.Api.{Request, Response, Answer, starts_with}
use backend_for_browser_game.Handlers.Game.{Inputs, handle, is_get_head}

-- std::filesystem: `join` is operator/, and `components` are those of a path that weakly_canonical has
-- made, unless it throws.
pub record FileSystem (P : Type 0) : Type 0 where
  pub join : P → Bytes → P
  pub components : P → Option (List Bytes)
  pub exists : P → Bool
  pub is_directory : P → Bool
  pub can_open : P → Bool
  pub extension : P → Bytes

-- The loop of IsSubPath.
unfoldable pub is_prefix : List Bytes → List Bytes → Bool
is_prefix [] path = true
is_prefix (b ∷ base) [] = false
is_prefix (b ∷ base) (p ∷ path) = str_eq p b && is_prefix base path

-- ::tolower of the C locale.
abbrev pub to_lower : ℕ → ℕ
to_lower c = if leb b'A' c && leb c b'Z' then c + 32 else c

abbrev without_dot : Bytes → Bytes
without_dot [] = []
without_dot (c ∷ s) = s

abbrev pub is_one_of : Bytes → List Bytes → Bool
is_one_of ext [] = false
is_one_of ext (e ∷ es) = str_eq ext e || is_one_of ext es

-- GetMimeType, on the extension in small letters.
unfoldable pub mime_of : Bytes → Bytes
mime_of ext =
    if is_one_of ext (codes "htm" ∷ codes "html" ∷ [])
    then codes "text/html"
    else if str_eq ext (codes "css")
    then codes "text/css"
    else if str_eq ext (codes "txt")
    then codes "text/plain"
    else if str_eq ext (codes "js")
    then codes "text/javascript"
    else if str_eq ext (codes "json")
    then codes "application/json"
    else if str_eq ext (codes "xml")
    then codes "application/xml"
    else if str_eq ext (codes "png")
    then codes "image/png"
    else if is_one_of ext (codes "jpg" ∷ codes "jpe" ∷ codes "jpeg" ∷ [])
    then codes "image/jpeg"
    else if str_eq ext (codes "gif")
    then codes "image/gif"
    else if str_eq ext (codes "bmp")
    then codes "image/bmp"
    else if str_eq ext (codes "ico")
    then codes "image/vnd.microsoft.icon"
    else if is_one_of ext (codes "tiff" ∷ codes "tif" ∷ [])
    then codes "image/tiff"
    else if is_one_of ext (codes "svg" ∷ codes "svgz" ∷ [])
    then codes "image/svg+xml"
    else if str_eq ext (codes "mp3")
    then codes "audio/mpeg"
    else codes "application/octet-stream"

unfoldable pub get_mime_type : Bytes → Bytes
get_mime_type extension = mime_of (map to_lower (without_dot extension))

-- The responses of files, those by a text, and those of the handler of the API.
pub data ServerResponse (P D : Type 0) : Type 0 where
  file : P → Bytes → ServerResponse P D
  text : ℕ → Bytes → Bytes → ServerResponse P D
  api : Response D → ServerResponse P D

-- What `send` gets. With a response comes the state, with `none` where an exception of the API leaves
-- it open.
abbrev pub Reply : Type 0 → Type 0 → Type 0
Reply P D = Option (World D) × ServerResponse P D

module _ {P : Type 0} (fs : FileSystem P) where
  unfoldable pub is_sub_path : P → P → Result Bool
  is_sub_path path base = do
    p ← or_fail (fs.components path) runtime_error
    b ← or_fail (fs.components base) runtime_error
    ok (is_prefix b p)

  -- `target.substr(1)`
  abbrev pub substr_one : Bytes → Result Bytes
  substr_one [] = err out_of_range
  substr_one (c ∷ s) = ok s

  module _ {D : Type 0} where
    abbrev pub plain : ℕ → Bytes → ServerResponse P D
    plain status body = text status (codes "text/plain") body

    unfoldable pub open_file : P → ServerResponse P D
    open_file path =
        if fs.can_open path
        then file path (get_mime_type (fs.extension path))
        else plain 500 (codes "Failed to read requested file.")

    unfoldable pub find_file : P → ServerResponse P D
    find_file path =
        if fs.exists path
        then (if fs.is_directory path
            then (if fs.exists (fs.join path (codes "index.html"))
                then open_file (fs.join path (codes "index.html"))
                else plain 404 (codes "Directory does not contain an index.html file."))
            else open_file path)
        else plain 404 (codes "File not found.")

    unfoldable pub get_file : P → Bytes → Result (ServerResponse P D)
    get_file root target = do
      rest ← substr_one target
      inside ← is_sub_path (fs.join root rest) root
      ok (
          if inside
          then find_file (fs.join root rest)
          else plain 400 (codes "Invalid path outside of the static files directory."))

    unfoldable pub file_request_processing : P → Request → Result (ServerResponse P D)
    file_request_processing root req = url_decode req.target >>= λ target.
        if is_get_head req.method
        then get_file root target
        else ok (
            text 405 (codes "application/json")
              (codes "{\"code\": \"methodNotAllowed\",\"message\": \"Method Not Allowed\"}"))

    unfoldable pub report_server_error : ServerResponse P D
    report_server_error = plain 500 (codes "Internal server error.")

    -- `catch (...)`, which catches exceptions; undefined behaviour is none.
    abbrev pub on_exception : Error → Reply P D → Result (Reply P D)
    on_exception undefined reply = err undefined
    on_exception _ reply = ok reply

    abbrev pub api_reply : Answer D → Result (Reply P D)
    api_reply (ok (w', r)) = ok (some w', api r)
    api_reply (err e) = on_exception e (none, report_server_error)

    abbrev pub file_reply : World D → Result (ServerResponse P D) → Result (Reply P D)
    file_reply w (ok r) = ok (some w, r)
    file_reply w (err e) = on_exception e (some w, report_server_error)

  module _ {J : Type 0} (json : Json J) {D : Type 0} ⦃d : Double D⦄ (boost : Boost D)
      (sort : List (GatheringEvent D) → List (GatheringEvent D)) (root : P) where
    -- RequestHandler::operator(). The decoding of the target stands outside of the `try`.
    unfoldable pub respond : World D → Inputs D → Request → Result (Reply P D)
    respond w inputs req = url_decode req.target >>= λ target.
        if starts_with target (codes "/api/")
        then api_reply (handle json boost sort w inputs req)
        else file_reply w (file_request_processing root req)
