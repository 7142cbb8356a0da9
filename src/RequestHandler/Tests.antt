-- ===== src/RequestHandler/Tests.antt =====
-- A file system of texts, and requests for files in it.
use backend_for_browser_game.Base.{
  ◌==◌, ◌≡◌, refl, true, List, [], ◌∷◌, ◌++◌, str_eq, Bytes, some, none, ok, if◌then◌else◌,
}
use backend_for_browser_game.Json.{codes}
use backend_for_browser_game.Double.Milli.{Milli, milli_double}
use backend_for_browser_game.Handlers.Text.{url_decode}
use backend_for_browser_game.Handlers.Api.{Request, get}
use backend_for_browser_game.RequestHandler.{
  FileSystem, ServerResponse, file, get_mime_type, mime_of, is_prefix, is_sub_path, open_file,
  find_file, get_file, file_request_processing,
}
use backend_for_browser_game.RequestHandler.Files.{
  SendsOnly, IsServed, file_request_processing-SendsOnly,
}

-- The parts of a path between its slashes, without `..`.
abbrev parts : Bytes → Bytes → List Bytes
parts acc [] = acc ∷ []
parts acc (c ∷ s) =
    let rest = parts (acc ++ (c ∷ [])) s in if c == b'/' then acc ∷ parts [] s else rest

-- The only directory is /www, with its index.
abbrev disk : FileSystem Bytes
disk = record {
  join = λ p s. p ++ (b'/' ∷ s);
  components = λ p. some (parts [] p);
  exists = λ p. true;
  is_directory = λ p. str_eq p (codes "/www/");
  can_open = λ p. true;
  extension = λ p. codes ".HTML";
}

abbrev root : Bytes
root = codes "/www"

abbrev ask : Bytes → Request
ask target = record {
  method = get;
  target = target;
  authorization = none;
  content_type = none;
  body = [];
}

abbrev index : ServerResponse Bytes Milli
index = file (codes "/www//index.html") (codes "text/html")

served : file_request_processing disk root (ask (codes "/")) ≡ ok index
unfolding file_request_processing url_decode get_file is_sub_path is_prefix find_file open_file
    get_mime_type mime_of
served = refl

file_request_processing-SendsOnly_example : SendsOnly disk (IsServed disk root) index
file_request_processing-SendsOnly_example =
    file_request_processing-SendsOnly disk root (ask (codes "/")) index served
