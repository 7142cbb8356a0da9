-- ===== src/RequestHandler/Files.antt =====
-- FileRequestProcessing of src/request_handler.h: which files are sent.
use backend_for_browser_game.Base.{
  ◌≡◌, refl, ap, ap₂, ◌∙◌, subst, ◌⊎◌, inl, inr, Bool, true, false, List, [], ◌∷◌, ◌++◌, str_eq-eq,
  Bytes, some, ok, runtime_error, or_fail, or_fail-eq-ok, ok-inj, >>=-eq-ok, arith, Bool-cases,
  if◌then◌else◌,
}
use backend_for_browser_game.Json.{codes}
use backend_for_browser_game.Handlers.Text.{url_decode}
use backend_for_browser_game.Handlers.Api.{Request}
use backend_for_browser_game.Handlers.Game.{is_get_head}
use backend_for_browser_game.RequestHandler.{
  FileSystem, is_prefix, ServerResponse, file, text, api, plain, get_mime_type, is_sub_path,
  substr_one, open_file, find_file, get_file, file_request_processing,
}

is_prefix-append :
    (base path : List Bytes)
    → is_prefix base path ≡ true
    → (rest : List Bytes) × (path ≡ base ++ rest)
unfolding is_prefix
is_prefix-append [] path h = (path, refl)
is_prefix-append (b ∷ base) [] h = cc
is_prefix-append (b ∷ base) (p ∷ path) h =
    let (rest, e) = is_prefix-append base path (ground arith) in
    let same = str_eq-eq p b (ground arith) in (rest, ap₂ (λ q qs. q ∷ qs) same e)

module _ {P : Type 0} (fs : FileSystem P) where
  -- The canonical form of a path begins with that of the root.
  abbrev pub IsBelow : P → P → Type 0
  IsBelow root path =
      (base : List Bytes) × (rest : List Bytes) × (fs.components root ≡ some base)
      × (fs.components path ≡ some (base ++ rest))

  is_sub_path-IsBelow : (path base : P) → is_sub_path fs path base ≡ ok true → IsBelow base path
  unfolding is_sub_path
  is_sub_path-IsBelow path base h =
      let (p, e, k) = >>=-eq-ok (or_fail (fs.components path) runtime_error) _ h in
      let (b, f, l) = >>=-eq-ok (or_fail (fs.components base) runtime_error) _ k in
      let (rest, same) = is_prefix-append b p (ok-inj l) in
      (b, rest, or_fail-eq-ok _ runtime_error f, or_fail-eq-ok _ runtime_error e ∙ ap some same)

  -- If a file is sent, it is one of some kind, under the type of its extension.
  abbrev pub SendsOnly : {D : Type 0} → (P → Type 0) → ServerResponse P D → Type 0
  SendsOnly Q (file path mime) = Q path × (mime ≡ get_mime_type (fs.extension path))
  SendsOnly Q (text status type body) = Unit
  SendsOnly Q (api r) = Unit

  -- The path itself, or the index of the directory.
  abbrev pub IsFileOf : P → P → Type 0
  IsFileOf path found = (found ≡ path) ⊎ (found ≡ fs.join path (codes "index.html"))

  -- A file below the root, or the index of a directory below it.
  abbrev pub IsServed : P → P → Type 0
  IsServed root found = (path : P) × IsBelow root path × IsFileOf path found

  module _ (D : Type 0) where
    open_file-SendsOnly :
        (Q : P → Type 0) (path : P) → Q path → SendsOnly {D = D} Q (open_file fs path)
    unfolding open_file
    open_file-SendsOnly Q path q = elim (Bool-cases (fs.can_open path)) [
      | inl y ↦ rw (y, open_file) (q, refl)
      | inr n ↦ rw (n, open_file) tt
    ]

    find_file-SendsOnly : (path : P) → SendsOnly {D = D} (IsFileOf path) (find_file fs path)
    unfolding find_file
    find_file-SendsOnly path =
        chosen (fs.exists path) (fs.is_directory path)
          (fs.exists (fs.join path (codes "index.html"))) refl refl refl
      where
        chosen :
            (here directory index : Bool)
            → fs.exists path ≡ here
            → fs.is_directory path ≡ directory
            → fs.exists (fs.join path (codes "index.html")) ≡ index
            → SendsOnly {D = D} (IsFileOf path) (find_file fs path)
        chosen false directory index e f g = rw (e, find_file) tt
        chosen true false index e f g =
            rw (e, f, find_file) (open_file-SendsOnly (IsFileOf path) path (inl refl))
        chosen true true false e f g = rw (e, f, g, find_file) tt
        chosen true true true e f g =
            rw (e, f, g, find_file) (open_file-SendsOnly (IsFileOf path) _ (inr refl))

  module _ {D : Type 0} where
    SendsOnly-weaken :
        (Q R : P → Type 0) (r : ServerResponse P D)
        → ((p : P) → Q p → R p)
        → SendsOnly Q r
        → SendsOnly R r
    SendsOnly-weaken Q R (file path mime) f (q, e) = (f path q, e)
    SendsOnly-weaken Q R (text status type body) f v = tt
    SendsOnly-weaken Q R (api r) f v = tt

    get_file-SendsOnly :
        (root : P) (target : Bytes) (r : ServerResponse P D)
        → get_file fs root target ≡ ok r
        → SendsOnly (IsServed root) r
    unfolding get_file
    get_file-SendsOnly root target r h =
        let (rest, e, k) = >>=-eq-ok (substr_one fs target) _ h in
        let (inside, f, l) = >>=-eq-ok (is_sub_path fs (fs.join root rest) root) _ k in
        judged rest inside f l
      where
        judged :
            (rest : Bytes) (inside : Bool)
            → is_sub_path fs (fs.join root rest) root ≡ ok inside
            → ok (
                if inside
                then find_file fs (fs.join root rest)
                else plain fs 400 (codes "Invalid path outside of the static files directory."))
              ≡ ok r
            → SendsOnly (IsServed root) r
        judged rest true f l = subst (SendsOnly (IsServed root)) (ok-inj l) (
            SendsOnly-weaken (IsFileOf (fs.join root rest)) (IsServed root) _
              (λ p q. (fs.join root rest, is_sub_path-IsBelow (fs.join root rest) root f, q))
              (find_file-SendsOnly D (fs.join root rest)))
        judged rest false f l = subst (SendsOnly (IsServed root)) (ok-inj l) tt

    -- If a request for a file is answered with a file, then there is a path whose canonical form begins
    -- with all components of the root's, and the file is at that path or is the index.html of that
    -- directory; it is sent under the type of its extension.
    pub file_request_processing-SendsOnly :
        (root : P) (req : Request) (r : ServerResponse P D)
        → file_request_processing fs root req ≡ ok r
        → SendsOnly (IsServed root) r
    unfolding file_request_processing
    file_request_processing-SendsOnly root req r h =
        let (target, e, k) = >>=-eq-ok (url_decode req.target) _ h in
        elim (Bool-cases (is_get_head req.method)) [
          | inl y ↦ get_file-SendsOnly root target r (rw y at k)
          | inr n ↦ subst (SendsOnly (IsServed root)) (ok-inj (rw n at k)) tt
        ]
