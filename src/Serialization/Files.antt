-- ===== src/Serialization/Files.antt =====
-- Game::SaveState of src/model.cpp: the temporary file and its renaming. The file system is a function
-- from paths to files, and whether each of its operations succeeds is an argument.
use backend_for_browser_game.Base.{
  ◌≡◌, refl, ap, ◌∙◌, arith, Bool, true, false, not, Bool-cases, inl, inr, ◌⊎◌, List, [], ◌∷◌, ◌++◌,
  length, length-append, All, str_eq, str_eq-eq, str_eq_refl, Bytes, Option, some, none, Result, ok,
  err, runtime_error, if◌then◌else◌,
}
use backend_for_browser_game.Json.{codes}
use backend_for_browser_game.Model.World.{World}
use backend_for_browser_game.Serialization.Archive.{SaveFile, save_state}

-- A file of saved state; `partial` when it is not written to its end.
pub data File (D : Type 0) : Type 0 where
  partial : File D
  whole : SaveFile D → File D

abbrev pub Disk : Type 0 → Type 0
Disk D = Bytes → Option (File D)

-- Whether the operations succeed. A stream that cannot be flushed when it is closed throws nothing.
pub record Outcomes : Type 0 where
  pub directory : Bool
  pub opened : Bool
  pub written : Bool
  pub flushed : Bool
  pub renamed : Bool
  pub removed : Bool

-- What comes of saving: its result, the disk at its end, and the disk as it was before each change, the
-- last first.
pub record Saving (D : Type 0) : Type 0 where
  pub result : Result (Unit {0})
  pub disk : Disk D
  pub past : List (Disk D)

unfoldable pub temp_path : Bytes → Bytes
temp_path path = path ++ codes ".tmp"

temp_path-other : (path : Bytes) → str_eq (temp_path path) path ≡ false
unfolding temp_path
temp_path-other path = elim (Bool-cases (str_eq (temp_path path) path)) [
  | inl y ↦
      let long = ap (λ (s : Bytes). length s) (str_eq-eq (temp_path path) path y) in
      let sum = length-append path (codes ".tmp") in absurd (omega (arith, long, sum))
  | inr n ↦ n
]

module _ {D : Type 0} where
  unfoldable pub put_file : Bytes → Option (File D) → Disk D → Disk D
  put_file path file disk q = if str_eq path q then file else disk q

  -- The handler of exceptions, which removes the temporary file.
  unfoldable pub give_up : Outcomes → Bytes → Disk D → List (Disk D) → Saving D
  give_up o temp disk past = record {
    result = err runtime_error;
    disk = if o.removed then put_file temp none disk else disk;
    past = past;
  }

  -- The closing and the renaming of a file that is written.
  unfoldable pub finish : Outcomes → Bytes → SaveFile D → Disk D → List (Disk D) → Saving D
  finish o path f disk past =
      let content = if o.flushed then whole f else partial in
      let closed = put_file (temp_path path) (some content) disk in
      if o.renamed
      then record {
        result = ok tt;
        disk = put_file path (some content) (put_file (temp_path path) none closed);
        past = closed ∷ disk ∷ past;
      }
      else give_up o (temp_path path) closed (disk ∷ past)

  unfoldable pub save_file : World D → Outcomes → Disk D → Bytes → Saving D
  save_file w o disk path =
      let temp = temp_path path in
      let opened = put_file temp (some partial) disk in
      if not o.directory
      then record { result = err runtime_error; disk = disk; past = [] }
      else (if not o.opened
          then give_up o temp disk []
          else (if not o.written then give_up o temp opened (disk ∷ []) else elim (save_state w) [
            | err e ↦ record {
              result = err e;
              disk = (give_up o temp opened []).disk;
              past = opened ∷ disk ∷ [];
            }
            | ok f ↦ finish o path f opened (disk ∷ [])
          ]))

  -- Whatever happens at the temporary path is not seen at the path.
  put_file-temp :
      (path : Bytes) (file : Option (File D)) (disk : Disk D)
      → put_file (temp_path path) file disk path ≡ disk path
  unfolding put_file
  put_file-temp path file disk = rw (temp_path-other path) refl

  put_file_same :
      (path : Bytes) (file : Option (File D)) (disk : Disk D) → put_file path file disk path ≡ file
  unfolding put_file
  put_file_same path file disk = rw (str_eq_refl path) refl

  -- The file at a path is as it was on a first disk.
  abbrev pub Keeps : Bytes → Disk D → Disk D → Type 0
  Keeps path before disk = disk path ≡ before path

  give_up-Keeps :
      (o : Outcomes) (path : Bytes) (before disk : Disk D) (past : List (Disk D))
      → Keeps path before disk
      → Keeps path before (give_up o (temp_path path) disk past).disk
  unfolding give_up
  give_up-Keeps o path before disk past k = elim (Bool-cases o.removed) [
    | inl y ↦ rw y (put_file-temp path none disk ∙ k)
    | inr n ↦ rw n k
  ]

  -- What a path shows, before and after: the old file, or the whole new one if the saving worked.
  pub record IsAtomic (path : Bytes) (before : Disk D) (f : SaveFile D) (s : Saving D)
      : Type 0 where
    pub passed : All (Keeps path before) s.past
    pub ended :
        ((s.result ≡ ok tt) × (s.disk path ≡ some (whole f)))
        ⊎ ((s.result ≡ err runtime_error) × (s.disk path ≡ before path))

  give_up-IsAtomic :
      (o : Outcomes) (path : Bytes) (before disk : Disk D) (f : SaveFile D) (past : List (Disk D))
      → Keeps path before disk
      → All (Keeps path before) past
      → IsAtomic path before f (give_up o (temp_path path) disk past)
  unfolding give_up
  give_up-IsAtomic o path before disk f past k ks = record {
    passed = ks;
    ended = inr (refl, give_up-Keeps o path before disk past k);
  }

  finish-IsAtomic :
      (o : Outcomes) (path : Bytes) (before disk : Disk D) (f : SaveFile D) (past : List (Disk D))
      → o.flushed ≡ true
      → Keeps path before disk
      → All (Keeps path before) past
      → IsAtomic path before f (finish o path f disk past)
  unfolding finish give_up
  finish-IsAtomic o path before disk f past flushed k ks =
      let closed : Disk D = put_file (temp_path path) (some (whole f)) disk in
      let k' : Keeps path before closed = put_file-temp path (some (whole f)) disk ∙ k in
      rw flushed (elim (Bool-cases o.renamed) [
        | inl y ↦ rw y (record {
          passed = (k', (k, ks));
          ended =
              inl
                (refl, put_file_same path (some (whole f)) (put_file (temp_path path) none closed));
        })
        | inr n ↦ rw n (give_up-IsAtomic o path before closed f (disk ∷ past) k' (k, ks))
      ])

  -- Suppose a state can be saved as f, and the stream is flushed when it is closed. Then whichever other
  -- operation fails, on every disk that the saving passes the path shows what it showed before; at the
  -- end it shows f if the saving worked, and what it showed before if an exception is thrown.
  pub save_file-IsAtomic :
      (w : World D) (o : Outcomes) (disk : Disk D) (path : Bytes) (f : SaveFile D)
      → save_state w ≡ ok f
      → o.flushed ≡ true
      → IsAtomic path disk f (save_file w o disk path)
  unfolding save_file give_up
  save_file-IsAtomic w o disk path f saves flushed =
      let opened : Disk D = put_file (temp_path path) (some partial) disk in
      let k : Keeps path disk opened = put_file-temp path (some partial) disk in
      elim (Bool-cases o.directory) [
        | inr n ↦ rw n (record { passed = tt; ended = inr (refl, refl) })
        | inl y ↦ rw y (elim (Bool-cases o.opened) [
          | inr n ↦ rw n (give_up-IsAtomic o path disk disk f [] refl tt)
          | inl y' ↦ rw y' (elim (Bool-cases o.written) [
            | inr n ↦ rw n (give_up-IsAtomic o path disk opened f (disk ∷ []) k (refl, tt))
            | inl y'' ↦
                rw (y'', saves)
                  (finish-IsAtomic o path disk opened f (disk ∷ []) flushed k (refl, tt))
          ])
        ])
      ]

  -- A stream that cannot be flushed leaves a file that is not whole at the path, and no exception.
  pub save_file-partial :
      (w : World D) (removed : Bool) (disk : Disk D) (path : Bytes) (f : SaveFile D)
      → save_state w ≡ ok f
      → let full : Outcomes = record {
        directory = true;
        opened = true;
        written = true;
        flushed = false;
        renamed = true;
        removed = removed;
      } in
        ((save_file w full disk path).result ≡ ok tt)
        × ((save_file w full disk path).disk path ≡ some partial)
  unfolding save_file finish
  save_file-partial w removed disk path f saves =
      rw saves (refl, put_file_same path (some partial) _)
