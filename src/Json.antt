-- ===== src/Json.antt =====
-- The library boost::json, as far as the code calls it. The type of its values is a parameter.
use backend_for_browser_game.Base.{
  ℤ, ◌≡◌, ◌==◌, Bool, true, List, [], ◌∷◌, find_if, str_eq, Bytes, Option, some, none, Result, err,
  or_fail, runtime_error, if◌then◌else◌,
}
use Prim.Native.Char.{code}
use Prim.Native.String.{String}
use mathlib.Core.Option

-- The bytes of a text in ASCII.
abbrev pub codes : String → Bytes
codes String.[] = []
codes (String.◌∷◌ c s) = code c ∷ codes s

-- `parse` fails on what is no JSON, `member` is a member of an object, and the others fail on values of
-- another kind.
pub record Json (J : Type 0) : Type 0 where
  pub parse : Bytes → Option J
  pub is_object : J → Bool
  pub member : J → Bytes → Option J
  pub as_string : J → Option Bytes
  pub as_int64 : J → Option ℤ
  pub as_array : J → Option (List J)

-- Numbers with a point or an exponent; whole numbers are of another kind.
pub record Doubles (J D : Type 0) : Type 0 where
  pub as_double : J → Option D

-- Values that the code makes. An object is given by its members, with different keys.
pub record Maker (J : Type 0) : Type 0 where
  pub of_int : ℤ → J
  pub of_string : Bytes → J
  pub of_array : List J → J
  pub of_object : List (Bytes × J) → J

-- A value that is made is read back.
pub record IsFaithful {J : Type 0} (json : Json J) (make : Maker J) : Type 0 where
  pub as_int64_of_int : (n : ℤ) → json.as_int64 (make.of_int n) ≡ some n
  pub as_string_of_string : (s : Bytes) → json.as_string (make.of_string s) ≡ some s
  pub as_array_of_array : (vs : List J) → json.as_array (make.of_array vs) ≡ some vs
  pub is_object_of_object : (ms : List (Bytes × J)) → json.is_object (make.of_object ms) ≡ true
  pub member_of_object :
      (ms : List (Bytes × J)) (key : Bytes)
      → json.member (make.of_object ms) key
        ≡ Option.map (λ (m : Bytes × J). m.1) (find_if (λ (m : Bytes × J). str_eq m.0 key) ms)

-- A member that is absent is made a null by `operator[]`, on which every accessor throws.
abbrev pub read : {J A : Type 0} → Option J → (J → Option A) → Result A
read none get = err runtime_error
read (some v) get = or_fail (get v) runtime_error

-- c_str(), up to the first null.
abbrev pub c_str : Bytes → Bytes
c_str [] = []
c_str (c ∷ s) = if c == 0 then [] else c ∷ c_str s
