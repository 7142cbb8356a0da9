-- ===== src/Handlers/Records.antt =====
-- The query of a request for records: the loop over its parameters in GetRecordsResponse of
-- src/api_handler.h.
use backend_for_browser_game.Base.{
  ℕ, ℤ, pos, ◌-◌, ◌-ℤ◌, ◌^◌, ◌≤◌, ◌≡◌, ◌==◌, pos_part, leb, ltb, inl, inr, List, [], ◌∷◌, ◌++◌,
  str_eq, Bytes, Option, some, none, arith, Option-cases, if◌then◌else◌,
}
use backend_for_browser_game.Model.Gather.{is_digit, is_space, digits_value}

-- Up to the first place of a byte, and what is behind it, if it occurs.
unfoldable pub cut : ℕ → Bytes → Bytes × Option Bytes
cut sep [] = ([], none)
cut sep (c ∷ s) =
    let (front, rest) = cut sep s in if c == sep then ([], some s) else (c ∷ front, rest)

-- std::getline with a separator, until the end of the stream. An empty line has no effect on the loop.
unfoldable pub lines : ℕ → Bytes → Bytes → List Bytes
lines sep line [] = line ∷ []
lines sep line (c ∷ s) =
    let fresh = lines sep [] s in
    let longer = lines sep (line ++ c ∷ []) s in if c == sep then line ∷ fresh else longer

-- At least one digit, in the range of `int`.
unfoldable pub int_digits : ℕ → Bytes → Option ℕ
unfolding digits_value
int_digits limit [] = none
int_digits limit (c ∷ cs) =
    if is_digit c
    then (if leb (digits_value 0 (c ∷ cs)) limit then some (digits_value 0 (c ∷ cs)) else none)
    else none

abbrev negated : Option ℕ → Option ℤ
negated none = none
negated (some n) = some (pos 0 -ℤ pos n)

abbrev positive : Option ℕ → Option ℤ
positive none = none
positive (some n) = some (pos n)

-- std::stoi: `none` where it throws.
unfoldable pub stoi : Bytes → Option ℤ
unfolding int_digits
stoi [] = none
stoi (c ∷ cs) =
    let rest = stoi cs in
    if is_space c
    then rest
    else if c == b'-'
    then negated (int_digits (2 ^ 31) cs)
    else if c == b'+'
    then positive (int_digits (2 ^ 31 - 1) cs)
    else positive (int_digits (2 ^ 31 - 1) (c ∷ cs))

abbrev pub key_start : Bytes
key_start = b's' ∷ b't' ∷ b'a' ∷ b'r' ∷ b't' ∷ []

abbrev pub key_max_items : Bytes
key_max_items = b'm' ∷ b'a' ∷ b'x' ∷ b'I' ∷ b't' ∷ b'e' ∷ b'm' ∷ b's' ∷ []

-- Where the rows start, and how many are asked for. What throws changes nothing.
pub record Page : Type 0 where
  pub start : ℕ
  pub max_items : ℕ

unfoldable pub start_of : Option ℤ → Page → Page
start_of none p = p
start_of (some n) p = record p { start = pos_part n }

-- More than a hundred rows are refused.
unfoldable pub max_items_of : Option ℤ → Page → Option Page
max_items_of none p = some p
max_items_of (some n) p =
    if ltb 100 (pos_part n) then none else some (record p { max_items = pos_part n })

unfoldable pub read_param : Bytes × Option Bytes → Page → Option Page
unfolding stoi
read_param (key, none) p = some p
read_param (key, some value) p =
    if str_eq key key_start
    then some (start_of (stoi value) p)
    else if str_eq key key_max_items
    then max_items_of (stoi value) p
    else some p

unfoldable pub read_params : List Bytes → Page → Option Page
read_params [] p = some p
read_params (line ∷ rest) p = elim (read_param (cut b'=' line) p) [
  | none ↦ none
  | some q ↦ read_params rest q
]

abbrev pub default_page : Page
default_page = record { start = 0; max_items = 100 }

abbrev pub page_of_query : Option Bytes → Option Page
page_of_query none = some default_page
page_of_query (some query) = read_params (lines b'&' [] query) default_page

-- The page that a target asks for, `none` for a bad request.
unfoldable pub page_of : Bytes → Option Page
page_of target = page_of_query (cut b'?' target).1

read_param-max_items :
    (e : Bytes × Option Bytes) (p q : Page)
    → p.max_items ≤ 100
    → read_param e p ≡ some q
    → q.max_items ≤ 100
unfolding read_param start_of max_items_of
read_param-max_items e p q b h = ground arith

read_params-max_items :
    (ls : List Bytes) (p q : Page)
    → p.max_items ≤ 100
    → read_params ls p ≡ some q
    → q.max_items ≤ 100
unfolding read_params
read_params-max_items [] p q b h = ground arith
read_params-max_items (l ∷ ls) p q b h = elim (Option-cases (read_param (cut b'=' l) p)) [
  | inl refused ↦ ground (arith, rw (refused, read_params) at h)
  | inr (r, read) ↦
      read_params-max_items ls r q (read_param-max_items (cut b'=' l) p r b read)
        (rw (read, read_params) at h)
]

page_of_query-max_items :
    (query : Option Bytes) (p : Page) → page_of_query query ≡ some p → p.max_items ≤ 100
page_of_query-max_items none p h = ground arith
page_of_query-max_items (some query) p h =
    read_params-max_items (lines b'&' [] query) default_page p (omega arith) h

-- Whatever a request's query says, no more than a hundred rows are asked of the database.
pub page_of-max_items : (target : Bytes) (p : Page) → page_of target ≡ some p → p.max_items ≤ 100
unfolding page_of
page_of-max_items target p h = page_of_query-max_items (cut b'?' target).1 p h
