-- ===== src/Handlers/Text.antt =====
-- Texts of requests: UrlDecode of src/handlers_utils.cpp, the tokens of PlayerTokens of
-- src/application.h, and the checks of src/api_handler.cpp.
use backend_for_browser_game.Base.{
  ℕ, zero, suc, ◌+◌, ◌-◌, ◌*◌, ◌/◌, ◌%◌, ◌==◌, leb, ltb, Bool, ◌&&◌, ◌||◌, [], ◌∷◌, ◌++◌, length,
  all_of, str_eq, Bytes, Result, ok, err, invalid_argument, ◌>>=◌, if◌then◌else◌,
}
use backend_for_browser_game.Application.{key_u, key_d, key_l, key_r}

-- std::isxdigit
unfoldable pub is_xdigit : ℕ → Bool
is_xdigit c = (leb b'0' c && leb c b'9') || (leb b'A' c && leb c b'F') || (leb b'a' c && leb c b'f')

-- std::from_chars to base 16, on one digit.
unfoldable pub hex_value : ℕ → ℕ
hex_value c = if leb c b'9' then c - b'0' else if leb c b'F' then c - b'A' + 10 else c - b'a' + 10

-- The loop of UrlDecode, from a place on. Two digits are wanted behind a percent sign.
unfoldable pub url_decode : Bytes → Result Bytes
url_decode [] = ok []
url_decode (c ∷ []) =
    if c == b'%' then err invalid_argument else ok ((if c == b'+' then b' ' else c) ∷ [])
url_decode (c ∷ a ∷ []) =
    let rest = url_decode (a ∷ []) in
    if c == b'%'
    then err invalid_argument
    else (rest >>= λ s. ok ((if c == b'+' then b' ' else c) ∷ s))
url_decode (c ∷ a ∷ b ∷ s) =
    let rest = url_decode s in
    let next = url_decode (a ∷ b ∷ s) in
    if c == b'%'
    then (if is_xdigit a && is_xdigit b
        then (rest >>= λ t. ok ((hex_value a * 16 + hex_value b) ∷ t))
        else err invalid_argument)
    else (next >>= λ t. ok ((if c == b'+' then b' ' else c) ∷ t))

-- std::hex prints small letters.
abbrev pub hex_digit : ℕ → ℕ
hex_digit n = if ltb n 10 then b'0' + n else b'a' + (n - 10)

-- The last `k` hexadecimal digits of a number, with zeros in front.
unfoldable pub hex_digits : ℕ → ℕ → Bytes
hex_digits zero n = []
hex_digits (suc k) n = hex_digits k (n / 16) ++ hex_digit (n % 16) ∷ []

-- PlayerTokens::GenerateToken, on the two numbers of 64 bits that are drawn.
unfoldable pub generate_token : ℕ → ℕ → Bytes
generate_token num1 num2 = hex_digits 16 num1 ++ hex_digits 16 num2

unfoldable pub is_valid_hex_token : Bytes → Bool
is_valid_hex_token token = length token == 32 && all_of is_xdigit token

unfoldable pub is_valid_action : Bytes → Bool
is_valid_action action =
    str_eq action key_u
    || str_eq action key_d
    || str_eq action key_l
    || str_eq action key_r
    || str_eq action []
