-- ===== src/Handlers/Tokens.antt =====
-- PlayerTokens::GenerateToken of src/application.h, against IsValidHexToken of src/api_handler.cpp.
use backend_for_browser_game.Base.{
  ℕ, zero, suc, ◌/◌, ◌%◌, ◌^◌, ◌<◌, ◌≡◌, refl, sym, ◌∙◌, Bool, true, [], ◌∷◌, ◌++◌, length,
  length-append, all_of, Bytes, arith,
}
use backend_for_browser_game.Handlers.Text.{
  is_xdigit, hex_digit, hex_digits, generate_token, is_valid_hex_token,
}

length-hex_digits : (k n : ℕ) → length (hex_digits k n) ≡ k
unfolding hex_digits
length-hex_digits zero n = refl
length-hex_digits (suc k) n = omega (
  arith,
  length-append (hex_digits k (n / 16)) (hex_digit (n % 16) ∷ []),
  length-hex_digits k (n / 16),
)

hex_digit_xdigit : (n : ℕ) → n < 16 → is_xdigit (hex_digit n) ≡ true
unfolding is_xdigit
hex_digit_xdigit n h = ground arith

all_of-append :
    (p : ℕ → Bool) (xs ys : Bytes)
    → all_of p xs ≡ true
    → all_of p ys ≡ true
    → all_of p (xs ++ ys) ≡ true
all_of-append p [] ys h k = k
all_of-append p (x ∷ xs) ys h k = ground (arith, all_of-append p xs ys)

hex_digits_xdigits : (k n : ℕ) → all_of is_xdigit (hex_digits k n) ≡ true
unfolding hex_digits
hex_digits_xdigits zero n = refl
hex_digits_xdigits (suc k) n =
    all_of-append is_xdigit (hex_digits k (n / 16)) (hex_digit (n % 16) ∷ [])
      (hex_digits_xdigits k (n / 16)) (ground (arith, hex_digit_xdigit (n % 16) (omega arith)))

append_inj :
    (xs ys : Bytes) {us vs : Bytes}
    → length xs ≡ length ys
    → xs ++ us ≡ ys ++ vs
    → (xs ≡ ys) × (us ≡ vs)
append_inj [] [] e h = (refl, h)
append_inj [] (y ∷ ys) e h = absurd (omega (arith, e))
append_inj (x ∷ xs) [] e h = absurd (omega (arith, e))
append_inj (x ∷ xs) (y ∷ ys) e h =
    let (same, rest) = append_inj xs ys (omega (arith, e)) (ground (arith, h)) in
    (ground (arith, h, same), rest)

hex_digit-inj : (n m : ℕ) → n < 16 → m < 16 → hex_digit n ≡ hex_digit m → n ≡ m
hex_digit-inj n m a b h = ground arith

-- The digits tell a number below their range.
hex_digits-inj : (k n m : ℕ) → n < 16 ^ k → m < 16 ^ k → hex_digits k n ≡ hex_digits k m → n ≡ m
unfolding hex_digits
hex_digits-inj zero n m a b h = omega (arith, a, b)
hex_digits-inj (suc k) n m a b h =
    let (front, last) =
      append_inj (hex_digits k (n / 16)) (hex_digits k (m / 16))
        (length-hex_digits k (n / 16) ∙ sym (length-hex_digits k (m / 16))) h in
    let digit =
      hex_digit-inj (n % 16) (m % 16) (omega arith) (omega arith) (ground (arith, last)) in
    let high = hex_digits-inj k (n / 16) (m / 16) (omega (arith, a)) (omega (arith, b)) front in
    omega (arith, digit, high)

-- A token from any two numbers is one that requests may carry.
pub generate_token-IsValid : (a b : ℕ) → is_valid_hex_token (generate_token a b) ≡ true
unfolding is_valid_hex_token generate_token
generate_token-IsValid a b = ground (
  arith,
  length-append (hex_digits 16 a) (hex_digits 16 b),
  length-hex_digits 16 a,
  length-hex_digits 16 b,
  all_of-append is_xdigit (hex_digits 16 a) (hex_digits 16 b) (hex_digits_xdigits 16 a)
      (hex_digits_xdigits 16 b),
)

-- Two tokens are equal only if they come from the same two numbers of 64 bits.
pub generate_token-inj :
    (a b c e : ℕ)
    → a < 2 ^ 64
    → b < 2 ^ 64
    → c < 2 ^ 64
    → e < 2 ^ 64
    → generate_token a b ≡ generate_token c e
    → (a ≡ c) × (b ≡ e)
unfolding generate_token
generate_token-inj a b c e p q r s h =
    let (first, second) =
      append_inj (hex_digits 16 a) (hex_digits 16 c)
        (length-hex_digits 16 a ∙ sym (length-hex_digits 16 c)) h in
    (hex_digits-inj 16 a c p r first, hex_digits-inj 16 b e q s second)
