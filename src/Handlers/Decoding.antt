-- ===== src/Handlers/Decoding.antt =====
-- UrlDecode of src/handlers_utils.cpp, against a grammar of percent encodings.
use backend_for_browser_game.Base.{
  ℕ, ◌+◌, ◌-◌, ◌*◌, ◌<◌, subst₂, ◌≡◌, ◌≢◌, refl, sym, ◌∙◌, subst, ◌↔◌, inl, inr, ◌==◌, leb, true,
  false, [], ◌∷◌, Bytes, ok, ok-inj, ◌>>=◌, >>=-eq-ok, arith, Bool-cases, if◌then◌else◌,
}
use backend_for_browser_game.Handlers.Text.{is_xdigit, hex_value, url_decode}

-- A hexadecimal digit, in capital or small letters, and its value.
pub data IsDigit : ℕ → ℕ → Type 0 where
  decimal : (n : ℕ) → n < 10 → IsDigit (b'0' + n) n
  capital : (n : ℕ) → n < 6 → IsDigit (b'A' + n) (10 + n)
  small : (n : ℕ) → n < 6 → IsDigit (b'a' + n) (10 + n)

-- A text and what it encodes: a byte may stand for itself unless it is a percent or a plus sign; a plus
-- sign is a space; and a percent sign with two digits is the byte of that number.
pub data IsEncoded : Bytes → Bytes → Type 0 where
  ends : IsEncoded [] []
  itself : (c : ℕ) (e s : Bytes) → c ≢ b'%' → c ≢ b'+' → IsEncoded e s → IsEncoded (c ∷ e) (c ∷ s)
  space : (e s : Bytes) → IsEncoded e s → IsEncoded (b'+' ∷ e) (b' ' ∷ s)
  escaped :
      (a b m n : ℕ) (e s : Bytes)
      → IsDigit a m
      → IsDigit b n
      → IsEncoded e s
      → IsEncoded (b'%' ∷ a ∷ b ∷ e) ((m * 16 + n) ∷ s)

digit_value : (c n : ℕ) → IsDigit c n → (is_xdigit c ≡ true) × (hex_value c ≡ n)
unfolding is_xdigit hex_value
digit_value _ _ (decimal n h) = (ground (arith, h), ground (arith, h))
digit_value _ _ (capital n h) = (ground (arith, h), ground (arith, h))
digit_value _ _ (small n h) = (ground (arith, h), ground (arith, h))

-- Of a byte that is no percent sign.
abbrev shown : ℕ → ℕ
shown c = if c == b'+' then b' ' else c

url_decode_first :
    (c : ℕ) (e : Bytes) → c ≢ b'%' → url_decode (c ∷ e) ≡ (url_decode e >>= λ t. ok (shown c ∷ t))
unfolding url_decode
url_decode_first c [] n = let miss : (c == b'%') ≡ false = ground (arith, n) in rw miss refl
url_decode_first c (a ∷ []) n = let miss : (c == b'%') ≡ false = ground (arith, n) in rw miss refl
url_decode_first c (a ∷ b ∷ e) n =
    let miss : (c == b'%') ≡ false = ground (arith, n) in rw miss refl

IsEncoded-url_decode : (e s : Bytes) → IsEncoded e s → url_decode e ≡ ok s
unfolding url_decode
IsEncoded-url_decode _ _ ends = refl
IsEncoded-url_decode _ _ (itself c e s n m k) =
    let miss : (c == b'+') ≡ false = ground (arith, m) in
    url_decode_first c e n ∙ rw (IsEncoded-url_decode e s k, miss) refl
IsEncoded-url_decode _ _ (space e s k) =
    url_decode_first b'+' e (λ h. ground (arith, h)) ∙ rw (IsEncoded-url_decode e s k) refl
IsEncoded-url_decode _ _ (escaped a b m n e s p q k) =
    let (x, y) = digit_value a m p in
    let (z, w) = digit_value b n q in rw (x, z, IsEncoded-url_decode e s k, y, w) refl

IsDigit-hex_value : (c : ℕ) → is_xdigit c ≡ true → IsDigit c (hex_value c)
unfolding is_xdigit hex_value
IsDigit-hex_value c h = elim (Bool-cases (leb c b'9')) [
  | inl y ↦
      let value : hex_value c ≡ c - b'0' = ground (arith, y) in
      subst₂ IsDigit (ground (arith, h, y)) (sym value) (decimal (c - b'0') (ground (arith, h, y)))
  | inr n ↦ elim (Bool-cases (leb c b'F')) [
    | inl y ↦
        let value : hex_value c ≡ c - b'A' + 10 = ground (arith, y, n) in
        subst₂ IsDigit (ground (arith, h, y, n)) (omega arith ∙ sym value)
          (capital (c - b'A') (ground (arith, h, y, n)))
    | inr m ↦
        let value : hex_value c ≡ c - b'a' + 10 = ground (arith, m, n) in
        subst₂ IsDigit (ground (arith, h, m, n)) (omega arith ∙ sym value)
          (small (c - b'a') (ground (arith, h, m, n)))
  ]
]

IsEncoded-shown : (c : ℕ) (e t : Bytes) → c ≢ b'%' → IsEncoded e t → IsEncoded (c ∷ e) (shown c ∷ t)
IsEncoded-shown c e t n k = elim (Bool-cases (c == b'+')) [
  | inl y ↦ let same : c ≡ b'+' = ground (arith, y) in rw same (space e t k)
  | inr m ↦ rw m (itself c e t n (λ h. ground (arith, m, h)) k)
]

-- A step at a byte that is no percent sign, given the steps behind it.
plain_step :
    (c : ℕ) (e s : Bytes)
    → (c == b'%') ≡ false
    → ((t : Bytes) → url_decode e ≡ ok t → IsEncoded e t)
    → url_decode (c ∷ e) ≡ ok s
    → IsEncoded (c ∷ e) s
plain_step c e s miss ih h =
    let other : c ≢ b'%' = λ q. ground (arith, miss, q) in
    let (t, p, q) = >>=-eq-ok (url_decode e) _ (sym (url_decode_first c e other) ∙ h) in
    subst (IsEncoded (c ∷ e)) (ok-inj q) (IsEncoded-shown c e t other (ih t p))

escaped_step :
    (c a b : ℕ) (e s : Bytes)
    → (c == b'%') ≡ true
    → ((t : Bytes) → url_decode e ≡ ok t → IsEncoded e t)
    → url_decode (c ∷ a ∷ b ∷ e) ≡ ok s
    → IsEncoded (c ∷ a ∷ b ∷ e) s
unfolding url_decode
escaped_step c a b e s hit ih h = elim (Bool-cases (is_xdigit a)) [
  | inr n ↦ absurd (ground (arith, rw (hit, n) at h))
  | inl y ↦ elim (Bool-cases (is_xdigit b)) [
    | inr n ↦ absurd (ground (arith, rw (hit, y, n) at h))
    | inl z ↦
        let (t, p, q) = >>=-eq-ok (url_decode e) _ (rw (hit, y, z) at h) in
        let same : c ≡ b'%' = ground (arith, hit) in
        rw same (
          subst (IsEncoded (b'%' ∷ a ∷ b ∷ e)) (ok-inj q) (
            escaped a b (hex_value a) (hex_value b) e t (IsDigit-hex_value a y)
              (IsDigit-hex_value b z) (ih t p)))
  ]
]

url_decode-IsEncoded : (e s : Bytes) → url_decode e ≡ ok s → IsEncoded e s
unfolding url_decode
url_decode-IsEncoded [] s h = subst (IsEncoded []) (ok-inj h) ends
url_decode-IsEncoded (c ∷ []) s h = elim (Bool-cases (c == b'%')) [
  | inl y ↦ absurd (ground (arith, rw y at h))
  | inr n ↦ plain_step c [] s n (λ t k. subst (IsEncoded []) (ok-inj k) ends) h
]
url_decode-IsEncoded (c ∷ a ∷ []) s h = elim (Bool-cases (c == b'%')) [
  | inl y ↦ absurd (ground (arith, rw y at h))
  | inr n ↦ plain_step c (a ∷ []) s n (url_decode-IsEncoded (a ∷ [])) h
]
url_decode-IsEncoded (c ∷ a ∷ b ∷ e) s h = elim (Bool-cases (c == b'%')) [
  | inl y ↦ escaped_step c a b e s y (url_decode-IsEncoded e) h
  | inr n ↦ plain_step c (a ∷ b ∷ e) s n (url_decode-IsEncoded (a ∷ b ∷ e)) h
]

-- A text is decoded, and to which one, exactly as the grammar of percent encodings says; for every text
-- that is no encoding, the exception is thrown.
pub url_decode_iff : (e s : Bytes) → (url_decode e ≡ ok s) ↔ IsEncoded e s
url_decode_iff e s = (url_decode-IsEncoded e s, IsEncoded-url_decode e s)
