-- ===== src/Alpaca/Url/Sound.antt =====
-- What an encoded text is read back as, and what it holds.
use velocity_vortex.Base.{
  ℕ, zero, suc, ◌+◌, ◌-◌, ◌*◌, ◌/◌, ◌%◌, ◌^◌, ◌<◌, ◌≡◌, refl, ap, inl, inr, true, false, ◌||◌,
  if◌then◌else◌, [], ◌∷◌, ◌++◌, All, All-append, Text, ltb, ◌==◌, arith, Bool-cases,
}
use velocity_vortex.Alpaca.Url.{
  is_unreserved, hex_digit, hex_digits, hex_of_char, encode_char, url_encode,
}

-- The reading of an encoded text: a percent sign and two digits stand for a byte.
abbrev pub hex_value : ℕ → ℕ
hex_value d = if ltb d 58 then d - 48 else d - 87

unfoldable pub url_decode : Text → Text
url_decode [] = []
url_decode (c ∷ []) = c ∷ []
url_decode (c ∷ d ∷ []) = c ∷ d ∷ []
url_decode (c ∷ d ∷ e ∷ cs) =
    let short = url_decode cs in
    let long = url_decode (d ∷ e ∷ cs) in
    if c == 37 then (16 * hex_value d + hex_value e) ∷ short else c ∷ long

abbrev pub IsAscii : ℕ → Type 0
IsAscii c = c < 128

-- What an encoded text holds beside percent signs.
abbrev pub IsEncoded : ℕ → Type 0
IsEncoded c = (is_unreserved c || (c == 37)) ≡ true

hex_value-hex_digit : (n : ℕ) → n < 16 → hex_value (hex_digit n) ≡ n
unfolding hex_digit
hex_value-hex_digit n h = ground arith

url_decode_plain : (c : ℕ) (cs : Text) → (c == 37) ≡ false → url_decode (c ∷ cs) ≡ c ∷ url_decode cs
unfolding url_decode
url_decode_plain c [] e = refl
url_decode_plain c (d ∷ []) e = refl
url_decode_plain c (d ∷ f ∷ cs) e = rw e refl

unreserved_no_percent : (c : ℕ) → is_unreserved c ≡ true → (c == 37) ≡ false
unfolding is_unreserved
unreserved_no_percent c e = ground arith

url_decode-encode_char :
    (c : ℕ) (cs : Text) → c < 128 → url_decode (encode_char c ++ cs) ≡ c ∷ url_decode cs
unfolding encode_char hex_of_char hex_digits url_decode
url_decode-encode_char c cs h = elim (Bool-cases (is_unreserved c)) [
  | inl e ↦ rw e (url_decode_plain c cs (unreserved_no_percent c e))
  | inr e ↦
      let ascii : ltb c 128 ≡ true = ground arith in
      rw e (
        rw ascii (
          rw (hex_value-hex_digit (c / 16 % 16) (omega arith)) (
            rw (hex_value-hex_digit (c % 16) (omega arith))
              (ap (λ b. b ∷ url_decode cs) (omega arith)))))
]

-- An ASCII text that is encoded is read back as it was.
pub url_decode-url_encode : (t : Text) → All IsAscii t → url_decode (url_encode t) ≡ t
unfolding url_encode url_decode
url_decode-url_encode [] ascii = refl
url_decode-url_encode (c ∷ cs) (h, hs) =
    rw (url_decode-encode_char c (url_encode cs) h) (ap (λ t. c ∷ t) (url_decode-url_encode cs hs))

IsEncoded-head :
    (c : ℕ) (cs : Text) → is_unreserved c ≡ true → All IsEncoded cs → All IsEncoded (c ∷ cs)
IsEncoded-head c cs e h = (rw e refl, h)

percent_head : (cs : Text) → All IsEncoded cs → All IsEncoded (37 ∷ cs)
unfolding is_unreserved
percent_head cs h = (refl, h)

hex_digit-is_unreserved : (n : ℕ) → n < 16 → is_unreserved (hex_digit n) ≡ true
unfolding hex_digit is_unreserved
hex_digit-is_unreserved n h = ground arith

hex_digits-IsEncoded : (k n : ℕ) → All IsEncoded (hex_digits k n)
unfolding hex_digits
hex_digits-IsEncoded zero n = tt
hex_digits-IsEncoded (suc k) n =
    All-append IsEncoded (hex_digits k (n / 16)) _ (hex_digits-IsEncoded k (n / 16))
      (IsEncoded-head _ [] (hex_digit-is_unreserved (n % 16) (omega arith)) tt)

encode_char-IsEncoded : (c : ℕ) → All IsEncoded (encode_char c)
unfolding encode_char hex_of_char
encode_char-IsEncoded c = elim (Bool-cases (is_unreserved c)) [
  | inl e ↦ rw e (IsEncoded-head c [] e tt)
  | inr e ↦ elim (Bool-cases (ltb c 128)) [
    | inl small ↦ rw e (rw small (percent_head (hex_digits 2 c) (hex_digits-IsEncoded 2 c)))
    | inr large ↦ rw e (
        rw large (
          percent_head (hex_digits 8 (c + 2 ^ 32 - 256))
            (hex_digits-IsEncoded 8 (c + 2 ^ 32 - 256))))
  ]
]

-- Whatever bytes a text has, what it is encoded to holds letters, digits, the characters - . _ ~ and
-- percent signs only: it cannot end a parameter of a URL or begin another one.
pub url_encode-IsEncoded : (t : Text) → All IsEncoded (url_encode t)
unfolding url_encode
url_encode-IsEncoded [] = tt
url_encode-IsEncoded (c ∷ cs) =
    All-append IsEncoded (encode_char c) (url_encode cs) (encode_char-IsEncoded c)
      (url_encode-IsEncoded cs)
