-- ===== src/Alpaca/Url.antt =====
-- `urlEncode` and `formatRFC3339`, Computing-Server/src/Data-Fetcher-Core/DataFetcher.cpp. A text is the
-- list of its bytes, each below 256; a char is signed, so a byte from 128 on is negative.
pub mod Sound
use velocity_vortex.Base.{
  false, ℕ, zero, suc, ◌+◌, ◌-◌, ◌/◌, ◌%◌, ◌^◌, Bool, ◌&&◌, ◌||◌, if◌then◌else◌, List, [], ◌∷◌,
  ◌++◌, Text, codes, leb, ltb, ◌==◌,
}

abbrev pub within : ℕ → ℕ → ℕ → Bool
within low high c = leb low c && leb c high

-- `isalnum` in the "C" locale; no negative char is one.
abbrev pub is_alnum : ℕ → Bool
is_alnum c = within 48 57 c || within 65 90 c || within 97 122 c

-- A letter, a digit, or one of - . _ ~
unfoldable pub is_unreserved : ℕ → Bool
is_unreserved c = is_alnum c || (c == 45) || (c == 95) || (c == 46) || (c == 126)

unfoldable pub hex_digit : ℕ → ℕ
hex_digit n = if ltb n 10 then 48 + n else 87 + n

-- The last digits of a number in base 16.
unfoldable pub hex_digits : ℕ → ℕ → Text
unfolding hex_digit
hex_digits zero n = []
hex_digits (suc k) n = hex_digits k (n / 16) ++ (hex_digit (n % 16) ∷ [])

-- `std::setw(2) << std::setfill('0') << std::hex << (int)c`: of a negative int the 8 digits of its 32
-- bits.
unfoldable pub hex_of_char : ℕ → Text
unfolding hex_digits
hex_of_char c = if ltb c 128 then hex_digits 2 c else hex_digits 8 (c + 2 ^ 32 - 256)

unfoldable pub encode_char : ℕ → Text
unfolding is_unreserved hex_of_char
encode_char c = if is_unreserved c then c ∷ [] else 37 ∷ hex_of_char c

unfoldable pub url_encode : Text → Text
url_encode [] = []
url_encode (c ∷ cs) = encode_char c ++ url_encode cs

-- `dateStr.find('T') != std::string::npos`.
unfoldable pub has_char : ℕ → Text → Bool
has_char d [] = false
has_char d (c ∷ cs) = (c == d) || has_char d cs

-- A date without a time gets midnight.
unfoldable pub format_rfc3339 : Text → Text
unfolding has_char
format_rfc3339 date = if has_char 84 date then date else date ++ codes "T00:00:00Z"

-- What is written to a std::ostringstream, one text after the other.
abbrev pub stream : List Text → Text
stream [] = []
stream (t ∷ ts) = t ++ stream ts
