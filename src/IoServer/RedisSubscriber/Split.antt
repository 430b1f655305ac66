-- ===== src/IoServer/RedisSubscriber/Split.antt =====
-- `RedisSubscriber::splitString` of IO-Server/src/Redissubscriber.cpp: std::getline with a delimiter, until
-- the text is at its end. A delimiter at the end does not start another token.
use velocity_vortex.Base.{
  ℕ, ◌≡◌, ◌≢◌, refl, ap, ◌∙◌, true, false, ◌==◌, List, [], ◌∷◌, ◌++◌, All, Text, if◌then◌else◌,
  arith,
}

-- A byte before the first token.
unfoldable pub lengthen : ℕ → List Text → List Text
lengthen c [] = (c ∷ []) ∷ []
lengthen c (token ∷ tokens) = (c ∷ token) ∷ tokens

unfoldable pub split_string : ℕ → Text → List Text
unfolding lengthen
split_string delimiter [] = []
split_string delimiter (c ∷ cs) =
    let rest = split_string delimiter cs in if c == delimiter then [] ∷ rest else lengthen c rest

-- The tokens with the delimiter between them.
unfoldable pub join : ℕ → Text → List Text → Text
join delimiter token [] = token
join delimiter token (next ∷ tokens) = token ++ (delimiter ∷ join delimiter next tokens)

-- No token has the delimiter in it, and the last token is not empty.
abbrev pub Tokens : ℕ → Text → List Text → Type 0
Tokens delimiter token [] = All (λ c. c ≢ delimiter) token × (token ≢ [])
Tokens delimiter token (next ∷ tokens) =
    All (λ c. c ≢ delimiter) token × Tokens delimiter next tokens

differ : (c d : ℕ) → c ≢ d → (c == d) ≡ false
differ c d h = ground arith

same : (d : ℕ) → (d == d) ≡ true
same d = ground arith

split_last :
    (d : ℕ) (c : ℕ) (cs : Text)
    → All (λ b. b ≢ d) (c ∷ cs)
    → split_string d (c ∷ cs) ≡ (c ∷ cs) ∷ []
unfolding split_string lengthen
split_last d c [] h = rw (differ c d h.0) refl
split_last d c (b ∷ cs) h = rw (differ c d h.0) (ap (lengthen c) (split_last d b cs h.1))

split_before :
    (d : ℕ) (token text : Text)
    → All (λ b. b ≢ d) token
    → split_string d (token ++ (d ∷ text)) ≡ token ∷ split_string d text
unfolding split_string lengthen
split_before d [] text h = rw (same d) refl
split_before d (c ∷ token) text h =
    rw (differ c d h.0) (ap (lengthen c) (split_before d token text h.1))

-- A text of tokens with the delimiter between them is split into the tokens, if none has the delimiter
-- in it and the last is not empty.
pub split_string-join :
    (delimiter : ℕ) (token : Text) (tokens : List Text)
    → Tokens delimiter token tokens
    → split_string delimiter (join delimiter token tokens) ≡ token ∷ tokens
unfolding join
split_string-join d [] [] h = elim (h.1 refl) [ ]
split_string-join d (c ∷ cs) [] h = split_last d c cs h.0
split_string-join d token (next ∷ tokens) h =
    split_before d token _ h.0 ∙ ap (λ ts. token ∷ ts) (split_string-join d next tokens h.1)
