-- ===== src/Base/Number.antt =====
-- Numbers in decimal texts, as the C++ standard library reads and prints them: std::atoi, std::stoi,
-- std::stoll, strtoll and std::to_string. A number past the range of int, on which atoi has no defined
-- result, is read as it stands.
use Prim.Native.Nat.{ℕ, zero, suc, ◌+◌, ◌-◌, ◌*◌, ◌/◌, ◌%◌, ◌^◌, ◌<◌}
use mathlib.Core.Path.{◌≡◌, sym, ap, ◌∙◌}
use mathlib.Core.Logic.{inl, inr}
use mathlib.Core.Bool.{Bool, true, false, ◌&&◌, ◌||◌}
use mathlib.Core.Option.{Option, none, some}
use mathlib.Core.List.{[], ◌∷◌}
use native.Mathlib.Omega.{arith}
use velocity_vortex.Base.Tests.{leb, ltb, ◌==◌, if◌then◌else◌, Bool-cases}
use velocity_vortex.Base.Lists.{Text}
use velocity_vortex.Base.Int.{ℤ, pos, negsuc}

-- std::isspace in the C locale.
abbrev pub is_space : ℕ → Bool
is_space c = (c == 32) || (leb 9 c && leb c 13)

abbrev pub is_digit : ℕ → Bool
is_digit c = leb 48 c && leb c 57

-- The value of the digits at the head of a text, after those that make `acc`.
unfoldable pub digits_value : ℕ → Text → ℕ
digits_value acc [] = acc
digits_value acc (c ∷ cs) =
    let more = digits_value (acc * 10 + (c - 48)) cs in if is_digit c then more else acc

abbrev pub minus : ℕ → ℤ
minus zero = pos 0
minus (suc n) = negsuc n

unfoldable pub atoi : Text → ℤ
unfolding digits_value
atoi [] = pos 0
atoi (c ∷ cs) =
    let after_space = atoi cs in
    if is_space c
    then after_space
    else if c == 45
    then minus (digits_value 0 cs)
    else if c == 43
    then pos (digits_value 0 cs)
    else pos (digits_value 0 (c ∷ cs))

-- The number after a sign. `none`: there is no digit.
unfoldable pub signed : Bool → Text → Option ℤ
unfolding digits_value
signed negative [] = none
signed negative (c ∷ cs) =
    let n = digits_value 0 (c ∷ cs) in
    if is_digit c then some (if negative then minus n else pos n) else none

unfoldable pub to_integer : Text → Option ℤ
unfolding signed
to_integer [] = none
to_integer (c ∷ cs) =
    let after_space = to_integer cs in
    if is_space c
    then after_space
    else if c == 45
    then signed true cs
    else if c == 43
    then signed false cs
    else signed false (c ∷ cs)

-- Whether a signed word with so many bits besides its sign holds the number.
unfoldable pub fits : ℕ → ℤ → Bool
fits bits (pos n) = ltb n (2 ^ bits)
fits bits (negsuc n) = ltb n (2 ^ bits)

unfoldable pub in_word : ℕ → Option ℤ → Option ℤ
unfolding fits
in_word bits none = none
in_word bits (some i) = if fits bits i then some i else none

-- `none`: std::invalid_argument or std::out_of_range is thrown.
unfoldable pub stoi : Text → Option ℤ
unfolding in_word to_integer
stoi t = in_word 31 (to_integer t)

unfoldable pub stoll : Text → Option ℤ
unfolding in_word to_integer
stoll t = in_word 63 (to_integer t)

unfoldable pub all_digits : Text → Bool
all_digits [] = true
all_digits (c ∷ cs) = is_digit c && all_digits cs

unfoldable pub ends_with_number : Text → Bool
unfolding all_digits
ends_with_number [] = false
ends_with_number (c ∷ cs) =
    let after_space = ends_with_number cs in
    if is_space c
    then after_space
    else if (c == 45) || (c == 43)
    then (elim cs [ [] ↦ false | d ∷ ds ↦ all_digits (d ∷ ds) ])
    else all_digits (c ∷ cs)

-- A number that does not fit is the greatest or the least that does.
unfoldable pub clamp : ℤ → ℤ
clamp (pos n) = if ltb n (2 ^ 63) then pos n else pos (2 ^ 63 - 1)
clamp (negsuc n) = if ltb n (2 ^ 63) then negsuc n else negsuc (2 ^ 63 - 1)

-- `strtoll(text, &end, 10)`, if it reads the whole text.
unfoldable pub strtoll : Text → Option ℤ
unfolding to_integer ends_with_number clamp
strtoll t =
    if ends_with_number t
    then elim (to_integer t) [ none ↦ none | some i ↦ some (clamp i) ]
    else none

-- The digits of a number before `acc`.
unfoldable pub show_from : ℕ → ℕ → Text → Text
show_from zero n acc = acc
show_from (suc f) n acc =
    let more = show_from f (n / 10) ((48 + n % 10) ∷ acc) in
    if ltb n 10 then (48 + n) ∷ acc else more

unfoldable pub to_string : ℕ → Text
unfolding show_from
to_string n = show_from (suc n) n []

unfoldable pub show_ℤ : ℤ → Text
unfolding to_string
show_ℤ (pos n) = to_string n
show_ℤ (negsuc n) = 45 ∷ to_string (n + 1)

digits_value-digit :
    (acc d : ℕ) (cs : Text)
    → d < 10
    → digits_value acc ((48 + d) ∷ cs) ≡ digits_value (acc * 10 + d) cs
unfolding digits_value
digits_value-digit acc d cs h =
    let digit : is_digit (48 + d) ≡ true = ground arith in
    let value : 48 + d - 48 ≡ d = omega arith in rw digit (rw value)

digits_value-show_from :
    (f n : ℕ) (acc : Text) → n < f → digits_value 0 (show_from f n acc) ≡ digits_value n acc
unfolding show_from
digits_value-show_from zero n acc h = elim h [ ]
digits_value-show_from (suc f) n acc h = elim (Bool-cases (ltb n 10)) [
  | inl small ↦ rw small (digits_value-digit 0 n acc (ground arith) ∙ same_digits (omega arith))
  | inr large ↦ rw large (
      digits_value-show_from f (n / 10) _ (ground arith)
      ∙ (digits_value-digit (n / 10) (n % 10) acc (omega arith) ∙ same_digits (omega arith)))
]
  where
    same_digits : {j k : ℕ} → j ≡ k → digits_value j acc ≡ digits_value k acc
    same_digits e = ap (λ i. digits_value i acc) e

-- The first byte of a printed number is a digit.
show_from_head :
    (f n : ℕ) (acc : Text)
    → n < f
    → (d : ℕ) × (cs : Text) × (d < 10) × (show_from f n acc ≡ (48 + d) ∷ cs)
unfolding show_from
show_from_head zero n acc h = elim h [ ]
show_from_head (suc f) n acc h = elim (Bool-cases (ltb n 10)) [
  | inl small ↦ (n, acc, ground arith, rw small)
  | inr large ↦ rw large (show_from_head f (n / 10) _ (ground arith))
]

atoi-digit :
    (d : ℕ) (cs : Text) → d < 10 → atoi ((48 + d) ∷ cs) ≡ pos (digits_value 0 ((48 + d) ∷ cs))
unfolding atoi
atoi-digit d cs h = ground arith

-- Reading a printed number gives the number.
pub atoi-to_string : (n : ℕ) → atoi (to_string n) ≡ pos n
unfolding to_string digits_value
atoi-to_string n =
    let (d, cs, small, e) = show_from_head (suc n) n [] (omega arith) in
    rw e (atoi-digit d cs small)
    ∙ ap pos (ap (digits_value 0) (sym e) ∙ digits_value-show_from (suc n) n [] (omega arith))
