-- ===== src/Trading/Double.antt =====
-- The type `double` of the trading code (Computing-Server/src): the operations that the code uses, which
-- the other modules take as a parameter, and what it builds from them.
use velocity_vortex.Base.{ℕ, suc, ◌^◌, ltb, Bool, if◌then◌else◌, List, Option, none, some}
use velocity_vortex.Base.Int.{ℤ, pos, negsuc}

pub record Double : Type 1 where
  pub Carrier : Type 0
  pub add : Carrier → Carrier → Carrier
  pub sub : Carrier → Carrier → Carrier
  pub mul : Carrier → Carrier → Carrier
  pub div : Carrier → Carrier → Carrier
  pub neg : Carrier → Carrier
  pub abs : Carrier → Carrier
  pub sqrt : Carrier → Carrier
  pub less : Carrier → Carrier → Bool
  pub equal : Carrier → Carrier → Bool
  -- The double of a whole number that an int or a long holds.
  pub of_nat : ℕ → Carrier
  -- The whole number with the fraction cut off; `none` of no number and of the infinities.
  pub truncate : Carrier → Option ℤ
  -- `std::numeric_limits<double>::max()`.
  pub largest : Carrier
  -- The literal with these digits, of which the second number stand behind the point.
  pub decimal : ℕ → ℕ → Carrier
  -- std::transform_reduce with std::execution::par: the sum, in an order that is not specified. The
  -- number of the sum among those that are made stands for that order, which may be another each time.
  pub par_sum : ℕ → List Carrier → Carrier

module _ (F : Double) where
  -- std::min and std::max.
  abbrev pub min_of : F.Carrier → F.Carrier → F.Carrier
  min_of a b = if F.less b a then b else a

  abbrev pub max_of : F.Carrier → F.Carrier → F.Carrier
  max_of a b = if F.less a b then b else a

  abbrev pub of_int : ℤ → F.Carrier
  of_int (pos n) = F.of_nat n
  of_int (negsuc n) = F.neg (F.of_nat (suc n))

  -- The conversion to a signed type of so many bits and the sign. `none`: it is out of range, and not
  -- defined.
  abbrev pub in_signed : ℕ → ℤ → Bool
  in_signed bits (pos n) = ltb n (2 ^ bits)
  in_signed bits (negsuc n) = ltb n (2 ^ bits)

  unfoldable pub to_signed : ℕ → F.Carrier → Option ℤ
  to_signed bits x = elim (F.truncate x) [
    | none ↦ none
    | some n ↦ if in_signed bits n then some n else none
  ]
