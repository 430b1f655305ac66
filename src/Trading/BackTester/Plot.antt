-- ===== src/Trading/BackTester/Plot.antt =====
-- `plotResults` of Computing-Server/src/Backtesting-Bot/bot.cpp: the points and the ticks that are given to
-- the plotting library.
use velocity_vortex.Base.{
  ℕ, zero, suc, ◌+◌, ◌/◌, ◌≤◌, ◌<◌, ◌≡◌, refl, true, false, Option, none, some, List, [], ◌∷◌, ltb,
  if◌then◌else◌, arith, Bool-cases, inl, inr,
}
use native.Mathlib.Nat.{div-eq_of_lt}

-- The places and the values of the points that are numbers, from place `i` on.
unfoldable pub marks : {A : Type 0} → ℕ → List (Option A) → List (ℕ × A)
marks i [] = []
marks i (none ∷ points) = marks (suc i) points
marks i (some x ∷ points) = (i, x) ∷ marks (suc i) points

-- `for (size_t i = 0; i < timeIndex.size(); i += step)`: the ticks from `i` on. `none`: not finished with
-- this fuel.
unfoldable pub ticks_from : ℕ → ℕ → ℕ → ℕ → Option (List ℕ)
ticks_from zero step size i = if ltb i size then none else some []
ticks_from (suc fuel) step size i =
    let later = ticks_from fuel step size (i + step) in
    if ltb i size then elim later [ none ↦ none | some xs ↦ some (i ∷ xs) ] else some []

unfoldable pub ticks : ℕ → ℕ → Option (List ℕ)
unfolding ticks_from
ticks fuel size = ticks_from fuel (size / 10) size 0

stuck : (fuel size : ℕ) → 0 < size → ticks_from fuel 0 size 0 ≡ none
unfolding ticks_from
stuck zero size pos = let more : ltb 0 size ≡ true = ground arith in rw more refl
stuck (suc fuel) size pos =
    let more : ltb 0 size ≡ true = ground arith in
    let stay : 0 + 0 ≡ 0 = omega arith in rw more (rw stay (rw (stuck fuel size pos) refl))

-- With 1 to 9 points the step is 0, and the loop over the ticks never ends.
pub ticks_hang : (fuel size : ℕ) → 0 < size → size < 10 → ticks fuel size ≡ none
unfolding ticks
ticks_hang fuel size pos few =
    let no_step : size / 10 ≡ 0 = div-eq_of_lt few in rw no_step (stuck fuel size pos)

finished :
    (fuel step size i : ℕ)
    → 0 < step
    → size ≤ fuel + i
    → (xs : List ℕ) × (ticks_from fuel step size i ≡ some xs)
unfolding ticks_from
finished zero step size i pos h = let done : ltb i size ≡ false = ground arith in ([], rw done refl)
finished (suc fuel) step size i pos h =
    let later = finished fuel step size (i + step) pos (omega arith) in
    elim (Bool-cases (ltb i size)) [
      | inl more ↦ (i ∷ later.0, rw more (rw later.1 refl))
      | inr done ↦ ([], rw done refl)
    ]

-- With 10 points or more, fuel for as many rounds as there are points is enough: the loop ends with some
-- ticks.
pub ticks-Returns : (size : ℕ) → 10 ≤ size → (xs : List ℕ) × (ticks size size ≡ some xs)
unfolding ticks
ticks-Returns size many = finished size (size / 10) size 0 (omega arith) (omega arith)
