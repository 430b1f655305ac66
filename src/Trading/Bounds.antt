-- ===== src/Trading/Bounds.antt =====
-- The high and the low of the candle that `buildAggregatedCandle`
-- (Computing-Server/src/Utilities/Utilities.cpp) makes.
use velocity_vortex.Base.{
  ◌≡◌, refl, sym, ap, subst, inl, inr, true, false, some, List, [], ◌∷◌, All, if◌then◌else◌,
  Bool-cases,
}
use velocity_vortex.Trading.Double.{Double}
use velocity_vortex.Trading.Candle.{Ohlcv, highest, lowest, build_aggregated_candle}

-- What the comparison of doubles promises: a NaN is less than nothing, and nothing is less than it.
pub record IsOrdered (F : Double) (IsNumber : F.Carrier → Type 0) : Type 0 where
  pub irreflexive : (a : F.Carrier) → F.less a a ≡ false
  pub asymmetric : (a b : F.Carrier) → F.less a b ≡ true → F.less b a ≡ false
  pub through :
      (a b c : F.Carrier)
      → IsNumber b
      → F.less b a ≡ false
      → F.less c b ≡ false
      → F.less c a ≡ false

module _ {F : Double} {IsNumber : F.Carrier → Type 0} (ordered : IsOrdered F IsNumber) where
  highest_bounds :
      (m : Ohlcv F) (cs : List (Ohlcv F))
      → All (λ d. IsNumber d.high) (m ∷ cs)
      → All (λ d. F.less (highest m cs).high d.high ≡ false) (m ∷ cs)
  unfolding highest
  highest_bounds m [] n = (ordered.irreflexive m.high, tt)
  highest_bounds m (c ∷ cs) (nm, (nc, ns)) = elim (Bool-cases (F.less m.high c.high)) [
    | inl e ↦
        let h = highest_bounds c cs (nc, ns) in
        at_step (ap (λ b. highest (if b then c else m) cs) e)
          (ordered.through _ _ _ nc (ordered.asymmetric m.high c.high e) h.0, (h.0, h.1))
    | inr e ↦
        let h = highest_bounds m cs (nm, ns) in
        at_step (ap (λ b. highest (if b then c else m) cs) e)
          (h.0, (ordered.through _ _ _ nm e h.0, h.1))
  ]
    where
      at_step :
          {x y : Ohlcv F}
          → x ≡ y
          → All (λ d. F.less y.high d.high ≡ false) (m ∷ c ∷ cs)
          → All (λ d. F.less x.high d.high ≡ false) (m ∷ c ∷ cs)
      at_step p = subst (λ w. All (λ d. F.less w.high d.high ≡ false) (m ∷ c ∷ cs)) (sym p)

  lowest_bounds :
      (m : Ohlcv F) (cs : List (Ohlcv F))
      → All (λ d. IsNumber d.low) (m ∷ cs)
      → All (λ d. F.less d.low (lowest m cs).low ≡ false) (m ∷ cs)
  unfolding lowest
  lowest_bounds m [] n = (ordered.irreflexive m.low, tt)
  lowest_bounds m (c ∷ cs) (nm, (nc, ns)) = elim (Bool-cases (F.less c.low m.low)) [
    | inl e ↦
        let h = lowest_bounds c cs (nc, ns) in
        at_step (ap (λ b. lowest (if b then c else m) cs) e)
          (ordered.through _ _ _ nc h.0 (ordered.asymmetric c.low m.low e), (h.0, h.1))
    | inr e ↦
        let h = lowest_bounds m cs (nm, ns) in
        at_step (ap (λ b. lowest (if b then c else m) cs) e)
          (h.0, (ordered.through _ _ _ nm h.0 e, h.1))
  ]
    where
      at_step :
          {x y : Ohlcv F}
          → x ≡ y
          → All (λ d. F.less d.low y.low ≡ false) (m ∷ c ∷ cs)
          → All (λ d. F.less d.low x.low ≡ false) (m ∷ c ∷ cs)
      at_step p = subst (λ w. All (λ d. F.less d.low w.low ≡ false) (m ∷ c ∷ cs)) (sym p)

  -- Of candles whose highs and lows are numbers, the aggregated candle has a high that is below none of
  -- the highs, and a low that is above none of the lows.
  pub aggregated_candle_bounds :
      (c : Ohlcv F) (cs : List (Ohlcv F))
      → All (λ d. IsNumber d.high) (c ∷ cs)
      → All (λ d. IsNumber d.low) (c ∷ cs)
      → (k : Ohlcv F) × (build_aggregated_candle (c ∷ cs) ≡ some k)
        × All (λ d. F.less k.high d.high ≡ false) (c ∷ cs)
        × All (λ d. F.less d.low k.low ≡ false) (c ∷ cs)
  unfolding build_aggregated_candle
  aggregated_candle_bounds c cs high low =
      (_, refl, highest_bounds c cs high, lowest_bounds c cs low)
