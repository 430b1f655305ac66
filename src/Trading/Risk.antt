-- ===== src/Trading/Risk.antt =====
-- Computing-Server/src/Risk-Analysis-Core: the metrics of a stock's returns, the value at risk, the
-- correlation of two stocks, and the report on one of `PortfolioManager`. `none`: the code has no defined
-- behaviour, as it reads a vector out of its range. What is printed is the report's fields, in their order.
use velocity_vortex.Base.{
  ℕ, Option, none, some, List, [], ◌∷◌, length, get_elem?, Text, if◌then◌else◌, eq_text, ◌==◌,
}
use velocity_vortex.Trading.Double.{Double, max_of}

module _ (F : Double) where
  -- std::accumulate from 0.0.
  unfoldable pub accumulate : F.Carrier → List F.Carrier → F.Carrier
  accumulate total [] = total
  accumulate total (x ∷ xs) = accumulate (F.add total x) xs

  abbrev pub zero_point : F.Carrier
  zero_point = F.decimal 0 1

  unfoldable pub mean : List F.Carrier → F.Carrier
  unfolding accumulate
  mean xs = F.div (accumulate zero_point xs) (F.of_nat (length xs))

  unfoldable pub squared_diffs : F.Carrier → F.Carrier → List F.Carrier → F.Carrier
  squared_diffs center total [] = total
  squared_diffs center total (x ∷ xs) =
      squared_diffs center (F.add total (F.mul (F.sub x center) (F.sub x center))) xs

  unfoldable pub calculate_standard_deviation : List F.Carrier → F.Carrier
  unfolding mean squared_diffs
  calculate_standard_deviation returns =
      F.sqrt (F.div (squared_diffs (mean returns) zero_point returns) (F.of_nat (length returns)))

  -- The loop, with the greatest drawdown and the peak so far.
  unfoldable pub drawdowns : F.Carrier → F.Carrier → List F.Carrier → F.Carrier
  drawdowns greatest peak [] = greatest
  drawdowns greatest peak (x ∷ xs) =
      let top = if F.less peak x then x else peak in
      drawdowns (max_of F greatest (F.div (F.sub top x) top)) top xs

  unfoldable pub calculate_max_drawdown : List F.Carrier → Option F.Carrier
  unfolding drawdowns
  calculate_max_drawdown [] = none
  calculate_max_drawdown (x ∷ xs) = some (drawdowns zero_point x (x ∷ xs))

  -- `RiskAdjustedMetrics`.
  pub record Metrics : Type 0 where
    pub total_return : F.Carrier
    pub total_risk : F.Carrier

  unfoldable pub calculate_sharpe_ratio : F.Carrier → Metrics → F.Carrier
  calculate_sharpe_ratio risk_free_rate m = F.div (F.sub m.total_return risk_free_rate) m.total_risk

  unfoldable pub calculate_information_ratio : F.Carrier → Metrics → F.Carrier
  calculate_information_ratio benchmark m = F.div (F.sub m.total_return benchmark) m.total_risk

  unfoldable pub calculate_treynor_ratio : F.Carrier → F.Carrier → Metrics → F.Carrier
  calculate_treynor_ratio risk_free_rate beta m = F.div (F.sub m.total_return risk_free_rate) beta

  -- The returns below the target.
  unfoldable pub downside : F.Carrier → List F.Carrier → List F.Carrier
  downside target [] = []
  downside target (x ∷ xs) =
      let more = downside target xs in if F.less x target then x ∷ more else more

  unfoldable pub calculate_sortino_ratio : List F.Carrier → F.Carrier → Metrics → F.Carrier
  unfolding downside squared_diffs
  calculate_sortino_ratio returns target m =
      let below = downside target returns in
      let deviation =
        F.sqrt (F.div (squared_diffs target zero_point below) (F.of_nat (length below))) in
      if length below == 0 then zero_point else F.div (F.sub m.total_return target) deviation

  unfoldable pub calculate_calmar_ratio : List F.Carrier → Metrics → Option F.Carrier
  unfolding calculate_max_drawdown
  calculate_calmar_ratio returns m = elim (calculate_max_drawdown returns) [
    | none ↦ none
    | some d ↦ some (if F.less (F.of_nat 0) d then F.div m.total_return d else zero_point)
  ]

  -- std::sort.
  unfoldable pub insert_return : F.Carrier → List F.Carrier → List F.Carrier
  insert_return x [] = x ∷ []
  insert_return x (y ∷ ys) =
      let rest = insert_return x ys in if F.less y x then y ∷ rest else x ∷ y ∷ ys

  unfoldable pub sort_returns : List F.Carrier → List F.Carrier
  unfolding insert_return
  sort_returns [] = []
  sort_returns (x ∷ xs) = insert_return x (sort_returns xs)

  -- `VaRCalculator::calculate_var`; `to_index` is the conversion of a double to size_t.
  unfoldable pub calculate_var : (F.Carrier → ℕ) → F.Carrier → List F.Carrier → Option F.Carrier
  unfolding sort_returns
  calculate_var to_index confidence [] = some zero_point
  calculate_var to_index confidence (x ∷ xs) =
      let index =
        to_index (F.mul (F.sub (F.decimal 10 1) confidence) (F.of_nat (length (x ∷ xs)))) in
      elim (get_elem? (sort_returns (x ∷ xs)) index) [ none ↦ none | some v ↦ some (F.neg v) ]

  -- `std::map<std::string, std::vector<double>>`, by its keys.
  abbrev pub StockData : Type 0
  StockData = List (Text × List F.Carrier)

  unfoldable pub find_stock : Text → StockData → Option (List F.Carrier)
  find_stock symbol [] = none
  find_stock symbol ((s, xs) ∷ stocks) =
      let more = find_stock symbol stocks in if eq_text symbol s then some xs else more

  -- The sum of the products of the deviations from two means, over two vectors of one length.
  unfoldable pub deviations :
      F.Carrier → F.Carrier → F.Carrier → List F.Carrier → List F.Carrier → F.Carrier
  deviations m1 m2 total [] ys = total
  deviations m1 m2 total (x ∷ xs) [] = total
  deviations m1 m2 total (x ∷ xs) (y ∷ ys) =
      deviations m1 m2 (F.add total (F.mul (F.sub x m1) (F.sub y m2))) xs ys

  unfoldable pub correlation_of : List F.Carrier → List F.Carrier → F.Carrier
  unfolding mean deviations
  correlation_of xs ys =
      let n = F.of_nat (length xs) in
      let m1 = mean xs in
      let m2 = mean ys in
      let covariance = F.div (deviations m1 m2 zero_point xs ys) n in
      let variance1 = F.div (deviations m1 m1 zero_point xs xs) n in
      let variance2 = F.div (deviations m2 m2 zero_point ys ys) n in
      if length xs == length ys
      then F.div covariance (F.mul (F.sqrt variance1) (F.sqrt variance2))
      else zero_point

  unfoldable pub calculate_correlation : StockData → Text → Text → F.Carrier
  unfolding find_stock correlation_of
  calculate_correlation stocks stock1 stock2 = elim (find_stock stock1 stocks) [
    | none ↦ zero_point
    | some xs ↦ elim (find_stock stock2 stocks) [
      | none ↦ zero_point
      | some ys ↦ correlation_of xs ys
    ]
  ]

  pub record Report : Type 0 where
    pub symbol : Text
    pub total_return : F.Carrier
    pub total_risk : F.Carrier
    pub sharpe_ratio : F.Carrier
    pub sortino_ratio : F.Carrier
    pub calmar_ratio : F.Carrier
    pub value_at_risk : F.Carrier
    pub correlations : List (Text × F.Carrier)

  unfoldable pub other_correlations : StockData → Text → StockData → List (Text × F.Carrier)
  unfolding calculate_correlation
  other_correlations all symbol [] = []
  other_correlations all symbol ((s, xs) ∷ stocks) =
      let more = other_correlations all symbol stocks in
      if eq_text s symbol then more else (s, calculate_correlation all symbol s) ∷ more

  unfoldable pub report_on : (F.Carrier → ℕ) → StockData → Text → List F.Carrier → Option Report
  unfolding calculate_standard_deviation calculate_sharpe_ratio calculate_sortino_ratio
      calculate_calmar_ratio calculate_var other_correlations
  report_on to_index all symbol returns =
      let m : Metrics = record {
        total_return = accumulate zero_point returns;
        total_risk = calculate_standard_deviation returns;
      } in
      elim (calculate_calmar_ratio returns m) [
        | none ↦ none
        | some calmar ↦ elim (calculate_var to_index (F.decimal 95 2) returns) [
          | none ↦ none
          | some var ↦ some (record {
            symbol = symbol;
            total_return = m.total_return;
            total_risk = m.total_risk;
            sharpe_ratio = calculate_sharpe_ratio (F.decimal 1 2) m;
            sortino_ratio = calculate_sortino_ratio returns (F.decimal 1 2) m;
            calmar_ratio = calmar;
            value_at_risk = var;
            correlations = other_correlations all symbol all;
          })
        ]
      ]

  -- The reports that are made, one after the other.
  unfoldable pub reports : (F.Carrier → ℕ) → StockData → StockData → Option (List Report)
  unfolding report_on
  reports to_index all [] = some []
  reports to_index all ((symbol, returns) ∷ stocks) =
      let more = reports to_index all stocks in
      elim (report_on to_index all symbol returns) [
        | none ↦ none
        | some r ↦ elim more [ none ↦ none | some rs ↦ some (r ∷ rs) ]
      ]

  unfoldable pub risk_analysis_all : (F.Carrier → ℕ) → StockData → Option (List Report)
  unfolding reports
  risk_analysis_all to_index all = reports to_index all all

  unfoldable pub risk_analysis_specific : (F.Carrier → ℕ) → Text → StockData → Option (List Report)
  unfolding reports
  risk_analysis_specific to_index symbol all = elim (find_stock symbol all) [
    | none ↦ some []
    | some returns ↦ reports to_index all ((symbol, returns) ∷ [])
  ]
