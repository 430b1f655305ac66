-- ===== src/IoServer/Calculation/Sound.antt =====
-- What a client gets from /api/calc/<method> of IO-Server/src/api_router.cpp, with the registry of
-- IO-Server/src/main.cpp.
use velocity_vortex.Base.{
  ℕ, zero, suc, ◌+◌, ◌/◌, ◌%◌, ◌≡◌, refl, ◌⊎◌, inl, inr, Bool, true, false, ◌||◌, Bool-cases,
  Option, none, some, List, [], length, Text, codes, eq_text, ltb, if◌then◌else◌, ◌==◌, arith,
}
use velocity_vortex.Base.Number.{to_string, show_from}
use velocity_vortex.IoServer.Library.{Library}
use velocity_vortex.IoServer.Program.{Program, done, catching, ◌>>=◌}
use velocity_vortex.IoServer.Statement.{is_empty}
use velocity_vortex.IoServer.Json.{Fields, Response, error_response, not_found_response}
use velocity_vortex.IoServer.Params.{Request}
use velocity_vortex.IoServer.Keeps.{Promise, Keeps, done_keeps, catching-Keeps}
use velocity_vortex.IoServer.Router.Sound.{
  marks, marks-append, Balanced, inside, Anything, ask, statement-Balanced, extend-Balanced,
  extend_if-Balanced, send_query_keeps,
}
use velocity_vortex.IoServer.Calculation.{
  CalcParams, Reals, refused, candles_head, candles_statement,
}
use velocity_vortex.IoServer.Calculation.Rca.{rca_fetched, rca_compute}
use velocity_vortex.IoServer.Calculation.Mca.{fetch_series, mca_fetched, mca_compute}
use velocity_vortex.IoServer.Calculation.Methods.{rca_handler, mca_handler, build_registry}
use velocity_vortex.IoServer.Calculation.Registry.{
  put_handler, register_handler, find_handler, error_of, calculation_response, run_calculation,
}

marks-show_from : (f n : ℕ) (acc : Text) → marks acc ≡ 0 → marks (show_from f n acc) ≡ 0
unfolding show_from marks
marks-show_from zero n acc h = h
marks-show_from (suc f) n acc h = elim (Bool-cases (ltb n 10)) [
  | inl small ↦
      let digit : (48 + n == 63) ≡ false = ground arith in rw small (rw digit (omega (arith, h)))
  | inr large ↦
      let digit : (48 + n % 10 == 63) ≡ false = ground arith in
      rw large (marks-show_from f (n / 10) _ (rw digit (omega (arith, h))))
]

marks-to_string : (n : ℕ) → marks (to_string n) ≡ 0
unfolding to_string marks
marks-to_string n = marks-show_from (suc n) n [] refl

module _ {L : Library} where
  candles_statement-Balanced :
      (margin : Text) (params : CalcParams) (bound : ℕ) (ticker : Text)
      → marks (candles_head margin) ≡ 2
      → Balanced (candles_statement {L = L} margin params bound ticker)
  unfolding candles_statement codes marks
  candles_statement-Balanced margin params bound ticker h =
      extend-Balanced _ _ _
        (omega (
          arith,
          marks-append (codes " ORDER BY o.open_time ASC LIMIT ") (to_string bound),
          marks-to_string bound,
        ))
        (extend_if-Balanced _ _ _ _ refl
          (extend_if-Balanced _ _ _ _ refl (statement-Balanced _ _ h)))

  if_keeps :
      {A : Type 0} (b : Bool) (m n : Program L A)
      → Anything m
      → Anything n
      → Anything (if b then m else n)
  if_keeps true m n hm hn = hm
  if_keeps false m n hm hn = hn

  module _ (D : Reals L) where
    rca_fetched_keeps : (params : CalcParams) → Anything (rca_fetched D params)
    unfolding rca_fetched candles_head codes marks
    rca_fetched_keeps params =
        ask (send_query_keeps _ (candles_statement-Balanced (codes "    ") params _ _ refl))
          (λ rows. done_keeps tt)

    rca_compute-Keeps : (params : CalcParams) → Anything (rca_compute D params)
    unfolding rca_compute
    rca_compute-Keeps params = if_keeps (is_empty params.symbol) (refused _) _ (done_keeps tt) (
        if_keeps (is_empty params.timeframe) (refused _) _ (done_keeps tt)
          (rca_fetched_keeps params))

    fetch_series_keeps :
        (params : CalcParams) (bound : ℕ) (ticker : Text)
        → Anything (fetch_series D params bound ticker)
    unfolding fetch_series candles_head codes marks
    fetch_series_keeps params bound ticker =
        ask (send_query_keeps _ (candles_statement-Balanced (codes "        ") params _ _ refl))
          (λ rows. done_keeps tt)

    mca_fetched_keeps : (params : CalcParams) → Anything (mca_fetched D params)
    unfolding mca_fetched
    mca_fetched_keeps params =
        ask (fetch_series_keeps params _ _)
          (λ map1. ask (fetch_series_keeps params _ _) (λ map2. done_keeps tt))

    mca_compute-Keeps : (params : CalcParams) → Anything (mca_compute D params)
    unfolding mca_compute
    mca_compute-Keeps params =
        if_keeps (is_empty params.symbol || is_empty params.symbol2) (refused _) _ (done_keeps tt) (
          if_keeps (is_empty params.timeframe) (refused _) _ (done_keeps tt)
            (mca_fetched_keeps params))

  find_registered :
      (D : Reals L) (method : Text)
      → find_handler method (build_registry D) ≡ (
          if eq_text method (codes "rca")
          then some (rca_handler D)
          else if eq_text method (codes "mca")
          then some (mca_handler D)
          else none)
  unfolding build_registry register_handler put_handler find_handler codes eq_text
  find_registered D method = refl

  -- The status is 404 for a method that is neither rca nor mca, and else 200, 400 or 500.
  abbrev pub Answered : Text → Response L → Type 0
  Answered method r =
      if eq_text method (codes "rca") || eq_text method (codes "mca")
      then (r.status ≡ 200) ⊎ (r.status ≡ 400) ⊎ (r.status ≡ 500)
      else (r.status ≡ 404)

  abbrev pub calculated : Text → Promise L (Response L)
  calculated method = record {
    Sent = λ sql binds. marks sql ≡ length binds;
    Result = Answered method;
    Escaped = λ e. ⊥;
  }

  -- The answer of a handler that is found.
  abbrev Served : Response L → Type 0
  Served r = (r.status ≡ 200) ⊎ (r.status ≡ 400) ⊎ (r.status ≡ 500)

  module _ (dump : Text → Option Text) (asked_for : Text → Fields L → Fields L) where
    calculation_response-Served :
        (result : Fields L) (o : Option Text)
        → error_of result ≡ o
        → Served (calculation_response dump asked_for result)
    unfolding calculation_response error_response
    calculation_response-Served result none e = rw (e, calculation_response) (inl refl)
    calculation_response-Served result (some t) e = rw (e, calculation_response) (inr (inl refl))

    compute-Keeps :
        (method : Text) (compute : CalcParams → Program L (Fields L)) (params : CalcParams)
        → ((r : Response L) → Served r → Answered method r)
        → Anything (compute params)
        → Keeps (calculated method) (
            catching
              (λ e. done (error_response (L.what e) 500))
              (do result ← compute params; done (calculation_response dump asked_for result)))
    unfolding error_response
    compute-Keeps method compute params into h =
        catching-Keeps (calculated method) (inside Served) _ _ (λ sql binds e. e) into
          (ask h (λ result. done_keeps (calculation_response-Served result _ refl)))
          (λ e u. done_keeps (into (error_response (L.what e) 500) (inr (inr refl))))

    -- With the registry that `main` makes, whatever method and parameters a request to /api/calc/<method>
    -- has, and whatever the database answers, every statement that is sent has as many question marks as
    -- it has values, no exception gets out, and the status of the answer is 404 for a method other than
    -- rca and mca, and 200, 400 or 500 for these two.
    pub run_calculation-Answered :
        (D : Reals L) (req : Request) (keys : List Text) (method : Text)
        → Keeps
            (calculated method)
            (run_calculation dump asked_for (build_registry D) req keys method)
    unfolding run_calculation not_found_response error_response
    run_calculation-Answered D req keys method =
        rw (find_registered D method, run_calculation)
          (elim (Bool-cases (eq_text method (codes "rca"))) [
            | inl rca ↦
                rw rca
                  (compute-Keeps method (rca_compute D) _ (λ r h. rw rca h) (rca_compute-Keeps D _))
            | inr other ↦ elim (Bool-cases (eq_text method (codes "mca"))) [
              | inl mca ↦ rw other (
                  rw mca (
                    compute-Keeps method (mca_compute D) _ (λ r h. rw other (rw mca h))
                      (mca_compute-Keeps D _)))
              | inr neither ↦ rw other (rw neither (done_keeps (rw other (rw neither refl))))
            ]
          ])
