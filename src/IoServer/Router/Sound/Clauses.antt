-- ===== src/IoServer/Router/Sound/Clauses.antt =====
-- The question marks of the clauses that build_date_range_filter and build_order_by_clause of
-- IO-Server/src/api_router.cpp make.
use velocity_vortex.Base.{
  ℕ, zero, suc, ◌+◌, ◌/◌, ◌≡◌, refl, ◌∙◌, inl, inr, Bool-cases, [], ◌++◌, Text, codes, ltb, arith,
}
use velocity_vortex.Base.Int.{ℤ, pos, negsuc}
use velocity_vortex.Base.Number.{show_ℤ, show_from, to_string}
use velocity_vortex.IoServer.Statement.{build_date_range_filter, build_order_by_clause, is_positive}
use velocity_vortex.IoServer.Router.Sound.{marks, marks-append}

marks-show_from : (f n : ℕ) (acc : Text) → marks (show_from f n acc) ≡ marks acc
unfolding marks show_from
marks-show_from zero n acc = refl
marks-show_from (suc f) n acc = elim (Bool-cases (ltb n 10)) [
  | inl small ↦ rw small (ground arith)
  | inr large ↦ rw large (marks-show_from f (n / 10) _ ∙ ground arith)
]

marks-to_string : (n : ℕ) → marks (to_string n) ≡ 0
unfolding to_string marks
marks-to_string n = marks-show_from (suc n) n []

marks-show_ℤ : (i : ℤ) → marks (show_ℤ i) ≡ 0
unfolding show_ℤ marks
marks-show_ℤ (pos n) = marks-to_string n
marks-show_ℤ (negsuc n) = omega (arith, marks-to_string (n + 1))

no_marks-append : (s t : Text) → marks s ≡ 0 → marks t ≡ 0 → marks (s ++ t) ≡ 0
no_marks-append s t hs ht = omega (arith, marks-append s t)

-- The literals of the clauses.
no_marks_literals :
    (marks (codes " AND ") ≡ 0)
    × (marks (codes " BETWEEN ") ≡ 0)
    × (marks (codes " >= ") ≡ 0)
    × (marks (codes " <= ") ≡ 0)
    × (marks (codes " ORDER BY ") ≡ 0)
    × (marks (codes " ") ≡ 0)
    × (marks [] ≡ 0)
unfolding codes marks
no_marks_literals = (refl, refl, refl, refl, refl, refl, refl)

pub marks-build_date_range_filter :
    (field : Text) (from to : ℤ)
    → marks field ≡ 0
    → marks (build_date_range_filter field from to) ≡ 0
unfolding build_date_range_filter
marks-build_date_range_filter field from to h =
    let (conjunction, between, least, most, by, space, empty) = no_marks_literals in
    elim (Bool-cases (is_positive from)) [
      | inl f ↦ elim (Bool-cases (is_positive to)) [
        | inl t ↦ rw f (
            rw t (
              start _ (
                no_marks-append _ _ between (
                  no_marks-append _ _ (marks-show_ℤ from)
                    (no_marks-append _ _ conjunction (marks-show_ℤ to))))))
        | inr t ↦ rw f (rw t (start _ (no_marks-append _ _ least (marks-show_ℤ from))))
      ]
      | inr f ↦ elim (Bool-cases (is_positive to)) [
        | inl t ↦ rw f (rw t (start _ (no_marks-append _ _ most (marks-show_ℤ to))))
        | inr t ↦ rw f (rw t empty)
      ]
    ]
  where
    start : (t : Text) → marks t ≡ 0 → marks (codes " AND " ++ (field ++ t)) ≡ 0
    start t ht = no_marks-append _ _ (no_marks_literals.0) (no_marks-append _ _ h ht)

pub marks-build_order_by_clause :
    (field direction : Text)
    → marks field ≡ 0
    → marks direction ≡ 0
    → marks (build_order_by_clause field direction) ≡ 0
unfolding build_order_by_clause
marks-build_order_by_clause field direction hf hd =
    let (conjunction, between, least, most, by, space, empty) = no_marks_literals in
    no_marks-append _ _ by (no_marks-append _ _ hf (no_marks-append _ _ space hd))
