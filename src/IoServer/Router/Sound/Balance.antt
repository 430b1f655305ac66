-- ===== src/IoServer/Router/Sound/Balance.antt =====
-- The statements of IO-Server/src that have a value for each question mark.
use velocity_vortex.Base.{
  ℕ, ◌+◌, ◌≡◌, refl, Bool, true, false, List, [], ◌∷◌, ◌++◌, length, length-append, Text, codes,
  if◌then◌else◌, ◌==◌, arith,
}
use velocity_vortex.Base.Int.{ℤ}
use velocity_vortex.IoServer.Library.{Library}
use velocity_vortex.IoServer.Program.{BindValue}
use velocity_vortex.IoServer.Statement.{Statement, statement, extend, extend_if, paged}

-- The question marks of a statement: no literal of the code has one inside quotes.
unfoldable pub marks : Text → ℕ
marks [] = 0
marks (c ∷ cs) = (if c == 63 then 1 else 0) + marks cs

pub marks-append : (s t : Text) → marks (s ++ t) ≡ marks s + marks t
unfolding marks
marks-append [] t = omega arith
marks-append (c ∷ cs) t = omega (arith, marks-append cs t)

module _ {L : Library} where
  pub record Balanced (s : Statement L) : Type 0 where
    pub balance : marks s.sql ≡ length s.binds

  pub statement-Balanced :
      (sql : Text) (binds : List (BindValue L))
      → marks sql ≡ length binds
      → Balanced (statement sql binds)
  statement-Balanced sql binds h = record { balance = h }

  pub extend-Balanced :
      (text : Text) (values : List (BindValue L)) (s : Statement L)
      → marks text ≡ length values
      → Balanced s
      → Balanced (extend text values s)
  unfolding extend
  extend-Balanced text values s h hs = record {
    balance = omega (arith, marks-append s.sql text, length-append s.binds values, h, hs.balance);
  }

  pub extend_if-Balanced :
      (test : Bool) (text : Text) (value : BindValue L) (s : Statement L)
      → marks text ≡ 1
      → Balanced s
      → Balanced (extend_if test text value s)
  unfolding extend_if
  extend_if-Balanced true text value s h hs = extend-Balanced text (value ∷ []) s h hs
  extend_if-Balanced false text value s h hs = hs

  pub paged-Balanced :
      (limit offset : ℤ) (s : Statement L) → Balanced s → Balanced (paged limit offset s)
  unfolding paged codes marks
  paged-Balanced limit offset s hs = extend-Balanced _ _ s refl hs
