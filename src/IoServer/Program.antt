-- ===== src/IoServer/Program.antt =====
-- A program of the IO server as the calls that it makes, one after the other, each with what follows
-- for every answer: those of `SQLiteDB` (IO-Server/include/SQLiteDB.hpp) and of the clock.
use velocity_vortex.Base.{Option, none, some, List, Text}
use velocity_vortex.Base.Int.{ℤ}
use velocity_vortex.IoServer.Library.{Library, Exception}

pub data BindValue (L : Library) : Type 0 where
  bind_int : ℤ → BindValue L
  bind_real : L.Real → BindValue L
  bind_text : Text → BindValue L
  bind_null : BindValue L

-- std::map<std::string, std::string>.
abbrev pub Row : Type 0
Row = List (Text × Text)

pub data Answer (A : Type 0) : Type 0 where
  success : A → Answer A
  failure : Exception → Answer A

pub data Program (L : Library) (A : Type 0) : Type 0 where
  done : A → Program L A
  thrown : Exception → Program L A
  query : Text → List (BindValue L) → (Answer (List Row) → Program L A) → Program L A
  exec : Text → List (BindValue L) → (Answer (Unit {0}) → Program L A) → Program L A
  last_insert_rowid clock : (ℤ → Program L A) → Program L A

module _ {L : Library} where
  infixl 5 ◌>>=◌ ◌>>◌
  abbrev pub ◌>>=◌ : {A B : Type 0} → Program L A → (A → Program L B) → Program L B
  done x >>= f = f x
  thrown e >>= f = thrown e
  query sql binds k >>= f = query sql binds (λ r. k r >>= f)
  exec sql binds k >>= f = exec sql binds (λ r. k r >>= f)
  last_insert_rowid k >>= f = last_insert_rowid (λ i. k i >>= f)
  clock k >>= f = clock (λ i. k i >>= f)

  abbrev pub ◌>>◌ : {A B : Type 0} → Program L A → Program L B → Program L B
  m >> n = m >>= λ _. n

  -- `try { ... } catch (const std::exception &e) { return handler(e); }`
  unfoldable pub catching : {A : Type 0} → (Exception → Program L A) → Program L A → Program L A
  catching handler (done x) = done x
  catching handler (thrown e) = handler e
  catching handler (query sql binds k) = query sql binds (λ r. catching handler (k r))
  catching handler (exec sql binds k) = exec sql binds (λ r. catching handler (k r))
  catching handler (last_insert_rowid k) = last_insert_rowid (λ i. catching handler (k i))
  catching handler (clock k) = clock (λ i. catching handler (k i))

  abbrev pub answered : {A : Type 0} → Answer A → Program L A
  answered (success x) = done x
  answered (failure e) = thrown e

  -- The result of a call that throws `e` in place of a result.
  abbrev pub or_throw : {A : Type 0} → Exception → Option A → Program L A
  or_throw e none = thrown e
  or_throw e (some x) = done x

  abbrev pub run_query : Text → List (BindValue L) → Program L (List Row)
  run_query sql binds = query sql binds answered

  abbrev pub run_exec : Text → List (BindValue L) → Program L (Unit {0})
  run_exec sql binds = exec sql binds answered
