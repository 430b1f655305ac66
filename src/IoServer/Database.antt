-- ===== src/IoServer/Database.antt =====
-- A database as a state with the operations of SQLiteDB (IO-Server/include/SQLiteDB.hpp), and a program
-- of the IO server run over it.
use velocity_vortex.Base.{◌≡◌, refl, List, Text}
use velocity_vortex.Base.Int.{ℤ}
use velocity_vortex.IoServer.Library.{Library, Exception}
use velocity_vortex.IoServer.Program.{
  Program, done, thrown, query, exec, last_insert_rowid, clock, Answer, success, failure, Row,
  BindValue,
}
use velocity_vortex.IoServer.Keeps.{
  Promise, Keeps, done_keeps, thrown_keeps, query_keeps, exec_keeps, last_insert_rowid_keeps,
  clock_keeps,
}

pub record Database (L : Library) (S : Type 0) : Type 0 where
  pub run_query : Text → List (BindValue L) → S → Answer (List Row) × S
  pub run_exec : Text → List (BindValue L) → S → Answer (Unit {0}) × S
  pub rowid : S → ℤ
  pub time : S → ℤ × S

module _ {L : Library} {S : Type 0} (db : Database L S) where
  unfoldable pub run_program : {A : Type 0} → Program L A → S → Answer A × S
  run_program (done x) s = (success x, s)
  run_program (thrown e) s = (failure e, s)
  run_program (query sql binds k) s = let (r, t) = db.run_query sql binds s in run_program (k r) t
  run_program (exec sql binds k) s = let (r, t) = db.run_exec sql binds s in run_program (k r) t
  run_program (last_insert_rowid k) s = run_program (k (db.rowid s)) s
  run_program (clock k) s = let (i, t) = db.time s in run_program (k i) t

  -- A program that lets no exception out returns a result, of which what it promises holds.
  pub Keeps-run_program :
      {A : Type 0} (p : Promise L A) (m : Program L A) (s : S)
      → Keeps p m
      → ((e : Exception) → p.Escaped e → ⊥)
      → (x : A) × (((run_program m s).0 ≡ success x) × p.Result x)
  unfolding run_program
  Keeps-run_program p (done x) s (done_keeps h) sealed = (x, (refl, h))
  Keeps-run_program p (thrown e) s (thrown_keeps h) sealed = elim (sealed e h) [ ]
  Keeps-run_program p (query sql binds k) s (query_keeps h hk) sealed =
      let (r, t) = db.run_query sql binds s in Keeps-run_program p (k r) t (hk r) sealed
  Keeps-run_program p (exec sql binds k) s (exec_keeps h hk) sealed =
      let (r, t) = db.run_exec sql binds s in Keeps-run_program p (k r) t (hk r) sealed
  Keeps-run_program p (last_insert_rowid k) s (last_insert_rowid_keeps hk) sealed =
      Keeps-run_program p (k (db.rowid s)) s (hk (db.rowid s)) sealed
  Keeps-run_program p (clock k) s (clock_keeps hk) sealed =
      let (i, t) = db.time s in Keeps-run_program p (k i) t (hk i) sealed
