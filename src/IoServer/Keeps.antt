-- ===== src/IoServer/Keeps.antt =====
-- What holds of a program of the IO server whatever the database and the clock answer: of each statement
-- that it sends, of its result, and of the exception that leaves it.
use velocity_vortex.Base.{List, Text}
use velocity_vortex.Base.Int.{ℤ}
use velocity_vortex.IoServer.Library.{Library, Exception}
use velocity_vortex.IoServer.Program.{
  Program, done, thrown, query, exec, last_insert_rowid, clock, Answer, Row, BindValue, ◌>>=◌,
  catching,
}

pub record Promise (L : Library) (A : Type 0) : Type 1 where
  pub Sent : Text → List (BindValue L) → Type 0
  pub Result : A → Type 0
  pub Escaped : Exception → Type 0

pub data Keeps {L : Library} {A : Type 0} (p : Promise L A) : Program L A → Type 0 where
  done_keeps : {x : A} → p.Result x → Keeps p (done x)
  thrown_keeps : {e : Exception} → p.Escaped e → Keeps p (thrown e)
  query_keeps :
      {sql : Text} {binds : List (BindValue L)} {k : Answer (List Row) → Program L A}
      → p.Sent sql binds
      → ((r : Answer (List Row)) → Keeps p (k r))
      → Keeps p (query sql binds k)
  exec_keeps :
      {sql : Text} {binds : List (BindValue L)} {k : Answer (Unit {0}) → Program L A}
      → p.Sent sql binds
      → ((r : Answer (Unit {0})) → Keeps p (k r))
      → Keeps p (exec sql binds k)
  last_insert_rowid_keeps :
      {k : ℤ → Program L A} → ((i : ℤ) → Keeps p (k i)) → Keeps p (last_insert_rowid k)
  clock_keeps : {k : ℤ → Program L A} → ((i : ℤ) → Keeps p (k i)) → Keeps p (clock k)

module _ {L : Library} {A B : Type 0} where
  abbrev pub with_result : Promise L B → (A → Type 0) → Promise L A
  with_result p R = record { Sent = p.Sent; Result = R; Escaped = p.Escaped }

  abbrev pub any_result : Promise L B → Promise L A
  any_result p = with_result p (λ x. Unit)

  pub bind-Keeps :
      (p : Promise L B) (R : A → Type 0) (m : Program L A) (f : A → Program L B)
      → Keeps (with_result p R) m
      → ((x : A) → R x → Keeps p (f x))
      → Keeps p (m >>= f)
  bind-Keeps p R (done x) f (done_keeps h) hf = hf x h
  bind-Keeps p R (thrown e) f (thrown_keeps h) hf = thrown_keeps h
  bind-Keeps p R (query sql binds k) f (query_keeps h hk) hf =
      query_keeps h (λ r. bind-Keeps p R (k r) f (hk r) hf)
  bind-Keeps p R (exec sql binds k) f (exec_keeps h hk) hf =
      exec_keeps h (λ r. bind-Keeps p R (k r) f (hk r) hf)
  bind-Keeps p R (last_insert_rowid k) f (last_insert_rowid_keeps hk) hf =
      last_insert_rowid_keeps (λ i. bind-Keeps p R (k i) f (hk i) hf)
  bind-Keeps p R (clock k) f (clock_keeps hk) hf =
      clock_keeps (λ i. bind-Keeps p R (k i) f (hk i) hf)

module _ {L : Library} {A : Type 0} where
  pub catching-Keeps :
      (p q : Promise L A) (handler : Exception → Program L A) (m : Program L A)
      → ((sql : Text) (binds : List (BindValue L)) → q.Sent sql binds → p.Sent sql binds)
      → ((x : A) → q.Result x → p.Result x)
      → Keeps q m
      → ((e : Exception) → q.Escaped e → Keeps p (handler e))
      → Keeps p (catching handler m)
  unfolding catching
  catching-Keeps p q handler (done x) hs hr (done_keeps h) he = done_keeps (hr x h)
  catching-Keeps p q handler (thrown e) hs hr (thrown_keeps h) he = he e h
  catching-Keeps p q handler (query sql binds k) hs hr (query_keeps h hk) he =
      query_keeps (hs sql binds h) (λ r. catching-Keeps p q handler (k r) hs hr (hk r) he)
  catching-Keeps p q handler (exec sql binds k) hs hr (exec_keeps h hk) he =
      exec_keeps (hs sql binds h) (λ r. catching-Keeps p q handler (k r) hs hr (hk r) he)
  catching-Keeps p q handler (last_insert_rowid k) hs hr (last_insert_rowid_keeps hk) he =
      last_insert_rowid_keeps (λ i. catching-Keeps p q handler (k i) hs hr (hk i) he)
  catching-Keeps p q handler (clock k) hs hr (clock_keeps hk) he =
      clock_keeps (λ i. catching-Keeps p q handler (k i) hs hr (hk i) he)
