-- ===== src/IoServer/Router/Sound/Steps.antt =====
-- What holds inside the try block of a handler of IO-Server/src/api_router.cpp, with a rule for each step
-- that reads a row, a body or an answer.
use velocity_vortex.Base.{
  ℕ, ◌≡◌, refl, sym, ◌∙◌, ◌⊎◌, inl, inr, true, false, Bool-cases, Option, none, some, List, length,
  Text, codes, if◌then◌else◌, eq_text, ltb, arith,
}
use velocity_vortex.IoServer.Library.{Library, Exception}
use velocity_vortex.IoServer.Program.{
  Program, Row, Answer, success, failure, BindValue, ◌>>=◌, or_throw, answered,
}
use velocity_vortex.IoServer.Statement.{Statement}
use velocity_vortex.IoServer.Json.{Json, Fields, end, entry, Response, bool, with_field}
use velocity_vortex.IoServer.Keeps.{Promise, Keeps, done_keeps, thrown_keeps, bind-Keeps}
use velocity_vortex.IoServer.Router.Ask.{
  column, int_column, text_value, real_value, int_value, dump_value, text_value_or, real_value_or,
  optional,
}
use velocity_vortex.IoServer.Router.Sound.Balance.{marks, Balanced}

module _ {L : Library} where
  unfoldable pub find_field : Text → Fields L → Option (Json L)
  find_field key end = none
  find_field key (entry name value fs) =
      let more = find_field key fs in if eq_text key name then some value else more

  pub find_field-with_field :
      (key name : Text) (value x : Json L) (fs : Fields L)
      → find_field key fs ≡ some x
      → find_field key (with_field name value fs) ≡ some x
  unfolding find_field with_field
  find_field-with_field key name value x end h = grind arith
  find_field-with_field key name value x (entry k v fs) h = elim (Bool-cases (eq_text key k)) [
    | inl here ↦ rw here (sym (if_true here) ∙ h)
    | inr there ↦ rw there (find_field-with_field key name value x fs (sym (if_false there) ∙ h))
  ]
    where
      if_true :
          (eq_text key k ≡ true) → (if eq_text key k then some v else find_field key fs) ≡ some v
      if_true e = rw e refl

      if_false :
          (eq_text key k ≡ false)
          → (if eq_text key k then some v else find_field key fs) ≡ find_field key fs
      if_false e = rw e refl

  -- The answer says that it succeeded just if its status is below 400, and the status is one of four.
  pub record Honest (r : Response L) : Type 0 where
    pub success_field : find_field (codes "success") r.body ≡ some (bool (ltb r.status 400))
    pub known : (r.status ≡ 200) ⊎ (r.status ≡ 201) ⊎ (r.status ≡ 400) ⊎ (r.status ≡ 404)

  -- What holds inside the try block of a handler.
  abbrev pub inside : {A : Type 0} → (A → Type 0) → Promise L A
  inside R = record {
    Sent = λ sql binds. marks sql ≡ length binds;
    Result = R;
    Escaped = λ e. Unit;
  }

  abbrev pub Inside : {A : Type 0} → (A → Type 0) → Program L A → Type 0
  Inside R m = Keeps (inside R) m

  abbrev pub Anything : {A : Type 0} → Program L A → Type 0
  Anything m = Keeps (inside (λ x. Unit)) m

  pub ask :
      {A B : Type 0} {R : B → Type 0} {m : Program L A} {f : A → Program L B}
      → Anything m
      → ((x : A) → Inside R (f x))
      → Inside R (m >>= f)
  ask hm hf = bind-Keeps (inside _) (λ x. Unit) _ _ hm (λ x u. hf x)

  -- A step that makes a statement, or the values for one.
  pub ask_statement :
      {B : Type 0} {R : B → Type 0} {m : Program L (Statement L)} {f : Statement L → Program L B}
      → Inside Balanced m
      → ((s : Statement L) → Balanced s → Inside R (f s))
      → Inside R (m >>= f)
  ask_statement hm hf = bind-Keeps (inside _) Balanced _ _ hm hf

  pub ask_values :
      {B : Type 0} {R : B → Type 0} {m : Program L (List (BindValue L))}
      {f : List (BindValue L) → Program L B} (n : ℕ)
      → Inside (λ values. length values ≡ n) m
      → ((values : List (BindValue L)) → length values ≡ n → Inside R (f values))
      → Inside R (m >>= f)
  ask_values n hm hf = bind-Keeps (inside _) (λ values. length values ≡ n) _ _ hm hf

  pub or_throw_keeps : {A : Type 0} (e : Exception) (x : Option A) → Anything (or_throw e x)
  or_throw_keeps e none = thrown_keeps tt
  or_throw_keeps e (some x) = done_keeps tt

  pub column_keeps : (key : Text) (row : Row) → Anything (column key row)
  unfolding column
  column_keeps key row = or_throw_keeps _ _

  pub int_column_keeps : (key : Text) (row : Row) → Anything (int_column key row)
  unfolding int_column
  int_column_keeps key row = ask (column_keeps key row) (λ t. or_throw_keeps _ _)

  pub text_value_keeps : (body : L.Body) (key : Text) → Anything (text_value body key)
  unfolding text_value
  text_value_keeps body key = ask (or_throw_keeps _ _) (λ t. done_keeps tt)

  pub real_value_keeps : (body : L.Body) (key : Text) → Anything (real_value body key)
  unfolding real_value
  real_value_keeps body key = ask (or_throw_keeps _ _) (λ t. done_keeps tt)

  pub int_value_keeps : (body : L.Body) (key : Text) → Anything (int_value body key)
  unfolding int_value
  int_value_keeps body key = ask (or_throw_keeps _ _) (λ t. done_keeps tt)

  pub dump_value_keeps : (body : L.Body) (key : Text) → Anything (dump_value body key)
  unfolding dump_value
  dump_value_keeps body key = ask (or_throw_keeps _ _) (λ t. done_keeps tt)

  pub text_value_or_keeps : (body : L.Body) (key t : Text) → Anything (text_value_or body key t)
  unfolding text_value_or
  text_value_or_keeps body key t = ask (or_throw_keeps _ _) (λ t. done_keeps tt)

  pub real_value_or_keeps :
      (body : L.Body) (key : Text) (x : L.Real) → Anything (real_value_or body key x)
  unfolding real_value_or
  real_value_or_keeps body key x = ask (or_throw_keeps _ _) (λ t. done_keeps tt)

  pub optional_keeps :
      (value : L.Body → Text → Program L (BindValue L)) (body : L.Body) (key : Text)
      → Anything (value body key)
      → Anything (optional value body key)
  unfolding optional
  optional_keeps value body key h = elim (Bool-cases (L.contains body key)) [
    | inl given ↦ rw given h
    | inr absent ↦ rw absent (done_keeps tt)
  ]

  pub answer_keeps : {A : Type 0} (r : Answer A) → Anything (answered r)
  answer_keeps (success x) = done_keeps tt
  answer_keeps (failure e) = thrown_keeps tt
