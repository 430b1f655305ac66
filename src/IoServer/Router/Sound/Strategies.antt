-- ===== src/IoServer/Router/Sound/Strategies.antt =====
-- That the endpoints for strategies of IO-Server/src/api_router.cpp are sound.
use velocity_vortex.Base.{◌≡◌, sym, inl, inr, Bool-cases, Text, List, [], ◌∷◌, codes, length}
use velocity_vortex.Base.Int.{ℤ}
use velocity_vortex.IoServer.Library.{Library}
use velocity_vortex.IoServer.Program.{Row, Program, BindValue}
use velocity_vortex.IoServer.Keeps.{done_keeps, last_insert_rowid_keeps}
use velocity_vortex.IoServer.Params.{Request}
use velocity_vortex.IoServer.Statement.{Statement, statement}
use velocity_vortex.IoServer.Router.Sound.{
  marks, Sound, Balanced, Honest, Inside, Anything, sound_rules, handler_keeps, ask, ask_statement,
  ask_values, or_throw_keeps, send_exec_keeps, created_keeps, extend-Balanced, statement-Balanced,
}
use velocity_vortex.IoServer.Router.Strategies.{
  get_strategies, get_strategy, strategy_values, insert_strategy, create_strategy, set_if_given,
  update_statement, update_existing, update_strategy,
}

module _ {L : Library} where
  pub get_strategies-Sound : (req : Request) → Sound {L = L} (get_strategies req)
  unfolding get_strategies codes marks
  get_strategies-Sound req = search (sound_rules) depth 16

  pub get_strategy-Sound : (req : Request) (id : ℤ) → Sound {L = L} (get_strategy req id)
  unfolding get_strategy codes marks
  get_strategy-Sound req id = search (sound_rules) depth 16

  strategy_values_keeps :
      (body : L.Body) → Inside (λ values. length values ≡ 12) (strategy_values {L = L} body)
  unfolding strategy_values
  strategy_values_keeps body = search (sound_rules, done_keeps) depth 40

  insert_strategy-Balanced :
      (values : List (BindValue L))
      → length values ≡ 12
      → Balanced (statement insert_strategy values)
  unfolding insert_strategy codes marks
  insert_strategy-Balanced values h = statement-Balanced _ _ (sym h)

  pub create_strategy-Sound : (req : Request) → Sound {L = L} (create_strategy req)
  unfolding create_strategy
  create_strategy-Sound req = handler_keeps _ (
      ask (or_throw_keeps _ _) (λ body. ask_values 12 (strategy_values_keeps body) (λ values h.
        ask (send_exec_keeps _ (insert_strategy-Balanced values h))
          (λ u. last_insert_rowid_keeps (λ id. created_keeps _ id _ [])))))

  set_if_given_keeps :
      (value : L.Body → Text → Program L (BindValue L)) (body : L.Body) (key clause : Text)
      (s : Statement L)
      → Anything (value body key)
      → marks clause ≡ 1
      → Balanced s
      → Inside Balanced (set_if_given value body key clause s)
  unfolding set_if_given
  set_if_given_keeps value body key clause s hv hc hs = elim (Bool-cases (L.contains body key)) [
    | inl given ↦ rw given (ask hv (λ v. done_keeps (extend-Balanced clause (v ∷ []) s hc hs)))
    | inr absent ↦ rw absent (done_keeps hs)
  ]

  update_statement_keeps :
      (body : L.Body) (id : ℤ) → Inside Balanced (update_statement {L = L} body id)
  unfolding update_statement codes marks
  update_statement_keeps body id =
      search (ask_statement, set_if_given_keeps, sound_rules, done_keeps) depth 40

  update_existing_keeps :
      (req : Request) (id : ℤ) (row : Row) → Inside Honest (update_existing {L = L} req id row)
  unfolding update_existing
  update_existing_keeps req id row =
      search (ask_statement, update_statement_keeps, sound_rules) depth 16

  pub update_strategy-Sound : (req : Request) (id : ℤ) → Sound {L = L} (update_strategy req id)
  unfolding update_strategy codes marks
  update_strategy-Sound req id = search (update_existing_keeps, sound_rules) depth 16
