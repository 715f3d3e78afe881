-- ===== src/Executor.antt =====
-- execution/executors/executor.go and execution/executors/execution_engine.go: an executor gives one tuple at
-- a time. It is a type of states with a function `next`; what it runs on (tables, the pool) is a part of
-- its state.
use samehada_db.Base.{
  ℕ, zero, suc, List, [], ◌∷◌, Bool, true, false, ◌||◌, Option, none, some, Outcome, returns, ◌>>=◌,
}

-- What `Next` answers: a tuple or nil, whether it is done, whether there is an error.
pub record Reply (T : Type 0) : Type 0 where
  pub tuple : Option T
  pub done : Bool
  pub error : Bool

abbrev pub Next : Type 0 → Type 0 → Type 0
Next T S = S → Outcome (Reply T × S)

-- `Execute` behind `Init`, for as many calls of Next as are given: the tuples, and whether the loop has
-- ended.
unfoldable pub execute : {T S : Type 0} → Next T S → ℕ → S → Outcome (List T × Bool)
execute next zero s = returns ([], false)
execute next (suc rounds) s = do
  (reply, s') ← next s
  elim (reply.error || reply.done) [
    | true ↦ returns ([], true)
    | false ↦ (do
      (tuples, ended) ← execute next rounds s'
      returns (elim reply.tuple [ none ↦ tuples | some t ↦ t ∷ tuples ], ended))
  ]
