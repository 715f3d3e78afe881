-- ===== src/Limit.antt =====
-- execution/executors/limit_executor.go: the tuples of a child behind an offset, up to a limit.
pub mod Replies
pub mod Window
use samehada_db.Base.{
  ℕ, ◌+◌, Bool, true, false, ltb, if◌then◌else◌, Option, none, some, Outcome, returns, ◌>>=◌,
}
use samehada_db.Bytes.{u32}
use samehada_db.Executor.{Reply, Next}

pub record LimitPlanNode : Type 0 where
  pub limit : ℕ
  pub offset : ℕ

pub record LimitExecutor (S : Type 0) : Type 0 where
  pub plan : LimitPlanNode
  pub child : S
  pub emitted : ℕ
  pub skipped : ℕ

unfoldable pub new_limit_executor : {S : Type 0} → LimitPlanNode → S → LimitExecutor S
new_limit_executor plan child = record { plan = plan; child = child; emitted = 0; skipped = 0 }

unfoldable pub limit_next : {T S : Type 0} → Next T S → Next T (LimitExecutor S)
limit_next next e = do
  (reply, child) ← next e.child
  let e' = record e { child = child }
  if reply.error
      then returns (record { tuple = none; done = reply.done; error = true }, e')
      else elim reply.tuple [
        | none ↦ returns (record { tuple = none; done = true; error = true }, e')
        | some t ↦
            if ltb e.skipped e.plan.offset
            then returns (
              record { tuple = none; done = false; error = false },
              record e' { skipped = u32 (e.skipped + 1) },
            )
            else if ltb e.plan.limit (u32 (e.emitted + 1))
            then returns (
              record { tuple = none; done = true; error = false },
              record e' { emitted = u32 (e.emitted + 1) },
            )
            else returns (
              record { tuple = some t; done = false; error = false },
              record e' { emitted = u32 (e.emitted + 1) },
            )
      ]
