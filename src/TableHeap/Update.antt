-- ===== src/TableHeap/Update.antt =====
-- `UpdateTuple` of storage/access/table_heap.go: an update on the page, or, where the page has no room, a
-- delete and an insert.
use samehada_db.Base.{
  ℕ, List, Bool, true, false, if◌then◌else◌, Option, none, some, Outcome, returns, panics, ◌>>=◌,
}
use samehada_db.Ids.{Rid}
use samehada_db.Txn.{Tuple, TransactionState, aborted, update}
use samehada_db.Log.{empty_tuple}
use samehada_db.Page.{get_table_page_id}
use samehada_db.Buffer.{page_in}
use samehada_db.Schema.{Schema}
use samehada_db.TablePage.{err_not_enough_space}
use samehada_db.TablePage.Update.{UpdateReply, update_tuple}
use samehada_db.TableHeap.{
  Store, TableHeap, env_of, put, aborts, record_write, fetch, give_back, mark_delete_in_heap,
  insert_into_heap, placed, refuses, goes_on,
}

unfoldable pub is_aborted : TransactionState → Bool
is_aborted aborted = true
is_aborted _ = false

-- The answer, the new place of a tuple that was moved, and the state; or the loop of the insert stands at
-- a page when its rounds are used up.
pub data UpdateRound : Type 0 where
  answers : Bool → Option Rid → Store → UpdateRound
  inserts_at : ℕ → Store → UpdateRound

-- The write set's entry of an update.
unfoldable pub record_update : TableHeap → Store → Rid → Tuple → Store
record_update t s rid old_tuple =
    if is_aborted s.txn.state
    then s
    else record_write s
        (record { rid = rid; wtype = update; tuple = old_tuple; table = t.first_page_id })

-- Delete and insert.
unfoldable pub move_tuple : ℕ → TableHeap → Store → Rid → Tuple → Tuple → Outcome UpdateRound
move_tuple rounds t s rid old_tuple follow = do
  (marked, s₁) ← mark_delete_in_heap t s rid
  if marked
      then (do
        round ← insert_into_heap rounds t s₁ follow
        elim round [
          | placed new_rid s₂ _ ↦
              returns (answers true (some new_rid) (record_update t s₂ rid old_tuple))
          | refuses _ s₂ ↦ returns (answers false none (aborts s₂))
          | goes_on f s₂ ↦ returns (inserts_at f s₂)
        ])
      else returns (answers false none (aborts s₁))

-- An error is ErrNotEnoughSpace, the only one that the page answers, with the tuple to follow.
unfoldable pub settle_update : ℕ → TableHeap → Store → Rid → UpdateReply → Outcome UpdateRound
settle_update rounds t s rid reply =
    if reply.done
    then returns (answers true none (record_update t s rid reply.old_tuple))
    else elim reply.error [
      | some err_not_enough_space ↦ elim reply.follow [
        | some follow ↦ move_tuple rounds t s rid reply.old_tuple follow
        | none ↦ panics
      ]
      | _ ↦ returns (answers false none s)
    ]

unfoldable pub update_in_heap :
    ℕ → TableHeap → Store → Tuple → Option (List ℕ) → Option Schema → Rid → Outcome UpdateRound
update_in_heap rounds t s tuple targets schema rid = do
  (frame, s₁) ← fetch s rid.page_id
  elim frame [
    | none ↦ returns (answers false none (aborts s₁))
    | some f ↦ (do
      pg ← page_in s₁.bpm f
      reply ←
          update_tuple (env_of s₁) pg tuple targets schema (record empty_tuple { rid = some rid })
            rid
      s₂ ← give_back (put s₁ f reply.env reply.page) (get_table_page_id reply.page) reply.done
      settle_update rounds t s₂ rid reply)
  ]
