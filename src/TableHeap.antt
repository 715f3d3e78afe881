-- ===== src/TableHeap.antt =====
-- storage/access/table_heap.go: a table as a chain of table pages in the buffer pool. The pool, the lock
-- tables and the log are shared by all tables, so that they stand in a state that each call is
-- given. A pointer to a page is its frame, which stays the page's while it is pinned; reading through
-- the nil that FetchPage answers panics.
pub mod Empty
pub mod Update
pub mod Iterator
use samehada_db.Base.{
  ℕ, zero, suc, ◌++◌, [], ◌∷◌, Bool, true, false, ◌||◌, if◌then◌else◌, Option, none, some, Outcome,
  returns, panics, ◌>>=◌,
}
use samehada_db.Ids.{Rid, is_valid, invalid_id}
use samehada_db.Txn.{
  Tuple, Transaction, WriteRecord, aborted, set_state, is_shared_locked, is_exclusive_locked,
  add_into_write_set, insert, delete,
}
use samehada_db.Lock.{LockManager, lock_shared}
use samehada_db.Log.{empty_tuple}
use samehada_db.Page.{Page, get_table_page_id, get_next_page_id, set_next_page_id}
use samehada_db.Buffer.{
  BufferPoolManager, fetch_page, unpin_page, new_page_in_pool, page_in, put_page,
}
use samehada_db.TablePage.{
  Env, PageError, err_empty_tuple, err_not_enough_space, err_no_free_slot, err_not_locked,
  InsertReply, inserted, failed, settle, insert_tuple, mark_delete, apply_delete, rollback_delete,
  init, get_tuple, get_tuple_first_rid,
}

pub record Store : Type 0 where
  pub bpm : BufferPoolManager
  pub logging : Bool
  pub locks : LockManager
  pub txn : Transaction

pub record TableHeap : Type 0 where
  pub first_page_id : ℕ

-- What an operation on a page reads and writes beside the page, and what it leaves of that.
abbrev pub env_of : Store → Env
env_of s = record { logging = s.logging; locks = s.locks; log = s.bpm.log_manager; txn = s.txn }

abbrev pub put_env : Store → Env → Store
put_env s e = record s {
  bpm = record (s.bpm) { log_manager = e.log };
  locks = e.locks;
  txn = e.txn;
}

abbrev pub put : Store → ℕ → Env → Page → Store
put s f e pg = let after = put_env s e in record after { bpm = put_page after.bpm f pg }

abbrev pub aborts : Store → Store
aborts s = record s { txn = set_state s.txn aborted }

-- NewWriteRecord(rid, wtype, new(tuple.Tuple), t), put into the write set
abbrev pub record_write : Store → WriteRecord → Store
record_write s w = record s { txn = add_into_write_set s.txn w }

unfoldable pub fetch : Store → ℕ → Outcome (Option ℕ × Store)
fetch s page_id = do (frame, b) ← fetch_page s.bpm page_id; returns (frame, record s { bpm = b })

-- The page behind a pointer that may be nil, with its frame.
unfoldable pub read_through : Store → Option ℕ → Outcome (ℕ × Page)
read_through s none = panics
read_through s (some f) = do pg ← page_in s.bpm f; returns (f, pg)

-- UnpinPage, whose error the code does not look at.
unfoldable pub give_back : Store → ℕ → Bool → Outcome Store
give_back s page_id is_dirty = do
  (_, b) ← unpin_page s.bpm page_id is_dirty
  returns (record s { bpm = b })

-- `NewTableHeap`
unfoldable pub new_table_heap : Store → Outcome (TableHeap × Store)
new_table_heap s = do
  (frame, b) ← new_page_in_pool s.bpm
  (f, pg) ← read_through (record s { bpm = b }) frame
  (e, pg') ← init (env_of (record s { bpm = b })) pg pg.id invalid_id
  s' ← give_back (put (record s { bpm = b }) f e pg') pg.id true
  returns (record { first_page_id = pg.id }, s')

abbrev pub init_table_heap : ℕ → TableHeap
init_table_heap page_id = record { first_page_id = page_id }

-- What one round of the loop of `InsertTuple` comes to: the tuple has a place, an error, or the frame of
-- the page to try next.
pub data InsertRound : Type 0 where
  placed : Rid → Store → Tuple → InsertRound
  refuses : PageError → Store → InsertRound
  goes_on : ℕ → Store → InsertRound

-- The page behind the one in frame `f`, which is given back.
unfoldable pub to_next : Store → ℕ → ℕ → Outcome InsertRound
to_next s page_id next_page_id = do
  s₁ ← give_back s page_id false
  (frame, s₂) ← fetch s₁ next_page_id
  (g, _) ← read_through s₂ frame
  returns (goes_on g s₂)

-- A new page behind the one in frame `f`.
unfoldable pub to_new : Store → ℕ → Outcome InsertRound
to_new s f = do
  (frame, b) ← new_page_in_pool s.bpm
  (g, fresh) ← read_through (record s { bpm = b }) frame
  pg ← page_in b f
  let current = set_next_page_id pg fresh.id
  let s₁ = record s { bpm = put_page b f current }
  (e, fresh') ← init (env_of s₁) fresh fresh.id (get_table_page_id current)
  s₂ ← give_back (put s₁ g e fresh') (get_table_page_id current) true
  returns (goes_on g s₂)

-- The record identifier behind a pointer that may be nil.
unfoldable pub rid_behind : Option Rid → Outcome Rid
rid_behind none = panics
rid_behind (some rid) = returns rid

-- What follows the loop: the page is given back, and the record identifier is read for the write set.
unfoldable pub leave_loop : TableHeap → Store → ℕ → Option Rid → Tuple → Outcome InsertRound
leave_loop t s page_id rid tuple = do
  s₁ ← give_back s page_id true
  r ← rid_behind rid
  returns (
      placed r
        (record_write s₁
          record { rid = r; wtype = insert; tuple = empty_tuple; table = t.first_page_id })
        tuple)

-- One round; an empty tuple leaves the loop without a record identifier.
unfoldable pub insert_round : TableHeap → Store → ℕ → Tuple → Outcome InsertRound
insert_round t s f tuple = do
  pg ← page_in s.bpm f
  reply ← insert_tuple (env_of s) pg tuple
  let s₁ = put s f reply.env reply.page
  let page_id = get_table_page_id reply.page
  elim reply.result [
    | inserted rid ↦ leave_loop t s₁ page_id (some rid) reply.tuple
    | failed err ↦ elim err [
      | err_empty_tuple ↦ leave_loop t s₁ page_id none reply.tuple
      | err_not_enough_space ↦
          if is_valid (get_next_page_id reply.page)
          then to_next s₁ page_id (get_next_page_id reply.page)
          else to_new s₁ f
      | err_no_free_slot ↦ returns (refuses err_no_free_slot s₁)
      | err_not_locked ↦ returns (refuses err_not_locked s₁)
    ]
  ]

-- The loop, for as many rounds as are given; it still goes on where they are used up.
unfoldable pub insert_rounds : ℕ → TableHeap → Store → ℕ → Tuple → Outcome InsertRound
insert_rounds zero t s f tuple = returns (goes_on f s)
insert_rounds (suc rounds) t s f tuple = do
  round ← insert_round t s f tuple
  elim round [
    | placed rid s' tuple' ↦ returns (placed rid s' tuple')
    | refuses err s' ↦ returns (refuses err s')
    | goes_on g s' ↦ insert_rounds rounds t s' g tuple
  ]

-- `InsertTuple`
unfoldable pub insert_into_heap : ℕ → TableHeap → Store → Tuple → Outcome InsertRound
insert_into_heap rounds t s tuple = do
  (frame, s₁) ← fetch s t.first_page_id
  (f, _) ← read_through s₁ frame
  insert_rounds rounds t s₁ f tuple

-- `MarkDelete`
unfoldable pub mark_delete_in_heap : TableHeap → Store → Rid → Outcome (Bool × Store)
mark_delete_in_heap t s rid = do
  (frame, s₁) ← fetch s rid.page_id
  elim frame [
    | none ↦ returns (false, aborts s₁)
    | some f ↦ (do
      pg ← page_in s₁.bpm f
      reply ← mark_delete (env_of s₁) pg rid
      s₂ ← give_back (put s₁ f reply.env reply.page) (get_table_page_id reply.page) true
      returns (
        reply.done,
        if reply.done
            then record_write s₂
                record { rid = rid; wtype = delete; tuple = empty_tuple; table = t.first_page_id }
            else s₂,
      ))
  ]

-- `ApplyDelete` and `RollbackDelete`
unfoldable pub change_page : (Env → Page → Rid → Outcome (Env × Page)) → Store → Rid → Outcome Store
change_page operation s rid = do
  (frame, s₁) ← fetch s rid.page_id
  (f, pg) ← read_through s₁ frame
  (e, pg') ← operation (env_of s₁) pg rid
  give_back (put s₁ f e pg') (get_table_page_id pg') true

unfoldable pub apply_delete_in_heap : Store → Rid → Outcome Store
apply_delete_in_heap s rid = change_page apply_delete s rid

unfoldable pub rollback_delete_in_heap : Store → Rid → Outcome Store
rollback_delete_in_heap s rid = change_page rollback_delete s rid

-- The lock of `GetTuple`, which is asked for whether logging is on or not.
unfoldable pub lock_to_read : Store → Rid → Bool × Env
lock_to_read s rid =
    if is_shared_locked s.txn rid || is_exclusive_locked s.txn rid
    then (true, env_of s)
    else settle (env_of s) (lock_shared s.locks s.txn rid)

-- `GetTuple`
unfoldable pub get_tuple_in_heap : Store → Rid → Outcome (Option Tuple × Store)
get_tuple_in_heap s rid =
    let (granted, e) = lock_to_read s rid in
    if granted
    then (do
      (frame, s₁) ← fetch (put_env s e) rid.page_id
      (f, pg) ← read_through s₁ frame
      (tuple, e') ← get_tuple (env_of s₁) pg rid
      s₂ ← give_back (put_env s₁ e') pg.id false
      returns (tuple, s₂))
    else returns (none, put_env s e)

-- What the walk of `GetFirstTuple` over the pages comes to after some rounds.
pub data FirstRound : Type 0 where
  found : Rid → Store → FirstRound
  ended : Store → FirstRound
  looks_at : ℕ → Store → FirstRound

unfoldable pub first_rounds : ℕ → Store → ℕ → Outcome FirstRound
first_rounds zero s page_id = returns (looks_at page_id s)
first_rounds (suc rounds) s page_id = elim (is_valid page_id) [
  | false ↦ returns (ended s)
  | true ↦ (do
    (frame, s₁) ← fetch s page_id
    (f, pg) ← read_through s₁ frame
    rid ← get_tuple_first_rid pg
    s₂ ← give_back s₁ page_id false
    elim rid [
      | some r ↦ returns (found r s₂)
      | none ↦ first_rounds rounds s₂ (get_next_page_id pg)
    ])
]

-- `GetFirstTuple`: its answer, or the page where the walk stands.
pub data FirstTuple : Type 0 where
  answers : Option Tuple → Store → FirstTuple
  stands_at : ℕ → Store → FirstTuple

unfoldable pub get_first_tuple : ℕ → TableHeap → Store → Outcome FirstTuple
get_first_tuple rounds t s = do
  round ← first_rounds rounds s t.first_page_id
  elim round [
    | found rid s' ↦ (do (tuple, s₂) ← get_tuple_in_heap s' rid; returns (answers tuple s₂))
    | ended s' ↦ returns (answers none s')
    | looks_at page_id s' ↦ returns (stands_at page_id s')
  ]
