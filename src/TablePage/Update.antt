-- ===== src/TablePage/Update.antt =====
-- `UpdateTuple` of storage/access/table_page.go: the tuple with the new values, and the page on which it
-- takes the place of the old one. Column numbers are not negative.
use samehada_db.Base.{
  ℕ, zero, suc, ◌+◌, List, [], ◌∷◌, Bool, true, false, ◌&&◌, leb, ltb, ◌==◌, if◌then◌else◌, Option,
  none, some, Outcome, returns, ◌>>=◌, ◌>>◌, check,
}
use samehada_db.Ids.{Rid}
use samehada_db.Bytes.{slice_at, u32, sub32}
use samehada_db.Txn.{Tuple}
use samehada_db.Log.{new_log_record_update, update_type}
use samehada_db.Page.{
  Page, copy_bytes, set_free_space_pointer, get_free_space_pointer, get_tuple_count,
  get_tuple_offset_at_slot, set_tuple_offset_at_slot, get_tuple_size, set_tuple_size,
  get_free_space_remaining, is_deleted,
}
use samehada_db.Value.{Value}
use samehada_db.Schema.{Schema, Column}
use samehada_db.Row.{get_value, new_tuple_from_schema}
use samehada_db.TablePage.{Env, PageError, err_not_enough_space, abort_if_logging, lock_and_log}

-- Whether a column is the next one to update, and the columns that are then left.
unfoldable pub is_target : ℕ → List ℕ → Bool
is_target idx [] = false
is_target idx (t ∷ ts) = idx == t

unfoldable pub left_targets : ℕ → List ℕ → List ℕ
left_targets idx [] = []
left_targets idx (t ∷ ts) = if idx == t then ts else t ∷ ts

-- The loop over the columns: the value of the new tuple for a target, else that of the old one.
unfoldable pub update_values :
    List Column → ℕ → List ℕ → Tuple → Tuple → Schema → Outcome (List Value)
update_values [] idx targets new_tuple old_tuple schema = returns []
update_values (c ∷ cs) idx targets new_tuple old_tuple schema = do
  v ← get_value (if is_target idx targets then new_tuple else old_tuple) schema idx
  rest ← update_values cs (idx + 1) (left_targets idx targets) new_tuple old_tuple schema
  returns (v ∷ rest)

-- The tuple to store: the new one where no columns or no schema is given.
unfoldable pub updated_tuple : Tuple → Option (List ℕ) → Option Schema → Tuple → Outcome Tuple
updated_tuple new_tuple none schema old_tuple = returns new_tuple
updated_tuple new_tuple (some targets) none old_tuple = returns new_tuple
updated_tuple new_tuple (some targets) (some schema) old_tuple = do
  values ← update_values schema.columns 0 targets new_tuple old_tuple schema
  new_tuple_from_schema values schema

-- The last loop: the tuples in front of the end of the old one, itself too, move.
unfoldable pub move_offsets : ℕ → ℕ → ℕ → ℕ → Page → ℕ → Outcome Page
move_offsets bound old_size new_size zero p slot = returns p
move_offsets bound old_size new_size (suc rounds) p slot = do
  offset ← get_tuple_offset_at_slot p slot
  size ← get_tuple_size p slot
  p' ←
      if ltb 0 size && ltb offset bound
      then set_tuple_offset_at_slot p slot (sub32 (u32 (offset + old_size)) new_size)
      else returns p
  move_offsets bound old_size new_size rounds p' (slot + 1)

-- The writes of the update.
unfoldable pub replace_tuple : ℕ → ℕ → ℕ → Tuple → Page → Outcome Page
replace_tuple slot_num tuple_offset tuple_size tuple p = do
  let fsp = get_free_space_pointer p
  let start = sub32 (u32 (fsp + tuple_size)) tuple.size
  check (leb fsp tuple_offset)
  front ← slice_at p.bytes fsp tuple_offset
  a ← copy_bytes p start front
  source ← slice_at tuple.bytes 0 tuple.size
  b ←
      copy_bytes (set_free_space_pointer a start)
        (sub32 (u32 (tuple_offset + tuple_size)) tuple.size) source
  c ← set_tuple_size b slot_num tuple.size
  move_offsets (u32 (tuple_offset + tuple_size)) tuple_size tuple.size (get_tuple_count c) c 0

-- The three answers, what the caller's old tuple becomes, and the rest that is left.
pub record UpdateReply : Type 0 where
  pub done : Bool
  pub error : Option PageError
  pub follow : Option Tuple
  pub old_tuple : Tuple
  pub env : Env
  pub page : Page

abbrev pub update_refused : Env → Page → Tuple → UpdateReply
update_refused e p old_tuple = record {
  done = false;
  error = none;
  follow = none;
  old_tuple = old_tuple;
  env = e;
  page = p;
}

-- From the test of the room on.
unfoldable pub update_in_room : Env → Page → Rid → ℕ → ℕ → Tuple → Tuple → Outcome UpdateReply
update_in_room e p rid tuple_offset tuple_size old_tuple tuple =
    if ltb (u32 (get_free_space_remaining p + tuple_size)) tuple.size
    then returns (record (update_refused e p old_tuple) {
      error = some err_not_enough_space;
      follow = some tuple;
    })
    else (do
      reply ←
          lock_and_log e p rid
            (new_log_record_update e.txn.txn_id e.txn.prev_lsn update_type rid old_tuple tuple)
      if reply.done
          then (do
            p' ← replace_tuple rid.slot_num tuple_offset tuple_size tuple reply.page
            returns (record (update_refused reply.env p' old_tuple) { done = true }))
          else returns (update_refused reply.env reply.page old_tuple))

unfoldable pub update_tuple :
    Env → Page → Tuple → Option (List ℕ) → Option Schema → Tuple → Rid → Outcome UpdateReply
update_tuple e p new_tuple targets schema given rid = do
  check (ltb 0 new_tuple.size)
  if leb (get_tuple_count p) rid.slot_num
      then returns (update_refused (abort_if_logging e) p given)
      else (do
        tuple_size ← get_tuple_size p rid.slot_num
        if is_deleted tuple_size then returns (update_refused (abort_if_logging e) p given) else (do
          tuple_offset ← get_tuple_offset_at_slot p rid.slot_num
          stored ← slice_at p.bytes tuple_offset (u32 (tuple_offset + tuple_size))
          let old_tuple : Tuple = record { rid = some rid; size = tuple_size; bytes = stored }
          tuple ← updated_tuple new_tuple targets schema old_tuple
          update_in_room e p rid tuple_offset tuple_size old_tuple tuple))
