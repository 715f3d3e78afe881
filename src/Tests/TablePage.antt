-- ===== src/Tests/TablePage.antt =====
-- The theorems about the slotted page and the log at a concrete page of one tuple of three bytes, with
-- logging on or off.
use samehada_db.Base.{
  ℕ, zero, suc, ◌≢◌, ◌<◌, List, [], ◌∷◌, true, false, Option, none, returns, ◌≡◌, refl, arith, ◌∙◌,
  sym, inl, length-replicate,
}
use samehada_db.Ids.{Rid}
use samehada_db.Bytes.{slice_at, slice, read_u32, le32, make_bytes, word32}
use samehada_db.Bytes.Slices.{length-copy_at}
use samehada_db.Bytes.Words.{word32-copy_self, word32-copy_ne}
use samehada_db.Txn.{Tuple, new_transaction}
use samehada_db.Lock.{new_lock_manager, regular, prevention}
use samehada_db.Log.{
  LogManager, LogRecord, new_log_manager, new_log_record_insert_delete, insert_type, empty_record,
  mark_delete_type, append_log_record,
}
use samehada_db.Log.Append.{IsReady, Appended, append_log_record_total}
use samehada_db.Page.{Page, get_lsn}
use samehada_db.Page.Slots.{fsp_of, count_of, offset_of, size_of, IsPage, patch}
use samehada_db.TablePage.{
  Env, MarkReply, InsertReply, mark_delete, apply_delete, rollback_delete, insert_tuple, init,
  get_tuple,
}
use samehada_db.TablePage.View.{free, live, tuple_bytes, stored, IsSound}
use samehada_db.TablePage.Free.{Frees, apply_delete-Frees}
use samehada_db.TablePage.Columns.{values_from, chosen}
use samehada_db.Recovery.Redo.{redo_page}
use samehada_db.Recovery.Inverse.{Applies, marks, Restores, undo_change-redo_change}
use samehada_db.Recovery.Again.{applies, redo_page-again}
use samehada_db.Value.{
  Value, int_lt, new_integer, integer_type, new_value_from_bytes, read_bool, mark_null,
}
use samehada_db.Schema.{Column, Schema, get_column, index, is_inlined, inlined_type}
use samehada_db.Row.{get_value, value_offset}
use samehada_db.TablePage.Delete.{MarksDeleted, mark_delete_marks}
use samehada_db.TablePage.Rollback.{Unmarks, rollback_delete-Unmarks}
use samehada_db.TablePage.Insert.{InsertEnds, insert_tuple_ends}
use samehada_db.TablePage.Read.{Reads, get_tuple-Reads}
use samehada_db.TablePage.Start.{init_empties}

abbrev log0 : LogManager
log0 = new_log_manager (record { content = []; position = 0; num_flushes = 0 })

abbrev env0 : Env
env0 = record {
  logging = true;
  locks = new_lock_manager regular prevention;
  log = log0;
  txn = new_transaction 1;
}

abbrev unlogged : Env
unlogged = record env0 { logging = false }

abbrev zeros : Page
zeros = record { id = 7; pin_count = 1; is_dirty = false; bytes = make_bytes 4096 }

log0-IsReady : IsReady log0
unfolding new_log_manager
log0-IsReady = record {
  log_length = length-replicate {A = ℕ} 45056 0;
  flush_length = length-replicate {A = ℕ} 45056 0;
  within = omega arith;
}

zeros-IsPage : IsPage zeros
zeros-IsPage = length-replicate {A = ℕ} 4096 0

abbrev b₁ : Page
b₁ = patch zeros 16 (le32 4093)

abbrev b₂ : Page
b₂ = patch b₁ 20 (le32 1)

abbrev b₃ : Page
b₃ = patch b₂ 24 (le32 4093)

abbrev b₄ : Page
b₄ = patch b₃ 28 (le32 3)

-- One tuple of the bytes 1, 2, 3.
abbrev page1 : Page
page1 = patch b₄ 4093 (1 ∷ 2 ∷ 3 ∷ [])

len₁ : IsPage b₁
len₁ = length-copy_at 16 (le32 4093) zeros.bytes ∙ zeros-IsPage

len₂ : IsPage b₂
len₂ = length-copy_at 20 (le32 1) b₁.bytes ∙ len₁

len₃ : IsPage b₃
len₃ = length-copy_at 24 (le32 4093) b₂.bytes ∙ len₂

len₄ : IsPage b₄
len₄ = length-copy_at 28 (le32 3) b₃.bytes ∙ len₃

fsp1 : fsp_of page1 ≡ 4093
unfolding le32
fsp1 =
    word32-copy_ne 4093 (1 ∷ 2 ∷ 3 ∷ []) b₄.bytes 16 (inl (omega arith))
    ∙ word32-copy_ne 28 (le32 3) b₃.bytes 16 (inl (omega arith))
    ∙ word32-copy_ne 24 (le32 4093) b₂.bytes 16 (inl (omega arith))
    ∙ word32-copy_ne 20 (le32 1) b₁.bytes 16 (inl (omega arith))
    ∙ word32-copy_self 16 4093 zeros.bytes (omega (arith, zeros-IsPage))

count1 : count_of page1 ≡ 1
unfolding le32
count1 =
    word32-copy_ne 4093 (1 ∷ 2 ∷ 3 ∷ []) b₄.bytes 20 (inl (omega arith))
    ∙ word32-copy_ne 28 (le32 3) b₃.bytes 20 (inl (omega arith))
    ∙ word32-copy_ne 24 (le32 4093) b₂.bytes 20 (inl (omega arith))
    ∙ word32-copy_self 20 1 b₁.bytes (omega (arith, len₁))

offset1 : word32 page1.bytes 24 ≡ 4093
unfolding le32
offset1 =
    word32-copy_ne 4093 (1 ∷ 2 ∷ 3 ∷ []) b₄.bytes 24 (inl (omega arith))
    ∙ word32-copy_ne 28 (le32 3) b₃.bytes 24 (inl (omega arith))
    ∙ word32-copy_self 24 4093 b₂.bytes (omega (arith, len₂))

size1 : word32 page1.bytes 28 ≡ 3
unfolding le32
size1 =
    word32-copy_ne 4093 (1 ∷ 2 ∷ 3 ∷ []) b₄.bytes 28 (inl (omega arith))
    ∙ word32-copy_self 28 3 b₃.bytes (omega (arith, len₃))

at_zero : (i : ℕ) → i < count_of page1 → i ≡ 0
at_zero i h = omega (arith, h, count1)

size_at : (i : ℕ) → i < count_of page1 → size_of page1 i ≡ 3
size_at i h = rw (at_zero i h) size1

offset_at : (i : ℕ) → i < count_of page1 → offset_of page1 i ≡ 4093
offset_at i h = rw (at_zero i h) offset1

page1-IsSound : IsSound page1
page1-IsSound = record {
  page = length-copy_at 4093 (1 ∷ 2 ∷ 3 ∷ []) b₄.bytes ∙ len₄;
  slots_fit = omega (arith, fsp1, count1);
  pointer_fits = omega (arith, fsp1);
  words = λ i h. omega (arith, size_at i h);
  nonempty = λ i u. omega (arith, size_at i u.0);
  inside =
      λ i u. (omega (arith, offset_at i u.0, fsp1), omega (arith, offset_at i u.0, size_at i u.0));
  apart = λ i j u v ne. absurd (ne (at_zero i u.0 ∙ sym (at_zero j v.0)));
}

abbrev rid0 : Rid
rid0 = record { page_id = 0; slot_num = 0 }

abbrev two_bytes : Tuple
two_bytes = record { rid = none; size = 2; bytes = 8 ∷ 9 ∷ [] }

insert_tuple_ends_example :
    (reply : InsertReply) × (insert_tuple env0 page1 two_bytes ≡ returns reply)
    × InsertEnds env0 page1 two_bytes reply
insert_tuple_ends_example =
    insert_tuple_ends env0 page1 two_bytes page1-IsSound log0-IsReady refl (omega arith)

mark_delete_marks_example :
    (reply : MarkReply) × (mark_delete env0 page1 rid0 ≡ returns reply)
    × MarksDeleted env0 page1 0 reply
mark_delete_marks_example = mark_delete_marks env0 page1 rid0 page1-IsSound log0-IsReady

rollback_delete-Unmarks_example :
    (e' : Env) × (p' : Page) × (rollback_delete unlogged page1 rid0 ≡ returns (e', p'))
    × Unmarks page1 0 e' p'
rollback_delete-Unmarks_example =
    rollback_delete-Unmarks unlogged page1 rid0 page1-IsSound log0-IsReady (omega (arith, count1))
      refl

get_tuple-Reads_example :
    (answer : Option Tuple × Env) × (get_tuple env0 page1 rid0 ≡ returns answer)
    × Reads env0 page1 rid0 answer
get_tuple-Reads_example = get_tuple-Reads env0 page1 rid0 page1-IsSound

init_empties_example :
    (e' : Env) × (p' : Page) × (init env0 zeros 7 6 ≡ returns (e', p'))
    × IsSound p'
    × ((i : ℕ) → stored p' i ≡ free)
    × (IsReady e'.log)
init_empties_example = init_empties env0 zeros 7 6 log0-IsReady zeros-IsPage

abbrev insert_record : LogRecord
insert_record = new_log_record_insert_delete 1 4294967295 insert_type rid0 two_bytes

append_log_record_total_example :
    (m' : LogManager) × (r' : LogRecord) × (append_log_record log0 insert_record ≡ returns (m', r'))
    × Appended log0 m' insert_record r'
unfolding new_log_record_insert_delete
append_log_record_total_example =
    append_log_record_total log0 insert_record log0-IsReady
      (record { exact = refl; small = omega arith })

page1-live : stored page1 0 ≡ live (tuple_bytes page1 0)
unfolding stored
page1-live = ground (arith, count1, size1)

page1-present : stored page1 0 ≢ free
unfolding stored
page1-present h = ground (arith, count1, size1, h)

apply_delete-Frees_example :
    (e' : Env) × (p' : Page) × (apply_delete unlogged page1 rid0 ≡ returns (e', p'))
    × Frees page1 0 e' p'
apply_delete-Frees_example =
    apply_delete-Frees unlogged page1 rid0 page1-IsSound log0-IsReady page1-present refl

-- One column of five bytes, in a new and an old tuple.
abbrev column_a : Column
column_a = record {
  column_name = 97 ∷ [];
  column_type = integer_type;
  fixed_length = 5;
  variable_length = 0;
  column_offset = 0;
  has_index = false;
  is_left = true;
}

abbrev one_column : Schema
one_column = record {
  length_of = 5;
  columns = column_a ∷ [];
  tuple_is_inlined = true;
  uninlined_columns = [];
}

abbrev number_tuple : ℕ → Tuple
number_tuple n = record { rid = none; size = 5; bytes = 0 ∷ n ∷ 0 ∷ 0 ∷ 0 ∷ [] }

reads_7 : (i : ℕ) → i < 1 → get_value (number_tuple 7) one_column i ≡ returns (new_integer 7)
unfolding get_value value_offset get_column index new_value_from_bytes read_bool mark_null
    new_integer read_u32 is_inlined inlined_type slice_at slice word32
reads_7 zero h = refl
reads_7 (suc i) h = absurd (omega arith)

reads_8 : (i : ℕ) → i < 1 → get_value (number_tuple 8) one_column i ≡ returns (new_integer 8)
unfolding get_value value_offset get_column index new_value_from_bytes read_bool mark_null
    new_integer read_u32 is_inlined inlined_type slice_at slice word32
reads_8 zero h = refl
reads_8 (suc i) h = absurd (omega arith)

abbrev values_8 : List Value
values_8 =
    values_from
      (chosen (number_tuple 8) (number_tuple 7) one_column (λ i. new_integer 8) (λ i. new_integer 7)
        reads_8 reads_7 (0 ∷ []))
      0 one_column.columns

abbrev mark_record : LogRecord
mark_record = record empty_record { lsn = 5; log_record_type = mark_delete_type; delete_rid = rid0 }

page1-Applies : Applies page1 mark_record
page1-Applies = marks (tuple_bytes page1 0) refl page1-live

undo_change-redo_change_example : Restores unlogged page1 mark_record page1-Applies
undo_change-redo_change_example =
    undo_change-redo_change unlogged refl log0-IsReady page1 mark_record page1-IsSound page1-Applies

redo_page-again_example :
    (q : Page) × (redo_page unlogged page1 mark_record ≡ returns q)
    × IsSound q
    × (redo_page unlogged q mark_record ≡ returns q)
    × (int_lt (get_lsn page1) 5 ≡ false → q ≡ page1)
    × (int_lt (get_lsn page1) 5 ≡ true → get_lsn q ≡ 5)
redo_page-again_example =
    redo_page-again unlogged refl log0-IsReady page1 mark_record page1-IsSound (omega arith)
      (applies page1-Applies)
