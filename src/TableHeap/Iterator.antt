-- ===== src/TableHeap/Iterator.antt =====
-- storage/access/table_heap_iterator.go. The current page is given by its frame; it is read again where
-- another call may have changed it.
use samehada_db.Base.{
  ℕ, zero, suc, Bool, true, false, if◌then◌else◌, Option, none, some, Outcome, returns, panics,
  ◌>>=◌,
}
use samehada_db.Ids.{Rid, is_valid}
use samehada_db.Txn.{Tuple}
use samehada_db.Page.{Page, get_table_page_id, get_next_page_id}
use samehada_db.TablePage.{get_next_tuple_rid}
use samehada_db.TableHeap.{
  Store, TableHeap, answers, stands_at, fetch, read_through, give_back, get_tuple_in_heap,
  get_first_tuple,
}

pub record TableHeapIterator : Type 0 where
  pub table_heap : TableHeap
  pub tuple : Option Tuple

-- An iterator with the state that its call leaves, or the page where the walk over the pages stands.
pub data IteratorRound : Type 0 where
  points_to : TableHeapIterator → Store → IteratorRound
  walks_at : ℕ → Store → IteratorRound

unfoldable pub new_table_heap_iterator : ℕ → TableHeap → Store → Outcome IteratorRound
new_table_heap_iterator rounds t s = do
  first ← get_first_tuple rounds t s
  elim first [
    | answers tuple s' ↦ returns (points_to (record { table_heap = t; tuple = tuple }) s')
    | stands_at page_id s' ↦ returns (walks_at page_id s')
  ]

unfoldable pub is_end : TableHeapIterator → Bool
is_end it = elim it.tuple [ none ↦ true | some tuple ↦ false ]

-- The loop over the next pages: the record identifier that is found, if any, with the frame and the page
-- it ends at; or the loop still goes on.
pub data NextRound : Type 0 where
  stops : Option Rid → ℕ → Page → Store → NextRound
  continues : Page → Store → NextRound

unfoldable pub next_rounds : ℕ → Store → ℕ → Page → Rid → Outcome NextRound
next_rounds zero s f pg current = returns (continues pg s)
next_rounds (suc rounds) s f pg current = elim (is_valid (get_next_page_id pg)) [
  | false ↦ returns (stops none f pg s)
  | true ↦ (do
    (frame, s₁) ← fetch s (get_next_page_id pg)
    (g, next_page) ← read_through s₁ frame
    s₂ ← give_back s₁ (get_table_page_id pg) false
    rid ← get_next_tuple_rid next_page current true
    elim rid [
      | some r ↦ returns (stops (some r) g next_page s₂)
      | none ↦ next_rounds rounds s₂ g next_page current
    ])
]

-- The record identifier of the current tuple, which the code reads through pointers.
unfoldable pub current_rid : TableHeapIterator → Outcome Rid
current_rid it = elim it.tuple [
  | none ↦ panics
  | some tuple ↦ elim tuple.rid [ none ↦ panics | some rid ↦ returns rid ]
]

unfoldable pub first_round : ℕ → Store → ℕ → Page → Rid → Outcome NextRound
first_round rounds s f pg current = do
  rid ← get_next_tuple_rid pg current false
  elim rid [ some r ↦ returns (stops (some r) f pg s) | none ↦ next_rounds rounds s f pg current ]

unfoldable pub next_tuple : Store → Option Rid → Outcome (Option Tuple × Store)
next_tuple s none = returns (none, s)
next_tuple s (some rid) =
    if is_valid rid.page_id then get_tuple_in_heap s rid else returns (none, s)

unfoldable pub iterator_next : ℕ → TableHeapIterator → Store → Outcome IteratorRound
iterator_next rounds it s = do
  current ← current_rid it
  (frame, s₁) ← fetch s current.page_id
  (f, pg) ← read_through s₁ frame
  round ← first_round rounds s₁ f pg current
  elim round [
    | continues pg' s₂ ↦ returns (walks_at (get_table_page_id pg') s₂)
    | stops rid g pg' s₂ ↦ (do
      (tuple, s₃) ← next_tuple s₂ rid
      s₄ ← give_back s₃ (get_table_page_id pg') false
      returns (points_to (record it { tuple = tuple }) s₄))
  ]
