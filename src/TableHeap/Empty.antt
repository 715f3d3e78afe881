-- ===== src/TableHeap/Empty.antt =====
-- InsertTuple of storage/access/table_heap.go for a tuple without bytes.
use samehada_db.Base.{ℕ, suc, true, ◌==◌, Outcome, returns, panics, ◌>>=◌, ◌≡◌, refl, arith}
use samehada_db.Txn.{Tuple}
use samehada_db.Page.{Page, get_table_page_id}
use samehada_db.Buffer.{page_in}
use samehada_db.TablePage.{Env, err_empty_tuple, insert_tuple, insert_fails}
use samehada_db.TableHeap.{
  Store, TableHeap, env_of, put, fetch, read_through, give_back, rid_behind, leave_loop,
  insert_round, insert_rounds, insert_into_heap,
}

-- Where all that follows panics, so does the whole.
panics-bind {ℓ κ} :
    {A : Type ℓ} {B : Type κ}
    → (o : Outcome A) (k : A → Outcome B) → ((a : A) → k a ≡ panics)
    → (o >>= k) ≡ panics
panics-bind panics k h = refl
panics-bind (returns a) k h = h a

insert_tuple-empty :
    (e : Env) (p : Page) (tuple : Tuple)
    → tuple.size ≡ 0
    → insert_tuple e p tuple ≡ returns (insert_fails e p tuple err_empty_tuple)
unfolding insert_tuple
insert_tuple-empty e p tuple h =
    let none_of_it : (tuple.size == 0) ≡ true = ground arith in rw none_of_it refl

insert_round-empty :
    (t : TableHeap) (s : Store) (f : ℕ) (tuple : Tuple)
    → tuple.size ≡ 0
    → insert_round t s f tuple ≡ panics
unfolding insert_round leave_loop rid_behind
insert_round-empty t s f tuple h = panics-bind (page_in s.bpm f) _ (λ pg.
    rw (insert_tuple-empty (env_of s) pg tuple h)
      (panics-bind (give_back (put s f (env_of s) pg) (get_table_page_id pg) true) _ (λ s₂. refl)))

-- `InsertTuple` of a tuple without bytes panics, whatever the table, the pool, the locks and the log are,
-- as soon as its loop has a round.
pub insert_empty_panics :
    (rounds : ℕ) (t : TableHeap) (s : Store) (tuple : Tuple)
    → tuple.size ≡ 0
    → insert_into_heap (suc rounds) t s tuple ≡ panics
unfolding insert_into_heap insert_rounds
insert_empty_panics rounds t s tuple h = panics-bind (fetch s t.first_page_id) _ (λ got.
    panics-bind (read_through got.1 got.0) _
      (λ here. rw (insert_round-empty t got.1 here.0 tuple h) refl))
