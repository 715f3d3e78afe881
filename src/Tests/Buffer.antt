-- ===== src/Tests/Buffer.antt =====
-- A pool of two frames on an empty file: a page is made, and then fetched, given back, written and
-- deleted.
use samehada_db.Base.{
  ℕ, List, [], ◌+◌, ◌<◌, true, false, Option, some, none, Outcome, returns, panics, ◌≡◌, refl,
  arith, sym, subst, length, ap, ◌∙◌, ◌⊎◌, length-replicate,
}
use samehada_db.Page.{Page, new_empty}
use samehada_db.Log.{LogManager, new_log_manager}
use samehada_db.Log.Append.{IsReady}
use samehada_db.Disk.{new_disk_manager, allocate_page}
use samehada_db.Buffer.{
  BufferPoolManager, frames_from, new_buffer_pool_manager, get_frame_id, fetch_page, unpin_page,
  flush_page, new_page_in_pool,
}
use samehada_db.Buffer.Pool.{IsPool, some_page, some_frame}
use samehada_db.Buffer.Fresh.{new_buffer_pool_manager-IsPool, Created, new_page_in_pool-Created}
use samehada_db.Buffer.Fetch.{fetch_page-Fetched}
use samehada_db.Buffer.Known.{Fetched}
use samehada_db.Buffer.Unpin.{Unpins, unpin_page-Unpins}
use samehada_db.Buffer.Flush.{Flushes, flush_page-Flushes}
use samehada_db.Buffer.Reach.{InOrder, created, here, pool_order}
use samehada_db.Buffer.Delete.{Deletes, delete_page-Deletes}

abbrev log0 : LogManager
log0 = new_log_manager (record { content = []; position = 0; num_flushes = 0 })

abbrev fresh : BufferPoolManager
fresh = new_buffer_pool_manager 2 (new_disk_manager []) log0

log0-IsReady : IsReady log0
unfolding new_log_manager
log0-IsReady = record {
  log_length = length-replicate {A = ℕ} 45056 0;
  flush_length = length-replicate {A = ℕ} 45056 0;
  within = omega arith;
}

new_buffer_pool_manager-IsPool_example : IsPool fresh []
new_buffer_pool_manager-IsPool_example =
    new_buffer_pool_manager-IsPool 2 (new_disk_manager []) log0 (omega arith) log0-IsReady

abbrev state_of : Outcome (Option ℕ × BufferPoolManager) → BufferPoolManager
state_of panics = fresh
state_of (returns (a, b)) = b

abbrev with_page : BufferPoolManager
with_page = state_of (new_page_in_pool fresh)

fresh-absent : fresh.page_table fresh.disk_manager.next_page_id ≡ none
unfolding new_buffer_pool_manager
fresh-absent = refl

with_page-IsPool : (left : List ℕ) × IsPool with_page left
with_page-IsPool =
    let ready : IsPool fresh [] =
      new_buffer_pool_manager-IsPool 2 (new_disk_manager []) log0 (omega arith) log0-IsReady in
    let (answer, b', ran, c) = new_page_in_pool-Created fresh [] ready fresh-absent in
    (c.left, subst (λ o. IsPool (state_of o) c.left) (sym ran) c.pool)

new_page_in_pool-Created_example :
    (answer : Option ℕ) × (b' : BufferPoolManager) × (new_page_in_pool fresh ≡ returns (answer, b'))
    × Created fresh b' [] answer
new_page_in_pool-Created_example =
    new_page_in_pool-Created fresh []
      (new_buffer_pool_manager-IsPool 2 (new_disk_manager []) log0 (omega arith) log0-IsReady)
      fresh-absent

-- The page that was made.
page_0 :
    (f : ℕ) (pg : Page)
    → with_page.page_table 0 ≡ some f
    → with_page.pages f ≡ some pg
    → new_empty 0 ≡ pg
unfolding new_page_in_pool get_frame_id new_buffer_pool_manager frames_from allocate_page
    new_disk_manager
page_0 f pg entry at =
    let same : 0 ≡ f = some_frame entry in some_page (ap with_page.pages same ∙ at)

room :
    (f : ℕ) (pg : Page)
    → with_page.page_table 0 ≡ some f
    → with_page.pages f ≡ some pg
    → pg.pin_count + 1 < 4294967296
unfolding new_empty
room f pg entry at = omega (arith, ap (λ p. p.pin_count) (page_0 f pg entry at))

whole :
    (f : ℕ) (pg : Page)
    → with_page.page_table 0 ≡ some f
    → with_page.pages f ≡ some pg
    → length pg.bytes ≡ 4096
unfolding new_empty
whole f pg entry at =
    ap (λ p. length p.bytes) (sym (page_0 f pg entry at)) ∙ length-replicate {A = ℕ} 4096 0

fetch_page-Fetched_example :
    (answer : Option ℕ) × (b' : BufferPoolManager) × (fetch_page with_page 0 ≡ returns (answer, b'))
    × Fetched with_page b' with_page-IsPool.0 0 answer
fetch_page-Fetched_example =
    fetch_page-Fetched with_page with_page-IsPool.0 0 with_page-IsPool.1 room

unpin_page-Unpins_example :
    ((with_page.page_table 0 ≡ none) × (unpin_page with_page 0 true ≡ returns (false, with_page)))
    ⊎ ((f : ℕ) × (pg : Page) × (b' : BufferPoolManager) × (with_page.page_table 0 ≡ some f)
        × (with_page.pages f ≡ some pg)
        × (unpin_page with_page 0 true ≡ returns (true, b'))
        × Unpins with_page b' 0 f pg true)
unpin_page-Unpins_example = unpin_page-Unpins with_page with_page-IsPool.0 0 true with_page-IsPool.1

flush_page-Flushes_example :
    ((with_page.page_table 0 ≡ none) × (flush_page with_page 0 ≡ returns (false, with_page)))
    ⊎ ((f : ℕ) × (pg : Page) × (b' : BufferPoolManager) × (with_page.page_table 0 ≡ some f)
        × (with_page.pages f ≡ some pg)
        × (flush_page with_page 0 ≡ returns (true, b'))
        × Flushes with_page b' with_page-IsPool.0 0 f pg)
flush_page-Flushes_example =
    flush_page-Flushes with_page with_page-IsPool.0 0 with_page-IsPool.1 (omega arith) whole

delete_page-Deletes_example : Deletes with_page with_page-IsPool.0 0
delete_page-Deletes_example = delete_page-Deletes with_page with_page-IsPool.0 0 with_page-IsPool.1

-- The page is made by a call that returns.
made : (answer : Option ℕ) × (new_page_in_pool fresh ≡ returns (answer, with_page))
made =
    let ready : IsPool fresh [] =
      new_buffer_pool_manager-IsPool 2 (new_disk_manager []) log0 (omega arith) log0-IsReady in
    let (answer, b', ran, c) = new_page_in_pool-Created fresh [] ready fresh-absent in
    (answer, ran ∙ ap (λ x. returns (answer, x)) (sym (ap state_of ran)))

pool_order_example : InOrder with_page
pool_order_example =
    pool_order 2 (new_disk_manager []) log0 with_page (omega arith) log0-IsReady
      (created fresh with_page made.0 here fresh-absent made.1)
