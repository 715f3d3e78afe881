-- ===== src/Buffer/Reach.antt =====
-- The states that calls of storage/buffer/buffer_pool_manager.go take a pool to.
use samehada_db.Base.{
  ℕ, ◌+◌, ◌<◌, List, [], Bool, true, false, Option, none, some, Outcome, returns, panics, ◌≡◌, ap,
  ◌∙◌, sym, subst, inl, inr,
}
use samehada_db.Page.{Page}
use samehada_db.Log.{LogManager}
use samehada_db.Log.Append.{IsReady}
use samehada_db.Disk.{DiskManager}
use samehada_db.Buffer.{
  BufferPoolManager, new_buffer_pool_manager, fetch_page, unpin_page, flush_page, new_page_in_pool,
  delete_page,
}
use samehada_db.Buffer.Pool.{IsPool}
use samehada_db.Buffer.Fetch.{fetch_page-Fetched}
use samehada_db.Buffer.Unpin.{unpin_page-Unpins}
use samehada_db.Buffer.Fresh.{new_buffer_pool_manager-IsPool, new_page_in_pool-Created}
use samehada_db.Buffer.Flush.{flush_page-IsPool}
use samehada_db.Buffer.Delete.{delete_page-Deletes, not_there, still_pinned, removed}

-- A page is fetched while its pins can be counted, and made while its number is not in the page table.
pub data Reaches (first : BufferPoolManager) : BufferPoolManager → Type 0 where
  here : Reaches first first
  fetched :
      (b b' : BufferPoolManager) (page_id : ℕ) (answer : Option ℕ)
      → Reaches first b
      → ((f : ℕ) (pg : Page)
          → b.page_table page_id ≡ some f
          → b.pages f ≡ some pg
          → pg.pin_count + 1 < 4294967296)
      → fetch_page b page_id ≡ returns (answer, b')
      → Reaches first b'
  unpinned :
      (b b' : BufferPoolManager) (page_id : ℕ) (is_dirty answer : Bool)
      → Reaches first b
      → unpin_page b page_id is_dirty ≡ returns (answer, b')
      → Reaches first b'
  flushed :
      (b b' : BufferPoolManager) (page_id : ℕ) (answer : Bool)
      → Reaches first b
      → flush_page b page_id ≡ returns (answer, b')
      → Reaches first b'
  created :
      (b b' : BufferPoolManager) (answer : Option ℕ)
      → Reaches first b
      → b.page_table b.disk_manager.next_page_id ≡ none
      → new_page_in_pool b ≡ returns (answer, b')
      → Reaches first b'
  deleted :
      (b b' : BufferPoolManager) (page_id : ℕ) (answer : Bool)
      → Reaches first b
      → delete_page b page_id ≡ returns (answer, b')
      → Reaches first b'

-- A pool in order, whatever its replacer holds.
abbrev pub InOrder : BufferPoolManager → Type 0
InOrder b = (frames : List ℕ) × IsPool b frames

state_or {ℓ} :
    {A : Type ℓ} → BufferPoolManager → Outcome (A × BufferPoolManager) → BufferPoolManager
state_or b panics = b
state_or b (returns (a, b')) = b'

-- A call has one result.
arrives {ℓ} :
    {A : Type ℓ}
    → (call : Outcome (A × BufferPoolManager)) (a a' : A) (b b' : BufferPoolManager) → InOrder b
    → call ≡ returns (a, b)
    → call ≡ returns (a', b')
    → InOrder b'
unfolding state_or
arrives call a a' b b' k ran step = subst InOrder (ap (state_or b) (sym ran ∙ step)) k

keeps_order : {first b : BufferPoolManager} → InOrder first → Reaches first b → InOrder b
keeps_order k here = k
keeps_order k (fetched b b' page_id answer r room step) =
    let (frames, pool) = keeps_order k r in
    let (a, c, ran, done) = fetch_page-Fetched b frames page_id pool room in
    arrives (fetch_page b page_id) a answer c b' (done.left, done.pool) ran step
keeps_order k (unpinned b b' page_id is_dirty answer r step) =
    let (frames, pool) = keeps_order k r in
    elim (unpin_page-Unpins b frames page_id is_dirty pool) [
      | inl (absent, ran) ↦
          arrives (unpin_page b page_id is_dirty) false answer b b' (frames, pool) ran step
      | inr (f, pg, c, entry, at, ran, done) ↦
          arrives (unpin_page b page_id is_dirty) true answer c b' (done.left, done.pool) ran step
    ]
keeps_order k (flushed b b' page_id answer r step) =
    let (frames, pool) = keeps_order k r in
    let (a, c, ran, done) = flush_page-IsPool b frames page_id pool in
    arrives (flush_page b page_id) a answer c b' (frames, done) ran step
keeps_order k (created b b' answer r absent step) =
    let (frames, pool) = keeps_order k r in
    let (a, c, ran, done) = new_page_in_pool-Created b frames pool absent in
    arrives (new_page_in_pool b) a answer c b' (done.left, done.pool) ran step
keeps_order k (deleted b b' page_id answer r step) =
    let (frames, pool) = keeps_order k r in
    elim (delete_page-Deletes b frames page_id pool) [
      | not_there absent ran ↦
          arrives (delete_page b page_id) true answer b b' (frames, pool) ran step
      | still_pinned f pg entry at pins ran ↦
          arrives (delete_page b page_id) false answer b b' (frames, pool) ran step
      | removed f pg c entry at pins ran done ↦
          arrives (delete_page b page_id) true answer c b' (_, done.pool) ran step
    ]

-- Every state that FetchPage, UnpinPage, FlushPage, NewPage and DeletePage take a new pool of less than 2 ^ 32
-- frames to, its log manager being ready, is in order, where a page is fetched while its pins can be
-- counted in 32 bits and made while its number is not in the page table: each page of the table is in its
-- frame and no frame is of two pages, the free frames are distinct and of no page, and what the replacer
-- holds are frames of pages that nobody pins.
pub pool_order :
    (pool_size : ℕ) (d : DiskManager) (l : LogManager) (b : BufferPoolManager)
    → pool_size < 4294967296
    → IsReady l
    → Reaches (new_buffer_pool_manager pool_size d l) b
    → InOrder b
pool_order pool_size d l b small ready r =
    keeps_order ([], new_buffer_pool_manager-IsPool pool_size d l small ready) r
