-- ===== src/Buffer.antt =====
-- storage/buffer/buffer_pool_manager.go: pages of the disk in the frames of a pool. A pointer to a page
-- that the pool gives out is its frame; `pages` is the slice of the frames, with their number beside
-- it. One goroutine calls at a time.
pub mod Pool
pub mod Taken
pub mod Take
pub mod Change
pub mod Known
pub mod Fetch
pub mod Unpin
pub mod Fresh
pub mod Flush
pub mod Delete
pub mod Reach
use samehada_db.Base.{
  ℕ, zero, suc, ◌+◌, List, [], ◌∷◌, ◌++◌, Bool, true, false, ◌||◌, ◌==◌, ltb, if◌then◌else◌, Option,
  none, some, Outcome, returns, panics, ◌>>=◌, replicate,
}
use samehada_db.Page.{Page, inc_pin_count, dec_pin_count, new_page, new_empty}
use samehada_db.Log.{LogManager, flush}
use samehada_db.Disk.{DiskManager, read_page, write_page, allocate_page}
use samehada_db.Clock.{ClockReplacer, new_clock_replacer, victim, pin, unpin}

pub record BufferPoolManager : Type 0 where
  pub disk_manager : DiskManager
  pub pool_size : ℕ
  pub pages : ℕ → Option Page
  pub replacer : ClockReplacer
  pub free_list : List ℕ
  pub page_table : ℕ → Option ℕ
  pub log_manager : LogManager

abbrev pub set_entry {ℓ} : {V : Type ℓ} → (ℕ → Option V) → ℕ → Option V → ℕ → Option V
set_entry t k v j = if k == j then v else t j

-- The frames from `i` on.
unfoldable pub frames_from : ℕ → ℕ → List ℕ
frames_from zero i = []
frames_from (suc n) i = i ∷ frames_from n (i + 1)

unfoldable pub new_buffer_pool_manager : ℕ → DiskManager → LogManager → BufferPoolManager
new_buffer_pool_manager pool_size disk_manager log_manager = record {
  disk_manager = disk_manager;
  pool_size = pool_size;
  pages = λ f. none;
  replacer = new_clock_replacer pool_size;
  free_list = frames_from pool_size 0;
  page_table = λ p. none;
  log_manager = log_manager;
}

-- b.pages[f], which is then read through.
unfoldable pub page_in : BufferPoolManager → ℕ → Outcome Page
page_in b f =
    if ltb f b.pool_size then elim (b.pages f) [ none ↦ panics | some pg ↦ returns pg ] else panics

abbrev pub put_page : BufferPoolManager → ℕ → Page → BufferPoolManager
put_page b f pg = record b { pages = set_entry b.pages f (some pg) }

-- A frame, and whether it is from the free list.
unfoldable pub get_frame_id : BufferPoolManager → Outcome (Option (ℕ × Bool) × BufferPoolManager)
get_frame_id b = elim b.free_list [
  | f ∷ rest ↦ returns (some (f, true), record b { free_list = rest })
  | [] ↦ (do
    (found, r) ← victim b.replacer
    elim found [
      | none ↦ returns (none, record b { replacer = r })
      | some f ↦ returns (some (f, false), record b { replacer = r })
    ])
]

-- What is behind the log is written before the page.
unfoldable pub write_back : BufferPoolManager → Page → Outcome BufferPoolManager
write_back b pg = do
  flushed ← flush b.log_manager
  let (_, written) = write_page b.disk_manager pg.id pg.bytes
  returns (record b { log_manager = flushed; disk_manager = written })

-- The page in a frame that is used again leaves the pool.
unfoldable pub evict : BufferPoolManager → ℕ → Outcome BufferPoolManager
evict b f =
    if ltb f b.pool_size
    then elim (b.pages f) [
      | none ↦ returns b
      | some pg ↦ (do
        saved ← if pg.is_dirty then write_back b pg else returns b
        returns (record saved { page_table = set_entry saved.page_table pg.id none }))
    ]
    else panics

-- The frame of a page that is in the pool.
unfoldable pub fetch_known : BufferPoolManager → ℕ → Outcome BufferPoolManager
fetch_known b f = do
  pg ← page_in b f
  r ← pin b.replacer f
  returns (record (put_page b f (inc_pin_count pg)) { replacer = r })

-- The page read from the disk into the frame; none is the error of the read, with the frame lost.
unfoldable pub load_page : BufferPoolManager → ℕ → ℕ → Outcome (Option ℕ × BufferPoolManager)
load_page b page_id f =
    let (read, disk) = read_page b.disk_manager page_id in
    let after = record b { disk_manager = disk } in
    elim read [
      | none ↦ returns (none, after)
      | some bytes ↦
          if ltb f b.pool_size
          then returns (
            some f,
            record (put_page after f (new_page page_id false bytes)) {
              page_table = set_entry b.page_table page_id (some f);
            },
          )
          else panics
    ]

abbrev pub clear_frame : BufferPoolManager → ℕ × Bool → Outcome BufferPoolManager
clear_frame b (f, from_free_list) = if from_free_list then returns b else evict b f

unfoldable pub fetch_page : BufferPoolManager → ℕ → Outcome (Option ℕ × BufferPoolManager)
fetch_page b page_id = elim (b.page_table page_id) [
  | some f ↦ (fetch_known b f >>= λ b'. returns (some f, b'))
  | none ↦ (do
    (frame, got) ← get_frame_id b
    elim frame [
      | none ↦ returns (none, got)
      | some f ↦ (do cleared ← clear_frame got f; load_page cleared page_id f.0)
    ])
]

-- `UnpinPage`; false is the error of a page that is not in the pool.
unfoldable pub unpin_page : BufferPoolManager → ℕ → Bool → Outcome (Bool × BufferPoolManager)
unpin_page b page_id is_dirty = elim (b.page_table page_id) [
  | none ↦ returns (false, b)
  | some f ↦ (do
    pg ← page_in b f
    let less = dec_pin_count pg
    r ← if less.pin_count == 0 then unpin b.replacer f else returns b.replacer
    returns (
      true,
      record (put_page b f (record less { is_dirty = pg.is_dirty || is_dirty })) { replacer = r },
    ))
]

unfoldable pub flush_page : BufferPoolManager → ℕ → Outcome (Bool × BufferPoolManager)
flush_page b page_id = elim (b.page_table page_id) [
  | none ↦ returns (false, b)
  | some f ↦ (do
    pg ← page_in b f
    let less = dec_pin_count pg
    let (_, disk) = write_page b.disk_manager page_id less.bytes
    returns
        (true, record (put_page b f (record less { is_dirty = false })) { disk_manager = disk }))
]

-- `NewPage`: the new page's frame, or none when every frame is in use.
unfoldable pub new_page_in_pool : BufferPoolManager → Outcome (Option ℕ × BufferPoolManager)
new_page_in_pool b = do
  (frame, got) ← get_frame_id b
  elim frame [
    | none ↦ returns (none, got)
    | some f ↦ (do
      cleared ← clear_frame got f
      let (page_id, disk) = allocate_page cleared.disk_manager
      if ltb f.0 cleared.pool_size
          then returns (
            some f.0,
            record (put_page cleared f.0 (new_empty page_id)) {
              disk_manager = disk;
              page_table = set_entry cleared.page_table page_id (some f.0);
            },
          )
          else panics)
  ]

-- `DeletePage`; false is the error of a page that is pinned.
unfoldable pub delete_page : BufferPoolManager → ℕ → Outcome (Bool × BufferPoolManager)
delete_page b page_id = elim (b.page_table page_id) [
  | none ↦ returns (true, b)
  | some f ↦ (do
    pg ← page_in b f
    if ltb 0 pg.pin_count then returns (false, b) else (do
      r ← pin b.replacer f
      returns (
        true,
        record b {
          page_table = set_entry b.page_table pg.id none;
          replacer = r;
          free_list = b.free_list ++ (f ∷ []);
        },
      )))
]

-- `FlushAllPages`, in the order in which the map's keys come.
unfoldable pub flush_all_pages : BufferPoolManager → List ℕ → Outcome BufferPoolManager
flush_all_pages b [] = returns b
flush_all_pages b (page_id ∷ rest) = do
  (_, flushed) ← flush_page b page_id
  flush_all_pages flushed rest
