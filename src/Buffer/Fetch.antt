-- ===== src/Buffer/Fetch.antt =====
-- FetchPage of storage/buffer/buffer_pool_manager.go.
use samehada_db.Base.{
  ℕ, ◌+◌, ◌<◌, List, Bool, true, false, ltb, Option, none, some, returns, ◌≡◌, refl, arith, ap, ◌∙◌,
  sym, subst, inl, inr,
}
use samehada_db.Page.{Page, new_page}
use samehada_db.Disk.{DiskManager, read_page}
use samehada_db.Buffer.{BufferPoolManager, get_frame_id, clear_frame, load_page, fetch_page}
use samehada_db.Buffer.Pool.{IsPool, KeepsPinned, some_frame, entry_self, entry_other, none-some}
use samehada_db.Buffer.Take.{get_frame_id-Take, full, taken}
use samehada_db.Buffer.Taken.{Taken}
use samehada_db.Buffer.Change.{installed, installed-IsPool}
use samehada_db.Buffer.Known.{Serves, Fetched, known-Fetched}

-- A page that is not in the pool.
fetch_page-full :
    (b : BufferPoolManager) (page_id : ℕ) (got : BufferPoolManager)
    → b.page_table page_id ≡ none
    → get_frame_id b ≡ returns (none, got)
    → fetch_page b page_id ≡ returns (none, got)
unfolding fetch_page
fetch_page-full b page_id got absent ran = simp (fetch_page, absent, ran) refl

fetch_page-taken :
    (b : BufferPoolManager) (page_id : ℕ) (f : ℕ × Bool) (got c : BufferPoolManager)
    → b.page_table page_id ≡ none
    → get_frame_id b ≡ returns (some f, got)
    → clear_frame got f ≡ returns c
    → fetch_page b page_id ≡ load_page c page_id f.0
unfolding fetch_page
fetch_page-taken b page_id f got c absent ran cleared = simp (fetch_page, absent, ran, cleared) refl

load_page-fails :
    (c : BufferPoolManager) (page_id f : ℕ)
    → (read_page c.disk_manager page_id).0 ≡ none
    → load_page c page_id f
      ≡ returns (none, record c { disk_manager = (read_page c.disk_manager page_id).1 })
unfolding load_page
load_page-fails c page_id f fails = simp (load_page, fails) refl

load_page-reads :
    (c : BufferPoolManager) (page_id f : ℕ) (bytes : List ℕ)
    → f < c.pool_size
    → (read_page c.disk_manager page_id).0 ≡ some bytes
    → load_page c page_id f
      ≡ returns (
        some f,
        installed c f page_id (new_page page_id false bytes) (read_page c.disk_manager page_id).1,
      )
unfolding load_page installed
load_page-reads c page_id f bytes h reads =
    let inside : ltb f c.pool_size ≡ true = ground (arith, h) in
    simp (load_page, reads, inside) refl

-- The pages that were pinned when the frame was taken, after a page has come into it.
pub installed-KeepsPinned :
    (b c : BufferPoolManager) (left : List ℕ) (f page_id : ℕ) (pg : Page) (d : DiskManager)
    → Taken b c left f
    → KeepsPinned b (installed c f page_id pg d) page_id
unfolding installed
installed-KeepsPinned b c left f page_id pg d t q g p other h at pinned =
    let entry = t.pinned q g p h at pinned in
    (
      entry_other c.page_table page_id q (some f) other ∙ entry,
      entry_other c.pages f g (some pg) (λ same. t.spare.not_used q (entry ∙ ap some same))
          ∙ t.pages g
          ∙ at,
    )

-- The disk has no part in the order of a pool.
IsPool-disk :
    (b : BufferPoolManager) (frames : List ℕ) (d : DiskManager)
    → IsPool b frames
    → IsPool (record b { disk_manager = d }) frames
IsPool-disk b frames d k = record {
  holds = k.holds;
  capacity = k.capacity;
  log = k.log;
  loaded = λ p g h.
      let l = k.loaded p g h in
      record {
        in_pool = l.in_pool;
        not_free = l.not_free;
        page = l.page;
        at = l.at;
        named = l.named;
      };
  free_in = k.free_in;
  free_distinct = k.free_distinct;
  evictable = λ g h.
      let e = k.evictable g h in
      record { page = e.page; at = e.at; unpinned = e.unpinned; entry = e.entry };
}

pub installed-Serves :
    (c : BufferPoolManager) (f page_id : ℕ) (pg : Page) (d : DiskManager)
    → pg.id ≡ page_id
    → 0 < pg.pin_count
    → Serves (installed c f page_id pg d) page_id f
unfolding installed
installed-Serves c f page_id pg d named pinned = record {
  page = pg;
  entry = entry_self c.page_table page_id (some f);
  at = entry_self c.pages f (some pg);
  named = named;
  pinned = pinned;
}

-- The page is read into the frame that was taken.
load_page-Fetched :
    (b c : BufferPoolManager) (frames left : List ℕ) (page_id f : ℕ)
    → b.page_table page_id ≡ none
    → Taken b c left f
    → (answer : Option ℕ) × (b' : BufferPoolManager) × (load_page c page_id f
        ≡ returns (answer, b'))
      × Fetched b b' frames page_id answer
unfolding new_page
load_page-Fetched b c frames left page_id f absent t = go (read_page c.disk_manager page_id).0 refl
  where
    d : DiskManager
    d = (read_page c.disk_manager page_id).1

    go :
        (read : Option (List ℕ))
        → (read_page c.disk_manager page_id).0 ≡ read
        → (answer : Option ℕ) × (b' : BufferPoolManager) × (load_page c page_id f
            ≡ returns (answer, b'))
          × Fetched b b' frames page_id answer
    go none fails = (
      none,
      record c { disk_manager = d },
      load_page-fails c page_id f fails,
      record {
        left = left;
        pool = IsPool-disk c left d t.pool;
        keeps = λ q g p other h at pinned. (t.pinned q g p h at pinned, t.pages g ∙ at);
        serves = λ g answer. absurd (none-some answer);
        refuses = λ refused. (absent, inr (c.disk_manager, t.behind, fails));
      },
    )
    go (some bytes) reads =
        let pg = new_page page_id false bytes in
        (
          some f,
          installed c f page_id pg d,
          load_page-reads c page_id f bytes t.spare.in_pool reads,
          record {
            left = left;
            pool =
                installed-IsPool c f page_id pg d left t.pool t.spare (t.absent page_id absent)
                  refl;
            keeps = installed-KeepsPinned b c left f page_id pg d t;
            serves = λ g answer.
                subst (Serves (installed c f page_id pg d) page_id) (some_frame answer)
                  (installed-Serves c f page_id pg d refl (omega arith));
            refuses = λ refused. absurd (none-some (sym refused));
          },
        )

-- `FetchPage` of a pool in order returns, and the pool is in order. A frame it answers has the page of the
-- number asked for, pinned; pages that are pinned stay in their frames unchanged, but for the page
-- asked for. It answers nothing only for a page that is not in the pool, when no frame is free
-- and none can be taken, or when ReadPage gives no page of that number on the disk of the pool, or on that
-- disk after the unpinned, changed page that had to leave its frame was written to it.
pub fetch_page-Fetched :
    (b : BufferPoolManager) (frames : List ℕ) (page_id : ℕ)
    → IsPool b frames
    → ((f : ℕ) (pg : Page)
        → b.page_table page_id ≡ some f
        → b.pages f ≡ some pg
        → pg.pin_count + 1 < 4294967296)
    → (answer : Option ℕ) × (b' : BufferPoolManager) × (fetch_page b page_id ≡ returns (answer, b'))
      × Fetched b b' frames page_id answer
fetch_page-Fetched b frames page_id k room = go (b.page_table page_id) refl
  where
    go :
        (found : Option ℕ)
        → b.page_table page_id ≡ found
        → (answer : Option ℕ) × (b' : BufferPoolManager) × (fetch_page b page_id
            ≡ returns (answer, b'))
          × Fetched b b' frames page_id answer
    go (some f) entry = known-Fetched b frames page_id f k entry (λ pg at. room f pg entry at)
    go none absent = elim (get_frame_id-Take b frames k) [
      | full ran free used ↦ (
        none,
        b,
        fetch_page-full b page_id b absent ran,
        record {
          left = frames;
          pool = k;
          keeps = λ q g p other h at pinned. (h, at);
          serves = λ g answer. absurd (none-some answer);
          refuses = λ refused. (absent, inl (free, used));
        },
      )
      | taken f got c left ran cleared t ↦
          let (answer, b', loaded, done) = load_page-Fetched b c frames left page_id f.0 absent t in
          (answer, b', fetch_page-taken b page_id f got c absent ran cleared ∙ loaded, done)
    ]
