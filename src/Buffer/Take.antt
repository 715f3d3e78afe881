-- ===== src/Buffer/Take.antt =====
-- The frame that a new page gets in storage/buffer/buffer_pool_manager.go: one that is free, or that of
-- the replacer's victim, whose page leaves the pool.
use samehada_db.Base.{
  ℕ, List, [], ◌∷◌, Bool, true, false, ltb, none, some, returns, ◌≡◌, refl, arith, subst,
  Bool-cases, inl, inr,
}
use samehada_db.Log.{LogManager, flush}
use samehada_db.Log.Append.{IsReady, flush-ready}
use samehada_db.Page.{Page}
use samehada_db.Disk.{DiskManager, write_page}
use samehada_db.Ring.Chain.{NoRepeat}
use samehada_db.Ring.Skip.{erase}
use samehada_db.Clock.{ClockReplacer, victim}
use samehada_db.Clock.Frames.{Holds}
use samehada_db.Clock.Victim.{victim-empty, victim-Evicted}
use samehada_db.Buffer.{BufferPoolManager, get_frame_id, clear_frame, evict, write_back}
use samehada_db.Buffer.Pool.{IsPool}
use samehada_db.Buffer.Taken.{
  Behind, Taken, next_page_id-write_page, shorter, free-Taken, emptied, victim-Taken,
}

get_frame_id-free :
    (b : BufferPoolManager) (f : ℕ) (rest : List ℕ)
    → b.free_list ≡ f ∷ rest
    → get_frame_id b ≡ returns (some (f, true), shorter b f rest)
unfolding get_frame_id shorter
get_frame_id-free b f rest free = rw free refl

get_frame_id-none :
    (b : BufferPoolManager)
    → b.free_list ≡ []
    → victim b.replacer ≡ returns (none, b.replacer)
    → get_frame_id b ≡ returns (none, b)
unfolding get_frame_id
get_frame_id-none b free v = rw free (rw v refl)

get_frame_id-victim :
    (b : BufferPoolManager) (f : ℕ) (r : ClockReplacer)
    → b.free_list ≡ []
    → victim b.replacer ≡ returns (some f, r)
    → get_frame_id b ≡ returns (some (f, false), record b { replacer = r })
unfolding get_frame_id
get_frame_id-victim b f r free v = rw free (rw v refl)

evict-clean :
    (b : BufferPoolManager) (f : ℕ) (pg : Page) (r : ClockReplacer)
    → ltb f b.pool_size ≡ true
    → b.pages f ≡ some pg
    → pg.is_dirty ≡ false
    → evict (record b { replacer = r }) f ≡ returns (emptied b f pg b.log_manager b.disk_manager r)
unfolding evict emptied
evict-clean b f pg r inside at clean = simp (inside, at, clean) refl

evict-dirty :
    (b : BufferPoolManager) (f : ℕ) (pg : Page) (r : ClockReplacer) (l : LogManager)
    → ltb f b.pool_size ≡ true
    → b.pages f ≡ some pg
    → pg.is_dirty ≡ true
    → flush b.log_manager ≡ returns l
    → evict (record b { replacer = r }) f
      ≡ returns (emptied b f pg l (write_page b.disk_manager pg.id pg.bytes).1 r)
unfolding evict write_back emptied
evict-dirty b f pg r l inside at dirty flushed = simp (inside, at, dirty, flushed) refl

-- What getting a frame comes to.
pub data Take (b : BufferPoolManager) (frames : List ℕ) : Type 0 where
  full : get_frame_id b ≡ returns (none, b) → b.free_list ≡ [] → frames ≡ [] → Take b frames
  taken :
      (f : ℕ × Bool) (got c : BufferPoolManager) (left : List ℕ)
      → get_frame_id b ≡ returns (some f, got)
      → clear_frame got f ≡ returns c
      → Taken b c left f.0
      → Take b frames

pub distinct_frames : {c : ClockReplacer} {frames : List ℕ} → Holds c frames → NoRepeat frames
distinct_frames h = subst NoRepeat h.keys h.list.distinct_keys

pub get_frame_id-Take : (b : BufferPoolManager) (frames : List ℕ) → IsPool b frames → Take b frames
get_frame_id-Take b frames k = go b.free_list refl frames k
  where
    go : (free : List ℕ) → b.free_list ≡ free → (frames : List ℕ) → IsPool b frames → Take b frames
    go (f ∷ rest) free frames k =
        taken (f, true) (shorter b f rest) (shorter b f rest) frames
          (get_frame_id-free b f rest free) refl (free-Taken b f rest frames k free)
    go [] free [] k = full (get_frame_id-none b free (victim-empty b.replacer k.holds)) free refl
    go [] free (x ∷ xs) k =
        let (r, f, n, ran, v) = victim-Evicted b.replacer (x ∷ xs) k.holds (omega arith) in
        let e = k.evictable f v.member in
        let inside : ltb f b.pool_size ≡ true =
          ground (arith, (k.loaded e.page.id f e.entry).in_pool) in
        let ends : (l : LogManager) (d : DiskManager)
            → IsReady l
            → d.next_page_id ≡ b.disk_manager.next_page_id
            → Behind b d
            → evict (record b { replacer = r }) f ≡ returns (emptied b f e.page l d r)
            → Take b (x ∷ xs) =
          λ l d ready next behind done.
            taken (f, false) (record b { replacer = r }) (emptied b f e.page l d r)
              (erase f (x ∷ xs)) (get_frame_id-victim b f r free ran) done
              (victim-Taken b f e.page l d r (x ∷ xs) k e e.at e.unpinned e.entry
                (distinct_frames k.holds) v.holds v.capacity ready next behind) in
        elim (Bool-cases e.page.is_dirty) [
          | inl dirty ↦
              let (l, flushed, room) = flush-ready b.log_manager 0 k.log (omega arith) in
              ends l (write_page b.disk_manager e.page.id e.page.bytes).1 room.ready
                (next_page_id-write_page b.disk_manager e.page.id e.page.bytes)
                (inr record {
                  page = e.page;
                  frame = f;
                  entry = e.entry;
                  at = e.at;
                  dirty = dirty;
                  unpinned = e.unpinned;
                  disk = refl;
                })
                (evict-dirty b f e.page r l inside e.at dirty flushed)
          | inr clean ↦
              ends b.log_manager b.disk_manager k.log refl (inl refl)
                (evict-clean b f e.page r inside e.at clean)
        ]
