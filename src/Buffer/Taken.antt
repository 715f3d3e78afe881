-- ===== src/Buffer/Taken.antt =====
-- What is so of a pool of storage/buffer/buffer_pool_manager.go after a frame was taken: a free one, or that of a page that left.
use samehada_db.Base.{
  ℕ, ◌<◌, List, ◌∷◌, true, false, none, some, ◌≡◌, refl, arith, ap, ◌∙◌, sym, subst, ◌≢◌,
  Bool-cases, inl, inr, ◌⊎◌,
}
use samehada_db.Log.{LogManager}
use samehada_db.Log.Append.{IsReady}
use samehada_db.Page.{Page}
use samehada_db.Disk.{DiskManager, write_page}
use samehada_db.Ring.Chain.{has, NoRepeat}
use samehada_db.Ring.Skip.{erase}
use samehada_db.Ring.Distinct.{erase_self, erase-member}
use samehada_db.Clock.{ClockReplacer}
use samehada_db.Clock.Frames.{Holds}
use samehada_db.Buffer.{BufferPoolManager, set_entry}
use samehada_db.Buffer.Pool.{
  IsEvictable, IsPool, IsSpare, some_page, some_frame, clash, entry_other, entry_left,
}

-- A page that nobody has pinned was written to the disk, which is then `d`.
pub record WrittenOut (b : BufferPoolManager) (d : DiskManager) : Type 0 where
  pub page : Page
  pub frame : ℕ
  pub entry : b.page_table page.id ≡ some frame
  pub at : b.pages frame ≡ some page
  pub dirty : page.is_dirty ≡ true
  pub unpinned : page.pin_count ≡ 0
  pub disk : d ≡ (write_page b.disk_manager page.id page.bytes).1

-- The disk of the pool, or that with the page written that had to leave.
abbrev pub Behind : BufferPoolManager → DiskManager → Type 0
Behind b d = (d ≡ b.disk_manager) ⊎ WrittenOut b d

-- The pool after a frame was taken from it.
pub record Taken (b c : BufferPoolManager) (frames : List ℕ) (f : ℕ) : Type 0 where
  pub pool : IsPool c frames
  pub spare : IsSpare c frames f
  pub size : c.pool_size ≡ b.pool_size
  pub absent : (q : ℕ) → b.page_table q ≡ none → c.page_table q ≡ none
  pub pages : (g : ℕ) → c.pages g ≡ b.pages g
  pub pinned :
      (q g : ℕ) (pg : Page)
      → b.page_table q ≡ some g
      → b.pages g ≡ some pg
      → 0 < pg.pin_count
      → c.page_table q ≡ some g
  pub next : c.disk_manager.next_page_id ≡ b.disk_manager.next_page_id
  pub behind : Behind b c.disk_manager

pub next_page_id-write_page :
    (d : DiskManager) (page_id : ℕ) (bytes : List ℕ)
    → (write_page d page_id bytes).1.next_page_id ≡ d.next_page_id
unfolding write_page samehada_db.Disk.seek samehada_db.Disk.write_at_position
next_page_id-write_page d page_id bytes = ground arith

-- The page of a frame is of one entry.
pub same_entry :
    (b : BufferPoolManager) (frames : List ℕ) (p q f : ℕ)
    → IsPool b frames
    → b.page_table p ≡ some f
    → b.page_table q ≡ some f
    → p ≡ q
same_entry b frames p q f k hp hq =
    let lp = k.loaded p f hp in
    let lq = k.loaded q f hq in
    sym lp.named ∙ ap (λ pg. pg.id) (some_page (sym lp.at ∙ lq.at)) ∙ lq.named

not_held :
    (b : BufferPoolManager) (frames : List ℕ) (f : ℕ)
    → IsPool b frames
    → ((p : ℕ) → b.page_table p ≢ some f)
    → has f frames ≡ false
not_held b frames f k used = elim (Bool-cases (has f frames)) [
  | inl in_it ↦ let e = k.evictable f in_it in absurd (used e.page.id e.entry)
  | inr out ↦ out
]

-- The head of the free list.
module _ (b : BufferPoolManager) (f : ℕ) (rest : List ℕ) where
  unfoldable pub shorter : BufferPoolManager
  shorter = record b { free_list = rest }

  pub free-Taken :
      (frames : List ℕ) → IsPool b frames → b.free_list ≡ f ∷ rest → Taken b shorter frames f
  unfolding shorter
  free-Taken frames k free =
      let listed : has f b.free_list ≡ true = ap (has f) free ∙ ground arith in
      let distinct : NoRepeat (f ∷ rest) = subst NoRepeat free k.free_distinct in
      let used : (p : ℕ) → b.page_table p ≢ some f =
        λ p h. clash (k.loaded p f h).not_free listed in
      record {
        pool = record {
          holds = k.holds;
          capacity = k.capacity;
          log = k.log;
          loaded = λ p g h.
              let l = k.loaded p g h in
              record {
                in_pool = l.in_pool;
                not_free = ground (arith, ap (has g) free, l.not_free);
                page = l.page;
                at = l.at;
                named = l.named;
              };
          free_in = λ g h. k.free_in g (ap (has g) free ∙ ground (arith, h));
          free_distinct = distinct.1;
          evictable = λ g h.
              let e = k.evictable g h in
              record { page = e.page; at = e.at; unpinned = e.unpinned; entry = e.entry };
        };
        spare = record {
          in_pool = k.free_in f listed;
          not_free = distinct.0;
          not_held = not_held b frames f k used;
          not_used = used;
        };
        size = refl;
        absent = λ q h. h;
        pages = λ g. refl;
        pinned = λ q g pg h at pin. h;
        next = refl;
        behind = inl refl;
      }

-- A frame of the replacer, whose page leaves the table. The log and the disk may have been written.
module _ (b : BufferPoolManager) (f : ℕ) (pg : Page) (l : LogManager) (d : DiskManager)
    (r : ClockReplacer) where
  unfoldable pub emptied : BufferPoolManager
  emptied = record b {
    page_table = set_entry b.page_table pg.id none;
    log_manager = l;
    disk_manager = d;
    replacer = r;
  }

  module _ (frames : List ℕ) (k : IsPool b frames) (e : IsEvictable b f)
      (here : b.pages f ≡ some pg) (unpinned : pg.pin_count ≡ 0)
      (entry : b.page_table pg.id ≡ some f) (distinct : NoRepeat frames)
      (holds : Holds r (erase f frames)) (capacity : r.c_list.capacity ≡ b.replacer.c_list.capacity)
      (ready : IsReady l) (next : d.next_page_id ≡ b.disk_manager.next_page_id)
      (behind : Behind b d) where
    pinned_elsewhere :
        (q g : ℕ) (p : Page)
        → b.page_table q ≡ some g
        → b.pages g ≡ some p
        → 0 < p.pin_count
        → q ≢ pg.id
    pinned_elsewhere q g p h at pin same =
        let frame : g ≡ f = some_frame (sym h ∙ ap b.page_table same ∙ entry) in
        let page : p ≡ pg = some_page (sym at ∙ ap b.pages frame ∙ here) in
        omega (arith, pin, unpinned, ap (λ x. x.pin_count) page)

    emptied-IsEvictable : (g : ℕ) → has g (erase f frames) ≡ true → IsEvictable emptied g
    unfolding emptied
    emptied-IsEvictable g h =
        let e' = k.evictable g (erase-member f g frames h) in
        record {
          page = e'.page;
          at = e'.at;
          unpinned = e'.unpinned;
          entry =
              entry_other b.page_table pg.id e'.page.id none (λ same.
                clash (erase_self f frames distinct) (
                  subst (λ x. has x (erase f frames) ≡ true)
                    (some_frame (sym e'.entry ∙ ap b.page_table same ∙ entry)) h))
              ∙ e'.entry;
        }

    pub victim-Taken : Taken b emptied (erase f frames) f
    unfolding emptied
    victim-Taken = record {
      pool = record {
        holds = holds;
        capacity = capacity ∙ k.capacity;
        log = ready;
        loaded = λ p g h.
            let l = k.loaded p g (entry_left b.page_table pg.id p g h).0 in
            record {
              in_pool = l.in_pool;
              not_free = l.not_free;
              page = l.page;
              at = l.at;
              named = l.named;
            };
        free_in = k.free_in;
        free_distinct = k.free_distinct;
        evictable = emptied-IsEvictable;
      };
      spare = record {
        in_pool = (k.loaded pg.id f entry).in_pool;
        not_free = (k.loaded pg.id f entry).not_free;
        not_held = erase_self f frames distinct;
        not_used = λ p h.
            let (entered, other) = entry_left b.page_table pg.id p f h in
            other (same_entry b frames p pg.id f k entered entry);
      };
      size = refl;
      absent = λ q h. ground arith;
      pages = λ g. refl;
      pinned = λ q g p h at pin.
          entry_other b.page_table pg.id q none (pinned_elsewhere q g p h at pin) ∙ h;
      next = next;
      behind = behind;
    }
