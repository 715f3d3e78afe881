-- ===== src/Buffer/Change.antt =====
-- A frame of a pool of storage/buffer/buffer_pool_manager.go gets a page, or its page changes.
use samehada_db.Base.{
  ℕ, List, true, ◌==◌, none, some, ◌≡◌, arith, ap, ◌∙◌, sym, subst, ◌≢◌, Bool-cases, inl, inr, ◌⊎◌,
}
use samehada_db.Page.{Page}
use samehada_db.Disk.{DiskManager}
use samehada_db.Ring.Chain.{has}
use samehada_db.Clock.{ClockReplacer}
use samehada_db.Clock.Frames.{Holds}
use samehada_db.Buffer.{BufferPoolManager, set_entry}
use samehada_db.Buffer.Pool.{
  IsLoaded, IsEvictable, IsPool, IsSpare, KeepsPinned, some_frame, clash, entry_self, entry_other,
  entry_cases, none-some,
}
use samehada_db.Buffer.Taken.{same_entry}

module _ (c : BufferPoolManager) (f page_id : ℕ) (pg : Page) (d : DiskManager) where
  -- A page comes into the frame.
  unfoldable pub installed : BufferPoolManager
  installed = record c {
    disk_manager = d;
    pages = set_entry c.pages f (some pg);
    page_table = set_entry c.page_table page_id (some f);
  }

  module _ (frames : List ℕ) (k : IsPool c frames) (s : IsSpare c frames f)
      (absent : c.page_table page_id ≡ none) (named : pg.id ≡ page_id) where
    installed-IsLoaded : (p g : ℕ) → installed.page_table p ≡ some g → IsLoaded installed p g
    unfolding installed
    installed-IsLoaded p g h = elim (entry_cases c.page_table page_id p (some f) (some g) h) [
      | inl (new, frame) ↦
          subst (λ x. IsLoaded installed p x) (some_frame frame)
            record {
              in_pool = s.in_pool;
              not_free = s.not_free;
              page = pg;
              at = entry_self c.pages f (some pg);
              named = named ∙ sym new;
            }
      | inr (old, entry) ↦
          let l = k.loaded p g entry in
          record {
            in_pool = l.in_pool;
            not_free = l.not_free;
            page = l.page;
            at =
                entry_other c.pages f g (some pg) (λ same. s.not_used p (entry ∙ ap some same))
                ∙ l.at;
            named = l.named;
          }
    ]

    installed-IsEvictable : (g : ℕ) → has g frames ≡ true → IsEvictable installed g
    unfolding installed
    installed-IsEvictable g h =
        let e = k.evictable g h in
        record {
          page = e.page;
          at =
              entry_other c.pages f g (some pg)
                (λ same. clash s.not_held (subst (λ x. has x frames ≡ true) same h))
              ∙ e.at;
          unpinned = e.unpinned;
          entry =
              entry_other c.page_table page_id e.page.id (some f)
                (λ same. none-some (sym absent ∙ sym (ap c.page_table same) ∙ e.entry))
              ∙ e.entry;
        }

    pub installed-IsPool : IsPool installed frames
    unfolding installed
    installed-IsPool = record {
      holds = k.holds;
      capacity = k.capacity;
      log = k.log;
      loaded = installed-IsLoaded;
      free_in = k.free_in;
      free_distinct = k.free_distinct;
      evictable = installed-IsEvictable;
    }

-- The page in a frame changes, and so does what the replacer holds.
module _ (b : BufferPoolManager) (f : ℕ) (pg : Page) (r : ClockReplacer) (d : DiskManager) where
  unfoldable pub touched : BufferPoolManager
  touched = record b { disk_manager = d; pages = set_entry b.pages f (some pg); replacer = r }

  module _ (frames left : List ℕ) (page_id : ℕ) (k : IsPool b frames)
      (entry : b.page_table page_id ≡ some f) (named : pg.id ≡ page_id) (holds : Holds r left)
      (capacity : r.c_list.capacity ≡ b.replacer.c_list.capacity)
      (members : (g : ℕ)
        → has g left ≡ true
        → ((g ≢ f) × (has g frames ≡ true)) ⊎ ((g ≡ f) × (pg.pin_count ≡ 0))) where
    touched-IsLoaded : (p g : ℕ) → b.page_table p ≡ some g → IsLoaded touched p g
    unfolding touched
    touched-IsLoaded p g h =
        let l = k.loaded p g h in
        elim (Bool-cases (g == f)) [
          | inl same ↦
              let at_f : g ≡ f = ground (arith, same) in
              record {
                in_pool = l.in_pool;
                not_free = l.not_free;
                page = pg;
                at = ap (set_entry b.pages f (some pg)) at_f ∙ entry_self b.pages f (some pg);
                named = named ∙ same_entry b frames page_id p f k entry (h ∙ ap some at_f);
              }
          | inr other ↦ record {
            in_pool = l.in_pool;
            not_free = l.not_free;
            page = l.page;
            at = entry_other b.pages f g (some pg) (ground (arith, other)) ∙ l.at;
            named = l.named;
          }
        ]

    touched-IsEvictable : (g : ℕ) → has g left ≡ true → IsEvictable touched g
    unfolding touched
    touched-IsEvictable g h = elim (members g h) [
      | inl (other, member) ↦
          let e = k.evictable g member in
          record {
            page = e.page;
            at = entry_other b.pages f g (some pg) other ∙ e.at;
            unpinned = e.unpinned;
            entry = e.entry;
          }
      | inr (same, none_left) ↦ record {
        page = pg;
        at = ap (set_entry b.pages f (some pg)) same ∙ entry_self b.pages f (some pg);
        unpinned = none_left;
        entry = ap b.page_table named ∙ entry ∙ ap some (sym same);
      }
    ]

    pub touched-IsPool : IsPool touched left
    unfolding touched
    touched-IsPool = record {
      holds = holds;
      capacity = capacity ∙ k.capacity;
      log = k.log;
      loaded = touched-IsLoaded;
      free_in = k.free_in;
      free_distinct = k.free_distinct;
      evictable = touched-IsEvictable;
    }

    pub touched-KeepsPinned : KeepsPinned b touched page_id
    unfolding touched
    touched-KeepsPinned q g p other h at pinned = (
      h,
      entry_other b.pages f g (some pg)
            (λ same. other (same_entry b frames q page_id f k (h ∙ ap some same) entry))
          ∙ at,
    )
