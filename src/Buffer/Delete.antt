-- ===== src/Buffer/Delete.antt =====
-- DeletePage of storage/buffer/buffer_pool_manager.go.
use samehada_db.Base.{
  ℕ, ◌<◌, List, [], ◌∷◌, ◌++◌, true, false, ◌||◌, ltb, ◌==◌, Option, none, some, returns, ◌≡◌, refl,
  arith, ap, ◌∙◌, sym, subst, ◌≢◌, Bool-cases, inl, inr,
}
use samehada_db.Page.{Page}
use samehada_db.Ring.Chain.{has, has-append}
use samehada_db.Ring.Skip.{erase}
use samehada_db.Ring.Distinct.{erase_self, erase-member, NoRepeat-append_one}
use samehada_db.Clock.{ClockReplacer, pin}
use samehada_db.Clock.Frames.{Holds}
use samehada_db.Clock.Pin.{pin-Pinned}
use samehada_db.Buffer.{BufferPoolManager, set_entry, page_in, delete_page}
use samehada_db.Buffer.Pool.{
  IsLoaded, IsEvictable, IsPool, some_frame, clash, equal_of, entry_self, entry_other, entry_left,
}
use samehada_db.Buffer.Take.{distinct_frames}
use samehada_db.Buffer.Taken.{same_entry}
use samehada_db.Buffer.Known.{page_in-runs}

-- What DeletePage of a page in frame `f` that nobody pins leaves: the frame is free, the page is gone, and
-- every other page is where it was.
pub record Deleted (b b' : BufferPoolManager) (frames : List ℕ) (page_id f : ℕ) : Type 0 where
  pub pool : IsPool b' (erase f frames)
  pub gone : b'.page_table page_id ≡ none
  pub others : (q : ℕ) → q ≢ page_id → b'.page_table q ≡ b.page_table q
  pub pages : (g : ℕ) → b'.pages g ≡ b.pages g
  pub free : b'.free_list ≡ b.free_list ++ (f ∷ [])

-- What DeletePage comes to.
pub data Deletes (b : BufferPoolManager) (frames : List ℕ) (page_id : ℕ) : Type 0 where
  not_there :
      b.page_table page_id ≡ none
      → delete_page b page_id ≡ returns (true, b)
      → Deletes b frames page_id
  still_pinned :
      (f : ℕ) (pg : Page)
      → b.page_table page_id ≡ some f
      → b.pages f ≡ some pg
      → 0 < pg.pin_count
      → delete_page b page_id ≡ returns (false, b)
      → Deletes b frames page_id
  removed :
      (f : ℕ) (pg : Page) (b' : BufferPoolManager)
      → b.page_table page_id ≡ some f
      → b.pages f ≡ some pg
      → pg.pin_count ≡ 0
      → delete_page b page_id ≡ returns (true, b')
      → Deleted b b' frames page_id f
      → Deletes b frames page_id

module _ (b : BufferPoolManager) (page_id f : ℕ) (pg : Page) (r : ClockReplacer) where
  without : BufferPoolManager
  without = record b {
    page_table = set_entry b.page_table pg.id none;
    replacer = r;
    free_list = b.free_list ++ (f ∷ []);
  }

  delete_page-removes :
      b.page_table page_id ≡ some f
      → page_in b f ≡ returns pg
      → ltb 0 pg.pin_count ≡ false
      → pin b.replacer f ≡ returns r
      → delete_page b page_id ≡ returns (true, without)
  unfolding delete_page without
  delete_page-removes entry found unpinned ran =
      simp (delete_page, entry, found, unpinned, ran) refl

  delete_page-refuses :
      b.page_table page_id ≡ some f
      → page_in b f ≡ returns pg
      → ltb 0 pg.pin_count ≡ true
      → delete_page b page_id ≡ returns (false, b)
  unfolding delete_page
  delete_page-refuses entry found pinned = simp (delete_page, entry, found, pinned) refl

  module _ (frames : List ℕ) (k : IsPool b frames) (entry : b.page_table page_id ≡ some f)
      (at : b.pages f ≡ some pg) (named : pg.id ≡ page_id) (holds : Holds r (erase f frames))
      (capacity : r.c_list.capacity ≡ b.replacer.c_list.capacity) where
    apart : (p g : ℕ) → b.page_table p ≡ some g → p ≢ pg.id → (g == f) ≡ false
    apart p g h other = elim (Bool-cases (g == f)) [
      | inl same ↦ absurd (
          other
            (same_entry b frames p page_id f k (h ∙ ap some (equal_of g f same)) entry ∙ sym named))
      | inr different ↦ different
    ]

    freed : (g : ℕ) → has g (b.free_list ++ (f ∷ [])) ≡ (has g b.free_list || (g == f || false))
    freed g = has-append g b.free_list (f ∷ [])

    without-IsLoaded : (p g : ℕ) → without.page_table p ≡ some g → IsLoaded without p g
    unfolding without
    without-IsLoaded p g h =
        let (old, other) = entry_left b.page_table pg.id p g h in
        let l = k.loaded p g old in
        record {
          in_pool = l.in_pool;
          not_free = freed g ∙ rw l.not_free (rw (apart p g old other) refl);
          page = l.page;
          at = l.at;
          named = l.named;
        }

    without-IsEvictable : (g : ℕ) → has g (erase f frames) ≡ true → IsEvictable without g
    unfolding without
    without-IsEvictable g h =
        let e = k.evictable g (erase-member f g frames h) in
        record {
          page = e.page;
          at = e.at;
          unpinned = e.unpinned;
          entry =
              entry_other b.page_table pg.id e.page.id none (λ same.
                clash (erase_self f frames (distinct_frames k.holds)) (
                  subst (λ x. has x (erase f frames) ≡ true)
                    (some_frame (sym e.entry ∙ ap b.page_table (same ∙ named) ∙ entry)) h))
              ∙ e.entry;
        }

    without-below : (g : ℕ) → has g without.free_list ≡ true → g < b.pool_size
    unfolding without
    without-below g h = elim (Bool-cases (g == f)) [
      | inl same ↦
          subst (λ x. x < b.pool_size) (sym (equal_of g f same)) (k.loaded page_id f entry).in_pool
      | inr other ↦ k.free_in g (sym (freed g ∙ rw other (ground arith)) ∙ h)
    ]

    without-Deleted : Deleted b without frames page_id f
    unfolding without
    without-Deleted = record {
      pool = record {
        holds = holds;
        capacity = capacity ∙ k.capacity;
        log = k.log;
        loaded = without-IsLoaded;
        free_in = without-below;
        free_distinct =
            NoRepeat-append_one f b.free_list k.free_distinct (k.loaded page_id f entry).not_free;
        evictable = without-IsEvictable;
      };
      gone =
          ap (set_entry b.page_table pg.id none) (sym named) ∙ entry_self b.page_table pg.id none;
      others = λ q other. entry_other b.page_table pg.id q none (λ same. other (same ∙ named));
      pages = λ g. refl;
      free = refl;
    }

delete_page-unknown :
    (b : BufferPoolManager) (page_id : ℕ)
    → b.page_table page_id ≡ none
    → delete_page b page_id ≡ returns (true, b)
unfolding delete_page
delete_page-unknown b page_id absent = simp (delete_page, absent) refl

-- `DeletePage` of a pool in order returns: a page that is not in the pool and one that is pinned change
-- nothing, the latter with the error; else the page is gone, its frame is free and no longer held by the
-- replacer, every other page is where it was, and the pool is in order.
pub delete_page-Deletes :
    (b : BufferPoolManager) (frames : List ℕ) (page_id : ℕ)
    → IsPool b frames
    → Deletes b frames page_id
delete_page-Deletes b frames page_id k = go (b.page_table page_id) refl
  where
    go : (found : Option ℕ) → b.page_table page_id ≡ found → Deletes b frames page_id
    go none absent = not_there absent (delete_page-unknown b page_id absent)
    go (some f) entry =
        let l = k.loaded page_id f entry in
        let found = page_in-runs b f l.page l.in_pool l.at in
        let (r, ran, p) = pin-Pinned b.replacer frames f k.holds in
        elim (Bool-cases (ltb 0 l.page.pin_count)) [
          | inl pinned ↦
              still_pinned f l.page entry l.at (pins pinned)
                (delete_page-refuses b page_id f l.page r entry found pinned)
          | inr unpinned ↦
              removed f l.page (without b page_id f l.page r) entry l.at (no_pins unpinned)
                (delete_page-removes b page_id f l.page r entry found unpinned ran)
                (without-Deleted b page_id f l.page r frames k entry l.at l.named p.holds
                  p.capacity)
        ]
      where
        pins : {n : ℕ} → ltb 0 n ≡ true → 0 < n
        pins h = ground arith

        no_pins : {n : ℕ} → ltb 0 n ≡ false → n ≡ 0
        no_pins h = ground arith
