-- ===== src/Buffer/Known.antt =====
-- FetchPage of storage/buffer/buffer_pool_manager.go for a page that is in the pool.
use samehada_db.Base.{
  ℕ, ◌+◌, ◌<◌, List, [], true, ltb, Option, none, some, returns, ◌≡◌, refl, arith, sym, subst, ◌≢◌,
  inl, ◌⊎◌,
}
use samehada_db.Page.{Page, inc_pin_count}
use samehada_db.Disk.{DiskManager, read_page}
use samehada_db.Ring.Chain.{has}
use samehada_db.Ring.Skip.{erase}
use samehada_db.Ring.Distinct.{erase_self, erase-member}
use samehada_db.Clock.{ClockReplacer, pin}
use samehada_db.Clock.Pin.{pin-Pinned}
use samehada_db.Buffer.{BufferPoolManager, page_in, fetch_known, fetch_page}
use samehada_db.Buffer.Pool.{IsPool, KeepsPinned, some_frame, clash, entry_self, none-some}
use samehada_db.Buffer.Taken.{Behind}
use samehada_db.Buffer.Take.{distinct_frames}
use samehada_db.Buffer.Change.{touched, touched-IsPool, touched-KeepsPinned}

-- The frame has the page of this number, and somebody has it pinned.
pub record Serves (b : BufferPoolManager) (page_id f : ℕ) : Type 0 where
  pub page : Page
  pub entry : b.page_table page_id ≡ some f
  pub at : b.pages f ≡ some page
  pub named : page.id ≡ page_id
  pub pinned : 0 < page.pin_count

-- No frame is free and no page can leave.
abbrev pub IsFull : BufferPoolManager → List ℕ → Type 0
IsFull b frames = (b.free_list ≡ []) × (frames ≡ [])

-- What FetchPage leaves.
pub record Fetched (b b' : BufferPoolManager) (frames : List ℕ) (page_id : ℕ) (answer : Option ℕ)
    : Type 0 where
  pub left : List ℕ
  pub pool : IsPool b' left
  pub keeps : KeepsPinned b b' page_id
  pub serves : (f : ℕ) → answer ≡ some f → Serves b' page_id f
  pub refuses :
      answer ≡ none
      → (b.page_table page_id ≡ none)
        × (IsFull b frames ⊎ ((d : DiskManager) × Behind b d × ((read_page d page_id).0 ≡ none)))

pub page_in-runs :
    (b : BufferPoolManager) (f : ℕ) (pg : Page)
    → f < b.pool_size
    → b.pages f ≡ some pg
    → page_in b f ≡ returns pg
unfolding page_in
page_in-runs b f pg h at =
    let inside : ltb f b.pool_size ≡ true = ground (arith, h) in rw inside (rw at refl)

-- A page that is in the pool.
module _ (b : BufferPoolManager) (frames : List ℕ) (page_id f : ℕ) (k : IsPool b frames)
    (entry : b.page_table page_id ≡ some f)
    (room : (pg : Page) → b.pages f ≡ some pg → pg.pin_count + 1 < 4294967296) where
  fetch_page-known :
      (pg : Page) (r : ClockReplacer)
      → page_in b f ≡ returns pg
      → pin b.replacer f ≡ returns r
      → fetch_page b page_id ≡ returns (some f, touched b f (inc_pin_count pg) r b.disk_manager)
  unfolding fetch_page fetch_known touched
  fetch_page-known pg r found pinned = simp (fetch_page, entry, fetch_known, found, pinned) refl

  pub known-Fetched :
      (answer : Option ℕ) × (b' : BufferPoolManager) × (fetch_page b page_id ≡ returns (answer, b'))
      × Fetched b b' frames page_id answer
  unfolding inc_pin_count touched
  known-Fetched =
      let l = k.loaded page_id f entry in
      let (r, ran, p) = pin-Pinned b.replacer frames f k.holds in
      let members : (g : ℕ)
          → has g (erase f frames) ≡ true
          → ((g ≢ f) × (has g frames ≡ true)) ⊎ ((g ≡ f) × ((inc_pin_count l.page).pin_count ≡ 0)) =
        λ g h. inl (
          (λ same.
              clash (erase_self f frames (distinct_frames k.holds))
                (subst (λ x. has x (erase f frames) ≡ true) same h)),
          erase-member f g frames h,
        ) in
      (
        some f,
        touched b f (inc_pin_count l.page) r b.disk_manager,
        fetch_page-known l.page r (page_in-runs b f l.page l.in_pool l.at) ran,
        record {
          left = erase f frames;
          pool =
              touched-IsPool b f (inc_pin_count l.page) r b.disk_manager frames (erase f frames)
                page_id k entry l.named p.holds p.capacity members;
          keeps =
              touched-KeepsPinned b f (inc_pin_count l.page) r b.disk_manager frames
                (erase f frames) page_id k entry l.named p.holds p.capacity members;
          serves = λ g answer.
              subst (λ x. Serves (touched b f (inc_pin_count l.page) r b.disk_manager) page_id x)
                (some_frame answer)
                record {
                  page = inc_pin_count l.page;
                  entry = entry;
                  at = entry_self b.pages f (some (inc_pin_count l.page));
                  named = l.named;
                  pinned = omega (arith, room l.page l.at);
                };
          refuses = λ none_left. absurd (none-some (sym none_left));
        },
      )
