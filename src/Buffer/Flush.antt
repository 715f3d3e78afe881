-- ===== src/Buffer/Flush.antt =====
-- FlushPage of storage/buffer/buffer_pool_manager.go.
use samehada_db.Base.{
  ℕ, ◌-◌, ◌<◌, List, Bool, true, false, ◌==◌, Option, none, some, returns, ◌≡◌, refl, arith, ap,
  ◌∙◌, sym, subst, length, ◌≢◌, Bool-cases, inl, inr, ◌⊎◌,
}
use samehada_db.Page.{Page, dec_pin_count}
use samehada_db.Disk.{DiskManager, write_page, read_page}
use samehada_db.Ring.Chain.{has}
use samehada_db.Buffer.{BufferPoolManager, page_in, flush_page}
use samehada_db.Buffer.Pool.{IsPool, KeepsPinned, some_page, equal_of, unequal_of, entry_self}
use samehada_db.Disk.Pages.{write_page-Keeps}
use samehada_db.Buffer.Change.{touched, touched-IsPool, touched-KeepsPinned}
use samehada_db.Buffer.Known.{page_in-runs}
use samehada_db.Buffer.Unpin.{pin_count-dec_pin_count, id-dec_pin_count, bytes-dec_pin_count}

-- What FlushPage leaves of a page in the pool: it is on the disk, not dirty, and has one pin less, while the
-- replacer holds what it held.
pub record Flushes (b b' : BufferPoolManager) (frames : List ℕ) (page_id f : ℕ) (pg : Page)
    : Type 0 where
  pub pool : IsPool b' frames
  pub keeps : KeepsPinned b b' page_id
  pub page : Page
  pub at : b'.pages f ≡ some page
  pub count : page.pin_count ≡ pg.pin_count - 1
  pub clean : page.is_dirty ≡ false
  pub bytes : page.bytes ≡ pg.bytes
  pub on_disk : (read_page b'.disk_manager page_id).0 ≡ some pg.bytes
  pub held : b'.replacer ≡ b.replacer

module _ (b : BufferPoolManager) (page_id f : ℕ) (pg : Page) where
  cleaned : Page
  cleaned = record (dec_pin_count pg) { is_dirty = false }

  flush_page-runs :
      b.page_table page_id ≡ some f
      → page_in b f ≡ returns pg
      → flush_page b page_id
        ≡ returns (
          true,
          touched b f cleaned b.replacer
              (write_page b.disk_manager page_id (dec_pin_count pg).bytes).1,
        )
  unfolding flush_page touched cleaned
  flush_page-runs entry found = simp (flush_page, entry, found) refl

  module _ (frames : List ℕ) (k : IsPool b frames) (entry : b.page_table page_id ≡ some f)
      (at : b.pages f ≡ some pg) (d : DiskManager) where
    cleaned_named : cleaned.id ≡ page_id
    unfolding cleaned
    cleaned_named =
        let l = k.loaded page_id f entry in
        id-dec_pin_count pg ∙ ap (λ x. x.id) (some_page (sym at ∙ l.at)) ∙ l.named

    cleaned_members :
        (g : ℕ)
        → has g frames ≡ true
        → ((g ≢ f) × (has g frames ≡ true)) ⊎ ((g ≡ f) × (cleaned.pin_count ≡ 0))
    unfolding cleaned
    cleaned_members g h = elim (Bool-cases (g == f)) [
      | inl same ↦
          let e = k.evictable f (subst (λ x. has x frames ≡ true) (equal_of g f same) h) in
          let zero_pins = ap (λ x. x.pin_count) (some_page (sym at ∙ e.at)) ∙ e.unpinned in
          inr (equal_of g f same, omega (arith, pin_count-dec_pin_count pg, zero_pins))
      | inr other ↦ inl (unequal_of g f other, h)
    ]

    flushed-IsPool : IsPool (touched b f cleaned b.replacer d) frames
    flushed-IsPool =
        touched-IsPool b f cleaned b.replacer d frames frames page_id k entry cleaned_named k.holds
          refl cleaned_members

  flushed-Flushes :
      (frames : List ℕ)
      → IsPool b frames
      → b.page_table page_id ≡ some f
      → b.pages f ≡ some pg
      → page_id < 524288
      → length pg.bytes ≡ 4096
      → Flushes b
          (touched b f cleaned b.replacer
            (write_page b.disk_manager page_id (dec_pin_count pg).bytes).1)
          frames
          page_id
          f
          pg
  unfolding cleaned touched
  flushed-Flushes frames k entry at small whole =
      let same_bytes = bytes-dec_pin_count pg in
      let d = (write_page b.disk_manager page_id (dec_pin_count pg).bytes).1 in
      record {
        pool = flushed-IsPool frames k entry at d;
        keeps =
            touched-KeepsPinned b f cleaned b.replacer d frames frames page_id k entry
              (cleaned_named frames k entry at d) k.holds refl
              (cleaned_members frames k entry at d);
        page = cleaned;
        at = entry_self b.pages f (some cleaned);
        count = pin_count-dec_pin_count pg;
        clean = refl;
        bytes = same_bytes;
        on_disk =
            (write_page-Keeps b.disk_manager page_id (dec_pin_count pg).bytes small
              (ap length same_bytes ∙ whole)).back
            ∙ ap some same_bytes;
        held = refl;
      }

flush_page-unknown :
    (b : BufferPoolManager) (page_id : ℕ)
    → b.page_table page_id ≡ none
    → flush_page b page_id ≡ returns (false, b)
unfolding flush_page
flush_page-unknown b page_id absent = simp (flush_page, absent) refl

-- `FlushPage` keeps the pool in order, whatever the page's number and bytes.
pub flush_page-IsPool :
    (b : BufferPoolManager) (frames : List ℕ) (page_id : ℕ)
    → IsPool b frames
    → (answer : Bool) × (b' : BufferPoolManager) × (flush_page b page_id ≡ returns (answer, b'))
      × IsPool b' frames
flush_page-IsPool b frames page_id k = go (b.page_table page_id) refl
  where
    go :
        (found : Option ℕ)
        → b.page_table page_id ≡ found
        → (answer : Bool) × (b' : BufferPoolManager) × (flush_page b page_id ≡ returns (answer, b'))
          × IsPool b' frames
    go none absent = (false, b, flush_page-unknown b page_id absent, k)
    go (some f) entry =
        let l = k.loaded page_id f entry in
        let d = (write_page b.disk_manager page_id (dec_pin_count l.page).bytes).1 in
        (
          true,
          touched b f (cleaned b page_id f l.page) b.replacer d,
          flush_page-runs b page_id f l.page entry (page_in-runs b f l.page l.in_pool l.at),
          flushed-IsPool b page_id f l.page frames k entry l.at d,
        )

-- `FlushPage` of a pool in order returns. Where the page is in the pool, has 4096 bytes and a place below
-- 2 GB, ReadPage then gives its bytes, it is not dirty and has one pin less, unless it had none, the pool is
-- in order, and the replacer is not told, also of the last pin; where it is not in the pool, the answer is
-- false and nothing changes.
pub flush_page-Flushes :
    (b : BufferPoolManager) (frames : List ℕ) (page_id : ℕ)
    → IsPool b frames
    → page_id < 524288
    → ((f : ℕ) (pg : Page)
        → b.page_table page_id ≡ some f
        → b.pages f ≡ some pg
        → length pg.bytes ≡ 4096)
    → ((b.page_table page_id ≡ none) × (flush_page b page_id ≡ returns (false, b)))
      ⊎ ((f : ℕ) × (pg : Page) × (b' : BufferPoolManager) × (b.page_table page_id ≡ some f)
          × (b.pages f ≡ some pg)
          × (flush_page b page_id ≡ returns (true, b'))
          × Flushes b b' frames page_id f pg)
flush_page-Flushes b frames page_id k small whole = go (b.page_table page_id) refl
  where
    go :
        (found : Option ℕ)
        → b.page_table page_id ≡ found
        → ((b.page_table page_id ≡ none) × (flush_page b page_id ≡ returns (false, b)))
          ⊎ ((f : ℕ) × (pg : Page) × (b' : BufferPoolManager) × (b.page_table page_id ≡ some f)
              × (b.pages f ≡ some pg)
              × (flush_page b page_id ≡ returns (true, b'))
              × Flushes b b' frames page_id f pg)
    go none absent = inl (absent, flush_page-unknown b page_id absent)
    go (some f) entry =
        let l = k.loaded page_id f entry in
        let b' =
          touched b f (cleaned b page_id f l.page) b.replacer
            (write_page b.disk_manager page_id (dec_pin_count l.page).bytes).1 in
        inr (
          f,
          l.page,
          b',
          entry,
          l.at,
          flush_page-runs b page_id f l.page entry (page_in-runs b f l.page l.in_pool l.at),
          flushed-Flushes b page_id f l.page frames k entry l.at small (whole f l.page entry l.at),
        )
