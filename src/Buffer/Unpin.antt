-- ===== src/Buffer/Unpin.antt =====
-- UnpinPage of storage/buffer/buffer_pool_manager.go.
use samehada_db.Base.{
  ℕ, ◌-◌, ◌<◌, List, [], ◌∷◌, ◌++◌, Bool, true, false, ◌||◌, ltb, ◌==◌, if◌then◌else◌, Option, none,
  some, returns, ◌≡◌, refl, arith, ap, ◌∙◌, sym, subst, length, ◌≢◌, Bool-cases, inl, inr, ◌⊎◌,
}
use samehada_db.Page.{Page, dec_pin_count}
use samehada_db.Ring.Chain.{has, has-append}
use samehada_db.Ring.Distinct.{length-distinct-le}
use samehada_db.Clock.{ClockReplacer, unpin}
use samehada_db.Clock.Frames.{Holds}
use samehada_db.Clock.Unpin.{unpin-Unpinned}
use samehada_db.Buffer.{BufferPoolManager, page_in, unpin_page}
use samehada_db.Buffer.Pool.{
  IsPool, KeepsPinned, some_page, clash, equal_of, unequal_of, entry_self,
}
use samehada_db.Buffer.Take.{distinct_frames}
use samehada_db.Buffer.Change.{touched, touched-IsPool, touched-KeepsPinned}
use samehada_db.Buffer.Known.{page_in-runs}

-- A frame at the end, unless it is there.
abbrev pub queued : ℕ → List ℕ → List ℕ
queued f frames = if has f frames then frames else frames ++ (f ∷ [])

queued-has : (f : ℕ) (frames : List ℕ) → has f (queued f frames) ≡ true
queued-has f frames = elim (Bool-cases (has f frames)) [
  | inl member ↦ rw member member
  | inr out ↦ rw out (has-append f frames (f ∷ []) ∙ ground (arith, out))
]

queued-member :
    (f g : ℕ) (frames : List ℕ) → g ≢ f → has g (queued f frames) ≡ true → has g frames ≡ true
queued-member f g frames other h = elim (Bool-cases (has f frames)) [
  | inl member ↦ subst (λ x. has g (if x then frames else frames ++ (f ∷ [])) ≡ true) member h
  | inr out ↦
      let later : has g (frames ++ (f ∷ [])) ≡ true =
        subst (λ x. has g (if x then frames else frames ++ (f ∷ [])) ≡ true) out h in
      ground (arith, has-append g frames (f ∷ []), later, other)
]

-- What UnpinPage leaves of a page in the pool: it has one pin less and is marked as dirty if it was or
-- the caller says so, and the replacer has its frame exactly if nobody pins it.
pub record Unpins (b b' : BufferPoolManager) (page_id f : ℕ) (pg : Page) (is_dirty : Bool)
    : Type 0 where
  pub left : List ℕ
  pub pool : IsPool b' left
  pub keeps : KeepsPinned b b' page_id
  pub offered : has f left ≡ (pg.pin_count - 1 == 0)
  pub page : Page
  pub at : b'.pages f ≡ some page
  pub count : page.pin_count ≡ pg.pin_count - 1
  pub dirty : page.is_dirty ≡ (pg.is_dirty || is_dirty)
  pub bytes : page.bytes ≡ pg.bytes

pub pin_count-dec_pin_count : (pg : Page) → (dec_pin_count pg).pin_count ≡ pg.pin_count - 1
unfolding dec_pin_count
pin_count-dec_pin_count pg = ground arith

pub id-dec_pin_count : (pg : Page) → (dec_pin_count pg).id ≡ pg.id
unfolding dec_pin_count
id-dec_pin_count pg = ground arith

pub bytes-dec_pin_count : (pg : Page) → (dec_pin_count pg).bytes ≡ pg.bytes
unfolding dec_pin_count
bytes-dec_pin_count pg = elim (Bool-cases (ltb 0 pg.pin_count)) [
  | inl some_pin ↦ rw some_pin refl
  | inr no_pin ↦ rw no_pin refl
]

-- The replacer has room for a frame of the pool that it has not got.
pub frames_room :
    (b : BufferPoolManager) (frames : List ℕ) (f : ℕ)
    → IsPool b frames
    → f < b.pool_size
    → has f frames ≡ false
    → length frames < b.replacer.c_list.capacity
frames_room b frames f k inside out =
    let below : (x : ℕ) → has x (f ∷ frames) ≡ true → x < b.pool_size = λ x h.
      elim (Bool-cases (x == f)) [
        | inl same ↦ ground (arith, same, inside)
        | inr other ↦
            let member : has x frames ≡ true = ground (arith, h, other) in
            let e = k.evictable x member in (k.loaded e.page.id x e.entry).in_pool
      ] in
    omega (
      arith,
      length-distinct-le b.pool_size (f ∷ frames) below (out, distinct_frames k.holds),
      k.capacity,
    )

module _ (b : BufferPoolManager) (frames : List ℕ) (page_id : ℕ) (is_dirty : Bool) (f : ℕ)
    (pg : Page) where
  less : Page
  less = record (dec_pin_count pg) { is_dirty = pg.is_dirty || is_dirty }

  unpin_page-last :
      (r : ClockReplacer)
      → b.page_table page_id ≡ some f
      → page_in b f ≡ returns pg
      → ((dec_pin_count pg).pin_count == 0) ≡ true
      → unpin b.replacer f ≡ returns r
      → unpin_page b page_id is_dirty ≡ returns (true, touched b f less r b.disk_manager)
  unfolding unpin_page touched less
  unpin_page-last r entry found last ran = simp (unpin_page, entry, found, last, ran) refl

  unpin_page-more :
      b.page_table page_id ≡ some f
      → page_in b f ≡ returns pg
      → ((dec_pin_count pg).pin_count == 0) ≡ false
      → unpin_page b page_id is_dirty ≡ returns (true, touched b f less b.replacer b.disk_manager)
  unfolding unpin_page touched less
  unpin_page-more entry found more = simp (unpin_page, entry, found, more) refl

  module _ (k : IsPool b frames) (entry : b.page_table page_id ≡ some f)
      (at : b.pages f ≡ some pg) where
    unpins :
        (left : List ℕ) (r : ClockReplacer)
        → Holds r left
        → r.c_list.capacity ≡ b.replacer.c_list.capacity
        → ((g : ℕ)
            → has g left ≡ true
            → ((g ≢ f) × (has g frames ≡ true)) ⊎ ((g ≡ f) × (less.pin_count ≡ 0)))
        → has f left ≡ (pg.pin_count - 1 == 0)
        → Unpins b (touched b f less r b.disk_manager) page_id f pg is_dirty
    unfolding less touched
    unpins left r holds capacity members offered =
        let l = k.loaded page_id f entry in
        let named : less.id ≡ page_id =
          id-dec_pin_count pg ∙ ap (λ x. x.id) (some_page (sym at ∙ l.at)) ∙ l.named in
        record {
          left = left;
          pool =
              touched-IsPool b f less r b.disk_manager frames left page_id k entry named holds
                capacity members;
          keeps =
              touched-KeepsPinned b f less r b.disk_manager frames left page_id k entry named holds
                capacity members;
          offered = offered;
          page = less;
          at = entry_self b.pages f (some less);
          count = pin_count-dec_pin_count pg;
          dirty = refl;
          bytes = bytes-dec_pin_count pg;
        }

    unpin_page-known :
        (b' : BufferPoolManager) × (unpin_page b page_id is_dirty ≡ returns (true, b'))
        × Unpins b b' page_id f pg is_dirty
    unfolding less
    unpin_page-known =
        let l = k.loaded page_id f entry in
        let found = page_in-runs b f pg l.in_pool at in
        elim (Bool-cases ((dec_pin_count pg).pin_count == 0)) [
          | inl last ↦
              let (r, ran, u) =
                unpin-Unpinned b.replacer frames f k.holds (frames_room b frames f k l.in_pool) in
              (
                touched b f less r b.disk_manager,
                unpin_page-last r entry found last ran,
                unpins (queued f frames) r u.holds u.capacity
                    (λ g h. elim (Bool-cases (g == f)) [
                      | inl same ↦
                          inr (equal_of g f same, equal_of (dec_pin_count pg).pin_count 0 last)
                      | inr other ↦
                          inl (
                            unequal_of g f other,
                            queued-member f g frames (unequal_of g f other) h,
                          )
                    ])
                    (queued-has f frames
                      ∙ sym (ap (λ n. n == 0) (sym (pin_count-dec_pin_count pg)) ∙ last)),
              )
          | inr more ↦
              let out : has f frames ≡ false = elim (Bool-cases (has f frames)) [
                | inl member ↦
                    let e = k.evictable f member in
                    let zero_pins =
                      ap (λ x. x.pin_count) (some_page (sym at ∙ e.at)) ∙ e.unpinned in
                    absurd (
                      unequal_of (dec_pin_count pg).pin_count 0 more
                        (omega (arith, pin_count-dec_pin_count pg, zero_pins)))
                | inr not_in ↦ not_in
              ] in
              (
                touched b f less b.replacer b.disk_manager,
                unpin_page-more entry found more,
                unpins frames b.replacer k.holds refl
                    (λ g h. inl ((λ same. clash out (subst (λ x. has x frames ≡ true) same h)), h))
                    (out ∙ sym (ap (λ n. n == 0) (sym (pin_count-dec_pin_count pg)) ∙ more)),
              )
        ]

unpin_page-unknown :
    (b : BufferPoolManager) (page_id : ℕ) (is_dirty : Bool)
    → b.page_table page_id ≡ none
    → unpin_page b page_id is_dirty ≡ returns (false, b)
unfolding unpin_page
unpin_page-unknown b page_id is_dirty absent = simp (unpin_page, absent) refl

-- `UnpinPage` of a pool in order returns. Where the page is in the pool, the pool is in order, the page
-- has one pin less, unless it had none, keeps its bytes and is dirty if it was or the caller says so, and the
-- replacer has its frame exactly if no pin is left; where it is not, the answer is the error and
-- nothing changes.
pub unpin_page-Unpins :
    (b : BufferPoolManager) (frames : List ℕ) (page_id : ℕ) (is_dirty : Bool)
    → IsPool b frames
    → ((b.page_table page_id ≡ none) × (unpin_page b page_id is_dirty ≡ returns (false, b)))
      ⊎ ((f : ℕ) × (pg : Page) × (b' : BufferPoolManager) × (b.page_table page_id ≡ some f)
          × (b.pages f ≡ some pg)
          × (unpin_page b page_id is_dirty ≡ returns (true, b'))
          × Unpins b b' page_id f pg is_dirty)
unpin_page-Unpins b frames page_id is_dirty k = go (b.page_table page_id) refl
  where
    go :
        (found : Option ℕ)
        → b.page_table page_id ≡ found
        → ((b.page_table page_id ≡ none) × (unpin_page b page_id is_dirty ≡ returns (false, b)))
          ⊎ ((f : ℕ) × (pg : Page) × (b' : BufferPoolManager) × (b.page_table page_id ≡ some f)
              × (b.pages f ≡ some pg)
              × (unpin_page b page_id is_dirty ≡ returns (true, b'))
              × Unpins b b' page_id f pg is_dirty)
    go none absent = inl (absent, unpin_page-unknown b page_id is_dirty absent)
    go (some f) entry =
        let l = k.loaded page_id f entry in
        let (b', ran, u) = unpin_page-known b frames page_id is_dirty f l.page k entry l.at in
        inr (f, l.page, b', entry, l.at, ran, u)
