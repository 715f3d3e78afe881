-- ===== src/TablePage/Place.antt =====
-- The writes of `ApplyDelete` and `UpdateTuple` of storage/access/table_page.go in front of the loop over
-- the offsets: the bytes in front of the tuple move, the free space pointer moves, the new bytes and
-- the new size are written. The loop then gives the page on which the tuple is replaced.
use samehada_db.Base.{
  ℕ, ◌+◌, ◌-◌, ◌*◌, ◌≤◌, ◌<◌, List, length, leb, ltb, true, false, ◌&&◌, if◌then◌else◌, ◌≡◌, refl,
  arith, get_or, ◌≢◌, ◌⊎◌, inl, inr, ap, ◌∙◌, sym, Bool-cases,
}
use samehada_db.Bytes.{le32, slice, word32}
use samehada_db.Bytes.Slices.{
  length-copy_at, get_or-copy_at, length-slice, get_or-slice, get_or-past,
}
use samehada_db.Bytes.Words.{word32-copy_self, word32-copy_ne}
use samehada_db.Page.{Page}
use samehada_db.Page.Slots.{fsp_of, count_of, offset_of, size_of, IsPage, patch}
use samehada_db.TablePage.View.{plain_size, IsUsed, IsSound}
use samehada_db.TablePage.Moves.{Moves}
use samehada_db.TablePage.Replaced.{Replaced}

pub record Placed (p r : Page) (slot : ℕ) (bytes : List ℕ) : Type 0 where
  pub page : IsPage r
  pub pointer : fsp_of r + length bytes ≡ fsp_of p + plain_size p slot
  pub count : count_of r ≡ count_of p
  pub own_size : size_of r slot ≡ length bytes
  pub size : (i : ℕ) → i ≢ slot → i < count_of p → size_of r i ≡ size_of p i
  pub offset : (i : ℕ) → i ≢ slot → i < count_of p → offset_of r i ≡ offset_of p i
  pub front_byte :
      (j k : ℕ)
      → fsp_of p ≤ j
      → j < offset_of p slot
      → k + length bytes ≡ j + plain_size p slot
      → get_or r.bytes k 0 ≡ get_or p.bytes j 0
  pub behind_byte :
      (j : ℕ) → offset_of p slot + plain_size p slot ≤ j → get_or r.bytes j 0 ≡ get_or p.bytes j 0
  pub own_byte :
      (j k : ℕ)
      → k < length bytes
      → j + length bytes ≡ offset_of p slot + plain_size p slot + k
      → get_or r.bytes j 0 ≡ get_or bytes k 0

module _ (p : Page) (slot : ℕ) (bytes : List ℕ) (s : IsSound p) (u : IsUsed p slot) where
  -- The loop moves every tuple in front by the difference of the sizes, and none behind.
  pub Replaced-Moves :
      (r q : Page) (move : ℕ → ℕ → ℕ)
      → 24 + 8 * count_of p + length bytes ≤ fsp_of p + plain_size p slot
      → Placed p r slot bytes
      → Moves move r q 0 (count_of p) (24 + 8 * count_of p)
      → (length bytes ≢ 0
          → move (offset_of r slot) (length bytes) + length bytes
            ≡ offset_of p slot + plain_size p slot)
      → ((x z : ℕ)
          → z ≢ 0
          → fsp_of p ≤ x
          → x < offset_of p slot
          → move x z + length bytes ≡ x + plain_size p slot)
      → ((x z : ℕ) → offset_of p slot + plain_size p slot ≤ x → move x z ≡ x)
      → Replaced p q slot bytes
  Replaced-Moves r q move room w m own front behind = record {
    page = m.page;
    pointer = omega (arith, m.pointer, w.pointer);
    count = m.count ∙ w.count;
    own_size = m.size slot ∙ w.own_size;
    own_offset =
        λ h. at slot u.0 ∙ ap (λ z. move (offset_of r slot) z + length bytes) w.own_size ∙ own h;
    size = λ i ne h. m.size i ∙ w.size i ne h;
    front = λ i ne v h.
        at i v.0
        ∙ ap (λ x. move x (size_of r i) + length bytes) (w.offset i ne v.0)
        ∙ front (offset_of p i) (size_of r i) (λ z. v.1 (sym (w.size i ne v.0) ∙ z))
            (s.inside i v).0 h;
    behind = λ i ne v h.
        here i v.0
        ∙ ap (λ x. move x (size_of r i)) (w.offset i ne v.0)
        ∙ behind (offset_of p i) (size_of r i) h;
    front_byte = λ j k a b e. m.byte k (omega arith) ∙ w.front_byte j k a b e;
    behind_byte = λ j h. m.byte j (omega (arith, s.inside slot u, s.slots_fit)) ∙ w.behind_byte j h;
    own_byte = λ j k h e. m.byte j (omega (arith, s.inside slot u)) ∙ w.own_byte j k h e;
  }
    where
      here : (i : ℕ) → i < count_of p → offset_of q i ≡ move (offset_of r i) (size_of r i)
      here i h =
          let range : (leb 0 i && ltb i (0 + count_of p)) ≡ true = ground arith in
          m.offset i ∙ rw range refl

      at :
          (i : ℕ)
          → i < count_of p
          → offset_of q i + length bytes ≡ move (offset_of r i) (size_of r i) + length bytes
      at i h = ap (λ x. x + length bytes) (here i h)

module _ (p : Page) (slot f' o' : ℕ) (bytes : List ℕ) (s : IsSound p) (u : IsUsed p slot)
    (start : f' + length bytes ≡ fsp_of p + plain_size p slot)
    (end : o' + length bytes ≡ offset_of p slot + plain_size p slot)
    (room : 24 + 8 * count_of p ≤ f') where
  abbrev front_of : List ℕ
  front_of = slice (fsp_of p) (offset_of p slot) p.bytes

  abbrev pub copied : Page
  copied = patch p f' front_of

  abbrev pub pointed : Page
  pointed = patch copied 16 (le32 f')

  abbrev pub filled_in : Page
  filled_in = patch pointed o' bytes

  abbrev pub placed : Page
  placed = patch filled_in (28 + 8 * slot) (le32 (length bytes))

  pub IsPage-copied : IsPage copied
  IsPage-copied = length-copy_at f' front_of p.bytes ∙ s.page

  pub IsPage-pointed : IsPage pointed
  IsPage-pointed = length-copy_at 16 (le32 f') copied.bytes ∙ IsPage-copied

  pub IsPage-filled_in : IsPage filled_in
  IsPage-filled_in = length-copy_at o' bytes pointed.bytes ∙ IsPage-pointed

  four : (v : ℕ) → length (le32 v) ≡ 4
  four v = unfold le32 in refl

  IsPage-placed : IsPage placed
  IsPage-placed =
      length-copy_at (28 + 8 * slot) (le32 (length bytes)) filled_in.bytes ∙ IsPage-filled_in

  -- A word of the header or of a slot, other than the two that are written.
  word-placed :
      (at : ℕ)
      → (at + 4 ≤ 16) ⊎ (20 ≤ at)
      → at + 4 ≤ f'
      → (at + 4 ≤ 28 + 8 * slot) ⊎ (32 + 8 * slot ≤ at)
      → word32 placed.bytes at ≡ word32 p.bytes at
  word-placed at a b c =
      word32-copy_ne (28 + 8 * slot) (le32 (length bytes)) filled_in.bytes at
        (ground (arith, four (length bytes)))
      ∙ word32-copy_ne o' bytes pointed.bytes at (inl (omega (arith, s.inside slot u)))
      ∙ word32-copy_ne 16 (le32 f') copied.bytes at (ground (arith, four f'))
      ∙ word32-copy_ne f' front_of p.bytes at (inl b)

  length-front_of : length front_of ≡ offset_of p slot - fsp_of p
  length-front_of =
      omega (arith, length-slice (fsp_of p) (offset_of p slot) p.bytes, s.page, s.inside slot u)

  byte-copied :
      (j : ℕ)
      → f' ≤ j
      → j < 4096
      → get_or copied.bytes j 0
        ≡ (if ltb j o' then get_or p.bytes (fsp_of p + (j - f')) 0 else get_or p.bytes j 0)
  byte-copied j h k =
      let inside = s.inside slot u in
      ground (
        arith,
        get_or-copy_at f' front_of p.bytes j,
        get_or-slice (fsp_of p) (offset_of p slot) p.bytes (j - f'),
        length-front_of,
        s.page,
        inside,
      )

  byte-placed :
      (j : ℕ)
      → f' ≤ j
      → j < 4096
      → get_or placed.bytes j 0 ≡ (
          if leb o' j && ltb j (o' + length bytes)
          then get_or bytes (j - o') 0
          else if ltb j o'
          then get_or p.bytes (fsp_of p + (j - f')) 0
          else get_or p.bytes j 0)
  byte-placed j h k = ground (
    arith,
    get_or-copy_at (28 + 8 * slot) (le32 (length bytes)) filled_in.bytes j,
    get_or-copy_at o' bytes pointed.bytes j,
    get_or-copy_at 16 (le32 f') copied.bytes j,
    byte-copied j h k,
    four f',
    four (length bytes),
    IsPage-pointed,
    u.0,
  )

  pointer-placed : fsp_of placed ≡ f'
  pointer-placed =
      word32-copy_ne (28 + 8 * slot) (le32 (length bytes)) filled_in.bytes 16 (inl (omega arith))
      ∙ word32-copy_ne o' bytes pointed.bytes 16 (inl (omega (arith, s.inside slot u)))
      ∙ word32-copy_self 16 f' copied.bytes (omega (arith, IsPage-copied))
      ∙ omega (arith, s.inside slot u)

  behind-placed :
      (j : ℕ)
      → offset_of p slot + plain_size p slot ≤ j
      → get_or placed.bytes j 0 ≡ get_or p.bytes j 0
  behind-placed j h = elim (Bool-cases (ltb j 4096)) [
    | inl on ↦ ground (arith, byte-placed j (omega (arith, s.inside slot u)) (ground arith))
    | inr off ↦
        get_or-past placed.bytes j (ground (arith, IsPage-placed))
        ∙ sym (get_or-past p.bytes j (ground (arith, s.page)))
  ]

  front-placed :
      (j k : ℕ)
      → fsp_of p ≤ j
      → j < offset_of p slot
      → k + length bytes ≡ j + plain_size p slot
      → get_or placed.bytes k 0 ≡ get_or p.bytes j 0
  front-placed j k a b e =
      let inside = s.inside slot u in
      let at : fsp_of p + (k - f') ≡ j = omega arith in
      let low : (leb o' k && ltb k (o' + length bytes)) ≡ false = ground arith in
      let here : ltb k o' ≡ true = ground arith in
      byte-placed k (omega arith) (omega arith) ∙ rw low (rw here (ap (λ i. get_or p.bytes i 0) at))

  own-placed :
      (j k : ℕ)
      → k < length bytes
      → j + length bytes ≡ offset_of p slot + plain_size p slot + k
      → get_or placed.bytes j 0 ≡ get_or bytes k 0
  own-placed j k h e =
      let inside = s.inside slot u in
      let at : j - o' ≡ k = omega arith in
      let here : (leb o' j && ltb j (o' + length bytes)) ≡ true = ground arith in
      byte-placed j (omega arith) (omega arith) ∙ rw here (ap (λ i. get_or bytes i 0) at)

  pub Placed-placed : Placed p placed slot bytes
  Placed-placed = record {
    page = IsPage-placed;
    pointer = ap (λ n. n + length bytes) pointer-placed ∙ start;
    count = word-placed 20 (inr (omega arith)) (omega arith) (inl (omega arith));
    own_size =
        word32-copy_self (28 + 8 * slot) (length bytes) filled_in.bytes
          (omega (arith, IsPage-filled_in, u.0, s.slots_fit, s.pointer_fits))
        ∙ omega (arith, s.inside slot u);
    size = λ i ne h. word-placed (28 + 8 * i) (inr (omega arith)) (omega arith) (ground arith);
    offset = λ i ne h. word-placed (24 + 8 * i) (inr (omega arith)) (omega arith) (ground arith);
    front_byte = front-placed;
    behind_byte = behind-placed;
    own_byte = own-placed;
  }

  -- The own slot's offset is still the old one.
  pub offset-placed_self : offset_of placed slot ≡ offset_of p slot
  offset-placed_self =
      word-placed (24 + 8 * slot) (inr (omega arith)) (omega (arith, u.0)) (inl (omega arith))
