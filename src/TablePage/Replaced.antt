-- ===== src/TablePage/Replaced.antt =====
-- The page on which `ApplyDelete` or `UpdateTuple` of storage/access/table_page.go has put other bytes in
-- the place of a tuple, or none: the tuples in front of it have moved by the difference of the sizes.
use samehada_db.Base.{
  ℕ, ◌+◌, ◌-◌, ◌*◌, ◌%◌, ◌≤◌, ◌<◌, List, length, ltb, ◌==◌, if◌then◌else◌, ◌≡◌, arith, get_or, ◌≢◌,
  ◌⊎◌, inl, inr, ap, ◌∙◌, sym, Bool-cases, ==_refl,
}
use samehada_db.Bytes.{slice}
use samehada_db.Bytes.Slices.{list_ext, length-slice, get_or-slice, get_or-past}
use samehada_db.Page.{Page, delete_mask}
use samehada_db.Page.Slots.{fsp_of, count_of, offset_of, size_of, IsPage}
use samehada_db.TablePage.View.{
  free, live, stored, tuple_bytes, plain_size, IsUsed, IsSound, tuple_bytes-eq, stored-eq,
}

pub record Replaced (p q : Page) (slot : ℕ) (bytes : List ℕ) : Type 0 where
  pub page : IsPage q
  pub pointer : fsp_of q + length bytes ≡ fsp_of p + plain_size p slot
  pub count : count_of q ≡ count_of p
  pub own_size : size_of q slot ≡ length bytes
  pub own_offset :
      length bytes ≢ 0 → offset_of q slot + length bytes ≡ offset_of p slot + plain_size p slot
  pub size : (i : ℕ) → i ≢ slot → i < count_of p → size_of q i ≡ size_of p i
  pub front :
      (i : ℕ)
      → i ≢ slot
      → IsUsed p i
      → offset_of p i < offset_of p slot
      → offset_of q i + length bytes ≡ offset_of p i + plain_size p slot
  pub behind :
      (i : ℕ)
      → i ≢ slot
      → IsUsed p i
      → offset_of p slot + plain_size p slot ≤ offset_of p i
      → offset_of q i ≡ offset_of p i
  pub front_byte :
      (j k : ℕ)
      → fsp_of p ≤ j
      → j < offset_of p slot
      → k + length bytes ≡ j + plain_size p slot
      → get_or q.bytes k 0 ≡ get_or p.bytes j 0
  pub behind_byte :
      (j : ℕ) → offset_of p slot + plain_size p slot ≤ j → get_or q.bytes j 0 ≡ get_or p.bytes j 0
  pub own_byte :
      (j k : ℕ)
      → k < length bytes
      → j + length bytes ≡ offset_of p slot + plain_size p slot + k
      → get_or q.bytes j 0 ≡ get_or bytes k 0

module _ (p q : Page) (slot : ℕ) (bytes : List ℕ) (s : IsSound p) (u : IsUsed p slot)
    (room : 24 + 8 * count_of p + length bytes ≤ fsp_of p + plain_size p slot)
    (w : Replaced p q slot bytes) where
  abbrev IsFront : ℕ → Type 0
  IsFront i =
      (offset_of p i + plain_size p i ≤ offset_of p slot)
      × (offset_of q i + length bytes ≡ offset_of p i + plain_size p slot)

  abbrev IsBehind : ℕ → Type 0
  IsBehind i =
      (offset_of p slot + plain_size p slot ≤ offset_of p i) × (offset_of q i ≡ offset_of p i)

  -- A used slot of the page before lies in front of the tuple or behind it.
  sides : (i : ℕ) → i ≢ slot → IsUsed p i → IsFront i ⊎ IsBehind i
  sides i ne v = elim (s.apart i slot v u ne) [
    | inl low ↦ inl (low, w.front i ne v (omega (arith, s.nonempty i v)))
    | inr high ↦ inr (high, w.behind i ne v high)
  ]

  small : length bytes ≤ 4096
  small = omega (arith, room, s.inside slot u, s.pointer_fits)

  -- A used slot of the page behind.
  cases :
      (i : ℕ)
      → IsUsed q i
      → ((i ≡ slot)
          × (0 < length bytes)
          × (plain_size q i ≡ length bytes)
          × (offset_of q i + length bytes ≡ offset_of p slot + plain_size p slot))
        ⊎ ((i ≢ slot) × IsUsed p i × (plain_size q i ≡ plain_size p i) × (IsFront i ⊎ IsBehind i))
  cases i v = elim (Bool-cases (i == slot)) [
    | inl e ↦
        let e' : i ≡ slot = ground arith in
        let own : size_of q i ≡ length bytes = rw e' w.own_size in
        let some_bytes : length bytes ≢ 0 = λ z. v.1 (own ∙ z) in
        inl (
          e',
          ground (arith, some_bytes),
          omega (arith, own, small),
          rw e' (w.own_offset some_bytes),
        )
    | inr e ↦
        let ne : i ≢ slot = ground arith in
        let same = w.size i ne (omega (arith, v.0, w.count)) in
        let old : IsUsed p i = (omega (arith, v.0, w.count), (λ z. v.1 (same ∙ z))) in
        inr (ne, old, ap (λ k. k % delete_mask) same, sides i ne old)
  ]

  words : (i : ℕ) → i < count_of q → size_of q i < 4294967296
  words i h = elim (Bool-cases (i == slot)) [
    | inl e ↦ let e' : i ≡ slot = ground arith in rw e' (omega (arith, w.own_size, small))
    | inr e ↦
        let ne : i ≢ slot = ground arith in
        omega
          (arith, w.size i ne (omega (arith, h, w.count)), s.words i (omega (arith, h, w.count)))
  ]

  inside-Replaced :
      (i : ℕ) → IsUsed q i → (fsp_of q ≤ offset_of q i) × (offset_of q i + plain_size q i ≤ 4096)
  inside-Replaced i v = elim (cases i v) [
    | inl (e, pos, z, o) ↦
        (omega (arith, w.pointer, s.inside slot u), omega (arith, s.inside slot u))
    | inr (ne, old, z, inl (low, o)) ↦
        (omega (arith, w.pointer, s.inside i old), omega (arith, s.inside slot u))
    | inr (ne, old, z, inr (high, o)) ↦
        (omega (arith, w.pointer, s.inside slot u), omega (arith, s.inside i old))
  ]

  apart-Replaced :
      (i j : ℕ)
      → IsUsed q i
      → IsUsed q j
      → i ≢ j
      → (offset_of q i + plain_size q i ≤ offset_of q j)
        ⊎ (offset_of q j + plain_size q j ≤ offset_of q i)
  apart-Replaced i j v v' ne = elim (cases i v) [
    | inl (e, pos, z, o) ↦ elim (cases j v') [
      | inl (e', pos', z', o') ↦ absurd (omega arith)
      | inr (ne', old', z', inl (low', o')) ↦ inr (omega arith)
      | inr (ne', old', z', inr (high', o')) ↦ inl (omega arith)
    ]
    | inr (ne₁, old, z, inl (low, o)) ↦ elim (cases j v') [
      | inl (e', pos', z', o') ↦ inl (omega arith)
      | inr (ne', old', z', inl (low', o')) ↦ ground (arith, s.apart i j old old' ne)
      | inr (ne', old', z', inr (high', o')) ↦ inl (omega arith)
    ]
    | inr (ne₁, old, z, inr (high, o)) ↦ elim (cases j v') [
      | inl (e', pos', z', o') ↦ inr (omega arith)
      | inr (ne', old', z', inl (low', o')) ↦ inr (omega arith)
      | inr (ne', old', z', inr (high', o')) ↦ ground (arith, s.apart i j old old' ne)
    ]
  ]

  pub IsSound-Replaced : IsSound q
  IsSound-Replaced = record {
    page = w.page;
    slots_fit = omega (arith, w.count, w.pointer, room);
    pointer_fits = omega (arith, w.pointer, s.inside slot u, small);
    words = words;
    nonempty = λ i v. ground (arith, cases i v, s.nonempty i);
    inside = inside-Replaced;
    apart = apart-Replaced;
  }

  own_at :
      offset_of q slot + length bytes ≡ offset_of p slot + plain_size p slot
      → (i : ℕ)
      → get_or (slice (offset_of q slot) (offset_of q slot + length bytes) q.bytes) i 0
        ≡ get_or bytes i 0
  own_at o i =
      let width : offset_of q slot + length bytes - offset_of q slot ≡ length bytes = omega arith in
      get_or-slice (offset_of q slot) (offset_of q slot + length bytes) q.bytes i
      ∙ rw width (elim (Bool-cases (ltb i (length bytes))) [
        | inl inside ↦
            rw inside (w.own_byte (offset_of q slot + i) i (ground arith) (omega (arith, o)))
        | inr past ↦ rw past (sym (get_or-past bytes i (ground arith)))
      ])

  own_bytes : length bytes ≢ 0 → tuple_bytes q slot ≡ bytes
  unfolding tuple_bytes
  own_bytes pos =
      let o = w.own_offset pos in
      let n : length bytes % delete_mask ≡ length bytes = omega (arith, small) in
      rw (w.own_size, n)
        (list_ext _ bytes
          (omega (
            arith,
            length-slice (offset_of q slot) (offset_of q slot + length bytes) q.bytes,
            w.page,
            o,
            s.inside slot u,
          ))
          λ i. own_at o i)

  old_bytes : (i : ℕ) → i ≢ slot → IsUsed p i → tuple_bytes q i ≡ tuple_bytes p i
  old_bytes i ne old = elim (sides i ne old) [
    | inl (low, o) ↦
        tuple_bytes-eq p q i s.page w.page (ap (λ k. k % delete_mask) (w.size i ne old.0))
          (omega (arith, s.inside i old)) (omega (arith, s.inside slot u))
          λ k h.
            w.front_byte (offset_of p i + k) (offset_of q i + k) (omega (arith, s.inside i old))
              (omega arith) (omega arith)
    | inr (high, o) ↦
        tuple_bytes-eq p q i s.page w.page (ap (λ k. k % delete_mask) (w.size i ne old.0))
          (omega (arith, s.inside i old)) (omega (arith, s.inside i old))
          λ k h. rw o (w.behind_byte (offset_of p i + k) (omega arith))
  ]

  -- The slots behind: that of the tuple holds the new bytes, or is free where there are none.
  pub stored-Replaced :
      (i : ℕ)
      → stored q i
        ≡ (if i == slot then (if length bytes == 0 then free else live bytes) else stored p i)
  unfolding stored
  stored-Replaced i = elim (Bool-cases (i == slot)) [
    | inl e ↦
        let e' : i ≡ slot = ground arith in
        rw e' (rw ==_refl (ground (arith, w.own_size, w.count, u.0, own_bytes, small)))
    | inr e ↦
        let ne : i ≢ slot = ground arith in
        elim (Bool-cases (ltb i (count_of p))) [
          | inl known ↦
              ground
                (arith, stored-eq p q i w.count (w.size i ne (ground arith)) (old_bytes i ne), e)
          | inr unknown ↦ ground (arith, w.count, e)
        ]
  ]
