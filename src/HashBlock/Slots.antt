-- ===== src/HashBlock/Slots.antt =====
-- What the slots of a block of storage/page/hash_table_block_page.go hold.
use samehada_db.Base.{
  ℕ, ◌/◌, ◌%◌, ◌<◌, Bool, true, false, ◌&&◌, ◌==◌, ltb, if◌then◌else◌, returns, ◌≡◌, ◌≢◌, subst,
  refl, arith, ap, ◌∙◌, sym, Bool-cases, inl, inr,
}
use samehada_db.HashBlock.{
  HashTablePair, Bitmap, HashTableBlockPage, bit_at, with_bit, is_occupied, is_readable,
  insert_pair, remove_pair,
}

-- A slot has never been used, or its pair is there, or was removed and still stands in the way of a
-- probe.
pub data Slot : Type 0 where
  unused : Slot
  present removed : HashTablePair → Slot

abbrev pub slot_of : Bool → Bool → HashTablePair → Slot
slot_of false readable pair = unused
slot_of true true pair = present pair
slot_of true false pair = removed pair

-- A block as a map from slot numbers.
abbrev pub slot : HashTableBlockPage → ℕ → Slot
slot page i = slot_of (page.occupied (i / 8) (i % 8)) (page.readable (i / 8) (i % 8)) (page.array i)

abbrev pub without : Slot → Slot
without (present pair) = removed pair
without s = s

with_bit-same : (bits : Bitmap) (i : ℕ) (b : Bool) → with_bit bits i b (i / 8) (i % 8) ≡ b
unfolding with_bit
with_bit-same bits i b = ground arith

with_bit-other :
    (bits : Bitmap) (i j : ℕ) (b : Bool)
    → j ≢ i
    → with_bit bits i b (j / 8) (j % 8) ≡ bits (j / 8) (j % 8)
unfolding with_bit
with_bit-other bits i j b other =
    let miss : (j / 8 == i / 8 && j % 8 == i % 8) ≡ false = ground (arith, other) in rw miss refl

bit_at-runs : (bits : Bitmap) (i : ℕ) → i < 252 → bit_at bits i ≡ returns (bits (i / 8) (i % 8))
unfolding bit_at
bit_at-runs bits i h = let inside : ltb (i / 8) 32 ≡ true = ground (arith, h) in rw inside refl

is_unused : Slot → Bool
is_unused unused = true
is_unused _ = false

taken_ne_unused : (readable : Bool) (pair : HashTablePair) → slot_of true readable pair ≢ unused
unfolding is_unused
taken_ne_unused true pair same = let so : false ≡ true = ap is_unused same in cc
taken_ne_unused false pair same = let so : false ≡ true = ap is_unused same in cc

-- What `Insert` at a slot comes to.
pub data Inserts (page : HashTableBlockPage) (i : ℕ) (pair : HashTablePair) : Type 0 where
  placed :
      (page' : HashTableBlockPage)
      → slot page i ≡ unused
      → insert_pair page i pair.key pair.value ≡ returns (true, page')
      → slot page' i ≡ present pair
      → ((j : ℕ) → j ≢ i → slot page' j ≡ slot page j)
      → Inserts page i pair
  refused :
      slot page i ≢ unused
      → insert_pair page i pair.key pair.value ≡ returns (false, page)
      → Inserts page i pair

filled : HashTableBlockPage → ℕ → HashTablePair → HashTableBlockPage
filled page i pair = record {
  occupied = with_bit page.occupied i true;
  readable = with_bit page.readable i true;
  array = λ j. if j == i then record { key = pair.key; value = pair.value } else page.array j;
}

filled-slot :
    (page : HashTableBlockPage) (i : ℕ) (pair : HashTablePair)
    → slot (filled page i pair) i ≡ present pair
unfolding filled
filled-slot page i pair =
    let hit : (i == i) ≡ true = ground arith in
    rw (with_bit-same page.occupied i true) (rw (with_bit-same page.readable i true) (rw hit refl))

filled-other :
    (page : HashTableBlockPage) (i : ℕ) (pair : HashTablePair) (j : ℕ)
    → j ≢ i
    → slot (filled page i pair) j ≡ slot page j
unfolding filled
filled-other page i pair j other =
    let miss : (j == i) ≡ false = ground (arith, other) in
    rw (with_bit-other page.occupied i j true other)
      (rw (with_bit-other page.readable i j true other) (rw miss refl))

insert_pair-places :
    (page : HashTableBlockPage) (i : ℕ) (pair : HashTablePair)
    → i < 252
    → bit_at page.occupied i ≡ returns false
    → insert_pair page i pair.key pair.value ≡ returns (true, filled page i pair)
unfolding insert_pair is_occupied filled
insert_pair-places page i pair h at =
    let inside : ltb i 252 ≡ true = ground (arith, h) in simp (at, inside) refl

insert_pair-refuses :
    (page : HashTableBlockPage) (i : ℕ) (pair : HashTablePair)
    → bit_at page.occupied i ≡ returns true
    → insert_pair page i pair.key pair.value ≡ returns (false, page)
unfolding insert_pair is_occupied
insert_pair-refuses page i pair at = simp at refl

-- `Insert` at a slot of the block returns: it is done exactly where the slot has never been used, also
-- not after its pair was removed, and then the slot has the pair, and every other slot is as it was; where
-- it is refused, nothing changes.
pub insert_pair-Inserts :
    (page : HashTableBlockPage) (i : ℕ) (pair : HashTablePair) → i < 252 → Inserts page i pair
insert_pair-Inserts page i pair h =
    let at = bit_at-runs page.occupied i h in
    elim (Bool-cases (page.occupied (i / 8) (i % 8))) [
      | inl taken ↦
          refused
            (subst (λ o. slot_of o (page.readable (i / 8) (i % 8)) (page.array i) ≢ unused)
              (sym taken) (taken_ne_unused (page.readable (i / 8) (i % 8)) (page.array i)))
            (insert_pair-refuses page i pair (at ∙ ap returns taken))
      | inr empty ↦
          placed (filled page i pair)
            (ap (λ o. slot_of o (page.readable (i / 8) (i % 8)) (page.array i)) empty)
            (insert_pair-places page i pair h (at ∙ ap returns empty)) (filled-slot page i pair)
            (filled-other page i pair)
    ]

-- What `Remove` of a slot leaves.
pub record Removes (page page' : HashTableBlockPage) (i : ℕ) : Type 0 where
  pub at : slot page' i ≡ without (slot page i)
  pub others : (j : ℕ) → j ≢ i → slot page' j ≡ slot page j

emptied : HashTableBlockPage → ℕ → HashTableBlockPage
emptied page i = record page { readable = with_bit page.readable i false }

without-slot_of :
    (occupied : Bool) (pair : HashTablePair)
    → slot_of occupied false pair ≡ without (slot_of occupied true pair)
without-slot_of true pair = refl
without-slot_of false pair = refl

without_unreadable :
    (occupied : Bool) (pair : HashTablePair)
    → slot_of occupied false pair ≡ without (slot_of occupied false pair)
without_unreadable true pair = refl
without_unreadable false pair = refl

emptied-Removes :
    (page : HashTableBlockPage) (i : ℕ)
    → page.readable (i / 8) (i % 8) ≡ true
    → Removes page (emptied page i) i
unfolding emptied
emptied-Removes page i there = record {
  at =
      rw (with_bit-same page.readable i false)
        (rw there (without-slot_of (page.occupied (i / 8) (i % 8)) (page.array i)));
  others = λ j other. rw (with_bit-other page.readable i j false other) refl;
}

remove_pair-runs :
    (page : HashTableBlockPage) (i : ℕ)
    → bit_at page.readable i ≡ returns true
    → remove_pair page i ≡ returns (emptied page i)
unfolding remove_pair is_readable emptied
remove_pair-runs page i at = simp at refl

remove_pair-skips :
    (page : HashTableBlockPage) (i : ℕ)
    → bit_at page.readable i ≡ returns false
    → remove_pair page i ≡ returns page
unfolding remove_pair is_readable
remove_pair-skips page i at = simp at refl

-- `Remove` at a slot of the block returns: a pair that is there is then removed, while its slot stays
-- occupied, and every other slot, also one without a pair, is as it was.
pub remove_pair-Removes :
    (page : HashTableBlockPage) (i : ℕ)
    → i < 252
    → (page' : HashTableBlockPage) × (remove_pair page i ≡ returns page') × Removes page page' i
remove_pair-Removes page i h =
    let at = bit_at-runs page.readable i h in
    elim (Bool-cases (page.readable (i / 8) (i % 8))) [
      | inl there ↦ (
        emptied page i,
        remove_pair-runs page i (at ∙ ap returns there),
        emptied-Removes page i there,
      )
      | inr gone ↦ (
        page,
        remove_pair-skips page i (at ∙ ap returns gone),
        record {
          at =
              subst
                (λ r.
                  slot_of (page.occupied (i / 8) (i % 8)) r (page.array i)
                  ≡ without (slot_of (page.occupied (i / 8) (i % 8)) r (page.array i)))
                (sym gone) (without_unreadable (page.occupied (i / 8) (i % 8)) (page.array i));
          others = λ j other. refl;
        },
      )
    ]
