-- ===== src/Clock/Pin.antt =====
-- `Pin` of storage/buffer/clock_replacer.go.
use samehada_db.Base.{
  ℕ, ◌<◌, List, true, if◌then◌else◌, none, some, returns, ◌≡◌, refl, ap, ◌∙◌, sym, subst, length,
  Bool-cases, inl, inr,
}
use samehada_db.Ring.{CircularList, find, remove, same_node}
use samehada_db.Ring.Chain.{has}
use samehada_db.Ring.Find.{
  first_with, find-first_with, Found, absent, present, search_in, first_with-has,
}
use samehada_db.Ring.Remove.{Erased, erase-none, remove-Erased}
use samehada_db.Ring.Skip.{erase}
use samehada_db.Clock.{ClockReplacer, next_of, deref_hand, under_hand, pin}
use samehada_db.Clock.Frames.{Holds, hand_after, has_frames}

-- A frame less.
pub record Pinned (c c' : ClockReplacer) (id : ℕ) (frames : List ℕ) : Type 0 where
  pub holds : Holds c' (erase id frames)
  pub capacity : c'.c_list.capacity ≡ c.c_list.capacity

pin_miss : (c : ClockReplacer) (id : ℕ) → find c.c_list id ≡ returns none → pin c id ≡ returns c
unfolding pin
pin_miss c id found = simp found refl

pin_hit :
    (c : ClockReplacer) (id n : ℕ) (l : CircularList)
    → find c.c_list id ≡ returns (some n)
    → remove c.c_list id ≡ returns l
    → pin c id
      ≡ returns (record {
        c_list = l;
        clock_hand = if same_node (under_hand c) (some n) then next_of n else c.clock_hand;
      })
unfolding pin
pin_hit c id n l found removed = simp (found, removed) refl

pinned_hand :
    (c : ClockReplacer) (frames : List ℕ) (h : Holds c frames) (l : CircularList) (bs : List ℕ)
    (id n : ℕ)
    → first_with c.c_list.nodes h.addresses id ≡ some n
    → Erased c.c_list l h.addresses bs id
    → 0 < length bs
    → (x : ℕ) × (deref_hand l
          (if same_node (under_hand c) (some n) then next_of n else c.clock_hand)
        ≡ some x)
      × (has x bs ≡ true)
pinned_hand c frames h l bs id n hit e some_left =
    let (n_in, key_in, full) = first_with-has c.c_list.nodes h.addresses id n hit in
    let (x, at, x_in) = h.hand full in
    elim (Bool-cases (same_node (under_hand c) (some n))) [
      | inl under ↦ rw under (e.next_in n hit some_left)
      | inr other ↦ rw other (
          hand_after c.c_list l c.clock_hand h.addresses bs x e.list e.links some_left at
            (e.kept n x hit x_in (ap (λ p. same_node p (some n)) (sym at) ∙ other)))
    ]

-- `Pin` of a frame returns, and the frame is gone from the sequence if it was there.
pub pin-Pinned :
    (c : ClockReplacer) (frames : List ℕ) (id : ℕ)
    → Holds c frames
    → (c' : ClockReplacer) × (pin c id ≡ returns c') × Pinned c c' id frames
pin-Pinned c frames id h = go (search_in c.c_list.nodes h.addresses id)
  where
    search : find c.c_list id ≡ returns (first_with c.c_list.nodes h.addresses id)
    search = find-first_with c.c_list h.addresses id h.list

    go :
        Found c.c_list.nodes h.addresses id
        → (c' : ClockReplacer) × (pin c id ≡ returns c') × Pinned c c' id frames
    go (absent miss out) = (
      c,
      pin_miss c id (search ∙ ap returns miss),
      record {
        holds = subst (Holds c) (sym (erase-none id frames (sym (has_frames h id) ∙ out))) h;
        capacity = refl;
      },
    )
    go (present n hit cut) =
        let (l, bs, removed, e) = remove-Erased c.c_list h.addresses id h.list in
        (
          record {
            c_list = l;
            clock_hand = if same_node (under_hand c) (some n) then next_of n else c.clock_hand;
          },
          pin_hit c id n l (search ∙ ap returns hit) removed,
          record {
            holds = record {
              addresses = bs;
              list = e.list;
              keys = e.keys ∙ ap (erase id) h.keys;
              hand = pinned_hand c frames h l bs id n hit e;
            };
            capacity = e.capacity;
          },
        )
