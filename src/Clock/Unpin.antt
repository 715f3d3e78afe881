-- ===== src/Clock/Unpin.antt =====
-- `Unpin` of storage/buffer/clock_replacer.go.
use samehada_db.Base.{
  ℕ, ◌<◌, List, [], ◌∷◌, ◌++◌, true, false, ◌==◌, if◌then◌else◌, none, some, returns, ◌≡◌, refl,
  arith, ap, ◌∙◌, sym, length, Bool-cases, inl, inr, length-append,
}
use samehada_db.Ring.{CircularList, find, has_key, insert}
use samehada_db.Ring.Chain.{has, has-append}
use samehada_db.Ring.Find.{
  first_with, find-first_with, Found, absent, present, search_in, first_with-has,
}
use samehada_db.Ring.Insert.{insert-Appended}
use samehada_db.Ring.Link.{Appended}
use samehada_db.Clock.{ClockReplacer, list_head, deref_hand, unpin}
use samehada_db.Clock.Frames.{Holds, hand_after, length_frames, has_frames, head_hand}

-- A frame more.
pub record Unpinned (c c' : ClockReplacer) (id : ℕ) (frames : List ℕ) : Type 0 where
  pub holds : Holds c' (if has id frames then frames else frames ++ (id ∷ []))
  pub capacity : c'.c_list.capacity ≡ c.c_list.capacity

unpin_known :
    (c : ClockReplacer) (id n : ℕ) → find c.c_list id ≡ returns (some n) → unpin c id ≡ returns c
unfolding unpin has_key
unpin_known c id n found = simp found refl

unpin_new :
    (c : ClockReplacer) (id : ℕ) (l : CircularList)
    → find c.c_list id ≡ returns none
    → insert c.c_list id true ≡ returns (true, l)
    → unpin c id
      ≡ returns
          (record { c_list = l; clock_hand = if l.size == 1 then list_head else c.clock_hand })
unfolding unpin has_key
unpin_new c id l found inserted = simp (found, inserted) refl

has_first_part : (x y : ℕ) (xs : List ℕ) → has x xs ≡ true → has x (xs ++ (y ∷ [])) ≡ true
has_first_part x y xs h = ground (arith, has-append x xs (y ∷ []))

hand_behind :
    (c : ClockReplacer) (frames : List ℕ) (h : Holds c frames) (l : CircularList) (id : ℕ)
    → Appended c.c_list l h.addresses id
    → (x : ℕ) × (deref_hand l (if l.size == 1 then list_head else c.clock_hand) ≡ some x)
      × (has x (h.addresses ++ (c.c_list.fresh ∷ [])) ≡ true)
hand_behind c frames h l id a = elim (Bool-cases (l.size == 1)) [
  | inl one ↦ rw one (
      head_hand l (h.addresses ++ (c.c_list.fresh ∷ [])) a.list
        (omega (arith, length-append {0} h.addresses (c.c_list.fresh ∷ []))))
  | inr more ↦
      let (x, at, x_in) = h.hand (nonempty more) in
      rw more (
        hand_after c.c_list l c.clock_hand h.addresses (h.addresses ++ (c.c_list.fresh ∷ [])) x
          a.list a.links (omega (arith, length-append {0} h.addresses (c.c_list.fresh ∷ []))) at
          (has_first_part x c.c_list.fresh h.addresses x_in))
]
  where
    nonempty : (l.size == 1) ≡ false → 0 < length h.addresses
    nonempty more =
        ground (arith, a.list.size_is, length-append {0} h.addresses (c.c_list.fresh ∷ []))

-- `Unpin` of a frame returns: the frame comes to the end, unless it is there, and the order of the
-- others stays, where the replacer has room for a frame that is not there.
pub unpin-Unpinned :
    (c : ClockReplacer) (frames : List ℕ) (id : ℕ)
    → Holds c frames
    → (has id frames ≡ false → length frames < c.c_list.capacity)
    → (c' : ClockReplacer) × (unpin c id ≡ returns c') × Unpinned c c' id frames
unpin-Unpinned c frames id h room = go (search_in c.c_list.nodes h.addresses id)
  where
    search : find c.c_list id ≡ returns (first_with c.c_list.nodes h.addresses id)
    search = find-first_with c.c_list h.addresses id h.list

    space : has id frames ≡ false → length h.addresses < c.c_list.capacity
    space absent_id = omega (arith, room absent_id, length_frames h)

    known : (n : ℕ) → first_with c.c_list.nodes h.addresses id ≡ some n → has id frames ≡ true
    known n hit = sym (has_frames h id) ∙ (first_with-has c.c_list.nodes h.addresses id n hit).1

    go :
        Found c.c_list.nodes h.addresses id
        → (c' : ClockReplacer) × (unpin c id ≡ returns c') × Unpinned c c' id frames
    go (present n hit cut) = (
      c,
      unpin_known c id n (search ∙ ap returns hit),
      record { holds = rw (known n hit) h; capacity = refl },
    )
    go (absent miss out) =
        let (l, inserted, a) =
          insert-Appended c.c_list h.addresses id true h.list (space (sym (has_frames h id) ∙ out))
            out in
        (
          record { c_list = l; clock_hand = if l.size == 1 then list_head else c.clock_hand },
          unpin_new c id l (search ∙ ap returns miss) inserted,
          record {
            holds = rw (sym (has_frames h id) ∙ out) (record {
              addresses = h.addresses ++ (c.c_list.fresh ∷ []);
              list = a.list;
              keys = a.keys ∙ ap (λ k. k ++ (id ∷ [])) h.keys;
              hand = λ _. hand_behind c frames h l id a;
            });
            capacity = a.capacity;
          },
        )
