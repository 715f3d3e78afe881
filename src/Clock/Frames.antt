-- ===== src/Clock/Frames.antt =====
-- The clock replacer of storage/buffer/clock_replacer.go as a sequence of frames: each call returns and
-- does to the sequence what a replacer promises.
use samehada_db.Base.{
  ℕ, ◌<◌, List, [], ◌∷◌, true, some, ◌≡◌, refl, arith, ap, ◌∙◌, sym, length, inl, inr,
}
use samehada_db.Ring.{CircularList, new_circular_list}
use samehada_db.Ring.Chain.{has}
use samehada_db.Ring.Find.{keys_at, IsList, length-keys_at}
use samehada_db.Ring.Link.{LinksInto}
use samehada_db.Clock.{
  ClockReplacer, Hand, list_head, next_of, deref_hand, under_hand, new_clock_replacer,
}

-- The replacer holds these frames: its list has their keys in this order, and the hand is at a node of
-- the list, if there is one.
pub record Holds (c : ClockReplacer) (frames : List ℕ) : Type 0 where
  pub addresses : List ℕ
  pub list : IsList c.c_list addresses
  pub keys : keys_at c.c_list.nodes addresses ≡ frames
  pub hand : 0 < length addresses → (x : ℕ) × (under_hand c ≡ some x) × (has x addresses ≡ true)

-- The hand of a list whose links have changed.
pub hand_after :
    (l l' : CircularList) (h : Hand) (as' bs : List ℕ) (x : ℕ)
    → IsList l' bs
    → LinksInto l.nodes l'.nodes bs
    → 0 < length bs
    → deref_hand l h ≡ some x
    → has x bs ≡ true
    → (y : ℕ) × (deref_hand l' h ≡ some y) × (has y bs ≡ true)
hand_after l l' list_head as' [] x s links some_left at x_in = absurd (omega arith)
hand_after l l' list_head as' (b ∷ bs) x s links some_left at x_in = (b, s.ring.0, ground arith)
hand_after l l' (next_of n) as' bs x s links some_left at x_in = elim (links n) [
  | inl same ↦ (x, same ∙ at, x_in)
  | inr (y, new, y_in) ↦ (y, new, y_in)
]

pub length_frames :
    {c : ClockReplacer} {frames : List ℕ} (h : Holds c frames) → length h.addresses ≡ length frames
length_frames {c} h = sym (length-keys_at c.c_list.nodes h.addresses) ∙ ap length h.keys

pub has_frames :
    {c : ClockReplacer} {frames : List ℕ} (h : Holds c frames) (id : ℕ)
    → has id (keys_at c.c_list.nodes h.addresses) ≡ has id frames
has_frames h id = ap (has id) h.keys

pub new_clock_replacer-Holds :
    (pool_size : ℕ) → pool_size < 4294967296 → Holds (new_clock_replacer pool_size) []
unfolding new_clock_replacer new_circular_list
new_clock_replacer-Holds pool_size small = record {
  addresses = [];
  list = record {
    ring = (refl, refl);
    size_is = refl;
    below = tt;
    distinct = tt;
    distinct_keys = tt;
    fits = omega arith;
    small = small;
  };
  keys = refl;
  hand = λ h. absurd (omega (arith, h));
}

pub head_hand :
    (l : CircularList) (bs : List ℕ)
    → IsList l bs
    → 0 < length bs
    → (x : ℕ) × (l.head ≡ some x) × (has x bs ≡ true)
head_hand l [] s some_left = absurd (omega arith)
head_hand l (b ∷ bs) s some_left = (b, s.ring.0, ground arith)
