-- ===== src/Clock/Victim.antt =====
-- `Victim` of storage/buffer/clock_replacer.go.
use samehada_db.Base.{
  ℕ, suc, ◌<◌, List, [], ◌∷◌, Bool, true, false, ◌==◌, Option, none, some, returns, ◌≡◌, refl,
  arith, ap, ◌∙◌, sym, subst, length, Bool-cases, inl, inr,
}
use samehada_db.Ring.{Nodes, CircularList, remove, set_value}
use samehada_db.Ring.Chain.{Chain-links, last, has, NoRepeat}
use samehada_db.Ring.Find.{Ring, keys_at-same, keys_at, IsList, has-key_of, first_with-own}
use samehada_db.Ring.Remove.{remove-Erased}
use samehada_db.Ring.Skip.{erase}
use samehada_db.Clock.{ClockReplacer, next_of, under_hand, victim, victim_loop}
use samehada_db.Clock.Frames.{Holds, length_frames, has_frames}

-- What a round of `Victim` that takes the node leaves.
victim_takes :
    (rounds : ℕ) (c : ClockReplacer) (n : ℕ) (l : CircularList)
    → (c.c_list.nodes n).value ≡ false
    → remove c.c_list (c.c_list.nodes n).key ≡ returns l
    → victim_loop (suc rounds) c n
      ≡ returns (some (c.c_list.nodes n).key, record { c_list = l; clock_hand = next_of n })
unfolding victim_loop
victim_takes rounds c n l bit removed = simp (bit, removed) refl

bit_cleared : ClockReplacer → ℕ → ClockReplacer
bit_cleared c n = record {
  c_list = record (c.c_list) { nodes = set_value c.c_list.nodes n false };
  clock_hand = next_of n;
}

victim_turns :
    (rounds : ℕ) (c : ClockReplacer) (n : ℕ)
    → (c.c_list.nodes n).value ≡ true
    → victim_loop (suc rounds) c n ≡ victim_loop rounds (bit_cleared c n) n
unfolding victim_loop bit_cleared
victim_turns rounds c n bit = simp bit refl

-- The frame of the node under the hand goes.
pub record Evicted (c c' : ClockReplacer) (frame n : ℕ) (frames : List ℕ) : Type 0 where
  pub here : (c.c_list.nodes n).key ≡ frame
  pub under : under_hand c ≡ some n
  pub member : has frame frames ≡ true
  pub holds : Holds c' (erase frame frames)
  pub capacity : c'.c_list.capacity ≡ c.c_list.capacity

key-set_value :
    (nodes : Nodes) (a : ℕ) (v : Bool) (b : ℕ) → (set_value nodes a v b).key ≡ (nodes b).key
unfolding set_value
key-set_value nodes a v b = ground arith

Ring-bit :
    (l : CircularList) (as' : List ℕ) (n : ℕ)
    → Ring l.nodes l.head l.tail as'
    → Ring (set_value l.nodes n false) l.head l.tail as'
unfolding set_value
Ring-bit l [] n r = r
Ring-bit l (a ∷ as') n (head, tail, chain) = (
  head,
  tail,
  Chain-links l.nodes (set_value l.nodes n false) (last a as') (a ∷ as') a (λ b. ground arith)
      (λ b. ground arith) chain,
)

IsList-bit :
    (l : CircularList) (as' : List ℕ) (n : ℕ)
    → IsList l as'
    → IsList (record l { nodes = set_value l.nodes n false }) as'
IsList-bit l as' n s =
    let same =
      keys_at-same l.nodes (set_value l.nodes n false) as'
        (λ b h. key-set_value l.nodes n false b) in
    record {
      ring = Ring-bit l as' n s.ring;
      size_is = s.size_is;
      below = s.below;
      distinct = s.distinct;
      distinct_keys = subst NoRepeat (sym same) s.distinct_keys;
      fits = s.fits;
      small = s.small;
    }

-- The round that takes the node, on any list that it stands in.
taken :
    (rounds : ℕ) (c : ClockReplacer) (as' : List ℕ) (n key : ℕ) (frames : List ℕ)
    → IsList c.c_list as'
    → has n as' ≡ true
    → (c.c_list.nodes n).value ≡ false
    → (c.c_list.nodes n).key ≡ key
    → keys_at c.c_list.nodes as' ≡ frames
    → (c' : ClockReplacer) × (victim_loop (suc rounds) c n ≡ returns (some key, c'))
      × Holds c' (erase key frames)
      × (c'.c_list.capacity ≡ c.c_list.capacity)
taken rounds c as' n key frames s n_in bit here same =
    let own = (c.c_list.nodes n).key in
    let hit = first_with-own c.c_list.nodes as' n s.distinct_keys n_in in
    let (l, bs, removed, e) = remove-Erased c.c_list as' own s in
    (
      record { c_list = l; clock_hand = next_of n },
      victim_takes rounds c n l bit removed
          ∙ ap (λ k. returns (some k, record { c_list = l; clock_hand = next_of n })) here,
      record {
        addresses = bs;
        list = e.list;
        keys = e.keys ∙ (λ i. erase (here i) (same i));
        hand = e.next_in n hit;
      },
      e.capacity,
    )

value-set_value : (nodes : Nodes) (a : ℕ) → (set_value nodes a false a).value ≡ false
unfolding set_value
value-set_value nodes a = ground arith

-- Both rounds, whatever the bit is.
two_rounds :
    (c : ClockReplacer) (frames : List ℕ) (h : Holds c frames) (n : ℕ)
    → has n h.addresses ≡ true
    → (c' : ClockReplacer) × (victim_loop 2 c n ≡ returns (some (c.c_list.nodes n).key, c'))
      × Holds c' (erase (c.c_list.nodes n).key frames)
      × (c'.c_list.capacity ≡ c.c_list.capacity)
unfolding bit_cleared
two_rounds c frames h n n_in = elim (Bool-cases (c.c_list.nodes n).value) [
  | inr bit ↦ taken 1 c h.addresses n (c.c_list.nodes n).key frames h.list n_in bit refl h.keys
  | inl bit ↦
      let same =
        keys_at-same c.c_list.nodes (set_value c.c_list.nodes n false) h.addresses
          (λ b k. key-set_value c.c_list.nodes n false b) in
      let (c', ran, holds, capacity) =
        taken 0 (bit_cleared c n) h.addresses n (c.c_list.nodes n).key frames
          (IsList-bit c.c_list h.addresses n h.list) n_in (value-set_value c.c_list.nodes n)
          (key-set_value c.c_list.nodes n false n) (same ∙ h.keys) in
      (c', victim_turns 1 c n bit ∙ ran, holds, capacity)
]

runs :
    (c : ClockReplacer) (n : ℕ) (answer : Option ℕ × ClockReplacer)
    → (c.c_list.size == 0) ≡ false
    → under_hand c ≡ some n
    → victim_loop 2 c n ≡ returns answer
    → victim c ≡ returns answer
unfolding victim
runs c n answer full under e = simp (full, under, e) refl

-- `Victim` of an empty replacer gives nothing and changes nothing.
pub victim-empty : (c : ClockReplacer) → Holds c [] → victim c ≡ returns (none, c)
unfolding victim
victim-empty c h =
    let empty : (c.c_list.size == 0) ≡ true = ground (arith, h.list.size_is, length_frames h) in
    simp empty refl

-- `Victim` of a replacer with frames returns after at most two rounds. It takes the frame under the hand
-- out of the sequence, whatever its reference bit says.
pub victim-Evicted :
    (c : ClockReplacer) (frames : List ℕ)
    → Holds c frames
    → 0 < length frames
    → (c' : ClockReplacer) × (frame : ℕ) × (n : ℕ) × (victim c ≡ returns (some frame, c'))
      × Evicted c c' frame n frames
victim-Evicted c frames h some_frame =
    let (n, under, n_in) = h.hand (omega (arith, length_frames h, some_frame)) in
    let key = (c.c_list.nodes n).key in
    let full : (c.c_list.size == 0) ≡ false = ground (arith, h.list.size_is, length_frames h) in
    let (c', ran, holds, capacity) = two_rounds c frames h n n_in in
    (
      c',
      key,
      n,
      runs c n (some key, c') full under ran,
      record {
        here = refl;
        under = under;
        member = sym (has_frames h key) ∙ has-key_of c.c_list.nodes h.addresses n n_in;
        holds = holds;
        capacity = capacity;
      },
    )
