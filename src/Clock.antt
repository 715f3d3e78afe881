-- ===== src/Clock.antt =====
-- storage/buffer/clock_replacer.go on the list of Ring. The clock hand is a pointer to a pointer: to the
-- head of the list or to the `next` of a node, which may be a node that has been removed. The mutex
-- makes each call one step.
pub mod Frames
pub mod Unpin
pub mod Pin
pub mod Victim
use samehada_db.Base.{
  ℕ, zero, suc, Bool, true, false, ◌==◌, if◌then◌else◌, Option, none, some, Outcome, returns,
  panics, ◌>>=◌,
}
use samehada_db.Ring.{
  CircularList, new_circular_list, pointee, set_value, same_node, find, has_key, insert, remove,
}

pub data Hand : Type 0 where
  list_head : Hand
  next_of : ℕ → Hand

pub record ClockReplacer : Type 0 where
  pub c_list : CircularList
  pub clock_hand : Hand

unfoldable pub new_clock_replacer : ℕ → ClockReplacer
new_clock_replacer pool_size = record {
  c_list = new_circular_list pool_size;
  clock_hand = list_head;
}

-- *c.clockHand
abbrev pub deref_hand : CircularList → Hand → Option ℕ
deref_hand l list_head = l.head
deref_hand l (next_of n) = (l.nodes n).next

abbrev pub under_hand : ClockReplacer → Option ℕ
under_hand c = deref_hand c.c_list c.clock_hand

-- The loop of `Victim`, whose node never changes. It is given its number of rounds, and panics when
-- they are used up, which two of them never are.
unfoldable pub victim_loop : ℕ → ClockReplacer → ℕ → Outcome (Option ℕ × ClockReplacer)
victim_loop zero c n = panics
victim_loop (suc rounds) c n =
    let again =
      victim_loop rounds
        (record {
          c_list = record (c.c_list) { nodes = set_value c.c_list.nodes n false };
          clock_hand = next_of n;
        })
        n in
    let frame = (c.c_list.nodes n).key in
    if (c.c_list.nodes n).value then again else (do
      l ← remove c.c_list frame
      returns (some frame, record { c_list = l; clock_hand = next_of n }))

unfoldable pub victim : ClockReplacer → Outcome (Option ℕ × ClockReplacer)
victim c =
    if c.c_list.size == 0
    then returns (none, c)
    else (do n ← pointee (under_hand c); victim_loop 2 c n)

unfoldable pub unpin : ClockReplacer → ℕ → Outcome ClockReplacer
unpin c id = do
  known ← has_key c.c_list id
  if known then returns c else (do
    (_, l) ← insert c.c_list id true
    returns (record { c_list = l; clock_hand = if l.size == 1 then list_head else c.clock_hand }))

unfoldable pub pin : ClockReplacer → ℕ → Outcome ClockReplacer
pin c id = do
  found ← find c.c_list id
  elim found [
    | none ↦ returns c
    | some n ↦ (do
      let hand = if same_node (under_hand c) (some n) then next_of n else c.clock_hand
      l ← remove c.c_list id
      returns (record { c_list = l; clock_hand = hand }))
  ]

unfoldable pub replacer_size : ClockReplacer → ℕ
replacer_size c = c.c_list.size
