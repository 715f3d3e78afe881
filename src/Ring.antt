-- ===== src/Ring.antt =====
-- storage/buffer/circular_list.go: a circular doubly linked list, on a heap of nodes. An address is a
-- number, `nodes` gives what it holds, and the addresses from `fresh` on are unused. Keys are frame
-- numbers and values are reference bits, as the clock replacer uses the list.
pub mod Chain
pub mod Find
pub mod Link
pub mod Insert
pub mod Skip
pub mod Remove
pub mod Distinct
use samehada_db.Base.{
  ℕ, zero, suc, ◌+◌, ◌-◌, Bool, true, false, ◌==◌, if◌then◌else◌, Option, none, some, Outcome,
  returns, panics, ◌>>=◌,
}
use samehada_db.Bytes.{u32}

pub record Node : Type 0 where
  pub key : ℕ
  pub value : Bool
  pub next : Option ℕ
  pub prev : Option ℕ

abbrev pub Nodes : Type 0
Nodes = ℕ → Node

pub record CircularList : Type 0 where
  pub nodes : Nodes
  pub fresh : ℕ
  pub head : Option ℕ
  pub tail : Option ℕ
  pub size : ℕ
  pub capacity : ℕ

abbrev unused : Node
unused = record { key = 0; value = false; next = none; prev = none }

unfoldable pub new_circular_list : ℕ → CircularList
new_circular_list max_size = record {
  nodes = λ a. unused;
  fresh = 0;
  head = none;
  tail = none;
  size = 0;
  capacity = max_size;
}

-- *p of a pointer to a node
abbrev pub pointee : Option ℕ → Outcome ℕ
pointee none = panics
pointee (some a) = returns a

unfoldable pub put_node : Nodes → ℕ → Node → Nodes
put_node nodes a n = λ b. if a == b then n else nodes b

-- a.next = p and a.prev = p
unfoldable pub set_next : Nodes → ℕ → Option ℕ → Nodes
set_next nodes a p = λ b. if a == b then record (nodes b) { next = p } else nodes b

unfoldable pub set_prev : Nodes → ℕ → Option ℕ → Nodes
set_prev nodes a p = λ b. if a == b then record (nodes b) { prev = p } else nodes b

unfoldable pub set_value : Nodes → ℕ → Bool → Nodes
set_value nodes a v = λ b. if a == b then record (nodes b) { value = v } else nodes b

-- The loop of `find`: `rounds` nodes from `ptr` on.
unfoldable pub find_from : ℕ → Nodes → Option ℕ → ℕ → Outcome (Option ℕ)
find_from zero nodes ptr key = returns none
find_from (suc rounds) nodes none key = panics
find_from (suc rounds) nodes (some a) key =
    let rest = find_from rounds nodes (nodes a).next key in
    if (nodes a).key == key then returns (some a) else rest

unfoldable pub find : CircularList → ℕ → Outcome (Option ℕ)
find c key = find_from c.size c.nodes c.head key

abbrev is_some : Option ℕ → Bool
is_some none = false
is_some (some a) = true

unfoldable pub has_key : CircularList → ℕ → Outcome Bool
has_key c key = do found ← find c key; returns (is_some found)

-- p == q of pointers
abbrev pub same_node : Option ℕ → Option ℕ → Bool
same_node none none = true
same_node none (some b) = false
same_node (some a) none = false
same_node (some a) (some b) = a == b

-- The new node at the end of a list that is not empty.
unfoldable pub link_last : CircularList → ℕ → Bool → Outcome CircularList
link_last c key value = do
  let new = c.fresh
  let made =
      put_node c.nodes new (record { key = key; value = value; next = c.head; prev = c.tail })
  t ← pointee c.tail
  let behind = set_next made t (some new)
  h ← pointee c.head
  let around = if same_node c.head c.tail then set_next behind h (some new) else behind
  returns (record c {
    nodes = set_prev around h (some new);
    fresh = new + 1;
    tail = some new;
    size = u32 (c.size + 1);
  })

-- `insert`: false is the error of a full list.
unfoldable pub insert : CircularList → ℕ → Bool → Outcome (Bool × CircularList)
insert c key value =
    if c.size == c.capacity
    then returns (false, c)
    else if c.size == 0
    then returns (
      true,
      record c {
        nodes =
            put_node c.nodes c.fresh
              (record { key = key; value = value; next = some c.fresh; prev = some c.fresh });
        fresh = c.fresh + 1;
        head = some c.fresh;
        tail = some c.fresh;
        size = u32 (c.size + 1);
      },
    )
    else (do
      found ← find c key
      elim found [
        | some n ↦ returns (true, record c { nodes = set_value c.nodes n value })
        | none ↦ (link_last c key value >>= λ d. returns (true, d))
      ])

-- The end of `remove` for the node `n` of a list with two nodes or more.
unfoldable pub unlink : CircularList → ℕ → Outcome CircularList
unlink c n = do
  let head = if same_node (some n) c.head then (c.nodes n).next else c.head
  let tail = if same_node (some n) c.tail then (c.nodes n).prev else c.tail
  after ← pointee (c.nodes n).next
  let first = set_prev c.nodes after (c.nodes n).prev
  before ← pointee (first n).prev
  returns (record c {
    nodes = set_next first before (first n).next;
    head = head;
    tail = tail;
    size = c.size - 1;
  })

unfoldable pub remove : CircularList → ℕ → Outcome CircularList
remove c key = do
  found ← find c key
  elim found [
    | none ↦ returns c
    | some n ↦
        if c.size == 1
        then returns (record c { head = none; tail = none; size = c.size - 1 })
        else unlink c n
  ]

unfoldable pub is_full : CircularList → Bool
is_full c = c.size == c.capacity
