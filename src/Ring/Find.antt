-- ===== src/Ring/Find.antt =====
-- The list that the nodes of circular_list.go stand for, and what `find` finds in it.
use samehada_db.Base.{
  ℕ, suc, ◌≤◌, ◌<◌, List, [], ◌∷◌, ◌++◌, true, false, ◌==◌, if◌then◌else◌, Option, none, some,
  returns, ◌≡◌, refl, arith, ap, sym, length, Bool-cases, inl, inr,
}
use samehada_db.Ring.{Nodes, CircularList, find_from, find}
use samehada_db.Ring.Chain.{first, last, has, NoRepeat, Chain, has-append, ne_has}

-- The keys at some addresses.
abbrev pub keys_at : Nodes → List ℕ → List ℕ
keys_at nodes [] = []
keys_at nodes (a ∷ as') = (nodes a).key ∷ keys_at nodes as'

abbrev pub Ring : Nodes → Option ℕ → Option ℕ → List ℕ → Type 0
Ring nodes head tail [] = (head ≡ none) × (tail ≡ none)
Ring nodes head tail (a ∷ as') =
    (head ≡ some a) × (tail ≡ some (last a as')) × Chain nodes (last a as') (a ∷ as') a

abbrev pub AllBelow : ℕ → List ℕ → Type 0
AllBelow n [] = Unit
AllBelow n (a ∷ as') = (a < n) × AllBelow n as'

-- The list `c` is the ring of the addresses `as'`.
pub record IsList (c : CircularList) (as' : List ℕ) : Type 0 where
  pub ring : Ring c.nodes c.head c.tail as'
  pub size_is : c.size ≡ length as'
  pub below : AllBelow c.fresh as'
  pub distinct : NoRepeat as'
  pub distinct_keys : NoRepeat (keys_at c.nodes as')
  pub fits : length as' ≤ c.capacity
  pub small : c.capacity < 4294967296

abbrev pub first_with : Nodes → List ℕ → ℕ → Option ℕ
first_with nodes [] key = none
first_with nodes (a ∷ as') key = if (nodes a).key == key then some a else first_with nodes as' key

find_from-Chain :
    (nodes : Nodes) (p : ℕ) (as' : List ℕ) (q key : ℕ)
    → Chain nodes p as' q
    → find_from (length as') nodes (some (first as' q)) key ≡ returns (first_with nodes as' key)
unfolding find_from
find_from-Chain nodes p [] q key c = refl
find_from-Chain nodes p (a ∷ as') q key (before, after, rest) =
    elim (Bool-cases ((nodes a).key == key)) [
      | inl hit ↦ rw hit refl
      | inr miss ↦ rw (miss, after) (find_from-Chain nodes a as' q key rest)
    ]

-- `find` returns, with the node of the list that has the key.
pub find-first_with :
    (c : CircularList) (as' : List ℕ) (key : ℕ)
    → IsList c as'
    → find c key ≡ returns (first_with c.nodes as' key)
unfolding find find_from
find-first_with c [] key s = rw s.size_is refl
find-first_with c (a ∷ as') key s =
    let (head, tail, chain) = s.ring in
    rw (s.size_is, head) (find_from-Chain c.nodes (last a as') (a ∷ as') a key chain)

-- The list cut at the node that was found.
pub record Cut (nodes : Nodes) (as' : List ℕ) (key n : ℕ) : Type 0 where
  pub before : List ℕ
  pub after : List ℕ
  pub whole : as' ≡ before ++ (n ∷ after)
  pub here : (nodes n).key ≡ key
  pub not_before : has key (keys_at nodes before) ≡ false

-- What a search comes to.
pub data Found (nodes : Nodes) (as' : List ℕ) (key : ℕ) : Type 0 where
  absent :
      first_with nodes as' key ≡ none → has key (keys_at nodes as') ≡ false → Found nodes as' key
  present : (n : ℕ) → first_with nodes as' key ≡ some n → Cut nodes as' key n → Found nodes as' key

search_behind :
    (nodes : Nodes) (a : ℕ) (as' : List ℕ) (key : ℕ)
    → ((nodes a).key == key) ≡ false
    → Found nodes as' key
    → Found nodes (a ∷ as') key
search_behind nodes a as' key miss (absent e out) = absent (rw miss e) (ground arith)
search_behind nodes a as' key miss (present n e cut) = present n (rw miss e) (record {
  before = a ∷ cut.before;
  after = cut.after;
  whole = ap (λ l. a ∷ l) cut.whole;
  here = cut.here;
  not_before = ground (arith, cut.not_before);
})

pub search_in : (nodes : Nodes) (as' : List ℕ) (key : ℕ) → Found nodes as' key
search_in nodes [] key = absent refl refl
search_in nodes (a ∷ as') key = elim (Bool-cases ((nodes a).key == key)) [
  | inl hit ↦
      present a (rw hit refl)
        (record { before = []; after = as'; whole = refl; here = ground arith; not_before = refl })
  | inr miss ↦ search_behind nodes a as' key miss (search_in nodes as' key)
]

pub keys_at-append :
    (nodes : Nodes) (xs ys : List ℕ)
    → keys_at nodes (xs ++ ys) ≡ keys_at nodes xs ++ keys_at nodes ys
keys_at-append nodes [] ys = refl
keys_at-append nodes (x ∷ xs) ys = ap (λ l. (nodes x).key ∷ l) (keys_at-append nodes xs ys)

pub keys_at-same :
    (nodes nodes' : Nodes) (xs : List ℕ)
    → ((a : ℕ) → has a xs ≡ true → (nodes' a).key ≡ (nodes a).key)
    → keys_at nodes' xs ≡ keys_at nodes xs
keys_at-same nodes nodes' [] same = refl
keys_at-same nodes nodes' (x ∷ xs) same =
    let here : (nodes' x).key ≡ (nodes x).key = same x (ground arith) in
    let rest = keys_at-same nodes nodes' xs (λ a h. same a (ground arith)) in λ i. here i ∷ rest i

pub not-has-fresh : (n : ℕ) (xs : List ℕ) → AllBelow n xs → has n xs ≡ false
not-has-fresh n [] h = refl
not-has-fresh n (x ∷ xs) (lt, h) = ground (arith, not-has-fresh n xs h)

pub AllBelow-append :
    (n : ℕ) (xs ys : List ℕ) → AllBelow n xs → AllBelow n ys → AllBelow n (xs ++ ys)
AllBelow-append n [] ys h k = k
AllBelow-append n (x ∷ xs) ys (lt, h) k = (lt, AllBelow-append n xs ys h k)

pub AllBelow-le : (n m : ℕ) (xs : List ℕ) → n ≤ m → AllBelow n xs → AllBelow m xs
AllBelow-le n m [] le h = tt
AllBelow-le n m (x ∷ xs) le (lt, h) = (omega arith, AllBelow-le n m xs le h)

pub NoRepeat-append :
    (xs : List ℕ) (y : ℕ) → NoRepeat xs → has y xs ≡ false → NoRepeat (xs ++ (y ∷ []))
NoRepeat-append [] y d out = (refl, tt)
NoRepeat-append (x ∷ xs) y (o, d) out =
    (ground (arith, has-append x xs (y ∷ [])), NoRepeat-append xs y d (ground arith))

pub first_with-none :
    (nodes : Nodes) (as' : List ℕ) (key : ℕ)
    → has key (keys_at nodes as') ≡ false
    → first_with nodes as' key ≡ none
first_with-none nodes [] key h = refl
first_with-none nodes (a ∷ as') key h = ground (arith, first_with-none nodes as' key)

pub length-keys_at : (nodes : Nodes) (as' : List ℕ) → length (keys_at nodes as') ≡ length as'
length-keys_at nodes [] = refl
length-keys_at nodes (a ∷ as') = ap suc (length-keys_at nodes as')

pub has-key_of :
    (nodes : Nodes) (as' : List ℕ) (n : ℕ)
    → has n as' ≡ true
    → has (nodes n).key (keys_at nodes as') ≡ true
has-key_of nodes [] n h = cc
has-key_of nodes (a ∷ as') n h = elim (Bool-cases (n == a)) [
  | inl here ↦
      let e : n ≡ a = ground arith in
      let k : (nodes n).key ≡ (nodes a).key = ap (λ b. (nodes b).key) e in ground (arith, k)
  | inr other ↦ let rest = has-key_of nodes as' n (rw other at h) in ground (arith, rest)
]

-- Where no key comes twice, a node is found by its own key.
pub first_with-own :
    (nodes : Nodes) (as' : List ℕ) (n : ℕ)
    → NoRepeat (keys_at nodes as')
    → has n as' ≡ true
    → first_with nodes as' (nodes n).key ≡ some n
first_with-own nodes [] n d h = cc
first_with-own nodes (a ∷ as') n d h = elim (Bool-cases (n == a)) [
  | inl here ↦
      let e : n ≡ a = ground arith in
      let k : (nodes a).key ≡ (nodes n).key = ap (λ b. (nodes b).key) (sym e) in ground (arith, k)
  | inr other ↦
      let later = rw other at h in
      let inside = has-key_of nodes as' n later in
      let miss = ne_has (nodes a).key (nodes n).key (keys_at nodes as') d.0 inside in
      rw miss (first_with-own nodes as' n d.1 later)
]

pub first_with-has :
    (nodes : Nodes) (as' : List ℕ) (key n : ℕ)
    → first_with nodes as' key ≡ some n
    → (has n as' ≡ true) × (has key (keys_at nodes as') ≡ true) × (0 < length as')
first_with-has nodes [] key n h = cc
first_with-has nodes (a ∷ as') key n h = elim (Bool-cases ((nodes a).key == key)) [
  | inl hit ↦
      let e : ◌≡◌ {A = Option ℕ} (some a) (some n) = rw hit at h in
      let e' : a ≡ n = cc in (ground arith, ground arith, omega arith)
  | inr miss ↦
      let (n_in, key_in, _) = first_with-has nodes as' key n (rw miss at h) in
      (ground (arith, n_in), ground (arith, key_in), omega arith)
]
