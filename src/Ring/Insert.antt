-- ===== src/Ring/Insert.antt =====
-- `insert` of storage/buffer/circular_list.go puts a new key at the end of the list.
use samehada_db.Base.{
  ℕ, ◌+◌, ◌<◌, List, [], ◌∷◌, ◌++◌, Bool, true, false, ◌==◌, none, some, returns, ◌≡◌, refl, arith,
  ap, ◌∙◌, sym, subst, length, Bool-cases, inl, inr, length-append,
}
use samehada_db.Bytes.{u32}
use samehada_db.Ring.{CircularList, find, put_node, link_last, insert}
use samehada_db.Ring.Chain.{last, has, NoRepeat, Chain, last-append}
use samehada_db.Ring.Find.{
  keys_at, IsList, find-first_with, keys_at-append, not-has-fresh, AllBelow-append, AllBelow-le,
  NoRepeat-append, first_with-none,
}
use samehada_db.Ring.Link.{
  Appended, made, around, linked, made-new, linked-key, Chain-linked, linked-keys, linked-into,
}

module _ (c : CircularList) (key : ℕ) (value : Bool) where
  after_link : ℕ → List ℕ → CircularList
  after_link a rest = record c {
    nodes = linked c.nodes c.fresh a rest key value;
    fresh = c.fresh + 1;
    tail = some c.fresh;
    size = u32 (c.size + 1);
  }

  link_last-links :
      (a : ℕ) (rest : List ℕ)
      → c.head ≡ some a
      → c.tail ≡ some (last a rest)
      → link_last c key value ≡ returns (after_link a rest)
  unfolding link_last after_link linked around made
  link_last-links a rest head tail = simp (head, tail) refl

-- The list behind `link_last`.
after_link-Appended :
    (c : CircularList) (key : ℕ) (value : Bool) (a : ℕ) (rest : List ℕ)
    → IsList c (a ∷ rest)
    → length (a ∷ rest) < c.capacity
    → has key (keys_at c.nodes (a ∷ rest)) ≡ false
    → Appended c (after_link c key value a rest) (a ∷ rest) key
unfolding after_link
after_link-Appended c key value a rest s room new_key =
    let out = not-has-fresh c.fresh (a ∷ rest) s.below in
    let (head, tail, chain) = s.ring in
    let nodes' = linked c.nodes c.fresh a rest key value in
    let old_keys = linked-keys c.nodes c.fresh a rest key value out s.distinct chain in
    let new_at : (nodes' c.fresh).key ≡ key =
      linked-key c.nodes c.fresh a rest key value out s.distinct chain c.fresh
      ∙ ap (λ n. n.key) (made-new c.nodes c.fresh a rest key value out s.distinct chain) in
    let keys : keys_at nodes' ((a ∷ rest) ++ (c.fresh ∷ []))
        ≡ keys_at c.nodes (a ∷ rest) ++ (key ∷ []) =
      keys_at-append nodes' (a ∷ rest) (c.fresh ∷ []) ∙ (λ i. old_keys i ++ (new_at i ∷ [])) in
    record {
      list = record {
        ring = (
          head,
          ap some (sym (last-append a rest (c.fresh ∷ []))),
          subst (λ p. Chain nodes' p (a ∷ (rest ++ (c.fresh ∷ []))) a)
              (sym (last-append a rest (c.fresh ∷ [])))
              (Chain-linked c.nodes c.fresh a rest key value out s.distinct chain),
        );
        size_is =
            omega (arith, s.size_is, s.small, room, length-append {0} (a ∷ rest) (c.fresh ∷ []));
        below =
            AllBelow-append (c.fresh + 1) (a ∷ rest) (c.fresh ∷ [])
              (AllBelow-le c.fresh (c.fresh + 1) (a ∷ rest) (omega arith) s.below)
              (omega arith, tt);
        distinct = NoRepeat-append (a ∷ rest) c.fresh s.distinct out;
        distinct_keys =
            subst NoRepeat (sym keys)
              (NoRepeat-append (keys_at c.nodes (a ∷ rest)) key s.distinct_keys new_key);
        fits = omega (arith, room, length-append {0} (a ∷ rest) (c.fresh ∷ []));
        small = s.small;
      };
      keys = keys;
      links = linked-into c.nodes c.fresh a rest key value out s.distinct chain;
      capacity = refl;
    }

first_link : CircularList → ℕ → Bool → CircularList
first_link c key value = record c {
  nodes =
      put_node c.nodes c.fresh
        (record { key = key; value = value; next = some c.fresh; prev = some c.fresh });
  fresh = c.fresh + 1;
  head = some c.fresh;
  tail = some c.fresh;
  size = u32 (c.size + 1);
}

first_link-Appended :
    (c : CircularList) (key : ℕ) (value : Bool)
    → IsList c []
    → 0 < c.capacity
    → Appended c (first_link c key value) [] key
unfolding first_link put_node
first_link-Appended c key value s room = record {
  list = record {
    ring = (refl, refl, (ground arith, ground arith, tt));
    size_is = omega (arith, s.size_is);
    below = (omega arith, tt);
    distinct = (refl, tt);
    distinct_keys = (refl, tt);
    fits = omega (arith, room);
    small = s.small;
  };
  keys = ground arith;
  links = λ b. elim (Bool-cases (c.fresh == b)) [
    | inr old ↦ inl (rw old refl)
    | inl here ↦ inr (c.fresh, rw here refl, ground arith)
  ];
  capacity = refl;
}

insert-runs :
    (c : CircularList) (key : ℕ) (value : Bool) (d : CircularList)
    → (c.size == c.capacity) ≡ false
    → (c.size == 0) ≡ false
    → find c key ≡ returns none
    → link_last c key value ≡ returns d
    → insert c key value ≡ returns (true, d)
unfolding insert
insert-runs c key value d not_full not_empty miss linked_in =
    simp (not_full, not_empty, miss, linked_in) refl

insert-runs_empty :
    (c : CircularList) (key : ℕ) (value : Bool)
    → (c.size == c.capacity) ≡ false
    → (c.size == 0) ≡ true
    → insert c key value ≡ returns (true, first_link c key value)
unfolding insert first_link
insert-runs_empty c key value not_full empty = simp (not_full, empty) refl

-- `insert` of a key that is not in a list with room returns, and the list is then the old one with one
-- more node and the key at its end.
pub insert-Appended :
    (c : CircularList) (as' : List ℕ) (key : ℕ) (value : Bool)
    → IsList c as'
    → length as' < c.capacity
    → has key (keys_at c.nodes as') ≡ false
    → (c' : CircularList) × (insert c key value ≡ returns (true, c')) × Appended c c' as' key
insert-Appended c [] key value s room new_key = (
  first_link c key value,
  insert-runs_empty c key value (ground (arith, s.size_is)) (ground (arith, s.size_is)),
  first_link-Appended c key value s room,
)
insert-Appended c (a ∷ rest) key value s room new_key = (
  after_link c key value a rest,
  insert-runs c key value (after_link c key value a rest) (ground (arith, s.size_is, s.fits))
      (ground (arith, s.size_is))
      (find-first_with c (a ∷ rest) key s
        ∙ ap returns (first_with-none c.nodes (a ∷ rest) key new_key))
      (link_last-links c key value a rest s.ring.0 s.ring.1),
  after_link-Appended c key value a rest s room new_key,
)
