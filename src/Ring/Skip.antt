-- ===== src/Ring/Skip.antt =====
-- The neighbours of a node of the list of storage/buffer/circular_list.go are joined past it.
use samehada_db.Base.{
  ℕ, ◌-◌, List, [], ◌∷◌, ◌++◌, true, false, ◌==◌, if◌then◌else◌, Option, some, returns, ◌≡◌, refl,
  arith, ap, ◌∙◌, sym, subst, Bool-cases, inl, inr,
}
use samehada_db.Ring.{Nodes, CircularList, set_next, set_prev, same_node, unlink}
use samehada_db.Ring.Chain.{
  last, has, NoRepeat, Chain, has-append, has-last, has_ne, last-append, Chain-join, Chain-split,
  Chain-set_next_last, Chain-set_prev_first, Chain-set_next_out, Chain-set_prev_out, next-set_next,
  prev-set_prev, next-set_prev,
}
use samehada_db.Ring.Find.{Ring, IsList, AllBelow}

-- A list without the first of some key.
abbrev pub erase : ℕ → List ℕ → List ℕ
erase k [] = []
erase k (x ∷ xs) = if x == k then xs else x ∷ erase k xs

pub erase-append : (k : ℕ) (xs ys : List ℕ) → has k xs ≡ false → erase k (xs ++ (k ∷ ys)) ≡ xs ++ ys
erase-append k [] ys h = ground arith
erase-append k (x ∷ xs) ys h = ground (arith, erase-append k xs ys)

-- What holds of a list holds without one of its members.
pub AllBelow-without :
    (n : ℕ) (xs : List ℕ) (y : ℕ) (ys : List ℕ)
    → AllBelow n (xs ++ (y ∷ ys))
    → AllBelow n (xs ++ ys)
AllBelow-without n [] y ys h = h.1
AllBelow-without n (x ∷ xs) y ys h = (h.0, AllBelow-without n xs y ys h.1)

pub NoRepeat-without :
    (xs : List ℕ) (y : ℕ) (ys : List ℕ) → NoRepeat (xs ++ (y ∷ ys)) → NoRepeat (xs ++ ys)
NoRepeat-without [] y ys h = h.1
NoRepeat-without (x ∷ xs) y ys h = (
  ground (arith, h.0, has-append x xs (y ∷ ys), has-append x xs ys),
  NoRepeat-without xs y ys h.1,
)

-- The parts around a member of a list without repetition.
record Parts (xs : List ℕ) (y : ℕ) (ys : List ℕ) : Type 0 where
  pub left : NoRepeat xs
  right : NoRepeat ys
  not_left : has y xs ≡ false
  not_right : has y ys ≡ false
  apart : (a : ℕ) → has a xs ≡ true → has a ys ≡ false

NoRepeat-Parts : (xs : List ℕ) (y : ℕ) (ys : List ℕ) → NoRepeat (xs ++ (y ∷ ys)) → Parts xs y ys
NoRepeat-Parts [] y ys h = record {
  left = tt;
  right = h.1;
  not_left = refl;
  not_right = h.0;
  apart = λ a k. cc;
}
NoRepeat-Parts (x ∷ xs) y ys h =
    let p = NoRepeat-Parts xs y ys h.1 in
    let out : has x (xs ++ (y ∷ ys)) ≡ false = h.0 in
    record {
      left = (ground (arith, has-append x xs (y ∷ ys)), p.left);
      right = p.right;
      not_left = ground (arith, has-append x xs (y ∷ ys), p.not_left);
      not_right = p.not_right;
      apart = λ a k.
          ground (arith, has-append x xs (y ∷ ys), p.apart a, ap (λ v. has v ys) {x = a} {y = x});
    }

-- The nodes when `n`, between `p` and `q`, has been passed over.
pub skip : Nodes → ℕ → ℕ → Nodes
skip nodes p q = set_next (set_prev nodes q (some p)) p (some q)

pub skip-key : (nodes : Nodes) (p q b : ℕ) → (skip nodes p q b).key ≡ (nodes b).key
unfolding skip set_next set_prev
skip-key nodes p q b = ground arith

pub skip-next :
    (nodes : Nodes) (p q b : ℕ)
    → (skip nodes p q b).next ≡ (if p == b then some q else (nodes b).next)
unfolding skip
skip-next nodes p q b = ground (
  arith,
  next-set_next (set_prev nodes q (some p)) p (some q) b,
  next-set_prev nodes q (some p) b,
)

-- The head and the tail of `remove` for two nodes or more.
unfoldable pub moved : Option ℕ → ℕ → ℕ → Option ℕ
moved end n to = if same_node (some n) end then some to else end

unfoldable pub skipped : CircularList → ℕ → ℕ → ℕ → CircularList
skipped c n p q = record c {
  nodes = skip c.nodes p q;
  head = moved c.head n q;
  tail = moved c.tail n p;
  size = c.size - 1;
}

moved_self : (end : Option ℕ) (n to : ℕ) → end ≡ some n → moved end n to ≡ some to
unfolding moved
moved_self end n to e = ground (arith, e)

moved-other :
    (end : Option ℕ) (n to e : ℕ) → end ≡ some e → (e == n) ≡ false → moved end n to ≡ some e
unfolding moved
moved-other end n to e h other = ground (arith, h)

has_right : (y : ℕ) (xs ys : List ℕ) → has y ys ≡ true → has y (xs ++ ys) ≡ true
has_right y xs ys h = ground (arith, has-append y xs ys)

has_neither :
    (n : ℕ) (xs ys : List ℕ) → has n xs ≡ false → has n ys ≡ false → has n (xs ++ ys) ≡ false
has_neither n xs ys h k = ground (arith, has-append n xs ys)

has_here : (x : ℕ) (xs : List ℕ) → has x (x ∷ xs) ≡ true
has_here x xs = ground arith

not_both : (y : ℕ) (xs ys : List ℕ) → (has y xs ≡ true → has y (y ∷ ys) ≡ false) → has y xs ≡ false
not_both y xs ys h = elim (Bool-cases (has y xs)) [
  | inr out ↦ out
  | inl here ↦ cc (h here, has_here y ys)
]

pub unlink-runs :
    (c : CircularList) (n p q : ℕ)
    → (c.nodes n).next ≡ some q
    → (c.nodes n).prev ≡ some p
    → (q == n) ≡ false
    → unlink c n ≡ returns (skipped c n p q)
unfolding unlink skipped moved skip
unlink-runs c n p q next prev other =
    let prev' : (set_prev c.nodes q (some p) n).prev ≡ some p =
      prev-set_prev c.nodes q (some p) n ∙ rw other prev in
    let next' : (set_prev c.nodes q (some p) n).next ≡ some q =
      next-set_prev c.nodes q (some p) n ∙ next in
    simp (next, prev, prev', next') refl

-- The links around a member of a ring.
pub record Around (c : CircularList) (as' : List ℕ) (n p q : ℕ) (rest : List ℕ) : Type 0 where
  pub next : (c.nodes n).next ≡ some q
  pub prev : (c.nodes n).prev ≡ some p
  pub q_in : has q rest ≡ true
  pub not_n : has n rest ≡ false
  pub ring : Ring (skip c.nodes p q) (moved c.head n q) (moved c.tail n p) rest

-- All that is left is one row of nodes.
Chain-skip_all :
    (nodes : Nodes) (p x : ℕ) (xs : List ℕ) (q : ℕ)
    → NoRepeat (x ∷ xs)
    → Chain nodes p (x ∷ xs) q
    → Chain (skip nodes (last x xs) x) (last x xs) (x ∷ xs) x
unfolding skip
Chain-skip_all nodes p x xs q d c =
    Chain-set_next_last (set_prev nodes x (some (last x xs))) (last x xs) x xs q x d
      (Chain-set_prev_first nodes p (last x xs) x xs q d c)

pub Around-first :
    (c : CircularList) (n y : ℕ) (ys : List ℕ)
    → IsList c (n ∷ y ∷ ys)
    → Around c (n ∷ y ∷ ys) n (last y ys) y (y ∷ ys)
Around-first c n y ys s =
    let (head, tail, (before, after, rest)) = s.ring in
    record {
      next = after;
      prev = before;
      q_in = has_here y ys;
      not_n = s.distinct.0;
      ring = (
        moved_self c.head n y head,
        moved-other c.tail n (last y ys) (last y ys) tail
            (has_ne n (last y ys) (y ∷ ys) s.distinct.0 (has-last y ys)),
        Chain-skip_all c.nodes n y ys n s.distinct.1 rest,
      );
    }

pub Around-last :
    (c : CircularList) (x : ℕ) (xs : List ℕ) (n : ℕ)
    → IsList c ((x ∷ xs) ++ (n ∷ []))
    → Around c ((x ∷ xs) ++ (n ∷ [])) n (last x xs) x (x ∷ xs)
Around-last c x xs n s =
    let (head, tail, chain) = s.ring in
    let parts = NoRepeat-Parts (x ∷ xs) n [] s.distinct in
    let (l, r) = Chain-split c.nodes (last x (xs ++ (n ∷ []))) (x ∷ xs) (n ∷ []) x chain in
    record {
      next = r.1;
      prev = r.0;
      q_in = has_here x xs;
      not_n = parts.not_left;
      ring = (
        moved-other c.head n x x head (has_ne n x (x ∷ xs) parts.not_left (has_here x xs)),
        moved_self c.tail n (last x xs) (tail ∙ ap some (last-append x xs (n ∷ []))),
        Chain-skip_all c.nodes (last x (xs ++ (n ∷ []))) x xs n parts.left l,
      );
    }

pub Around-middle :
    (c : CircularList) (x : ℕ) (xs : List ℕ) (n y : ℕ) (ys : List ℕ)
    → IsList c ((x ∷ xs) ++ (n ∷ y ∷ ys))
    → Around c ((x ∷ xs) ++ (n ∷ y ∷ ys)) n (last x xs) y ((x ∷ xs) ++ (y ∷ ys))
Around-middle c x xs n y ys s =
    let (head, tail, chain) = s.ring in
    let parts = NoRepeat-Parts (x ∷ xs) n (y ∷ ys) s.distinct in
    let (l, r) = Chain-split c.nodes (last x (xs ++ (n ∷ y ∷ ys))) (x ∷ xs) (n ∷ y ∷ ys) x chain in
    record {
      next = r.1;
      prev = r.0;
      q_in = has_right y (x ∷ xs) (y ∷ ys) (has_here y ys);
      not_n = has_neither n (x ∷ xs) (y ∷ ys) parts.not_left parts.not_right;
      ring = (
        moved-other c.head n y x head (has_ne n x (x ∷ xs) parts.not_left (has_here x xs)),
        moved-other c.tail n (last x xs) (last x (xs ++ (y ∷ ys)))
            (tail ∙ ap some (ends ∙ sym (last-append x xs (y ∷ ys))))
            (subst (λ k. (k == n) ≡ false) (sym (last-append x xs (y ∷ ys)))
              (has_ne n (last y ys) (y ∷ ys) parts.not_right (has-last y ys))),
        subst (λ k. Chain (skip c.nodes (last x xs) y) k ((x ∷ xs) ++ (y ∷ ys)) x)
            (sym (last-append x xs (y ∷ ys)))
            (middle parts (subst (λ k. Chain c.nodes k (x ∷ xs) n) ends l) r.2),
      );
    }
  where
    ends : last x (xs ++ (n ∷ y ∷ ys)) ≡ last y ys
    ends = last-append x xs (n ∷ y ∷ ys)

    middle :
        Parts (x ∷ xs) n (y ∷ ys)
        → Chain c.nodes (last y ys) (x ∷ xs) n
        → Chain c.nodes n (y ∷ ys) x
        → Chain (skip c.nodes (last x xs) y) (last y ys) ((x ∷ xs) ++ (y ∷ ys)) x
    middle parts l r =
        let y_out : has y (x ∷ xs) ≡ false = not_both y (x ∷ xs) ys (parts.apart y) in
        let x_out = parts.apart (last x xs) (has-last x xs) in
        Chain-join (skip c.nodes (last x xs) y) (last y ys) (x ∷ xs) (y ∷ ys) x
          (unfold skip in
            Chain-set_next_last (set_prev c.nodes y (some (last x xs))) (last y ys) x xs n y
              parts.left
              (Chain-set_prev_out c.nodes y (some (last x xs)) (last y ys) (x ∷ xs) n y_out l))
          (unfold skip in
            Chain-set_next_out (set_prev c.nodes y (some (last x xs))) (last x xs) (some y)
              (last x xs) (y ∷ ys) x x_out
              (Chain-set_prev_first c.nodes n (last x xs) y ys x parts.right r))
