-- ===== src/Ring/Remove.antt =====
-- `remove` of storage/buffer/circular_list.go takes the node of a key out of the list.
use samehada_db.Base.{
  ℕ, suc, ◌-◌, ◌<◌, List, [], ◌∷◌, ◌++◌, true, false, ◌==◌, Option, none, some, returns, ◌≡◌, refl,
  arith, ap, ◌∙◌, sym, subst, length, Bool-cases, inl, inr,
}
use mathlib.Core.List.{append-nil}
use samehada_db.Ring.{Nodes, CircularList, find, unlink, remove}
use samehada_db.Ring.Chain.{last, has, NoRepeat, has-append, has_ne}
use samehada_db.Ring.Find.{
  keys_at, IsList, first_with, find-first_with, keys_at-append, keys_at-same, Cut, Found, absent,
  present, search_in,
}
use samehada_db.Ring.Link.{LinksInto}
use samehada_db.Ring.Skip.{
  erase, erase-append, AllBelow-without, NoRepeat-without, skip, skip-key, skip-next, skipped,
  unlink-runs, Around, Around-first, Around-last, Around-middle,
}

-- A list with the node `n` of `key` taken out.
pub record Removed (c c' : CircularList) (before : List ℕ) (n : ℕ) (after : List ℕ) : Type 0 where
  pub list : IsList c' (before ++ after)
  pub keys : keys_at c'.nodes (before ++ after) ≡ keys_at c.nodes (before ++ after)
  pub links : LinksInto c.nodes c'.nodes (before ++ after)
  pub capacity : c'.capacity ≡ c.capacity
  pub next_in :
      0 < length (before ++ after)
      → (x : ℕ) × ((c'.nodes n).next ≡ some x) × (has x (before ++ after) ≡ true)

length-without :
    (xs : List ℕ) (y : ℕ) (ys : List ℕ) → length (xs ++ (y ∷ ys)) ≡ suc (length (xs ++ ys))
length-without [] y ys = refl
length-without (x ∷ xs) y ys = ap suc (length-without xs y ys)

keys-without :
    (nodes : Nodes) (xs : List ℕ) (y : ℕ) (ys : List ℕ)
    → NoRepeat (keys_at nodes (xs ++ (y ∷ ys)))
    → NoRepeat (keys_at nodes (xs ++ ys))
keys-without nodes xs y ys h = subst NoRepeat (sym (keys_at-append nodes xs ys)) (
    NoRepeat-without (keys_at nodes xs) (nodes y).key (keys_at nodes ys)
      (subst NoRepeat (keys_at-append nodes xs (y ∷ ys)) h))

skipped-Removed :
    (c : CircularList) (before : List ℕ) (n : ℕ) (after : List ℕ) (p q : ℕ)
    → IsList c (before ++ (n ∷ after))
    → Around c (before ++ (n ∷ after)) n p q (before ++ after)
    → Removed c (skipped c n p q) before n after
unfolding skipped
skipped-Removed c before n after p q s a =
    let same =
      keys_at-same c.nodes (skip c.nodes p q) (before ++ after) (λ b h. skip-key c.nodes p q b) in
    record {
      list = record {
        ring = a.ring;
        size_is = omega (arith, s.size_is, length-without before n after);
        below = AllBelow-without c.fresh before n after s.below;
        distinct = NoRepeat-without before n after s.distinct;
        distinct_keys =
            subst NoRepeat (sym same) (keys-without c.nodes before n after s.distinct_keys);
        fits = omega (arith, s.fits, length-without before n after);
        small = s.small;
      };
      keys = same;
      links = λ b. elim (Bool-cases (p == b)) [
        | inr other ↦ inl (skip-next c.nodes p q b ∙ rw other refl)
        | inl here ↦ inr (q, skip-next c.nodes p q b ∙ rw here refl, a.q_in)
      ];
      capacity = refl;
      next_in = λ some_left. elim (Bool-cases (p == n)) [
        | inr other ↦ (q, skip-next c.nodes p q n ∙ rw other a.next, a.q_in)
        | inl here ↦ (q, skip-next c.nodes p q n ∙ rw here refl, a.q_in)
      ];
    }

emptied : CircularList → CircularList
emptied c = record c { head = none; tail = none; size = c.size - 1 }

emptied-Removed : (c : CircularList) (n : ℕ) → IsList c (n ∷ []) → Removed c (emptied c) [] n []
unfolding emptied
emptied-Removed c n s = record {
  list = record {
    ring = (refl, refl);
    size_is = omega (arith, s.size_is);
    below = tt;
    distinct = tt;
    distinct_keys = tt;
    fits = omega arith;
    small = s.small;
  };
  keys = refl;
  links = λ b. inl refl;
  capacity = refl;
  next_in = λ h. absurd (omega (arith, h));
}

remove-runs :
    (c c' : CircularList) (key n : ℕ)
    → find c key ≡ returns (some n)
    → (c.size == 1) ≡ false
    → unlink c n ≡ returns c'
    → remove c key ≡ returns c'
unfolding remove
remove-runs c c' key n found more e = simp (found, more, e) refl

remove-runs_last :
    (c : CircularList) (key n : ℕ)
    → find c key ≡ returns (some n)
    → (c.size == 1) ≡ true
    → remove c key ≡ returns (emptied c)
unfolding remove emptied
remove-runs_last c key n found one = simp (found, one) refl

by_skip :
    (c : CircularList) (key : ℕ) (before : List ℕ) (n : ℕ) (after : List ℕ) (p q : ℕ)
    → IsList c (before ++ (n ∷ after))
    → find c key ≡ returns (some n)
    → 0 < length (before ++ after)
    → Around c (before ++ (n ∷ after)) n p q (before ++ after)
    → (c' : CircularList) × (remove c key ≡ returns c') × Removed c c' before n after
by_skip c key before n after p q s found more a = (
  skipped c n p q,
  remove-runs c (skipped c n p q) key n found
      (ground (arith, s.size_is, length-without before n after))
      (unlink-runs c n p q a.next a.prev (has_ne n q (before ++ after) a.not_n a.q_in)),
  skipped-Removed c before n after p q s a,
)

-- `remove` of the key of a node of the list returns, and takes just that node out.
remove-at :
    (c : CircularList) (key : ℕ) (before : List ℕ) (n : ℕ) (after : List ℕ)
    → IsList c (before ++ (n ∷ after))
    → find c key ≡ returns (some n)
    → (c' : CircularList) × (remove c key ≡ returns c') × Removed c c' before n after
remove-at c key [] n [] s found =
    (emptied c, remove-runs_last c key n found (ground (arith, s.size_is)), emptied-Removed c n s)
remove-at c key [] n (y ∷ ys) s found =
    by_skip c key [] n (y ∷ ys) (last y ys) y s found (omega arith) (Around-first c n y ys s)
remove-at c key (x ∷ xs) n [] s found =
    by_skip c key (x ∷ xs) n [] (last x xs) x s found (omega arith) (
      subst (λ l. Around c ((x ∷ xs) ++ (n ∷ [])) n (last x xs) x l) (sym (append-nil (x ∷ xs)))
        (Around-last c x xs n s))
remove-at c key (x ∷ xs) n (y ∷ ys) s found =
    by_skip c key (x ∷ xs) n (y ∷ ys) (last x xs) y s found (omega arith)
      (Around-middle c x xs n y ys s)

-- What a removal comes to: the list without the key, and the links and the node's own link lead into
-- the list that is left.
pub record Erased (c c' : CircularList) (as' bs : List ℕ) (key : ℕ) : Type 0 where
  pub list : IsList c' bs
  pub keys : keys_at c'.nodes bs ≡ erase key (keys_at c.nodes as')
  pub links : LinksInto c.nodes c'.nodes bs
  pub capacity : c'.capacity ≡ c.capacity
  pub kept :
      (n x : ℕ)
      → first_with c.nodes as' key ≡ some n
      → has x as' ≡ true
      → (x == n) ≡ false
      → has x bs ≡ true
  pub next_in :
      (n : ℕ)
      → first_with c.nodes as' key ≡ some n
      → 0 < length bs
      → (x : ℕ) × ((c'.nodes n).next ≡ some x) × (has x bs ≡ true)

pub erase-none : (k : ℕ) (xs : List ℕ) → has k xs ≡ false → erase k xs ≡ xs
erase-none k [] h = refl
erase-none k (x ∷ xs) h = ground (arith, erase-none k xs)

has-without :
    (x n : ℕ) (xs ys : List ℕ)
    → has x (xs ++ (n ∷ ys)) ≡ true
    → (x == n) ≡ false
    → has x (xs ++ ys) ≡ true
has-without x n xs ys h other = ground (arith, has-append x xs (n ∷ ys), has-append x xs ys)

some_inj : (n m : ℕ) → ◌≡◌ {A = Option ℕ} (some n) (some m) → n ≡ m
some_inj n m h = cc

none_ne : (m : ℕ) → ◌≡◌ {A = Option ℕ} none (some m) → ⊥
none_ne m h = cc

dropped_keys :
    (nodes : Nodes) (as' : List ℕ) (key n : ℕ) (cut : Cut nodes as' key n)
    → keys_at nodes (cut.before ++ cut.after) ≡ erase key (keys_at nodes as')
dropped_keys nodes as' key n cut =
    keys_at-append nodes cut.before cut.after
    ∙ sym (erase-append key (keys_at nodes cut.before) (keys_at nodes cut.after) cut.not_before)
    ∙ ap (λ k. erase key (keys_at nodes cut.before ++ (k ∷ keys_at nodes cut.after))) (sym cut.here)
    ∙ ap (erase key) (sym (keys_at-append nodes cut.before (n ∷ cut.after)))
    ∙ ap (λ l. erase key (keys_at nodes l)) (sym cut.whole)

remove-runs_miss :
    (c : CircularList) (key : ℕ) → find c key ≡ returns none → remove c key ≡ returns c
unfolding remove
remove-runs_miss c key found = simp found refl

-- `remove` on a list returns, whether the key is there or not, and leaves the list of the keys without
-- it, in the same order.
pub remove-Erased :
    (c : CircularList) (as' : List ℕ) (key : ℕ)
    → IsList c as'
    → (c' : CircularList) × (bs : List ℕ) × (remove c key ≡ returns c') × Erased c c' as' bs key
remove-Erased c as' key s = go (search_in c.nodes as' key)
  where
    go :
        Found c.nodes as' key
        → (c' : CircularList) × (bs : List ℕ) × (remove c key ≡ returns c') × Erased c c' as' bs key
    go (absent miss out) = (
      c,
      as',
      remove-runs_miss c key (find-first_with c as' key s ∙ ap returns miss),
      record {
        list = s;
        keys = sym (erase-none key (keys_at c.nodes as') out);
        links = λ b. inl refl;
        capacity = refl;
        kept = λ m x h. absurd (none_ne m (sym miss ∙ h));
        next_in = λ m h. absurd (none_ne m (sym miss ∙ h));
      },
    )
    go (present n hit cut) =
        let s' : IsList c (cut.before ++ (n ∷ cut.after)) = subst (IsList c) cut.whole s in
        let (c', ran, r) =
          remove-at c key cut.before n cut.after s'
            (find-first_with c as' key s ∙ ap returns hit) in
        (
          c',
          cut.before ++ cut.after,
          ran,
          record {
            list = r.list;
            keys = r.keys ∙ dropped_keys c.nodes as' key n cut;
            links = r.links;
            capacity = r.capacity;
            kept = λ m x h x_in other.
                has-without x n cut.before cut.after (ap (has x) (sym cut.whole) ∙ x_in)
                  (ap (λ k. x == k) (some_inj n m (sym hit ∙ h)) ∙ other);
            next_in = λ m h some_left.
                subst
                  (λ k.
                    (x : ℕ) × ((c'.nodes k).next ≡ some x)
                    × (has x (cut.before ++ cut.after) ≡ true))
                  (some_inj n m (sym hit ∙ h)) (r.next_in some_left);
          },
        )
