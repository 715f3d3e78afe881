-- ===== src/Ring/Chain.antt =====
-- Nodes that are linked in a row and in a ring, and what a write to one link does.
use samehada_db.Base.{
  ℕ, List, [], ◌∷◌, ◌++◌, Bool, true, false, ◌||◌, ◌==◌, if◌then◌else◌, Option, some, ◌≡◌, refl,
  arith, ap, ◌∙◌, sym,
}
use samehada_db.Ring.{Nodes, set_next, set_prev}

-- The first and the last of some addresses, with what stands behind and before them.
abbrev pub first : List ℕ → ℕ → ℕ
first [] q = q
first (a ∷ as') q = a

abbrev pub last : ℕ → List ℕ → ℕ
last p [] = p
last p (a ∷ as') = last a as'

abbrev pub has : ℕ → List ℕ → Bool
has a [] = false
has a (b ∷ bs) = a == b || has a bs

abbrev pub NoRepeat : List ℕ → Type 0
NoRepeat [] = Unit
NoRepeat (a ∷ as') = (has a as' ≡ false) × NoRepeat as'

-- From `p` through the addresses to `q`.
abbrev pub Chain : Nodes → ℕ → List ℕ → ℕ → Type 0
Chain nodes p [] q = Unit
Chain nodes p (a ∷ as') q =
    ((nodes a).prev ≡ some p) × ((nodes a).next ≡ some (first as' q)) × Chain nodes a as' q

pub has-append : (a : ℕ) (xs ys : List ℕ) → has a (xs ++ ys) ≡ (has a xs || has a ys)
has-append a [] ys = refl
has-append a (x ∷ xs) ys = ground (arith, has-append a xs ys)

pub first-append : (xs ys : List ℕ) (q : ℕ) → first (xs ++ ys) q ≡ first xs (first ys q)
first-append [] ys q = refl
first-append (x ∷ xs) ys q = refl

pub last-append : (p : ℕ) (xs ys : List ℕ) → last p (xs ++ ys) ≡ last (last p xs) ys
last-append p [] ys = refl
last-append p (x ∷ xs) ys = last-append x xs ys

pub has-last : (a : ℕ) (as' : List ℕ) → has (last a as') (a ∷ as') ≡ true
has-last a [] = ground arith
has-last a (b ∷ bs) = ground (arith, has-last b bs)

-- An address that is in the list is not one that is not.
pub has_ne : (a b : ℕ) (xs : List ℕ) → has a xs ≡ false → has b xs ≡ true → (b == a) ≡ false
has_ne a b [] h k = cc
has_ne a b (x ∷ xs) h k = ground (arith, has_ne a b xs)

pub Chain-split :
    (nodes : Nodes) (p : ℕ) (xs ys : List ℕ) (q : ℕ)
    → Chain nodes p (xs ++ ys) q
    → Chain nodes p xs (first ys q) × Chain nodes (last p xs) ys q
Chain-split nodes p [] ys q c = (tt, c)
Chain-split nodes p (x ∷ xs) ys q (before, after, rest) =
    let (l, r) = Chain-split nodes x xs ys q rest in
    ((before, after ∙ ap some (first-append xs ys q), l), r)

pub Chain-join :
    (nodes : Nodes) (p : ℕ) (xs ys : List ℕ) (q : ℕ)
    → Chain nodes p xs (first ys q)
    → Chain nodes (last p xs) ys q
    → Chain nodes p (xs ++ ys) q
Chain-join nodes p [] ys q l r = r
Chain-join nodes p (x ∷ xs) ys q (before, after, l) r =
    (before, after ∙ ap some (sym (first-append xs ys q)), Chain-join nodes x xs ys q l r)

pub Chain-same :
    (nodes nodes' : Nodes) (p : ℕ) (xs : List ℕ) (q : ℕ)
    → ((a : ℕ) → has a xs ≡ true → nodes' a ≡ nodes a)
    → Chain nodes p xs q
    → Chain nodes' p xs q
Chain-same nodes nodes' p [] q same c = tt
Chain-same nodes nodes' p (x ∷ xs) q same (before, after, rest) =
    let here : nodes' x ≡ nodes x = same x (ground arith) in
    (
      ap (λ n. n.prev) here ∙ before,
      ap (λ n. n.next) here ∙ after,
      Chain-same nodes nodes' x xs q (λ a h. same a (ground arith)) rest,
    )

pub Chain-set_next_out :
    (nodes : Nodes) (b : ℕ) (t : Option ℕ) (p : ℕ) (xs : List ℕ) (q : ℕ)
    → has b xs ≡ false
    → Chain nodes p xs q
    → Chain (set_next nodes b t) p xs q
unfolding set_next
Chain-set_next_out nodes b t p xs q out c =
    Chain-same nodes (set_next nodes b t) p xs q (λ a h. ground arith) c

pub Chain-set_prev_out :
    (nodes : Nodes) (b : ℕ) (t : Option ℕ) (p : ℕ) (xs : List ℕ) (q : ℕ)
    → has b xs ≡ false
    → Chain nodes p xs q
    → Chain (set_prev nodes b t) p xs q
unfolding set_prev
Chain-set_prev_out nodes b t p xs q out c =
    Chain-same nodes (set_prev nodes b t) p xs q (λ a h. ground arith) c

pub prev-set_next :
    (nodes : Nodes) (b : ℕ) (t : Option ℕ) (a : ℕ) → (set_next nodes b t a).prev ≡ (nodes a).prev
unfolding set_next
prev-set_next nodes b t a = ground arith

pub next-set_next :
    (nodes : Nodes) (b : ℕ) (t : Option ℕ) (a : ℕ)
    → (set_next nodes b t a).next ≡ (if b == a then t else (nodes a).next)
unfolding set_next
next-set_next nodes b t a = ground arith

pub prev-set_prev :
    (nodes : Nodes) (b : ℕ) (t : Option ℕ) (a : ℕ)
    → (set_prev nodes b t a).prev ≡ (if b == a then t else (nodes a).prev)
unfolding set_prev
prev-set_prev nodes b t a = ground arith

pub next-set_prev :
    (nodes : Nodes) (b : ℕ) (t : Option ℕ) (a : ℕ) → (set_prev nodes b t a).next ≡ (nodes a).next
unfolding set_prev
next-set_prev nodes b t a = ground arith

-- The last link goes to another address.
pub Chain-set_next_last :
    (nodes : Nodes) (p x : ℕ) (xs : List ℕ) (q q' : ℕ)
    → NoRepeat (x ∷ xs)
    → Chain nodes p (x ∷ xs) q
    → Chain (set_next nodes (last x xs) (some q')) p (x ∷ xs) q'
Chain-set_next_last nodes p x [] q q' d (before, after, rest) = (
  prev-set_next nodes x (some q') x ∙ before,
  ground (arith, next-set_next nodes x (some q') x),
  tt,
)
Chain-set_next_last nodes p x (y ∷ ys) q q' d (before, after, rest) =
    let other : (last y ys == x) ≡ false =
      ground (arith, d.0, has-last y ys, has_ne x (last y ys) (y ∷ ys)) in
    (
      prev-set_next nodes (last y ys) (some q') x ∙ before,
      ground (arith, next-set_next nodes (last y ys) (some q') x, after, other),
      Chain-set_next_last nodes x y ys q q' d.1 rest,
    )

-- The first link comes from another address.
pub Chain-set_prev_first :
    (nodes : Nodes) (p p' x : ℕ) (xs : List ℕ) (q : ℕ)
    → NoRepeat (x ∷ xs)
    → Chain nodes p (x ∷ xs) q
    → Chain (set_prev nodes x (some p')) p' (x ∷ xs) q
Chain-set_prev_first nodes p p' x xs q d (before, after, rest) = (
  ground (arith, prev-set_prev nodes x (some p') x),
  next-set_prev nodes x (some p') x ∙ after,
  Chain-set_prev_out nodes x (some p') x xs q d.0 rest,
)

-- A row of nodes stays when no link changes.
pub Chain-links :
    (nodes nodes' : Nodes) (p : ℕ) (xs : List ℕ) (q : ℕ)
    → ((a : ℕ) → (nodes' a).prev ≡ (nodes a).prev)
    → ((a : ℕ) → (nodes' a).next ≡ (nodes a).next)
    → Chain nodes p xs q
    → Chain nodes' p xs q
Chain-links nodes nodes' p [] q prevs nexts c = tt
Chain-links nodes nodes' p (x ∷ xs) q prevs nexts (before, after, rest) =
    (prevs x ∙ before, nexts x ∙ after, Chain-links nodes nodes' x xs q prevs nexts rest)

pub ne_has : (a b : ℕ) (xs : List ℕ) → has a xs ≡ false → has b xs ≡ true → (a == b) ≡ false
ne_has a b [] h k = cc
ne_has a b (x ∷ xs) h k = ground (arith, ne_has a b xs)
