-- ===== src/Ring/Link.antt =====
-- A node is linked behind the last one of the list of storage/buffer/circular_list.go.
use samehada_db.Base.{
  ℕ, List, [], ◌∷◌, ◌++◌, Bool, true, false, ◌==◌, if◌then◌else◌, Option, some, ◌≡◌, refl, arith,
  ap, ◌∙◌, sym, Bool-cases, inl, inr, ◌⊎◌,
}
use samehada_db.Ring.{Nodes, CircularList, put_node, set_next, set_prev}
use samehada_db.Ring.Chain.{
  last, has, NoRepeat, Chain, has-append, has-last, has_ne, Chain-join, Chain-same,
  Chain-set_next_last, Chain-set_prev_first, next-set_next, prev-set_prev, next-set_prev,
}
use samehada_db.Ring.Find.{keys_at, IsList, keys_at-same}

-- The links that an operation may have changed lead to nodes of the list.
abbrev pub LinksInto : Nodes → Nodes → List ℕ → Type 0
LinksInto nodes nodes' as' =
    (b : ℕ)
    → ((nodes' b).next ≡ (nodes b).next)
      ⊎ ((x : ℕ) × ((nodes' b).next ≡ some x) × (has x as' ≡ true))

-- A list with one more node and key at its end.
pub record Appended (c c' : CircularList) (as' : List ℕ) (key : ℕ) : Type 0 where
  pub list : IsList c' (as' ++ (c.fresh ∷ []))
  pub keys : keys_at c'.nodes (as' ++ (c.fresh ∷ [])) ≡ keys_at c.nodes as' ++ (key ∷ [])
  pub links : LinksInto c.nodes c'.nodes (as' ++ (c.fresh ∷ []))
  pub capacity : c'.capacity ≡ c.capacity

turned : (a b : ℕ) → (a == b) ≡ true → (b == a) ≡ true
turned a b h = ground arith

has-end : (y : ℕ) (xs : List ℕ) → has y (xs ++ (y ∷ [])) ≡ true
has-end y xs = ground (arith, has-append y xs (y ∷ []))

set_next_same :
    (nodes : Nodes) (a : ℕ) (p : Option ℕ)
    → (nodes a).next ≡ p
    → (b : ℕ) → set_next nodes a p b ≡ nodes b
unfolding set_next
set_next_same nodes a p e b = elim (Bool-cases (a == b)) [
  | inr other ↦ rw other refl
  | inl here ↦
      let at : a ≡ b = ground arith in
      let link : p ≡ (nodes b).next = sym e ∙ ap (λ k. (nodes k).next) at in
      rw here (λ i. record (nodes b) { next = link i })
]

module _ (nodes : Nodes) (new a : ℕ) (rest : List ℕ) (key : ℕ) (value : Bool) where
  unfoldable pub made : Nodes
  made =
      put_node nodes new
        (record { key = key; value = value; next = some a; prev = some (last a rest) })

  pub behind : Nodes
  behind = set_next made (last a rest) (some new)

  unfoldable pub around : Nodes
  around =
      if a == last a rest
      then set_next (set_next made (last a rest) (some new)) a (some new)
      else set_next made (last a rest) (some new)

  unfoldable pub linked : Nodes
  linked = set_prev around a (some new)

  module _ (out : has new (a ∷ rest) ≡ false) (d : NoRepeat (a ∷ rest))
      (c : Chain nodes (last a rest) (a ∷ rest) a) where
    pub made-new :
        made new ≡ record { key = key; value = value; next = some a; prev = some (last a rest) }
    unfolding made put_node
    made-new = ground arith

    made-old : (b : ℕ) → (b == new) ≡ false → made b ≡ nodes b
    unfolding made put_node
    made-old b h = ground arith

    Chain-made : Chain made (last a rest) (a ∷ rest) a
    unfolding made put_node
    Chain-made =
        Chain-same nodes made (last a rest) (a ∷ rest) a
          (λ b h. ground (arith, has_ne new b (a ∷ rest))) c

    around-behind : (b : ℕ) → around b ≡ behind b
    unfolding around behind
    around-behind b = elim (Bool-cases (a == last a rest)) [
      | inr two ↦ rw two refl
      | inl one ↦
          let again : (behind a).next ≡ some new =
            next-set_next made (last a rest) (some new) a ∙ rw (turned a (last a rest) one) refl in
          rw one (set_next_same behind a (some new) again b)
    ]

    Chain-around : Chain around (last a rest) (a ∷ rest) new
    unfolding behind
    Chain-around =
        Chain-same behind around (last a rest) (a ∷ rest) new (λ b h. around-behind b)
          (Chain-set_next_last made (last a rest) a rest a new d Chain-made)

    -- The links of the new node and of all others.
    linked-prev : (b : ℕ) → (linked b).prev ≡ (if a == b then some new else (made b).prev)
    unfolding linked behind set_next
    linked-prev b = ground (arith, prev-set_prev around a (some new) b, around-behind b)

    linked-next : (b : ℕ) → (linked b).next ≡ (if last a rest == b then some new else (made b).next)
    unfolding linked behind set_next
    linked-next b = ground (arith, next-set_prev around a (some new) b, around-behind b)

    pub linked-key : (b : ℕ) → (linked b).key ≡ (made b).key
    unfolding linked behind set_next set_prev
    linked-key b = ground (arith, around-behind b)

    pub Chain-linked : Chain linked new (a ∷ (rest ++ (new ∷ []))) a
    unfolding linked
    Chain-linked =
        Chain-join linked new (a ∷ rest) (new ∷ []) a
          (Chain-set_prev_first around (last a rest) new a rest new d Chain-around)
          (
            linked-prev new ∙ ground (arith, made-new),
            linked-next new
                ∙ ground (arith, made-new, has_ne new (last a rest) (a ∷ rest), has-last a rest),
            tt,
          )

    pub linked-keys : keys_at linked (a ∷ rest) ≡ keys_at nodes (a ∷ rest)
    linked-keys =
        keys_at-same nodes linked (a ∷ rest)
          λ b h. linked-key b ∙ ap (λ n. n.key) (made-old b (has_ne new b (a ∷ rest) out h))

    pub linked-into : LinksInto nodes linked (a ∷ (rest ++ (new ∷ [])))
    linked-into b = elim (Bool-cases (last a rest == b)) [
      | inl here ↦ inr (new, linked-next b ∙ rw here refl, has-end new (a ∷ rest))
      | inr other ↦ elim (Bool-cases (b == new)) [
        | inr old ↦ inl (linked-next b ∙ rw (other, made-old b old) refl)
        | inl at ↦
            let e : b ≡ new = ground arith in
            inr (
              a,
              linked-next b ∙ rw other refl ∙ ap (λ k. (made k).next) e ∙ ap (λ n. n.next) made-new,
              ground arith,
            )
      ]
    ]
