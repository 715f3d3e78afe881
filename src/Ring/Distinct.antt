-- ===== src/Ring/Distinct.antt =====
-- Sequences of distinct numbers: one without a member, and one whose members are below a bound.
use samehada_db.Base.{
  ℕ, zero, suc, ◌≤◌, ◌<◌, List, [], ◌∷◌, ◌++◌, true, false, ◌==◌, if◌then◌else◌, ◌≡◌, refl, arith,
  subst, length, Bool-cases, inl, inr,
}
use samehada_db.Ring.Chain.{has, NoRepeat, has-append}
use samehada_db.Ring.Skip.{erase}

erase-below :
    (n : ℕ) (xs : List ℕ)
    → ((x : ℕ) → has x xs ≡ true → x < suc n)
    → NoRepeat xs
    → (x : ℕ) → has x (erase n xs) ≡ true
    → x < n
erase-below n [] h d x k = cc
erase-below n (y ∷ ys) h (out, d) x k = elim (Bool-cases (y == n)) [
  | inl hit ↦
      let in_rest : has x ys ≡ true =
        subst (λ b. has x (if b then ys else y ∷ erase n ys) ≡ true) hit k in
      ground (arith, h x (ground (arith, in_rest)), in_rest, out)
  | inr miss ↦
      let kept : has x (y ∷ erase n ys) ≡ true =
        subst (λ b. has x (if b then ys else y ∷ erase n ys) ≡ true) miss k in
      elim (Bool-cases (y == x)) [
        | inl same ↦ ground (arith, h x (ground (arith, same)), same, miss)
        | inr other ↦
            erase-below n ys (λ z z_in. h z (ground (arith, z_in))) d x
              (ground (arith, kept, other))
      ]
]

pub has-erase : (n x : ℕ) (xs : List ℕ) → has x xs ≡ false → has x (erase n xs) ≡ false
has-erase n x [] h = refl
has-erase n x (y ∷ ys) h = ground (arith, has-erase n x ys)

pub NoRepeat-erase : (n : ℕ) (xs : List ℕ) → NoRepeat xs → NoRepeat (erase n xs)
NoRepeat-erase n [] d = tt
NoRepeat-erase n (y ∷ ys) (out, d) = elim (Bool-cases (y == n)) [
  | inl hit ↦ rw hit d
  | inr miss ↦ rw miss (has-erase n y ys out, NoRepeat-erase n ys d)
]

length-erase-le : (n : ℕ) (xs : List ℕ) → length xs ≤ suc (length (erase n xs))
length-erase-le n [] = omega arith
length-erase-le n (y ∷ ys) = ground (arith, length-erase-le n ys)

pub length-distinct-le :
    (n : ℕ) (xs : List ℕ) → ((x : ℕ) → has x xs ≡ true → x < n) → NoRepeat xs → length xs ≤ n
length-distinct-le zero [] h d = omega arith
length-distinct-le zero (y ∷ ys) h d = absurd (omega (arith, h y (ground arith)))
length-distinct-le (suc n) xs h d = omega (
  arith,
  length-erase-le n xs,
  length-distinct-le n (erase n xs) (erase-below n xs h d) (NoRepeat-erase n xs d),
)

pub erase_self : (n : ℕ) (xs : List ℕ) → NoRepeat xs → has n (erase n xs) ≡ false
erase_self n [] d = refl
erase_self n (y ∷ ys) (out, d) = ground (arith, erase_self n ys d)

pub erase-member : (n x : ℕ) (xs : List ℕ) → has x (erase n xs) ≡ true → has x xs ≡ true
erase-member n x [] h = h
erase-member n x (y ∷ ys) h = ground (arith, erase-member n x ys)

pub NoRepeat-append_one :
    (n : ℕ) (xs : List ℕ) → NoRepeat xs → has n xs ≡ false → NoRepeat (xs ++ (n ∷ []))
NoRepeat-append_one n [] d h = (refl, tt)
NoRepeat-append_one n (y ∷ ys) (out, d) h =
    (ground (arith, has-append y ys (n ∷ [])), NoRepeat-append_one n ys d (ground arith))
