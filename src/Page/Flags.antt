-- ===== src/Page/Flags.antt =====
-- The delete mark of storage/access/table_page.go is the top bit of the size word: what the masks do
-- to a 32-bit number.
use Prim.Native.Nat.{bit_and, bit_or, digits, bit_and-bitwise, bit_or-bitwise, max}
use samehada_db.Base.{
  ℕ, zero, suc, ◌+◌, ◌*◌, ◌/◌, ◌%◌, ◌^◌, ◌≤◌, ◌<◌, min, leb, ◌==◌, ◌||◌, ◌≡◌, refl, arith, ap,
}
use samehada_db.Page.{delete_mask, is_deleted, set_deleted_flag, unset_deleted_flag}

-- The count that `digits` recurses on may be any number that is large enough.
module _ (tail : ℕ → ℕ) (op : ℕ → ℕ → ℕ) where
  digits_agree :
      (x y count count' : ℕ)
      → x ≤ count
      → x ≤ count'
      → digits tail op count x y ≡ digits tail op count' x y
  digits_agree zero y zero zero le le' = refl
  digits_agree zero y zero (suc count') le le' = refl
  digits_agree zero y (suc count) zero le le' = refl
  digits_agree zero y (suc count) (suc count') le le' = refl
  digits_agree (suc x) y zero count' le le' = absurd (omega (arith, le))
  digits_agree (suc x) y (suc count) zero le le' = absurd (omega (arith, le'))
  digits_agree (suc x) y (suc count) (suc count') le le' =
      let halves =
        digits_agree (suc x / 2) (y / 2) count count' (omega (arith, le)) (omega (arith, le')) in
      ap (λ high. high * 2 + op (suc x % 2) (y % 2)) halves

  -- One digit off a positive number.
  lowest :
      (x y : ℕ)
      → digits tail op (suc x) (suc x) y
        ≡ digits tail op (suc x / 2) (suc x / 2) (y / 2) * 2 + op (suc x % 2) (y % 2)
  lowest x y =
      let halves = digits_agree (suc x / 2) (y / 2) x (suc x / 2) (omega arith) (omega arith) in
      ap (λ high. high * 2 + op (suc x % 2) (y % 2)) halves

bit_and_digit : (x y : ℕ) → bit_and x y ≡ bit_and (x / 2) (y / 2) * 2 + min (x % 2) (y % 2)
bit_and_digit x y = rw (bit_and-bitwise x y, bit_and-bitwise (x / 2) (y / 2)) (by_digit x)
  where
    by_digit :
        (u : ℕ)
        → digits (λ _. 0) min u u y
          ≡ digits (λ _. 0) min (u / 2) (u / 2) (y / 2) * 2 + min (u % 2) (y % 2)
    by_digit zero = omega arith
    by_digit (suc u) = lowest (λ _. 0) min u y

bit_or_digit : (x y : ℕ) → bit_or x y ≡ bit_or (x / 2) (y / 2) * 2 + max (x % 2) (y % 2)
bit_or_digit x y = rw (bit_or-bitwise x y, bit_or-bitwise (x / 2) (y / 2)) (by_digit x)
  where
    by_digit :
        (u : ℕ)
        → digits (λ t. t) max u u y
          ≡ digits (λ t. t) max (u / 2) (u / 2) (y / 2) * 2 + max (u % 2) (y % 2)
    by_digit zero = omega arith
    by_digit (suc u) = lowest (λ t. t) max u y

no_digits : (count x : ℕ) → digits (λ _. 0) min count x 0 ≡ 0
no_digits zero x = refl
no_digits (suc count) zero = refl
no_digits (suc count) (suc x) = omega (arith, no_digits count (suc x / 2))

-- 2 ^ k and 2 ^ k - 1, by the binary digits.
power : ℕ → ℕ
power zero = 1
power (suc k) = 2 * power k

ones : ℕ → ℕ
ones zero = 0
ones (suc k) = 2 * ones k + 1

bit_and-ones : (k x q s : ℕ) → x ≡ q * power k + s → s < power k → bit_and x (ones k) ≡ s
unfolding power ones
bit_and-ones zero x q s e h = omega (arith, bit_and-bitwise x 0, no_digits x x)
bit_and-ones (suc k) x q s e h =
    let half : (2 * ones k + 1) / 2 ≡ ones k = omega arith in
    let rest : bit_and (x / 2) (ones k) ≡ s / 2 =
      bit_and-ones k (x / 2) q (s / 2) (omega arith) (omega arith) in
    omega (arith, bit_and_digit x (2 * ones k + 1), ap (λ m. bit_and (x / 2) m) half, rest)

bit_and-power :
    (k x b s : ℕ) → x ≡ b * power k + s → s < power k → b < 2 → bit_and x (power k) ≡ b * power k
unfolding power
bit_and-power zero x zero s e h lt = let n : x ≡ 0 = omega arith in rw n refl
bit_and-power zero x (suc zero) s e h lt = let n : x ≡ 1 = omega arith in rw n refl
bit_and-power zero x (suc (suc b)) s e h lt = absurd (omega arith)
bit_and-power (suc k) x b s e h lt =
    let half : 2 * power k / 2 ≡ power k = omega arith in
    let rest : bit_and (x / 2) (power k) ≡ b * power k =
      bit_and-power k (x / 2) b (s / 2) (omega arith) (omega arith) lt in
    omega (arith, bit_and_digit x (2 * power k), ap (λ m. bit_and (x / 2) m) half, rest)

bit_or-power : (k s : ℕ) → s < power k → bit_or s (power k) ≡ s + power k
unfolding power
bit_or-power zero s h = let n : s ≡ 0 = omega arith in rw n refl
bit_or-power (suc k) s h =
    let half : 2 * power k / 2 ≡ power k = omega arith in
    let rest : bit_or (s / 2) (power k) ≡ s / 2 + power k = bit_or-power k (s / 2) (omega arith) in
    omega (arith, bit_or_digit s (2 * power k), ap (λ m. bit_or (s / 2) m) half, rest)

-- A size word is deleted exactly when it is 0 or its top bit is set.
pub is_deleted-eq : (x : ℕ) → x < 2 ^ 32 → is_deleted x ≡ (leb delete_mask x || x == 0)
unfolding is_deleted power
is_deleted-eq x h =
    ground (
      arith,
      bit_and-power 31 x (x / 2 ^ 31) (x % 2 ^ 31) (omega arith) (omega arith) (omega arith),
    )

pub set_deleted_flag-add : (x : ℕ) → x < delete_mask → set_deleted_flag x ≡ x + delete_mask
unfolding set_deleted_flag power
set_deleted_flag-add x h = bit_or-power 31 x h

pub unset_deleted_flag-mod : (x : ℕ) → unset_deleted_flag x ≡ x % delete_mask
unfolding unset_deleted_flag power ones
unset_deleted_flag-mod x =
    bit_and-ones 31 x (x / delete_mask) (x % delete_mask) (omega arith) (omega arith)
