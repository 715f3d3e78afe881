-- ===== src/Bytes/Slices.antt =====
-- What `copy` and slices do, byte by byte.
use samehada_db.Base.{
  ℕ, zero, suc, ◌+◌, ◌-◌, ◌≤◌, List, [], ◌∷◌, get_or, take, drop, length, leb, ltb, ap,
  if◌then◌else◌, ◌&&◌, ◌≡◌, refl, arith, min, length-take, length-drop, ◌∙◌,
}
use samehada_db.Bytes.{copy_at, slice}

pub length-copy_at : (off : ℕ) (src dst : List ℕ) → length (copy_at off src dst) ≡ length dst
unfolding copy_at
length-copy_at off src [] = refl
length-copy_at zero [] (d ∷ dst) = refl
length-copy_at zero (s ∷ src) (d ∷ dst) = ap suc (length-copy_at zero src dst)
length-copy_at (suc off) src (d ∷ dst) = ap suc (length-copy_at off src dst)

pub get_or-copy_at :
    (off : ℕ) (src dst : List ℕ) (i : ℕ)
    → get_or (copy_at off src dst) i 0 ≡ (
        if leb off i && ltb i (off + length src) && ltb i (length dst)
        then get_or src (i - off) 0
        else get_or dst i 0)
unfolding copy_at
get_or-copy_at off src [] i = ground arith
get_or-copy_at zero [] (d ∷ dst) i = ground arith
get_or-copy_at zero (s ∷ src) (d ∷ dst) zero = ground arith
get_or-copy_at zero (s ∷ src) (d ∷ dst) (suc i) = ground (arith, get_or-copy_at zero src dst i)
get_or-copy_at (suc off) src (d ∷ dst) zero = ground arith
get_or-copy_at (suc off) src (d ∷ dst) (suc i) = ground (arith, get_or-copy_at off src dst i)

pub get_or-drop : (n : ℕ) (xs : List ℕ) (i : ℕ) → get_or (drop n xs) i 0 ≡ get_or xs (n + i) 0
get_or-drop zero xs i = ap (λ k. get_or xs k 0) (omega arith)
get_or-drop (suc n) [] i = ground arith
get_or-drop (suc n) (x ∷ xs) i =
    get_or-drop n xs i ∙ ap (λ k. get_or (x ∷ xs) k 0) {x = suc (n + i)} (omega arith)

pub get_or-take :
    (n : ℕ) (xs : List ℕ) (i : ℕ) → get_or (take n xs) i 0 ≡ (if ltb i n then get_or xs i 0 else 0)
get_or-take zero xs i = ground arith
get_or-take (suc n) [] i = ground arith
get_or-take (suc n) (x ∷ xs) zero = ground arith
get_or-take (suc n) (x ∷ xs) (suc i) = ground (arith, get_or-take n xs i)

pub get_or-past : (xs : List ℕ) (i : ℕ) → length xs ≤ i → get_or xs i 0 ≡ 0
get_or-past [] i h = refl
get_or-past (x ∷ xs) zero h = absurd (omega arith)
get_or-past (x ∷ xs) (suc i) h = get_or-past xs i (omega arith)

pub get_or-slice :
    (from to : ℕ) (xs : List ℕ) (i : ℕ)
    → get_or (slice from to xs) i 0 ≡ (if ltb i (to - from) then get_or xs (from + i) 0 else 0)
unfolding slice
get_or-slice from to xs i =
    ground (arith, get_or-take (to - from) (drop from xs) i, get_or-drop from xs i)

pub length-slice :
    (from to : ℕ) (xs : List ℕ) → length (slice from to xs) ≡ min (to - from) (length xs - from)
unfolding slice
length-slice from to xs = omega (arith, length-take (to - from) (drop from xs), length-drop from xs)

-- Two slices of one length with the same bytes are equal.
pub list_ext :
    (xs ys : List ℕ) → length xs ≡ length ys → ((i : ℕ) → get_or xs i 0 ≡ get_or ys i 0) → xs ≡ ys
list_ext [] [] e h = refl
list_ext [] (y ∷ ys) e h = absurd (omega arith)
list_ext (x ∷ xs) [] e h = absurd (omega arith)
list_ext (x ∷ xs) (y ∷ ys) e h =
    let rest : xs ≡ ys = list_ext xs ys (omega arith) (λ i. h (suc i)) in cc (h 0)
