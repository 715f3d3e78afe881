-- ===== src/TablePage/Walk.antt =====
-- `GetTupleFirstRID` and `GetNextTupleRID` of storage/access/table_page.go on the slots of a page.
use samehada_db.Base.{
  ℕ, zero, suc, ◌+◌, ◌-◌, ◌≤◌, ◌<◌, List, Bool, true, false, ◌==◌, ltb, leb, if◌then◌else◌, Option,
  none, some, Outcome, returns, ◌≡◌, ◌≢◌, refl, arith, inl, inr, ap, ◌∙◌, subst, Bool-cases,
}
use samehada_db.Ids.{Rid}
use samehada_db.Bytes.{u32}
use samehada_db.Page.{Page, get_tuple_count, get_tuple_size, get_table_page_id, delete_mask}
use samehada_db.Page.Slots.{count_of, size_of, get_tuple_count-count, get_tuple_size-size}
use samehada_db.TablePage.{find_tuple, get_tuple_first_rid, get_next_tuple_rid}
use samehada_db.TablePage.View.{Slot, free, slot_of, stored, tuple_bytes, IsSound}

-- The answer of a walk from one slot to before another: the first slot that is not free, or nothing.
pub data FirstUsed (p : Page) (start stop : ℕ) : Option Rid → Type 0 where
  all_free : ((i : ℕ) → start ≤ i → i < stop → stored p i ≡ free) → FirstUsed p start stop none
  first_used :
      (i : ℕ)
      → start ≤ i
      → i < stop
      → stored p i ≢ free
      → ((j : ℕ) → start ≤ j → j < i → stored p j ≡ free)
      → FirstUsed p start stop (some (record { page_id = get_table_page_id p; slot_num = i }))

clash : {x : Bool} → x ≡ false → x ≡ true → ⊥
clash h k = cc

slot_is_free : (size : ℕ) (bytes : List ℕ) → ltb 0 size ≡ false → slot_of size bytes ≡ free
slot_is_free size bytes h = let empty : (size == 0) ≡ true = ground arith in rw empty refl

is_free : Slot → Bool
is_free free = true
is_free _ = false

slot_is_used :
    (size : ℕ) (bytes : List ℕ) → ltb 0 size ≡ true → is_free (slot_of size bytes) ≡ false
unfolding is_free
slot_is_used size bytes h =
    let full : (size == 0) ≡ false = ground arith in
    elim (Bool-cases (leb delete_mask size)) [
      | inl big ↦ rw (full, big) refl
      | inr small ↦ rw (full, small) refl
    ]

stored-within :
    (p : Page) (i : ℕ) → i < count_of p → stored p i ≡ slot_of (size_of p i) (tuple_bytes p i)
unfolding stored
stored-within p i h = let inside : ltb i (count_of p) ≡ true = ground (arith, h) in rw inside refl

used_ne_free : (s : Slot) → is_free s ≡ false → s ≢ free
unfolding is_free
used_ne_free s h same = let so : is_free s ≡ true = ap is_free same in absurd (clash h so)

same_number : (m n : ℕ) → (m == n) ≡ true → m ≡ n
same_number m n h = ground arith

other_number : (m n : ℕ) → (m == n) ≡ false → m ≤ n → m + 1 ≤ n
other_number m n h k = ground arith

later :
    (p : Page) (start i : ℕ)
    → stored p start ≡ free
    → (start + 1 ≤ i → stored p i ≡ free)
    → start ≤ i
    → stored p i ≡ free
later p start i here behind low = elim (Bool-cases (start == i)) [
  | inl same ↦ subst (λ x. stored p x ≡ free) (same_number start i same) here
  | inr other ↦ behind (other_number start i other low)
]

widen :
    (p : Page) (start stop : ℕ) (answer : Option Rid)
    → stored p start ≡ free
    → FirstUsed p (start + 1) stop answer
    → FirstUsed p start stop answer
widen p start stop none here (all_free rest) =
    all_free (λ i low high. later p start i here (λ low'. rest i low' high) low)
widen p start stop answer here (first_used i low high used rest) =
    first_used i (omega (arith, low)) high used
      (λ j low' high'. later p start j here (λ low''. rest j low'' high') low')

-- The rest of a round, by whether the slot is used.
abbrev after_test : ℕ → Page → ℕ → Bool → Outcome (Option Rid)
after_test rounds p start is_used = elim is_used [
  | true ↦ returns (some (record { page_id = get_table_page_id p; slot_num = start }))
  | false ↦ find_tuple rounds p (start + 1)
]

find_tuple-hit :
    (rounds : ℕ) (p : Page) (start size : ℕ)
    → get_tuple_size p start ≡ returns size
    → ltb 0 size ≡ true
    → find_tuple (suc rounds) p start
      ≡ returns (some (record { page_id = get_table_page_id p; slot_num = start }))
unfolding find_tuple
find_tuple-hit rounds p start size at used = rw at (ap (after_test rounds p start) used)

find_tuple-miss :
    (rounds : ℕ) (p : Page) (start size : ℕ)
    → get_tuple_size p start ≡ returns size
    → ltb 0 size ≡ false
    → find_tuple (suc rounds) p start ≡ find_tuple rounds p (start + 1)
unfolding find_tuple
find_tuple-miss rounds p start size at unused = rw at (ap (after_test rounds p start) unused)

find_tuple-FirstUsed :
    (rounds : ℕ) (p : Page) (start : ℕ)
    → IsSound p
    → start + rounds ≤ count_of p
    → (answer : Option Rid) × (find_tuple rounds p start ≡ returns answer)
      × FirstUsed p start (start + rounds) answer
unfolding find_tuple
find_tuple-FirstUsed zero p start s h =
    (none, refl, all_free (λ i low high. absurd (omega (arith, low, high))))
find_tuple-FirstUsed (suc rounds) p start s h =
    let size = get_tuple_size-size p s.page start (omega (arith, h, s.slots_fit, s.pointer_fits)) in
    let within = stored-within p start (omega (arith, h)) in
    elim (Bool-cases (ltb 0 (size_of p start))) [
      | inl used ↦ (
        some (record { page_id = get_table_page_id p; slot_num = start }),
        find_tuple-hit rounds p start (size_of p start) size used,
        first_used start (omega arith) (omega arith)
            (used_ne_free (stored p start)
              (ap is_free within ∙ slot_is_used (size_of p start) (tuple_bytes p start) used))
            (λ j low high. absurd (omega (arith, low, high))),
      )
      | inr unused ↦
          let (answer, ran, ends) =
            find_tuple-FirstUsed rounds p (start + 1) s (omega (arith, h)) in
          let here : stored p start ≡ free =
            within ∙ slot_is_free (size_of p start) (tuple_bytes p start) unused in
          let stop : start + 1 + rounds ≡ start + suc rounds = omega arith in
          (
            answer,
            find_tuple-miss rounds p start (size_of p start) size unused ∙ ran,
            widen p start (start + suc rounds) answer here
                (subst (λ n. FirstUsed p (start + 1) n answer) stop ends),
          )
    ]

-- The walk to the end of the slots.
walk :
    (p : Page) (start : ℕ)
    → IsSound p
    → start ≤ count_of p
    → (answer : Option Rid) × (find_tuple (count_of p - start) p start ≡ returns answer)
      × FirstUsed p start (count_of p) answer
walk p start s h =
    let (answer, ran, ends) =
      find_tuple-FirstUsed (count_of p - start) p start s (omega (arith, h)) in
    let stop : start + (count_of p - start) ≡ count_of p = omega (arith, h) in
    (answer, ran, subst (λ m. FirstUsed p start m answer) stop ends)

-- `GetTupleFirstRID` of a sound page returns the record identifier of the first slot that is not free, be
-- its tuple marked as deleted or not, or nothing where every slot is free.
pub get_tuple_first_rid-FirstUsed :
    (p : Page)
    → IsSound p
    → (answer : Option Rid) × (get_tuple_first_rid p ≡ returns answer)
      × FirstUsed p 0 (count_of p) answer
unfolding get_tuple_first_rid
get_tuple_first_rid-FirstUsed p s =
    let (answer, ran, ends) = walk p 0 s (omega arith) in
    let rounds : get_tuple_count p ≡ count_of p - 0 =
      get_tuple_count-count p s.page ∙ omega arith in
    (answer, ap (λ n. find_tuple n p 0) rounds ∙ ran, ends)

-- `GetNextTupleRID` of a sound page returns the record identifier of the first slot behind the given one, or
-- of the whole page where it is the next page, that is not free, be its tuple marked as deleted or not,
-- or nothing where there is none.
pub get_next_tuple_rid-FirstUsed :
    (p : Page) (rid : Rid) (is_next_page : Bool)
    → IsSound p
    → rid.slot_num < count_of p
    → (answer : Option Rid) × (get_next_tuple_rid p rid is_next_page ≡ returns answer)
      × FirstUsed p (if is_next_page then 0 else rid.slot_num + 1) (count_of p) answer
unfolding get_next_tuple_rid
get_next_tuple_rid-FirstUsed p rid true s h =
    let (answer, ran, ends) = walk p 0 s (omega arith) in
    let rounds : get_tuple_count p - 0 ≡ count_of p - 0 =
      ap (λ n. n - 0) (get_tuple_count-count p s.page) in
    (answer, ap (λ n. find_tuple n p 0) rounds ∙ ran, ends)
get_next_tuple_rid-FirstUsed p rid false s h =
    let n = rid.slot_num + 1 in
    let small : u32 n ≡ n = omega (arith, h, s.slots_fit, s.pointer_fits) in
    let (answer, ran, ends) = walk p n s (omega (arith, h)) in
    let same : find_tuple (get_tuple_count p - u32 n) p (u32 n) ≡ find_tuple (count_of p - n) p n =
      ap (λ m. find_tuple (get_tuple_count p - m) p m) small
      ∙ ap (λ c. find_tuple (c - n) p n) (get_tuple_count-count p s.page) in
    (answer, same ∙ ran, ends)
