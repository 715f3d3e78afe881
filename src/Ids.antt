-- ===== src/Ids.antt =====
-- storage/page/rid.go, types/page_id.go: record identifiers and page identifiers. A signed 32-bit
-- identifier is its bit pattern, a number below 2 ^ 32, so that -1 is 2 ^ 32 - 1.
use samehada_db.Base.{
  ℕ, ◌-◌, ◌^◌, ◌≡◌, refl, ◌↔◌, Bool, true, ◌&&◌, ◌||◌, not, arith, ◌==◌, ltb, if◌then◌else◌, Option,
}

abbrev pub invalid_id : ℕ
invalid_id = 2 ^ 32 - 1

-- The sign bit of a 32-bit pattern is clear.
abbrev pub is_nonneg : ℕ → Bool
is_nonneg x = ltb x (2 ^ 31)

unfoldable pub is_valid : ℕ → Bool
is_valid id = not (id == invalid_id) || is_nonneg id

pub record Rid : Type 0 where
  pub page_id : ℕ
  pub slot_num : ℕ

-- `==` on the struct.
unfoldable pub rid_eq : Rid → Rid → Bool
rid_eq a b = a.page_id == b.page_id && a.slot_num == b.slot_num

pub rid_eq_iff : (a b : Rid) → (rid_eq a b ≡ true) ↔ (a ≡ b)
unfolding rid_eq
rid_eq_iff a b = ground arith

pub rid_eq_refl : (a : Rid) → rid_eq a a ≡ true
rid_eq_refl a = (rid_eq_iff a a).1 refl

-- Maps keyed by `Rid`: `m[k] = v` and `delete(m, k)` are `update m k (some v)` and `update m k none`.
abbrev pub RidMap {ℓ} : Type ℓ → Type ℓ
RidMap V = Rid → Option V

unfoldable pub update {ℓ} : {V : Type ℓ} → RidMap V → Rid → Option V → RidMap V
update m k v j = if rid_eq k j then v else m j
