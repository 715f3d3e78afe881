-- ===== src/Lock/Tables.antt =====
-- What each operation of lock_manager.go does to the two tables, entry by entry.
use samehada_db.Base.{
  ℕ, true, false, ◌||◌, List, [], ◌∷◌, ◌++◌, Option, none, some, ◌==◌, arith, ◌≡◌, refl, ◌≢◌, ◌⊎◌,
}
use samehada_db.Ids.{Rid, rid_eq_iff, rid_eq_refl, update}
use samehada_db.Txn.{Transaction, is_contains_rid, is_shared_locked, is_exclusive_locked}
use samehada_db.Lock.{LockManager, remove_txn_id, is_contain_txn_id, lock_shared, lock_exclusive}

abbrev pub entry : Option (List ℕ) → List ℕ
entry none = []
entry (some arr) = arr

-- The transactions that the shared table names for a record.
abbrev pub sharers : LockManager → Rid → List ℕ
sharers lm rid = entry (lm.shared_lock_table rid)

abbrev pub Distinct : List ℕ → Type 0
Distinct [] = Unit {0}
Distinct (t ∷ list) = (is_contain_txn_id list t ≡ false) × Distinct list

pub contain-append :
    (list : List ℕ) (t u : ℕ)
    → is_contain_txn_id (list ++ t ∷ []) u ≡ (is_contain_txn_id list u || t == u)
unfolding is_contain_txn_id
contain-append [] t u = ground arith
contain-append (x ∷ list) t u = ground (arith, contain-append list t u)

pub Distinct-append :
    (list : List ℕ) (t : ℕ)
    → Distinct list
    → is_contain_txn_id list t ≡ false
    → Distinct (list ++ t ∷ [])
unfolding is_contain_txn_id
Distinct-append [] t d h = (refl, tt)
Distinct-append (x ∷ list) t d h =
    ground (arith, contain-append list t x, Distinct-append list t d.1)

pub contain-remove_ne :
    (list : List ℕ) (t u : ℕ)
    → t ≢ u
    → is_contain_txn_id (remove_txn_id list t) u ≡ is_contain_txn_id list u
unfolding is_contain_txn_id remove_txn_id
contain-remove_ne [] t u h = refl
contain-remove_ne (x ∷ list) t u h = ground (arith, contain-remove_ne list t u h)

pub contain-remove_self :
    (list : List ℕ) (t : ℕ) → Distinct list → is_contain_txn_id (remove_txn_id list t) t ≡ false
unfolding is_contain_txn_id remove_txn_id
contain-remove_self [] t d = refl
contain-remove_self (x ∷ list) t d = ground (arith, contain-remove_self list t d.1)

pub Distinct-remove : (list : List ℕ) (t : ℕ) → Distinct list → Distinct (remove_txn_id list t)
unfolding remove_txn_id
Distinct-remove [] t d = tt
Distinct-remove (x ∷ list) t d =
    ground (arith, Distinct-remove list t d.1, contain-remove_ne list t x)

pub contains_rid-append :
    (list : List Rid) (rid : Rid) → is_contains_rid (list ++ rid ∷ []) rid ≡ true
unfolding is_contains_rid
contains_rid-append [] rid = rw rid_eq_refl
contains_rid-append (r ∷ list) rid = ground (arith, contains_rid-append list rid)

module _ (lm : LockManager) (txn : Transaction) (rid : Rid) where
  pub exclusive-lock_shared :
      (r : Rid)
      → (lock_shared lm txn rid).manager.exclusive_lock_table r ≡ lm.exclusive_lock_table r
  unfolding lock_shared
  exclusive-lock_shared r = ground arith

  pub contain-lock_shared :
      (r : Rid) (u : ℕ)
      → is_contain_txn_id (sharers (lock_shared lm txn rid).manager r) u ≡ true
      → (is_contain_txn_id (sharers lm r) u ≡ true)
        ⊎ ((rid ≡ r)
            × (txn.txn_id ≡ u)
            × (lm.exclusive_lock_table r ≡ none)
            × (is_shared_locked (lock_shared lm txn rid).txn r ≡ true))
  unfolding lock_shared update is_contain_txn_id is_shared_locked
  contain-lock_shared r u h = ground (
    arith,
    rid_eq_iff rid r,
    contains_rid-append txn.shared_lock_set rid,
    contain-append (sharers lm rid) txn.txn_id u,
  )

  pub Distinct-lock_shared :
      (r : Rid) → Distinct (sharers lm r) → Distinct (sharers (lock_shared lm txn rid).manager r)
  unfolding lock_shared update is_contain_txn_id
  Distinct-lock_shared r d =
      ground (arith, rid_eq_iff rid r, Distinct-append (sharers lm r) txn.txn_id d)

  pub shared-lock_exclusive :
      (r : Rid) → (lock_exclusive lm txn rid).manager.shared_lock_table r ≡ lm.shared_lock_table r
  unfolding lock_exclusive
  shared-lock_exclusive r = ground arith

  -- A new exclusive entry is the request's own, and nobody shares the record.
  pub exclusive-lock_exclusive :
      (r : Rid) (t : ℕ)
      → (lock_exclusive lm txn rid).manager.exclusive_lock_table r ≡ some t
      → (lm.exclusive_lock_table r ≡ some t)
        ⊎ ((rid ≡ r)
            × (txn.txn_id ≡ t)
            × (sharers lm r ≡ [])
            × (is_exclusive_locked (lock_exclusive lm txn rid).txn r ≡ true))
  unfolding lock_exclusive update is_exclusive_locked
  exclusive-lock_exclusive r t h =
      ground (arith, rid_eq_iff rid r, contains_rid-append txn.exclusive_lock_set rid)
