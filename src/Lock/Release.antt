-- ===== src/Lock/Release.antt =====
-- `Unlock` of lock_manager.go and `releaseLocks` of transaction_manager.go: what is released, and
-- what is left alone.
use samehada_db.Base.{
  ℕ, true, false, List, [], ◌∷◌, some, arith, ◌≡◌, refl, ◌≢◌, ◌↔◌, sym, ◌∙◌, ◌∙◌,
}
use samehada_db.Ids.{Rid, rid_eq_iff, update}
use samehada_db.Txn.{Transaction, is_contains_rid}
use samehada_db.Lock.{LockManager, remove_txn_id, is_contain_txn_id, unlock_one, unlock}
use samehada_db.Lock.Tables.{
  sharers, Distinct, contain-remove_ne, contain-remove_self, Distinct-remove,
}

module _ (lm : LockManager) (id : ℕ) (rid : Rid) where
  Distinct-unlock_one :
      (r : Rid) → Distinct (sharers lm r) → Distinct (sharers (unlock_one lm id rid) r)
  unfolding unlock_one update
  Distinct-unlock_one r d = ground (arith, rid_eq_iff rid r, Distinct-remove (sharers lm r) id d)

  exclusive-unlock_one_ne :
      (r : Rid) (u : ℕ)
      → u ≢ id
      → ((unlock_one lm id rid).exclusive_lock_table r ≡ some u)
        ↔ (lm.exclusive_lock_table r ≡ some u)
  unfolding unlock_one update
  exclusive-unlock_one_ne r u h = ground (arith, rid_eq_iff rid r)

  contain-unlock_one_ne :
      (r : Rid) (u : ℕ)
      → u ≢ id
      → is_contain_txn_id (sharers (unlock_one lm id rid) r) u ≡ is_contain_txn_id (sharers lm r) u
  unfolding unlock_one update
  contain-unlock_one_ne r u h =
      ground (arith, rid_eq_iff rid r, contain-remove_ne (sharers lm r) id u (λ e. h (sym e)))

  -- What the transaction held after the round it held before, of another record.
  exclusive-unlock_one :
      (r : Rid)
      → (unlock_one lm id rid).exclusive_lock_table r ≡ some id
      → (lm.exclusive_lock_table r ≡ some id) × (rid ≢ r)
  unfolding unlock_one update
  exclusive-unlock_one r h = ground (arith, rid_eq_iff rid r)

  contain-unlock_one :
      (r : Rid)
      → Distinct (sharers lm r)
      → is_contain_txn_id (sharers (unlock_one lm id rid) r) id ≡ true
      → (is_contain_txn_id (sharers lm r) id ≡ true) × (rid ≢ r)
  unfolding unlock_one update is_contain_txn_id
  contain-unlock_one r d h =
      ground (arith, rid_eq_iff rid r, contain-remove_self (sharers lm r) id d)

module _ (txn : Transaction) where
  pub Distinct-unlock :
      (lm : LockManager) (rids : List Rid) (r : Rid)
      → Distinct (sharers lm r)
      → Distinct (sharers (unlock lm txn rids) r)
  unfolding unlock
  Distinct-unlock lm [] r d = d
  Distinct-unlock lm (rid ∷ rids) r d =
      Distinct-unlock (unlock_one lm txn.txn_id rid) rids r
        (Distinct-unlock_one lm txn.txn_id rid r d)

  -- What the transaction still holds exclusively after `Unlock` is not in the list.
  pub exclusive-unlock :
      (lm : LockManager) (rids : List Rid) (r : Rid)
      → (unlock lm txn rids).exclusive_lock_table r ≡ some txn.txn_id
      → (lm.exclusive_lock_table r ≡ some txn.txn_id) × (is_contains_rid rids r ≡ false)
  unfolding unlock is_contains_rid
  exclusive-unlock lm [] r h = (h, refl)
  exclusive-unlock lm (rid ∷ rids) r h =
      let rest = exclusive-unlock (unlock_one lm txn.txn_id rid) rids r h in
      let first = exclusive-unlock_one lm txn.txn_id rid r rest.0 in
      ground (arith, rid_eq_iff r rid)

  -- So for the records that it still shares.
  pub contain-unlock :
      (lm : LockManager) (rids : List Rid) (r : Rid)
      → Distinct (sharers lm r)
      → is_contain_txn_id (sharers (unlock lm txn rids) r) txn.txn_id ≡ true
      → (is_contain_txn_id (sharers lm r) txn.txn_id ≡ true) × (is_contains_rid rids r ≡ false)
  unfolding unlock is_contains_rid
  contain-unlock lm [] r d h = (h, refl)
  contain-unlock lm (rid ∷ rids) r d h =
      let d' = Distinct-unlock_one lm txn.txn_id rid r d in
      let rest = contain-unlock (unlock_one lm txn.txn_id rid) rids r d' h in
      let first = contain-unlock_one lm txn.txn_id rid r d rest.0 in
      ground (arith, rid_eq_iff r rid)

  -- `Unlock` takes nothing from any other transaction, and gives it nothing.
  pub unlock_others :
      (lm : LockManager) (rids : List Rid) (r : Rid) (u : ℕ)
      → u ≢ txn.txn_id
      → (((unlock lm txn rids).exclusive_lock_table r ≡ some u)
          ↔ (lm.exclusive_lock_table r ≡ some u))
        × (is_contain_txn_id (sharers (unlock lm txn rids) r) u
            ≡ is_contain_txn_id (sharers lm r) u)
  unfolding unlock
  unlock_others lm [] r u h = (((λ e. e), (λ e. e)), refl)
  unlock_others lm (rid ∷ rids) r u h =
      let (ex, sh) = unlock_others (unlock_one lm txn.txn_id rid) rids r u h in
      let here = exclusive-unlock_one_ne lm txn.txn_id rid r u h in
      (
        ((λ e. here.0 (ex.0 e)), (λ e. ex.1 (here.1 e))),
        sh ∙ contain-unlock_one_ne lm txn.txn_id rid r u h,
      )

contain-remove :
    (list : List ℕ) (t u : ℕ)
    → is_contain_txn_id (remove_txn_id list t) u ≡ true
    → is_contain_txn_id list u ≡ true
unfolding is_contain_txn_id remove_txn_id
contain-remove [] t u h = h
contain-remove (x ∷ list) t u h = ground (arith, contain-remove list t u)

unlock_one_shrinks :
    (lm : LockManager) (id : ℕ) (rid r : Rid) (u : ℕ)
    → ((unlock_one lm id rid).exclusive_lock_table r ≡ some u → lm.exclusive_lock_table r ≡ some u)
      × (is_contain_txn_id (sharers (unlock_one lm id rid) r) u ≡ true
          → is_contain_txn_id (sharers lm r) u ≡ true)
unfolding unlock_one update
unlock_one_shrinks lm id rid r u = (
  (λ h. ground (arith, rid_eq_iff rid r)),
  (λ h. ground (arith, rid_eq_iff rid r, contain-remove (sharers lm r) id u)),
)

-- `Unlock` adds nothing to the tables.
pub unlock_shrinks :
    (txn : Transaction) (lm : LockManager) (rids : List Rid) (r : Rid) (u : ℕ)
    → ((unlock lm txn rids).exclusive_lock_table r ≡ some u → lm.exclusive_lock_table r ≡ some u)
      × (is_contain_txn_id (sharers (unlock lm txn rids) r) u ≡ true
          → is_contain_txn_id (sharers lm r) u ≡ true)
unfolding unlock
unlock_shrinks txn lm [] r u = ((λ h. h), (λ h. h))
unlock_shrinks txn lm (rid ∷ rids) r u =
    let (ex, sh) = unlock_shrinks txn (unlock_one lm txn.txn_id rid) rids r u in
    let one = unlock_one_shrinks lm txn.txn_id rid r u in ((λ h. one.0 (ex h)), (λ h. one.1 (sh h)))
