-- ===== src/Tests/Lock.antt =====
-- The theorems about the lock manager at concrete tables: transaction 1 shares a record, and
-- transaction 2 asks for it.
use samehada_db.Base.{true, false, [], some, ◌≡◌, refl, ◌≢◌, ◌↔◌, arith, returns, panics, ◌⊎◌, none}
use samehada_db.Ids.{Rid, rid_eq, update}
use samehada_db.Txn.{new_transaction, is_shared_locked}
use samehada_db.Lock.{
  Reply, regular, prevention, new_lock_manager, lock_shared, lock_exclusive, lock_upgrade,
  release_locks, is_contain_txn_id,
}
use samehada_db.Lock.Tables.{sharers}
use samehada_db.Lock.Grants.{
  Unowned, MayRead, Granted, Upgrades, lock_shared_grants, lock_exclusive_grants,
  lock_upgrade_grants,
}
use samehada_db.Lock.System.{System, answer, start, shared, exclusive, here, next, IsConsistent}
use samehada_db.Lock.Exclusion.{lock_exclusion, release_frees, release_keeps_others}

abbrev r0 : Rid
r0 = record { page_id = 3; slot_num = 1 }

abbrev s0 : System
s0 = start regular prevention

abbrev s1 : System
s1 = answer s0 1 (lock_shared s0.manager (s0.txn_of 1) r0)

abbrev s2 : System
s2 = answer s1 2 (lock_exclusive s1.manager (s1.txn_of 2) r0)

shared_once : (lock_shared s0.manager (s0.txn_of 1) r0).granted ≡ true
unfolding lock_shared new_lock_manager
shared_once = refl

exclusive_refused : (lock_exclusive s1.manager (s1.txn_of 2) r0).granted ≡ false
unfolding lock_shared lock_exclusive new_lock_manager update rid_eq
exclusive_refused = refl

lock_exclusion_example : IsConsistent s2
lock_exclusion_example =
    lock_exclusion regular prevention s2 (next (next here (shared 1 r0)) (exclusive 2 r0))

release_frees_example :
    ((release_locks s2.manager (s2.txn_of 1)).exclusive_lock_table r0 ≢ some 1)
    × (is_contain_txn_id (sharers (release_locks s2.manager (s2.txn_of 1)) r0) 1 ≡ false)
release_frees_example =
    release_frees s2 1 r0
      (lock_exclusion regular prevention s2 (next (next here (shared 1 r0)) (exclusive 2 r0)))

release_keeps_others_example :
    (((release_locks s1.manager (new_transaction 2)).exclusive_lock_table r0 ≡ some 1)
      ↔ (s1.manager.exclusive_lock_table r0 ≡ some 1))
    × (is_contain_txn_id (sharers (release_locks s1.manager (new_transaction 2)) r0) 1
        ≡ is_contain_txn_id (sharers s1.manager r0) 1)
unfolding new_transaction
release_keeps_others_example =
    release_keeps_others s1.manager (new_transaction 2) r0 1 (omega arith)

lock_shared_grants_example :
    (((lock_shared s1.manager (new_transaction 2) r0).granted ≡ true)
      ↔ Unowned s1.manager r0 (new_transaction 2).txn_id)
    × Granted s1.manager (new_transaction 2) (lock_shared s1.manager (new_transaction 2) r0) (
        MayRead
          (lock_shared s1.manager (new_transaction 2) r0).manager
          r0
          (new_transaction 2).txn_id)
lock_shared_grants_example = lock_shared_grants s1.manager (new_transaction 2) r0

lock_exclusive_grants_example :
    (((lock_exclusive s1.manager (new_transaction 2) r0).granted ≡ true) ↔ (
      (s1.manager.exclusive_lock_table r0 ≡ some (new_transaction 2).txn_id)
      ⊎ ((s1.manager.exclusive_lock_table r0 ≡ none) × (sharers s1.manager r0 ≡ []))))
    × Granted s1.manager (new_transaction 2) (lock_exclusive s1.manager (new_transaction 2) r0) (
        (lock_exclusive s1.manager (new_transaction 2) r0).manager.exclusive_lock_table r0
        ≡ some (new_transaction 2).txn_id)
lock_exclusive_grants_example = lock_exclusive_grants s1.manager (new_transaction 2) r0

abbrev s3 : System
s3 = answer s1 2 (lock_shared s1.manager (s1.txn_of 2) r0)

lock_upgrade_grants_example :
    ((is_shared_locked (s3.txn_of 1) r0 ≡ false)
      × (lock_upgrade s3.manager (s3.txn_of 1) r0 ≡ panics))
    ⊎ ((is_shared_locked (s3.txn_of 1) r0 ≡ true)
        × ((reply : Reply) × (lock_upgrade s3.manager (s3.txn_of 1) r0 ≡ returns reply)
            × Upgrades s3.manager (s3.txn_of 1) r0 reply))
lock_upgrade_grants_example = lock_upgrade_grants s3.manager (s3.txn_of 1) r0
