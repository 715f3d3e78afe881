-- ===== src/HashTable.antt =====
-- container/hash/linear_probe_hash_table.go and its iterator: linear probing over the blocks that the
-- header page lists. The pages in the pool, which the code casts to a header and to blocks, are an interface,
-- Blocks; the murmur3 hash of a third party is a parameter. A loop is given its rounds, and answers none
-- where they are used up.
pub mod Packed
use samehada_db.Base.{
  ℕ, zero, suc, ◌+◌, ◌%◌, List, [], ◌∷◌, Bool, true, false, ◌&&◌, ◌==◌, leb, ltb, length,
  if◌then◌else◌, Option, none, some, Outcome, returns, ◌>>=◌, ◌>>◌, check,
}
use samehada_db.Bytes.{read_u32, u32}
use samehada_db.HashBlock.{
  HashTableHeaderPage, HashTableBlockPage, block_array_size, get_block_page_id, num_blocks,
  is_occupied, is_readable, key_at, value_at, insert_pair, remove_pair,
}

-- What the table asks of the buffer pool: FetchPage with the cast of the page, a write through the pointer,
-- UnpinPage.
pub record Blocks (S : Type 0) : Type 0 where
  pub fetch_header : S → ℕ → Outcome (HashTableHeaderPage × S)
  pub fetch_block : S → ℕ → Outcome (HashTableBlockPage × S)
  pub put_block : S → ℕ → HashTableBlockPage → S
  pub unpin_page : S → ℕ → Bool → Outcome S

pub record LinearProbeHashTable : Type 0 where
  pub header_page_id : ℕ

pub record HashTableIterator : Type 0 where
  pub bucket : ℕ
  pub offset : ℕ
  pub block_id : ℕ
  pub block_page : HashTableBlockPage

module _ {S : Type 0} (blocks : Blocks S) where
  unfoldable pub new_hash_table_iterator :
      S → HashTableHeaderPage → ℕ → ℕ → Outcome (HashTableIterator × S)
  new_hash_table_iterator s header bucket offset = do
    id ← get_block_page_id header bucket
    (page, s₁) ← blocks.fetch_block s id
    returns (record { bucket = bucket; offset = offset; block_id = id; block_page = page }, s₁)

  -- The slot behind the current one: in the next block, or the first one, where the block is full.
  unfoldable pub hash_iterator_next :
      S → HashTableHeaderPage → HashTableIterator → Outcome (HashTableIterator × S)
  hash_iterator_next s header itr =
      let offset = itr.offset + 1 in
      let bucket = if leb (num_blocks header) (itr.bucket + 1) then 0 else itr.bucket + 1 in
      if leb block_array_size offset
      then (do
        s₁ ← blocks.unpin_page s itr.block_id true
        new_hash_table_iterator s₁ header bucket 0)
      else returns (record itr { offset = offset }, s)

  unfoldable pub hash_of : (List ℕ → List ℕ) → List ℕ → Outcome ℕ
  hash_of sum128 key = do check (leb 4 (length (sum128 key))); returns (read_u32 (sum128 key))

  abbrev pub is_start : ℕ → ℕ → HashTableIterator → Bool
  is_start bucket offset itr = itr.bucket == bucket && itr.offset == offset

  -- Whether the current slot has this key and can be read.
  unfoldable pub has_key_at : HashTableIterator → ℕ → Outcome Bool
  has_key_at itr hash = do
    readable ← is_readable itr.block_page itr.offset
    key ← key_at itr.block_page itr.offset
    returns (readable && key == hash)

  -- The loop of `GetValue`.
  unfoldable pub find_values :
      ℕ
      → S
      → HashTableHeaderPage
      → ℕ
      → ℕ
      → ℕ
      → HashTableIterator
      → Outcome (Option (List ℕ × HashTableIterator × S))
  find_values zero s header hash bucket offset itr = returns none
  find_values (suc rounds) s header hash bucket offset itr = do
    taken ← is_occupied itr.block_page itr.offset
    elim taken [
      | false ↦ returns (some ([], itr, s))
      | true ↦ (do
        same ← has_key_at itr hash
        value ← value_at itr.block_page itr.offset
        (itr', s') ← hash_iterator_next s header itr
        elim (is_start bucket offset itr') [
          | true ↦ returns (some (if same then value ∷ [] else [], itr', s'))
          | false ↦ (do
            rest ← find_values rounds s' header hash bucket offset itr'
            elim rest [
              | none ↦ returns none
              | some (values, last, s'') ↦
                  returns (some (if same then value ∷ values else values, last, s''))
            ])
        ])
    ]

  -- The loop of `Insert`: whether there is an error, which the code gives for a slot that is in use with the same
  -- value, whatever its key is.
  unfoldable pub insert_probe :
      ℕ
      → S
      → HashTableHeaderPage
      → ℕ
      → ℕ
      → ℕ
      → ℕ
      → HashTableIterator
      → Outcome (Option (Bool × HashTableIterator × S))
  insert_probe zero s header hash value bucket offset itr = returns none
  insert_probe (suc rounds) s header hash value bucket offset itr = do
    taken ← is_occupied itr.block_page itr.offset
    elim taken [
      | false ↦ (do
        (_, page) ← insert_pair itr.block_page itr.offset hash value
        returns
            (some (false, record itr { block_page = page }, blocks.put_block s itr.block_id page)))
      | true ↦ (do
        old ← value_at itr.block_page itr.offset
        elim (old == value) [
          | true ↦ returns (some (true, itr, s))
          | false ↦ (do
            (itr', s') ← hash_iterator_next s header itr
            elim (is_start bucket offset itr') [
              | true ↦ returns (some (false, itr', s'))
              | false ↦ insert_probe rounds s' header hash value bucket offset itr'
            ])
        ])
    ]

  -- The loop of `Remove`; the write through the pointer is seen by the iterator.
  unfoldable pub remove_probe :
      ℕ
      → S
      → HashTableHeaderPage
      → ℕ
      → ℕ
      → ℕ
      → ℕ
      → HashTableIterator
      → Outcome (Option (HashTableIterator × S))
  remove_probe zero s header hash value bucket offset itr = returns none
  remove_probe (suc rounds) s header hash value bucket offset itr = do
    taken ← is_occupied itr.block_page itr.offset
    elim taken [
      | false ↦ returns (some (itr, s))
      | true ↦ (do
        key ← key_at itr.block_page itr.offset
        old ← value_at itr.block_page itr.offset
        page ←
            if key == hash && old == value
            then remove_pair itr.block_page itr.offset
            else returns itr.block_page
        (itr', s') ←
            hash_iterator_next (blocks.put_block s itr.block_id page) header
              (record itr { block_page = page })
        elim (is_start bucket offset itr') [
          | true ↦ returns (some (itr', s'))
          | false ↦ remove_probe rounds s' header hash value bucket offset itr'
        ])
    ]

  -- What the three operations begin with: the header, the hash, and the iterator at its slot.
  pub record Probe : Type 0 where
    pub header : HashTableHeaderPage
    pub hash : ℕ
    pub itr : HashTableIterator
    pub state : S

  unfoldable pub start_probe : (List ℕ → List ℕ) → LinearProbeHashTable → S → List ℕ → Outcome Probe
  start_probe sum128 ht s key = do
    (header, s₁) ← blocks.fetch_header s ht.header_page_id
    hash ← hash_of sum128 key
    check (ltb 0 (num_blocks header))
    (itr, s₂) ←
        new_hash_table_iterator s₁ header (hash % num_blocks header) (hash % block_array_size)
    returns (record { header = header; hash = hash; itr = itr; state = s₂ })

  unfoldable pub end_probe : LinearProbeHashTable → HashTableIterator → S → Outcome S
  end_probe ht itr s = do
    s₁ ← blocks.unpin_page s itr.block_id true
    blocks.unpin_page s₁ ht.header_page_id false

  unfoldable pub get_values :
      (List ℕ → List ℕ) → ℕ → LinearProbeHashTable → S → List ℕ → Outcome (Option (List ℕ × S))
  get_values sum128 rounds ht s key = do
    p ← start_probe sum128 ht s key
    found ← find_values rounds p.state p.header p.hash p.itr.bucket p.itr.offset p.itr
    elim found [
      | none ↦ returns none
      | some (values, itr, s₁) ↦ (do s₂ ← end_probe ht itr s₁; returns (some (values, s₂)))
    ]

  unfoldable pub insert_value :
      (List ℕ → List ℕ) → ℕ → LinearProbeHashTable → S → List ℕ → ℕ → Outcome (Option (Bool × S))
  insert_value sum128 rounds ht s key value = do
    p ← start_probe sum128 ht s key
    placed ← insert_probe rounds p.state p.header p.hash value p.itr.bucket p.itr.offset p.itr
    elim placed [
      | none ↦ returns none
      | some (error, itr, s₁) ↦ (do s₂ ← end_probe ht itr s₁; returns (some (error, s₂)))
    ]

  unfoldable pub remove_value :
      (List ℕ → List ℕ) → ℕ → LinearProbeHashTable → S → List ℕ → ℕ → Outcome (Option S)
  remove_value sum128 rounds ht s key value = do
    p ← start_probe sum128 ht s key
    removed ← remove_probe rounds p.state p.header p.hash value p.itr.bucket p.itr.offset p.itr
    elim removed [
      | none ↦ returns none
      | some (itr, s₁) ↦ (do s₂ ← end_probe ht itr s₁; returns (some s₂))
    ]
