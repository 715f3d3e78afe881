-- ===== src/Recovery/Decode.antt =====
-- Log records in the format of recovery/log_record.go, read back by `DeserializeLogRecord`.
use samehada_db.Base.{
  ℕ, suc, ◌+◌, ◌-◌, ◌≤◌, ◌<◌, List, [], ◌∷◌, ◌++◌, true, length, take, leb, Outcome, returns, check,
  ◌>>◌, ◌≡◌, refl, arith, ap, ◌∙◌, length-append,
}
use samehada_db.Txn.{Tuple}
use samehada_db.Bytes.{copy_at, le32, word32, slice, make_bytes}
use samehada_db.Log.{LogRecord, get_log_header_data}
use samehada_db.Recovery.{read_word, deserialize_from, read_log_header}

copy_all : (xs ys : List ℕ) → copy_at 0 (take (length xs) (xs ++ ys)) (make_bytes (length xs)) ≡ xs
unfolding copy_at
copy_all [] ys = refl
copy_all (x ∷ xs) ys = ap (λ t. x ∷ t) (copy_all xs ys)

pub seen_word :
    (v old : ℕ) (rest : List ℕ) (n : ℕ)
    → v < 4294967296
    → 4 ≤ n
    → read_word old (take n (le32 v ++ rest)) ≡ v
unfolding read_word le32 word32
seen_word v old rest (suc (suc (suc (suc n)))) h k = ground (arith, h)
seen_word v old rest n h k = absurd (omega arith)

module _ (t : Tuple) (bytes rest : List ℕ) where
  abbrev kept : List ℕ
  kept = le32 (length bytes) ++ (bytes ++ rest)

  abbrev reads : ℕ → Outcome Tuple
  reads m =
      check (leb (4 + m) (length kept))
      >> returns (record t { size = m; bytes = copy_at 0 (slice 4 (4 + m) kept) (make_bytes m) })

  kept_back : copy_at 0 (slice 4 (4 + length bytes) kept) (make_bytes (length bytes)) ≡ bytes
  unfolding slice le32
  kept_back =
      ap (λ m. copy_at 0 (take m (bytes ++ rest)) (make_bytes (length bytes)))
        {x = 4 + length bytes - 4} (omega arith)
      ∙ copy_all bytes rest

  kept_fits : leb (4 + length bytes) (length kept) ≡ true
  unfolding le32
  kept_fits = ground (arith, length-append bytes rest)

  pub deserialize_from-format :
      (n : ℕ)
      → length bytes < 4294967296
      → 4 ≤ n
      → deserialize_from t (record { backing = kept; visible = n })
        ≡ returns (record t { size = length bytes; bytes = bytes })
  unfolding deserialize_from
  deserialize_from-format n h k =
      ap reads (seen_word (length bytes) t.size (bytes ++ rest) n h k)
      ∙ rw (kept_fits, kept_back) refl

-- Words of 32 bits in the header, and a size that is not 0.
pub record IsHeader (r : LogRecord) : Type 0 where
  pub size_fits : r.size < 4294967296
  pub positive : 0 < r.size
  pub lsn_fits : r.lsn < 4294967296
  pub txn_fits : r.txn_id < 4294967296
  pub prev_fits : r.prev_lsn < 4294967296
  pub type_fits : r.log_record_type < 4294967296

abbrev pub headed : LogRecord → LogRecord → LogRecord
headed old r = record old {
  size = r.size;
  lsn = r.lsn;
  txn_id = r.txn_id;
  prev_lsn = r.prev_lsn;
  log_record_type = r.log_record_type;
}

pub read_log_header-format :
    (old r : LogRecord) (rest : List ℕ) (n : ℕ)
    → IsHeader r
    → read_log_header (record { backing = get_log_header_data r ++ rest; visible = n }) old
      ≡ headed old r
unfolding read_log_header get_log_header_data word32 le32
read_log_header-format old r rest n h =
    let e₀ : word32 (get_log_header_data r ++ rest) 0 ≡ r.size = omega (arith, h.size_fits) in
    let e₁ : word32 (get_log_header_data r ++ rest) 4 ≡ r.lsn = omega (arith, h.lsn_fits) in
    let e₂ : word32 (get_log_header_data r ++ rest) 8 ≡ r.txn_id = omega (arith, h.txn_fits) in
    let e₃ : word32 (get_log_header_data r ++ rest) 12 ≡ r.prev_lsn = omega (arith, h.prev_fits) in
    let e₄ : word32 (get_log_header_data r ++ rest) 16 ≡ r.log_record_type =
      omega (arith, h.type_fits) in
    λ i. record old {
      size = e₀ i;
      lsn = e₁ i;
      txn_id = e₂ i;
      prev_lsn = e₃ i;
      log_record_type = e₄ i;
    }
