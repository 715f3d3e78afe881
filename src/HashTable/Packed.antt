-- ===== src/HashTable/Packed.antt =====
-- storage/index/linear_probe_hash_table_index.go: a record identifier as the value of an entry.
use samehada_db.Base.{ℕ, ◌%◌, [], ◌∷◌, ◌++◌, take, drop, ◌≡◌, arith}
use samehada_db.Ids.{Rid}
use samehada_db.Bytes.{le32, read_u32, word32}

-- `PackRIDtoUint32`: the first two bytes of each of the two words.
unfoldable pub pack_rid : Rid → ℕ
pack_rid rid = read_u32 (take 2 (le32 rid.page_id) ++ take 2 (le32 rid.slot_num))

-- `UnpackUint32toRID`: two bytes in front of two zeros.
unfoldable pub unpack_rid : ℕ → Rid
unpack_rid value = record {
  page_id = read_u32 (take 2 (le32 value) ++ (0 ∷ 0 ∷ []));
  slot_num = read_u32 (take 2 (drop 2 (le32 value)) ++ (0 ∷ 0 ∷ []));
}

-- What comes back from the packed form of a record identifier are the low 16 bits of its page number and of
-- its slot number.
pub unpack_rid-pack_rid :
    (rid : Rid)
    → ((unpack_rid (pack_rid rid)).page_id ≡ rid.page_id % 65536)
      × ((unpack_rid (pack_rid rid)).slot_num ≡ rid.slot_num % 65536)
unfolding unpack_rid pack_rid le32 read_u32 word32
unpack_rid-pack_rid rid = (omega arith, omega arith)
