-- ===== src/Tests/HashTable.antt =====
-- A record identifier whose page number has more than 16 bits.
use samehada_db.Base.{◌≡◌}
use samehada_db.Ids.{Rid}
use samehada_db.HashTable.Packed.{pack_rid, unpack_rid, unpack_rid-pack_rid}

abbrev far_rid : Rid
far_rid = record { page_id = 65539; slot_num = 7 }

unpack_rid-pack_rid_example :
    ((unpack_rid (pack_rid far_rid)).page_id ≡ 3) × ((unpack_rid (pack_rid far_rid)).slot_num ≡ 7)
unpack_rid-pack_rid_example = unpack_rid-pack_rid far_rid
