-- ===== src/Tests/HashBlock.antt =====
-- A block that is empty, and a pair in its tenth slot.
use samehada_db.Base.{true, false, ◌≡◌, refl, arith}
use samehada_db.HashBlock.{HashTablePair, HashTableBlockPage, with_bit}
use samehada_db.HashBlock.Slots.{Inserts, insert_pair-Inserts, slot, present}

abbrev five : HashTablePair
five = record { key = 5; value = 50 }

abbrev empty_block : HashTableBlockPage
empty_block = record {
  occupied = λ byte bit. false;
  readable = λ byte bit. false;
  array = λ i. record { key = 0; value = 0 };
}

abbrev one_pair : HashTableBlockPage
one_pair = record {
  occupied = with_bit empty_block.occupied 9 true;
  readable = with_bit empty_block.readable 9 true;
  array = λ i. five;
}

one_pair-slot : slot one_pair 9 ≡ present five
unfolding with_bit
one_pair-slot = refl

insert_pair-Inserts_example : Inserts empty_block 9 five
insert_pair-Inserts_example = insert_pair-Inserts empty_block 9 five (omega arith)
