-- ===== src/Tests/Disk.antt =====
-- A page written to an empty file.
use samehada_db.Base.{[], replicate, arith, length-replicate, ℕ}
use samehada_db.Disk.{DiskManager, new_disk_manager}
use samehada_db.Disk.Pages.{Keeps, write_page-Keeps}

abbrev empty_file : DiskManager
empty_file = new_disk_manager []

write_page-Keeps_example : Keeps empty_file 5 (replicate 4096 7)
write_page-Keeps_example =
    write_page-Keeps empty_file 5 (replicate 4096 7) (omega arith) (length-replicate {A = ℕ} 4096 7)
