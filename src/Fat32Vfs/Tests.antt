-- ===== src/Fat32Vfs/Tests.antt =====
-- Files and boot sectors of FAT32, on examples.
use asynclear.Prelude.{
  ℕ, ◌+◌, ◌-◌, ◌*◌, ◌≤◌, ◌<◌, ◌≡◌, refl, min, [], ◌∷◌, tabulate, ok, arith, true,
}
use asynclear.Fs.Inode.{InodeMeta, regular, read_at}
use asynclear.Fs.Inode.Content.{ReadsFile, byte_at}
use asynclear.Fat32.Bpb.{BiosParameterBlock}
use asynclear.Fat32.Fat.{FileAllocTable, cluster_sectors}
use asynclear.Fat32Vfs.File.{FatFile, read_inode_at}
use asynclear.Fat32Vfs.File.Backing.{file_byte, read_at-FatFile, read_inode_at-ReadsFile}
use asynclear.Fat32Vfs.Validity.{is_valid_fat32_bpb, is_valid_fat32_bpb_lem}

-- Clusters of four sectors, of which the file has 5 and 3.
abbrev small_table : FileAllocTable
small_table = record {
  data_start_sector_id = 100;
  sector_per_cluster = 4;
  data_clusters_count = 8;
  alloc_meta = record { free_count = 6; next_free = 2 };
  fat_entries = 0 ∷ 0 ∷ 0 ∷ 0x0fff_ffff ∷ 0 ∷ 3 ∷ 0 ∷ 0 ∷ 0 ∷ 0 ∷ [];
}

abbrev small_file : FatFile
small_file = record {
  meta = record {
    ino = 1;
    mode = regular;
    page_cache = record { pages = []; free_frames = 4 };
    data_len = 3000;
    access_time = 0;
    modify_time = 0;
    change_time = 0;
  };
  clusters = 5 ∷ 3 ∷ [];
}

abbrev numbered : ℕ → ℕ → ℕ
numbered id i = id * 1000 + i

read_inode_at-ReadsFile_example :
    ReadsFile
      (read_inode_at numbered small_table small_file)
      (file_byte numbered small_table small_file)
      3000
read_inode_at-ReadsFile_example =
    read_inode_at-ReadsFile numbered small_table small_file 3000 (omega arith) (omega arith)
      ((omega arith, omega arith), ((omega arith, omega arith), tt)) (omega arith) (omega arith)

read_at-FatFile_example :
    (s' : InodeMeta) × (read_at
        (read_inode_at numbered small_table small_file)
        (λ a b. ok tt)
        4096
        1000
        7
        small_file.meta
      ≡ (
        ok (tabulate (file_byte numbered small_table small_file) 1000 (min 4096 (3000 - 1000))),
        s',
      ))
    × ((x : ℕ)
        → x < 3000
        → byte_at (file_byte numbered small_table small_file) s' x
          ≡ file_byte numbered small_table small_file x)
    × (s'.data_len ≡ 3000)
read_at-FatFile_example =
    read_at-FatFile numbered small_table small_file (λ a b. ok tt) 4096 1000 7 (omega arith)
      (omega arith) ((omega arith, omega arith), ((omega arith, omega arith), tt)) (omega arith)
      (omega arith) (λ a b. refl) refl (omega arith)

abbrev disk_bpb : BiosParameterBlock
disk_bpb = record {
  system_id = [];
  sector_size = 512;
  sector_per_cluster = 1;
  reserved_sector_count = 32;
  fat_count = 2;
  root_entry_count = 0;
  sector_count = 0;
  media = 0xf8;
  fat_length = 0;
  sector_per_track = 32;
  head_count = 8;
  hidden_sector_count = 0;
  total_sector_count = 70000;
  fat32_length = 600;
  ext_flags = 0;
  version = 0;
  root_cluster = 2;
  info_sector = 1;
  backup_boot = 6;
}

abbrev disk_table : FileAllocTable
disk_table = record small_table {
  data_start_sector_id = 1232;
  sector_per_cluster = 1;
  data_clusters_count = 68768;
}

disk_bpb_valid : is_valid_fat32_bpb disk_bpb ≡ ok true
unfolding is_valid_fat32_bpb
disk_bpb_valid = refl

is_valid_fat32_bpb_lem_example :
    (first : ℕ) × (cluster_sectors disk_table 9 ≡ ok (first, first + 1))
    × (1232 ≤ first)
    × (first + 1 ≤ 70000)
    × (0 < 1)
    × (1 ≤ 128)
    × (2 ≤ 2)
    × (2 < 68768 + 2)
is_valid_fat32_bpb_lem_example =
    is_valid_fat32_bpb_lem disk_bpb disk_table 9 disk_bpb_valid (omega arith) refl refl refl
      (omega arith) (omega arith)
