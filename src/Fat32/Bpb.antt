-- ===== src/Fat32/Bpb.antt =====
-- `BiosParameterBlock` of crates/utils/fat32/src/bpb.rs.
use asynclear.Prelude.{
  ℕ, ◌+◌, ◌-◌, ◌≡◌, refl, List, ◌==◌, take, drop, KResult, ok, err, einval, ◌>>◌, assert, ensure,
  if◌then◌else◌, Bool-cases, inl, inr,
}
use asynclear.Fat32.Bytes.{byte_at, le16, le32}

pub record BiosParameterBlock : Type 0 where
  pub system_id : List ℕ
  pub sector_size : ℕ
  pub sector_per_cluster : ℕ
  pub reserved_sector_count : ℕ
  pub fat_count : ℕ
  pub root_entry_count : ℕ
  pub sector_count : ℕ
  pub media : ℕ
  pub fat_length : ℕ
  pub sector_per_track : ℕ
  pub head_count : ℕ
  pub hidden_sector_count : ℕ
  pub total_sector_count : ℕ
  pub fat32_length : ℕ
  pub ext_flags : ℕ
  pub version : ℕ
  pub root_cluster : ℕ
  pub info_sector : ℕ
  pub backup_boot : ℕ

-- `LittleEndianReader` without its source: the offset that the reads move.
abbrev pub read_byte_array : List ℕ → ℕ → ℕ → List ℕ × ℕ
read_byte_array src n offset = (take n (drop (offset + n - n) src), offset + n)

abbrev pub read_u8 : List ℕ → ℕ → ℕ × ℕ
read_u8 src offset = (byte_at src (offset + 1 - 1), offset + 1)

abbrev pub read_u16 : List ℕ → ℕ → ℕ × ℕ
read_u16 src offset = (le16 src (offset + 2 - 2), offset + 2)

abbrev pub read_u32 : List ℕ → ℕ → ℕ × ℕ
read_u32 src offset = (le32 src (offset + 4 - 4), offset + 4)

-- `src` has 512 bytes, so the reads are in range.
pub new : List ℕ → KResult BiosParameterBlock
new src =
    let (system_id, o1) = read_byte_array src 8 3 in
    let (sector_size, o2) = read_u16 src o1 in
    let (sector_per_cluster, o3) = read_u8 src o2 in
    let (reserved_sector_count, o4) = read_u16 src o3 in
    let (fat_count, o5) = read_u8 src o4 in
    let (root_entry_count, o6) = read_u16 src o5 in
    let (sector_count, o7) = read_u16 src o6 in
    let (media, o8) = read_u8 src o7 in
    let (fat_length, o9) = read_u16 src o8 in
    let (sector_per_track, o10) = read_u16 src o9 in
    let (head_count, o11) = read_u16 src o10 in
    let (hidden_sector_count, o12) = read_u32 src o11 in
    let (total_sector_count, o13) = read_u32 src o12 in
    let (fat32_length, o14) = read_u32 src o13 in
    let (ext_flags, o15) = read_u16 src o14 in
    let (version, o16) = read_u16 src o15 in
    let (root_cluster, o17) = read_u32 src o16 in
    let (info_sector, o18) = read_u16 src o17 in
    let (backup_boot, o19) = read_u16 src o18 in
    ensure (le16 src 510 == 0xaa55) einval
    >> assert (o19 == 0x34)
    >> ok (record {
      system_id = system_id;
      sector_size = sector_size;
      sector_per_cluster = sector_per_cluster;
      reserved_sector_count = reserved_sector_count;
      fat_count = fat_count;
      root_entry_count = root_entry_count;
      sector_count = sector_count;
      media = media;
      fat_length = fat_length;
      sector_per_track = sector_per_track;
      head_count = head_count;
      hidden_sector_count = hidden_sector_count;
      total_sector_count = total_sector_count;
      fat32_length = fat32_length;
      ext_flags = ext_flags;
      version = version;
      root_cluster = root_cluster;
      info_sector = info_sector;
      backup_boot = backup_boot;
    })

-- The fields at the offsets that the FAT32 format documents.
abbrev pub documented : List ℕ → BiosParameterBlock
documented src = record {
  system_id = take 8 (drop 3 src);
  sector_size = le16 src 0x0b;
  sector_per_cluster = byte_at src 0x0d;
  reserved_sector_count = le16 src 0x0e;
  fat_count = byte_at src 0x10;
  root_entry_count = le16 src 0x11;
  sector_count = le16 src 0x13;
  media = byte_at src 0x15;
  fat_length = le16 src 0x16;
  sector_per_track = le16 src 0x18;
  head_count = le16 src 0x1a;
  hidden_sector_count = le32 src 0x1c;
  total_sector_count = le32 src 0x20;
  fat32_length = le32 src 0x24;
  ext_flags = le16 src 0x28;
  version = le16 src 0x2a;
  root_cluster = le32 src 0x2c;
  info_sector = le16 src 0x30;
  backup_boot = le16 src 0x32;
}

-- `BiosParameterBlock::new` of a sector without the boot signature fails with EINVAL; of any other it
-- takes each field from the offset that the FAT32 format gives it.
pub boot_sector_lem :
    (src : List ℕ) → new src ≡ (if le16 src 510 == 0xaa55 then ok (documented src) else err einval)
unfolding new
boot_sector_lem src = elim (Bool-cases (le16 src 510 == 0xaa55)) [
  | inl h ↦ rw h refl
  | inr h ↦ rw h refl
]
