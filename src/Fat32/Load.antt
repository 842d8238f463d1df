-- ===== src/Fat32/Load.antt =====
-- `FatAllocMeta::new` and `FileAllocTable::new` of crates/utils/fat32/src/fat.rs. The block device is
-- a parameter: a function from a sector's number to its bytes.
use asynclear.Prelude.{
  ℕ, zero, suc, ◌+◌, ◌-◌, ◌*◌, ◌/◌, ◌^◌, ◌≡◌, ◌≤◌, refl, List, [], ◌∷◌, ◌++◌, ltb, leb, ◌==◌, not,
  length, take, if◌then◌else◌, KResult, ◌>>◌, assert, arith, inl, inr, Bool-cases, length-append,
  length-take, sym, ◌∙◌, ap,
}
use mathlib.Core.List.{append_assoc, append-nil}
use asynclear.Fat32.Bytes.{le32}
use asynclear.Fat32.Bpb.{BiosParameterBlock}
use asynclear.Fat32.Fat.{
  FatAllocMeta, FileAllocTable, reserved_fat_entry_count, invalid_meta, maintain_alloc_meta,
}

pub read_alloc_meta : List ℕ → FatAllocMeta
read_alloc_meta info =
    if not (le32 info 0 == 0x4161_5252)
    then invalid_meta
    else if not (le32 info 484 == 0x6141_7272)
    then invalid_meta
    else if not (le32 info 508 == 0xaa55_0000)
    then invalid_meta
    else record { free_count = le32 info 488; next_free = le32 info 492 }

-- `array_chunks::<4>` of a sector, each a number.
pub chunks : List ℕ → List ℕ
chunks (a ∷ b ∷ c ∷ d ∷ rest) = le32 (a ∷ b ∷ c ∷ d ∷ []) 0 ∷ chunks rest
chunks rest = []

-- The inner loop over the chunks of a sector: it stops at `limit` entries.
pub push_entries : ℕ → List ℕ → List ℕ → List ℕ
push_entries limit entries [] = entries
push_entries limit entries (entry ∷ rest) =
    let pushed = push_entries limit (entries ++ (entry ∷ [])) rest in
    if leb limit (length entries) then entries else pushed

module _ (read_block : ℕ → List ℕ) where
  -- The outer loop over `n` sectors from `sector_id` on.
  pub load_sectors : ℕ → ℕ → ℕ → List ℕ → List ℕ
  unfolding chunks push_entries
  load_sectors limit sector_id zero entries = entries
  load_sectors limit sector_id (suc n) entries =
      load_sectors limit (sector_id + 1) n
        (push_entries limit entries (chunks (read_block sector_id)))

  pub new : BiosParameterBlock → KResult FileAllocTable
  unfolding read_alloc_meta load_sectors
  new bpb =
      let meta = read_alloc_meta (read_block bpb.info_sector) in
      let fat_start : ℕ = bpb.reserved_sector_count in
      let data_start : ℕ = fat_start + bpb.fat_count * bpb.fat32_length in
      let count : ℕ = (bpb.total_sector_count - data_start) / bpb.sector_per_cluster in
      assert (ltb (bpb.fat_count * bpb.fat32_length) (2 ^ 32))
      >> assert (ltb data_start (2 ^ 32))
      >> assert (leb data_start bpb.total_sector_count)
      >> assert (not (bpb.sector_per_cluster == 0))
      >> assert (ltb (fat_start + bpb.fat32_length) (2 ^ 32))
      >> assert (ltb (count + reserved_fat_entry_count) (2 ^ 32))
      >> maintain_alloc_meta (record {
        data_start_sector_id = data_start;
        sector_per_cluster = bpb.sector_per_cluster;
        data_clusters_count = count;
        alloc_meta = meta;
        fat_entries = load_sectors (count + reserved_fat_entry_count) fat_start bpb.fat32_length [];
      })

  -- The table on the disk: the entries of `n` sectors.
  abbrev pub disk_entries : ℕ → ℕ → List ℕ
  disk_entries sector_id zero = []
  disk_entries sector_id (suc n) = chunks (read_block sector_id) ++ disk_entries (sector_id + 1) n

take_all : (n : ℕ) (xs : List ℕ) → length xs ≤ n → take n xs ≡ xs
take_all zero [] h = refl
take_all zero (x ∷ xs) h = absurd (omega arith)
take_all (suc n) [] h = refl
take_all (suc n) (x ∷ xs) h = ap (λ (l : List ℕ). x ∷ l) (take_all n xs (omega arith))

take_full : (n : ℕ) (xs ys : List ℕ) → length xs ≡ n → take n (xs ++ ys) ≡ xs
take_full zero [] ys h = refl
take_full zero (x ∷ xs) ys h = absurd (omega arith)
take_full (suc n) [] ys h = absurd (omega arith)
take_full (suc n) (x ∷ xs) ys h = ap (λ (l : List ℕ). x ∷ l) (take_full n xs ys (omega arith))

take_twice : (n : ℕ) (xs ys : List ℕ) → take n (take n xs ++ ys) ≡ take n (xs ++ ys)
take_twice zero xs ys = refl
take_twice (suc n) [] ys = refl
take_twice (suc n) (x ∷ xs) ys = ap (λ (l : List ℕ). x ∷ l) (take_twice n xs ys)

push_entries-eq :
    (limit : ℕ) (entries xs : List ℕ)
    → length entries ≤ limit
    → push_entries limit entries xs ≡ take limit (entries ++ xs)
unfolding push_entries
push_entries-eq limit entries [] h = rw (append-nil entries) (sym (take_all limit entries h))
push_entries-eq limit entries (x ∷ xs) h = elim (Bool-cases (leb limit (length entries))) [
  | inl e ↦ rw e (sym (take_full limit entries (x ∷ xs) (ground arith)))
  | inr e ↦ rw e (
      push_entries-eq limit (entries ++ (x ∷ [])) xs
        (ground (arith, length-append entries (x ∷ [])))
      ∙ ap (take limit) (append_assoc entries (x ∷ []) xs))
]

load_sectors-eq :
    (read_block : ℕ → List ℕ) (limit sector_id n : ℕ) (entries : List ℕ)
    → length entries ≤ limit
    → load_sectors read_block limit sector_id n entries
      ≡ take limit (entries ++ disk_entries read_block sector_id n)
unfolding load_sectors
load_sectors-eq read_block limit sector_id zero entries h =
    rw (append-nil entries) (sym (take_all limit entries h))
load_sectors-eq read_block limit sector_id (suc n) entries h =
    let xs = chunks (read_block sector_id) in
    let next = disk_entries read_block (sector_id + 1) n in
    rw (push_entries-eq limit entries xs h) (
      load_sectors-eq read_block limit (sector_id + 1) n (take limit (entries ++ xs))
        (omega (arith, length-take limit (entries ++ xs)))
      ∙ take_twice limit (entries ++ xs) next
      ∙ ap (take limit) (append_assoc entries xs next))

-- The entries that `FileAllocTable::new` loads are the first `limit` of the table on the disk, in
-- order, or all of them if there are fewer.
pub load_sectors_lem :
    (read_block : ℕ → List ℕ) (limit sector_id n : ℕ)
    → load_sectors read_block limit sector_id n []
      ≡ take limit (disk_entries read_block sector_id n)
load_sectors_lem read_block limit sector_id n =
    load_sectors-eq read_block limit sector_id n [] (omega arith)
