-- ===== src/Fat32Vfs/Validity.antt =====
-- `is_valid_fat32_bpb` of crates/fs/fat32_vfs/src/lib.rs: which boot sectors are accepted.
use native.Mathlib.Nat.{suc-mul, mul-le-mul_right, div-mul-le_self}
use asynclear.Prelude.{
  ℕ, suc, ◌+◌, ◌-◌, ◌*◌, ◌/◌, ◌^◌, ◌≤◌, ◌<◌, ◌≡◌, refl, ap, Bool, true, false, not, ◌&&◌, ◌||◌, ltb,
  leb, ◌==◌, if◌then◌else◌, KResult, ok, ◌>>◌, assert, arith,
}
use asynclear.Fat32.Bpb.{BiosParameterBlock}
use asynclear.Fat32.Fat.{FileAllocTable, cluster_sectors}

-- A power of two of 8 bits.
abbrev pub is_power_of_two : ℕ → Bool
is_power_of_two n =
    n == 1 || (n == 2 || (n == 4 || (n == 8 || (n == 16 || (n == 32 || (n == 64 || n == 128))))))

-- The checks of single fields.
abbrev pub has_bad_field : BiosParameterBlock → Bool
has_bad_field b =
    not (b.sector_size == 512)
    || (b.sector_per_cluster == 0
        || (not (is_power_of_two b.sector_per_cluster)
            || (ltb 128 b.sector_per_cluster
                || (b.reserved_sector_count == 0
                    || (b.fat_count == 0
                        || (b.fat32_length == 0
                            || (b.total_sector_count == 0
                                || (not (b.root_entry_count == 0)
                                    || (not (b.sector_count == 0)
                                        || (not (b.fat_length == 0)
                                            || (not (b.version == 0)
                                                || leb b.reserved_sector_count
                                                    b.info_sector)))))))))))

unfoldable pub is_valid_fat32_bpb : BiosParameterBlock → KResult Bool
is_valid_fat32_bpb b =
    let data_start : ℕ = b.reserved_sector_count + b.fat_count * b.fat32_length in
    let count : ℕ = (b.total_sector_count - data_start) / b.sector_per_cluster in
    if has_bad_field b
    then ok false
    else (assert (ltb data_start (2 ^ 32))
        >> ok (
            not (leb b.total_sector_count data_start)
            && (leb 65526 count && (leb 2 b.root_cluster && leb b.root_cluster (count + 1)))))

unbad :
    (b : BiosParameterBlock)
    → has_bad_field b ≡ false
    → (0 < b.sector_per_cluster) × (b.sector_per_cluster ≤ 128)
unbad b h = ground (arith, h)

accepted :
    (bad fits v : Bool)
    → (if bad then ok false else (assert fits >> ok v)) ≡ ok true
    → (bad ≡ false) × (fits ≡ true) × (v ≡ true)
accepted true fits v h = absurd cc
accepted false false v h = absurd cc
accepted false true true h = (refl, refl, refl)
accepted false true false h = absurd cc

geometry :
    (b : BiosParameterBlock)
    → is_valid_fat32_bpb b ≡ ok true
    → (0 < b.sector_per_cluster)
      × (b.sector_per_cluster ≤ 128)
      × (b.reserved_sector_count + b.fat_count * b.fat32_length < b.total_sector_count)
      × (2 ≤ b.root_cluster)
      × (b.root_cluster
          < (b.total_sector_count - (b.reserved_sector_count + b.fat_count * b.fat32_length))
              / b.sector_per_cluster
            + 2)
unfolding is_valid_fat32_bpb
geometry b h =
    let spc = b.sector_per_cluster in
    let data_start = b.reserved_sector_count + b.fat_count * b.fat32_length in
    let count = (b.total_sector_count - data_start) / spc in
    let (t, _, v) =
      accepted (has_bad_field b) (ltb data_start (2 ^ 32))
        (not (leb b.total_sector_count data_start)
          && (leb 65526 count && (leb 2 b.root_cluster && leb b.root_cluster (count + 1))))
        h in
    let u = unbad b t in (u.0, u.1, ground (arith, v), ground (arith, v), ground (arith, v))

-- For an accepted boot sector of a disk with less than 2 ^ 32 sectors, and a table with its geometry,
-- `cluster_sectors` gives every data cluster its sectors without overflow, behind the tables and before
-- the end of the disk, and clusters are 1 to 128 sectors. The root directory starts in such a cluster.
pub is_valid_fat32_bpb_lem :
    (b : BiosParameterBlock) (f : FileAllocTable) (c : ℕ)
    → is_valid_fat32_bpb b ≡ ok true
    → b.total_sector_count < 2 ^ 32
    → f.data_start_sector_id ≡ b.reserved_sector_count + b.fat_count * b.fat32_length
    → f.sector_per_cluster ≡ b.sector_per_cluster
    → f.data_clusters_count ≡ (b.total_sector_count - f.data_start_sector_id) / b.sector_per_cluster
    → 2 ≤ c
    → c < f.data_clusters_count + 2
    → (first : ℕ) × (cluster_sectors f c ≡ ok (first, first + b.sector_per_cluster))
      × (f.data_start_sector_id ≤ first)
      × (first + b.sector_per_cluster ≤ b.total_sector_count)
      × (0 < b.sector_per_cluster)
      × (b.sector_per_cluster ≤ 128)
      × (2 ≤ b.root_cluster)
      × (b.root_cluster < f.data_clusters_count + 2)
unfolding cluster_sectors
is_valid_fat32_bpb_lem b f c h t e1 e2 e3 l r =
    let (s0, s1, s2, s3, s4) = geometry b h in
    let spc = b.sector_per_cluster in
    let count = (b.total_sector_count - f.data_start_sector_id) / spc in
    let first = f.data_start_sector_id + (c - 2) * spc in
    let m : (c - 2) * spc + spc ≤ count * spc = omega (
      arith,
      suc-mul (c - 2) spc,
      mul-le-mul_right {m = suc (c - 2)} {n = count} spc (omega (arith, e3)),
    ) in
    let d : count * spc ≤ b.total_sector_count - f.data_start_sector_id =
      div-mul-le_self (b.total_sector_count - f.data_start_sector_id) spc in
    let same : (c - 2) * f.sector_per_cluster ≡ (c - 2) * spc = ap (λ (n : ℕ). (c - 2) * n) e2 in
    (
      first,
      ground (arith, same, m, d, e1, e2, s2),
      omega arith,
      omega (arith, m, d, e1, s2),
      s0,
      s1,
      s3,
      rw (e3, e1) s4,
    )
