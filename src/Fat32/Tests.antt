-- ===== src/Fat32/Tests.antt =====
-- The file allocation table and long names on examples.
use asynclear.Prelude.{
  ℕ, ◌≡◌, refl, List, [], ◌∷◌, some, ok, arith, true, false, contains, get_or, replicate,
}
use asynclear.Fat32.Fat.{FileAllocTable, alloc_cluster, free_clusters, cluster_chain}
use asynclear.Fat32.Fat.Alloc.{IsValid, AllocOutcome, alloc_cluster_lem}
use asynclear.Fat32.Fat.Search.{is_free}
use asynclear.Fat32.Fat.Chain.{IsChain, cluster_chain_lem, GrowOutcome, alloc-chain}
use asynclear.Fat32.Fat.Free.{free_clusters_lem}
use asynclear.Fat32.DirEntry.LongName.{read_all, joined, long_name_lem}

-- A file in clusters 2 and 3, and cluster 4 free.
abbrev disk : FileAllocTable
disk = record {
  data_start_sector_id = 100;
  sector_per_cluster = 8;
  data_clusters_count = 3;
  alloc_meta = record { free_count = 1; next_free = 3 };
  fat_entries = 0x0fff_fff8 ∷ 0x0fff_ffff ∷ 3 ∷ 0x0fff_ffff ∷ 0 ∷ [];
}

disk-IsValid : IsValid disk
disk-IsValid = (refl, omega arith)

disk-IsChain : IsChain disk.fat_entries 2 (2 ∷ 3 ∷ [])
disk-IsChain = (
  refl,
  omega arith,
  omega arith,
  omega arith,
  (refl, omega arith, omega arith, omega arith, omega arith),
)

alloc_cluster_lem_example : AllocOutcome disk (some 3) (alloc_cluster disk (some 3))
alloc_cluster_lem_example = alloc_cluster_lem disk (some 3) disk-IsValid (omega arith, refl)

alloc-chain_example : GrowOutcome disk 2 (2 ∷ 3 ∷ []) (alloc_cluster disk (some 3))
alloc-chain_example = alloc-chain disk 2 2 (3 ∷ []) disk-IsValid disk-IsChain

cluster_chain_lem_example : cluster_chain 10 disk 2 ≡ ok (2 ∷ 3 ∷ [])
cluster_chain_lem_example =
    cluster_chain_lem disk 2 (2 ∷ 3 ∷ []) 10 (omega arith) disk-IsChain (omega arith)

free_clusters_lem_example :
    (f' : FileAllocTable) × (free_clusters disk (3 ∷ []) (some 2) ≡ ok f')
    × IsChain f'.fat_entries 2 (2 ∷ [])
    × ((j : ℕ) → contains (3 ∷ []) j ≡ true → is_free f'.fat_entries j ≡ true)
    × ((j : ℕ)
        → contains (2 ∷ 3 ∷ []) j ≡ false
        → get_or f'.fat_entries j 0 ≡ get_or disk.fat_entries j 0)
free_clusters_lem_example =
    free_clusters_lem disk 2 [] 2 3 [] disk-IsChain (refl, (refl, tt)) refl (omega arith)

abbrev zeros : ℕ → List ℕ
zeros n = replicate 512 0

-- The only part of a name of five letters, with checksum 7.
abbrev part : List ℕ
part = 0x41 ∷ 0x68 ∷ 0 ∷ 0x65 ∷ 0 ∷ 0x6c ∷ 0 ∷ 0x6c ∷ 0 ∷ 0x6f ∷ 0 ∷ 0x0f ∷ 0 ∷ 7 ∷ replicate 18 0

long_name_lem_example :
    read_all (record { curr_order = 0; checksum = 0; units = [] }) (part ∷ [])
    ≡ ok (record { curr_order = 1; checksum = 7; units = joined (part ∷ []) [] })
long_name_lem_example = long_name_lem 0 7 part [] (refl, refl, refl, refl) tt
