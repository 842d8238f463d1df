-- ===== src/Fat32/Fat.antt =====
-- `FileAllocTable` of crates/utils/fat32/src/fat.rs. The table is in memory; the locks are held for
-- whole calls. Numbers of 32 bits are checked for overflow.
pub mod Search
pub mod Alloc
pub mod Chain
pub mod Free
pub mod Meta
use Prim.Native.Nat.{bit_and}
use asynclear.Prelude.{
  ℕ, zero, suc, ◌+◌, ◌-◌, ◌*◌, ◌^◌, min, Bool, true, false, not, ◌&&◌, ◌||◌, Option, none, some,
  List, [], ◌∷◌, ltb, leb, ◌==◌, length, get_or, set, take, drop, if◌then◌else◌, KResult, ok, panic,
  ◌>>=◌, ◌>>◌, assert,
}

abbrev pub fat_entry_mask : ℕ
fat_entry_mask = 0x0fff_ffff

abbrev pub reserved_fat_entry_count : ℕ
reserved_fat_entry_count = 2

abbrev pub end_of_chain : ℕ
end_of_chain = 0x0fff_ffff

abbrev pub invalid_alloc_meta : ℕ
invalid_alloc_meta = 0xffff_ffff

abbrev u32_mod : ℕ
u32_mod = 2 ^ 32

pub record FatAllocMeta : Type 0 where
  pub free_count : ℕ
  pub next_free : ℕ

pub record FileAllocTable : Type 0 where
  pub data_start_sector_id : ℕ
  pub sector_per_cluster : ℕ
  pub data_clusters_count : ℕ
  pub alloc_meta : FatAllocMeta
  pub fat_entries : List ℕ

-- An index into the table that is out of range panics.
abbrev pub entry_at : List ℕ → ℕ → KResult ℕ
entry_at entries i = assert (ltb i (length entries)) >> ok (get_or entries i 0)

abbrev pub write_entry : List ℕ → ℕ → ℕ → KResult (List ℕ)
write_entry entries i v = assert (ltb i (length entries)) >> ok (set entries i v)

-- The loop of `find_free_cluster`.
pub first_free : ℕ → List ℕ → Option ℕ
first_free cluster_id [] = none
first_free cluster_id (entry ∷ rest) =
    let next = first_free (cluster_id + 1) rest in
    if bit_and entry fat_entry_mask == 0 then some cluster_id else next

pub find_free_cluster : List ℕ → ℕ → ℕ → KResult (Option ℕ)
unfolding first_free
find_free_cluster entries start end = do
  assert (leb start end && leb end (length entries))
  ok (first_free start (take (end - start) (drop start entries)))

abbrev pub or_else : Option ℕ → KResult (Option ℕ) → KResult (Option ℕ)
or_else none other = other
or_else (some c) other = ok (some c)

-- The new cluster behind the previous one.
abbrev pub link_prev : List ℕ → Option ℕ → ℕ → KResult (List ℕ)
link_prev entries none cluster_id = ok entries
link_prev entries (some prev) cluster_id = write_entry entries prev cluster_id

-- What `alloc_cluster` does with the cluster it has found. The free count stops at 0.
abbrev pub take_cluster : FileAllocTable → Option ℕ → Option ℕ → KResult (Option ℕ × FileAllocTable)
take_cluster f prev none = ok (none, f)
take_cluster f prev (some cluster_id) = do
  assert (ltb (cluster_id + 1) u32_mod)
  linked ← link_prev f.fat_entries prev cluster_id
  entries ← write_entry linked cluster_id end_of_chain
  ok (
    some cluster_id,
    record f {
      alloc_meta = record { free_count = f.alloc_meta.free_count - 1; next_free = cluster_id + 1 };
      fat_entries = entries;
    },
  )

abbrev pub start_cluster : FileAllocTable → ℕ → ℕ
start_cluster f total =
    if leb reserved_fat_entry_count f.alloc_meta.next_free && ltb f.alloc_meta.next_free total
    then f.alloc_meta.next_free
    else reserved_fat_entry_count

pub alloc_cluster : FileAllocTable → Option ℕ → KResult (Option ℕ × FileAllocTable)
unfolding find_free_cluster
alloc_cluster f prev =
    let total = f.data_clusters_count + reserved_fat_entry_count in
    let start = start_cluster f total in
    assert (ltb total u32_mod) >> find_free_cluster f.fat_entries start total >>= λ first.
    or_else first (
      if ltb reserved_fat_entry_count start
      then find_free_cluster f.fat_entries reserved_fat_entry_count start
      else ok none)
    >>= λ found. take_cluster f prev found

pub clear_entries : List ℕ → List ℕ → KResult (List ℕ)
clear_entries entries [] = ok entries
clear_entries entries (cluster ∷ rest) =
    write_entry entries cluster 0 >>= λ entries'. clear_entries entries' rest

abbrev pub unlink_prev : List ℕ → Option ℕ → ℕ → KResult (List ℕ)
unlink_prev entries none first = ok entries
unlink_prev entries (some prev) first = do
  next ← entry_at entries prev
  assert (next == first)
  write_entry entries prev end_of_chain

pub free_clusters : FileAllocTable → List ℕ → Option ℕ → KResult FileAllocTable
unfolding clear_entries
free_clusters f [] prev = ok f
free_clusters f (first ∷ rest) prev = do
  unlinked ← unlink_prev f.fat_entries prev first
  entries ← clear_entries unlinked (first ∷ rest)
  let free_count = f.alloc_meta.free_count + length (first ∷ rest)
  assert (ltb free_count u32_mod)
  ok (record f {
    alloc_meta = record { free_count = free_count; next_free = f.alloc_meta.next_free };
    fat_entries = entries;
  })

-- The loop of `cluster_chain`, for `fuel` clusters; a table with a cycle has no last cluster.
pub chain_from : ℕ → List ℕ → ℕ → KResult (List ℕ)
chain_from zero entries curr = ok []
chain_from (suc fuel) entries curr =
    if ltb curr 0x0fff_fff8
    then (entry_at entries curr >>= λ entry.
        chain_from fuel entries (bit_and entry fat_entry_mask) >>= λ rest. ok (curr ∷ rest))
    else ok []

pub cluster_chain : ℕ → FileAllocTable → ℕ → KResult (List ℕ)
unfolding chain_from
cluster_chain fuel f first = if ltb first 2 then ok [] else chain_from fuel f.fat_entries first

-- The sectors from the first number up to the second.
unfoldable pub cluster_sectors : FileAllocTable → ℕ → KResult (ℕ × ℕ)
cluster_sectors f cluster_id = do
  assert (leb 2 cluster_id)
  let offset = (cluster_id - reserved_fat_entry_count) * f.sector_per_cluster
  assert (ltb offset u32_mod)
  let first = f.data_start_sector_id + offset
  assert (ltb (first + f.sector_per_cluster) u32_mod)
  ok (first, first + f.sector_per_cluster)

unfoldable pub bytes_per_cluster : FileAllocTable → ℕ
bytes_per_cluster f = f.sector_per_cluster * 512

-- The scan of `maintain_alloc_meta`, with the number of the first entry.
pub scan_free : FatAllocMeta → ℕ → List ℕ → FatAllocMeta
scan_free meta cluster_id [] = meta
scan_free meta cluster_id (entry ∷ rest) =
    let seen =
      if bit_and entry fat_entry_mask == 0
      then record { free_count = meta.free_count + 1; next_free = min meta.next_free cluster_id }
      else meta in
    scan_free seen (cluster_id + 1) rest

abbrev pub invalid_meta : FatAllocMeta
invalid_meta = record { free_count = invalid_alloc_meta; next_free = invalid_alloc_meta }

abbrev pub is_inconsistent : FatAllocMeta → ℕ → Bool
is_inconsistent meta count =
    ltb count meta.free_count
    || (not (meta.next_free == invalid_alloc_meta)
        && not (
            leb reserved_fat_entry_count meta.next_free
            && ltb meta.next_free (count + reserved_fat_entry_count)))

unfoldable pub maintain_alloc_meta : FileAllocTable → KResult FileAllocTable
unfolding scan_free
maintain_alloc_meta f =
    assert (ltb (f.data_clusters_count + reserved_fat_entry_count) u32_mod)
    >> let meta =
        if is_inconsistent f.alloc_meta f.data_clusters_count then invalid_meta else f.alloc_meta in
      let scanned =
        scan_free (record { free_count = 0; next_free = invalid_alloc_meta })
          reserved_fat_entry_count (drop reserved_fat_entry_count f.fat_entries) in
      ok (record f {
        alloc_meta =
            if meta.free_count == invalid_alloc_meta || meta.next_free == invalid_alloc_meta
            then scanned
            else meta;
      })
