-- ===== src/Fat32Vfs/File.antt =====
-- `FatFile` of crates/fs/fat32_vfs/src/file.rs. The allocation table is shared by the files, and the
-- block device is a parameter: the bytes of each sector.
pub mod Sectors
pub mod Page
pub mod Backing
use asynclear.Prelude.{
  ℕ, zero, suc, ◌+◌, ◌-◌, ◌*◌, ◌/◌, ◌%◌, ◌^◌, Bool, true, false, not, ◌&&◌, Option, none, some,
  List, [], ◌∷◌, ltb, leb, ◌==◌, length, get_elem?, take, drop, if◌then◌else◌, KResult, ok, err,
  panic, enospc, ◌>>=◌, ◌>>◌, assert, unwrap, ok_or,
}
use asynclear.Config.{page_size}
use asynclear.BTreeMap.{BTreeMap}
use asynclear.Fs.PageCache.{BackedPage, PageCache}
use asynclear.Fs.Inode.{InodeMeta, regular}
use asynclear.Memory.Address.{div_ceil}
use asynclear.Fat32.Fat.{
  FileAllocTable, alloc_cluster, free_clusters, cluster_chain, cluster_sectors, bytes_per_cluster,
}
use asynclear.Fat32.DirEntry.{DirEntry, is_dir}

abbrev pub sector_size : ℕ
sector_size = 512

abbrev pub sector_count_per_page : ℕ
sector_count_per_page = 8

pub record FatFile : Type 0 where
  pub meta : InodeMeta
  pub clusters : List ℕ

-- `meta` is the new metadata of the inode, with the times of the entry; `fuel` bounds its chain.
unfoldable pub from_dir_entry : ℕ → FileAllocTable → DirEntry → InodeMeta → KResult FatFile
from_dir_entry fuel f e meta = do
  assert (not (is_dir e))
  clusters ← cluster_chain fuel f e.first_cluster_id
  assert (leb e.file_size (length clusters * f.sector_per_cluster * sector_size))
  ok (record { meta = record meta { data_len = e.file_size }; clusters = clusters })

unfoldable pub create : FileAllocTable → InodeMeta → ℕ → KResult (FatFile × FileAllocTable)
create f meta now = do
  (found, f') ← alloc_cluster f none
  cluster ← ok_or found enospc
  ok (
    record {
      meta = record meta { access_time = now; change_time = now; modify_time = now };
      clusters = cluster ∷ [];
    },
    f',
  )

-- A number of 32 bits, and its quotient and remainder.
unfoldable pub page_id_to_cluster_pos : FileAllocTable → ℕ → KResult (ℕ × ℕ)
page_id_to_cluster_pos f page_id = do
  assert (ltb (page_id * sector_count_per_page) (2 ^ 64))
  let sector_index = page_id * sector_count_per_page % 2 ^ 32
  assert (ltb 0 f.sector_per_cluster)
  ok (sector_index / f.sector_per_cluster, sector_index % f.sector_per_cluster % 2 ^ 8)

-- A sector of the device, copied over the sector `n` of the page.
unfoldable pub copy_sector : (ℕ → ℕ) → ℕ → (ℕ → ℕ) → ℕ → ℕ
copy_sector page n bytes i =
    if leb (n * sector_size) i && ltb i ((n + 1) * sector_size)
    then bytes (i - n * sector_size)
    else page i

module _ (sector : ℕ → ℕ → ℕ) where
  -- The loop over the sectors of a cluster, of which `left` are left; it ends early when the page is
  -- full.
  unfoldable pub read_sectors : ℕ → ℕ → ℕ → (ℕ → ℕ) → ℕ × (ℕ → ℕ)
  read_sectors zero sector_id count page = (count, page)
  read_sectors (suc left) sector_id count page =
      let page' = copy_sector page count (sector sector_id) in
      let next = read_sectors left (sector_id + 1) (count + 1) page' in
      if leb sector_count_per_page (count + 1) then (count + 1, page') else next

  -- The loop over the clusters from the one where the page starts, `offset` sectors into it.
  unfoldable pub read_clusters : FileAllocTable → List ℕ → ℕ → ℕ → (ℕ → ℕ) → KResult (ℕ × (ℕ → ℕ))
  unfolding read_sectors
  read_clusters f [] offset count page = ok (count, page)
  read_clusters f (cluster_id ∷ rest) offset count page =
      cluster_sectors f cluster_id >>= λ (start, end).
      let (count', page') = read_sectors (end - (start + offset)) (start + offset) count page in
      let next = read_clusters f rest 0 count' page' in
      if leb sector_count_per_page count' then ok (count', page') else next

  -- `read_page` into the buffer of a page: the number of bytes read, and the page.
  unfoldable pub read_page : FileAllocTable → FatFile → ℕ → (ℕ → ℕ) → KResult (ℕ × (ℕ → ℕ))
  unfolding read_clusters
  read_page f file page_id page = do
    (index, offset) ← page_id_to_cluster_pos f page_id
    (count, page') ← read_clusters f (drop index file.clusters) offset 0 page
    ok (count * sector_size, page')

  -- `read_inode_at` into the buffer of a page.
  unfoldable pub read_inode_at : FileAllocTable → FatFile → ℕ → (ℕ → ℕ) → KResult (ℕ → ℕ)
  unfolding read_page
  read_inode_at f file offset page =
      if offset % page_size == 0
      then (read_page f file (offset / page_size) page >>= λ (n, page'). ok page')
      else panic

-- `truncate`: growing a file is `todo!`.
unfoldable pub truncate : FileAllocTable → FatFile → ℕ → ℕ → KResult (FatFile × FileAllocTable)
truncate f file len now =
    if ltb len file.meta.data_len
    then (let count = div_ceil len (bytes_per_cluster f) in
        assert (ltb 0 (bytes_per_cluster f) && leb count (length file.clusters))
        >> free_clusters f (drop count file.clusters)
            (if count == 0 then none else get_elem? file.clusters (count - 1))
        >>= λ f'. ok (
          record {
            meta = record file.meta { data_len = len; change_time = now; modify_time = now };
            clusters = take count file.clusters;
          },
          f',
        ))
    else if ltb file.meta.data_len len
    then panic
    else ok (file, f)
