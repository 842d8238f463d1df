-- ===== src/Fat32Vfs/File/Backing.antt =====
-- A FAT32 file is a file system below the page cache.
use asynclear.Prelude.{
  ℕ, ◌+◌, ◌-◌, ◌*◌, ◌/◌, ◌%◌, ◌^◌, ◌≤◌, ◌<◌, ◌≡◌, refl, ◌∙◌, ap, min, true, List, [], length,
  tabulate_cong, ◌==◌, tabulate, KResult, ok, arith,
}
use asynclear.Config.{page_size}
use asynclear.BTreeMap.{get}
use asynclear.Fat32.Fat.{FileAllocTable}
use asynclear.Fs.Inode.{InodeMeta, read_at}
use asynclear.Fs.Inode.Content.{ReadsFile, byte_at}
use asynclear.Fs.Inode.Read.{read_at_lem}
use asynclear.Fat32Vfs.File.{FatFile, sector_size, read_page, read_inode_at}
use asynclear.Fat32Vfs.File.Page.{read_page_lem}
use asynclear.Fat32Vfs.File.Sectors.{sector_at, AreReadable}

-- The byte at a position of the file, on the device.
abbrev pub file_byte : (ℕ → ℕ → ℕ) → FileAllocTable → FatFile → ℕ → ℕ
file_byte sector f file x = sector (sector_at f file.clusters (x / sector_size)) (x % sector_size)

read_inode_at-page :
    (sector : ℕ → ℕ → ℕ) (f : FileAllocTable) (file : FatFile) (page_id n : ℕ) (page page' : ℕ → ℕ)
    → read_page sector f file page_id page ≡ ok (n, page')
    → read_inode_at sector f file (page_id * page_size) page ≡ ok page'
unfolding read_inode_at
read_inode_at-page sector f file page_id n page page' e =
    let a : (page_id * page_size % page_size == 0) ≡ true = ground arith in
    let b : page_id * page_size / page_size ≡ page_id = omega arith in rw (a, b, e) refl

-- For a file whose size is at most that of its clusters, and whose clusters have sectors on the device,
-- `FatFile` reads every page of the file as the page cache expects: without failing, and with the bytes
-- of the clusters, in the order of the chain, in the part of the page that lies in the file.
pub read_inode_at-ReadsFile :
    (sector : ℕ → ℕ → ℕ) (f : FileAllocTable) (file : FatFile) (n : ℕ)
    → 0 < f.sector_per_cluster
    → f.sector_per_cluster < 2 ^ 8
    → AreReadable f file.clusters
    → n ≤ length file.clusters * f.sector_per_cluster * sector_size
    → n < 2 ^ 32
    → ReadsFile (read_inode_at sector f file) (file_byte sector f file) n
read_inode_at-ReadsFile sector f file n h1 h2 h3 h4 h5 page_id old m =
    let (to, page', e, t, (r, o)) =
      read_page_lem sector f file page_id old h1 h2 h3 (omega arith) in
    (
      page',
      read_inode_at-page sector f file page_id (to * sector_size) old page' e,
      λ i a b.
          let x = page_id * page_size + i in
          let q : page_id * 8 + i / sector_size ≡ x / sector_size = omega arith in
          let w : i % sector_size ≡ x % sector_size = omega arith in
          r i (omega arith) (omega (arith, t)) ∙ rw (q, w) refl,
    )

uncached :
    (disk : ℕ → ℕ) (s : InodeMeta) (x : ℕ) → s.page_cache.pages ≡ [] → byte_at disk s x ≡ disk x
unfolding get
uncached disk s x e = rw e refl

-- Reading a FAT32 file of which nothing is cached yet, with a buffer that is accessible and frames for
-- its pages, returns exactly the bytes of its clusters from `offset` on, in the order of the chain, as
-- many as fit the buffer and the size of the file; afterwards the cached file holds the same bytes.
pub read_at-FatFile :
    (sector : ℕ → ℕ → ℕ) (f : FileAllocTable) (file : FatFile)
    (check_slice : ℕ → ℕ → KResult (Unit {0})) (len offset now : ℕ)
    → 0 < f.sector_per_cluster
    → f.sector_per_cluster < 2 ^ 8
    → AreReadable f file.clusters
    → file.meta.data_len ≤ length file.clusters * f.sector_per_cluster * sector_size
    → file.meta.data_len < 2 ^ 32
    → ((a b : ℕ) → check_slice a b ≡ ok tt)
    → file.meta.page_cache.pages ≡ []
    → file.meta.data_len / 4096 < file.meta.page_cache.free_frames
    → (s' : InodeMeta) × (read_at (read_inode_at sector f file) check_slice len offset now file.meta
        ≡ (
          ok (tabulate (file_byte sector f file) offset (min len (file.meta.data_len - offset))),
          s',
        ))
      × ((x : ℕ)
          → x < file.meta.data_len
          → byte_at (file_byte sector f file) s' x ≡ file_byte sector f file x)
      × (s'.data_len ≡ file.meta.data_len)
read_at-FatFile sector f file check_slice len offset now h1 h2 h3 h4 h5 c e k =
    let disk = file_byte sector f file in
    let (s', r, same, l) =
      read_at_lem (read_inode_at sector f file) check_slice disk len offset now file.meta
        (read_inode_at-ReadsFile sector f file file.meta.data_len h1 h2 h3 h4 h5) c k in
    let fresh = λ (x : ℕ). uncached disk file.meta x e in
    (
      s',
      r
          ∙ ap (λ (l : List ℕ). (ok l, s'))
              (tabulate_cong (byte_at disk file.meta) disk offset offset
                (min len (file.meta.data_len - offset)) (λ i a. fresh (offset + i))),
      λ x a. same x a ∙ fresh x,
      l,
    )
