-- ===== src/Fat32Vfs/File/Sectors.antt =====
-- The sectors of a list of clusters.
use native.Mathlib.Nat.{suc-mul}
use asynclear.Prelude.{
  ℕ, zero, suc, ◌+◌, ◌-◌, ◌*◌, ◌/◌, ◌%◌, ◌^◌, ◌≤◌, ◌<◌, ◌≡◌, refl, true, false, ◌⊎◌, List, [], ◌∷◌,
  length, drop, All, ltb, if◌then◌else◌, ok, arith,
}
use asynclear.Fat32.Fat.{FileAllocTable, cluster_sectors}
use asynclear.Fat32Vfs.File.{sector_size}

-- The first sector of a cluster, and the number on the device of the sector `n` of a list of clusters.
abbrev pub first_sector : FileAllocTable → ℕ → ℕ
first_sector f c = f.data_start_sector_id + (c - 2) * f.sector_per_cluster

abbrev pub sector_at : FileAllocTable → List ℕ → ℕ → ℕ
sector_at f [] n = 0
sector_at f (c ∷ cs) n =
    let later = sector_at f cs (n - f.sector_per_cluster) in
    if ltb n f.sector_per_cluster then first_sector f c + n else later

-- The sectors of the clusters have numbers of 32 bits.
abbrev pub AreReadable : FileAllocTable → List ℕ → Type 0
AreReadable f cs = All (λ (c : ℕ). (2 ≤ c) × (first_sector f c + f.sector_per_cluster < 2 ^ 32)) cs

pub cluster_sectors_lem :
    (f : FileAllocTable) (c : ℕ)
    → 2 ≤ c
    → first_sector f c + f.sector_per_cluster < 2 ^ 32
    → cluster_sectors f c ≡ ok (first_sector f c, first_sector f c + f.sector_per_cluster)
unfolding cluster_sectors
cluster_sectors_lem f c h b = ground arith

pub in_first :
    (f : FileAllocTable) (c : ℕ) (cs : List ℕ) (offset count k : ℕ)
    → count ≤ k
    → k < count + (f.sector_per_cluster - offset)
    → first_sector f c + offset + (k - count) ≡ sector_at f (c ∷ cs) (offset + (k - count))
in_first f c cs offset count k a b =
    let t : ltb (offset + (k - count)) f.sector_per_cluster ≡ true = ground arith in
    rw t (omega arith)

pub in_later :
    (f : FileAllocTable) (c : ℕ) (cs : List ℕ) (offset count mid k : ℕ)
    → offset < f.sector_per_cluster
    → mid ≡ count + (f.sector_per_cluster - offset)
    → mid ≤ k
    → sector_at f cs (0 + (k - mid)) ≡ sector_at f (c ∷ cs) (offset + (k - count))
in_later f c cs offset count mid k h m a =
    let t : ltb (offset + (k - count)) f.sector_per_cluster ≡ false = ground arith in
    let e : offset + (k - count) - f.sector_per_cluster ≡ 0 + (k - mid) = omega arith in
    rw (t, e) refl

-- The sectors `from` up to `to` of a page are read, and nothing else of it has changed.
abbrev pub IsRead : (ℕ → ℕ → ℕ) → ℕ → ℕ → (ℕ → ℕ) → (ℕ → ℕ) → (ℕ → ℕ) → Type 0
IsRead sector from to id page page' =
    ((i : ℕ)
      → from * sector_size ≤ i
      → i < to * sector_size
      → page' i ≡ sector (id (i / sector_size)) (i % sector_size))
    × ((i : ℕ) → (i < from * sector_size) ⊎ (to * sector_size ≤ i) → page' i ≡ page i)

pub AreReadable-drop :
    (f : FileAllocTable) (n : ℕ) (cs : List ℕ) → AreReadable f cs → AreReadable f (drop n cs)
AreReadable-drop f zero cs a = a
AreReadable-drop f (suc n) [] a = a
AreReadable-drop f (suc n) (c ∷ cs) a = AreReadable-drop f n cs a.1

pub length-drop_mul :
    (n spc : ℕ) (cs : List ℕ) → length (drop n cs) * spc ≡ length cs * spc - n * spc
length-drop_mul zero spc cs = omega arith
length-drop_mul (suc n) spc [] = omega arith
length-drop_mul (suc n) spc (c ∷ cs) =
    omega (arith, length-drop_mul n spc cs, suc-mul n spc, suc-mul (length cs) spc)

pub sector_at-drop :
    (f : FileAllocTable) (n : ℕ) (cs : List ℕ) (k : ℕ)
    → sector_at f (drop n cs) k ≡ sector_at f cs (n * f.sector_per_cluster + k)
sector_at-drop f zero cs k = let e : 0 * f.sector_per_cluster + k ≡ k = omega arith in rw e refl
sector_at-drop f (suc n) [] k = refl
sector_at-drop f (suc n) (c ∷ cs) k =
    let s = suc-mul n f.sector_per_cluster in
    let t : ltb (suc n * f.sector_per_cluster + k) f.sector_per_cluster ≡ false =
      ground (arith, s) in
    let e : suc n * f.sector_per_cluster + k - f.sector_per_cluster ≡ n * f.sector_per_cluster + k =
      omega (arith, s) in
    rw (t, e) (sector_at-drop f n cs k)
