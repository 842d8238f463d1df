-- ===== src/Fat32/Fat/Meta.antt =====
-- What `maintain_alloc_meta` establishes.
use Prim.Native.Nat.{bit_and}
use asynclear.Prelude.{
  ℕ, suc, ◌+◌, ◌<◌, ◌≤◌, ◌≡◌, ◌⊎◌, ◌^◌, refl, min, List, [], ◌∷◌, ltb, ◌==◌, ◌||◌, length, drop,
  if◌then◌else◌, ok, arith, inl, inr, Bool-cases, true, length-drop, ◌∙◌,
}
use asynclear.Fat32.Fat.{
  FileAllocTable, FatAllocMeta, fat_entry_mask, invalid_alloc_meta, scan_free, maintain_alloc_meta,
  is_inconsistent,
}
use asynclear.Fat32.Fat.Alloc.{IsValid}

-- How many entries are free.
abbrev pub count_free : List ℕ → ℕ
count_free [] = 0
count_free (entry ∷ rest) =
    let n : ℕ = count_free rest in if bit_and entry fat_entry_mask == 0 then suc n else n

-- The hint is the mark for none, or a data cluster.
abbrev pub IsHint : ℕ → ℕ → Type 0
IsHint count next = (next ≡ invalid_alloc_meta) ⊎ ((2 ≤ next) × (next < count + 2))

scan_count :
    (meta : FatAllocMeta) (start : ℕ) (xs : List ℕ)
    → (scan_free meta start xs).free_count ≡ meta.free_count + count_free xs
unfolding scan_free
scan_count meta start [] = omega arith
scan_count meta start (x ∷ xs) = elim (Bool-cases (bit_and x fat_entry_mask == 0)) [
  | inl h ↦
      rw (scan_free, h)
        (scan_count
            (record { free_count = meta.free_count + 1; next_free = min meta.next_free start })
            (start + 1) xs
          ∙ omega arith)
  | inr h ↦ rw (scan_free, h) (scan_count meta (start + 1) xs)
]

count_le : (xs : List ℕ) → count_free xs ≤ length xs
count_le [] = omega arith
count_le (x ∷ xs) = ground (arith, count_le xs)

IsHint-min :
    (count next start : ℕ)
    → 2 ≤ start
    → start < count + 2
    → count + 2 < invalid_alloc_meta
    → IsHint count next
    → IsHint count (min next start)
IsHint-min count next start l b s (inl e) = inr (omega (arith, e), omega (arith, e))
IsHint-min count next start l b s (inr h) = inr (omega (arith, h), omega (arith, h))

scan-IsHint :
    (meta : FatAllocMeta) (start count : ℕ) (xs : List ℕ)
    → 2 ≤ start
    → start + length xs ≤ count + 2
    → count + 2 < invalid_alloc_meta
    → IsHint count meta.next_free
    → IsHint count (scan_free meta start xs).next_free
unfolding scan_free
scan-IsHint meta start count [] l b s h = h
scan-IsHint meta start count (x ∷ xs) l b s h = elim (Bool-cases (bit_and x fat_entry_mask == 0)) [
  | inl e ↦
      rw (scan_free, e)
        (scan-IsHint
          (record { free_count = meta.free_count + 1; next_free = min meta.next_free start })
          (start + 1) count xs (omega arith) (omega arith) s
          (IsHint-min count meta.next_free start l (omega arith) s h))
  | inr e ↦
      rw (scan_free, e) (scan-IsHint meta (start + 1) count xs (omega arith) (omega arith) s h)
]

-- What `maintain_alloc_meta` leaves as the record of free clusters.
abbrev pub IsMaintained : FileAllocTable → FatAllocMeta → Type 0
IsMaintained f meta =
    IsHint f.data_clusters_count meta.next_free
    × (meta.free_count ≤ f.data_clusters_count)
    × (is_inconsistent f.alloc_meta f.data_clusters_count ≡ true
        → meta.free_count ≡ count_free (drop 2 f.fat_entries))

scanned-IsMaintained :
    (f : FileAllocTable)
    → IsValid f
    → IsMaintained f (
        scan_free
          (record { free_count = 0; next_free = invalid_alloc_meta })
          2
          (drop 2 f.fat_entries))
scanned-IsMaintained f v =
    let n = length-drop 2 f.fat_entries in
    let c =
      scan_count (record { free_count = 0; next_free = invalid_alloc_meta }) 2
        (drop 2 f.fat_entries) in
    (
      scan-IsHint (record { free_count = 0; next_free = invalid_alloc_meta }) 2
          f.data_clusters_count (drop 2 f.fat_entries) (omega arith) (omega (arith, n, v.0))
          (omega (arith, v.1)) (inl refl),
      omega (arith, c, count_le (drop 2 f.fat_entries), n, v.0),
      λ i. omega (arith, c),
    )

-- `maintain_alloc_meta` of a table of full length succeeds and changes only the record of free clusters.
-- Its hint is then the mark for none or a data cluster, its count is at most the number of data
-- clusters, and the count is the number of free entries if the record read from the disk was out of
-- range.
pub maintain_alloc_meta_lem :
    (f : FileAllocTable)
    → IsValid f
    → (meta : FatAllocMeta) × (maintain_alloc_meta f ≡ ok (record f { alloc_meta = meta }))
      × IsMaintained f meta
unfolding maintain_alloc_meta
maintain_alloc_meta_lem f v =
    let total : ltb (f.data_clusters_count + 2) (2 ^ 32) ≡ true = ground (arith, v.1) in
    elim (Bool-cases (is_inconsistent f.alloc_meta f.data_clusters_count)) [
      | inl i ↦ (_, rw (total, i) refl, scanned-IsMaintained f v)
      | inr i ↦
          elim (Bool-cases (
            f.alloc_meta.free_count == invalid_alloc_meta
            || f.alloc_meta.next_free == invalid_alloc_meta)) [
              | inl u ↦ (_, rw (total, i, u) refl, scanned-IsMaintained f v)
              | inr u ↦ (
                f.alloc_meta,
                rw (total, i, u) refl,
                (ground arith, ground arith, λ y. ground arith),
              )
            ]
    ]
