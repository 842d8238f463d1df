-- ===== src/Fat32Vfs/File/Page.antt =====
-- Reading a page of a file reads its sectors.
use native.Mathlib.Nat.{suc-mul, div-add-mod', mod-lt}
use asynclear.Prelude.{
  ℕ, zero, suc, ◌+◌, ◌-◌, ◌*◌, ◌/◌, ◌%◌, ◌^◌, ◌≤◌, ◌<◌, ◌≡◌, refl, ◌∙◌, ap, subst, min, true, false,
  ◌&&◌, List, [], ◌∷◌, length, drop, ltb, leb, lt_cases, if◌then◌else◌, ok, inl, inr, arith,
}
use asynclear.Fat32.Fat.{FileAllocTable}
use asynclear.Fat32Vfs.File.{
  FatFile, sector_size, copy_sector, read_sectors, read_clusters, read_page, page_id_to_cluster_pos,
}
use asynclear.Fat32Vfs.File.Sectors.{
  first_sector, sector_at, AreReadable, cluster_sectors_lem, in_first, in_later, IsRead,
  AreReadable-drop, length-drop_mul, sector_at-drop,
}

module _ (sector : ℕ → ℕ → ℕ) where
  IsRead-copy_sector :
      (count id : ℕ) (page : ℕ → ℕ)
      → IsRead sector count
          (count + 1)
          (λ k. id + (k - count))
          page
          (copy_sector page count (sector id))
  unfolding copy_sector
  IsRead-copy_sector count id page = (
    λ i a b.
        let t : (leb (count * sector_size) i && ltb i ((count + 1) * sector_size)) ≡ true =
          ground arith in
        let u : id + (i / sector_size - count) ≡ id = omega arith in
        let w : i - count * sector_size ≡ i % sector_size = omega arith in rw (t, u, w) refl,
    λ i a.
        let t : (leb (count * sector_size) i && ltb i ((count + 1) * sector_size)) ≡ false =
          elim a [ inl b ↦ ground arith | inr b ↦ ground arith ] in
        rw t refl,
  )

  -- Sectors read in two parts.
  IsRead-trans :
      (from mid to : ℕ) (id1 id2 id : ℕ → ℕ) (page page1 page2 : ℕ → ℕ)
      → from ≤ mid
      → mid ≤ to
      → ((k : ℕ) → from ≤ k → k < mid → id1 k ≡ id k)
      → ((k : ℕ) → mid ≤ k → k < to → id2 k ≡ id k)
      → IsRead sector from mid id1 page page1
      → IsRead sector mid to id2 page1 page2
      → IsRead sector from to id page page2
  IsRead-trans from mid to id1 id2 id page page1 page2 h1 h2 e1 e2 (r1, o1) (r2, o2) = (
    λ i a b. elim (lt_cases i (mid * sector_size)) [
      | inl c ↦
          o2 i (inl c)
          ∙ r1 i a c
          ∙ ap (λ (n : ℕ). sector n (i % sector_size))
              (e1 (i / sector_size) (omega arith) (omega arith))
      | inr c ↦
          r2 i c b
          ∙ ap (λ (n : ℕ). sector n (i % sector_size))
              (e2 (i / sector_size) (omega arith) (omega arith))
    ],
    λ i a. elim a [
      | inl b ↦ o2 i (inl (omega arith)) ∙ o1 i (inl b)
      | inr b ↦ o2 i (inr b) ∙ o1 i (inr (omega arith))
    ],
  )

  read_sectors_lem :
      (left id count to : ℕ) (page : ℕ → ℕ)
      → count < 8
      → to ≡ min 8 (count + left)
      → (page' : ℕ → ℕ) × (read_sectors sector left id count page ≡ (to, page'))
        × IsRead sector count to (λ k. id + (k - count)) page page'
  unfolding read_sectors
  read_sectors_lem zero id count to page h e =
      let q : count ≡ to = omega arith in
      (page, rw q refl, (λ i a b. absurd (omega arith), λ i a. refl))
  read_sectors_lem (suc left) id count to page h e = elim (lt_cases count 7) [
    | inl l ↦
        let t : leb 8 (count + 1) ≡ false = ground arith in
        let (page', q, r) =
          read_sectors_lem left (id + 1) (count + 1) to (copy_sector page count (sector id))
            (omega arith) (omega arith) in
        (
          page',
          rw (t, q) refl,
          IsRead-trans count (count + 1) to (λ k. id + (k - count))
              (λ k. id + 1 + (k - (count + 1))) (λ k. id + (k - count)) page
              (copy_sector page count (sector id)) page' (omega arith) (omega arith) (λ k a b. refl)
              (λ k a b. omega arith) (IsRead-copy_sector count id page) r,
        )
    | inr l ↦
        let t : leb 8 (count + 1) ≡ true = ground arith in
        let q : count + 1 ≡ to = omega arith in
        (
          copy_sector page count (sector id),
          rw (t, q) refl,
          subst
              (λ (n : ℕ).
                IsRead sector count n (λ k. id + (k - count)) page
                  (copy_sector page count (sector id)))
              q (IsRead-copy_sector count id page),
        )
  ]

  read_clusters_step :
      (f : FileAllocTable) (c : ℕ) (cs : List ℕ) (offset count mid : ℕ) (page page1 : ℕ → ℕ)
      → (2 ≤ c) × (first_sector f c + f.sector_per_cluster < 2 ^ 32)
      → read_sectors sector (f.sector_per_cluster - offset) (first_sector f c + offset) count page
        ≡ (mid, page1)
      → read_clusters sector f (c ∷ cs) offset count page
        ≡ (if leb 8 mid then ok (mid, page1) else read_clusters sector f cs 0 mid page1)
  unfolding read_clusters
  read_clusters_step f c cs offset count mid page page1 h e =
      let left : (first_sector f c + f.sector_per_cluster) - (first_sector f c + offset)
          ≡ f.sector_per_cluster - offset =
        omega arith in
      rw (cluster_sectors_lem f c h.0 h.1, left, e) refl

  read_clusters_lem :
      (f : FileAllocTable) (cs : List ℕ) (offset count to : ℕ) (page : ℕ → ℕ)
      → offset < f.sector_per_cluster
      → count < 8
      → AreReadable f cs
      → to ≡ min 8 (count + (length cs * f.sector_per_cluster - offset))
      → (page' : ℕ → ℕ) × (read_clusters sector f cs offset count page ≡ ok (to, page'))
        × IsRead sector count to (λ k. sector_at f cs (offset + (k - count))) page page'
  unfolding read_clusters
  read_clusters_lem f [] offset count to page h1 h2 h3 e =
      let q : count ≡ to = omega arith in
      (page, rw q refl, (λ i a b. absurd (omega arith), λ i a. refl))
  read_clusters_lem f (c ∷ cs) offset count to page h1 h2 h3 e =
      let spc = f.sector_per_cluster in
      let start = first_sector f c in
      let mid = min 8 (count + (spc - offset)) in
      let size : length (c ∷ cs) * spc ≡ length cs * spc + spc = suc-mul (length cs) spc in
      let (page1, e1, r1) =
        read_sectors_lem (spc - offset) (start + offset) count mid page h2 refl in
      let step = read_clusters_step f c cs offset count mid page page1 h3.0 e1 in
      elim (lt_cases mid 8) [
        | inr l ↦
            let t : leb 8 mid ≡ true = ground arith in
            let q : mid ≡ to = omega (arith, size, l) in
            (
              page1,
              step ∙ rw (t, q) refl,
              subst
                  (λ (n : ℕ).
                    IsRead sector count n (λ k. sector_at f (c ∷ cs) (offset + (k - count))) page
                      page1)
                  q
                  (IsRead-trans count mid mid (λ k. start + offset + (k - count)) (λ k. 0)
                    (λ k. sector_at f (c ∷ cs) (offset + (k - count))) page page1 page1
                    (omega arith) (omega arith)
                    (λ k a b. in_first f c cs offset count k a (omega arith))
                    (λ k a b. absurd (omega arith)) r1
                    (λ i a b. absurd (omega arith), λ i a. refl)),
            )
        | inl l ↦
            let t : leb 8 mid ≡ false = ground arith in
            let m : mid ≡ count + (spc - offset) = omega arith in
            let (page', e2, r2) =
              read_clusters_lem f cs 0 mid to page1 (omega arith) l h3.1 (omega (arith, size)) in
            (
              page',
              step ∙ rw t e2,
              IsRead-trans count mid to (λ k. start + offset + (k - count))
                  (λ k. sector_at f cs (0 + (k - mid)))
                  (λ k. sector_at f (c ∷ cs) (offset + (k - count))) page page1 page' (omega arith)
                  (omega (arith, size)) (λ k a b. in_first f c cs offset count k a (omega arith))
                  (λ k a b. in_later f c cs offset count mid k (omega arith) m a) r1 r2,
            )
      ]

  read_page_step :
      (f : FileAllocTable) (file : FatFile) (page_id : ℕ) (page : ℕ → ℕ) (to : ℕ) (page' : ℕ → ℕ)
      → 0 < f.sector_per_cluster
      → f.sector_per_cluster < 2 ^ 8
      → page_id * 8 < 2 ^ 32
      → read_clusters sector f
          (drop (page_id * 8 / f.sector_per_cluster) file.clusters)
          (page_id * 8 % f.sector_per_cluster)
          0
          page
        ≡ ok (to, page')
      → read_page sector f file page_id page ≡ ok (to * sector_size, page')
  unfolding read_page page_id_to_cluster_pos
  read_page_step f file page_id page to page' h1 h2 h4 e =
      let a : ltb (page_id * 8) (2 ^ 64) ≡ true = ground arith in
      let b : ltb 0 f.sector_per_cluster ≡ true = ground arith in
      let c : page_id * 8 % 2 ^ 32 ≡ page_id * 8 = omega arith in
      let m : page_id * 8 % f.sector_per_cluster < f.sector_per_cluster = mod-lt (page_id * 8) h1 in
      let d : page_id * 8 % f.sector_per_cluster % 2 ^ 8 ≡ page_id * 8 % f.sector_per_cluster =
        omega (arith, m) in
      rw (a, c, b, d, e) refl

  -- `read_page` of a file whose clusters have sectors on the device: the sectors of the page that lie in
  -- the clusters of the file are copied to it in order, from the clusters in the order of the chain; the
  -- rest of the page stays as it was. It returns the number of bytes copied.
  pub read_page_lem :
      (f : FileAllocTable) (file : FatFile) (page_id : ℕ) (page : ℕ → ℕ)
      → 0 < f.sector_per_cluster
      → f.sector_per_cluster < 2 ^ 8
      → AreReadable f file.clusters
      → page_id * 8 < 2 ^ 32
      → (to : ℕ) × (page' : ℕ → ℕ) × (read_page sector f file page_id page
          ≡ ok (to * sector_size, page'))
        × (to ≡ min 8 (length file.clusters * f.sector_per_cluster - page_id * 8))
        × IsRead sector 0 to (λ k. sector_at f file.clusters (page_id * 8 + k)) page page'
  unfolding read_page page_id_to_cluster_pos
  read_page_lem f file page_id page h1 h2 h3 h4 =
      let spc = f.sector_per_cluster in
      let index = page_id * 8 / spc in
      let offset = page_id * 8 % spc in
      let to = min 8 (length file.clusters * spc - page_id * 8) in
      let split : index * spc + offset ≡ page_id * 8 = div-add-mod' (page_id * 8) spc in
      let small : offset < spc = mod-lt (page_id * 8) h1 in
      let (page', e, (r, o)) =
        read_clusters_lem f (drop index file.clusters) offset 0 to page small (omega arith)
          (AreReadable-drop f index file.clusters h3)
          (omega (arith, split, length-drop_mul index spc file.clusters)) in
      (
        to,
        page',
        read_page_step f file page_id page to page' h1 h2 h4 e,
        refl,
        (
          λ i a b.
              r i a b
              ∙ ap (λ (n : ℕ). sector n (i % sector_size))
                  (sector_at-drop f index file.clusters (offset + (i / sector_size - 0))
                    ∙ ap (sector_at f file.clusters) (omega (arith, split))),
          o,
        ),
      )
