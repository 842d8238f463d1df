-- ===== src/Fs/Inode/Read.antt =====
-- Reading through the page cache is reading the file.
use asynclear.Prelude.{
  ℕ, zero, suc, ◌+◌, ◌-◌, ◌*◌, ◌/◌, ◌%◌, ◌≤◌, ◌<◌, ◌≡◌, refl, sym, ◌∙◌, ap, true, false, Bool-cases,
  ltb, lt_cases, some, ◌==◌, KResult, ok, inl, inr, List, ◌++◌, tabulate, tabulate_cong,
  tabulate_split, min, arith,
}
use asynclear.Config.{page_size}
use asynclear.Fs.PageCache.{BackedPage, is_invalid, synced}
use asynclear.Fs.Inode.{InodeMeta, store_page, fill_page, page_to_read, read_pages, read_at}
use asynclear.Fs.Inode.Content.{
  ReadsFile, cached_byte, byte_at, byte_at-store_page, get_or_init_page_lem,
}

-- An operation that leaves the contents of the file alone, and uses at most `k` frames.
abbrev pub Keeps : (ℕ → ℕ) → ℕ → InodeMeta → InodeMeta → Type 0
Keeps disk k s s' =
    ((x : ℕ) → x < s.data_len → byte_at disk s' x ≡ byte_at disk s x)
    × (s'.data_len ≡ s.data_len)
    × (s.page_cache.free_frames ≤ s'.page_cache.free_frames + k)

-- The part of a page inside the file is what the file holds.
abbrev pub Shows : (ℕ → ℕ) → InodeMeta → ℕ → BackedPage → Type 0
Shows disk s page_id p =
    (i : ℕ)
    → i < page_size
    → page_id * page_size + i < s.data_len
    → p.bytes i ≡ byte_at disk s (page_id * page_size + i)

abbrev pub chunk_len : ℕ → ℕ → ℕ → ℕ
chunk_len offset end n = min (end - n) (page_size - (offset + n) % page_size)

from_zero : (f : ℕ → ℕ) (a n : ℕ) → tabulate f (a + 0) (n - 0) ≡ tabulate f a n
from_zero f a n =
    let x : a + 0 ≡ a = omega arith in let y : n - 0 ≡ n = omega arith in rw (x, y) refl

-- What is copied from a page, and what the later pages hold.
join_pieces :
    (file later page : ℕ → ℕ) (po a a' n m m' : ℕ)
    → a' ≡ a + n
    → m ≡ n + m'
    → ((k : ℕ) → k < n → page (po + k) ≡ file (a + k))
    → ((k : ℕ) → k < m' → later (a' + k) ≡ file (a' + k))
    → tabulate page po n ++ tabulate later a' m' ≡ tabulate file a m
join_pieces file later page po a a' n m m' e e' h h' =
    rw
      (
        tabulate_cong page file po a n h,
        tabulate_cong later file a' a' m' h',
        e,
        e',
        ← tabulate_split file a n m',
      )
      refl

module _ (read_inode_at : ℕ → (ℕ → ℕ) → KResult (ℕ → ℕ)) (check_slice : ℕ → ℕ → KResult (Unit {0}))
    (disk : ℕ → ℕ) where
  fill_page_lem :
      (s : InodeMeta) (page_id : ℕ) (p : BackedPage)
      → ReadsFile read_inode_at disk s.data_len
      → page_id * page_size ≤ s.data_len
      → is_invalid p.state ≡ true
      → ((x : ℕ) → page_id ≡ x / page_size → cached_byte disk (some p) x ≡ byte_at disk s x)
      → (p' : BackedPage) × (s' : InodeMeta) × (fill_page read_inode_at check_slice page_id p s
          ≡ (ok p', s'))
        × Keeps disk 0 s s'
        × Shows disk s page_id p'
  unfolding fill_page
  fill_page_lem s page_id p r m h c =
      let (bytes, e, d) = r page_id p.bytes m in
      let p' : BackedPage = record { bytes = bytes; state = synced } in
      let shown : Shows disk s page_id p' = λ i a b.
        let q : (page_id * page_size + i) / page_size ≡ page_id = omega arith in
        d i a b ∙ (let t = c (page_id * page_size + i) (sym q) in rw h at t) in
      (
        p',
        store_page page_id p' s,
        rw e refl,
        (
          λ x b.
              byte_at-store_page disk s page_id p' x
              ∙ elim (Bool-cases (page_id == x / page_size)) [
                | inr n ↦ rw n refl
                | inl y ↦
                    let q : x ≡ page_id * page_size + x % page_size = ground (arith, y) in
                    rw y (
                      shown (x % page_size) (omega arith) (omega arith)
                      ∙ ap (byte_at disk s) (sym q))
              ],
          unfold store_page in refl,
          unfold store_page in omega arith,
        ),
        shown,
      )

  page_to_read_lem :
      (s : InodeMeta) (page_id : ℕ)
      → ReadsFile read_inode_at disk s.data_len
      → page_id * page_size ≤ s.data_len
      → 0 < s.page_cache.free_frames
      → (p : BackedPage) × (s' : InodeMeta) × (page_to_read read_inode_at check_slice page_id s
          ≡ (ok p, s'))
        × Keeps disk 1 s s'
        × Shows disk s page_id p
  unfolding page_to_read
  page_to_read_lem s page_id r m f =
      let (p, s1, e, (same, c, l, k, elsewhere, entry)) = get_or_init_page_lem disk s page_id f in
      elim (Bool-cases (is_invalid p.state)) [
        | inr v ↦ (
          p,
          s1,
          rw (e, v) refl,
          (λ x b. same x, l, k),
          λ i a b.
              let q : page_id ≡ (page_id * page_size + i) / page_size = omega arith in
              let m : (page_id * page_size + i) % page_size ≡ i = omega arith in
              let t = c (page_id * page_size + i) q in rw (v, m) at t,
        )
        | inl v ↦
            let (p', s2, e2, (same2, l2, k2), shown) =
              fill_page_lem s1 page_id p (rw l r) (rw l m) v (λ x h. c x h ∙ sym (same x)) in
            (
              p',
              s2,
              rw (e, v) e2,
              (λ x b. same2 x (rw l b) ∙ same x, l2 ∙ l, omega (arith, k, k2)),
              λ i a b. shown i a (rw l b) ∙ same (page_id * page_size + i),
            )
      ]

  -- One round of the loop.
  read_step :
      (fuel offset read_end nread : ℕ) (s s1 s2 : InodeMeta) (p : BackedPage) (rest : List ℕ)
      → ltb nread read_end ≡ true
      → page_to_read read_inode_at check_slice ((offset + nread) / page_size) s ≡ (ok p, s1)
      → check_slice nread (chunk_len offset read_end nread) ≡ ok tt
      → read_pages read_inode_at check_slice fuel offset read_end
          (nread + chunk_len offset read_end nread)
          s1
        ≡ (ok rest, s2)
      → read_pages read_inode_at check_slice (suc fuel) offset read_end nread s ≡ (
        ok (
            tabulate p.bytes ((offset + nread) % page_size) (chunk_len offset read_end nread)
            ++ rest),
        s2,
      )
  unfolding read_pages
  read_step fuel offset read_end nread s s1 s2 p rest b e1 c e2 = rw (b, e1, c, e2) refl

  read_pages_lem :
      (fuel offset read_end nread : ℕ) (s : InodeMeta)
      → ReadsFile read_inode_at disk s.data_len
      → ((a b : ℕ) → check_slice a b ≡ ok tt)
      → offset + read_end ≤ s.data_len
      → nread ≤ read_end
      → read_end < nread + fuel
      → (nread < read_end
          → (offset + read_end + 4095) / 4096 ≤ (offset + nread) / 4096 + s.page_cache.free_frames)
      → (s' : InodeMeta) × (read_pages read_inode_at check_slice fuel offset read_end nread s
          ≡ (ok (tabulate (byte_at disk s) (offset + nread) (read_end - nread)), s'))
        × Keeps disk (read_end - nread) s s'
  unfolding read_pages
  read_pages_lem zero offset read_end nread s r c h1 h2 h3 f = absurd (omega arith)
  read_pages_lem (suc fuel) offset read_end nread s r c h1 h2 h3 f =
      elim (lt_cases nread read_end) [
        | inr e ↦
            let b : ltb nread read_end ≡ false = ground arith in
            let z : read_end - nread ≡ 0 = omega arith in
            (s, rw (b, z) refl, (λ x p. refl, refl, omega arith))
        | inl l ↦
            let b : ltb nread read_end ≡ true = ground arith in
            let po = (offset + nread) % 4096 in
            let id = (offset + nread) / 4096 in
            let n = min (read_end - nread) (4096 - po) in
            let (p, s1, e1, (same1, l1, k1), shown) =
              page_to_read_lem s id r (omega arith) (omega (arith, f l)) in
            let (s2, e2, (same2, l2, k2)) =
              read_pages_lem fuel offset read_end (nread + n) s1 (rw l1 r) c (omega (arith, l1))
                (omega arith) (omega arith) (λ q. omega (arith, f l, k1)) in
            let pieces =
              join_pieces (byte_at disk s) (byte_at disk s1) p.bytes po (offset + nread)
                (offset + (nread + n)) n (read_end - nread) (read_end - (nread + n)) (omega arith)
                (omega arith)
                (λ k q.
                  let w : id * 4096 + (po + k) ≡ (offset + nread) + k = omega arith in
                  shown (po + k) (omega arith) (omega arith) ∙ ap (byte_at disk s) w)
                (λ k q. same1 (offset + (nread + n) + k) (omega arith)) in
            (
              s2,
              read_step fuel offset read_end nread s s1 s2 p _ b e1 (c nread n) e2
                  ∙ ap (λ (l : List ℕ). (ok l, s2)) pieces,
              (λ x q. same2 x (rw l1 q) ∙ same1 x q, l2 ∙ l1, omega (arith, k1, k2)),
            )
      ]

  read_at_step :
      (len offset now : ℕ) (s s' : InodeMeta) (bytes bytes' : List ℕ)
      → ltb s.data_len offset ≡ false
      → read_pages read_inode_at check_slice
          (suc (min len (s.data_len - offset)))
          offset
          (min len (s.data_len - offset))
          0
          s
        ≡ (ok bytes, s')
      → bytes ≡ bytes'
      → read_at read_inode_at check_slice len offset now s
        ≡ (ok bytes', record s' { access_time = now })
  unfolding read_at
  read_at_step len offset now s s' bytes bytes' b e h = rw (b, e, h) refl

  -- `read_at` of a regular file, when the file system below reads its pages, the buffer is accessible,
  -- and there are frames for the pages of the file, returns exactly the bytes of the file from `offset`
  -- on, as many as fit the buffer and the file, and none from behind its end. It changes no byte of the
  -- file and not its length, whatever part of it was cached.
  pub read_at_lem :
      (len offset now : ℕ) (s : InodeMeta)
      → ReadsFile read_inode_at disk s.data_len
      → ((a b : ℕ) → check_slice a b ≡ ok tt)
      → s.data_len / 4096 < s.page_cache.free_frames
      → (s' : InodeMeta) × (read_at read_inode_at check_slice len offset now s
          ≡ (ok (tabulate (byte_at disk s) offset (min len (s.data_len - offset))), s'))
        × ((x : ℕ) → x < s.data_len → byte_at disk s' x ≡ byte_at disk s x)
        × (s'.data_len ≡ s.data_len)
  unfolding read_at
  read_at_lem len offset now s r c f = elim (lt_cases s.data_len offset) [
    | inl h ↦
        let b : ltb s.data_len offset ≡ true = ground arith in
        let z : min len (s.data_len - offset) ≡ 0 = omega arith in
        (s, rw (b, z) refl, λ x p. refl, refl)
    | inr h ↦
        let b : ltb s.data_len offset ≡ false = ground arith in
        let n = min len (s.data_len - offset) in
        let (s', e, (same, l, k)) =
          read_pages_lem (suc n) offset n 0 s r c (omega arith) (omega arith) (omega arith)
            (λ q. omega arith) in
        (
          record s' { access_time = now },
          read_at_step len offset now s s' _ _ b e (from_zero (byte_at disk s) offset n),
          same,
          l,
        )
  ]
