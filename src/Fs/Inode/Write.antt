-- ===== src/Fs/Inode/Write.antt =====
-- Writing through the page cache.
use asynclear.Prelude.{
  ℕ, zero, suc, ◌+◌, ◌-◌, ◌*◌, ◌/◌, ◌%◌, ◌≤◌, ◌<◌, ◌≡◌, ◌⊎◌, refl, ◌∙◌, ap, subst, true, false,
  Bool-cases, ltb, lt_cases, KResult, ok, inl, inr, List, length, get_or, take, drop, min, max,
  arith,
}
use asynclear.Config.{page_size, usize_mod}
use asynclear.BTreeMap.{get}
use asynclear.Fs.PageCache.{BackedPage, PageCache}
use asynclear.Fs.Inode.{
  InodeMeta, store_page, copy_into, page_to_write, write_pages, write_at, round_up,
}
use asynclear.Fs.Inode.Content.{SameElsewhere, ReadsFile, byte_at}
use asynclear.Fs.Inode.Fetch.{IsSafe, IsOutside, page_to_write_lem}
use asynclear.Fs.Inode.Copy.{IsCopied, copied_lem, same_byte}

pub lt_true : (a b : ℕ) → a < b → ltb a b ≡ true
lt_true a b h = ground arith

IsSafe-later :
    (s s2 : InodeMeta) (offset len id j : ℕ)
    → s2.data_len ≡ s.data_len
    → SameElsewhere id s s2
    → id < j
    → IsSafe s offset len j
    → IsSafe s2 offset len j
IsSafe-later s s2 offset len id j l elsewhere h (inl a) = inl a
IsSafe-later s s2 offset len id j l elsewhere h (inr (inl (p, g, v))) =
    inr (inl (p, elsewhere j (λ q. omega arith) ∙ g, v))
IsSafe-later s s2 offset len id j l elsewhere h (inr (inr w)) =
    inr (inr (λ x a b. w x a (omega arith)))

module _ (read_inode_at : ℕ → (ℕ → ℕ) → KResult (ℕ → ℕ)) (check_slice : ℕ → ℕ → KResult (Unit {0}))
    (disk : ℕ → ℕ) where
  -- One round of the loop.
  pub write_step :
      (fuel : ℕ) (buf : List ℕ) (offset last nwrite n : ℕ) (s s1 : InodeMeta) (p : BackedPage)
      → ltb nwrite (length buf) ≡ true
      → n ≡ min (length buf - nwrite) (page_size - (offset + nwrite) % page_size)
      → page_to_write read_inode_at check_slice
          ((offset + nwrite) / page_size)
          last
          (offset / page_size * page_size)
          (round_up (offset + length buf))
          s
        ≡ (ok p, s1)
      → check_slice nwrite n ≡ ok tt
      → write_pages read_inode_at check_slice (suc fuel) buf offset last nwrite s
        ≡ write_pages read_inode_at check_slice fuel buf offset last (nwrite + n) (
            store_page
              ((offset + nwrite) / page_size)
              (record p {
                bytes =
                    copy_into p.bytes ((offset + nwrite) % page_size) (take n (drop nwrite buf));
              })
              s1)
  unfolding write_pages
  write_step fuel buf offset last nwrite n s s1 p b e1 e2 c = rw (e1, b, e2) (rw (← e1, c) refl)

  -- What the loop leaves from byte `nwrite` of the buffer on.
  abbrev pub IsWritten : InodeMeta → List ℕ → ℕ → ℕ → InodeMeta → Type 0
  IsWritten s buf offset nwrite s' =
      (s'.data_len ≡ s.data_len)
      × ((j : ℕ)
          → (j < (offset + nwrite) / page_size) ⊎ (length buf ≤ nwrite)
          → get s'.page_cache.pages j ≡ get s.page_cache.pages j)
      × ((x : ℕ)
          → offset + nwrite ≤ x
          → x < offset + length buf
          → byte_at disk s' x ≡ get_or buf (x - offset) 0)
      × ((x : ℕ)
          → x < s.data_len
          → IsOutside offset (length buf) x
          → byte_at disk s' x ≡ byte_at disk s x)

  pub write_end :
      (fuel : ℕ) (buf : List ℕ) (offset last nwrite : ℕ) (s : InodeMeta)
      → nwrite ≡ length buf
      → write_pages read_inode_at check_slice fuel buf offset last nwrite s ≡ (ok (length buf), s)
  unfolding write_pages
  write_end zero buf offset last nwrite s z =
      let b : ltb nwrite (length buf) ≡ false = ground arith in rw (b, z) refl
  write_end (suc fuel) buf offset last nwrite s z =
      let b : ltb nwrite (length buf) ≡ false = ground arith in rw (b, z) refl

  -- A round, and the rounds after it.
  IsWritten-later :
      (s s2 s' : InodeMeta) (buf : List ℕ) (offset nwrite n : ℕ)
      → IsCopied read_inode_at check_slice disk s buf offset nwrite n s2
      → (nwrite + n ≡ length buf) ⊎ ((offset + (nwrite + n)) % page_size ≡ 0)
      → nwrite < length buf
      → 0 < n
      → IsWritten s2 buf offset (nwrite + n) s'
      → IsWritten s buf offset nwrite s'
  IsWritten-later s s2 s' buf offset nwrite n (l, k, elsewhere, part, outside) t more pos
        (l', later, rest, outside') =
      (
        l' ∙ l,
        λ j h.
            later j (elim h [ inl u ↦ inl (omega arith) | inr u ↦ inr (omega arith) ])
            ∙ elsewhere j (λ q. elim h [ inl u ↦ omega arith | inr u ↦ omega arith ]),
        λ x a b. elim (lt_cases x (offset + (nwrite + n))) [
          | inr u ↦ rest x u b
          | inl u ↦
              same_byte read_inode_at check_slice disk s2 s' x (
                later (x / page_size)
                  (elim t [ inl z ↦ inr (omega arith) | inr z ↦ inl (omega arith) ]))
              ∙ part x a u
        ],
        λ x a b. outside' x (rw l a) b ∙ outside x a b,
      )

  write_pages_lem :
      (fuel : ℕ) (buf : List ℕ) (offset nwrite : ℕ) (s : InodeMeta)
      → ReadsFile read_inode_at disk s.data_len
      → ((a b : ℕ) → check_slice a b ≡ ok tt)
      → ((id : ℕ)
          → nwrite < length buf
          → (offset + nwrite) / page_size ≤ id
          → id * page_size < offset + length buf
          → IsSafe s offset (length buf) id)
      → nwrite ≤ length buf
      → length buf < nwrite + fuel
      → (nwrite < length buf
          → (offset + length buf + 4095) / 4096
            ≤ (offset + nwrite) / 4096 + s.page_cache.free_frames)
      → (s' : InodeMeta) × (write_pages read_inode_at check_slice fuel buf offset
            (s.data_len / page_size)
            nwrite
            s
          ≡ (ok (length buf), s'))
        × IsWritten s buf offset nwrite s'
  write_pages_lem zero buf offset nwrite s r c safe h1 h2 f = absurd (omega arith)
  write_pages_lem (suc fuel) buf offset nwrite s r c safe h1 h2 f =
      elim (lt_cases nwrite (length buf)) [
        | inr e ↦
            let z : nwrite ≡ length buf = omega arith in
            (
              s,
              write_end (suc fuel) buf offset (s.data_len / page_size) nwrite s z,
              (refl, λ j h. refl, λ x a b. absurd (omega arith), λ x a b. refl),
            )
        | inl l ↦
            let n = min (length buf - nwrite) (4096 - (offset + nwrite) % 4096) in
            let id = (offset + nwrite) / page_size in
            let (p, s1, e1, ready) =
              page_to_write_lem read_inode_at check_slice disk s offset (length buf) id r
                (omega (arith, f l)) (omega arith) (omega arith)
                (safe id l (omega arith) (omega arith)) in
            let s2 =
              store_page id
                (record p {
                  bytes = copy_into p.bytes ((offset + nwrite) % 4096) (take n (drop nwrite buf));
                })
                s1 in
            let copied =
              copied_lem read_inode_at check_slice disk s s1 buf offset nwrite n p ready
                (omega arith) (omega arith) in
            let (s', e2, w) =
              write_pages_lem fuel buf offset (nwrite + n) s2 (rw (copied.0) r) c
                (λ j q a b.
                  IsSafe-later s s2 offset (length buf) id j copied.0 copied.2 (omega arith)
                    (safe j l (omega arith) b))
                (omega arith) (omega arith) (λ q. omega (arith, f l, copied.1)) in
            (
              s',
              write_step fuel buf offset (s.data_len / page_size) nwrite n s s1 p
                    (lt_true nwrite (length buf) l) refl e1 (c nwrite n)
                  ∙ subst
                      (λ (d : ℕ).
                        write_pages read_inode_at check_slice fuel buf offset (d / page_size)
                          (nwrite + n) s2
                        ≡ (ok (length buf), s'))
                      copied.0 e2,
              IsWritten-later s s2 s' buf offset nwrite n copied (ground arith) l (omega arith) w,
            )
      ]

  pub write_at_step :
      (buf : List ℕ) (offset now : ℕ) (s s' : InodeMeta)
      → ltb (round_up (offset + length buf)) usize_mod ≡ true
      → write_pages read_inode_at check_slice
          (suc (length buf))
          buf
          offset
          (s.data_len / page_size)
          0
          s
        ≡ (ok (length buf), s')
      → (s2 : InodeMeta) × (write_at read_inode_at check_slice buf offset now s
          ≡ (ok (length buf), s2))
        × (s2.page_cache ≡ s'.page_cache)
        × (s2.data_len ≡ max s'.data_len (offset + length buf))
  unfolding write_at
  write_at_step buf offset now s s' b e =
      elim (Bool-cases (ltb s'.data_len (offset + length buf))) [
        | inl h ↦ (
          record s' {
            access_time = now;
            modify_time = now;
            data_len = offset + length buf;
            change_time = now;
          },
          rw (b, e, h) refl,
          refl,
          ground (arith, h),
        )
        | inr h ↦ (
          record s' { access_time = now; modify_time = now },
          rw (b, e, h) refl,
          refl,
          ground (arith, h),
        )
      ]

  -- `write_at` of a regular file returns the length of the buffer, when the file system below reads its
  -- pages, the buffer is accessible, there are frames for the pages, and no page loses bytes: the write
  -- starts in the first page of the file, or each of its pages is in the cache and valid, or is
  -- overwritten as far as the file goes. Then the file holds the buffer at `offset`, its other bytes are
  -- as they were, and its length covers the write.
  pub write_at_lem :
      (buf : List ℕ) (offset now : ℕ) (s : InodeMeta)
      → ReadsFile read_inode_at disk s.data_len
      → ((a b : ℕ) → check_slice a b ≡ ok tt)
      → ((id : ℕ)
          → offset / page_size ≤ id
          → id * page_size < offset + length buf
          → IsSafe s offset (length buf) id)
      → round_up (offset + length buf) < usize_mod
      → (offset + length buf) / page_size < s.page_cache.free_frames
      → (s' : InodeMeta) × (write_at read_inode_at check_slice buf offset now s
          ≡ (ok (length buf), s'))
        × (s'.data_len ≡ max s.data_len (offset + length buf))
        × ((x : ℕ)
            → offset ≤ x
            → x < offset + length buf
            → byte_at disk s' x ≡ get_or buf (x - offset) 0)
        × ((x : ℕ)
            → x < s.data_len
            → IsOutside offset (length buf) x
            → byte_at disk s' x ≡ byte_at disk s x)
  write_at_lem buf offset now s r c safe o f =
      let (s1, e, (l, same, part, outside)) =
        write_pages_lem (suc (length buf)) buf offset 0 s r c (λ id q a b. safe id (omega arith) b)
          (omega arith) (omega arith) (λ q. omega arith) in
      let (s2, e2, cache, l2) =
        write_at_step buf offset now s s1 (lt_true (round_up (offset + length buf)) usize_mod o)
          e in
      let cached = λ (x : ℕ).
        same_byte read_inode_at check_slice disk s1 s2 x
          (ap (λ (k : PageCache). get k.pages (x / page_size)) cache) in
      (
        s2,
        e2,
        rw l at l2,
        λ x a b. cached x ∙ part x (omega arith) b,
        λ x a b. cached x ∙ outside x a b,
      )
