-- ===== src/Fs/Inode/Fetch.antt =====
-- The page that `write_at` copies into.
use asynclear.Prelude.{
  ℕ, ◌+◌, ◌*◌, ◌/◌, ◌%◌, ◌≤◌, ◌<◌, ◌≡◌, ◌⊎◌, refl, sym, ◌∙◌, ap, true, false, ◌&&◌, Bool-cases, ltb,
  leb, none, some, if◌then◌else◌, KResult, ok, inl, inr, arith,
}
use asynclear.Config.{page_size}
use asynclear.BTreeMap.{get}
use asynclear.Fs.PageCache.{BackedPage, new_page, get_or_init_page, is_invalid, dirty}
use asynclear.Fs.Inode.{InodeMeta, on_cache, store_page, page_to_write, round_up}
use asynclear.Fs.Inode.Content.{
  SameElsewhere, store_page-elsewhere, ReadsFile, cached_byte, byte_at, get_or_init_page_lem,
}

-- The write of `len` bytes at `offset` loses nothing of a page: it starts in the first page of the
-- file, so that pages are read first; or the page is in the cache and valid; or all of the page that
-- lies in the file is overwritten.
abbrev pub IsSafe : InodeMeta → ℕ → ℕ → ℕ → Type 0
IsSafe s offset len page_id =
    (offset < page_size)
    ⊎ (((p : BackedPage) × (get s.page_cache.pages page_id ≡ some p) × (is_invalid p.state ≡ false))
        ⊎ ((x : ℕ) → x / page_size ≡ page_id → x < s.data_len → (offset ≤ x) × (x < offset + len)))

abbrev pub IsOutside : ℕ → ℕ → ℕ → Type 0
IsOutside offset len x = (x < offset) ⊎ (offset + len ≤ x)

-- A page of the file that is not read, but ought to be, is not safe.
not-IsSafe :
    (s : InodeMeta) (p : BackedPage) (offset len page_id x : ℕ)
    → is_invalid p.state ≡ true
    → (get s.page_cache.pages page_id ≡ some p)
      ⊎ ((get s.page_cache.pages page_id ≡ none) × (p ≡ new_page))
    → offset / page_size ≤ page_id
    → page_id * page_size < offset + len
    → x / page_size ≡ page_id
    → x < s.data_len
    → IsOutside offset len x
    → (leb page_id (s.data_len / page_size)
        && (leb (offset / page_size * page_size) page_id && ltb page_id (round_up (offset + len))))
      ≡ false
    → ¬ IsSafe s offset len page_id
not-IsSafe s p offset len page_id x v entry lo hi q a b t (inl h) = ground (arith, t)
not-IsSafe s p offset len page_id x v (inl e) lo hi q a b t (inr (inl (p', g, w))) = cc
not-IsSafe s p offset len page_id x v (inr (e, _)) lo hi q a b t (inr (inl (p', g, w))) = cc
not-IsSafe s p offset len page_id x v entry lo hi q a (inl b) t (inr (inr h)) =
    omega (arith, h x q a)
not-IsSafe s p offset len page_id x v entry lo hi q a (inr b) t (inr (inr h)) =
    omega (arith, h x q a)

module _ (read_inode_at : ℕ → (ℕ → ℕ) → KResult (ℕ → ℕ)) (check_slice : ℕ → ℕ → KResult (Unit {0}))
    (disk : ℕ → ℕ) where
  -- An invalid page, that is read or not.
  pub invalid_to_write :
      (s s1 : InodeMeta) (page_id last first_byte end_byte : ℕ) (p : BackedPage) (bytes : ℕ → ℕ)
      → on_cache (get_or_init_page page_id) s ≡ (ok p, s1)
      → is_invalid p.state ≡ true
      → (if leb page_id last && (leb first_byte page_id && ltb page_id end_byte)
          then read_inode_at (page_id * page_size) p.bytes
          else ok p.bytes)
        ≡ ok bytes
      → page_to_write read_inode_at check_slice page_id last first_byte end_byte s ≡ (
        ok (record { bytes = bytes; state = dirty }),
        store_page page_id (record { bytes = bytes; state = dirty }) s1,
      )
  unfolding page_to_write
  invalid_to_write s s1 page_id last first_byte end_byte p bytes e v r = rw (e, v, r) refl

  valid_to_write :
      (s s1 : InodeMeta) (page_id last first_byte end_byte : ℕ) (p : BackedPage)
      → on_cache (get_or_init_page page_id) s ≡ (ok p, s1)
      → is_invalid p.state ≡ false
      → page_to_write read_inode_at check_slice page_id last first_byte end_byte s ≡ (ok p, s1)
  unfolding page_to_write
  valid_to_write s s1 page_id last first_byte end_byte p e v = rw (e, v) refl

  -- The page to copy into: it holds the bytes of the file that are not going to be overwritten.
  abbrev pub IsReady : InodeMeta → ℕ → ℕ → ℕ → BackedPage → InodeMeta → Type 0
  IsReady s offset len page_id p s' =
      (is_invalid p.state ≡ false)
      × (s'.data_len ≡ s.data_len)
      × (s.page_cache.free_frames ≤ s'.page_cache.free_frames + 1)
      × SameElsewhere page_id s s'
      × ((x : ℕ)
          → x / page_size ≡ page_id
          → x < s.data_len
          → IsOutside offset len x
          → p.bytes (x % page_size) ≡ byte_at disk s x)

  -- What an invalid page holds after it is read or not.
  bytes_to_write :
      (s s1 : InodeMeta) (p : BackedPage) (offset len page_id : ℕ)
      → ReadsFile read_inode_at disk s.data_len
      → is_invalid p.state ≡ true
      → ((x : ℕ) → page_id ≡ x / page_size → cached_byte disk (some p) x ≡ byte_at disk s x)
      → (get s.page_cache.pages page_id ≡ some p)
        ⊎ ((get s.page_cache.pages page_id ≡ none) × (p ≡ new_page))
      → offset / page_size ≤ page_id
      → page_id * page_size < offset + len
      → IsSafe s offset len page_id
      → (bytes : ℕ → ℕ) × ((if leb page_id (s.data_len / page_size)
              && (leb (offset / page_size * page_size) page_id
                  && ltb page_id (round_up (offset + len)))
            then read_inode_at (page_id * page_size) p.bytes
            else ok p.bytes)
          ≡ ok bytes)
        × ((x : ℕ)
            → x / page_size ≡ page_id
            → x < s.data_len
            → IsOutside offset len x
            → bytes (x % page_size) ≡ byte_at disk s x)
  bytes_to_write s s1 p offset len page_id r v c entry lo hi safe =
      elim (Bool-cases (
        leb page_id (s.data_len / page_size)
        && (leb (offset / page_size * page_size) page_id
            && ltb page_id (round_up (offset + len))))) [
              | inl t ↦
                  let (bytes, e, d) = r page_id p.bytes (ground (arith, t)) in
                  (
                    bytes,
                    rw t e,
                    λ x q a b.
                        let w : page_id * page_size + x % page_size ≡ x = omega arith in
                        d (x % page_size) (omega arith) (omega arith)
                        ∙ ap disk w
                        ∙ (let u = c x (sym q) in rw v at u),
                  )
              | inr t ↦ (
                p.bytes,
                rw t refl,
                λ x q a b. absurd (not-IsSafe s p offset len page_id x v entry lo hi q a b t safe),
              )
            ]

  pub page_to_write_lem :
      (s : InodeMeta) (offset len page_id : ℕ)
      → ReadsFile read_inode_at disk s.data_len
      → 0 < s.page_cache.free_frames
      → offset / page_size ≤ page_id
      → page_id * page_size < offset + len
      → IsSafe s offset len page_id
      → (p : BackedPage) × (s' : InodeMeta) × (page_to_write read_inode_at check_slice page_id
            (s.data_len / page_size)
            (offset / page_size * page_size)
            (round_up (offset + len))
            s
          ≡ (ok p, s'))
        × IsReady s offset len page_id p s'
  page_to_write_lem s offset len page_id r f lo hi safe =
      let (p, s1, e, (same, c, l, k, elsewhere, entry)) = get_or_init_page_lem disk s page_id f in
      elim (Bool-cases (is_invalid p.state)) [
        | inr v ↦ (
          p,
          s1,
          valid_to_write s s1 page_id (s.data_len / page_size) (offset / page_size * page_size)
              (round_up (offset + len)) p e v,
          (v, l, k, elsewhere, λ x q a b. let t = c x (sym q) in rw v at t),
        )
        | inl v ↦
            let (bytes, b, holds) =
              bytes_to_write s s1 p offset len page_id r v c entry lo hi safe in
            (
              record { bytes = bytes; state = dirty },
              store_page page_id (record { bytes = bytes; state = dirty }) s1,
              invalid_to_write s s1 page_id (s.data_len / page_size)
                  (offset / page_size * page_size) (round_up (offset + len)) p bytes e v b,
              (
                refl,
                unfold store_page in l,
                unfold store_page in k,
                λ j h.
                    store_page-elsewhere page_id (record { bytes = bytes; state = dirty }) s1 j h
                    ∙ elsewhere j h,
                holds,
              ),
            )
      ]
