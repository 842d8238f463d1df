-- ===== src/Fs/Inode/Copy.antt =====
-- Copying a part of the buffer into its page.
use asynclear.Prelude.{
  ℕ, ◌+◌, ◌-◌, ◌/◌, ◌%◌, ◌≤◌, ◌<◌, ◌≡◌, ◌≢◌, refl, ◌∙◌, ap, true, false, ◌&&◌, Bool-cases, ltb, leb,
  Option, ◌==◌, KResult, inl, inr, List, length, get_or, take, drop, arith,
}
use asynclear.Config.{page_size}
use asynclear.BTreeMap.{get}
use asynclear.Fs.PageCache.{BackedPage, is_invalid}
use asynclear.Fs.Inode.{InodeMeta, store_page, copy_into}
use asynclear.Fs.Inode.Content.{
  SameElsewhere, store_page-elsewhere, cached_byte, byte_at, byte_at-store_page, copy_into-chunk,
}
use asynclear.Fs.Inode.Fetch.{IsOutside, IsReady}

module _ (read_inode_at : ℕ → (ℕ → ℕ) → KResult (ℕ → ℕ)) (check_slice : ℕ → ℕ → KResult (Unit {0}))
    (disk : ℕ → ℕ) where
  -- A round of the loop has copied its part of the buffer into the page.
  abbrev pub IsCopied : InodeMeta → List ℕ → ℕ → ℕ → ℕ → InodeMeta → Type 0
  IsCopied s buf offset nwrite n s' =
      (s'.data_len ≡ s.data_len)
      × (s.page_cache.free_frames ≤ s'.page_cache.free_frames + 1)
      × SameElsewhere ((offset + nwrite) / page_size) s s'
      × ((x : ℕ)
          → offset + nwrite ≤ x
          → x < offset + (nwrite + n)
          → byte_at disk s' x ≡ get_or buf (x - offset) 0)
      × ((x : ℕ)
          → x < s.data_len
          → IsOutside offset (length buf) x
          → byte_at disk s' x ≡ byte_at disk s x)

  pub stored_byte :
      (s : InodeMeta) (page_id x : ℕ) (p : BackedPage)
      → x / page_size ≡ page_id
      → is_invalid p.state ≡ false
      → byte_at disk (store_page page_id p s) x ≡ p.bytes (x % page_size)
  stored_byte s page_id x p q v =
      let t : (page_id == x / page_size) ≡ true = ground (arith, q) in
      byte_at-store_page disk s page_id p x ∙ rw (t, v) refl

  pub same_byte :
      (s s' : InodeMeta) (x : ℕ)
      → get s'.page_cache.pages (x / page_size) ≡ get s.page_cache.pages (x / page_size)
      → byte_at disk s' x ≡ byte_at disk s x
  same_byte s s' x e = ap (λ (o : Option BackedPage). cached_byte disk o x) e

  pub copied_lem :
      (s s1 : InodeMeta) (buf : List ℕ) (offset nwrite n : ℕ) (p : BackedPage)
      → IsReady read_inode_at check_slice disk s offset
          (length buf)
          ((offset + nwrite) / page_size)
          p
          s1
      → nwrite + n ≤ length buf
      → (offset + nwrite) % page_size + n ≤ page_size
      → IsCopied s buf offset nwrite n (
          store_page
            ((offset + nwrite) / page_size)
            (record p {
              bytes = copy_into p.bytes ((offset + nwrite) % page_size) (take n (drop nwrite buf));
            })
            s1)
  copied_lem s s1 buf offset nwrite n p (v, l, k, elsewhere, holds) a b =
      let id = (offset + nwrite) / page_size in
      let po = (offset + nwrite) % page_size in
      let p' : BackedPage = record p { bytes = copy_into p.bytes po (take n (drop nwrite buf)) } in
      (
        unfold store_page in l,
        unfold store_page in k,
        λ j h. store_page-elsewhere id p' s1 j h ∙ elsewhere j h,
        λ x c d.
            let t : (leb po (x % page_size) && ltb (x % page_size) (po + n)) ≡ true =
              ground arith in
            let w : nwrite + (x % page_size - po) ≡ x - offset = omega arith in
            stored_byte s1 id x p' (omega arith) v
            ∙ copy_into-chunk p.bytes po buf nwrite n (x % page_size) a
            ∙ rw (t, w) refl,
        λ x c d. elim (Bool-cases (x / page_size == id)) [
          | inl h ↦
              let q : x / page_size ≡ id = ground (arith, h) in
              let t : (leb po (x % page_size) && ltb (x % page_size) (po + n)) ≡ false = elim d [
                | inl u ↦ ground arith
                | inr u ↦ ground arith
              ] in
              stored_byte s1 id x p' q v
              ∙ copy_into-chunk p.bytes po buf nwrite n (x % page_size) a
              ∙ rw t (holds x q c d)
          | inr h ↦
              let q : x / page_size ≢ id = ground (arith, h) in
              same_byte s (store_page id p' s1) x
                (store_page-elsewhere id p' s1 (x / page_size) q ∙ elsewhere (x / page_size) q)
        ],
      )
