-- ===== src/Fs/Inode/Loss.antt =====
-- Writes that lose bytes.
use asynclear.Prelude.{
  ℕ, ◌+◌, ◌*◌, ◌/◌, ◌%◌, ◌≤◌, ◌<◌, ◌≡◌, refl, ◌∙◌, ap, false, ◌&&◌, ltb, leb, Option, none, some,
  KResult, ok, inl, inr, List, length, take, drop, arith,
}
use asynclear.Config.{page_size, usize_mod}
use asynclear.BTreeMap.{get}
use asynclear.Fs.PageCache.{BackedPage, PageCache, new_page, is_invalid, dirty}
use asynclear.Fs.Inode.{InodeMeta, store_page, copy_into, write_at, round_up}
use asynclear.Fs.Inode.Content.{byte_at, get_or_init_page_lem, copy_into-chunk}
use asynclear.Fs.Inode.Fetch.{IsOutside, invalid_to_write}
use asynclear.Fs.Inode.Copy.{stored_byte, same_byte}
use asynclear.Fs.Inode.Write.{lt_true, write_step, write_end, write_at_step}

none-some : (o : Option BackedPage) (p : BackedPage) → o ≡ none → o ≡ some p → ⊥
none-some o p g h = cc

module _ (read_inode_at : ℕ → (ℕ → ℕ) → KResult (ℕ → ℕ)) (check_slice : ℕ → ℕ → KResult (Unit {0}))
    (disk : ℕ → ℕ) where
  -- A write of a few bytes into one page behind the first page of the file, when the page is not in the
  -- cache: the call succeeds, and all other bytes of the page are zero afterwards, whatever the file
  -- held there. The page is not read, since its number is compared with a range of bytes.
  pub write_at-loses_page :
      (buf : List ℕ) (offset now : ℕ) (s : InodeMeta) (x : ℕ)
      → ((a b : ℕ) → check_slice a b ≡ ok tt)
      → page_size ≤ offset
      → 0 < length buf
      → offset % page_size + length buf ≤ page_size
      → offset + 2 * page_size < usize_mod
      → get s.page_cache.pages (offset / page_size) ≡ none
      → 0 < s.page_cache.free_frames
      → x / page_size ≡ offset / page_size
      → IsOutside offset (length buf) x
      → (s' : InodeMeta) × (write_at read_inode_at check_slice buf offset now s
          ≡ (ok (length buf), s'))
        × (byte_at disk s' x ≡ 0)
  write_at-loses_page buf offset now s x c h1 h2 h3 h4 g f q d =
      let n = length buf in
      let id = (offset + 0) / page_size in
      let po = (offset + 0) % page_size in
      let last = s.data_len / page_size in
      let z : offset / page_size ≡ id = omega arith in
      let (p, s1, e, (_, _, l, _, _, entry)) = get_or_init_page_lem disk s id f in
      let p_new : p ≡ new_page = elim entry [
        | inl h ↦ absurd (none-some _ p g (rw z h))
        | inr h ↦ h.1
      ] in
      let t : (leb id last
            && (leb (offset / page_size * page_size) id && ltb id (round_up (offset + n))))
          ≡ false =
        ground arith in
      let p1 : BackedPage = record { bytes = p.bytes; state = dirty } in
      let w =
        invalid_to_write read_inode_at check_slice disk s s1 id last
          (offset / page_size * page_size) (round_up (offset + n)) p p.bytes e
          (ap (λ (p : BackedPage). is_invalid p.state) p_new) (rw t refl) in
      let p2 : BackedPage = record p1 { bytes = copy_into p.bytes po (take n (drop 0 buf)) } in
      let s2 = store_page id p2 (store_page id p1 s1) in
      let (s3, e3, cache, _) =
        write_at_step read_inode_at check_slice disk buf offset now s s2 (lt_true _ _ (omega arith))
          (write_step read_inode_at check_slice disk n buf offset last 0 n s (store_page id p1 s1)
              p1 (lt_true 0 n h2) (omega arith) w (c 0 n)
            ∙ write_end read_inode_at check_slice disk n buf offset last (0 + n) s2
                (omega arith)) in
      let u : (leb po (x % page_size) && ltb (x % page_size) (po + n)) ≡ false = elim d [
        | inl a ↦ ground arith
        | inr a ↦ ground arith
      ] in
      (
        s3,
        e3,
        same_byte read_inode_at check_slice disk s2 s3 x
              (ap (λ (k : PageCache). get k.pages (x / page_size)) cache)
            ∙ stored_byte read_inode_at check_slice disk (store_page id p1 s1) id x p2 (q ∙ z) refl
            ∙ copy_into-chunk p.bytes po buf 0 n (x % page_size) (omega arith)
            ∙ rw u (ap (λ (p : BackedPage). p.bytes (x % page_size)) p_new),
      )
