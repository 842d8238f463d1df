-- ===== src/Fs/Inode.antt =====
-- crates/libkernel/src/fs/inode.rs: reading and writing a regular file through its page cache. The
-- file system's own reading of a page, and the check of a part of a user buffer, are parameters.
pub mod Content
pub mod Read
pub mod Fetch
pub mod Copy
pub mod Write
pub mod Loss
mod Tests
use asynclear.Prelude.{
  ℕ, zero, suc, ◌+◌, ◌-◌, ◌*◌, ◌/◌, ◌%◌, min, Bool, true, false, ◌&&◌, Option, none, some, List, [],
  ◌∷◌, ◌++◌, length, get_or, take, drop, tabulate, ltb, leb, if◌then◌else◌, KResult, ok, err, panic,
  assert,
}
use asynclear.Prelude.Stateful.{Action, after_call, ◌>>=◌, ◌>>◌, pure, raise, lift}
use asynclear.Config.{page_size, usize_mod}
use asynclear.BTreeMap.{insert}
use asynclear.Fs.PageCache.{
  BackedPage, PageCache, PageState, invalid, synced, dirty, is_invalid, get_or_init_page,
  free_pages_from,
}

pub data InodeMode : Type 0 where
  regular dir symbol_link socket fifo block_device char_device : InodeMode

abbrev pub is_regular : InodeMode → Bool
is_regular regular = true
is_regular _ = false

-- `InodeMeta` with its `InodeMetaInner`; times are numbers.
pub record InodeMeta : Type 0 where
  pub ino : ℕ
  pub mode : InodeMode
  pub page_cache : PageCache
  pub data_len : ℕ
  pub access_time : ℕ
  pub modify_time : ℕ
  pub change_time : ℕ

-- An operation of the page cache.
abbrev pub on_cache : {A : Type 0} → Action PageCache A → Action InodeMeta A
on_cache op s = let (r, c) = op s.page_cache in (r, record s { page_cache = c })

-- The page is shared with the cache, so what is stored in it is seen there.
unfoldable pub store_page : ℕ → BackedPage → InodeMeta → InodeMeta
store_page page_id p s = record s {
  page_cache = record s.page_cache { pages = insert s.page_cache.pages page_id p };
}

-- `copy_from_slice` into the bytes of a page from `offset` on.
unfoldable pub copy_into : (ℕ → ℕ) → ℕ → List ℕ → ℕ → ℕ
copy_into bytes offset chunk i =
    if leb offset i && ltb i (offset + length chunk) then get_or chunk (i - offset) 0 else bytes i

-- `next_multiple_of` a page.
abbrev pub round_up : ℕ → ℕ
round_up n = (n + (page_size - 1)) / page_size * page_size

-- `read_inode_at` of a page of the file system below: the page's bytes after it, given those before.
-- `check_slice` is the check of a part of the buffer, given by its start and length; for a buffer of
-- the kernel it succeeds.
module _ (read_inode_at : ℕ → (ℕ → ℕ) → KResult (ℕ → ℕ))
    (check_slice : ℕ → ℕ → KResult (Unit {0})) where
  -- Reads the page of an invalid entry.
  unfoldable pub fill_page : ℕ → BackedPage → Action InodeMeta BackedPage
  fill_page page_id p = lift (read_inode_at (page_id * page_size) p.bytes) >>= λ bytes s.
      let p' : BackedPage = record { bytes = bytes; state = synced } in
      (ok p', store_page page_id p' s)

  unfoldable pub page_to_read : ℕ → Action InodeMeta BackedPage
  unfolding fill_page
  page_to_read page_id = on_cache (get_or_init_page page_id) >>= λ p.
      if is_invalid p.state then fill_page page_id p else pure p

  -- The loop of `read_at_impl`, with fuel for its rounds; the bytes that it copies into the buffer.
  unfoldable pub read_pages : ℕ → ℕ → ℕ → ℕ → Action InodeMeta (List ℕ)
  unfolding page_to_read
  read_pages zero offset read_end nread s = (if ltb nread read_end then panic else ok [], s)
  read_pages (suc fuel) offset read_end nread s =
      let page_offset = (offset + nread) % page_size in
      let copy_len = min (read_end - nread) (page_size - page_offset) in
      let next = read_pages fuel offset read_end (nread + copy_len) in
      if ltb nread read_end
      then after_call (page_to_read ((offset + nread) / page_size) s) (λ p.
        lift (check_slice nread copy_len)
        >> (next >>= λ rest. pure (tabulate p.bytes page_offset copy_len ++ rest)))
      else (ok [], s)

  -- `read_at` of a regular file; the number that it returns is the length of what is read.
  unfoldable pub read_at : ℕ → ℕ → ℕ → Action InodeMeta (List ℕ)
  unfolding read_pages
  read_at len offset now s =
      if ltb s.data_len offset
      then (ok [], s)
      else (let read_end = min len (s.data_len - offset) in
          after_call (read_pages (suc read_end) offset read_end 0 s)
            (λ bytes s'. (ok bytes, record s' { access_time = now })))

  -- The page that `write_at` copies into: an invalid page becomes dirty, and is read first if its number
  -- is at most that of the last page and lies in the range of bytes `first_byte` to `end_byte`.
  unfoldable pub page_to_write : ℕ → ℕ → ℕ → ℕ → Action InodeMeta BackedPage
  page_to_write page_id last first_byte end_byte = on_cache (get_or_init_page page_id) >>= λ p.
      if is_invalid p.state
      then (lift (
            if leb page_id last && (leb first_byte page_id && ltb page_id end_byte)
            then read_inode_at (page_id * page_size) p.bytes
            else ok p.bytes)
          >>= λ bytes s.
              let p' : BackedPage = record { bytes = bytes; state = dirty } in
              (ok p', store_page page_id p' s))
      else pure p

  -- The loop of `write_at_impl`, with fuel for its rounds.
  unfoldable pub write_pages : ℕ → List ℕ → ℕ → ℕ → ℕ → Action InodeMeta ℕ
  unfolding page_to_write
  write_pages zero buf offset last nwrite s =
      (if ltb nwrite (length buf) then panic else ok nwrite, s)
  write_pages (suc fuel) buf offset last nwrite s =
      let page_id = (offset + nwrite) / page_size in
      let page_offset = (offset + nwrite) % page_size in
      let copy_len = min (length buf - nwrite) (page_size - page_offset) in
      let next = write_pages fuel buf offset last (nwrite + copy_len) in
      if ltb nwrite (length buf)
      then after_call
          (page_to_write page_id last (offset / page_size * page_size)
            (round_up (offset + length buf)) s)
          (λ p. lift (check_slice nwrite copy_len) >> λ s'. next (
            store_page page_id
              (record p { bytes = copy_into p.bytes page_offset (take copy_len (drop nwrite buf)) })
              s'))
      else (ok nwrite, s)

  -- `write_at` of a regular file.
  unfoldable pub write_at : List ℕ → ℕ → ℕ → Action InodeMeta ℕ
  unfolding write_pages
  write_at buf offset now s =
      let end = offset + length buf in
      after_call (assert (ltb (round_up end) usize_mod), s)
        (λ _ s.
          after_call (write_pages (suc (length buf)) buf offset (s.data_len / page_size) 0 s)
            (λ n s'. (
              ok n,
              if ltb s'.data_len end
                  then record s' {
                    access_time = now;
                    modify_time = now;
                    data_len = end;
                    change_time = now;
                  }
                  else record s' { access_time = now; modify_time = now },
            )))

-- `resize`, over the file system's own `truncate`.
unfoldable pub resize : (ℕ → Action InodeMeta (Unit {0})) → ℕ → Action InodeMeta (Unit {0})
resize truncate len s =
    after_call (assert (is_regular s.mode), s)
      (λ _ s. truncate len (
        if ltb (len / page_size) (s.data_len / page_size)
        then record s { page_cache = free_pages_from (len / page_size + 1) s.page_cache }
        else s))
