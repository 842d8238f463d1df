-- ===== src/Fs/PageCache.antt =====
-- `PageCache` of crates/libkernel/src/fs/page_cache.rs, with the frames that are free. The bytes of a
-- page are a function of the offset. A frame comes from the allocator filled with zeros.
use asynclear.Prelude.{ℕ, zero, suc, ◌+◌, Bool, true, false, none, some, length, ok, panic}
use asynclear.Prelude.Stateful.{Action}
use asynclear.BTreeMap.{BTreeMap, get, insert, before, after}

pub data PageState : Type 0 where
  invalid synced dirty : PageState

abbrev pub is_invalid : PageState → Bool
is_invalid invalid = true
is_invalid _ = false

pub record BackedPage : Type 0 where
  pub bytes : ℕ → ℕ
  pub state : PageState

pub record PageCache : Type 0 where
  pub pages : BTreeMap BackedPage
  pub free_frames : ℕ

abbrev pub new_page : BackedPage
new_page = record { bytes = λ i. 0; state = invalid }

-- The page is not in the cache, which is what the assertion in the source says.
unfoldable pub create : ℕ → Action PageCache BackedPage
create page_id c = elim c.free_frames [
  | zero ↦ (panic, c)
  | suc n ↦ (
    elim (get c.pages page_id) [ none ↦ ok new_page | some old ↦ panic ],
    record { pages = insert c.pages page_id new_page; free_frames = n },
  )
]

unfoldable pub get_or_init_page : ℕ → Action PageCache BackedPage
unfolding create
get_or_init_page page_id c = elim (get c.pages page_id) [
  | some p ↦ (ok p, c)
  | none ↦ create page_id c
]

-- `free_pages` of a range without an end, as `resize` calls it. The frames of the pages are freed.
unfoldable pub free_pages_from : ℕ → PageCache → PageCache
free_pages_from left c = record c {
  pages = before c.pages left;
  free_frames = c.free_frames + length (after c.pages left);
}
