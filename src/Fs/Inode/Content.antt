-- ===== src/Fs/Inode/Content.antt =====
-- What a file holds: the bytes of its valid pages, and of the file system below for the others.
use asynclear.Prelude.{
  ℕ, zero, suc, ◌+◌, ◌-◌, ◌*◌, ◌/◌, ◌%◌, ◌≤◌, ◌<◌, ◌≡◌, ◌≢◌, refl, ◌∙◌, ap, Bool-cases, Option,
  none, some, ◌&&◌, leb, ltb, ◌==◌, if◌then◌else◌, KResult, ok, ◌⊎◌, inl, inr, List, take, drop,
  length, get_or, length-take, length-drop, get_or-take, get_or-drop, arith,
}
use asynclear.Config.{page_size}
use asynclear.BTreeMap.{BTreeMap, get, insert}
use asynclear.BTreeMap.Laws.{get-insert}
use asynclear.Fs.PageCache.{BackedPage, PageCache, is_invalid, new_page, create, get_or_init_page}
use asynclear.Fs.Inode.{InodeMeta, on_cache, store_page, copy_into}

-- What a file system below promises of `read_inode_at`, for the pages of a file of `n` bytes: it succeeds, and the
-- part of the page inside the file holds the bytes of `disk`.
abbrev pub ReadsFile : (ℕ → (ℕ → ℕ) → KResult (ℕ → ℕ)) → (ℕ → ℕ) → ℕ → Type 0
ReadsFile read_inode_at disk n =
    (page_id : ℕ) (old : ℕ → ℕ)
    → page_id * page_size ≤ n
    → (bytes : ℕ → ℕ) × (read_inode_at (page_id * page_size) old ≡ ok bytes)
      × ((i : ℕ)
          → i < page_size
          → page_id * page_size + i < n
          → bytes i ≡ disk (page_id * page_size + i))

abbrev pub cached_byte : (ℕ → ℕ) → Option BackedPage → ℕ → ℕ
cached_byte disk none x = disk x
cached_byte disk (some p) x = if is_invalid p.state then disk x else p.bytes (x % page_size)

-- The byte at a position of the file.
abbrev pub byte_at : (ℕ → ℕ) → InodeMeta → ℕ → ℕ
byte_at disk s x = cached_byte disk (get s.page_cache.pages (x / page_size)) x

pub byte_at-store_page :
    (disk : ℕ → ℕ) (s : InodeMeta) (page_id : ℕ) (p : BackedPage) (x : ℕ)
    → byte_at disk (store_page page_id p s) x
      ≡ (if page_id == x / page_size then cached_byte disk (some p) x else byte_at disk s x)
unfolding store_page
byte_at-store_page disk s page_id p x =
    rw (get-insert s.page_cache.pages page_id (x / page_size) p)
      (elim (Bool-cases (page_id == x / page_size)) [ inl h ↦ rw h refl | inr h ↦ rw h refl ])

create_fresh :
    (c : PageCache) (page_id n : ℕ)
    → c.free_frames ≡ suc n
    → get c.pages page_id ≡ none
    → create page_id c
      ≡ (ok new_page, record { pages = insert c.pages page_id new_page; free_frames = n })
unfolding create
create_fresh c page_id n e g = create_at c.pages c.free_frames page_id n e g
  where
    create_at :
        (m : BTreeMap BackedPage) (f page_id n : ℕ)
        → f ≡ suc n
        → get m page_id ≡ none
        → create page_id (record { pages = m; free_frames = f })
          ≡ (ok new_page, record { pages = insert m page_id new_page; free_frames = n })
    create_at m f page_id n e g = rw (e, g) refl

-- Pages other than one are as they were.
abbrev pub SameElsewhere : ℕ → InodeMeta → InodeMeta → Type 0
SameElsewhere page_id s s' =
    (j : ℕ) → j ≢ page_id → get s'.page_cache.pages j ≡ get s.page_cache.pages j

pub store_page-elsewhere :
    (page_id : ℕ) (p : BackedPage) (s : InodeMeta)
    → SameElsewhere page_id s (store_page page_id p s)
unfolding store_page
store_page-elsewhere page_id p s j h = get-insert s.page_cache.pages page_id j p ∙ ground (arith, h)

-- The entry of a page is taken, and was made if there was none: that changes no byte, and uses at most
-- one frame.
abbrev pub IsEntered : (ℕ → ℕ) → InodeMeta → ℕ → BackedPage → InodeMeta → Type 0
IsEntered disk s page_id p s' =
    ((x : ℕ) → byte_at disk s' x ≡ byte_at disk s x)
    × ((x : ℕ) → page_id ≡ x / page_size → cached_byte disk (some p) x ≡ byte_at disk s x)
    × (s'.data_len ≡ s.data_len)
    × (s.page_cache.free_frames ≤ s'.page_cache.free_frames + 1)
    × SameElsewhere page_id s s'
    × ((get s.page_cache.pages page_id ≡ some p)
        ⊎ ((get s.page_cache.pages page_id ≡ none) × (p ≡ new_page)))

pub get_or_init_page_lem :
    (disk : ℕ → ℕ) (s : InodeMeta) (page_id : ℕ)
    → 0 < s.page_cache.free_frames
    → (p : BackedPage) × (s' : InodeMeta) × (on_cache (get_or_init_page page_id) s ≡ (ok p, s'))
      × IsEntered disk s page_id p s'
unfolding store_page get_or_init_page
get_or_init_page_lem disk s page_id f =
    enter s.page_cache.free_frames refl (get s.page_cache.pages page_id) refl
  where
    enter :
        (n : ℕ)
        → s.page_cache.free_frames ≡ n
        → (o : Option BackedPage) → get s.page_cache.pages page_id ≡ o
        → (p : BackedPage) × (s' : InodeMeta) × (on_cache (get_or_init_page page_id) s ≡ (ok p, s'))
          × IsEntered disk s page_id p s'
    enter zero e o g = absurd (omega arith)
    enter (suc n) e (some p) g = (
      p,
      s,
      rw (get_or_init_page, g) refl,
      (λ x. refl, λ x h. rw (← h, g) refl, refl, omega arith, λ j h. refl, inl g),
    )
    enter (suc n) e none g = (
      new_page,
      record s {
        page_cache = record { pages = insert s.page_cache.pages page_id new_page; free_frames = n };
      },
      rw (get_or_init_page, g)
          (ap (λ (r : KResult BackedPage × PageCache). (r.0, record s { page_cache = r.1 }))
            (create_fresh s.page_cache page_id n e g)),
      (
        λ x.
            byte_at-store_page disk s page_id new_page x
            ∙ elim (Bool-cases (page_id == x / page_size)) [
              | inl h ↦ let q : x / page_size ≡ page_id = ground (arith, h) in rw (h, q, g) refl
              | inr h ↦ rw h refl
            ],
        λ x h. rw (← h, g) refl,
        refl,
        omega arith,
        store_page-elsewhere page_id new_page s,
        inr (g, refl),
      ),
    )

-- The part of a buffer that is copied into one page.
pub copy_into-chunk :
    (bytes : ℕ → ℕ) (offset : ℕ) (buf : List ℕ) (n copy_len i : ℕ)
    → n + copy_len ≤ length buf
    → copy_into bytes offset (take copy_len (drop n buf)) i ≡ (
        if leb offset i && ltb i (offset + copy_len)
        then get_or buf (n + (i - offset)) 0
        else bytes i)
unfolding copy_into
copy_into-chunk bytes offset buf n copy_len i h =
    let l : length (take copy_len (drop n buf)) ≡ copy_len =
      omega (arith, length-take copy_len (drop n buf), length-drop n buf) in
    rw l (elim (Bool-cases (leb offset i && ltb i (offset + copy_len))) [
      | inl b ↦ rw b (
          get_or-take copy_len (drop n buf) (i - offset) 0 (ground (arith, b))
          ∙ get_or-drop n buf (i - offset) 0)
      | inr b ↦ rw b refl
    ])
