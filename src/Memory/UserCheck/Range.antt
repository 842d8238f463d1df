-- ===== src/Memory/UserCheck/Range.antt =====
-- Which bytes the checks of a range try.
use asynclear.Prelude.{
  ℕ, zero, suc, ◌+◌, ◌-◌, ◌*◌, ◌/◌, ◌%◌, ◌≤◌, ◌<◌, ◌≡◌, refl, ◌∙◌, Bool-cases, inl, inr, true,
  false, List, [], ◌∷◌, ltb, if◌then◌else◌, ok, err, efault, arith,
}
use asynclear.Prelude.Stateful.{Action, after_call, after_call_cong}
use asynclear.Config.{page_size, usize_mod, low_address_end}
use asynclear.Memory.Address.{VirtAddr, VirtPageNum, vpn_floor, vpn_ceil, page_start}
use asynclear.Memory.MemorySpace.{MemorySpace}
use asynclear.Memory.UserCheck.{Access, try_user_byte, check_pages, check_impl}

-- `n` addresses, a page apart.
abbrev pub page_steps : VirtAddr → ℕ → List VirtAddr
page_steps va zero = []
page_steps va (suc n) = va ∷ page_steps (va + page_size) n

-- The first addresses of `n` pages.
abbrev pub page_starts : VirtPageNum → ℕ → List VirtAddr
page_starts p zero = []
page_starts p (suc n) = page_start p ∷ page_starts (p + 1) n

page_starts-steps :
    (p : VirtPageNum) (va : VirtAddr) (n : ℕ)
    → va ≡ p * page_size
    → va + n * page_size ≤ low_address_end + page_size
    → page_steps va n ≡ page_starts p n
unfolding page_start
page_starts-steps p va zero e h = refl
page_starts-steps p va (suc n) e h =
    let e' : page_start p ≡ va = omega arith in
    rw (e', page_starts-steps (p + 1) (va + page_size) n (omega arith) (omega arith)) refl

module _ (access : MemorySpace → VirtAddr → Access) where
  -- Bytes tried in turn, until one fails.
  abbrev pub try_all : List VirtAddr → Action MemorySpace (Unit {0})
  try_all [] m = (ok tt, m)
  try_all (va ∷ rest) m = after_call (try_user_byte access va m) (λ _ m'. try_all rest m')

  check_pages-steps :
      (fuel n : ℕ) (va end : VirtAddr) (m : MemorySpace)
      → n ≤ fuel
      → end ≤ va + n * page_size
      → va + n * page_size < end + page_size
      → check_pages access fuel va end m ≡ try_all (page_steps va n) m
  unfolding check_pages
  check_pages-steps zero zero va end m f h k =
      let e : ltb va end ≡ false = ground arith in rw e refl
  check_pages-steps zero (suc n) va end m f h k = absurd (omega arith)
  check_pages-steps (suc fuel) zero va end m f h k =
      let e : ltb va end ≡ false = ground arith in rw e refl
  check_pages-steps (suc fuel) (suc n) va end m f h k =
      let e : ltb va end ≡ true = ground arith in
      rw e (
        after_call_cong (try_user_byte access va m)
          (λ (_ : Unit {0}) (m' : MemorySpace). check_pages access fuel (va + page_size) end m')
          (λ (_ : Unit {0}) (m' : MemorySpace). try_all (page_steps (va + page_size) n) m')
          (λ _ m'.
            check_pages-steps fuel n (va + page_size) end m' (omega arith) (omega arith)
              (omega arith)))

  -- For a range that ends below the limit of user addresses, the loop ends by itself: it tries one byte
  -- for each 4096 bytes of the length, rounded up, a page apart from the first byte of the range on.
  pub check_impl_lem :
      (start : VirtAddr) (size : ℕ) (m : MemorySpace)
      → start + size ≤ low_address_end
      → check_impl access start size m ≡ try_all (page_steps start ((size + 4095) / page_size)) m
  unfolding check_impl
  check_impl_lem start size m h =
      let e1 : ltb (start + size) usize_mod ≡ true = ground arith in
      let e2 : ltb low_address_end (start + size) ≡ false = ground arith in
      rw (e1, e2)
        (check_pages-steps (size / page_size + 1) ((size + 4095) / page_size) start (start + size) m
          (omega arith) (omega arith) (omega arith))

  check_impl-high :
      (start : VirtAddr) (size : ℕ) (m : MemorySpace)
      → start + size < usize_mod
      → ltb low_address_end (start + size) ≡ true
      → check_impl access start size m ≡ (err efault, m)
  unfolding check_impl
  check_impl-high start size m b h =
      let e : ltb (start + size) usize_mod ≡ true = ground arith in rw (e, h) refl

  -- For a range that starts at the start of a page, `check_read_impl` and `check_write_impl` refuse it
  -- with EFAULT and change nothing if it ends above the limit of user addresses; otherwise they try the
  -- first byte of every page that the range touches, in order, until one fails.
  pub check_impl-aligned :
      (start : VirtAddr) (size : ℕ) (m : MemorySpace)
      → start % page_size ≡ 0
      → start + size < usize_mod
      → check_impl access start size m ≡ (
          if ltb low_address_end (start + size)
          then (err efault, m)
          else try_all
              (page_starts (vpn_floor start) (vpn_ceil (start + size) - vpn_floor start))
              m)
  unfolding vpn_floor vpn_ceil
  check_impl-aligned start size m a b = elim (Bool-cases (ltb low_address_end (start + size))) [
    | inl h ↦ rw h (check_impl-high start size m b h)
    | inr h ↦
        let n : ((start + size) + 4095) / 4096 - start / 4096 ≡ (size + 4095) / 4096 =
          omega arith in
        let l : start + size ≤ low_address_end = ground arith in
        rw h (
          check_impl_lem start size m l
          ∙ rw
              (
                n,
                page_starts-steps (start / 4096) start ((size + 4095) / 4096) (omega arith)
                    (omega arith),
              )
              refl)
  ]

  try_all-fine :
      (n : ℕ) (va : VirtAddr) (last : VirtPageNum) (m : MemorySpace)
      → ((va : VirtAddr) → vpn_floor va < last → try_user_byte access va m ≡ (ok tt, m))
      → va + n * page_size < last * page_size + page_size
      → try_all (page_steps va n) m ≡ (ok tt, m)
  try_all-fine zero va last m fine h = refl
  try_all-fine (suc n) va last m fine h =
      rw (fine va (unfold vpn_floor in omega arith))
        (try_all-fine n (va + page_size) last m fine (omega arith))

  -- A range that does not start at the start of a page, and whose last byte lies further into its page
  -- count than whole steps from the first byte reach, is accepted whenever the pages before the last one
  -- are accessible: the last page is never tried.
  pub check_impl-last_unchecked :
      (start : VirtAddr) (size : ℕ) (m : MemorySpace)
      → 0 < size
      → start + size ≤ low_address_end
      → page_size ≤ start % page_size + (size - 1) % page_size
      → ((va : VirtAddr)
          → vpn_floor va < vpn_floor (start + size - 1)
          → try_user_byte access va m ≡ (ok tt, m))
      → check_impl access start size m ≡ (ok tt, m)
  check_impl-last_unchecked start size m p h c fine =
      check_impl_lem start size m h
      ∙ try_all-fine ((size + 4095) / page_size) start (vpn_floor (start + size - 1)) m fine
          (unfold vpn_floor in omega arith)
