-- ===== src/Memory/UserCheck.antt =====
-- crates/libkernel/src/memory/user_check.rs: the checks of user memory, page by page. The hardware's
-- access to a byte of user memory, and the bytes there, are parameters.
pub mod Range
pub mod Cstr
mod Tests
use asynclear.Prelude.{
  ℕ, zero, suc, ◌+◌, ◌-◌, ◌*◌, ◌/◌, ◌%◌, Bool, true, false, not, ◌&&◌, ◌||◌, Option, none, some,
  List, [], ◌∷◌, ltb, leb, ◌==◌, if◌then◌else◌, KResult, ok, err, panic, tabulate, assert, efault,
  enametoolong, einval,
}
use asynclear.Prelude.Stateful.{Action, after_call, ◌>>=◌, ◌>>◌, pure, raise, lift}
use asynclear.Config.{page_size, usize_mod, low_address_end, max_pathname_len}
use asynclear.Memory.Address.{VirtAddr, vpn_floor, page_start}
use asynclear.Memory.MemorySpace.{MemorySpace}
use asynclear.Memory.MemorySpace

-- The exceptions that the code tells apart.
pub data Exception : Type 0 where
  store_fault store_page_fault instruction_page_fault load_page_fault other_exception : Exception

abbrev pub is_memory_exception : Exception → Bool
is_memory_exception other_exception = false
is_memory_exception _ = true

abbrev pub is_store_fault : Exception → Bool
is_store_fault store_fault = true
is_store_fault _ = false

-- `lock_inner_with` on the address space of the current process.
abbrev pub fault_in : VirtAddr → Exception → Action MemorySpace Bool
fault_in addr e m = elim (MemorySpace.handle_memory_exception m addr (is_store_fault e)) [
  | ok (mapped, m') ↦ (ok mapped, m')
  | err e' ↦ (err e', m)
  | panic ↦ (panic, m)
]

unfoldable pub handle_memory_exception : VirtAddr → Exception → Action MemorySpace (Unit {0})
handle_memory_exception addr e =
    if is_memory_exception e
    then (fault_in addr e >>= λ mapped. if mapped then pure tt else raise efault)
    else raise efault

-- One page each of the longest path, and one at either end.
abbrev pub cstr_rounds : ℕ
cstr_rounds = 6

-- An access to a byte: done, or trapped with an exception, or with a cause that is no exception.
pub data Access : Type 0 where
  done unknown_cause : Access
  trapped : Exception → Access

module _ (memory : VirtAddr → ℕ) where
  -- The loop of `check_cstr_end`, for the bytes left in the page.
  unfoldable pub scan : ℕ → VirtAddr → VirtAddr
  scan zero va = va
  scan (suc left) va = let next = scan left (va + 1) in if memory va == 0 then va else next

  unfoldable pub check_cstr_end : VirtAddr → VirtAddr
  unfolding scan
  check_cstr_end start = scan (page_start (vpn_floor start) + page_size - start) start

module _ (access : MemorySpace → VirtAddr → Access) where
  -- `try_read_user_byte`, and `try_write_user_byte`, which differs in the access only.
  unfoldable pub try_user_byte : VirtAddr → Action MemorySpace (Unit {0})
  try_user_byte addr m = elim (access m addr) [
    | done ↦ (ok tt, m)
    | unknown_cause ↦ (err efault, m)
    | trapped e ↦ handle_memory_exception addr e m
  ]

  -- The `while` loop of the checks, with fuel for its rounds.
  unfoldable pub check_pages : ℕ → VirtAddr → VirtAddr → Action MemorySpace (Unit {0})
  check_pages zero va end m = (if ltb va end then panic else ok tt, m)
  check_pages (suc fuel) va end m =
      let next = try_user_byte va >> check_pages fuel (va + page_size) end in
      if ltb va end then next m else (ok tt, m)

  -- `check_read_impl`, and `check_write_impl`, which differs in the access only. `size` is the size of
  -- the range in bytes.
  unfoldable pub check_impl : VirtAddr → ℕ → Action MemorySpace (Unit {0})
  unfolding check_pages
  check_impl start size =
      lift (assert (ltb (start + size) usize_mod))
      >> (if ltb low_address_end (start + size)
          then raise efault
          else check_pages (size / page_size + 1) start (start + size))

  -- `check_ptr`, for a type of `size` bytes.
  unfoldable pub check_ptr : VirtAddr → ℕ → Action MemorySpace (Unit {0})
  unfolding check_impl
  check_ptr addr size =
      lift (assert (ltb (addr + size) usize_mod))
      >> (if ltb low_address_end (addr + size) then raise efault else check_impl addr size)

  module _ (memory : VirtAddr → ℕ) (is_utf8 : List ℕ → Bool) where
    -- The loop of `check_cstr`, with fuel for its rounds.
    unfoldable pub find_end : ℕ → VirtAddr → VirtAddr → Action MemorySpace VirtAddr
    unfolding check_cstr_end
    find_end zero start va m = (panic, m)
    find_end (suc fuel) start va m =
        let end = check_cstr_end memory va in
        let next = find_end fuel start end in
        after_call (try_user_byte va m) (λ _ m'.
          if ltb va end && (end % page_size == 0)
          then (if leb low_address_end end
              then (err efault, m')
              else if ltb max_pathname_len (end - start)
              then (err enametoolong, m')
              else next m')
          else (ok end, m'))

    unfoldable pub check_cstr : VirtAddr → Action MemorySpace (List ℕ)
    unfolding find_end
    check_cstr start =
        if leb low_address_end start
        then raise efault
        else (find_end cstr_rounds start start >>= λ end.
            let bytes = tabulate memory start (end - start) in
            if is_utf8 bytes then pure bytes else raise einval)

-- `slice` of a `UserCheck`: the address and length of a part, nothing if it is no part.
unfoldable pub slice : VirtAddr × ℕ → ℕ → ℕ → Option (VirtAddr × ℕ)
slice (addr, len) start end =
    if ltb len end || ltb end start
    then none
    else if ltb (addr + start) usize_mod
    then some (addr + start, end - start)
    else none
