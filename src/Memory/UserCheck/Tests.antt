-- ===== src/Memory/UserCheck/Tests.antt =====
-- Ranges and strings in user memory, on examples.
use asynclear.Prelude.{
  ℕ, ◌-◌, ◌<◌, ◌≡◌, ◌⊎◌, refl, tabulate, true, [], ltb, ◌==◌, if◌then◌else◌, ok, err, efault,
  enametoolong, arith,
}
use asynclear.Config.{low_address_end}
use asynclear.Memory.Address.{VirtAddr, vpn_floor, vpn_ceil}
use asynclear.Memory.Pte
use asynclear.Memory.MemorySpace.{MemorySpace}
use asynclear.Memory.UserCheck.{
  Access, done, trapped, load_page_fault, try_user_byte, check_impl, check_cstr,
}
use asynclear.Memory.UserCheck.Range.{
  page_starts, try_all, check_impl-aligned, check_impl-last_unchecked,
}
use asynclear.Memory.UserCheck.Cstr.{check_cstr_lem, check_cstr-long}

abbrev no_areas : MemorySpace
no_areas = record {
  page_table = record { root_frame = 1; table_frames = [] };
  user_areas = [];
  world = record { frames = λ p i. Pte.empty; supply = [] };
}

-- Page 0 can be read, and no other.
abbrev first_page : MemorySpace → VirtAddr → Access
first_page m va = if ltb va 4096 then done else trapped load_page_fault

-- `aaa` at 0x10000.
abbrev three_letters : VirtAddr → ℕ
three_letters x = if x == 0x10003 then 0 else b'a'

check_impl-aligned_example : check_impl first_page 4096 5000 no_areas ≡ (
    if ltb low_address_end 9096
    then (err efault, no_areas)
    else try_all first_page
        (page_starts (vpn_floor 4096) (vpn_ceil 9096 - vpn_floor 4096))
        no_areas)
check_impl-aligned_example = check_impl-aligned first_page 4096 5000 no_areas refl (omega arith)

first_page_fine :
    (va : VirtAddr)
    → vpn_floor va < vpn_floor 4195
    → try_user_byte first_page va no_areas ≡ (ok tt, no_areas)
unfolding try_user_byte vpn_floor
first_page_fine va h = ground arith

always_done :
    (x : VirtAddr) (m : MemorySpace)
    → (m' : MemorySpace) × (try_user_byte (λ m va. done) x m ≡ (ok tt, m'))
unfolding try_user_byte
always_done x m = (m, refl)

-- The bytes from 100 to 4195 lie in pages 0 and 1, and page 1 is not accessible.
check_impl-last_unchecked_example : check_impl first_page 100 4096 no_areas ≡ (ok tt, no_areas)
check_impl-last_unchecked_example =
    check_impl-last_unchecked first_page 100 4096 no_areas (omega arith) (omega arith) (omega arith)
      first_page_fine

check_cstr_lem_example :
    (m' : MemorySpace) × (check_cstr (λ m va. done) three_letters (λ l. true) 0x10000 no_areas
      ≡ (ok (tabulate three_letters 0x10000 3), m'))
check_cstr_lem_example =
    check_cstr_lem (λ m va. done) three_letters (λ l. true) 0x10000 0x10003 no_areas (omega arith)
      (omega arith) (omega arith) refl (λ x p q. ground arith) (λ x m p q. always_done x m)

check_cstr-long_example :
    (m' : MemorySpace) × ((check_cstr (λ m va. done) (λ x. 97) (λ l. true) 0x10000 no_areas
        ≡ (err efault, m'))
      ⊎ (check_cstr (λ m va. done) (λ x. 97) (λ l. true) 0x10000 no_areas ≡ (err enametoolong, m')))
check_cstr-long_example =
    check_cstr-long (λ m va. done) (λ x. 97) (λ l. true) 0x10000 no_areas (λ x p q. omega arith)
      always_done
