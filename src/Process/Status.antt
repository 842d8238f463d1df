-- ===== src/Process/Status.antt =====
-- `ProcessStatus` and `exit_process`. An exit code of 8 bits is its byte.
use Prim.Native.Nat.{bit_and, bit_or}
use asynclear.Prelude.{
  ℕ, ◌+◌, ◌*◌, ◌^◌, ◌<◌, ◌≡◌, ◌%◌, ◌/◌, refl, Bool, true, false, Option, none, some, ◌==◌,
  if◌then◌else◌, KResult, ok, panic, ◌>>=◌, ◌>>◌, assert, arith, and_mask, and_shift, or_field, ap,
  ◌∙◌, Bool-cases, inl, inr,
}

abbrev pub ProcessStatus : Type 0
ProcessStatus = ℕ

abbrev pub normal : ProcessStatus
normal = 0

unfoldable pub exited : ℕ → ProcessStatus
exited exit_code = bit_or (1 * 2 ^ 8) exit_code

unfoldable pub zombie : ℕ → ProcessStatus
zombie exit_code = bit_or (2 * 2 ^ 8) exit_code

unfoldable pub is_exited : ProcessStatus → Bool
is_exited s = bit_and s 0xff00 == 1 * 2 ^ 8

unfoldable pub is_zombie : ProcessStatus → Bool
is_zombie s = bit_and s 0xff00 == 2 * 2 ^ 8

unfoldable pub exit_code : ProcessStatus → Option ℕ
exit_code s = if s == normal then none else some (bit_and s 0xff)

-- The status after `exit_process`, which swaps it and then wants the old one to be normal.
pub exit_process : ProcessStatus → ℕ → KResult ProcessStatus
unfolding exited
exit_process old code = do assert (old == normal); ok (exited code)

-- The status of a process after its last thread has exited with `thread_code`.
unfoldable pub last_status : ProcessStatus → ℕ → ProcessStatus
unfolding exit_code zombie
last_status s thread_code = elim (exit_code s) [
  | none ↦ zombie thread_code
  | some code ↦ zombie code
]

high_byte : (s : ℕ) → bit_and s 0xff00 ≡ (s / 256 % 256) * 256
high_byte s = omega (arith, and_shift 8 255 s, and_mask 8 (s / 256))

exited_value : (c : ℕ) → c < 256 → exited c ≡ 256 + c
unfolding exited
exited_value c h = or_field 8 1 c h ∙ omega arith

zombie_value : (c : ℕ) → c < 256 → zombie c ≡ 512 + c
unfolding zombie
zombie_value c h = or_field 8 2 c h ∙ omega arith

-- A status made from an exit code of 8 bits gives the code back and tells which of the three it is.
pub status_lem :
    (c : ℕ)
    → c < 256
    → (exit_code (exited c) ≡ some c)
      × (exit_code (zombie c) ≡ some c)
      × (exit_code normal ≡ none)
      × (is_exited (exited c) ≡ true)
      × (is_zombie (exited c) ≡ false)
      × (is_exited (zombie c) ≡ false)
      × (is_zombie (zombie c) ≡ true)
      × (is_exited normal ≡ false)
      × (is_zombie normal ≡ false)
unfolding exit_code is_exited is_zombie
status_lem c h =
    rw (exited_value c h, zombie_value c h)
      (
        ground (arith, and_mask 8 (256 + c)),
        ground (arith, and_mask 8 (512 + c)),
        refl,
        ground (arith, high_byte (256 + c)),
        ground (arith, high_byte (256 + c)),
        ground (arith, high_byte (512 + c)),
        ground (arith, high_byte (512 + c)),
        refl,
        refl,
      )

last_normal : (c : ℕ) → last_status normal c ≡ zombie c
unfolding last_status exit_code
last_normal c = refl

last_exited : (c code : ℕ) → code < 256 → last_status (exited code) c ≡ zombie code
unfolding last_status
last_exited c code h = rw (last_status, (status_lem code h).0) refl

-- The last thread's exit leaves a zombie. Its code is the one that `exit_process` set, if that was
-- called, and else the thread's; a second `exit_process` panics.
pub exit_lem :
    (thread_code code : ℕ)
    → thread_code < 256
    → code < 256
    → (last_status normal thread_code ≡ zombie thread_code)
      × ((exit_process normal code >>= λ s. ok (last_status s thread_code)) ≡ ok (zombie code))
      × ((exit_process normal code >>= λ s. exit_process s thread_code) ≡ panic)
unfolding exit_process
exit_lem thread_code code h g =
    let n : (exited code == normal) ≡ false = ground (arith, exited_value code g) in
    (last_normal thread_code, ap ok (last_exited thread_code code g), rw n refl)

-- The last status is that of a zombie.
pub last_status-is_zombie :
    (s : ProcessStatus) (thread_code : ℕ)
    → thread_code < 256
    → is_zombie (last_status s thread_code) ≡ true
unfolding last_status exit_code
last_status-is_zombie s thread_code h = elim (Bool-cases (s == normal)) [
  | inl e ↦ rw (last_status, e) (status_lem thread_code h).6
  | inr e ↦
      let byte : bit_and s 0xff < 256 = omega (arith, and_mask 8 s) in
      rw (last_status, e) (status_lem (bit_and s 0xff) byte).6
]
