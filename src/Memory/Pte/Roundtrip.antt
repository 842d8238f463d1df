-- ===== src/Memory/Pte/Roundtrip.antt =====
-- What is written into a page table entry is read back.
use Prim.Native.Nat.{bit_or}
use asynclear.Prelude.{
  ℕ, ◌+◌, ◌*◌, ◌/◌, ◌%◌, ◌^◌, ◌<◌, ◌≡◌, true, false, refl, and_mask, or_field, or_one, arith, ap,
  ◌∙◌,
}
use asynclear.Memory.Address.{PhysPageNum}
use asynclear.Memory.Pte.{PteFlags, new, empty, ppn, flags, is_valid, v_flag}

new-bits : (p : PhysPageNum) (f : PteFlags) → p < 2 ^ 44 → f < 2 ^ 9 → (new p f).bits ≡ p * 1024 + f
unfolding new
new-bits p f hp hf =
    ap (λ (t : ℕ). bit_or t f) (let e : p * 2 ^ 10 % 2 ^ 64 ≡ p * 2 ^ 10 = omega arith in e)
    ∙ or_field 10 p f (omega arith)

-- An entry made from a 44-bit page number and the nine flags gives both back.
pub ppn-flags-new :
    (p : PhysPageNum) (f : PteFlags)
    → p < 2 ^ 44
    → f < 2 ^ 9
    → (ppn (new p f) ≡ p) × (flags (new p f) ≡ f)
unfolding ppn flags
ppn-flags-new p f hp hf = (
  rw (new-bits p f hp hf) (omega (arith, and_mask 44 ((p * 1024 + f) / 1024))),
  rw (new-bits p f hp hf) (omega (arith, and_mask 9 ((p * 1024 + f) % 2 ^ 16))),
)

-- The entry that `PageTable::map` writes, with the V flag added to any flags, points to the page, has
-- those flags and is valid; the entry that `unmap` writes is not valid.
pub map_entry :
    (p : PhysPageNum) (f : PteFlags)
    → p < 2 ^ 44
    → f < 2 ^ 9
    → let e = new p (bit_or f v_flag) in
      (ppn e ≡ p) × (flags e ≡ bit_or f v_flag) × (is_valid e ≡ true) × (is_valid empty ≡ false)
unfolding is_valid flags empty
map_entry p f hp hf =
    let both = ppn-flags-new p (bit_or f 1) hp (omega (arith, or_one f)) in
    (both.0, both.1, rw both.1 (ground (arith, or_one f, and_mask 1 (bit_or f 1))), refl)
