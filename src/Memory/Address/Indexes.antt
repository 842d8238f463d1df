-- ===== src/Memory/Address/Indexes.antt =====
-- The three page table indexes of a page number.
use asynclear.Prelude.{ℕ, ◌/◌, ◌%◌, ◌^◌, ◌<◌, ◌≡◌, and_mask, arith, ap, sym, ◌∙◌}
use asynclear.Memory.Address.{VirtPageNum, indexes}

pub indexes_value :
    (vpn : VirtPageNum) → indexes vpn ≡ (vpn / 2 ^ 18 % 512, vpn / 2 ^ 9 % 512, vpn % 512)
unfolding indexes
indexes_value vpn =
    ground (arith, and_mask 9 vpn, and_mask 9 (vpn / 2 ^ 9), and_mask 9 (vpn / 2 ^ 9 / 2 ^ 9))

-- Two 27-bit page numbers with the same indexes are the same page.
pub indexes-injective :
    (m n : VirtPageNum) → m < 2 ^ 27 → n < 2 ^ 27 → indexes m ≡ indexes n → m ≡ n
indexes-injective m n hm hn e = omega (
  arith,
  ap (λ (t : ℕ × ℕ × ℕ). t.0) q,
  ap (λ (t : ℕ × ℕ × ℕ). t.1) q,
  ap (λ (t : ℕ × ℕ × ℕ). t.2) q,
)
  where
    q :
        Path
          (ℕ × ℕ × ℕ)
          (m / 2 ^ 18 % 512, m / 2 ^ 9 % 512, m % 512)
          (n / 2 ^ 18 % 512, n / 2 ^ 9 % 512, n % 512)
    q = sym (indexes_value m) ∙ e ∙ indexes_value n
