-- ===== src/Memory/Mmap/Fresh.antt =====
-- Areas that no page has come into yet: finding them and unmapping them.
use Prim.Native.Nat.{bit_and}
use asynclear.Prelude.{
  ℕ, ◌+◌, ◌-◌, ◌*◌, ◌≤◌, ◌<◌, ◌≡◌, refl, sym, ap, ◌∙◌, subst, true, false, ◌==◌, leb, ltb,
  Bool-cases, inl, inr, Option, none, some, [], ◌∷◌, ok, and_mask, arith, min,
}
use asynclear.Config.{usize_mod, page_offset_mask, low_address_end}
use asynclear.BTreeMap.{BTreeMap, get, remove, keys, Above}
use asynclear.BTreeMap.Laws.{Above-mono}
use asynclear.Memory.Address.{VirtPageNum, add, vpn_floor, vpn_ceil}
use asynclear.Memory.Pte.{MapPermission}
use asynclear.Memory.VmArea.{VmArea, lazy}
use asynclear.Memory.VmArea
use asynclear.Memory.MemorySpace.{MemorySpace, unmap, unmap_areas}
use asynclear.Memory.MemorySpace.Areas.{vpn_limit, AreasFrom, AreValid, AreApart}
use asynclear.Memory.MemorySpace.Unmapping.{all_whole, starts_inside, past_end, unmap_range_lem}
use asynclear.Memory.Heap.{ProcessInner, sys_munmap}

pub AreasFrom-Above : (lo : VirtPageNum) (m : BTreeMap VmArea) → AreasFrom lo m → Above lo m
AreasFrom-Above lo [] v = tt
AreasFrom-Above lo ((k, a) ∷ m) v = (
  omega (arith, v.0, v.1),
  Above-mono (k + 1) a.end m (omega (arith, v.0, v.2)) (AreasFrom-Above a.end m v.4),
)

-- An area that stands in a map, seen from the unmapping of its pages.
pub record Alone (m : BTreeMap VmArea) (lo s : VirtPageNum) (a : VmArea) : Type 0 where
  pub bound : (lo ≤ s) × (a.start ≡ s) × (s < a.end) × (a.end ≤ vpn_limit)
  pub whole : all_whole s a.end m ≡ true
  pub only : starts_inside s a.end m ≡ s ∷ []

first_Alone :
    (lo k : VirtPageNum) (a : VmArea) (m : BTreeMap VmArea)
    → AreasFrom lo ((k, a) ∷ m)
    → Alone ((k, a) ∷ m) lo k a
first_Alone lo k a m v =
    let r = past_end k a.end a.end m v.4 (omega arith) in
    let low : leb k a.start ≡ true = ground (arith, v.0) in
    let top : leb a.end a.end ≡ true = ground arith in
    record {
      bound = (omega (arith, v.0, v.1), sym v.0, omega (arith, v.0, v.2), v.3);
      whole = rw (low, top, r.0) refl;
      only = rw (low, top, r.1, v.0) refl;
    }

abbrev or_area : VmArea → Option VmArea → VmArea
or_area d none = d
or_area d (some x) = x

pub found_Alone :
    (lo s : VirtPageNum) (a : VmArea) (m : BTreeMap VmArea)
    → AreasFrom lo m
    → get m s ≡ some a
    → Alone m lo s a
unfolding get
found_Alone lo s a [] v g = absurd cc
found_Alone lo s a ((k, b) ∷ m) v g = elim (Bool-cases (k == s)) [
  | inl h ↦
      subst (λ (x : VmArea). Alone ((k, b) ∷ m) lo s x) (ap (or_area a) (rw h at g))
        (subst (λ (x : VirtPageNum). Alone ((k, b) ∷ m) lo x b) (ground (arith, h))
          (first_Alone lo k b m v))
  | inr h ↦
      let r = found_Alone b.end s a m v.4 (rw h at g) in
      let out : leb s b.start ≡ false = ground (arith, r.bound.0, v.2) in
      let left : leb b.end s ≡ true = ground (arith, r.bound.0) in
      record {
        bound = (omega (arith, r.bound.0, v.1, v.2), r.bound.1, r.bound.2, r.bound.3);
        whole = rw (out, left, r.whole) refl;
        only = rw (out, r.only) refl;
      }
]

-- An area that no page has come into yet is unmapped by forgetting it.
pub unmap_fresh :
    (m : MemorySpace) (s n len : ℕ) (perm : MapPermission)
    → AreValid m.user_areas
    → get m.user_areas s ≡ some (VmArea.new s (s + n) perm lazy)
    → vpn_ceil len ≡ n
    → 0 < len
    → unmap m (s * 4096) (s * 4096 + len) ≡ ok (record m { user_areas = remove m.user_areas s })
unfolding unmap unmap_areas VmArea.unmap VmArea.unmap_pages VmArea.new keys vpn_floor vpn_ceil
unmap_fresh m s n len perm v g e pos =
    let r = found_Alone 0 s (VmArea.new s (s + n) perm lazy) m.user_areas v g in
    let first : vpn_floor (s * 4096) ≡ s = omega arith in
    let last : vpn_ceil (s * 4096 + len) ≡ s + n = omega (arith, e) in
    rw (first, last, unmap_range_lem s (s + n) m.user_areas v, r.whole, r.only, g) refl

-- The address and the length of a mapping pass the guards of `sys_munmap`.
pub unmap_accepted :
    (p : ProcessInner) (s len : ℕ) (m : MemorySpace)
    → 0 < len
    → s * 4096 + len ≤ low_address_end
    → unmap p.memory_space (s * 4096) (s * 4096 + len) ≡ ok m
    → sys_munmap p (s * 4096) len ≡ ok (0, record p { memory_space = m })
unfolding sys_munmap add
unmap_accepted p s len m pos h u =
    let fits : ltb (s * 4096 + len) usize_mod ≡ true = ground arith in
    let whole : bit_and (s * 4096) page_offset_mask ≡ 0 = and_mask 12 (s * 4096) ∙ omega arith in
    let some_len : (len == 0) ≡ false = ground arith in
    let low : ltb low_address_end (min (s * 4096 + len) (usize_mod - 1)) ≡ false = ground arith in
    rw (fits, whole, some_len, low, u) refl

pub apart_free :
    (lo s e : VirtPageNum) (m : BTreeMap VmArea)
    → AreasFrom lo m
    → AreApart s e m
    → s < e
    → get m s ≡ none
unfolding get
apart_free lo s e [] v x h = refl
apart_free lo s e ((k, a) ∷ m) v x h =
    ground (arith, v.0, v.2, x.0, apart_free a.end s e m v.4 x.1 h)
