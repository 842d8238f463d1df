-- ===== src/Memory/MemorySpace/Mapping.antt =====
-- Anonymous mappings and page faults: what they do to the areas.
use asynclear.Prelude.{
  ℕ, max, ◌+◌, ◌*◌, ◌≤◌, ◌<◌, ◌≡◌, refl, inl, inr, some, [], ◌∷◌, arith, ltb, ◌==◌, Bool-cases,
  false, if◌then◌else◌, KResult, ok, err, panic, enomem, ◌>>=◌,
}
use asynclear.Config.{usize_mod, mmap_start, low_address_end}
use asynclear.BTreeMap.{BTreeMap, get, insert}
use asynclear.BTreeMap.Laws.{get-insert}
use asynclear.Memory.Address.{VirtPageNum, vpn_floor, vpn_ceil}
use asynclear.Memory.Pte.{MapPermission}
use asynclear.Memory.VmArea.{VmArea, lazy, new}
use asynclear.Memory.VmArea
use asynclear.Memory.MemorySpace.{MemorySpace, user_map, try_map}
use asynclear.Memory.MemorySpace.Areas.{vpn_limit, AreasFrom, AreValid, AreApart}
use asynclear.Memory.MemorySpace.Gap.{GapOutcome, try_find_mmap_area_lem, vpn_ceil_pos}

insert-AreasFrom :
    (lo : VirtPageNum) (m : BTreeMap VmArea) (a : VmArea)
    → AreasFrom lo m
    → lo ≤ a.start
    → a.start < a.end
    → a.end ≤ vpn_limit
    → AreApart a.start a.end m
    → AreasFrom lo (insert m a.start a)
unfolding insert
insert-AreasFrom lo [] a v l n h x = (refl, l, n, h, tt)
insert-AreasFrom lo ((k, b) ∷ m) a v l n h x = elim (Bool-cases (ltb a.start k)) [
  | inl e ↦ rw e (refl, l, n, h, (v.0, ground (arith, x.0, v), v.2, v.3, v.4))
  | inr e ↦
      let after_b : b.end ≤ a.start = ground (arith, x.0, v.0, v.2) in
      let other : (k == a.start) ≡ false = ground (arith, v.0, v.2) in
      rw (e, other) (v.0, v.1, v.2, v.3, insert-AreasFrom b.end m a v.4 after_b n h x.1)
]

-- What `try_map` of `n` pages may do, where `start` is the lowest page it may use.
abbrev pub MapOutcome :
    MemorySpace → VirtPageNum → ℕ → ℕ → MapPermission → KResult (VirtPageNum × MemorySpace) → Type 0
MapOutcome m start n len perm (ok (s, m')) =
    (start ≤ s)
    × AreApart s (s + n) m.user_areas
    × AreValid m'.user_areas
    × ((j : ℕ)
        → get m'.user_areas j
          ≡ (if s == j then some (VmArea.new s (s + n) perm lazy) else get m.user_areas j))
    × (m'.page_table ≡ m.page_table)
    × (m'.world ≡ m.world)
MapOutcome m start n len perm (err e) =
    (e ≡ enomem)
    × ((p : VirtPageNum) → start ≤ p → AreApart p (p + n) m.user_areas → vpn_limit < p + n)
MapOutcome m start n len perm panic = usize_mod ≤ max (start * 4096) low_address_end + len

map_outcome :
    (m : MemorySpace) (start n len : ℕ) (perm : MapPermission)
    (r : KResult (VirtPageNum × VirtPageNum))
    → AreValid m.user_areas
    → 0 < n
    → GapOutcome start n len m.user_areas r
    → MapOutcome m start n len perm (r >>= λ (s, e). ok (s, user_map m s e perm))
unfolding user_map VmArea.new
map_outcome m start n len perm (ok (s, e)) v pos g =
    let apart : AreApart s (s + n) m.user_areas = rw g.1 at g.3 in
    rw g.1 (
      g.0,
      apart,
      insert-AreasFrom 0 m.user_areas (VmArea.new s (s + n) perm lazy) v (omega arith) (omega arith)
          (omega (arith, g.1, g.2)) apart,
      (λ j. get-insert m.user_areas s j (VmArea.new s (s + n) perm lazy)),
      refl,
      refl,
    )
map_outcome m start n len perm (err e) v pos g = g
map_outcome m start n len perm panic v pos g = g

-- `try_map` without `MAP_FIXED`, on areas that lie in order and apart. It adds one area for the length
-- with the given permission, in a place apart from every other area, and keeps all others, the page table
-- and the frames: the areas lie in order and apart again. Or it fails for lack of memory, and then no
-- place from the hinted page on is large enough; it panics only if an address leaves 64 bits.
pub try_map_lem :
    (m : MemorySpace) (addr len : ℕ) (perm : MapPermission)
    → AreValid m.user_areas
    → addr < usize_mod
    → 0 < len
    → MapOutcome m
        (vpn_floor (max mmap_start addr))
        (vpn_ceil len)
        len
        perm
        (try_map m addr len perm false)
unfolding try_map
try_map_lem m addr len perm v b pos =
    map_outcome m _ (vpn_ceil len) len perm _ v (vpn_ceil_pos len pos).0
      (try_find_mmap_area_lem m.user_areas addr len v b pos)
