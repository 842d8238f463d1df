-- ===== src/Memory/Mmap/Roundtrip.antt =====
-- What a private anonymous mapping and the removal of the same range do together.
use Prim.Native.Nat.{bit_and}
use asynclear.Prelude.{
  ℕ, ◌+◌, ◌-◌, ◌*◌, ◌<◌, ◌≡◌, refl, sym, ap, ◌∙◌, subst, Bool, true, false, not, ◌||◌, ◌==◌,
  if◌then◌else◌, Bool-cases, inl, inr, none, some, KResult, ok, err, panic, Errno, einval,
  unsupported, ◌>>=◌, ◌>>◌, ensure, arith,
}
use asynclear.Config.{usize_mod, page_offset_mask}
use asynclear.BTreeMap.{BTreeMap, get, remove}
use asynclear.BTreeMap.Laws.{get-remove}
use asynclear.Memory.Address.{VirtAddr, VirtPageNum, page_start, vpn_floor, vpn_ceil}
use asynclear.Memory.Pte.{MapPermission, permission_from_prot}
use asynclear.Memory.VmArea.{VmArea, lazy}
use asynclear.Memory.VmArea
use asynclear.Memory.MemorySpace.{MemorySpace, try_map, try_find_mmap_area}
use asynclear.Memory.MemorySpace.Areas.{AreValid}
use asynclear.Memory.MemorySpace.Gap.{vpn_ceil_pos}
use asynclear.Memory.MemorySpace.Mapping.{try_map_lem}
use asynclear.Memory.Heap.{ProcessInner, sys_munmap}
use asynclear.Memory.Mmap.{
  Inodes, private_anonymous_map, choose_map, sys_mmap, all_prots, all_mmap_flags, map_shared,
  map_private, map_anonymous, map_fixed,
}
use asynclear.Fs.FdTable.{FdTable}
use asynclear.Fs.OpenFlags.{has}
use asynclear.Memory.Mmap.Fresh.{
  AreasFrom-Above, found_Alone, unmap_fresh, unmap_accepted, apart_free,
}

ensure_ok {ℓ} :
    {A : Type ℓ} (b : Bool) (e : Errno) (k : KResult A) (v : A)
    → (ensure b e >> k) ≡ ok v
    → (b ≡ true) × (k ≡ ok v)
ensure_ok true e k v h = (refl, h)
ensure_ok false e k v h = absurd cc

bind_ok {ℓ κ} :
    {A : Type ℓ} {B : Type κ} (m : KResult A) (k : A → KResult B) (v : B)
    → (m >>= k) ≡ ok v
    → (x : A) × (m ≡ ok x) × (k x ≡ ok v)
bind_ok (ok a) k v h = (a, refl, h)
bind_ok (err e) k v h = absurd cc
bind_ok panic k v h = absurd cc

-- A mapping that is not shared succeeds as a private anonymous one only.
chosen :
    (i : Inodes) (t : FdTable) (p : ProcessInner) (addr len prot flags fd offset : ℕ)
    (v : VirtPageNum × ProcessInner)
    → has flags map_shared ≡ false
    → choose_map i t p addr len prot flags fd offset ≡ ok v
    → private_anonymous_map p addr len prot flags ≡ ok v
chosen i t p addr len prot flags fd offset v n h =
    go (has flags map_private) (has flags map_anonymous)
      (not (fd == usize_mod - 1) || not (offset == 0)) (rw n at h)
  where
    go :
        (private anonymous other : Bool)
        → (if not private
            then err einval
            else if anonymous
            then (if other then err einval else private_anonymous_map p addr len prot flags)
            else panic)
          ≡ ok v
        → private_anonymous_map p addr len prot flags ≡ ok v
    go true true false k = k
    go true true true k = absurd cc
    go true false o k = absurd cc
    go false a o k = absurd cc

not_fixed :
    (m : MemorySpace) (addr len : ℕ) (perm : MapPermission) (fixed : Bool)
    (v : VirtPageNum × MemorySpace)
    → try_map m addr len perm fixed ≡ ok v
    → try_map m addr len perm false ≡ ok v
unfolding try_map try_find_mmap_area
not_fixed m addr len perm false v h = h
not_fixed m addr len perm true v h = elim (Bool-cases (bit_and addr page_offset_mask == 0)) [
  | inl e ↦ let k = rw e at h in absurd cc
  | inr e ↦ let k = rw e at h in absurd cc
]

-- At `a` stands a new area for the length with the permission, and `sys_munmap` of the same range leaves
-- the areas, the page table and the frames of `p`.
abbrev pub Undone : ProcessInner → ProcessInner → VirtAddr → ℕ → MapPermission → Type 0
Undone p p' a len perm =
    (get p'.memory_space.user_areas (vpn_floor a)
      ≡ some (VmArea.new (vpn_floor a) (vpn_floor a + vpn_ceil len) perm lazy))
    × (p'' : ProcessInner) × (sys_munmap p' a len ≡ ok (0, p''))
    × ((j : VirtPageNum) → get p''.memory_space.user_areas j ≡ get p.memory_space.user_areas j)
    × (p''.memory_space.page_table ≡ p.memory_space.page_table)
    × (p''.memory_space.world ≡ p.memory_space.world)

abbrev mapped_in : ProcessInner → MemorySpace → ProcessInner
mapped_in p m = record p { memory_space = m }

restored :
    (s j : VirtPageNum) (old new : BTreeMap VmArea) (a : VmArea)
    → get new j ≡ (if s == j then some a else get old j)
    → get old s ≡ none
    → (if s == j then none else get new j) ≡ get old j
restored s j old new a h free = elim (Bool-cases (s == j)) [
  | inl e ↦ let sj : s ≡ j = ground (arith, e) in rw e (sym free ∙ ap (get old) sj)
  | inr e ↦ rw e (rw e at h)
]

try_map-Undone :
    (p : ProcessInner) (addr len : ℕ) (perm : MapPermission) (s : VirtPageNum) (m : MemorySpace)
    → AreValid p.memory_space.user_areas
    → addr < usize_mod
    → 0 < len
    → try_map p.memory_space addr len perm false ≡ ok (s, m)
    → Undone p (mapped_in p m) (page_start s) len perm
unfolding VmArea.new page_start vpn_floor
try_map-Undone p addr len perm s m v b pos h =
    let (_, apart, v', later, t, w) = rw h at (try_map_lem p.memory_space addr len perm v b pos) in
    let n = vpn_ceil len in
    let c = vpn_ceil_pos len pos in
    let same : (s == s) ≡ true = ground arith in
    let here : get m.user_areas s ≡ some (VmArea.new s (s + n) perm lazy) =
      later s ∙ rw same refl in
    let r = found_Alone 0 s (VmArea.new s (s + n) perm lazy) m.user_areas v' here in
    let at_page : page_start s ≡ s * 4096 = omega (arith, r.bound) in
    let back : vpn_floor (s * 4096) ≡ s = omega arith in
    let free = apart_free 0 s (s + n) p.memory_space.user_areas v apart (omega (arith, c.0)) in
    rw (at_page, back)
      (
        here,
        mapped_in p (record m { user_areas = remove m.user_areas s }),
        unmap_accepted (mapped_in p m) s len _ pos (omega (arith, r.bound, c.1))
            (unmap_fresh m s n len perm v' here refl pos),
        λ j.
            get-remove 0 m.user_areas s j (AreasFrom-Above 0 m.user_areas v')
            ∙ restored s j _ _ _ (later j) free,
        t,
        w,
      )

-- What a successful call returns.
abbrev pair_or : ℕ × ProcessInner → KResult (ℕ × ProcessInner) → ℕ × ProcessInner
pair_or d (ok v) = v
pair_or d (err e) = d
pair_or d panic = d

-- `sys_mmap` without MAP_SHARED on areas that lie in order and apart, when it succeeds: at the returned
-- address stands a new area of whole pages for the length, with the permission asked for, and
-- `sys_munmap` of that address and length then succeeds and leaves every area as before the two calls,
-- with the same page table and the same frames.
pub sys_mmap-sys_munmap :
    (i : Inodes) (t : FdTable) (p p' : ProcessInner) (addr len prot flags fd offset : ℕ)
    (a : VirtAddr)
    → AreValid p.memory_space.user_areas
    → addr < usize_mod
    → has flags map_shared ≡ false
    → sys_mmap i t p addr len prot flags fd offset ≡ ok (a, p')
    → Undone p p' a len (permission_from_prot prot)
unfolding sys_mmap
sys_mmap-sys_munmap i t p p' addr len prot flags fd offset a v b n h =
    let (some_len, h1) = ensure_ok (not (len == 0)) einval _ _ h in
    let (_, h2) = ensure_ok (bit_and prot all_prots == prot) einval _ _ h1 in
    let (_, h3) = ensure_ok (bit_and flags all_mmap_flags == flags) unsupported _ _ h2 in
    let (_, h4) = ensure_ok (bit_and offset page_offset_mask == 0) einval _ _ h3 in
    let (x, c, r) = bind_ok _ (λ (x : ℕ × ProcessInner). ok (page_start x.0, x.1)) _ h4 in
    let m = bind_ok _ _ _ (chosen i t p addr len prot flags fd offset x n c) in
    let tried =
      not_fixed p.memory_space addr len (permission_from_prot prot) (has flags map_fixed) m.0 m.1 in
    let pos : 0 < len = ground (arith, some_len) in
    let whole = try_map-Undone p addr len (permission_from_prot prot) m.0.0 m.0.1 v b pos tried in
    let e = ap (pair_or x) m.2 in
    let f = ap (pair_or x) r in
    subst (λ (y : ℕ × ProcessInner). Undone p y.1 y.0 len (permission_from_prot prot))
      (ap (λ (y : ℕ × ProcessInner). (page_start y.0, y.1)) e ∙ f) whole
