-- ===== src/Memory/MemorySpace/Gap.antt =====
-- The search for unmapped pages: the first place where the length fits between the areas.
use asynclear.Prelude.{
  ℕ, max, ◌+◌, ◌*◌, ◌≤◌, ◌<◌, ◌≡◌, ◌/◌, refl, sym, lt_cases, inl, inr, List, [], ◌∷◌, ◌++◌, All,
  arith, leb, Bool-cases, false, KResult, ok, err, panic, enomem, subst,
}
use asynclear.Config.{usize_mod, mmap_start, low_address_end}
use asynclear.BTreeMap.{BTreeMap, before, after, last?}
use asynclear.BTreeMap.Laws.{before-append-after}
use asynclear.Memory.Address.{VirtPageNum, add, page_start, vpn_floor, vpn_ceil}
use asynclear.Memory.VmArea.{VmArea}
use asynclear.Memory.MemorySpace.{skip_prev, find_gap, try_find_mmap_area}
use asynclear.Memory.MemorySpace.Areas.{
  vpn_limit, AreasFrom, AreValid, Apart, AreApart, AreApart-after, AreApart-mono, Splits,
  split_areas,
}

All-append {ℓ κ} :
    {A : Type ℓ} (P : A → Type κ) (xs ys : List A) → All P xs → All P ys → All P (xs ++ ys)
All-append P [] ys h g = g
All-append P (x ∷ xs) ys h g = (h.0, All-append P xs ys h.1 g)

All-right {ℓ κ} : {A : Type ℓ} (P : A → Type κ) (xs ys : List A) → All P (xs ++ ys) → All P ys
All-right P [] ys h = h
All-right P (x ∷ xs) ys h = All-right P xs ys h.1

-- What a search for `n` free pages from `start` on may return: the first pages that fit; the error if
-- none fit below the limit; a panic if the end of the search leaves 64 bits.
abbrev pub GapOutcome :
    VirtPageNum → ℕ → ℕ → BTreeMap VmArea → KResult (VirtPageNum × VirtPageNum) → Type 0
GapOutcome start n len m (ok (s, e)) =
    (start ≤ s)
    × (e ≡ s + n)
    × (e ≤ vpn_limit)
    × AreApart s e m
    × ((p : VirtPageNum) → start ≤ p → AreApart p (p + n) m → s ≤ p)
GapOutcome start n len m (err e) =
    (e ≡ enomem) × ((p : VirtPageNum) → start ≤ p → AreApart p (p + n) m → vpn_limit < p + n)
GapOutcome start n len m panic = usize_mod ≤ max (start * 4096) low_address_end + len

gap_next :
    (start n len k : ℕ) (a : VmArea) (m : BTreeMap VmArea) (r : KResult (VirtPageNum × VirtPageNum))
    → AreasFrom start ((k, a) ∷ m)
    → a.start < start + n
    → GapOutcome a.end n len m r
    → GapOutcome start n len ((k, a) ∷ m) r
gap_next start n len k a m (ok (s, e)) v h g =
    (omega arith, g.1, g.2, (inr g.0, g.3), λ p l x. ground (arith, x.0, g.4 p, x.1))
gap_next start n len k a m (err e) v h g = (g.0, λ p l x. ground (arith, x.0, g.1 p, x.1))
gap_next start n len k a m panic v h g = omega arith

add_lem :
    (start len : ℕ)
    → start * 4096 < usize_mod
    → start * 4096 + len < usize_mod
    → add (page_start start) len ≡ ok (start * 4096 + len)
unfolding add page_start
add_lem start len b h = ground arith

add_overflow :
    (start len : ℕ)
    → start * 4096 < usize_mod
    → usize_mod ≤ start * 4096 + len
    → add (page_start start) len ≡ panic
unfolding add page_start
add_overflow start len b h = ground arith

page_start_small : (n : VirtPageNum) → n * 4096 < usize_mod → page_start n ≡ n * 4096
unfolding page_start
page_start_small n h = omega arith

vpn_ceil_sum : (start len : ℕ) → vpn_ceil (start * 4096 + len) ≡ start + vpn_ceil len
unfolding vpn_ceil
vpn_ceil_sum start len = omega arith

pub vpn_ceil_pos :
    (len : ℕ)
    → 0 < len
    → (0 < vpn_ceil len) × (len ≤ vpn_ceil len * 4096) × (vpn_ceil len * 4096 < len + 4096)
unfolding vpn_ceil
vpn_ceil_pos len h = (omega arith, omega arith, omega arith)

find_gap_lem :
    (start len : ℕ) (m : BTreeMap VmArea)
    → start * 4096 < usize_mod
    → 0 < len
    → AreasFrom start m
    → GapOutcome start (vpn_ceil len) len m (find_gap start len m)
unfolding find_gap
find_gap_lem start len [] b pos v = elim (lt_cases (start * 4096 + len) usize_mod) [
  | inr o ↦ rw (add_overflow start len b o) (omega arith)
  | inl o ↦
      rw (add_lem start len b o, vpn_ceil_sum start len)
        (let c = vpn_ceil_pos len pos in
          elim (Bool-cases (leb (start * 4096 + len) low_address_end)) [
            | inl h ↦ rw h (omega arith, refl, ground (arith, c.1), tt, λ p l x. l)
            | inr h ↦ rw h (refl, λ p l x. ground (arith, c.1))
          ])
]
find_gap_lem start len ((k, a) ∷ m) b pos v = elim (lt_cases (start * 4096 + len) usize_mod) [
  | inr o ↦ rw (add_overflow start len b o) (omega arith)
  | inl o ↦
      rw
        (
          add_lem start len b o,
          page_start_small a.start (omega (arith, v.2, v.3)),
          vpn_ceil_sum start len,
        )
        (let c = vpn_ceil_pos len pos in
          elim (Bool-cases (leb (start * 4096 + len) (a.start * 4096))) [
            | inl h ↦ rw h (
              omega arith,
              refl,
              ground (arith, c.1, v.2, v.3),
              AreApart-after start (start + vpn_ceil len) a.start ((k, a) ∷ m)
                  (ground (arith, c.1, c.2)) (v.0, omega arith, v.2, v.3, v.4),
              λ p l x. l,
            )
            | inr h ↦ rw h (
                gap_next start (vpn_ceil len) len k a m (find_gap a.end len m) v
                  (ground (arith, c.1)) (find_gap_lem a.end len m (omega (arith, v.3)) pos v.4))
          ])
]

gap_all :
    (start q n len : ℕ) (m old new : BTreeMap VmArea) (r : KResult (VirtPageNum × VirtPageNum))
    → Splits start m old new
    → old ++ new ≡ m
    → q ≡ skip_prev start (last? old)
    → 0 < n
    → GapOutcome q n len new r
    → GapOutcome start n len m r
gap_all start q n len m old new (ok (s, e)) d i j pos g = (
  omega (arith, d.hint),
  g.1,
  g.2,
  subst (AreApart s e) i (
      All-append (Apart s e) old new
        (AreApart-mono (skip_prev start (last? old)) s e old d.ends (omega arith)) g.3),
  λ p l x.
      g.4 p (omega (arith, d.inside p (p + n) (omega arith) l x))
        (All-right (Apart p (p + n)) old new (subst (AreApart p (p + n)) (sym i) x)),
)
gap_all start q n len m old new (err e) d i j pos g = (
  g.0,
  λ p l x.
      g.1 p (omega (arith, d.inside p (p + n) (omega arith) l x))
        (All-right (Apart p (p + n)) old new (subst (AreApart p (p + n)) (sym i) x)),
)
gap_all start q n len m old new panic d i j pos g = omega (arith, d.bound)

-- `try_find_mmap_area` without `MAP_FIXED`, on areas that lie in order and apart. It returns either
-- pages for the length, from the hinted page or the start of the region for mappings on, below the
-- limit and apart from every area, and no lower ones would do; or the error for a lack of memory, and
-- then no such pages exist. It panics only if an address of the search leaves 64 bits.
pub try_find_mmap_area_lem :
    (areas : BTreeMap VmArea) (addr len : ℕ)
    → AreValid areas
    → addr < usize_mod
    → 0 < len
    → GapOutcome
        (vpn_floor (max mmap_start addr))
        (vpn_ceil len)
        len
        areas
        (try_find_mmap_area areas addr len false)
unfolding try_find_mmap_area vpn_floor
try_find_mmap_area_lem areas addr len v b pos =
    let start = max mmap_start addr / 4096 in
    let d = split_areas start 0 areas v in
    gap_all start (skip_prev start (last? (before areas (start + 1)))) (vpn_ceil len) len areas
      (before areas (start + 1)) (after areas (start + 1)) _ d
      (before-append-after areas (start + 1)) refl (vpn_ceil_pos len pos).0
      (find_gap_lem _ len (after areas (start + 1)) (omega (arith, d.bound)) pos d.rest)
