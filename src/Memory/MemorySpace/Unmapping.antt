-- ===== src/Memory/MemorySpace/Unmapping.antt =====
-- Which areas `unmap` takes away.
use asynclear.Prelude.{
  ◌≤◌, ◌≡◌, refl, List, [], ◌∷◌, arith, ltb, leb, Bool-cases, Bool, true, false, ◌&&◌, ◌||◌, inl,
  inr, if◌then◌else◌, ok, panic,
}
use asynclear.BTreeMap.{BTreeMap, before, after, last_entry}
use asynclear.Memory.Address.{VirtPageNum}
use asynclear.Memory.VmArea.{VmArea}
use asynclear.Memory.MemorySpace.{inside_range, from_prev}
use asynclear.Memory.MemorySpace.Areas.{AreasFrom, AreValid}

abbrev pub is_inside : VirtPageNum → VirtPageNum → VmArea → Bool
is_inside s e a = leb s a.start && leb a.end e

-- The area lies inside the range or outside it.
abbrev pub is_whole : VirtPageNum → VirtPageNum → VmArea → Bool
is_whole s e a = is_inside s e a || (leb a.end s || leb e a.start)

abbrev pub all_whole : VirtPageNum → VirtPageNum → BTreeMap VmArea → Bool
all_whole s e [] = true
all_whole s e ((k, a) ∷ m) = is_whole s e a && all_whole s e m

abbrev pub starts_inside : VirtPageNum → VirtPageNum → BTreeMap VmArea → List VirtPageNum
starts_inside s e [] = []
starts_inside s e ((k, a) ∷ m) =
    let rest : List VirtPageNum = starts_inside s e m in
    if is_inside s e a then a.start ∷ rest else rest

pub past_end :
    (s e lo : VirtPageNum) (m : BTreeMap VmArea)
    → AreasFrom lo m
    → e ≤ lo
    → (all_whole s e m ≡ true) × (starts_inside s e m ≡ [])
past_end s e lo [] v h = (refl, refl)
past_end s e lo ((k, a) ∷ m) v h =
    let r = past_end s e a.end m v.4 (omega arith) in
    (ground (arith, r.0, v.1), ground (arith, r.1, v.1, v.2))

inside_range_lem :
    (s e lo : VirtPageNum) (m : BTreeMap VmArea)
    → AreasFrom lo m
    → inside_range s e m ≡ (if all_whole s e m then ok (starts_inside s e m) else panic)
unfolding inside_range
inside_range_lem s e lo [] v = refl
inside_range_lem s e lo ((k, a) ∷ m) v = elim (Bool-cases (leb s a.start && leb a.end e)) [
  | inl i ↦
      rw (i, inside_range_lem s e a.end m v.4)
        (elim (Bool-cases (all_whole s e m)) [ inl w ↦ rw w refl | inr w ↦ rw w refl ])
  | inr i ↦ elim (Bool-cases (leb a.end s)) [
    | inl b ↦ rw (i, b, inside_range_lem s e a.end m v.4) refl
    | inr b ↦ elim (Bool-cases (leb e a.start)) [
      | inl c ↦
          let r = past_end s e a.end m v.4 (ground (arith, v.2)) in rw (i, b, c, r.0, r.1) refl
      | inr c ↦ rw (i, b, c) refl
    ]
  ]
]

-- The areas before the one that the cursor steps back to do not matter.
from_prev_lem :
    (s e lo : VirtPageNum) (m : BTreeMap VmArea)
    → AreasFrom lo m
    → (all_whole s e (from_prev m s) ≡ all_whole s e m)
      × (starts_inside s e (from_prev m s) ≡ starts_inside s e m)
      × AreasFrom 0 (from_prev m s)
unfolding before after last_entry
from_prev_lem s e lo [] v = (refl, refl, tt)
from_prev_lem s e lo ((k, a) ∷ []) v = elim (Bool-cases (ltb k s)) [
  | inl h ↦ rw h (refl, refl, (v.0, omega arith, v.2, v.3, v.4))
  | inr h ↦ rw h (refl, refl, (v.0, omega arith, v.2, v.3, v.4))
]
from_prev_lem s e lo ((k, a) ∷ (j, b) ∷ m) v = elim (Bool-cases (ltb k s)) [
  | inr h ↦ rw h (refl, refl, (v.0, omega arith, v.2, v.3, v.4))
  | inl h ↦ elim (Bool-cases (ltb j s)) [
    | inr g ↦ rw (h, g) (refl, refl, (v.0, omega arith, v.2, v.3, v.4))
    | inl g ↦
        let r = rw g at (from_prev_lem s e a.end ((j, b) ∷ m) v.4) in
        let left : leb a.end s ≡ true = ground (arith, v.4.0, v.4.1) in
        let out : leb s a.start ≡ false = ground (arith, v.0) in
        rw (h, g, left, out) (r.0, r.1, r.2)
  ]
]

-- The areas that `unmap` removes from areas that lie in order and apart, for pages from `s` up to `e`: it
-- panics exactly if some area lies partly inside the range, and else it removes exactly the areas inside,
-- in order.
pub unmap_range_lem :
    (s e : VirtPageNum) (m : BTreeMap VmArea)
    → AreValid m
    → inside_range s e (from_prev m s)
      ≡ (if all_whole s e m then ok (starts_inside s e m) else panic)
unmap_range_lem s e m v =
    let f = from_prev_lem s e 0 m v in
    rw (inside_range_lem s e 0 (from_prev m s) f.2, f.0, f.1) refl
