-- ===== src/Memory/PageTable/Walk.antt =====
-- The walk of the processor through the tables in memory, which creates nothing.
use asynclear.Prelude.{
  ℕ, ◌<◌, ◌≡◌, refl, ap, true, Option, none, some, List, [], ◌∷◌, get_or, ◌==◌, if◌then◌else◌,
  arith, inl, inr, Bool-cases, ==_iff, All, sym, ◌⊎◌,
}
use asynclear.Memory.Address.{VirtPageNum, PhysPageNum, indexes}
use asynclear.Memory.Address.Indexes.{indexes_value}
use asynclear.Memory.Pte.{PageTableEntry, is_valid, ppn}
use asynclear.Memory.PageTable.{PageTable, World, write}

abbrev pub Frames : Type 0
Frames = PhysPageNum → ℕ → PageTableEntry

-- From the table in frame `p` along the indexes to a valid leaf.
abbrev pub walk : Frames → PhysPageNum → List ℕ → Option PageTableEntry
walk frames p [] = none
walk frames p (i ∷ []) = if is_valid (frames p i) then some (frames p i) else none
walk frames p (i ∷ j ∷ js) =
    let below = walk frames (ppn (frames p i)) (j ∷ js) in
    if is_valid (frames p i) then below else none

abbrev pub path_of : VirtPageNum → List ℕ
path_of vpn = let (i0, i1, i2) = indexes vpn in i0 ∷ i1 ∷ i2 ∷ []

-- What the processor finds for a page.
abbrev pub lookup : World → PageTable → VirtPageNum → Option PageTableEntry
lookup w t vpn = walk w.frames t.root_frame (path_of vpn)

-- The walk along the indexes arrives at line `k` of frame `p`.
abbrev pub Reaches : Frames → PhysPageNum → List ℕ → PhysPageNum → ℕ → Type 0
Reaches frames q [] p k = ⊥
Reaches frames q (i ∷ []) p k = (q ≡ p) × (i ≡ k)
Reaches frames q (i ∷ j ∷ js) p k =
    (is_valid (frames q i) ≡ true) × Reaches frames (ppn (frames q i)) (j ∷ js) p k

pub path_of-injective :
    (m n : VirtPageNum) → m < 0x800_0000 → n < 0x800_0000 → path_of m ≡ path_of n → m ≡ n
path_of-injective m n hm hn e =
    let q = rw (indexes_value m, indexes_value n) at e in
    omega (
      arith,
      ap (λ (l : List ℕ). get_or l 0 0) q,
      ap (λ (l : List ℕ). get_or l 1 0) q,
      ap (λ (l : List ℕ). get_or l 2 0) q,
    )

pub path_of-bound : (vpn : VirtPageNum) → All (λ (i : ℕ). i < 512) (path_of vpn)
path_of-bound vpn = rw (indexes_value vpn) (omega arith, (omega arith, (omega arith, tt)))

pub write_ne :
    (frames : Frames) (p k q j : ℕ) (e : PageTableEntry)
    → ((q ≡ p) × (j ≡ k) → ⊥)
    → write frames p k e q j ≡ frames q j
write_ne frames p k q j e h = elim (Bool-cases (p == q)) [
  | inr a ↦ rw a refl
  | inl a ↦ elim (Bool-cases (k == j)) [
    | inr b ↦ rw (a, b) refl
    | inl b ↦ absurd (h (sym ((==_iff p q).0 a), sym ((==_iff k j).0 b)))
  ]
]

pub write_self : (frames : Frames) (p k : ℕ) (e : PageTableEntry) → write frames p k e p k ≡ e
write_self frames p k e =
    let a : (p == p) ≡ true = ground arith in
    let b : (k == k) ≡ true = ground arith in rw (a, b) refl

-- A walk that arrives at a line finds what it holds.
pub walk_ends :
    (frames : Frames) (q : PhysPageNum) (is : List ℕ) (p : PhysPageNum) (k : ℕ)
    → Reaches frames q is p k
    → walk frames q is ≡ (if is_valid (frames p k) then some (frames p k) else none)
walk_ends frames q [] p k r = absurd r
walk_ends frames q (i ∷ []) p k r = rw (r.0, r.1) refl
walk_ends frames q (i ∷ j ∷ js) p k r =
    rw r.0 (walk_ends frames (ppn (frames q i)) (j ∷ js) p k r.1)

pub line_cases : (p k q i : ℕ) → ((q ≡ p) × (i ≡ k)) ⊎ ((q ≡ p) × (i ≡ k) → ⊥)
line_cases p k q i = ground arith
