-- ===== src/Memory/MemorySpace/Areas.antt =====
-- The areas of an address space lie in order and apart.
use asynclear.Prelude.{
  ℕ, max, ◌+◌, ◌≤◌, ◌<◌, ◌≡◌, ◌⊎◌, inl, inr, [], ◌∷◌, All, arith, ltb, Bool-cases,
}
use asynclear.BTreeMap.{BTreeMap, before, after, last?}
use asynclear.Memory.Address.{VirtPageNum}
use asynclear.Memory.VmArea.{VmArea}
use asynclear.Memory.MemorySpace.{skip_prev}

-- The page after the last one below `LOW_ADDRESS_END`.
abbrev pub vpn_limit : ℕ
vpn_limit = 0x400_0000

-- Each area stands under its start, is not empty, ends in the low address space, and begins where the
-- one before it has ended or later.
abbrev pub AreasFrom : VirtPageNum → BTreeMap VmArea → Type 0
AreasFrom lo [] = Unit
AreasFrom lo ((k, a) ∷ m) =
    (k ≡ a.start) × (lo ≤ a.start) × (a.start < a.end) × (a.end ≤ vpn_limit) × AreasFrom a.end m

abbrev pub AreValid : BTreeMap VmArea → Type 0
AreValid m = AreasFrom 0 m

-- The pages from `s` up to `e` lie outside every area.
abbrev pub Apart : VirtPageNum → VirtPageNum → ℕ × VmArea → Type 0
Apart s e (k, a) = (e ≤ a.start) ⊎ (a.end ≤ s)

abbrev pub AreApart : VirtPageNum → VirtPageNum → BTreeMap VmArea → Type 0
AreApart s e m = All (Apart s e) m

pub AreasFrom-mono :
    (a b : VirtPageNum) (m : BTreeMap VmArea) → a ≤ b → AreasFrom b m → AreasFrom a m
AreasFrom-mono a b [] h v = tt
AreasFrom-mono a b ((k, x) ∷ m) h v = (v.0, omega arith, v.2, v.3, v.4)

-- What lies after an area lies apart from anything that ends before it.
pub AreApart-after :
    (s e lo : VirtPageNum) (m : BTreeMap VmArea) → e ≤ lo → AreasFrom lo m → AreApart s e m
AreApart-after s e lo [] h v = tt
AreApart-after s e lo ((k, x) ∷ m) h v =
    (inl (omega arith), AreApart-after s e x.end m (omega arith) v.4)

AreasFrom-max :
    (a b : VirtPageNum) (m : BTreeMap VmArea)
    → AreasFrom a m
    → AreasFrom b m
    → AreasFrom (max a b) m
AreasFrom-max a b [] v w = tt
AreasFrom-max a b ((k, x) ∷ m) v w = (v.0, omega arith, v.2, v.3, v.4)

pub AreApart-mono :
    (s s' e : VirtPageNum) (m : BTreeMap VmArea)
    → All (λ (x : ℕ × VmArea). x.1.end ≤ s) m
    → s ≤ s'
    → AreApart s' e m
AreApart-mono s s' e [] h v = tt
AreApart-mono s s' e ((k, x) ∷ m) h v = (inr (omega arith), AreApart-mono s s' e m h.1 v)

-- The areas `m` seen from a page `start`: those that start at it or before, which end where the search
-- begins, and those after it.
pub record Splits (start : VirtPageNum) (m old new : BTreeMap VmArea) : Type 0 where
  pub rest : AreasFrom (skip_prev start (last? old)) new
  pub ends : All (λ (x : ℕ × VmArea). x.1.end ≤ skip_prev start (last? old)) old
  pub bound : skip_prev start (last? old) ≤ max start vpn_limit
  pub hint : start ≤ skip_prev start (last? old)
  pub inside :
      (p e : VirtPageNum) → p < e → start ≤ p → AreApart p e m → skip_prev start (last? old) ≤ p

Splits-none :
    (start lo k : VirtPageNum) (a : VmArea) (m : BTreeMap VmArea)
    → AreasFrom lo ((k, a) ∷ m)
    → start < k
    → Splits start ((k, a) ∷ m) [] ((k, a) ∷ m)
unfolding last?
Splits-none start lo k a m v h = record {
  rest = (v.0, omega arith, v.2, v.3, v.4);
  ends = tt;
  bound = omega (arith, v.3);
  hint = omega arith;
  inside = λ p e l b x. b;
}

Splits-one :
    (start lo k : VirtPageNum) (a : VmArea) (m : BTreeMap VmArea)
    → AreasFrom lo ((k, a) ∷ m)
    → k ≤ start
    → AreasFrom start m
    → Splits start ((k, a) ∷ m) ((k, a) ∷ []) m
unfolding last?
Splits-one start lo k a m v h r = record {
  rest = AreasFrom-max start a.end m r v.4;
  ends = (omega arith, tt);
  bound = omega (arith, v.3);
  hint = omega arith;
  inside = λ p e l b x. ground (arith, x.0);
}

Splits-more :
    (start lo k j : VirtPageNum) (a b : VmArea) (m old new : BTreeMap VmArea)
    → AreasFrom lo ((k, a) ∷ m)
    → Splits start m ((j, b) ∷ old) new
    → b.start < b.end
    → a.end ≤ b.start
    → Splits start ((k, a) ∷ m) ((k, a) ∷ (j, b) ∷ old) new
unfolding last?
Splits-more start lo k j a b m old new v s h g = record {
  rest = s.rest;
  ends = (omega (arith, s.ends.0), s.ends);
  bound = s.bound;
  hint = s.hint;
  inside = λ p e l c x. s.inside p e l c x.1;
}

pub split_areas :
    (start lo : VirtPageNum) (m : BTreeMap VmArea)
    → AreasFrom lo m
    → Splits start m (before m (start + 1)) (after m (start + 1))
unfolding before after last?
split_areas start lo [] v = record {
  rest = tt;
  ends = tt;
  bound = omega arith;
  hint = omega arith;
  inside = λ p e h b x. b;
}
split_areas start lo ((k, a) ∷ []) v = elim (Bool-cases (ltb k (start + 1))) [
  | inl h ↦ rw h (Splits-one start lo k a [] v (ground arith) tt)
  | inr h ↦ rw h (Splits-none start lo k a [] v (ground arith))
]
split_areas start lo ((k, a) ∷ (j, b) ∷ m) v =
    let later = split_areas start a.end ((j, b) ∷ m) v.4 in
    elim (Bool-cases (ltb k (start + 1))) [
      | inr h ↦ rw h (Splits-none start lo k a ((j, b) ∷ m) v (ground arith))
      | inl h ↦ elim (Bool-cases (ltb j (start + 1))) [
        | inr g ↦
            rw (h, g)
              (Splits-one start lo k a ((j, b) ∷ m) v (ground arith)
                (v.4.0, ground arith, v.4.2, v.4.3, v.4.4))
        | inl g ↦
            rw (h, g)
              (Splits-more start lo k j a b ((j, b) ∷ m) (before m (start + 1))
                (after m (start + 1)) v (rw g at later) v.4.2 v.4.1)
      ]
    ]
