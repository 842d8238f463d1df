-- ===== src/Memory/InitStack/View.antt =====
-- The stack as the user sees it: bytes by virtual address, over the frames of its pages.
use asynclear.Prelude.{
  ℕ, ◌+◌, ◌*◌, ◌/◌, ◌%◌, ◌≤◌, ◌<◌, ◌≡◌, refl, ◌∙◌, ap, ◌⊎◌, inl, inr, List, [], ◌∷◌, ◌++◌, ◌==◌,
  length, true, false, lt_cases, arith,
}
use asynclear.Memory.Address.{PhysAddr, VirtAddr}
use asynclear.Memory.InitStack.{write_bytes}

abbrev pub Holds : (VirtAddr → ℕ) → VirtAddr → List ℕ → Type 0
Holds view a [] = Unit
Holds view a (b ∷ bs) = (view a ≡ b) × Holds view (a + 1) bs

pub Holds-cong :
    (view view' : VirtAddr → ℕ) (a : VirtAddr) (bs : List ℕ)
    → ((b : VirtAddr) → a ≤ b → view' b ≡ view b)
    → Holds view a bs
    → Holds view' a bs
Holds-cong view view' a [] e h = tt
Holds-cong view view' a (b ∷ bs) e h =
    (e a (omega arith) ∙ h.0, Holds-cong view view' (a + 1) bs (λ c l. e c (omega arith)) h.1)

pub Holds-append :
    (view : VirtAddr → ℕ) (a b : VirtAddr) (bs cs : List ℕ)
    → a + length bs ≡ b
    → Holds view a bs
    → Holds view b cs
    → Holds view a (bs ++ cs)
Holds-append view a b [] cs e h g = let ab : a ≡ b = omega (arith, e) in rw ab g
Holds-append view a b (x ∷ bs) cs e h g =
    (h.0, Holds-append view (a + 1) b bs cs (omega (arith, e)) h.1 g)

-- Bytes that are written are read again, and others are as before.
pub write_out :
    (m : PhysAddr → ℕ) (p : PhysAddr) (bs : List ℕ) (q : PhysAddr)
    → (q < p) ⊎ (p + length bs ≤ q)
    → write_bytes m p bs q ≡ m q
write_out m p [] q h = refl
write_out m p (b ∷ bs) q (inl h) =
    let e : (q == p) ≡ false = ground arith in rw e (write_out m (p + 1) bs q (inl (omega arith)))
write_out m p (b ∷ bs) q (inr h) =
    let e : (q == p) ≡ false = ground arith in rw e (write_out m (p + 1) bs q (inr (omega arith)))

-- `frame_of` gives the frame of each page, and no two pages have the same.
module _ (frame_of : ℕ → ℕ) (injective : (i j : ℕ) → frame_of i ≡ frame_of j → i ≡ j) where
  abbrev pub physical : VirtAddr → PhysAddr
  physical a = frame_of (a / 4096) * 4096 + a % 4096

  physical-injective : (a b : VirtAddr) → physical a ≡ physical b → a ≡ b
  physical-injective a b e =
      let f : frame_of (a / 4096) ≡ frame_of (b / 4096) = omega (arith, e) in
      omega (arith, e, f, injective (a / 4096) (b / 4096) f)

  pub physical-ne : (a b : VirtAddr) → a < b → (physical b == physical a) ≡ false
  physical-ne a b h = ground (arith, physical-injective b a)

  pub written :
      (m : PhysAddr → ℕ) (sp : VirtAddr) (bs : List ℕ)
      → sp % 4096 + length bs ≤ 4096
      → Holds (λ a. write_bytes m (physical sp) bs (physical a)) sp bs
  written m sp [] h = tt
  written m sp (b ∷ []) h =
      let e : (physical sp == physical sp) ≡ true = ground arith in (rw e refl, tt)
  written m sp (b ∷ c ∷ bs) h =
      let e : (physical sp == physical sp) ≡ true = ground arith in
      let q : (sp + 1) / 4096 ≡ sp / 4096 = omega arith in
      let next : physical sp + 1 ≡ physical (sp + 1) =
        omega (arith, ap (λ (t : ℕ). frame_of t) q) in
      (
        rw e refl,
        Holds-cong (λ a. write_bytes m (physical (sp + 1)) (c ∷ bs) (physical a))
            (λ a. write_bytes m (physical sp) (b ∷ c ∷ bs) (physical a)) (sp + 1) (c ∷ bs)
            (λ a l.
              rw (physical-ne sp a (omega arith))
                (ap (λ (t : ℕ). write_bytes m t (c ∷ bs) (physical a)) next))
            (written m (sp + 1) (c ∷ bs) (omega arith)),
      )

  -- What lies above a block of one page is not touched by writing it.
  pub kept :
      (m : PhysAddr → ℕ) (sp a : VirtAddr) (bs : List ℕ)
      → sp % 4096 + length bs ≤ 4096
      → sp + length bs ≤ a
      → write_bytes m (physical sp) bs (physical a) ≡ m (physical a)
  kept m sp a bs h l =
      write_out m (physical sp) bs (physical a)
        (elim (lt_cases (frame_of (a / 4096)) (frame_of (sp / 4096))) [
          | inl f ↦ inl (omega arith)
          | inr f ↦ elim (lt_cases (frame_of (sp / 4096)) (frame_of (a / 4096))) [
            | inl g ↦ inr (omega arith)
            | inr g ↦
                let e : frame_of (a / 4096) ≡ frame_of (sp / 4096) = omega arith in
                inr (omega (arith, injective (a / 4096) (sp / 4096) e))
          ]
        ])
