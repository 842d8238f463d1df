-- ===== src/Memory/PageTable/Tree.antt =====
-- The tables of an address space form a tree: every valid entry above the last level points to a
-- frame that no other entry points to.
use asynclear.Prelude.{
  ℕ, suc, ◌^◌, ◌+◌, ◌<◌, ◌≡◌, ◌≢◌, refl, ap, true, false, none, List, [], ◌∷◌, length, ◌==◌,
  if◌then◌else◌, arith, inl, inr, Bool-cases, ==_iff, All, sym, ◌∙◌, contains,
}
use asynclear.Memory.Address.{PhysPageNum}
use asynclear.Memory.Pte.{PageTableEntry, is_valid, ppn}
use asynclear.Memory.Pte
use asynclear.Memory.PageTable.{write}
use asynclear.Memory.PageTable.Walk.{Frames, walk, Reaches, write_ne, write_self, line_cases}

-- The level of each frame, 3 for one that is no table, and the line of the table above that points to
-- it.
pub record Shape : Type 0 where
  pub depth : PhysPageNum → ℕ
  pub parent : PhysPageNum → PhysPageNum
  pub line : PhysPageNum → ℕ

abbrev pub AreFresh : Shape → List PhysPageNum → Type 0
AreFresh g [] = Unit
AreFresh g (f ∷ fs) = (g.depth f ≡ 3) × (f < 2 ^ 44) × (contains fs f ≡ false) × AreFresh g fs

-- `c` is the table below line `i` of `p`.
abbrev pub IsChild : Shape → PhysPageNum → ℕ → PhysPageNum → Type 0
IsChild g p i c = (g.depth c ≡ suc (g.depth p)) × (g.parent c ≡ p) × (g.line c ≡ i)

pub record IsTree (g : Shape) (frames : Frames) (root : PhysPageNum) : Type 0 where
  pub top : g.depth root ≡ 0
  pub child :
      (p : PhysPageNum) (i : ℕ)
      → g.depth p < 2
      → i < 512
      → is_valid (frames p i) ≡ true
      → IsChild g p i (ppn (frames p i))

-- Two walks to one line took the same way.
pub Reaches-unique :
    (g : Shape) (frames : Frames) (root : PhysPageNum)
    → IsTree g frames root
    → (c d p : PhysPageNum) (k : ℕ) (is js : List ℕ) → length is ≡ length js
    → g.depth c + length is ≡ 3
    → g.depth d + length js ≡ 3
    → All (λ (i : ℕ). i < 512) is
    → All (λ (i : ℕ). i < 512) js
    → Reaches frames c is p k
    → Reaches frames d js p k
    → (c ≡ d) × (is ≡ js)
Reaches-unique g frames root t c d p k [] js hl hc hd bi bj x y = absurd x
Reaches-unique g frames root t c d p k (i ∷ []) [] hl hc hd bi bj x y = absurd y
Reaches-unique g frames root t c d p k (i ∷ []) (j ∷ []) hl hc hd bi bj x y =
    (x.0 ∙ sym y.0, ap (λ (n : ℕ). n ∷ []) (x.1 ∙ sym y.1))
Reaches-unique g frames root t c d p k (i ∷ []) (j ∷ j' ∷ js) hl hc hd bi bj x y =
    absurd (omega arith)
Reaches-unique g frames root t c d p k (i ∷ i' ∷ is) [] hl hc hd bi bj x y = absurd y
Reaches-unique g frames root t c d p k (i ∷ i' ∷ is) (j ∷ []) hl hc hd bi bj x y =
    absurd (omega arith)
Reaches-unique g frames root t c d p k (i ∷ i' ∷ is) (j ∷ j' ∷ js) hl hc hd bi bj x y =
    let u = t.child c i (omega arith) bi.0 x.0 in
    let v = t.child d j (omega arith) bj.0 y.0 in
    let both =
      Reaches-unique g frames root t (ppn (frames c i)) (ppn (frames d j)) p k (i' ∷ is) (j' ∷ js)
        (omega arith) (omega (arith, u.0)) (omega (arith, v.0)) bi.1 bj.1 x.1 y.1 in
    (
      sym u.1 ∙ ap g.parent both.0 ∙ v.1,
      ap (λ (n : ℕ). n ∷ i' ∷ is) (sym u.2 ∙ ap g.line both.0 ∙ v.2)
          ∙ ap (λ (l : List ℕ). j ∷ l) both.1,
    )

-- A line of the last level that a walk does not arrive at does not matter to it.
pub walk-write_other :
    (g : Shape) (frames : Frames) (root : PhysPageNum)
    → IsTree g frames root
    → (q p : PhysPageNum) (k : ℕ) (e : PageTableEntry) (is : List ℕ) → g.depth p ≡ 2
    → g.depth q + length is ≡ 3
    → All (λ (i : ℕ). i < 512) is
    → (Reaches frames q is p k → ⊥)
    → walk (write frames p k e) q is ≡ walk frames q is
walk-write_other g frames root t q p k e [] hp hq b r = refl
walk-write_other g frames root t q p k e (i ∷ []) hp hq b r = rw (write_ne frames p k q i e r) refl
walk-write_other g frames root t q p k e (i ∷ j ∷ is) hp hq b r =
    let same : write frames p k e q i ≡ frames q i =
      write_ne frames p k q i e (λ h. ground (arith, ap g.depth h.0)) in
    elim (Bool-cases (is_valid (frames q i))) [
      | inr h ↦ rw (same, h) refl
      | inl h ↦
          let c = t.child q i (omega arith) b.0 h in
          rw (same, h)
            (walk-write_other g frames root t (ppn (frames q i)) p k e (j ∷ is) hp
              (omega (arith, c.0)) b.1 (λ x. r (h, x)))
    ]

-- The shape when the free frame `f` becomes the table below line `i` of `p`.
abbrev pub grow : Shape → PhysPageNum → PhysPageNum → ℕ → Shape
grow g f p i = record {
  depth = λ q. if f == q then suc (g.depth p) else g.depth q;
  parent = λ q. if f == q then p else g.parent q;
  line = λ q. if f == q then i else g.line q;
}

abbrev pub clear : Frames → PhysPageNum → Frames
clear frames f p line = if f == p then Pte.empty else frames p line

empty_invalid : is_valid Pte.empty ≡ false
unfolding is_valid Pte.flags Pte.empty
empty_invalid = refl

walk_cleared :
    (frames : Frames) (q : PhysPageNum) (i : ℕ) (is : List ℕ)
    → is_valid (frames q i) ≡ false
    → walk frames q (i ∷ is) ≡ none
walk_cleared frames q i [] h = rw h refl
walk_cleared frames q i (j ∷ is) h = rw h refl

clear_ne : (frames : Frames) (f q i : ℕ) → f ≢ q → clear frames f q i ≡ frames q i
clear_ne frames f q i h = let e : (f == q) ≡ false = ground arith in rw e refl

clear_self : (frames : Frames) (f i : ℕ) → clear frames f f i ≡ Pte.empty
clear_self frames f i = let e : (f == f) ≡ true = ground arith in rw e refl

-- The memory when entry `e` of line `k` in `p` makes the free frame `f` a table.
abbrev pub link : Frames → PhysPageNum → PhysPageNum → ℕ → PageTableEntry → Frames
link frames f p k e = write (clear frames f) p k e

pub link_ne :
    (frames : Frames) (f p k : ℕ) (e : PageTableEntry) (q i : ℕ)
    → f ≢ q
    → ((q ≡ p) × (i ≡ k) → ⊥)
    → link frames f p k e q i ≡ frames q i
link_ne frames f p k e q i hf h = write_ne (clear frames f) p k q i e h ∙ clear_ne frames f q i hf

link_new :
    (frames : Frames) (f p k : ℕ) (e : PageTableEntry) (i : ℕ)
    → f ≢ p
    → is_valid (link frames f p k e f i) ≡ false
link_new frames f p k e i h =
    rw (write_ne (clear frames f) p k f i e (λ x. h x.0), clear_self frames f i) empty_invalid

module _ (g : Shape) (frames : Frames) (root : PhysPageNum) (t : IsTree g frames root)
    (f p : PhysPageNum) (k : ℕ) (e : PageTableEntry) (hf : g.depth f ≡ 3) (hp : g.depth p < 2)
    (hv : is_valid (frames p k) ≡ false) (he : ppn e ≡ f) (valid : is_valid e ≡ true) where
  f_ne : (q : PhysPageNum) → g.depth q < 3 → f ≢ q
  f_ne q h x = omega (arith, ap g.depth x)

  -- Taking a free frame for a table changes no walk.
  pub walk-link :
      (q : PhysPageNum) (is : List ℕ)
      → g.depth q + length is ≡ 3
      → All (λ (i : ℕ). i < 512) is
      → walk (link frames f p k e) q is ≡ walk frames q is
  walk-link q [] hq b = refl
  walk-link q (i ∷ []) hq b =
      rw (link_ne frames f p k e q i (f_ne q (omega arith)) (λ h. omega (arith, ap g.depth h.0)))
        refl
  walk-link q (i ∷ j ∷ is) hq b = elim (line_cases p k q i) [
    | inl h ↦
        rw (h.0, h.1, write_self (clear frames f) p k e, valid, hv, he)
          (walk_cleared (link frames f p k e) f j is
            (link_new frames f p k e j (f_ne p (omega arith))))
    | inr h ↦
        rw (link_ne frames f p k e q i (f_ne q (omega arith)) h)
          (elim (Bool-cases (is_valid (frames q i))) [
            | inr n ↦ rw n refl
            | inl y ↦ rw y (
                walk-link (ppn (frames q i)) (j ∷ is)
                  (omega (arith, (t.child q i (omega arith) b.0 y).0)) b.1)
          ])
  ]

  pub grow_depth : (q : PhysPageNum) → f ≢ q → (grow g f p k).depth q ≡ g.depth q
  grow_depth q h = let x : (f == q) ≡ false = ground arith in rw x refl

  pub new_IsChild : IsChild (grow g f p k) p k f
  new_IsChild =
      let x : (f == f) ≡ true = ground arith in
      rw (x, grow_depth p (f_ne p (omega arith))) (refl, refl, refl)

  old_IsChild :
      (q : PhysPageNum) (i : ℕ) (c : PhysPageNum)
      → f ≢ q
      → f ≢ c
      → IsChild g q i c
      → IsChild (grow g f p k) q i c
  old_IsChild q i c hq hc d = let x : (f == c) ≡ false = ground arith in rw (x, grow_depth q hq) d

  grow-IsChild :
      (q : PhysPageNum) (i : ℕ)
      → f ≢ q
      → g.depth q < 2
      → i < 512
      → is_valid (link frames f p k e q i) ≡ true
      → IsChild (grow g f p k) q i (ppn (link frames f p k e q i))
  grow-IsChild q i hq hd hi y = elim (line_cases p k q i) [
    | inl h ↦ rw (h.0, h.1, write_self (clear frames f) p k e, he) new_IsChild
    | inr h ↦
        let same = link_ne frames f p k e q i hq h in
        let d = t.child q i hd hi (rw same at y) in
        rw same
          (old_IsChild q i (ppn (frames q i)) hq (f_ne (ppn (frames q i)) (omega (arith, d.0))) d)
  ]

  pub grow-IsTree : IsTree (grow g f p k) (link frames f p k e) root
  grow-IsTree = record {
    top = grow_depth root (f_ne root (omega (arith, t.top))) ∙ t.top;
    child = λ q i hd hi y. elim (Bool-cases (f == q)) [
      | inl z ↦
          absurd
            (ground (arith, link_new frames f p k e i (f_ne p (omega arith)), y, (==_iff f q).0 z))
      | inr z ↦
          let hq : f ≢ q = ground arith in
          grow-IsChild q i hq (omega (arith, hd, grow_depth q hq)) hi y
    ];
  }
