-- ===== src/IdAllocator/Ownership.antt =====
-- Who owns an id: what `alloc` and `dealloc` do to the set of ids in use.
use asynclear.Prelude.{
  ℕ, ◌+◌, ◌-◌, ◌^◌, ◌<◌, ◌≤◌, ◌≡◌, refl, Bool, true, false, not, ◌&&◌, ◌||◌, List, [], ◌∷◌, ltb,
  ◌==◌, contains, KResult, ok, err, panic, Bool-cases, inl, inr, arith,
}
use asynclear.IdAllocator.{RecycleAllocator, begin_with, alloc, dealloc}

-- Every recycled id was handed out before, and stands in the list once.
abbrev pub AreRecycled : ℕ → List ℕ → Type 0
AreRecycled n [] = Unit
AreRecycled n (x ∷ xs) = (x < n) × (contains xs x ≡ false) × AreRecycled n xs

abbrev pub IsValid : RecycleAllocator → Type 0
IsValid a = AreRecycled a.current a.recycled

-- The ids that are in use, or lie below the first id.
abbrev pub in_use : RecycleAllocator → ℕ → Bool
in_use a id = ltb id a.current && not (contains a.recycled id)

add-sub_one : (n : ℕ) → n + 1 - 1 ≡ n
add-sub_one n = omega arith

AreRecycled-mono : (m n : ℕ) (xs : List ℕ) → m ≤ n → AreRecycled m xs → AreRecycled n xs
AreRecycled-mono m n [] h v = tt
AreRecycled-mono m n (x ∷ xs) h v = (omega arith, v.1, AreRecycled-mono m n xs h v.2)

AreRecycled-contains :
    (n : ℕ) (xs : List ℕ) (j : ℕ) → AreRecycled n xs → contains xs j ≡ true → j < n
AreRecycled-contains n [] j v h = ground arith
AreRecycled-contains n (x ∷ xs) j v h = ground (arith, AreRecycled-contains n xs j v.2)

pub begin_with-IsValid : (n : ℕ) → IsValid (begin_with n)
unfolding begin_with
begin_with-IsValid n = tt

-- What a successful `alloc` does.
pub record Allocates (a : RecycleAllocator) (id : ℕ) (b : RecycleAllocator) : Type 0 where
  pub valid : IsValid b
  pub fresh : in_use a id ≡ false
  pub taken : (j : ℕ) → in_use b j ≡ (j == id || in_use a j)

alloc_recycled :
    (n x : ℕ) (xs : List ℕ)
    → AreRecycled n (x ∷ xs)
    → Allocates
        (record { current = n; recycled = x ∷ xs })
        x
        (record { current = n; recycled = xs })
alloc_recycled n x xs v = record { valid = v.2; fresh = ground arith; taken = λ j. ground arith }

alloc_new :
    (n : ℕ)
    → Allocates
        (record { current = n; recycled = [] })
        n
        (record { current = n + 1; recycled = [] })
alloc_new n = record { valid = tt; fresh = ground arith; taken = λ j. ground arith }

-- What a call of `alloc` may do, on each of its outcomes.
abbrev pub AllocOutcome : RecycleAllocator → KResult (ℕ × RecycleAllocator) → Type 0
AllocOutcome a (ok (id, b)) = Allocates a id b
AllocOutcome a (err e) = ⊥
AllocOutcome a panic = (a.recycled ≡ []) × (2 ^ 64 ≤ a.current + 1)

alloc_outcome :
    (n : ℕ) (xs : List ℕ)
    → AreRecycled n xs
    → AllocOutcome
        (record { current = n; recycled = xs })
        (alloc (record { current = n; recycled = xs }))
unfolding alloc
alloc_outcome n [] v = elim (Bool-cases (ltb (n + 1) (2 ^ 64))) [
  | inl h ↦ rw h (rw (add-sub_one n) (alloc_new n))
  | inr h ↦ rw h (refl, ground arith)
]
alloc_outcome n (x ∷ xs) v = alloc_recycled n x xs v

-- `alloc` of a valid allocator returns an id that was not in use, and afterwards exactly that id is
-- in use besides those before, and the allocator is valid. It panics only when no id is recycled
-- and the counter would leave 64 bits.
pub alloc_lem : (a : RecycleAllocator) → IsValid a → AllocOutcome a (alloc a)
alloc_lem a v = alloc_outcome a.current a.recycled v

-- What a call of `dealloc` does, according to whether the id is in use.
abbrev pub DeallocOutcome : RecycleAllocator → ℕ → Bool → KResult RecycleAllocator → Type 0
DeallocOutcome a id true r =
    (b : RecycleAllocator) × (r ≡ ok b)
    × IsValid b
    × ((j : ℕ) → in_use b j ≡ (in_use a j && not (j == id)))
DeallocOutcome a id false r = r ≡ panic

-- `dealloc` of an id in use takes exactly that id out of use and keeps the allocator valid; of any
-- other id it panics.
pub dealloc_lem :
    (a : RecycleAllocator) (id : ℕ) → IsValid a → DeallocOutcome a id (in_use a id) (dealloc a id)
unfolding dealloc
dealloc_lem a id v = elim (Bool-cases (ltb id a.current)) [
  | inr h ↦ rw h refl
  | inl h ↦ elim (Bool-cases (contains a.recycled id)) [
    | inl c ↦ rw (h, c) refl
    | inr c ↦
        rw (h, c)
          (record a { recycled = id ∷ a.recycled }, refl, (ground arith, c, v), λ j. ground arith)
  ]
]
