-- ===== src/Fat32/Fat/Chain.antt =====
-- The chain of a file's clusters, as `cluster_chain` follows it, when clusters are added and freed.
use Prim.Native.Nat.{bit_and}
use asynclear.Prelude.{
  ℕ, zero, suc, ◌<◌, ◌≤◌, ◌≡◌, ◌≢◌, refl, Option, none, some, List, [], ◌∷◌, ◌++◌, ltb, ◌==◌,
  length, get_or, KResult, ok, err, panic, arith, true, false, ap, and_mask,
}
use asynclear.Fat32.Fat.{
  FileAllocTable, fat_entry_mask, end_of_chain, alloc_cluster, chain_from, cluster_chain,
}
use asynclear.Fat32.Fat.Alloc.{IsValid, Allocates, AllocOutcome, alloc_cluster_lem}
use asynclear.Fat32.Fat.Search.{is_free}

abbrev pub next_of : List ℕ → ℕ → ℕ
next_of entries c = bit_and (get_or entries c 0) fat_entry_mask

-- Following the entries from `c` on meets these clusters, each a data cluster of the table, and then an
-- end mark.
abbrev pub IsChain : List ℕ → ℕ → List ℕ → Type 0
IsChain entries c [] = 0x0fff_fff8 ≤ c
IsChain entries c (x ∷ xs) =
    (x ≡ c)
    × (2 ≤ c)
    × (c < 0x0fff_fff8)
    × (c < length entries)
    × IsChain entries (next_of entries c) xs

abbrev pub last_of : ℕ → List ℕ → ℕ
last_of x [] = x
last_of x (y ∷ ys) = last_of y ys

chain_from_lem :
    (entries : List ℕ) (c : ℕ) (cs : List ℕ) (fuel : ℕ)
    → IsChain entries c cs
    → length cs ≤ fuel
    → chain_from fuel entries c ≡ ok cs
unfolding chain_from
chain_from_lem entries c [] zero v h = refl
chain_from_lem entries c [] (suc fuel) v h =
    let e : ltb c 0x0fff_fff8 ≡ false = ground arith in rw e refl
chain_from_lem entries c (x ∷ xs) zero v h = absurd (omega arith)
chain_from_lem entries c (x ∷ xs) (suc fuel) v h =
    let e : ltb c 0x0fff_fff8 ≡ true = ground (arith, v.2) in
    let b : ltb c (length entries) ≡ true = ground (arith, v.3) in
    rw (e, b, chain_from_lem entries (next_of entries c) xs fuel v.4 (omega arith), v.0) refl

-- `cluster_chain` of a chain returns its clusters in order, for any fuel of at least its length.
pub cluster_chain_lem :
    (f : FileAllocTable) (first : ℕ) (cs : List ℕ) (fuel : ℕ)
    → 2 ≤ first
    → IsChain f.fat_entries first cs
    → length cs ≤ fuel
    → cluster_chain fuel f first ≡ ok cs
unfolding cluster_chain
cluster_chain_lem f first cs fuel l v h =
    let e : ltb first 2 ≡ false = ground arith in
    rw e (chain_from_lem f.fat_entries first cs fuel v h)

last_ends :
    (entries : List ℕ) (c x : ℕ) (xs : List ℕ)
    → IsChain entries c (x ∷ xs)
    → (last_of x xs < length entries) × (0x0fff_fff8 ≤ next_of entries (last_of x xs))
last_ends entries c x [] v = rw v.0 (v.3, v.4)
last_ends entries c x (y ∷ ys) v = last_ends entries (next_of entries c) y ys v.4

chain_head :
    (entries : List ℕ) (c y : ℕ) (ys : List ℕ)
    → IsChain entries (next_of entries c) (y ∷ ys)
    → is_free entries c ≡ false
chain_head entries c y ys v = ground (arith, v.1)

module _ (f f' : FileAllocTable) (p n : ℕ) (v : IsValid f) (a : Allocates f (some p) n f') where
  next_prev : next_of f'.fat_entries p ≡ n
  next_prev = rw a.linked (omega (arith, and_mask 28 n, a.high, v.1))

  next_new : next_of f'.fat_entries n ≡ end_of_chain
  next_new = rw a.ends refl

  -- The chain of a file after `alloc_cluster` behind its last cluster.
  IsChain-extended :
      (c x : ℕ) (xs : List ℕ)
      → IsChain f.fat_entries c (x ∷ xs)
      → p ≡ last_of x xs
      → IsChain f'.fat_entries c ((x ∷ xs) ++ (n ∷ []))
  IsChain-extended c x [] h e =
      let q : next_of f'.fat_entries c ≡ n = rw (← h.0, ← e) next_prev in
      (
        h.0,
        h.1,
        h.2,
        omega (arith, h.3, a.same),
        (
          rw q refl,
          omega (arith, q, a.low),
          omega (arith, q, a.high, v.1),
          omega (arith, q, a.high, v.0, a.same),
          rw (q, next_new) (omega arith),
        ),
      )
  IsChain-extended c x (y ∷ ys) h e =
      let far = last_ends f.fat_entries (next_of f.fat_entries c) y ys h.4 in
      let not_n : c ≢ n = λ z. ground (arith, a.was_free, chain_head f.fat_entries c y ys h.4, z) in
      let not_p : (p == c) ≡ false = ground (arith, far.1, h.4.2, e) in
      let q : next_of f'.fat_entries c ≡ next_of f.fat_entries c =
        ap (λ (t : ℕ). bit_and t fat_entry_mask) (a.others c not_n not_p) in
      (
        h.0,
        h.1,
        h.2,
        omega (arith, h.3, a.same),
        rw q (IsChain-extended (next_of f.fat_entries c) y ys h.4 e),
      )

-- What `alloc_cluster` behind a chain does.
abbrev pub GrowOutcome : FileAllocTable → ℕ → List ℕ → KResult (Option ℕ × FileAllocTable) → Type 0
GrowOutcome f first cs (ok (none, f')) = f' ≡ f
GrowOutcome f first cs (ok (some n, f')) =
    IsValid f' × IsChain f'.fat_entries first (cs ++ (n ∷ []))
GrowOutcome f first cs (err e) = ⊥
GrowOutcome f first cs panic = ⊥

grow_outcome :
    (f : FileAllocTable) (first x : ℕ) (xs : List ℕ) (r : KResult (Option ℕ × FileAllocTable))
    → IsValid f
    → IsChain f.fat_entries first (x ∷ xs)
    → AllocOutcome f (some (last_of x xs)) r
    → GrowOutcome f first (x ∷ xs) r
grow_outcome f first x xs (ok (none, f')) v h o = o.0
grow_outcome f first x xs (ok (some n, f')) v h o =
    (o.valid, IsChain-extended f f' (last_of x xs) n v o first x xs h refl)
grow_outcome f first x xs (err e) v h o = o
grow_outcome f first x xs panic v h o = o

-- `alloc_cluster` behind the last cluster of a file's chain never panics. Either it appends one cluster
-- to the chain and the table is valid again, or it returns none and changes nothing.
pub alloc-chain :
    (f : FileAllocTable) (first x : ℕ) (xs : List ℕ)
    → IsValid f
    → IsChain f.fat_entries first (x ∷ xs)
    → GrowOutcome f first (x ∷ xs) (alloc_cluster f (some (last_of x xs)))
alloc-chain f first x xs v h =
    let e = last_ends f.fat_entries first x xs h in
    grow_outcome f first x xs _ v h
      (alloc_cluster_lem f (some (last_of x xs)) v (e.0, ground (arith, e.1)))
