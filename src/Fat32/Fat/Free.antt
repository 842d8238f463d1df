-- ===== src/Fat32/Fat/Free.antt =====
-- What `free_clusters` does to the table and to the chain whose tail it frees.
use Prim.Native.Nat.{bit_and}
use asynclear.Prelude.{
  sym, ℕ, ◌+◌, ◌<◌, ◌≡◌, ◌^◌, refl, List, [], ◌∷◌, ◌++◌, ltb, ◌==◌, ◌||◌, length, get_or, set, some,
  if◌then◌else◌, ok, arith, inl, inr, Bool-cases, ==_iff, true, false, contains, AreDistinct, All,
  length-set, get_or-set_self, get_or-set_ne, ◌∙◌, ap, subst,
}
use asynclear.Fat32.Fat.{FileAllocTable, fat_entry_mask, end_of_chain, free_clusters, clear_entries}
use asynclear.Fat32.Fat.Search.{is_free}
use asynclear.Fat32.Fat.Chain.{IsChain, next_of}

contains-append :
    (xs ys : List ℕ) (j : ℕ) → contains (xs ++ ys) j ≡ (contains xs j || contains ys j)
contains-append [] ys j = refl
contains-append (x ∷ xs) ys j = ground (arith, contains-append xs ys j)

set_get :
    (entries : List ℕ) (i v j : ℕ)
    → i < length entries
    → get_or (set entries i v) j 0 ≡ (if j == i then v else get_or entries j 0)
set_get entries i v j h = elim (Bool-cases (j == i)) [
  | inl e ↦ rw (e, (==_iff j i).0 e) (get_or-set_self entries i v 0 h)
  | inr e ↦ rw e (get_or-set_ne entries i j v 0 (ground arith))
]

clear_lem :
    (entries xs : List ℕ)
    → All (λ (i : ℕ). i < length entries) xs
    → (entries' : List ℕ) × (clear_entries entries xs ≡ ok entries')
      × (length entries' ≡ length entries)
      × ((j : ℕ) → get_or entries' j 0 ≡ (if contains xs j then 0 else get_or entries j 0))
unfolding clear_entries
clear_lem entries [] h = (entries, refl, refl, λ j. refl)
clear_lem entries (x ∷ xs) h =
    let inside : ltb x (length entries) ≡ true = ground (arith, h.0) in
    let same = length-set entries x 0 in
    let r = clear_lem (set entries x 0) xs (rw same h.1) in
    (r.0, rw inside r.1, r.2 ∙ same, λ j. ground (arith, r.3 j, set_get entries x 0 j h.0))

chain_bounds :
    (entries : List ℕ) (c : ℕ) (cs : List ℕ)
    → IsChain entries c cs
    → All (λ (i : ℕ). i < length entries) cs
chain_bounds entries c [] v = tt
chain_bounds entries c (x ∷ xs) v =
    (omega (arith, v.0, v.3), chain_bounds entries (next_of entries c) xs v.4)

All-suffix :
    (n : ℕ) (xs ys : List ℕ) → All (λ (i : ℕ). i < n) (xs ++ ys) → All (λ (i : ℕ). i < n) ys
All-suffix n [] ys h = h
All-suffix n (x ∷ xs) ys h = All-suffix n xs ys h.1

AreDistinct-suffix : (xs ys : List ℕ) → AreDistinct (xs ++ ys) → AreDistinct ys
AreDistinct-suffix [] ys h = h
AreDistinct-suffix (x ∷ xs) ys h = AreDistinct-suffix xs ys h.1

-- The chain up to `p` when only entries of `p` and what follows it have changed.
IsChain-prefix :
    (entries entries' : List ℕ) (c : ℕ) (cs : List ℕ) (p : ℕ) (rest : List ℕ)
    → IsChain entries c (cs ++ (p ∷ rest))
    → AreDistinct (cs ++ (p ∷ rest))
    → length entries' ≡ length entries
    → get_or entries' p 0 ≡ end_of_chain
    → ((j : ℕ) → contains (p ∷ rest) j ≡ false → get_or entries' j 0 ≡ get_or entries j 0)
    → IsChain entries' c (cs ++ (p ∷ []))
IsChain-prefix entries entries' c [] p rest v d l e o =
    (v.0, v.1, v.2, omega (arith, v.3, l), rw (← v.0, e) (omega arith))
IsChain-prefix entries entries' c (x ∷ xs) p rest v d l e o =
    let out : contains (p ∷ rest) x ≡ false =
      ground (arith, d.0, contains-append xs (p ∷ rest) x) in
    let q : next_of entries' c ≡ next_of entries c =
      ap (λ (t : ℕ). bit_and t fat_entry_mask) (rw v.0 at (o x out)) in
    (
      v.0,
      v.1,
      v.2,
      omega (arith, v.3, l),
      rw q (IsChain-prefix entries entries' (next_of entries c) xs p rest v.4 d.1 l e o),
    )

-- `free_clusters` of all that follows cluster `p` in a chain without repetition, whose entry at `p`
-- is exactly the next cluster, succeeds unless the free count would leave 32 bits. The chain then ends
-- at `p`, the clusters after it are free, and every other entry is as before.
pub free_clusters_lem :
    (f : FileAllocTable) (first : ℕ) (cs : List ℕ) (p d : ℕ) (ds : List ℕ)
    → IsChain f.fat_entries first (cs ++ (p ∷ d ∷ ds))
    → AreDistinct (cs ++ (p ∷ d ∷ ds))
    → get_or f.fat_entries p 0 ≡ d
    → f.alloc_meta.free_count + length (d ∷ ds) < 2 ^ 32
    → (f' : FileAllocTable) × (free_clusters f (d ∷ ds) (some p) ≡ ok f')
      × IsChain f'.fat_entries first (cs ++ (p ∷ []))
      × ((j : ℕ) → contains (d ∷ ds) j ≡ true → is_free f'.fat_entries j ≡ true)
      × ((j : ℕ)
          → contains (p ∷ d ∷ ds) j ≡ false
          → get_or f'.fat_entries j 0 ≡ get_or f.fat_entries j 0)
unfolding free_clusters
free_clusters_lem f first cs p d ds v n e b =
    let all =
      All-suffix (length f.fat_entries) cs (p ∷ d ∷ ds)
        (chain_bounds f.fat_entries first (cs ++ (p ∷ d ∷ ds)) v) in
    let own = AreDistinct-suffix cs (p ∷ d ∷ ds) n in
    let inside : ltb p (length f.fat_entries) ≡ true = ground (arith, all.0) in
    let same = length-set f.fat_entries p end_of_chain in
    let self : (d == d) ≡ true = ground arith in
    let small : ltb (f.alloc_meta.free_count + length (d ∷ ds)) (2 ^ 32) ≡ true = ground arith in
    let r =
      clear_lem (set f.fat_entries p end_of_chain) (d ∷ ds)
        (subst (λ (n : ℕ). All (λ (i : ℕ). i < n) (d ∷ ds)) (sym same) all.1) in
    let ended : get_or r.0 p 0 ≡ end_of_chain =
      ground (arith, r.3 p, own.0, get_or-set_self f.fat_entries p end_of_chain 0 all.0) in
    let others : (j : ℕ)
        → contains (p ∷ d ∷ ds) j ≡ false
        → get_or r.0 j 0 ≡ get_or f.fat_entries j 0 =
      λ j o. ground (arith, r.3 j, o, set_get f.fat_entries p end_of_chain j all.0) in
    (
      record f {
        alloc_meta = record {
          free_count = f.alloc_meta.free_count + length (d ∷ ds);
          next_free = f.alloc_meta.next_free;
        };
        fat_entries = r.0;
      },
      rw (inside, e, self, r.1, small) refl,
      IsChain-prefix f.fat_entries r.0 first cs p (d ∷ ds) v n (r.2 ∙ same) ended others,
      λ j c. rw (r.3 j, c) refl,
      others,
    )
