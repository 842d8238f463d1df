-- ===== src/Fat32/Fat/Alloc.antt =====
-- What `alloc_cluster` does to the table.
use asynclear.Prelude.{
  sym, ℕ, ◌+◌, ◌<◌, ◌≤◌, ◌≡◌, ◌≢◌, ◌^◌, refl, Option, none, some, List, ltb, ◌==◌, length, get_or,
  set, if◌then◌else◌, KResult, ok, err, panic, ◌>>=◌, arith, inl, inr, lt_cases, Bool-cases, true,
  false, length-set, get_or-set_self, get_or-set_ne, ◌∙◌, Bool,
}
use asynclear.Fat32.Fat.{
  FileAllocTable, end_of_chain, find_free_cluster, or_else, take_cluster, start_cluster,
  alloc_cluster,
}
use asynclear.Fat32.Fat.Search.{is_free, FindOutcome, find_lem}

-- One entry for each data cluster, and for the two reserved ones.
abbrev pub IsValid : FileAllocTable → Type 0
IsValid f =
    (length f.fat_entries ≡ f.data_clusters_count + 2) × (f.data_clusters_count + 2 ≤ 0x0fff_fff8)

-- The previous cluster, if there is one, is in the table and in use.
abbrev pub IsPrev : List ℕ → Option ℕ → Type 0
IsPrev entries none = Unit
IsPrev entries (some p) = (p < length entries) × (is_free entries p ≡ false)

-- Where cluster `c` now stands behind the previous one.
abbrev pub IsLinked : List ℕ → Option ℕ → ℕ → Type 0
IsLinked entries none c = Unit
IsLinked entries (some p) c = get_or entries p 0 ≡ c

abbrev pub is_prev : Option ℕ → ℕ → Bool
is_prev none j = false
is_prev (some p) j = p == j

-- What a successful `alloc_cluster` does.
pub record Allocates (f : FileAllocTable) (prev : Option ℕ) (c : ℕ) (f' : FileAllocTable)
    : Type 0 where
  pub valid : IsValid f'
  pub same : length f'.fat_entries ≡ length f.fat_entries
  pub low : 2 ≤ c
  pub high : c < f.data_clusters_count + 2
  pub was_free : is_free f.fat_entries c ≡ true
  pub ends : get_or f'.fat_entries c 0 ≡ end_of_chain
  pub linked : IsLinked f'.fat_entries prev c
  pub others :
      (j : ℕ)
      → j ≢ c
      → is_prev prev j ≡ false
      → get_or f'.fat_entries j 0 ≡ get_or f.fat_entries j 0

abbrev pub AllocOutcome : FileAllocTable → Option ℕ → KResult (Option ℕ × FileAllocTable) → Type 0
AllocOutcome f prev (ok (none, f')) =
    (f' ≡ f) × ((c : ℕ) → 2 ≤ c → c < f.data_clusters_count + 2 → is_free f.fat_entries c ≡ false)
AllocOutcome f prev (ok (some c, f')) = Allocates f prev c f'
AllocOutcome f prev (err e) = ⊥
AllocOutcome f prev panic = ⊥

take_outcome :
    (f : FileAllocTable) (prev : Option ℕ) (c : ℕ)
    → IsValid f
    → IsPrev f.fat_entries prev
    → 2 ≤ c
    → c < f.data_clusters_count + 2
    → is_free f.fat_entries c ≡ true
    → AllocOutcome f prev (take_cluster f prev (some c))
take_outcome f none c v w l h u =
    let small : ltb (c + 1) (2 ^ 32) ≡ true = ground (arith, v.1) in
    let inside : ltb c (length f.fat_entries) ≡ true = ground (arith, v.0) in
    rw (small, inside)
      (record {
        valid = (length-set f.fat_entries c end_of_chain ∙ v.0, v.1);
        same = length-set f.fat_entries c end_of_chain;
        low = l;
        high = h;
        was_free = u;
        ends = get_or-set_self f.fat_entries c end_of_chain 0 (omega (arith, v.0));
        linked = tt;
        others = λ j n p. get_or-set_ne f.fat_entries c j end_of_chain 0 (λ e. n (sym e));
      })
take_outcome f (some p) c v w l h u =
    let small : ltb (c + 1) (2 ^ 32) ≡ true = ground (arith, v.1) in
    let behind : ltb p (length f.fat_entries) ≡ true = ground (arith, w.0) in
    let same = length-set f.fat_entries p c in
    let inside : ltb c (length (set f.fat_entries p c)) ≡ true = ground (arith, same, v.0) in
    let apart : c ≢ p = λ e. ground (arith, u, w.1, e) in
    rw (small, behind, inside)
      (record {
        valid = (length-set (set f.fat_entries p c) c end_of_chain ∙ same ∙ v.0, v.1);
        same = length-set (set f.fat_entries p c) c end_of_chain ∙ same;
        low = l;
        high = h;
        was_free = u;
        ends = get_or-set_self (set f.fat_entries p c) c end_of_chain 0 (omega (arith, v.0, same));
        linked =
            get_or-set_ne (set f.fat_entries p c) c p end_of_chain 0 apart
            ∙ get_or-set_self f.fat_entries p c 0 w.0;
        others = λ j n q.
            get_or-set_ne (set f.fat_entries p c) c j end_of_chain 0 (λ e. n (sym e))
            ∙ get_or-set_ne f.fat_entries p j c 0 (ground arith);
      })

-- The second search covers what the first has left out.
wrapped_outcome :
    (f : FileAllocTable) (prev : Option ℕ) (start : ℕ) (r : Option ℕ)
    → IsValid f
    → IsPrev f.fat_entries prev
    → start ≤ f.data_clusters_count + 2
    → FindOutcome f.fat_entries start (f.data_clusters_count + 2) none
    → FindOutcome f.fat_entries 2 start r
    → AllocOutcome f prev (take_cluster f prev r)
wrapped_outcome f prev start none v w b g q =
    (refl, λ c x y. elim (lt_cases c start) [ inl z ↦ q c x z | inr z ↦ g c z y ])
wrapped_outcome f prev start (some c) v w b g q =
    take_outcome f prev c v w q.0 (omega (arith, q.1)) q.2

second_outcome :
    (f : FileAllocTable) (prev : Option ℕ) (start : ℕ) (r : Option ℕ)
    → IsValid f
    → IsPrev f.fat_entries prev
    → 2 ≤ start
    → start ≤ f.data_clusters_count + 2
    → FindOutcome f.fat_entries start (f.data_clusters_count + 2) r
    → AllocOutcome f prev (
        or_else r (if ltb 2 start then find_free_cluster f.fat_entries 2 start else ok none)
        >>= λ found. take_cluster f prev found)
second_outcome f prev start (some c) v w l b g =
    take_outcome f prev c v w (omega (arith, g.0)) g.1 g.2
second_outcome f prev start none v w l b g = elim (Bool-cases (ltb 2 start)) [
  | inr h ↦ rw h (refl, λ c x y. g c (ground arith) y)
  | inl h ↦
      let s = find_lem f.fat_entries 2 start l (omega (arith, v.0)) in
      rw (h, s.1) (wrapped_outcome f prev start s.0 v w b g s.2)
]

start_bounds :
    (f : FileAllocTable)
    → let start = start_cluster f (f.data_clusters_count + 2) in
      (2 ≤ start) × (start ≤ f.data_clusters_count + 2)
start_bounds f = ground arith

-- `alloc_cluster` on a table of full length, behind a cluster in use or behind none. It never panics.
-- It returns either a free data cluster, which then ends its chain and follows the previous cluster,
-- while every other entry is as before; or none, and then nothing changes and no data cluster is
-- free.
pub alloc_cluster_lem :
    (f : FileAllocTable) (prev : Option ℕ)
    → IsValid f
    → IsPrev f.fat_entries prev
    → AllocOutcome f prev (alloc_cluster f prev)
unfolding alloc_cluster
alloc_cluster_lem f prev v w =
    let total : ltb (f.data_clusters_count + 2) (2 ^ 32) ≡ true = ground (arith, v.1) in
    let b = start_bounds f in
    let s =
      find_lem f.fat_entries (start_cluster f (f.data_clusters_count + 2))
        (f.data_clusters_count + 2) b.1 (omega (arith, v.0)) in
    rw (total, s.1) (second_outcome f prev _ s.0 v w b.0 b.1 s.2)
