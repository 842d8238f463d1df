-- ===== src/BTreeMap.antt =====
-- `alloc::collections::BTreeMap` with numbers for keys, as the kernel uses it: an association list in
-- the order of its keys. A cursor at `lower_bound` is the pair of what stands before and after it.
pub mod Laws
use asynclear.Prelude.{
  ℕ, ◌+◌, ◌≤◌, Option, none, some, List, [], ◌∷◌, ltb, ◌==◌, if◌then◌else◌, Bool,
}

abbrev pub BTreeMap {ℓ} : Type ℓ → Type ℓ
BTreeMap V = List (ℕ × V)

module _ {ℓ} {V : Type ℓ} where
  unfoldable pub get : BTreeMap V → ℕ → Option V
  get [] k = none
  get ((j, v) ∷ m) k = if j == k then some v else get m k

  -- `insert` replaces the value of a key that is there.
  unfoldable pub insert : BTreeMap V → ℕ → V → BTreeMap V
  insert [] k v = (k, v) ∷ []
  insert ((j, w) ∷ m) k v =
      let rest = insert m k v in
      if ltb k j then (k, v) ∷ (j, w) ∷ m else if j == k then (k, v) ∷ m else (j, w) ∷ rest

  unfoldable pub remove : BTreeMap V → ℕ → BTreeMap V
  remove [] k = []
  remove ((j, v) ∷ m) k = let rest = remove m k in if j == k then m else (j, v) ∷ rest

  -- The entries with keys below `k`, and those from `k` on.
  unfoldable pub before : BTreeMap V → ℕ → BTreeMap V
  before [] k = []
  before ((j, v) ∷ m) k = let rest = before m k in if ltb j k then (j, v) ∷ rest else []

  unfoldable pub after : BTreeMap V → ℕ → BTreeMap V
  after [] k = []
  after ((j, v) ∷ m) k = let rest = after m k in if ltb j k then rest else (j, v) ∷ m

  unfoldable pub last? : BTreeMap V → Option V
  last? [] = none
  last? ((j, v) ∷ []) = some v
  last? ((j, v) ∷ e ∷ m) = last? (e ∷ m)

  -- The entry that a cursor's step back from the end returns to, if any.
  unfoldable pub last_entry : BTreeMap V → BTreeMap V
  last_entry [] = []
  last_entry (e ∷ []) = e ∷ []
  last_entry (e ∷ f ∷ m) = last_entry (f ∷ m)

  unfoldable pub keys : BTreeMap V → List ℕ
  keys [] = []
  keys ((j, v) ∷ m) = j ∷ keys m

  -- Keys rise along the list from `lo` on.
  abbrev pub Above : ℕ → BTreeMap V → Type 0
  Above lo [] = Unit
  Above lo ((j, v) ∷ m) = (lo ≤ j) × Above (j + 1) m

  abbrev pub IsSorted : BTreeMap V → Type 0
  IsSorted m = Above 0 m
