-- ===== src/BTreeMap/Laws.antt =====
-- The map laws of the ordered association list.
use asynclear.Prelude.{
  ℕ, ◌+◌, ◌≤◌, ◌<◌, ◌≡◌, refl, none, some, [], ◌∷◌, ◌++◌, ◌==◌, if◌then◌else◌, arith,
}
use asynclear.BTreeMap.{BTreeMap, get, insert, remove, before, after, Above}

module _ {ℓ} {V : Type ℓ} where
  pub Above-mono : (a b : ℕ) (m : BTreeMap V) → a ≤ b → Above b m → Above a m
  Above-mono a b [] h s = tt
  Above-mono a b ((j, v) ∷ m) h s = (omega arith, s.1)

  pub insert-Above :
      (lo : ℕ) (m : BTreeMap V) (k : ℕ) (v : V) → lo ≤ k → Above lo m → Above lo (insert m k v)
  unfolding insert
  insert-Above lo [] k v h s = (h, tt)
  insert-Above lo ((j, w) ∷ m) k v h s = ground (arith, insert-Above (j + 1) m k v)

  pub remove-Above : (lo : ℕ) (m : BTreeMap V) (k : ℕ) → Above lo m → Above lo (remove m k)
  unfolding remove
  remove-Above lo [] k s = tt
  remove-Above lo ((j, w) ∷ m) k s =
      ground (arith, remove-Above (j + 1) m k, Above-mono lo (j + 1) m)

  pub get_below : (lo : ℕ) (m : BTreeMap V) (k : ℕ) → Above lo m → k < lo → get m k ≡ none
  unfolding get
  get_below lo [] k s h = refl
  get_below lo ((j, w) ∷ m) k s h = ground (arith, get_below (j + 1) m k)

  pub get-insert :
      (m : BTreeMap V) (k j : ℕ) (v : V)
      → get (insert m k v) j ≡ (if k == j then some v else get m j)
  unfolding get insert
  get-insert [] k j v = refl
  get-insert ((i, w) ∷ m) k j v = ground (arith, get-insert m k j v)

  pub get-remove :
      (lo : ℕ) (m : BTreeMap V) (k j : ℕ)
      → Above lo m
      → get (remove m k) j ≡ (if k == j then none else get m j)
  unfolding get remove
  get-remove lo [] k j s = ground arith
  get-remove lo ((i, w) ∷ m) k j s = ground (arith, get-remove (i + 1) m k j, get_below (i + 1) m i)

  pub before-append-after : (m : BTreeMap V) (k : ℕ) → before m k ++ after m k ≡ m
  unfolding before after
  before-append-after [] k = refl
  before-append-after ((j, v) ∷ m) k = ground (arith, before-append-after m k)

  pub after-Above : (lo : ℕ) (m : BTreeMap V) (k : ℕ) → Above lo m → Above k (after m k)
  unfolding after
  after-Above lo [] k s = tt
  after-Above lo ((j, v) ∷ m) k s = ground (arith, after-Above (j + 1) m k)

  pub get-after : (m : BTreeMap V) (k j : ℕ) → k ≤ j → get (after m k) j ≡ get m j
  unfolding get after
  get-after [] k j h = refl
  get-after ((i, v) ∷ m) k j h = ground (arith, get-after m k j)
