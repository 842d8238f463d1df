-- ===== src/Fat32/Fat/Search.antt =====
-- What `find_free_cluster` finds.
use Prim.Native.Nat.{bit_and}
use asynclear.Prelude.{
  ℕ, zero, suc, ◌+◌, ◌-◌, ◌<◌, ◌≤◌, ◌≡◌, refl, Option, none, some, List, [], ◌∷◌, leb, ◌==◌, ◌&&◌,
  length, get_or, take, drop, ok, arith, inl, inr, Bool-cases, true, false, get_or-take,
  get_or-drop, length-take, length-drop, ◌∙◌, Bool,
}
use asynclear.Fat32.Fat.{fat_entry_mask, first_free, find_free_cluster}

abbrev pub is_free : List ℕ → ℕ → Bool
is_free entries c = bit_and (get_or entries c 0) fat_entry_mask == 0

-- What a search of the entries `xs`, which start at `start`, finds.
abbrev FreeOutcome : ℕ → List ℕ → Option ℕ → Type 0
FreeOutcome start xs none = (i : ℕ) → i < length xs → is_free xs i ≡ false
FreeOutcome start xs (some c) = (i : ℕ) × (c ≡ start + i) × (i < length xs) × (is_free xs i ≡ true)

none_free :
    (x : ℕ) (xs : List ℕ)
    → (bit_and x fat_entry_mask == 0) ≡ false
    → ((i : ℕ) → i < length xs → is_free xs i ≡ false)
    → (i : ℕ) → i < length (x ∷ xs)
    → is_free (x ∷ xs) i ≡ false
none_free x xs h g zero b = h
none_free x xs h g (suc i) b = g i (omega arith)

first_free_step :
    (start x : ℕ) (xs : List ℕ) (r : Option ℕ)
    → (bit_and x fat_entry_mask == 0) ≡ false
    → FreeOutcome (start + 1) xs r
    → FreeOutcome start (x ∷ xs) r
first_free_step start x xs none h g = none_free x xs h g
first_free_step start x xs (some c) h g = (suc g.0, omega (arith, g.1), omega (arith, g.2), g.3)

first_free_lem : (start : ℕ) (xs : List ℕ) → FreeOutcome start xs (first_free start xs)
unfolding first_free
first_free_lem start [] = λ i h. absurd (omega arith)
first_free_lem start (x ∷ xs) = elim (Bool-cases (bit_and x fat_entry_mask == 0)) [
  | inl h ↦ rw h (0, omega arith, omega arith, h)
  | inr h ↦
      rw h
        (first_free_step start x xs (first_free (start + 1) xs) h (first_free_lem (start + 1) xs))
]

-- What a search of the clusters from `start` up to `end` finds.
abbrev pub FindOutcome : List ℕ → ℕ → ℕ → Option ℕ → Type 0
FindOutcome entries start end none = (c : ℕ) → start ≤ c → c < end → is_free entries c ≡ false
FindOutcome entries start end (some c) = (start ≤ c) × (c < end) × (is_free entries c ≡ true)

window_get :
    (entries : List ℕ) (start end i : ℕ)
    → i < end - start
    → get_or (take (end - start) (drop start entries)) i 0 ≡ get_or entries (start + i) 0
window_get entries start end i h =
    get_or-take (end - start) (drop start entries) i 0 h ∙ get_or-drop start entries i 0

window_length :
    (entries : List ℕ) (start end : ℕ)
    → end ≤ length entries
    → length (take (end - start) (drop start entries)) ≡ end - start
window_length entries start end h =
    omega (arith, length-take (end - start) (drop start entries), length-drop start entries)

window_outcome :
    (entries : List ℕ) (start end : ℕ) (r : Option ℕ)
    → start ≤ end
    → end ≤ length entries
    → FreeOutcome start (take (end - start) (drop start entries)) r
    → FindOutcome entries start end r
window_outcome entries start end none h b g = λ c l u.
    let e : start + (c - start) ≡ c = omega arith in
    rw (window_get entries start end (c - start) (omega arith), e) at
      (g (c - start) (omega (arith, window_length entries start end b)))
window_outcome entries start end (some c) h b g =
    let i : g.0 < end - start = omega (arith, g.2, window_length entries start end b) in
    (omega (arith, g.1), omega (arith, g.1), rw (g.1, ← window_get entries start end g.0 i) g.3)

pub find_lem :
    (entries : List ℕ) (start end : ℕ)
    → start ≤ end
    → end ≤ length entries
    → (r : Option ℕ) × (find_free_cluster entries start end ≡ ok r)
      × FindOutcome entries start end r
unfolding find_free_cluster
find_lem entries start end h b =
    let e : (leb start end && leb end (length entries)) ≡ true = ground arith in
    (
      _,
      rw e refl,
      window_outcome entries start end _ h b
          (first_free_lem start (take (end - start) (drop start entries))),
    )
