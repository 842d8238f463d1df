-- ===== src/Memory/InitStack/Supply.antt =====
-- Frames for a stack, from what asking for its pages in turn gives.
use asynclear.Prelude.{
  ℕ, zero, suc, ◌+◌, ◌-◌, ◌≤◌, ◌<◌, ◌≡◌, ◌≢◌, refl, sym, ◌∙◌, ap, List, [], ◌∷◌, length, drop,
  get_or, contains, false, true, Bool, Bool-cases, inl, inr, KResult, ok, arith, subst, ◌&&◌, leb,
  ltb, if◌then◌else◌,
}
use asynclear.Memory.Address.{VirtPageNum, PhysPageNum}
use asynclear.Memory.InitStack.Push.{Frames}

abbrev pub AreDistinct : List ℕ → Type 0
AreDistinct [] = Unit
AreDistinct (x ∷ xs) = (contains xs x ≡ false) × AreDistinct xs

-- A number above all of a list.
abbrev pub above : List ℕ → ℕ
above [] = 0
above (x ∷ xs) = x + 1 + above xs

get_or-above : (xs : List ℕ) (i : ℕ) → i < length xs → get_or xs i 0 < above xs
get_or-above [] i h = absurd (omega arith)
get_or-above (x ∷ xs) zero h = omega arith
get_or-above (x ∷ xs) (suc i) h = omega (arith, get_or-above xs i (omega (arith, h)))

get_or-contains : (xs : List ℕ) (i : ℕ) → i < length xs → contains xs (get_or xs i 0) ≡ true
get_or-contains [] i h = absurd (omega arith)
get_or-contains (x ∷ xs) zero h = ground arith
get_or-contains (x ∷ xs) (suc i) h = ground (arith, get_or-contains xs i (omega (arith, h)))

get_or-AreDistinct :
    (xs : List ℕ) (i j : ℕ)
    → AreDistinct xs
    → i < length xs
    → j < length xs
    → get_or xs i 0 ≡ get_or xs j 0
    → i ≡ j
get_or-AreDistinct [] i j d h g e = absurd (omega arith)
get_or-AreDistinct (x ∷ xs) zero zero d h g e = refl
get_or-AreDistinct (x ∷ xs) zero (suc j) d h g e =
    absurd (ground (arith, d.0, e, get_or-contains xs j (omega (arith, g))))
get_or-AreDistinct (x ∷ xs) (suc i) zero d h g e =
    absurd (ground (arith, d.0, e, get_or-contains xs i (omega (arith, h))))
get_or-AreDistinct (x ∷ xs) (suc i) (suc j) d h g e =
    ap suc (get_or-AreDistinct xs i j d.1 (omega (arith, h)) (omega (arith, g)) e)

drop_step : (xs : List ℕ) (i : ℕ) → i < length xs → drop i xs ≡ get_or xs i 0 ∷ drop (i + 1) xs
drop_step [] i h = absurd (omega arith)
drop_step (x ∷ xs) zero h = refl
drop_step (x ∷ xs) (suc i) h =
    let e : suc i + 1 ≡ suc (i + 1) = omega arith in
    drop_step xs i (omega (arith, h)) ∙ ap (λ (n : ℕ). get_or xs i 0 ∷ drop n (x ∷ xs)) (sym e)

module _ {S : Type 0} (ensure_allocated : VirtPageNum → S → KResult (PhysPageNum × S)) where
  -- Asking for the pages below `vpn` in turn, downwards, gives these frames.
  abbrev pub Gives : VirtPageNum → List PhysPageNum → S → Type 0
  Gives vpn [] s = Unit
  Gives vpn (frame ∷ frames) s =
      (s' : S) × (ensure_allocated (vpn - 1) s ≡ ok (frame, s')) × Gives (vpn - 1) frames s'

  module _ (high : VirtPageNum) (frames : List PhysPageNum) (enough : length frames ≤ high)
      (d : AreDistinct frames) where
    pub is_given : VirtPageNum → Bool
    is_given vpn = leb (high - length frames) vpn && ltb vpn high

    -- The frames that are given, and for other pages numbers that are no frames given.
    abbrev pub frame_at : VirtPageNum → PhysPageNum
    frame_at vpn = if is_given vpn then get_or frames (high - 1 - vpn) 0 else above frames + vpn

    frame_in : (i : ℕ) → is_given i ≡ true → frame_at i ≡ get_or frames (high - 1 - i) 0
    frame_in i h = rw h refl

    frame_out : (i : ℕ) → is_given i ≡ false → frame_at i ≡ above frames + i
    frame_out i h = rw h refl

    in_range : (i : ℕ) → is_given i ≡ true → (high - 1 - i < length frames) × (i < high)
    unfolding is_given
    in_range i h = (ground (arith, h, enough), ground (arith, h))

    apart : (i j : ℕ) → is_given i ≡ true → is_given j ≡ false → frame_at i ≢ frame_at j
    apart i j h g e = omega (
      arith,
      get_or-above frames (high - 1 - i) (in_range i h).0,
      sym (frame_in i h) ∙ e ∙ frame_out j g,
    )

    pub frame_at-injective : (i j : VirtPageNum) → frame_at i ≡ frame_at j → i ≡ j
    frame_at-injective i j e = elim (Bool-cases (is_given i)) [
      | inl h ↦ elim (Bool-cases (is_given j)) [
        | inl g ↦
            let same =
              get_or-AreDistinct frames (high - 1 - i) (high - 1 - j) d (in_range i h).0
                (in_range j g).0 (sym (frame_in i h) ∙ e ∙ frame_in j g) in
            omega (arith, same, (in_range i h).1, (in_range j g).1)
        | inr g ↦ absurd (apart i j h g e)
      ]
      | inr h ↦ elim (Bool-cases (is_given j)) [
        | inl g ↦ absurd (apart j i g h (sym e))
        | inr g ↦ omega (arith, sym (frame_out i h) ∙ e ∙ frame_out j g)
      ]
    ]

    pub frame_ready :
        (vpn : VirtPageNum) (s : S)
        → high - length frames ≤ vpn
        → vpn < high
        → Gives (vpn + 1) (drop (high - (vpn + 1)) frames) s
        → (s' : S) × (ensure_allocated vpn s ≡ ok (frame_at vpn, s'))
          × Gives vpn (drop (high - vpn) frames) s'
    unfolding is_given
    frame_ready vpn s l h r =
        let given : is_given vpn ≡ true = ground (arith, l, h) in
        let at : high - (vpn + 1) ≡ high - 1 - vpn = omega arith in
        let next : high - 1 - vpn + 1 ≡ high - vpn = omega (arith, h) in
        let split : drop (high - (vpn + 1)) frames
            ≡ get_or frames (high - 1 - vpn) 0 ∷ drop (high - vpn) frames =
          ap (λ (n : ℕ). drop n frames) at
          ∙ drop_step frames (high - 1 - vpn) (in_range vpn given).0
          ∙ ap (λ (n : ℕ). get_or frames (high - 1 - vpn) 0 ∷ drop n frames) next in
        let below : vpn + 1 - 1 ≡ vpn = omega arith in
        let (s', run, rest) = subst (λ (fs : List ℕ). Gives (vpn + 1) fs s) split r in
        (
          s',
          ap (λ (n : ℕ). ensure_allocated n s) (sym below)
              ∙ run
              ∙ ap (λ (fr : ℕ). ok (fr, s')) (sym (frame_in vpn given)),
          subst (λ (n : ℕ). Gives n (drop (high - vpn) frames) s') below rest,
        )

    abbrev pub frames_given : Frames ensure_allocated (high - length frames) high
    frames_given = record {
      Ready = λ vpn s. Gives vpn (drop (high - vpn) frames) s;
      frame_of = frame_at;
      injective = frame_at-injective;
      ready = frame_ready;
    }
