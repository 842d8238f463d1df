-- ===== src/Memory/InitStack/Texts.antt =====
-- The strings of a new user stack.
use asynclear.Prelude.{
  ℕ, suc, ◌+◌, ◌%◌, ◌≤◌, ◌≡◌, refl, sym, ◌∙◌, ap, List, [], ◌∷◌, ◌++◌, length, length-append,
  KResult, ok, arith,
}
use asynclear.Memory.Address.{VirtPageNum, PhysPageNum, VirtAddr}
use asynclear.Memory.InitStack.{
  StackInitCtx, le_bytes, push_usize, push_str, push_strs, align, push_random, push_texts,
}
use asynclear.Memory.InitStack.View.{Holds, Holds-cong}
use asynclear.Memory.InitStack.Push.{
  Frames, view, IsGood, Pushed, Pushed-nil, Pushed-append, HasRoom, push_byte_lem, push_usize_lem,
  push_bytes_lem, words, align-Pushed,
}

-- The strings with a null byte behind each, the last string first, and their size.
abbrev pub strs_bytes : List (List ℕ) → List ℕ
strs_bytes [] = []
strs_bytes (s ∷ ss) = strs_bytes ss ++ (s ++ 0 ∷ [])

abbrev pub strs_size : List (List ℕ) → ℕ
strs_size [] = 0
strs_size (s ∷ ss) = strs_size ss + (length s + 1)

pub length-strs_bytes : (ss : List (List ℕ)) → length (strs_bytes ss) ≡ strs_size ss
length-strs_bytes [] = refl
length-strs_bytes (s ∷ ss) = omega (
  arith,
  length-append (strs_bytes ss) (s ++ 0 ∷ []),
  length-append s (0 ∷ []),
  length-strs_bytes ss,
)

-- Each pointer leads, at `low` or above, to its string with a null byte behind.
abbrev pub Points : (VirtAddr → ℕ) → VirtAddr → List VirtAddr → List (List ℕ) → Type 0
Points v low [] [] = Unit
Points v low (p ∷ ps) (s ∷ ss) = (low ≤ p) × Holds v p (s ++ 0 ∷ []) × Points v low ps ss
Points v low [] (s ∷ ss) = ⊥
Points v low (p ∷ ps) [] = ⊥

pub Points-mono :
    (v v' : VirtAddr → ℕ) (low low' : VirtAddr) (ps : List VirtAddr) (ss : List (List ℕ))
    → low' ≤ low
    → ((a : VirtAddr) → low ≤ a → v' a ≡ v a)
    → Points v low ps ss
    → Points v' low' ps ss
Points-mono v v' low low' [] [] l e h = tt
Points-mono v v' low low' [] (s ∷ ss) l e h = h
Points-mono v v' low low' (p ∷ ps) [] l e h = h
Points-mono v v' low low' (p ∷ ps) (s ∷ ss) l e h = (
  omega (arith, h.0),
  Holds-cong v v' p (s ++ 0 ∷ []) (λ a k. e a (omega (arith, h.0))) h.1,
  Points-mono v v' low low' ps ss l e h.2,
)

pub length-Points :
    (v : VirtAddr → ℕ) (low : VirtAddr) (ps : List VirtAddr) (ss : List (List ℕ))
    → Points v low ps ss
    → length ps ≡ length ss
length-Points v low [] [] h = refl
length-Points v low [] (s ∷ ss) h = absurd h
length-Points v low (p ∷ ps) [] h = absurd h
length-Points v low (p ∷ ps) (s ∷ ss) h = ap suc (length-Points v low ps ss h.2)

module _ {S : Type 0} (ensure_allocated : VirtPageNum → S → KResult (PhysPageNum × S))
    (low high : VirtPageNum) (f : Frames ensure_allocated low high) where
  push_str_lem :
      (s : List ℕ) (ctx : StackInitCtx S)
      → IsGood ensure_allocated low high f ctx
      → HasRoom ensure_allocated low high f ctx (length s + 1)
      → (ctx' : StackInitCtx S) × (push_str ensure_allocated s ctx ≡ ok (ctx'.user_sp, ctx'))
        × Pushed ensure_allocated low high f ctx (s ++ 0 ∷ []) ctx'
  unfolding push_str
  push_str_lem s ctx g l =
      let (ctx1, run1, p) = push_byte_lem ensure_allocated low high f 0 ctx g (omega arith) in
      let (ctx2, run2, q) =
        push_bytes_lem ensure_allocated low high f s ctx1 p.good (omega (arith, p.down)) in
      (
        ctx2,
        rw (run1, run2) refl,
        Pushed-append ensure_allocated low high f ctx ctx1 ctx2 (0 ∷ []) s p q,
      )

  push_strs_lem :
      (ss : List (List ℕ)) (ctx : StackInitCtx S)
      → IsGood ensure_allocated low high f ctx
      → HasRoom ensure_allocated low high f ctx (strs_size ss)
      → (ps : List VirtAddr) × (ctx' : StackInitCtx S) × (push_strs ensure_allocated ss ctx
          ≡ ok (ps, ctx'))
        × Pushed ensure_allocated low high f ctx (strs_bytes ss) ctx'
        × Points (view ensure_allocated low high f ctx') ctx'.user_sp ps ss
  unfolding push_strs
  push_strs_lem [] ctx g l = ([], ctx, refl, Pushed-nil ensure_allocated low high f ctx g, tt)
  push_strs_lem (s ∷ ss) ctx g l =
      let (ctx1, run1, p) = push_str_lem s ctx g (omega arith) in
      let size = length-append s (0 ∷ []) in
      let (ps, ctx2, run2, q, r) = push_strs_lem ss ctx1 p.good (omega (arith, p.down, size)) in
      (
        ctx1.user_sp ∷ ps,
        ctx2,
        rw (run1, run2) refl,
        Pushed-append ensure_allocated low high f ctx ctx1 ctx2 (s ++ 0 ∷ []) (strs_bytes ss) p q,
        (
          omega (arith, q.down),
          Holds-cong (view ensure_allocated low high f ctx1) (view ensure_allocated low high f ctx2)
              ctx1.user_sp (s ++ 0 ∷ []) q.keeps p.holds,
          r,
        ),
      )

  -- A push of so many bytes that keeps the stack pointer at a multiple of 8.
  abbrev pub Aligned : KResult (StackInitCtx S) → StackInitCtx S → List ℕ → ℕ → Type 0
  Aligned r ctx bs n =
      (ctx' : StackInitCtx S) × (r ≡ ok ctx')
      × Pushed ensure_allocated low high f ctx bs ctx'
      × (ctx'.user_sp + n ≡ ctx.user_sp)
      × (ctx'.user_sp % 8 ≡ 0)

  pub usize_lem :
      (n : ℕ) (ctx : StackInitCtx S)
      → IsGood ensure_allocated low high f ctx
      → HasRoom ensure_allocated low high f ctx 8
      → ctx.user_sp % 8 ≡ 0
      → Aligned (push_usize ensure_allocated n ctx) ctx (le_bytes 8 n) 8
  usize_lem n ctx g l m =
      let (ctx', run, p) = push_usize_lem ensure_allocated low high f n ctx g l m in
      let d : ctx'.user_sp + 8 ≡ ctx.user_sp = p.down in (ctx', run, p, d, omega (arith, d))

  pub random_lem :
      (time time' : ℕ) (ctx : StackInitCtx S)
      → IsGood ensure_allocated low high f ctx
      → HasRoom ensure_allocated low high f ctx 24
      → ctx.user_sp % 8 ≡ 0
      → Aligned (push_random ensure_allocated time time' ctx) ctx (words (time' ∷ time ∷ 0 ∷ [])) 24
  unfolding push_random
  random_lem time time' ctx g l m =
      let (c1, run1, p1, d1, m1) = usize_lem 0 ctx g (omega arith) m in
      let (c2, run2, p2, d2, m2) = usize_lem time c1 p1.good (omega (arith, d1)) m1 in
      let (c3, run3, p3, d3, m3) = usize_lem time' c2 p2.good (omega (arith, d1, d2)) m2 in
      (
        c3,
        rw (run1, run2) run3,
        Pushed-append ensure_allocated low high f ctx c2 c3 _ _
            (Pushed-append ensure_allocated low high f ctx c1 c2 _ _ p1 p2) p3,
        omega (arith, d1, d2, d3),
        m3,
      )

  -- Where the strings are, seen from the end.
  pub record Texts (ctx : StackInitCtx S) (args envs : List (List ℕ)) (argv envp : List VirtAddr)
      (ctx' : StackInitCtx S) : Type 0 where
    pub good : IsGood ensure_allocated low high f ctx'
    pub aligned : ctx'.user_sp % 8 ≡ 0
    pub size : ctx.user_sp ≤ ctx'.user_sp + (strs_size envs + strs_size args + 15)
    pub below : ctx'.user_sp ≤ ctx.user_sp
    pub keeps :
        (a : VirtAddr)
        → ctx.user_sp ≤ a
        → view ensure_allocated low high f ctx' a ≡ view ensure_allocated low high f ctx a
    pub arg_strs : Points (view ensure_allocated low high f ctx') ctx'.user_sp argv args
    pub env_strs : Points (view ensure_allocated low high f ctx') ctx'.user_sp envp envs

  args_lem :
      (ctx c1 c2 c3 : StackInitCtx S) (args envs : List (List ℕ)) (argv envp : List VirtAddr)
      → Pushed ensure_allocated low high f ctx (strs_bytes envs) c1
      → Points (view ensure_allocated low high f c1) c1.user_sp envp envs
      → Pushed ensure_allocated low high f c1 (le_bytes 8 0) c2
      → Pushed ensure_allocated low high f c2 (strs_bytes args) c3
      → Points (view ensure_allocated low high f c3) c3.user_sp argv args
      → Texts ctx args envs argv envp (align ensure_allocated c3)
  args_lem ctx c1 c2 c3 args envs argv envp p1 q1 p2 p3 q3 =
      let p4 = align-Pushed ensure_allocated low high f c3 p3.good in
      let later =
        Pushed-append ensure_allocated low high f c1 c3 (align ensure_allocated c3) _ _
          (Pushed-append ensure_allocated low high f c1 c2 c3 _ _ p2 p3) p4 in
      let all =
        Pushed-append ensure_allocated low high f ctx c1 (align ensure_allocated c3) _ _ p1 later in
      let d1 : c1.user_sp + strs_size envs ≡ ctx.user_sp =
        ap (λ (t : ℕ). c1.user_sp + t) (sym (length-strs_bytes envs)) ∙ p1.down in
      let d2 : c2.user_sp + 8 ≡ c1.user_sp = p2.down in
      let d3 : c3.user_sp + strs_size args ≡ c2.user_sp =
        ap (λ (t : ℕ). c3.user_sp + t) (sym (length-strs_bytes args)) ∙ p3.down in
      record {
        good = p4.good;
        aligned = omega arith;
        size = omega (arith, d1, d2, d3);
        below = omega (arith, d1, d2, d3);
        keeps = all.keeps;
        arg_strs = Points-mono _ _ c3.user_sp _ argv args (omega arith) p4.keeps q3;
        env_strs = Points-mono _ _ c1.user_sp _ envp envs (omega (arith, d2, d3)) later.keeps q1;
      }

  pub texts_lem :
      (args envs : List (List ℕ)) (ctx : StackInitCtx S)
      → IsGood ensure_allocated low high f ctx
      → ctx.user_sp % 8 ≡ 0
      → strs_size envs % 8 ≡ 0
      → HasRoom ensure_allocated low high f ctx (strs_size envs + strs_size args + 8)
      → (argv : List VirtAddr) × (envp : List VirtAddr) × (ctx' : StackInitCtx S) × (push_texts
            ensure_allocated envs args ctx
          ≡ ok ((envp, argv), ctx'))
        × Texts ctx args envs argv envp ctx'
  unfolding push_texts
  texts_lem args envs ctx g m e l =
      let (envp, c1, run1, p1, q1) = push_strs_lem envs ctx g (omega arith) in
      let d1 : c1.user_sp + strs_size envs ≡ ctx.user_sp =
        ap (λ (t : ℕ). c1.user_sp + t) (sym (length-strs_bytes envs)) ∙ p1.down in
      let (c2, run2, p2, d2, m2) = usize_lem 0 c1 p1.good (omega (arith, d1)) (omega (arith, d1)) in
      let (argv, c3, run3, p3, q3) = push_strs_lem args c2 p2.good (omega (arith, d1, d2)) in
      (
        argv,
        envp,
        align ensure_allocated c3,
        rw (run1, run2, run3) refl,
        args_lem ctx c1 c2 c3 args envs argv envp p1 q1 p2 p3 q3,
      )
