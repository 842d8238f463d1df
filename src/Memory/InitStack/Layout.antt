-- ===== src/Memory/InitStack/Layout.antt =====
-- The layout of a new user stack.
use asynclear.Prelude.{
  ℕ, ◌+◌, ◌*◌, ◌%◌, ◌≤◌, ◌≡◌, sym, ◌∙◌, ap, List, [], ◌∷◌, ◌++◌, length, KResult, ok, ◌>>=◌, arith,
  subst,
}
use mathlib.Core.List.{append_assoc}
use asynclear.Memory.Address.{VirtPageNum, PhysPageNum, VirtAddr}
use asynclear.Memory.InitStack.{
  StackInitCtx, le_bytes, push_usize, push_ptrs, push_auxv, push_random, push_texts, push_vectors,
  init_stack_impl, at_random,
}
use asynclear.Memory.InitStack.View.{Holds, Holds-cong}
use asynclear.Memory.InitStack.Push.{
  Frames, view, IsGood, Pushed, Pushed-append, HasRoom, push_ptrs_lem, push_auxv_lem, words,
  length-words, auxv_bytes, length-auxv_bytes,
}
use asynclear.Memory.InitStack.Texts.{
  strs_size, Points, Points-mono, length-Points, Aligned, usize_lem, random_lem, Texts, texts_lem,
}

-- The words from the stack pointer on, as the ABI orders them.
abbrev pub stack_words : List (List ℕ) → List ℕ → List ℕ → List (ℕ × ℕ) → ℕ → List ℕ
stack_words args argv envp auxv random_pos =
    le_bytes 8 (length args)
    ++ (words argv
        ++ (le_bytes 8 0
            ++ (words envp
                ++ (le_bytes 8 0
                    ++ (auxv_bytes auxv ++ words (random_pos ∷ at_random ∷ 0 ∷ 0 ∷ []))))))

-- The same without the number of arguments, as the pushes nest, and its size.
abbrev vectors_bytes : List ℕ → List ℕ → List (ℕ × ℕ) → ℕ → List ℕ
vectors_bytes argv envp auxv random_pos =
    (((((((words argv ++ le_bytes 8 0) ++ words envp) ++ le_bytes 8 0) ++ auxv_bytes auxv)
          ++ le_bytes 8 random_pos)
        ++ le_bytes 8 at_random)
      ++ le_bytes 8 0)
    ++ le_bytes 8 0

abbrev vectors_size : List ℕ → List ℕ → List (ℕ × ℕ) → ℕ
vectors_size argv envp auxv =
    (((((((length argv * 8 + 8) + length envp * 8) + 8) + length auxv * 16) + 8) + 8) + 8) + 8

vectors-eq :
    (args : List (List ℕ)) (argv envp : List ℕ) (auxv : List (ℕ × ℕ)) (random_pos : ℕ)
    → le_bytes 8 (length args) ++ vectors_bytes argv envp auxv random_pos
      ≡ stack_words args argv envp auxv random_pos
vectors-eq args argv envp auxv random_pos = simp append_assoc

-- The room that a stack needs.
abbrev pub stack_size : List (List ℕ) → List (List ℕ) → List (ℕ × ℕ) → ℕ
stack_size args envs auxv =
    strs_size envs + strs_size args + length auxv * 16 + length envs * 8 + length args * 8 + 95

room_left :
    (low sp sp1 sp2 : ℕ) (args envs : List (List ℕ)) (argv envp : List ℕ) (auxv : List (ℕ × ℕ))
    → low * 4096 + stack_size args envs auxv ≤ sp
    → sp1 + 24 ≡ sp
    → sp1 ≤ sp2 + (strs_size envs + strs_size args + 15)
    → length argv ≡ length args
    → length envp ≡ length envs
    → low * 4096 + (length auxv * 16 + length envp * 8 + length argv * 8 + 56) ≤ sp2
room_left low sp sp1 sp2 args envs argv envp auxv l d t a e = omega arith

less_room : (low sp n : ℕ) → low * 4096 + (n + 56) ≤ sp → low * 4096 + (n + 48) ≤ sp
less_room low sp n h = omega arith

last_room :
    (low sp sp' : ℕ) (argv envp : List ℕ) (auxv : List (ℕ × ℕ))
    → low * 4096 + (length auxv * 16 + length envp * 8 + length argv * 8 + 56) ≤ sp
    → sp' + vectors_size argv envp auxv ≡ sp
    → low * 4096 + 8 ≤ sp'
last_room low sp sp' argv envp auxv h d = omega arith

module _ {S : Type 0} (ensure_allocated : VirtPageNum → S → KResult (PhysPageNum × S))
    (low high : VirtPageNum) (f : Frames ensure_allocated low high) where
  Aligned-bind :
      (r : KResult (StackInitCtx S)) (k : StackInitCtx S → KResult (StackInitCtx S))
      (ctx : StackInitCtx S) (bs cs : List ℕ) (m n : ℕ)
      → Aligned ensure_allocated low high f r ctx bs m
      → ((c : StackInitCtx S)
          → IsGood ensure_allocated low high f c
          → c.user_sp + m ≡ ctx.user_sp
          → c.user_sp % 8 ≡ 0
          → Aligned ensure_allocated low high f (k c) c cs n)
      → Aligned ensure_allocated low high f (r >>= k) ctx (cs ++ bs) (n + m)
  Aligned-bind r k ctx bs cs m n (c1, run, p, d, e) next =
      let (c2, run', q, d', e') = next c1 p.good d e in
      (
        c2,
        rw run run',
        Pushed-append ensure_allocated low high f ctx c1 c2 bs cs p q,
        omega (arith, d, d'),
        e',
      )

  ptrs_lem :
      (ps : List ℕ) (ctx : StackInitCtx S)
      → IsGood ensure_allocated low high f ctx
      → HasRoom ensure_allocated low high f ctx (length ps * 8)
      → ctx.user_sp % 8 ≡ 0
      → Aligned ensure_allocated low high f
          (push_ptrs ensure_allocated ps ctx)
          ctx
          (words ps)
          (length ps * 8)
  ptrs_lem ps ctx g l m =
      let (ctx', run, p) = push_ptrs_lem ensure_allocated low high f ps ctx g l m in
      let d : ctx'.user_sp + length ps * 8 ≡ ctx.user_sp =
        ap (λ (t : ℕ). ctx'.user_sp + t) (sym (length-words ps)) ∙ p.down in
      (ctx', run, p, d, omega (arith, d))

  auxv_lem :
      (l : List (ℕ × ℕ)) (ctx : StackInitCtx S)
      → IsGood ensure_allocated low high f ctx
      → HasRoom ensure_allocated low high f ctx (length l * 16)
      → ctx.user_sp % 8 ≡ 0
      → Aligned ensure_allocated low high f
          (push_auxv ensure_allocated l ctx)
          ctx
          (auxv_bytes l)
          (length l * 16)
  auxv_lem l ctx g h m =
      let (ctx', run, p) = push_auxv_lem ensure_allocated low high f l ctx g h m in
      let d : ctx'.user_sp + length l * 16 ≡ ctx.user_sp =
        ap (λ (t : ℕ). ctx'.user_sp + t) (sym (length-auxv_bytes l)) ∙ p.down in
      (ctx', run, p, d, omega (arith, d))

  vectors_lem :
      (random_pos : ℕ) (envp argv : List ℕ) (auxv : List (ℕ × ℕ)) (ctx : StackInitCtx S)
      → IsGood ensure_allocated low high f ctx
      → HasRoom ensure_allocated low high f ctx
          (length auxv * 16 + length envp * 8 + length argv * 8 + 48)
      → ctx.user_sp % 8 ≡ 0
      → Aligned ensure_allocated low high f
          (push_vectors ensure_allocated random_pos envp argv auxv ctx)
          ctx
          (vectors_bytes argv envp auxv random_pos)
          (vectors_size argv envp auxv)
  unfolding push_vectors
  vectors_lem random_pos envp argv auxv ctx g l m =
      Aligned-bind _ _ _ _ _ _ _ (usize_lem ensure_allocated low high f 0 ctx g (omega arith) m)
        λ c1 g1 d1 m1.
          Aligned-bind _ _ _ _ _ _ _
            (usize_lem ensure_allocated low high f 0 c1 g1 (omega arith) m1)
            λ c2 g2 d2 m2.
              Aligned-bind _ _ _ _ _ _ _
                (usize_lem ensure_allocated low high f at_random c2 g2 (omega arith) m2)
                λ c3 g3 d3 m3.
                  Aligned-bind _ _ _ _ _ _ _
                    (usize_lem ensure_allocated low high f random_pos c3 g3 (omega arith) m3)
                    λ c4 g4 d4 m4.
                      Aligned-bind _ _ _ _ _ _ _ (auxv_lem auxv c4 g4 (omega arith) m4)
                        λ c5 g5 d5 m5.
                          Aligned-bind _ _ _ _ _ _ _
                            (usize_lem ensure_allocated low high f 0 c5 g5 (omega arith) m5)
                            λ c6 g6 d6 m6.
                              Aligned-bind _ _ _ _ _ _ _ (ptrs_lem envp c6 g6 (omega arith) m6)
                                λ c7 g7 d7 m7.
                                  Aligned-bind _ _ _ _ _ _ _
                                    (usize_lem ensure_allocated low high f 0 c7 g7 (omega arith) m7)
                                    λ c8 g8 d8 m8. ptrs_lem argv c8 g8 (omega arith) m8

  -- What the user finds on a new stack.
  pub record Layout (args envs : List (List ℕ)) (auxv : List (ℕ × ℕ)) (time time' : ℕ)
      (ctx : StackInitCtx S) : Type 0 where
    pub argv : List VirtAddr
    pub envp : List VirtAddr
    pub random_pos : VirtAddr
    pub aligned : ctx.user_sp % 8 ≡ 0
    pub vectors :
        Holds
          (view ensure_allocated low high f ctx)
          ctx.user_sp
          (stack_words args argv envp auxv random_pos)
    pub arg_strs : Points (view ensure_allocated low high f ctx) ctx.user_sp argv args
    pub env_strs : Points (view ensure_allocated low high f ctx) ctx.user_sp envp envs
    pub random :
        Holds (view ensure_allocated low high f ctx) random_pos (words (time' ∷ time ∷ 0 ∷ []))

  runs :
      (time time' : ℕ) (args envs : List (List ℕ)) (argv envp : List ℕ) (auxv : List (ℕ × ℕ))
      (ctx c1 c2 c3 c4 : StackInitCtx S)
      → push_random ensure_allocated time time' ctx ≡ ok c1
      → push_texts ensure_allocated envs args c1 ≡ ok ((envp, argv), c2)
      → push_vectors ensure_allocated c1.user_sp envp argv auxv c2 ≡ ok c3
      → push_usize ensure_allocated (length args) c3 ≡ ok c4
      → c4.user_sp + 8 ≡ c3.user_sp
      → init_stack_impl ensure_allocated time time' args envs auxv ctx
        ≡ ok ((c4.user_sp, c4.user_sp + 8), c4)
  unfolding init_stack_impl
  runs time time' args envs argv envp auxv ctx c1 c2 c3 c4 r1 r2 r3 r4 d =
      rw (r1, r2, r3, r4) (ap (λ (n : ℕ). ok ((c4.user_sp, n), c4)) (sym d))

  assemble :
      (time time' : ℕ) (args envs : List (List ℕ)) (auxv : List (ℕ × ℕ))
      (ctx c1 c2 c3 c4 : StackInitCtx S) (argv envp : List ℕ)
      → Pushed ensure_allocated low high f ctx (words (time' ∷ time ∷ 0 ∷ [])) c1
      → Texts ensure_allocated low high f c1 args envs argv envp c2
      → Pushed ensure_allocated low high f c2 (vectors_bytes argv envp auxv c1.user_sp) c3
      → Pushed ensure_allocated low high f c3 (le_bytes 8 (length args)) c4
      → c4.user_sp % 8 ≡ 0
      → Layout args envs auxv time time' c4
  assemble time time' args envs auxv ctx c1 c2 c3 c4 argv envp p1 t p3 p4 m4 =
      let later = Pushed-append ensure_allocated low high f c2 c3 c4 _ _ p3 p4 in
      let below : c4.user_sp ≤ c2.user_sp = omega (arith, later.down) in
      record {
        argv = argv;
        envp = envp;
        random_pos = c1.user_sp;
        aligned = m4;
        vectors =
            subst (Holds (view ensure_allocated low high f c4) c4.user_sp)
              (vectors-eq args argv envp auxv c1.user_sp) later.holds;
        arg_strs = Points-mono _ _ c2.user_sp _ argv args below later.keeps t.arg_strs;
        env_strs = Points-mono _ _ c2.user_sp _ envp envs below later.keeps t.env_strs;
        random =
            Holds-cong _ _ c1.user_sp (words (time' ∷ time ∷ 0 ∷ []))
              (λ a l. later.keeps a (omega (arith, t.below)) ∙ t.keeps a l) p1.holds;
      }

  -- The parts together, on a stack with room for all of them.
  pub init_stack_impl_lem :
      (time time' : ℕ) (args envs : List (List ℕ)) (auxv : List (ℕ × ℕ)) (ctx : StackInitCtx S)
      → IsGood ensure_allocated low high f ctx
      → ctx.user_sp % 8 ≡ 0
      → strs_size envs % 8 ≡ 0
      → HasRoom ensure_allocated low high f ctx (stack_size args envs auxv)
      → (ctx' : StackInitCtx S) × (init_stack_impl ensure_allocated time time' args envs auxv ctx
          ≡ ok ((ctx'.user_sp, ctx'.user_sp + 8), ctx'))
        × Layout args envs auxv time time' ctx'
  init_stack_impl_lem time time' args envs auxv ctx g m e l =
      let (c1, run1, p1, d1, m1) =
        random_lem ensure_allocated low high f time time' ctx g (omega arith) m in
      let (argv, envp, c2, run2, t) =
        texts_lem ensure_allocated low high f args envs c1 p1.good m1 e (omega (arith, d1)) in
      let la = length-Points _ _ argv args t.arg_strs in
      let le = length-Points _ _ envp envs t.env_strs in
      let room : low * 4096 + (length auxv * 16 + length envp * 8 + length argv * 8 + 56)
          ≤ c2.user_sp =
        room_left low ctx.user_sp c1.user_sp c2.user_sp args envs argv envp auxv l d1 t.size la
          le in
      let (c3, run3, p3, d3, m3) =
        vectors_lem c1.user_sp envp argv auxv c2 t.good (less_room low c2.user_sp _ room)
          t.aligned in
      let (c4, run4, p4, d4, m4) =
        usize_lem ensure_allocated low high f (length args) c3 p3.good
          (last_room low c2.user_sp c3.user_sp argv envp auxv room d3) m3 in
      (
        c4,
        runs time time' args envs argv envp auxv ctx c1 c2 c3 c4 run1 run2 run3 run4 d4,
        assemble time time' args envs auxv ctx c1 c2 c3 c4 argv envp p1 t p3 p4 m4,
      )
