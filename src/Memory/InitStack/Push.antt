-- ===== src/Memory/InitStack/Push.antt =====
-- What pushing bytes onto a user stack does to its contents.
use asynclear.Prelude.{
  ℕ, zero, suc, ◌+◌, ◌-◌, ◌*◌, ◌/◌, ◌%◌, ◌≤◌, ◌<◌, ◌≡◌, refl, ◌∙◌, ap, List, [], ◌∷◌, ◌++◌, length,
  length-append, some, ◌==◌, leb, inl, inr, true, false, KResult, ok, ◌>>=◌, tabulate,
  length-tabulate, arith, ◌⊎◌, and_mask, lt_cases, subst,
}
use asynclear.Config.{page_size}
use asynclear.Memory.Address.{VirtPageNum, PhysPageNum, VirtAddr, sub, vpn_floor, page_offset}
use asynclear.Memory.InitStack.{
  StackInitCtx, le_bytes, write_bytes, store, sp_down, push_byte, push_usize, push_bytes, push_ptrs,
  push_auxv, align,
}
use asynclear.Memory.InitStack.View.{Holds, Holds-cong, Holds-append, physical, written, kept}

abbrev pub words : List ℕ → List ℕ
words [] = []
words (n ∷ ns) = le_bytes 8 n ++ words ns

pub length-words : (ns : List ℕ) → length (words ns) ≡ length ns * 8
length-words [] = refl
length-words (n ∷ ns) = omega (arith, length-words ns)

-- The bytes of the vector; a pair has its type in front.
abbrev pub auxv_bytes : List (ℕ × ℕ) → List ℕ
auxv_bytes [] = []
auxv_bytes ((type, value) ∷ rest) = auxv_bytes rest ++ words (type ∷ value ∷ [])

pub length-auxv_bytes : (l : List (ℕ × ℕ)) → length (auxv_bytes l) ≡ length l * 16
length-auxv_bytes [] = refl
length-auxv_bytes ((t, v) ∷ rest) =
    omega (arith, length-auxv_bytes rest, length-append (auxv_bytes rest) (words (t ∷ v ∷ [])))

-- From the page below `high` down to `low`, one page after the other, each can be had a frame for, and
-- different pages have different frames. `Ready vpn s` says that in `s` the next page to ask for is the one
-- below `vpn`.
pub record Frames {S : Type 0} (ensure_allocated : VirtPageNum → S → KResult (PhysPageNum × S))
    (low high : VirtPageNum) : Type 1 where
  pub Ready : VirtPageNum → S → Type 0
  pub frame_of : VirtPageNum → PhysPageNum
  pub injective : (i j : VirtPageNum) → frame_of i ≡ frame_of j → i ≡ j
  pub ready :
      (vpn : VirtPageNum) (s : S)
      → low ≤ vpn
      → vpn < high
      → Ready (vpn + 1) s
      → (s' : S) × (ensure_allocated vpn s ≡ ok (frame_of vpn, s')) × Ready vpn s'

module _ {S : Type 0} (ensure_allocated : VirtPageNum → S → KResult (PhysPageNum × S))
    (low high : VirtPageNum) (f : Frames ensure_allocated low high) where
  -- The byte that the user sees at an address.
  abbrev pub view : StackInitCtx S → VirtAddr → ℕ
  view ctx a = ctx.memory (physical f.frame_of f.injective a)

  -- The page of the stack pointer is the one that is written to, except at the start of a page.
  pub record IsGood (ctx : StackInitCtx S) : Type 0 where
    pub ready : f.Ready (ctx.user_sp / 4096) ctx.area
    pub page : 0 < ctx.user_sp % 4096 → ctx.page ≡ some (f.frame_of (ctx.user_sp / 4096))
    pub top : ctx.user_sp ≤ high * 4096

  -- The bytes lie below the old contents, and these are as before.
  pub record Pushed (ctx : StackInitCtx S) (bytes : List ℕ) (ctx' : StackInitCtx S) : Type 0 where
    pub good : IsGood ctx'
    pub down : ctx'.user_sp + length bytes ≡ ctx.user_sp
    pub keeps : (a : VirtAddr) → ctx.user_sp ≤ a → view ctx' a ≡ view ctx a
    pub holds : Holds (view ctx') ctx'.user_sp bytes

  pub Pushed-nil : (ctx : StackInitCtx S) → IsGood ctx → Pushed ctx [] ctx
  Pushed-nil ctx g = record { good = g; down = omega arith; keeps = λ a l. refl; holds = tt }

  pub Pushed-append :
      (ctx ctx1 ctx2 : StackInitCtx S) (bs cs : List ℕ)
      → Pushed ctx bs ctx1
      → Pushed ctx1 cs ctx2
      → Pushed ctx (cs ++ bs) ctx2
  Pushed-append ctx ctx1 ctx2 bs cs p q = record {
    good = q.good;
    down = omega (arith, length-append cs bs, p.down, q.down);
    keeps = λ a l. q.keeps a (omega (arith, p.down)) ∙ p.keeps a l;
    holds =
        Holds-append (view ctx2) ctx2.user_sp ctx1.user_sp cs bs q.down q.holds
          (Holds-cong (view ctx1) (view ctx2) ctx1.user_sp bs q.keeps p.holds);
  }

  -- What a block ends up in: a page that has just been had, or the one that is written to.
  abbrev Fits : ℕ → ℕ → Type 0
  Fits sp len = (sp % 4096 ≡ 0) ⊎ (len ≤ sp % 4096)

  down_lem :
      (len : ℕ) (ctx : StackInitCtx S)
      → IsGood ctx
      → low * 4096 + len ≤ ctx.user_sp
      → 0 < len
      → len ≤ 4096
      → Fits ctx.user_sp len
      → (ctx1 : StackInitCtx S) × (sp_down ensure_allocated len ctx ≡ ok ctx1)
        × (ctx1.user_sp + len ≡ ctx.user_sp)
        × (ctx1.page ≡ some (f.frame_of (ctx1.user_sp / 4096)))
        × f.Ready (ctx1.user_sp / 4096) ctx1.area
        × (ctx1.memory ≡ ctx.memory)
  unfolding sp_down sub vpn_floor
  down_lem len ctx g l p b (inl m) =
      let next : ctx.user_sp / 4096 ≡ (ctx.user_sp - len) / 4096 + 1 = omega arith in
      let r =
        f.ready ((ctx.user_sp - len) / 4096) ctx.area (omega arith) (omega arith)
          (subst (λ (t : ℕ). f.Ready t ctx.area) next g.ready) in
      let enough : leb len ctx.user_sp ≡ true = ground arith in
      let start : ((ctx.user_sp - len + len) % page_size == 0) ≡ true = ground (arith, m) in
      (
        record ctx {
          user_sp = ctx.user_sp - len;
          page = some (f.frame_of ((ctx.user_sp - len) / 4096));
          area = r.0;
        },
        rw (sp_down, enough, start, r.1) refl,
        omega arith,
        refl,
        r.2,
        refl,
      )
  down_lem len ctx g l p b (inr m) =
      let enough : leb len ctx.user_sp ≡ true = ground arith in
      let inside : ((ctx.user_sp - len + len) % page_size == 0) ≡ false = ground (arith, m) in
      let same : ctx.user_sp / 4096 ≡ (ctx.user_sp - len) / 4096 = omega arith in
      (
        record ctx { user_sp = ctx.user_sp - len },
        rw (sp_down, enough, inside) refl,
        omega arith,
        g.page (omega arith) ∙ ap (λ (t : ℕ). some (f.frame_of t)) same,
        subst (λ (t : ℕ). f.Ready t ctx.area) same g.ready,
        refl,
      )

  store_lem :
      (bs : List ℕ) (ctx ctx1 : StackInitCtx S)
      → f.Ready (ctx1.user_sp / 4096) ctx1.area
      → ctx1.page ≡ some (f.frame_of (ctx1.user_sp / 4096))
      → ctx1.user_sp + length bs ≡ ctx.user_sp
      → ctx1.memory ≡ ctx.memory
      → ctx1.user_sp % 4096 + length bs ≤ 4096
      → ctx1.user_sp ≤ high * 4096
      → (ctx2 : StackInitCtx S) × (store bs ctx1 ≡ ok ctx2) × Pushed ctx bs ctx2
  unfolding store page_offset
  store_lem bs ctx ctx1 r e d m h t =
      let o : page_offset ctx1.user_sp ≡ ctx1.user_sp % 4096 = and_mask 12 ctx1.user_sp in
      let memory = write_bytes ctx1.memory (physical f.frame_of f.injective ctx1.user_sp) bs in
      (
        record ctx1 { memory = memory },
        rw (store, e, o) refl,
        record {
          good = record { ready = r; page = λ _. e; top = t };
          down = d;
          keeps = λ a l.
              kept f.frame_of f.injective ctx1.memory ctx1.user_sp a bs h (omega (arith, d))
              ∙ ap (λ (n : ℕ → ℕ). n (physical f.frame_of f.injective a)) m;
          holds = written f.frame_of f.injective ctx1.memory ctx1.user_sp bs h;
        },
      )

  Fits-end :
      (sp len sp1 : ℕ)
      → sp1 + len ≡ sp
      → 0 < len
      → len ≤ 4096
      → Fits sp len
      → sp1 % 4096 + len ≤ 4096
  Fits-end sp len sp1 d p b (inl m) = omega arith
  Fits-end sp len sp1 d p b (inr m) = omega arith

  block_lem :
      (bs : List ℕ) (ctx : StackInitCtx S)
      → IsGood ctx
      → low * 4096 + length bs ≤ ctx.user_sp
      → 0 < length bs
      → length bs ≤ 4096
      → Fits ctx.user_sp (length bs)
      → (ctx2 : StackInitCtx S) × ((sp_down ensure_allocated (length bs) ctx >>= store bs)
          ≡ ok ctx2)
        × Pushed ctx bs ctx2
  block_lem bs ctx g l p b fit =
      let (ctx1, run, d, e, r, m) = down_lem (length bs) ctx g l p b fit in
      let s =
        store_lem bs ctx ctx1 r e d m (Fits-end ctx.user_sp (length bs) ctx1.user_sp d p b fit)
          (omega (arith, d, g.top)) in
      (s.0, rw run (s.1), s.2)

  -- The call succeeds and pushes the bytes.
  abbrev pub Pushes : KResult (StackInitCtx S) → StackInitCtx S → List ℕ → Type 0
  Pushes r ctx bs = (ctx' : StackInitCtx S) × (r ≡ ok ctx') × Pushed ctx bs ctx'

  -- There is room for so many bytes.
  abbrev pub HasRoom : StackInitCtx S → ℕ → Type 0
  HasRoom ctx n = low * 4096 + n ≤ ctx.user_sp

  pub push_byte_lem :
      (b : ℕ) (ctx : StackInitCtx S)
      → IsGood ctx
      → HasRoom ctx 1
      → Pushes (push_byte ensure_allocated b ctx) ctx (b ∷ [])
  unfolding push_byte
  push_byte_lem b ctx g l =
      block_lem (b ∷ []) ctx g l (omega arith) (omega arith)
        (elim (lt_cases 0 (ctx.user_sp % 4096)) [ inl h ↦ inr h | inr h ↦ inl (omega arith) ])

  pub push_usize_lem :
      (n : ℕ) (ctx : StackInitCtx S)
      → IsGood ctx
      → HasRoom ctx 8
      → ctx.user_sp % 8 ≡ 0
      → Pushes (push_usize ensure_allocated n ctx) ctx (le_bytes 8 n)
  unfolding push_usize
  push_usize_lem n ctx g l m =
      block_lem (le_bytes 8 n) ctx g l (omega arith) (omega arith)
        (elim (lt_cases 0 (ctx.user_sp % 4096)) [
          | inl h ↦ inr (omega arith)
          | inr h ↦ inl (omega arith)
        ])

  pub push_bytes_lem :
      (bs : List ℕ) (ctx : StackInitCtx S)
      → IsGood ctx
      → HasRoom ctx (length bs)
      → Pushes (push_bytes ensure_allocated bs ctx) ctx bs
  unfolding push_bytes
  push_bytes_lem [] ctx g l = (ctx, refl, Pushed-nil ctx g)
  push_bytes_lem (b ∷ bs) ctx g l =
      let (ctx1, run, p) = push_bytes_lem bs ctx g (omega arith) in
      let (ctx2, run', q) = push_byte_lem b ctx1 p.good (omega (arith, p.down)) in
      (ctx2, rw run run', Pushed-append ctx ctx1 ctx2 bs (b ∷ []) p q)

  pub push_ptrs_lem :
      (ps : List ℕ) (ctx : StackInitCtx S)
      → IsGood ctx
      → HasRoom ctx (length ps * 8)
      → ctx.user_sp % 8 ≡ 0
      → Pushes (push_ptrs ensure_allocated ps ctx) ctx (words ps)
  unfolding push_ptrs
  push_ptrs_lem [] ctx g l m = (ctx, refl, Pushed-nil ctx g)
  push_ptrs_lem (n ∷ ns) ctx g l m =
      let (ctx1, run, p) = push_ptrs_lem ns ctx g (omega arith) m in
      let d : ctx1.user_sp + length ns * 8 ≡ ctx.user_sp = omega (arith, p.down, length-words ns) in
      let (ctx2, run', q) = push_usize_lem n ctx1 p.good (omega arith) (omega arith) in
      (ctx2, rw run run', Pushed-append ctx ctx1 ctx2 (words ns) (le_bytes 8 n) p q)

  pub push_auxv_lem :
      (l : List (ℕ × ℕ)) (ctx : StackInitCtx S)
      → IsGood ctx
      → HasRoom ctx (length l * 16)
      → ctx.user_sp % 8 ≡ 0
      → Pushes (push_auxv ensure_allocated l ctx) ctx (auxv_bytes l)
  unfolding push_auxv
  push_auxv_lem [] ctx g l m = (ctx, refl, Pushed-nil ctx g)
  push_auxv_lem ((t, v) ∷ rest) ctx g l m =
      let (ctx1, run1, p) = push_usize_lem v ctx g (omega arith) m in
      let (ctx2, run2, q) =
        push_usize_lem t ctx1 p.good (omega (arith, p.down)) (omega (arith, p.down)) in
      let pq = Pushed-append ctx ctx1 ctx2 (le_bytes 8 v) (le_bytes 8 t) p q in
      let (ctx3, run3, r) =
        push_auxv_lem rest ctx2 q.good (omega (arith, p.down, q.down))
          (omega (arith, p.down, q.down)) in
      (
        ctx3,
        rw (run1, run2) run3,
        Pushed-append ctx ctx2 ctx3 (words (t ∷ v ∷ [])) (auxv_bytes rest) pq r,
      )

  Holds-tabulate : (v : VirtAddr → ℕ) (a : VirtAddr) (n : ℕ) → Holds v a (tabulate v a n)
  Holds-tabulate v a zero = tt
  Holds-tabulate v a (suc n) = (refl, Holds-tabulate v (a + 1) n)

  -- What lies in the gap that rounding down leaves.
  abbrev pub padding : StackInitCtx S → List ℕ
  padding ctx = tabulate (view ctx) (ctx.user_sp - ctx.user_sp % 8) (ctx.user_sp % 8)

  pub align-Pushed :
      (ctx : StackInitCtx S) → IsGood ctx → Pushed ctx (padding ctx) (align ensure_allocated ctx)
  align-Pushed ctx g =
      let sp' = ctx.user_sp - ctx.user_sp % 8 in
      let n = length-tabulate (view ctx) sp' (ctx.user_sp % 8) in
      let same : ctx.user_sp / 4096 ≡ sp' / 4096 = omega arith in
      record {
        good = record {
          ready = subst (λ (t : ℕ). f.Ready t ctx.area) same g.ready;
          page = λ h. g.page (omega arith) ∙ ap (λ (t : ℕ). some (f.frame_of t)) same;
          top = omega (arith, g.top);
        };
        down = omega (arith, n);
        keeps = λ a l. refl;
        holds = Holds-tabulate (view ctx) sp' (ctx.user_sp % 8);
      }
